-- ===== src/Bridge/Forward.antt =====
-- emitActivity, emitTransferIfNeeded and forwardDecisions: what becomes of the engine's decisions.
use myflowhub_clipboardnode.Base.{
  suc, Bool, true, false, Option, none, some, List, [], ◌∷◌, Text, codes, Result, ok, err,
  if◌then◌else◌,
}
use myflowhub_clipboardnode.Runtime.{Action, Decision}
use myflowhub_clipboardnode.History.{append_activity}
use myflowhub_clipboardnode.History
use myflowhub_clipboardnode.Engine.{is_unset, status_of}
use myflowhub_clipboardnode.Bridge.{
  Host, Outside, Activity, activity_updated, transfer_update, of_activity, of_transfer,
  activity_from_decision, entry_of, runtime_of, emit, emit_error, emit_history, emit_status,
}

-- The state of the transfer that a decision reports.
abbrev pub transfer_state : Action → Option Text
transfer_state Action.transfer_published = some (codes "manifest_published")
transfer_state Action.transfer_pending = some (codes "manifest_pending")
transfer_state Action.transfer_unsupported = some (codes "unsupported")
transfer_state _ = none

module _ {T : Type 0} (outside : Outside T) where
  abbrev emit_activity_event : Host T → Activity → Host T
  emit_activity_event h a = emit outside h (record {
    id = [];
    name = activity_updated;
    payload = of_activity a;
    good = true;
    error = none;
  })

  -- emitActivity once the history has answered
  unfoldable pub activity_appended : Host T → Activity → History.Store × Result Bool → Host T
  activity_appended h a (history, err e) =
      emit_activity_event (emit_error outside (record h { history = history }) [] e) a
  activity_appended h a (history, ok true) =
      emit_history outside (emit_activity_event (record h { history = history }) a) []
  activity_appended h a (history, ok false) = emit_activity_event (record h { history = history }) a

  -- The activity that is made of a decision.
  unfoldable pub activity_of : Host T → Decision → Activity
  unfolding activity_from_decision status_of
  activity_of h d =
      activity_from_decision d h.cfg
        (runtime_of (status_of outside.transport outside.envs h.eng).runtime).last_updated

  -- emitActivity
  unfoldable pub emit_activity : Host T → Decision → Host T
  unfolding activity_appended
  emit_activity h d =
      if is_unset d.action
      then h
      else activity_appended (record h { moments = suc h.moments }) (activity_of h d)
          (append_activity outside.platform outside.history_disk h.history
            (entry_of (activity_of h d)) h.cfg (outside.moment h.moments))

  -- emitTransferIfNeeded
  unfoldable pub emit_transfer_if_needed : Host T → Decision → Host T
  emit_transfer_if_needed h d = elim (transfer_state d.action) [
    | none ↦ h
    | some state ↦ emit outside h (record {
      id = [];
      name = transfer_update;
      payload = of_transfer (record {
        id = d.event_id;
        state = state;
        byte_size = d.size;
        hash_prefix = d.hash_prefix;
        detail = codes "clipboard.transfer.v1";
      });
      good = true;
      error = none;
    })
  ]

  unfoldable pub forward : Host T → List Decision → Host T
  unfolding emit_activity emit_transfer_if_needed
  forward h [] = h
  forward h (d ∷ ds) =
      emit_status outside
        (emit_transfer_if_needed
          (emit_activity (record h { eng = record h.eng { decisions = ds } }) d) d)
        [] none

  -- One round of forwardDecisions: the next decision of the engine's queue, if there is one.
  unfoldable pub forward_decision : Host T → Host T
  unfolding forward
  forward_decision h = forward h h.eng.decisions
