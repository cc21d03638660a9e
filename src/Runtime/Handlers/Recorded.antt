-- ===== src/Runtime/Handlers/Recorded.antt =====
-- Recording a decision leaves alone everything but the status, the decision queue and the clock.
use myflowhub_clipboardnode.Base.{
  ℕ, ◌≡◌, refl, Bool, Option, List, Text, Error, ltb, length, Bool-cases, inl, inr,
}
use myflowhub_clipboardnode.Dedupe.{BoundedSet}
use myflowhub_clipboardnode.Config.{Config}
use myflowhub_clipboardnode.Runtime.{
  Runtime, Env, Decision, PendingText, Log, record_decision, record_failure, emit_decision,
}

-- The fields that recording keeps.
pub record Kept : Type 0 where
  pub cfg : Config
  pub node_id : ℕ
  pub instance_id : Text
  pub has_clipboard : Bool
  pub has_topic_bus : Bool
  pub recent_events : BoundedSet
  pub suppress_hashes : BoundedSet
  pub last_local_hash : Text
  pub pending_remote : List (Text × PendingText)
  pub pending_order : List Text
  pub started : Bool
  pub subscribed : Bool
  pub watching : Bool
  pub watch_cancel : Option ℕ
  pub log : Log

abbrev pub kept : Runtime → Kept
kept r = record {
  cfg = r.cfg;
  node_id = r.node_id;
  instance_id = r.instance_id;
  has_clipboard = r.has_clipboard;
  has_topic_bus = r.has_topic_bus;
  recent_events = r.recent_events;
  suppress_hashes = r.suppress_hashes;
  last_local_hash = r.last_local_hash;
  pending_remote = r.pending_remote;
  pending_order = r.pending_order;
  started = r.started;
  subscribed = r.subscribed;
  watching = r.watching;
  watch_cancel = r.watch_cancel;
  log = r.log;
}

module _ (env : Env) where
  kept-emit_decision : (r : Runtime) (d : Decision) → kept (emit_decision r d) ≡ kept r
  unfolding emit_decision
  kept-emit_decision r d = elim (Bool-cases (ltb (length r.decisions) r.decision_buffer)) [
    | inl e ↦ rw e refl
    | inr e ↦ rw e refl
  ]

  pub kept-record_decision : (r : Runtime) (d : Decision) → kept (record_decision env r d) ≡ kept r
  unfolding record_decision
  kept-record_decision r d = kept-emit_decision _ d

  pub kept-record_failure :
      (r : Runtime) (d : Decision) (e : Error) → kept (record_failure env r d e) ≡ kept r
  unfolding record_failure
  kept-record_failure r d e = kept-record_decision r d
