-- ===== src/Runtime/Remote.antt =====
-- HandleTopicBusMessage, handleTransferManifest and ApplyPending.
use myflowhub_clipboardnode.Base.{
  ℕ, suc, not, none, some, List, [], Text, codes, text_eq, is_empty, trim_space, is_some,
  if◌then◌else◌, ok, err, wrapped, clipboard_required, event_id_required, pending_not_found,
}
use myflowhub_clipboardnode.Dedupe.{add, contains}
use myflowhub_clipboardnode.Config.{TopicRoute}
use myflowhub_clipboardnode.Event.{
  Platform, TextEvent, Manifest, parse_text_event, parse_manifest, is_local_origin, text_event_name,
  transfer_event_name,
}
use myflowhub_clipboardnode.Runtime.{
  Runtime, Env, Decision, Action, Outcome, PendingText, decision, decide, fail_with, hash_prefix,
  perform, find_pending, disabled, write_text, ignored_topic, ignored_topic_policy, ignored_name,
  ignored_local_origin, ignored_duplicate, remote_pending, remote_applied, transfer_pending,
  validation_failed, clipboard_write_failed, unset,
}
use myflowhub_clipboardnode.Runtime.Bus.{topic_route_for}
use myflowhub_clipboardnode.Runtime.Pending.{add_pending, delete_pending}

pub record Message : Type 0 where
  pub topic : Text
  pub name : Text
  pub payload : List ℕ

abbrev pub on_topic : Action → Text → Decision
on_topic a t = record (decision a) { topic = t }

-- A decision about a remote event, with its text or without.
abbrev pub of_event : Action → TextEvent → Text → Decision
of_event a e t = record {
  action = a;
  event_id = e.event_id;
  topic = t;
  size = e.size;
  hash_prefix = hash_prefix e.sha256;
  text = [];
}

abbrev pub of_manifest : Action → Manifest → Text → Decision
of_manifest a m t = record {
  action = a;
  event_id = m.event_id;
  topic = t;
  size = m.size;
  hash_prefix = hash_prefix m.sha256;
  text = [];
}

-- A decision about a pending event, which keeps the prefix that was computed when it arrived.
abbrev pub of_pending : Action → PendingText → Decision
of_pending a v = record (of_event a v.event v.topic) { hash_prefix = v.hash_prefix }

module _ (env : Env) where
  unfoldable pub accept_manifest : Runtime → Manifest → Text → Outcome
  accept_manifest r m t =
      if is_local_origin m.origin_node m.origin_instance_id r.node_id r.instance_id
      then decide env r (of_manifest ignored_local_origin m t)
      else if contains r.recent_events m.event_id
      then decide env r (of_manifest ignored_duplicate m t)
      else decide env (record r { recent_events = add r.recent_events m.event_id })
          (of_manifest transfer_pending m t)

  -- The write of a remote text through the adapter, and what follows it.
  unfoldable pub apply_there : Runtime → TextEvent → Text → Outcome
  apply_there r e t =
      let written = perform env r (write_text e.text) in
      elim written.1 [
        | some failure ↦
            fail_with env written.0 (of_event clipboard_write_failed e t) failure
              (wrapped (codes "write clipboard text") [] failure)
        | none ↦
            decide env
              (record written.0 {
                recent_events = add written.0.recent_events e.event_id;
                suppress_hashes = add written.0.suppress_hashes e.sha256;
              })
              (record (of_event remote_applied e t) { text = e.text })
      ]

  -- A remote text that is applied at once.
  unfoldable pub apply_now : Runtime → TextEvent → Text → Outcome
  unfolding apply_there
  apply_now r e t =
      if not r.has_clipboard
      then fail_with env r (of_event clipboard_write_failed e t) clipboard_required
          clipboard_required
      else apply_there r e t

  -- The pending entry of an event; its time is a reading of the clock.
  abbrev pub arrived : Runtime → TextEvent → Text → PendingText
  arrived r e t = record {
    event = e;
    topic = t;
    hash_prefix = hash_prefix e.sha256;
    received_at = env.now r.clock_reads;
  }

  unfoldable pub hold : Runtime → TextEvent → Text → Outcome
  hold r e t =
      decide env (add_pending (record r { clock_reads = suc r.clock_reads }) (arrived r e t))
        (record (of_event remote_pending e t) { text = e.text })

  unfoldable pub accept_event : Runtime → TextEvent → Text → Outcome
  unfolding apply_now hold
  accept_event r e t =
      if is_local_origin e.origin_node e.origin_instance_id r.node_id r.instance_id
      then decide env r (of_event ignored_local_origin e t)
      else if contains r.recent_events e.event_id
      then decide env r (of_event ignored_duplicate e t)
      else if is_some (find_pending e.event_id r.pending_remote)
      then decide env r (of_event ignored_duplicate e t)
      else if not r.cfg.auto_apply
      then hold r e t
      else apply_now r e t

  unfoldable pub apply_found_there : Runtime → Text → PendingText → Outcome
  apply_found_there r id v =
      let written = perform env r (write_text v.event.text) in
      elim written.1 [
        | some failure ↦
            fail_with env written.0 (of_pending clipboard_write_failed v) failure
              (wrapped (codes "write clipboard text") [] failure)
        | none ↦
            let dropped = delete_pending written.0 id in
            decide env
              (record dropped {
                recent_events = add dropped.recent_events v.event.event_id;
                suppress_hashes = add dropped.suppress_hashes v.event.sha256;
              })
              (record (of_pending remote_applied v) { text = v.event.text })
      ]

  unfoldable pub apply_found : Runtime → Text → PendingText → Outcome
  unfolding apply_found_there
  apply_found r id v =
      if not r.has_clipboard
      then fail_with env r (of_pending clipboard_write_failed v) clipboard_required
          clipboard_required
      else apply_found_there r id v

  -- ApplyPending
  unfoldable pub apply_pending : Runtime → Text → Outcome
  unfolding apply_found
  apply_pending r event_id =
      let id = trim_space event_id in
      if is_empty id
      then (r, decision unset, some event_id_required)
      else elim (find_pending id r.pending_remote) [
        | none ↦ (r, decision unset, some (pending_not_found id))
        | some v ↦ apply_found r id v
      ]

module _ (env : Env) (p : Platform) where
  unfoldable pub handle_manifest : Runtime → Message → Outcome
  unfolding accept_manifest
  handle_manifest r m = elim (parse_manifest p m.payload) [
    | err e ↦ fail_with env r (on_topic validation_failed m.topic) e e
    | ok manifest ↦ accept_manifest env r manifest m.topic
  ]

  unfoldable pub handle_text : Runtime → Message → Outcome
  unfolding accept_event
  handle_text r m = elim (parse_text_event p m.payload r.cfg.max_inline_bytes) [
    | err e ↦ fail_with env r (on_topic validation_failed m.topic) e e
    | ok e ↦ accept_event env r e m.topic
  ]

  -- A message on a route.
  unfoldable pub handle_routed : Runtime → TopicRoute → Message → Outcome
  unfolding handle_manifest handle_text
  handle_routed r route m =
      if not route.sync_to_local
      then decide env r (on_topic ignored_topic_policy m.topic)
      else if text_eq m.name transfer_event_name
      then handle_manifest r m
      else if text_eq m.name text_event_name
      then handle_text r m
      else decide env r (on_topic ignored_name m.topic)

  -- HandleTopicBusMessage
  unfoldable pub handle_topic_bus_message : Runtime → Message → Outcome
  unfolding handle_routed
  handle_topic_bus_message r m =
      if not r.cfg.enabled
      then decide env r (decision disabled)
      else elim (topic_route_for r.cfg m.topic) [
        | none ↦ decide env r (on_topic ignored_topic m.topic)
        | some route ↦ handle_routed r route m
      ]
