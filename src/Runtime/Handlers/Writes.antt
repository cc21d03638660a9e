-- ===== src/Runtime/Handlers/Writes.antt =====
-- When a message from the hub reaches the clipboard.
use myflowhub_clipboardnode.Base.{
  ◌≡◌, refl, ap, ◌∙◌, inl, inr, true, false, Option, none, some, ◌∷◌, Text, text_eq, is_some,
  is_empty, clipboard_required, Error, ok, Bool-cases, Option-cases, Result-cases,
}
use myflowhub_clipboardnode.Base.Strings.Laws.{text_eq→eq}
use myflowhub_clipboardnode.Dedupe.{contains}
use myflowhub_clipboardnode.Config.{TopicRoute}
use myflowhub_clipboardnode.Event.{
  Platform, TextEvent, Manifest, parse_text_event, parse_manifest, is_local_origin, text_event_name,
  transfer_event_name,
}
use myflowhub_clipboardnode.Runtime.{
  Runtime, Env, Decision, Outcome, PendingText, Log, decide, fail_with, perform, find_pending,
  write_text, decision, disabled,
}
use myflowhub_clipboardnode.Runtime.Bus.{topic_route_for}
use myflowhub_clipboardnode.Runtime.Pending.{add_pending}
use myflowhub_clipboardnode.Runtime.Remote.{
  Message, accept_manifest, accept_event, apply_now, apply_there, hold, arrived, handle_manifest,
  handle_text, handle_routed, handle_topic_bus_message,
}
use myflowhub_clipboardnode.Runtime.Handlers.Recorded.{kept-record_decision, kept-record_failure}

log-add_pending : (r : Runtime) (v : PendingText) → (add_pending r v).log ≡ r.log
unfolding add_pending
log-add_pending r v = elim (Bool-cases (is_empty v.event.event_id)) [
  | inl e ↦ rw e refl
  | inr e ↦ rw e refl
]

module _ (env : Env) where
  pub log-decide : (r : Runtime) (d : Decision) → (decide env r d).0.log ≡ r.log
  log-decide r d = ap (λ k. k.log) (kept-record_decision env r d)

  pub log-fail_with :
      (r : Runtime) (d : Decision) (e f : Error) → (fail_with env r d e f).0.log ≡ r.log
  log-fail_with r d e f = ap (λ k. k.log) (kept-record_failure env r d e)

  abbrev pub write_logged : Runtime → TextEvent → Log
  write_logged r e = (write_text e.text, env.answer r.log (write_text e.text)) ∷ r.log

  -- What was checked before a remote text is written.
  pub record IsApplicable (r : Runtime) (e : TextEvent) : Type 0 where
    pub remote : is_local_origin e.origin_node e.origin_instance_id r.node_id r.instance_id ≡ false
    pub unseen : contains r.recent_events e.event_id ≡ false
    pub not_pending : find_pending e.event_id r.pending_remote ≡ none
    pub automatic : r.cfg.auto_apply ≡ true
    pub adapter : r.has_clipboard ≡ true

  -- An outcome of which the log is that before, or has the write of `e` on top of it.
  data AppliesOnce (r : Runtime) (e : TextEvent) (o : Outcome) : Type 0 where
    untouched : o.0.log ≡ r.log → AppliesOnce r e o
    applied : o.0.log ≡ write_logged r e → IsApplicable r e → AppliesOnce r e o

  record LogKept (r : Runtime) (o : Outcome) : Type 0 where
    same : o.0.log ≡ r.log

  data NowOnce (r : Runtime) (e : TextEvent) (o : Outcome) : Type 0 where
    refused : o.0.log ≡ r.log → NowOnce r e o
    tried : o.0.log ≡ write_logged r e → r.has_clipboard ≡ true → NowOnce r e o

  apply_there-log :
      (r : Runtime) (e : TextEvent) (t : Text) → (apply_there env r e t).0.log ≡ write_logged r e
  unfolding apply_there perform
  apply_there-log r e t = elim (Option-cases (env.answer r.log (write_text e.text))) [
    | inl fine ↦
        rw (fine, apply_there) (log-decide _ _ ∙ ap (λ a. (write_text e.text, a) ∷ r.log) fine)
    | inr (failure, failed) ↦
        rw (failed, apply_there)
          (log-fail_with _ _ failure failure ∙ ap (λ a. (write_text e.text, a) ∷ r.log) failed)
  ]

  apply_now-log : (r : Runtime) (e : TextEvent) (t : Text) → NowOnce r e (apply_now env r e t)
  unfolding apply_now
  apply_now-log r e t = elim (Bool-cases r.has_clipboard) [
    | inr missing ↦ simp missing (refused (log-fail_with r _ clipboard_required clipboard_required))
    | inl there ↦ simp there (tried (apply_there-log r e t) there)
  ]

  with_checks :
      (r : Runtime) (e : TextEvent) (o : Outcome)
      → (r.has_clipboard ≡ true → IsApplicable r e)
      → NowOnce r e o
      → AppliesOnce r e o
  with_checks r e o checks (refused same) = untouched same
  with_checks r e o checks (tried logged adapter) = applied logged (checks adapter)

  pub not-is_some : (o : Option PendingText) → is_some o ≡ false → o ≡ none
  not-is_some none h = refl
  not-is_some (some v) h = cc

  accept_event-log :
      (r : Runtime) (e : TextEvent) (t : Text) → AppliesOnce r e (accept_event env r e t)
  unfolding accept_event hold
  accept_event-log r e t =
      elim (Bool-cases
        (is_local_origin e.origin_node e.origin_instance_id r.node_id r.instance_id)) [
          | inl own ↦ simp own (untouched (log-decide r _))
          | inr remote ↦ elim (Bool-cases (contains r.recent_events e.event_id)) [
            | inl seen ↦ simp (remote, seen) (untouched (log-decide r _))
            | inr unseen ↦ elim (Bool-cases (is_some (find_pending e.event_id r.pending_remote))) [
              | inl held ↦ simp (remote, unseen, held) (untouched (log-decide r _))
              | inr free ↦ elim (Bool-cases r.cfg.auto_apply) [
                | inr manual ↦
                    simp (remote, unseen, free, manual)
                      (untouched (log-decide _ _ ∙ log-add_pending _ (arrived env r e t)))
                | inl automatic ↦
                    simp (remote, unseen, free, automatic)
                      (with_checks r e _
                        (λ adapter. record {
                          remote = remote;
                          unseen = unseen;
                          not_pending = not-is_some _ free;
                          automatic = automatic;
                          adapter = adapter;
                        })
                        (apply_now-log r e t))
              ]
            ]
          ]
        ]

  accept_manifest-log :
      (r : Runtime) (m : Manifest) (t : Text) → LogKept r (accept_manifest env r m t)
  unfolding accept_manifest
  accept_manifest-log r m t =
      elim (Bool-cases
        (is_local_origin m.origin_node m.origin_instance_id r.node_id r.instance_id)) [
          | inl own ↦ simp own (record { same = log-decide r _ })
          | inr remote ↦ elim (Bool-cases (contains r.recent_events m.event_id)) [
            | inl seen ↦ simp (remote, seen) (record { same = log-decide r _ })
            | inr unseen ↦ simp (remote, unseen) (record { same = log-decide _ _ })
          ]
        ]

module _ (env : Env) (p : Platform) where
  handle_manifest-log : (r : Runtime) (m : Message) → (handle_manifest env p r m).0.log ≡ r.log
  unfolding handle_manifest
  handle_manifest-log r m = elim (Result-cases (parse_manifest p m.payload)) [
    | inl (manifest, parsed) ↦
        rw (parsed, handle_manifest) ((accept_manifest-log env r manifest m.topic).same)
    | inr (e, bad) ↦ rw (bad, handle_manifest) (log-fail_with env r _ e e)
  ]

  -- A message that may be written to the clipboard: sync is on, its topic has a route that lets remote
  -- text in, it is a text event, and its payload parses to `e`.
  pub record IsAdmitted (r : Runtime) (m : Message) (e : TextEvent) : Type 0 where
    pub enabled : r.cfg.enabled ≡ true
    pub route :
        (route : TopicRoute) × (topic_route_for r.cfg m.topic ≡ some route)
        × (route.sync_to_local ≡ true)
    pub name : m.name ≡ text_event_name
    pub parsed : parse_text_event p m.payload r.cfg.max_inline_bytes ≡ ok e

  -- No call outside the runtime, or the one write of an admitted and applicable event.
  pub data WritesOnce (r : Runtime) (m : Message) (o : Outcome) : Type 0 where
    quiet : o.0.log ≡ r.log → WritesOnce r m o
    wrote :
        (e : TextEvent)
        → o.0.log ≡ write_logged env r e
        → IsAdmitted r m e
        → IsApplicable env r e
        → WritesOnce r m o

  lift_applies :
      (r : Runtime) (m : Message) (e : TextEvent) (o : Outcome)
      → IsAdmitted r m e
      → AppliesOnce env r e o
      → WritesOnce r m o
  lift_applies r m e o a (untouched same) = quiet same
  lift_applies r m e o a (applied logged applicable) = wrote e logged a applicable

  handle_text-log :
      (r : Runtime) (route : TopicRoute) (m : Message)
      → r.cfg.enabled ≡ true
      → topic_route_for r.cfg m.topic ≡ some route
      → route.sync_to_local ≡ true
      → m.name ≡ text_event_name
      → WritesOnce r m (handle_text env p r m)
  unfolding handle_text
  handle_text-log r route m on found open_route named =
      elim (Result-cases (parse_text_event p m.payload r.cfg.max_inline_bytes)) [
        | inr (e, bad) ↦ rw (bad, handle_text) (quiet (log-fail_with env r _ e e))
        | inl (e, parsed) ↦
            rw (parsed, handle_text)
              (lift_applies r m e _
                (record {
                  enabled = on;
                  route = (route, found, open_route);
                  name = named;
                  parsed = parsed;
                })
                (accept_event-log env r e m.topic))
      ]

  handle_routed-log :
      (r : Runtime) (route : TopicRoute) (m : Message)
      → r.cfg.enabled ≡ true
      → topic_route_for r.cfg m.topic ≡ some route
      → WritesOnce r m (handle_routed env p r route m)
  unfolding handle_routed
  handle_routed-log r route m on found = elim (Bool-cases route.sync_to_local) [
    | inr closed ↦ simp closed (quiet (log-decide env r _))
    | inl open_route ↦ elim (Bool-cases (text_eq m.name transfer_event_name)) [
      | inl transfer ↦ simp (open_route, transfer) (quiet (handle_manifest-log r m))
      | inr other ↦ elim (Bool-cases (text_eq m.name text_event_name)) [
        | inr unknown ↦ simp (open_route, other, unknown) (quiet (log-decide env r _))
        | inl named ↦
            simp (open_route, other, named)
              (handle_text-log r route m on found open_route
                (text_eq→eq m.name text_event_name named))
      ]
    ]
  ]

  -- A message makes at most one call outside the runtime, and then it is the write of its text to the
  -- clipboard. This happens only if sync is enabled, the topic has a route with sync_to_local, the
  -- message is a text event that parses, it is not of local origin, its identifier is neither among
  -- the recent nor among the pending ones, auto-apply is on and there is an adapter.
  pub handle_topic_bus_message-WritesOnce :
      (r : Runtime) (m : Message) → WritesOnce r m (handle_topic_bus_message env p r m)
  unfolding handle_topic_bus_message
  handle_topic_bus_message-WritesOnce r m = elim (Bool-cases r.cfg.enabled) [
    | inr off ↦ simp off (quiet (log-decide env r (decision disabled)))
    | inl on ↦ elim (Option-cases (topic_route_for r.cfg m.topic)) [
      | inl unknown ↦ simp (on, unknown) (quiet (log-decide env r _))
      | inr (route, found) ↦ simp (on, found) (handle_routed-log r route m on found)
    ]
  ]
