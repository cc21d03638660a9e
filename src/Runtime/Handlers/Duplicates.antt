-- ===== src/Runtime/Handlers/Duplicates.antt =====
-- An applied event is not applied again when it is delivered again.
use myflowhub_clipboardnode.Base.{
  ℕ, ◌≡◌, refl, ap, ◌∙◌, ◌≢◌, inl, inr, true, false, none, List, Text, text_eq, is_some, is_empty,
  ok, Bool-cases, Option-cases, clipboard_required, ℤ, >>=-eq-ok, fail_if-eq-ok, wrap_with, codes,
  ltb, length, payload_required, payload_too_large,
}
use myflowhub_clipboardnode.Dedupe.{contains, add}
use myflowhub_clipboardnode.Dedupe.Window.{IsFresh, contains-add_self}
use myflowhub_clipboardnode.Event.{
  Platform, TextEvent, parse_text_event, normalize_text_event, is_local_origin, text_event_name,
  transfer_event_name,
}
use myflowhub_clipboardnode.Event.TextEvents.{normalize_text_event_iff, normalize_text_event_idem}
use myflowhub_clipboardnode.Runtime.{
  Runtime, Env, Decision, Outcome, decide, perform, find_pending, write_text,
  clipboard_write_failed, remote_applied, decision, ignored_duplicate,
}
use myflowhub_clipboardnode.Runtime.Bus.{topic_route_for}
use myflowhub_clipboardnode.Runtime.Remote.{
  Message, of_event, accept_event, apply_now, apply_there, hold, handle_text, handle_routed,
  handle_topic_bus_message,
}
use myflowhub_clipboardnode.Runtime.Handlers.Recorded.{
  Kept, kept, kept-record_decision, kept-record_failure,
}
use myflowhub_clipboardnode.Runtime.Handlers.Writes.{
  IsAdmitted, IsApplicable, write_logged, not-is_some,
}

module _ (env : Env) where
  -- The state after a successful write of `e`, and after one that failed.
  abbrev pub applied_kept : Runtime → TextEvent → Kept
  applied_kept r e = record (kept r) {
    recent_events = add r.recent_events e.event_id;
    suppress_hashes = add r.suppress_hashes e.sha256;
    log = write_logged env r e;
  }

  abbrev pub failed_kept : Runtime → TextEvent → Kept
  failed_kept r e = record (kept r) { log = write_logged env r e }

  -- The write succeeded, and the decision has the event's identifier and its text, with no error.
  pub record IsReported (r : Runtime) (e : TextEvent) (o : Outcome) : Type 0 where
    pub accepted : env.answer r.log (write_text e.text) ≡ none
    pub event_id : o.1.event_id ≡ e.event_id
    pub text : o.1.text ≡ e.text
    pub no_error : o.2 ≡ none

  pub data Applies (r : Runtime) (e : TextEvent) (o : Outcome) : Type 0 where
    held_back : o.1.action ≢ remote_applied → o.1.action ≢ clipboard_write_failed → Applies r e o
    no_adapter : o.1.action ≡ clipboard_write_failed → kept o.0 ≡ kept r → Applies r e o
    write_failed : o.1.action ≡ clipboard_write_failed → kept o.0 ≡ failed_kept r e → Applies r e o
    written :
        o.1.action ≡ remote_applied
        → IsApplicable env r e
        → kept o.0 ≡ applied_kept r e
        → IsReported r e o
        → Applies r e o

  apply_there-Applies :
      (r : Runtime) (e : TextEvent) (t : Text)
      → IsApplicable env r e
      → Applies r e (apply_there env r e t)
  unfolding apply_there perform
  apply_there-Applies r e t a = elim (Option-cases (env.answer r.log (write_text e.text))) [
    | inl fine ↦
        rw (fine, apply_there)
          (written refl a (kept-record_decision env _ _)
            (record { accepted = fine; event_id = refl; text = refl; no_error = refl }))
    | inr (failure, failed) ↦
        rw (failed, apply_there) (write_failed refl (kept-record_failure env _ _ failure))
  ]

  pub accept_event-Applies :
      (r : Runtime) (e : TextEvent) (t : Text) → Applies r e (accept_event env r e t)
  unfolding accept_event apply_now hold
  accept_event-Applies r e t =
      elim (Bool-cases
        (is_local_origin e.origin_node e.origin_instance_id r.node_id r.instance_id)) [
          | inl own ↦ simp own (held_back (λ h. cc) (λ h. cc))
          | inr remote ↦ elim (Bool-cases (contains r.recent_events e.event_id)) [
            | inl seen ↦ simp (remote, seen) (held_back (λ h. cc) (λ h. cc))
            | inr unseen ↦ elim (Bool-cases (is_some (find_pending e.event_id r.pending_remote))) [
              | inl held ↦ simp (remote, unseen, held) (held_back (λ h. cc) (λ h. cc))
              | inr free ↦ elim (Bool-cases r.cfg.auto_apply) [
                | inr manual ↦ simp (remote, unseen, free, manual) (held_back (λ h. cc) (λ h. cc))
                | inl automatic ↦ elim (Bool-cases r.has_clipboard) [
                  | inr missing ↦
                      simp (remote, unseen, free, automatic, missing)
                        (no_adapter refl (kept-record_failure env r _ clipboard_required))
                  | inl adapter ↦
                      simp (remote, unseen, free, automatic, adapter)
                        (apply_there-Applies r e t (record {
                          remote = remote;
                          unseen = unseen;
                          not_pending = not-is_some env _ free;
                          automatic = automatic;
                          adapter = adapter;
                        }))
                ]
              ]
            ]
          ]
        ]

  accept_event_seen :
      (r : Runtime) (e : TextEvent) (t : Text)
      → is_local_origin e.origin_node e.origin_instance_id r.node_id r.instance_id ≡ false
      → contains r.recent_events e.event_id ≡ true
      → accept_event env r e t ≡ decide env r (of_event ignored_duplicate e t)
  unfolding accept_event
  accept_event_seen r e t remote seen = simp (remote, seen) refl

names_differ : text_eq text_event_name transfer_event_name ≡ false
unfolding text_eq
names_differ = refl

names_same : text_eq text_event_name text_event_name ≡ true
unfolding text_eq
names_same = refl

module _ (env : Env) (p : Platform) where
  -- An admitted message is handled by its event alone.
  pub handle_admitted :
      (r : Runtime) (m : Message) (e : TextEvent)
      → IsAdmitted env p r m e
      → handle_topic_bus_message env p r m ≡ accept_event env r e m.topic
  unfolding handle_topic_bus_message handle_routed handle_text
  handle_admitted r m e a =
      let (route, found, open_route) = a.route in
      let not_transfer : text_eq m.name transfer_event_name ≡ false = rw a.name names_differ in
      let is_text : text_eq m.name text_event_name ≡ true = rw a.name names_same in
      simp (a.enabled, found, open_route, not_transfer, is_text) (rw (a.parsed, handle_text) refl)

  -- What parsing returns is valid as it stands.
  pub parse_text_event-normal :
      (b : List ℕ) (max : ℤ) (e : TextEvent)
      → parse_text_event p b max ≡ ok e
      → normalize_text_event p e max ≡ ok e
  unfolding parse_text_event
  parse_text_event-normal b max e h =
      let (_, h₁) = fail_if-eq-ok (ltb (length b) 1) payload_required _ h in
      let (_, h₂) = fail_if-eq-ok _ payload_too_large _ h₁ in
      let (raw, _, h₃) =
        >>=-eq-ok (wrap_with (codes "decode clipboard event") (p.decode_event b)) _ h₂ in
      normalize_text_event_idem p raw max e h₃

  -- The state of the runtime in which the message was just applied.
  pub data JustApplied (r : Runtime) (e : TextEvent) (o : Outcome) : Type 0 where
    just : IsApplicable env r e → kept o.0 ≡ applied_kept env r e → JustApplied r e o

  pub just_applied :
      (r : Runtime) (e : TextEvent) (o : Outcome)
      → Applies env r e o
      → o.1.action ≡ remote_applied
      → JustApplied r e o
  just_applied r e o (held_back n _) h = absurd (n h)
  just_applied r e o (no_adapter f _) h = cc
  just_applied r e o (write_failed f _) h = cc
  just_applied r e o (written _ a k _) h = just a k

  parse_text_event-filled :
      (b : List ℕ) (max : ℤ) (e : TextEvent)
      → parse_text_event p b max ≡ ok e
      → is_empty e.event_id ≡ false
  parse_text_event-filled b max e h =
      let (v, same) = (normalize_text_event_iff p e max e).0 (parse_text_event-normal b max e h) in
      ap (λ x. is_empty x.event_id) same ∙ v.event_id.0

  IsAdmitted-later :
      (r s : Runtime) (m : Message) (e : TextEvent)
      → s.cfg ≡ r.cfg
      → IsAdmitted env p r m e
      → IsAdmitted env p s m e
  IsAdmitted-later r s m e same a = record {
    enabled = ap (λ c. c.enabled) same ∙ a.enabled;
    route = (a.route.0, ap (λ c. topic_route_for c m.topic) same ∙ a.route.1, a.route.2);
    name = a.name;
    parsed = ap (λ c. parse_text_event p m.payload c.max_inline_bytes) same ∙ a.parsed;
  }

  seen_later :
      (r s : Runtime) (m : Message) (e : TextEvent)
      → IsAdmitted env p r m e
      → IsFresh r.recent_events
      → JustApplied r e (s, decision remote_applied, none)
      → handle_topic_bus_message env p s m ≡ decide env s (of_event ignored_duplicate e m.topic)
  seen_later r s m e a fresh (just checks same) =
      let filled = parse_text_event-filled m.payload r.cfg.max_inline_bytes e a.parsed in
      handle_admitted s m e (IsAdmitted-later r s m e (ap (λ k. k.cfg) same) a)
      ∙ accept_event_seen env s e m.topic
          (ap (λ k. is_local_origin e.origin_node e.origin_instance_id k.node_id k.instance_id) same
            ∙ checks.remote)
          (ap (λ k. contains k.recent_events e.event_id) same
            ∙ contains-add_self r.recent_events e.event_id fresh filled)

  pub retarget :
      (r : Runtime) (e : TextEvent) (o : Outcome) (d : Decision)
      → JustApplied r e o
      → JustApplied r e (o.0, d, none)
  retarget r e o d (just a k) = just a k

  pub handled-Applies :
      (r : Runtime) (m : Message) (e : TextEvent)
      → IsAdmitted env p r m e
      → Applies env r e (handle_topic_bus_message env p r m)
  handled-Applies r m e a = rw (handle_admitted r m e a) (accept_event-Applies env r e m.topic)

  -- When a message was applied, its redelivery is ignored as a duplicate: the decision is recorded
  -- and the clipboard is not written again. This holds for a message that parses to an event on an
  -- open route, in a runtime of which the set of recent events has only been added to.
  pub redelivery-ignored :
      (r : Runtime) (m : Message) (e : TextEvent)
      → IsAdmitted env p r m e
      → IsFresh r.recent_events
      → (handle_topic_bus_message env p r m).1.action ≡ remote_applied
      → handle_topic_bus_message env p (handle_topic_bus_message env p r m).0 m
        ≡ decide env (handle_topic_bus_message env p r m).0 (of_event ignored_duplicate e m.topic)
  redelivery-ignored r m e a fresh applied =
      let now = just_applied r e _ (handled-Applies r m e a) applied in
      seen_later r _ m e a fresh (retarget r e _ _ now)
