-- ===== src/Runtime/Handlers/FanOut.antt =====
-- What a local text sends to the hub.
use myflowhub_clipboardnode.Base.{
  ℕ, ◌≡◌, refl, ap, sym, ◌∙◌, ◌≢◌, ◌⊎◌, inl, inr, false, ◌||◌, Option, none, some, List, [], ◌∷◌,
  Text, is_empty, Error, ok, Bool-cases, Option-cases, Result-cases, text_eq,
}
use myflowhub_clipboardnode.Dedupe.{consume}
use myflowhub_clipboardnode.Event.{
  Platform, TextDigest, TextEvent, inspect_text, inspect_text_content, new_text_event_with_digest,
  marshal_text_event, new_manifest, marshal_manifest, text_event_name, transfer_event_name,
  TransferReference,
}
use myflowhub_clipboardnode.Runtime.{
  Runtime, Env, Outcome, Decision, Log, publish, perform, local_published, transport_failed,
}
use myflowhub_clipboardnode.Runtime.Bus.{publish_all, publish_topics}
use myflowhub_clipboardnode.Runtime.Local.{
  build_options, published, send_payload, send_text, send_manifest, publish_transfer_manifest,
  handle_inline, handle_connected, handle_local_text, drawn, drawn_timed, manifest_decision,
}
use myflowhub_clipboardnode.Runtime.Handlers.Recorded.{kept-record_decision}

-- The log after one payload was published to each topic in order, every answer being nil.
abbrev pub sent_log : List Text → Text → List ℕ → Log → Log
sent_log [] name payload l = l
sent_log (t ∷ ts) name payload l = sent_log ts name payload ((publish t name payload, none) ∷ l)

List-cases : (xs : List Text) → (xs ≡ []) ⊎ ((y : Text) × (ys : List Text) × (xs ≡ y ∷ ys))
List-cases [] = inl refl
List-cases (x ∷ xs) = inr (x, xs, refl)

module _ (env : Env) where
  pub data Publishes (l : Log) (ts : List Text) (name : Text) (payload : List ℕ)
      (o : Runtime × Option (Text × Error)) : Type 0 where
    broken_off : (x : Text × Error) → o.1 ≡ some x → Publishes l ts name payload o
    whole : o.0.log ≡ sent_log ts name payload l → Publishes l ts name payload o

  one_more :
      (l m : Log) (t : Text) (ts : List Text) (name : Text) (payload : List ℕ)
      (o : Runtime × Option (Text × Error))
      → m ≡ (publish t name payload, none) ∷ l
      → Publishes m ts name payload o
      → Publishes l (t ∷ ts) name payload o
  one_more l m t ts name payload o e (broken_off x h) = broken_off x h
  one_more l m t ts name payload o e (whole h) = whole (h ∙ ap (sent_log ts name payload) e)

  pub publish_all-Publishes :
      (r : Runtime) (ts : List Text) (name : Text) (payload : List ℕ)
      → Publishes r.log ts name payload (publish_all env r ts name payload)
  unfolding publish_all perform
  publish_all-Publishes r [] name payload = whole refl
  publish_all-Publishes r (t ∷ ts) name payload =
      elim (Option-cases (env.answer r.log (publish t name payload))) [
        | inl fine ↦
            rw (fine, publish_all)
              (one_more r.log _ t ts name payload _
                (ap (λ x. (publish t name payload, x) ∷ r.log) fine)
                (publish_all-Publishes (perform env r (publish t name payload)).0 ts name payload))
        | inr (e, failed) ↦ rw (failed, publish_all) (broken_off (t, e) refl)
      ]

  pub log_of_whole :
      (l : Log) (ts : List Text) (name : Text) (payload : List ℕ)
      (o : Runtime × Option (Text × Error))
      → Publishes l ts name payload o
      → o.1 ≡ none
      → o.0.log ≡ sent_log ts name payload l
  log_of_whole l ts name payload o (broken_off x h) fine = absurd cc
  log_of_whole l ts name payload o (whole h) fine = h

  data Sends (r : Runtime) (ts : List Text) (name : Text) (payload : List ℕ) (d : TextDigest)
      (x : Decision) (o : Outcome) : Type 0 where
    stopped : o.1.action ≡ transport_failed → Sends r ts name payload d x o
    all_sent :
        o.1 ≡ x
        → o.0.log ≡ sent_log ts name payload r.log
        → o.0.last_local_hash ≡ d.sha256
        → Sends r ts name payload d x o

module _ (env : Env) (p : Platform) where
  send_payload-Sends :
      (r : Runtime) (ts : List Text) (name : Text) (payload : List ℕ) (d : TextDigest)
      (x : Decision) (what : Text)
      → Sends env r ts name payload d x (send_payload env p r ts name payload d x what)
  unfolding send_payload published
  send_payload-Sends r ts name payload d x what =
      elim (Option-cases (publish_all env r ts name payload).1) [
        | inl fine ↦
            rw (fine, send_payload)
              (all_sent refl
                (ap (λ k. k.log) (kept-record_decision env _ x)
                  ∙ log_of_whole env r.log ts name payload _
                      (publish_all-Publishes env r ts name payload) fine)
                (ap (λ k. k.last_local_hash) (kept-record_decision env _ x)))
        | inr ((t, e), failed) ↦ rw (failed, send_payload) (stopped refl)
      ]

  -- An outcome that is not `local_published`, or the publication of the text as an event to every
  -- topic that takes local texts.
  pub data FansOut (r : Runtime) (t : Text) (o : Outcome) : Type 0 where
    other : o.1.action ≢ local_published → FansOut r t o
    sent :
        (d : TextDigest) (e : TextEvent) (payload : List ℕ)
        → inspect_text p t r.cfg.max_inline_bytes ≡ ok d
        → (consume r.suppress_hashes d.sha256).1 ≡ false
        → text_eq d.sha256 r.last_local_hash ≡ false
        → new_text_event_with_digest p t d (build_options env p r) ≡ ok e
        → marshal_text_event p e r.cfg.max_inline_bytes ≡ ok payload
        → o.0.log ≡ sent_log (publish_topics r.cfg) text_event_name payload r.log
        → o.0.last_local_hash ≡ d.sha256
        → FansOut r t o

  -- What the last step of a publication adds to what was found before it.
  record Found (r : Runtime) (t : Text) (d : TextDigest) : Type 0 where
    inspected : inspect_text p t r.cfg.max_inline_bytes ≡ ok d
    unsuppressed : (consume r.suppress_hashes d.sha256).1 ≡ false
    changed : text_eq d.sha256 r.last_local_hash ≡ false

  fans_out :
      (r : Runtime) (ts : List Text) (t : Text) (d : TextDigest) (e : TextEvent) (payload : List ℕ)
      (x : Decision) (o : Outcome)
      → Found r t d
      → publish_topics r.cfg ≡ ts
      → new_text_event_with_digest p t d (build_options env p r) ≡ ok e
      → marshal_text_event p e r.cfg.max_inline_bytes ≡ ok payload
      → Sends env (drawn env p r) ts text_event_name payload d x o
      → FansOut r t o
  fans_out r ts t d e payload x o f topics made encoded (stopped h) = other (λ g. cc)
  fans_out r ts t d e payload x o f topics made encoded (all_sent _ logged hash) =
      sent d e payload f.inspected f.unsuppressed f.changed made encoded
        (logged ∙ ap (λ us. sent_log us text_event_name payload r.log) (sym topics)) hash

  send_text-FansOut :
      (r : Runtime) (ts : List Text) (t : Text) (d : TextDigest)
      → Found r t d
      → publish_topics r.cfg ≡ ts
      → FansOut r t (send_text env p r ts t d)
  unfolding send_text
  send_text-FansOut r ts t d f topics =
      elim (Result-cases (new_text_event_with_digest p t d (build_options env p r))) [
        | inr (failure, bad) ↦ rw (bad, send_text) (other (λ h. cc))
        | inl (e, made) ↦ elim (Result-cases (marshal_text_event p e r.cfg.max_inline_bytes)) [
          | inr (failure, bad) ↦ rw (made, send_text) (rw bad (other (λ h. cc)))
          | inl (payload, encoded) ↦
              rw (made, send_text)
                (rw encoded (
                  fans_out r ts t d e payload _ _ f topics made encoded
                    (send_payload-Sends (drawn env p r) ts text_event_name payload d _ _)))
        ]
      ]

  reference : Runtime → TransferReference
  reference r = record {
    provider = r.cfg.transfer_provider;
    opaque_id = r.cfg.transfer_ref;
    uri = [];
  }

  sends_other :
      (r : Runtime) (ts : List Text) (name : Text) (payload : List ℕ) (d : TextDigest)
      (x : Decision) (o : Outcome)
      → x.action ≢ local_published
      → Sends env r ts name payload d x o
      → o.1.action ≢ local_published
  sends_other r ts name payload d x o n (stopped h) = λ g. cc
  sends_other r ts name payload d x o n (all_sent same _ _) =
      λ g. n (ap (λ y. y.action) (sym same) ∙ g)

  send_manifest-other :
      (r : Runtime) (ts : List Text) (d : TextDigest)
      → (send_manifest env p r ts d).1.action ≢ local_published
  unfolding send_manifest reference
  send_manifest-other r ts d =
      elim (Result-cases (new_manifest p d (reference r ∷ []) (build_options env p r))) [
        | inr (e, bad) ↦ rw (bad, send_manifest) (λ h. cc)
        | inl (m, made) ↦ elim (Result-cases (marshal_manifest p m)) [
          | inr (e, bad) ↦ rw (made, send_manifest) (rw bad (λ h. cc))
          | inl (payload, encoded) ↦
              rw (made, send_manifest)
                (rw encoded (
                  sends_other _ ts transfer_event_name payload d (manifest_decision env p m ts d) _
                    (λ h. cc)
                    (send_payload-Sends (drawn_timed env p r) ts transfer_event_name payload d
                      (manifest_decision env p m ts d) _)))
        ]
      ]

  publish_transfer_manifest-other :
      (r : Runtime) (d : TextDigest) (cause : Error)
      → (publish_transfer_manifest env p r d cause).1.action ≢ local_published
  unfolding publish_transfer_manifest
  publish_transfer_manifest-other r d cause =
      elim (Bool-cases (is_empty r.cfg.transfer_provider || is_empty r.cfg.transfer_ref)) [
        | inl unset_there ↦ simp unset_there (λ h. cc)
        | inr configured ↦ elim (Bool-cases r.has_topic_bus) [
          | inr alone ↦ simp (configured, alone) (λ h. cc)
          | inl bus ↦ elim (List-cases (publish_topics r.cfg)) [
            | inl none_open ↦ simp (configured, bus, none_open) (λ h. cc)
            | inr (u, us, topics) ↦
                simp (configured, bus, topics) (send_manifest-other r (u ∷ us) d)
          ]
        ]
      ]

  handle_inline-FansOut :
      (r : Runtime) (t : Text) (d : TextDigest)
      → inspect_text p t r.cfg.max_inline_bytes ≡ ok d
      → FansOut r t (handle_inline env p r t d)
  unfolding handle_inline
  handle_inline-FansOut r t d inspected = elim (Bool-cases (consume r.suppress_hashes d.sha256).1) [
    | inl own ↦ rw own (other (λ h. cc))
    | inr unsuppressed ↦ elim (Bool-cases (text_eq d.sha256 r.last_local_hash)) [
      | inl same ↦ rw (unsuppressed, same) (other (λ h. cc))
      | inr changed ↦ elim (List-cases (publish_topics r.cfg)) [
        | inl none_open ↦ rw (unsuppressed, changed, none_open) (other (λ h. cc))
        | inr (u, us, topics) ↦
            rw (unsuppressed, changed, topics)
              (send_text-FansOut r (u ∷ us) t d
                (record { inspected = inspected; unsuppressed = unsuppressed; changed = changed })
                topics)
      ]
    ]
  ]

  handle_connected-FansOut : (r : Runtime) (t : Text) → FansOut r t (handle_connected env p r t)
  unfolding handle_connected
  handle_connected-FansOut r t = elim (Result-cases (inspect_text p t r.cfg.max_inline_bytes)) [
    | inl (d, inspected) ↦ rw (inspected, handle_connected) (handle_inline-FansOut r t d inspected)
    | inr (e, bad) ↦ elim (Result-cases (inspect_text_content p t)) [
      | inr (f, worse) ↦ rw (bad, handle_connected) (rw worse (other (λ h. cc)))
      | inl (d, large) ↦
          rw (bad, handle_connected) (rw large (other (publish_transfer_manifest-other r d e)))
    ]
  ]

  -- A local text that is reported as published was accepted inline, is neither one that the runtime
  -- wrote itself nor the one last sent, and was published as one encoded event of this node to every
  -- topic that takes local texts, in order, each accepting it; its hash is remembered.
  pub handle_local_text-FansOut :
      (r : Runtime) (t : Text) → FansOut r t (handle_local_text env p r t)
  unfolding handle_local_text
  handle_local_text-FansOut r t = elim (Bool-cases r.cfg.enabled) [
    | inr off ↦ simp off (other (λ h. cc))
    | inl on ↦ elim (Bool-cases r.has_topic_bus) [
      | inr alone ↦ simp (on, alone) (other (λ h. cc))
      | inl bus ↦ simp (on, bus) (handle_connected-FansOut r t)
    ]
  ]
