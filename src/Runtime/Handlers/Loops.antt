-- ===== src/Runtime/Handlers/Loops.antt =====
-- A text that the runtime wrote to the clipboard is not sent back to the hub.
use myflowhub_clipboardnode.Base.{
  ℕ, ◌≡◌, refl, sym, ap, ◌∙◌, true, false, none, List, [], Text, is_empty, ok, ℤ,
}
use myflowhub_clipboardnode.Dedupe.{member, contains, consume}
use myflowhub_clipboardnode.Dedupe.Bounds.{IsBounded, contains-add_unseen}
use myflowhub_clipboardnode.Dedupe.Stale.{consume_lem}
use myflowhub_clipboardnode.Event.{Platform, TextEvent, TextDigest, inspect_text, parse_text_event}
use myflowhub_clipboardnode.Event.Digest.{inspect_text_iff, digest_of}
use myflowhub_clipboardnode.Event.TextEvents.{normalize_text_event_iff}
use myflowhub_clipboardnode.Runtime.{
  Runtime, Env, Outcome, decide, decision, remote_applied, ignored_loop,
}
use myflowhub_clipboardnode.Runtime.Local.{
  about, handle_local_text, handle_connected, handle_inline,
}
use myflowhub_clipboardnode.Runtime.Remote.{Message, handle_topic_bus_message}
use myflowhub_clipboardnode.Runtime.Handlers.Writes.{IsAdmitted, log-decide}
use myflowhub_clipboardnode.Runtime.Handlers.Duplicates.{
  JustApplied, just, just_applied, handled-Applies, parse_text_event-normal, retarget,
}

module _ (env : Env) (p : Platform) where
  local_connected :
      (s : Runtime) (t : Text)
      → s.cfg.enabled ≡ true
      → s.has_topic_bus ≡ true
      → handle_local_text env p s t ≡ handle_connected env p s t
  unfolding handle_local_text
  local_connected s t on bus = simp (on, bus) refl

  connected_inline :
      (s : Runtime) (t : Text) (d : TextDigest)
      → inspect_text p t s.cfg.max_inline_bytes ≡ ok d
      → handle_connected env p s t ≡ handle_inline env p s t d
  unfolding handle_connected
  connected_inline s t d inspected = rw (inspected, handle_connected) refl

  inline_suppressed :
      (s : Runtime) (t : Text) (d : TextDigest)
      → contains s.suppress_hashes d.sha256 ≡ true
      → handle_inline env p s t d
        ≡ decide env
            (record s { suppress_hashes = (consume s.suppress_hashes d.sha256).0 })
            (about ignored_loop [] [] d)
  unfolding handle_inline
  inline_suppressed s t d held =
      let found : (consume s.suppress_hashes d.sha256).1 ≡ true =
        (consume_lem s.suppress_hashes d.sha256 d.sha256).0 ∙ held in
      rw found refl

  local_suppressed :
      (s : Runtime) (t : Text) (d : TextDigest)
      → s.cfg.enabled ≡ true
      → s.has_topic_bus ≡ true
      → inspect_text p t s.cfg.max_inline_bytes ≡ ok d
      → contains s.suppress_hashes d.sha256 ≡ true
      → handle_local_text env p s t
        ≡ decide env
            (record s { suppress_hashes = (consume s.suppress_hashes d.sha256).0 })
            (about ignored_loop [] [] d)
  local_suppressed s t d on bus inspected held =
      local_connected s t on bus ∙ connected_inline s t d inspected ∙ inline_suppressed s t d held

  -- What an event that was parsed says of its text.
  parsed-inspect :
      (b : List ℕ) (max : ℤ) (e : TextEvent)
      → parse_text_event p b max ≡ ok e
      → (inspect_text p e.text max ≡ ok (digest_of p e.text))
        × (e.sha256 ≡ (digest_of p e.text).sha256)
  parsed-inspect b max e h =
      let (v, same) =
        (normalize_text_event_iff p e max e).0 (parse_text_event-normal env p b max e h) in
      (
        (inspect_text_iff p e.text max (digest_of p e.text)).1 (v.inline, refl),
        ap (λ x. x.sha256) same,
      )

  -- What a local text is answered with when it is suppressed, and what it changes outside.
  pub data IsSuppressed (s : Runtime) (o : Outcome) : Type 0 where
    suppressed : o.1.action ≡ ignored_loop → o.0.log ≡ s.log → IsSuppressed s o

  IsSuppressed-later :
      (r s : Runtime) (m : Message) (e : TextEvent)
      → IsAdmitted env p r m e
      → r.has_topic_bus ≡ true
      → IsBounded r.suppress_hashes
      → member e.sha256 r.suppress_hashes.order ≡ false
      → is_empty e.sha256 ≡ false
      → JustApplied env p r e (s, decision remote_applied, none)
      → IsSuppressed s (handle_local_text env p s e.text)
  IsSuppressed-later r s m e a bus bounded fresh filled (just checks same) =
      let (inspected, hash) = parsed-inspect m.payload r.cfg.max_inline_bytes e a.parsed in
      let held : contains s.suppress_hashes (digest_of p e.text).sha256 ≡ true =
        ap (λ h. contains s.suppress_hashes h) (sym hash)
        ∙ ap (λ k. contains k.suppress_hashes e.sha256) same
        ∙ contains-add_unseen r.suppress_hashes e.sha256 bounded filled fresh in
      rw
        (local_suppressed s e.text (digest_of p e.text) (ap (λ k. k.cfg.enabled) same ∙ a.enabled)
          (ap (λ k. k.has_topic_bus) same ∙ bus)
          (ap (λ k. inspect_text p e.text k.cfg.max_inline_bytes) same ∙ inspected) held)
        (suppressed refl (log-decide env _ _))

  -- When a message was applied, the text that then comes back from the clipboard is recognised as
  -- the runtime's own and nothing is published. The runtime has a hub, the set of suppressed hashes
  -- satisfies its invariant and has no older entry, not even a stale one, for this hash.
  pub applied-IsSuppressed :
      (r : Runtime) (m : Message) (e : TextEvent)
      → IsAdmitted env p r m e
      → r.has_topic_bus ≡ true
      → IsBounded r.suppress_hashes
      → member e.sha256 r.suppress_hashes.order ≡ false
      → is_empty e.sha256 ≡ false
      → (handle_topic_bus_message env p r m).1.action ≡ remote_applied
      → IsSuppressed
          (handle_topic_bus_message env p r m).0
          (handle_local_text env p (handle_topic_bus_message env p r m).0 e.text)
  applied-IsSuppressed r m e a bus bounded fresh filled applied =
      IsSuppressed-later r _ m e a bus bounded fresh filled
        (retarget env p r e _ _ (just_applied env p r e _ (handled-Applies env p r m e a) applied))
