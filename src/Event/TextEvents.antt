-- ===== src/Event/TextEvents.antt =====
-- Which text events are accepted, what normalisation makes of them, and the wire round trip.
use myflowhub_clipboardnode.Base.{
  ℕ, ◌≤◌, ◌+◌, ◌≡◌, refl, ap, sym, ◌∙◌, ◌↔◌, true, false, List, [], Text, arith, is_empty, byte_len,
  trim_space, valid_string, ◌==◌, length, ok, inl, inr, ℤ, pos, leb_ℤ, eq_ℤ, >>=-eq-ok,
  Result-cases, fail_if-eq-ok, origin_node_required, origin_instance_id_required, codes, wrap_with,
  ◌⊎◌,
}
use myflowhub_clipboardnode.Base.Strings.Laws.{text_eq_iff, trim_space_idem}
use myflowhub_clipboardnode.Event.{
  Platform, TextEvent, TextDigest, BuildEventOptions, event_version, inspect_text,
  normalize_text_event, hash_text, new_text_event, new_text_event_with_digest, marshal_text_event,
  parse_text_event, is_local_origin,
}
use myflowhub_clipboardnode.Event.Digest.{IsInline, byte_len-pos, digest_of, inspect_text_iff}

pub record IsValid (e : TextEvent) (max : ℤ) : Type 0 where
  pub version : e.version ≡ pos 1
  pub event_id :
      (is_empty (trim_space e.event_id) ≡ false) × (byte_len (trim_space e.event_id) ≤ 128)
  pub origin_node : 1 ≤ e.origin_node
  pub instance_id : is_empty (trim_space e.origin_instance_id) ≡ false
  pub inline : IsInline e.text max

eq_one : (v : ℤ) → eq_ℤ v (pos 1) ≡ true → v ≡ pos 1
eq_one v h = ground arith

positive_limit : (max : ℤ) (n : ℕ) → max ≡ pos n → 1 ≤ n → leb_ℤ max (pos 0) ≡ false
positive_limit max n e h = rw e (ground arith)

limit-pos : (t : Text) (max : ℤ) → IsInline t max → leb_ℤ max (pos 0) ≡ false
limit-pos t max h =
    let (n, e, fits) = h.fits in
    positive_limit max n e (omega (arith, byte_len-pos t h.filled, fits))

module _ (p : Platform) where
  -- The event with its texts trimmed and its digest computed from the text.
  abbrev pub normalized : TextEvent → TextEvent
  normalized e = record e {
    event_id = trim_space e.event_id;
    origin_instance_id = trim_space e.origin_instance_id;
    origin_device = trim_space e.origin_device;
    size = pos (byte_len e.text);
    sha256 = hash_text p e.text;
  }

  normalize-of_IsValid :
      (e : TextEvent) (max : ℤ) → IsValid e max → normalize_text_event p e max ≡ ok (normalized e)
  unfolding normalize_text_event
  normalize-of_IsValid e max v =
      let inspected = (inspect_text_iff p e.text max (digest_of p e.text)).1 (v.inline, refl) in
      let limit = limit-pos e.text max v.inline in
      rw (limit, v.version, v.event_id.0, v.instance_id, inspected) (ground arith)

  IsValid-of_normalize :
      (e : TextEvent) (max : ℤ) (out : TextEvent)
      → normalize_text_event p e max ≡ ok out
      → IsValid e max × (out ≡ normalized e)
  unfolding normalize_text_event
  IsValid-of_normalize e max out h = elim (Result-cases (inspect_text p e.text max)) [
    | inl (d, inspected) ↦
        let (inline, digest) = (inspect_text_iff p e.text max d).0 inspected in
        (
          record {
            version = eq_one e.version (ground arith);
            event_id = (ground arith, ground arith);
            origin_node = ground arith;
            instance_id = ground arith;
            inline = inline;
          },
          ground arith,
        )
    | inr (failure, inspected) ↦ absurd (ground arith)
  ]

  -- An event is accepted exactly when its version is 1, its trimmed identifier has 1 to 128 bytes,
  -- its origin node is not 0, its trimmed instance is not empty and its text is accepted inline; the
  -- result has its texts trimmed and carries the size and hash of its text, whatever it carried before.
  pub normalize_text_event_iff :
      (e : TextEvent) (max : ℤ) (out : TextEvent)
      → (normalize_text_event p e max ≡ ok out) ↔ (IsValid e max × (out ≡ normalized e))
  normalize_text_event_iff e max out =
      (IsValid-of_normalize e max out, λ (v, e'). normalize-of_IsValid e max v ∙ ap ok (sym e'))

  normalized_idem : (e : TextEvent) → normalized (normalized e) ≡ normalized e
  normalized_idem e = λ i. record (normalized e) {
    event_id = trim_space_idem e.event_id i;
    origin_instance_id = trim_space_idem e.origin_instance_id i;
    origin_device = trim_space_idem e.origin_device i;
  }

  -- Normalisation of a normalised event changes nothing.
  pub normalize_text_event_idem :
      (e : TextEvent) (max : ℤ) (out : TextEvent)
      → normalize_text_event p e max ≡ ok out
      → normalize_text_event p out max ≡ ok out
  normalize_text_event_idem e max out h =
      let (v, made) = IsValid-of_normalize e max out h in
      rw made (
        normalize-of_IsValid (normalized e) max (record {
          version = v.version;
          event_id = rw trim_space_idem v.event_id;
          origin_node = v.origin_node;
          instance_id = rw trim_space_idem v.instance_id;
          inline = v.inline;
        })
        ∙ ap ok (normalized_idem e))

  new_with_digest-valid :
      (t : Text) (digest : TextDigest) (opts : BuildEventOptions) (e : TextEvent)
      → new_text_event_with_digest p t digest opts ≡ ok e
      → (normalize_text_event p e opts.max_inline_bytes ≡ ok e)
        × IsInline t opts.max_inline_bytes
        × (e.text ≡ t)
        × (e.origin_node ≡ opts.origin_node)
        × (e.origin_instance_id ≡ trim_space opts.origin_instance_id)
        × (e.size ≡ pos (byte_len t))
        × (e.sha256 ≡ hash_text p t)
  unfolding new_text_event_with_digest
  new_with_digest-valid t digest opts e h =
      let instance_id = trim_space opts.origin_instance_id in
      let (_, h₁) = fail_if-eq-ok (opts.origin_node == 0) origin_node_required _ h in
      let (_, h₂) = fail_if-eq-ok (is_empty instance_id) origin_instance_id_required _ h₁ in
      let (id, _, h₃) = >>=-eq-ok (wrap_with (codes "create event id") opts.event_id) _ h₂ in
      let draft : TextEvent = record {
        version = event_version;
        event_id = trim_space id;
        origin_node = opts.origin_node;
        origin_instance_id = instance_id;
        origin_device = trim_space opts.origin_device;
        text = t;
        size = digest.size;
        sha256 = digest.sha256;
      } in
      let (v, made) = IsValid-of_normalize draft opts.max_inline_bytes e h₃ in
      (
        normalize_text_event_idem draft opts.max_inline_bytes e h₃,
        v.inline,
        ap (λ x. x.text) made,
        ap (λ x. x.origin_node) made,
        ap (λ x. x.origin_instance_id) made ∙ trim_space_idem opts.origin_instance_id,
        ap (λ x. x.size) made,
        ap (λ x. x.sha256) made,
      )

  -- A new event carries the given text, node and trimmed instance, and is valid as it stands:
  -- validation and marshalling change nothing in it.
  pub new_text_event-valid :
      (t : Text) (opts : BuildEventOptions) (e : TextEvent)
      → new_text_event p t opts ≡ ok e
      → (normalize_text_event p e opts.max_inline_bytes ≡ ok e)
        × IsInline t opts.max_inline_bytes
        × (e.text ≡ t)
        × (e.origin_node ≡ opts.origin_node)
        × (e.origin_instance_id ≡ trim_space opts.origin_instance_id)
        × (e.size ≡ pos (byte_len t))
        × (e.sha256 ≡ hash_text p t)
  unfolding new_text_event
  new_text_event-valid t opts e h =
      let instance_id = trim_space opts.origin_instance_id in
      let (_, h₁) = fail_if-eq-ok (opts.origin_node == 0) origin_node_required _ h in
      let (_, h₂) = fail_if-eq-ok (is_empty instance_id) origin_instance_id_required _ h₁ in
      let (d, _, h₃) = >>=-eq-ok (inspect_text p t opts.max_inline_bytes) _ h₂ in
      let (valid, inline, same_text, node, inst, size, hash) =
        new_with_digest-valid t d (record opts { origin_instance_id = instance_id }) e h₃ in
      (valid, inline, same_text, node, inst ∙ trim_space_idem opts.origin_instance_id, size, hash)

-- The event without the fields that are not serialised.
abbrev pub undigested : TextEvent → TextEvent
undigested e = record e { size = pos 0; sha256 = [] }

abbrev pub IsUtf8 : TextEvent → Type 0
IsUtf8 e =
    (valid_string e.event_id ≡ true)
    × (valid_string e.origin_instance_id ≡ true)
    × (valid_string e.origin_device ≡ true)
    × (valid_string e.text ≡ true)

-- encoding/json on events: an encoding is not empty, and decodes to the event it was made from if
-- its texts are valid UTF-8.
pub record IsJsonEvents (p : Platform) : Type 0 where
  pub not_empty : (e : TextEvent) (b : List ℕ) → p.encode_event e ≡ ok b → 1 ≤ length b
  pub decodes :
      (e : TextEvent) (b : List ℕ)
      → IsUtf8 e
      → p.encode_event e ≡ ok b
      → p.decode_event b ≡ ok (undigested e)

-- What one node marshals, another with the same limit parses to the same normalised event, if the
-- encoding fits the envelope (limit plus 4096 bytes) and the texts are valid UTF-8.
pub parse-marshal :
    (p : Platform) (e out : TextEvent) (n : ℕ) (b : List ℕ)
    → IsJsonEvents p
    → normalize_text_event p e (pos n) ≡ ok out
    → IsUtf8 out
    → marshal_text_event p e (pos n) ≡ ok b
    → length b ≤ n + 4096
    → parse_text_event p b (pos n) ≡ ok out
unfolding marshal_text_event parse_text_event
parse-marshal p e out n b json normal utf8 marshalled fits =
    let encoded : p.encode_event out ≡ ok b = rw normal at marshalled in
    let decoded = json.decodes out b utf8 encoded in
    let again = normalize_text_event_idem p e (pos n) out normal in
    let (v, _) = (normalize_text_event_iff p out (pos n) out).0 again in
    let back = (normalize_text_event_iff p (undigested out) (pos n) (normalized p out)).1 (
      record {
        version = v.version;
        event_id = v.event_id;
        origin_node = v.origin_node;
        instance_id = v.instance_id;
        inline = v.inline;
      },
      refl,
    ) in
    let same = (normalize_text_event_iff p out (pos n) out).0 again in
    rw decoded (ground (arith, json.not_empty out b encoded, back, same.1))

-- An event counts as the node's own exactly when its origin node is the node's (non-zero)
-- identifier, or its origin instance is the node's trimmed, non-empty instance.
pub is_local_origin_iff :
    (origin_node : ℕ) (origin_instance : Text) (node_id : ℕ) (instance_id : Text)
    → (is_local_origin origin_node origin_instance node_id instance_id ≡ true) ↔ (
        (1 ≤ node_id) × (origin_node ≡ node_id)
        ⊎ (is_empty (trim_space instance_id) ≡ false) × (origin_instance ≡ trim_space instance_id))
unfolding is_local_origin
is_local_origin_iff origin_node origin_instance node_id instance_id =
    ground (arith, text_eq_iff origin_instance (trim_space instance_id))
