-- ===== src/Event.antt =====
-- core/runtime/event.go: clipboard text events and transfer manifests. SHA-256 and encoding/json are
-- fields of `Platform`.
pub mod Samples
pub mod Tests
pub mod Digest
pub mod TextEvents
pub mod Manifests
pub mod Expansion
use myflowhub_clipboardnode.Base.{
  ℕ, suc, ◌+◌, ◌-◌, ◌*◌, ◌/◌, ◌%◌, Bool, true, false, not, ◌&&◌, ◌||◌, Option, none, some, List, [],
  ◌∷◌, ◌++◌, Text, codes, text_eq, is_empty, trim_space, byte_len, valid_string, contains_rune, ltb,
  leb, ◌==◌, ℤ, pos, pos_part, neg_part, ltb_ℤ, leb_ℤ, eq_ℤ, length, if◌then◌else◌, Result, ok, err,
  ◌>>=◌, ◌>>◌, fail_if, wrap_with, max_inline_bytes_not_positive, text_too_large, text_empty,
  text_not_utf8, text_has_null, unsupported_version, event_id_required, event_id_too_long,
  origin_node_required, origin_instance_id_required, payload_required, payload_too_large,
  unsupported_content_type, unsupported_encoding, size_not_positive, bad_sha256_length,
  bad_sha256_hex, no_reference, reference_provider_required, reference_target_required, ts_required,
}

abbrev pub text_event_name : Text
text_event_name = codes "clipboard.text.v1"

abbrev pub transfer_event_name : Text
transfer_event_name = codes "clipboard.transfer.v1"

abbrev pub event_version : ℤ
event_version = pos 1

abbrev pub content_type_text_plain : Text
content_type_text_plain = codes "text/plain"

abbrev pub encoding_utf8 : Text
encoding_utf8 = codes "utf-8"

abbrev pub max_event_envelope_bytes : ℕ
max_event_envelope_bytes = 4096

abbrev pub max_event_id_bytes : ℕ
max_event_id_bytes = 128

-- `size` and `sha256` are not serialised.
pub record TextEvent : Type 0 where
  pub version : ℤ
  pub event_id : Text
  pub origin_node : ℕ
  pub origin_instance_id : Text
  pub origin_device : Text
  pub text : Text
  pub size : ℤ
  pub sha256 : Text

pub record TransferReference : Type 0 where
  pub provider : Text
  pub opaque_id : Text
  pub uri : Text

pub record Manifest : Type 0 where
  pub version : ℤ
  pub event_id : Text
  pub origin_node : ℕ
  pub origin_instance_id : Text
  pub origin_device : Text
  pub content_type : Text
  pub encoding : Text
  pub size : ℤ
  pub sha256 : Text
  pub references : List TransferReference
  pub ts : ℤ

pub record TextDigest : Type 0 where
  pub size : ℤ
  pub sha256 : Text

-- crypto/sha256 (the 32 bytes of the digest) and encoding/json.
pub record Platform : Type 0 where
  pub sum256 : Text → List ℕ
  pub encode_event : TextEvent → Result (List ℕ)
  pub decode_event : List ℕ → Result TextEvent
  pub encode_manifest : Manifest → Result (List ℕ)
  pub decode_manifest : List ℕ → Result Manifest

-- What a call that builds an event is given; `event_id` is what `NewEventID()` returns to it, and
-- `now_ms` what `Now().UnixMilli()` does.
pub record BuildEventOptions : Type 0 where
  pub origin_node : ℕ
  pub origin_instance_id : Text
  pub origin_device : Text
  pub max_inline_bytes : ℤ
  pub now_ms : ℤ
  pub event_id : Result Text

abbrev hex_digit : ℕ → ℕ
hex_digit d = if ltb d 10 then b'0' + d else b'a' + (d - 10)

-- hex.EncodeToString
unfoldable pub hex_encode : List ℕ → Text
hex_encode [] = []
hex_encode (b ∷ bs) = hex_digit (b / 16) ∷ hex_digit (b % 16) ∷ hex_encode bs

abbrev is_hex_digit : ℕ → Bool
is_hex_digit c = leb b'0' c && leb c b'9' || (leb b'a' c && leb c b'f' || leb b'A' c && leb c b'F')

-- hex.DecodeString succeeds: pairs of hexadecimal digits.
unfoldable pub hex_decodes : Text → Bool
hex_decodes [] = true
hex_decodes (a ∷ []) = false
hex_decodes (a ∷ b ∷ s) = is_hex_digit a && is_hex_digit b && hex_decodes s

abbrev fold_rune : ℕ → ℕ
fold_rune c = if leb b'A' c && leb c b'Z' then c + 32 else c

-- strings.EqualFold(s, t), for a `t` whose letters fold to ASCII letters only ("utf-8").
unfoldable pub equal_fold : Text → Text → Bool
equal_fold [] [] = true
equal_fold [] (d ∷ t) = false
equal_fold (c ∷ s) [] = false
equal_fold (c ∷ s) (d ∷ t) = fold_rune c == fold_rune d && equal_fold s t

-- e.IsLocalOrigin and m.IsLocalOrigin
unfoldable pub is_local_origin : ℕ → Text → ℕ → Text → Bool
is_local_origin origin_node origin_instance node_id instance_id =
    not (node_id == 0) && origin_node == node_id
    || not (is_empty (trim_space instance_id)) && text_eq origin_instance (trim_space instance_id)

abbrev pub check_reference : ℕ → TransferReference → Result (Unit {0})
check_reference i r = do
  fail_if (is_empty (trim_space r.provider)) (reference_provider_required i)
  fail_if (is_empty (trim_space r.opaque_id) && is_empty (trim_space r.uri))
      (reference_target_required i)

abbrev pub check_references : ℕ → List TransferReference → Result (Unit {0})
check_references i [] = ok tt
check_references i (r ∷ rs) = check_reference i r >> check_references (i + 1) rs

-- m.Validate()
unfoldable pub validate_manifest : Manifest → Result (Unit {0})
validate_manifest m = do
  fail_if (not (eq_ℤ m.version event_version)) (unsupported_version m.version)
  fail_if (is_empty (trim_space m.event_id)) event_id_required
  fail_if (ltb max_event_id_bytes (byte_len m.event_id)) event_id_too_long
  fail_if (m.origin_node == 0) origin_node_required
  fail_if (is_empty (trim_space m.origin_instance_id)) origin_instance_id_required
  fail_if (not (text_eq m.content_type content_type_text_plain))
      (unsupported_content_type m.content_type)
  fail_if (not (equal_fold m.encoding encoding_utf8)) (unsupported_encoding m.encoding)
  fail_if (leb_ℤ m.size (pos 0)) size_not_positive
  fail_if (not (byte_len m.sha256 == 64)) bad_sha256_length
  fail_if (not (hex_decodes m.sha256)) bad_sha256_hex
  fail_if (ltb (length m.references) 1) no_reference
  check_references 0 m.references
  fail_if (leb_ℤ m.ts (pos 0)) ts_required

module _ (p : Platform) where
  unfoldable pub hash_text : Text → Text
  hash_text t = hex_encode (p.sum256 t)

  unfoldable pub inspect_text_content : Text → Result TextDigest
  inspect_text_content t = do
    fail_if (is_empty t) text_empty
    fail_if (not (valid_string t)) text_not_utf8
    fail_if (contains_rune t 0) text_has_null
    ok (record { size = pos (byte_len t); sha256 = hash_text t })

  unfoldable pub inspect_text : Text → ℤ → Result TextDigest
  unfolding inspect_text_content
  inspect_text t max_inline_bytes = do
    fail_if (leb_ℤ max_inline_bytes (pos 0)) max_inline_bytes_not_positive
    digest ← inspect_text_content t
    fail_if (ltb_ℤ max_inline_bytes digest.size) (text_too_large (byte_len t) max_inline_bytes)
    ok digest

  unfoldable pub normalize_text_event : TextEvent → ℤ → Result TextEvent
  normalize_text_event e max_inline_bytes = do
    fail_if (leb_ℤ max_inline_bytes (pos 0)) max_inline_bytes_not_positive
    fail_if (not (eq_ℤ e.version event_version)) (unsupported_version e.version)
    let event_id = trim_space e.event_id
    fail_if (is_empty event_id) event_id_required
    fail_if (ltb max_event_id_bytes (byte_len event_id)) event_id_too_long
    fail_if (e.origin_node == 0) origin_node_required
    let instance_id = trim_space e.origin_instance_id
    fail_if (is_empty instance_id) origin_instance_id_required
    digest ← inspect_text e.text max_inline_bytes
    ok (record e {
      event_id = event_id;
      origin_instance_id = instance_id;
      origin_device = trim_space e.origin_device;
      size = digest.size;
      sha256 = digest.sha256;
    })

  unfoldable pub new_text_event_with_digest :
      Text → TextDigest → BuildEventOptions → Result TextEvent
  new_text_event_with_digest t digest opts = do
    fail_if (opts.origin_node == 0) origin_node_required
    fail_if (is_empty (trim_space opts.origin_instance_id)) origin_instance_id_required
    event_id ← wrap_with (codes "create event id") opts.event_id
    normalize_text_event
        (record {
          version = event_version;
          event_id = trim_space event_id;
          origin_node = opts.origin_node;
          origin_instance_id = trim_space opts.origin_instance_id;
          origin_device = trim_space opts.origin_device;
          text = t;
          size = digest.size;
          sha256 = digest.sha256;
        })
        opts.max_inline_bytes

  unfoldable pub new_text_event : Text → BuildEventOptions → Result TextEvent
  new_text_event t opts = do
    fail_if (opts.origin_node == 0) origin_node_required
    fail_if (is_empty (trim_space opts.origin_instance_id)) origin_instance_id_required
    digest ← inspect_text t opts.max_inline_bytes
    new_text_event_with_digest t digest
        (record opts { origin_instance_id = trim_space opts.origin_instance_id })

  unfoldable pub marshal_text_event : TextEvent → ℤ → Result (List ℕ)
  marshal_text_event e max_inline_bytes = do
    out ← normalize_text_event e max_inline_bytes
    p.encode_event out

  -- `len(payload) > maxInlineBytes+maxEventEnvelopeBytes`, where the limit may be negative.
  abbrev payload_exceeds : ℕ → ℤ → Bool
  payload_exceeds n max_inline_bytes =
      ltb (pos_part max_inline_bytes + max_event_envelope_bytes) (n + neg_part max_inline_bytes)

  unfoldable pub parse_text_event : List ℕ → ℤ → Result TextEvent
  parse_text_event payload max_inline_bytes = do
    fail_if (ltb (length payload) 1) payload_required
    fail_if (payload_exceeds (length payload) max_inline_bytes) payload_too_large
    e ← wrap_with (codes "decode clipboard event") (p.decode_event payload)
    normalize_text_event e max_inline_bytes

  unfoldable pub new_manifest :
      TextDigest → List TransferReference → BuildEventOptions → Result Manifest
  new_manifest digest refs opts = do
    fail_if (opts.origin_node == 0) origin_node_required
    fail_if (is_empty (trim_space opts.origin_instance_id)) origin_instance_id_required
    event_id ← wrap_with (codes "create event id") opts.event_id
    let manifest : Manifest = record {
      version = event_version;
      event_id = trim_space event_id;
      origin_node = opts.origin_node;
      origin_instance_id = trim_space opts.origin_instance_id;
      origin_device = trim_space opts.origin_device;
      content_type = content_type_text_plain;
      encoding = encoding_utf8;
      size = digest.size;
      sha256 = digest.sha256;
      references = refs;
      ts = opts.now_ms;
    }
    validate_manifest manifest
    ok manifest

  unfoldable pub marshal_manifest : Manifest → Result (List ℕ)
  marshal_manifest m = validate_manifest m >> p.encode_manifest m

  unfoldable pub parse_manifest : List ℕ → Result Manifest
  parse_manifest payload = do
    fail_if (ltb (length payload) 1) payload_required
    fail_if (ltb (max_event_envelope_bytes * 2) (length payload)) payload_too_large
    m ← wrap_with (codes "decode transfer manifest") (p.decode_manifest payload)
    validate_manifest m
    ok m
