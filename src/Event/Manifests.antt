-- ===== src/Event/Manifests.antt =====
-- Which transfer manifests are accepted, that the runtime's own are, and the wire round trip.
use myflowhub_clipboardnode.Base.{
  ℕ, suc, ◌≤◌, ◌<◌, ◌-◌, contains_rune, ◌+◌, ◌*◌, ◌≡◌, refl, ◌↔◌, Bool, true, false, not, List, [],
  ◌∷◌, Text, arith, is_empty, byte_len, trim_space, valid_string, text_eq, ltb, ◌==◌, length, ok,
  fail_if-eq-ok, >>=-eq-ok, Bool-cases, ℤ, pos, negsuc, leb_ℤ, eq_ℤ, codes, wrap_with, ◌⊎◌, All,
}
use myflowhub_clipboardnode.Base.Strings.Laws.{text_eq_iff, trim_space_idem, text_eq_refl}
use myflowhub_clipboardnode.Event.{
  Platform, Manifest, TransferReference, TextDigest, BuildEventOptions, check_reference,
  check_references, validate_manifest, new_manifest, marshal_manifest, parse_manifest, hash_text,
  hex_encode, hex_decodes, equal_fold, encoding_utf8, content_type_text_plain, inspect_text_content,
  event_version, max_event_envelope_bytes,
}
use myflowhub_clipboardnode.Event.Digest.{byte_len-pos, byte_len-hex_encode}

abbrev pub IsTarget : TransferReference → Type 0
IsTarget r =
    (is_empty (trim_space r.provider) ≡ false)
    × ((is_empty (trim_space r.opaque_id) ≡ false) ⊎ (is_empty (trim_space r.uri) ≡ false))

pub record IsValid (m : Manifest) : Type 0 where
  pub version : m.version ≡ pos 1
  pub event_id : (is_empty (trim_space m.event_id) ≡ false) × (byte_len m.event_id ≤ 128)
  pub origin_node : 1 ≤ m.origin_node
  pub instance_id : is_empty (trim_space m.origin_instance_id) ≡ false
  pub content_type : m.content_type ≡ content_type_text_plain
  pub encoding : equal_fold m.encoding encoding_utf8 ≡ true
  pub size : (n : ℕ) × (m.size ≡ pos (suc n))
  pub sha256 : (byte_len m.sha256 ≡ 64) × (hex_decodes m.sha256 ≡ true)
  pub references : (1 ≤ length m.references) × All IsTarget m.references
  pub ts : (n : ℕ) × (m.ts ≡ pos (suc n))

check_reference_iff : (i : ℕ) (r : TransferReference) → (check_reference i r ≡ ok tt) ↔ IsTarget r
check_reference_iff i r = ground (
  arith,
  Bool-cases (is_empty (trim_space r.provider)),
  Bool-cases (is_empty (trim_space r.opaque_id)),
  Bool-cases (is_empty (trim_space r.uri)),
)

check_references-ok :
    (i : ℕ) (rs : List TransferReference) → All IsTarget rs → check_references i rs ≡ ok tt
check_references-ok i [] a = refl
check_references-ok i (r ∷ rs) a =
    rw ((check_reference_iff i r).1 a.0) (check_references-ok (i + 1) rs a.1)

All-of_check_references :
    (i : ℕ) (rs : List TransferReference) → check_references i rs ≡ ok tt → All IsTarget rs
All-of_check_references i [] h = tt
All-of_check_references i (r ∷ rs) h =
    let (_, here, later) = >>=-eq-ok (check_reference i r) _ h in
    ((check_reference_iff i r).0 here, All-of_check_references (i + 1) rs later)

above_zero : (n : ℤ) → leb_ℤ n (pos 0) ≡ false → (k : ℕ) × (n ≡ pos (suc k))
above_zero (pos ℕ.zero) h = absurd (ground arith)
above_zero (pos (suc k)) h = (k, refl)
above_zero (negsuc k) h = absurd (ground arith)

not-false : (b : Bool) → not b ≡ false → b ≡ true
not-false true h = refl
not-false false h = cc

version_one : (v : ℤ) → not (eq_ℤ v (pos 1)) ≡ false → v ≡ pos 1
version_one v h = ground arith

validate-of_IsValid : (m : Manifest) → IsValid m → validate_manifest m ≡ ok tt
unfolding validate_manifest
validate-of_IsValid m v =
    let (n, size) = v.size in
    let (k, ts) = v.ts in
    rw
      (
        v.version,
        v.event_id.0,
        v.instance_id,
        v.content_type,
        v.encoding,
        size,
        ts,
        v.sha256.1,
        check_references-ok 0 m.references v.references.1,
        text_eq_refl content_type_text_plain,
      )
      (ground arith)

IsValid-of_validate : (m : Manifest) → validate_manifest m ≡ ok tt → IsValid m
unfolding validate_manifest
IsValid-of_validate m h =
    let (version, h₁) = fail_if-eq-ok (not (eq_ℤ m.version event_version)) _ _ h in
    let (id, h₂) = fail_if-eq-ok (is_empty (trim_space m.event_id)) _ _ h₁ in
    let (short, h₃) = fail_if-eq-ok (ltb 128 (byte_len m.event_id)) _ _ h₂ in
    let (node, h₄) = fail_if-eq-ok (m.origin_node == 0) _ _ h₃ in
    let (inst, h₅) = fail_if-eq-ok (is_empty (trim_space m.origin_instance_id)) _ _ h₄ in
    let (content, h₆) =
      fail_if-eq-ok (not (text_eq m.content_type content_type_text_plain)) _ _ h₅ in
    let (encoding, h₇) = fail_if-eq-ok (not (equal_fold m.encoding encoding_utf8)) _ _ h₆ in
    let (size, h₈) = fail_if-eq-ok (leb_ℤ m.size (pos 0)) _ _ h₇ in
    let (sha, h₉) = fail_if-eq-ok (not (byte_len m.sha256 == 64)) _ _ h₈ in
    let (hex, ha) = fail_if-eq-ok (not (hex_decodes m.sha256)) _ _ h₉ in
    let (count, hb) = fail_if-eq-ok (ltb (length m.references) 1) _ _ ha in
    let (_, refs, hc) = >>=-eq-ok (check_references 0 m.references) _ hb in
    record {
      version = version_one m.version version;
      event_id = (id, ground arith);
      origin_node = ground arith;
      instance_id = inst;
      content_type = (text_eq_iff m.content_type content_type_text_plain).0 (not-false _ content);
      encoding = not-false _ encoding;
      size = above_zero m.size size;
      sha256 = (ground arith, not-false _ hex);
      references = (ground arith, All-of_check_references 0 m.references refs);
      ts = above_zero m.ts (ground arith);
    }

-- A manifest validates exactly when its version is 1, its identifier is not blank and at most 128
-- bytes long, its node is not 0, its instance is not blank, its type is text/plain, its encoding is
-- utf-8 up to case, its size is positive, its hash is 64 hexadecimal digits, it has a reference, each
-- reference has a provider and an identifier or a URI, and its time stamp is positive.
pub validate_manifest_iff : (m : Manifest) → (validate_manifest m ≡ ok tt) ↔ IsValid m
validate_manifest_iff m = (IsValid-of_validate m, validate-of_IsValid m)

-- crypto/sha256: 32 bytes.
pub record IsSha256 (p : Platform) : Type 0 where
  pub sum : (t : Text) → (length (p.sum256 t) ≡ 32) × All (λ b. b < 256) (p.sum256 t)

-- The manifest that `new_manifest` makes with the identifier `id`.
abbrev pub manifest_of : Text → TextDigest → List TransferReference → BuildEventOptions → Manifest
manifest_of id digest refs opts = record {
  version = event_version;
  event_id = trim_space id;
  origin_node = opts.origin_node;
  origin_instance_id = trim_space opts.origin_instance_id;
  origin_device = trim_space opts.origin_device;
  content_type = content_type_text_plain;
  encoding = encoding_utf8;
  size = digest.size;
  sha256 = digest.sha256;
  references = refs;
  ts = opts.now_ms;
}

encoding_folds : equal_fold encoding_utf8 encoding_utf8 ≡ true
unfolding equal_fold
encoding_folds = refl

module _ (p : Platform) where
  digest-ok :
      (t : Text) (digest : TextDigest)
      → inspect_text_content p t ≡ ok digest
      → ((n : ℕ) × (digest.size ≡ pos (suc n))) × (digest.sha256 ≡ hex_encode (p.sum256 t))
  unfolding inspect_text_content hash_text
  digest-ok t digest h =
      let (filled, h₁) = fail_if-eq-ok (is_empty t) _ _ h in
      let (_, h₂) = fail_if-eq-ok (not (valid_string t)) _ _ h₁ in
      let (_, h₃) = fail_if-eq-ok (contains_rune t 0) _ _ h₂ in
      let long = byte_len-pos t filled in ((byte_len t - 1, ground arith), ground arith)

  -- A manifest can be built for every text that has a digest (non-empty, valid UTF-8, no null
  -- character, of any length), if the node is not 0, the instance is not blank, an identifier of 1 to
  -- 128 bytes is drawn, each reference has a target, there is one, and the clock is positive.
  pub new_manifest-total :
      (t id : Text) (digest : TextDigest) (refs : List TransferReference) (opts : BuildEventOptions)
      → IsSha256 p
      → inspect_text_content p t ≡ ok digest
      → opts.event_id ≡ ok id
      → 1 ≤ opts.origin_node
      → is_empty (trim_space opts.origin_instance_id) ≡ false
      → is_empty (trim_space id) ≡ false
      → byte_len (trim_space id) ≤ 128
      → 1 ≤ length refs
      → All IsTarget refs
      → ((n : ℕ) × (opts.now_ms ≡ pos (suc n)))
      → new_manifest p digest refs opts ≡ ok (manifest_of id digest refs opts)
  unfolding new_manifest
  new_manifest-total t id digest refs opts sha inspected drawn node inst filled short count targets
        now =
      let (sized, hashed) = digest-ok t digest inspected in
      let (len, bytes) = sha.sum t in
      let (hex_len, hex) = byte_len-hex_encode (p.sum256 t) bytes in
      let valid = validate-of_IsValid (manifest_of id digest refs opts) (record {
        version = refl;
        event_id = (rw trim_space_idem filled, short);
        origin_node = node;
        instance_id = rw trim_space_idem inst;
        content_type = refl;
        encoding = encoding_folds;
        size = sized;
        sha256 = (rw hashed (omega (arith, hex_len, len)), rw hashed hex);
        references = (count, targets);
        ts = now;
      }) in
      rw (drawn, inst, valid) (ground arith)

abbrev pub IsUtf8Reference : TransferReference → Type 0
IsUtf8Reference r =
    (valid_string r.provider ≡ true)
    × (valid_string r.opaque_id ≡ true)
    × (valid_string r.uri ≡ true)

abbrev pub IsUtf8Manifest : Manifest → Type 0
IsUtf8Manifest m =
    (valid_string m.event_id ≡ true)
    × (valid_string m.origin_instance_id ≡ true)
    × (valid_string m.origin_device ≡ true)
    × (valid_string m.content_type ≡ true)
    × (valid_string m.encoding ≡ true)
    × (valid_string m.sha256 ≡ true)
    × All IsUtf8Reference m.references

-- encoding/json on manifests.
pub record IsJsonManifests (p : Platform) : Type 0 where
  pub not_empty : (m : Manifest) (b : List ℕ) → p.encode_manifest m ≡ ok b → 1 ≤ length b
  pub decodes :
      (m : Manifest) (b : List ℕ)
      → IsUtf8Manifest m
      → p.encode_manifest m ≡ ok b
      → p.decode_manifest b ≡ ok m

-- A manifest that is marshalled (which needs it to be valid) into at most 8192 bytes is parsed back
-- unchanged, if its texts are valid UTF-8.
pub parse_manifest-marshal :
    (p : Platform) (m : Manifest) (b : List ℕ)
    → IsJsonManifests p
    → IsUtf8Manifest m
    → marshal_manifest p m ≡ ok b
    → length b ≤ 8192
    → parse_manifest p b ≡ ok m
unfolding marshal_manifest parse_manifest
parse_manifest-marshal p m b json utf8 marshalled fits =
    let (_, valid, encoded) = >>=-eq-ok (validate_manifest m) _ marshalled in
    rw (json.decodes m b utf8 encoded) (rw valid (ground (arith, json.not_empty m b encoded)))

-- Whatever bytes arrive, a manifest that parsing returns is valid, and the payload was between 1 and
-- 8192 bytes long.
pub parse_manifest-IsValid :
    (p : Platform) (b : List ℕ) (m : Manifest)
    → parse_manifest p b ≡ ok m
    → IsValid m × (1 ≤ length b) × (length b ≤ 8192)
unfolding parse_manifest
parse_manifest-IsValid p b m h =
    let (filled, h₁) = fail_if-eq-ok (ltb (length b) 1) _ _ h in
    let (fits, h₂) = fail_if-eq-ok (ltb (max_event_envelope_bytes * 2) (length b)) _ _ h₁ in
    let (m', _, h₃) =
      >>=-eq-ok (wrap_with (codes "decode transfer manifest") (p.decode_manifest b)) _ h₂ in
    let (_, valid, same) = >>=-eq-ok (validate_manifest m') _ h₃ in
    let e : m' ≡ m = cc in (rw e at (IsValid-of_validate m' valid), ground arith, ground arith)
