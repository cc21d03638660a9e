-- ===== src/Event/Tests.antt =====
-- The theorems on events and manifests at concrete inputs.
use myflowhub_clipboardnode.Base.{
  ℕ, suc, ◌≡◌, refl, ◌≤◌, ◌↔◌, ◌⊎◌, true, false, List, [], ◌∷◌, Text, codes, ℤ, pos, Result, ok,
  err, length, arith, inl, inr, is_empty, trim_space, byte_len,
}
use myflowhub_clipboardnode.Event.{
  TextEvent, TextDigest, Manifest, parse_text_event, marshal_text_event, normalize_text_event,
  new_text_event, inspect_text, inspect_text_content, parse_manifest, marshal_manifest,
  validate_manifest, new_manifest, is_local_origin, hash_text,
}
use myflowhub_clipboardnode.Event.Samples.{
  sample_platform, sample_platform-IsJsonEvents, sample_platform-IsJsonManifests,
  sample_platform-IsSha256, sample_event, sample_options, event_payload, manifest_payload,
  sample_references,
}
use myflowhub_clipboardnode.Event.Digest.{inspect_text_iff, digest_of, IsInline}
use myflowhub_clipboardnode.Event.TextEvents.{
  normalize_text_event_iff, normalized, parse-marshal, IsValid,
}
use myflowhub_clipboardnode.Event.Manifests.{
  validate_manifest_iff, new_manifest-total, manifest_of, parse_manifest-marshal,
  parse_manifest-IsValid,
}
use myflowhub_clipboardnode.Event.Manifests as Manifests

abbrev home : ℕ
home = 9

abbrev four : ℕ
four = 4

abbrev sample_digest : TextDigest
sample_digest = digest_of sample_platform (codes "hi")

abbrev sample_normal : TextEvent
sample_normal = normalized sample_platform sample_event

abbrev sample_manifest : Manifest
sample_manifest = manifest_of (codes "e1") sample_digest sample_references sample_options

inspect_text_iff_example :
    (inspect_text sample_platform (codes "hi") (pos 100) ≡ ok sample_digest)
    ↔ (IsInline (codes "hi") (pos 100) × (sample_digest ≡ digest_of sample_platform (codes "hi")))
inspect_text_iff_example = inspect_text_iff sample_platform (codes "hi") (pos 100) sample_digest

normalize_text_event_iff_example :
    (normalize_text_event sample_platform sample_event (pos 100) ≡ ok sample_normal)
    ↔ (IsValid sample_event (pos 100) × (sample_normal ≡ normalized sample_platform sample_event))
normalize_text_event_iff_example =
    normalize_text_event_iff sample_platform sample_event (pos 100) sample_normal

sample_normalizes : normalize_text_event sample_platform sample_event (pos 100) ≡ ok sample_normal
unfolding normalize_text_event inspect_text trim_space byte_len
    myflowhub_clipboardnode.Base.valid_string myflowhub_clipboardnode.Base.contains_rune
sample_normalizes = refl

sample_marshals :
    marshal_text_event sample_platform sample_event (pos 100) ≡ ok (event_payload sample_normal)
unfolding normalize_text_event inspect_text trim_space byte_len
    myflowhub_clipboardnode.Base.valid_string myflowhub_clipboardnode.Base.contains_rune
    marshal_text_event event_payload sample_platform
sample_marshals = refl

parse-marshal_example :
    parse_text_event sample_platform (event_payload sample_normal) (pos 100) ≡ ok sample_normal
unfolding normalize_text_event inspect_text trim_space byte_len
    myflowhub_clipboardnode.Base.valid_string myflowhub_clipboardnode.Base.contains_rune
    event_payload
parse-marshal_example =
    parse-marshal sample_platform sample_event sample_normal 100 (event_payload sample_normal)
      sample_platform-IsJsonEvents sample_normalizes (refl, refl, refl, refl) sample_marshals
      (ground arith)

validate_manifest_iff_example :
    (validate_manifest sample_manifest ≡ ok tt) ↔ Manifests.IsValid sample_manifest
validate_manifest_iff_example = validate_manifest_iff sample_manifest

sample_inspected : inspect_text_content sample_platform (codes "hi") ≡ ok sample_digest
unfolding normalize_text_event inspect_text trim_space byte_len
    myflowhub_clipboardnode.Base.valid_string myflowhub_clipboardnode.Base.contains_rune
    inspect_text_content
sample_inspected = refl

new_manifest-total_example :
    new_manifest sample_platform sample_digest sample_references sample_options ≡ ok sample_manifest
unfolding normalize_text_event inspect_text trim_space byte_len
    myflowhub_clipboardnode.Base.valid_string myflowhub_clipboardnode.Base.contains_rune
new_manifest-total_example =
    new_manifest-total sample_platform (codes "hi") (codes "e1") sample_digest sample_references
      sample_options sample_platform-IsSha256 sample_inspected refl (omega arith) refl refl
      (ground arith) (omega arith) ((refl, inl refl), tt) (999, refl)

sample_manifest_marshals :
    marshal_manifest sample_platform sample_manifest ≡ ok (manifest_payload sample_manifest)
unfolding normalize_text_event inspect_text trim_space byte_len
    myflowhub_clipboardnode.Base.valid_string myflowhub_clipboardnode.Base.contains_rune
    marshal_manifest manifest_payload sample_platform hash_text validate_manifest
    myflowhub_clipboardnode.Base.text_eq myflowhub_clipboardnode.Event.equal_fold
    myflowhub_clipboardnode.Event.hex_encode myflowhub_clipboardnode.Event.hex_decodes
sample_manifest_marshals = refl

sample_manifest-length : length (manifest_payload sample_manifest) ≤ 8192
unfolding normalize_text_event inspect_text trim_space byte_len
    myflowhub_clipboardnode.Base.valid_string myflowhub_clipboardnode.Base.contains_rune
    marshal_manifest manifest_payload sample_platform hash_text validate_manifest
    myflowhub_clipboardnode.Base.text_eq myflowhub_clipboardnode.Event.equal_fold
    myflowhub_clipboardnode.Event.hex_encode myflowhub_clipboardnode.Event.hex_decodes
sample_manifest-length = ground arith

parse_manifest-marshal_example :
    parse_manifest sample_platform (manifest_payload sample_manifest) ≡ ok sample_manifest
unfolding normalize_text_event inspect_text trim_space byte_len
    myflowhub_clipboardnode.Base.valid_string myflowhub_clipboardnode.Base.contains_rune hash_text
    myflowhub_clipboardnode.Event.hex_encode sample_platform
parse_manifest-marshal_example =
    parse_manifest-marshal sample_platform sample_manifest (manifest_payload sample_manifest)
      sample_platform-IsJsonManifests (refl, refl, refl, refl, refl, refl, ((refl, refl, refl), tt))
      sample_manifest_marshals sample_manifest-length
