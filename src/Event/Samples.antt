-- ===== src/Event/Samples.antt =====
-- A concrete platform: a constant digest, and a coding of events and manifests that round trips.
use myflowhub_clipboardnode.Base.{
  ℕ, zero, suc, ◌≤◌, ◌<◌, ◌≡◌, refl, ap, ◌∙◌, List, [], ◌∷◌, ◌++◌, map, Text, codes, ℤ, pos, negsuc,
  Result, ok, err, external, length, replicate, All, arith,
}
use myflowhub_clipboardnode.Event.{
  Platform, TextEvent, Manifest, TransferReference, BuildEventOptions,
}
use myflowhub_clipboardnode.Event.TextEvents.{IsJsonEvents}
use myflowhub_clipboardnode.Event.Manifests.{IsJsonManifests, IsSha256}

pack : List Text → List ℕ
pack [] = []
pack (s ∷ ss) = map suc s ++ 0 ∷ pack ss

-- A character in front of the first text.
unfoldable pub push : ℕ → List Text → List Text
push n [] = []
push n (s ∷ ss) = (n ∷ s) ∷ ss

unfoldable pub unpack : List ℕ → List Text
unpack [] = []
unpack (zero ∷ bs) = [] ∷ unpack bs
unpack (suc n ∷ bs) = push n (unpack bs)

pub unpack-map :
    (s : Text) (bs : List ℕ) (ss : List Text)
    → unpack bs ≡ ss
    → unpack (map suc s ++ 0 ∷ bs) ≡ s ∷ ss
unfolding unpack push
unpack-map [] bs ss h = ap (◌∷◌ []) h
unpack-map (c ∷ s) bs ss h = ap (push c) (unpack-map s bs ss h)

unpack-pack : (ss : List Text) → unpack (pack ss) ≡ ss
unfolding unpack pack
unpack-pack [] = refl
unpack-pack (s ∷ ss) = unpack-map s (pack ss) ss (unpack-pack ss)

length-pack-pos : (s : Text) (ss : List Text) → 1 ≤ length (pack (s ∷ ss))
unfolding pack
length-pack-pos [] ss = omega arith
length-pack-pos (c ∷ s) ss = omega arith

int_field : ℤ → Text
int_field (pos n) = 0 ∷ n ∷ []
int_field (negsuc n) = 1 ∷ n ∷ []

of_int : Text → ℤ
of_int (zero ∷ n ∷ []) = pos n
of_int (suc k ∷ n ∷ []) = negsuc n
of_int _ = pos 0

of_int-int_field : (z : ℤ) → of_int (int_field z) ≡ z
unfolding of_int int_field
of_int-int_field (pos n) = refl
of_int-int_field (negsuc n) = refl

abbrev others : TextEvent → List Text
others e = e.event_id ∷ (e.origin_node ∷ []) ∷ e.origin_instance_id ∷ e.origin_device ∷ e.text ∷ []

event_fields : TextEvent → List Text
event_fields e = int_field e.version ∷ others e

event_of : List Text → Result TextEvent
event_of (v ∷ id ∷ (node ∷ []) ∷ instance_id ∷ device ∷ text ∷ []) = ok (record {
  version = of_int v;
  event_id = id;
  origin_node = node;
  origin_instance_id = instance_id;
  origin_device = device;
  text = text;
  size = pos 0;
  sha256 = [];
})
event_of _ = err (external (codes "json"))

reference_fields : List TransferReference → List Text
reference_fields [] = []
reference_fields (r ∷ rs) = r.provider ∷ r.opaque_id ∷ r.uri ∷ reference_fields rs

references_of : List Text → List TransferReference
references_of (a ∷ b ∷ c ∷ ss) = record { provider = a; opaque_id = b; uri = c } ∷ references_of ss
references_of _ = []

references_lem : (rs : List TransferReference) → references_of (reference_fields rs) ≡ rs
unfolding references_of reference_fields
references_lem [] = refl
references_lem (r ∷ rs) = ap (◌∷◌ r) (references_lem rs)

manifest_others : Manifest → List Text
manifest_others m =
    m.event_id
    ∷ (m.origin_node ∷ [])
    ∷ m.origin_instance_id
    ∷ m.origin_device
    ∷ m.content_type
    ∷ m.encoding
    ∷ int_field m.size
    ∷ m.sha256
    ∷ int_field m.ts
    ∷ reference_fields m.references

manifest_fields : Manifest → List Text
unfolding manifest_others
manifest_fields m = int_field m.version ∷ manifest_others m

manifest_of_fields : List Text → Result Manifest
manifest_of_fields
      (v ∷ id ∷ (node ∷ []) ∷ instance_id ∷ device ∷ kind ∷ enc ∷ size ∷ hash ∷ ts ∷ rs) =
    ok (record {
      version = of_int v;
      event_id = id;
      origin_node = node;
      origin_instance_id = instance_id;
      origin_device = device;
      content_type = kind;
      encoding = enc;
      size = of_int size;
      sha256 = hash;
      references = references_of rs;
      ts = of_int ts;
    })
manifest_of_fields _ = err (external (codes "json"))

unfoldable pub event_payload : TextEvent → List ℕ
unfolding pack int_field event_fields
event_payload e = pack (event_fields e)

unfoldable pub manifest_payload : Manifest → List ℕ
unfolding pack int_field reference_fields manifest_others manifest_fields
manifest_payload m = pack (manifest_fields m)

unfoldable pub sample_platform : Platform
unfolding pack unpack push int_field of_int event_fields event_of reference_fields references_of
    manifest_others manifest_fields manifest_of_fields
sample_platform = record {
  sum256 = λ t. replicate 32 171;
  encode_event = λ e. ok (pack (event_fields e));
  decode_event = λ b. event_of (unpack b);
  encode_manifest = λ m. ok (pack (manifest_fields m));
  decode_manifest = λ b. manifest_of_fields (unpack b);
}

event_lem :
    (e : TextEvent) → event_of (event_fields e) ≡ ok (record e { size = pos 0; sha256 = [] })
unfolding event_of event_fields
event_lem e =
    ap (λ v. ok (record e { version = v; size = pos 0; sha256 = [] })) (of_int-int_field e.version)

manifest_lem : (m : Manifest) → manifest_of_fields (manifest_fields m) ≡ ok m
unfolding manifest_of_fields manifest_fields manifest_others
manifest_lem m = λ i. ok (record m {
  version = of_int-int_field m.version i;
  size = of_int-int_field m.size i;
  ts = of_int-int_field m.ts i;
  references = references_lem m.references i;
})

bytes_of : (x b : List ℕ) → ok x ≡ ok b → b ≡ x
bytes_of x b h = cc

filled_bytes : (s : Text) (ss : List Text) (b : List ℕ) → ok (pack (s ∷ ss)) ≡ ok b → 1 ≤ length b
filled_bytes s ss b h = rw (bytes_of (pack (s ∷ ss)) b h) (length-pack-pos s ss)

decoded : (ss : List Text) (b : List ℕ) → ok (pack ss) ≡ ok b → unpack b ≡ ss
decoded ss b h = ap unpack (bytes_of (pack ss) b h) ∙ unpack-pack ss

All-replicate : (n b : ℕ) → b < 256 → All (λ x. x < 256) (replicate n b)
All-replicate zero b h = tt
All-replicate (suc n) b h = (h, All-replicate n b h)

pub sample_platform-IsJsonEvents : IsJsonEvents sample_platform
unfolding sample_platform event_fields
sample_platform-IsJsonEvents = record {
  not_empty = λ e b h. filled_bytes (int_field e.version) (others e) b h;
  decodes = λ e b u h. ap event_of (decoded (event_fields e) b h) ∙ event_lem e;
}

pub sample_platform-IsJsonManifests : IsJsonManifests sample_platform
unfolding sample_platform manifest_fields
sample_platform-IsJsonManifests = record {
  not_empty = λ m b h. filled_bytes (int_field m.version) (manifest_others m) b h;
  decodes = λ m b u h. ap manifest_of_fields (decoded (manifest_fields m) b h) ∙ manifest_lem m;
}

pub sample_platform-IsSha256 : IsSha256 sample_platform
unfolding sample_platform
sample_platform-IsSha256 = record { sum = λ t. (refl, All-replicate 32 171 (omega arith)) }

abbrev pub sample_event : TextEvent
sample_event = record {
  version = pos 1;
  event_id = codes " e1 ";
  origin_node = 9;
  origin_instance_id = codes "desk";
  origin_device = codes "Desk";
  text = codes "hi";
  size = pos 0;
  sha256 = [];
}

abbrev pub sample_options : BuildEventOptions
sample_options = record {
  origin_node = 9;
  origin_instance_id = codes "desk";
  origin_device = codes "Desk";
  max_inline_bytes = pos 100;
  now_ms = pos 1000;
  event_id = ok (codes "e1");
}

abbrev pub sample_references : List TransferReference
sample_references = record { provider = codes "drop"; opaque_id = codes "x"; uri = [] } ∷ []
