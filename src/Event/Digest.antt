-- ===== src/Event/Digest.antt =====
-- What text is accepted inline, and the digest that the runtime computes of it.
use myflowhub_clipboardnode.Base.{
  ℕ, ◌≤◌, ◌<◌, ◌*◌, ◌/◌, ◌%◌, ◌≡◌, refl, ap, sym, ◌∙◌, ◌↔◌, true, false, List, [], ◌∷◌, Text, arith,
  is_empty, byte_len, rune_len, valid_string, contains_rune, length, All, ok, ℤ, pos, negsuc,
}
use myflowhub_clipboardnode.Event.{
  Platform, TextDigest, hex_encode, hex_decodes, hex_digit, is_hex_digit, hash_text, inspect_text,
}

-- Non-empty, valid UTF-8, without a null character, and at most `max` bytes long.
pub record IsInline (t : Text) (max : ℤ) : Type 0 where
  pub filled : is_empty t ≡ false
  pub utf8 : valid_string t ≡ true
  pub no_null : contains_rune t 0 ≡ false
  pub fits : (n : ℕ) × (max ≡ pos n) × (byte_len t ≤ n)

rune_len-pos : (c : ℕ) → 1 ≤ rune_len c
unfolding rune_len
rune_len-pos c = ground arith

pub byte_len-pos : (t : Text) → is_empty t ≡ false → 1 ≤ byte_len t
unfolding byte_len
byte_len-pos [] h = cc
byte_len-pos (c ∷ t) h = omega (arith, rune_len-pos c)

module _ (p : Platform) where
  abbrev pub digest_of : Text → TextDigest
  digest_of t = record { size = pos (byte_len t); sha256 = hash_text p t }

  inspect_text-of_IsInline :
      (t : Text) (max : ℤ) → IsInline t max → inspect_text p t max ≡ ok (digest_of t)
  unfolding inspect_text
  inspect_text-of_IsInline t max h =
      let (n, e, fits) = h.fits in
      rw (e, h.filled, h.utf8, h.no_null) (ground (arith, byte_len-pos t h.filled))

  IsInline-of_inspect_text :
      (t : Text) (max : ℤ) (d : TextDigest)
      → inspect_text p t max ≡ ok d
      → IsInline t max × (d ≡ digest_of t)
  unfolding inspect_text
  IsInline-of_inspect_text t (negsuc n) d h = absurd (ground arith)
  IsInline-of_inspect_text t (pos n) d h = (
    record {
      filled = ground arith;
      utf8 = ground arith;
      no_null = ground arith;
      fits = (n, refl, ground arith);
    },
    ground arith,
  )

  -- A text is accepted inline exactly when it is non-empty, valid UTF-8, free of null characters and
  -- no longer in bytes than the (then positive) limit; its digest is its byte length and the
  -- hexadecimal SHA-256 of it.
  pub inspect_text_iff :
      (t : Text) (max : ℤ) (d : TextDigest)
      → (inspect_text p t max ≡ ok d) ↔ (IsInline t max × (d ≡ digest_of t))
  inspect_text_iff t max d =
      (IsInline-of_inspect_text t max d, λ (h, e). inspect_text-of_IsInline t max h ∙ ap ok (sym e))

hex_digit_lem :
    (d : ℕ) → d < 16 → (is_hex_digit (hex_digit d) ≡ true) × (rune_len (hex_digit d) ≡ 1)
unfolding rune_len
hex_digit_lem d h = ground arith

-- Two digits for each byte, which decode.
pub byte_len-hex_encode :
    (bs : List ℕ)
    → All (λ b. b < 256) bs
    → (byte_len (hex_encode bs) ≡ 2 * length bs) × (hex_decodes (hex_encode bs) ≡ true)
unfolding byte_len hex_encode hex_decodes
byte_len-hex_encode [] h = (omega arith, refl)
byte_len-hex_encode (b ∷ bs) h =
    let (len, decodes) = byte_len-hex_encode bs h.1 in
    let (hi, hi_len) = hex_digit_lem (b / 16) (omega (arith, h.0)) in
    let (lo, lo_len) = hex_digit_lem (b % 16) (omega arith) in
    (omega (arith, len, hi_len, lo_len), rw (hi, lo) decodes)
