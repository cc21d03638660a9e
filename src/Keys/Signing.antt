-- ===== src/Keys/Signing.antt =====
-- What a login's signature covers: loginSignBytes.
use myflowhub_clipboardnode.Base.{
  ℕ, suc, ◌≡◌, refl, sym, ap, ◌<◌, ◌^◌, [], ◌∷◌, ◌++◌, Text, trim_space, ℤ, pos, negsuc, All, arith,
  format_uint, format_int, IsInt64, IsDigit, format_uint_inj, format_int_inj, format_uint-All,
}
use myflowhub_clipboardnode.Keys.{newline, login_sign_bytes}

-- No character is a newline.
abbrev pub OneLine : Text → Type 0
OneLine = All (λ c. ¬ (c ≡ newline))

abbrev tail : Text → Text
tail [] = []
tail (c ∷ s) = s

abbrev first : Text → ℕ
first [] = 0
first (c ∷ s) = c

cons_path : {c d : ℕ} {s t : Text} → c ≡ d → s ≡ t → c ∷ s ≡ d ∷ t
cons_path p q = λ i. p i ∷ q i

-- A first line and what follows it are determined by their concatenation.
split_line :
    (s t rest rest' : Text)
    → OneLine s
    → OneLine t
    → s ++ newline ∷ rest ≡ t ++ newline ∷ rest'
    → (s ≡ t) × (rest ≡ rest')
split_line [] [] rest rest' _ _ e = (refl, ap tail e)
split_line [] (d ∷ t) rest rest' _ (h, _) e = absurd (h (ap first (sym e)))
split_line (c ∷ s) [] rest rest' (h, _) _ e = absurd (h (ap first e))
split_line (c ∷ s) (d ∷ t) rest rest' (_, hs) (_, ht) e =
    let (same, after) = split_line s t rest rest' hs ht (ap tail e) in
    (cons_path (ap first e) same, after)

digits-OneLine : (s : Text) → All IsDigit s → OneLine s
digits-OneLine [] _ = tt
digits-OneLine (c ∷ s) ((low, high), hs) = (omega (arith, low), digits-OneLine s hs)

format_int-OneLine : (a : ℤ) → OneLine (format_int a)
unfolding format_int
format_int-OneLine (pos n) = digits-OneLine _ (format_uint-All n)
format_int-OneLine (negsuc n) = (omega arith, digits-OneLine _ (format_uint-All (suc n)))

abbrev drop_login : Text → Text
drop_login s = tail (tail (tail (tail (tail (tail s)))))

abbrev after_device : ℕ → ℤ → Text → Text
after_device node ts nonce =
    format_uint node ++ newline ∷ (format_int ts ++ newline ∷ trim_space nonce)

-- Two logins whose signed bytes are the same have the same trimmed device, node, time and trimmed
-- nonce. The devices contain no newline, the nodes are below 2 ^ 32 and the times are of int64.
pub login_sign_bytes_inj :
    (device device' : Text) (node node' : ℕ) (ts ts' : ℤ) (nonce nonce' : Text)
    → OneLine (trim_space device)
    → OneLine (trim_space device')
    → node < 2 ^ 32
    → node' < 2 ^ 32
    → IsInt64 ts
    → IsInt64 ts'
    → login_sign_bytes device node ts nonce ≡ login_sign_bytes device' node' ts' nonce'
    → (trim_space device ≡ trim_space device')
      × (node ≡ node')
      × (ts ≡ ts')
      × (trim_space nonce ≡ trim_space nonce')
unfolding login_sign_bytes
login_sign_bytes_inj device device' node node' ts ts' nonce nonce' hd hd' hn hn' ht ht' e =
    let (devices, after) =
      split_line (trim_space device) (trim_space device') (after_device node ts nonce)
        (after_device node' ts' nonce') hd hd' (ap drop_login e) in
    let (nodes, rest) =
      split_line (format_uint node) (format_uint node')
        (format_int ts ++ newline ∷ trim_space nonce)
        (format_int ts' ++ newline ∷ trim_space nonce') (digits-OneLine _ (format_uint-All node))
        (digits-OneLine _ (format_uint-All node')) after in
    let (times, nonces) =
      split_line (format_int ts) (format_int ts') (trim_space nonce) (trim_space nonce')
        (format_int-OneLine ts) (format_int-OneLine ts') rest in
    (
      devices,
      format_uint_inj node node' (omega (arith, hn)) (omega (arith, hn')) nodes,
      format_int_inj ts ts' ht ht' times,
      nonces,
    )
