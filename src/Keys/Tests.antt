-- ===== src/Keys/Tests.antt =====
-- The theorems on keys at concrete inputs: a vault with one key, whose files are packed texts.
use mathlib.Core.Path.{subst}
use mathlib.Core.List.{append_assoc}
use myflowhub_clipboardnode.Base.{
  ℕ, suc, ◌≡◌, refl, ap, ◌∙◌, ok_inj, is_empty, true, false, Option, none, some, List, [], ◌∷◌,
  ◌++◌, map, Text, codes, Result, ok, err, Error, trim_space, valid_string, ℤ, pos, arith,
}
use myflowhub_clipboardnode.Event.Samples.{push, unpack, unpack-map}
use myflowhub_clipboardnode.Keys.{
  NodeKeys, Vault, written, new_key_store, ensure, sign_login, login_sign_bytes,
}
use myflowhub_clipboardnode.Keys.Persistence.{Codecs, Persists, ensure-Persists}
use myflowhub_clipboardnode.Keys.Signing.{OneLine, login_sign_bytes_inj}

pub data SampleKey : Type 0 where
  the_key : SampleKey

abbrev texts_of : List Text → Result NodeKeys
texts_of (a ∷ b ∷ rest) = ok (record { priv_key = a; pub_key = b })
texts_of _ = err (Error.external (codes "decode"))

unfoldable pub sample_vault : Vault SampleKey
unfolding unpack
sample_vault = record {
  clean = λ path. path;
  generate = λ step. ok the_key;
  private_der = λ key. ok (codes "der");
  public_der = λ key. ok (codes "spki");
  parse_private = λ bytes. ok (some the_key);
  is_p256 = λ key. true;
  to_base64 = λ bytes. bytes;
  of_base64 = λ text. ok text;
  encode_keys = λ keys. ok (map suc keys.priv_key ++ 0 ∷ (map suc keys.pub_key ++ 0 ∷ []));
  decode_keys = λ bytes. texts_of (unpack bytes);
  make_dir = λ step. none;
  write_file = λ step line. written;
  random_hex = λ step n. some (codes "0a1b");
  sum256 = λ message. message;
  sign = λ step key sum. ok sum;
}

file_reads_back :
    (a b : Text) → unpack ((map suc a ++ 0 ∷ (map suc b ++ 0 ∷ [])) ++ codes "\n") ≡ a ∷ b ∷ []
unfolding unpack push
file_reads_back a b =
    ap unpack (append_assoc (map suc a) (0 ∷ (map suc b ++ 0 ∷ [])) (codes "\n"))
    ∙ unpack-map a _ _
        (ap unpack (append_assoc (map suc b) (0 ∷ []) (codes "\n")) ∙ unpack-map b _ [] refl)

the_key_only : (key : SampleKey) → the_key ≡ key
the_key_only the_key = refl

sample-Codecs : Codecs sample_vault
unfolding sample_vault trim_space valid_string
sample-Codecs = record {
  decode-encode = λ keys bytes u v h.
      subst (λ bs. sample_vault.decode_keys (bs ++ codes "\n") ≡ ok keys) (ok_inj h)
        (ap texts_of (file_reads_back keys.priv_key keys.pub_key));
  private_text = λ key bytes h. subst (λ bs. valid_string bs ≡ true) (ok_inj h) refl;
  public_text = λ key bytes h. subst (λ bs. valid_string bs ≡ true) (ok_inj h) refl;
  base64 =
      λ key bytes h. subst (λ bs. sample_vault.of_base64 (trim_space bs) ≡ ok bs) (ok_inj h) refl;
  der = λ key bytes h. ap (λ k. ok (some k)) (the_key_only key);
  curve = λ step key h. refl;
  public_clean = λ key bytes h. subst (λ bs. trim_space bs ≡ bs) (ok_inj h) refl;
  public_full = λ key bytes h. subst (λ bs. is_empty bs ≡ false) (ok_inj h) refl;
}

-- No file yet: a pair is generated, written and kept.
ensure-Persists_example :
    Persists sample_vault
      (ensure sample_vault (new_key_store sample_vault (codes "keys.json") none 0))
ensure-Persists_example = ensure-Persists sample_vault sample-Codecs (codes "keys.json") none 0

ensure_test :
    (ensure sample_vault (new_key_store sample_vault (codes "keys.json") none 0)).1
    ≡ ok (codes "spki")
unfolding ensure sample_vault trim_space myflowhub_clipboardnode.Base.text_eq
ensure_test = refl

sign_test :
    (sign_login sample_vault
      (new_key_store sample_vault (codes "keys.json") none 0)
      (codes " dev ")
      7
      (pos 1234)
      (codes "0a1b")).1
    ≡ ok (codes "login\ndev\n7\n1234\n0a1b")
unfolding sign_login trim_space sample_vault myflowhub_clipboardnode.Base.text_eq
    myflowhub_clipboardnode.Base.format_uint myflowhub_clipboardnode.Base.format_int
sign_test = refl

abbrev the_node : ℕ
the_node = 7

login_sign_bytes_inj_example :
    (trim_space (codes " dev ") ≡ trim_space (codes "dev"))
    × (the_node ≡ the_node)
    × (pos 1234 ≡ pos 1234)
    × (trim_space (codes "0a1b") ≡ trim_space (codes "0a1b"))
unfolding trim_space login_sign_bytes
login_sign_bytes_inj_example =
    login_sign_bytes_inj (codes " dev ") (codes "dev") the_node the_node (pos 1234) (pos 1234)
      (codes "0a1b") (codes "0a1b") one_line one_line (omega arith) (omega arith)
      (omega arith, omega arith) (omega arith, omega arith) refl
  where
    one_line : OneLine (trim_space (codes " dev "))
    one_line = (omega arith, (omega arith, (omega arith, tt)))
