-- ===== src/Keys/Persistence.antt =====
-- The key pair survives a restart: what Ensure returns is what the key file gives the next time.
use myflowhub_clipboardnode.Base.{
  ℕ, ◌≡◌, refl, ap, ◌∙◌, true, false, ◌||◌, Option, some, ◌++◌, Text, codes, text_eq, is_empty,
  trim_space, valid_string, Result, ok, err, Error, Result-cases, Option-cases, if_elim, inl, inr,
}
use myflowhub_clipboardnode.Keys.{
  KeyStore, NodeKeys, Vault, Written, written, write_failed, new_key_store, parse_private_key,
  read_node_keys, write_node_keys, node_keys_of, create_node_keys, store_node_keys, write_encoded,
  stepped, end_write, after_write, load_or_create_node_keys, remember, load_keys, ensure,
}

module _ {Key : Type 0} (vault : Vault Key) where
  -- What the source relies on: each decoding undoes its encoding, that of JSON for valid UTF-8, which
  -- base64 is, and generated keys are of P-256.
  pub record Codecs : Type 0 where
    pub decode-encode :
        (keys : NodeKeys) (bytes : Text)
        → valid_string keys.priv_key ≡ true
        → valid_string keys.pub_key ≡ true
        → vault.encode_keys keys ≡ ok bytes
        → vault.decode_keys (bytes ++ codes "\n") ≡ ok keys
    pub private_text :
        (key : Key) (bytes : Text)
        → vault.private_der key ≡ ok bytes
        → valid_string (vault.to_base64 bytes) ≡ true
    pub public_text :
        (key : Key) (bytes : Text)
        → vault.public_der key ≡ ok bytes
        → valid_string (vault.to_base64 bytes) ≡ true
    pub base64 :
        (key : Key) (bytes : Text)
        → vault.private_der key ≡ ok bytes
        → vault.of_base64 (trim_space (vault.to_base64 bytes)) ≡ ok bytes
    pub der :
        (key : Key) (bytes : Text)
        → vault.private_der key ≡ ok bytes
        → vault.parse_private bytes ≡ ok (some key)
    pub curve : (step : ℕ) (key : Key) → vault.generate step ≡ ok key → vault.is_p256 key ≡ true
    pub public_clean :
        (key : Key) (bytes : Text)
        → vault.public_der key ≡ ok bytes
        → trim_space (vault.to_base64 bytes) ≡ vault.to_base64 bytes
    pub public_full :
        (key : Key) (bytes : Text)
        → vault.public_der key ≡ ok bytes
        → is_empty (vault.to_base64 bytes) ≡ false

  -- Either an error, or keys that the file holds.
  data Filed (o : KeyStore Key × Result (Key × Text)) : Type 0 where
    refused : (e : Error) → o.1 ≡ err e → Filed o
    filed :
        (priv : Key) (pub_key : Text)
        → o.1 ≡ ok (priv, pub_key)
        → read_node_keys vault o.0.file ≡ ok (priv, pub_key)
        → is_empty (trim_space pub_key) ≡ false
        → Filed o

  -- The store that a later process makes over the file that the store s left.
  abbrev pub reopened : KeyStore Key → ℕ → KeyStore Key
  reopened s steps = new_key_store vault s.path s.file steps

  -- The store s holds this key pair.
  abbrev pub holding : KeyStore Key → Key → Text → KeyStore Key
  holding s key pub_key = record s { priv = some key; pub_key = pub_key }

  -- Ensure fails, or it returns the public key of a pair that it holds from then on: a further call
  -- returns the same and changes nothing, and so does a call after a restart, from the file.
  pub data Persists (o : KeyStore Key × Result Text) : Type 0 where
    refuses : (e : Error) → o.1 ≡ err e → Persists o
    persists :
        (key : Key) (pub_key : Text)
        → o.1 ≡ ok pub_key
        → o.0.priv ≡ some key
        → ensure vault o.0 ≡ (o.0, ok pub_key)
        → ((steps : ℕ)
            → ensure vault (reopened o.0 steps)
              ≡ (holding (reopened o.0 steps) key pub_key, ok pub_key))
        → Persists o

  module _ (codecs : Codecs) where
    abbrev pair_of : Text → Text → NodeKeys
    pair_of d e = record { priv_key = vault.to_base64 d; pub_key = vault.to_base64 e }

    -- A written file of a generated key reads back.
    reads_back :
        (key : Key) (d e bytes : Text) (step : ℕ)
        → vault.generate step ≡ ok key
        → vault.private_der key ≡ ok d
        → vault.public_der key ≡ ok e
        → vault.encode_keys (pair_of d e) ≡ ok bytes
        → read_node_keys vault (some (bytes ++ codes "\n")) ≡ ok (key, vault.to_base64 e)
    unfolding read_node_keys parse_private_key
    reads_back key d e bytes step made hd he encoded = simp (
      codecs.decode-encode (pair_of d e) bytes (codecs.private_text key d hd)
          (codecs.public_text key e he) encoded,
      codecs.base64 key d hd,
      codecs.der key d hd,
      codecs.curve step key made,
      codecs.public_clean key e he,
      codecs.public_full key e he,
    )

    full :
        (key : Key) (e : Text)
        → vault.public_der key ≡ ok e
        → is_empty (trim_space (vault.to_base64 e)) ≡ false
    full key e he = ap is_empty (codecs.public_clean key e he) ∙ codecs.public_full key e he

    -- Either an error, or the encoded keys are the file's content.
    data Wrote (keys : NodeKeys) (o : KeyStore Key × Result (Unit {0})) : Type 0 where
      not_written : (e : Error) → o.1 ≡ err e → Wrote keys o
      wrote :
          (bytes : Text)
          → o.1 ≡ ok tt
          → vault.encode_keys keys ≡ ok bytes
          → o.0.file ≡ some (bytes ++ codes "\n")
          → Wrote keys o

    ended-Wrote :
        (s : KeyStore Key) (keys : NodeKeys) (bytes : Text) (w : Written)
        → vault.encode_keys keys ≡ ok bytes
        → Wrote keys (end_write vault s (bytes ++ codes "\n") w)
    ended-Wrote s keys bytes written h = wrote bytes refl h refl
    ended-Wrote s keys bytes (write_failed e left) h = not_written e refl

    encoded-Wrote :
        (s : KeyStore Key) (keys : NodeKeys) (r : Result Text)
        → vault.encode_keys keys ≡ r
        → Wrote keys (write_encoded vault s r)
    unfolding write_encoded
    encoded-Wrote s keys (err e) h = not_written _ refl
    encoded-Wrote s keys (ok bytes) h = ended-Wrote (stepped vault s) keys bytes _ h

    write-Wrote : (s : KeyStore Key) (keys : NodeKeys) → Wrote keys (write_node_keys vault s keys)
    unfolding write_node_keys
    write-Wrote s keys =
        if_elim (Wrote keys)
          (is_empty (trim_space (vault.clean s.path)) || text_eq (vault.clean s.path) (codes "."))
          (λ _. not_written _ refl)
          (λ _. elim (Option-cases (vault.make_dir s.steps)) [
            | inl h ↦ rw h (encoded-Wrote _ keys _ refl)
            | inr (e, h) ↦ rw h (not_written _ refl)
          ])

    after_write-Filed :
        (key : Key) (d e : Text) (step : ℕ) (o : KeyStore Key × Result (Unit {0}))
        → vault.generate step ≡ ok key
        → vault.private_der key ≡ ok d
        → vault.public_der key ≡ ok e
        → Wrote (pair_of d e) o
        → Filed (after_write vault key (pair_of d e) o)
    after_write-Filed key d e step (s, r) made hd he (not_written failure h) =
        rw h (refused failure refl)
    after_write-Filed key d e step (s, r) made hd he (wrote bytes h encoded held) = rw h (
        filed key (vault.to_base64 e) refl
          (ap (read_node_keys vault) held ∙ reads_back key d e bytes step made hd he encoded)
          (full key e he))

    create-Filed : (s : KeyStore Key) → Filed (create_node_keys vault s)
    unfolding create_node_keys node_keys_of store_node_keys
    create-Filed s = elim (Result-cases (vault.generate s.steps)) [
      | inr (e, h) ↦ rw (h, create_node_keys) (refused e refl)
      | inl (key, made) ↦
          rw (made, create_node_keys)
            (elim (Result-cases (vault.private_der key)) [
              | inr (e, h) ↦ rw (h, node_keys_of) (refused e refl)
              | inl (d, hd) ↦
                  rw (hd, node_keys_of)
                    (elim (Result-cases (vault.public_der key)) [
                      | inr (e, h) ↦ rw (h, node_keys_of) (refused e refl)
                      | inl (e, he) ↦
                          rw (he, node_keys_of)
                            (after_write-Filed key d e s.steps _ made hd he
                              (write-Wrote _ (pair_of d e)))
                    ])
            ])
    ]

    load-Filed : (s : KeyStore Key) → Filed (load_or_create_node_keys vault s)
    unfolding load_or_create_node_keys
    load-Filed s = elim (Result-cases (read_node_keys vault s.file)) [
      | inr (e, h) ↦ rw (h, load_or_create_node_keys) (create-Filed s)
      | inl ((priv, pub_key), h) ↦
          rw (h, load_or_create_node_keys)
            (if_elim Filed (is_empty (trim_space pub_key)) (λ _. create-Filed s)
              (λ e. filed priv pub_key refl h e))
    ]

    found :
        (s : KeyStore Key) (key : Key) (pub_key : Text)
        → read_node_keys vault s.file ≡ ok (key, pub_key)
        → is_empty (trim_space pub_key) ≡ false
        → load_or_create_node_keys vault s ≡ (s, ok (key, pub_key))
    unfolding load_or_create_node_keys
    found s key pub_key h named = rw (h, load_or_create_node_keys) (rw named refl)

    reload :
        (path : Text) (file : Option Text) (steps : ℕ) (key : Key) (pub_key : Text)
        → read_node_keys vault file ≡ ok (key, pub_key)
        → is_empty (trim_space pub_key) ≡ false
        → ensure vault (new_key_store vault path file steps)
          ≡ (holding (new_key_store vault path file steps) key pub_key, ok pub_key)
    unfolding ensure load_keys
    reload path file steps key pub_key h named =
        ap (remember vault) (found (new_key_store vault path file steps) key pub_key h named)

    again :
        (s : KeyStore Key) (key : Key) (pub_key : Text)
        → is_empty (trim_space pub_key) ≡ false
        → ensure vault (holding s key pub_key) ≡ (holding s key pub_key, ok pub_key)
    unfolding ensure
    again s key pub_key named = rw named refl

    remembered-Persists :
        (o : KeyStore Key × Result (Key × Text)) → Filed o → Persists (remember vault o)
    remembered-Persists (s, r) (refused e h) = rw h (refuses e refl)
    remembered-Persists (s, r) (filed key pub_key h held named) = rw h (
        persists key pub_key refl refl (again s key pub_key named)
          (λ steps. reload s.path s.file steps key pub_key held named))

    -- The key pair of a new store persists: it is the one that every later call returns, within the
    -- process and after a restart over the file that the call left. Decoding undoes encoding, for JSON
    -- that of texts of valid UTF-8, and base64 is valid UTF-8.
    pub ensure-Persists :
        (path : Text) (file : Option Text) (steps : ℕ)
        → Persists (ensure vault (new_key_store vault path file steps))
    unfolding ensure load_keys
    ensure-Persists path file steps =
        remembered-Persists _ (load-Filed (new_key_store vault path file steps))
