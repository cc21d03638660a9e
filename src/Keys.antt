-- ===== src/Keys.antt =====
-- core/auth/keys.go: the node's key pair, the file that keeps it, and the signature of a login.
--
-- Keys, their encodings, random numbers, the file system and SHA-256 are not this repository's: they
-- are a `Vault`. `file` is what a read of the key file would return, none when it cannot be read;
-- `steps` counts the calls that may answer differently each time.
pub mod Signing
pub mod Persistence
pub mod Tests
use myflowhub_clipboardnode.Base.{
  ℕ, suc, Bool, true, false, not, ◌&&◌, ◌||◌, Option, none, some, List, [], ◌∷◌, ◌++◌, Text, codes,
  text_eq, is_empty, trim_space, ◌==◌, ℤ, if◌then◌else◌, Result, ok, err, Error, fail_if, ◌>>=◌,
  ◌>>◌, wrap_with, wrapped, format_uint, format_int, device_id_required, login_node_required,
  nonce_required, key_path_required, public_key_empty, private_key_not_p256,
}

pub record NodeKeys : Type 0 where
  pub priv_key : Text
  pub pub_key : Text

pub record KeyStore (Key : Type 0) : Type 0 where
  pub path : Text
  pub priv : Option Key
  pub pub_key : Text
  pub file : Option Text
  pub steps : ℕ

-- How the write of a file ends. A failed write may leave anything.
pub data Written : Type 0 where
  written : Written
  write_failed : Error → Option Text → Written

pub record Vault (Key : Type 0) : Type 0 where
  pub clean : Text → Text
  pub generate : ℕ → Result Key
  pub private_der : Key → Result Text
  pub public_der : Key → Result Text
  pub parse_private : Text → Result (Option Key)
  pub is_p256 : Key → Bool
  pub to_base64 : Text → Text
  pub of_base64 : Text → Result Text
  pub encode_keys : NodeKeys → Result Text
  pub decode_keys : Text → Result NodeKeys
  pub make_dir : ℕ → Option Error
  pub write_file : ℕ → Text → Written
  pub random_hex : ℕ → ℕ → Option Text
  pub sum256 : Text → Text
  pub sign : ℕ → Key → Text → Result Text

abbrev or_error : Option Error → Result (Unit {0})
or_error none = ok tt
or_error (some e) = err e

abbrev pub newline : ℕ
newline = 10

-- loginSignBytes, as the text whose bytes it is
unfoldable pub login_sign_bytes : Text → ℕ → ℤ → Text → Text
login_sign_bytes device_id node_id ts nonce =
    codes "login\n"
    ++ (trim_space device_id
        ++ newline
          ∷ (format_uint node_id ++ newline ∷ (format_int ts ++ newline ∷ trim_space nonce)))

module _ {Key : Type 0} (vault : Vault Key) where
  -- NewKeyStore
  abbrev pub new_key_store : Text → Option Text → ℕ → KeyStore Key
  new_key_store path file steps = record {
    path = vault.clean path;
    priv = none;
    pub_key = [];
    file = file;
    steps = steps;
  }

  abbrev p256_key : Option Key → Result Key
  p256_key none = err private_key_not_p256
  p256_key (some k) = if vault.is_p256 k then ok k else err private_key_not_p256

  -- parsePrivateKey
  unfoldable pub parse_private_key : Text → Result Key
  parse_private_key encoded = do
    raw ← vault.of_base64 (trim_space encoded)
    key ← vault.parse_private raw
    p256_key key

  abbrev read_file : Option Text → Result Text
  read_file none = err (Error.external (codes "read"))
  read_file (some data_read) = ok data_read

  -- readNodeKeys, of what the file at the path holds
  unfoldable pub read_node_keys : Option Text → Result (Key × Text)
  unfolding parse_private_key
  read_node_keys file = do
    data_read ← read_file file
    keys ← vault.decode_keys data_read
    priv ← parse_private_key keys.priv_key
    fail_if (is_empty (trim_space keys.pub_key)) public_key_empty
    ok (priv, trim_space keys.pub_key)

  abbrev pub end_write : KeyStore Key → Text → Written → KeyStore Key × Result (Unit {0})
  end_write s bytes written = (record s { file = some bytes }, ok tt)
  end_write s bytes (write_failed e left) = (record s { file = left }, err e)

  abbrev pub stepped : KeyStore Key → KeyStore Key
  stepped s = record s { steps = suc s.steps }

  unfoldable pub write_encoded : KeyStore Key → Result Text → KeyStore Key × Result (Unit {0})
  write_encoded s (err e) = (s, err (wrapped (codes "encode node keys") [] e))
  write_encoded s (ok bytes) =
      let line = bytes ++ codes "\n" in end_write (stepped s) line (vault.write_file s.steps line)

  -- writeNodeKeys
  unfoldable pub write_node_keys : KeyStore Key → NodeKeys → KeyStore Key × Result (Unit {0})
  unfolding write_encoded
  write_node_keys s keys =
      let path = vault.clean s.path in
      if is_empty (trim_space path) || text_eq path (codes ".")
      then (s, err key_path_required)
      else elim (vault.make_dir s.steps) [
        | some e ↦ (stepped s, err (wrapped (codes "create keystore directory") [] e))
        | none ↦ write_encoded (stepped s) (vault.encode_keys keys)
      ]

  -- The texts of a generated key that go into the file.
  unfoldable pub node_keys_of : Key → Result NodeKeys
  node_keys_of priv = do
    priv_der ← vault.private_der priv
    pub_der ← vault.public_der priv
    ok (record { priv_key = vault.to_base64 priv_der; pub_key = vault.to_base64 pub_der })

  abbrev pub after_write :
      Key → NodeKeys → KeyStore Key × Result (Unit {0}) → KeyStore Key × Result (Key × Text)
  after_write priv keys (s, err e) = (s, err e)
  after_write priv keys (s, ok _) = (s, ok (priv, keys.pub_key))

  unfoldable pub store_node_keys :
      KeyStore Key → Key → Result NodeKeys → KeyStore Key × Result (Key × Text)
  unfolding write_node_keys
  store_node_keys s priv (err e) = (s, err e)
  store_node_keys s priv (ok keys) = after_write priv keys (write_node_keys s keys)

  -- loadOrCreateNodeKeys once the file has shown no keys
  unfoldable pub create_node_keys : KeyStore Key → KeyStore Key × Result (Key × Text)
  unfolding node_keys_of store_node_keys
  create_node_keys s = elim (vault.generate s.steps) [
    | err e ↦ (stepped s, err e)
    | ok priv ↦ store_node_keys (stepped s) priv (node_keys_of priv)
  ]

  -- loadOrCreateNodeKeys
  unfoldable pub load_or_create_node_keys : KeyStore Key → KeyStore Key × Result (Key × Text)
  unfolding read_node_keys create_node_keys
  load_or_create_node_keys s = elim (read_node_keys s.file) [
    | err e ↦ create_node_keys s
    | ok (priv, pub_key) ↦
        if is_empty (trim_space pub_key) then create_node_keys s else (s, ok (priv, pub_key))
  ]

  abbrev pub remember : KeyStore Key × Result (Key × Text) → KeyStore Key × Result Text
  remember (s, err e) = (s, err e)
  remember (s, ok (priv, pub_key)) = (record s { priv = some priv; pub_key = pub_key }, ok pub_key)

  -- Ensure without a key in memory
  unfoldable pub load_keys : KeyStore Key → KeyStore Key × Result Text
  unfolding load_or_create_node_keys
  load_keys s = remember (load_or_create_node_keys s)

  -- Ensure
  unfoldable pub ensure : KeyStore Key → KeyStore Key × Result Text
  unfolding load_keys
  ensure s = elim s.priv [
    | none ↦ load_keys s
    | some k ↦ if is_empty (trim_space s.pub_key) then load_keys s else (s, ok s.pub_key)
  ]

  -- signLogin, with a private key that is not nil
  unfoldable pub sign_bytes : KeyStore Key → Key → Text → KeyStore Key × Result Text
  sign_bytes s priv message =
      (stepped s, do sig ← vault.sign s.steps priv (vault.sum256 message); ok (vault.to_base64 sig))

  abbrev sign_ensured : KeyStore Key × Result Text → Text → KeyStore Key × Result Text
  unfolding sign_bytes
  sign_ensured (s, err e) message = (s, err e)
  sign_ensured (s, ok _) message = elim s.priv [
    | none ↦ (s, err (Error.external (codes "private key invalid")))
    | some priv ↦ sign_bytes s priv message
  ]

  -- SignLogin
  unfoldable pub sign_login : KeyStore Key → Text → ℕ → ℤ → Text → KeyStore Key × Result Text
  unfolding ensure sign_bytes login_sign_bytes
  sign_login s device_id node_id ts nonce =
      let device = trim_space device_id in
      let trimmed = trim_space nonce in
      if is_empty device
      then (s, err device_id_required)
      else if node_id == 0
      then (s, err login_node_required)
      else if is_empty trimmed
      then (s, err nonce_required)
      else sign_ensured (ensure s) (login_sign_bytes device node_id ts trimmed)

  -- GenerateNonce, of n random bytes
  unfoldable pub generate_nonce : ℕ → ℕ → Text
  generate_nonce step n = elim (vault.random_hex step (if n == 0 then 12 else n)) [
    | none ↦ []
    | some hex ↦ hex
  ]
