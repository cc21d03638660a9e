-- ===== src/Store/Saved.antt =====
-- What Save leaves for the next Load, and what Load accepts.
use myflowhub_clipboardnode.Base.{
  ◌≡◌, refl, Bool, true, not, Option, none, some, ◌++◌, [], Text, codes, text_eq, ok, err, Error,
  wrapped, Result-cases, inl, inr, if_elim, List, ◌∷◌, ◌&&◌, valid_string,
}
use myflowhub_clipboardnode.Config.{Config, TopicRoute, normalize_config, retention_metadata}
use myflowhub_clipboardnode.Config.Normal.{normalize_config_idem}
use myflowhub_clipboardnode.Store.{
  Codec, Disk, ConfigStore, contents, set_limit, migrate_legacy_history_defaults, load,
  replace_contents, save_steps, save,
}

migrate_set :
    (c : Config) (raw : Option Text)
    → set_limit raw ≡ true
    → migrate_legacy_history_defaults c raw ≡ c
unfolding migrate_legacy_history_defaults
migrate_set c raw h =
    if_elim (λ x. x ≡ c) (not (text_eq c.history_retention retention_metadata)) (λ _. refl)
      (λ _. rw h refl)

abbrev routes_valid : Option (List TopicRoute) → Bool
routes_valid none = true
routes_valid (some rs) = all_valid rs
  where
    all_valid : List TopicRoute → Bool
    all_valid [] = true
    all_valid (r ∷ rs) = valid_string r.topic && all_valid rs

-- The texts that JSON can hold unchanged are those of valid UTF-8.
abbrev pub texts_valid : Config → Bool
texts_valid c =
    valid_string c.parent_endpoint
    && (valid_string c.topic
        && (routes_valid c.topics
            && (valid_string c.device_id
                && (valid_string c.display_name
                    && (valid_string c.device_label
                        && (valid_string c.history_retention
                            && (valid_string c.transfer_provider
                                && valid_string c.transfer_ref)))))))

-- What encoding/json does with a normalised configuration d of valid texts: decoding the encoded
-- object gives it back, and its field `history_limit`, which is not zero, is there and is not null.
pub record Json (codec : Codec) (d : Config) : Type 0 where
  pub decode-encode :
      (bytes : Text)
      → texts_valid d ≡ true
      → codec.encode d ≡ ok bytes
      → codec.decode (bytes ++ codes "\n") ≡ ok d
  pub field :
      (bytes : Text)
      → codec.encode d ≡ ok bytes
      → (raw : Option Text) × (codec.decode_fields (bytes ++ codes "\n") ≡ ok raw)
        × (set_limit raw ≡ true)

-- Save fails where the encoding or a call on the file system does, with the file as it was, or else
-- it succeeds and Load gives back the normalised configuration d.
pub data Saves (codec : Codec) (disk : Disk) (s : ConfigStore) (d : Config)
    (o : ConfigStore × Option Error) : Type 0 where
  not_encoded :
      (e : Error)
      → codec.encode d ≡ err e
      → o ≡ (s, some (wrapped (codes "encode config") [] e))
      → Saves codec disk s d o
  not_replaced :
      (e : Error) → replace_contents disk ≡ err e → o ≡ (s, some e) → Saves codec disk s d o
  saved :
      replace_contents disk ≡ ok tt → o.1 ≡ none → load codec o.0 ≡ ok d → Saves codec disk s d o

module _ (codec : Codec) where
  reloads :
      (s : ConfigStore) (c d : Config) (bytes : Text)
      → Json codec d
      → normalize_config c ≡ ok d
      → texts_valid d ≡ true
      → codec.encode d ≡ ok bytes
      → load codec (record s { file = contents (bytes ++ codes "\n") }) ≡ ok d
  unfolding load
  reloads s c d bytes json h valid encoded =
      let (raw, fields, is_set) = json.field bytes encoded in
      simp (
        json.decode-encode bytes valid encoded,
        fields,
        migrate_set d raw is_set,
        normalize_config_idem c d h,
      )

  -- Save of a configuration that normalises to d, whose texts are valid UTF-8: either it fails
  -- because the encoding or a call on the file system fails, and the file is as it was, or it
  -- succeeds and the next Load returns d. The JSON coding gives d back when it has encoded it.
  pub save-Saves :
      (disk : Disk) (s : ConfigStore) (cfg d : Config)
      → Json codec d
      → normalize_config cfg ≡ ok d
      → texts_valid d ≡ true
      → Saves codec disk s d (save codec disk s cfg)
  unfolding save save_steps
  save-Saves disk s cfg d json h valid =
      rw (h, save_steps)
        (elim (Result-cases (codec.encode d)) [
          | inr (e, he) ↦ rw he (not_encoded e he refl)
          | inl (bytes, he) ↦ rw he (elim (Result-cases (replace_contents disk)) [
            | inr (e, hd) ↦ rw hd (not_replaced e hd refl)
            | inl (u, hd) ↦ rw hd (saved hd refl (reloads s cfg d bytes json h valid he))
          ])
        ])
