-- ===== src/Store/Tests.antt =====
-- The theorem on Save and Load at the default configuration, and what Load makes of a legacy file.
use myflowhub_clipboardnode.Base.{
  ℕ, ◌≡◌, refl, Bool, true, Option, none, some, [], ◌++◌, Text, codes, Result, ok, err, ℤ, pos,
}
use myflowhub_clipboardnode.Config.{
  Config, default_config, retention_metadata, retention_body, normalize_config,
}
use myflowhub_clipboardnode.Store.{
  Codec, Disk, ConfigStore, missing, load, save, migrate_legacy_history_defaults,
}
use myflowhub_clipboardnode.Store.Saved.{Json, Saves, save-Saves}

-- A coding of the default configuration alone.
abbrev pub sample_codec : Codec
sample_codec = record {
  encode = λ c. ok (codes "{}");
  decode = λ text. ok default_config;
  decode_fields = λ text. ok (some (codes "200"));
}

abbrev pub sample_disk : Disk
sample_disk = record {
  make_dir = none;
  create_temp = none;
  chmod = none;
  write = none;
  sync = none;
  close = none;
  replace = none;
}

abbrev pub sample_store : ConfigStore
sample_store = record { path = codes "config.json"; file = missing }

sample-Json : Json sample_codec default_config
unfolding myflowhub_clipboardnode.Base.text_eq
sample-Json = record {
  decode-encode = λ bytes valid h. refl;
  field = λ bytes h. (some (codes "200"), refl, refl);
}

save-Saves_example :
    Saves sample_codec sample_disk sample_store default_config
      (save sample_codec sample_disk sample_store default_config)
unfolding normalize_config myflowhub_clipboardnode.Config.normalize_topic_routes
    myflowhub_clipboardnode.Base.trim_space myflowhub_clipboardnode.Config.check_config
    myflowhub_clipboardnode.Config.fill_defaults myflowhub_clipboardnode.Base.text_eq
    myflowhub_clipboardnode.Base.valid_string
save-Saves_example =
    save-Saves sample_codec sample_disk sample_store default_config default_config sample-Json refl
      refl

save_test :
    load sample_codec (save sample_codec sample_disk sample_store default_config).0
    ≡ ok default_config
unfolding load save normalize_config myflowhub_clipboardnode.Config.normalize_topic_routes
    myflowhub_clipboardnode.Base.trim_space myflowhub_clipboardnode.Config.check_config
    myflowhub_clipboardnode.Config.fill_defaults myflowhub_clipboardnode.Base.text_eq
save_test = refl

-- Metadata retention without a limit is the legacy default; with one it was chosen.
migrate_test :
    ((migrate_legacy_history_defaults
        (record default_config { history_retention = retention_metadata; history_limit = pos 0 })
        none).history_retention
      ≡ retention_body)
    × ((migrate_legacy_history_defaults
          (record default_config { history_retention = retention_metadata })
          (some (codes "50"))).history_retention
        ≡ retention_metadata)
unfolding migrate_legacy_history_defaults myflowhub_clipboardnode.Base.text_eq
migrate_test = (refl, refl)
