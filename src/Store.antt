-- ===== src/Store.antt =====
-- core/configstore/store.go: the configuration file, its loading, migration and saving.
--
-- What JSON decoding gives and how each call on the file system ends are parameters: a `Codec` and a
-- `Disk`. `file` is what a read of the path returns.
pub mod Saved
pub mod Tests
use myflowhub_clipboardnode.Base.{
  Bool, true, false, not, ◌&&◌, Option, none, some, ◌++◌, Text, codes, text_eq, is_empty, ℤ, pos,
  eq_ℤ, if◌then◌else◌, Result, ok, err, Error, wrapped, wrap_with, ◌>>=◌, ◌>>◌, [],
  config_path_required,
}
use myflowhub_clipboardnode.Config.{
  Config, normalize_config, default_config, retention_metadata, retention_body,
  default_history_limit,
}

pub data ConfigFile : Type 0 where
  missing : ConfigFile
  unreadable : Error → ConfigFile
  contents : Text → ConfigFile

-- `history_limit` is the raw value of the field of that name, if the object has it.
pub record Decoded : Type 0 where
  pub config : Config
  pub history_limit : Option Text

-- `decode_fields` is the second decoding, into the raw fields.
pub record Codec : Type 0 where
  pub encode : Config → Result Text
  pub decode : Text → Result Config
  pub decode_fields : Text → Result (Option Text)

-- Whether each call of Save fails, in the order of the calls.
pub record Disk : Type 0 where
  pub make_dir : Option Error
  pub create_temp : Option Error
  pub chmod : Option Error
  pub write : Option Error
  pub sync : Option Error
  pub close : Option Error
  pub replace : Option Error

pub record ConfigStore : Type 0 where
  pub path : Text
  pub file : ConfigFile

-- New
unfoldable pub new_config_store : Text → ConfigFile → Result ConfigStore
new_config_store path file =
    if is_empty path then err config_path_required else ok (record { path = path; file = file })

abbrev pub set_limit : Option Text → Bool
set_limit none = false
set_limit (some raw) = not (text_eq raw (codes "null"))

-- migrateLegacyHistoryDefaults; of the fields it reads `history_limit` alone.
unfoldable pub migrate_legacy_history_defaults : Config → Option Text → Config
migrate_legacy_history_defaults c raw =
    if not (text_eq c.history_retention retention_metadata)
    then c
    else if set_limit raw
    then c
    else record c {
      history_retention = retention_body;
      history_limit =
          if eq_ℤ c.history_limit (pos 0) then default_history_limit else c.history_limit;
    }

-- `if err := call(); err != nil { return fmt.Errorf("...: %w", err) }`
abbrev pub checked : Option Error → Text → Result (Unit {0})
checked none what = ok tt
checked (some e) what = err (wrapped what [] e)

-- The calls of Save that put the bytes into the place of the old file.
unfoldable pub replace_contents : Disk → Result (Unit {0})
replace_contents disk = do
  checked disk.make_dir (codes "create config directory")
  checked disk.create_temp (codes "create temporary config")
  checked disk.chmod (codes "restrict temporary config permissions")
  checked disk.write (codes "write temporary config")
  checked disk.sync (codes "flush temporary config")
  checked disk.close (codes "close temporary config")
  checked disk.replace (codes "replace config")

module _ (codec : Codec) where
  -- Load
  unfoldable pub load : ConfigStore → Result Config
  unfolding migrate_legacy_history_defaults
  load s = elim s.file [
    | missing ↦ ok default_config
    | unreadable e ↦ err (wrapped (codes "read config") [] e)
    | contents data_read ↦ do
      cfg ← wrap_with (codes "decode config") (codec.decode data_read)
      raw ← wrap_with (codes "decode config fields") (codec.decode_fields data_read)
      wrap_with (codes "validate config")
          (normalize_config (migrate_legacy_history_defaults cfg raw))
  ]

  -- What Save puts into the temporary file, which then replaces the configuration file.
  unfoldable pub save_steps : Disk → Config → Result Text
  unfolding replace_contents
  save_steps disk cfg = do
    normal ← wrap_with (codes "validate config") (normalize_config cfg)
    bytes ← wrap_with (codes "encode config") (codec.encode normal)
    replace_contents disk
    ok (bytes ++ codes "\n")

  abbrev pub end_save : ConfigStore → Result Text → ConfigStore × Option Error
  end_save s (err e) = (s, some e)
  end_save s (ok bytes) = (record s { file = contents bytes }, none)

  -- Save
  unfoldable pub save : Disk → ConfigStore → Config → ConfigStore × Option Error
  unfolding save_steps
  save disk s cfg = end_save s (save_steps disk cfg)
