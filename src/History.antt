-- ===== src/History.antt =====
-- cmd/clipboardnode-bridge/history_store.go: the clipboard history kept by the bridge.
--
-- A store is a non-nil `*historyStore`; a method under its lock is one step. `file` is what the history
-- file holds, `saves` counts the attempts to write it, and `Disk` says how each attempt ends.
pub mod Tests
pub mod Clean
pub mod Loading
pub mod Settings
pub mod Prepending
pub mod Files
use myflowhub_clipboardnode.Base.{
  ℕ, suc, ◌==◌, Bool, true, false, not, ◌&&◌, ◌||◌, Option, none, some, List, [], ◌∷◌, ◌++◌, Text,
  codes, text_eq, is_empty, trim_space, byte_len, leb, ltb, ℤ, pos, pos_part, ltb_ℤ, leb_ℤ, length,
  take, if◌then◌else◌, Error, Result, ok, err, ◌>>=◌, wrap_with, history_text_required,
}
use myflowhub_clipboardnode.Dedupe.{member}
use myflowhub_clipboardnode.Config.{
  Config, normalize_config, retention_body, default_history_limit, max_history_limit,
}
use myflowhub_clipboardnode.Event.{Platform, hash_text}

pub record HistoryEntry : Type 0 where
  pub id : Text
  pub kind : Text
  pub text : Text
  pub topic : Text
  pub device_label : Text
  pub byte_size : ℤ
  pub hash_prefix : Text
  pub timestamp_ms : ℤ

-- The fields of an activity that the history reads are those of an entry.
abbrev pub Activity : Type 0
Activity = HistoryEntry

-- A reading of the clock.
pub record Moment : Type 0 where
  pub unix_micro : ℤ
  pub unix_milli : ℤ

-- The decimal digits that `%d` prints, the JSON decoder and the outcome of each write of the file.
pub record Disk : Type 0 where
  pub format_int : ℤ → Text
  pub decode : Text → Result (List HistoryEntry)
  pub save : ℕ → List HistoryEntry → Option Error

-- How the file was read.
pub data FileRead : Type 0 where
  missing : FileRead
  unreadable : Error → FileRead
  contents : Text → FileRead

pub record Store : Type 0 where
  pub entries : List HistoryEntry
  pub file : Option (List HistoryEntry)
  pub saves : ℕ

unfoldable pub history_kind_can_persist : Text → Bool
history_kind_can_persist kind = text_eq kind (codes "published") || text_eq kind (codes "applied")

-- historyLimit
unfoldable pub history_limit_of : Config → ℤ
history_limit_of cfg =
    if leb_ℤ cfg.history_limit (pos 0)
    then default_history_limit
    else if ltb_ℤ max_history_limit cfg.history_limit
    then max_history_limit
    else cfg.history_limit

module _ (p : Platform) (disk : Disk) where
  -- hashPrefixForText
  unfoldable pub hash_prefix_for_text : Text → Text
  hash_prefix_for_text t =
      let encoded = hash_text p t in if ltb (byte_len encoded) 12 then encoded else take 12 encoded

  -- The defaults of normalizeHistoryEntry, for an entry whose texts are trimmed.
  unfoldable pub with_defaults : HistoryEntry → Moment → HistoryEntry
  with_defaults e now = record e {
    id = if is_empty e.id then codes "history-" ++ disk.format_int now.unix_micro else e.id;
    kind =
        if is_empty e.kind || not (history_kind_can_persist e.kind)
        then codes "published"
        else e.kind;
    byte_size = if leb_ℤ e.byte_size (pos 0) then pos (byte_len e.text) else e.byte_size;
    hash_prefix = if is_empty e.hash_prefix then hash_prefix_for_text e.text else e.hash_prefix;
    timestamp_ms = if leb_ℤ e.timestamp_ms (pos 0) then now.unix_milli else e.timestamp_ms;
  }

  -- normalizeHistoryEntry
  unfoldable pub normalize_history_entry : HistoryEntry → Moment → HistoryEntry
  unfolding with_defaults
  normalize_history_entry e now =
      with_defaults
        (record e {
          id = trim_space e.id;
          kind = trim_space e.kind;
          topic = trim_space e.topic;
          device_label = trim_space e.device_label;
          hash_prefix = trim_space e.hash_prefix;
        })
        now

  -- The loop of normalizeLoadedHistory; `seen` holds the texts met so far.
  unfoldable pub load_entries : Moment → List Text → List HistoryEntry → List HistoryEntry
  load_entries now seen [] = []
  load_entries now seen (e ∷ es) = elim (is_empty e.text || member e.text seen) [
    | true ↦ load_entries now seen es
    | false ↦ normalize_history_entry e now ∷ load_entries now (e.text ∷ seen) es
  ]

  -- normalizeLoadedHistory
  unfoldable pub normalize_loaded_history : List HistoryEntry → Moment → List HistoryEntry
  unfolding load_entries
  normalize_loaded_history es now = load_entries now [] es

  -- newHistoryStore; what the file holds is only known once it was written, so `file` starts as none.
  unfoldable pub new_history_store : Text → FileRead → Moment → Result Store
  unfolding normalize_loaded_history
  new_history_store path missing now =
      if is_empty (trim_space path)
      then err (Error.external (codes "history path is required"))
      else ok (record { entries = []; file = none; saves = 0 })
  new_history_store path (unreadable e) now =
      if is_empty (trim_space path)
      then err (Error.external (codes "history path is required"))
      else wrap_with (codes "read history") (err e)
  new_history_store path (contents data_read) now =
      if is_empty (trim_space path)
      then err (Error.external (codes "history path is required"))
      else if is_empty (trim_space data_read)
      then ok (record { entries = []; file = none; saves = 0 })
      else do
        es ← wrap_with (codes "decode history") (disk.decode data_read)
        ok (record { entries = normalize_loaded_history es now; file = none; saves = 0 })

  -- The loop of prependLocked; `n` is the length of `next` so far.
  unfoldable pub gather : ℤ → Text → ℕ → List HistoryEntry → List HistoryEntry
  gather limit t n [] = []
  gather limit t n (e ∷ es) = elim (text_eq e.text t) [
    | true ↦ gather limit t n es
    | false ↦ e ∷ elim (leb_ℤ limit (pos (suc n))) [ true ↦ [] | false ↦ gather limit t (suc n) es ]
  ]

  -- prependLocked
  unfoldable pub prepend : Store → HistoryEntry → ℤ → Moment → Store
  unfolding normalize_history_entry gather
  prepend s entry limit now =
      let e = normalize_history_entry entry now in
      record s { entries = e ∷ gather limit e.text 1 s.entries }

  -- saveLocked, as far as its outcome: the file is replaced whole or is left as it was.
  unfoldable pub save_locked : Store → Store × Option Error
  save_locked s = elim (disk.save s.saves s.entries) [
    | none ↦ (record s { file = some s.entries; saves = suc s.saves }, none)
    | some e ↦ (record s { saves = suc s.saves }, some e)
  ]

  -- A save at the end of an operation that reports a change.
  unfoldable pub saved : Store → Store × Result Bool
  unfolding save_locked
  saved s = elim ((save_locked s).1) [
    | none ↦ ((save_locked s).0, ok true)
    | some e ↦ ((save_locked s).0, err e)
  ]

  -- Entries
  unfoldable pub entries_of : Store → Config → List HistoryEntry
  entries_of s cfg =
      if not (text_eq cfg.history_retention retention_body)
      then []
      else if leb_ℤ (pos (length s.entries)) (history_limit_of cfg)
      then s.entries
      else take (pos_part (history_limit_of cfg)) s.entries

  -- ApplySettings
  unfoldable pub apply_settings : Store → Config → Store × Result Bool
  unfolding saved
  apply_settings s raw = elim (normalize_config raw) [
    | err e ↦ (s, err e)
    | ok cfg ↦
        if not (text_eq cfg.history_retention retention_body)
        then (if (length s.entries == 0) then (s, ok false) else saved (record s { entries = [] }))
        else if leb_ℤ (pos (length s.entries)) (history_limit_of cfg)
        then (s, ok false)
        else saved (record s { entries = take (pos_part (history_limit_of cfg)) s.entries })
  ]

  -- AppendActivity
  unfoldable pub append_activity : Store → Activity → Config → Moment → Store × Result Bool
  unfolding saved prepend
  append_activity s a raw now = elim (normalize_config raw) [
    | err e ↦ (s, err e)
    | ok cfg ↦
        if not (text_eq cfg.history_retention retention_body)
        then (s, ok false)
        else if is_empty a.text || not (history_kind_can_persist a.kind)
        then (s, ok false)
        else saved (prepend s a (history_limit_of cfg) now)
  ]

  -- Promote; the clock is read once for the entry and once in prependLocked.
  unfoldable pub promote : Store → HistoryEntry → Config → Moment → Moment → Store × Result Bool
  unfolding saved prepend
  promote s entry raw now later = elim (normalize_config raw) [
    | err e ↦ (s, err e)
    | ok cfg ↦
        if not (text_eq cfg.history_retention retention_body)
        then (s, ok false)
        else if is_empty entry.text
        then (s, err history_text_required)
        else saved (
            prepend s
              (record entry {
                id = codes "restore-" ++ disk.format_int now.unix_micro;
                timestamp_ms = now.unix_milli;
              })
              (history_limit_of cfg) later)
  ]

  -- Clear
  unfoldable pub clear : Store → Store × Option Error
  unfolding save_locked
  clear s = save_locked (record s { entries = [] })
