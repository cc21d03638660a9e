-- ===== src/History/Tests.antt =====
-- The theorems on the history at concrete inputs.
use myflowhub_clipboardnode.Base.{
  ℕ, ◌≡◌, refl, ◌≤◌, List, [], ◌∷◌, Option, some, none, Text, codes, ℤ, pos, true, false, arith,
  Result, ok, length, pos_part, text_eq,
}
use myflowhub_clipboardnode.Config.{Config, default_config, retention_body}
use myflowhub_clipboardnode.Event.Samples.{sample_platform}
use myflowhub_clipboardnode.History.{
  HistoryEntry, Moment, Disk, Store, missing, new_history_store, prepend, append_activity,
  normalize_history_entry,
}
use myflowhub_clipboardnode.History.Clean.{IsClean}
use myflowhub_clipboardnode.History.Settings.{appends, promotes, applies_settings, run, run-IsClean}
use myflowhub_clipboardnode.History.Files.{Appended, append_activity-Appended, prepend-two_at_one}

abbrev entry : Text → HistoryEntry
entry t = record {
  id = [];
  kind = codes "applied";
  text = t;
  topic = [];
  device_label = [];
  byte_size = pos 0;
  hash_prefix = [];
  timestamp_ms = pos 0;
}

abbrev noon : Moment
noon = record { unix_micro = pos 12000; unix_milli = pos 12 }

abbrev sample_disk : Disk
sample_disk = record {
  format_int = λ z. pos_part z ∷ [];
  decode = λ t. ok (entry (codes "x") ∷ entry (codes "x") ∷ entry [] ∷ []);
  save = λ n es. none;
}

abbrev keeping : Config
keeping = record default_config { history_retention = retention_body; history_limit = pos 2 }

abbrev kept_store : Store
kept_store = record {
  entries = entry (codes "x") ∷ entry (codes "y") ∷ entry (codes "z") ∷ [];
  file = none;
  saves = 0;
}

abbrev fresh_store : Store
fresh_store = record { entries = []; file = none; saves = 0 }

opened :
    new_history_store sample_platform sample_disk (codes "h.json") missing noon ≡ ok fresh_store
unfolding new_history_store myflowhub_clipboardnode.Base.trim_space
opened = refl

run-IsClean_example :
    IsClean
      (run sample_platform sample_disk fresh_store (
        appends (entry (codes "a")) keeping noon
        ∷ promotes (entry (codes "b")) keeping noon noon
        ∷ applies_settings keeping
        ∷ [])).entries
run-IsClean_example =
    run-IsClean sample_platform sample_disk (codes "h.json") missing noon fresh_store
      (appends (entry (codes "a")) keeping noon
        ∷ promotes (entry (codes "b")) keeping noon noon
        ∷ applies_settings keeping
        ∷ [])
      opened

append_activity-Appended_example :
    Appended sample_platform sample_disk kept_store
      (entry (codes "y"))
      keeping
      (append_activity sample_platform sample_disk kept_store (entry (codes "y")) keeping noon)
append_activity-Appended_example =
    append_activity-Appended sample_platform sample_disk kept_store (entry (codes "y")) keeping noon

prepend-two_at_one_example :
    (prepend sample_platform sample_disk kept_store (entry (codes "a")) (pos 1) noon).entries
    ≡ normalize_history_entry sample_platform sample_disk (entry (codes "a")) noon
      ∷ entry (codes "x")
      ∷ []
unfolding text_eq
prepend-two_at_one_example =
    prepend-two_at_one sample_platform sample_disk kept_store (entry (codes "a"))
      (entry (codes "x")) (entry (codes "y") ∷ entry (codes "z") ∷ []) noon refl refl
