-- ===== src/History/Settings.antt =====
-- Runs of the history's operations, and what every store holds.
use myflowhub_clipboardnode.Base.{
  ◌≡◌, refl, Bool, false, not, ◌||◌, List, [], ◌∷◌, ◌++◌, Text, text_eq, is_empty, codes, arith,
  pos, leb_ℤ, length, Bool-cases, Option-cases, Result-cases, inl, inr, ok, ◌==◌,
}
use myflowhub_clipboardnode.Config.{Config, normalize_config, retention_body}
use myflowhub_clipboardnode.Event.{Platform}
use myflowhub_clipboardnode.History.{
  HistoryEntry, Activity, Moment, Disk, Store, FileRead, new_history_store,
  history_kind_can_persist, history_limit_of, prepend, save_locked, saved, apply_settings,
  append_activity, promote, clear,
}
use myflowhub_clipboardnode.History.Loading.{new_history_store-IsClean}
use myflowhub_clipboardnode.History.Clean.{IsClean, nil-IsClean, take-IsClean, prepend-IsClean}

pub data Op : Type 0 where
  applies_settings : Config → Op
  appends : Activity → Config → Moment → Op
  promotes : HistoryEntry → Config → Moment → Moment → Op
  clears : Op

module _ (p : Platform) (disk : Disk) where
  abbrev pub step : Store → Op → Store
  step s (applies_settings cfg) = (apply_settings p disk s cfg).0
  step s (appends a cfg now) = (append_activity p disk s a cfg now).0
  step s (promotes e cfg now later) = (promote p disk s e cfg now later).0
  step s clears = (clear p disk s).0

  abbrev pub run : Store → List Op → Store
  run s [] = s
  run s (o ∷ os) = run (step s o) os

  entries-save_locked : (s : Store) → (save_locked p disk s).0.entries ≡ s.entries
  unfolding save_locked
  entries-save_locked s = elim (Option-cases (disk.save s.saves s.entries)) [
    | inl fine ↦ rw (fine, save_locked) refl
    | inr (e, failed) ↦ rw (failed, save_locked) refl
  ]

  entries-saved : (s : Store) → (saved p disk s).0.entries ≡ s.entries
  unfolding saved
  entries-saved s = elim (Option-cases (save_locked p disk s).1) [
    | inl fine ↦ rw (fine, saved) (entries-save_locked s)
    | inr (e, failed) ↦ rw (failed, saved) (entries-save_locked s)
  ]

  saved-IsClean : (s : Store) → IsClean s.entries → IsClean (saved p disk s).0.entries
  saved-IsClean s c = rw (entries-saved s) c

  apply_settings-IsClean :
      (s : Store) (raw : Config)
      → IsClean s.entries
      → IsClean (apply_settings p disk s raw).0.entries
  unfolding apply_settings
  apply_settings-IsClean s raw c = elim (Result-cases (normalize_config raw)) [
    | inr (e, bad) ↦ rw (bad, apply_settings) c
    | inl (cfg, good) ↦ elim (Bool-cases (text_eq cfg.history_retention retention_body)) [
      | inl body ↦ elim (Bool-cases (leb_ℤ (pos (length s.entries)) (history_limit_of cfg))) [
        | inl fits ↦ rw (good, apply_settings) (simp (body, fits) c)
        | inr many ↦
            rw (good, apply_settings)
              (simp (body, many) (saved-IsClean _ (take-IsClean _ s.entries c)))
      ]
      | inr other ↦ elim (Bool-cases (length s.entries == 0)) [
        | inl nothing ↦ rw (good, apply_settings) (simp (other, nothing) c)
        | inr some_there ↦
            rw (good, apply_settings) (simp (other, some_there) (saved-IsClean _ nil-IsClean))
      ]
    ]
  ]

  or-false : (a b : Bool) → (a || b) ≡ false → a ≡ false
  or-false a b h = ground arith

  append_activity-IsClean :
      (s : Store) (a : Activity) (raw : Config) (now : Moment)
      → IsClean s.entries
      → IsClean (append_activity p disk s a raw now).0.entries
  unfolding append_activity
  append_activity-IsClean s a raw now c = elim (Result-cases (normalize_config raw)) [
    | inr (e, bad) ↦ rw (bad, append_activity) c
    | inl (cfg, good) ↦ elim (Bool-cases (text_eq cfg.history_retention retention_body)) [
      | inr other ↦ rw (good, append_activity) (simp other c)
      | inl body ↦ elim (Bool-cases (is_empty a.text || not (history_kind_can_persist a.kind))) [
        | inl skipped ↦ rw (good, append_activity) (simp (body, skipped) c)
        | inr taken ↦
            rw (good, append_activity)
              (simp (body, taken)
                (saved-IsClean (prepend p disk s a (history_limit_of cfg) now)
                  (prepend-IsClean p disk s a (history_limit_of cfg) now (or-false _ _ taken) c)))
      ]
    ]
  ]

  restored : HistoryEntry → Moment → HistoryEntry
  restored e now = record e {
    id = codes "restore-" ++ disk.format_int now.unix_micro;
    timestamp_ms = now.unix_milli;
  }

  promote-IsClean :
      (s : Store) (e : HistoryEntry) (raw : Config) (now later : Moment)
      → IsClean s.entries
      → IsClean (promote p disk s e raw now later).0.entries
  unfolding promote restored
  promote-IsClean s e raw now later c = elim (Result-cases (normalize_config raw)) [
    | inr (failure, bad) ↦ rw (bad, promote) c
    | inl (cfg, good) ↦ elim (Bool-cases (text_eq cfg.history_retention retention_body)) [
      | inr other ↦ rw (good, promote) (simp other c)
      | inl body ↦ elim (Bool-cases (is_empty e.text)) [
        | inl blank ↦ rw (good, promote) (simp (body, blank) c)
        | inr filled ↦
            rw (good, promote)
              (simp (body, filled)
                (saved-IsClean (prepend p disk s (restored e now) (history_limit_of cfg) later) (
                  prepend-IsClean p disk s (restored e now) (history_limit_of cfg) later filled c)))
      ]
    ]
  ]

  step-IsClean : (s : Store) (o : Op) → IsClean s.entries → IsClean (step s o).entries
  unfolding clear
  step-IsClean s (applies_settings cfg) c = apply_settings-IsClean s cfg c
  step-IsClean s (appends a cfg now) c = append_activity-IsClean s a cfg now c
  step-IsClean s (promotes e cfg now later) c = promote-IsClean s e cfg now later c
  step-IsClean s clears c = rw (entries-save_locked (record s { entries = [] })) nil-IsClean

  run_keeps : (s : Store) (os : List Op) → IsClean s.entries → IsClean (run s os).entries
  run_keeps s [] c = c
  run_keeps s (o ∷ os) c = run_keeps (step s o) os (step-IsClean s o c)

  -- A store made from any file that loads, after any operations, holds no text twice, no empty text,
  -- and only entries of the kinds published and applied.
  pub run-IsClean :
      (path : Text) (read : FileRead) (now : Moment) (s : Store) (os : List Op)
      → new_history_store p disk path read now ≡ ok s
      → IsClean (run s os).entries
  run-IsClean path read now s os h =
      run_keeps s os (new_history_store-IsClean p disk path read now s h)
