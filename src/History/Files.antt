-- ===== src/History/Files.antt =====
-- What an operation of the history leaves in memory and in the file, and how many entries there are.
use myflowhub_clipboardnode.Base.{
  ◌≤◌, ◌≡◌, refl, sym, ap, ◌∙◌, Bool, none, if◌then◌else◌, true, false, not, ◌||◌, some, List, [],
  ◌∷◌, text_eq, is_empty, arith, pos, pos_part, length, take, Bool-cases, Result-cases, inl, inr,
  Error, Result, ok, err,
}
use myflowhub_clipboardnode.Config.{Config, normalize_config, retention_body}
use myflowhub_clipboardnode.Event.{Platform}
use myflowhub_clipboardnode.History.{
  HistoryEntry, Activity, Moment, Disk, Store, history_kind_can_persist, history_limit_of,
  normalize_history_entry, gather, prepend, append_activity,
}
use myflowhub_clipboardnode.History.Clean.{text-normalize}
use myflowhub_clipboardnode.History.Prepending.{
  first_then, Saved, written, lost, saved-Saved, prepended,
}

module _ (p : Platform) (disk : Disk) where
  -- The activity a is one that the history keeps under the configuration.
  pub data Taken (a : Activity) (raw cfg : Config) : Type 0 where
    taken :
        normalize_config raw ≡ ok cfg
        → text_eq cfg.history_retention retention_body ≡ true
        → is_empty a.text ≡ false
        → history_kind_can_persist a.kind ≡ true
        → Taken a raw cfg

  -- The text of a is in front, before the older entries that stay.
  pub data InFront (s : Store) (a : Activity) (cfg : Config) (es : List HistoryEntry) : Type 0 where
    in_front :
        (e : HistoryEntry)
        → e.text ≡ a.text
        → es ≡ first_then e a.text cfg s.entries
        → InFront s a cfg es

  -- The ends of an append, each with its reason.
  pub data Appended (s : Store) (a : Activity) (raw : Config) (o : Store × Result Bool)
      : Type 0 where
    no_bodies_kept :
        (cfg : Config)
        → normalize_config raw ≡ ok cfg
        → text_eq cfg.history_retention retention_body ≡ false
        → o ≡ (s, ok false)
        → Appended s a raw o
    not_kept :
        (is_empty a.text || not (history_kind_can_persist a.kind)) ≡ true
        → o ≡ (s, ok false)
        → Appended s a raw o
    bad_config : (e : Error) → normalize_config raw ≡ err e → o ≡ (s, err e) → Appended s a raw o
    not_saved :
        (cfg : Config) (e : Error)
        → Taken a raw cfg
        → InFront s a cfg o.0.entries
        → disk.save s.saves o.0.entries ≡ some e
        → o.1 ≡ err e
        → o.0.file ≡ s.file
        → Appended s a raw o
    put_first :
        (cfg : Config)
        → Taken a raw cfg
        → InFront s a cfg o.0.entries
        → disk.save s.saves o.0.entries ≡ none
        → o.1 ≡ ok true
        → o.0.file ≡ some o.0.entries
        → Appended s a raw o

  -- After n entries, n not 0, the loop keeps one more, and then as many as the limit k leaves room for.
  appended :
      (s : Store) (a : Activity) (raw cfg : Config) (now : Moment) (o : Store × Result Bool)
      → Taken a raw cfg
      → Saved p disk (prepend p disk s a (history_limit_of cfg) now) o
      → Appended s a raw o
  unfolding prepend
  appended s a raw cfg now o (taken good x y z) (written fine fit here there) =
      put_first cfg (taken good x y z)
        (in_front _ (text-normalize p disk a now) (here ∙ prepended p disk s a raw cfg now good))
        (ap (disk.save s.saves) here ∙ fine) fit (there ∙ ap some (sym here))
  appended s a raw cfg now o (taken good x y z) (lost e failed stop here same) =
      not_saved cfg e (taken good x y z)
        (in_front _ (text-normalize p disk a now) (here ∙ prepended p disk s a raw cfg now good))
        (ap (disk.save s.saves) here ∙ failed) stop same

  both_off :
      (a : Activity)
      → (is_empty a.text || not (history_kind_can_persist a.kind)) ≡ false
      → (is_empty a.text ≡ false) × (history_kind_can_persist a.kind ≡ true)
  both_off a h =
      ground (arith, Bool-cases (is_empty a.text), Bool-cases (history_kind_can_persist a.kind))

  -- An append changes nothing if the configuration is refused, bodies are not retained, or the activity
  -- has no text or a kind that is not kept, and says so. Otherwise its text is put in front in memory,
  -- before the older entries of other texts, cut to the limit of the normalised configuration but
  -- always with one of them if there is one; when the save succeeds this is reported and the file
  -- holds the same entries, and when it fails the error is returned and the file is as it was.
  pub append_activity-Appended :
      (s : Store) (a : Activity) (raw : Config) (now : Moment)
      → Appended s a raw (append_activity p disk s a raw now)
  unfolding append_activity
  append_activity-Appended s a raw now = elim (Result-cases (normalize_config raw)) [
    | inr (e, bad) ↦ rw (bad, append_activity) (bad_config e bad refl)
    | inl (cfg, good) ↦ elim (Bool-cases (text_eq cfg.history_retention retention_body)) [
      | inr other ↦ rw (good, append_activity) (simp other (no_bodies_kept cfg good other refl))
      | inl body ↦ elim (Bool-cases (is_empty a.text || not (history_kind_can_persist a.kind))) [
        | inl skipped ↦ rw (good, append_activity) (simp (body, skipped) (not_kept skipped refl))
        | inr wanted ↦
            let (filled, kind) = both_off a wanted in
            rw (good, append_activity)
              (simp (body, wanted)
                (appended s a raw cfg now _ (taken good body filled kind)
                  (saved-Saved p disk (prepend p disk s a (history_limit_of cfg) now))))
      ]
    ]
  ]

  -- What a configuration leaves of the entries: the first ones up to its limit, or none of them.
  abbrev pub left_of : Config → List HistoryEntry → List HistoryEntry
  left_of cfg es =
      if text_eq cfg.history_retention retention_body
      then take (pos_part cfg.history_limit) es
      else []

  -- Nothing is to be left out, or the entries that are left are saved.
  pub data Allowed (cfg : Config) (s : Store) (o : Store × Result Bool) : Type 0 where
    fits :
        left_of cfg s.entries ≡ s.entries
        → length s.entries ≤ pos_part cfg.history_limit
        → o ≡ (s, ok false)
        → Allowed cfg s o
    cut :
        length (left_of cfg s.entries) ≤ pos_part cfg.history_limit
        → Saved p disk (record s { entries = left_of cfg s.entries }) o
        → Allowed cfg s o

  -- Under a limit of 1 the loop keeps the first older entry before it looks at the limit, so that a
  -- prepend to a store of which the first entry has another text leaves two entries.
  pub prepend-two_at_one :
      (s : Store) (e old : HistoryEntry) (olds : List HistoryEntry) (now : Moment)
      → s.entries ≡ old ∷ olds
      → text_eq old.text e.text ≡ false
      → (prepend p disk s e (pos 1) now).entries ≡ normalize_history_entry p disk e now ∷ old ∷ []
  unfolding prepend gather
  prepend-two_at_one s e old olds now there other =
      rw (there, text-normalize p disk e now, gather) (rw other refl)
