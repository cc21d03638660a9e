-- ===== src/History/Prepending.antt =====
-- What prependLocked and saveLocked leave, in terms of the entries before.
use myflowhub_clipboardnode.Base.{
  ℕ, suc, ◌-◌, ◌≡◌, refl, sym, ap, ◌∙◌, none, some, Text, true, false, List, [], ◌∷◌, text_eq,
  arith, pos, pos_part, leb_ℤ, take, Bool, Bool-cases, Option-cases, inl, inr, Error, Result, ok,
  err,
}
use myflowhub_clipboardnode.Config.{Config, normalize_config}
use myflowhub_clipboardnode.Config.Normal.{normalize_config-IsNormal}
use myflowhub_clipboardnode.Event.{Platform}
use myflowhub_clipboardnode.History.{
  HistoryEntry, Activity, Moment, Disk, Store, history_limit_of, normalize_history_entry, gather,
  prepend, save_locked, saved,
}
use myflowhub_clipboardnode.History.Clean.{text-normalize}

-- The older entries that have another text, in their order.
abbrev pub others : Text → List HistoryEntry → List HistoryEntry
others t [] = []
others t (e ∷ es) = elim (text_eq e.text t) [ true ↦ others t es | false ↦ e ∷ others t es ]

others_same :
    (t : Text) (e : HistoryEntry) (es : List HistoryEntry)
    → text_eq e.text t ≡ true
    → others t (e ∷ es) ≡ others t es
others_same t e es h = rw (h, others) refl

others_more :
    (t : Text) (e : HistoryEntry) (es : List HistoryEntry)
    → text_eq e.text t ≡ false
    → others t (e ∷ es) ≡ e ∷ others t es
others_more t e es h = rw (h, others) refl

-- A normalised limit is the limit that the store is cut to.
pub normal_limit :
    (raw cfg : Config)
    → normalize_config raw ≡ ok cfg
    → (history_limit_of cfg ≡ cfg.history_limit)
      × (pos (pos_part cfg.history_limit) ≡ cfg.history_limit)
unfolding history_limit_of
normal_limit raw cfg good =
    let (n, same, small) = (normalize_config-IsNormal raw cfg good).0.history_limit in
    (rw same (ground arith), rw same refl)

-- The entries after the text of `a` was put in front: then come the older entries of other texts, as
-- many as the limit leaves room for, but always one if there is one.
abbrev pub first_then : HistoryEntry → Text → Config → List HistoryEntry → List HistoryEntry
first_then e t cfg es = e ∷ take (suc (pos_part cfg.history_limit - 2)) (others t es)

module _ (p : Platform) (disk : Disk) where
  -- How a save ends: with the entries in the file, or with an error and the file as it was.
  pub data Saved (s : Store) (o : Store × Result Bool) : Type 0 where
    written :
        disk.save s.saves s.entries ≡ none
        → o.1 ≡ ok true
        → o.0.entries ≡ s.entries
        → o.0.file ≡ some s.entries
        → Saved s o
    lost :
        (e : Error)
        → disk.save s.saves s.entries ≡ some e
        → o.1 ≡ err e
        → o.0.entries ≡ s.entries
        → o.0.file ≡ s.file
        → Saved s o

  pub saved-Saved : (s : Store) → Saved s (saved p disk s)
  unfolding saved save_locked
  saved-Saved s = elim (Option-cases (disk.save s.saves s.entries)) [
    | inl fine ↦ rw (fine, saved) (rw (fine, save_locked) (written fine refl refl refl))
    | inr (e, failed) ↦ rw (failed, saved) (rw (failed, save_locked) (lost e failed refl refl refl))
  ]

  gather-others :
      (k n : ℕ) (t : Text) (es : List HistoryEntry)
      → gather p disk (pos k) t n es ≡ take (suc (k - suc n)) (others t es)
  unfolding gather
  gather-others k n t [] = refl
  gather-others k n t (e ∷ es) = elim (Bool-cases (text_eq e.text t)) [
    | inl same ↦
        rw (same, gather)
          (gather-others k n t es ∙ ap (take (suc (k - suc n))) (sym (others_same t e es same)))
    | inr other ↦ elim (Bool-cases (leb_ℤ (pos k) (pos (suc n)))) [
      | inl full ↦
          let last : k - suc n ≡ 0 = ground arith in
          rw (others_more t e es other, last, other, gather) (rw full refl)
      | inr room ↦
          let more : k - suc n ≡ suc (k - suc (suc n)) = ground arith in
          rw (others_more t e es other, more, other, gather)
            (rw room (ap (λ x. e ∷ x) (gather-others k (suc n) t es)))
    ]
  ]

  pub prepended :
      (s : Store) (a : Activity) (raw cfg : Config) (now : Moment)
      → normalize_config raw ≡ ok cfg
      → (prepend p disk s a (history_limit_of cfg) now).entries
        ≡ first_then (normalize_history_entry p disk a now) a.text cfg s.entries
  unfolding prepend
  prepended s a raw cfg now good =
      let (used, whole) = normal_limit raw cfg good in
      ap (λ x. normalize_history_entry p disk a now ∷ x)
        (ap (λ x. gather p disk (history_limit_of cfg) x 1 s.entries) (text-normalize p disk a now)
          ∙ ap (λ x. gather p disk x a.text 1 s.entries) (used ∙ sym whole)
          ∙ gather-others (pos_part cfg.history_limit) 1 a.text s.entries)
