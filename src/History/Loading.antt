-- ===== src/History/Loading.antt =====
-- What loading the history file gives.
use myflowhub_clipboardnode.Base.{
  ◌≡◌, refl, ap, sym, ◌∙◌, true, false, ◌||◌, List, [], ◌∷◌, Text, is_empty, arith, All, Bool-cases,
  Result-cases, inl, inr, Error, Result, ok, err, trim_space,
}
use myflowhub_clipboardnode.Base.Strings.Laws.{text_eq_refl, text_eq-cases}
use myflowhub_clipboardnode.Event.{Platform}
use myflowhub_clipboardnode.Dedupe.{member}
use myflowhub_clipboardnode.Dedupe.Members.{Distinct}
use myflowhub_clipboardnode.History.{
  HistoryEntry, Moment, Disk, Store, FileRead, missing, unreadable, contents, new_history_store,
  normalize_history_entry, load_entries, normalize_loaded_history,
}
use myflowhub_clipboardnode.History.Clean.{IsClean, IsKept, texts, nil-IsClean, normalize-IsKept}

true-false : ¬ (true ≡ false)
true-false h = cc

module _ (p : Platform) (disk : Disk) where
  head_absent :
      (now : Moment) (t : Text) (e : HistoryEntry) (seen : List Text) (es : List HistoryEntry)
      → member t seen ≡ true
      → member e.text seen ≡ false
      → member t (texts es) ≡ false
      → member t (texts (normalize_history_entry p disk e now ∷ es)) ≡ false
  unfolding member normalize_history_entry
  head_absent now t e seen es m n rest = elim (text_eq-cases e.text t) [
    | inl (_, same) ↦ absurd (true-false (sym m ∙ ap (λ x. member x seen) (sym same) ∙ n))
    | inr (other, _) ↦ rw other rest
  ]

  -- The texts that loading keeps were not seen before it.
  load-absent :
      (now : Moment) (t : Text) (seen : List Text) (es : List HistoryEntry)
      → member t seen ≡ true
      → member t (texts (load_entries p disk now seen es)) ≡ false
  unfolding load_entries member
  load-absent now t seen [] m = refl
  load-absent now t seen (e ∷ es) m = elim (Bool-cases (is_empty e.text || member e.text seen)) [
    | inl skipped ↦ rw (skipped, load_entries) (load-absent now t seen es m)
    | inr taken ↦
        rw (taken, load_entries)
          (head_absent now t e seen _ m (ground arith)
            (load-absent now t (e.text ∷ seen) es (ground arith)))
  ]

  load-Distinct :
      (now : Moment) (seen : List Text) (es : List HistoryEntry)
      → Distinct (texts (load_entries p disk now seen es))
  unfolding load_entries member normalize_history_entry
  load-Distinct now seen [] = tt
  load-Distinct now seen (e ∷ es) = elim (Bool-cases (is_empty e.text || member e.text seen)) [
    | inl skipped ↦ rw (skipped, load_entries) (load-Distinct now seen es)
    | inr taken ↦
        rw (taken, load_entries)
          (
            load-absent now e.text (e.text ∷ seen) es (ground (arith, text_eq_refl e.text)),
            load-Distinct now (e.text ∷ seen) es,
          )
  ]

  load-kept :
      (now : Moment) (seen : List Text) (es : List HistoryEntry)
      → All IsKept (load_entries p disk now seen es)
  unfolding load_entries
  load-kept now seen [] = tt
  load-kept now seen (e ∷ es) = elim (Bool-cases (is_empty e.text || member e.text seen)) [
    | inl skipped ↦ rw (skipped, load_entries) (load-kept now seen es)
    | inr taken ↦
        rw (taken, load_entries)
          (normalize-IsKept p disk e now (ground arith), load-kept now (e.text ∷ seen) es)
  ]

  -- Whatever the file holds, the entries loaded from it have distinct texts, none empty, and a kind
  -- that is kept.
  pub normalize_loaded_history-IsClean :
      (es : List HistoryEntry) (now : Moment) → IsClean (normalize_loaded_history p disk es now)
  unfolding normalize_loaded_history
  normalize_loaded_history-IsClean es now = record {
    distinct = load-Distinct now [] es;
    kept = load-kept now [] es;
  }

  data LoadsClean : Result Store → Type 0 where
    loaded : (s : Store) → IsClean s.entries → LoadsClean (ok s)
    refused : (e : Error) → LoadsClean (err e)

  IsClean-of : (r : Result Store) (s : Store) → LoadsClean r → r ≡ ok s → IsClean s.entries
  IsClean-of r s (loaded a c) h = let same : s ≡ a = cc in rw same c
  IsClean-of r s (refused e) h = cc

  new_history_store-LoadsClean :
      (path : Text) (read : FileRead) (now : Moment)
      → LoadsClean (new_history_store p disk path read now)
  unfolding new_history_store
  new_history_store-LoadsClean path missing now = elim (Bool-cases (is_empty (trim_space path))) [
    | inl blank ↦ rw blank (refused _)
    | inr there ↦ rw there (loaded _ nil-IsClean)
  ]
  new_history_store-LoadsClean path (unreadable e) now =
      elim (Bool-cases (is_empty (trim_space path))) [
        | inl blank ↦ rw blank (refused _)
        | inr there ↦ rw there (refused _)
      ]
  new_history_store-LoadsClean path (contents t) now =
      elim (Bool-cases (is_empty (trim_space path))) [
        | inl blank ↦ rw blank (refused _)
        | inr there ↦ elim (Bool-cases (is_empty (trim_space t))) [
          | inl nothing ↦ rw (there, nothing) (loaded _ nil-IsClean)
          | inr filled ↦ elim (Result-cases (disk.decode t)) [
            | inl (es, decoded) ↦
                rw (there, filled, decoded) (loaded _ (normalize_loaded_history-IsClean es now))
            | inr (e, bad) ↦ rw (there, filled, bad) (refused _)
          ]
        ]
      ]

  pub new_history_store-IsClean :
      (path : Text) (read : FileRead) (now : Moment) (s : Store)
      → new_history_store p disk path read now ≡ ok s
      → IsClean s.entries
  new_history_store-IsClean path read now s h =
      IsClean-of _ s (new_history_store-LoadsClean path read now) h
