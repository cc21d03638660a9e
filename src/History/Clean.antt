-- ===== src/History/Clean.antt =====
-- What the entries of the history look like after any sequence of operations.
use myflowhub_clipboardnode.Base.{
  ℕ, zero, suc, ◌+◌, ◌≤◌, ◌<◌, ◌≡◌, refl, ap, ◌∙◌, true, false, not, ◌||◌, List, [], ◌∷◌, Text,
  text_eq, is_empty, codes, arith, ℤ, pos, leb_ℤ, length, take, All, Bool-cases, inl, inr,
  trim_space,
}
use myflowhub_clipboardnode.Event.{Platform}
use myflowhub_clipboardnode.Dedupe.{member}
use myflowhub_clipboardnode.Dedupe.Members.{Distinct}
use myflowhub_clipboardnode.History.{
  HistoryEntry, Moment, Disk, Store, history_kind_can_persist, with_defaults,
  normalize_history_entry, gather, prepend,
}

-- An entry has a text and a kind that is kept.
pub record IsKept (e : HistoryEntry) : Type 0 where
  pub filled : is_empty e.text ≡ false
  pub kind : history_kind_can_persist e.kind ≡ true

abbrev pub texts : List HistoryEntry → List Text
texts [] = []
texts (e ∷ es) = e.text ∷ texts es

-- No text occurs twice, and every entry is kept.
pub record IsClean (es : List HistoryEntry) : Type 0 where
  pub distinct : Distinct (texts es)
  pub kept : All IsKept es

default_kind : history_kind_can_persist (codes "published") ≡ true
unfolding history_kind_can_persist text_eq
default_kind = refl

take-absent :
    (n : ℕ) (t : Text) (es : List HistoryEntry)
    → member t (texts es) ≡ false
    → member t (texts (take n es)) ≡ false
unfolding member
take-absent zero t es m = refl
take-absent (suc n) t [] m = refl
take-absent (suc n) t (e ∷ es) m = ground (arith, take-absent n t es)

take-Distinct :
    (n : ℕ) (es : List HistoryEntry) → Distinct (texts es) → Distinct (texts (take n es))
take-Distinct zero es d = tt
take-Distinct (suc n) [] d = tt
take-Distinct (suc n) (e ∷ es) d = (take-absent n e.text es d.0, take-Distinct n es d.1)

take-kept : (n : ℕ) (es : List HistoryEntry) → All IsKept es → All IsKept (take n es)
take-kept zero es a = tt
take-kept (suc n) [] a = tt
take-kept (suc n) (e ∷ es) a = (a.0, take-kept n es a.1)

pub take-IsClean : (n : ℕ) (es : List HistoryEntry) → IsClean es → IsClean (take n es)
take-IsClean n es c = record {
  distinct = take-Distinct n es c.distinct;
  kept = take-kept n es c.kept;
}

pub nil-IsClean : IsClean []
nil-IsClean = record { distinct = tt; kept = tt }

module _ (p : Platform) (disk : Disk) where
  pub text-normalize :
      (e : HistoryEntry) (now : Moment) → (normalize_history_entry p disk e now).text ≡ e.text
  unfolding normalize_history_entry with_defaults
  text-normalize e now = refl

  with_defaults-kind :
      (e : HistoryEntry) (now : Moment)
      → history_kind_can_persist (with_defaults p disk e now).kind ≡ true
  unfolding with_defaults
  with_defaults-kind e now =
      elim (Bool-cases (is_empty e.kind || not (history_kind_can_persist e.kind))) [
        | inl bad ↦ rw bad default_kind
        | inr good ↦ rw good (ground arith)
      ]

  pub normalize-IsKept :
      (e : HistoryEntry) (now : Moment)
      → is_empty e.text ≡ false
      → IsKept (normalize_history_entry p disk e now)
  unfolding normalize_history_entry
  normalize-IsKept e now h = record {
    filled = ap is_empty (text-normalize e now) ∙ h;
    kind =
        with_defaults-kind
          (record e {
            id = trim_space e.id;
            kind = trim_space e.kind;
            topic = trim_space e.topic;
            device_label = trim_space e.device_label;
            hash_prefix = trim_space e.hash_prefix;
          })
          now;
  }

  gather-absent :
      (limit : ℤ) (t u : Text) (n : ℕ) (es : List HistoryEntry)
      → member u (texts es) ≡ false
      → member u (texts (gather p disk limit t n es)) ≡ false
  unfolding gather member
  gather-absent limit t u n [] m = refl
  gather-absent limit t u n (e ∷ es) m =
      ground (arith, gather-absent limit t u n es, gather-absent limit t u (suc n) es)

  gather-Distinct :
      (limit : ℤ) (t : Text) (n : ℕ) (es : List HistoryEntry)
      → Distinct (texts es)
      → Distinct (texts (gather p disk limit t n es))
  unfolding gather member
  gather-Distinct limit t n [] d = tt
  gather-Distinct limit t n (e ∷ es) d = elim (Bool-cases (text_eq e.text t)) [
    | inl same ↦ rw (same, gather) (gather-Distinct limit t n es d.1)
    | inr other ↦ elim (Bool-cases (leb_ℤ limit (pos (suc n)))) [
      | inl full ↦ rw (other, full, gather) (refl, tt)
      | inr space ↦
          rw (other, space, gather)
            (gather-absent limit t e.text (suc n) es d.0, gather-Distinct limit t (suc n) es d.1)
    ]
  ]

  gather-new :
      (limit : ℤ) (t : Text) (n : ℕ) (es : List HistoryEntry)
      → member t (texts (gather p disk limit t n es)) ≡ false
  unfolding gather member
  gather-new limit t n [] = refl
  gather-new limit t n (e ∷ es) =
      ground (arith, gather-new limit t n es, gather-new limit t (suc n) es)

  gather-kept :
      (limit : ℤ) (t : Text) (n : ℕ) (es : List HistoryEntry)
      → All IsKept es
      → All IsKept (gather p disk limit t n es)
  unfolding gather
  gather-kept limit t n [] a = tt
  gather-kept limit t n (e ∷ es) a = elim (Bool-cases (text_eq e.text t)) [
    | inl same ↦ rw (same, gather) (gather-kept limit t n es a.1)
    | inr other ↦ elim (Bool-cases (leb_ℤ limit (pos (suc n)))) [
      | inl full ↦ rw (other, full, gather) (a.0, tt)
      | inr space ↦ rw (other, space, gather) (a.0, gather-kept limit t (suc n) es a.1)
    ]
  ]

  -- At most `limit` entries after the loop, when one is there before it, or the one that is read
  -- before the limit is looked at.
  gather-length :
      (k : ℕ) (t : Text) (n : ℕ) (es : List HistoryEntry)
      → n < k
      → n + length (gather p disk (pos k) t n es) ≤ k
  unfolding gather
  gather-length k t n [] h = omega arith
  gather-length k t n (e ∷ es) h =
      ground (arith, gather-length k t n es, gather-length k t (suc n) es)

  pub prepend-IsClean :
      (s : Store) (e : HistoryEntry) (limit : ℤ) (now : Moment)
      → is_empty e.text ≡ false
      → IsClean s.entries
      → IsClean (prepend p disk s e limit now).entries
  unfolding prepend
  prepend-IsClean s e limit now h c = record {
    distinct = (gather-new limit _ 1 s.entries, gather-Distinct limit _ 1 s.entries c.distinct);
    kept = (normalize-IsKept e now h, gather-kept limit _ 1 s.entries c.kept);
  }

  -- Prepending under a limit of at least 2 leaves at most that many entries.
  pub prepend-length :
      (s : Store) (e : HistoryEntry) (k : ℕ) (now : Moment)
      → 2 ≤ k
      → length (prepend p disk s e (pos k) now).entries ≤ k
  unfolding prepend
  prepend-length s e k now h =
      omega (
        arith,
        gather-length k (normalize_history_entry p disk e now).text 1 s.entries (omega arith),
      )
