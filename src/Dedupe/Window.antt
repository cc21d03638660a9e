-- ===== src/Dedupe/Window.antt =====
-- A set from which nothing is consumed (the runtime's `recentEvents`) is a first-in-first-out
-- window over the values added.
use myflowhub_clipboardnode.Base.{
  ℕ, suc, ◌≤◌, ◌<◌, ◌+◌, ◌≡◌, refl, true, false, List, [], ◌∷◌, ◌++◌, Text, text_eq, length, arith,
  if◌then◌else◌, Bool-cases, inl, inr, ltb, is_empty, ℤ, pos, negsuc, length-append,
}
use myflowhub_clipboardnode.Base.Strings.Laws.{text_eq_refl}
use myflowhub_clipboardnode.Dedupe.{
  member, delete, BoundedSet, new_bounded_set, contains, evict, compact, trim, add,
}
use myflowhub_clipboardnode.Dedupe.Members.{Distinct, member-append, append-Distinct, delete_absent}

-- The last `n` entries.
abbrev pub newest : ℕ → List Text → List Text
newest n [] = []
newest n (x ∷ xs) = if ltb (length xs) n then x ∷ xs else newest n xs

-- What a window of `n` values holds after one more: a value that is held already keeps its place.
abbrev pub remember : ℕ → List Text → Text → List Text
remember n w v = if is_empty v then w else if member v w then w else newest n (w ++ v ∷ [])

abbrev pub window : ℕ → List Text → List Text → List Text
window n w [] = w
window n w (v ∷ vs) = window n (remember n w v) vs

abbrev pub add_all : BoundedSet → List Text → BoundedSet
add_all s [] = s
add_all s (v ∷ vs) = add_all (add s v) vs

pub record IsFresh (s : BoundedSet) : Type 0 where
  pub positive : 1 ≤ s.limit
  pub within : length s.order ≤ s.limit
  pub distinct : Distinct s.order
  pub same : s.set ≡ s.order

length-newest-le : (n : ℕ) (xs : List Text) → length (newest n xs) ≤ n
length-newest-le n [] = omega arith
length-newest-le n (x ∷ xs) = ground (arith, length-newest-le n xs)

newest-Distinct : (n : ℕ) (xs : List Text) → Distinct xs → Distinct (newest n xs)
newest-Distinct n [] d = tt
newest-Distinct n (x ∷ xs) d = ground (arith, newest-Distinct n xs d.1)

evict_same : (n : ℕ) (xs : List Text) → Distinct xs → evict n xs xs ≡ (newest n xs, newest n xs)
unfolding evict delete
evict_same n [] d = refl
evict_same n (x ∷ xs) d =
    ground (arith, evict_same n xs d.1, delete_absent x xs d.0, text_eq_refl x)

trim_same :
    (n : ℕ) (xs : List Text)
    → Distinct xs
    → trim (record { limit = n; set = xs; order = xs })
      ≡ record { limit = n; set = newest n xs; order = newest n xs }
unfolding trim compact
trim_same n xs d = rw (evict_same n xs d) (ground (arith, length-newest-le n xs))

abbrev both : ℕ → List Text → BoundedSet
both n w = record { limit = n; set = w; order = w }

add-both :
    (n : ℕ) (w : List Text) (v : Text) → Distinct w → add (both n w) v ≡ both n (remember n w v)
unfolding add contains
add-both n w v d = elim (Bool-cases (is_empty v)) [
  | inl e ↦ rw e refl
  | inr e ↦ elim (Bool-cases (member v w)) [
    | inl m ↦ rw (e, m) refl
    | inr m ↦ rw (e, m) (trim_same n (w ++ v ∷ []) (append-Distinct w v d m))
  ]
]

remember-Distinct : (n : ℕ) (w : List Text) (v : Text) → Distinct w → Distinct (remember n w v)
remember-Distinct n w v d = elim (Bool-cases (is_empty v)) [
  | inl e ↦ rw e d
  | inr e ↦ elim (Bool-cases (member v w)) [
    | inl m ↦ rw (e, m) d
    | inr m ↦ rw (e, m) (newest-Distinct n (w ++ v ∷ []) (append-Distinct w v d m))
  ]
]

remember-within : (n : ℕ) (w : List Text) (v : Text) → length w ≤ n → length (remember n w v) ≤ n
remember-within n w v h = ground (arith, length-newest-le n (w ++ v ∷ []))

IsFresh-both : (s : BoundedSet) → IsFresh s → s ≡ both s.limit s.order
IsFresh-both s f = λ i. record { limit = s.limit; set = f.same i; order = s.order }

pub add-IsFresh : (s : BoundedSet) (v : Text) → IsFresh s → IsFresh (add s v)
add-IsFresh s v f =
    rw (IsFresh-both s f, add-both s.limit s.order v f.distinct)
      (record {
        positive = f.positive;
        within = remember-within s.limit s.order v f.within;
        distinct = remember-Distinct s.limit s.order v f.distinct;
        same = refl;
      })

pub new-IsFresh : (limit : ℤ) → IsFresh (new_bounded_set limit)
unfolding new_bounded_set
new-IsFresh (pos n) = record {
  positive = ground arith;
  within = ground arith;
  distinct = tt;
  same = refl;
}
new-IsFresh (negsuc n) = record {
  positive = omega arith;
  within = omega arith;
  distinct = tt;
  same = refl;
}

add_all-both :
    (n : ℕ) (w vs : List Text) → Distinct w → add_all (both n w) vs ≡ both n (window n w vs)
add_all-both n w [] d = refl
add_all-both n w (v ∷ vs) d =
    rw (add-both n w v d) (add_all-both n (remember n w v) vs (remember-Distinct n w v d))

pub new_suc : (n : ℕ) → new_bounded_set (pos (suc n)) ≡ both (suc n) []
unfolding new_bounded_set
new_suc n = ground arith

-- A new set to which values are only added holds exactly what a window of `limit` values does: a
-- non-empty value that is not held goes to the end and the oldest leaves when there are too many, and
-- one that is held keeps its place; the map and the order agree.
pub add_all-window :
    (n : ℕ) (vs : List Text)
    → add_all (new_bounded_set (pos (suc n))) vs
      ≡ record { limit = suc n; set = window (suc n) [] vs; order = window (suc n) [] vs }
add_all-window n vs = rw (new_suc n) (add_all-both (suc n) [] vs tt)

-- How many values were added after `v`.
abbrev after : Text → List Text → ℕ
after v [] = 0
after v (x ∷ xs) = if text_eq x v then length xs else after v xs

after-append :
    (v u : Text) (w : List Text) → member v w ≡ true → after v (w ++ u ∷ []) ≡ suc (after v w)
unfolding member
after-append v u [] m = cc
after-append v u (x ∷ w) m = ground (arith, after-append v u w, length-append w (u ∷ []))

newest-keeps :
    (n : ℕ) (v : Text) (w : List Text)
    → member v w ≡ true
    → after v w < n
    → (member v (newest n w) ≡ true) × (after v (newest n w) ≡ after v w)
unfolding member
newest-keeps n v [] m h = cc
newest-keeps n v (x ∷ w) m h = ground (arith, newest-keeps n v w)

remember-keeps :
    (n : ℕ) (v u : Text) (w : List Text)
    → member v w ≡ true
    → suc (after v w) < n
    → (member v (remember n w u) ≡ true) × (after v (remember n w u) ≤ suc (after v w))
remember-keeps n v u w m h =
    ground (arith, newest-keeps n v (w ++ u ∷ []), after-append v u w m, member-append v w (u ∷ []))

window-keeps :
    (n : ℕ) (v : Text) (w us : List Text)
    → member v w ≡ true
    → after v w + length us < n
    → member v (window n w us) ≡ true
window-keeps n v w [] m h = m
window-keeps n v w (u ∷ us) m h =
    let (m', h') = remember-keeps n v u w m (omega arith) in
    window-keeps n v (remember n w u) us m' (omega arith)

after-last : (v : Text) (w : List Text) → member v w ≡ false → after v (w ++ v ∷ []) ≡ 0
unfolding member
after-last v [] m = ground (arith, text_eq_refl v)
after-last v (x ∷ w) m = ground (arith, after-last v w)

-- A value just remembered is there, with nothing after it.
remember-new :
    (n : ℕ) (v : Text) (w : List Text)
    → 1 ≤ n
    → is_empty v ≡ false
    → member v w ≡ false
    → (member v (remember n w v) ≡ true) × (after v (remember n w v) ≡ 0)
unfolding member
remember-new n v w p e m =
    rw (e, m)
      (ground (
        arith,
        newest-keeps n v (w ++ v ∷ []),
        after-last v w m,
        member-append v w (v ∷ []),
        text_eq_refl v,
      ))

pub contains-add_self :
    (s : BoundedSet) (v : Text) → IsFresh s → is_empty v ≡ false → contains (add s v) v ≡ true
unfolding contains
contains-add_self s v f e =
    rw (IsFresh-both s f, add-both s.limit s.order v f.distinct)
      (elim (Bool-cases (member v s.order)) [
        | inl m ↦ rw (e, m) m
        | inr m ↦ (remember-new s.limit v s.order f.positive e m).0
      ])

-- A non-empty value that is new to a set from which nothing was consumed is found there after up
-- to `limit - 1` further additions.
pub contains-add_all :
    (s : BoundedSet) (v : Text) (us : List Text)
    → IsFresh s
    → is_empty v ≡ false
    → contains s v ≡ false
    → length us < s.limit
    → contains (add_all (add s v) us) v ≡ true
unfolding contains
contains-add_all s v us f e m h =
    let m' : member v s.order ≡ false = rw (← f.same) m in
    let (here, last) = remember-new s.limit v s.order f.positive e m' in
    rw
      (
        IsFresh-both s f,
        add-both s.limit s.order v f.distinct,
        add_all-both s.limit (remember s.limit s.order v) us
            (remember-Distinct s.limit s.order v f.distinct),
      )
      (window-keeps s.limit v (remember s.limit s.order v) us here (omega arith))
