-- ===== src/Dedupe/Bounds.antt =====
-- The set stays within its limit, without duplicates, under any operations.
use myflowhub_clipboardnode.Base.{
  ℕ, ◌≤◌, ◌<◌, ◌≡◌, refl, true, false, List, [], ◌∷◌, ◌++◌, Text, length, arith, Bool-cases, inl,
  inr, ltb, is_empty, ℤ, pos, negsuc,
}
use myflowhub_clipboardnode.Base.Strings.Laws.{text_eq_iff, text_eq_refl}
use myflowhub_clipboardnode.Dedupe.{
  member, delete, BoundedSet, new_bounded_set, contains, evict, compact, trim, add, consume,
}
use myflowhub_clipboardnode.Dedupe.Members.{
  Distinct, member-append, member-delete, member-keep_members, delete-Distinct, append-Distinct,
  length-delete-le,
}

-- Every key of the set stands in the order.
abbrev pub Covers : List Text → List Text → Type 0
Covers set order = (w : Text) → member w set ≡ true → member w order ≡ true

pub record IsBounded (s : BoundedSet) : Type 0 where
  pub positive : 1 ≤ s.limit
  pub within : length s.set ≤ s.limit
  pub distinct : Distinct s.set
  pub covers : Covers s.set s.order

Covers-empty : (set : List Text) → Covers set [] → length set ≡ 0
unfolding member
Covers-empty [] c = refl
Covers-empty (w ∷ ws) c = absurd (ground (arith, c w, text_eq_refl w))

Covers-delete :
    (set order : List Text) (v : Text) → Covers set (v ∷ order) → Covers (delete v set) order
unfolding member
Covers-delete set order v c w m = ground (arith, member-delete v w set, c w)

evict_lem :
    (limit : ℕ) (set order : List Text)
    → Covers set order
    → Distinct set
    → (length (evict limit set order).0 ≤ limit)
      × Distinct (evict limit set order).0
      × Covers (evict limit set order).0 (evict limit set order).1
unfolding evict
evict_lem limit set [] c d = (omega (arith, Covers-empty set c), d, c)
evict_lem limit set (o ∷ order) c d = elim (Bool-cases (ltb limit (length set))) [
  | inl e ↦
      rw e (
        evict_lem limit (delete o set) order (Covers-delete set order o c)
          (delete-Distinct o set d))
  | inr e ↦ rw e (ground arith, d, c)
]

Covers-compact :
    (limit : ℕ) (set order : List Text) → Covers set order → Covers set (compact limit (set, order))
unfolding compact
Covers-compact limit set order c w m = ground (arith, member-keep_members set order w, c w)

trim-IsBounded :
    (s : BoundedSet) → 1 ≤ s.limit → Distinct s.set → Covers s.set s.order → IsBounded (trim s)
unfolding trim
trim-IsBounded s p d c =
    let (within, distinct, covers) = evict_lem s.limit s.set s.order c d in
    record {
      positive = p;
      within = within;
      distinct = distinct;
      covers =
          Covers-compact s.limit (evict s.limit s.set s.order).0 (evict s.limit s.set s.order).1
            covers;
    }

Covers-append :
    (set order : List Text) (v : Text) → Covers set order → Covers (set ++ v ∷ []) (order ++ v ∷ [])
Covers-append set order v c w m =
    ground (arith, member-append w set (v ∷ []), member-append w order (v ∷ []), c w)

pub add-IsBounded : (s : BoundedSet) (v : Text) → IsBounded s → IsBounded (add s v)
unfolding add contains
add-IsBounded s v b = elim (Bool-cases (is_empty v)) [
  | inl e ↦ rw e b
  | inr e ↦ elim (Bool-cases (member v s.set)) [
    | inl m ↦ rw (e, m) b
    | inr m ↦
        rw (e, m)
          (trim-IsBounded (record s { set = s.set ++ v ∷ []; order = s.order ++ v ∷ [] }) b.positive
            (append-Distinct s.set v b.distinct m) (Covers-append s.set s.order v b.covers))
  ]
]

pub consume-IsBounded : (s : BoundedSet) (v : Text) → IsBounded s → IsBounded (consume s v).0
unfolding consume
consume-IsBounded s v b = elim (Bool-cases (contains s v)) [
  | inl e ↦ rw e (record {
    positive = b.positive;
    within = omega (arith, length-delete-le v s.set);
    distinct = delete-Distinct v s.set b.distinct;
    covers = λ w m. b.covers w (ground (arith, member-delete v w s.set));
  })
  | inr e ↦ rw e b
]

pub data Op : Type 0 where
  adds consumes : Text → Op

abbrev pub step : BoundedSet → Op → BoundedSet
step s (adds v) = add s v
step s (consumes v) = (consume s v).0

abbrev pub run : BoundedSet → List Op → BoundedSet
run s [] = s
run s (o ∷ os) = run (step s o) os

pub new-IsBounded : (limit : ℤ) → IsBounded (new_bounded_set limit)
unfolding new_bounded_set member
new-IsBounded (pos n) = record {
  positive = ground arith;
  within = ground arith;
  distinct = tt;
  covers = λ w m. cc;
}
new-IsBounded (negsuc n) = record {
  positive = omega arith;
  within = omega arith;
  distinct = tt;
  covers = λ w m. cc;
}

run_keeps : (s : BoundedSet) (os : List Op) → IsBounded s → IsBounded (run s os)
run_keeps s [] b = b
run_keeps s (adds v ∷ os) b = run_keeps (add s v) os (add-IsBounded s v b)
run_keeps s (consumes v ∷ os) b = run_keeps (consume s v).0 os (consume-IsBounded s v b)

-- Whatever limit a set is made with, after any additions and consumptions it holds at most `limit`
-- values, the limit is at least 1, no value is held twice, and every value held stands in the
-- order from which values are evicted.
pub run-IsBounded : (limit : ℤ) (os : List Op) → IsBounded (run (new_bounded_set limit) os)
run-IsBounded limit os = run_keeps (new_bounded_set limit) os (new-IsBounded limit)

ltb-lt : (a b : ℕ) → ltb a b ≡ true → a < b
ltb-lt a b h = ground arith

member_self : (v : Text) → member v (v ∷ []) ≡ true
unfolding member
member_self v = ground (arith, text_eq_refl v)

-- A set without duplicates whose every key is `v` has at most one.
only_one : (v : Text) (set : List Text) → Covers set (v ∷ []) → Distinct set → length set ≤ 1
unfolding member
only_one v [] c d = omega arith
only_one v (w ∷ []) c d = omega arith
only_one v (w ∷ u ∷ set) c d = absurd (
    ground (
      arith,
      c w,
      c u,
      text_eq_refl w,
      text_eq_refl u,
      text_eq_iff v w,
      text_eq_iff v u,
      text_eq_iff u w,
    ))

kept_member :
    (o v : Text) (set os : List Text)
    → member v set ≡ true
    → member v (o ∷ os) ≡ false
    → member v (delete o set) ≡ true
unfolding member
kept_member o v set os m n = ground (arith, member-delete o v set)

later : (o v : Text) (os : List Text) → member v (o ∷ os) ≡ false → member v os ≡ false
unfolding member
later o v os n = ground arith

evict_keeps_last :
    (limit : ℕ) (v : Text) (set os : List Text)
    → 1 ≤ limit
    → member v set ≡ true
    → member v os ≡ false
    → Covers set (os ++ v ∷ [])
    → Distinct set
    → member v (evict limit set (os ++ v ∷ [])).0 ≡ true
unfolding evict
evict_keeps_last limit v set [] p m n c d = elim (Bool-cases (ltb limit (length set))) [
  | inl e ↦ absurd (omega (arith, only_one v set c d, ltb-lt limit (length set) e))
  | inr e ↦ rw e m
]
evict_keeps_last limit v set (o ∷ os) p m n c d = elim (Bool-cases (ltb limit (length set))) [
  | inl e ↦ rw e (
      evict_keeps_last limit v (delete o set) os p (kept_member o v set os m n) (later o v os n)
        (Covers-delete set (os ++ v ∷ []) o c) (delete-Distinct o set d))
  | inr e ↦ rw e m
]

-- A value of which the order holds no entry is held right after it is added.
pub contains-add_unseen :
    (s : BoundedSet) (v : Text)
    → IsBounded s
    → is_empty v ≡ false
    → member v s.order ≡ false
    → contains (add s v) v ≡ true
unfolding add contains trim
contains-add_unseen s v b e n = elim (Bool-cases (member v s.set)) [
  | inl m ↦ rw (e, m) m
  | inr m ↦
      rw (e, m)
        (evict_keeps_last s.limit v (s.set ++ v ∷ []) s.order b.positive
          (ground (arith, member-append v s.set (v ∷ []), member_self v)) n
          (Covers-append s.set s.order v b.covers) (append-Distinct s.set v b.distinct m))
]
