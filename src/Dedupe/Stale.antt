-- ===== src/Dedupe/Stale.antt =====
-- What the entries do that `Consume` leaves behind in the order.
use mathlib.Core.List.{append_assoc, append-nil}
use myflowhub_clipboardnode.Base.{
  ℕ, zero, suc, ◌≤◌, ◌<◌, ◌+◌, ◌≡◌, refl, ap, ◌∙◌, false, List, [], ◌∷◌, ◌++◌, Text, text_eq,
  length, arith, if◌then◌else◌, Bool-cases, is_empty, pos, length-append, replicate,
}
use myflowhub_clipboardnode.Base.Strings.Laws.{text_eq_iff, text_eq_refl}
use myflowhub_clipboardnode.Dedupe.{
  member, delete, keep_members, BoundedSet, new_bounded_set, contains, evict, compact, trim, add,
  consume,
}
use myflowhub_clipboardnode.Dedupe.Members.{member-delete}
use myflowhub_clipboardnode.Dedupe.Window.{add_all}

-- `Consume` reports whether the value was held, removes it, and keeps every other value.
pub consume_lem :
    (s : BoundedSet) (v w : Text)
    → ((consume s v).1 ≡ contains s v)
      × (contains (consume s v).0 w ≡ (if text_eq v w then false else contains s w))
unfolding consume contains
consume_lem s v w =
    ground (arith, member-delete v w s.set, text_eq_iff v w, Bool-cases (member v s.set))

-- One value added and consumed `k` times.
abbrev pub rounds : ℕ → Text → BoundedSet → BoundedSet
rounds zero v s = s
rounds (suc k) v s = (consume (add (rounds k v s) v) v).0

keep_members-replicate : (k : ℕ) (v : Text) → keep_members (v ∷ []) (replicate k v) ≡ replicate k v
unfolding keep_members member
keep_members-replicate zero v = refl
keep_members-replicate (suc k) v = ground (arith, keep_members-replicate k v, text_eq_refl v)

replicate-append : (k : ℕ) (v : Text) → replicate k v ++ v ∷ [] ≡ v ∷ replicate k v
replicate-append zero v = refl
replicate-append (suc k) v = ap (◌∷◌ v) (replicate-append k v)

abbrev emptied : ℕ → ℕ → Text → BoundedSet
emptied limit k v = record { limit = limit; set = []; order = replicate k v }

one_round :
    (limit k : ℕ) (v : Text)
    → 1 ≤ limit
    → is_empty v ≡ false
    → (consume (add (emptied limit k v) v) v).0 ≡ emptied limit (suc k) v
unfolding consume add trim evict compact contains delete member
one_round limit k v p e =
    rw (e, replicate-append k v) (ground (arith, keep_members-replicate (suc k) v, text_eq_refl v))

rounds_lem :
    (limit k : ℕ) (v : Text)
    → 1 ≤ limit
    → is_empty v ≡ false
    → rounds k v (emptied limit 0 v) ≡ emptied limit k v
rounds_lem limit zero v p e = refl
rounds_lem limit (suc k) v p e =
    ap (λ s. (consume (add s v) v).0) (rounds_lem limit k v p e) ∙ one_round limit k v p e

new_emptied : (limit : ℕ) (v : Text) → (n : ℕ) × (new_bounded_set (pos limit) ≡ emptied (suc n) 0 v)
unfolding new_bounded_set
new_emptied zero v = (0, refl)
new_emptied (suc n) v = (n, ground arith)

-- Whatever the limit, a non-empty value added and consumed k times leaves k entries in the order,
-- while the set is empty: the order grows without bound, since compaction runs while the value is
-- held and keeps each of its entries.
pub rounds-order :
    (limit k : ℕ) (v : Text)
    → is_empty v ≡ false
    → ((rounds k v (new_bounded_set (pos limit))).order ≡ replicate k v)
      × ((rounds k v (new_bounded_set (pos limit))).set ≡ [])
rounds-order limit k v e =
    let (n, made) = new_emptied limit v in
    let all = ap (rounds k v) made ∙ rounds_lem (suc n) k v (omega arith) e in
    (ap (λ s. s.order) all, ap (λ s. s.set) all)

-- A stale entry of `v` before the values that were added since.
abbrev behind : ℕ → Text → List Text → BoundedSet
behind limit v xs = record { limit = limit; set = xs; order = v ∷ xs }

add-behind :
    (limit : ℕ) (v y : Text) (xs : List Text)
    → length xs < limit
    → is_empty y ≡ false
    → member y xs ≡ false
    → add (behind limit v xs) y ≡ behind limit v (xs ++ y ∷ [])
unfolding add trim evict compact contains
add-behind limit v y xs h e m = rw (e, m) (ground (arith, length-append xs (y ∷ [])))

-- Each value is non-empty and new.
abbrev pub AllNew : List Text → List Text → Type 0
AllNew xs [] = Unit {0}
AllNew xs (y ∷ ys) = (is_empty y ≡ false) × (member y xs ≡ false) × AllNew (xs ++ y ∷ []) ys

add_all-behind :
    (limit : ℕ) (v : Text) (xs ys : List Text)
    → length xs + length ys ≤ limit
    → AllNew xs ys
    → add_all (behind limit v xs) ys ≡ behind limit v (xs ++ ys)
add_all-behind limit v xs [] h a = rw append-nil refl
add_all-behind limit v xs (y ∷ ys) h a = rw (add-behind limit v y xs (omega arith) a.0 a.1) (
    rw
      (
        add_all-behind limit v (xs ++ y ∷ []) ys (omega (arith, length-append xs (y ∷ []))) a.2,
        append_assoc,
      )
      refl)

delete-append_last :
    (v : Text) (xs : List Text) → member v xs ≡ false → delete v (xs ++ v ∷ []) ≡ xs
unfolding member delete
delete-append_last v [] m = ground (arith, text_eq_refl v)
delete-append_last v (x ∷ xs) m = ground (arith, delete-append_last v xs)

add_again :
    (v : Text) (y : Text) (ys : List Text)
    → is_empty v ≡ false
    → member v (y ∷ ys) ≡ false
    → contains (add (behind (suc (length ys)) v (y ∷ ys)) v) v ≡ false
unfolding add trim evict contains compact
add_again v y ys e m =
    rw (e, m)
      (rw (delete-append_last v (y ∷ ys) m)
        (ground (arith, length-append ys (v ∷ []), delete-append_last v (y ∷ ys) m)))

stale :
    (limit : ℕ) (v : Text)
    → is_empty v ≡ false
    → (consume (add (new_bounded_set (pos (suc limit))) v) v).0 ≡ behind (suc limit) v []
unfolding new_bounded_set consume add trim evict compact contains delete member
stale limit v e = ground (arith, text_eq_refl v)

-- A value that was added and consumed, then as many new values as the limit allows, then the value
-- again: the set does not hold the value that was just added, since its stale entry is the oldest.
pub add_loses_value :
    (v y : Text) (ys : List Text)
    → is_empty v ≡ false
    → member v (y ∷ ys) ≡ false
    → AllNew [] (y ∷ ys)
    → contains
        (add (add_all (consume (add (new_bounded_set (pos (length (y ∷ ys)))) v) v).0 (y ∷ ys)) v)
        v
      ≡ false
add_loses_value v y ys e m a =
    rw (stale (length ys) v e, add_all-behind (suc (length ys)) v [] (y ∷ ys) (omega arith) a)
      (add_again v y ys e m)
