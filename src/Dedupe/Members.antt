-- ===== src/Dedupe/Members.antt =====
-- Membership after each change of the set's keys.
use myflowhub_clipboardnode.Base.Strings.Laws.{text_eq_iff}
use myflowhub_clipboardnode.Base.{
  ◌≤◌, ◌≡◌, refl, false, ◌&&◌, ◌||◌, List, [], ◌∷◌, ◌++◌, Text, text_eq, length, arith,
  if◌then◌else◌, Bool-cases,
}
use myflowhub_clipboardnode.Dedupe.{member, delete, keep_members}

abbrev pub Distinct : List Text → Type 0
Distinct [] = Unit {0}
Distinct (w ∷ ws) = (member w ws ≡ false) × Distinct ws

pub member-append : (v : Text) (s t : List Text) → member v (s ++ t) ≡ (member v s || member v t)
unfolding member
member-append v [] t = refl
member-append v (w ∷ s) t = ground (arith, member-append v s t)

pub member-delete :
    (v w : Text) (s : List Text)
    → member w (delete v s) ≡ (if text_eq v w then false else member w s)
unfolding member delete
member-delete v w [] = ground arith
member-delete v w (u ∷ s) =
    ground (arith, member-delete v w s, text_eq_iff u v, text_eq_iff u w, text_eq_iff v w)

pub member-keep_members :
    (set vs : List Text) (w : Text) → member w (keep_members set vs) ≡ (member w vs && member w set)
unfolding member keep_members
member-keep_members set [] w = refl
member-keep_members set (v ∷ vs) w =
    ground (arith, member-keep_members set vs w, text_eq_iff v w, Bool-cases (member v set))

pub length-delete-le : (v : Text) (s : List Text) → length (delete v s) ≤ length s
unfolding delete
length-delete-le v [] = omega arith
length-delete-le v (w ∷ s) = ground (arith, length-delete-le v s)

pub delete-Distinct : (v : Text) (s : List Text) → Distinct s → Distinct (delete v s)
unfolding delete
delete-Distinct v [] d = tt
delete-Distinct v (w ∷ s) d = ground (arith, delete-Distinct v s d.1, member-delete v w s)

pub append-Distinct :
    (s : List Text) (v : Text) → Distinct s → member v s ≡ false → Distinct (s ++ v ∷ [])
unfolding member
append-Distinct [] v d h = (refl, tt)
append-Distinct (w ∷ s) v d h =
    ground
      (arith, append-Distinct s v d.1, member-append w s (v ∷ []), text_eq_iff w v, text_eq_iff v w)

pub delete_absent : (v : Text) (s : List Text) → member v s ≡ false → delete v s ≡ s
unfolding member delete
delete_absent v [] h = refl
delete_absent v (w ∷ s) h = ground (arith, delete_absent v s)
