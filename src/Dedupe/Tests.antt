-- ===== src/Dedupe/Tests.antt =====
-- The theorems on the bounded set at concrete inputs.
use myflowhub_clipboardnode.Base.{
  ◌≡◌, refl, [], ◌∷◌, Text, codes, pos, false, replicate, if◌then◌else◌, text_eq,
}
use myflowhub_clipboardnode.Dedupe.{BoundedSet, new_bounded_set, add, consume, contains}
use myflowhub_clipboardnode.Dedupe.Bounds.{IsBounded, run, run-IsBounded, adds, consumes}
use myflowhub_clipboardnode.Dedupe.Window.{add_all, window, add_all-window}
use myflowhub_clipboardnode.Dedupe.Stale.{consume_lem, rounds, rounds-order, add_loses_value}

abbrev a : Text
a = codes "a"

abbrev b : Text
b = codes "b"

abbrev c : Text
c = codes "c"

abbrev three : BoundedSet
three = record { limit = 3; set = b ∷ []; order = b ∷ [] }

run-IsBounded_example :
    IsBounded (run (new_bounded_set (pos 1)) (adds a ∷ adds b ∷ consumes b ∷ adds b ∷ []))
run-IsBounded_example = run-IsBounded (pos 1) (adds a ∷ adds b ∷ consumes b ∷ adds b ∷ [])

add_all-window_example : add_all (new_bounded_set (pos 2)) (a ∷ b ∷ a ∷ c ∷ []) ≡ record {
  limit = 2;
  set = window 2 [] (a ∷ b ∷ a ∷ c ∷ []);
  order = window 2 [] (a ∷ b ∷ a ∷ c ∷ []);
}
add_all-window_example = add_all-window 1 (a ∷ b ∷ a ∷ c ∷ [])

consume_lem_example :
    ((consume three b).1 ≡ contains three b)
    × (contains (consume three b).0 a ≡ (if text_eq b a then false else contains three a))
consume_lem_example = consume_lem three b a

rounds-order_example :
    ((rounds 5 a (new_bounded_set (pos 1))).order ≡ replicate 5 a)
    × ((rounds 5 a (new_bounded_set (pos 1))).set ≡ [])
rounds-order_example = rounds-order 1 5 a refl

add_loses_value_example :
    contains (add (add_all (consume (add (new_bounded_set (pos 2)) a) a).0 (b ∷ c ∷ [])) a) a
    ≡ false
unfolding text_eq myflowhub_clipboardnode.Dedupe.member
add_loses_value_example = add_loses_value a b (c ∷ []) refl refl (refl, refl, (refl, refl, tt))
