-- ===== src/Dedupe.antt =====
-- The bounded string set of core/runtime/dedupe.go: a Go map used as a set, beside the order in
-- which its values were added. `Consume` deletes from the map and leaves the order alone.
pub mod Tests
pub mod Members
pub mod Bounds
pub mod Window
pub mod Stale
use myflowhub_clipboardnode.Base.{
  ℕ, ◌*◌, ◌+◌, Bool, true, false, List, [], ◌∷◌, ◌++◌, Text, text_eq, ltb, ◌&&◌, ◌||◌, is_empty, ℤ,
  pos, negsuc, leb_ℤ, length, if◌then◌else◌,
}

-- The keys of a map, each once.
unfoldable pub member : Text → List Text → Bool
member v [] = false
member v (w ∷ ws) = text_eq w v || member v ws

-- delete(set, v)
unfoldable pub delete : Text → List Text → List Text
delete v [] = []
delete v (w ∷ ws) = let rest = delete v ws in if text_eq w v then rest else w ∷ rest

pub record BoundedSet : Type 0 where
  pub limit : ℕ
  pub set : List Text
  pub order : List Text

unfoldable pub new_bounded_set : ℤ → BoundedSet
new_bounded_set (pos n) = record { limit = if ltb 0 n then n else 1; set = []; order = [] }
new_bounded_set (negsuc n) = record { limit = 1; set = []; order = [] }

unfoldable pub contains : BoundedSet → Text → Bool
unfolding member
contains s v = member v s.set

-- `for len(s.set) > s.limit && len(s.order) > 0`: the set and the order that are left.
unfoldable pub evict : ℕ → List Text → List Text → List Text × List Text
unfolding delete
evict limit set [] = (set, [])
evict limit set (oldest ∷ order) =
    let rest = evict limit (delete oldest set) order in
    if ltb limit (length set) then rest else (set, oldest ∷ order)

-- The values of the order that are still in the set.
unfoldable pub keep_members : List Text → List Text → List Text
unfolding member
keep_members set [] = []
keep_members set (v ∷ vs) =
    let rest = keep_members set vs in if member v set then v ∷ rest else rest

compact : ℕ → List Text × List Text → List Text
unfolding keep_members
compact limit (set, order) =
    if ltb (limit * 2) (length order) then keep_members set order else order

unfoldable pub trim : BoundedSet → BoundedSet
unfolding evict compact
trim s =
    let left = evict s.limit s.set s.order in
    record { limit = s.limit; set = left.0; order = compact s.limit left }

unfoldable pub add : BoundedSet → Text → BoundedSet
unfolding contains trim
add s v =
    if is_empty v
    then s
    else if contains s v
    then s
    else trim (record s { set = s.set ++ v ∷ []; order = s.order ++ v ∷ [] })

unfoldable pub consume : BoundedSet → Text → BoundedSet × Bool
unfolding contains delete
consume s v = if contains s v then (record s { set = delete v s.set }, true) else (s, false)
