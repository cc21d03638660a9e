-- ===== src/Base/Strings/Laws.antt =====
-- Equality of texts is decided by the Boolean test, and trimming is idempotent.
use Prim.Native.Nat.{ℕ}
use mathlib.Core.Path.{◌≡◌, refl, ap}
use mathlib.Core.Logic.{◌↔◌, ◌⊎◌, inl, inr}
use mathlib.Core.Bool.{Bool, true, false}
use mathlib.Core.List.{[], ◌∷◌}
use native.Mathlib.Omega.{arith}
use myflowhub_clipboardnode.Base.Tests.{if◌then◌else◌, Bool-cases}
use myflowhub_clipboardnode.Base.Strings.{
  Text, text_eq, is_space, trim_left, trim_right, trim_space, cons_trimmed,
}

pub text_eq→eq : (s t : Text) → text_eq s t ≡ true → s ≡ t
unfolding text_eq
text_eq→eq [] [] h = refl
text_eq→eq [] (y ∷ ys) h = cc
text_eq→eq (x ∷ xs) [] h = cc
text_eq→eq (x ∷ xs) (y ∷ ys) h = ground (arith, text_eq→eq xs ys)

pub text_eq_refl : (s : Text) → text_eq s s ≡ true
unfolding text_eq
text_eq_refl [] = refl
text_eq_refl (x ∷ xs) = ground (arith, text_eq_refl xs)

pub text_eq_iff : (s t : Text) → (text_eq s t ≡ true) ↔ (s ≡ t)
text_eq_iff s t = (text_eq→eq s t, λ e. rw e (text_eq_refl t))

pub text_eq-cases :
    (s t : Text) → ((text_eq s t ≡ true) × (s ≡ t)) ⊎ ((text_eq s t ≡ false) × ¬ (s ≡ t))
text_eq-cases s t = elim (Bool-cases (text_eq s t)) [
  | inl e ↦ inl (e, text_eq→eq s t e)
  | inr e ↦ inr (e, λ p. cc (text_eq_refl t, e, ap (λ u. text_eq u t) p))
]

-- Starts with no space.
abbrev starts_clean : Text → Bool
starts_clean [] = true
starts_clean (c ∷ s) = if is_space c then false else true

trim_left-starts_clean : (s : Text) → starts_clean (trim_left s) ≡ true
unfolding trim_left
trim_left-starts_clean [] = refl
trim_left-starts_clean (c ∷ s) = elim (Bool-cases (is_space c)) [
  | inl e ↦ rw (e, trim_left) (trim_left-starts_clean s)
  | inr e ↦ rw (e, trim_left) (rw e refl)
]

trim_left_of_clean : (s : Text) → starts_clean s ≡ true → trim_left s ≡ s
unfolding trim_left
trim_left_of_clean [] h = refl
trim_left_of_clean (c ∷ s) h = ground arith

cons_trimmed-starts_clean :
    (c : ℕ) (s : Text) → starts_clean (c ∷ s) ≡ true → starts_clean (cons_trimmed c s) ≡ true
unfolding cons_trimmed
cons_trimmed-starts_clean c [] h = ground arith
cons_trimmed-starts_clean c (d ∷ s) h = ground arith

trim_right-starts_clean : (s : Text) → starts_clean s ≡ true → starts_clean (trim_right s) ≡ true
unfolding trim_right
trim_right-starts_clean [] h = refl
trim_right-starts_clean (c ∷ s) h = cons_trimmed-starts_clean c (trim_right s) (ground arith)

trim_right-cons_trimmed :
    (c : ℕ) (s : Text) → trim_right s ≡ s → trim_right (cons_trimmed c s) ≡ cons_trimmed c s
unfolding trim_right cons_trimmed
trim_right-cons_trimmed c [] h = ground arith
trim_right-cons_trimmed c (d ∷ s) h = rw h

trim_right_idem : (s : Text) → trim_right (trim_right s) ≡ trim_right s
unfolding trim_right
trim_right_idem [] = refl
trim_right_idem (c ∷ s) = trim_right-cons_trimmed c (trim_right s) (trim_right_idem s)

pub trim_space_idem : (s : Text) → trim_space (trim_space s) ≡ trim_space s
unfolding trim_space
trim_space_idem s =
    rw
      (trim_left_of_clean (trim_right (trim_left s))
        (trim_right-starts_clean (trim_left s) (trim_left-starts_clean s)))
      (trim_right_idem (trim_left s))
