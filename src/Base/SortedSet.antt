-- ===== src/Base/SortedSet.antt =====
-- Python's `sorted(set(xs))`, for values compared by a number that tells them apart: insertion into
-- an ascending list, with its membership and its order.
use python_fullstack.Base.Tests.{ltb, ltb→lt, ◌==◌, if◌then◌else◌, Bool-cases}
use Prim.Native.Nat.{ℕ, ◌<◌}
use mathlib.Core.Path.{◌≡◌, refl, ap, ◌∙◌}
use mathlib.Core.Logic.{inl, inr}
use mathlib.Core.Bool.{Bool, false, ◌||◌}
use mathlib.Core.List.{List, [], ◌∷◌, ◌++◌}
use native.Mathlib.Omega.{arith}

above_of_tests : (a b : ℕ) → (a == b) ≡ false → ltb a b ≡ false → b < a
above_of_tests a b e g = ground arith

module _ {A : Type 0} (rank : A → ℕ) where
  pub insert : A → List A → List A
  insert a [] = a ∷ []
  insert a (b ∷ bs) =
      let rest = insert a bs in
      if rank a == rank b then b ∷ bs else if ltb (rank a) (rank b) then a ∷ b ∷ bs else b ∷ rest

  unfoldable pub sorted_set : List A → List A
  unfolding insert
  sorted_set [] = []
  sorted_set (a ∷ rest) = insert a (sorted_set rest)

  abbrev pub member : List A → A → Bool
  member [] c = false
  member (b ∷ bs) c = (rank b == rank c) || member bs c

  pub member-append : (xs ys : List A) (c : A) → member (xs ++ ys) c ≡ (member xs c || member ys c)
  member-append [] ys c = refl
  member-append (x ∷ xs) ys c = ground (arith, member-append xs ys c)

  member-insert :
      (a : A) (bs : List A) (c : A) → member (insert a bs) c ≡ ((rank a == rank c) || member bs c)
  unfolding insert
  member-insert a [] c = refl
  member-insert a (b ∷ bs) c = ground (arith, member-insert a bs c)

  pub member-sorted_set : (xs : List A) (c : A) → member (sorted_set xs) c ≡ member xs c
  unfolding sorted_set
  member-sorted_set [] c = refl
  member-sorted_set (a ∷ xs) c =
      member-insert a (sorted_set xs) c ∙ ap (λ b. (rank a == rank c) || b) (member-sorted_set xs c)

  -- Every element of the list is above the bound.
  abbrev Above : ℕ → List A → Type 0
  Above n [] = Unit {0}
  Above n (b ∷ bs) = n < rank b

  -- Strictly ascending, so without repetition.
  abbrev pub IsAscending : List A → Type 0
  IsAscending [] = Unit {0}
  IsAscending (b ∷ bs) = Above (rank b) bs × IsAscending bs

  insert-Above : (n : ℕ) (a : A) (bs : List A) → n < rank a → Above n bs → Above n (insert a bs)
  unfolding insert
  insert-Above n a [] h k = h
  insert-Above n a (b ∷ bs) h k = ground arith

  insert-IsAscending : (a : A) (bs : List A) → IsAscending bs → IsAscending (insert a bs)
  unfolding insert
  insert-IsAscending a [] h = (tt, tt)
  insert-IsAscending a (b ∷ bs) h = elim (Bool-cases (rank a == rank b)) [
    | inl e ↦ rw e h
    | inr e ↦ elim (Bool-cases (ltb (rank a) (rank b))) [
      | inl l ↦ rw (e, l) (ltb→lt _ _ l, h)
      | inr g ↦
          rw (e, g)
            (insert-Above (rank b) a bs (above_of_tests _ _ e g) h.0, insert-IsAscending a bs h.1)
    ]
  ]

  pub sorted_set-IsAscending : (xs : List A) → IsAscending (sorted_set xs)
  unfolding sorted_set
  sorted_set-IsAscending [] = tt
  sorted_set-IsAscending (a ∷ xs) = insert-IsAscending a (sorted_set xs) (sorted_set-IsAscending xs)
