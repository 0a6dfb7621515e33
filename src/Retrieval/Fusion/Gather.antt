-- ===== src/Retrieval/Fusion/Gather.antt =====
-- What the appending loop of fusion.py returns: every id once, in the order of its first occurrence.
use python_fullstack.Base.{
  ℕ, ◌≡◌, refl, ap, ◌∙◌, true, false, not, ◌&&◌, ◌||◌, List, [], ◌∷◌, ◌++◌, ◌==◌, arith, contains,
  Bool-cases, inl, inr, if◌then◌else◌, ==_iff,
}
use python_fullstack.Retrieval.Fusion.{gather}

abbrev pub AllDistinct : List ℕ → Type 0
AllDistinct [] = Unit {0}
AllDistinct (x ∷ xs) = (contains xs x ≡ false) × AllDistinct xs

-- The ids that are not among the seen ones.
abbrev pub without : List ℕ → List ℕ → List ℕ
without seen [] = []
without seen (x ∷ xs) = if contains seen x then without seen xs else x ∷ without seen xs

pub contains-append :
    (xs ys : List ℕ) (a : ℕ) → contains (xs ++ ys) a ≡ (contains xs a || contains ys a)
contains-append [] ys a = refl
contains-append (x ∷ xs) ys a = ground (arith, contains-append xs ys a)

contains_eq : (xs : List ℕ) (a b : ℕ) → (a == b) ≡ true → contains xs a ≡ contains xs b
contains_eq xs a b h = ap (contains xs) ((==_iff a b).0 h)

pub contains-gather :
    (seen xs : List ℕ) (a : ℕ)
    → contains (gather seen xs) a ≡ (contains xs a && not (contains seen a))
unfolding gather
contains-gather seen [] a = refl
contains-gather seen (x ∷ xs) a = elim (Bool-cases (contains seen x)) [
  | inl e ↦ rw e (ground (arith, contains-gather seen xs a, contains_eq seen x a))
  | inr e ↦ rw e (ground (arith, contains-gather (x ∷ seen) xs a, contains_eq seen x a))
]

pub gather-AllDistinct : (seen xs : List ℕ) → AllDistinct (gather seen xs)
unfolding gather
gather-AllDistinct seen [] = tt
gather-AllDistinct seen (x ∷ xs) = elim (Bool-cases (contains seen x)) [
  | inl e ↦ rw e (gather-AllDistinct seen xs)
  | inr e ↦ rw e (ground (arith, contains-gather (x ∷ seen) xs x), gather-AllDistinct (x ∷ seen) xs)
]

-- An id that the list lacks changes nothing among the seen ones.
without-lacking :
    (x : ℕ) (seen xs : List ℕ) → contains xs x ≡ false → without (x ∷ seen) xs ≡ without seen xs
without-lacking x seen [] h = refl
without-lacking x seen (y ∷ ys) h = ground (arith, without-lacking x seen ys)

-- A list without repetition comes first, in its order, without the ids already seen.
pub gather-append :
    (seen xs ys : List ℕ)
    → AllDistinct xs
    → (rest : List ℕ) × (gather seen (xs ++ ys) ≡ without seen xs ++ rest)
unfolding gather
gather-append seen [] ys h = (gather seen ys, refl)
gather-append seen (x ∷ xs) ys h = elim (Bool-cases (contains seen x)) [
  | inl e ↦ rw e (gather-append seen xs ys h.1)
  | inr e ↦
      let (rest, found) = gather-append (x ∷ seen) xs ys h.1 in
      rw e (rest, ap (λ zs. x ∷ zs) (found ∙ ap (λ zs. zs ++ rest) (without-lacking x seen xs h.0)))
]
