-- ===== src/Intelligence/Rerank/Shown.antt =====
-- What the reranker may show.
use python_fullstack.Base.{
  ℕ, ◌≤◌, ◌≡◌, refl, true, false, inl, inr, List, [], ◌∷◌, String, take, ltb, arith, Bool-cases,
}
use python_fullstack.Base.Words.{text_in}
use python_fullstack.Intelligence.Rerank.{
  RelationJudgement, claims_authority, reworded, guard_output, is_discarded, without_discarded,
  not_after, insert_judgement, sort_judgements, Catalogue, max_candidates, allowed_references,
  kept_judgements,
}

-- Cites one of the references, is sure enough, and claims no action.
pub record IsSafe (allowed : List String) (floor : ℕ) (j : RelationJudgement) : Type 0 where
  pub cites : text_in j.reference allowed ≡ true
  pub sure : floor ≤ j.confidence
  pub modest : claims_authority j.reason ≡ false

pub record IsShown (allowed : List String) (floor : ℕ) (j : RelationJudgement) : Type 0 where
  pub safe : IsSafe allowed floor j
  pub useful : is_discarded j.relation ≡ false

module _ (P : RelationJudgement → Type 0) where
  abbrev pub Each : List RelationJudgement → Type 0
  Each [] = Unit {0}
  Each (j ∷ js) = P j × Each js

abbrev First : RelationJudgement → List RelationJudgement → Type 0
First j [] = Unit {0}
First j (i ∷ is) = not_after j i ≡ true

-- Of falling confidence, and among equals from the stronger claim to the weaker
abbrev pub IsRanked : List RelationJudgement → Type 0
IsRanked [] = Unit {0}
IsRanked (j ∷ js) = First j js × IsRanked js

reworded_is_modest : (j : RelationJudgement) → claims_authority (reworded j).reason ≡ false
unfolding claims_authority
reworded_is_modest j = refl

guard_output-Each :
    (allowed : List String) (floor : ℕ) (js : List RelationJudgement)
    → Each (IsSafe allowed floor) (guard_output allowed floor js).judgements
unfolding guard_output
guard_output-Each allowed floor [] = tt
guard_output-Each allowed floor (j ∷ js) =
    let rest = guard_output-Each allowed floor js in
    elim (Bool-cases (text_in j.reference allowed)) [
      | inr e ↦ rw e rest
      | inl e ↦ elim (Bool-cases (ltb j.confidence floor)) [
        | inl low ↦ rw (e, low) rest
        | inr high ↦ elim (Bool-cases (claims_authority j.reason)) [
          | inl claims ↦
              rw (e, high, claims)
                (record { cites = e; sure = ground arith; modest = reworded_is_modest j }, rest)
          | inr none_claimed ↦
              rw (e, high, none_claimed)
                (record { cites = e; sure = ground arith; modest = none_claimed }, rest)
        ]
      ]
    ]

without_discarded-Each :
    (allowed : List String) (floor : ℕ) (js : List RelationJudgement)
    → Each (IsSafe allowed floor) js
    → Each (IsShown allowed floor) (without_discarded js)
without_discarded-Each allowed floor [] h = tt
without_discarded-Each allowed floor (j ∷ js) (h, hs) =
    elim (Bool-cases (is_discarded j.relation)) [
      | inl e ↦ rw e (without_discarded-Each allowed floor js hs)
      | inr e ↦ rw e (record { safe = h; useful = e }, without_discarded-Each allowed floor js hs)
    ]

module _ (P : RelationJudgement → Type 0) where
  insert_judgement-Each :
      (j : RelationJudgement) (js : List RelationJudgement)
      → P j
      → Each P js
      → Each P (insert_judgement j js)
  insert_judgement-Each j [] h hs = (h, tt)
  insert_judgement-Each j (i ∷ is) h (g, gs) = elim (Bool-cases (not_after j i)) [
    | inl e ↦ rw e (h, (g, gs))
    | inr e ↦ rw e (g, insert_judgement-Each j is h gs)
  ]

  sort_judgements-Each : (js : List RelationJudgement) → Each P js → Each P (sort_judgements js)
  unfolding sort_judgements
  sort_judgements-Each [] h = tt
  sort_judgements-Each (j ∷ js) (h, hs) =
      insert_judgement-Each j (sort_judgements js) h (sort_judgements-Each js hs)

insert_judgement-First :
    (i j : RelationJudgement) (js : List RelationJudgement)
    → not_after i j ≡ true
    → First i js
    → First i (insert_judgement j js)
insert_judgement-First i j [] h f = h
insert_judgement-First i j (k ∷ ks) h f = elim (Bool-cases (not_after j k)) [
  | inl e ↦ rw e h
  | inr e ↦ rw e f
]

not_after_total : (i j : RelationJudgement) → not_after j i ≡ false → not_after i j ≡ true
not_after_total i j h = ground arith

insert_judgement-IsRanked :
    (j : RelationJudgement) (js : List RelationJudgement)
    → IsRanked js
    → IsRanked (insert_judgement j js)
insert_judgement-IsRanked j [] h = (tt, tt)
insert_judgement-IsRanked j (i ∷ is) (f, h) = elim (Bool-cases (not_after j i)) [
  | inl e ↦ rw e (e, (f, h))
  | inr e ↦
      rw e
        (insert_judgement-First i j is (not_after_total i j e) f, insert_judgement-IsRanked j is h)
]

sort_judgements-IsRanked : (js : List RelationJudgement) → IsRanked (sort_judgements js)
unfolding sort_judgements
sort_judgements-IsRanked [] = tt
sort_judgements-IsRanked (j ∷ js) =
    insert_judgement-IsRanked j (sort_judgements js) (sort_judgements-IsRanked js)

-- Whatever the model answers, each judgement that is kept cites one of the first ten candidates that
-- were hydrated, has at least the floor's confidence, calls its ticket related in some way, and claims
-- no action in its reason; and they stand in the order of falling confidence, among equals from
-- duplicate over recurring to related.
pub kept_judgements-IsShown :
    (catalogue : Catalogue) (candidates : List ℕ) (floor : ℕ) (judged : List RelationJudgement)
    → Each
        (IsShown (allowed_references catalogue (take max_candidates candidates)) floor)
        (kept_judgements catalogue candidates floor judged)
      × IsRanked (kept_judgements catalogue candidates floor judged)
unfolding kept_judgements
kept_judgements-IsShown catalogue candidates floor judged =
    let allowed = allowed_references catalogue (take max_candidates candidates) in
    let safe = (guard_output allowed floor judged).judgements in
    (
      sort_judgements-Each (IsShown allowed floor) (without_discarded safe)
          (without_discarded-Each allowed floor safe (guard_output-Each allowed floor judged)),
      sort_judgements-IsRanked (without_discarded safe),
    )
