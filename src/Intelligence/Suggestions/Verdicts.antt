-- ===== src/Intelligence/Suggestions/Verdicts.antt =====
-- A human's verdict is kept, and no pair that was judged is suggested again.
use mathlib.Core.List.{append-nil}
use python_fullstack.Base.{
  Bool, false, true, not, ◌||◌, ◌&&◌, none, some, Option, ℕ, ◌+◌, ◌≡◌, refl, ap, ◌∙◌, true, false,
  ◌&&◌, inl, inr, Option, List, [], ◌∷◌, ◌++◌, String, arith, Bool-cases, if◌then◌else◌,
}
use python_fullstack.Intelligence.Suggestions.{
  AiSuggestion, Item, is_pending, is_for, without_pending, judged, created, replace_similar,
}

-- The rows that are not pending, in their order
abbrev pub verdicts : List AiSuggestion → List AiSuggestion
verdicts [] = []
verdicts (s ∷ ss) = let rest = verdicts ss in if is_pending s.status then rest else s ∷ rest

abbrev pub names_judged : ℕ → List AiSuggestion → Option ℕ → Bool
names_judged ticket table none = false
names_judged ticket table (some related) = judged ticket related table

-- A suggestion that waits for the ticket names no ticket that was judged for it.
abbrev pub is_fresh : ℕ → List AiSuggestion → AiSuggestion → Bool
is_fresh ticket table s =
    not (is_for ticket s && is_pending s.status)
    || not (names_judged ticket table s.related_ticket_id)

abbrev pub SuggestsFresh : ℕ → List AiSuggestion → List AiSuggestion → Type 0
SuggestsFresh ticket table [] = Unit {0}
SuggestsFresh ticket table (s ∷ ss) =
    (is_fresh ticket table s ≡ true) × SuggestsFresh ticket table ss

verdicts-append : (ss ts : List AiSuggestion) → verdicts (ss ++ ts) ≡ verdicts ss ++ verdicts ts
verdicts-append [] ts = refl
verdicts-append (s ∷ ss) ts = ground (arith, verdicts-append ss ts)

verdicts-without_pending :
    (ticket : ℕ) (table : List AiSuggestion)
    → verdicts (without_pending ticket table) ≡ verdicts table
verdicts-without_pending ticket [] = refl
verdicts-without_pending ticket (s ∷ ss) = ground (arith, verdicts-without_pending ticket ss)

verdicts-created :
    (id tenant ticket : ℕ) (model : Option String) (table : List AiSuggestion) (items : List Item)
    → verdicts (created id tenant ticket model table items) ≡ []
verdicts-created id tenant ticket model table [] = refl
verdicts-created id tenant ticket model table (i ∷ is) =
    ground (arith, verdicts-created (id + 1) tenant ticket model table is)

judged-without_pending :
    (ticket related : ℕ) (table : List AiSuggestion)
    → judged ticket related (without_pending ticket table) ≡ judged ticket related table
judged-without_pending ticket related [] = refl
judged-without_pending ticket related (s ∷ ss) =
    ground (arith, judged-without_pending ticket related ss)

SuggestsFresh-append :
    (ticket : ℕ) (table ss ts : List AiSuggestion)
    → SuggestsFresh ticket table ss
    → SuggestsFresh ticket table ts
    → SuggestsFresh ticket table (ss ++ ts)
SuggestsFresh-append ticket table [] ts p q = q
SuggestsFresh-append ticket table (s ∷ ss) ts (p, ps) q =
    (p, SuggestsFresh-append ticket table ss ts ps q)

without_pending-SuggestsFresh :
    (ticket : ℕ) (table left : List AiSuggestion)
    → SuggestsFresh ticket table (without_pending ticket left)
without_pending-SuggestsFresh ticket table [] = tt
without_pending-SuggestsFresh ticket table (s ∷ ss) =
    elim (Bool-cases (is_for ticket s && is_pending s.status)) [
      | inl e ↦ rw e (without_pending-SuggestsFresh ticket table ss)
      | inr e ↦ rw e (ground (arith, e), without_pending-SuggestsFresh ticket table ss)
    ]

created-SuggestsFresh :
    (id tenant ticket : ℕ) (model : Option String) (table left : List AiSuggestion)
    (items : List Item)
    → ((related : ℕ) → judged ticket related left ≡ judged ticket related table)
    → SuggestsFresh ticket table (created id tenant ticket model left items)
created-SuggestsFresh id tenant ticket model table left [] same = tt
created-SuggestsFresh id tenant ticket model table left (i ∷ is) same =
    elim (Bool-cases (judged ticket i.related_ticket_id left)) [
      | inl e ↦ rw e (created-SuggestsFresh (id + 1) tenant ticket model table left is same)
      | inr e ↦ rw e (
        ground (arith, e, same i.related_ticket_id),
        created-SuggestsFresh (id + 1) tenant ticket model table left is same,
      )
    ]

-- Storing a new run's suggestions keeps every row of the table that is not pending as it was and in
-- its order, and leaves for the ticket no pending suggestion of one that was judged for it before.
pub replace_similar_respects :
    (id tenant ticket : ℕ) (model : Option String) (items : List Item) (table : List AiSuggestion)
    → (verdicts (replace_similar id tenant ticket model items table) ≡ verdicts table)
      × SuggestsFresh ticket table (replace_similar id tenant ticket model items table)
unfolding replace_similar
replace_similar_respects id tenant ticket model items table =
    let left = without_pending ticket table in
    let new = created id tenant ticket model left items in
    (
      verdicts-append left new
          ∙ ap (λ rest. verdicts left ++ rest) (verdicts-created id tenant ticket model left items)
          ∙ append-nil (verdicts left)
          ∙ verdicts-without_pending ticket table,
      SuggestsFresh-append ticket table left new (without_pending-SuggestsFresh ticket table table)
          (created-SuggestsFresh id tenant ticket model table left items
            λ related. judged-without_pending ticket related table),
    )
