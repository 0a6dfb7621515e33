-- ===== src/Retrieval/Fusion.antt =====
-- backend/app/modules/intelligence/retrieval/fusion.py, the shipped path: `rank_only`,
-- `cascade_leader` and `cascade`, with the records of schemas/types.py. A score of the cascade is
-- 1.0 or 1.0 / (k + position), and is kept as its denominator; the scores of a retriever are of any
-- type that is compared.
pub mod Gather
pub mod Cascade
pub mod Ranking
use python_fullstack.Base.{
  ℕ, suc, ◌+◌, Bool, true, false, not, ◌||◌, Option, none, some, List, [], ◌∷◌, ◌++◌, ◌==◌, length,
  take, contains, if◌then◌else◌,
}
use python_fullstack.Base.SortedSet.{sorted_set}

pub data RetrievalSource : Type 0 where
  semantic lexical reference : RetrievalSource

-- The order of the names "lexical", "reference", "semantic".
abbrev pub name_rank : RetrievalSource → ℕ
name_rank lexical = 0
name_rank reference = 1
name_rank semantic = 2

abbrev pub same_source : RetrievalSource → RetrievalSource → Bool
same_source s t = name_rank s == name_rank t

pub record RankedList : Type 0 where
  pub source : RetrievalSource
  pub ticket_ids : List ℕ

abbrev pub Ranks : Type 0
Ranks = List (RetrievalSource × ℕ)

pub record FusedCandidate : Type 0 where
  pub ticket_id : ℕ
  pub score : ℕ
  pub ranks : Ranks

-- `FusedCandidate.agreed`
abbrev pub agreed : FusedCandidate → Bool
agreed c = elim c.ranks [ [] ↦ false | r ∷ rest ↦ elim rest [ [] ↦ false | q ∷ more ↦ true ] ]

-- `ranks.setdefault(ticket_id, {})[source] = position`, for one ticket
unfoldable pub set_rank : RetrievalSource → ℕ → Ranks → Ranks
set_rank s n [] = (s, n) ∷ []
set_rank s n ((t, m) ∷ rest) =
    let others = set_rank s n rest in if same_source t s then (t, n) ∷ rest else (t, m) ∷ others

unfoldable pub rank_positions : ℕ → RetrievalSource → ℕ → List ℕ → Ranks → Ranks
unfolding set_rank
rank_positions id s n [] ranks = ranks
rank_positions id s n (x ∷ xs) ranks =
    rank_positions id s (n + 1) xs (if x == id then set_rank s n ranks else ranks)

unfoldable pub ranks_of : ℕ → List RankedList → Ranks → Ranks
unfolding rank_positions
ranks_of id [] ranks = ranks
ranks_of id (r ∷ rs) ranks = ranks_of id rs (rank_positions id r.source 1 r.ticket_ids ranks)

-- `by_source.get(source)`: the last list of a source
abbrev later : Option (List ℕ) → Option (List ℕ) → Option (List ℕ)
later (some xs) earlier = some xs
later none earlier = earlier

unfoldable pub by_source : RetrievalSource → List RankedList → Option (List ℕ)
by_source s [] = none
by_source s (r ∷ rs) =
    later (by_source s rs) (if same_source r.source s then some r.ticket_ids else none)

unfoldable pub other_sources : RetrievalSource → List RankedList → List RetrievalSource
other_sources leader [] = []
other_sources leader (r ∷ rs) =
    let rest = other_sources leader rs in
    if same_source r.source leader then rest else r.source ∷ rest

unfoldable pub lead_first : RetrievalSource → List RankedList → List RetrievalSource
unfolding sorted_set other_sources
lead_first leader rankings = leader ∷ sorted_set name_rank (other_sources leader rankings)

-- `if contribution is None: continue`
abbrev pub or_empty : Option (List ℕ) → List ℕ
or_empty none = []
or_empty (some xs) = xs

unfoldable pub contributions : List RetrievalSource → List RankedList → List ℕ
unfolding by_source
contributions [] rankings = []
contributions (s ∷ ss) rankings = or_empty (by_source s rankings) ++ contributions ss rankings

-- The loop over the contributions: an id that was not seen is appended and remembered.
unfoldable pub gather : List ℕ → List ℕ → List ℕ
gather seen [] = []
gather seen (x ∷ xs) =
    let rest = gather (if contains seen x then seen else x ∷ seen) xs in
    if contains seen x then rest else x ∷ rest

abbrev pub ordered : List RankedList → RetrievalSource → List ℕ → List ℕ
ordered rankings leader pinned = gather pinned (contributions (lead_first leader rankings) rankings)

-- `ranks` of a candidate, after the loop over `pinned`
abbrev pub final_ranks : List RankedList → List ℕ → ℕ → Ranks
final_ranks rankings pinned id =
    let ranks = ranks_of id rankings [] in
    if contains pinned id then set_rank reference 1 ranks else ranks

unfoldable pub pinned_candidates : List RankedList → List ℕ → List ℕ → List FusedCandidate
unfolding ranks_of set_rank
pinned_candidates rankings pinned [] = []
pinned_candidates rankings pinned (x ∷ xs) =
    record { ticket_id = x; score = 1; ranks = final_ranks rankings pinned x }
    ∷ pinned_candidates rankings pinned xs

unfoldable pub ranked_candidates : List RankedList → List ℕ → ℕ → ℕ → List ℕ → List FusedCandidate
unfolding ranks_of set_rank
ranked_candidates rankings pinned k n [] = []
ranked_candidates rankings pinned k n (x ∷ xs) =
    record { ticket_id = x; score = k + n; ranks = final_ranks rankings pinned x }
    ∷ ranked_candidates rankings pinned k (n + 1) xs

abbrev pub limited : Option ℕ → List FusedCandidate → List FusedCandidate
limited none out = out
limited (some n) out = take n out

unfoldable pub cascade :
    List RankedList → RetrievalSource → ℕ → Option ℕ → List ℕ → List FusedCandidate
unfolding gather contributions lead_first pinned_candidates ranked_candidates
cascade rankings leader k limit pinned = limited limit (
    pinned_candidates rankings pinned pinned
    ++ ranked_candidates rankings pinned k 1 (ordered rankings leader pinned))

unfoldable pub ran : RetrievalSource → List RankedList → Bool
ran s [] = false
ran s (r ∷ rs) = same_source r.source s || ran s rs

unfoldable pub cascade_leader : List RankedList → RetrievalSource
unfolding ran
cascade_leader rankings = if ran semantic rankings then semantic else lexical

-- `rank_only`: a stable sort by descending score, and the first occurrence of each id
module _ {Score : Type 0} (at_least : Score → Score → Bool) where
  unfoldable pub insert_hit : ℕ → Score → List (ℕ × Score) → List (ℕ × Score)
  insert_hit x v [] = (x, v) ∷ []
  insert_hit x v ((y, w) ∷ rest) =
      let below = insert_hit x v rest in
      if at_least v w then (x, v) ∷ (y, w) ∷ rest else (y, w) ∷ below

  unfoldable pub by_score : List (ℕ × Score) → List (ℕ × Score)
  unfolding insert_hit
  by_score [] = []
  by_score ((x, v) ∷ hits) = insert_hit x v (by_score hits)

abbrev pub ids_of : {S : Type 0} → List (ℕ × S) → List ℕ
ids_of [] = []
ids_of ((x, v) ∷ rest) = x ∷ ids_of rest

unfoldable pub rank_only :
    {S : Type 0} → (S → S → Bool) → List (ℕ × S) → RetrievalSource → RankedList
unfolding gather by_score
rank_only at_least hits source = record {
  source = source;
  ticket_ids = gather [] (ids_of (by_score at_least hits));
}
