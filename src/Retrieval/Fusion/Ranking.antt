-- ===== src/Retrieval/Fusion/Ranking.antt =====
-- `rank_only`: a retriever's hits as a ranked list.
use python_fullstack.Base.{ℕ, ◌≡◌, refl, ◌∙◌, Bool, ◌||◌, List, [], ◌∷◌, ◌==◌, arith, contains}
use python_fullstack.Retrieval.Fusion.{RetrievalSource, insert_hit, by_score, ids_of, rank_only}
use python_fullstack.Retrieval.Fusion.Gather.{AllDistinct, contains-gather, gather-AllDistinct}

module _ {S : Type 0} (at_least : S → S → Bool) where
  contains-insert_hit :
      (x : ℕ) (v : S) (hits : List (ℕ × S)) (a : ℕ)
      → contains (ids_of (insert_hit at_least x v hits)) a ≡ ((x == a) || contains (ids_of hits) a)
  unfolding insert_hit
  contains-insert_hit x v [] a = refl
  contains-insert_hit x v ((y, w) ∷ hits) a = ground (arith, contains-insert_hit x v hits a)

  contains-by_score :
      (hits : List (ℕ × S)) (a : ℕ)
      → contains (ids_of (by_score at_least hits)) a ≡ contains (ids_of hits) a
  unfolding by_score
  contains-by_score [] a = refl
  contains-by_score ((x, v) ∷ hits) a =
      contains-insert_hit x v (by_score at_least hits) a ∙ rw (contains-by_score hits a) refl

-- Every ranked list that `rank_only` builds is one that `RankedList` accepts: no id stands in it
-- twice. Its ids are those of the hits.
pub rank_only_lem :
    {S : Type 0} (at_least : S → S → Bool) (hits : List (ℕ × S)) (s : RetrievalSource)
    → AllDistinct (rank_only at_least hits s).ticket_ids
      × ((a : ℕ) → contains (rank_only at_least hits s).ticket_ids a ≡ contains (ids_of hits) a)
unfolding rank_only
rank_only_lem at_least hits s = (
  gather-AllDistinct [] (ids_of (by_score at_least hits)),
  λ a. ground (
    arith,
    contains-gather [] (ids_of (by_score at_least hits)) a,
    contains-by_score at_least hits a,
  ),
)
