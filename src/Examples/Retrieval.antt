-- ===== src/Examples/Retrieval.antt =====
-- Three rankings of a query, with one pinned ticket.
use python_fullstack.Base.{ℕ, ◌≡◌, refl, true, none, List, [], ◌∷◌, ◌++◌, contains}
use python_fullstack.Retrieval.Fusion.{semantic, lexical, RankedList, by_source, cascade}
use python_fullstack.Retrieval.Fusion.Gather.{AllDistinct, without}
use python_fullstack.Retrieval.Fusion.Cascade.{
  tickets, cascade_leads, cascade_distinct, cascade_covers,
}

abbrev rankings : List RankedList
rankings =
    record { source = lexical; ticket_ids = 4 ∷ 2 ∷ 9 ∷ [] }
    ∷ record { source = semantic; ticket_ids = 1 ∷ 2 ∷ 3 ∷ [] }
    ∷ []

order : tickets (cascade rankings semantic 60 none (9 ∷ [])) ≡ 9 ∷ 1 ∷ 2 ∷ 3 ∷ 4 ∷ []
unfolding cascade
order = refl

cascade_leads_example :
    (rest : List ℕ) × (tickets (cascade rankings semantic 60 none (9 ∷ []))
      ≡ (9 ∷ []) ++ (without (9 ∷ []) (1 ∷ 2 ∷ 3 ∷ []) ++ rest))
unfolding by_source
cascade_leads_example =
    cascade_leads rankings semantic 60 (9 ∷ []) (1 ∷ 2 ∷ 3 ∷ []) refl (refl, (refl, (refl, tt)))

cascade_distinct_example : AllDistinct (tickets (cascade rankings semantic 60 none (9 ∷ [])))
cascade_distinct_example = cascade_distinct rankings semantic 60 (9 ∷ []) (refl, tt)

cascade_covers_example : contains (tickets (cascade rankings semantic 60 none (9 ∷ []))) 4 ≡ true
unfolding by_source
cascade_covers_example =
    cascade_covers rankings semantic lexical 60 (9 ∷ []) (4 ∷ 2 ∷ 9 ∷ []) 4 refl refl

abbrev hits : List (ℕ × ℕ)
hits = (7, 10) ∷ (8, 30) ∷ (7, 20) ∷ []
