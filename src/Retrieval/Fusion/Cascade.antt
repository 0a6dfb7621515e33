-- ===== src/Retrieval/Fusion/Cascade.antt =====
-- What `cascade` guarantees.
use python_fullstack.Base.{
  ℕ, zero, suc, take, ◌+◌, ◌≤◌, ◌≡◌, refl, ap, ◌∙◌, true, false, Option, none, some, List, [], ◌∷◌,
  ◌++◌, arith, contains, Bool-cases, inl, inr,
}
use python_fullstack.Base.SortedSet.{sorted_set, member, member-sorted_set}
use python_fullstack.Retrieval.Fusion.{
  RetrievalSource, name_rank, same_source, RankedList, FusedCandidate, by_source, other_sources,
  lead_first, or_empty, contributions, gather, ordered, pinned_candidates, ranked_candidates,
  cascade,
}
use python_fullstack.Retrieval.Fusion.Gather.{
  AllDistinct, without, contains-append, contains-gather, gather-AllDistinct, gather-append,
}

abbrev pub tickets : List FusedCandidate → List ℕ
tickets [] = []
tickets (c ∷ cs) = c.ticket_id ∷ tickets cs

tickets-append : (xs ys : List FusedCandidate) → tickets (xs ++ ys) ≡ tickets xs ++ tickets ys
tickets-append [] ys = refl
tickets-append (x ∷ xs) ys = ap (λ zs. x.ticket_id ∷ zs) (tickets-append xs ys)

tickets-pinned :
    (rs : List RankedList) (pinned xs : List ℕ) → tickets (pinned_candidates rs pinned xs) ≡ xs
unfolding pinned_candidates
tickets-pinned rs pinned [] = refl
tickets-pinned rs pinned (x ∷ xs) = ap (λ zs. x ∷ zs) (tickets-pinned rs pinned xs)

tickets-ranked :
    (rs : List RankedList) (pinned : List ℕ) (k n : ℕ) (xs : List ℕ)
    → tickets (ranked_candidates rs pinned k n xs) ≡ xs
unfolding ranked_candidates
tickets-ranked rs pinned k n [] = refl
tickets-ranked rs pinned k n (x ∷ xs) = ap (λ zs. x ∷ zs) (tickets-ranked rs pinned k (n + 1) xs)

-- The ids of the whole result: the pinned ones, then the ordered ones.
pub tickets-cascade :
    (rs : List RankedList) (leader : RetrievalSource) (k : ℕ) (pinned : List ℕ)
    → tickets (cascade rs leader k none pinned) ≡ pinned ++ ordered rs leader pinned
unfolding cascade
tickets-cascade rs leader k pinned =
    tickets-append (pinned_candidates rs pinned pinned) _
    ∙ rw (tickets-pinned rs pinned pinned, tickets-ranked rs pinned k 1 (ordered rs leader pinned))
        refl

contributions-lead_first :
    (leader : RetrievalSource) (rs : List RankedList) {lead : List ℕ}
    → by_source leader rs ≡ some lead
    → contributions (lead_first leader rs) rs
      ≡ lead ++ contributions (sorted_set name_rank (other_sources leader rs)) rs
unfolding contributions lead_first
contributions-lead_first leader rs h = rw h refl

-- Without a limit, after the pinned ids the result begins with the whole list of the leader, in the leader's order,
-- without the pinned ids, provided that the leader returned no id twice.
pub cascade_leads :
    (rs : List RankedList) (leader : RetrievalSource) (k : ℕ) (pinned lead : List ℕ)
    → by_source leader rs ≡ some lead
    → AllDistinct lead
    → (rest : List ℕ) × (tickets (cascade rs leader k none pinned)
        ≡ pinned ++ (without pinned lead ++ rest))
cascade_leads rs leader k pinned lead found distinct =
    let others = contributions (sorted_set name_rank (other_sources leader rs)) rs in
    let (rest, split) = gather-append pinned lead others distinct in
    (
      rest,
      tickets-cascade rs leader k pinned
          ∙ ap (λ zs. pinned ++ zs)
              (ap (gather pinned) (contributions-lead_first leader rs found) ∙ split),
    )

self_apart : (x : ℕ) (xs : List ℕ) → contains (x ∷ xs) x ≡ false → ⊥
self_apart x xs h = ground arith

later_apart : (x : ℕ) (xs : List ℕ) (a : ℕ) → contains (x ∷ xs) a ≡ false → contains xs a ≡ false
later_apart x xs a h = ground arith

gathered_apart :
    (seen xs : List ℕ) (a : ℕ) → contains (gather seen xs) a ≡ true → contains seen a ≡ false
gathered_apart seen xs a h = ground (arith, contains-gather seen xs a)

distinct-append :
    (xs ys : List ℕ)
    → AllDistinct xs
    → AllDistinct ys
    → ((a : ℕ) → contains ys a ≡ true → contains xs a ≡ false)
    → AllDistinct (xs ++ ys)
distinct-append [] ys hx hy apart = hy
distinct-append (x ∷ xs) ys hx hy apart = (
  elim (Bool-cases (contains ys x)) [
    | inl e ↦ absurd (self_apart x xs (apart x e))
    | inr e ↦ rw (contains-append xs ys x, hx.0) e
  ],
  distinct-append xs ys hx.1 hy (λ a e. later_apart x xs a (apart a e)),
)

-- Without a limit nothing is returned twice, provided that no id is pinned twice.
pub cascade_distinct :
    (rs : List RankedList) (leader : RetrievalSource) (k : ℕ) (pinned : List ℕ)
    → AllDistinct pinned
    → AllDistinct (tickets (cascade rs leader k none pinned))
cascade_distinct rs leader k pinned h =
    rw (tickets-cascade rs leader k pinned)
      (distinct-append pinned _ h (gather-AllDistinct pinned _) (gathered_apart pinned _))

source_of_name : (s t : RetrievalSource) → same_source s t ≡ true → s ≡ t
source_of_name s t h = ground arith

by_source-other :
    (leader s : RetrievalSource) (rs : List RankedList) {xs : List ℕ}
    → same_source s leader ≡ false
    → by_source s rs ≡ some xs
    → member name_rank (other_sources leader rs) s ≡ true
unfolding by_source other_sources
by_source-other leader s [] apart h = cc
by_source-other leader s (r ∷ rs) {xs} apart h =
    ground (arith, by_source-other leader s rs {xs = xs}, source_of_name r.source s)

contributions-member :
    (ss : List RetrievalSource) (rs : List RankedList) (s : RetrievalSource) (xs : List ℕ) (a : ℕ)
    → member name_rank ss s ≡ true
    → by_source s rs ≡ some xs
    → contains xs a ≡ true
    → contains (contributions ss rs) a ≡ true
unfolding contributions
contributions-member [] rs s xs a m h k = cc
contributions-member (t ∷ ts) rs s xs a m h k =
    rw (contains-append (or_empty (by_source t rs)) (contributions ts rs) a)
      (elim (Bool-cases (same_source t s)) [
        | inl e ↦ rw (source_of_name t s e, h, k) refl
        | inr e ↦
            let below : contains (contributions ts rs) a ≡ true =
              contributions-member ts rs s xs a (rw e at m) h k in
            ground arith
      ])

lead_first-member :
    (leader s : RetrievalSource) (rs : List RankedList) {xs : List ℕ}
    → by_source s rs ≡ some xs
    → member name_rank (lead_first leader rs) s ≡ true
unfolding lead_first
lead_first-member leader s rs h = elim (Bool-cases (same_source s leader)) [
  | inl e ↦ ground (arith, e)
  | inr e ↦
      let other = by_source-other leader s rs e h in
      ground (arith, member-sorted_set name_rank (other_sources leader rs) s, other)
]

-- Whatever a retriever returned is in the result without a limit, however the others ranked.
pub cascade_covers :
    (rs : List RankedList) (leader s : RetrievalSource) (k : ℕ) (pinned xs : List ℕ) (a : ℕ)
    → by_source s rs ≡ some xs
    → contains xs a ≡ true
    → contains (tickets (cascade rs leader k none pinned)) a ≡ true
cascade_covers rs leader s k pinned xs a found has =
    rw (tickets-cascade rs leader k pinned, contains-append pinned (ordered rs leader pinned) a)
      (ground (arith, contains-gather pinned (contributions (lead_first leader rs) rs) a, there))
  where
    there : contains (contributions (lead_first leader rs) rs) a ≡ true
    there =
        contributions-member (lead_first leader rs) rs s xs a (lead_first-member leader s rs found)
          found has

-- Scores never rise along the result: their denominators never fall.
abbrev pub ScoresFall : ℕ → List FusedCandidate → Type 0
ScoresFall d [] = Unit {0}
ScoresFall d (c ∷ cs) = (d ≤ c.score) × ScoresFall c.score cs

ranked-ScoresFall :
    (rs : List RankedList) (pinned : List ℕ) (k n d : ℕ) (xs : List ℕ)
    → d ≤ k + n
    → ScoresFall d (ranked_candidates rs pinned k n xs)
unfolding ranked_candidates
ranked-ScoresFall rs pinned k n d [] h = tt
ranked-ScoresFall rs pinned k n d (x ∷ xs) h =
    (h, ranked-ScoresFall rs pinned k (n + 1) (k + n) xs (omega arith))

all-ScoresFall :
    (rs : List RankedList) (pinned : List ℕ) (k : ℕ) (xs ys : List ℕ)
    → ScoresFall 1 (pinned_candidates rs pinned xs ++ ranked_candidates rs pinned k 1 ys)
unfolding pinned_candidates
all-ScoresFall rs pinned k [] ys = ranked-ScoresFall rs pinned k 1 1 ys (omega arith)
all-ScoresFall rs pinned k (x ∷ xs) ys = (omega arith, all-ScoresFall rs pinned k xs ys)

take-ScoresFall : (n d : ℕ) (cs : List FusedCandidate) → ScoresFall d cs → ScoresFall d (take n cs)
take-ScoresFall zero d cs h = tt
take-ScoresFall (suc n) d [] h = tt
take-ScoresFall (suc n) d (c ∷ cs) h = (h.0, take-ScoresFall n c.score cs h.1)

-- The score never rises from one candidate to the next, and none is above 1.
pub cascade_falls :
    (rs : List RankedList) (leader : RetrievalSource) (k : ℕ) (limit : Option ℕ) (pinned : List ℕ)
    → ScoresFall 1 (cascade rs leader k limit pinned)
unfolding cascade
cascade_falls rs leader k none pinned = all-ScoresFall rs pinned k pinned _
cascade_falls rs leader k (some n) pinned =
    take-ScoresFall n 1 _ (all-ScoresFall rs pinned k pinned _)
