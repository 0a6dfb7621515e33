-- ===== src/Intelligence/Similarity/Ends.antt =====
-- How many rewrites a similarity search makes, and what it ends with.
use python_fullstack.Base.{
  ℕ, zero, suc, ◌+◌, ◌-◌, ◌*◌, ◌≤◌, ◌<◌, ◌≡◌, refl, sym, subst, ◌∙◌, inl, inr, ◌⊎◌, Option, some,
  [], arith,
}
use python_fullstack.Intelligence.Similarity.{
  Grade, good, weak, empty, SimilarityState, RetrievalDeps, retrieve, fuse, grade, rewrite, hydrate,
  rerank, Node, embedding, rewriting, hydrating, finishing, route_after_grading, run,
  recursion_limit,
}

-- The nodes but `rewrite` leave the number of rewrites as it is.
rewrite-rewrites :
    (d : RetrievalDeps) (n : ℕ) (s : SimilarityState) → (rewrite d n s).rewrites ≡ s.rewrites + 1
unfolding rewrite
rewrite-rewrites d n s = ground arith

hydrate_keeps :
    (d : RetrievalDeps) (n : ℕ) (s : SimilarityState)
    → ((hydrate d n s).rewrites ≡ s.rewrites)
      × ((hydrate d n s).grade ≡ s.grade)
      × ((hydrate d n s).candidates ≡ s.candidates)
unfolding hydrate
hydrate_keeps d n s = ground arith

rerank_keeps :
    (d : RetrievalDeps) (n : ℕ) (s : SimilarityState)
    → ((rerank d n s).rewrites ≡ s.rewrites)
      × ((rerank d n s).grade ≡ s.grade)
      × ((rerank d n s).candidates ≡ s.candidates)
unfolding rerank
rerank_keeps d n s = ground arith

-- The grade after retrieval: good; or empty, with no candidate and no rewrite left; or weak, with one.
grade-cases :
    (d : RetrievalDeps) (s : SimilarityState)
    → ((grade d s).grade ≡ good)
      ⊎ (((grade d s).grade ≡ empty) × (s.candidates ≡ []) × (d.max_rewrites ≤ s.rewrites))
      ⊎ (((grade d s).grade ≡ weak) × (s.rewrites < d.max_rewrites))
unfolding grade
grade-cases d s = ground arith

-- A search that ends within its rewrites: on a good grade, or with nothing found and none left.
abbrev pub EndsGraded : RetrievalDeps → Option SimilarityState → Type 0
EndsGraded d r =
    (s : SimilarityState) × (r ≡ some s)
    × (s.rewrites ≤ d.max_rewrites)
    × ((s.grade ≡ good) ⊎ ((s.grade ≡ empty) × (s.candidates ≡ []) × (s.rewrites ≡ d.max_rewrites)))

-- One pass of retrieval, fusion and grading
abbrev pass : RetrievalDeps → ℕ → SimilarityState → SimilarityState
pass d n s = grade d (fuse d (retrieve d n s))

pass-rewrites :
    (d : RetrievalDeps) (n : ℕ) (s : SimilarityState) → (pass d n s).rewrites ≡ s.rewrites
unfolding grade fuse retrieve
pass-rewrites d n s = refl

pass-cases :
    (d : RetrievalDeps) (n : ℕ) (s : SimilarityState)
    → ((pass d n s).grade ≡ good)
      ⊎ (((pass d n s).grade ≡ empty)
          × ((pass d n s).candidates ≡ [])
          × (d.max_rewrites ≤ s.rewrites))
      ⊎ (((pass d n s).grade ≡ weak) × (s.rewrites < d.max_rewrites))
unfolding grade fuse retrieve
pass-cases d n s = ground arith

route_by :
    (s : SimilarityState) (g : Grade) (node : Node)
    → s.grade ≡ g
    → elim g [ weak ↦ rewriting | empty ↦ finishing | good ↦ hydrating ] ≡ node
    → route_after_grading s ≡ node
route_by s g node e h = rw e h

good_ends :
    (d : RetrievalDeps) (left n : ℕ) (s : SimilarityState)
    → s.rewrites ≤ d.max_rewrites
    → s.grade ≡ good
    → EndsGraded d (run d (suc (suc (suc (suc left)))) n hydrating s)
unfolding run
good_ends d left n s b g =
    let s₁ = hydrate d n s in
    let (a, e, c) = hydrate_keeps d n s in
    let (a', e', c') = rerank_keeps d (suc n) s₁ in
    (rerank d (suc n) s₁, refl, omega arith, inl (e' ∙ e ∙ g))

-- The supersteps of a pass with the end after it, and some more.
abbrev longer : ℕ → ℕ
longer left = suc (suc (suc (suc (suc (suc (suc (suc left)))))))

abbrev Graded : RetrievalDeps → ℕ → ℕ → SimilarityState → Node → Type 0
Graded d left n s node = EndsGraded d (run d (suc (suc (suc (suc left)))) n node s)

after_pass :
    (d : RetrievalDeps) (left n : ℕ) (s : SimilarityState)
    → s.rewrites ≤ d.max_rewrites
    → (s.rewrites < d.max_rewrites
        → (m : ℕ) (s' : SimilarityState) → s'.rewrites ≡ s.rewrites + 1
        → EndsGraded d (run d (suc (suc (suc left))) m embedding s'))
    → EndsGraded d (run d (longer left) n embedding s)
unfolding run
after_pass d left n s b loop =
    let s' = pass d (suc n) s in
    let m = suc (suc (suc (suc n))) in
    let same = pass-rewrites d (suc n) s in
    elim (pass-cases d (suc n) s) [
      | inl g ↦
          subst (Graded d left m s') (sym (route_by s' good hydrating g refl))
            (good_ends d left m s' (omega arith) g)
      | inr (inl (g, none_left, most)) ↦
          subst (Graded d left m s') (sym (route_by s' empty finishing g refl))
            (s', refl, omega arith, inr (g, none_left, omega arith))
      | inr (inr (g, fewer)) ↦
          subst (Graded d left m s') (sym (route_by s' weak rewriting g refl))
            (loop fewer (suc m) (rewrite d m s') (omega (arith, rewrite-rewrites d m s')))
    ]

pass_ends :
    (d : RetrievalDeps) (k left n : ℕ) (s : SimilarityState)
    → s.rewrites + k ≡ d.max_rewrites
    → 5 * k ≤ left
    → EndsGraded d (run d (longer left) n embedding s)
pass_ends d zero left n s h l =
    after_pass d left n s (omega arith) λ fewer m s' e. absurd (omega arith)
pass_ends d (suc k) left n s h l =
    let e : longer (left - 5) ≡ suc (suc (suc left)) = omega arith in
    after_pass d left n s (omega arith) λ fewer m s' r.
      subst (λ x. EndsGraded d (run d x m embedding s')) e
        (pass_ends d k (left - 5) m s' (omega arith) (omega arith))

-- For every retriever and model, a search with at most five allowed rewrites, of which none is made
-- yet, ends within the 37 supersteps that LangGraph's limit leaves after the first three nodes, the
-- end counted as one: on a good grade, or with nothing found and all rewrites made; and it made no more rewrites than allowed.
pub search_ends :
    (d : RetrievalDeps) (s : SimilarityState)
    → d.max_rewrites ≤ 5
    → s.rewrites ≡ 0
    → EndsGraded d (run d (recursion_limit - 3) 3 embedding s)
search_ends d s m z = pass_ends d d.max_rewrites 29 3 s (omega arith) (omega arith)
