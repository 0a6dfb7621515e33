-- ===== src/Intelligence/Jobs/History/Rows.antt =====
-- What each change of the table of jobs keeps of its rows, and which rows a claim starts.
use python_fullstack.Base.{
  ℕ, ◌+◌, ◌*◌, ◌≡◌, refl, sym, ap, ◌∙◌, true, false, inl, inr, List, [], ◌∷◌, ◌++◌, contains, ltb,
  ◌&&◌, ◌==◌, ==_iff, arith, Bool-cases,
}
use python_fullstack.Intelligence.Jobs.{
  AiJob, queued, due, claimed_ids, update_ids, update_id, release, release_stale, purge_done, ids,
  is_done, is_due, second,
}
use python_fullstack.Intelligence.Jobs.Claims.{All, claimed_is_due}
use python_fullstack.Retrieval.Fusion.Gather.{AllDistinct}

module _ (P : AiJob → Type 0) where
  pub All-append : (is js : List AiJob) → All P is → All P js → All P (is ++ js)
  All-append [] js p q = q
  All-append (i ∷ is) js (p, ps) q = (p, All-append is js ps q)

  pub All-update_id :
      (id : ℕ) (f : AiJob → AiJob)
      → ((j : AiJob) → P j → P (f j))
      → (js : List AiJob) → All P js
      → All P (update_id id f js)
  All-update_id id f h [] p = tt
  All-update_id id f h (j ∷ js) (p, ps) = elim (Bool-cases (j.id == id)) [
    | inl e ↦ rw e (h j p, All-update_id id f h js ps)
    | inr e ↦ rw e (p, All-update_id id f h js ps)
  ]

  pub All-release_stale :
      (now : ℕ)
      → ((j : AiJob) → P j → P (release now j))
      → (js : List AiJob) → All P js
      → All P (release_stale now js)
  unfolding release_stale
  All-release_stale now h [] p = tt
  All-release_stale now h (j ∷ js) (p, ps) = (h j p, All-release_stale now h js ps)

  pub All-purge_done : (now days : ℕ) (js : List AiJob) → All P js → All P (purge_done now days js)
  unfolding purge_done
  All-purge_done now days [] p = tt
  All-purge_done now days (j ∷ js) (p, ps) =
      elim (Bool-cases (is_done j.status && ltb (j.created_at + days * 86400 * second) now)) [
        | inl e ↦ rw e (All-purge_done now days js ps)
        | inr e ↦ rw e (p, All-purge_done now days js ps)
      ]

  pub All-update_ids :
      (chosen : List ℕ) (f : AiJob → AiJob)
      → ((j : AiJob) → j.status ≡ queued → P j → P (f j))
      → (js : List AiJob)
      → ((x : ℕ) → contains chosen x ≡ true → All (λ j. j.id ≡ x → j.status ≡ queued) js)
      → All P js
      → All P (update_ids chosen f js)
  All-update_ids chosen f h [] q p = tt
  All-update_ids chosen f h (j ∷ js) q (p, ps) = elim (Bool-cases (contains chosen j.id)) [
    | inl e ↦ rw e (h j ((q j.id e).0 refl) p, All-update_ids chosen f h js (λ x c. (q x c).1) ps)
    | inr e ↦ rw e (p, All-update_ids chosen f h js (λ x c. (q x c).1) ps)
  ]

absent :
    (x : ℕ) (js : List AiJob)
    → contains (ids js) x ≡ false
    → All (λ j. j.id ≡ x → j.status ≡ queued) js
absent x [] h = tt
absent x (j ∷ js) h = ((λ e. absurd (ground (arith, ==_iff j.id x))), absent x js (ground arith))

due_is_there :
    (now x : ℕ) (held : List ℕ) (js : List AiJob)
    → contains (ids (due now held js)) x ≡ true
    → contains (ids js) x ≡ true
due_is_there now x held [] h = h
due_is_there now x held (j ∷ js) h = ground (arith, due_is_there now x held js)

-- Where ids are distinct, a row with the id of one that is due is queued.
due_is_queued :
    (now x : ℕ) (held : List ℕ) (js : List AiJob)
    → AllDistinct (ids js)
    → contains (ids (due now held js)) x ≡ true
    → All (λ j. j.id ≡ x → j.status ≡ queued) js
due_is_queued now x held [] d h = tt
due_is_queued now x held (j ∷ js) (n, d) h = elim (Bool-cases (is_due now held j)) [
  | inl e ↦ elim (Bool-cases (j.id == x)) [
    | inl same ↦ (
      (λ _. ground arith),
      absent x js (ap (contains (ids js)) (sym ((==_iff j.id x).0 same)) ∙ n),
    )
    | inr other ↦ ((λ _. ground arith), due_is_queued now x held js d (ground arith))
  ]
  | inr e ↦
      let there : contains (ids (due now held js)) x ≡ true = ground arith in
      (
        (λ same.
            absurd (ground (arith, due_is_there now x held js there, ap (contains (ids js)) same))),
        due_is_queued now x held js d there,
      )
]

pub chosen_is_queued :
    (now limit : ℕ) (held : List ℕ) (js : List AiJob)
    → AllDistinct (ids js)
    → (x : ℕ) → contains (claimed_ids now held limit js) x ≡ true
    → All (λ j. j.id ≡ x → j.status ≡ queued) js
chosen_is_queued now limit held js d x c =
    due_is_queued now x held js d (claimed_is_due now limit x held js c)
