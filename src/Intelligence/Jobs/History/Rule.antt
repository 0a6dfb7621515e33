-- ===== src/Intelligence/Jobs/History/Rule.antt =====
-- Ids stay distinct, and the rule for what every row of the table of jobs has in every history.
use python_fullstack.Base.{
  ℕ, ◌+◌, ◌*◌, ◌≡◌, refl, ap, Bool, true, false, inl, inr, none, List, [], ◌∷◌, ◌++◌, String,
  contains, ltb, ◌&&◌, ◌==◌, arith, Bool-cases,
}
use python_fullstack.Intelligence.Jobs.{
  AiJob, queued, claimed_ids, claim, start, update_ids, complete, fail, update_id, give_back,
  finish, enqueue, release, release_stale, purge_done, ids, is_done, second,
}
use python_fullstack.Intelligence.Jobs.Claims.{All}
use python_fullstack.Retrieval.Fusion.Gather.{AllDistinct, contains-append}
use python_fullstack.Intelligence.Jobs.History.{
  Step, enqueued, claimed, completed, failing, purged, swept, Reaches, nothing, more,
}
use python_fullstack.Intelligence.Jobs.History.Rows.{
  All-append, All-update_id, All-release_stale, All-purge_done, All-update_ids, chosen_is_queued,
}

-- Ids stay distinct.
ids-update_id :
    (id : ℕ) (f : AiJob → AiJob)
    → ((j : AiJob) → (f j).id ≡ j.id)
    → (js : List AiJob) → ids (update_id id f js) ≡ ids js
ids-update_id id f h [] = refl
ids-update_id id f h (j ∷ js) = elim (Bool-cases (j.id == id)) [
  | inl e ↦ rw (e, h j, ids-update_id id f h js) refl
  | inr e ↦ rw (e, ids-update_id id f h js) refl
]

ids-update_ids :
    (chosen : List ℕ) (f : AiJob → AiJob)
    → ((j : AiJob) → (f j).id ≡ j.id)
    → (js : List AiJob) → ids (update_ids chosen f js) ≡ ids js
ids-update_ids chosen f h [] = refl
ids-update_ids chosen f h (j ∷ js) = elim (Bool-cases (contains chosen j.id)) [
  | inl e ↦ rw (e, h j, ids-update_ids chosen f h js) refl
  | inr e ↦ rw (e, ids-update_ids chosen f h js) refl
]

give_back_same : (now : ℕ) (e : String) (j : AiJob) → (give_back now e j).id ≡ j.id
give_back_same now e j = ground arith

release_same : (now : ℕ) (j : AiJob) → (release now j).id ≡ j.id
release_same now j = ground arith

ids-release_stale : (now : ℕ) (js : List AiJob) → ids (release_stale now js) ≡ ids js
unfolding release_stale
ids-release_stale now [] = refl
ids-release_stale now (j ∷ js) = rw (release_same now j, ids-release_stale now js) refl

contains-purge_done :
    (now days x : ℕ) (js : List AiJob)
    → contains (ids js) x ≡ false
    → contains (ids (purge_done now days js)) x ≡ false
unfolding purge_done
contains-purge_done now days x [] h = h
contains-purge_done now days x (j ∷ js) h = ground (arith, contains-purge_done now days x js)

purge_done-AllDistinct :
    (now days : ℕ) (js : List AiJob)
    → AllDistinct (ids js)
    → AllDistinct (ids (purge_done now days js))
unfolding purge_done
purge_done-AllDistinct now days [] d = tt
purge_done-AllDistinct now days (j ∷ js) (n, d) =
    elim (Bool-cases (is_done j.status && ltb (j.created_at + days * 86400 * second) now)) [
      | inl e ↦ rw e (purge_done-AllDistinct now days js d)
      | inr e ↦ rw e (contains-purge_done now days j.id js n, purge_done-AllDistinct now days js d)
    ]

distinct-append :
    (x : ℕ) (xs : List ℕ) → AllDistinct xs → contains xs x ≡ false → AllDistinct (xs ++ x ∷ [])
distinct-append x [] d n = (refl, tt)
distinct-append x (y ∷ ys) (m, d) n =
    (ground (arith, contains-append ys (x ∷ []) y), distinct-append x ys d (ground arith))

ids-append : (is js : List AiJob) → ids (is ++ js) ≡ ids is ++ ids js
ids-append [] js = refl
ids-append (i ∷ is) js = ap (λ xs. i.id ∷ xs) (ids-append is js)

step-AllDistinct :
    {b : Bool} {js js' : List AiJob} → Step b js js' → AllDistinct (ids js) → AllDistinct (ids js')
unfolding enqueue claim complete fail
step-AllDistinct (enqueued now id tenant ticket delay kind run js n) d =
    rw (ids-append js _) (distinct-append id (ids js) d n)
step-AllDistinct (claimed now limit held worker js) d =
    rw (ids-update_ids (claimed_ids now held limit js) (start now worker) (λ j. refl) js) d
step-AllDistinct (completed id js) d = rw (ids-update_id id finish (λ j. refl) js) d
step-AllDistinct (failing now id e js) d =
    rw (ids-update_id id (give_back now e) (give_back_same now e) js) d
step-AllDistinct (purged now days js) d = purge_done-AllDistinct now days js d
step-AllDistinct (swept now js h) d = rw (ids-release_stale now js) d

Reaches-AllDistinct : {b : Bool} {js : List AiJob} → Reaches b js → AllDistinct (ids js)
Reaches-AllDistinct nothing = tt
Reaches-AllDistinct (more js js' r s) = step-AllDistinct s (Reaches-AllDistinct r)

-- What holds of a new row and is kept by every change of a row holds of every row.
module _ (P : AiJob → Type 0) (b : Bool)
    (fresh : (j : AiJob)
      → j.status ≡ queued
      → j.attempts ≡ 0
      → j.locked_at ≡ none
      → j.locked_by ≡ none
      → P j)
    (starts : (now : ℕ) (worker : String) (j : AiJob)
      → j.status ≡ queued
      → P j
      → P (start now worker j))
    (finishes : (j : AiJob) → P j → P (finish j))
    (fails : (now : ℕ) (e : String) (j : AiJob) → P j → P (give_back now e j))
    (sweeps : (now : ℕ) (j : AiJob) → b ≡ true → P j → P (release now j)) where
  step_rule : {js js' : List AiJob} → Step b js js' → AllDistinct (ids js) → All P js → All P js'
  unfolding enqueue claim complete fail
  step_rule (enqueued now id tenant ticket delay kind run js n) d p =
      All-append P js _ p (fresh _ refl refl refl refl, tt)
  step_rule (claimed now limit held worker js) d p =
      All-update_ids P (claimed_ids now held limit js) (start now worker) (starts now worker) js
        (chosen_is_queued now limit held js d) p
  step_rule (completed id js) d p = All-update_id P id finish finishes js p
  step_rule (failing now id e js) d p = All-update_id P id (give_back now e) (fails now e) js p
  step_rule (purged now days js) d p = All-purge_done P now days js p
  step_rule (swept now js h) d p = All-release_stale P now (λ j. sweeps now j h) js p

  pub reach_rule : {js : List AiJob} → Reaches b js → All P js
  reach_rule nothing = tt
  reach_rule (more js js' r s) = step_rule s (Reaches-AllDistinct r) (reach_rule r)
