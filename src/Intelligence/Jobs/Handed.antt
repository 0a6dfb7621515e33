-- ===== src/Intelligence/Jobs/Handed.antt =====
-- A job that a worker has is given to no other, as long as it is not put back.
use python_fullstack.Base.{
  ℕ, ◌≡◌, refl, ◌∙◌, Bool, true, false, ◌&&◌, ◌||◌, inl, inr, Option, List, [], ◌∷◌, ◌++◌, String,
  contains, arith, ◌==◌, ==_iff, Bool-cases,
}
use python_fullstack.Intelligence.Jobs.{
  AiJob, AiJobKind, is_queued, due, claimed_ids, start, update_ids, claim, ids, complete, finish,
  update_id, fail, give_back, enqueue, purge_done,
}
use python_fullstack.Intelligence.Jobs.Claims.{given_is_chosen, not_given}

-- What may happen to the table without putting the job `x` back: new jobs, claims by any workers,
-- completions, purges, and failures of other jobs, in any order. What is left out is the failure of the
-- job itself and the sweep of stale locks.
pub data Keeps (x : ℕ) (jobs : List AiJob) : List AiJob → Type 0 where
  unchanged : Keeps x jobs jobs
  enqueued :
      (now id tenant ticket delay : ℕ) (kind : AiJobKind) (run : Option ℕ) (after : List AiJob)
      → (id == x) ≡ false
      → Keeps x jobs after
      → Keeps x jobs (enqueue now id tenant kind ticket run delay after)
  claimed :
      (now limit : ℕ) (held : List ℕ) (worker : String) (after : List AiJob)
      → Keeps x jobs after
      → Keeps x jobs (claim now held worker limit after).0
  completed : (id : ℕ) (after : List AiJob) → Keeps x jobs after → Keeps x jobs (complete id after)
  failing :
      (now id : ℕ) (error : String) (after : List AiJob)
      → (id == x) ≡ false
      → Keeps x jobs after
      → Keeps x jobs (fail now id error after)
  purged :
      (now days : ℕ) (after : List AiJob)
      → Keeps x jobs after
      → Keeps x jobs (purge_done now days after)

-- Whether the job waits in the queue
abbrev waits : ℕ → List AiJob → Bool
waits x [] = false
waits x (j ∷ js) = ((j.id == x) && is_queued j.status) || waits x js

waits-append : (x : ℕ) (js ks : List AiJob) → waits x (js ++ ks) ≡ (waits x js || waits x ks)
waits-append x [] ks = refl
waits-append x (j ∷ js) ks = ground (arith, waits-append x js ks)

waits-start :
    (x now : ℕ) (chosen : List ℕ) (worker : String) (js : List AiJob)
    → waits x js ≡ false
    → waits x (update_ids chosen (start now worker) js) ≡ false
waits-start x now chosen worker [] h = refl
waits-start x now chosen worker (j ∷ js) h = ground (arith, h, waits-start x now chosen worker js)

-- Once the chosen rows are running, none of them waits.
chosen_runs :
    (x now : ℕ) (chosen : List ℕ) (worker : String) (js : List AiJob)
    → contains chosen x ≡ true
    → waits x (update_ids chosen (start now worker) js) ≡ false
chosen_runs x now chosen worker [] h = refl
chosen_runs x now chosen worker (j ∷ js) h = elim (Bool-cases (contains chosen j.id)) [
  | inl e ↦ rw e (ground (arith, chosen_runs x now chosen worker js h))
  | inr e ↦ rw e (ground (arith, h, e, chosen_runs x now chosen worker js h, ==_iff j.id x))
]

waits_complete :
    (x id : ℕ) (js : List AiJob) → waits x js ≡ false → waits x (update_id id finish js) ≡ false
waits_complete x id [] h = refl
waits_complete x id (j ∷ js) h = ground (arith, h, waits_complete x id js)

waits-fail :
    (x now id : ℕ) (e : String) (js : List AiJob)
    → (id == x) ≡ false
    → waits x js ≡ false
    → waits x (update_id id (give_back now e) js) ≡ false
waits-fail x now id e [] ne h = refl
waits-fail x now id e (j ∷ js) ne h =
    ground (arith, ne, h, waits-fail x now id e js ne, ==_iff j.id id, ==_iff j.id x, ==_iff id x)

waits-purge_done :
    (x now days : ℕ) (js : List AiJob)
    → waits x js ≡ false
    → waits x (purge_done now days js) ≡ false
unfolding purge_done
waits-purge_done x now days [] h = refl
waits-purge_done x now days (j ∷ js) h = ground (arith, h, waits-purge_done x now days js)

Keeps-waits :
    {x : ℕ} {js after : List AiJob} → Keeps x js after → waits x js ≡ false → waits x after ≡ false
unfolding enqueue claim complete fail
Keeps-waits unchanged h = h
Keeps-waits {x} (enqueued now id tenant ticket delay kind run after ne k) h =
    waits-append x after _ ∙ ground (arith, ne, Keeps-waits k h)
Keeps-waits {x} (claimed now limit held worker after k) h =
    waits-start x now (claimed_ids now held limit after) worker after (Keeps-waits k h)
Keeps-waits {x} (completed id after k) h = waits_complete x id after (Keeps-waits k h)
Keeps-waits {x} (failing now id e after ne k) h = waits-fail x now id e after ne (Keeps-waits k h)
Keeps-waits {x} (purged now days after k) h = waits-purge_done x now days after (Keeps-waits k h)

-- What does not wait is not due.
not_due :
    (x now : ℕ) (held : List ℕ) (js : List AiJob)
    → waits x js ≡ false
    → contains (ids (due now held js)) x ≡ false
not_due x now held [] h = refl
not_due x now held (j ∷ js) h = ground (arith, h, not_due x now held js)

-- A job that a claim gave to a worker is given by no later claim of any worker, whatever happens in
-- between of new jobs, claims, completions, purges and failures of other jobs: only its own failure and
-- the sweep of stale locks put it back.
pub claims_exclude :
    (now now' limit limit' x : ℕ) (held held' : List ℕ) (worker worker' : String)
    (jobs after : List AiJob)
    → contains (ids (claim now held worker limit jobs).1) x ≡ true
    → Keeps x (claim now held worker limit jobs).0 after
    → contains (ids (claim now' held' worker' limit' after).1) x ≡ false
unfolding claim
claims_exclude now now' limit limit' x held held' worker worker' jobs after h keeps =
    let chosen = claimed_ids now held limit jobs in
    let given = given_is_chosen x chosen (update_ids chosen (start now worker) jobs) h in
    not_given now' limit' x held' worker' after
      (not_due x now' held' after (Keeps-waits keeps (chosen_runs x now chosen worker jobs given)))
