-- ===== src/Intelligence/Jobs/Claims.antt =====
-- What a worker's claim takes from the table of jobs.
use python_fullstack.Base.{
  ℕ, zero, suc, ◌≤◌, ◌≡◌, refl, sym, ap, ◌∙◌, true, false, ◌||◌, inl, inr, some, List, [], ◌∷◌,
  String, contains, take, length, length-take, arith, ◌==◌, ==_iff, Bool-cases,
}
use python_fullstack.Intelligence.Jobs.{
  AiJob, running, due, insert_job, by_schedule, ids, claimed_ids, with_ids, start, update_ids,
  claim,
}

module _ (P : AiJob → Type 0) where
  abbrev pub All : List AiJob → Type 0
  All [] = Unit {0}
  All (j ∷ js) = P j × All js

contains-insert_job :
    (x : ℕ) (j : AiJob) (js : List AiJob)
    → contains (ids (insert_job j js)) x ≡ ((j.id == x) || contains (ids js) x)
contains-insert_job x j [] = refl
contains-insert_job x j (i ∷ is) = ground (arith, contains-insert_job x j is)

contains-by_schedule :
    (x : ℕ) (js : List AiJob) → contains (ids (by_schedule js)) x ≡ contains (ids js) x
unfolding by_schedule
contains-by_schedule x [] = refl
contains-by_schedule x (j ∷ js) =
    contains-insert_job x j (by_schedule js)
    ∙ ap (λ b. (j.id == x) || b) (contains-by_schedule x js)

contains-take :
    (x n : ℕ) (js : List AiJob) → contains (ids (take n js)) x ≡ true → contains (ids js) x ≡ true
contains-take x zero js h = absurd (cc)
contains-take x (suc n) [] h = h
contains-take x (suc n) (j ∷ js) h = ground (arith, contains-take x n js)

pub claimed_is_due :
    (now limit x : ℕ) (held : List ℕ) (jobs : List AiJob)
    → contains (claimed_ids now held limit jobs) x ≡ true
    → contains (ids (due now held jobs)) x ≡ true
unfolding claimed_ids
claimed_is_due now limit x held jobs h =
    sym (contains-by_schedule x (due now held jobs))
    ∙ contains-take x limit (by_schedule (due now held jobs)) h

length-ids : (js : List AiJob) → length (ids js) ≡ length js
length-ids [] = refl
length-ids (j ∷ js) = ap (λ n. suc n) (length-ids js)

-- A row that is due is not held.
due_row :
    (now x : ℕ) (held : List ℕ) (jobs : List AiJob)
    → contains (ids (due now held jobs)) x ≡ true
    → contains held x ≡ false
due_row now x held [] h = absurd (cc)
due_row now x held (j ∷ js) h = ground (arith, due_row now x held js, ==_iff j.id x)

pub given_is_chosen :
    (x : ℕ) (chosen : List ℕ) (js : List AiJob)
    → contains (ids (with_ids chosen js)) x ≡ true
    → contains chosen x ≡ true
given_is_chosen x chosen [] h = absurd (cc)
given_is_chosen x chosen (j ∷ js) h = ground (arith, given_is_chosen x chosen js, ==_iff j.id x)

-- A worker's job: running, locked by the worker now, and not a row that another had locked.
pub record IsTaken (now : ℕ) (held : List ℕ) (worker : String) (j : AiJob) : Type 0 where
  pub runs : j.status ≡ running
  pub at : j.locked_at ≡ some now
  pub by : j.locked_by ≡ some worker
  pub free : contains held j.id ≡ false

given-All :
    (now : ℕ) (held chosen : List ℕ) (worker : String) (js : List AiJob)
    → ((x : ℕ) → contains chosen x ≡ true → contains held x ≡ false)
    → All (IsTaken now held worker) (with_ids chosen (update_ids chosen (start now worker) js))
given-All now held chosen worker [] h = tt
given-All now held chosen worker (j ∷ js) h = elim (Bool-cases (contains chosen j.id)) [
  | inl e ↦
      rw (e, e)
        (
          record { runs = refl; at = refl; by = refl; free = h j.id e },
          given-All now held chosen worker js h,
        )
  | inr e ↦ rw (e, e) (given-All now held chosen worker js h)
]

-- An id that is not due is not given.
pub not_given :
    (now limit x : ℕ) (held : List ℕ) (worker : String) (jobs : List AiJob)
    → contains (ids (due now held jobs)) x ≡ false
    → contains (ids (claim now held worker limit jobs).1) x ≡ false
unfolding claim
not_given now limit x held worker jobs h = ground (
  arith,
  claimed_is_due now limit x held jobs,
  given_is_chosen x (claimed_ids now held limit jobs)
      (update_ids (claimed_ids now held limit jobs) (start now worker) jobs),
)

claimed_le :
    (now limit : ℕ) (held : List ℕ) (jobs : List AiJob)
    → length (claimed_ids now held limit jobs) ≤ limit
unfolding claimed_ids
claimed_le now limit held jobs = omega (
  arith,
  length-ids (take limit (by_schedule (due now held jobs))),
  length-take limit (by_schedule (due now held jobs)),
)

-- Every job that a claim gives is running, locked by this worker at this time, and was not locked by
-- another transaction; at most `limit` ids are chosen.
pub claim-IsTaken :
    (now limit : ℕ) (held : List ℕ) (worker : String) (jobs : List AiJob)
    → All (IsTaken now held worker) (claim now held worker limit jobs).1
      × (length (claimed_ids now held limit jobs) ≤ limit)
unfolding claim claimed_ids
claim-IsTaken now limit held worker jobs = (
  given-All now held (claimed_ids now held limit jobs) worker jobs
      λ x c. due_row now x held jobs (claimed_is_due now limit x held jobs c),
  claimed_le now limit held jobs,
)
