-- ===== src/Intelligence/Jobs/Settling.antt =====
-- What a tick of the worker leaves of the jobs that it claimed.
use python_fullstack.Base.{
  ℕ, ◌+◌, ◌≤◌, ◌<◌, ◌≡◌, refl, subst, true, inl, inr, ◌⊎◌, none, List, [], ◌∷◌, String, contains,
  arith, ◌==◌, ==_iff, Bool-cases, Option-cases,
}
use python_fullstack.Intelligence.Jobs.{
  AiJob, queued, done, failed, ids, claim, update_id, give_back, finish,
}
use python_fullstack.Intelligence.Jobs.Claims.{All}
use python_fullstack.Intelligence.Jobs.Worker.{
  Handler, Worker, batch, run_job, run_jobs, sweep, tick,
}

-- Done; or given up after five attempts, and not locked; or queued again before that, and not locked.
abbrev pub IsSettled : AiJob → Type 0
IsSettled j =
    (j.status ≡ done)
    ⊎ ((j.status ≡ failed) × (5 ≤ j.attempts) × (j.locked_by ≡ none))
    ⊎ ((j.status ≡ queued) × (j.attempts < 5) × (j.locked_by ≡ none))

abbrev pub SettledAt : ℕ → List AiJob → Type 0
SettledAt x = All (λ j. j.id ≡ x → IsSettled j)

give_back-IsSettled : (now : ℕ) (e : String) (j : AiJob) → IsSettled (give_back now e j)
give_back-IsSettled now e j = ground arith

settled_here :
    (x : ℕ) (f : AiJob → AiJob)
    → ((j : AiJob) → IsSettled (f j))
    → (jobs : List AiJob) → SettledAt x (update_id x f jobs)
settled_here x f h [] = tt
settled_here x f h (j ∷ js) = elim (Bool-cases (j.id == x)) [
  | inl e ↦ rw e ((λ _. h j), settled_here x f h js)
  | inr e ↦ rw e ((λ q. absurd (ground arith)), settled_here x f h js)
]

settled_still :
    (x y : ℕ) (f : AiJob → AiJob)
    → ((j : AiJob) → IsSettled (f j))
    → (jobs : List AiJob) → SettledAt x jobs
    → SettledAt x (update_id y f jobs)
settled_still x y f h [] s = tt
settled_still x y f h (j ∷ js) (s, ss) = elim (Bool-cases (j.id == y)) [
  | inl e ↦ rw e ((λ _. h j), settled_still x y f h js ss)
  | inr e ↦ rw e (s, settled_still x y f h js ss)
]

finish-IsSettled : (j : AiJob) → IsSettled (finish j)
finish-IsSettled j = inl refl

run_job_settles : (h : Handler) (j : AiJob) (jobs : List AiJob) → SettledAt j.id (run_job h j jobs)
unfolding run_job
run_job_settles h j jobs = elim (Option-cases (h.work j)) [
  | inl e ↦ rw e (settled_here j.id finish finish-IsSettled jobs)
  | inr (x, e) ↦
      rw e (settled_here j.id (give_back (h.ends j) x) (give_back-IsSettled (h.ends j) x) jobs)
]

run_job_keeps :
    (h : Handler) (x : ℕ) (j : AiJob) (jobs : List AiJob)
    → SettledAt x jobs
    → SettledAt x (run_job h j jobs)
unfolding run_job
run_job_keeps h x j jobs s = elim (Option-cases (h.work j)) [
  | inl e ↦ rw e (settled_still x j.id finish finish-IsSettled jobs s)
  | inr (y, e) ↦
      rw e (settled_still x j.id (give_back (h.ends j) y) (give_back-IsSettled (h.ends j) y) jobs s)
]

run_jobs_keep :
    (h : Handler) (x : ℕ) (js jobs : List AiJob)
    → SettledAt x jobs
    → SettledAt x (run_jobs h js jobs)
unfolding run_jobs
run_jobs_keep h x [] jobs s = s
run_jobs_keep h x (j ∷ js) jobs s =
    run_jobs_keep h x js (run_job h j jobs) (run_job_keeps h x j jobs s)

run_jobs_settle :
    (h : Handler) (x : ℕ) (js jobs : List AiJob)
    → contains (ids js) x ≡ true
    → SettledAt x (run_jobs h js jobs)
unfolding run_jobs
run_jobs_settle h x [] jobs c = absurd (cc)
run_jobs_settle h x (j ∷ js) jobs c = elim (Bool-cases (j.id == x)) [
  | inl e ↦
      run_jobs_keep h x js (run_job h j jobs) (
        subst (λ y. SettledAt y (run_job h j jobs)) ((==_iff j.id x).0 e)
          (run_job_settles h j jobs))
  | inr e ↦ run_jobs_settle h x js (run_job h j jobs) (ground arith)
]

-- After a tick, whatever the handlers did, each job that it claimed is done, or has failed after five
-- attempts, or is queued again after fewer; in the last two cases it is not locked.
pub tick_settles :
    (h : Handler) (now x : ℕ) (held : List ℕ) (w : Worker)
    → contains (ids (claim now held w.id batch (sweep now (w.cycles + 1) w.jobs)).1) x ≡ true
    → SettledAt x (tick h now held w).0.jobs
unfolding tick
tick_settles h now x held w c =
    let given = claim now held w.id batch (sweep now (w.cycles + 1) w.jobs) in
    run_jobs_settle h x given.1 given.0 c
