-- ===== src/Intelligence/Jobs/Attempts.antt =====
-- How often a job is tried: what bounds the attempts, and what lets them grow without bound.
use python_fullstack.Base.{
  ℕ, zero, suc, ◌+◌, ◌≤◌, ◌≡◌, refl, sym, subst, ◌∙◌, none, some, List, [], ◌∷◌, String, arith,
  ==_refl,
}
use python_fullstack.Intelligence.Jobs.{
  AiJob, queued, failed, due, by_schedule, claimed_ids, claim, start, fail, give_back, release,
  release_stale,
}
use python_fullstack.Intelligence.Jobs.Worker.{
  Handler, Worker, batch, run_job, run_jobs, sweep, tick,
}

due_alone :
    (now : ℕ) (j : AiJob) → j.status ≡ queued → j.scheduled_at ≤ now → due now [] (j ∷ []) ≡ j ∷ []
due_alone now j q d = ground arith

release_queued : (now : ℕ) (j : AiJob) → j.status ≡ queued → release now j ≡ j
release_queued now j q = rw q refl

claim_alone :
    (now : ℕ) (worker : String) (j : AiJob)
    → j.status ≡ queued
    → j.scheduled_at ≤ now
    → claim now [] worker batch (j ∷ []) ≡ (start now worker j ∷ [], start now worker j ∷ [])
unfolding claim claimed_ids by_schedule
claim_alone now worker j q d = rw (due_alone now j q d) (ground (arith, ==_refl j.id))

sweep_alone : (now c : ℕ) (j : AiJob) → j.status ≡ queued → sweep now c (j ∷ []) ≡ j ∷ []
unfolding release_stale
sweep_alone now c j q = ground (arith, release_queued now j q)

tick_jobs :
    (h : Handler) (now : ℕ) (w : Worker)
    → (tick h now [] w).0.jobs ≡ (
        let given = claim now [] w.id batch (sweep now (w.cycles + 1) w.jobs) in
        run_jobs h given.1 given.0)
unfolding tick
tick_jobs h now w = refl

run_alone :
    (h : Handler) (j : AiJob) (e : String)
    → h.work j ≡ some e
    → run_jobs h (j ∷ []) (j ∷ []) ≡ give_back (h.ends j) e j ∷ []
unfolding run_jobs run_job fail
run_alone h j e x = rw x (rw (==_refl j.id) refl)

tick_alone :
    (h : Handler) (now : ℕ) (w : Worker) (j : AiJob) (e : String)
    → w.jobs ≡ j ∷ []
    → j.status ≡ queued
    → j.scheduled_at ≤ now
    → h.work (start now w.id j) ≡ some e
    → (tick h now [] w).0.jobs ≡ give_back (h.ends (start now w.id j)) e (start now w.id j) ∷ []
tick_alone h now w j e one q d x =
    tick_jobs h now w
    ∙ rw (one, sweep_alone now (w.cycles + 1) j q, claim_alone now w.id j q d)
        (run_alone h (start now w.id j) e x)

-- Ticks, each some time after the first job of the table falls due.
abbrev next_due : List AiJob → ℕ
next_due [] = 0
next_due (j ∷ js) = j.scheduled_at

pub serve : Handler → (ℕ → ℕ) → ℕ → Worker → Worker
serve h late zero w = w
serve h late (suc k) w = serve h late k (tick h (next_due w.jobs + late k) [] w).0

abbrev pub GivenUp : List AiJob → Type 0
GivenUp [] = ⊥
GivenUp (j ∷ []) = (j.status ≡ failed) × (j.attempts ≡ 5) × (j.locked_by ≡ none)
GivenUp (j ∷ i ∷ js) = ⊥

last_try :
    (now then' : ℕ) (worker e : String) (j : AiJob)
    → j.attempts + 1 ≡ 5
    → GivenUp (give_back then' e (start now worker j) ∷ [])
last_try now then' worker e j n = ground arith

earlier_try :
    (now then' k : ℕ) (worker e : String) (j : AiJob)
    → j.attempts + suc (suc k) ≡ 5
    → ((give_back then' e (start now worker j)).status ≡ queued)
      × ((give_back then' e (start now worker j)).attempts + suc k ≡ 5)
earlier_try now then' k worker e j n = ground arith

module _ (h : Handler) (late : ℕ → ℕ)
    (always : (j : AiJob) → (e : String) × (h.work j ≡ some e)) where
  served :
      (l : ℕ) (w : Worker) (j : AiJob)
      → w.jobs ≡ j ∷ []
      → j.status ≡ queued
      → (e : String) × ((tick h (next_due w.jobs + l) [] w).0.jobs
          ≡ give_back
              (h.ends (start (next_due w.jobs + l) w.id j))
              e
              (start (next_due w.jobs + l) w.id j)
            ∷ [])
  served l w j one q =
      let now = next_due w.jobs + l in
      let (e, x) = always (start now w.id j) in
      (e, tick_alone h now w j e one q (rw one (omega arith)) x)

  -- A job whose handler fails each time is given up when its five attempts are used, however late
  -- the ticks come.
  pub serve_gives_up :
      (k : ℕ) (w : Worker) (j : AiJob)
      → w.jobs ≡ j ∷ []
      → j.status ≡ queued
      → j.attempts + suc k ≡ 5
      → GivenUp (serve h late (suc k) w).jobs
  unfolding serve
  serve_gives_up zero w j one q n =
      let now = next_due w.jobs + late zero in
      let (e, x) = served (late zero) w j one q in
      subst GivenUp (sym x) (last_try now (h.ends (start now w.id j)) w.id e j n)
  serve_gives_up (suc k) w j one q n =
      let now = next_due w.jobs + late (suc k) in
      let ends = h.ends (start now w.id j) in
      let (e, x) = served (late (suc k)) w j one q in
      let (a, b) = earlier_try now ends k w.id e j n in
      serve_gives_up k (tick h now [] w).0 (give_back ends e (start now w.id j)) x a b
