-- ===== src/Intelligence/Jobs/Worker.antt =====
-- backend/app/modules/intelligence/jobs/worker.py: a tick of the worker, and the housekeeping of its
-- table. What a handler does is a parameter, its error or none, with the time at which it ends.
use python_fullstack.Base.{
  ℕ, ◌+◌, ◌%◌, Option, none, some, List, [], ◌∷◌, String, length, ◌==◌, if◌then◌else◌,
}
use python_fullstack.Intelligence.Jobs.{AiJob, claim, complete, fail, release_stale, purge_done}

abbrev pub batch : ℕ
batch = 10

abbrev pub stale_sweep_every : ℕ
stale_sweep_every = 20

abbrev pub maintenance_every_cycles : ℕ
maintenance_every_cycles = 1200

pub record Handler : Type 0 where
  pub work : AiJob → Option String
  pub ends : AiJob → ℕ

pub record Worker : Type 0 where
  pub id : String
  pub cycles : ℕ
  pub jobs : List AiJob

abbrev pub settle : ℕ → ℕ → Option String → List AiJob → List AiJob
settle now id none jobs = complete id jobs
settle now id (some error) jobs = fail now id error jobs

-- `_run_job`
unfoldable pub run_job : Handler → AiJob → List AiJob → List AiJob
unfolding complete fail
run_job h j jobs = settle (h.ends j) j.id (h.work j) jobs

unfoldable pub run_jobs : Handler → List AiJob → List AiJob → List AiJob
unfolding run_job
run_jobs h [] jobs = jobs
run_jobs h (j ∷ js) jobs = run_jobs h js (run_job h j jobs)

abbrev pub sweep : ℕ → ℕ → List AiJob → List AiJob
sweep now cycles jobs = if (cycles % stale_sweep_every) == 0 then release_stale now jobs else jobs

-- `_tick`, when other transactions hold some rows: the worker after it and the number of jobs
unfoldable pub tick : Handler → ℕ → List ℕ → Worker → Worker × ℕ
unfolding claim run_jobs release_stale
tick h now held w =
    let jobs = sweep now (w.cycles + 1) w.jobs in
    let given = claim now held w.id batch jobs in
    (record w { cycles = w.cycles + 1; jobs = run_jobs h given.1 given.0 }, length given.1)

-- `_maintenance`, on the jobs
unfoldable pub maintenance : ℕ → Worker → Worker
unfolding purge_done
maintenance now w = record w {
  jobs = if (w.cycles % maintenance_every_cycles) == 0 then purge_done now 7 w.jobs else w.jobs;
}
