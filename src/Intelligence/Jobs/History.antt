-- ===== src/Intelligence/Jobs/History.antt =====
-- The histories of the table of jobs: every change that `AiJobRepository` makes, in any order and by
-- any workers, with the sweep of stale locks or without it.
pub mod Rows
pub mod Rule
pub mod Locks
use python_fullstack.Base.{
  ℕ, zero, suc, ◌+◌, ◌*◌, ◌≤◌, ◌<◌, ◌≡◌, refl, sym, ap, subst, ◌∙◌, Bool, true, false, inl, inr,
  Option, none, some, List, [], ◌∷◌, ◌++◌, String, contains, ltb, ◌&&◌, ◌||◌, leb, leb→le, ==_refl,
  ◌==◌, ==_iff, arith, Bool-cases,
}
use python_fullstack.Intelligence.Jobs.{
  AiJob, AiJobKind, AiJobStatus, queued, running, done, failed, embed_ticket, due, claimed_ids,
  claim, start, update_ids, complete, fail, update_id, give_back, finish, enqueue, release,
  release_stale, purge_done, stale_lock, ids, is_done, is_due, is_stale, max_attempts, by_schedule,
  with_ids, second,
}
use python_fullstack.Intelligence.Jobs.Claims.{All, claimed_is_due}
use python_fullstack.Retrieval.Fusion.Gather.{AllDistinct, contains-append}

-- A sweep is allowed or not.
pub data Step (sweeps : Bool) : List AiJob → List AiJob → Type 0 where
  enqueued :
      (now id tenant ticket delay : ℕ) (kind : AiJobKind) (run : Option ℕ) (jobs : List AiJob)
      → contains (ids jobs) id ≡ false
      → Step sweeps jobs (enqueue now id tenant kind ticket run delay jobs)
  claimed :
      (now limit : ℕ) (held : List ℕ) (worker : String) (jobs : List AiJob)
      → Step sweeps jobs (claim now held worker limit jobs).0
  completed : (id : ℕ) (jobs : List AiJob) → Step sweeps jobs (complete id jobs)
  failing :
      (now id : ℕ) (error : String) (jobs : List AiJob) → Step sweeps jobs (fail now id error jobs)
  purged : (now days : ℕ) (jobs : List AiJob) → Step sweeps jobs (purge_done now days jobs)
  swept : (now : ℕ) (jobs : List AiJob) → sweeps ≡ true → Step sweeps jobs (release_stale now jobs)

pub data Reaches (sweeps : Bool) : List AiJob → Type 0 where
  nothing : Reaches sweeps []
  more :
      (jobs jobs' : List AiJob)
      → Reaches sweeps jobs
      → Step sweeps jobs jobs'
      → Reaches sweeps jobs'
