-- ===== src/Intelligence/Requests.antt =====
-- backend/app/modules/intelligence/analysis_service.py, `AnalysisService.request` with its guard and
-- `_status_for`, and the writes of `AnalysisRepository` on the table `ai_analysis_runs`. A time is a
-- number of microseconds: `began` is that of the transaction, `now` that of the clock. The columns
-- that `finish` sets beside the status and the time are one record; the tokens and the thumbs are
-- left out. `ORDER BY` leaves open which of two runs of the same time is the latest; here the later
-- row is.
pub mod Cycle
use python_fullstack.Base.{
  ℕ, zero, suc, ◌+◌, ◌*◌, Bool, true, false, not, ◌&&◌, ◌||◌, Option, none, some, List, [], ◌∷◌,
  ◌++◌, map, String, ltb, leb, ◌==◌, if◌then◌else◌,
}
use python_fullstack.Base.Exec.{Result, ok, err}
use python_fullstack.Base.Words.{occurs}
use python_fullstack.Core.Errors.{AppError, conflict}
use python_fullstack.Intelligence.Jobs.{AiJob, analyse_ticket, second, enqueue}

pub data AnalysisStatus : Type 0 where
  queued running completed failed budget_exceeded timed_out : AnalysisStatus

pub record Outcome : Type 0 where
  pub report : Option String
  pub partial : Bool
  pub model : Option String
  pub used_fallback_model : Bool
  pub turns : ℕ
  pub tool_calls : ℕ
  pub estimated_cost : ℕ
  pub latency_ms : Option ℕ
  pub error : Option String

pub record AiAnalysisRun : Type 0 where
  pub id : ℕ
  pub tenant_id : ℕ
  pub ticket_id : ℕ
  pub requested_by_id : Option ℕ
  pub status : AnalysisStatus
  pub outcome : Outcome
  pub created_at : ℕ
  pub started_at : Option ℕ
  pub finished_at : Option ℕ

abbrev pub agent_timeout_seconds : ℕ
agent_timeout_seconds = 300

abbrev pub stale_run : ℕ
stale_run = agent_timeout_seconds * 2 * second

abbrev pub is_active : AnalysisStatus → Bool
is_active queued = true
is_active running = true
is_active _ = false

-- `run.started_at or run.created_at`
abbrev pub reference_time : Option ℕ → ℕ → ℕ
reference_time (some started) created = started
reference_time none created = created

-- `_blocks_new_run`
abbrev pub blocks_new_run : ℕ → AiAnalysisRun → Bool
blocks_new_run now r =
    is_active r.status && not (ltb (reference_time r.started_at r.created_at + stale_run) now)

abbrev pub newest : AiAnalysisRun → Option AiAnalysisRun → AiAnalysisRun
newest r none = r
newest r (some s) = if leb r.created_at s.created_at then s else r

abbrev pub latest_for_ticket : ℕ → List AiAnalysisRun → Option AiAnalysisRun
latest_for_ticket ticket [] = none
latest_for_ticket ticket (r ∷ rs) =
    let rest = latest_for_ticket ticket rs in
    if r.ticket_id == ticket then some (newest r rest) else rest

-- `existing is not None and _blocks_new_run(existing)`
abbrev pub is_blocked : ℕ → Option AiAnalysisRun → Bool
is_blocked now none = false
is_blocked now (some r) = blocks_new_run now r

abbrev pub no_outcome : Outcome
no_outcome = record {
  report = none;
  partial = false;
  model = none;
  used_fallback_model = false;
  turns = 0;
  tool_calls = 0;
  estimated_cost = 0;
  latency_ms = none;
  error = none;
}

-- The row that `create` adds
abbrev pub new_run : ℕ → ℕ → ℕ → ℕ → ℕ → AiAnalysisRun
new_run began id tenant ticket user = record {
  id = id;
  tenant_id = tenant;
  ticket_id = ticket;
  requested_by_id = some user;
  status = queued;
  outcome = no_outcome;
  created_at = began;
  started_at = none;
  finished_at = none;
}

pub record Tables : Type 0 where
  pub runs : List AiAnalysisRun
  pub jobs : List AiJob

-- `request`, with the ids of the new run and of its job
unfoldable pub request : ℕ → ℕ → ℕ → ℕ → ℕ → ℕ → ℕ → Tables → Result AppError AiAnalysisRun × Tables
request now began id job_id tenant ticket user t =
    if is_blocked now (latest_for_ticket ticket t.runs) then (err conflict, t) else (
      ok (new_run began id tenant ticket user),
      record {
        runs = t.runs ++ new_run began id tenant ticket user ∷ [];
        jobs = enqueue began job_id tenant analyse_ticket ticket (some id) 0 t.jobs;
      },
    )

-- An `UPDATE` of the run of this id
abbrev pub update_run :
    ℕ → (AiAnalysisRun → AiAnalysisRun) → List AiAnalysisRun → List AiAnalysisRun
update_run id f [] = []
update_run id f (r ∷ rs) = (if r.id == id then f r else r) ∷ update_run id f rs

abbrev pub started : ℕ → AiAnalysisRun → AiAnalysisRun
started now r = record r { status = running; started_at = some now }

abbrev pub mark_running : ℕ → ℕ → List AiAnalysisRun → List AiAnalysisRun
mark_running now id = update_run id (started now)

abbrev pub finished : ℕ → AnalysisStatus → Outcome → AiAnalysisRun → AiAnalysisRun
finished now status o r = record r { status = status; outcome = o; finished_at = some now }

abbrev pub finish : ℕ → ℕ → AnalysisStatus → Outcome → List AiAnalysisRun → List AiAnalysisRun
finish now id status o = update_run id (finished now status o)

-- `_status_for`, of the reason at which the run stopped
unfoldable pub status_for : String → Bool → Bool → AnalysisStatus
status_for reason partial report_written =
    if not report_written
    then failed
    else if not partial
    then completed
    else if occurs "time" reason
    then timed_out
    else if occurs "cost" reason || occurs "limit" reason
    then budget_exceeded
    else completed
