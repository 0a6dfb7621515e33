-- ===== src/Intelligence/Jobs.antt =====
-- backend/app/modules/intelligence/repository.py, `AiJobRepository`: the outbox of jobs on the table
-- `ai_jobs`. A time is a number of microseconds, and `now` is an argument. The rows that another
-- transaction has locked are the argument `held`.
pub mod Claims
pub mod Handed
pub mod Worker
pub mod Settling
pub mod Attempts
pub mod History
use python_fullstack.Base.{
  ℕ, zero, suc, ◌+◌, ◌*◌, ◌^◌, Bool, true, false, not, ◌&&◌, ◌||◌, Option, none, some, List, [],
  ◌∷◌, ◌++◌, map, String, contains, take, ltb, leb, ◌==◌, if◌then◌else◌,
}
use python_fullstack.Base.Text.{take_text}

pub data AiJobKind : Type 0 where
  embed_ticket : AiJobKind
  delete_vector : AiJobKind
  analyse_ticket : AiJobKind

pub data AiJobStatus : Type 0 where
  queued : AiJobStatus
  running : AiJobStatus
  done : AiJobStatus
  failed : AiJobStatus

-- The payload is that of all kinds: a ticket, and for an analysis a run.
pub record AiJob : Type 0 where
  pub id : ℕ
  pub tenant_id : ℕ
  pub kind : AiJobKind
  pub status : AiJobStatus
  pub ticket_id : ℕ
  pub run_id : Option ℕ
  pub attempts : ℕ
  pub last_error : Option String
  pub scheduled_at : ℕ
  pub created_at : ℕ
  pub locked_at : Option ℕ
  pub locked_by : Option String

abbrev pub max_attempts : ℕ
max_attempts = 5

abbrev pub second : ℕ
second = 1000000

abbrev pub stale_lock : ℕ
stale_lock = 15 * 60 * second

abbrev pub is_queued : AiJobStatus → Bool
is_queued queued = true
is_queued _ = false

abbrev pub is_running : AiJobStatus → Bool
is_running running = true
is_running _ = false

abbrev pub is_done : AiJobStatus → Bool
is_done done = true
is_done _ = false

-- `enqueue`, with the row's new id
unfoldable pub enqueue : ℕ → ℕ → ℕ → AiJobKind → ℕ → Option ℕ → ℕ → List AiJob → List AiJob
enqueue now id tenant kind ticket run delay jobs =
    jobs
    ++ record {
      id = id;
      tenant_id = tenant;
      kind = kind;
      status = queued;
      ticket_id = ticket;
      run_id = run;
      attempts = 0;
      last_error = none;
      scheduled_at = now + delay * second;
      created_at = now;
      locked_at = none;
      locked_by = none;
    }
      ∷ []

-- `WHERE status = 'queued' AND scheduled_at <= now()`, less the rows that are skipped
abbrev pub is_due : ℕ → List ℕ → AiJob → Bool
is_due now held j = is_queued j.status && (leb j.scheduled_at now && not (contains held j.id))

abbrev pub due : ℕ → List ℕ → List AiJob → List AiJob
due now held [] = []
due now held (j ∷ js) = let rest = due now held js in if is_due now held j then j ∷ rest else rest

-- `ORDER BY scheduled_at, created_at`
abbrev before : AiJob → AiJob → Bool
before a b =
    ltb a.scheduled_at b.scheduled_at
    || ((a.scheduled_at == b.scheduled_at) && leb a.created_at b.created_at)

abbrev pub insert_job : AiJob → List AiJob → List AiJob
insert_job j [] = j ∷ []
insert_job j (i ∷ is) = let rest = insert_job j is in if before j i then j ∷ i ∷ is else i ∷ rest

pub by_schedule : List AiJob → List AiJob
by_schedule [] = []
by_schedule (j ∷ js) = insert_job j (by_schedule js)

abbrev pub ids : List AiJob → List ℕ
ids [] = []
ids (j ∷ js) = j.id ∷ ids js

unfoldable pub claimed_ids : ℕ → List ℕ → ℕ → List AiJob → List ℕ
unfolding by_schedule
claimed_ids now held limit jobs = ids (take limit (by_schedule (due now held jobs)))

abbrev pub with_ids : List ℕ → List AiJob → List AiJob
with_ids chosen [] = []
with_ids chosen (j ∷ js) =
    let rest = with_ids chosen js in if contains chosen j.id then j ∷ rest else rest

abbrev pub start : ℕ → String → AiJob → AiJob
start now worker j = record j {
  status = running;
  locked_at = some now;
  locked_by = some worker;
  attempts = j.attempts + 1;
}

abbrev pub update_ids : List ℕ → (AiJob → AiJob) → List AiJob → List AiJob
update_ids chosen f [] = []
update_ids chosen f (j ∷ js) = (if contains chosen j.id then f j else j) ∷ update_ids chosen f js

-- `claim`: the table after it, and the jobs that it gives
unfoldable pub claim : ℕ → List ℕ → String → ℕ → List AiJob → List AiJob × List AiJob
unfolding claimed_ids
claim now held worker limit jobs =
    let chosen = claimed_ids now held limit jobs in
    let jobs' = update_ids chosen (start now worker) jobs in (jobs', with_ids chosen jobs')

abbrev pub update_id : ℕ → (AiJob → AiJob) → List AiJob → List AiJob
update_id id f [] = []
update_id id f (j ∷ js) = (if j.id == id then f j else j) ∷ update_id id f js

abbrev pub finish : AiJob → AiJob
finish j = record j { status = done }

-- `complete`
unfoldable pub complete : ℕ → List AiJob → List AiJob
complete id jobs = update_id id finish jobs

abbrev pub back_off : ℕ → AiJob → AiJob
back_off now j =
    if leb max_attempts j.attempts
    then record j { status = failed }
    else record j { status = queued; scheduled_at = now + 30 * 2 ^ j.attempts * second }

abbrev pub give_back : ℕ → String → AiJob → AiJob
give_back now error j = record (back_off now j) {
  last_error = some (take_text 2000 error);
  locked_at = none;
  locked_by = none;
}

-- `fail`
unfoldable pub fail : ℕ → ℕ → String → List AiJob → List AiJob
fail now id error jobs = update_id id (give_back now error) jobs

abbrev pub is_stale : ℕ → AiJob → Bool
is_stale now j =
    is_running j.status && elim j.locked_at [ none ↦ false | some t ↦ ltb (t + stale_lock) now ]

abbrev pub release : ℕ → AiJob → AiJob
release now j =
    if is_stale now j then record j { status = queued; locked_at = none; locked_by = none } else j

-- `release_stale`
unfoldable pub release_stale : ℕ → List AiJob → List AiJob
release_stale now [] = []
release_stale now (j ∷ js) = release now j ∷ release_stale now js

-- `purge_done`
unfoldable pub purge_done : ℕ → ℕ → List AiJob → List AiJob
purge_done now days [] = []
purge_done now days (j ∷ js) =
    let rest = purge_done now days js in
    if is_done j.status && ltb (j.created_at + days * 86400 * second) now then rest else j ∷ rest
