-- ===== src/Intelligence/Requests/Cycle.antt =====
-- How long a requested analysis keeps others of its ticket out.
use python_fullstack.Base.{
  ℕ, ◌+◌, ◌≤◌, ◌≡◌, refl, ap, ◌∙◌, Bool, true, false, not, ◌&&◌, Option, none, some, List, [], ◌∷◌,
  ◌++◌, String, arith, ltb, leb, ◌==◌, if◌then◌else◌,
}
use python_fullstack.Base.Exec.{Result, ok, err}
use python_fullstack.Core.Errors.{AppError}
use python_fullstack.Intelligence.Requests.{
  AnalysisStatus, Outcome, AiAnalysisRun, stale_run, is_active, is_blocked, blocks_new_run, newest,
  latest_for_ticket, new_run, Tables, request, update_run, started, mark_running, finished, finish,
  status_for,
}

-- No run of the table is younger.
abbrev pub IsPast : ℕ → List AiAnalysisRun → Type 0
IsPast began [] = Unit {0}
IsPast began (r ∷ rs) = (r.created_at ≤ began) × IsPast began rs

latest-append :
    (ticket : ℕ) (rs : List AiAnalysisRun) (r : AiAnalysisRun)
    → IsPast r.created_at rs
    → r.ticket_id ≡ ticket
    → latest_for_ticket ticket (rs ++ r ∷ []) ≡ some r
latest-append ticket [] r past own = ground (arith, own)
latest-append ticket (s ∷ rs) r (past, pasts) own =
    rw (latest-append ticket rs r pasts own) ground (arith, past)

-- What an `UPDATE` by the id makes of one row
abbrev update_option :
    ℕ → (AiAnalysisRun → AiAnalysisRun) → Option AiAnalysisRun → Option AiAnalysisRun
update_option id f none = none
update_option id f (some r) = some (if r.id == id then f r else r)

-- The update leaves the ticket and the time of creation.
abbrev Steady : (AiAnalysisRun → AiAnalysisRun) → Type 0
Steady f = (r : AiAnalysisRun) → ((f r).ticket_id ≡ r.ticket_id) × ((f r).created_at ≡ r.created_at)

newest-update :
    (id : ℕ) (f : AiAnalysisRun → AiAnalysisRun)
    → Steady f
    → (r : AiAnalysisRun) (s : Option AiAnalysisRun)
    → some (newest (if r.id == id then f r else r) (update_option id f s))
      ≡ update_option id f (some (newest r s))
newest-update id f same r none = refl
newest-update id f same r (some s) = ground (arith, same r, same s)

latest-update :
    (ticket id : ℕ) (f : AiAnalysisRun → AiAnalysisRun)
    → Steady f
    → (rs : List AiAnalysisRun)
    → latest_for_ticket ticket (update_run id f rs)
      ≡ update_option id f (latest_for_ticket ticket rs)
latest-update ticket id f same [] = refl
latest-update ticket id f same (r ∷ rs) =
    rw (latest-update ticket id f same rs) ground
      (arith, same r, newest-update id f same r (latest_for_ticket ticket rs))

-- One call of `request`
pub record Asked : Type 0 where
  pub now : ℕ
  pub began : ℕ
  pub id : ℕ
  pub job_id : ℕ
  pub tenant : ℕ
  pub ticket : ℕ
  pub user : ℕ

abbrev pub ask : Asked → Tables → Result AppError AiAnalysisRun × Tables
unfolding request
ask a t = request a.now a.began a.id a.job_id a.tenant a.ticket a.user t

abbrev refused : Result AppError AiAnalysisRun → Bool
refused (ok r) = false
refused (err e) = true

abbrev pub is_refused : Asked → Tables → Bool
is_refused a t = refused (ask a t).0

-- The tables when the worker has started the run that was asked for
abbrev pub after_start : Asked → ℕ → Tables → Tables
after_start a marked t = record (ask a t).1 { runs = mark_running marked a.id (ask a t).1.runs }

-- And when it has finished it
abbrev pub after_end : Asked → ℕ → ℕ → AnalysisStatus → Outcome → Tables → Tables
after_end a marked ended status o t = record (after_start a marked t) {
  runs = finish ended a.id status o (after_start a marked t).runs;
}

is_refused_lem :
    (a : Asked) (t : Tables) → is_refused a t ≡ is_blocked a.now (latest_for_ticket a.ticket t.runs)
unfolding request
is_refused_lem a t = ground (arith)

ask-runs :
    (a : Asked) (t : Tables)
    → is_refused a t ≡ false
    → (ask a t).1.runs ≡ t.runs ++ new_run a.began a.id a.tenant a.ticket a.user ∷ []
unfolding request
ask-runs a t free = ground (arith, free)

status_for-ends :
    (reason : String) (partial written : Bool)
    → is_active (status_for reason partial written) ≡ false
unfolding status_for
status_for-ends reason partial written = ground (arith)

latest_asked :
    (a : Asked) (t : Tables)
    → IsPast a.began t.runs
    → is_refused a t ≡ false
    → latest_for_ticket a.ticket (ask a t).1.runs
      ≡ some (new_run a.began a.id a.tenant a.ticket a.user)
latest_asked a t past free =
    ap (λ rs. latest_for_ticket a.ticket rs) (ask-runs a t free)
    ∙ latest-append a.ticket t.runs (new_run a.began a.id a.tenant a.ticket a.user) past refl

latest_started :
    (a : Asked) (t : Tables) (marked : ℕ)
    → IsPast a.began t.runs
    → is_refused a t ≡ false
    → latest_for_ticket a.ticket (after_start a marked t).runs
      ≡ some (started marked (new_run a.began a.id a.tenant a.ticket a.user))
latest_started a t marked past free =
    latest-update a.ticket a.id (started marked) (λ r. (refl, refl)) (ask a t).1.runs
    ∙ ap (λ r. update_option a.id (started marked) r) (latest_asked a t past free)
    ∙ ground (arith)

latest_ended :
    (a : Asked) (t : Tables) (marked ended : ℕ) (status : AnalysisStatus) (o : Outcome)
    → IsPast a.began t.runs
    → is_refused a t ≡ false
    → latest_for_ticket a.ticket (after_end a marked ended status o t).runs
      ≡ some
          (finished ended status o (started marked (new_run a.began a.id a.tenant a.ticket a.user)))
latest_ended a t marked ended status o past free =
    latest-update a.ticket a.id (finished ended status o) (λ r. (refl, refl))
      (after_start a marked t).runs
    ∙ ap (λ r. update_option a.id (finished ended status o) r) (latest_started a t marked past free)
    ∙ ground (arith)

is_refused-latest :
    (b : Asked) (t : Tables) (ticket : ℕ) (r : AiAnalysisRun)
    → b.ticket ≡ ticket
    → latest_for_ticket ticket t.runs ≡ some r
    → is_refused b t ≡ blocks_new_run b.now r
is_refused-latest b t ticket r same latest =
    is_refused_lem b t
    ∙ ap (λ n. is_blocked b.now (latest_for_ticket n t.runs)) same
    ∙ ap (λ s. is_blocked b.now s) latest

not-ltb : (m n : ℕ) → not (ltb m n) ≡ leb n m
not-ltb m n = ground (arith)

-- When a request is accepted in a table without younger runs, then another for the same ticket is
-- refused as long as no more than twice the agent's time has passed, counted from the first's
-- transaction while its run waits and from the start once a worker has started it; after that, and
-- as soon as the run has ended with whatever status `_status_for` gives, it is accepted.
pub request_cycle :
    (a b : Asked) (t : Tables) (marked ended : ℕ) (reason : String) (partial written : Bool)
    (o : Outcome)
    → IsPast a.began t.runs
    → is_refused a t ≡ false
    → b.ticket ≡ a.ticket
    → (is_refused b (ask a t).1 ≡ leb b.now (a.began + stale_run))
      × (is_refused b (after_start a marked t) ≡ leb b.now (marked + stale_run))
      × (is_refused b (after_end a marked ended (status_for reason partial written) o t) ≡ false)
request_cycle a b t marked ended reason partial written o past free same =
    let status = status_for reason partial written in
    (
      is_refused-latest b (ask a t).1 a.ticket _ same (latest_asked a t past free)
          ∙ not-ltb (a.began + stale_run) b.now,
      is_refused-latest b (after_start a marked t) a.ticket _ same
            (latest_started a t marked past free)
          ∙ not-ltb (marked + stale_run) b.now,
      is_refused-latest b (after_end a marked ended status o t) a.ticket _ same
            (latest_ended a t marked ended status o past free)
          ∙ ap (λ active. active && not (ltb (marked + stale_run) b.now))
              (status_for-ends reason partial written),
    )
