-- ===== src/Examples/Jobs.antt =====
-- A table of two jobs, two workers, and a handler that always fails.
use python_fullstack.Base.{
  ℕ, ◌*◌, ◌^◌, ◌≡◌, refl, true, false, none, some, List, [], ◌∷◌, contains, arith,
}
use python_fullstack.Intelligence.Jobs.{AiJob, embed_ticket, queued, ids, claim, enqueue, fail}
use python_fullstack.Intelligence.Jobs.Claims.{All}
use python_fullstack.Intelligence.Jobs.Handed
use python_fullstack.Intelligence.Jobs.Handed.{Keeps, unchanged, failing, claims_exclude}
use python_fullstack.Intelligence.Jobs.Worker.{Handler, Worker, tick}
use python_fullstack.Intelligence.Jobs.Settling.{SettledAt, tick_settles}
use python_fullstack.Intelligence.Jobs.Attempts.{serve, GivenUp, serve_gives_up}
use python_fullstack.Intelligence.Jobs.History.{Reaches, nothing, more, enqueued, claimed}
use python_fullstack.Intelligence.Jobs.History.Locks.{
  IsBounded, Reaches-IsBounded, sweeps_unbounded,
}

abbrev job : ℕ → AiJob
job n = record {
  id = n;
  tenant_id = 1;
  kind = embed_ticket;
  status = queued;
  ticket_id = 7;
  run_id = none;
  attempts = 0;
  last_error = none;
  scheduled_at = 10 * n;
  created_at = 0;
  locked_at = none;
  locked_by = none;
}

abbrev table : List AiJob
table = job 2 ∷ job 1 ∷ []

order : ids (claim 100 [] "w" 1 table).1 ≡ 1 ∷ []
unfolding claim
order = refl

-- The first worker has job 1; another job comes, a second worker takes job 2 and fails it.
abbrev first_claim : List AiJob
first_claim = (claim 100 [] "w" 1 table).0

abbrev between : List AiJob
between =
    fail 120 2 "TimeoutError"
      (claim 110 [] "v" 5 (enqueue 105 3 1 embed_ticket 8 none 0 first_claim)).0

claims_exclude_example : contains (ids (claim (10 ^ 12) [] "v" 5 between).1) 1 ≡ false
unfolding claim
claims_exclude_example = claims_exclude 100 (10 ^ 12) 1 5 1 [] [] "w" "v" table between refl (
    failing 120 2 "TimeoutError" _ refl (
      Handed.claimed 110 5 [] "v" _
        (Handed.enqueued 105 3 1 8 0 embed_ticket none first_claim refl unchanged)))

abbrev broken : Handler
broken = record { work = λ j. some "TimeoutError"; ends = λ j. 200 }

abbrev worker : Worker
worker = record { id = "w"; cycles = 4; jobs = table }

tick_settles_example : SettledAt 2 (tick broken 100 [] worker).0.jobs
unfolding claim
tick_settles_example = tick_settles broken 100 2 [] worker refl

abbrev alone : Worker
alone = record { id = "w"; cycles = 0; jobs = job 1 ∷ [] }

serve_gives_up_example : GivenUp (serve broken (λ k. k) 5 alone).jobs
serve_gives_up_example =
    serve_gives_up broken (λ k. k) (λ j. ("TimeoutError", refl)) 4 alone (job 1) refl refl
      (omega arith)

Reaches-IsBounded_example :
    All IsBounded (claim 5 [] "w" 1 (enqueue 0 1 1 embed_ticket 7 none 0 [])).0
Reaches-IsBounded_example =
    Reaches-IsBounded (claim 5 [] "w" 1 (enqueue 0 1 1 embed_ticket 7 none 0 [])).0 (
      more _ _ (more [] _ nothing (enqueued 0 1 1 7 0 embed_ticket none [] refl))
        (claimed 5 1 [] "w" (enqueue 0 1 1 embed_ticket 7 none 0 [])))

sweeps_unbounded_example :
    (j : AiJob) × Reaches true (j ∷ []) × (j.status ≡ queued) × (j.attempts ≡ 9)
sweeps_unbounded_example = sweeps_unbounded 9
