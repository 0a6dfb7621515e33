-- ===== src/Examples/Requests.antt =====
-- A ticket whose last analysis was abandoned, and two requests for a new one.
use python_fullstack.Base.{ℕ, ◌+◌, ◌*◌, ◌≡◌, refl, true, false, [], ◌∷◌, leb, arith}
use python_fullstack.Intelligence.Jobs.{second}
use python_fullstack.Intelligence.Requests.{
  new_run, no_outcome, Tables, request, stale_run, status_for,
}
use python_fullstack.Intelligence.Requests.Cycle.{
  Asked, ask, is_refused, after_start, after_end, request_cycle,
}

abbrev asked : ℕ → ℕ → Asked
asked n id = record {
  now = n * second + 5;
  began = n * second;
  id = id;
  job_id = id + 10;
  tenant = 1;
  ticket = 7;
  user = 4;
}

abbrev tables : Tables
tables = record { runs = new_run second 1 1 7 4 ∷ new_run (40 * second) 2 1 8 4 ∷ []; jobs = [] }

early : is_refused (asked 600 3) tables ≡ true
unfolding request
early = refl

request_cycle_example :
    (is_refused (asked 1000 4) (ask (asked 700 3) tables).1
      ≡ leb ((asked 1000 4).now) (700 * second + stale_run))
    × (is_refused (asked 1000 4) (after_start (asked 700 3) (701 * second) tables)
        ≡ leb ((asked 1000 4).now) (701 * second + stale_run))
    × (is_refused (asked 1000 4) (
          after_end
            (asked 700 3)
            (701 * second)
            (900 * second)
            (status_for "ran out of time after 300s" true true)
            no_outcome
            tables)
        ≡ false)
unfolding request
request_cycle_example =
    request_cycle (asked 700 3) (asked 1000 4) tables (701 * second) (900 * second)
      "ran out of time after 300s" true true no_outcome (omega arith, (omega arith, tt)) refl refl
