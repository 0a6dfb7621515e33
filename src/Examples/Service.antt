-- ===== src/Examples/Service.antt =====
-- The ticket service on a session with one ticket.
use python_fullstack.Base.{some, ℕ, ◌≡◌, ◌≢◌, refl, ap, none, List, [], ◌∷◌, arith}
use python_fullstack.Base.Exec.{ok, err}
use python_fullstack.Core.Errors.{version_conflict}
use python_fullstack.Tickets.Policies.{Actor, assert_transition_allowed}
use python_fullstack.Tickets.Service.{Call}
use python_fullstack.Tickets.Service.Request.{
  close, Request, create, start, resolve, hold, reopen, execute, serve,
}
use python_fullstack.Tickets.Service.Spec.{outcome}
use python_fullstack.Tickets.Service.Spec.Refines.{Refines, execute-Refines}
use python_fullstack.Tickets.Lifecycle.Sessions.{RowsWellFormed, serve-WellFormed}
use python_fullstack.Tickets.Auditing.{AuditIsClean, serve-AuditIsClean}
use python_fullstack.Tickets.Locking.{second_writer_conflicts}
use python_fullstack.Tickets.Repository.{find_ticket}
use python_fullstack.Tickets.Model.{Ticket, Session}
use python_fullstack.Tickets.Service.Create
use python_fullstack.Tickets.Service.Create.{TicketCreate}
use python_fullstack.Tickets.Tracking.{IsTracked}
use python_fullstack.Tickets.Tracking.Runs.{serve-IsTracked}
use python_fullstack.Tickets.Service.Lifecycle
use python_fullstack.Core.Permissions.{permissions_for}
use python_fullstack.Tickets.Enums.{
  on_client, TicketStatus, closed, production, s2_major, department, painful,
}
use python_fullstack.Tickets.Enums
use python_fullstack.Examples.Data.{agent, dev, ticket, session, call}

execute-Refines_example :
    Refines call dev (resolve 10 3 "fixed") (execute call dev (resolve 10 3 "fixed")) session
execute-Refines_example = execute-Refines call dev (resolve 10 3 "fixed") session refl

abbrev script : List (Call × Actor × Request)
script =
    (call, dev, resolve 10 3 "fixed")
    ∷ (call, dev, hold 10 3 on_client none)
    ∷ (call, agent, reopen 10 4 "still wrong")
    ∷ []

session-WellFormed : RowsWellFormed session
unfolding Enums.derive_priority
session-WellFormed = (ground arith, tt)

serve-WellFormed_example : RowsWellFormed (serve session script)
serve-WellFormed_example = serve-WellFormed session script session-WellFormed

serve-AuditIsClean_example : AuditIsClean (serve session script)
serve-AuditIsClean_example = serve-AuditIsClean session script tt

resolve_ok :
    (execute call dev (resolve 10 3 "fixed") session).0
    ≡ ok (outcome call dev (resolve 10 3 "fixed") ticket)
unfolding execute find_ticket assert_transition_allowed permissions_for Lifecycle.resolve
resolve_ok = refl

four_is_not_three : ◌≡◌ {A = List ℕ} (4 ∷ []) (3 ∷ []) → ⊥
four_is_not_three h = cc

versions : List Ticket → List ℕ
versions [] = []
versions (t ∷ ts) = t.version ∷ versions ts

resolve_writes : (execute call dev (resolve 10 3 "fixed") session).1.tickets ≢ session.tickets
unfolding execute find_ticket assert_transition_allowed permissions_for Lifecycle.resolve versions
resolve_writes h = four_is_not_three (ap versions h)

second_writer_conflicts_example :
    execute call dev (hold 10 3 on_client none) (execute call dev (resolve 10 3 "fixed") session).1
    ≡ (err version_conflict, (execute call dev (resolve 10 3 "fixed") session).1)
second_writer_conflicts_example =
    second_writer_conflicts call call dev dev (resolve 10 3 "fixed") (hold 10 3 on_client none)
      session refl refl refl refl refl resolve_ok resolve_writes

abbrev payload : TicketCreate
payload = record {
  title = " Login fails ";
  description = "Nobody can sign in";
  client_id = 4;
  team_id = 7;
  environment = production;
  severity = s2_major;
  impact = department;
  workaround = painful;
  steps_to_reproduce = none;
  expected_result = none;
  actual_result = none;
  reporter_name = none;
  reporter_email = none;
  assignee_id = some 2;
}

abbrev first_day : List (Call × Actor × Request)
first_day =
    (call, agent, create payload)
    ∷ (call, dev, start 11 1)
    ∷ (call, dev, resolve 11 2 "fixed")
    ∷ (call, agent, close 11 3 none)
    ∷ []

abbrev blank : Session
blank = record { tickets = []; counters = []; history = []; audit = []; effects = [] }

serve-IsTracked_example : IsTracked (serve blank first_day)
serve-IsTracked_example =
    serve-IsTracked blank first_day (refl, (tt, (tt, (tt, tt))))
      (record { current = tt; chain = tt })

statuses : List Ticket → List TicketStatus
statuses [] = []
statuses (t ∷ ts) = t.status ∷ statuses ts

day_ends_closed : statuses (serve blank first_day).tickets ≡ closed ∷ []
unfolding statuses serve execute Create.create Lifecycle.start Lifecycle.resolve Lifecycle.close
    find_ticket assert_transition_allowed permissions_for Enums.derive_priority
day_ends_closed = refl
