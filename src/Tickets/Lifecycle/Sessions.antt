-- ===== src/Tickets/Lifecycle/Sessions.antt =====
-- Sessions of well-formed rows: every method keeps them, and so does every run of requests.
use python_fullstack.Base.{
  ℕ, ◌≡◌, refl, some, List, [], ◌∷◌, arith, ◌==◌, Bool-cases, Option-cases, inl, inr,
}
use python_fullstack.Base.Exec.{Result-cases}
use python_fullstack.Tickets.Enums.{Priority, derive_priority}
use python_fullstack.Tickets.Enums.Derivation.{derive_priority_total}
use python_fullstack.Tickets.Policies.{Actor}
use python_fullstack.Tickets.Model.{Ticket, Session}
use python_fullstack.Tickets.Repository.{find_ticket}
use python_fullstack.Tickets.Repository.Rows.{All, All-replace, All-find}
use python_fullstack.Tickets.Service.{Call}
use python_fullstack.Tickets.Service.Create
use python_fullstack.Tickets.Service.Create.{TicketCreate, draft}
use python_fullstack.Tickets.Service.Request.{Request, create, execute, serve}
use python_fullstack.Tickets.Service.Spec.{
  decide, outcome, answer, table_after, requested_id, requested_version, writes,
}
use python_fullstack.Tickets.Service.Spec.Refines.{execute-Refines}
use python_fullstack.Tickets.Lifecycle.{IsWellFormed}
use python_fullstack.Tickets.Lifecycle.Rows.{outcome-IsWellFormed}

abbrev pub RowsWellFormed : Session → Type 0
RowsWellFormed s = All IsWellFormed s.tickets

step-WellFormed :
    (c : Call) (a : Actor) (r : Request) (t : Ticket) (ts : List Ticket)
    → IsWellFormed t
    → All IsWellFormed ts
    → All IsWellFormed (table_after r (some t) (answer c a r (some t)) ts)
step-WellFormed c a r t ts h k = elim (Bool-cases (t.version == requested_version r)) [
  | inr stale ↦ rw stale k
  | inl fresh ↦ elim (Result-cases (decide a r t)) [
    | inr (e, refused) ↦ rw (fresh, refused) k
    | inl (tt, granted) ↦
        rw (fresh, granted)
          (elim (Bool-cases (writes r t)) [
            | inl w ↦ rw w (
                All-replace IsWellFormed (outcome c a r t) ts
                  (outcome-IsWellFormed c a r t granted h) k)
            | inr w ↦ rw w k
          ])
  ]
]

table_after-WellFormed :
    (c : Call) (a : Actor) (r : Request) (ts : List Ticket)
    → All IsWellFormed ts
    → let found = find_ticket c.tenant (requested_id r) ts in
      All IsWellFormed (table_after r found (answer c a r found) ts)
table_after-WellFormed c a r ts h = elim (Option-cases (find_ticket c.tenant (requested_id r) ts)) [
  | inl e ↦ rw e h
  | inr (t, e) ↦
      rw e (step-WellFormed c a r t ts (All-find IsWellFormed c.tenant (requested_id r) ts e h) h)
]

draft-IsWellFormed :
    (c : Call) (a : Actor) (payload : TicketCreate) (number : ℕ) (p : Priority)
    → derive_priority payload.severity payload.impact payload.workaround ≡ some p
    → IsWellFormed (draft c a payload number p)
draft-IsWellFormed c a payload number p h = ground arith

create-WellFormed :
    (c : Call) (a : Actor) (payload : TicketCreate) (s : Session)
    → RowsWellFormed s
    → RowsWellFormed (Create.create c a payload s).1
unfolding Create.create
create-WellFormed c a payload s h =
    let (p, e) = derive_priority_total payload.severity payload.impact payload.workaround in
    rw e (draft-IsWellFormed c a payload _ p e, h)

-- Every request, granted or refused, leaves a session of well-formed rows.
pub execute-WellFormed :
    (c : Call) (a : Actor) (r : Request) (s : Session)
    → RowsWellFormed s
    → RowsWellFormed (execute c a r s).1
execute-WellFormed c a (create payload) s h = unfold execute in create-WellFormed c a payload s h
execute-WellFormed c a r s h =
    rw ((execute-Refines c a r s refl).writes_table) (table_after-WellFormed c a r s.tickets h)

-- Whatever the requests, by whomever and in whatever order, rows that are all well formed stay so.
pub serve-WellFormed :
    (s : Session) (requests : List (Call × Actor × Request))
    → RowsWellFormed s
    → RowsWellFormed (serve s requests)
unfolding serve
serve-WellFormed s [] h = h
serve-WellFormed s ((c, a, r) ∷ rest) h =
    serve-WellFormed (execute c a r s).1 rest (execute-WellFormed c a r s h)
