-- ===== src/Tickets/Repository.antt =====
-- backend/app/modules/tickets/repository.py: the queries behind the ticket service. Row-level
-- security shows a session the rows of its tenant; `_base` leaves out the deleted ones. `id` is a
-- primary key and the ticket number unique in its tenant, so a query by one has the first match.
pub mod Rows
use python_fullstack.Base.{
  ℕ, zero, suc, ◌+◌, Bool, true, false, ◌&&◌, Option, none, some, List, [], ◌∷◌, is_none, is_id,
  ◌==◌, if◌then◌else◌, map,
}
use python_fullstack.Base.Exec.{Exec, ok, err}
use python_fullstack.Core.Errors.{AppError, not_found}
use python_fullstack.Tickets.Enums.{
  TicketStatus, open_, assigned, in_progress, on_hold, closed, awaiting_cs,
}
use python_fullstack.Tickets.Model.{Ticket, Session}

-- The predicate of `_base` under the policy on `tenant_id`.
abbrev pub visible : ℕ → Ticket → Bool
visible tenant t = (t.tenant_id == tenant) && is_none t.deleted_at

unfoldable pub find_ticket : ℕ → ℕ → List Ticket → Option Ticket
find_ticket tenant id [] = none
find_ticket tenant id (t ∷ ts) =
    if visible tenant t && (t.id == id) then some t else find_ticket tenant id ts

unfoldable pub find_number : ℕ → ℕ → List Ticket → Option Ticket
find_number tenant number [] = none
find_number tenant number (t ∷ ts) =
    if visible tenant t && (t.ticket_number == number) then some t else find_number tenant number ts

abbrev or_not_found : Option Ticket → Exec AppError Session Ticket
or_not_found none s = (err not_found, s)
or_not_found (some t) s = (ok t, s)

-- `TicketService.get`
unfoldable pub get : ℕ → ℕ → Exec AppError Session Ticket
get tenant id s = or_not_found (find_ticket tenant id s.tickets) s

-- A flush of the changed row.
unfoldable pub replace : Ticket → List Ticket → List Ticket
replace t [] = []
replace t (u ∷ us) = (if u.id == t.id then t else u) ∷ replace t us

-- The row of `tenant_counters`: its update, and its read.
unfoldable pub last_number : ℕ → List (ℕ × ℕ) → Option ℕ
last_number tenant [] = none
last_number tenant ((j, n) ∷ rows) = if j == tenant then some n else last_number tenant rows

unfoldable pub count_up : ℕ → List (ℕ × ℕ) → List (ℕ × ℕ)
count_up tenant [] = []
count_up tenant ((j, n) ∷ rows) =
    (if j == tenant then (j, n + 1) else (j, n)) ∷ count_up tenant rows

-- `next_ticket_number`: the update returns the new number; without a row, 1 is inserted.
unfoldable pub next_ticket_number : ℕ → List (ℕ × ℕ) → ℕ × List (ℕ × ℕ)
unfolding last_number count_up
next_ticket_number tenant rows = elim (last_number tenant rows) [
  | none ↦ (1, (tenant, 1) ∷ rows)
  | some n ↦ (n + 1, count_up tenant rows)
]

-- `reassign_all`: a bulk update, with the number of rows. Row-level security restricts it to the
-- tenant; it skips closed tickets, and not deleted ones.
abbrev is_closed : TicketStatus → Bool
is_closed closed = true
is_closed _ = false

abbrev pub reassigned : ℕ → ℕ → Ticket → Bool
reassigned tenant from_user t =
    (t.tenant_id == tenant)
    && (is_id t.assignee_id from_user && (if is_closed t.status then false else true))

abbrev reassign_row : Option ℕ → Ticket → Ticket
reassign_row none t = record t { assignee_id = none; status = open_ }
reassign_row (some u) t = record t { assignee_id = some u }

unfoldable pub reassign_all : ℕ → ℕ → Option ℕ → List Ticket → List Ticket × ℕ
reassign_all tenant from_user to_user [] = ([], 0)
reassign_all tenant from_user to_user (t ∷ ts) =
    let (rows, n) = reassign_all tenant from_user to_user ts in
    if reassigned tenant from_user t then (reassign_row to_user t ∷ rows, n + 1) else (t ∷ rows, n)
