-- ===== src/Tickets/Service/Spec.antt =====
-- What `TicketService` promises, as pure functions on the table of tickets.
pub mod Refines
pub mod History
use python_fullstack.Base.{
  ℕ, ◌+◌, Bool, true, false, not, Option, none, some, List, [], ◌∷◌, String, ◌==◌, if◌then◌else◌,
}
use python_fullstack.Base.Exec.{Result, ok, err}
use python_fullstack.Core.Errors.{AppError, not_found, version_conflict, validation_failed}
use python_fullstack.Tickets.Enums.{
  Priority, TicketStatus, open_, assigned, in_progress, on_hold, resolved, rejected, closed,
}
use python_fullstack.Tickets.Policies.{
  Actor, assert_transition_allowed, assert_can_assign, assert_can_edit_content,
  assert_can_transfer_team, assert_can_override_priority,
}
use python_fullstack.Tickets.Model.{Ticket, ticket_facts}
use python_fullstack.Tickets.Repository.{find_ticket, replace}
use python_fullstack.Tickets.Service.{Call, with_status, bump}
use python_fullstack.Tickets.Service.Ownership.{same_priority}
use python_fullstack.Tickets.Service.Content.{TicketContentUpdate, Update, edit_of}
use python_fullstack.Tickets.Service.Request.{
  Request, create, update_content, assign, start, hold, resolve, reject, close, reopen,
  transfer_team, override_priority,
}

-- The decision on a ticket of the right version.
abbrev pub refuse_if : Bool → Result AppError (Unit {0}) → Result AppError (Unit {0})
refuse_if b (err e) = err e
refuse_if b (ok u) = if b then err validation_failed else ok tt

abbrev pub decide : Actor → Request → Ticket → Result AppError (Unit {0})
decide a (create payload) t = ok tt
decide a (update_content id v payload) t = assert_can_edit_content a (ticket_facts t)
decide a (assign id v u) t = assert_can_assign a (ticket_facts t) u
decide a (start id v) t = assert_transition_allowed a (ticket_facts t) in_progress
decide a (hold id v w n) t = assert_transition_allowed a (ticket_facts t) on_hold
decide a (resolve id v notes) t = assert_transition_allowed a (ticket_facts t) resolved
decide a (reject id v reason n) t = assert_transition_allowed a (ticket_facts t) rejected
decide a (close id v n) t = assert_transition_allowed a (ticket_facts t) closed
decide a (reopen id v reason) t = assert_transition_allowed a (ticket_facts t) assigned
decide a (transfer_team id v team reason) t =
    refuse_if (team == t.team_id) (assert_can_transfer_team a (ticket_facts t))
decide a (override_priority id v p reason) t =
    refuse_if (same_priority p t.priority) (assert_can_override_priority a (ticket_facts t))

abbrev pub driven : Option ℕ → TicketStatus → Ticket → Ticket
driven none assigned t = with_status open_ t
driven (some u) open_ t = with_status assigned t
driven _ s t = t

abbrev pub inboxed : TicketStatus → Ticket → Ticket
inboxed open_ t = t
inboxed _ t = with_status open_ t

abbrev pub edited : Ticket → List Update → Ticket
edited t [] = t
edited t (u ∷ us) = bump t

-- The row after a request that is granted.
abbrev pub outcome : Call → Actor → Request → Ticket → Ticket
outcome c a (create payload) t = t
outcome c a (update_content id v payload) t =
    edited (edit_of t payload).ticket (edit_of t payload).changed
outcome c a (assign id v u) t = bump (driven u t.status (record t { assignee_id = u }))
outcome c a (start id v) t = bump (with_status in_progress t)
outcome c a (hold id v w n) t = record (bump (with_status on_hold t)) {
  on_hold_waiting_on = some w;
}
outcome c a (resolve id v notes) t = record (bump (with_status resolved t)) {
  resolution_notes = some notes;
  resolved_at = some c.now;
}
outcome c a (reject id v reason n) t = record (bump (with_status rejected t)) {
  rejection_reason = some reason;
  resolved_at = some c.now;
}
outcome c a (close id v n) t = record (bump (with_status closed t)) { closed_at = some c.now }
outcome c a (reopen id v reason) t = record (bump (with_status assigned t)) {
  reopen_count = t.reopen_count + 1;
  closed_at = none;
  resolved_at = none;
  resolution_notes = none;
  rejection_reason = none;
}
outcome c a (transfer_team id v team reason) t =
    bump (inboxed t.status (record t { team_id = team; assignee_id = none }))
outcome c a (override_priority id v p reason) t = bump (record t {
  priority = p;
  priority_overridden = true;
  priority_override_reason = some reason;
  priority_overridden_by_id = some a.user_id;
})

-- The answer to a request about a ticket that exists, and the table after it.
abbrev pub requested_id : Request → ℕ
requested_id (create payload) = 0
requested_id (update_content id v payload) = id
requested_id (assign id v u) = id
requested_id (start id v) = id
requested_id (hold id v w n) = id
requested_id (resolve id v notes) = id
requested_id (reject id v reason n) = id
requested_id (close id v n) = id
requested_id (reopen id v reason) = id
requested_id (transfer_team id v team reason) = id
requested_id (override_priority id v p reason) = id

abbrev pub requested_version : Request → ℕ
requested_version (create payload) = 0
requested_version (update_content id v payload) = v
requested_version (assign id v u) = v
requested_version (start id v) = v
requested_version (hold id v w n) = v
requested_version (resolve id v notes) = v
requested_version (reject id v reason n) = v
requested_version (close id v n) = v
requested_version (reopen id v reason) = v
requested_version (transfer_team id v team reason) = v
requested_version (override_priority id v p reason) = v

abbrev pub is_create : Request → Bool
is_create (create payload) = true
is_create _ = false

abbrev pub after_decision : Ticket → Result AppError (Unit {0}) → Result AppError Ticket
after_decision t (err e) = err e
after_decision t (ok u) = ok t

abbrev pub after_version : Bool → Ticket → Result AppError (Unit {0}) → Result AppError Ticket
after_version b t d = if b then after_decision t d else err version_conflict

-- First the ticket, then its version, then the decision.
abbrev pub answer : Call → Actor → Request → Option Ticket → Result AppError Ticket
answer c a r none = err not_found
answer c a r (some t) =
    after_version (t.version == requested_version r) (outcome c a r t) (decide a r t)

-- Nothing is written where nothing changed.
abbrev pub unedited : List Update → Bool
unedited [] = true
unedited (u ∷ us) = false

abbrev pub writes : Request → Ticket → Bool
writes (update_content id v payload) t = not (unedited (edit_of t payload).changed)
writes _ t = true

abbrev pub table_after :
    Request → Option Ticket → Result AppError Ticket → List Ticket → List Ticket
table_after r none answered ts = ts
table_after r (some t) (err e) ts = ts
table_after r (some t) (ok u) ts = if writes r t then replace u ts else ts
