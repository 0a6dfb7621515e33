-- ===== src/Tickets/Service/Lifecycle.antt =====
-- The status changes of `TicketService`: start, hold, resolve, reject, close, reopen.
use python_fullstack.Base.{ℕ, ◌+◌, Option, none, some, String}
use python_fullstack.Base.Exec.{pure, ◌>>=◌, ◌>>◌}
use python_fullstack.Tickets.Enums.{
  assigned, in_progress, on_hold, resolved, rejected, closed, RejectionReason, WaitingOn,
}
use python_fullstack.Tickets.Policies.{Actor}
use python_fullstack.Tickets.Model.{Ticket, invalidate_dashboards}
use python_fullstack.Tickets.Model.Audit
use python_fullstack.Tickets.Model.Audit.{
  AuditAction, AuditLog, Changes, scrub?, null, of_id, of_text, of_status, of_priority, of_severity,
  of_impact, of_number, AuditValue,
}
use python_fullstack.Tickets.Service.{M, Call, save, call_out, transition}

unfoldable pub start : Call → Actor → ℕ → ℕ → M Ticket
unfolding transition
start c actor id version = transition c actor id version in_progress Audit.ticket_transitioned none

unfoldable pub hold : Call → Actor → ℕ → ℕ → WaitingOn → Option String → M Ticket
unfolding transition save
hold c actor id version waiting_on note = do
  t ← transition c actor id version on_hold Audit.ticket_transitioned note
  let t' = record t { on_hold_waiting_on = some waiting_on }
  save t'
  pure t'

unfoldable pub resolve : Call → Actor → ℕ → ℕ → String → M Ticket
unfolding transition save
resolve c actor id version notes = do
  t ← transition c actor id version resolved Audit.ticket_resolved (some "Resolved")
  let t' = record t {
    on_hold_waiting_on = none;
    resolution_notes = some notes;
    resolved_at = some c.now;
  }
  save t'
  pure t'

unfoldable pub reject : Call → Actor → ℕ → ℕ → RejectionReason → String → M Ticket
unfolding transition save
reject c actor id version reason note = do
  t ← transition c actor id version rejected Audit.ticket_rejected (some note)
  let t' = record t {
    on_hold_waiting_on = none;
    rejection_reason = some reason;
    resolved_at = some c.now;
  }
  save t'
  pure t'

unfoldable pub close : Call → Actor → ℕ → ℕ → Option String → M Ticket
unfolding transition save call_out
close c actor id version note = do
  t ← transition c actor id version closed Audit.ticket_closed note
  let t' = record t { closed_at = some c.now }
  save t'
  call_out (invalidate_dashboards c.tenant)
  pure t'

unfoldable pub reopen : Call → Actor → ℕ → ℕ → String → M Ticket
unfolding transition save call_out
reopen c actor id version reason = do
  t ← transition c actor id version assigned Audit.ticket_reopened (some reason)
  let t' = record t {
    resolution_notes = none;
    rejection_reason = none;
    reopen_count = t.reopen_count + 1;
    resolved_at = none;
    closed_at = none;
  }
  save t'
  call_out (invalidate_dashboards c.tenant)
  pure t'
