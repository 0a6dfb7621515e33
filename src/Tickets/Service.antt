-- ===== src/Tickets/Service.antt =====
-- backend/app/modules/tickets/service.py: each method of `TicketService` is an action on the
-- session. The methods take the tenant of the service, the clock and a fresh id as arguments.
pub mod Create
pub mod Lifecycle
pub mod Ownership
pub mod Content
pub mod Request
pub mod Spec
use python_fullstack.Base.{
  ℕ, ◌+◌, Bool, true, false, not, Option, none, some, List, [], ◌∷◌, ◌++◌, String, is_none, ◌==◌,
  if◌then◌else◌,
}
use python_fullstack.Base.Exec.{
  Exec, Result, ok, err, pure, raise, lift, modify, guard, ◌>>=◌, ◌>>◌,
}
use python_fullstack.Core.Errors.{AppError, internal, validation_failed, version_conflict}
use python_fullstack.Tickets.Enums.{
  Severity, Impact, Workaround, Priority, Priority-discrete, TicketStatus, open_, assigned,
  in_progress, on_hold, resolved, rejected, closed, Environment, RejectionReason, WaitingOn,
  derive_priority,
}
use python_fullstack.Tickets.Policies.{
  Actor, assert_transition_allowed, assert_can_assign, assert_can_edit_content,
  assert_can_transfer_team, assert_can_override_priority,
}
use python_fullstack.Tickets.Model.{
  Ticket, StatusHistory, Session, DomainEvent, ticket_created, Effect, invalidate_dashboards,
  emitted, ticket_facts,
}
use python_fullstack.Tickets.Model.Audit
use python_fullstack.Tickets.Model.Audit.{
  AuditAction, AuditLog, Changes, scrub?, null, of_id, of_text, of_status, of_priority, of_severity,
  of_impact, of_number, AuditValue,
}
use python_fullstack.Tickets.Repository.{get, replace, next_ticket_number}
use mathlib.Core.Logic.{ite}
use python_fullstack.Base.Text.{strip}
use Prim.Native.String.{◌++◌ as append}

abbrev pub M : Type 0 → Type 0
M A = Exec AppError Session A

-- The setting of one service call.
pub record Call : Type 0 where
  pub tenant : ℕ
  pub now : ℕ
  pub fresh_id : ℕ

-- `flush` of one ticket
unfoldable pub save : Ticket → M (Unit {0})
unfolding replace
save t s = (ok tt, record s { tickets = replace t s.tickets })

-- `_record_transition`
unfoldable pub record_transition :
    Call → Ticket → Option TicketStatus → TicketStatus → ℕ → Option String → M (Unit {0})
record_transition c t from_status to_status changed_by note s = (
  ok tt,
  record s {
    history =
        record {
          tenant_id = c.tenant;
          ticket_id = t.id;
          from_status = from_status;
          to_status = to_status;
          changed_by_id = changed_by;
          note = note;
        }
        ∷ s.history;
  },
)

-- `AuditService.record`
unfoldable pub record_audit :
    Call → Actor → AuditAction → Ticket → Option Changes → Option Changes → M (Unit {0})
record_audit c actor action t before after s = (
  ok tt,
  record s {
    audit =
        record {
          tenant_id = c.tenant;
          actor_id = actor.user_id;
          action = action;
          entity_id = t.id;
          before = scrub? before;
          after = scrub? after;
        }
        ∷ s.audit;
  },
)

-- `_invalidate_dashboards` and `emit`
unfoldable pub call_out : Effect → M (Unit {0})
call_out e s = (ok tt, record s { effects = e ∷ s.effects })

-- `_assert_version`
abbrev pub assert_version : Ticket → ℕ → M (Unit {0})
assert_version t version = guard (t.version == version) version_conflict

-- The assignments of `_set_status`.
abbrev pub keep_waiting : TicketStatus → Option WaitingOn → Option WaitingOn
keep_waiting on_hold w = w
keep_waiting _ w = none

abbrev pub with_status : TicketStatus → Ticket → Ticket
with_status to t = record t {
  status = to;
  on_hold_waiting_on = keep_waiting to t.on_hold_waiting_on;
}

-- `_set_status`
unfoldable pub set_status : Call → Ticket → TicketStatus → Actor → Option String → M Ticket
unfolding record_transition
set_status c t to_status actor note = do
  record_transition c t (some t.status) to_status actor.user_id note
  pure (with_status to_status t)

abbrev pub bump : Ticket → Ticket
bump t = record t { version = t.version + 1 }

-- `_transition`
unfoldable pub transition :
    Call → Actor → ℕ → ℕ → TicketStatus → AuditAction → Option String → M Ticket
unfolding set_status save record_audit get
transition c actor id version to_status action note = do
  t ← get c.tenant id
  assert_version t version
  lift (assert_transition_allowed actor (ticket_facts t) to_status)
  t' ← set_status c t to_status actor note
  save (bump t')
  record_audit c actor action t (some (("status", of_status t.status) ∷ []))
      (some (("status", of_status to_status) ∷ []))
  pure (bump t')
