-- ===== src/Tickets/Service/Create.antt =====
-- `TicketService.create`.
use python_fullstack.Base.{ℕ, false, Option, none, some, [], ◌∷◌, String}
use python_fullstack.Base.Exec.{ok, err, pure, ◌>>=◌, ◌>>◌}
use python_fullstack.Core.Errors.{internal}
use python_fullstack.Tickets.Enums.{
  Severity, Impact, Workaround, Priority, TicketStatus, open_, assigned, Environment,
  derive_priority,
}
use python_fullstack.Tickets.Policies.{Actor}
use python_fullstack.Tickets.Model.{Ticket, ticket_created, invalidate_dashboards, emitted}
use python_fullstack.Tickets.Model.Audit
use python_fullstack.Tickets.Model.Audit.{
  AuditAction, AuditLog, Changes, scrub?, null, of_id, of_text, of_status, of_priority, of_severity,
  of_impact, of_number, AuditValue,
}
use python_fullstack.Tickets.Repository.{next_ticket_number}
use python_fullstack.Base.Text.{strip}
use python_fullstack.Tickets.Service.{M, Call, record_transition, record_audit, call_out}

-- `payload` of `create`: schemas.TicketCreate
pub record TicketCreate : Type 0 where
  pub title : String
  pub description : String
  pub client_id : ℕ
  pub team_id : ℕ
  pub environment : Environment
  pub severity : Severity
  pub impact : Impact
  pub workaround : Workaround
  pub steps_to_reproduce : Option String
  pub expected_result : Option String
  pub actual_result : Option String
  pub reporter_name : Option String
  pub reporter_email : Option String
  pub assignee_id : Option ℕ

abbrev assigned_if : Option ℕ → TicketStatus
assigned_if none = open_
assigned_if (some u) = assigned

abbrev pub draft : Call → Actor → TicketCreate → ℕ → Priority → Ticket
draft c actor payload number priority = record {
  id = c.fresh_id;
  tenant_id = c.tenant;
  ticket_number = number;
  title = strip payload.title;
  description = payload.description;
  steps_to_reproduce = payload.steps_to_reproduce;
  expected_result = payload.expected_result;
  actual_result = payload.actual_result;
  environment = payload.environment;
  client_id = payload.client_id;
  reporter_name = payload.reporter_name;
  reporter_email = payload.reporter_email;
  created_by_id = actor.user_id;
  team_id = payload.team_id;
  assignee_id = payload.assignee_id;
  severity = payload.severity;
  impact = payload.impact;
  workaround = payload.workaround;
  priority = priority;
  priority_overridden = false;
  priority_override_reason = none;
  priority_overridden_by_id = none;
  status = assigned_if payload.assignee_id;
  on_hold_waiting_on = none;
  resolution_notes = none;
  rejection_reason = none;
  ado_work_item_url = none;
  reopen_count = 0;
  resolved_at = none;
  closed_at = none;
  created_at = c.now;
  deleted_at = none;
  version = 1;
}

-- `next_ticket_number` in the session
unfoldable pub allocate : Call → M ℕ
unfolding next_ticket_number
allocate c s =
    let (n, rows) = next_ticket_number c.tenant s.counters in (ok n, record s { counters = rows })

-- `TicketRepository.add`
unfoldable pub add_ticket : Ticket → M (Unit {0})
add_ticket t s = (ok tt, record s { tickets = t ∷ s.tickets })

abbrev pub derived : Option Priority → M Priority
derived none s = (err internal, s)
derived (some p) s = (ok p, s)

unfoldable pub create : Call → Actor → TicketCreate → M Ticket
unfolding allocate add_ticket record_transition record_audit call_out
create c actor payload = do
  priority ← derived (derive_priority payload.severity payload.impact payload.workaround)
  number ← allocate c
  let t = draft c actor payload number priority
  add_ticket t
  record_transition c t none t.status actor.user_id (some "Created")
  record_audit c actor Audit.ticket_created t none (
      some (
        ("ticket_number", of_number number)
        ∷ ("priority", of_priority priority)
        ∷ ("severity", of_severity payload.severity)
        ∷ ("impact", of_impact payload.impact)
        ∷ ("team_id", of_id payload.team_id)
        ∷ ("client_id", of_id payload.client_id)
        ∷ []))
  call_out (invalidate_dashboards c.tenant)
  call_out (emitted ticket_created c.tenant t.id)
  pure t
