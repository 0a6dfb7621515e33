-- ===== src/Tickets/Model.antt =====
-- backend/app/modules/tickets/models.py and the rows that the ticket service writes: tickets, status
-- history and audit log. A UUID, a timestamp and a date are natural numbers; the columns that the
-- database alone maintains (`updated_at`, `search_vector`) are left out, and so is
-- `duplicate_of_id`, which nothing reads or writes.
pub mod Audit
use python_fullstack.Base.{
  ℕ, ◌+◌, Bool, true, false, ◌&&◌, Option, none, some, List, [], ◌∷◌, ◌++◌, String, is_none, ◌==◌,
  if◌then◌else◌,
}
use python_fullstack.Tickets.Enums.{
  Severity, Impact, Workaround, Priority, TicketStatus, on_hold, Environment, RejectionReason,
  WaitingOn,
}
use python_fullstack.Tickets.Policies.{TicketFacts}
use Audit.{AuditLog}

pub record Ticket : Type 0 where
  pub id : ℕ
  pub tenant_id : ℕ
  pub ticket_number : ℕ
  pub title : String
  pub description : String
  pub steps_to_reproduce : Option String
  pub expected_result : Option String
  pub actual_result : Option String
  pub environment : Environment
  pub client_id : ℕ
  pub reporter_name : Option String
  pub reporter_email : Option String
  pub created_by_id : ℕ
  pub team_id : ℕ
  pub assignee_id : Option ℕ
  pub severity : Severity
  pub impact : Impact
  pub workaround : Workaround
  pub priority : Priority
  pub priority_overridden : Bool
  pub priority_override_reason : Option String
  pub priority_overridden_by_id : Option ℕ
  pub status : TicketStatus
  pub on_hold_waiting_on : Option WaitingOn
  pub resolution_notes : Option String
  pub rejection_reason : Option RejectionReason
  pub ado_work_item_url : Option String
  pub reopen_count : ℕ
  pub resolved_at : Option ℕ
  pub closed_at : Option ℕ
  pub created_at : ℕ
  pub deleted_at : Option ℕ
  pub version : ℕ

pub record StatusHistory : Type 0 where
  pub tenant_id : ℕ
  pub ticket_id : ℕ
  pub from_status : Option TicketStatus
  pub to_status : TicketStatus
  pub changed_by_id : ℕ
  pub note : Option String

pub data DomainEvent : Type 0 where
  ticket_created ticket_content_changed ticket_deleted : DomainEvent

-- What the service asks of the cache and of the event bus, in the order in which it asks.
pub data Effect : Type 0 where
  invalidate_dashboards : ℕ → Effect
  emitted : DomainEvent → ℕ → ℕ → Effect

-- What a transaction sees and writes: the tables, `tenant_counters` and the calls made. The newest
-- row of a log is its first.
pub record Session : Type 0 where
  pub tickets : List Ticket
  pub counters : List (ℕ × ℕ)
  pub history : List StatusHistory
  pub audit : List AuditLog
  pub effects : List Effect

-- `ticket_facts`
abbrev pub ticket_facts : Ticket → TicketFacts
ticket_facts t = record {
  id = t.id;
  status = t.status;
  team_id = t.team_id;
  assignee_id = t.assignee_id;
}
