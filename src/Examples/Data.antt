-- ===== src/Examples/Data.antt =====
-- The people and tickets that the examples share.
use python_fullstack.Base.{ℕ, false, none, some, [], ◌∷◌}
use python_fullstack.Core.Permissions.{Role, cs_agent, cs_lead, developer, permissions_for}
use python_fullstack.Tickets.Enums.{
  TicketStatus, in_progress, p2, s2_major, department, painful, production,
}
use python_fullstack.Tickets.Policies.{Actor, TicketFacts}
use python_fullstack.Tickets.Model.{Ticket, Session}
use python_fullstack.Tickets.Service.{Call}

abbrev pub person : ℕ → Role → Actor
person id r = record {
  user_id = id;
  role = some r;
  permissions = permissions_for r;
  team_ids = 7 ∷ [];
}

abbrev pub agent : Actor
agent = person 1 cs_agent

abbrev pub dev : Actor
dev = person 2 developer

abbrev pub lead : Actor
lead = person 3 cs_lead

abbrev pub facts : TicketStatus → TicketFacts
facts s = record { id = 10; status = s; team_id = 7; assignee_id = some 2 }

abbrev pub ticket : Ticket
ticket = record {
  id = 10;
  tenant_id = 5;
  ticket_number = 1;
  title = "Payslip";
  description = "Payslip shows last month";
  steps_to_reproduce = none;
  expected_result = none;
  actual_result = none;
  environment = production;
  client_id = 4;
  reporter_name = none;
  reporter_email = none;
  created_by_id = 1;
  team_id = 7;
  assignee_id = some 2;
  severity = s2_major;
  impact = department;
  workaround = painful;
  priority = p2;
  priority_overridden = false;
  priority_override_reason = none;
  priority_overridden_by_id = none;
  status = in_progress;
  on_hold_waiting_on = none;
  resolution_notes = none;
  rejection_reason = none;
  ado_work_item_url = none;
  reopen_count = 0;
  resolved_at = none;
  closed_at = none;
  created_at = 0;
  deleted_at = none;
  version = 3;
}

abbrev pub session : Session
session = record {
  tickets = ticket ∷ [];
  counters = (5, 1) ∷ [];
  history = [];
  audit = [];
  effects = [];
}

abbrev pub call : Call
call = record { tenant = 5; now = 100; fresh_id = 11 }
