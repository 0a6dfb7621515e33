-- ===== src/Tickets/Service/Ownership.antt =====
-- `TicketService.assign`, `transfer_team` and `override_priority`.
use python_fullstack.Base.{ℕ, Bool, true, false, not, Option, none, some, [], ◌∷◌, String, ◌==◌}
use python_fullstack.Base.Exec.{pure, lift, guard, ◌>>=◌, ◌>>◌}
use python_fullstack.Core.Errors.{validation_failed}
use python_fullstack.Tickets.Enums.{Priority, Priority-discrete, TicketStatus, open_, assigned}
use python_fullstack.Tickets.Policies.{
  Actor, assert_can_assign, assert_can_transfer_team, assert_can_override_priority,
}
use python_fullstack.Tickets.Model.{Ticket, invalidate_dashboards, ticket_facts}
use python_fullstack.Tickets.Model.Audit
use python_fullstack.Tickets.Model.Audit.{
  AuditAction, AuditLog, Changes, scrub?, null, of_id, of_text, of_status, of_priority, of_severity,
  of_impact, of_number, AuditValue,
}
use python_fullstack.Tickets.Repository.{get}
use mathlib.Core.Logic.{ite}
use Prim.Native.String.{◌++◌ as append}
use python_fullstack.Tickets.Service.{
  M, Call, save, record_audit, call_out, assert_version, set_status, bump,
}

-- the status that an assignment drives, with the note of its history row
abbrev pub drive_status : Call → Actor → Option ℕ → TicketStatus → Ticket → M Ticket
drive_status c actor none assigned t = set_status c t open_ actor (some "Unassigned")
drive_status c actor (some u) open_ t = set_status c t assigned actor (some "Assigned")
drive_status c actor _ _ t = pure t

abbrev audit_id : Option ℕ → AuditValue
audit_id none = null
audit_id (some n) = of_id n

unfoldable pub assign : Call → Actor → ℕ → ℕ → Option ℕ → M Ticket
unfolding get set_status save record_audit call_out
assign c actor id version assignee_id = do
  t ← get c.tenant id
  assert_version t version
  lift (assert_can_assign actor (ticket_facts t) assignee_id)
  t' ← drive_status c actor assignee_id t.status (record t { assignee_id = assignee_id })
  save (bump t')
  record_audit c actor Audit.ticket_assigned t (some (("assignee_id", audit_id t.assignee_id) ∷ []))
      (some (("assignee_id", audit_id assignee_id) ∷ []))
  call_out (invalidate_dashboards c.tenant)
  pure (bump t')

-- `ticket.status is not TicketStatus.OPEN`
abbrev pub to_inbox : Call → Actor → String → TicketStatus → Ticket → M Ticket
to_inbox c actor reason open_ t = pure t
to_inbox c actor reason _ t = set_status c t open_ actor (some (append "Transferred: " reason))

unfoldable pub transfer_team : Call → Actor → ℕ → ℕ → ℕ → String → M Ticket
unfolding get set_status save record_audit call_out
transfer_team c actor id version team_id reason = do
  t ← get c.tenant id
  assert_version t version
  lift (assert_can_transfer_team actor (ticket_facts t))
  guard (not (team_id == t.team_id)) validation_failed
  t' ← to_inbox c actor reason t.status (record t { team_id = team_id; assignee_id = none })
  save (bump t')
  record_audit c actor Audit.ticket_team_transferred t (some (("team_id", of_id t.team_id) ∷ []))
      (some (("team_id", of_id team_id) ∷ ("reason", of_text reason) ∷ []))
  call_out (invalidate_dashboards c.tenant)
  pure (bump t')

abbrev pub same_priority : Priority → Priority → Bool
same_priority p q = ite (Priority-discrete p q) true false

unfoldable pub override_priority : Call → Actor → ℕ → ℕ → Priority → String → M Ticket
unfolding get save record_audit Priority-discrete
override_priority c actor id version priority reason = do
  t ← get c.tenant id
  assert_version t version
  lift (assert_can_override_priority actor (ticket_facts t))
  guard (not (same_priority priority t.priority)) validation_failed
  let t' = record t {
    priority = priority;
    priority_overridden = true;
    priority_override_reason = some reason;
    priority_overridden_by_id = some actor.user_id;
  }
  save (bump t')
  record_audit c actor Audit.ticket_priority_overridden t
      (some (("priority", of_priority t.priority) ∷ []))
      (some (("priority", of_priority priority) ∷ ("reason", of_text reason) ∷ []))
  pure (bump t')
