-- ===== src/Tickets/Service/Content.antt =====
-- `TicketService.update_content`.
use text.Mathlib.Text.{◌==◌ as str_eq}
use mathlib.Core.Logic.{ite}
use python_fullstack.Base.{
  ℕ, Bool, true, false, ◌||◌, Option, none, some, List, [], ◌∷◌, ◌++◌, String, ◌==◌, if◌then◌else◌,
}
use python_fullstack.Base.Exec.{ok, pure, lift, ◌>>=◌, ◌>>◌}
use python_fullstack.Tickets.Enums.{Environment, Environment-discrete}
use python_fullstack.Tickets.Policies.{Actor, assert_can_edit_content}
use python_fullstack.Tickets.Model.{Ticket, ticket_content_changed, emitted, ticket_facts}
use python_fullstack.Tickets.Model.Audit
use python_fullstack.Tickets.Model.Audit.{Changes, AuditValue, null, of_text, of_id, of_environment}
use python_fullstack.Tickets.Repository.{get}
use python_fullstack.Tickets.Service.{M, Call, save, record_audit, call_out, assert_version, bump}

-- schemas.TicketContentUpdate without `version`. A field that is unset or `None` is skipped by the
-- loop either way, so both are `none`.
pub record TicketContentUpdate : Type 0 where
  pub title : Option String
  pub description : Option String
  pub steps_to_reproduce : Option String
  pub expected_result : Option String
  pub actual_result : Option String
  pub environment : Option Environment
  pub client_id : Option ℕ
  pub reporter_name : Option String
  pub reporter_email : Option String
  pub ado_work_item_url : Option String

-- One entry of `updates.items()`: a name of `CONTENT_FIELDS` and its new value.
pub data Update : Type 0 where
  title description steps_to_reproduce expected_result actual_result : String → Update
  environment : Environment → Update
  client_id : ℕ → Update
  reporter_name reporter_email ado_work_item_url : String → Update

abbrev entry : {A : Type 0} → (A → Update) → Option A → List Update → List Update
entry f none rest = rest
entry f (some a) rest = f a ∷ rest

-- `payload.model_dump(...)`, in the order of the fields
unfoldable pub updates : TicketContentUpdate → List Update
updates p = entry title p.title (
    entry description p.description (
      entry steps_to_reproduce p.steps_to_reproduce (
        entry expected_result p.expected_result (
          entry actual_result p.actual_result (
            entry environment p.environment (
              entry client_id p.client_id (
                entry reporter_name p.reporter_name (
                  entry reporter_email p.reporter_email
                    (entry ado_work_item_url p.ado_work_item_url [])))))))))

unfoldable pub field_name : Update → String
field_name (title v) = "title"
field_name (description v) = "description"
field_name (steps_to_reproduce v) = "steps_to_reproduce"
field_name (expected_result v) = "expected_result"
field_name (actual_result v) = "actual_result"
field_name (environment v) = "environment"
field_name (client_id v) = "client_id"
field_name (reporter_name v) = "reporter_name"
field_name (reporter_email v) = "reporter_email"
field_name (ado_work_item_url v) = "ado_work_item_url"

abbrev is_text : Option String → String → Bool
is_text none b = false
is_text (some a) b = str_eq a b

-- `current == value`
unfoldable pub holds_already : Ticket → Update → Bool
unfolding Environment-discrete
holds_already t (title v) = str_eq t.title v
holds_already t (description v) = str_eq t.description v
holds_already t (steps_to_reproduce v) = is_text t.steps_to_reproduce v
holds_already t (expected_result v) = is_text t.expected_result v
holds_already t (actual_result v) = is_text t.actual_result v
holds_already t (environment v) = ite (Environment-discrete t.environment v) true false
holds_already t (client_id v) = t.client_id == v
holds_already t (reporter_name v) = is_text t.reporter_name v
holds_already t (reporter_email v) = is_text t.reporter_email v
holds_already t (ado_work_item_url v) = is_text t.ado_work_item_url v

abbrev audit_text : Option String → AuditValue
audit_text none = null
audit_text (some s) = of_text s

-- `before[field_name]` and `after[field_name]`
unfoldable pub old_value : Ticket → Update → AuditValue
old_value t (title v) = of_text t.title
old_value t (description v) = of_text t.description
old_value t (steps_to_reproduce v) = audit_text t.steps_to_reproduce
old_value t (expected_result v) = audit_text t.expected_result
old_value t (actual_result v) = audit_text t.actual_result
old_value t (environment v) = of_environment t.environment
old_value t (client_id v) = of_id t.client_id
old_value t (reporter_name v) = audit_text t.reporter_name
old_value t (reporter_email v) = audit_text t.reporter_email
old_value t (ado_work_item_url v) = audit_text t.ado_work_item_url

unfoldable pub new_value : Update → AuditValue
new_value (environment v) = of_environment v
new_value (client_id v) = of_id v
new_value (title v) = of_text v
new_value (description v) = of_text v
new_value (steps_to_reproduce v) = of_text v
new_value (expected_result v) = of_text v
new_value (actual_result v) = of_text v
new_value (reporter_name v) = of_text v
new_value (reporter_email v) = of_text v
new_value (ado_work_item_url v) = of_text v

-- `setattr(ticket, field_name, value)`
unfoldable pub set_field : Update → Ticket → Ticket
set_field (title v) t = record t { title = v }
set_field (description v) t = record t { description = v }
set_field (steps_to_reproduce v) t = record t { steps_to_reproduce = some v }
set_field (expected_result v) t = record t { expected_result = some v }
set_field (actual_result v) t = record t { actual_result = some v }
set_field (environment v) t = record t { environment = v }
set_field (client_id v) t = record t { client_id = v }
set_field (reporter_name v) t = record t { reporter_name = some v }
set_field (reporter_email v) t = record t { reporter_email = some v }
set_field (ado_work_item_url v) t = record t { ado_work_item_url = some v }

-- The loop's variables: the ticket, and the updates that changed it, each with its `before`.
pub record Edit : Type 0 where
  pub ticket : Ticket
  pub before : Changes
  pub after : Changes
  pub changed : List Update

unfoldable pub apply_update : Edit → Update → Edit
unfolding holds_already field_name old_value new_value set_field
apply_update e u = if holds_already e.ticket u then e else record {
  ticket = set_field u e.ticket;
  before = e.before ++ (field_name u, old_value e.ticket u) ∷ [];
  after = e.after ++ (field_name u, new_value u) ∷ [];
  changed = e.changed ++ u ∷ [];
}

unfoldable pub apply_updates : Edit → List Update → Edit
unfolding apply_update
apply_updates e [] = e
apply_updates e (u ∷ us) = apply_updates (apply_update e u) us

abbrev is_embedded : Update → Bool
is_embedded (title v) = true
is_embedded (description v) = true
is_embedded (steps_to_reproduce v) = true
is_embedded _ = false

-- `any(field in after for field in (...))`
abbrev pub any_embedded : List Update → Bool
any_embedded [] = false
any_embedded (u ∷ us) = is_embedded u || any_embedded us

abbrev pub edit_of : Ticket → TicketContentUpdate → Edit
edit_of t payload =
    apply_updates (record { ticket = t; before = []; after = []; changed = [] }) (updates payload)

abbrev pub announce : Call → Ticket → List Update → M (Unit {0})
announce c t changed s =
    if any_embedded changed
    then call_out (emitted ticket_content_changed c.tenant t.id) s
    else (ok tt, s)

-- what follows the loop; `if not after: return ticket`
unfoldable pub finish_edit : Call → Actor → Edit → List Update → M Ticket
unfolding save record_audit call_out
finish_edit c actor e [] = pure e.ticket
finish_edit c actor e (u ∷ us) = do
  save (bump e.ticket)
  record_audit c actor Audit.ticket_updated e.ticket (some e.before) (some e.after)
  announce c e.ticket e.changed
  pure (bump e.ticket)

unfoldable pub update_content : Call → Actor → ℕ → ℕ → TicketContentUpdate → M Ticket
unfolding get
update_content c actor id version payload = do
  t ← get c.tenant id
  assert_version t version
  lift (assert_can_edit_content actor (ticket_facts t))
  finish_edit c actor (edit_of t payload) (edit_of t payload).changed
