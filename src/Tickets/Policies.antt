-- ===== src/Tickets/Policies.antt =====
-- backend/app/modules/tickets/policies.py: the transition table and the rules on ownership and
-- state. An assertion returns, or raises an application error.
pub mod Table
pub mod Closing
pub mod Actions
use mathlib.Core.Logic.{ite}
use python_fullstack.Base.{
  ℕ, Bool, true, false, not, ◌&&◌, ◌||◌, Option, none, some, List, [], ◌∷◌, ◌++◌, is_id, contains,
  ltb, ◌==◌, if◌then◌else◌,
}
use python_fullstack.Base.Exec.{Result, ok, err}
use python_fullstack.Core.Errors.{AppError, permission_denied, invalid_transition}
use python_fullstack.Core.Permissions.{
  Permission, Role, tenant_admin, cs_lead, cs_agent, team_manager, developer, ticket_update,
  ticket_assign, ticket_transition, ticket_resolve, ticket_close, ticket_reopen, ticket_reject,
  ticket_transfer_team, ticket_override_priority, comment_create, Role-discrete, holds,
}
use python_fullstack.Tickets.Enums.{
  TicketStatus, open_, assigned, in_progress, on_hold, resolved, rejected, closed,
  TicketStatus-discrete,
}

pub record Actor : Type 0 where
  pub user_id : ℕ
  pub role : Option Role
  pub permissions : List Permission
  pub team_ids : List ℕ

pub record TicketFacts : Type 0 where
  pub id : ℕ
  pub status : TicketStatus
  pub team_id : ℕ
  pub assignee_id : Option ℕ

-- `actor.has(permission)`
unfoldable pub has : Actor → Permission → Bool
unfolding holds
has actor p = holds actor.permissions p

-- `actor.role is role`
abbrev role_is : Option Role → Role → Bool
role_is none r = false
role_is (some q) r = ite (Role-discrete q r) true false

abbrev admin_role : Option Role → Bool
admin_role (some tenant_admin) = true
admin_role _ = false

abbrev cs_role : Option Role → Bool
cs_role (some cs_agent) = true
cs_role (some cs_lead) = true
cs_role _ = false

abbrev manager_role : Option Role → Bool
manager_role (some team_manager) = true
manager_role _ = false

abbrev pub is_admin : Actor → Bool
is_admin actor = admin_role actor.role

abbrev pub is_cs : Actor → Bool
is_cs actor = cs_role actor.role

abbrev pub is_manager : Actor → Bool
is_manager actor = manager_role actor.role

-- `TRANSITIONS`, in the order of the source.
pub record Transition : Type 0 where
  pub from_status : TicketStatus
  pub to_status : TicketStatus
  pub required : Permission

abbrev transition : TicketStatus → TicketStatus → Permission → Transition
transition f t p = record { from_status = f; to_status = t; required = p }

abbrev pub transitions : List Transition
transitions =
    transition open_ assigned ticket_assign
    ∷ transition assigned in_progress ticket_transition
    ∷ transition assigned on_hold ticket_transition
    ∷ transition assigned rejected ticket_reject
    ∷ transition in_progress on_hold ticket_transition
    ∷ transition in_progress resolved ticket_resolve
    ∷ transition in_progress rejected ticket_reject
    ∷ transition on_hold in_progress ticket_transition
    ∷ transition resolved closed ticket_close
    ∷ transition rejected closed ticket_close
    ∷ transition resolved assigned ticket_reopen
    ∷ transition rejected assigned ticket_reopen
    ∷ transition closed assigned ticket_reopen
    ∷ []

-- `TRANSITIONS.get((from, to))`
unfoldable pub find_transition : List Transition → TicketStatus → TicketStatus → Option Permission
unfolding TicketStatus-discrete
find_transition [] f t = none
find_transition (r ∷ rs) f t =
    let rest = find_transition rs f t in
    ite (TicketStatus-discrete r.from_status f)
      (ite (TicketStatus-discrete r.to_status t) (some r.required) rest) rest

-- `status in TRANSFERABLE_FROM`, `status in TERMINAL_STATUSES`
abbrev pub transferable_from : TicketStatus → Bool
transferable_from open_ = true
transferable_from assigned = true
transferable_from in_progress = true
transferable_from on_hold = true
transferable_from _ = false

abbrev pub terminal : TicketStatus → Bool
terminal closed = true
terminal _ = false

abbrev status_is : TicketStatus → TicketStatus → Bool
status_is a b = ite (TicketStatus-discrete a b) true false

-- the states that a reopening starts from
abbrev reopens_from : TicketStatus → Bool
reopens_from resolved = true
reopens_from rejected = true
reopens_from closed = true
reopens_from _ = false

abbrev is_closed : TicketStatus → Bool
is_closed closed = true
is_closed _ = false

abbrev is_assigned : TicketStatus → Bool
is_assigned assigned = true
is_assigned _ = false

abbrev is_open : TicketStatus → Bool
is_open open_ = true
is_open _ = false

-- the owner of the work: the assignee, or a manager of the owning team
unfoldable pub owns : Actor → TicketFacts → Bool
owns actor ticket =
    is_id ticket.assignee_id actor.user_id
    || (is_manager actor && contains actor.team_ids ticket.team_id)

unfoldable pub assert_can_act_on : Actor → TicketFacts → TicketStatus → Result AppError (Unit {0})
unfolding owns
assert_can_act_on actor ticket to_status =
    if is_admin actor
    then ok tt
    else if is_closed to_status || (is_assigned to_status && reopens_from ticket.status)
    then ok tt
    else if is_assigned to_status && is_open ticket.status
    then ok tt
    else if not (owns actor ticket)
    then err permission_denied
    else ok tt

abbrev check_transition :
    Actor → TicketFacts → TicketStatus → Option Permission → Result AppError (Unit {0})
check_transition actor ticket to_status none = err invalid_transition
check_transition actor ticket to_status (some required) =
    if not (has actor required)
    then err permission_denied
    else assert_can_act_on actor ticket to_status

unfoldable pub assert_transition_allowed :
    Actor → TicketFacts → TicketStatus → Result AppError (Unit {0})
unfolding find_transition assert_can_act_on has
assert_transition_allowed actor ticket to_status =
    check_transition actor ticket to_status (find_transition transitions ticket.status to_status)

-- The assignment rules by role. `assignee_id != actor.user_id` also holds of no assignee.
abbrev pub check_assign : Option Role → Actor → TicketFacts → Option ℕ → Result AppError (Unit {0})
check_assign (some tenant_admin) actor ticket assignee_id = ok tt
check_assign (some cs_lead) actor ticket assignee_id = ok tt
check_assign (some team_manager) actor ticket assignee_id =
    if not (contains actor.team_ids ticket.team_id) then err permission_denied else ok tt
check_assign (some developer) actor ticket assignee_id =
    if not (is_id assignee_id actor.user_id)
    then err permission_denied
    else if not (contains actor.team_ids ticket.team_id)
    then err permission_denied
    else ok tt
check_assign _ actor ticket assignee_id = err permission_denied

unfoldable pub assert_can_assign : Actor → TicketFacts → Option ℕ → Result AppError (Unit {0})
unfolding has
assert_can_assign actor ticket assignee_id =
    if not (has actor ticket_assign)
    then err permission_denied
    else if terminal ticket.status
    then err invalid_transition
    else check_assign actor.role actor ticket assignee_id

unfoldable pub assert_can_edit_content : Actor → TicketFacts → Result AppError (Unit {0})
unfolding has owns
assert_can_edit_content actor ticket =
    if not (has actor ticket_update)
    then err permission_denied
    else if terminal ticket.status
    then err invalid_transition
    else if is_admin actor || is_cs actor
    then ok tt
    else if not (owns actor ticket)
    then err permission_denied
    else ok tt

unfoldable pub assert_can_transfer_team : Actor → TicketFacts → Result AppError (Unit {0})
unfolding has
assert_can_transfer_team actor ticket =
    if not (has actor ticket_transfer_team)
    then err permission_denied
    else if not (transferable_from ticket.status)
    then err invalid_transition
    else ok tt

unfoldable pub assert_can_override_priority : Actor → TicketFacts → Result AppError (Unit {0})
unfolding has
assert_can_override_priority actor ticket =
    if not (has actor ticket_override_priority)
    then err permission_denied
    else if terminal ticket.status
    then err invalid_transition
    else ok tt

unfoldable pub assert_can_comment : Actor → TicketFacts → Result AppError (Unit {0})
unfolding has
assert_can_comment actor ticket =
    if not (has actor comment_create)
    then err permission_denied
    else if terminal ticket.status && not (is_cs actor || is_admin actor)
    then err invalid_transition
    else ok tt
