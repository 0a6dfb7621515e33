-- ===== src/Tickets/Policies/Actions.antt =====
-- `available_actions` of tickets/policies.py: the buttons offered on a ticket.
pub mod Offers
use mathlib.Core.Logic.{ite}
use python_fullstack.Base.{
  ℕ, Bool, true, false, not, ◌&&◌, ◌||◌, Option, none, some, List, [], ◌∷◌, ◌++◌, if◌then◌else◌,
}
use python_fullstack.Base.SortedSet.{sorted_set}
use python_fullstack.Base.Exec.{Result, ok, err}
use python_fullstack.Core.Errors.{AppError}
use python_fullstack.Core.Permissions.{ticket_transfer_team, ticket_override_priority}
use python_fullstack.Tickets.Enums.{
  TicketStatus, open_, assigned, in_progress, on_hold, resolved, rejected, closed,
  TicketStatus-discrete,
}
use python_fullstack.Tickets.Policies.{
  Actor, TicketFacts, Transition, transitions, has, transferable_from, terminal, assert_can_act_on,
}

-- The display names, in the alphabetical order of their texts.
pub data Action : Type 0 where
  assign close hold override_priority reject reopen resolve start transfer_team : Action

abbrev pub action_rank : Action → ℕ
action_rank assign = 0
action_rank close = 1
action_rank hold = 2
action_rank override_priority = 3
action_rank reject = 4
action_rank reopen = 5
action_rank resolve = 6
action_rank start = 7
action_rank transfer_team = 8

-- `_ACTION_NAMES[(from, to)]`; `none` is a KeyError.
unfoldable pub action_name : TicketStatus → TicketStatus → Option Action
action_name open_ assigned = some assign
action_name assigned in_progress = some start
action_name assigned on_hold = some hold
action_name assigned rejected = some reject
action_name in_progress on_hold = some hold
action_name in_progress resolved = some resolve
action_name in_progress rejected = some reject
action_name on_hold in_progress = some start
action_name resolved closed = some close
action_name rejected closed = some close
action_name resolved assigned = some reopen
action_name rejected assigned = some reopen
action_name closed assigned = some reopen
action_name _ _ = none

-- `actions.append(_ACTION_NAMES[...])` unless the ownership check raised
abbrev offer :
    Result AppError (Unit {0}) → Option Action → Option (List Action) → Option (List Action)
offer (err e) name rest = rest
offer (ok u) none rest = none
offer (ok u) (some a) none = none
offer (ok u) (some a) (some actions) = some (a ∷ actions)

-- the loop over `TRANSITIONS.items()`
unfoldable pub table_actions : Actor → TicketFacts → List Transition → Option (List Action)
unfolding TicketStatus-discrete action_name
table_actions actor ticket [] = some []
table_actions actor ticket (r ∷ rs) =
    let rest = table_actions actor ticket rs in
    let same = ite (TicketStatus-discrete r.from_status ticket.status) true false in
    if not same || not (has actor r.required)
    then rest
    else offer (assert_can_act_on actor ticket r.to_status) (action_name r.from_status r.to_status)
        rest

-- the two appends that follow the loop
unfoldable pub extra_actions : Actor → TicketFacts → List Action
extra_actions actor ticket =
    (if transferable_from ticket.status && has actor ticket_transfer_team
      then transfer_team ∷ []
      else [])
    ++ (if not (terminal ticket.status) && has actor ticket_override_priority
        then override_priority ∷ []
        else [])

-- `sorted(set(actions))`
abbrev finish_actions : Option (List Action) → List Action → Option (List Action)
finish_actions none extra = none
finish_actions (some actions) extra = some (sorted_set action_rank (actions ++ extra))

unfoldable pub available_actions : Actor → TicketFacts → Option (List Action)
unfolding table_actions extra_actions
available_actions actor ticket =
    finish_actions (table_actions actor ticket transitions) (extra_actions actor ticket)
