-- ===== src/Tickets/Policies/Actions/Offers.antt =====
-- The offered actions are exactly those that the state and the permissions allow, each once.
use python_fullstack.Base.{
  ℕ, ◌≡◌, ◌≢◌, refl, Bool, true, false, not, ◌&&◌, Option, none, some, List, ◌++◌, arith, inl, inr,
  Option-cases,
}
use python_fullstack.Base.Exec.{Result, ok, err}
use python_fullstack.Base.SortedSet.{member, sorted_set, IsAscending, sorted_set-IsAscending}
use python_fullstack.Core.Errors.{AppError}
use python_fullstack.Tickets.Enums.{
  TicketStatus, open_, assigned, in_progress, on_hold, resolved, rejected, closed,
}
use python_fullstack.Core.Permissions.{ticket_assign}
use python_fullstack.Tickets.Policies.{
  has, assert_can_assign, Actor, TicketFacts, transitions, assert_transition_allowed,
  assert_can_transfer_team, assert_can_override_priority,
}
use python_fullstack.Tickets.Policies.Actions.{
  Action, assign, close, hold, override_priority, reject, reopen, resolve, start, transfer_team,
  action_rank, table_actions, extra_actions, available_actions,
}

abbrev pub offers : List Action → Action → Bool
offers = member action_rank

abbrev passes : Result AppError (Unit {0}) → Bool
passes (ok u) = true
passes (err e) = false

abbrev accepts_open : TicketStatus → Bool
accepts_open open_ = true
accepts_open _ = false

abbrev facts : ℕ → TicketStatus → ℕ → Option ℕ → TicketFacts
facts id s team_id assignee_id = record {
  id = id;
  status = s;
  team_id = team_id;
  assignee_id = assignee_id;
}

-- What the check accepts that the endpoint of the action makes. `assign` is read apart: whoever holds
-- the permission, on a ticket of the inbox; `assert_can_assign` asks for more.
abbrev pub accepts : Actor → TicketFacts → Action → Bool
accepts actor ticket assign = has actor ticket_assign && accepts_open ticket.status
accepts actor ticket close = passes (assert_transition_allowed actor ticket closed)
accepts actor ticket hold = passes (assert_transition_allowed actor ticket on_hold)
accepts actor ticket override_priority = passes (assert_can_override_priority actor ticket)
accepts actor ticket reject = passes (assert_transition_allowed actor ticket rejected)
accepts actor ticket reopen =
    passes (assert_transition_allowed actor ticket assigned) && not (accepts_open ticket.status)
accepts actor ticket resolve = passes (assert_transition_allowed actor ticket resolved)
accepts actor ticket start = passes (assert_transition_allowed actor ticket in_progress)
accepts actor ticket transfer_team = passes (assert_can_transfer_team actor ticket)

abbrev pub is_offered : Option (List Action) → Action → Bool
is_offered none c = false
is_offered (some xs) c = offers xs c

table-ne-none :
    (actor : Actor) (id : ℕ) (s : TicketStatus) (team_id : ℕ) (assignee_id : Option ℕ)
    → table_actions actor (facts id s team_id assignee_id) transitions ≢ none
unfolding table_actions
table-ne-none actor id open_ team_id assignee_id = ground arith
table-ne-none actor id _ team_id assignee_id = ground arith

abbrev extra_accepts : Actor → TicketFacts → Action → Bool
extra_accepts actor ticket override_priority = accepts actor ticket override_priority
extra_accepts actor ticket transfer_team = accepts actor ticket transfer_team
extra_accepts actor ticket _ = false

abbrev table_accepts : Actor → TicketFacts → Action → Bool
table_accepts actor ticket override_priority = false
table_accepts actor ticket transfer_team = false
table_accepts actor ticket c = accepts actor ticket c

-- The list of actions is computed for every actor and ticket, since no transition lacks a display
-- name, and it is in ascending order without repetition.
pub available_actions_total :
    (actor : Actor) (ticket : TicketFacts)
    → (xs : List Action) × (available_actions actor ticket ≡ some xs) × IsAscending action_rank xs
unfolding available_actions
available_actions_total actor ticket =
    elim (Option-cases (table_actions actor ticket transitions)) [
      | inl e ↦
          absurd (table-ne-none actor ticket.id ticket.status ticket.team_id ticket.assignee_id e)
      | inr (xs, e) ↦ (
        sorted_set action_rank (xs ++ extra_actions actor ticket),
        rw e refl,
        sorted_set-IsAscending action_rank (xs ++ extra_actions actor ticket),
      )
    ]

-- `assign` asked for a ticket of the inbox, and granted by its endpoint
abbrev pub is_granted : Actor → TicketFacts → Option ℕ → Bool
is_granted actor ticket assignee =
    accepts_open ticket.status && passes (assert_can_assign actor ticket assignee)
