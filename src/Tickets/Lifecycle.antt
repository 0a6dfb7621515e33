-- ===== src/Tickets/Lifecycle.antt =====
-- The life of a ticket under the service: what holds of every row between two requests.
pub mod Rows
pub mod Sessions
use python_fullstack.Base.{
  ℕ, ◌<◌, ◌≡◌, Bool, true, false, not, ◌&&◌, ◌||◌, Option, none, some, is_none,
}
use python_fullstack.Tickets.Enums.{
  TicketStatus, open_, assigned, in_progress, on_hold, resolved, rejected, closed, derive_priority,
}
use python_fullstack.Tickets.Policies.{terminal}
use python_fullstack.Tickets.Model.{Ticket}

-- Engineering is done with the ticket.
abbrev pub finished : TicketStatus → Bool
finished resolved = true
finished rejected = true
finished closed = true
finished _ = false

abbrev pub held : TicketStatus → Bool
held on_hold = true
held _ = false

-- How a ticket in a status is explained, by its resolution notes and its rejection reason: a
-- resolved one has the first, a rejected one the second, a closed one either, and a live one none.
abbrev pub explained : TicketStatus → (no_notes no_reason : Bool) → Bool
explained resolved no_notes no_reason = not no_notes && no_reason
explained rejected no_notes no_reason = no_notes && not no_reason
explained closed no_notes no_reason = (not no_notes && no_reason) || (no_notes && not no_reason)
explained _ no_notes no_reason = no_notes && no_reason

pub record IsWellFormed (t : Ticket) : Type 0 where
  pub inbox : t.status ≡ open_ → t.assignee_id ≡ none
  pub holding : is_none t.on_hold_waiting_on ≡ not (held t.status)
  pub finishing : is_none t.resolved_at ≡ not (finished t.status)
  pub closing : is_none t.closed_at ≡ not (terminal t.status)
  pub explaining :
      explained t.status (is_none t.resolution_notes) (is_none t.rejection_reason) ≡ true
  pub deriving_ :
      t.priority_overridden ≡ false
      → derive_priority t.severity t.impact t.workaround ≡ some t.priority
  pub overriding : t.priority_overridden ≡ true → is_none t.priority_override_reason ≡ false
  pub counted : 0 < t.version
