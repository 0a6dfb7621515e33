-- ===== src/Tickets/Service/Request.antt =====
-- The mutating calls of `TicketService` as one type, and runs of them.
use python_fullstack.Base.{ℕ, Option, List, [], ◌∷◌, String}
use python_fullstack.Tickets.Enums.{Priority, RejectionReason, WaitingOn}
use python_fullstack.Tickets.Policies.{Actor}
use python_fullstack.Tickets.Model.{Ticket, Session}
use python_fullstack.Tickets.Service.{M, Call}
use python_fullstack.Tickets.Service.Create
use python_fullstack.Tickets.Service.Create.{TicketCreate}
use python_fullstack.Tickets.Service.Lifecycle
use python_fullstack.Tickets.Service.Ownership
use python_fullstack.Tickets.Service.Content
use python_fullstack.Tickets.Service.Content.{TicketContentUpdate}

-- Each carries the ticket's id and the version that the client read.
pub data Request : Type 0 where
  create : TicketCreate → Request
  update_content : ℕ → ℕ → TicketContentUpdate → Request
  assign : ℕ → ℕ → Option ℕ → Request
  start : ℕ → ℕ → Request
  hold : ℕ → ℕ → WaitingOn → Option String → Request
  resolve : ℕ → ℕ → String → Request
  reject : ℕ → ℕ → RejectionReason → String → Request
  close : ℕ → ℕ → Option String → Request
  reopen : ℕ → ℕ → String → Request
  transfer_team : ℕ → ℕ → ℕ → String → Request
  override_priority : ℕ → ℕ → Priority → String → Request

unfoldable pub execute : Call → Actor → Request → M Ticket
execute c a (create payload) = Create.create c a payload
execute c a (update_content id v payload) = Content.update_content c a id v payload
execute c a (assign id v u) = Ownership.assign c a id v u
execute c a (start id v) = Lifecycle.start c a id v
execute c a (hold id v w note) = Lifecycle.hold c a id v w note
execute c a (resolve id v notes) = Lifecycle.resolve c a id v notes
execute c a (reject id v reason note) = Lifecycle.reject c a id v reason note
execute c a (close id v note) = Lifecycle.close c a id v note
execute c a (reopen id v reason) = Lifecycle.reopen c a id v reason
execute c a (transfer_team id v team reason) = Ownership.transfer_team c a id v team reason
execute c a (override_priority id v p reason) = Ownership.override_priority c a id v p reason

-- Requests one after the other, each by its actor; an error is answered and the next one runs.
unfoldable pub serve : Session → List (Call × Actor × Request) → Session
serve s [] = s
serve s ((c, a, r) ∷ rest) = serve (execute c a r s).1 rest
