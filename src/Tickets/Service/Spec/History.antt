-- ===== src/Tickets/Service/Spec/History.antt =====
-- The status history that the methods of `TicketService` write.
use Prim.Native.String.{◌++◌ as append}
use python_fullstack.Base.{
  ℕ, ◌≡◌, refl, sym, inl, inr, false, Option, none, some, List, [], ◌∷◌, ◌++◌, arith, String,
  Option-cases,
}
use python_fullstack.Base.Exec.{Result, ok, err}
use python_fullstack.Core.Errors.{AppError}
use python_fullstack.Tickets.Enums.{
  TicketStatus, open_, in_progress, on_hold, resolved, rejected, closed, assigned, Priority,
  WaitingOn, RejectionReason,
}
use python_fullstack.Tickets.Policies.{Actor}
use python_fullstack.Tickets.Model.{Ticket, StatusHistory, Session}
use python_fullstack.Tickets.Repository.{find_ticket}
use python_fullstack.Tickets.Service.{M, Call}
use python_fullstack.Tickets.Service.Lifecycle
use python_fullstack.Tickets.Service.Ownership
use python_fullstack.Tickets.Service.Content
use python_fullstack.Tickets.Service.Content.{
  TicketContentUpdate, Edit, Update, edit_of, finish_edit, apply_update, apply_updates, set_field,
  updates, holds_already,
}
use python_fullstack.Tickets.Service.Request.{
  Request, create, execute, update_content, assign, start, hold, resolve, reject, close, reopen,
  transfer_team, override_priority,
}
use python_fullstack.Tickets.Service.Spec.{answer, requested_id, is_create}
use mathlib.Core.Bool.{false≢true}

abbrev change : Call → Actor → Ticket → TicketStatus → Option String → List StatusHistory
change c a t to note =
    record {
      tenant_id = c.tenant;
      ticket_id = t.id;
      from_status = some t.status;
      to_status = to;
      changed_by_id = a.user_id;
      note = note;
    }
    ∷ []

abbrev assignment : Call → Actor → Option ℕ → TicketStatus → Ticket → List StatusHistory
assignment c a none assigned t = change c a t open_ (some "Unassigned")
assignment c a (some u) open_ t = change c a t assigned (some "Assigned")
assignment c a u s t = []

abbrev return_to_inbox : Call → Actor → String → TicketStatus → Ticket → List StatusHistory
return_to_inbox c a reason open_ t = []
return_to_inbox c a reason s t = change c a t open_ (some (append "Transferred: " reason))

-- The rows that a granted request adds.
abbrev pub entries : Call → Actor → Request → Ticket → List StatusHistory
entries c a (create payload) t = []
entries c a (update_content id v payload) t = []
entries c a (assign id v u) t = assignment c a u t.status t
entries c a (start id v) t = change c a t in_progress none
entries c a (hold id v w n) t = change c a t on_hold n
entries c a (resolve id v notes) t = change c a t resolved (some "Resolved")
entries c a (reject id v reason n) t = change c a t rejected (some n)
entries c a (close id v n) t = change c a t closed n
entries c a (reopen id v reason) t = change c a t assigned (some reason)
entries c a (transfer_team id v team reason) t = return_to_inbox c a reason t.status t
entries c a (override_priority id v p reason) t = []

abbrev pub history_after :
    Call
    → Actor
    → Request
    → Option Ticket
    → Result AppError Ticket
    → List StatusHistory
    → List StatusHistory
history_after c a r none answered rows = rows
history_after c a r (some t) (err e) rows = rows
history_after c a r (some t) (ok u) rows = entries c a r t ++ rows

abbrev Writes : Call → Actor → Request → M Ticket → Session → Type 0
Writes c a r m s =
    (m s).1.history
    ≡ history_after c a r (find_ticket c.tenant (requested_id r) s.tickets)
        (answer c a r (find_ticket c.tenant (requested_id r) s.tickets)) s.history

module _ (c : Call) (a : Actor) (s : Session) (id v : ℕ) where
  start-Writes : Writes c a (start id v) (Lifecycle.start c a id v) s
  unfolding Lifecycle.start
  start-Writes = ground arith

  hold-Writes :
      (w : WaitingOn) (n : Option String)
      → Writes c a (hold id v w n) (Lifecycle.hold c a id v w n) s
  unfolding Lifecycle.hold
  hold-Writes w n = ground arith

  resolve-Writes :
      (notes : String) → Writes c a (resolve id v notes) (Lifecycle.resolve c a id v notes) s
  unfolding Lifecycle.resolve
  resolve-Writes notes = ground arith

  reject-Writes :
      (reason : RejectionReason) (n : String)
      → Writes c a (reject id v reason n) (Lifecycle.reject c a id v reason n) s
  unfolding Lifecycle.reject
  reject-Writes reason n = ground arith

  close-Writes : (n : Option String) → Writes c a (close id v n) (Lifecycle.close c a id v n) s
  unfolding Lifecycle.close
  close-Writes n = ground arith

  reopen-Writes :
      (reason : String) → Writes c a (reopen id v reason) (Lifecycle.reopen c a id v reason) s
  unfolding Lifecycle.reopen
  reopen-Writes reason = ground arith

  assign-Writes : (u : Option ℕ) → Writes c a (assign id v u) (Ownership.assign c a id v u) s
  unfolding Ownership.assign
  assign-Writes u = ground arith

  transfer-Writes :
      (team : ℕ) (reason : String)
      → Writes c a (transfer_team id v team reason) (Ownership.transfer_team c a id v team reason) s
  unfolding Ownership.transfer_team
  transfer-Writes team reason = ground arith

  override-Writes :
      (p : Priority) (reason : String)
      → Writes c a
          (override_priority id v p reason)
          (Ownership.override_priority c a id v p reason)
          s
  unfolding Ownership.override_priority
  override-Writes p reason = ground arith

  history-finish_edit :
      (e : Edit) (us : List Update) → (finish_edit c a e us s).1.history ≡ s.history
  unfolding finish_edit
  history-finish_edit e [] = refl
  history-finish_edit e (u ∷ us) = ground arith

  update-Writes :
      (payload : TicketContentUpdate)
      → Writes c a (update_content id v payload) (Content.update_content c a id v payload) s
  unfolding Content.update_content
  update-Writes payload = elim (Option-cases (find_ticket c.tenant id s.tickets)) [
    | inl e ↦ ground arith
    | inr (t, e) ↦
        ground (arith, history-finish_edit (edit_of t payload) (edit_of t payload).changed)
  ]

pub execute-history :
    (c : Call) (a : Actor) (r : Request) (s : Session)
    → is_create r ≡ false
    → Writes c a r (execute c a r) s
unfolding execute
execute-history c a (create payload) s h = absurd (false≢true (sym h))
execute-history c a (update_content id v payload) s h = update-Writes c a s id v payload
execute-history c a (assign id v u) s h = assign-Writes c a s id v u
execute-history c a (start id v) s h = start-Writes c a s id v
execute-history c a (hold id v w n) s h = hold-Writes c a s id v w n
execute-history c a (resolve id v notes) s h = resolve-Writes c a s id v notes
execute-history c a (reject id v reason n) s h = reject-Writes c a s id v reason n
execute-history c a (close id v n) s h = close-Writes c a s id v n
execute-history c a (reopen id v reason) s h = reopen-Writes c a s id v reason
execute-history c a (transfer_team id v team reason) s h = transfer-Writes c a s id v team reason
execute-history c a (override_priority id v p reason) s h = override-Writes c a s id v p reason
