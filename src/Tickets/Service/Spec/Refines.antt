-- ===== src/Tickets/Service/Spec/Refines.antt =====
-- The methods of `TicketService` do what the specification says.
use python_fullstack.Base.{
  ℕ, ◌≡◌, refl, sym, inl, inr, false, not, Option, List, [], ◌∷◌, arith, String, if◌then◌else◌,
  Option-cases,
}
use python_fullstack.Base.Exec.{ok, err}
use python_fullstack.Core.Errors.{AppError}
use python_fullstack.Tickets.Enums.{
  TicketStatus, on_hold, resolved, rejected, closed, assigned, Priority, WaitingOn, RejectionReason,
}
use python_fullstack.Tickets.Policies.{Actor}
use python_fullstack.Tickets.Model.{Ticket, Session}
use python_fullstack.Tickets.Repository.{find_ticket, replace}
use python_fullstack.Tickets.Repository.Rows.{replace-replace}
use python_fullstack.Tickets.Service.{M, Call, with_status, bump}
use python_fullstack.Tickets.Service.Lifecycle
use python_fullstack.Tickets.Service.Ownership
use python_fullstack.Tickets.Service.Content
use python_fullstack.Tickets.Service.Content.{
  TicketContentUpdate, Edit, Update, edit_of, finish_edit,
}
use python_fullstack.Tickets.Service.Request.{
  Request, create, execute, update_content, assign, start, hold, resolve, reject, close, reopen,
  transfer_team, override_priority,
}
use python_fullstack.Tickets.Service.Spec.{
  answer, table_after, outcome, requested_id, edited, unedited, is_create,
}
use mathlib.Core.Bool.{false≢true}

-- The answer and the table of a run are those of the specification, and a refusal has written
-- nothing at all.
pub record Refines (c : Call) (a : Actor) (r : Request) (m : M Ticket) (s : Session) : Type 0 where
  pub answers : (m s).0 ≡ answer c a r (find_ticket c.tenant (requested_id r) s.tickets)
  pub writes_table :
      (m s).1.tickets
      ≡ table_after r
          (find_ticket c.tenant (requested_id r) s.tickets)
          (answer c a r (find_ticket c.tenant (requested_id r) s.tickets))
          s.tickets
  pub refusal_keeps : {e : AppError} → (m s).0 ≡ err e → (m s).1 ≡ s

module _ (c : Call) (a : Actor) (s : Session) (id v : ℕ) where
  start-Refines : Refines c a (start id v) (Lifecycle.start c a id v) s
  unfolding Lifecycle.start
  start-Refines = ground arith

  -- The two flushes of one row, where the row is found.
  abbrev LastFlush : Request → TicketStatus → Ticket → Type 0
  LastFlush r to t =
      replace (outcome c a r t) (replace (bump (with_status to t)) s.tickets)
      ≡ replace (outcome c a r t) s.tickets

  hold-Refines :
      (w : WaitingOn) (note : Option String)
      → Refines c a (hold id v w note) (Lifecycle.hold c a id v w note) s
  unfolding Lifecycle.hold
  hold-Refines w note = elim (Option-cases (find_ticket c.tenant id s.tickets)) [
    | inl e ↦ ground arith
    | inr (t, e) ↦
        let flush : LastFlush (hold id v w note) on_hold t = replace-replace _ _ s.tickets refl in
        ground arith
  ]

  resolve-Refines :
      (notes : String) → Refines c a (resolve id v notes) (Lifecycle.resolve c a id v notes) s
  unfolding Lifecycle.resolve
  resolve-Refines notes = elim (Option-cases (find_ticket c.tenant id s.tickets)) [
    | inl e ↦ ground arith
    | inr (t, e) ↦
        let flush : LastFlush (resolve id v notes) resolved t =
          replace-replace _ _ s.tickets refl in
        ground arith
  ]

  reject-Refines :
      (reason : RejectionReason) (note : String)
      → Refines c a (reject id v reason note) (Lifecycle.reject c a id v reason note) s
  unfolding Lifecycle.reject
  reject-Refines reason note = elim (Option-cases (find_ticket c.tenant id s.tickets)) [
    | inl e ↦ ground arith
    | inr (t, e) ↦
        let flush : LastFlush (reject id v reason note) rejected t =
          replace-replace _ _ s.tickets refl in
        ground arith
  ]

  close-Refines :
      (note : Option String) → Refines c a (close id v note) (Lifecycle.close c a id v note) s
  unfolding Lifecycle.close
  close-Refines note = elim (Option-cases (find_ticket c.tenant id s.tickets)) [
    | inl e ↦ ground arith
    | inr (t, e) ↦
        let flush : LastFlush (close id v note) closed t = replace-replace _ _ s.tickets refl in
        ground arith
  ]

  reopen-Refines :
      (reason : String) → Refines c a (reopen id v reason) (Lifecycle.reopen c a id v reason) s
  unfolding Lifecycle.reopen
  reopen-Refines reason = elim (Option-cases (find_ticket c.tenant id s.tickets)) [
    | inl e ↦ ground arith
    | inr (t, e) ↦
        let flush : LastFlush (reopen id v reason) assigned t =
          replace-replace _ _ s.tickets refl in
        ground arith
  ]

  assign-Refines : (u : Option ℕ) → Refines c a (assign id v u) (Ownership.assign c a id v u) s
  unfolding Ownership.assign
  assign-Refines u = ground arith

  transfer-Refines :
      (team : ℕ) (reason : String)
      → Refines c a
          (transfer_team id v team reason)
          (Ownership.transfer_team c a id v team reason)
          s
  unfolding Ownership.transfer_team
  transfer-Refines team reason = ground arith

  override-Refines :
      (p : Priority) (reason : String)
      → Refines c a
          (override_priority id v p reason)
          (Ownership.override_priority c a id v p reason)
          s
  unfolding Ownership.override_priority
  override-Refines p reason = ground arith

  finish_edit_lem :
      (e : Edit) (us : List Update)
      → ((finish_edit c a e us s).0 ≡ ok (edited e.ticket us))
        × ((finish_edit c a e us s).1.tickets
            ≡ (if not (unedited us) then replace (edited e.ticket us) s.tickets else s.tickets))
  unfolding finish_edit
  finish_edit_lem e [] = ground arith
  finish_edit_lem e (u ∷ us) = ground arith

  update-Refines :
      (payload : TicketContentUpdate)
      → Refines c a (update_content id v payload) (Content.update_content c a id v payload) s
  unfolding Content.update_content
  update-Refines payload = elim (Option-cases (find_ticket c.tenant id s.tickets)) [
    | inl e ↦ ground arith
    | inr (t, e) ↦ ground (arith, finish_edit_lem (edit_of t payload) (edit_of t payload).changed)
  ]

-- Every request but a creation refines the specification: it answers what the specification answers,
-- leaves the table that the specification gives, and on a refusal has changed nothing of the session.
pub execute-Refines :
    (c : Call) (a : Actor) (r : Request) (s : Session)
    → is_create r ≡ false
    → Refines c a r (execute c a r) s
unfolding execute
execute-Refines c a (create payload) s h = absurd (false≢true (sym h))
execute-Refines c a (update_content id v payload) s h = update-Refines c a s id v payload
execute-Refines c a (assign id v u) s h = assign-Refines c a s id v u
execute-Refines c a (start id v) s h = start-Refines c a s id v
execute-Refines c a (hold id v w note) s h = hold-Refines c a s id v w note
execute-Refines c a (resolve id v notes) s h = resolve-Refines c a s id v notes
execute-Refines c a (reject id v reason note) s h = reject-Refines c a s id v reason note
execute-Refines c a (close id v note) s h = close-Refines c a s id v note
execute-Refines c a (reopen id v reason) s h = reopen-Refines c a s id v reason
execute-Refines c a (transfer_team id v team reason) s h = transfer-Refines c a s id v team reason
execute-Refines c a (override_priority id v p reason) s h = override-Refines c a s id v p reason
