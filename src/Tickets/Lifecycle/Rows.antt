-- ===== src/Tickets/Lifecycle/Rows.antt =====
-- A granted request keeps the row well formed.
use python_fullstack.Base.{ℕ, ◌≡◌, inl, inr, Option, List, [], ◌∷◌, arith, String, Bool-cases}
use python_fullstack.Base.Exec.{ok}
use python_fullstack.Tickets.Policies.{
  Actor, assert_transition_allowed, assert_can_assign, assert_can_transfer_team,
}
use python_fullstack.Tickets.Model.{Ticket}
use python_fullstack.Tickets.Service.{Call}
use python_fullstack.Tickets.Service.Content.{
  Update, Edit, holds_already, set_field, apply_update, apply_updates, updates, edit_of,
}
use python_fullstack.Tickets.Service.Request.{
  Request, create, update_content, assign, start, hold, resolve, reject, close, reopen,
  transfer_team, override_priority,
}
use python_fullstack.Tickets.Service.Spec.{decide, outcome, edited}
use python_fullstack.Tickets.Lifecycle.{IsWellFormed}

abbrev IsMove : Request → Type 0
IsMove (start id v) = Unit {0}
IsMove (hold id v w n) = Unit {0}
IsMove (resolve id v notes) = Unit {0}
IsMove (reject id v reason n) = Unit {0}
IsMove (close id v n) = Unit {0}
IsMove (reopen id v reason) = Unit {0}
IsMove _ = ⊥

set_field-IsWellFormed : (u : Update) (t : Ticket) → IsWellFormed t → IsWellFormed (set_field u t)
unfolding set_field
set_field-IsWellFormed (Update.title v) t h = ground arith
set_field-IsWellFormed _ t h = ground arith

apply_update-IsWellFormed :
    (e : Edit) (u : Update) → IsWellFormed e.ticket → IsWellFormed (apply_update e u).ticket
unfolding apply_update
apply_update-IsWellFormed e u h = elim (Bool-cases (holds_already e.ticket u)) [
  | inl same ↦ rw same h
  | inr other ↦ rw other (set_field-IsWellFormed u e.ticket h)
]

apply_updates-IsWellFormed :
    (us : List Update) (e : Edit) → IsWellFormed e.ticket → IsWellFormed (apply_updates e us).ticket
unfolding apply_updates
apply_updates-IsWellFormed [] e h = h
apply_updates-IsWellFormed (u ∷ us) e h =
    apply_updates-IsWellFormed us (apply_update e u) (apply_update-IsWellFormed e u h)

edited-IsWellFormed : (t : Ticket) (us : List Update) → IsWellFormed t → IsWellFormed (edited t us)
edited-IsWellFormed t [] h = h
edited-IsWellFormed t (u ∷ us) h = ground arith

module _ (c : Call) (a : Actor) (t : Ticket) (h : IsWellFormed t) where
  -- Every status change.
  move-IsWellFormed :
      (r : Request) → IsMove r → decide a r t ≡ ok tt → IsWellFormed (outcome c a r t)
  unfolding assert_transition_allowed
  move-IsWellFormed (start id v) m d = ground arith
  move-IsWellFormed (hold id v w n) m d = ground arith
  move-IsWellFormed (resolve id v notes) m d = ground arith
  move-IsWellFormed (reject id v reason n) m d = ground arith
  move-IsWellFormed (close id v n) m d = ground arith
  move-IsWellFormed (reopen id v reason) m d = ground arith
  move-IsWellFormed _ m d = absurd m

  assign-IsWellFormed :
      (id v : ℕ) (u : Option ℕ)
      → decide a (assign id v u) t ≡ ok tt
      → IsWellFormed (outcome c a (assign id v u) t)
  unfolding assert_can_assign
  assign-IsWellFormed id v u d = ground arith

  transfer-IsWellFormed :
      (id v team : ℕ) (reason : String)
      → decide a (transfer_team id v team reason) t ≡ ok tt
      → IsWellFormed (outcome c a (transfer_team id v team reason) t)
  unfolding assert_can_transfer_team
  transfer-IsWellFormed id v team reason d = ground arith

-- A granted request keeps the row well formed.
pub outcome-IsWellFormed :
    (c : Call) (a : Actor) (r : Request) (t : Ticket)
    → decide a r t ≡ ok tt
    → IsWellFormed t
    → IsWellFormed (outcome c a r t)
outcome-IsWellFormed c a (create payload) t d h = h
outcome-IsWellFormed c a (update_content id v payload) t d h =
    edited-IsWellFormed (edit_of t payload).ticket (edit_of t payload).changed
      (apply_updates-IsWellFormed (updates payload) _ h)
outcome-IsWellFormed c a (assign id v u) t d h = assign-IsWellFormed c a t h id v u d
outcome-IsWellFormed c a (transfer_team id v team reason) t d h =
    transfer-IsWellFormed c a t h id v team reason d
outcome-IsWellFormed c a (override_priority id v p reason) t d h = ground arith
outcome-IsWellFormed c a (start id v) t d h = move-IsWellFormed c a t h (start id v) tt d
outcome-IsWellFormed c a (hold id v w n) t d h = move-IsWellFormed c a t h (hold id v w n) tt d
outcome-IsWellFormed c a (resolve id v notes) t d h =
    move-IsWellFormed c a t h (resolve id v notes) tt d
outcome-IsWellFormed c a (reject id v reason n) t d h =
    move-IsWellFormed c a t h (reject id v reason n) tt d
outcome-IsWellFormed c a (close id v n) t d h = move-IsWellFormed c a t h (close id v n) tt d
outcome-IsWellFormed c a (reopen id v reason) t d h =
    move-IsWellFormed c a t h (reopen id v reason) tt d
