-- ===== src/Tickets/Tracking.antt =====
-- The status history of the tickets: it is complete, and it is a chain.
pub mod Runs
use python_fullstack.Base.{
  ℕ, ◌+◌, ◌≡◌, refl, sym, ap, ◌∙◌, Bool, true, false, Option, none, some, List, [], ◌∷◌, ◌++◌,
  arith, ◌==◌, if◌then◌else◌, Bool-cases, Option-cases, inl, inr, ==_refl, is_none,
}
use python_fullstack.Base.Exec.{Result, Result-cases, ok, err}
use python_fullstack.Core.Errors.{AppError}
use python_fullstack.Tickets.Enums.{Priority, TicketStatus, derive_priority}
use python_fullstack.Tickets.Enums.Derivation.{derive_priority_total}
use python_fullstack.Tickets.Policies.{Actor}
use python_fullstack.Tickets.Model.{Ticket, StatusHistory, Session}
use python_fullstack.Tickets.Repository.{find_ticket, replace}
use python_fullstack.Tickets.Repository.Rows.{All, All-find}
use python_fullstack.Tickets.Service.{Call}
use python_fullstack.Tickets.Service.Create
use python_fullstack.Tickets.Service.Create.{TicketCreate, draft}
use python_fullstack.Tickets.Service.Content.{
  Update, Edit, TicketContentUpdate, set_field, apply_update, apply_updates, holds_already, edit_of,
  updates,
}
use python_fullstack.Tickets.Service.Request.{
  Request, create, update_content, assign, start, hold, resolve, reject, close, reopen,
  transfer_team, override_priority, execute, serve,
}
use python_fullstack.Tickets.Service.Spec.{
  decide, outcome, edited, answer, table_after, requested_id, requested_version, is_create, writes,
}
use python_fullstack.Tickets.Service.Spec.Refines.{execute-Refines}
use python_fullstack.Tickets.Service.Spec.History.{entries, history_after, execute-history}
use python_fullstack.Tickets.Locking.{outcome-SameRow}

-- The status that the newest row of a ticket leads to.
abbrev pub latest : ℕ → List StatusHistory → Option TicketStatus
latest id [] = none
latest id (row ∷ rows) = if row.ticket_id == id then some row.to_status else latest id rows

-- Each row starts from the status that the row before it led to.
abbrev pub IsChain : List StatusHistory → Type 0
IsChain [] = Unit {0}
IsChain (row ∷ rows) = (row.from_status ≡ latest row.ticket_id rows) × IsChain rows

abbrev pub Tracked : List StatusHistory → Ticket → Type 0
Tracked rows t = latest t.id rows ≡ some t.status

pub record IsTracked (s : Session) : Type 0 where
  pub current : All (Tracked s.history) s.tickets
  pub chain : IsChain s.history

set_field-status : (u : Update) (t : Ticket) → (set_field u t).status ≡ t.status
unfolding set_field
set_field-status (Update.title v) t = refl
set_field-status _ t = refl

apply_updates-status :
    (us : List Update) (e : Edit) → (apply_updates e us).ticket.status ≡ e.ticket.status
unfolding apply_updates
apply_updates-status [] e = refl
apply_updates-status (u ∷ us) e = elim (Bool-cases (holds_already e.ticket u)) [
  | inl same ↦ apply_updates-status us (apply_update e u) ∙ rw same refl
  | inr other ↦ apply_updates-status us (apply_update e u) ∙ rw other (set_field-status u e.ticket)
]

edited-status : (t : Ticket) (us : List Update) → (edited t us).status ≡ t.status
edited-status t [] = refl
edited-status t (u ∷ us) = refl

-- The rows of a granted request lead from the old status to the new one.
latest-entries :
    (c : Call) (a : Actor) (r : Request) (t : Ticket) (rows : List StatusHistory)
    → latest t.id rows ≡ some t.status
    → latest t.id (entries c a r t ++ rows) ≡ some (outcome c a r t).status
latest-entries c a (update_content id v payload) t rows h =
    h
    ∙ ap some (
        sym (
          edited-status (edit_of t payload).ticket (edit_of t payload).changed
          ∙ apply_updates-status (updates payload) _))
latest-entries c a _ t rows h = ground arith

latest-entries_other :
    (c : Call) (a : Actor) (r : Request) (t : Ticket) (rows : List StatusHistory) (id : ℕ)
    → (id == t.id) ≡ false
    → latest id (entries c a r t ++ rows) ≡ latest id rows
latest-entries_other c a (update_content i v payload) t rows id h = refl
latest-entries_other c a _ t rows id h = ground arith

entries-IsChain :
    (c : Call) (a : Actor) (r : Request) (t : Ticket) (rows : List StatusHistory)
    → latest t.id rows ≡ some t.status
    → IsChain rows
    → IsChain (entries c a r t ++ rows)
entries-IsChain c a (update_content id v payload) t rows h k = k
entries-IsChain c a _ t rows h k = ground arith

All-replace_other :
    (u : Ticket) (old new : List StatusHistory) (ts : List Ticket)
    → Tracked new u
    → ((id : ℕ) → (id == u.id) ≡ false → latest id new ≡ latest id old)
    → All (Tracked old) ts
    → All (Tracked new) (replace u ts)
unfolding replace
All-replace_other u old new [] h k all = tt
All-replace_other u old new (v ∷ vs) h k all = elim (Bool-cases (v.id == u.id)) [
  | inl e ↦ rw e (h, All-replace_other u old new vs h k all.1)
  | inr e ↦ rw e (k v.id e ∙ all.0, All-replace_other u old new vs h k all.1)
]

entries-unwritten :
    (c : Call) (a : Actor) (r : Request) (t : Ticket) → writes r t ≡ false → entries c a r t ≡ []
entries-unwritten c a (update_content id v payload) t h = refl
entries-unwritten c a (create payload) t h = refl
entries-unwritten c a _ t h = cc

granted-current :
    (c : Call) (a : Actor) (r : Request) (t : Ticket) (ts : List Ticket) (rows : List StatusHistory)
    → is_create r ≡ false
    → Tracked rows t
    → All (Tracked rows) ts
    → All
        (Tracked (entries c a r t ++ rows))
        (if writes r t then replace (outcome c a r t) ts else ts)
granted-current c a r t ts rows n h all = elim (Bool-cases (writes r t)) [
  | inr w ↦ rw (w, entries-unwritten c a r t w) all
  | inl w ↦
      let same = (outcome-SameRow c a r t n).0.id in
      rw w (
        All-replace_other (outcome c a r t) rows (entries c a r t ++ rows) ts
          (rw same (latest-entries c a r t rows h))
          (λ id e. latest-entries_other c a r t rows id (rw same at e)) all)
]

step-current :
    (c : Call) (a : Actor) (r : Request) (t : Ticket) (ts : List Ticket) (rows : List StatusHistory)
    → is_create r ≡ false
    → Tracked rows t
    → All (Tracked rows) ts
    → IsChain rows
    → let answered = answer c a r (some t) in
      let after = history_after c a r (some t) answered rows in
      All (Tracked after) (table_after r (some t) answered ts) × IsChain after
step-current c a r t ts rows n h all chain = elim (Bool-cases (t.version == requested_version r)) [
  | inr stale ↦ rw stale (all, chain)
  | inl fresh ↦ elim (Result-cases (decide a r t)) [
    | inr (e, refused) ↦ rw (fresh, refused) (all, chain)
    | inl (tt, granted) ↦
        rw (fresh, granted)
          (granted-current c a r t ts rows n h all, entries-IsChain c a r t rows h chain)
  ]
]

pub found-current :
    (c : Call) (a : Actor) (r : Request) (s : Session)
    → is_create r ≡ false
    → IsTracked s
    → let found = find_ticket c.tenant (requested_id r) s.tickets in
      let answered = answer c a r found in
      let after = history_after c a r found answered s.history in
      All (Tracked after) (table_after r found answered s.tickets) × IsChain after
found-current c a r s n h = elim (Option-cases (find_ticket c.tenant (requested_id r) s.tickets)) [
  | inl e ↦ rw e (h.current, h.chain)
  | inr (t, e) ↦ rw e (
      step-current c a r t s.tickets s.history n
        (All-find (Tracked s.history) c.tenant (requested_id r) s.tickets e h.current) h.current
        h.chain)
]
