-- ===== src/Tickets/Locking.antt =====
-- Optimistic locking: the version that a client read decides whether its write is accepted.
use python_fullstack.Base.{
  ℕ, ◌+◌, ◌≡◌, refl, sym, ◌∙◌, Bool, true, false, some, List, [], ◌∷◌, arith, ◌==◌, subst, ◌≢◌,
  ==_iff, if◌then◌else◌, Bool-cases, Option-cases, inl, inr,
}
use python_fullstack.Base.Exec.{Result, Result-cases, ok, err}
use python_fullstack.Core.Errors.{AppError, version_conflict}
use python_fullstack.Tickets.Policies.{Actor}
use python_fullstack.Tickets.Model.{Ticket, Session}
use python_fullstack.Tickets.Repository.{visible, find_ticket, replace}
use python_fullstack.Tickets.Repository.Rows.{find_ticket-id, find_ticket-replace_self}
use python_fullstack.Tickets.Service.{Call}
use python_fullstack.Tickets.Service.Content.{
  Update, Edit, holds_already, set_field, apply_update, apply_updates, updates, edit_of,
}
use python_fullstack.Tickets.Service.Request.{Request, create, update_content, execute}
use python_fullstack.Tickets.Service.Spec.{
  decide, outcome, edited, answer, requested_id, requested_version, is_create, writes, unedited,
}
use python_fullstack.Tickets.Service.Spec.Refines.{execute-Refines}

-- What no method but `create` sets.
pub record SameRow (t u : Ticket) : Type 0 where
  pub id : u.id ≡ t.id
  pub tenant_id : u.tenant_id ≡ t.tenant_id
  pub ticket_number : u.ticket_number ≡ t.ticket_number
  pub deleted_at : u.deleted_at ≡ t.deleted_at
  pub created_by_id : u.created_by_id ≡ t.created_by_id

set_field-SameRow :
    (w : Update) (t u : Ticket)
    → SameRow t u × (u.version ≡ t.version)
    → SameRow t (set_field w u) × ((set_field w u).version ≡ t.version)
unfolding set_field
set_field-SameRow (Update.title v) t u h = ground arith
set_field-SameRow _ t u h = ground arith

apply_update-SameRow :
    (t : Ticket) (e : Edit) (u : Update)
    → SameRow t e.ticket × (e.ticket.version ≡ t.version)
    → SameRow t (apply_update e u).ticket × ((apply_update e u).ticket.version ≡ t.version)
unfolding apply_update
apply_update-SameRow t e u h = elim (Bool-cases (holds_already e.ticket u)) [
  | inl same ↦ rw same h
  | inr other ↦ rw other (set_field-SameRow u t e.ticket h)
]

apply_updates-SameRow :
    (us : List Update) (t : Ticket) (e : Edit)
    → SameRow t e.ticket × (e.ticket.version ≡ t.version)
    → SameRow t (apply_updates e us).ticket × ((apply_updates e us).ticket.version ≡ t.version)
unfolding apply_updates
apply_updates-SameRow [] t e h = h
apply_updates-SameRow (u ∷ us) t e h =
    apply_updates-SameRow us t (apply_update e u) (apply_update-SameRow t e u h)

edited-SameRow :
    (t u : Ticket) (us : List Update)
    → SameRow t u × (u.version ≡ t.version)
    → SameRow t (edited u us)
      × ((edited u us).version ≡ (if unedited us then t.version else t.version + 1))
edited-SameRow t u [] h = h
edited-SameRow t u (w ∷ ws) h = ground arith

abbrev next_version : Bool → ℕ → ℕ
next_version true n = n + 1
next_version false n = n

-- A granted request keeps the row's identity, and counts the version up by one if it writes.
pub outcome-SameRow :
    (c : Call) (a : Actor) (r : Request) (t : Ticket)
    → is_create r ≡ false
    → SameRow t (outcome c a r t)
      × ((outcome c a r t).version ≡ next_version (writes r t) t.version)
outcome-SameRow c a (create payload) t h = cc
outcome-SameRow c a (update_content id v payload) t h = ground (
  arith,
  edited-SameRow t (edit_of t payload).ticket (edit_of t payload).changed
      (apply_updates-SameRow (updates payload) t _ (ground arith)),
)
outcome-SameRow c a _ t h = ground arith

not_ok : {e : AppError} {u : Ticket} → err e ≡ ok u → ⊥
not_ok h = cc

eq_of_ok : {t u : Ticket} → ◌≡◌ {A = Result AppError Ticket} (ok t) (ok u) → t ≡ u
eq_of_ok h = cc

pair_eq :
    {p : Result AppError Ticket × Session} {x : Result AppError Ticket} {y : Session}
    → p.0 ≡ x
    → p.1 ≡ y
    → p ≡ (x, y)
pair_eq h k = λ i. (h i, k i)

-- What a granted request has seen.
record Granted (c : Call) (a : Actor) (r : Request) (ts : List Ticket) (u : Ticket) : Type 0 where
  row : Ticket
  found : find_ticket c.tenant (requested_id r) ts ≡ some row
  current : row.version ≡ requested_version r
  stored : u ≡ outcome c a r row

answer-version :
    (c : Call) (a : Actor) (r : Request) (t u : Ticket)
    → answer c a r (some t) ≡ ok u
    → (t.version ≡ requested_version r) × (u ≡ outcome c a r t)
answer-version c a r t u h = elim (Bool-cases (t.version == requested_version r)) [
  | inr stale ↦ absurd (not_ok (rw stale at h))
  | inl fresh ↦ elim (Result-cases (decide a r t)) [
    | inr (e, refused) ↦ absurd (not_ok (rw (fresh, refused) at h))
    | inl (tt, granted) ↦ ((==_iff _ _).0 fresh, sym (eq_of_ok (rw (fresh, granted) at h)))
  ]
]

granted :
    (c : Call) (a : Actor) (r : Request) (s : Session) {u : Ticket}
    → is_create r ≡ false
    → (execute c a r s).0 ≡ ok u
    → Granted c a r s.tickets u
granted c a r s {u} h e = elim (Option-cases (find_ticket c.tenant (requested_id r) s.tickets)) [
  | inl missing ↦ absurd (not_ok (rw missing at answered))
  | inr (t, found) ↦
      let (current, stored) = answer-version c a r t u (rw found at answered) in
      record { row = t; found = found; current = current; stored = stored }
]
  where
    answered : answer c a r (find_ticket c.tenant (requested_id r) s.tickets) ≡ ok u
    answered = sym (execute-Refines c a r s h).answers ∙ e

Granted-table :
    (c : Call) (a : Actor) (r : Request) (s : Session) {u : Ticket}
    → is_create r ≡ false
    → (execute c a r s).0 ≡ ok u
    → (g : Granted c a r s.tickets u) → writes r g.row ≡ true
    → (execute c a r s).1.tickets ≡ replace u s.tickets
Granted-table c a r s {u} h e g w =
    (execute-Refines c a r s h).writes_table
    ∙ rw (← (execute-Refines c a r s h).answers, e, g.found, w) refl

-- The row is found again, with the version counted up.
Granted-row :
    (c : Call) (a : Actor) (r : Request) (s : Session) {u : Ticket}
    → is_create r ≡ false
    → (execute c a r s).0 ≡ ok u
    → (g : Granted c a r s.tickets u) → writes r g.row ≡ true
    → (find_ticket c.tenant (requested_id r) (execute c a r s).1.tickets ≡ some u)
      × (u.version ≡ requested_version r + 1)
Granted-row c a r s {u} h e g w = (rw (Granted-table c a r s h e g w) again, counted)
  where
    frame : SameRow g.row u × (u.version ≡ next_version (writes r g.row) g.row.version)
    frame = rw g.stored (outcome-SameRow c a r g.row h)

    counted : u.version ≡ requested_version r + 1
    counted = ground (arith, frame, g.current, w)

    at : (g.row.id ≡ requested_id r) × (visible c.tenant g.row ≡ true)
    at = find_ticket-id c.tenant (requested_id r) s.tickets g.found

    same : u.id ≡ requested_id r
    same = frame.0.id ∙ at.0

    seen : visible c.tenant u ≡ true
    seen = rw (frame.0.tenant_id, frame.0.deleted_at) at.1

    again : find_ticket c.tenant (requested_id r) (replace u s.tickets) ≡ some u
    again =
        subst (λ i. find_ticket c.tenant i (replace u s.tickets) ≡ some u) same
          (find_ticket-replace_self c.tenant u g.row s.tickets
            (subst (λ i. find_ticket c.tenant i s.tickets ≡ some g.row) (sym same) g.found) seen)

answer-stale :
    (c : Call) (a : Actor) (r : Request) (t : Ticket)
    → t.version ≡ requested_version r + 1
    → answer c a r (some t) ≡ err version_conflict
answer-stale c a r t h = rw (stale (t.version) (requested_version r) h) refl
  where
    stale : (n m : ℕ) → n ≡ m + 1 → (n == m) ≡ false
    stale n m e = ground arith

Granted-writes :
    (c : Call) (a : Actor) (r : Request) (s : Session) {u : Ticket}
    → is_create r ≡ false
    → (execute c a r s).0 ≡ ok u
    → (execute c a r s).1.tickets ≢ s.tickets
    → (g : Granted c a r s.tickets u) → writes r g.row ≡ true
Granted-writes c a r s {u} h e changed g = elim (Bool-cases (writes r g.row)) [
  | inl w ↦ w
  | inr w ↦ absurd (
      changed (
        (execute-Refines c a r s h).writes_table
        ∙ rw (← (execute-Refines c a r s h).answers, e, g.found, w) refl))
]

conflict :
    (d : Call) (b : Actor) (q : Request) (s : Session) (u : Ticket)
    → is_create q ≡ false
    → find_ticket d.tenant (requested_id q) s.tickets ≡ some u
    → u.version ≡ requested_version q + 1
    → execute d b q s ≡ (err version_conflict, s)
conflict d b q s u h found counted =
    pair_eq refused ((execute-Refines d b q s h).refusal_keeps refused)
  where
    refused : (execute d b q s).0 ≡ err version_conflict
    refused = (execute-Refines d b q s h).answers ∙ rw found (answer-stale d b q u counted)

-- Two clients act on one ticket with the version that both have read, in the same tenant. If the
-- first request is granted and writes, the second is refused with a version conflict, whoever makes
-- it and whatever it asks, and the session stays as the first one left it.
pub second_writer_conflicts :
    (c d : Call) (a b : Actor) (r q : Request) (s : Session) {u : Ticket}
    → is_create r ≡ false
    → is_create q ≡ false
    → d.tenant ≡ c.tenant
    → requested_id q ≡ requested_id r
    → requested_version q ≡ requested_version r
    → (execute c a r s).0 ≡ ok u
    → (execute c a r s).1.tickets ≢ s.tickets
    → execute d b q (execute c a r s).1 ≡ (err version_conflict, (execute c a r s).1)
second_writer_conflicts c d a b r q s {u} hr hq same_tenant same_id same_version e changed =
    let g = granted c a r s hr e in
    let (again, counted) = Granted-row c a r s hr e g (Granted-writes c a r s hr e changed g) in
    conflict d b q (execute c a r s).1 u hq (rw (same_tenant, same_id) again)
      (rw same_version counted)
