-- ===== src/Tickets/Repository/Rows.antt =====
-- The table of tickets under a flush.
use python_fullstack.Base.{
  ℕ, ◌≡◌, refl, ap₂, ◌&&◌, true, some, List, [], ◌∷◌, arith, ◌==◌, if◌then◌else◌, Bool-cases,
  eq_of_some, inl, inr,
}
use python_fullstack.Tickets.Model.{Ticket}
use python_fullstack.Tickets.Repository.{visible, find_ticket, replace}

replace-replace_row :
    (t u v : Ticket)
    → t.id ≡ u.id
    → (if (if v.id == u.id then u else v).id == t.id then t else if v.id == u.id then u else v)
      ≡ (if v.id == t.id then t else v)
replace-replace_row t u v h = ground arith

-- The second flush of a row overwrites the first.
pub replace-replace :
    (t u : Ticket) (ts : List Ticket) → t.id ≡ u.id → replace t (replace u ts) ≡ replace t ts
unfolding replace
replace-replace t u [] h = refl
replace-replace t u (v ∷ vs) h = ap₂ ◌∷◌ (replace-replace_row t u v h) (replace-replace t u vs h)

-- The row that is found has the id that was asked for, and can be seen.
pub find_ticket-id :
    (tenant id : ℕ) (ts : List Ticket) {t : Ticket}
    → find_ticket tenant id ts ≡ some t
    → (t.id ≡ id) × (visible tenant t ≡ true)
unfolding find_ticket
find_ticket-id tenant id [] h = cc
find_ticket-id tenant id (u ∷ us) {t} h = ground (arith, find_ticket-id tenant id us {t = t})

-- A flushed row that can still be seen is found under its id.
pub find_ticket-replace_self :
    (tenant : ℕ) (t u : Ticket) (ts : List Ticket)
    → find_ticket tenant t.id ts ≡ some u
    → visible tenant t ≡ true
    → find_ticket tenant t.id (replace t ts) ≡ some t
unfolding find_ticket replace
find_ticket-replace_self tenant t u [] h k = cc
find_ticket-replace_self tenant t u (v ∷ vs) h k =
    ground (arith, find_ticket-replace_self tenant t u vs)

abbrev pub All : (Ticket → Type 0) → List Ticket → Type 0
All P [] = Unit {0}
All P (t ∷ ts) = P t × All P ts

module _ (P : Ticket → Type 0) where
  pub All-replace : (t : Ticket) (ts : List Ticket) → P t → All P ts → All P (replace t ts)
  unfolding replace
  All-replace t [] h k = tt
  All-replace t (u ∷ us) h k = elim (Bool-cases (u.id == t.id)) [
    | inl e ↦ rw e (h, All-replace t us h k.1)
    | inr e ↦ rw e (k.0, All-replace t us h k.1)
  ]

  pub All-find :
      (tenant id : ℕ) (ts : List Ticket) {t : Ticket}
      → find_ticket tenant id ts ≡ some t
      → All P ts
      → P t
  unfolding find_ticket
  All-find tenant id [] e k = cc
  All-find tenant id (u ∷ us) {t} e k = elim (Bool-cases (visible tenant u && (u.id == id))) [
    | inl b ↦ let same : u ≡ t = eq_of_some (rw b at e) in rw same at (k.0)
    | inr b ↦ All-find tenant id us (rw b at e) k.1
  ]
