-- ===== src/Tickets/Policies/Table.antt =====
-- The transition table of tickets/policies.py as a diagram, and the ways through it.
use python_fullstack.Base.{◌≡◌, refl, true, some, ◌↔◌, arith}
use python_fullstack.Core.Permissions.{
  Permission, ticket_assign, ticket_transition, ticket_resolve, ticket_close, ticket_reopen,
  ticket_reject,
}
use python_fullstack.Tickets.Enums.{
  TicketStatus, open_, assigned, in_progress, on_hold, resolved, rejected, closed, awaiting_cs,
}
use python_fullstack.Tickets.Policies.{transitions, find_transition}

-- The diagram of the product requirements.
pub data Edge : TicketStatus → TicketStatus → Permission → Type 0 where
  take : Edge open_ assigned ticket_assign
  begin : Edge assigned in_progress ticket_transition
  resume : Edge on_hold in_progress ticket_transition
  park : Edge assigned on_hold ticket_transition
  pause : Edge in_progress on_hold ticket_transition
  refuse_early : Edge assigned rejected ticket_reject
  refuse : Edge in_progress rejected ticket_reject
  finish : Edge in_progress resolved ticket_resolve
  confirm : {s : TicketStatus} → awaiting_cs s ≡ true → Edge s closed ticket_close
  return : {s : TicketStatus} → awaiting_cs s ≡ true → Edge s assigned ticket_reopen
  revive : Edge closed assigned ticket_reopen

pub Edge-find :
    (f t : TicketStatus) {p : Permission} → Edge f t p → find_transition transitions f t ≡ some p
unfolding find_transition
Edge-find f t take = refl
Edge-find f t begin = refl
Edge-find f t resume = refl
Edge-find f t park = refl
Edge-find f t pause = refl
Edge-find f t refuse_early = refl
Edge-find f t refuse = refl
Edge-find f t finish = refl
Edge-find f t (confirm h) = ground arith
Edge-find f t (return h) = ground arith
Edge-find f t revive = refl

label : (p q : Permission) {f t : TicketStatus} → some p ≡ some q → Edge f t p → Edge f t q
label p q e h = let e' : p ≡ q = cc in rw e' at h

pub find-Edge :
    (f t : TicketStatus) (p : Permission) → find_transition transitions f t ≡ some p → Edge f t p
unfolding find_transition
find-Edge open_ assigned p h = label _ p h take
find-Edge assigned in_progress p h = label _ p h begin
find-Edge assigned on_hold p h = label _ p h park
find-Edge assigned rejected p h = label _ p h refuse_early
find-Edge in_progress on_hold p h = label _ p h pause
find-Edge in_progress resolved p h = label _ p h finish
find-Edge in_progress rejected p h = label _ p h refuse
find-Edge on_hold in_progress p h = label _ p h resume
find-Edge resolved closed p h = label _ p h (confirm refl)
find-Edge rejected closed p h = label _ p h (confirm refl)
find-Edge resolved assigned p h = label _ p h (return refl)
find-Edge rejected assigned p h = label _ p h (return refl)
find-Edge closed assigned p h = label _ p h revive
find-Edge _ _ p h = cc

-- The table is the diagram: a status change is in `TRANSITIONS`, with its permission, exactly when
-- the diagram has that edge.
pub transitions_iff :
    (f t : TicketStatus) (p : Permission) → (find_transition transitions f t ≡ some p) ↔ Edge f t p
transitions_iff f t p = (find-Edge f t p, Edge-find f t)

-- Some number of edges.
pub data Way : TicketStatus → TicketStatus → Type 0 where
  here : {s : TicketStatus} → Way s s
  walk : {s t u : TicketStatus} {p : Permission} → Edge s t p → Way t u → Way s u

pub Way-closed : (s : TicketStatus) → Way s closed
Way-closed open_ = walk take (walk begin (walk finish (walk (confirm refl) here)))
Way-closed assigned = walk begin (walk finish (walk (confirm refl) here))
Way-closed in_progress = walk finish (walk (confirm refl) here)
Way-closed on_hold = walk resume (walk finish (walk (confirm refl) here))
Way-closed resolved = walk (confirm refl) here
Way-closed rejected = walk (confirm refl) here
Way-closed closed = here
