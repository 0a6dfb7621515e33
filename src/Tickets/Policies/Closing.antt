-- ===== src/Tickets/Policies/Closing.antt =====
-- Who may change a ticket's status, by tickets/policies.py and the bundles of core/permissions.py.
use python_fullstack.Base.{◌≡◌, refl, true, Option, none, some, ◌⊎◌, ◌↔◌, arith}
use python_fullstack.Base.Exec.{ok}
use python_fullstack.Core.Permissions.{
  Permission, Role, tenant_admin, cs_lead, cs_agent, permissions_for,
}
use python_fullstack.Tickets.Enums.{TicketStatus, open_, assigned, closed, awaiting_cs}
use python_fullstack.Tickets.Policies.{
  Actor, TicketFacts, is_admin, has, owns, transitions, find_transition, reopens_from,
  assert_can_act_on, assert_transition_allowed, check_transition,
}
use python_fullstack.Tickets.Policies.Table.{Edge, find-Edge, Edge-find}

-- An actor with the bundle of its role, as every request builds it.
pub record PlaysRole (actor : Actor) (r : Role) : Type 0 where
  pub role : actor.role ≡ some r
  pub permissions : actor.permissions ≡ permissions_for r

-- What entitles an actor to a status change, apart from the permission.
pub data Authority (actor : Actor) (ticket : TicketFacts) : TicketStatus → Type 0 where
  administers : {to : TicketStatus} → is_admin actor ≡ true → Authority actor ticket to
  confirms : {to : TicketStatus} → to ≡ closed → Authority actor ticket to
  reopens :
      {to : TicketStatus}
      → to ≡ assigned
      → reopens_from ticket.status ≡ true
      → Authority actor ticket to
  takes : {to : TicketStatus} → to ≡ assigned → ticket.status ≡ open_ → Authority actor ticket to
  owner : {to : TicketStatus} → owns actor ticket ≡ true → Authority actor ticket to

act-Authority :
    (actor : Actor) (ticket : TicketFacts) (to : TicketStatus)
    → assert_can_act_on actor ticket to ≡ ok tt
    → Authority actor ticket to
unfolding assert_can_act_on
act-Authority actor ticket closed h = confirms refl
act-Authority actor ticket assigned h = grind (arith, administers, reopens, takes, owner)
act-Authority actor ticket to h = grind (arith, administers, owner)

Authority-act :
    (actor : Actor) (ticket : TicketFacts) (to : TicketStatus)
    → Authority actor ticket to
    → assert_can_act_on actor ticket to ≡ ok tt
unfolding assert_can_act_on
Authority-act actor ticket to (administers h) = ground arith
Authority-act actor ticket to (confirms h) = ground arith
Authority-act actor ticket to (reopens h k) = ground arith
Authority-act actor ticket to (takes h k) = ground arith
Authority-act actor ticket to (owner h) = ground arith

-- An actor with the bundle of its role may close a ticket exactly when the ticket awaits customer
-- support and the role is tenant admin, CS lead or CS agent.
pub close_allowed :
    (actor : Actor) (ticket : TicketFacts) (r : Role)
    → PlaysRole actor r
    → (assert_transition_allowed actor ticket closed ≡ ok tt) ↔ (
        (awaiting_cs ticket.status ≡ true)
        × ((r ≡ tenant_admin) ⊎ ((r ≡ cs_lead) ⊎ (r ≡ cs_agent))))
unfolding assert_transition_allowed permissions_for
close_allowed actor ticket r h = ground arith

check_transition-ok :
    (actor : Actor) (ticket : TicketFacts) (to : TicketStatus) (o : Option Permission)
    → check_transition actor ticket to o ≡ ok tt
    → (p : Permission) × (o ≡ some p)
      × (has actor p ≡ true)
      × (assert_can_act_on actor ticket to ≡ ok tt)
check_transition-ok actor ticket to none h = cc
check_transition-ok actor ticket to (some p) h = (p, refl, ground arith, ground arith)

-- A status change is allowed exactly when it is an edge of the diagram, the actor holds the
-- permission of that edge, and the actor has the authority for it.
pub transition_allowed_iff :
    (actor : Actor) (ticket : TicketFacts) (to : TicketStatus)
    → (assert_transition_allowed actor ticket to ≡ ok tt) ↔ (
        (p : Permission) × Edge ticket.status to p
        × (has actor p ≡ true)
        × Authority actor ticket to)
unfolding assert_transition_allowed
transition_allowed_iff actor ticket to = (
  λ h.
      let (p, found, holder, acts) =
        check_transition-ok actor ticket to (find_transition transitions ticket.status to) h in
      (p, find-Edge ticket.status to p found, holder, act-Authority actor ticket to acts),
  λ (p, e, h, a). rw (Edge-find ticket.status to e) (rw h (Authority-act actor ticket to a)),
)
