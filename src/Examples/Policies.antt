-- ===== src/Examples/Policies.antt =====
-- The policies at concrete actors and tickets.
use python_fullstack.Base.{◌≤◌, ◌≡◌, refl, true, some, [], ◌↔◌, arith}
use python_fullstack.Base.Exec.{ok, err}
use python_fullstack.Base.SortedSet.{sorted_set}
use python_fullstack.Core.Errors.{permission_denied}
use python_fullstack.Core.Permissions.{permissions_for, Permission}
use python_fullstack.Tickets.Enums.{
  s1_critical, s2_major, whole_org, department, no_workaround, painful, p1, p2, order_index, open_,
  in_progress, resolved, derive_priority,
}
use python_fullstack.Tickets.Enums.Derivation.{derive_priority_mono}
use python_fullstack.Tickets.Policies.{
  assert_can_act_on, Actor, has, assert_can_assign, assert_transition_allowed,
}
use python_fullstack.Tickets.Policies.Table.{Edge}
use python_fullstack.Tickets.Policies.Closing.{Authority, transition_allowed_iff}
use python_fullstack.Tickets.Policies.Actions.{assign, available_actions}
use python_fullstack.Tickets.Policies.Actions.Offers.{is_offered}
use python_fullstack.Examples.Data.{dev, facts}

derive_priority_mono_example : order_index p1 ≤ order_index p2
unfolding derive_priority
derive_priority_mono_example =
    derive_priority_mono s1_critical s2_major whole_org department no_workaround painful
      (omega arith) (omega arith) (omega arith) refl refl

transition_allowed_iff_example :
    (assert_transition_allowed dev (facts in_progress) resolved ≡ ok tt) ↔ (
      (p : Permission) × Edge in_progress resolved p
      × (has dev p ≡ true)
      × Authority dev (facts in_progress) resolved)
transition_allowed_iff_example = transition_allowed_iff dev (facts in_progress) resolved

-- A developer who is in no team is offered the tickets of all inboxes.
abbrev stranger : Actor
stranger = record dev { team_ids = [] }

stranger-is_offered : is_offered (available_actions stranger (facts open_)) assign ≡ true
unfolding available_actions has permissions_for assert_can_act_on sorted_set
stranger-is_offered = refl

stranger_is_refused : assert_can_assign stranger (facts open_) (some 2) ≡ err permission_denied
unfolding assert_can_assign permissions_for
stranger_is_refused = refl
