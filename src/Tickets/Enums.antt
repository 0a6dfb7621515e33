-- ===== src/Tickets/Enums.antt =====
-- backend/app/modules/tickets/enums.py: the domain enums and the priority derivation.
pub mod Derivation
use python_fullstack.Base.{
  ℕ, zero, suc, ◌+◌, ◌-◌, min, Bool, true, false, List, [], ◌∷◌, length, Option, none, some,
}

pub data Severity : Type 0 where
  s1_critical s2_major s3_minor s4_cosmetic : Severity

pub data Impact : Type 0 where
  whole_org department few_users single_user : Impact

pub data Workaround : Type 0 where
  no_workaround painful easy : Workaround

pub data Priority : Type 0 where
  p1 p2 p3 p4 : Priority

pub data TicketStatus : Type 0 where
  open_ assigned in_progress on_hold resolved rejected closed : TicketStatus

pub data Environment : Type 0 where
  production staging uat : Environment

pub data RejectionReason : Type 0 where
  not_a_bug duplicate wont_fix cannot_reproduce : RejectionReason

pub data WaitingOn : Type 0 where
  on_cs on_client on_other_team : WaitingOn

unfoldable pub Priority-discrete : Discrete Priority
Priority-discrete = hlevel

unfoldable pub TicketStatus-discrete : Discrete TicketStatus
TicketStatus-discrete = hlevel

unfoldable pub Environment-discrete : Discrete Environment
Environment-discrete = hlevel

-- `status in AWAITING_CS`
abbrev pub awaiting_cs : TicketStatus → Bool
awaiting_cs resolved = true
awaiting_cs rejected = true
awaiting_cs _ = false

-- `status in OPEN_STATUSES`
abbrev pub open_statuses : TicketStatus → Bool
open_statuses open_ = true
open_statuses assigned = true
open_statuses in_progress = true
open_statuses on_hold = true
open_statuses _ = false

-- `_PRIORITY_MATRIX[(severity, impact)]`
unfoldable pub priority_matrix : Severity → Impact → Priority
priority_matrix s1_critical whole_org = p1
priority_matrix s1_critical department = p1
priority_matrix s1_critical few_users = p2
priority_matrix s1_critical single_user = p2
priority_matrix s2_major whole_org = p1
priority_matrix s2_major department = p2
priority_matrix s2_major few_users = p2
priority_matrix s2_major single_user = p3
priority_matrix s3_minor whole_org = p2
priority_matrix s3_minor department = p3
priority_matrix s3_minor few_users = p3
priority_matrix s3_minor single_user = p4
priority_matrix s4_cosmetic whole_org = p3
priority_matrix s4_cosmetic department = p4
priority_matrix s4_cosmetic few_users = p4
priority_matrix s4_cosmetic single_user = p4

-- `_ORDER`, its `index`, and reading it at an index; the default is never read, since the index
-- is clamped to the list.
abbrev pub order : List Priority
order = p1 ∷ p2 ∷ p3 ∷ p4 ∷ []

unfoldable pub order_index : Priority → ℕ
order_index p1 = 0
order_index p2 = 1
order_index p3 = 2
order_index p4 = 3

abbrev pub at_index : List Priority → ℕ → Option Priority
at_index [] i = none
at_index (p ∷ ps) zero = some p
at_index (p ∷ ps) (suc i) = at_index ps i

-- `index - 1` under `max(0, ...)` is truncated subtraction.
unfoldable pub shift : Workaround → ℕ → ℕ
shift no_workaround index = index - 1
shift painful index = index
shift easy index = min (length order - 1) (index + 1)

-- `none` stands for the IndexError of `_ORDER[index]`.
unfoldable pub derive_priority : Severity → Impact → Workaround → Option Priority
unfolding priority_matrix order_index shift
derive_priority severity impact workaround =
    at_index order (shift workaround (order_index (priority_matrix severity impact)))
