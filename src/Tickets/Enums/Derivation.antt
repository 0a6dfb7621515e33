-- ===== src/Tickets/Enums/Derivation.antt =====
-- The priority derivation of tickets/enums.py: it never fails, and it is monotone in each answer.
use python_fullstack.Base.{ℕ, zero, suc, ◌≤◌, ◌<◌, ◌≡◌, refl, some, arith}
use python_fullstack.Tickets.Enums.{
  Severity, s1_critical, s2_major, s3_minor, s4_cosmetic, Impact, whole_org, department, few_users,
  single_user, Workaround, no_workaround, painful, easy, Priority, p1, p2, p3, p4, priority_matrix,
  order, at_index, order_index, shift, derive_priority,
}

-- How urgent an answer is: 0 is the most urgent.
abbrev pub severity_rank : Severity → ℕ
severity_rank s1_critical = 0
severity_rank s2_major = 1
severity_rank s3_minor = 2
severity_rank s4_cosmetic = 3

abbrev pub impact_rank : Impact → ℕ
impact_rank whole_org = 0
impact_rank department = 1
impact_rank few_users = 2
impact_rank single_user = 3

abbrev pub workaround_rank : Workaround → ℕ
workaround_rank no_workaround = 0
workaround_rank painful = 1
workaround_rank easy = 2

at_index_total : (k : ℕ) → k < 4 → (p : Priority) × (at_index order k ≡ some p)
at_index_total zero h = (p1, refl)
at_index_total (suc zero) h = (p2, refl)
at_index_total (suc (suc zero)) h = (p3, refl)
at_index_total (suc (suc (suc zero))) h = (p4, refl)
at_index_total (suc (suc (suc (suc k)))) h = absurd (omega arith)

order_index-at_index : (k : ℕ) {p : Priority} → at_index order k ≡ some p → order_index p ≡ k
unfolding order_index
order_index-at_index zero h = ground arith
order_index-at_index (suc zero) h = ground arith
order_index-at_index (suc (suc zero)) h = ground arith
order_index-at_index (suc (suc (suc zero))) h = ground arith
order_index-at_index (suc (suc (suc (suc k)))) h = cc

order_index-lt : (p : Priority) → order_index p < 4
unfolding order_index
order_index-lt p = ground arith

shift-lt : (w : Workaround) (k : ℕ) → k < 4 → shift w k < 4
unfolding shift
shift-lt no_workaround k h = omega arith
shift-lt painful k h = h
shift-lt easy k h = omega arith

-- One step either way at most, monotone in the workaround and in the index.
shift_mono :
    (w v : Workaround) (k l : ℕ)
    → k < 4
    → l < 4
    → workaround_rank w ≤ workaround_rank v
    → k ≤ l
    → shift w k ≤ shift v l
unfolding shift
shift_mono w v k l hk hl hw h = ground arith

matrix_mono_severity :
    (s t : Severity) (i : Impact)
    → severity_rank s ≤ severity_rank t
    → order_index (priority_matrix s i) ≤ order_index (priority_matrix t i)
unfolding priority_matrix order_index
matrix_mono_severity s t whole_org h = ground arith
matrix_mono_severity s t department h = ground arith
matrix_mono_severity s t few_users h = ground arith
matrix_mono_severity s t single_user h = ground arith

matrix_mono_impact :
    (s : Severity) (i j : Impact)
    → impact_rank i ≤ impact_rank j
    → order_index (priority_matrix s i) ≤ order_index (priority_matrix s j)
unfolding priority_matrix order_index
matrix_mono_impact s1_critical i j h = ground arith
matrix_mono_impact s2_major i j h = ground arith
matrix_mono_impact s3_minor i j h = ground arith
matrix_mono_impact s4_cosmetic i j h = ground arith

derive_index :
    (s : Severity) (i : Impact) (w : Workaround) {p : Priority}
    → derive_priority s i w ≡ some p
    → order_index p ≡ shift w (order_index (priority_matrix s i))
unfolding derive_priority
derive_index s i w h = order_index-at_index (shift w (order_index (priority_matrix s i))) h

-- The derivation returns a priority for every answer.
pub derive_priority_total :
    (s : Severity) (i : Impact) (w : Workaround) → (p : Priority) × (derive_priority s i w ≡ some p)
unfolding derive_priority
derive_priority_total s i w =
    at_index_total (shift w (order_index (priority_matrix s i)))
      (shift-lt w (order_index (priority_matrix s i)) (order_index-lt (priority_matrix s i)))

-- Of two sets of answers, the one that is at least as urgent in severity, impact and workaround
-- gets a priority that is at least as urgent.
pub derive_priority_mono :
    (s t : Severity) (i j : Impact) (w v : Workaround) {p q : Priority}
    → severity_rank s ≤ severity_rank t
    → impact_rank i ≤ impact_rank j
    → workaround_rank w ≤ workaround_rank v
    → derive_priority s i w ≡ some p
    → derive_priority t j v ≡ some q
    → order_index p ≤ order_index q
derive_priority_mono s t i j w v hs hi hw dp dq = omega (
  arith,
  derive_index s i w dp,
  derive_index t j v dq,
  shift_mono w v (order_index (priority_matrix s i)) (order_index (priority_matrix t j))
      (order_index-lt (priority_matrix s i)) (order_index-lt (priority_matrix t j)) hw
      (omega (arith, matrix_mono_severity s t i hs, matrix_mono_impact t i j hi)),
)
