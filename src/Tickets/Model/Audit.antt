-- ===== src/Tickets/Model/Audit.antt =====
-- backend/app/modules/audit: the rows of the audit log, and the redaction of sensitive fields.
use text.Mathlib.Text.{◌==◌ as str_eq}
use python_fullstack.Base.{
  ℕ, ◌≡◌, refl, Bool, true, false, ◌||◌, Option, none, some, List, [], ◌∷◌, String, if◌then◌else◌,
}
use python_fullstack.Tickets.Enums.{Severity, Impact, Priority, TicketStatus, Environment}

pub data AuditAction : Type 0 where
  ticket_created ticket_updated ticket_assigned ticket_transitioned : AuditAction
  ticket_resolved ticket_rejected ticket_closed ticket_reopened : AuditAction
  ticket_team_transferred ticket_priority_overridden : AuditAction

-- A value of the `changes` payload. `of_` constructors stand for `str(value)` and `value.value`.
pub data AuditValue : Type 0 where
  null : AuditValue
  redacted : AuditValue
  of_text : String → AuditValue
  of_id : ℕ → AuditValue
  of_number : ℕ → AuditValue
  of_status : TicketStatus → AuditValue
  of_priority : Priority → AuditValue
  of_severity : Severity → AuditValue
  of_impact : Impact → AuditValue
  of_environment : Environment → AuditValue

abbrev pub Changes : Type 0
Changes = List (String × AuditValue)

pub record AuditLog : Type 0 where
  pub tenant_id : ℕ
  pub actor_id : ℕ
  pub action : AuditAction
  pub entity_id : ℕ
  pub before : Option Changes
  pub after : Option Changes

abbrev pub redacted_fields : List String
redacted_fields =
    "description" ∷ "body" ∷ "steps_to_reproduce" ∷ "expected_result" ∷ "actual_result"
    ∷ "resolution_notes" ∷ "password" ∷ "password_hash" ∷ "reporter_email" ∷ "reporter_name"
    ∷ "original_filename" ∷ []

-- `key in REDACTED_FIELDS`
unfoldable pub is_listed : List String → String → Bool
is_listed [] key = false
is_listed (f ∷ fs) key = str_eq f key || is_listed fs key

unfoldable pub scrub : Changes → Changes
unfolding is_listed
scrub [] = []
scrub ((key, value) ∷ rest) =
    (key, (if is_listed redacted_fields key then redacted else value)) ∷ scrub rest

abbrev pub scrub? : Option Changes → Option Changes
scrub? none = none
scrub? (some changes) = some (scrub changes)

-- Of every listed field the payload shows the marker alone.
abbrev pub IsClean : Changes → Type 0
IsClean [] = Unit {0}
IsClean ((key, value) ∷ rest) =
    (is_listed redacted_fields key ≡ true → value ≡ redacted) × IsClean rest

abbrev pub IsClean? : Option Changes → Type 0
IsClean? none = Unit {0}
IsClean? (some changes) = IsClean changes

pub scrub-IsClean : (changes : Changes) → IsClean (scrub changes)
unfolding scrub
scrub-IsClean [] = tt
scrub-IsClean ((key, value) ∷ rest) = (λ h. rw h refl, scrub-IsClean rest)

pub scrub?-IsClean : (changes : Option Changes) → IsClean? (scrub? changes)
scrub?-IsClean none = tt
scrub?-IsClean (some changes) = scrub-IsClean changes
