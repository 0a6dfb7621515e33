-- ===== src/Tickets/Auditing.antt =====
-- The audit log of the ticket service shows no value of a sensitive field.
use python_fullstack.Base.{arith, Option, none, some, List, [], ◌∷◌, String, ℕ}
use python_fullstack.Base.Keeps.{Keeps, keeps_rules}
use python_fullstack.Core.Errors.{AppError}
use python_fullstack.Tickets.Enums.{TicketStatus, Priority, open_, assigned}
use python_fullstack.Tickets.Policies.{Actor}
use python_fullstack.Tickets.Model.{Ticket, Session, Effect}
use python_fullstack.Tickets.Model.Audit.{AuditAction, AuditLog, Changes, IsClean?, scrub?-IsClean}
use python_fullstack.Tickets.Repository.{get}
use python_fullstack.Tickets.Service.{
  Call, M, save, record_transition, record_audit, call_out, set_status, transition,
}
use python_fullstack.Tickets.Service.Lifecycle
use python_fullstack.Tickets.Service.Create
use python_fullstack.Tickets.Service.Create.{derived, allocate, add_ticket}
use python_fullstack.Tickets.Service.Ownership
use python_fullstack.Tickets.Service.Ownership.{drive_status, to_inbox}
use python_fullstack.Tickets.Service.Content
use python_fullstack.Tickets.Service.Content.{Update, Edit, announce, finish_edit}
use python_fullstack.Tickets.Service.Request.{Request, execute, serve}

abbrev pub AllClean : List AuditLog → Type 0
AllClean [] = Unit {0}
AllClean (row ∷ rows) = IsClean? row.before × IsClean? row.after × AllClean rows

abbrev pub AuditIsClean : Session → Type 0
AuditIsClean s = AllClean s.audit

abbrev Clean : {A : Type 0} → M A → Type 0
Clean m = Keeps AppError Session _ AuditIsClean m

get-Clean : (tenant id : ℕ) → Clean (get tenant id)
unfolding get
get-Clean tenant id = record { at = λ s h. ground arith }

save-Clean : (t : Ticket) → Clean (save t)
unfolding save
save-Clean t = record { at = λ s h. h }

record_transition-Clean :
    (c : Call) (t : Ticket) (f : Option TicketStatus) (to : TicketStatus) (by : ℕ)
    (n : Option String)
    → Clean (record_transition c t f to by n)
unfolding record_transition
record_transition-Clean c t f to by n = record { at = λ s h. h }

record_audit-Clean :
    (c : Call) (a : Actor) (action : AuditAction) (t : Ticket) (b f : Option Changes)
    → Clean (record_audit c a action t b f)
unfolding record_audit
record_audit-Clean c a action t b f = record { at = λ s h. (scrub?-IsClean b, scrub?-IsClean f, h) }

call_out-Clean : (e : Effect) → Clean (call_out e)
unfolding call_out
call_out-Clean e = record { at = λ s h. h }

ruleset clean_rules = (
  keeps_rules, get-Clean, save-Clean, record_transition-Clean, record_audit-Clean, call_out-Clean,
)

set_status-Clean :
    (c : Call) (t : Ticket) (to : TicketStatus) (a : Actor) (n : Option String)
    → Clean (set_status c t to a n)
unfolding set_status
set_status-Clean c t to a n = search clean_rules

transition-Clean :
    (c : Call) (a : Actor) (id v : ℕ) (to : TicketStatus) (action : AuditAction) (n : Option String)
    → Clean (transition c a id v to action n)
unfolding transition
transition-Clean c a id v to action n = search (clean_rules, set_status-Clean) depth 12

drive_status-Clean :
    (c : Call) (a : Actor) (u : Option ℕ) (from_status : TicketStatus) (t : Ticket)
    → Clean (drive_status c a u from_status t)
drive_status-Clean c a none assigned t = search (set_status-Clean)
drive_status-Clean c a (some u) open_ t = search (set_status-Clean)
drive_status-Clean c a _ _ t = search keeps_rules

to_inbox-Clean :
    (c : Call) (a : Actor) (reason : String) (from_status : TicketStatus) (t : Ticket)
    → Clean (to_inbox c a reason from_status t)
to_inbox-Clean c a reason open_ t = search keeps_rules
to_inbox-Clean c a reason _ t = search (set_status-Clean)

announce-Clean : (c : Call) (t : Ticket) (us : List Update) → Clean (announce c t us)
unfolding call_out
announce-Clean c t us = record { at = λ s h. ground arith }

finish_edit-Clean :
    (c : Call) (a : Actor) (e : Edit) (us : List Update) → Clean (finish_edit c a e us)
unfolding finish_edit
finish_edit-Clean c a e [] = search keeps_rules
finish_edit-Clean c a e (u ∷ us) = search (clean_rules, announce-Clean)

derived-Clean : (o : Option Priority) → Clean (derived o)
derived-Clean none = record { at = λ s h. h }
derived-Clean (some p) = record { at = λ s h. h }

allocate-Clean : (c : Call) → Clean (allocate c)
unfolding allocate
allocate-Clean c = record { at = λ s h. h }

add_ticket-Clean : (t : Ticket) → Clean (add_ticket t)
unfolding add_ticket
add_ticket-Clean t = record { at = λ s h. h }

ruleset service_rules = (
  clean_rules, transition-Clean, drive_status-Clean, to_inbox-Clean, finish_edit-Clean,
  derived-Clean, allocate-Clean, add_ticket-Clean,
)

execute-Clean : (c : Call) (a : Actor) (r : Request) → Clean (execute c a r)
unfolding execute Create.create Content.update_content Lifecycle.start Lifecycle.hold
    Lifecycle.resolve Lifecycle.reject Lifecycle.close Lifecycle.reopen Ownership.assign
    Ownership.transfer_team Ownership.override_priority
execute-Clean c a (Request.create payload) = search service_rules depth 12
execute-Clean c a _ = search service_rules depth 12

-- Whatever is asked of the service, an audit log that shows no value of a redacted field stays so.
pub serve-AuditIsClean :
    (s : Session) (requests : List (Call × Actor × Request))
    → AuditIsClean s
    → AuditIsClean (serve s requests)
unfolding serve
serve-AuditIsClean s [] h = h
serve-AuditIsClean s ((c, a, r) ∷ rest) h =
    serve-AuditIsClean (execute c a r s).1 rest ((execute-Clean c a r).at s h)
