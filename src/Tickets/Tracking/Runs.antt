-- ===== src/Tickets/Tracking/Runs.antt =====
-- The status history along runs of requests.
use python_fullstack.Base.{
  ◌≡◌, refl, sym, none, some, List, [], ◌∷◌, arith, ◌==◌, Bool-cases, inl, inr, ==_refl,
}
use python_fullstack.Tickets.Enums.{Priority}
use python_fullstack.Tickets.Enums.Derivation.{derive_priority_total}
use python_fullstack.Tickets.Policies.{Actor}
use python_fullstack.Tickets.Model.{Ticket, StatusHistory, Session}
use python_fullstack.Tickets.Repository.Rows.{All}
use python_fullstack.Tickets.Service.{Call}
use python_fullstack.Tickets.Service.Create
use python_fullstack.Tickets.Service.Create.{TicketCreate, draft}
use python_fullstack.Tickets.Service.Request.{Request, create, execute, serve}
use python_fullstack.Tickets.Service.Spec.Refines.{execute-Refines}
use python_fullstack.Tickets.Service.Spec.History.{execute-history}
use python_fullstack.Tickets.Tracking.{latest, Tracked, IsTracked, found-current}

-- The id that a creation draws has no history yet.
abbrev pub DrawsFresh : Call → Request → Session → Type 0
DrawsFresh c (create payload) s = latest c.fresh_id s.history ≡ none
DrawsFresh c _ s = Unit {0}

untouched :
    (row : StatusHistory) (rows : List StatusHistory) (ts : List Ticket)
    → latest row.ticket_id rows ≡ none
    → All (Tracked rows) ts
    → All (Tracked (row ∷ rows)) ts
untouched row rows [] new all = tt
untouched row rows (v ∷ vs) new all = (
  elim (Bool-cases (row.ticket_id == v.id)) [
    | inl e ↦ ground (arith, e, new, all.0)
    | inr e ↦ rw e all.0
  ],
  untouched row rows vs new all.1,
)

abbrev creation : Call → Actor → TicketCreate → Priority → StatusHistory
creation c a payload p = record {
  tenant_id = c.tenant;
  ticket_id = c.fresh_id;
  from_status = none;
  to_status = (draft c a payload 0 p).status;
  changed_by_id = a.user_id;
  note = some "Created";
}

create-IsTracked :
    (c : Call) (a : Actor) (payload : TicketCreate) (s : Session)
    → latest c.fresh_id s.history ≡ none
    → IsTracked s
    → IsTracked (Create.create c a payload s).1
unfolding Create.create
create-IsTracked c a payload s new h =
    let (p, e) = derive_priority_total payload.severity payload.impact payload.workaround in
    rw e (record {
      current = (
        rw (==_refl c.fresh_id) refl,
        untouched (creation c a payload p) s.history s.tickets new h.current,
      );
      chain = (sym new, h.chain);
    })

-- A request keeps the history current and a chain: the newest row of every ticket leads to the
-- status that the ticket has, and every row starts from the status that the row before it led to. A
-- creation is to draw an id without history.
pub execute-IsTracked :
    (c : Call) (a : Actor) (r : Request) (s : Session)
    → DrawsFresh c r s
    → IsTracked s
    → IsTracked (execute c a r s).1
execute-IsTracked c a (create payload) s new h =
    unfold execute in create-IsTracked c a payload s new h
execute-IsTracked c a r s new h =
    let (current, chain) = found-current c a r s refl h in
    record {
      current =
          rw ((execute-Refines c a r s refl).writes_table, execute-history c a r s refl) current;
      chain = rw (execute-history c a r s refl) chain;
    }

-- Every creation of a run draws an id that has no history at that point.
abbrev pub FreshAlong : Session → List (Call × Actor × Request) → Type 0
FreshAlong s [] = Unit {0}
FreshAlong s ((c, a, r) ∷ rest) = DrawsFresh c r s × FreshAlong (execute c a r s).1 rest

-- Along every run of requests, granted or refused, the history is complete and a chain: the newest
-- row of every ticket leads to the status that the ticket has, and every row starts from the status
-- that the row before it led to, provided that each creation draws an id without history.
pub serve-IsTracked :
    (s : Session) (requests : List (Call × Actor × Request))
    → FreshAlong s requests
    → IsTracked s
    → IsTracked (serve s requests)
unfolding serve
serve-IsTracked s [] new h = h
serve-IsTracked s ((c, a, r) ∷ rest) new h =
    serve-IsTracked (execute c a r s).1 rest new.1 (execute-IsTracked c a r s new.0 h)
