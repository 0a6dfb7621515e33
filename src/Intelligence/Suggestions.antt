-- ===== src/Intelligence/Suggestions.antt =====
-- backend/app/modules/intelligence/repository.py, `SuggestionRepository`, and `decide_suggestion` of
-- service.py, on the table `ai_suggestions`. A confidence is a number of hundredths; the payload is
-- left out.
pub mod Verdicts
use python_fullstack.Base.{
  ℕ, zero, suc, ◌+◌, Bool, true, false, not, ◌&&◌, ◌||◌, Option, none, some, List, [], ◌∷◌, ◌++◌,
  String, is_id, ◌==◌, if◌then◌else◌,
}
use python_fullstack.Base.Exec.{Result, ok, err}
use python_fullstack.Core.Errors.{AppError, not_found}
use python_fullstack.Intelligence.Rerank.{Relation}

pub data SuggestionKind : Type 0 where
  similar triage resolution : SuggestionKind

pub data SuggestionStatus : Type 0 where
  pending accepted rejected expired : SuggestionStatus

pub record AiSuggestion : Type 0 where
  pub id : ℕ
  pub tenant_id : ℕ
  pub ticket_id : ℕ
  pub kind : SuggestionKind
  pub related_ticket_id : Option ℕ
  pub relation : Option Relation
  pub confidence : Option ℕ
  pub reason : Option String
  pub model : Option String
  pub status : SuggestionStatus
  pub decided_by_id : Option ℕ
  pub decided_at : Option ℕ

pub record Item : Type 0 where
  pub related_ticket_id : ℕ
  pub relation : Option Relation
  pub confidence : Option ℕ
  pub reason : Option String

abbrev pub is_pending : SuggestionStatus → Bool
is_pending pending = true
is_pending _ = false

abbrev is_similar : SuggestionKind → Bool
is_similar similar = true
is_similar _ = false

-- A suggestion of this kind for the ticket
abbrev pub is_for : ℕ → AiSuggestion → Bool
is_for ticket s = (s.ticket_id == ticket) && is_similar s.kind

-- The rows that the `DELETE` leaves
abbrev pub without_pending : ℕ → List AiSuggestion → List AiSuggestion
without_pending ticket [] = []
without_pending ticket (s ∷ ss) =
    let rest = without_pending ticket ss in
    if is_for ticket s && is_pending s.status then rest else s ∷ rest

-- `related_id in already_judged`
abbrev pub judged : ℕ → ℕ → List AiSuggestion → Bool
judged ticket related [] = false
judged ticket related (s ∷ ss) =
    (is_for ticket s && (not (is_pending s.status) && is_id s.related_ticket_id related))
    || judged ticket related ss

abbrev pub suggestion : ℕ → ℕ → ℕ → Option String → Item → AiSuggestion
suggestion id tenant ticket model i = record {
  id = id;
  tenant_id = tenant;
  ticket_id = ticket;
  kind = similar;
  related_ticket_id = some i.related_ticket_id;
  relation = i.relation;
  confidence = i.confidence;
  reason = i.reason;
  model = model;
  status = pending;
  decided_by_id = none;
  decided_at = none;
}

-- The new rows, with ids counted up from the first
abbrev pub created : ℕ → ℕ → ℕ → Option String → List AiSuggestion → List Item → List AiSuggestion
created id tenant ticket model table [] = []
created id tenant ticket model table (i ∷ is) =
    let rest = created (id + 1) tenant ticket model table is in
    if judged ticket i.related_ticket_id table
    then rest
    else suggestion id tenant ticket model i ∷ rest

-- `replace_similar`
unfoldable pub replace_similar :
    ℕ → ℕ → ℕ → Option String → List Item → List AiSuggestion → List AiSuggestion
replace_similar id tenant ticket model items table =
    let left = without_pending ticket table in left ++ created id tenant ticket model left items

abbrev pub verdict : Bool → SuggestionStatus
verdict true = accepted
verdict false = rejected

abbrev pub decided : ℕ → Bool → ℕ → AiSuggestion → AiSuggestion
decided now accept user s = record s {
  status = verdict accept;
  decided_by_id = some user;
  decided_at = some now;
}

abbrev pub decide_in : ℕ → (AiSuggestion → AiSuggestion) → List AiSuggestion → List AiSuggestion
decide_in id f [] = []
decide_in id f (s ∷ ss) = (if s.id == id then f s else s) ∷ decide_in id f ss

abbrev pub has_id : ℕ → List AiSuggestion → Bool
has_id id [] = false
has_id id (s ∷ ss) = (s.id == id) || has_id id ss

-- `decide_suggestion`
unfoldable pub decide_suggestion :
    ℕ → ℕ → Bool → ℕ → List AiSuggestion → Result AppError (Unit {0}) × List AiSuggestion
decide_suggestion now id accept user table =
    if has_id id table
    then (ok tt, decide_in id (decided now accept user) table)
    else (err not_found, table)
