-- ===== src/Intelligence/Analysis/Nodes.antt =====
-- backend/app/modules/intelligence/pipelines/analysis.py: the nodes `act`, `report` and `limits`.
use text.Mathlib.Text.{◌==◌ as str_eq}
use python_fullstack.Base.{
  ℕ, ◌+◌, Bool, true, false, Option, none, some, List, [], ◌∷◌, ◌++◌, map, String, leb,
  if◌then◌else◌,
}
use python_fullstack.Base.Exec.{Result, ok, err}
use python_fullstack.Base.Assoc.{lookup}
use python_fullstack.Base.Text.{is_empty}
use python_fullstack.Base.Words.{text_in, unique, sorted, decimal}
use python_fullstack.Core.Errors.{AppError}
use python_fullstack.Intelligence.Json.{Json, object, Fields}
use python_fullstack.Intelligence.References.{references_in, result_references}
use python_fullstack.Intelligence.Analysis.{
  AgentDecision, AnalysisReport, Observation, ran, unknown_tool, invalid_json, repeated_call,
  AnalysisState, Outcome, AgentDeps, join, signature,
}

-- A failed call becomes an observation.
abbrev pub observe : AnalysisState → Observation → String → Option Fields → String → AnalysisState
observe s o tool arguments what = record s {
  observations = s.observations ++ o ∷ [];
  trace = s.trace ++ join ("act:" ∷ decimal s.turn ∷ what ∷ []) ∷ [];
  steps = s.steps ++ record { turn = s.turn; tool = tool; arguments = arguments } ∷ [];
}

abbrev pub act_no_tool : AnalysisState → AnalysisState
act_no_tool s = record s {
  trace = s.trace ++ join ("act:" ∷ decimal s.turn ∷ ":no-tool" ∷ []) ∷ [];
}

abbrev pub length_text : List String → ℕ
length_text [] = 0
length_text (w ∷ ws) = length_text ws + 1

abbrev pub act_ran : AgentDeps → AnalysisState → String → Fields → Fields → AnalysisState
act_ran d s tool arguments result = record s {
  observations = s.observations ++ ran tool arguments result ∷ [];
  seen_references = s.seen_references ++ result_references result;
  call_signatures = s.call_signatures ++ signature d tool arguments ∷ [];
  tool_calls = s.tool_calls + 1;
  trace =
      s.trace
      ++ join (
          "act:"
          ∷ decimal s.turn
          ∷ ":"
          ∷ tool
          ∷ ":"
          ∷ decimal (length_text (result_references result))
          ∷ "refs"
          ∷ [])
        ∷ [];
  steps = s.steps ++ record { turn = s.turn; tool = tool; arguments = some arguments } ∷ [];
}

abbrev pub act_with :
    AgentDeps → ℕ → AnalysisState → String → (ℕ → Fields → Fields) → Fields → AnalysisState
act_with d n s tool invoke arguments =
    if text_in (signature d tool arguments) s.call_signatures
    then observe s (repeated_call tool) tool (some arguments) ":repeat"
    else act_ran d s tool arguments (invoke n arguments)

-- What `json.loads` gives, if it does not raise
abbrev pub act_parsed :
    AgentDeps → ℕ → AnalysisState → String → (ℕ → Fields → Fields) → Option Json → AnalysisState
act_parsed d n s tool invoke (some (object arguments)) = act_with d n s tool invoke arguments
act_parsed d n s tool invoke _ = observe s (invalid_json tool) tool none ":bad-json"

-- `decision.arguments_json or "{}"`
abbrev pub or_object : Option String → String
or_object none = "{}"
or_object (some s) = if is_empty s then "{}" else s

abbrev pub act_found :
    AgentDeps
    → ℕ
    → AnalysisState
    → AgentDecision
    → String
    → Option (ℕ → Fields → Fields)
    → AnalysisState
act_found d n s decision tool none =
    observe s (unknown_tool tool (sorted (map (λ entry. entry.0) d.tools))) tool none
      ":unknown-tool"
act_found d n s decision tool (some invoke) =
    act_parsed d n s tool invoke (d.loads (or_object decision.arguments_json))

abbrev pub act_tool : AgentDeps → ℕ → AnalysisState → AgentDecision → Option String → AnalysisState
act_tool d n s decision none = act_no_tool s
act_tool d n s decision (some tool) = act_found d n s decision tool (lookup tool d.tools)

abbrev pub act_decision : AgentDeps → ℕ → AnalysisState → Option AgentDecision → AnalysisState
act_decision d n s none = act_no_tool s
act_decision d n s (some decision) = act_tool d n s decision decision.tool

unfoldable pub act : AgentDeps → ℕ → AnalysisState → AnalysisState
unfolding decimal lookup result_references sorted
act d n s = act_decision d n s s.decision

-- Every reference that a report names, in its field and in its prose
abbrev step_references : AgentDeps → List String → List String
step_references d [] = []
step_references d (w ∷ ws) = references_in d.classes (some w) ++ step_references d ws

abbrev pub claimed : AgentDeps → AnalysisReport → List String
claimed d r =
    r.related_references
    ++ (references_in d.classes (some r.summary) ++ step_references d r.suggested_next_steps)

-- Those but the ticket's own that were seen, and those that were not.
abbrev pub split_grounded : Bool → String → List String → List String → List String
split_grounded want own seen [] = []
split_grounded want own seen (r ∷ rs) =
    let rest = split_grounded want own seen rs in
    if str_eq r own
    then rest
    else if text_in r seen
    then (if want then r ∷ rest else rest)
    else (if want then rest else r ∷ rest)

abbrev pub with_references : List String → AnalysisReport → AnalysisReport
with_references rs r = record r { related_references = rs }

abbrev or_reason : String → String → String
or_reason s t = if is_empty s then t else s

abbrev grounded : AgentDeps → AnalysisState → AnalysisReport → List String
grounded d s r = split_grounded true s.ticket_reference s.seen_references (unique (claimed d r))

abbrev dropped : AgentDeps → AnalysisState → AnalysisReport → List String
dropped d s r = split_grounded false s.ticket_reference s.seen_references (unique (claimed d r))

abbrev reported :
    AgentDeps → AnalysisState → Result AppError (Outcome AnalysisReport) → AnalysisState
reported d s (err e) = record s {
  report = none;
  partial = true;
  stop_reason =
      or_reason s.stop_reason
        (join ("the report could not be written (" ∷ d.error_name e ∷ ")" ∷ []));
  trace = s.trace ++ "report:unavailable" ∷ [];
}
reported d s (ok o) = record s {
  report = some (with_references (grounded d s o.value) o.value);
  model = o.model;
  estimated_cost = s.estimated_cost + o.estimated_cost;
  trace =
      s.trace
      ++ join (
          "report:"
          ∷ o.model
          ∷ ":cited="
          ∷ decimal (length_text (grounded d s o.value))
          ∷ ":dropped="
          ∷ decimal (length_text (dropped d s o.value))
          ∷ [])
        ∷ [];
}

unfoldable pub report : AgentDeps → ℕ → AnalysisState → AnalysisState
unfolding decimal references_in unique
report d n s = reported d s (d.report_call n s)

-- `_limit_reason`, when the clock has run out or not
unfoldable pub limit_reason : AgentDeps → ℕ → AnalysisState → String
unfolding decimal
limit_reason d n s =
    if leb d.max_turns s.turn
    then join ("reached the " ∷ decimal d.max_turns ∷ "-turn limit" ∷ [])
    else if leb d.max_tool_calls s.tool_calls
    then join ("reached the " ∷ decimal d.max_tool_calls ∷ " tool-call limit" ∷ [])
    else if leb d.max_cost s.estimated_cost
    then "reached the cost limit for one analysis"
    else if d.node_expired n
    then join ("ran out of time after " ∷ decimal (d.elapsed n) ∷ "s" ∷ [])
    else ""

abbrev limited : String → AnalysisState → AnalysisState
limited reason s = if is_empty reason then s else record s {
  partial = true;
  stop_reason = reason;
  trace = s.trace ++ join ("limit:" ∷ reason ∷ []) ∷ [];
}

unfoldable pub check_limits : AgentDeps → ℕ → AnalysisState → AnalysisState
unfolding limit_reason
check_limits d n s = limited (limit_reason d n s) s
