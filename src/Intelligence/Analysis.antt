-- ===== src/Intelligence/Analysis.antt =====
-- backend/app/modules/intelligence/pipelines/analysis.py: the state of one agent run, its first
-- two nodes. The models, the tools, the clock and Python's `json` are
-- parameters, asked anew at each superstep; the prompts are not modelled, so a model answers to the
-- whole state. A cost is a whole number of some unit.
pub mod Nodes
pub mod Graph
use text.Mathlib.Text.{◌==◌ as str_eq}
use Prim.Native.String.{◌++◌ as append}
use python_fullstack.Base.{
  ℕ, zero, suc, ◌+◌, ◌*◌, Bool, true, false, not, Option, none, some, List, [], ◌∷◌, ◌++◌, map,
  String, leb, if◌then◌else◌,
}
use python_fullstack.Base.Exec.{Result, ok, err}
use python_fullstack.Base.Assoc.{Dict, lookup}
use python_fullstack.Base.Text.{is_empty}
use python_fullstack.Base.Words.{text_in, unique, sorted, decimal}
use python_fullstack.Core.Errors.{AppError}
use python_fullstack.Intelligence.Json.{Json, string, object, Fields, empty, field}
use python_fullstack.Intelligence.References.{Classes, references_in, result_references}

pub data Action : Type 0 where
  use_tool : Action
  finish : Action

pub record AgentDecision : Type 0 where
  pub thought : String
  pub action : Action
  pub tool : Option String
  pub arguments_json : Option String

-- The confidence is a number of hundredths.
pub record AnalysisReport : Type 0 where
  pub summary : String
  pub likely_area : String
  pub is_recurring : Bool
  pub related_references : List String
  pub suggested_next_steps : List String
  pub confidence : ℕ

pub data Observation : Type 0 where
  ran : (tool : String) (arguments : Fields) (result : Fields) → Observation
  unknown_tool : (tool : String) (available_tools : List String) → Observation
  invalid_json : (tool : String) → Observation
  repeated_call : (tool : String) → Observation

-- What `record_step` is called with, less the summary of the result.
pub record Step : Type 0 where
  pub turn : ℕ
  pub tool : String
  pub arguments : Option Fields

pub record AnalysisState : Type 0 where
  pub ticket_reference : String
  pub observations : List Observation
  pub seen_references : List String
  pub turn : ℕ
  pub tool_calls : ℕ
  pub call_signatures : List String
  pub decision : Option AgentDecision
  pub report : Option AnalysisReport
  pub partial : Bool
  pub stop_reason : String
  pub model : String
  pub estimated_cost : ℕ
  pub trace : List String
  pub steps : List Step

-- What the registry's call gives: `CallOutcome`.
pub record Outcome (A : Type 0) : Type 0 where
  pub value : A
  pub model : String
  pub estimated_cost : ℕ

-- The number is the superstep; a clock is read twice in one, by the node and by its route.
pub record AgentDeps : Type 0 where
  pub decide_call : ℕ → AnalysisState → Result AppError (Outcome AgentDecision)
  pub report_call : ℕ → AnalysisState → Result AppError (Outcome AnalysisReport)
  pub tools : Dict (ℕ → Fields → Fields)
  pub loads : String → Option Json
  pub dumps : Fields → String
  pub classes : Classes
  pub error_name : AppError → String
  pub node_expired : ℕ → Bool
  pub route_expired : ℕ → Bool
  pub elapsed : ℕ → ℕ
  pub max_turns : ℕ
  pub max_tool_calls : ℕ
  pub max_cost : ℕ

abbrev pub join : List String → String
join [] = String.[]
join (w ∷ ws) = append w (join ws)

abbrev pub signature : AgentDeps → String → Fields → String
signature d tool arguments = join (tool ∷ ":" ∷ d.dumps arguments ∷ [])

-- `prime`
abbrev pub prime_with : AgentDeps → ℕ → AnalysisState → (ℕ → Fields → Fields) → AnalysisState
prime_with d n s invoke =
    let arguments : Fields = field "reference" (string s.ticket_reference) empty in
    let result = invoke n arguments in
    record s {
      observations = s.observations ++ ran "get_ticket" arguments result ∷ [];
      seen_references = s.seen_references ++ result_references result;
      call_signatures = s.call_signatures ++ signature d "get_ticket" arguments ∷ [];
      tool_calls = 1;
      trace = s.trace ++ "prime:get_ticket" ∷ [];
      steps = s.steps ++ record { turn = 0; tool = "get_ticket"; arguments = some arguments } ∷ [];
    }

abbrev pub skip_prime : AnalysisState → AnalysisState
skip_prime s = record s { trace = s.trace ++ "prime:skipped" ∷ [] }

abbrev prime_tool : AgentDeps → ℕ → AnalysisState → Option (ℕ → Fields → Fields) → AnalysisState
prime_tool d n s none = skip_prime s
prime_tool d n s (some invoke) =
    if is_empty s.ticket_reference then skip_prime s else prime_with d n s invoke

unfoldable pub prime : AgentDeps → ℕ → AnalysisState → AnalysisState
unfolding lookup result_references
prime d n s = prime_tool d n s (lookup "get_ticket" d.tools)

-- `decide`
abbrev pub action_name : Action → String
action_name use_tool = "use_tool"
action_name finish = "finish"

abbrev or_dash : Option String → String
or_dash none = "-"
or_dash (some String.[]) = "-"
or_dash (some s) = s

abbrev decided : AgentDeps → AnalysisState → Result AppError (Outcome AgentDecision) → AnalysisState
decided d s (err e) = record s {
  turn = s.turn + 1;
  partial = true;
  stop_reason = join ("the model was unavailable (" ∷ d.error_name e ∷ ")" ∷ []);
  decision = none;
  trace = s.trace ++ join ("decide:" ∷ decimal (s.turn + 1) ∷ ":unavailable" ∷ []) ∷ [];
}
decided d s (ok o) = record s {
  turn = s.turn + 1;
  decision = some o.value;
  model = o.model;
  estimated_cost = s.estimated_cost + o.estimated_cost;
  trace =
      s.trace
      ++ join (
          "decide:"
          ∷ decimal (s.turn + 1)
          ∷ ":"
          ∷ action_name o.value.action
          ∷ ":"
          ∷ or_dash o.value.tool
          ∷ [])
        ∷ [];
}

unfoldable pub decide : AgentDeps → ℕ → AnalysisState → AnalysisState
unfolding decimal
decide d n s = decided d s (d.decide_call n s)
