-- ===== src/Intelligence/Analysis/Graph.antt =====
-- backend/app/modules/intelligence/pipelines/analysis.py: the routes, the graph, and the run of it
-- with LangGraph's limit on the supersteps.
pub mod Ends
pub mod Keeping
pub mod Consistent
pub mod Grounded
use python_fullstack.Base.{
  ℕ, zero, suc, ◌+◌, ◌*◌, Bool, true, false, Option, none, some, List, [], String, leb,
  if◌then◌else◌,
}
use python_fullstack.Intelligence.Analysis.{
  Action, use_tool, finish, AgentDecision, AnalysisState, AgentDeps, prime, decide,
}
use python_fullstack.Intelligence.Analysis.Nodes.{act, report, check_limits}

-- The node that runs next; `over` stands for `END`.
pub data Node : Type 0 where
  priming : Node
  deciding : Node
  acting : Node
  limits : Node
  reporting : Node
  over : Node

abbrev wanted : Option AgentDecision → Node
wanted none = reporting
wanted (some decision) = elim decision.action [ use_tool ↦ acting | finish ↦ reporting ]

abbrev pub route_after_decide : AnalysisState → Node
route_after_decide s = wanted s.decision

abbrev pub route_after_act : AgentDeps → ℕ → AnalysisState → Node
route_after_act d n s =
    if leb d.max_turns s.turn
    then reporting
    else if leb d.max_tool_calls s.tool_calls
    then reporting
    else if leb d.max_cost s.estimated_cost
    then reporting
    else if d.route_expired n
    then reporting
    else deciding

-- The edges of `analysis_graph`.
abbrev pub next : AgentDeps → ℕ → Node → AnalysisState → Node
next d n priming s = deciding
next d n deciding s = route_after_decide s
next d n acting s = limits
next d n limits s = route_after_act d n s
next d n reporting s = over
next d n over s = over

abbrev pub exec : AgentDeps → ℕ → Node → AnalysisState → AnalysisState
exec d n priming s = prime d n s
exec d n deciding s = decide d n s
exec d n acting s = act d n s
exec d n limits s = check_limits d n s
exec d n reporting s = report d n s
exec d n over s = s

-- With a number of supersteps left; `none` is LangGraph's error that the limit is reached.
unfoldable pub run : AgentDeps → ℕ → ℕ → Node → AnalysisState → Option AnalysisState
unfolding prime decide act check_limits report
run d left n over s = some s
run d zero n node s = none
run d (suc left) n node s = let s' = exec d n node s in run d left (suc n) (next d n node s') s'

abbrev pub initial : String → AnalysisState
initial reference = record {
  ticket_reference = reference;
  observations = [];
  seen_references = [];
  turn = 0;
  tool_calls = 0;
  call_signatures = [];
  decision = none;
  report = none;
  partial = false;
  stop_reason = "";
  model = "";
  estimated_cost = 0;
  trace = [];
  steps = [];
}

-- `run_analysis`, on the state that `AnalysisService.execute` makes
unfoldable pub run_analysis : AgentDeps → String → Option AnalysisState
unfolding run
run_analysis d reference = run d (d.max_turns * 4 + 10) 0 priming (initial reference)
