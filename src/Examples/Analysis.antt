-- ===== src/Examples/Analysis.antt =====
-- A run of the agent on OS-1 that searches twice, the second time as before, and then reports.
use text.Mathlib.Text.{◌==◌ as str_eq}
use Prim.Native.Char.{code}
use python_fullstack.Base.{
  ℕ, zero, suc, ◌≡◌, refl, true, false, ◌&&◌, Option, none, some, List, [], ◌∷◌, String, leb, max,
}
use python_fullstack.Base.Exec.{ok}
use python_fullstack.Base.Words.{text_in}
use python_fullstack.Core.Errors.{code as error_code}
use python_fullstack.Intelligence.Json.{object, string, empty, field}
use python_fullstack.Intelligence.References.{Classes, references_in}
use python_fullstack.Intelligence.Analysis.{
  use_tool, finish, AgentDecision, AnalysisReport, AnalysisState, AgentDeps,
}
use python_fullstack.Intelligence.Analysis.Graph.{run_analysis}
use python_fullstack.Intelligence.Analysis.Graph.Ends.{EndsWithin, run_analysis_ends}
use python_fullstack.Intelligence.Analysis.Graph.Consistent.{
  evidence, IsConsistent, run_analysis-IsConsistent,
}
use python_fullstack.Intelligence.Analysis.Graph.Grounded.{report_is_grounded}

abbrev classes : Classes
classes = record {
  letter = λ c. leb 65 (code c) && leb (code c) 90;
  digit = λ c. leb 48 (code c) && leb (code c) 57;
}

found : references_in classes (some "see OS-12, NOS-3 and OS-1234567; OS-7X") ≡ "OS-12" ∷ []
unfolding references_in
found = refl

abbrev search : AgentDecision
search = record { thought = "look"; action = use_tool; tool = some "search"; arguments_json = none }

abbrev done : AgentDecision
done = record { thought = "enough"; action = finish; tool = none; arguments_json = none }

abbrev decision_at : ℕ → AgentDecision
decision_at zero = search
decision_at (suc zero) = search
decision_at _ = done

abbrev draft : AnalysisReport
draft = record {
  summary = "Like OS-12 and OS-99.";
  likely_area = "payroll";
  is_recurring = false;
  related_references = "OS-1" ∷ [];
  suggested_next_steps = [];
  confidence = 60;
}

abbrev deps : AgentDeps
deps = record {
  decide_call = λ n s. ok (record { value = decision_at s.turn; model = "m"; estimated_cost = 1 });
  report_call = λ n s. ok (record { value = draft; model = "m"; estimated_cost = 2 });
  tools =
      ("get_ticket", λ n a. a) ∷ ("search", λ n a. field "reference" (string "OS-12") empty) ∷ [];
  loads = λ text. some (object empty);
  dumps = λ arguments. "{}";
  classes = classes;
  error_name = error_code;
  node_expired = λ n. false;
  route_expired = λ n. false;
  elapsed = λ n. 0;
  max_turns = 8;
  max_tool_calls = 24;
  max_cost = 50;
}

abbrev or_start : Option AnalysisState → List String × (Option AnalysisReport) × ℕ
or_start none = ([], none, 0)
or_start (some s) = (s.seen_references, s.report, s.tool_calls)

abbrev cited : Option AnalysisReport → List String
cited none = []
cited (some r) = r.related_references

cites : cited (or_start (run_analysis deps "OS-1")).1 ≡ "OS-12" ∷ []
unfolding run_analysis references_in
cites = refl

abbrev state_of : Option AnalysisState → AnalysisState
state_of (some s) = s
state_of none = record {
  ticket_reference = "";
  observations = [];
  seen_references = [];
  turn = 0;
  tool_calls = 0;
  call_signatures = [];
  decision = none;
  report = none;
  partial = true;
  stop_reason = "";
  model = "";
  estimated_cost = 0;
  trace = [];
  steps = [];
}

abbrev final : AnalysisState
unfolding run_analysis references_in
final = state_of (run_analysis deps "OS-1")

abbrev written : AnalysisReport
written = record {
  summary = "Like OS-12 and OS-99.";
  likely_area = "payroll";
  is_recurring = false;
  related_references = "OS-12" ∷ [];
  suggested_next_steps = [];
  confidence = 60;
}

report_is_grounded_example :
    (text_in "OS-12" (evidence final.observations) ≡ true) × (str_eq "OS-12" "OS-1" ≡ false)
unfolding run_analysis references_in
report_is_grounded_example = report_is_grounded deps "OS-1" "OS-12" final written refl refl refl

run_analysis-IsConsistent_example : IsConsistent deps final
unfolding run_analysis references_in
run_analysis-IsConsistent_example = run_analysis-IsConsistent deps "OS-1" refl

run_analysis_ends_example : EndsWithin (max 1 8) (max 2 24) (run_analysis deps "OS-1")
run_analysis_ends_example = run_analysis_ends deps "OS-1"
