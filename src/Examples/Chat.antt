-- ===== src/Examples/Chat.antt =====
-- A turn with a model that counts tickets once, and one with a model that asks for no tool there is.
use python_fullstack.Base.{ℕ, ◌+◌, ◌*◌, ◌≡◌, refl, true, none, some, List, [], ◌∷◌, String, arith}
use python_fullstack.Base.Exec.{ok}
use python_fullstack.Base.Assoc.{lookup}
use python_fullstack.Core.Errors.{code as error_code}
use python_fullstack.Intelligence.Json.{object, string, empty, field}
use python_fullstack.Intelligence.Chat.{
  use_tool, answer, ChatDecision, ChatState, ChatDeps, too_short,
}
use python_fullstack.Intelligence.Chat.Graph.{turn, decide, act, route_after_decide, acting}
use python_fullstack.Intelligence.Chat.Turns.{CallsRun, Responds, turn-Responds}
use python_fullstack.Intelligence.Chat.Endless.{AsksUnknown, unknown_tool_never_responds}

abbrev thread : ChatState
thread = record {
  messages = [];
  observations = [];
  tool_calls = 3;
  call_signatures = "count:{}" ∷ [];
  decision = none;
  blocked = true;
  blocked_reason = "Not enough text to search with.";
  model = "";
  trace = "guard:blocked" ∷ [];
}

abbrev question : String
question = "How many tickets are open?"

abbrev decision : List String → ChatDecision
decision [] = record { action = use_tool; tool = some "count"; arguments_json = none }
decision (w ∷ ws) = record { action = answer; tool = none; arguments_json = none }

abbrev deps : ChatDeps
deps = record {
  decide_call = λ n s. ok (record { value = decision s.call_signatures; model = "m" });
  tools = ("count", λ n a. field "total_matching" (string "12") empty) ∷ [];
  loads = λ text. some (object empty);
  dumps = λ arguments. "{}";
  error_name = error_code;
  max_tool_calls = 4;
  marks = λ text. "";
}

runs_after :
    (n m : ℕ) (s : ChatState) (ws : List String)
    → s.call_signatures ≡ ws
    → route_after_decide deps (decide deps n s) ≡ acting
    → (act deps m (decide deps n s)).tool_calls ≡ s.tool_calls + 1
unfolding decide act lookup
runs_after n m s [] e r = ground (arith, e)
runs_after n m s (w ∷ ws) e r = ground (arith, e)

runs : CallsRun deps
runs n m s r = runs_after n m s s.call_signatures refl r

turn-Responds_example : Responds deps (turn deps (2 * 4 + 1) question thread)
unfolding too_short
turn-Responds_example = turn-Responds deps question thread refl refl runs

abbrev lost : ChatDeps
lost = record {
  decide_call = λ n s. ok (record {
    value = record { action = use_tool; tool = some "find"; arguments_json = none };
    model = "m";
  });
  tools = [];
  loads = λ text. none;
  dumps = λ arguments. "";
  error_name = error_code;
  max_tool_calls = 4;
  marks = λ text. "";
}

asks : AsksUnknown lost
unfolding lookup
asks n s = (
  record {
    value = record { action = use_tool; tool = some "find"; arguments_json = none };
    model = "m";
  },
  "find",
  refl,
  refl,
  refl,
  refl,
)

unknown_tool_never_responds_example : turn lost 25 question thread ≡ none
unfolding too_short
unknown_tool_never_responds_example =
    unknown_tool_never_responds lost 25 question thread refl refl asks (omega arith)
