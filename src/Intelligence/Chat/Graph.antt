-- ===== src/Intelligence/Chat/Graph.antt =====
-- backend/app/modules/intelligence/pipelines/chat.py: the nodes `decide` and `act`, the routes, and a
-- turn of the graph with a limit on the supersteps.
use Prim.Native.String.{◌++◌ as append}
use python_fullstack.Base.{
  ℕ, zero, suc, ◌+◌, Option, none, some, List, [], ◌∷◌, map, String, leb, if◌then◌else◌,
}
use python_fullstack.Base.Exec.{Result, ok, err}
use python_fullstack.Base.Assoc.{lookup}
use python_fullstack.Base.Text.{is_empty}
use python_fullstack.Base.Words.{text_in, sorted}
use python_fullstack.Core.Errors.{AppError}
use python_fullstack.Intelligence.Json.{Json, object, Fields}
use python_fullstack.Intelligence.Chat.{
  ChatAction, use_tool, answer, ChatDecision, Entry, ran, unknown_tool, invalid_json, repeated_call,
  ChatState, ChatOutcome, ChatDeps, observed, signed, traced, guard_message, with_message,
}

abbrev join : List String → String
join [] = String.[]
join (w ∷ ws) = append w (join ws)

abbrev action_name : ChatAction → String
action_name use_tool = "use_tool"
action_name answer = "answer"

abbrev or_dash : Option String → String
or_dash none = "-"
or_dash (some String.[]) = "-"
or_dash (some s) = s

abbrev pub decided : ChatDeps → ChatState → Result AppError ChatOutcome → ChatState
decided d s (err e) = record s {
  decision = none;
  trace = traced s (join ("decide:unavailable:" ∷ d.error_name e ∷ []) ∷ []);
}
decided d s (ok o) = record s {
  decision = some o.value;
  model = o.model;
  trace =
      traced s
        (join ("decide:" ∷ action_name o.value.action ∷ ":" ∷ or_dash o.value.tool ∷ []) ∷ []);
}

unfoldable pub decide : ChatDeps → ℕ → ChatState → ChatState
decide d n s = decided d s (d.decide_call n s)

abbrev pub noted : ChatState → Entry → String → ChatState
noted s e what = record s { observations = observed s (e ∷ []); trace = traced s (what ∷ []) }

abbrev pub signature : ChatDeps → String → Fields → String
signature d tool arguments = join (tool ∷ ":" ∷ d.dumps arguments ∷ [])

abbrev pub act_ran : ChatDeps → ChatState → String → Fields → Fields → ChatState
act_ran d s tool arguments result = record s {
  observations = observed s (ran tool arguments result ∷ []);
  call_signatures = signed s (signature d tool arguments ∷ []);
  tool_calls = s.tool_calls + 1;
  trace = traced s (join ("act:" ∷ tool ∷ []) ∷ []);
}

abbrev pub act_with : ChatDeps → ℕ → ChatState → String → (ℕ → Fields → Fields) → Fields → ChatState
act_with d n s tool invoke arguments =
    if text_in (signature d tool arguments) s.call_signatures
    then noted s (repeated_call tool) "act:repeat"
    else act_ran d s tool arguments (invoke n arguments)

abbrev pub act_parsed :
    ChatDeps → ℕ → ChatState → String → (ℕ → Fields → Fields) → Option Json → ChatState
act_parsed d n s tool invoke (some (object arguments)) = act_with d n s tool invoke arguments
act_parsed d n s tool invoke _ = noted s (invalid_json tool) "act:bad-json"

abbrev or_object : Option String → String
or_object none = "{}"
or_object (some s) = if is_empty s then "{}" else s

abbrev pub act_found :
    ChatDeps → ℕ → ChatState → ChatDecision → String → Option (ℕ → Fields → Fields) → ChatState
act_found d n s decision tool none =
    noted s (unknown_tool tool (sorted (map (λ entry. entry.0) d.tools))) "act:unknown-tool"
act_found d n s decision tool (some invoke) =
    act_parsed d n s tool invoke (d.loads (or_object decision.arguments_json))

abbrev pub no_tool : ChatState → ChatState
no_tool s = record s { trace = traced s ("act:no-tool" ∷ []) }

abbrev pub act_tool : ChatDeps → ℕ → ChatState → ChatDecision → Option String → ChatState
act_tool d n s decision none = no_tool s
act_tool d n s decision (some tool) = act_found d n s decision tool (lookup tool d.tools)

abbrev pub act_decision : ChatDeps → ℕ → ChatState → Option ChatDecision → ChatState
act_decision d n s none = no_tool s
act_decision d n s (some decision) = act_tool d n s decision decision.tool

unfoldable pub act : ChatDeps → ℕ → ChatState → ChatState
unfolding lookup sorted
act d n s = act_decision d n s s.decision

-- The nodes; a turn ends before `respond`.
pub data Node : Type 0 where
  deciding : Node
  acting : Node
  responding : Node

abbrev pub route_after_guard : ChatState → Node
route_after_guard s = if s.blocked then responding else deciding

abbrev wanted : ChatDeps → ChatState → Option ChatDecision → Node
wanted d s none = responding
wanted d s (some decision) = elim decision.action [
  | answer ↦ responding
  | use_tool ↦ if leb d.max_tool_calls s.tool_calls then responding else acting
]

abbrev pub route_after_decide : ChatDeps → ChatState → Node
route_after_decide d s = wanted d s s.decision

-- With a number of supersteps left; `none` is LangGraph's error that the limit is reached.
unfoldable pub run : ChatDeps → ℕ → ℕ → Node → ChatState → Option ChatState
unfolding decide act
run d left n responding s = some s
run d zero n node s = none
run d (suc left) n deciding s =
    let s' = decide d n s in run d left (suc n) (route_after_decide d s') s'
run d (suc left) n acting s = run d left (suc n) deciding (act d n s)

-- A turn up to `respond`, which needs one more superstep
unfoldable pub turn : ChatDeps → ℕ → String → ChatState → Option ChatState
unfolding guard_message run
turn d left text s =
    let s' = guard_message d (with_message text s) in run d left 1 (route_after_guard s') s'
