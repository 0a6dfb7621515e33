-- ===== src/Intelligence/Chat.antt =====
-- backend/app/modules/intelligence/pipelines/chat.py up to the reply: the state of a thread with the
-- reducers of its fields, the nodes `guard`, `decide` and `act`, the routes, and a turn of the graph
-- with a limit on the supersteps. The node `respond` and the prompts are not modelled: a turn ends
-- where `respond` would run, and a model answers to the whole state. From security/input.py comes
-- what decides whether a message is blocked. What its regular expressions add to the trace, the counts
-- of redactions and of injection markers, is the argument `marks`.
pub mod Graph
pub mod Turns
pub mod Endless
use text.Mathlib.Text.{◌==◌ as str_eq}
use Prim.Native.String.{◌++◌ as append}
use python_fullstack.Base.{
  ℕ, zero, suc, ◌+◌, Bool, true, false, not, ◌||◌, Option, none, some, List, [], ◌∷◌, ◌++◌, map,
  String, ltb, leb, if◌then◌else◌,
}
use python_fullstack.Base.Exec.{Result, ok, err}
use python_fullstack.Base.Assoc.{Dict, lookup}
use python_fullstack.Base.Text.{is_empty, strip, take_text}
use python_fullstack.Base.Words.{text_in, sorted}
use python_fullstack.Core.Errors.{AppError}
use python_fullstack.Intelligence.Json.{Json, object, Fields}

pub data ChatAction : Type 0 where
  use_tool : ChatAction
  answer : ChatAction

pub record ChatDecision : Type 0 where
  pub action : ChatAction
  pub tool : Option String
  pub arguments_json : Option String

-- An entry of the observations; `clear` is the mark `CLEAR`.
pub data Entry : Type 0 where
  clear : Entry
  ran : (tool : String) (arguments : Fields) (result : Fields) → Entry
  unknown_tool : (tool : String) (available_tools : List String) → Entry
  invalid_json : (tool : String) → Entry
  repeated_call : (tool : String) → Entry

pub record Message : Type 0 where
  pub role : String
  pub content : String

pub record ChatState : Type 0 where
  pub messages : List Message
  pub observations : List Entry
  pub tool_calls : ℕ
  pub call_signatures : List String
  pub decision : Option ChatDecision
  pub blocked : Bool
  pub blocked_reason : String
  pub model : String
  pub trace : List String

pub record ChatOutcome : Type 0 where
  pub value : ChatDecision
  pub model : String

-- The models, the tools and Python's `json`, asked anew at each superstep
pub record ChatDeps : Type 0 where
  pub decide_call : ℕ → ChatState → Result AppError ChatOutcome
  pub tools : Dict (ℕ → Fields → Fields)
  pub loads : String → Option Json
  pub dumps : Fields → String
  pub error_name : AppError → String
  pub max_tool_calls : ℕ
  pub marks : String → String

-- `turn_scoped`, where a test finds the mark
abbrev pub turn_scoped : {A : Type 0} → (A → Bool) → List A → List A → List A
turn_scoped is_clear left [] = left
turn_scoped is_clear left (x ∷ xs) = if is_clear x then xs else left ++ x ∷ xs

abbrev is_clear_entry : Entry → Bool
is_clear_entry clear = true
is_clear_entry _ = false

abbrev is_clear_text : String → Bool
is_clear_text w = str_eq w "__clear__"

abbrev pub observed : ChatState → List Entry → List Entry
observed s es = turn_scoped is_clear_entry s.observations es

abbrev pub signed : ChatState → List String → List String
signed s ws = turn_scoped is_clear_text s.call_signatures ws

abbrev pub traced : ChatState → List String → List String
traced s ws = turn_scoped is_clear_text s.trace ws

abbrev pub max_input_chars : ℕ
max_input_chars = 8000

abbrev pub min_input_chars : ℕ
min_input_chars = 12

abbrev size : String → ℕ
size String.[] = 0
size (String.◌∷◌ c s) = suc (size s)

-- Whether `guard_input` blocks a text
unfoldable pub too_short : String → Bool
unfolding strip
too_short text = ltb (size (strip (take_text max_input_chars text))) min_input_chars

-- `_last_user_message`: the last one wins.
abbrev is_user : Message → Bool
is_user m = str_eq m.role "user" || str_eq m.role "human"

abbrev or_last : Option String → String → Option String
or_last none c = some c
or_last (some later) c = some later

abbrev pub last_of : List Message → Option String
last_of [] = none
last_of (m ∷ ms) = let later = last_of ms in if is_user m then or_last later m.content else later

abbrev or_empty : Option String → String
or_empty none = ""
or_empty (some s) = s

unfoldable pub last_user_message : ChatState → String
last_user_message s = or_empty (last_of s.messages)

abbrev pub blocked_with : String → List String → ChatState → ChatState
blocked_with reason marks s = record s {
  blocked = true;
  blocked_reason = reason;
  trace = traced s marks;
}

-- `guard_message`
unfoldable pub guard_message : ChatDeps → ChatState → ChatState
unfolding too_short last_user_message
guard_message d s =
    let m = last_user_message s in
    if is_empty m
    then blocked_with "There was no question to answer." ("__clear__" ∷ "guard:empty" ∷ []) s
    else if too_short m
    then blocked_with "Not enough text to search with." ("guard:blocked" ∷ []) s
    else record s {
      blocked = false;
      tool_calls = 0;
      observations = observed s (clear ∷ []);
      call_signatures = signed s ("__clear__" ∷ []);
      trace = traced s ("__clear__" ∷ append "guard:ok" (d.marks m) ∷ []);
    }

-- A message of the user on the stored state of the thread, as `ChatService.send` puts it in
abbrev pub with_message : String → ChatState → ChatState
with_message text s = record s {
  messages = s.messages ++ record { role = "user"; content = text } ∷ [];
  observations = observed s [];
  call_signatures = signed s [];
  tool_calls = 0;
}
