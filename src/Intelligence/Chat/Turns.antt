-- ===== src/Intelligence/Chat/Turns.antt =====
-- What a turn of the chat starts from, when it ends, and when it does not.
use Prim.Native.String.{◌++◌ as append}
use python_fullstack.Base.{
  ℕ, zero, suc, ◌+◌, ◌*◌, ◌≤◌, ◌<◌, ◌≡◌, refl, sym, subst, false, inl, inr, ◌⊎◌, Option, some, List,
  [], ◌∷◌, ◌++◌, String, arith,
}
use python_fullstack.Base.Exec.{Result-cases}
use python_fullstack.Base.Text.{is_empty}
use python_fullstack.Intelligence.Chat.{
  Message, ChatState, ChatDeps, guard_message, with_message, last_user_message, too_short, last_of,
}
use python_fullstack.Intelligence.Chat.Graph.{
  deciding, acting, responding, decide, act, route_after_decide, run, turn,
}

last_of-append :
    (ms : List Message) (text : String)
    → last_of (ms ++ record { role = "user"; content = text } ∷ []) ≡ some text
last_of-append [] text = refl
last_of-append (m ∷ ms) text = rw (last_of-append ms text) (ground arith)

-- The message that the graph reads is the one that was sent.
last_user_message-with_message :
    (text : String) (s : ChatState) → last_user_message (with_message text s) ≡ text
unfolding last_user_message
last_user_message-with_message text s = rw (last_of-append s.messages text) refl

pub record IsFresh (d : ChatDeps) (text : String) (s g : ChatState) : Type 0 where
  pub passed : g.blocked ≡ false
  pub no_calls : g.tool_calls ≡ 0
  pub no_observations : g.observations ≡ []
  pub no_signatures : g.call_signatures ≡ []
  pub new_trace : g.trace ≡ append "guard:ok" (d.marks text) ∷ []
  pub transcript : g.messages ≡ s.messages ++ record { role = "user"; content = text } ∷ []
  pub old_reason : g.blocked_reason ≡ s.blocked_reason

-- A message that is long enough opens a turn with empty memory of the calls and observations of
-- earlier turns, on the transcript with the message as it was written; the reason for which an earlier
-- message was blocked stays.
pub guard-IsFresh :
    (d : ChatDeps) (text : String) (s : ChatState)
    → is_empty text ≡ false
    → too_short text ≡ false
    → IsFresh d text s (guard_message d (with_message text s))
unfolding guard_message
guard-IsFresh d text s e h =
    rw (last_user_message-with_message text s, e, h)
      (record {
        passed = refl;
        no_calls = refl;
        no_observations = refl;
        no_signatures = refl;
        new_trace = refl;
        transcript = refl;
        old_reason = refl;
      })

pub decide-calls : (d : ChatDeps) (n : ℕ) (s : ChatState) → (decide d n s).tool_calls ≡ s.tool_calls
unfolding decide
decide-calls d n s = elim (Result-cases (d.decide_call n s)) [
  | inl (o, e) ↦ rw e refl
  | inr (x, e) ↦ rw e refl
]

pub act-calls : (d : ChatDeps) (n : ℕ) (s : ChatState) → (act d n s).tool_calls ≤ s.tool_calls + 1
unfolding act
act-calls d n s = ground arith

pub choice :
    (d : ChatDeps) (s : ChatState)
    → (route_after_decide d s ≡ responding)
      ⊎ ((route_after_decide d s ≡ acting) × (s.tool_calls < d.max_tool_calls))
choice d s = ground arith

-- Each tool call that a decision asks for runs: the tool is known, its arguments are an object, and
-- the call is new in the turn.
abbrev pub CallsRun : ChatDeps → Type 0
CallsRun d =
    (n m : ℕ) (s : ChatState)
    → route_after_decide d (decide d n s) ≡ acting
    → (act d m (decide d n s)).tool_calls ≡ s.tool_calls + 1

abbrev pub Responds : ChatDeps → Option ChatState → Type 0
Responds d r = (s : ChatState) × (r ≡ some s) × (s.tool_calls ≤ d.max_tool_calls)

deciding-Responds :
    (d : ChatDeps)
    → CallsRun d
    → (k left n : ℕ) (s : ChatState) → s.tool_calls + k ≡ d.max_tool_calls
    → 2 * k + 1 ≤ left
    → Responds d (run d left n deciding s)
unfolding run
deciding-Responds d runs k zero n s c l = absurd (omega arith)
deciding-Responds d runs zero (suc left) n s c l =
    let s' = decide d n s in
    let e = decide-calls d n s in
    elim (choice d s') [
      | inl r ↦
          subst (λ node. Responds d (run d left (suc n) node s')) (sym r) (s', refl, omega arith)
      | inr (r, h) ↦ absurd (omega arith)
    ]
deciding-Responds d runs (suc k) (suc zero) n s c l = absurd (omega arith)
deciding-Responds d runs (suc k) (suc (suc left)) n s c l =
    let s' = decide d n s in
    let e = decide-calls d n s in
    elim (choice d s') [
      | inl r ↦
          subst (λ node. Responds d (run d (suc left) (suc n) node s')) (sym r)
            (s', refl, omega arith)
      | inr (r, h) ↦
          let f = runs n (suc n) s r in
          subst (λ node. Responds d (run d (suc left) (suc n) node s')) (sym r)
            (deciding-Responds d runs k left (suc (suc n)) (act d (suc n) s') (omega arith)
              (omega arith))
    ]

-- If each tool call that the model asks for runs, a message that passes the guard is answered: the
-- turn comes to `respond` within two supersteps for each allowed call and one more, with no more
-- calls than are allowed.
pub turn-Responds :
    (d : ChatDeps) (text : String) (s : ChatState)
    → is_empty text ≡ false
    → too_short text ≡ false
    → CallsRun d
    → Responds d (turn d (2 * d.max_tool_calls + 1) text s)
unfolding turn
turn-Responds d text s e h runs =
    let f = guard-IsFresh d text s e h in
    rw f.passed (
      deciding-Responds d runs d.max_tool_calls (2 * d.max_tool_calls + 1) 1
        (guard_message d (with_message text s)) (omega (arith, f.no_calls)) (omega arith))
