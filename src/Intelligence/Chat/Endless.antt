-- ===== src/Intelligence/Chat/Endless.antt =====
-- The bound on the tool calls of a turn of the chat, and a turn that it does not end.
use python_fullstack.Base.{
  ℕ, zero, suc, ◌≤◌, ◌<◌, ◌≡◌, refl, sym, subst, false, inl, inr, none, some, String, arith,
  eq_of_some,
}
use python_fullstack.Base.Exec.{ok}
use python_fullstack.Base.Assoc.{lookup}
use python_fullstack.Base.Text.{is_empty}
use python_fullstack.Intelligence.Chat.{
  use_tool, ChatState, ChatOutcome, ChatDeps, guard_message, with_message, too_short,
}
use python_fullstack.Intelligence.Chat.Graph.{
  deciding, acting, decide, act, route_after_decide, run, turn,
}
use python_fullstack.Intelligence.Chat.Turns.{guard-IsFresh, decide-calls, act-calls, choice}

deciding_calls :
    (d : ChatDeps) (left n : ℕ) (s final : ChatState)
    → s.tool_calls ≤ d.max_tool_calls
    → run d left n deciding s ≡ some final
    → final.tool_calls ≤ d.max_tool_calls
unfolding run
deciding_calls d zero n s final c e = absurd (cc)
deciding_calls d (suc zero) n s final c e =
    let s' = decide d n s in
    elim (choice d s') [
      | inl r ↦
          let same : s' ≡ final =
            eq_of_some (subst (λ node. run d zero (suc n) node s' ≡ some final) r e) in
          subst (λ (z : ChatState). z.tool_calls ≤ d.max_tool_calls) same
            (omega (arith, decide-calls d n s))
      | inr (r, h) ↦
          let out : none ≡ some final =
            subst (λ node. run d zero (suc n) node s' ≡ some final) r e in
          absurd (cc)
    ]
deciding_calls d (suc (suc left)) n s final c e =
    let s' = decide d n s in
    elim (choice d s') [
      | inl r ↦
          let same : s' ≡ final =
            eq_of_some (subst (λ node. run d (suc left) (suc n) node s' ≡ some final) r e) in
          subst (λ (z : ChatState). z.tool_calls ≤ d.max_tool_calls) same
            (omega (arith, decide-calls d n s))
      | inr (r, h) ↦
          deciding_calls d left (suc (suc n)) (act d (suc n) s') final
            (omega (arith, act-calls d (suc n) s'))
            (subst (λ node. run d (suc left) (suc n) node s' ≡ some final) r e)
    ]

-- Whatever the model asks for, a turn that reaches `respond` on a message that passes the guard made
-- no more tool calls than are allowed.
pub turn_calls_bounded :
    (d : ChatDeps) (left : ℕ) (text : String) (s final : ChatState)
    → is_empty text ≡ false
    → too_short text ≡ false
    → turn d left text s ≡ some final
    → final.tool_calls ≤ d.max_tool_calls
unfolding turn
turn_calls_bounded d left text s final e h r =
    let f = guard-IsFresh d text s e h in
    deciding_calls d left 1 (guard_message d (with_message text s)) final
      (omega (arith, f.no_calls)) (rw f.passed at r)

-- A model that each time asks for a tool that there is not.
abbrev pub AsksUnknown : ChatDeps → Type 0
AsksUnknown d =
    (n : ℕ) (s : ChatState)
    → (o : ChatOutcome) × (tool : String) × (d.decide_call n s ≡ ok o)
      × (o.value.action ≡ use_tool)
      × (o.value.tool ≡ some tool)
      × (lookup tool d.tools ≡ none)

round_unknown :
    (d : ChatDeps) (n : ℕ) (s : ChatState)
    → AsksUnknown d
    → s.tool_calls < d.max_tool_calls
    → (route_after_decide d (decide d n s) ≡ acting)
      × ((act d (suc n) (decide d n s)).tool_calls ≡ s.tool_calls)
unfolding decide act
round_unknown d n s asks c =
    let (o, tool, e, a, t, u) = asks n s in rw (e, t, u, a) (ground arith, refl)

deciding_unknown :
    (d : ChatDeps) (left n : ℕ) (s : ChatState)
    → AsksUnknown d
    → s.tool_calls < d.max_tool_calls
    → run d left n deciding s ≡ none
unfolding run
deciding_unknown d zero n s asks c = refl
deciding_unknown d (suc zero) n s asks c =
    let (r, e) = round_unknown d n s asks c in
    subst (λ node. run d zero (suc n) node (decide d n s) ≡ none) (sym r) refl
deciding_unknown d (suc (suc left)) n s asks c =
    let (r, e) = round_unknown d n s asks c in
    subst (λ node. run d (suc left) (suc n) node (decide d n s) ≡ none) (sym r)
      (deciding_unknown d left (suc (suc n)) (act d (suc n) (decide d n s)) asks (omega arith))

-- The bound does not end each turn: if the model keeps asking for a tool that there is not, and any
-- call is allowed, then a message that passes the guard is never answered, at any limit on supersteps.
pub unknown_tool_never_responds :
    (d : ChatDeps) (left : ℕ) (text : String) (s : ChatState)
    → is_empty text ≡ false
    → too_short text ≡ false
    → AsksUnknown d
    → 0 < d.max_tool_calls
    → turn d left text s ≡ none
unfolding turn
unknown_tool_never_responds d left text s e h asks m =
    let f = guard-IsFresh d text s e h in
    rw f.passed (
      deciding_unknown d left 1 (guard_message d (with_message text s)) asks
        (omega (arith, f.no_calls)))
