-- ===== src/Intelligence/Analysis/Graph/Ends.antt =====
-- How long a run of the agent graph is, and how many turns and tool calls it makes.
use python_fullstack.Base.{
  ℕ, zero, suc, ◌+◌, ◌*◌, ◌≤◌, ◌<◌, max, ◌≡◌, refl, sym, subst, inl, inr, ◌⊎◌, Option, some, String,
  arith,
}
use python_fullstack.Base.Exec.{Result-cases}
use python_fullstack.Intelligence.Analysis.{AnalysisState, AgentDeps, prime, decide}
use python_fullstack.Intelligence.Analysis.Nodes.{act, report, check_limits}
use python_fullstack.Intelligence.Analysis.Graph.{
  priming, deciding, acting, reporting, run, initial, run_analysis, route_after_act,
  route_after_decide,
}

-- Decisions of one agent call, at most one tool call in an `act`, and none elsewhere.
decide_counts :
    (d : AgentDeps) (n : ℕ) (s : AnalysisState)
    → ((decide d n s).turn ≡ s.turn + 1) × ((decide d n s).tool_calls ≡ s.tool_calls)
unfolding decide
decide_counts d n s = elim (Result-cases (d.decide_call n s)) [
  | inl (o, e) ↦ rw e (refl, refl)
  | inr (x, e) ↦ rw e (refl, refl)
]

act_counts :
    (d : AgentDeps) (n : ℕ) (s : AnalysisState)
    → ((act d n s).turn ≡ s.turn) × ((act d n s).tool_calls ≤ s.tool_calls + 1)
unfolding act
act_counts d n s = ground arith

limits_counts :
    (d : AgentDeps) (n : ℕ) (s : AnalysisState)
    → ((check_limits d n s).turn ≡ s.turn) × ((check_limits d n s).tool_calls ≡ s.tool_calls)
unfolding check_limits
limits_counts d n s = ground arith

report_counts :
    (d : AgentDeps) (n : ℕ) (s : AnalysisState)
    → ((report d n s).turn ≡ s.turn) × ((report d n s).tool_calls ≡ s.tool_calls)
unfolding report
report_counts d n s = ground arith

prime_counts :
    (d : AgentDeps) (n : ℕ) (s : AnalysisState)
    → s.tool_calls ≡ 0
    → ((prime d n s).turn ≡ s.turn) × ((prime d n s).tool_calls ≤ 1)
unfolding prime
prime_counts d n s h = ground arith

-- A run that comes to its end, with at most these turns and tool calls.
abbrev pub EndsWithin : ℕ → ℕ → Option AnalysisState → Type 0
EndsWithin turns calls r =
    (s : AnalysisState) × (r ≡ some s) × (s.turn ≤ turns) × (s.tool_calls ≤ calls)

reporting_ends :
    (turns calls : ℕ) (d : AgentDeps) (left n : ℕ) (s : AnalysisState)
    → 1 ≤ left
    → s.turn ≤ turns
    → s.tool_calls ≤ calls
    → EndsWithin turns calls (run d left n reporting s)
unfolding run
reporting_ends turns calls d zero n s h t c = absurd (omega arith)
reporting_ends turns calls d (suc left) n s h t c =
    let (e, f) = report_counts d n s in (report d n s, refl, omega arith, omega arith)

-- The route after a tool call, and after a decision.
again :
    (d : AgentDeps) (n : ℕ) (s : AnalysisState)
    → (route_after_act d n s ≡ reporting)
      ⊎ ((route_after_act d n s ≡ deciding)
          × (s.turn < d.max_turns)
          × (s.tool_calls < d.max_tool_calls))
again d n s = ground arith

choice : (s : AnalysisState) → (route_after_decide s ≡ reporting) ⊎ (route_after_decide s ≡ acting)
choice s = ground arith

module _ (d : AgentDeps) (turns calls : ℕ) (t : d.max_turns ≤ turns)
    (c : d.max_tool_calls ≤ calls) where
  -- A tool call and the limits, when the next round, if there is one, comes to its end.
  acting_ends :
      (left n : ℕ) (s : AnalysisState)
      → s.turn ≤ turns
      → s.tool_calls + 1 ≤ calls
      → 1 ≤ left
      → ((m : ℕ) (s' : AnalysisState)
          → s'.turn ≡ s.turn
          → s'.turn < d.max_turns
          → s'.tool_calls + 1 ≤ calls
          → EndsWithin turns calls (run d left m deciding s'))
      → EndsWithin turns calls (run d (suc (suc left)) n acting s)
  unfolding run
  acting_ends left n s ht hc l loop =
      let s' = check_limits d (suc n) (act d n s) in
      let (a, b) = act_counts d n s in
      let (e, f) = limits_counts d (suc n) (act d n s) in
      elim (again d (suc n) s') [
        | inl r ↦
            subst (λ node. EndsWithin turns calls (run d left (suc (suc n)) node s')) (sym r)
              (reporting_ends turns calls d left (suc (suc n)) s' l (omega arith) (omega arith))
        | inr (r, p, q) ↦
            subst (λ node. EndsWithin turns calls (run d left (suc (suc n)) node s')) (sym r)
              (loop (suc (suc n)) s' (omega arith) p (omega arith))
      ]

  decided_ends :
      (left n : ℕ) (s : AnalysisState)
      → s.turn + 1 ≤ turns
      → s.tool_calls + 1 ≤ calls
      → 1 ≤ left
      → ((m : ℕ) (s' : AnalysisState)
          → s'.turn ≡ s.turn + 1
          → s'.turn < d.max_turns
          → s'.tool_calls + 1 ≤ calls
          → EndsWithin turns calls (run d left m deciding s'))
      → EndsWithin turns calls (run d (suc (suc (suc left))) n deciding s)
  unfolding run
  decided_ends left n s ht hc l loop =
      let s' = decide d n s in
      let (a, b) = decide_counts d n s in
      elim (choice s') [
        | inl r ↦
            subst (λ node. EndsWithin turns calls (run d (suc (suc left)) (suc n) node s')) (sym r)
              (reporting_ends turns calls d (suc (suc left)) (suc n) s' (omega arith) (omega arith)
                (omega arith))
        | inr r ↦
            subst (λ node. EndsWithin turns calls (run d (suc (suc left)) (suc n) node s')) (sym r)
              (acting_ends left (suc n) s' (omega arith) (omega arith) l
                λ m s'' e p q. loop m s'' (omega arith) p q)
      ]

  -- From a state in which a round may begin, when `k` turns are left.
  deciding_ends :
      (k left n : ℕ) (s : AnalysisState)
      → d.max_turns ≤ s.turn + k
      → 3 * k + 4 ≤ left
      → s.turn + 1 ≤ turns
      → s.tool_calls + 1 ≤ calls
      → EndsWithin turns calls (run d left n deciding s)
  deciding_ends zero (suc (suc (suc left))) n s h l ht hc =
      decided_ends left n s ht hc (omega arith) λ m s' e p q. absurd (omega arith)
  deciding_ends (suc k) (suc (suc (suc left))) n s h l ht hc =
      decided_ends left n s ht hc (omega arith)
        λ m s' e p q. deciding_ends k left m s' (omega arith) (omega arith) (omega arith) q
  deciding_ends k (suc (suc zero)) n s h l ht hc = absurd (omega arith)
  deciding_ends k (suc zero) n s h l ht hc = absurd (omega arith)
  deciding_ends k zero n s h l ht hc = absurd (omega arith)

-- For every model, tool and clock, the run reaches its end within LangGraph's limit on supersteps,
-- with at most `max_turns` turns (or one), and at most `max_tool_calls` tool calls (or two).
pub run_analysis_ends :
    (d : AgentDeps) (reference : String)
    → EndsWithin (max 1 d.max_turns) (max 2 d.max_tool_calls) (run_analysis d reference)
unfolding run_analysis run
run_analysis_ends d reference =
    let (e, f) = prime_counts d 0 (initial reference) refl in
    let m : suc (d.max_turns * 4 + 9) ≡ d.max_turns * 4 + 10 = omega arith in
    subst
      (λ left.
        EndsWithin (max 1 d.max_turns) (max 2 d.max_tool_calls)
          (run d left 0 priming (initial reference)))
      m
      (deciding_ends d (max 1 d.max_turns) (max 2 d.max_tool_calls) (omega arith) (omega arith)
        d.max_turns (d.max_turns * 4 + 9) 1 (prime d 0 (initial reference)) (omega arith)
        (omega arith) (omega arith) (omega arith))
