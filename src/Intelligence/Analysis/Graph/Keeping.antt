-- ===== src/Intelligence/Analysis/Graph/Keeping.antt =====
-- The rule for what the nodes after `prime` keep, along a run of the agent graph.
use python_fullstack.Base.{ℕ, zero, suc, subst, ◌+◌, ◌*◌, eq_of_some, ◌≡◌, some, String, arith}
use python_fullstack.Intelligence.Analysis.{AnalysisState, AgentDeps, prime, decide}
use python_fullstack.Intelligence.Analysis.Nodes.{act, report, check_limits}
use python_fullstack.Intelligence.Analysis.Graph.{
  Node, priming, deciding, acting, limits, reporting, over, next, exec, run, initial, run_analysis,
}

-- The nodes after `prime`
abbrev pub IsLater : Node → Type 0
IsLater priming = ⊥
IsLater _ = Unit {0}

pub next-IsLater :
    (d : AgentDeps) (n : ℕ) (node : Node) (s : AnalysisState) → IsLater (next d n node s)
next-IsLater d n priming s = tt
next-IsLater d n deciding s = ground arith
next-IsLater d n acting s = tt
next-IsLater d n limits s = ground arith
next-IsLater d n reporting s = tt
next-IsLater d n over s = tt

-- A property that the nodes after `prime` keep holds at the end of a run that has passed it.
pub run_keeps :
    (P : AnalysisState → Type 0) (d : AgentDeps)
    → ((n : ℕ) (node : Node) (s : AnalysisState) → IsLater node → P s → P (exec d n node s))
    → (left n : ℕ) (node : Node) (s s' : AnalysisState) → IsLater node
    → P s
    → run d left n node s ≡ some s'
    → P s'
unfolding run
run_keeps P d keep left n over s s' l p e = subst P (eq_of_some e) p
run_keeps P d keep zero n priming s s' l p e = absurd l
run_keeps P d keep zero n deciding s s' l p e = absurd (cc)
run_keeps P d keep zero n acting s s' l p e = absurd (cc)
run_keeps P d keep zero n limits s s' l p e = absurd (cc)
run_keeps P d keep zero n reporting s s' l p e = absurd (cc)
run_keeps P d keep (suc left) n priming s s' l p e = absurd l
run_keeps P d keep (suc left) n deciding s s' l p e =
    run_keeps P d keep left (suc n) (next d n deciding (decide d n s)) (decide d n s) s'
      (next-IsLater d n deciding (decide d n s)) (keep n deciding s tt p) e
run_keeps P d keep (suc left) n acting s s' l p e =
    run_keeps P d keep left (suc n) limits (act d n s) s' tt (keep n acting s tt p) e
run_keeps P d keep (suc left) n limits s s' l p e =
    run_keeps P d keep left (suc n) (next d n limits (check_limits d n s)) (check_limits d n s) s'
      (next-IsLater d n limits (check_limits d n s)) (keep n limits s tt p) e
run_keeps P d keep (suc left) n reporting s s' l p e =
    run_keeps P d keep left (suc n) over (report d n s) s' tt (keep n reporting s tt p) e

-- The run after `prime`
pub after_prime :
    (P : AnalysisState → Type 0) (d : AgentDeps)
    → ((n : ℕ) (node : Node) (s : AnalysisState) → IsLater node → P s → P (exec d n node s))
    → (reference : String) (s : AnalysisState) → P (prime d 0 (initial reference))
    → run_analysis d reference ≡ some s
    → P s
unfolding run_analysis run
after_prime P d keep reference s p e =
    let m : d.max_turns * 4 + 10 ≡ suc (d.max_turns * 4 + 9) = omega arith in
    let e' = subst (λ left. run d left 0 priming (initial reference) ≡ some s) m e in
    run_keeps P d keep (d.max_turns * 4 + 9) 1 deciding (prime d 0 (initial reference)) s tt p e'
