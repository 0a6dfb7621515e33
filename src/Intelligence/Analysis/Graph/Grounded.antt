-- ===== src/Intelligence/Analysis/Graph/Grounded.antt =====
-- What a report of the agent may cite.
use text.Mathlib.Text.{◌==◌ as str_eq}
use text.Mathlib.TextEquality.{eq_iff}
use python_fullstack.Base.{
  ℕ, ◌≡◌, refl, sym, ap, subst, ◌∙◌, true, false, inl, inr, some, List, [], ◌∷◌, String, arith,
  Bool-cases, Option-cases, eq_of_some,
}
use python_fullstack.Base.Exec.{Result-cases}
use python_fullstack.Base.Assoc.{lookup}
use python_fullstack.Base.Text.{is_empty}
use python_fullstack.Base.Words.{unique, text_in, text_in-append}
use python_fullstack.Intelligence.Analysis.{AnalysisState, AnalysisReport, AgentDeps, prime, decide}
use python_fullstack.Intelligence.Analysis.Nodes.{
  act, report, check_limits, split_grounded, claimed, limit_reason,
}
use python_fullstack.Intelligence.Analysis.Graph.{
  Node, priming, deciding, acting, limits, reporting, over, exec, initial, run_analysis,
}
use python_fullstack.Intelligence.Analysis.Graph.Consistent.{evidence, run_analysis-IsConsistent}
use python_fullstack.Intelligence.Analysis.Graph.Keeping.{IsLater, after_prime}

kept_is_seen :
    (own x : String) (seen rs : List String)
    → text_in x (split_grounded true own seen rs) ≡ true
    → (text_in x seen ≡ true) × (str_eq x own ≡ false)
kept_is_seen own x seen [] h = absurd (cc)
kept_is_seen own x seen (r ∷ rs) h = ground (arith, kept_is_seen own x seen rs, eq_iff r x)

abbrev IsGrounded : String → AnalysisState → Type 0
IsGrounded own s =
    (s.ticket_reference ≡ own)
    × ((r : AnalysisReport) (x : String)
        → s.report ≡ some r
        → text_in x r.related_references ≡ true
        → (text_in x s.seen_references ≡ true) × (str_eq x own ≡ false))

act_seen :
    (d : AgentDeps) (n : ℕ) (s : AnalysisState) (x : String)
    → text_in x s.seen_references ≡ true
    → text_in x (act d n s).seen_references ≡ true
unfolding act
act_seen d n s x h = grind (arith, text_in-append)

act_same :
    (d : AgentDeps) (n : ℕ) (s : AnalysisState)
    → ((act d n s).report ≡ s.report) × ((act d n s).ticket_reference ≡ s.ticket_reference)
unfolding act
act_same d n s = ground arith

act-IsGrounded :
    (own : String) (d : AgentDeps) (n : ℕ) (s : AnalysisState)
    → IsGrounded own s
    → IsGrounded own (act d n s)
act-IsGrounded own d n s (t, g) =
    let (e, f) = act_same d n s in
    (f ∙ t, λ r x h m. let (seen, other) = g r x (sym e ∙ h) m in (act_seen d n s x seen, other))

limits-IsGrounded :
    (own : String) (d : AgentDeps) (n : ℕ) (s : AnalysisState)
    → IsGrounded own s
    → IsGrounded own (check_limits d n s)
unfolding check_limits
limits-IsGrounded own d n s g = elim (Bool-cases (is_empty (limit_reason d n s))) [
  | inl e ↦ rw e g
  | inr e ↦ rw e g
]

decide-IsGrounded :
    (own : String) (d : AgentDeps) (n : ℕ) (s : AnalysisState)
    → IsGrounded own s
    → IsGrounded own (decide d n s)
unfolding decide
decide-IsGrounded own d n s g = elim (Result-cases (d.decide_call n s)) [
  | inl (o, e) ↦ rw e g
  | inr (x, e) ↦ rw e g
]

report-IsGrounded :
    (own : String) (d : AgentDeps) (n : ℕ) (s : AnalysisState)
    → IsGrounded own s
    → IsGrounded own (report d n s)
unfolding report
report-IsGrounded own d n s (t, g) = elim (Result-cases (d.report_call n s)) [
  | inl (o, e) ↦ rw e (
    t,
    λ r x h m.
        let found =
          kept_is_seen s.ticket_reference x s.seen_references (unique (claimed d o.value)) (
            subst (λ (z : AnalysisReport). text_in x z.related_references ≡ true)
              (sym (eq_of_some h)) m) in
        (found.0, ap (str_eq x) (sym t) ∙ found.1),
  )
  | inr (x, e) ↦ rw e (t, λ r y h m. absurd (cc))
]

exec-IsGrounded :
    (own : String) (d : AgentDeps) (n : ℕ) (node : Node) (s : AnalysisState)
    → IsLater node
    → IsGrounded own s
    → IsGrounded own (exec d n node s)
exec-IsGrounded own d n priming s l g = absurd l
exec-IsGrounded own d n deciding s l g = decide-IsGrounded own d n s g
exec-IsGrounded own d n acting s l g = act-IsGrounded own d n s g
exec-IsGrounded own d n limits s l g = limits-IsGrounded own d n s g
exec-IsGrounded own d n reporting s l g = report-IsGrounded own d n s g
exec-IsGrounded own d n over s l g = g

prime-IsGrounded : (own : String) (d : AgentDeps) → IsGrounded own (prime d 0 (initial own))
unfolding prime
prime-IsGrounded own d = elim (Option-cases (lookup "get_ticket" d.tools)) [
  | inl e ↦ rw e (refl, λ r x h m. absurd (cc))
  | inr (invoke, e) ↦ elim (Bool-cases (is_empty own)) [
    | inl b ↦ rw (e, b) (refl, λ r x h m. absurd (cc))
    | inr b ↦ rw (e, b) (refl, λ r x h m. absurd (cc))
  ]
]

-- Every reference that the report of a finished run lists stands in the result of a tool that the
-- run called, and is not the reference of the ticket under analysis.
pub report_is_grounded :
    (d : AgentDeps) (own x : String) (s : AnalysisState) (r : AnalysisReport)
    → run_analysis d own ≡ some s
    → s.report ≡ some r
    → text_in x r.related_references ≡ true
    → (text_in x (evidence s.observations) ≡ true) × (str_eq x own ≡ false)
report_is_grounded d own x s r e h m =
    let c = run_analysis-IsConsistent d own e in
    let g =
      after_prime (IsGrounded own) d (λ n node s' l p. exec-IsGrounded own d n node s' l p) own s
        (prime-IsGrounded own d) e in
    let (seen, other) = g.1 r x h m in (ap (text_in x) (sym c.seen) ∙ seen, other)
