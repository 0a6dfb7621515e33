-- ===== src/Intelligence/Analysis/Graph/Consistent.antt =====
-- What the counters and lists of the agent's state say of its observations, through a whole run.
use text.Mathlib.TextEquality.{eq_iff}
use python_fullstack.Base.{
  ℕ, ◌+◌, ◌≡◌, refl, sym, ap, ◌∙◌, false, inl, inr, Option, none, some, List, [], ◌∷◌, ◌++◌, map,
  String, length, length-append, arith, Bool-cases, Option-cases,
}
use mathlib.Core.List.{append_assoc, append-nil}
use python_fullstack.Base.Exec.{Result-cases}
use python_fullstack.Base.Assoc.{lookup}
use python_fullstack.Base.Text.{is_empty}
use python_fullstack.Base.Words.{sorted, text_in, text_in-append}
use python_fullstack.Intelligence.Json.{Json, null, bool, number, string, array, object, Fields}
use python_fullstack.Intelligence.References.{result_references}
use python_fullstack.Intelligence.Analysis.{
  Observation, ran, unknown_tool, invalid_json, repeated_call, AgentDecision, AnalysisState,
  AgentDeps, prime, prime_with, skip_prime, decide, signature,
}
use python_fullstack.Intelligence.Analysis.Nodes.{
  act, report, check_limits, observe, act_with, act_ran, or_object, act_no_tool, act_parsed,
  act_found, act_tool, act_decision,
}
use python_fullstack.Intelligence.Analysis.Graph.Keeping.{IsLater, after_prime}
use python_fullstack.Intelligence.Analysis.Graph.{
  Node, priming, deciding, acting, limits, reporting, over, exec, initial, run_analysis,
}

-- The references that the tools returned, and the calls that were made, as the observations tell.
abbrev pub evidence : List Observation → List String
evidence [] = []
evidence (ran tool arguments result ∷ os) = result_references result ++ evidence os
evidence (unknown_tool tool available ∷ os) = evidence os
evidence (invalid_json tool ∷ os) = evidence os
evidence (repeated_call tool ∷ os) = evidence os

abbrev pub calls_made : AgentDeps → List Observation → List String
calls_made d [] = []
calls_made d (ran tool arguments result ∷ os) = signature d tool arguments ∷ calls_made d os
calls_made d (unknown_tool tool available ∷ os) = calls_made d os
calls_made d (invalid_json tool ∷ os) = calls_made d os
calls_made d (repeated_call tool ∷ os) = calls_made d os

abbrev pub AllOnce : List String → Type 0
AllOnce [] = Unit {0}
AllOnce (w ∷ ws) = (text_in w ws ≡ false) × AllOnce ws

evidence-append : (os ps : List Observation) → evidence (os ++ ps) ≡ evidence os ++ evidence ps
evidence-append [] ps = refl
evidence-append (ran t a r ∷ os) ps = simp (evidence-append os ps, append_assoc)
evidence-append (unknown_tool t a ∷ os) ps = evidence-append os ps
evidence-append (invalid_json t ∷ os) ps = evidence-append os ps
evidence-append (repeated_call t ∷ os) ps = evidence-append os ps

calls_made-append :
    (d : AgentDeps) (os ps : List Observation)
    → calls_made d (os ++ ps) ≡ calls_made d os ++ calls_made d ps
calls_made-append d [] ps = refl
calls_made-append d (ran t a r ∷ os) ps =
    ap (λ ws. signature d t a ∷ ws) (calls_made-append d os ps)
calls_made-append d (unknown_tool t a ∷ os) ps = calls_made-append d os ps
calls_made-append d (invalid_json t ∷ os) ps = calls_made-append d os ps
calls_made-append d (repeated_call t ∷ os) ps = calls_made-append d os ps

AllOnce-append :
    (ws : List String) (w : String) → AllOnce ws → text_in w ws ≡ false → AllOnce (ws ++ w ∷ [])
AllOnce-append [] w h n = (refl, tt)
AllOnce-append (v ∷ vs) w h n = (
  text_in-append v vs (w ∷ []) ∙ ground (arith, h.0, eq_iff v w, eq_iff w v),
  AllOnce-append vs w h.1 (ground arith),
)

pub record IsConsistent (d : AgentDeps) (s : AnalysisState) : Type 0 where
  pub seen : s.seen_references ≡ evidence s.observations
  pub made : s.call_signatures ≡ calls_made d s.observations
  pub counted : s.tool_calls ≡ length (calls_made d s.observations)
  pub once : AllOnce (calls_made d s.observations)

-- A state with one observation more.
extend-IsConsistent :
    (d : AgentDeps) (s s' : AnalysisState) (o : Observation)
    → IsConsistent d s
    → s'.observations ≡ s.observations ++ o ∷ []
    → s'.seen_references ≡ s.seen_references ++ evidence (o ∷ [])
    → s'.call_signatures ≡ s.call_signatures ++ calls_made d (o ∷ [])
    → s'.tool_calls ≡ s.tool_calls + length (calls_made d (o ∷ []))
    → AllOnce (calls_made d s.observations ++ calls_made d (o ∷ []))
    → IsConsistent d s'
extend-IsConsistent d s s' o c os seen made counted once = record {
  seen = simp (os, seen, c.seen, evidence-append s.observations (o ∷ [])) refl;
  made = simp (os, made, c.made, calls_made-append d s.observations (o ∷ [])) refl;
  counted =
      rw (os, calls_made-append d s.observations (o ∷ []))
        (omega (
          arith,
          counted,
          c.counted,
          length-append {0} (calls_made d s.observations) (calls_made d (o ∷ [])),
        ));
  once = rw (os, calls_made-append d s.observations (o ∷ [])) once;
}

module _ (d : AgentDeps) (n : ℕ) where
  decide-IsConsistent : {s : AnalysisState} → IsConsistent d s → IsConsistent d (decide d n s)
  unfolding decide
  decide-IsConsistent {s} c = elim (Result-cases (d.decide_call n s)) [
    | inl (o, e) ↦
        rw e (record { seen = c.seen; made = c.made; counted = c.counted; once = c.once })
    | inr (x, e) ↦
        rw e (record { seen = c.seen; made = c.made; counted = c.counted; once = c.once })
  ]

  limits-IsConsistent : {s : AnalysisState} → IsConsistent d s → IsConsistent d (check_limits d n s)
  unfolding check_limits
  limits-IsConsistent {s} c = ground arith

  report-IsConsistent : {s : AnalysisState} → IsConsistent d s → IsConsistent d (report d n s)
  unfolding report
  report-IsConsistent {s} c = elim (Result-cases (d.report_call n s)) [
    | inl (o, e) ↦
        rw e (record { seen = c.seen; made = c.made; counted = c.counted; once = c.once })
    | inr (x, e) ↦
        rw e (record { seen = c.seen; made = c.made; counted = c.counted; once = c.once })
  ]

  -- A failed call adds an observation that is no evidence.
  observe-IsConsistent :
      (s : AnalysisState) (o : Observation) (tool : String) (a : Option Fields) (what : String)
      → evidence (o ∷ []) ≡ []
      → calls_made d (o ∷ []) ≡ []
      → IsConsistent d s
      → IsConsistent d (observe s o tool a what)
  observe-IsConsistent s o tool a what e m c =
      extend-IsConsistent d s (observe s o tool a what) o c refl
        (sym (append-nil s.seen_references) ∙ ap (λ ws. s.seen_references ++ ws) (sym e))
        (sym (append-nil s.call_signatures) ∙ ap (λ ws. s.call_signatures ++ ws) (sym m))
        (rw m (omega arith)) (rw (m, append-nil (calls_made d s.observations)) c.once)

  bad_json :
      (s : AnalysisState) (tool : String)
      → IsConsistent d s
      → IsConsistent d (observe s (invalid_json tool) tool none ":bad-json")
  bad_json s tool c = observe-IsConsistent s (invalid_json tool) tool none ":bad-json" refl refl c

  act_with-IsConsistent :
      (s : AnalysisState) (tool : String) (invoke : ℕ → Fields → Fields) (a : Fields)
      → IsConsistent d s
      → IsConsistent d (act_with d n s tool invoke a)
  act_with-IsConsistent s tool invoke a c =
      elim (Bool-cases (text_in (signature d tool a) s.call_signatures)) [
        | inl e ↦
            rw e (observe-IsConsistent s (repeated_call tool) tool (some a) ":repeat" refl refl c)
        | inr e ↦ rw e (
            extend-IsConsistent d s (act_ran d s tool a (invoke n a)) (ran tool a (invoke n a)) c
              refl
              (ap (λ ws. s.seen_references ++ ws)
                (sym (append-nil (result_references (invoke n a)))))
              refl (omega arith)
              (AllOnce-append (calls_made d s.observations) (signature d tool a) c.once
                (ap (text_in (signature d tool a)) (sym c.made) ∙ e)))
      ]

  act_no_tool-IsConsistent : {s : AnalysisState} → IsConsistent d s → IsConsistent d (act_no_tool s)
  act_no_tool-IsConsistent c = record {
    seen = c.seen;
    made = c.made;
    counted = c.counted;
    once = c.once;
  }

  act_parsed-IsConsistent :
      (s : AnalysisState) (tool : String) (invoke : ℕ → Fields → Fields) (j : Option Json)
      → IsConsistent d s
      → IsConsistent d (act_parsed d n s tool invoke j)
  act_parsed-IsConsistent s tool invoke (some (object a)) c =
      act_with-IsConsistent s tool invoke a c
  act_parsed-IsConsistent s tool invoke (some null) c = bad_json s tool c
  act_parsed-IsConsistent s tool invoke (some (bool b)) c = bad_json s tool c
  act_parsed-IsConsistent s tool invoke (some (number w)) c = bad_json s tool c
  act_parsed-IsConsistent s tool invoke (some (string w)) c = bad_json s tool c
  act_parsed-IsConsistent s tool invoke (some (array w)) c = bad_json s tool c
  act_parsed-IsConsistent s tool invoke none c = bad_json s tool c

  act_found-IsConsistent :
      (s : AnalysisState) (x : AgentDecision) (tool : String) (found : Option (ℕ → Fields → Fields))
      → IsConsistent d s
      → IsConsistent d (act_found d n s x tool found)
  act_found-IsConsistent s x tool none c =
      observe-IsConsistent s (unknown_tool tool (sorted (map (λ entry. entry.0) d.tools))) tool none
        ":unknown-tool" refl refl c
  act_found-IsConsistent s x tool (some invoke) c =
      act_parsed-IsConsistent s tool invoke (d.loads (or_object x.arguments_json)) c

  act_tool-IsConsistent :
      (s : AnalysisState) (x : AgentDecision) (tool : Option String)
      → IsConsistent d s
      → IsConsistent d (act_tool d n s x tool)
  act_tool-IsConsistent s x none c = act_no_tool-IsConsistent c
  act_tool-IsConsistent s x (some tool) c = act_found-IsConsistent s x tool (lookup tool d.tools) c

  act_decision-IsConsistent :
      (s : AnalysisState) (x : Option AgentDecision)
      → IsConsistent d s
      → IsConsistent d (act_decision d n s x)
  act_decision-IsConsistent s none c = act_no_tool-IsConsistent c
  act_decision-IsConsistent s (some x) c = act_tool-IsConsistent s x x.tool c

  act-IsConsistent : {s : AnalysisState} → IsConsistent d s → IsConsistent d (act d n s)
  unfolding act
  act-IsConsistent {s} c = act_decision-IsConsistent s s.decision c

  prime_with-IsConsistent :
      (reference : String) (invoke : ℕ → Fields → Fields)
      → IsConsistent d (prime_with d n (initial reference) invoke)
  prime_with-IsConsistent reference invoke = record {
    seen = sym (append-nil _);
    made = refl;
    counted = omega arith;
    once = (refl, tt);
  }

  skip_prime-IsConsistent : (reference : String) → IsConsistent d (skip_prime (initial reference))
  skip_prime-IsConsistent reference = record {
    seen = refl;
    made = refl;
    counted = omega arith;
    once = tt;
  }

  prime-IsConsistent : (reference : String) → IsConsistent d (prime d n (initial reference))
  unfolding prime
  prime-IsConsistent reference = elim (Option-cases (lookup "get_ticket" d.tools)) [
    | inl e ↦ rw e (skip_prime-IsConsistent reference)
    | inr (invoke, e) ↦ elim (Bool-cases (is_empty reference)) [
      | inl b ↦ rw (e, b) (skip_prime-IsConsistent reference)
      | inr b ↦ rw (e, b) (prime_with-IsConsistent reference invoke)
    ]
  ]

exec-IsConsistent :
    (d : AgentDeps) (n : ℕ) (node : Node) {s : AnalysisState}
    → IsLater node
    → IsConsistent d s
    → IsConsistent d (exec d n node s)
exec-IsConsistent d n priming l c = absurd l
exec-IsConsistent d n deciding l c = decide-IsConsistent d n c
exec-IsConsistent d n acting l c = act-IsConsistent d n c
exec-IsConsistent d n limits l c = limits-IsConsistent d n c
exec-IsConsistent d n reporting l c = report-IsConsistent d n c
exec-IsConsistent d n over l c = c

-- After a run, the references that count as seen are those of the results that the tools gave, no
-- tool was run twice on the same arguments, and the count of tool calls is that of these runs.
pub run_analysis-IsConsistent :
    (d : AgentDeps) (reference : String) {s : AnalysisState}
    → run_analysis d reference ≡ some s
    → IsConsistent d s
run_analysis-IsConsistent d reference {s} e =
    after_prime (IsConsistent d) d (λ n node s' l c. exec-IsConsistent d n node l c) reference s
      (prime-IsConsistent d 0 reference) e
