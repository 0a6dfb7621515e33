-- ===== src/Intelligence/Jobs/History/Locks.antt =====
-- The locks and the attempts of the jobs, in every history of their table.
use python_fullstack.Base.{
  ℕ, zero, suc, ◌+◌, ◌≤◌, ◌≡◌, refl, subst, Bool, true, false, inl, inr, none, List, [], ◌∷◌, leb,
  leb→le, arith, Bool-cases,
}
use python_fullstack.Intelligence.Jobs.{
  AiJob, queued, running, failed, embed_ticket, claimed_ids, claim, start, enqueue, release_stale,
  stale_lock, is_stale, max_attempts, by_schedule,
}
use python_fullstack.Intelligence.Jobs.Claims.{All}
use python_fullstack.Intelligence.Jobs.History.{
  Step, enqueued, claimed, swept, Reaches, nothing, more,
}
use python_fullstack.Intelligence.Jobs.History.Rule.{reach_rule}

-- A lock exactly on a job that runs, or has run to its end.
pub record IsLocked (j : AiJob) : Type 0 where
  pub waiting : j.status ≡ queued → (j.locked_at ≡ none) × (j.locked_by ≡ none)
  pub given_up : j.status ≡ failed → (j.locked_at ≡ none) × (j.locked_by ≡ none)
  pub working : j.status ≡ running → (j.locked_at ≡ none → ⊥) × (j.locked_by ≡ none → ⊥)

pub record IsBounded (j : AiJob) : Type 0 where
  pub most : j.attempts ≤ 5
  pub waiting : j.status ≡ queued → j.attempts ≤ 4
  pub given_up : j.status ≡ failed → j.attempts ≡ 5

-- In every history, a job that waits or was given up holds no lock, and one that runs is locked.
pub Reaches-IsLocked : (b : Bool) (js : List AiJob) → Reaches b js → All IsLocked js
Reaches-IsLocked b js r =
    reach_rule IsLocked b
      (λ j q n a l. record {
        waiting = λ _. (a, l);
        given_up = λ e. absurd (cc);
        working = λ e. absurd (cc);
      })
      (λ now w j q p. record {
        waiting = λ e. absurd (cc);
        given_up = λ e. absurd (cc);
        working = λ e. ((λ x. cc), λ x. cc);
      })
      (λ j p. record {
        waiting = λ e. absurd (cc);
        given_up = λ e. absurd (cc);
        working = λ e. absurd (cc);
      })
      (λ now e j p. record {
        waiting = λ _. (refl, refl);
        given_up = λ _. (refl, refl);
        working = λ e. absurd (ground arith);
      })
      (λ now j _ p. elim (Bool-cases (is_stale now j)) [
        | inl e ↦ rw e (record {
          waiting = λ _. (refl, refl);
          given_up = λ x. absurd (cc);
          working = λ x. absurd (cc);
        })
        | inr e ↦ rw e p
      ])
      r

-- Without the sweep of stale locks, no job is tried more than five times, one that waits was tried
-- four times at most, and one that was given up exactly five times.
pub Reaches-IsBounded : (js : List AiJob) → Reaches false js → All IsBounded js
Reaches-IsBounded js r =
    reach_rule IsBounded false
      (λ j q n a l. record {
        most = omega arith;
        waiting = λ _. omega arith;
        given_up = λ e. absurd (cc);
      })
      (λ now w j q p. record {
        most = omega (arith, p.waiting q);
        waiting = λ e. absurd (cc);
        given_up = λ e. absurd (cc);
      })
      (λ j p. record { most = p.most; waiting = λ e. absurd (cc); given_up = λ e. absurd (cc) })
      (λ now e j p. elim (Bool-cases (leb max_attempts j.attempts)) [
        | inl x ↦ rw x (record {
          most = p.most;
          waiting = λ q. absurd (cc);
          given_up = λ _. omega (arith, leb→le 5 j.attempts x);
        })
        | inr x ↦
            rw x
              (record { most = p.most; waiting = λ _. ground arith; given_up = λ q. absurd (cc) })
      ])
      (λ now j h p. absurd (cc)) r

-- A job that was tried some times and is queued again.
abbrev worn : ℕ → AiJob
worn n = record {
  id = 1;
  tenant_id = 1;
  kind = embed_ticket;
  status = queued;
  ticket_id = 1;
  run_id = none;
  attempts = n;
  last_error = none;
  scheduled_at = 0;
  created_at = 0;
  locked_at = none;
  locked_by = none;
}

worn-claim : (n : ℕ) → (claim 0 [] "w" 10 (worn n ∷ [])).0 ≡ start 0 "w" (worn n) ∷ []
unfolding claim claimed_ids by_schedule
worn-claim n = refl

worn_release :
    (n : ℕ) → release_stale (stale_lock + 1) (start 0 "w" (worn n) ∷ []) ≡ worn (n + 1) ∷ []
unfolding release_stale
worn_release n = refl

Reaches-worn : (n : ℕ) → Reaches true (worn n ∷ [])
unfolding enqueue
Reaches-worn zero = more [] (worn 0 ∷ []) nothing (enqueued 0 1 1 1 0 embed_ticket none [] refl)
Reaches-worn (suc n) =
    let once =
      subst (λ js. Step true (worn n ∷ []) js) (worn-claim n) (claimed 0 10 [] "w" (worn n ∷ [])) in
    let swept' =
      subst (λ js. Step true (start 0 "w" (worn n) ∷ []) js) (worn_release n)
        (swept (stale_lock + 1) (start 0 "w" (worn n) ∷ []) refl) in
    let e : n + 1 ≡ suc n = omega arith in
    subst (λ k. Reaches true (worn k ∷ [])) e (more _ _ (more _ _ (Reaches-worn n) once) swept')

-- With the sweep there is no bound: for each number there is a history at whose end a job is queued
-- again after that many attempts.
pub sweeps_unbounded :
    (n : ℕ) → (j : AiJob) × Reaches true (j ∷ []) × (j.status ≡ queued) × (j.attempts ≡ n)
sweeps_unbounded n = (worn n, Reaches-worn n, refl, refl)
