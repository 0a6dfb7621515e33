-- ===== src/Intelligence/Registry/Caps.antt =====
-- What the budgets do to a call of a role: the tenant's allowance, the role's daily limit, and the
-- role that has no fallback.
use text.Mathlib.TextEquality.{eq_iff}
use python_fullstack.Base.{
  ℕ, suc, ◌≡◌, refl, ap, ◌∙◌, true, false, inl, inr, ◌⊎◌, Option, none, some, List, [], ◌∷◌, ◌++◌,
  String, arith, Bool-cases,
}
use python_fullstack.Base.Exec.{Result, ok, err}
use python_fullstack.Core.Errors.{AppError, rate_limit}
use python_fullstack.Intelligence.Registry.{
  ModelRole, rerank, query_rewrite, chat, agent, evaluator, Settings, RoleConfig, config, is_hosted,
  AiUsage, Moment, tenant_over_budget, month_cost,
}
use python_fullstack.Intelligence.Registry.Calls.{
  Reply, answered, refused, CallResult, Request, failure, result_of, success, falls_back, attempt,
  local_of, attempts_of, call, call_with,
}
use python_fullstack.Intelligence.Registry.Chains.{call_by_attempts}

Reply-cases :
    {A : Type 0} (x : Reply A)
    → ((value : A) × (i : ℕ) × (o : ℕ) × (x ≡ answered value i o))
      ⊎ ((e : AppError) × (x ≡ refused e))
Reply-cases (answered value i o) = inl (value, i, o, refl)
Reply-cases (refused e) = inr (e, refl)

abbrev AllLocal : List String → Type 0
AllLocal [] = Unit {0}
AllLocal (m ∷ ms) = (is_hosted m ≡ false) × AllLocal ms

local_of-AllLocal : (ms : List String) → AllLocal (local_of ms)
local_of-AllLocal [] = tt
local_of-AllLocal (m ∷ ms) = elim (Bool-cases (is_hosted m)) [
  | inl e ↦ rw e (local_of-AllLocal ms)
  | inr e ↦ rw e (e, local_of-AllLocal ms)
]

-- A row that costs nothing changes no month's cost.
month_cost-free :
    (since tenant : ℕ) (us : List AiUsage) (u : AiUsage)
    → u.estimated_cost ≡ 0
    → month_cost since tenant (us ++ u ∷ []) ≡ month_cost since tenant us
unfolding month_cost
month_cost-free since tenant [] u f = ground arith
month_cost-free since tenant (v ∷ vs) u f = ground (arith, month_cost-free since tenant vs u f)

module _ {A : Type 0} (t : Moment) (q : Request A) (r : RoleConfig) where
  attempt_is_free :
      (since tenant index : ℕ) (ms : List String) (last : Option AppError) (us : List AiUsage)
      → AllLocal ms
      → month_cost since tenant (attempt t q r index ms last us).1 ≡ month_cost since tenant us
  unfolding attempt
  attempt_is_free since tenant index [] last us l = refl
  attempt_is_free since tenant index (m ∷ ms) last us (h, l) = elim (Reply-cases (q.run m)) [
    | inl (value, i, o, e) ↦ rw e (
        month_cost-free since tenant us (success t q r (result_of t q r index m value i o))
          (rw h refl))
    | inr (e, x) ↦ elim (Bool-cases (falls_back t q r e)) [
      | inl y ↦
          rw (x, y)
            (attempt_is_free since tenant (suc index) ms (some e) (us ++ failure t q r m ∷ []) l
              ∙ month_cost-free since tenant us (failure t q r m) refl)
      | inr y ↦ rw (x, y) refl
    ]
  ]

  call_with_is_free :
      (since tenant : ℕ) (ms : List String) (us : List AiUsage)
      → AllLocal ms
      → month_cost since tenant (call_with t q r ms us).1 ≡ month_cost since tenant us
  call_with_is_free since tenant [] us l = refl
  call_with_is_free since tenant (m ∷ ms) us l = attempt_is_free since tenant 0 (m ∷ ms) none us l

-- A call for a tenant that has used up its monthly allowance adds nothing to any tenant's cost.
pub capped_call_is_free :
    {A : Type 0} (c : Settings) (t : Moment) (q : Request A) (us : List AiUsage) (since tenant : ℕ)
    → tenant_over_budget c t q.tenant_id us ≡ true
    → month_cost since tenant (call c t q us).1 ≡ month_cost since tenant us
unfolding call
capped_call_is_free c t q us since tenant h = rw h (
    call_with_is_free t q (config c q.role) since tenant (local_of (config c q.role).fallbacks) us
      (local_of-AllLocal (config c q.role).fallbacks))

evaluator_alone : (c : Settings) → (config c evaluator).fallbacks ≡ []
unfolding config
evaluator_alone c = ground arith

-- Each row of usage that a call adds is for this model.
abbrev pub AddsOnly : String → List AiUsage → List AiUsage → Type 0
AddsOnly m us vs = (vs ≡ us) ⊎ ((u : AiUsage) × (vs ≡ us ++ u ∷ []) × (u.model ≡ m))

abbrev pub Serves : {A : Type 0} → String → Result AppError (CallResult A) → Type 0
Serves m (ok res) = (res.model ≡ m) × (res.used_fallback ≡ false)
Serves m (err e) = Unit {0}

module _ {A : Type 0} (t : Moment) (q : Request A) (r : RoleConfig) where
  attempt_one :
      (m : String) (us : List AiUsage)
      → Serves m (attempt t q r 0 (m ∷ []) none us).0
        × AddsOnly m us (attempt t q r 0 (m ∷ []) none us).1
  unfolding attempt
  attempt_one m us = elim (Reply-cases (q.run m)) [
    | inl (value, i, o, e) ↦
        rw e ((refl, refl), inr (success t q r (result_of t q r 0 m value i o), refl, refl))
    | inr (e, x) ↦ elim (Bool-cases (falls_back t q r e)) [
      | inl y ↦ rw (x, y) (tt, inr (failure t q r m, refl, refl))
      | inr y ↦ rw (x, y) (tt, inl refl)
    ]
  ]

one_at_most :
    (c : Settings) (t : Moment) (tenant : Option ℕ) (r : RoleConfig) (us : List AiUsage)
    → r.fallbacks ≡ []
    → (attempts_of c t tenant r us ≡ []) ⊎ (attempts_of c t tenant r us ≡ r.primary ∷ [])
unfolding attempts_of
one_at_most c t tenant r us e = rw e (ground arith)

-- The evaluator is never downgraded: a result is that of its one model, not marked as a fallback's,
-- and what a call records, one row at most, is for that model.
pub evaluator_keeps_its_model :
    {A : Type 0} (c : Settings) (t : Moment) (q : Request A) (us : List AiUsage)
    → q.role ≡ evaluator
    → Serves (config c q.role).primary (call c t q us).0
      × AddsOnly (config c q.role).primary us (call c t q us).1
evaluator_keeps_its_model c t q us role =
    let r = config c q.role in
    let none_left : r.fallbacks ≡ [] = ap (λ x. (config c x).fallbacks) role ∙ evaluator_alone c in
    elim (one_at_most c t q.tenant_id r us none_left) [
      | inl e ↦ rw (call_by_attempts c t q us [] e) (tt, inl refl)
      | inr e ↦ rw (call_by_attempts c t q us (r.primary ∷ []) e) (attempt_one t q r r.primary us)
    ]

-- With the local model preferred, its place is the first in each role's chain.
preferred_local :
    (c : Settings) (role : ModelRole)
    → c.ai_prefer_local ≡ true
    → is_hosted c.gemini_model_strong ≡ true
    → is_hosted c.gemini_model_cheap ≡ true
    → ((config c role).primary ≡ c.ollama_chat_model) × (local_of (config c role).fallbacks ≡ [])
unfolding config
preferred_local c rerank p s h = ground (arith, eq_iff c.ollama_chat_model c.ollama_chat_model)
preferred_local c query_rewrite p s h =
    ground (arith, eq_iff c.ollama_chat_model c.ollama_chat_model)
preferred_local c chat p s h = ground (arith, eq_iff c.ollama_chat_model c.ollama_chat_model)
preferred_local c agent p s h = ground (arith, eq_iff c.ollama_chat_model c.ollama_chat_model)
preferred_local c evaluator p s h = ground arith

capped_attempts :
    (c : Settings) (t : Moment) (tenant : Option ℕ) (r : RoleConfig) (us : List AiUsage)
    → tenant_over_budget c t tenant us ≡ true
    → attempts_of c t tenant r us ≡ local_of r.fallbacks
unfolding attempts_of
capped_attempts c t tenant r us h = rw h refl

-- With the local model preferred, a tenant that has used up its allowance is refused for every role,
-- though the role's own model is the local one.
pub capped_local_is_refused :
    {A : Type 0} (c : Settings) (t : Moment) (q : Request A) (us : List AiUsage)
    → c.ai_prefer_local ≡ true
    → is_hosted c.gemini_model_strong ≡ true
    → is_hosted c.gemini_model_cheap ≡ true
    → is_hosted c.ollama_chat_model ≡ false
    → tenant_over_budget c t q.tenant_id us ≡ true
    → (call c t q us ≡ (err rate_limit, us)) × (is_hosted (config c q.role).primary ≡ false)
capped_local_is_refused c t q us p s h l x =
    let (first, others) = preferred_local c q.role p s h in
    (
      call_by_attempts c t q us []
          (capped_attempts c t q.tenant_id (config c q.role) us x ∙ others),
      ap is_hosted first ∙ l,
    )
