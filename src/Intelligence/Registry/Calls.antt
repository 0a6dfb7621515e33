-- ===== src/Intelligence/Registry/Calls.antt =====
-- backend/app/modules/intelligence/llm/registry.py: a call of a role. What the run does on a model is
-- a parameter; an error of another kind than those of the application is one that is not caught.
use python_fullstack.Base.{
  ℕ, suc, ◌+◌, ◌*◌, ◌/◌, max, Bool, true, false, Option, none, some, List, [], ◌∷◌, ◌++◌, String,
  ltb, ◌==◌, if◌then◌else◌,
}
use python_fullstack.Base.Exec.{Result, ok, err}
use python_fullstack.Base.Words.{text_in}
use python_fullstack.Core.Errors.{AppError, rate_limit, service_unavailable}
use python_fullstack.Intelligence.Registry.{
  ModelRole, role_name, Settings, RoleConfig, config, is_hosted, serveable, AiUsage, Moment,
  over_budget, tenant_over_budget, calls_today, month_cost,
}

-- What the run gives: a value with the counts that the adapter reports, 0 if it reports none; or an
-- error.
pub data Reply (A : Type 0) : Type 0 where
  answered : (value : A) (input_tokens : ℕ) (output_tokens : ℕ) → Reply A
  refused : AppError → Reply A

pub record CallResult (A : Type 0) : Type 0 where
  pub value : A
  pub model : String
  pub input_tokens : ℕ
  pub output_tokens : ℕ
  pub estimated_cost : ℕ
  pub used_fallback : Bool

pub record Request (A : Type 0) : Type 0 where
  pub tenant_id : Option ℕ
  pub role : ModelRole
  pub feature : String
  pub run : String → Reply A
  pub show : A → String
  pub prompt_text : String

abbrev size : String → ℕ
size String.[] = 0
size (String.◌∷◌ c s) = suc (size s)

abbrev estimate : String → ℕ
estimate text = max 1 (size text / 4)

-- `int(reported) or estimate`
abbrev or_estimate : ℕ → String → ℕ
or_estimate n text = if n == 0 then estimate text else n

abbrev pub cost_of : RoleConfig → String → ℕ → ℕ
cost_of r model tokens = if is_hosted model then tokens * r.cost_per_token else 0

module _ {A : Type 0} (t : Moment) (q : Request A) (r : RoleConfig) where
  -- `_record`
  abbrev pub used : String → ℕ → ℕ → ℕ → Bool → AiUsage
  used model i o cost succeeded = record {
    tenant_id = q.tenant_id;
    feature = q.feature;
    role = role_name r.role;
    model = model;
    input_tokens = i;
    output_tokens = o;
    estimated_cost = cost;
    succeeded = succeeded;
    created_at = t.now;
  }

  abbrev pub failure : String → AiUsage
  failure model = used model 0 0 0 false

  abbrev pub result_of : ℕ → String → A → ℕ → ℕ → CallResult A
  result_of index model value i o = record {
    value = value;
    model = model;
    input_tokens = or_estimate i q.prompt_text;
    output_tokens = or_estimate o (q.show value);
    estimated_cost = cost_of r model (or_estimate i q.prompt_text + or_estimate o (q.show value));
    used_fallback = ltb 0 index;
  }

  abbrev pub success : CallResult A → AiUsage
  success c = used c.model c.input_tokens c.output_tokens c.estimated_cost true

  abbrev or_unavailable : Option AppError → AppError
  or_unavailable none = service_unavailable
  or_unavailable (some e) = e

  -- Whether another model is tried after this error
  abbrev pub falls_back : AppError → Bool
  falls_back rate_limit = true
  falls_back service_unavailable = true
  falls_back _ = false

  -- After a reply, with what the attempts on the remaining models come to
  abbrev pub after_reply :
      ℕ
      → String
      → (Option AppError → List AiUsage → Result AppError (CallResult A) × List AiUsage)
      → Reply A
      → List AiUsage
      → Result AppError (CallResult A) × List AiUsage
  after_reply index m rest (answered value i o) us =
      (ok (result_of index m value i o), us ++ success (result_of index m value i o) ∷ [])
  after_reply index m rest (refused e) us =
      if falls_back e then rest (some e) (us ++ failure m ∷ []) else (err e, us)

  -- `_attempt`, at an index, with the last error
  unfoldable pub attempt :
      ℕ
      → List String
      → Option AppError
      → List AiUsage
      → Result AppError (CallResult A) × List AiUsage
  attempt index [] last us = (err (or_unavailable last), us)
  attempt index (m ∷ ms) last us = after_reply index m (attempt (suc index) ms) (q.run m) us

abbrev pub local_of : List String → List String
local_of [] = []
local_of (m ∷ ms) = let rest = local_of ms in if is_hosted m then rest else m ∷ rest

abbrev pub add_new : List String → List String → List String
add_new attempts [] = attempts
add_new attempts (f ∷ fs) = add_new (if text_in f attempts then attempts else attempts ++ f ∷ []) fs

abbrev pub serveable_of : Settings → List String → List String
serveable_of c [] = []
serveable_of c (m ∷ ms) = let rest = serveable_of c ms in if serveable c m then m ∷ rest else rest

-- The models to try
unfoldable pub attempts_of : Settings → Moment → Option ℕ → RoleConfig → List AiUsage → List String
unfolding calls_today month_cost
attempts_of c t tenant r us =
    if tenant_over_budget c t tenant us
    then local_of r.fallbacks
    else serveable_of c (add_new (if over_budget t r us then [] else r.primary ∷ []) r.fallbacks)

abbrev pub call_with :
    {A : Type 0}
    → Moment
    → Request A
    → RoleConfig
    → List String
    → List AiUsage
    → Result AppError (CallResult A) × List AiUsage
call_with t q r [] us = (err rate_limit, us)
call_with t q r (m ∷ ms) us = attempt t q r 0 (m ∷ ms) none us

-- `call`
unfoldable pub call :
    {A : Type 0}
    → Settings
    → Moment
    → Request A
    → List AiUsage
    → Result AppError (CallResult A) × List AiUsage
unfolding attempts_of config attempt
call c t q us = let r = config c q.role in call_with t q r (attempts_of c t q.tenant_id r us) us
