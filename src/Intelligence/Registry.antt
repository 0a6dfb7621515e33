-- ===== src/Intelligence/Registry.antt =====
-- backend/app/modules/intelligence/llm/registry.py, with `UsageRepository` of repository.py: which
-- models serve a role, and a call of a role with the record of its usage. A vendor's model is a
-- parameter. A cost is a number of ten-millionths, so a rate is one of these for each token. Deadlines
-- and latencies are left out.
pub mod Calls
pub mod Chains
pub mod Caps
use text.Mathlib.Text.{◌==◌ as str_eq}
use python_fullstack.Base.{
  ℕ, zero, suc, ◌+◌, ◌*◌, ◌/◌, max, Bool, true, false, not, ◌&&◌, ◌||◌, Option, none, some, List,
  [], ◌∷◌, ◌++◌, String, ltb, leb, ◌==◌, if◌then◌else◌,
}
use python_fullstack.Base.Text.{is_empty}
use python_fullstack.Base.Words.{text_in, begins}
use python_fullstack.Core.Errors.{AppError, rate_limit, service_unavailable}

pub data ModelRole : Type 0 where
  rerank : ModelRole
  query_rewrite : ModelRole
  chat : ModelRole
  agent : ModelRole
  evaluator : ModelRole

abbrev pub role_name : ModelRole → String
role_name rerank = "rerank"
role_name query_rewrite = "query_rewrite"
role_name chat = "chat"
role_name agent = "agent"
role_name evaluator = "evaluator"

pub record Settings : Type 0 where
  pub google_api_key : String
  pub gemini_model_strong : String
  pub gemini_model_cheap : String
  pub ollama_chat_model : String
  pub ai_local_fallback : Bool
  pub ai_prefer_local : Bool
  pub ai_tenant_monthly_cost_cap : ℕ

pub record RoleConfig : Type 0 where
  pub role : ModelRole
  pub primary : String
  pub fallbacks : List String
  pub daily_limit : ℕ
  pub cost_per_token : ℕ

abbrev other_than : String → List String → List String
other_than m [] = []
other_than m (n ∷ ns) = let rest = other_than m ns in if str_eq n m then rest else n ∷ rest

-- `_local_first`
abbrev inverted : String → List String → String → String × List String
inverted primary [] local = (local, [])
inverted primary (f ∷ fs) local = (local, other_than local (primary ∷ f ∷ fs))

unfoldable pub local_first : Settings → String → List String → String → String × List String
local_first c primary fallbacks local =
    if not c.ai_prefer_local then (primary, fallbacks) else inverted primary fallbacks local

abbrev local_only : Settings → List String
local_only c = if c.ai_local_fallback then c.ollama_chat_model ∷ [] else []

abbrev cheap_then_local : Settings → List String
cheap_then_local c = c.gemini_model_cheap ∷ local_only c

abbrev role_config : ModelRole → String × List String → ℕ → ℕ → RoleConfig
role_config role chain limit rate = record {
  role = role;
  primary = chain.0;
  fallbacks = chain.1;
  daily_limit = limit;
  cost_per_token = rate;
}

-- `_roles`
unfoldable pub config : Settings → ModelRole → RoleConfig
unfolding local_first
config c rerank =
    role_config rerank (local_first c c.gemini_model_cheap (local_only c) c.ollama_chat_model) 250 1
config c query_rewrite =
    role_config query_rewrite
      (local_first c c.gemini_model_cheap (local_only c) c.ollama_chat_model) 100 1
config c chat =
    role_config chat (local_first c c.gemini_model_strong (cheap_then_local c) c.ollama_chat_model)
      150 3
config c agent =
    role_config agent (local_first c c.gemini_model_strong (cheap_then_local c) c.ollama_chat_model)
      100 3
config c evaluator =
    role_config evaluator (local_first c c.gemini_model_strong [] c.ollama_chat_model) 200 3

abbrev pub is_hosted : String → Bool
is_hosted name = begins "gemini" name

abbrev pub serveable : Settings → String → Bool
serveable c name = if is_hosted name then not (is_empty c.google_api_key) else true

pub record AiUsage : Type 0 where
  pub tenant_id : Option ℕ
  pub feature : String
  pub role : String
  pub model : String
  pub input_tokens : ℕ
  pub output_tokens : ℕ
  pub estimated_cost : ℕ
  pub succeeded : Bool
  pub created_at : ℕ

-- The time, with the starts of its day and of its month
pub record Moment : Type 0 where
  pub now : ℕ
  pub day : ℕ
  pub month : ℕ

-- `calls_today`
unfoldable pub calls_today : ℕ → String → String → List AiUsage → ℕ
calls_today since model role [] = 0
calls_today since model role (u ∷ us) =
    let rest = calls_today since model role us in
    if str_eq u.model model && (leb since u.created_at && str_eq u.role role)
    then rest + 1
    else rest

abbrev is_tenant : ℕ → Option ℕ → Bool
is_tenant t none = false
is_tenant t (some u) = u == t

-- `month_cost`
unfoldable pub month_cost : ℕ → ℕ → List AiUsage → ℕ
month_cost since tenant [] = 0
month_cost since tenant (u ∷ us) =
    let rest = month_cost since tenant us in
    if is_tenant tenant u.tenant_id && leb since u.created_at then u.estimated_cost + rest else rest

abbrev pub over_budget : Moment → RoleConfig → List AiUsage → Bool
over_budget t r us = leb r.daily_limit (calls_today t.day r.primary (role_name r.role) us)

abbrev pub tenant_over_budget : Settings → Moment → Option ℕ → List AiUsage → Bool
tenant_over_budget c t none us = false
tenant_over_budget c t (some tenant) us =
    if c.ai_tenant_monthly_cost_cap == 0
    then false
    else not (ltb (month_cost t.month tenant us) c.ai_tenant_monthly_cost_cap)
