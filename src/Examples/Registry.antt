-- ===== src/Examples/Registry.antt =====
-- A hosted chain with a local model at its end.
use python_fullstack.Base.{
  ℕ, ◌≡◌, refl, true, false, some, List, [], ◌∷◌, ◌++◌, String, if◌then◌else◌,
}
use python_fullstack.Base.Exec.{ok, err}
use python_fullstack.Base.Words.{begins}
use python_fullstack.Core.Errors.{rate_limit}
use python_fullstack.Intelligence.Registry.{
  chat, evaluator, Settings, config, is_hosted, AiUsage, Moment, month_cost,
}
use python_fullstack.Intelligence.Registry.Calls.{
  Reply, answered, refused, Request, success, result_of, attempts_of, call,
}
use python_fullstack.Intelligence.Registry.Chains.{failures, call_answers}
use python_fullstack.Intelligence.Registry.Caps.{
  Serves, AddsOnly, evaluator_keeps_its_model, capped_call_is_free, capped_local_is_refused,
}

abbrev settings : Settings
settings = record {
  google_api_key = "key";
  gemini_model_strong = "gemini-strong";
  gemini_model_cheap = "gemini-cheap";
  ollama_chat_model = "qwen3:8b";
  ai_local_fallback = true;
  ai_prefer_local = false;
  ai_tenant_monthly_cost_cap = 50;
}

abbrev moment : Moment
moment = record { now = 100; day = 90; month = 50 }

abbrev reply : String → Reply ℕ
unfolding begins
reply m = if begins "gemini-strong" m then refused rate_limit else answered 7 3 2

abbrev request : Request ℕ
request = record {
  tenant_id = some 1;
  role = chat;
  feature = "chat.decide";
  run = reply;
  show = λ n. "7";
  prompt_text = "How many?";
}

chain :
    attempts_of settings moment (some 1) (config settings chat) []
    ≡ "gemini-strong" ∷ "gemini-cheap" ∷ "qwen3:8b" ∷ []
unfolding attempts_of config begins
chain = refl

call_answers_example :
    (call settings moment request []).0
      ≡ ok (result_of moment request (config settings chat) 1 "gemini-cheap" 7 3 2)
    × ((call settings moment request []).1
        ≡ []
          ++ (failures moment request (config settings chat) ("gemini-strong" ∷ [])
              ++ success moment request
                  (config settings chat)
                  (result_of moment request (config settings chat) 1 "gemini-cheap" 7 3 2)
                ∷ []))
unfolding begins
call_answers_example =
    call_answers settings moment request [] ("gemini-strong" ∷ []) ("qwen3:8b" ∷ []) "gemini-cheap"
      7 3 2 chain ((rate_limit, refl, refl), tt) refl

abbrev judging : Request ℕ
judging = record request { role = evaluator }

evaluator_keeps_its_model_example :
    Serves (config settings evaluator).primary (call settings moment judging []).0
    × AddsOnly (config settings evaluator).primary [] (call settings moment judging []).1
evaluator_keeps_its_model_example = evaluator_keeps_its_model settings moment judging [] refl

-- A month's use that reaches the cap
abbrev spent : List AiUsage
spent =
    record {
      tenant_id = some 1;
      feature = "chat.respond";
      role = "chat";
      model = "gemini-strong";
      input_tokens = 20;
      output_tokens = 5;
      estimated_cost = 75;
      succeeded = true;
      created_at = 60;
    }
    ∷ []

capped_call_is_free_example :
    month_cost 50 1 (call settings moment request spent).1 ≡ month_cost 50 1 spent
unfolding month_cost
capped_call_is_free_example = capped_call_is_free settings moment request spent 50 1 refl

abbrev local_settings : Settings
local_settings = record settings { ai_prefer_local = true }

capped_local_is_refused_example :
    (call local_settings moment request spent ≡ (err rate_limit, spent))
    × (is_hosted (config local_settings chat).primary ≡ false)
unfolding begins month_cost
capped_local_is_refused_example =
    capped_local_is_refused local_settings moment request spent refl refl refl refl refl
