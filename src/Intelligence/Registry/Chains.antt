-- ===== src/Intelligence/Registry/Chains.antt =====
-- Which model answers a call of a role, and what is recorded of the attempts.
use mathlib.Core.List.{append_assoc, append-nil}
use python_fullstack.Base.{
  ℕ, suc, ◌+◌, ◌≡◌, refl, sym, ap, ◌∙◌, true, Option, none, some, List, [], ◌∷◌, ◌++◌, String,
  length, arith,
}
use python_fullstack.Base.Exec.{Result, ok, err}
use python_fullstack.Core.Errors.{AppError, service_unavailable}
use python_fullstack.Intelligence.Registry.{Settings, RoleConfig, config, AiUsage, Moment}
use python_fullstack.Intelligence.Registry.Calls.{
  answered, refused, CallResult, Request, failure, result_of, success, falls_back, attempt,
  attempts_of, call, call_with,
}

module _ {A : Type 0} (t : Moment) (q : Request A) (r : RoleConfig) where
  -- Each of the models fails in a way that lets the next one be tried.
  abbrev pub AllFallBack : List String → Type 0
  AllFallBack [] = Unit {0}
  AllFallBack (m ∷ ms) =
      ((e : AppError) × (q.run m ≡ refused e) × (falls_back t q r e ≡ true)) × AllFallBack ms

  abbrev pub failures : List String → List AiUsage
  failures [] = []
  failures (m ∷ ms) = failure t q r m ∷ failures ms

  -- A success at some index, after the records of these models
  abbrev answer_at :
      ℕ
      → List String
      → String
      → A
      → ℕ
      → ℕ
      → List AiUsage
      → Result AppError (CallResult A) × List AiUsage
  answer_at k before m value i o us = (
    ok (result_of t q r k m value i o),
    us ++ (failures before ++ success t q r (result_of t q r k m value i o) ∷ []),
  )

  attempt_answers :
      (before after : List String) (m : String) (value : A) (i o index k : ℕ)
      (last : Option AppError) (us : List AiUsage)
      → k ≡ length before + index
      → AllFallBack before
      → q.run m ≡ answered value i o
      → attempt t q r index (before ++ m ∷ after) last us ≡ answer_at k before m value i o us
  unfolding attempt
  attempt_answers [] after m value i o index k last us n f a =
      let same : index ≡ k = omega arith in rw a (ap (λ j. answer_at j [] m value i o us) same)
  attempt_answers (b ∷ bs) after m value i o index k last us n ((e, x, y), f) a =
      rw (x, y)
        (attempt_answers bs after m value i o (suc index) k (some e) (us ++ failure t q r b ∷ [])
            (omega arith) f a
          ∙ ap (λ rows. (ok (result_of t q r k m value i o), rows))
              (append_assoc us (failure t q r b ∷ [])
                (failures bs ++ success t q r (result_of t q r k m value i o) ∷ [])))

  attempt_fails :
      (ms : List String) (index : ℕ) (last : Option AppError) (us : List AiUsage)
      → AllFallBack ms
      → (e : AppError) × (attempt t q r index ms last us ≡ (err e, us ++ failures ms))
  unfolding attempt
  attempt_fails [] index none us f =
      (service_unavailable, ap (λ rows. (err service_unavailable, rows)) (sym (append-nil us)))
  attempt_fails [] index (some e) us f = (e, ap (λ rows. (err e, rows)) (sym (append-nil us)))
  attempt_fails (b ∷ bs) index last us ((e, x, y), f) =
      let (e', found) = attempt_fails bs (suc index) (some e) (us ++ failure t q r b ∷ []) f in
      (
        e',
        rw (x, y)
            (found
              ∙ ap (λ rows. (err e', rows)) (append_assoc us (failure t q r b ∷ []) (failures bs))),
      )

call_with-append :
    {A : Type 0} (t : Moment) (q : Request A) (r : RoleConfig) (before after : List String)
    (m : String) (us : List AiUsage)
    → call_with t q r (before ++ m ∷ after) us ≡ attempt t q r 0 (before ++ m ∷ after) none us
call_with-append t q r [] after m us = refl
call_with-append t q r (b ∷ bs) after m us = refl

pub call_by_attempts :
    {A : Type 0} (c : Settings) (t : Moment) (q : Request A) (us : List AiUsage) (ms : List String)
    → attempts_of c t q.tenant_id (config c q.role) us ≡ ms
    → call c t q us ≡ call_with t q (config c q.role) ms us
unfolding call
call_by_attempts c t q us ms e = ap (λ ns. call_with t q (config c q.role) ns us) e

-- The first model of the chain that answers gives the result: if the models before it fail by a rate
-- limit or by being unavailable, the call returns its value, and adds to the usage one failed row for
-- each of them and one row for the answer, and no model after it is asked or recorded.
pub call_answers :
    {A : Type 0} (c : Settings) (t : Moment) (q : Request A) (us : List AiUsage)
    (before after : List String) (m : String) (value : A) (i o : ℕ)
    → attempts_of c t q.tenant_id (config c q.role) us ≡ before ++ m ∷ after
    → AllFallBack t q (config c q.role) before
    → q.run m ≡ answered value i o
    → (call c t q us).0 ≡ ok (result_of t q (config c q.role) (length before) m value i o)
      × ((call c t q us).1
          ≡ us
            ++ (failures t q (config c q.role) before
                ++ success t q
                    (config c q.role)
                    (result_of t q (config c q.role) (length before) m value i o)
                  ∷ []))
call_answers c t q us before after m value i o e f a =
    let whole =
      call_by_attempts c t q us (before ++ m ∷ after) e
      ∙ call_with-append t q (config c q.role) before after m us
      ∙ attempt_answers t q (config c q.role) before after m value i o 0 (length before) none us
          (omega arith) f a in
    (ap (λ p. p.0) whole, ap (λ p. p.1) whole)
