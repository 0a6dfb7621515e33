-- ===== src/Base/Keeps.antt =====
-- Invariants of actions, whether they return or raise: one rule for each way to build an action.
use mathlib.Core.Bool.{Bool, true, false}
use python_fullstack.Base.Exec.{Exec, Result, ok, err, pure, lift, guard, continue, ◌>>=◌}

pub record Keeps (E S A : Type 0) (P : S → Type 0) (m : Exec E S A) : Type 0 where
  pub at : (s : S) → P s → P (m s).1

module _ {E S A : Type 0} {P : S → Type 0} where
  pub Keeps-pure : (a : A) → Keeps E S A P (pure a)
  Keeps-pure a = record { at = λ s h. h }

  pub Keeps-lift : (r : Result E A) → Keeps E S A P (lift r)
  Keeps-lift r = record { at = λ s h. h }

module _ {E S : Type 0} {P : S → Type 0} where
  pub Keeps-guard : (b : Bool) (e : E) → Keeps E S Unit P (guard b e)
  Keeps-guard true e = record { at = λ s h. h }
  Keeps-guard false e = record { at = λ s h. h }

module _ {E S A B : Type 0} {P : S → Type 0} where
  Keeps-continue :
      (r : Result E A) (f : A → Exec E S B)
      → ((a : A) → Keeps E S B P (f a))
      → (s : S) → P s
      → P (continue r f s).1
  Keeps-continue (ok a) f kf s h = (kf a).at s h
  Keeps-continue (err e) f kf s h = h

  pub Keeps-bind :
      (m : Exec E S A) (f : A → Exec E S B)
      → Keeps E S A P m
      → ((a : A) → Keeps E S B P (f a))
      → Keeps E S B P (m >>= f)
  Keeps-bind m f km kf = record { at = λ s h. Keeps-continue (m s).0 f kf (m s).1 (km.at s h) }

pub ruleset keeps_rules = (Keeps-pure, Keeps-lift, Keeps-guard, Keeps-bind)
