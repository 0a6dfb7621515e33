-- ===== src/Core/Throttle/Limiter/Recall.antt =====
-- What the idempotency store still holds after other uses of the in-process store, which it shares with
-- the rate limiter and the denylist.
use python_fullstack.Base.{ℕ, ◌<◌, ◌≡◌, ◌≢◌, some, List, [], ◌∷◌, String}
use python_fullstack.Base.Assoc.{lookup}
use python_fullstack.Core.Throttle.{contains, increment}
use python_fullstack.Core.Throttle.Limiter.{Remembered, remember, deny}

-- The uses of the store, each at a time and on a key
pub data Use : Type 0 where
  hit : ℕ → String → ℕ → Use
  denied : ℕ → String → ℕ → Use
  looked : ℕ → String → Use
  kept : ℕ → String → String → Use

abbrev time_of : Use → ℕ
time_of (hit now k ttl) = now
time_of (denied now k ttl) = now
time_of (looked now k) = now
time_of (kept now k v) = now

abbrev key_of : Use → String
key_of (hit now k ttl) = k
key_of (denied now k ttl) = k
key_of (looked now k) = k
key_of (kept now k v) = k

abbrev apply : Use → Remembered → Remembered
apply (hit now k ttl) m = record m { store = (increment now k ttl m.store).1 }
apply (denied now k ttl) m = record m { store = deny now k ttl m.store }
apply (looked now k) m = record m { store = (contains now k m.store).1 }
apply (kept now k v) m = remember now k v m

abbrev pub apply_all : List Use → Remembered → Remembered
apply_all [] m = m
apply_all (u ∷ us) m = apply_all us (apply u m)

-- Uses of other keys, before a time
abbrev pub AreOthers : String → ℕ → List Use → Type 0
AreOthers key at [] = Unit {0}
AreOthers key at (u ∷ us) = (key_of u ≢ key) × (time_of u < at) × AreOthers key at us

-- The store holds the value of the key until the time.
pub record Holds (key value : String) (at : ℕ) (m : Remembered) : Type 0 where
  pub until : lookup key m.store.expiry ≡ some at
  pub held : lookup key m.values ≡ some value
