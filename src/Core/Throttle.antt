-- ===== src/Core/Throttle.antt =====
-- backend/app/core/throttle.py: the in-process store with expiry, the denylist, the rate limiter and
-- the idempotency keys. `time.monotonic()` is an argument `now`; Redis is a parameter.
pub mod Sweep
pub mod Window
pub mod Limiter
pub mod Bound
use python_fullstack.Base.{
  ℕ, ◌+◌, ◌-◌, Bool, true, false, Option, none, some, List, [], ◌∷◌, String, length, take, ltb, leb,
  if◌then◌else◌,
}
use python_fullstack.Base.Assoc.{Dict, lookup, put, pop}

abbrev pub max_local_entries : ℕ
max_local_entries = 50000

-- `_LocalTTLStore`
pub record LocalTtlStore : Type 0 where
  pub expiry : Dict ℕ
  pub counts : Dict ℕ

abbrev pub empty_store : LocalTtlStore
empty_store = record { expiry = []; counts = [] }

-- `pop` of both
unfoldable pub forget : String → LocalTtlStore → LocalTtlStore
forget key s = record { expiry = pop key s.expiry; counts = pop key s.counts }

-- `[key for key, at in self._expiry.items() if at <= now]`
unfoldable pub expired_keys : ℕ → Dict ℕ → List String
expired_keys now [] = []
expired_keys now ((key, at) ∷ rest) =
    let keys = expired_keys now rest in if leb at now then key ∷ keys else keys

unfoldable pub forget_all : List String → LocalTtlStore → LocalTtlStore
unfolding forget
forget_all [] s = s
forget_all (key ∷ keys) s = forget_all keys (forget key s)

-- `sorted(self._expiry.items(), key=lambda kv: kv[1])`, a stable sort
unfoldable pub insert_entry : String → ℕ → Dict ℕ → Dict ℕ
insert_entry key at [] = (key, at) ∷ []
insert_entry key at ((j, w) ∷ rest) =
    let below = insert_entry key at rest in
    if leb at w then (key, at) ∷ (j, w) ∷ rest else (j, w) ∷ below

unfoldable pub by_expiry : Dict ℕ → Dict ℕ
unfolding insert_entry
by_expiry [] = []
by_expiry ((key, at) ∷ rest) = insert_entry key at (by_expiry rest)

unfoldable pub keys_of : Dict ℕ → List String
keys_of [] = []
keys_of ((key, at) ∷ rest) = key ∷ keys_of rest

unfoldable pub drop_excess : LocalTtlStore → LocalTtlStore
unfolding by_expiry keys_of forget_all
drop_excess s =
    if ltb max_local_entries (length s.expiry)
    then forget_all (keys_of (take (length s.expiry - max_local_entries) (by_expiry s.expiry))) s
    else s

-- `_sweep`
unfoldable pub sweep : ℕ → LocalTtlStore → LocalTtlStore
unfolding expired_keys forget_all drop_excess
sweep now s = drop_excess (forget_all (expired_keys now s.expiry) s)

unfoldable pub add : ℕ → String → ℕ → LocalTtlStore → LocalTtlStore
unfolding sweep
add now key ttl s = let t = sweep now s in record t { expiry = put key (now + ttl) t.expiry }

-- what `contains` does with `self._expiry.get(key)`
abbrev pub contains_at : ℕ → String → Option ℕ → LocalTtlStore → Bool × LocalTtlStore
contains_at now key none s = (false, s)
contains_at now key (some at) s = if leb at now then (false, forget key s) else (true, s)

unfoldable pub contains : ℕ → String → LocalTtlStore → Bool × LocalTtlStore
unfolding forget
contains now key s = contains_at now key (lookup key s.expiry) s

abbrev pub or_zero : Option ℕ → ℕ
or_zero none = 0
or_zero (some n) = n

-- `if not self.contains(key): ...`
unfoldable pub open_window : ℕ → String → ℕ → Bool × LocalTtlStore → LocalTtlStore
open_window now key ttl (true, s) = s
open_window now key ttl (false, s) = record {
  expiry = put key (now + ttl) s.expiry;
  counts = put key 0 s.counts;
}

unfoldable pub increment : ℕ → String → ℕ → LocalTtlStore → ℕ × LocalTtlStore
unfolding sweep contains open_window
increment now key ttl s =
    let t = open_window now key ttl (contains now key (sweep now s)) in
    let n = or_zero (lookup key t.counts) + 1 in (n, record t { counts = put key n t.counts })

unfoldable pub reset : String → LocalTtlStore → LocalTtlStore
unfolding forget
reset key s = forget key s
