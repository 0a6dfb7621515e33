-- ===== src/Core/Throttle/Limiter.antt =====
-- `RateLimiter`, `TokenDenylist` and `IdempotencyStore` of core/throttle.py. What Redis answers is
-- an argument, and `none` is a RedisError.
pub mod Recall
use text.Mathlib.TextPositions.{eq_refl}
use python_fullstack.Base.{
  ℕ, ◌+◌, ◌*◌, ◌<◌, ◌≡◌, refl, ap, ◌∙◌, Bool, true, false, not, ◌&&◌, ◌==◌, Option, none, some,
  List, String, arith, length, ltb, leb, if◌then◌else◌,
}
use python_fullstack.Base.Assoc.{Dict, lookup, put, lookup-put}
use python_fullstack.Core.Throttle.{LocalTtlStore, add, contains, increment}
use python_fullstack.Core.Throttle.Window.{HasRoom, increment_counts, increment-HasRoom}
use python_fullstack.Core.Throttle.Window.Runs.{
  IsClosed, AllBefore, hits_on, run_hits, increment_opens, run_hits-HasRoom, run_hits-Window,
  HasRoom-weaken,
}

pub record RateLimit : Type 0 where
  pub limit : ℕ
  pub window_seconds : ℕ

abbrev pub login_per_account : RateLimit
login_per_account = record { limit = 10; window_seconds = 300 }

abbrev pub login_per_ip : RateLimit
login_per_ip = record { limit = 30; window_seconds = 300 }

abbrev pub refresh_per_account : RateLimit
refresh_per_account = record { limit = 60; window_seconds = 300 }

-- `RateLimiter.hit`, with the reply of INCR and whether the EXPIRE after a first hit went through.
-- The key is that of `CacheKey.rate_limit`.
abbrev decide : RateLimit → ℕ → Bool × ℕ
decide rule count = (leb count rule.limit, count)

unfoldable pub hit_local : ℕ → String → RateLimit → LocalTtlStore → (Bool × ℕ) × LocalTtlStore
hit_local now key rule s =
    let (count, t) = increment now key rule.window_seconds s in (decide rule count, t)

unfoldable pub hit :
    Option ℕ → Bool → ℕ → String → RateLimit → LocalTtlStore → (Bool × ℕ) × LocalTtlStore
unfolding hit_local
hit none expires now key rule s = hit_local now key rule s
hit (some count) expires now key rule s =
    if (count == 1) && not expires then hit_local now key rule s else (decide rule count, s)

-- `TokenDenylist.add`: the local copy is written first, whatever becomes of the shared one.
unfoldable pub deny : ℕ → String → ℕ → LocalTtlStore → LocalTtlStore
unfolding add
deny now key ttl s = add now key ttl s

abbrev shared_exists : Option ℕ → Bool
shared_exists none = false
shared_exists (some n) = ltb 0 n

-- `TokenDenylist.contains`, with the reply of EXISTS
unfoldable pub is_denied : Option ℕ → ℕ → String → LocalTtlStore → Bool × LocalTtlStore
unfolding contains
is_denied reply now key s =
    let (here, t) = contains now key s in (if here then true else shared_exists reply, t)

-- `IdempotencyStore`: the store, and `_local_values` beside it.
pub record Remembered : Type 0 where
  pub store : LocalTtlStore
  pub values : Dict String

abbrev pub ttl_seconds : ℕ
ttl_seconds = 24 * 60 * 60

unfoldable pub remember : ℕ → String → String → Remembered → Remembered
unfolding add
remember now key value m = record {
  store = add now key ttl_seconds m.store;
  values = put key value m.values;
}

-- `IdempotencyStore.get`: `reply` is `none` when the read raised, and then what Redis holds.
abbrev local_value : Bool → Option String → Option String
local_value true v = v
local_value false v = none

-- `contains` takes an expired key out of the store.
abbrev recall_local : ℕ → String → Remembered → Option String × Remembered
recall_local now key m =
    let (here, t) = contains now key m.store in
    (local_value here (lookup key m.values), record m { store = t })

unfoldable pub recall :
    Option (Option String) → ℕ → String → Remembered → Option String × Remembered
unfolding contains
recall (some (some v)) now key m = (some v, m)
recall _ now key m = recall_local now key m

-- With Redis down, a window of hits admits exactly the first `limit` of a key: after the hit that
-- opens the window and any hits on any keys before the window's end, the next hit before that end is
-- allowed if and only if the key's hits up to it, itself included, are at most `limit`. The store is
-- to have room for these hits, and the key no window that is still open.
pub limit_exact :
    (rule : RateLimit) (key : String) (start now : ℕ) (hits : List (ℕ × String)) (s : LocalTtlStore)
    → HasRoom (length hits + 1) s
    → IsClosed key start s
    → AllBefore (start + rule.window_seconds) hits
    → now < start + rule.window_seconds
    → (hit_local now key rule (run_hits rule.window_seconds hits (hit_local start key rule s).1)).0
      ≡ (leb (hits_on key hits + 2) rule.limit, hits_on key hits + 2)
unfolding hit_local
limit_exact rule key start now hits s room closed before inside =
    let w = rule.window_seconds in
    let (first, opened) = increment_opens start key w s (HasRoom-weaken _ s room) closed in
    let s1 = (increment start key w s).1 in
    let room1 = increment-HasRoom start key w (length hits) s room in
    let counted = run_hits-Window w hits key (start + w) 1 s1 room1 before opened in
    let (last, after) =
      increment_counts now key w (start + w) (1 + hits_on key hits) (run_hits w hits s1)
        (run_hits-HasRoom w hits s1 room1) inside counted in
    ap (decide rule) (last ∙ omega arith)

-- A token that was denied stays denied on this instance until its time is over, whatever Redis
-- answers.
pub is_denied_after_deny :
    (reply : Option ℕ) (start now : ℕ) (key : String) (ttl : ℕ) (s : LocalTtlStore)
    → now < start + ttl
    → (is_denied reply now key (deny start key ttl s)).0 ≡ true
unfolding is_denied deny
is_denied_after_deny reply start now key ttl s h = rw (lookup-put, eq_refl key) (ground arith)
