-- ===== src/Core/Throttle/Bound.antt =====
-- The in-process store stays bounded, whatever is asked of it.
use python_fullstack.Base.{
  ℕ, ◌+◌, ◌≤◌, Bool, true, false, Option, none, some, List, [], ◌∷◌, String, arith, length,
}
use python_fullstack.Base.Assoc.{lookup, length-put, length-pop}
use python_fullstack.Core.Throttle
use python_fullstack.Core.Throttle.{
  LocalTtlStore, max_local_entries, forget, forget_all, expired_keys, sweep, contains_at,
  open_window, empty_store,
}
use python_fullstack.Core.Throttle.Sweep.{length-drop_excess}

-- A call of the store, at a time.
pub data StoreCall : Type 0 where
  add increment : ℕ → String → ℕ → StoreCall
  contains : ℕ → String → StoreCall
  reset : String → StoreCall

unfoldable pub perform : StoreCall → LocalTtlStore → LocalTtlStore
perform (add now key ttl) s = Throttle.add now key ttl s
perform (increment now key ttl) s = (Throttle.increment now key ttl s).1
perform (contains now key) s = (Throttle.contains now key s).1
perform (reset key) s = Throttle.reset key s

unfoldable pub perform_all : List StoreCall → LocalTtlStore → LocalTtlStore
unfolding perform
perform_all [] s = s
perform_all (q ∷ qs) s = perform_all qs (perform q s)

abbrev size : LocalTtlStore → ℕ
size s = length s.expiry

size-sweep : (now : ℕ) (s : LocalTtlStore) → size (sweep now s) ≤ max_local_entries
unfolding sweep
size-sweep now s = length-drop_excess (forget_all (expired_keys now s.expiry) s)

size-forget : (key : String) (s : LocalTtlStore) → size (forget key s) ≤ size s
unfolding forget
size-forget key s = length-pop key s.expiry

size-contains_at :
    (now : ℕ) (key : String) (o : Option ℕ) (s : LocalTtlStore)
    → size (contains_at now key o s).1 ≤ size s
size-contains_at now key none s = omega arith
size-contains_at now key (some at) s = ground (arith, size-forget key s)

size-open_window :
    (now : ℕ) (key : String) (ttl : ℕ) (p : Bool × LocalTtlStore)
    → size (open_window now key ttl p) ≤ size p.1 + 1
unfolding open_window
size-open_window now key ttl (true, s) = omega arith
size-open_window now key ttl (false, s) = length-put key (now + ttl) s.expiry

size-perform :
    (q : StoreCall) (s : LocalTtlStore)
    → size s ≤ max_local_entries + 1
    → size (perform q s) ≤ max_local_entries + 1
unfolding perform
size-perform (add now key ttl) s h =
    unfold Throttle.add in
    omega (arith, size-sweep now s, length-put key (now + ttl) (sweep now s).expiry)
size-perform (increment now key ttl) s h =
    unfold Throttle.increment in
    omega (
      arith,
      size-sweep now s,
      size-contains_at now key (lookup key (sweep now s).expiry) (sweep now s),
      size-open_window now key ttl (Throttle.contains now key (sweep now s)),
    )
size-perform (contains now key) s h =
    unfold Throttle.contains in omega (arith, size-contains_at now key (lookup key s.expiry) s)
size-perform (reset key) s h = unfold Throttle.reset in omega (arith, size-forget key s)

-- However many calls with however many keys, at whatever times, at most one entry more than
-- `MAX_LOCAL_ENTRIES` is ever held.
pub store_bounded :
    (qs : List StoreCall) (s : LocalTtlStore)
    → length s.expiry ≤ max_local_entries + 1
    → length (perform_all qs s).expiry ≤ max_local_entries + 1
unfolding perform_all
store_bounded [] s h = h
store_bounded (q ∷ qs) s h = store_bounded qs (perform q s) (size-perform q s h)
