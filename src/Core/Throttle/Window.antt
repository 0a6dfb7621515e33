-- ===== src/Core/Throttle/Window.antt =====
-- The counters of the in-process rate limiter: a fixed window, kept apart for each key.
pub mod Runs
use text.Mathlib.Text.{◌==◌ as str_eq}
use text.Mathlib.TextEquality.{eq_iff}
use native.Mathlib.Nat.{add-zero}
use mathlib.Core.Bool.{false≢true}
use text.Mathlib.TextPositions.{eq_refl}
use python_fullstack.Base.{
  ℕ, ◌+◌, ◌≤◌, ◌<◌, ◌≡◌, ◌≢◌, refl, sym, ◌∙◌, Bool, true, false, Option, none, some, List, [], ◌∷◌,
  String, arith, length, leb, if◌then◌else◌, Bool-cases, Option-cases, inl, inr,
}
use python_fullstack.Base.Assoc.{
  Dict, lookup, put, pop, lookup-pop, lookup-put, length-pop, length-put,
}
use python_fullstack.Core.Throttle.{
  LocalTtlStore, max_local_entries, forget_all, expired_keys, drop_excess, sweep, contains,
  open_window, increment,
}
use python_fullstack.Core.Throttle.Sweep.{
  among, pop_all, expiry-forget_all, counts-forget_all, lookup-pop_all,
}

-- The keys of a `dict` are distinct.
abbrev pub IsDict : Dict ℕ → Type 0
IsDict [] = Unit {0}
IsDict ((k, at) ∷ d) = (lookup k d ≡ none) × IsDict d

pop-IsDict : (k : String) (d : Dict ℕ) → IsDict d → IsDict (pop k d)
unfolding pop
pop-IsDict k [] h = tt
pop-IsDict k ((j, at) ∷ d) h = ground (arith, pop-IsDict k d, lookup-pop k j d)

pop_all-IsDict : (ks : List String) (d : Dict ℕ) → IsDict d → IsDict (pop_all ks d)
unfolding pop_all
pop_all-IsDict [] d h = h
pop_all-IsDict (k ∷ ks) d h = pop_all-IsDict ks (pop k d) (pop-IsDict k d h)

length-pop_all : (ks : List String) (d : Dict ℕ) → length (pop_all ks d) ≤ length d
unfolding pop_all
length-pop_all [] d = omega arith
length-pop_all (k ∷ ks) d = omega (arith, length-pop_all ks (pop k d), length-pop k d)

pub put-IsDict : (k : String) (v : ℕ) (d : Dict ℕ) → IsDict d → IsDict (put k v d)
unfolding put lookup
put-IsDict k v [] h = (refl, tt)
put-IsDict k v ((j, at) ∷ d) h =
    ground (arith, put-IsDict k v d, lookup-put k j v d, eq_iff j k, eq_iff k j)

among-expired_none :
    (now : ℕ) (k : String) (d : Dict ℕ) → lookup k d ≡ none → among (expired_keys now d) k ≡ false
unfolding lookup expired_keys
among-expired_none now k [] h = refl
among-expired_none now k ((j, w) ∷ d) h = ground (arith, among-expired_none now k d)

-- A key whose entry has not expired is not among the expired ones.
pub among-expired_live :
    (now : ℕ) (k : String) (d : Dict ℕ) {at : ℕ}
    → IsDict d
    → lookup k d ≡ some at
    → now < at
    → among (expired_keys now d) k ≡ false
unfolding lookup expired_keys
among-expired_live now k [] u h l = refl
among-expired_live now k ((j, w) ∷ d) {at} u h l =
    ground (arith, among-expired_live now k d {at = at}, among-expired_none now k d, eq_iff j k)

swept_ok : (s : LocalTtlStore) → length s.expiry ≤ max_local_entries → drop_excess s ≡ s
unfolding drop_excess
swept_ok s h = ground arith

pub sweep-small :
    (now : ℕ) (s : LocalTtlStore)
    → length s.expiry ≤ max_local_entries
    → sweep now s ≡ forget_all (expired_keys now s.expiry) s
unfolding sweep
sweep-small now s small =
    swept_ok (forget_all (expired_keys now s.expiry) s)
      (rw expiry-forget_all (omega (arith, length-pop_all (expired_keys now s.expiry) s.expiry)))

-- A store with room, whose keys are distinct.
pub record HasRoom (n : ℕ) (s : LocalTtlStore) : Type 0 where
  pub room : length s.expiry + n ≤ max_local_entries
  pub distinct : IsDict s.expiry

pub sweep-HasRoom : (now n : ℕ) (s : LocalTtlStore) → HasRoom n s → HasRoom n (sweep now s)
sweep-HasRoom now n s h =
    let ks = expired_keys now s.expiry in
    rw (sweep-small now s (omega (arith, h.room))) (record {
      room = rw expiry-forget_all (omega (arith, h.room, length-pop_all ks s.expiry));
      distinct = rw expiry-forget_all (pop_all-IsDict ks s.expiry h.distinct);
    })

-- The window of a key: it is open until `at` and has counted `n`.
pub record Window (key : String) (at n : ℕ) (s : LocalTtlStore) : Type 0 where
  pub until : lookup key s.expiry ≡ some at
  pub counted : lookup key s.counts ≡ some n

sweep-Window :
    (now : ℕ) (key : String) (at n : ℕ) (s : LocalTtlStore)
    → HasRoom 0 s
    → now < at
    → Window key at n s
    → Window key at n (sweep now s)
sweep-Window now key at n s room live w =
    let ks = expired_keys now s.expiry in
    let kept = among-expired_live now key s.expiry room.distinct w.until live in
    rw (sweep-small now s (omega (arith, room.room))) (record {
      until = rw (expiry-forget_all, lookup-pop_all, kept) w.until;
      counted = rw (counts-forget_all, lookup-pop_all, kept) w.counted;
    })

contains-Window :
    (now : ℕ) (key : String) (at n : ℕ) (s : LocalTtlStore)
    → now < at
    → Window key at n s
    → contains now key s ≡ (true, s)
unfolding contains
contains-Window now key at n s live w = rw w.until (rw (live_test now at live) refl)
  where
    live_test : (a b : ℕ) → a < b → leb b a ≡ false
    live_test a b h = ground arith

-- A hit inside an open window counts one up and leaves the end of the window.
pub increment_counts :
    (now : ℕ) (key : String) (ttl at n : ℕ) (s : LocalTtlStore)
    → HasRoom 0 s
    → now < at
    → Window key at n s
    → ((increment now key ttl s).0 ≡ n + 1) × Window key at (n + 1) (increment now key ttl s).1
unfolding increment
increment_counts now key ttl at n s room live w =
    let v = sweep-Window now key at n s room live w in
    rw (contains-Window now key at n (sweep now s) live v) (
      unfold open_window in
      rw v.counted (refl, record { until = v.until; counted = rw (lookup-put, eq_refl key) refl }))

open_window-Window :
    (now : ℕ) (key other : String) (ttl at n : ℕ) (p : Bool × LocalTtlStore)
    → key ≢ other
    → Window other at n p.1
    → Window other at n (open_window now key ttl p)
unfolding open_window
open_window-Window now key other ttl at n (true, s) ne w = w
open_window-Window now key other ttl at n (false, s) ne w = ground (
  arith,
  eq_iff key other,
  lookup-put key other (now + ttl) s.expiry,
  lookup-put key other 0 s.counts,
)

contains-Window_ne :
    (now : ℕ) (key other : String) (at n : ℕ) (s : LocalTtlStore)
    → key ≢ other
    → Window other at n s
    → Window other at n (contains now key s).1
unfolding contains
contains-Window_ne now key other at n s ne w =
    ground (arith, eq_iff key other, lookup-pop key other s.expiry, lookup-pop key other s.counts)

count-Window_ne :
    (key other : String) (m at n : ℕ) (s : LocalTtlStore)
    → key ≢ other
    → Window other at n s
    → Window other at n (record s { counts = put key m s.counts })
count-Window_ne key other m at n s ne w =
    ground (arith, eq_iff key other, lookup-put key other m s.counts)

-- A hit on one key leaves the open windows of the others alone.
pub increment-Window_ne :
    (now : ℕ) (key other : String) (ttl at n : ℕ) (s : LocalTtlStore)
    → HasRoom 0 s
    → key ≢ other
    → now < at
    → Window other at n s
    → Window other at n (increment now key ttl s).1
unfolding increment
increment-Window_ne now key other ttl at n s room ne live w =
    count-Window_ne key other _ at n (open_window now key ttl (contains now key (sweep now s))) ne (
      open_window-Window now key other ttl at n (contains now key (sweep now s)) ne (
        contains-Window_ne now key other at n (sweep now s) ne
          (sweep-Window now other at n s room live w)))

open_window-HasRoom :
    (now : ℕ) (key : String) (ttl n : ℕ) (p : Bool × LocalTtlStore)
    → HasRoom (n + 1) p.1
    → HasRoom n (open_window now key ttl p)
unfolding open_window
open_window-HasRoom now key ttl n (true, s) h = record {
  room = omega (arith, h.room);
  distinct = h.distinct;
}
open_window-HasRoom now key ttl n (false, s) h = record {
  room = omega (arith, h.room, length-put key (now + ttl) s.expiry);
  distinct = put-IsDict key (now + ttl) s.expiry h.distinct;
}

pub contains-HasRoom :
    (now : ℕ) (key : String) (n : ℕ) (s : LocalTtlStore)
    → HasRoom n s
    → HasRoom n (contains now key s).1
unfolding contains
contains-HasRoom now key n s h =
    ground (arith, length-pop key s.expiry, pop-IsDict key s.expiry h.distinct)

pub increment-HasRoom :
    (now : ℕ) (key : String) (ttl n : ℕ) (s : LocalTtlStore)
    → HasRoom (n + 1) s
    → HasRoom n (increment now key ttl s).1
unfolding increment
increment-HasRoom now key ttl n s h =
    let v =
      open_window-HasRoom now key ttl n (contains now key (sweep now s))
        (contains-HasRoom now key (n + 1) (sweep now s) (sweep-HasRoom now (n + 1) s h)) in
    record { room = v.room; distinct = v.distinct }

-- Hits on many keys, in order.
