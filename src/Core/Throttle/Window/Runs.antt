-- ===== src/Core/Throttle/Window/Runs.antt =====
-- Runs of hits on the rate limiter, and the hit that opens a window.
use text.Mathlib.Text.{◌==◌ as str_eq}
use text.Mathlib.TextEquality.{eq_iff}
use native.Mathlib.Nat.{add-zero}
use mathlib.Core.Bool.{false≢true}
use text.Mathlib.TextPositions.{eq_refl}
use python_fullstack.Base.{
  ℕ, ◌+◌, ◌≤◌, ◌<◌, ◌≡◌, refl, sym, ◌∙◌, Bool, true, Option, none, some, List, [], ◌∷◌, String,
  arith, length, if◌then◌else◌, Bool-cases, Option-cases, inl, inr,
}
use python_fullstack.Base.Assoc.{Dict, lookup, lookup-put}
use python_fullstack.Core.Throttle.{
  LocalTtlStore, expired_keys, sweep, contains, open_window, increment,
}
use python_fullstack.Core.Throttle.Sweep.{among, expiry-forget_all, lookup-pop_all}
use python_fullstack.Core.Throttle.Window.{
  sweep-small, HasRoom, Window, increment_counts, increment-Window_ne, increment-HasRoom,
}

unfoldable pub run_hits : ℕ → List (ℕ × String) → LocalTtlStore → LocalTtlStore
run_hits ttl [] s = s
run_hits ttl ((now, key) ∷ hits) s = run_hits ttl hits (increment now key ttl s).1

abbrev pub hits_on : String → List (ℕ × String) → ℕ
hits_on key [] = 0
hits_on key ((now, k) ∷ hits) = if str_eq k key then hits_on key hits + 1 else hits_on key hits

abbrev pub AllBefore : ℕ → List (ℕ × String) → Type 0
AllBefore at [] = Unit {0}
AllBefore at ((now, key) ∷ hits) = (now < at) × AllBefore at hits

pub HasRoom-weaken : (n : ℕ) (s : LocalTtlStore) → HasRoom n s → HasRoom 0 s
HasRoom-weaken n s h = record { room = omega (arith, h.room); distinct = h.distinct }

hit-Window :
    (now : ℕ) (k key : String) (ttl at n : ℕ) (s : LocalTtlStore)
    → HasRoom 0 s
    → now < at
    → Window key at n s
    → Window key at (if str_eq k key then n + 1 else n) (increment now k ttl s).1
hit-Window now k key ttl at n s room live w = elim (Bool-cases (str_eq k key)) [
  | inl e ↦ rw (e, (eq_iff k key).0 e) ((increment_counts now key ttl at n s room live w).1)
  | inr e ↦ rw e (
      increment-Window_ne now k key ttl at n s room
        (λ same. false≢true (sym e ∙ (eq_iff k key).1 same)) live w)
]

add_hit : (b : Bool) (n m : ℕ) → (if b then n + 1 else n) + m ≡ n + (if b then m + 1 else m)
add_hit b n m = ground arith

pub run_hits-HasRoom :
    (ttl : ℕ) (hits : List (ℕ × String)) (s : LocalTtlStore)
    → HasRoom (length hits) s
    → HasRoom 0 (run_hits ttl hits s)
unfolding run_hits
run_hits-HasRoom ttl [] s h = h
run_hits-HasRoom ttl ((now, k) ∷ hits) s h = run_hits-HasRoom ttl hits (increment now k ttl s).1 (
    increment-HasRoom now k ttl (length hits) s
      (record { room = omega (arith, h.room); distinct = h.distinct }))

-- While a key's window is open and there is room for every key that is hit, the count of the key is
-- the number of its own hits, however they are mixed with hits on other keys.
pub run_hits-Window :
    (ttl : ℕ) (hits : List (ℕ × String)) (key : String) (at n : ℕ) (s : LocalTtlStore)
    → HasRoom (length hits) s
    → AllBefore at hits
    → Window key at n s
    → Window key at (n + hits_on key hits) (run_hits ttl hits s)
unfolding run_hits
run_hits-Window ttl [] key at n s room before w = rw add-zero w
run_hits-Window ttl ((now, k) ∷ hits) key at n s room before w =
    let ih =
      run_hits-Window ttl hits key at (if str_eq k key then n + 1 else n) (increment now k ttl s).1
        (increment-HasRoom now k ttl (length hits) s
          (record { room = omega (arith, room.room); distinct = room.distinct }))
        before.1 (hit-Window now k key ttl at n s (HasRoom-weaken _ s room) before.0 w) in
    rw (← add_hit (str_eq k key) n (hits_on key hits)) ih

expired_test :
    (now : ℕ) (key : String) (d : Dict ℕ) (at : ℕ)
    → lookup key d ≡ some at
    → at ≤ now
    → among (expired_keys now d) key ≡ true
unfolding lookup expired_keys
expired_test now key [] at h l = cc
expired_test now key ((j, w) ∷ d) at h l = ground (arith, expired_test now key d at)

-- No window of the key is open: it has no entry, or one that has expired.
abbrev pub IsClosed : String → ℕ → LocalTtlStore → Type 0
IsClosed key now s = (at : ℕ) → lookup key s.expiry ≡ some at → at ≤ now

if_same : (b : Bool) → ◌≡◌ {A = Option ℕ} (if b then none else none) none
if_same b = ground arith

sweep-closed :
    (now : ℕ) (key : String) (s : LocalTtlStore)
    → HasRoom 0 s
    → IsClosed key now s
    → lookup key (sweep now s).expiry ≡ none
sweep-closed now key s room closed =
    rw (sweep-small now s (omega (arith, room.room)), expiry-forget_all, lookup-pop_all)
      (elim (Option-cases (lookup key s.expiry)) [
        | inl e ↦ rw e (if_same (among (expired_keys now s.expiry) key))
        | inr (at, e) ↦ rw (expired_test now key s.expiry at e (closed at e)) refl
      ])

-- The first hit of a key opens a window that lasts `ttl`, with a count of one.
pub increment_opens :
    (now : ℕ) (key : String) (ttl : ℕ) (s : LocalTtlStore)
    → HasRoom 0 s
    → IsClosed key now s
    → ((increment now key ttl s).0 ≡ 1) × Window key (now + ttl) 1 (increment now key ttl s).1
unfolding increment contains open_window
increment_opens now key ttl s room closed =
    rw (sweep-closed now key s room closed, lookup-put, eq_refl key)
      (
        refl,
        record {
          until = rw (lookup-put, eq_refl key) refl;
          counted = rw (lookup-put, eq_refl key) refl;
        },
      )
