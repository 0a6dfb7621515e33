-- ===== src/Core/Throttle/Sweep.antt =====
-- What `_sweep` removes and what it keeps.
use text.Mathlib.Text.{◌==◌ as str_eq}
use text.Mathlib.TextEquality.{eq_iff}
use text.Mathlib.TextPositions.{eq_refl}
use python_fullstack.Base.{
  ℕ, zero, suc, ◌+◌, ◌-◌, ◌≤◌, ◌≡◌, refl, sym, ap, ◌∙◌, Bool, true, false, ◌||◌, none, List, [],
  ◌∷◌, String, arith, length, take, ltb, ltb→lt, if◌then◌else◌, Bool-cases, inl, inr,
}
use python_fullstack.Base.Assoc.{Dict, lookup, pop, lookup-pop}
use python_fullstack.Core.Throttle.{
  LocalTtlStore, max_local_entries, forget, forget_all, insert_entry, by_expiry, keys_of,
  drop_excess,
}

abbrev pub among : List String → String → Bool
among [] k = false
among (j ∷ js) k = str_eq j k || among js k

unfoldable pub pop_all : List String → Dict ℕ → Dict ℕ
pop_all [] d = d
pop_all (k ∷ ks) d = pop_all ks (pop k d)

pub expiry-forget_all :
    (ks : List String) (s : LocalTtlStore) → (forget_all ks s).expiry ≡ pop_all ks s.expiry
unfolding forget_all pop_all
expiry-forget_all [] s = refl
expiry-forget_all (k ∷ ks) s = expiry-forget_all ks (forget k s)

pub counts-forget_all :
    (ks : List String) (s : LocalTtlStore) → (forget_all ks s).counts ≡ pop_all ks s.counts
unfolding forget_all pop_all
counts-forget_all [] s = refl
counts-forget_all (k ∷ ks) s = counts-forget_all ks (forget k s)

pub lookup-pop_all :
    (ks : List String) (k : String) (d : Dict ℕ)
    → lookup k (pop_all ks d) ≡ (if among ks k then none else lookup k d)
unfolding pop_all
lookup-pop_all [] k d = refl
lookup-pop_all (j ∷ js) k d = ground (arith, lookup-pop_all js k (pop j d), lookup-pop j k d)

-- The entries whose key is not removed.
survivors : List String → Dict ℕ → Dict ℕ
survivors ks [] = []
survivors ks ((k, at) ∷ d) =
    let rest = survivors ks d in if among ks k then rest else (k, at) ∷ rest

survivors-nil : (d : Dict ℕ) → survivors [] d ≡ d
unfolding survivors
survivors-nil [] = refl
survivors-nil ((k, at) ∷ d) = ap (λ r. (k, at) ∷ r) (survivors-nil d)

survivors-pop :
    (k : String) (ks : List String) (d : Dict ℕ) → survivors ks (pop k d) ≡ survivors (k ∷ ks) d
unfolding survivors pop
survivors-pop k ks [] = refl
survivors-pop k ks ((j, at) ∷ d) = ground (arith, survivors-pop k ks d, eq_iff j k, eq_iff k j)

pop_all-survivors : (ks : List String) (d : Dict ℕ) → pop_all ks d ≡ survivors ks d
unfolding pop_all
pop_all-survivors [] d = sym (survivors-nil d)
pop_all-survivors (k ∷ ks) d = pop_all-survivors ks (pop k d) ∙ survivors-pop k ks d

length-survivors-insert :
    (ks : List String) (k : String) (at : ℕ) (d : Dict ℕ)
    → length (survivors ks (insert_entry k at d)) ≡ length (survivors ks ((k, at) ∷ d))
unfolding survivors insert_entry
length-survivors-insert ks k at [] = refl
length-survivors-insert ks k at ((j, w) ∷ d) = ground (arith, length-survivors-insert ks k at d)

length-survivors-cons :
    (ks : List String) (k : String) (at : ℕ) (d e : Dict ℕ)
    → length (survivors ks d) ≡ length (survivors ks e)
    → length (survivors ks ((k, at) ∷ d)) ≡ length (survivors ks ((k, at) ∷ e))
unfolding survivors
length-survivors-cons ks k at d e h = ground arith

length-survivors-sorted :
    (ks : List String) (d : Dict ℕ) → length (survivors ks (by_expiry d)) ≡ length (survivors ks d)
unfolding by_expiry
length-survivors-sorted ks [] = refl
length-survivors-sorted ks ((k, at) ∷ d) =
    length-survivors-insert ks k at (by_expiry d)
    ∙ length-survivors-cons ks k at (by_expiry d) d (length-survivors-sorted ks d)

abbrev AllAmong : List String → List String → Type 0
AllAmong ks [] = Unit {0}
AllAmong ks (j ∷ js) = (among ks j ≡ true) × AllAmong ks js

AllAmong-cons : (k : String) (ks js : List String) → AllAmong ks js → AllAmong (k ∷ ks) js
AllAmong-cons k ks [] h = tt
AllAmong-cons k ks (j ∷ js) h = (ground arith, AllAmong-cons k ks js h.1)

AllAmong-self : (ks : List String) → AllAmong ks ks
AllAmong-self [] = tt
AllAmong-self (k ∷ ks) = (rw (eq_refl k) refl, AllAmong-cons k ks ks (AllAmong-self ks))

length-survivors-take :
    (n : ℕ) (ks : List String) (d : Dict ℕ)
    → AllAmong ks (keys_of (take n d))
    → n ≤ length d
    → length (survivors ks d) + n ≤ length d
unfolding survivors keys_of
length-survivors-take zero ks [] h m = omega arith
length-survivors-take zero ks ((k, at) ∷ d) h m = ground (arith, length-survivors-take zero ks d tt)
length-survivors-take (suc n) ks [] h m = omega arith
length-survivors-take (suc n) ks ((k, at) ∷ d) h m = ground (arith, length-survivors-take n ks d)

length-by_expiry : (d : Dict ℕ) → length (by_expiry d) ≡ length d
length-by_expiry d =
    sym (ap length (survivors-nil (by_expiry d)))
    ∙ length-survivors-sorted [] d
    ∙ ap length (survivors-nil d)

not_ltb : (a b : ℕ) → ltb a b ≡ false → b ≤ a
not_ltb a b h = ground arith

-- The keys that are dropped when there are too many.
abbrev excess : LocalTtlStore → List String
excess s = keys_of (take (length s.expiry - max_local_entries) (by_expiry s.expiry))

-- The drop leaves at most the bound.
pub length-drop_excess : (s : LocalTtlStore) → length (drop_excess s).expiry ≤ max_local_entries
unfolding drop_excess
length-drop_excess s = elim (Bool-cases (ltb max_local_entries (length s.expiry))) [
  | inr fits ↦ rw fits (not_ltb max_local_entries (length s.expiry) fits)
  | inl over ↦
      rw (over, expiry-forget_all)
        (omega (
          arith,
          ltb→lt max_local_entries (length s.expiry) over,
          ap length (pop_all-survivors (excess s) s.expiry),
          length-survivors-sorted (excess s) s.expiry,
          length-by_expiry s.expiry,
          length-survivors-take (length s.expiry - max_local_entries) (excess s)
              (by_expiry s.expiry) (AllAmong-self (excess s)) (rw length-by_expiry (omega arith)),
        ))
]
