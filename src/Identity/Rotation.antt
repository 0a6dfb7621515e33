-- ===== src/Identity/Rotation.antt =====
-- Families of refresh tokens: how many tokens of a family are live, and what the updates do to it.
pub mod Families
pub mod Exchange
pub mod Spent
pub mod Replay
use text.Mathlib.Text.{◌==◌ as str_eq}
use text.Mathlib.TextEquality.{eq_iff}
use python_fullstack.Base.{
  ℕ, ◌+◌, ◌≤◌, ◌≡◌, refl, Bool, true, false, ◌&&◌, Option, none, some, List, [], ◌∷◌, String, arith,
  ◌==◌, if◌then◌else◌,
}
use python_fullstack.Identity.Model.{RefreshToken, is_active}
use python_fullstack.Identity.Repository.{get_by_hash, revoke, revoke_family, revoke_all_for_user}

abbrev pub live : ℕ → List RefreshToken → ℕ
live f [] = 0
live f (t ∷ ts) = (if (t.family_id == f) && is_active t then 1 else 0) + live f ts

abbrev pub live_of_user : ℕ → List RefreshToken → ℕ
live_of_user u [] = 0
live_of_user u (t ∷ ts) = (if (t.user_id == u) && is_active t then 1 else 0) + live_of_user u ts

pub live-revoke_family_same :
    (now f : ℕ) (ts : List RefreshToken) → live f (revoke_family now f ts) ≡ 0
unfolding revoke_family
live-revoke_family_same now f [] = refl
live-revoke_family_same now f (t ∷ ts) = ground (arith, live-revoke_family_same now f ts)

pub live-revoke_family :
    (now f g : ℕ) (ts : List RefreshToken) → live g (revoke_family now f ts) ≤ live g ts
unfolding revoke_family
live-revoke_family now f g [] = omega arith
live-revoke_family now f g (t ∷ ts) = ground (arith, live-revoke_family now f g ts)

pub live-revoke : (now i r g : ℕ) (ts : List RefreshToken) → live g (revoke now i r ts) ≤ live g ts
unfolding revoke
live-revoke now i r g [] = omega arith
live-revoke now i r g (t ∷ ts) = ground (arith, live-revoke now i r g ts)

pub live-revoke_all :
    (now u g : ℕ) (ts : List RefreshToken) → live g (revoke_all_for_user now u ts) ≤ live g ts
unfolding revoke_all_for_user
live-revoke_all now u g [] = omega arith
live-revoke_all now u g (t ∷ ts) = ground (arith, live-revoke_all now u g ts)

pub live_of_user-revoke_all :
    (now u : ℕ) (ts : List RefreshToken) → live_of_user u (revoke_all_for_user now u ts) ≡ 0
unfolding revoke_all_for_user
live_of_user-revoke_all now u [] = refl
live_of_user-revoke_all now u (t ∷ ts) = ground (arith, live_of_user-revoke_all now u ts)

-- Revoking a live row that the table has takes one off its family.
pub live-revoke_found :
    (now r : ℕ) (hash : String) (ts : List RefreshToken) {t : RefreshToken}
    → get_by_hash hash ts ≡ some t
    → is_active t ≡ true
    → live t.family_id (revoke now t.id r ts) + 1 ≤ live t.family_id ts
unfolding get_by_hash revoke
live-revoke_found now r hash [] h k = cc
live-revoke_found now r hash (u ∷ us) {t} h k =
    ground (arith, live-revoke_found now r hash us {t = t}, live-revoke now t.id r t.family_id us)
