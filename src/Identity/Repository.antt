-- ===== src/Identity/Repository.antt =====
-- backend/app/modules/identity/repository.py: users and refresh tokens. The rows of `users` are seen
-- and updated under the tenant scope of the transaction.
use text.Mathlib.Text.{◌==◌ as str_eq}
use python_fullstack.Base.{
  ℕ, Bool, false, ◌&&◌, ◌||◌, Option, none, some, List, [], ◌∷◌, String, is_none, is_id, ◌==◌,
  if◌then◌else◌,
}
use python_fullstack.Base.Exec.{ok, err}
use python_fullstack.Core.Errors.{internal}
use python_fullstack.Identity.Model.{User, PlatformAdmin, RefreshToken, is_active, A}

abbrev pub sees : Option ℕ → ℕ → User → Bool
sees scope id u = (u.id == id) && (is_id scope u.tenant_id && is_none u.deleted_at)

-- `UserRepository.get_by_id`
unfoldable pub get_user : Option ℕ → ℕ → List User → Option User
get_user scope id [] = none
get_user scope id (u ∷ us) = if sees scope id u then some u else get_user scope id us

-- `PlatformAdminRepository.get_by_id`
unfoldable pub get_admin : ℕ → List PlatformAdmin → Option PlatformAdmin
get_admin id [] = none
get_admin id (a ∷ rest) = if (a.id == id) && is_none a.deleted_at then some a else get_admin id rest

-- `set_password_hash`
unfoldable pub set_password_hash : Option ℕ → ℕ → String → List User → List User
set_password_hash scope id hash [] = []
set_password_hash scope id hash (u ∷ us) =
    (if (u.id == id) && is_id scope u.tenant_id then record u { password_hash = hash } else u)
    ∷ set_password_hash scope id hash us

-- `RefreshTokenRepository.get_by_hash`
unfoldable pub get_by_hash : String → List RefreshToken → Option RefreshToken
get_by_hash hash [] = none
get_by_hash hash (t ∷ ts) = if str_eq t.token_hash hash then some t else get_by_hash hash ts

-- The primary key and the unique index.
unfoldable pub taken : RefreshToken → List RefreshToken → Bool
taken t [] = false
taken t (u ∷ us) = (u.id == t.id) || (str_eq u.token_hash t.token_hash || taken t us)

-- `add`, whose flush raises on a taken key
unfoldable pub add_token : RefreshToken → A (Unit {0})
unfolding taken
add_token t s =
    if taken t s.db.tokens
    then (err internal, s)
    else (ok tt, record s { db = record s.db { tokens = t ∷ s.db.tokens } })

-- `revoked_at` is written only where it is null.
abbrev pub revoked : ℕ → Option ℕ → RefreshToken → RefreshToken
revoked now replaced t = record t { revoked_at = some now; replaced_by_id = replaced }

unfoldable pub revoke : ℕ → ℕ → ℕ → List RefreshToken → List RefreshToken
revoke now id replaced [] = []
revoke now id replaced (t ∷ ts) =
    (if (t.id == id) && is_active t then revoked now (some replaced) t else t)
    ∷ revoke now id replaced ts

unfoldable pub revoke_family : ℕ → ℕ → List RefreshToken → List RefreshToken
revoke_family now family [] = []
revoke_family now family (t ∷ ts) =
    (if (t.family_id == family) && is_active t then record t { revoked_at = some now } else t)
    ∷ revoke_family now family ts

unfoldable pub revoke_all_for_user : ℕ → ℕ → List RefreshToken → List RefreshToken
revoke_all_for_user now user [] = []
revoke_all_for_user now user (t ∷ ts) =
    (if (t.user_id == user) && is_active t then record t { revoked_at = some now } else t)
    ∷ revoke_all_for_user now user ts
