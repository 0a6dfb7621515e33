-- ===== src/Identity/Model.antt =====
-- backend/app/modules/identity/models.py, the administrators of modules/tenancy/models.py, the claims
-- of core/security.py, and the state of a request: its transaction, what is committed, and the
-- in-process denylist. UUIDs and timestamps are natural numbers. The profile columns, which no
-- session rule reads, are left out.
use python_fullstack.Base.{ℕ, Bool, Option, List, String, is_none}
use python_fullstack.Base.Exec.{Exec}
use python_fullstack.Core.Errors.{AppError}
use python_fullstack.Core.Permissions.{Role}
use python_fullstack.Core.Throttle.{LocalTtlStore}

pub record User : Type 0 where
  pub id : ℕ
  pub tenant_id : ℕ
  pub password_hash : String
  pub role : Role
  pub is_active : Bool
  pub deleted_at : Option ℕ

pub record PlatformAdmin : Type 0 where
  pub id : ℕ
  pub password_hash : String
  pub is_active : Bool
  pub deleted_at : Option ℕ

pub record RefreshToken : Type 0 where
  pub id : ℕ
  pub user_id : ℕ
  pub token_hash : String
  pub family_id : ℕ
  pub issued_at : ℕ
  pub expires_at : ℕ
  pub revoked_at : Option ℕ
  pub replaced_by_id : Option ℕ
  pub user_agent : Option String
  pub ip_address : Option String

-- `RefreshToken.is_active`
abbrev pub is_active : RefreshToken → Bool
is_active t = is_none t.revoked_at

pub data Principal : Type 0 where
  of_user : User → Principal
  of_admin : PlatformAdmin → Principal

pub data TokenType : Type 0 where
  access refresh : TokenType

-- What `jwt.decode` returns. A subject or tenant that is no UUID is `none`; a tenant that is absent
-- or empty is the outer `none`.
pub record Payload : Type 0 where
  pub typ : TokenType
  pub sub : Option ℕ
  pub jti : String
  pub exp : ℕ
  pub tid : Option (Option ℕ)
  pub rol : Option String
  pub adm : Bool

pub record TokenClaims : Type 0 where
  pub subject : ℕ
  pub token_type : TokenType
  pub jti : String
  pub expires_at : ℕ
  pub tenant_id : Option ℕ
  pub role : Option String
  pub is_platform_admin : Bool

pub record Tables : Type 0 where
  pub users : List User
  pub admins : List PlatformAdmin
  pub tokens : List RefreshToken

-- `db` is what the transaction sees, `saved` what is committed, `scope` the tenant of the row-level
-- policies.
pub record Auth : Type 0 where
  pub db : Tables
  pub saved : Tables
  pub scope : Option ℕ
  pub denied : LocalTtlStore

abbrev pub A : Type 0 → Type 0
A X = Exec AppError Auth X

-- The libraries for signatures and hashes, and the settings.
pub record Crypto : Type 0 where
  pub jwt_decode : ℕ → String → Option Payload
  pub hash_token : String → String
  pub hash_password : String → String
  pub verify_password : String → String → Bool
  pub refresh_ttl : ℕ
  pub access_ttl : ℕ

-- What one call reads and draws: the clock, the signed refresh token, its row's id, a new family,
-- and the client.
pub record Setting : Type 0 where
  pub now : ℕ
  pub refresh_token : String
  pub record_id : ℕ
  pub new_family : ℕ
  pub user_agent : Option String
  pub ip_address : Option String
