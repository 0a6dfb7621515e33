-- ===== src/Identity/Service.antt =====
-- backend/app/modules/identity/service.py: refresh, logout and change of password, and the issue of
-- tokens with which a login ends; `get_db` of core/database.py around them; `decode_token` of
-- core/security.py. The access token, the CSRF token and the session's description, which are
-- computed from the principal and stored nowhere, are left out of the answer.
use text.Mathlib.Text.{◌==◌ as str_eq}
use Prim.Native.String.{◌++◌ as append}
use python_fullstack.Base.{
  ℕ, ◌+◌, Bool, true, false, not, Option, none, some, List, String, leb, if◌then◌else◌,
}
use python_fullstack.Base.Text.{is_empty, take_text}
use python_fullstack.Base.Exec.{Result, ok, err, pure, raise, gets, modify, guard, ◌>>=◌, ◌>>◌}
use python_fullstack.Core.Errors.{AppError, authentication, permission_denied, validation_failed}
use python_fullstack.Core.Throttle.Limiter.{deny}
use python_fullstack.Identity.Model.{
  User, PlatformAdmin, RefreshToken, is_active, Principal, of_user, of_admin, TokenType, Payload,
  TokenClaims, Tables, Auth, A, Crypto, Setting,
}
use python_fullstack.Identity.Model
use python_fullstack.Identity.Repository.{
  get_user, get_admin, set_password_hash, get_by_hash, add_token, revoke, revoke_family,
  revoke_all_for_user,
}

-- `decode_token`, on what `jwt.decode` gives
abbrev same_type : TokenType → TokenType → Bool
same_type Model.access Model.access = true
same_type Model.refresh Model.refresh = true
same_type _ _ = false

abbrev tenant_claim : Option (Option ℕ) → Option (Option ℕ)
tenant_claim none = some none
tenant_claim (some none) = none
tenant_claim (some (some t)) = some (some t)

abbrev claims_of : TokenType → Payload → Option ℕ → Option (Option ℕ) → Option TokenClaims
claims_of expected p (some subject) (some tenant) = some (record {
  subject = subject;
  token_type = expected;
  jti = p.jti;
  expires_at = p.exp;
  tenant_id = tenant;
  role = p.rol;
  is_platform_admin = p.adm;
})
claims_of expected p _ _ = none

unfoldable pub decode_token : TokenType → Option Payload → Option TokenClaims
decode_token expected none = none
decode_token expected (some p) =
    if same_type p.typ expected then claims_of expected p p.sub (tenant_claim p.tid) else none

-- `(text or "")[:n] or None`
abbrev non_empty : String → Option String
non_empty String.[] = none
non_empty s = some s

abbrev clip : ℕ → Option String → Option String
clip n none = none
clip n (some s) = non_empty (take_text n s)

abbrev pub principal_id : Principal → ℕ
principal_id (of_user u) = u.id
principal_id (of_admin a) = a.id

abbrev pub principal_active : Principal → Bool
principal_active (of_user u) = u.is_active
principal_active (of_admin a) = a.is_active

-- `_load_principal`
abbrev or_admin : Option User → Option PlatformAdmin → Option Principal
or_admin (some u) a = some (of_user u)
or_admin none (some a) = some (of_admin a)
or_admin none none = none

unfoldable pub load_principal : ℕ → Auth → Option Principal
unfolding get_user get_admin
load_principal subject s =
    or_admin (get_user s.scope subject s.db.users) (get_admin subject s.db.admins)

abbrev pub with_tokens : (List RefreshToken → List RefreshToken) → Auth → Auth
with_tokens f s = record s { db = record s.db { tokens = f s.db.tokens } }

-- `session.commit()`, which also ends the transaction-local scope
abbrev pub commit : Auth → Auth
commit s = record s { saved = s.db; scope = none }

abbrev pub rollback : Auth → Auth
rollback s = record s { db = s.saved; scope = none }

-- The row that `_issue_tokens` adds.
abbrev family_or_new : Option ℕ → ℕ → ℕ
family_or_new none new = new
family_or_new (some f) new = f

abbrev pub new_record : Crypto → Setting → ℕ → Option ℕ → RefreshToken
new_record k c user family = record {
  id = c.record_id;
  user_id = user;
  token_hash = k.hash_token c.refresh_token;
  family_id = family_or_new family c.new_family;
  issued_at = c.now;
  expires_at = c.now + k.refresh_ttl;
  revoked_at = none;
  replaced_by_id = none;
  user_agent = clip 400 c.user_agent;
  ip_address = clip 64 c.ip_address;
}

abbrev pub revoke_rotated : Setting → Option RefreshToken → Auth → Auth
revoke_rotated c none s = s
revoke_rotated c (some old) s = with_tokens (revoke c.now old.id c.record_id) s

-- `_issue_tokens`
unfoldable pub issue_tokens :
    Crypto → Setting → Principal → Option ℕ → Option RefreshToken → A String
unfolding add_token revoke
issue_tokens k c p family rotated_from = do
  add_token (new_record k c (principal_id p) family)
  modify (revoke_rotated c rotated_from)
  pure c.refresh_token

-- Revokes the family, and commits before the raise rolls it back.
unfoldable pub burn : Setting → ℕ → A String
unfolding revoke_family
burn c family = do
  modify (with_tokens (revoke_family c.now family))
  modify commit
  raise authentication

abbrev pub rotate : Crypto → Setting → RefreshToken → Option Principal → A String
rotate k c stored none = burn c stored.family_id
rotate k c stored (some p) =
    if not (principal_active p)
    then burn c stored.family_id
    else issue_tokens k c p (some stored.family_id) (some stored)

-- `apply_tenant_scope`, for a token that carries a tenant
abbrev pub apply_scope : Option ℕ → Auth → Auth
apply_scope none s = s
apply_scope (some tenant) s = record s { scope = some tenant }

abbrev pub refresh_live : Crypto → Setting → TokenClaims → RefreshToken → A String
refresh_live k c claims stored = do
  modify (apply_scope claims.tenant_id)
  p ← gets (load_principal claims.subject)
  rotate k c stored p

abbrev pub refresh_stored : Crypto → Setting → TokenClaims → Option RefreshToken → A String
refresh_stored k c claims none = raise authentication
refresh_stored k c claims (some stored) =
    if not (is_active stored)
    then burn c stored.family_id
    else if leb stored.expires_at c.now
    then raise authentication
    else refresh_live k c claims stored

abbrev pub refresh_claims : Crypto → Setting → String → Option TokenClaims → A String
refresh_claims k c token none = raise authentication
refresh_claims k c token (some claims) = do
  stored ← gets (λ s. get_by_hash (k.hash_token token) s.db.tokens)
  refresh_stored k c claims stored

unfoldable pub refresh : Crypto → Setting → String → A String
unfolding decode_token load_principal issue_tokens burn get_by_hash
refresh k c token = refresh_claims k c token (decode_token Model.refresh (k.jwt_decode c.now token))

-- `logout`
abbrev pub revoke_stored : Setting → Option RefreshToken → Auth → Auth
revoke_stored c none s = s
revoke_stored c (some stored) s = with_tokens (revoke_family c.now stored.family_id) s

abbrev pub end_session : Crypto → Setting → Option String → Auth → Auth
end_session k c none s = s
end_session k c (some token) s =
    if is_empty token then s else revoke_stored c (get_by_hash (k.hash_token token) s.db.tokens) s

abbrev pub deny_access : Crypto → Setting → Option String → Auth → Auth
deny_access k c none s = s
deny_access k c (some String.[]) s = s
deny_access k c (some jti) s = record s {
  denied = deny c.now (append "global:denylist:" jti) k.access_ttl s.denied;
}

unfoldable pub logout : Crypto → Setting → Option String → Option String → A (Unit {0})
unfolding get_by_hash revoke_family deny
logout k c token jti = do modify (end_session k c token); modify (deny_access k c jti)

-- `change_password`
abbrev pub store_password : Crypto → Setting → ℕ → String → Auth → Auth
store_password k c user new s = record s {
  db = record s.db {
    users = set_password_hash s.scope user (k.hash_password new) s.db.users;
    tokens = revoke_all_for_user c.now user s.db.tokens;
  };
}

abbrev pub change_for : Crypto → Setting → ℕ → String → String → Option User → A (Unit {0})
change_for k c user current new none = raise authentication
change_for k c user current new (some u) = do
  guard (k.verify_password current u.password_hash) permission_denied
  guard (not (str_eq current new)) validation_failed
  modify (store_password k c user new)

unfoldable pub change_password : Crypto → Setting → ℕ → String → String → A (Unit {0})
unfolding get_user set_password_hash revoke_all_for_user
change_password k c user current new = do
  u ← gets (λ s. get_user s.scope user s.db.users)
  change_for k c user current new u

-- `get_db`: a request commits on success and rolls back on an error.
abbrev pub finish : {X : Type 0} → Result AppError X × Auth → Result AppError X × Auth
finish (ok x, s) = (ok x, commit s)
finish (err e, s) = (err e, rollback s)

abbrev pub opened : Option ℕ → Auth → Auth
opened tenant s = record s { db = s.saved; scope = tenant }

abbrev pub in_request : {X : Type 0} → Option ℕ → A X → A X
in_request tenant m s = finish (m (opened tenant s))
