-- ===== src/Examples/Identity.antt =====
-- Sessions on a table with one refresh token, and with libraries that sign and hash by name.
use python_fullstack.Base.{
  Option, ℕ, ◌≤◌, ◌≡◌, refl, true, false, none, some, List, [], ◌∷◌, String, arith,
}
use python_fullstack.Base.Exec.{ok, err}
use python_fullstack.Core.Errors.{authentication}
use python_fullstack.Core.Permissions.{developer}
use python_fullstack.Core.Throttle.{empty_store}
use python_fullstack.Identity.Model
use python_fullstack.Identity.Model.{
  User, RefreshToken, is_active, Payload, TokenClaims, Tables, Auth, Crypto, Setting, of_user,
}
use python_fullstack.Identity.Repository.{get_by_hash, revoked}
use python_fullstack.Identity.Service.{in_request, opened, refresh, change_password, decode_token}
use python_fullstack.Identity.Rotation.{live, live_of_user}
use python_fullstack.Identity.Rotation.Families.{perform, refresh_with, perform-OneLive}
use python_fullstack.Identity.Rotation.Families.{AuthRequest, sign_in}
use python_fullstack.Identity.Rotation.Spent.{perform_all}
use python_fullstack.Identity.Rotation.Replay.{
  MayRefresh, replay_kills_family, change_password_ends_sessions, refresh_rotates,
}

abbrev user : User
user = record {
  id = 2;
  tenant_id = 5;
  password_hash = "old";
  role = developer;
  is_active = true;
  deleted_at = none;
}

abbrev row : RefreshToken
row = record {
  id = 20;
  user_id = 2;
  token_hash = "t1";
  family_id = 30;
  issued_at = 0;
  expires_at = 700;
  revoked_at = none;
  replaced_by_id = none;
  user_agent = none;
  ip_address = none;
}

abbrev tables : List RefreshToken → Tables
tables ts = record { users = user ∷ []; admins = []; tokens = ts }

abbrev auth : List RefreshToken → Auth
auth ts = record { db = tables ts; saved = tables ts; scope = none; denied = empty_store }

abbrev crypto : Crypto
crypto = record {
  jwt_decode = λ now token. some (record {
    typ = Model.refresh;
    sub = some 2;
    jti = token;
    exp = 700;
    tid = some (some 5);
    rol = none;
    adm = false;
  });
  hash_token = λ token. token;
  hash_password = λ password. password;
  verify_password = λ password hash. true;
  refresh_ttl = 600;
  access_ttl = 15;
}

abbrev claims : String → TokenClaims
claims token = record {
  subject = 2;
  token_type = Model.refresh;
  jti = token;
  expires_at = 700;
  tenant_id = some 5;
  role = none;
  is_platform_admin = false;
}

abbrev setting : ℕ → String → ℕ → Setting
setting now token id = record {
  now = now;
  refresh_token = token;
  record_id = id;
  new_family = 31;
  user_agent = none;
  ip_address = some "10.0.0.1";
}

abbrev first : Setting
first = setting 100 "t2" 21

abbrev second : Setting
second = setting 200 "t3" 22

perform-OneLive_example :
    live 30 (perform crypto first none (refresh_with "t1") (auth (row ∷ []))).saved.tokens ≤ 1
perform-OneLive_example =
    perform-OneLive crypto first none (refresh_with "t1") 30 (auth (row ∷ [])) tt (omega arith)

abbrev spent : RefreshToken
spent = revoked 50 (some 19) row

abbrev once : Auth
once = (in_request none (refresh crypto first "t1") (auth (row ∷ []))).1

-- The thief of "t1" waits until the owner has refreshed again, and someone has logged in.
abbrev meanwhile : List (Setting × (Option ℕ × AuthRequest))
meanwhile =
    (second, (none, refresh_with "t2"))
    ∷ (setting 210 "t9" 23, (some 5, sign_in (of_user user)))
    ∷ []

abbrev later : Auth
later = perform_all crypto meanwhile once

replay_kills_family_example :
    ((in_request none (refresh crypto (setting 300 "t4" 24) "t1") later).0 ≡ err authentication)
    × ((t : RefreshToken) × (get_by_hash "t1" (row ∷ []) ≡ some t)
        × (live t.family_id
              (in_request none (refresh crypto (setting 300 "t4" 24) "t1") later).1.saved.tokens
            ≡ 0))
unfolding decode_token get_by_hash refresh
replay_kills_family_example =
    replay_kills_family crypto first (setting 300 "t4" 24) none none "t1" meanwhile
      (auth (row ∷ [])) {x = "t2"} {claims = claims "t1"} refl refl

change_password_ends_sessions_example :
    live_of_user 2
      (in_request
        (some 5)
        (change_password crypto first 2 "a" "b")
        (auth (row ∷ []))).1.saved.tokens
    ≡ 0
unfolding change_password
change_password_ends_sessions_example =
    change_password_ends_sessions crypto first (some 5) 2 "a" "b" (auth (row ∷ [])) refl

may_refresh : MayRefresh crypto first "t1" row (opened none (auth (row ∷ [])))
unfolding refresh
may_refresh = record {
  claims = claims "t1";
  decodes = refl;
  stored = refl;
  on = refl;
  fresh = refl;
  person = of_user user;
  loads = refl;
  active = refl;
  free = refl;
}

refresh_rotates_example :
    ((in_request none (refresh crypto first "t1") (auth (row ∷ []))).0 ≡ ok "t2")
    × ((n : RefreshToken) × (get_by_hash "t2" once.saved.tokens ≡ some n)
        × (is_active n ≡ true)
        × (n.family_id ≡ 30))
    × (get_by_hash "t1" once.saved.tokens ≡ some (revoked 100 (some 21) row))
refresh_rotates_example = refresh_rotates crypto first none "t1" row (auth (row ∷ [])) may_refresh
