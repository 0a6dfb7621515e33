-- ===== src/Identity/Rotation/Exchange.antt =====
-- What a refresh of modules/identity/service.py that succeeds has seen and written.
use text.Mathlib.Text.{◌==◌ as str_eq}
use text.Mathlib.TextEquality.{eq_iff}
use python_fullstack.Base.{
  ℕ, ◌≡◌, refl, true, false, Option, none, some, List, [], ◌∷◌, String, arith, Option-cases,
  Bool-cases, inl, inr, leb,
}
use python_fullstack.Base.Exec.{Result, ok, err}
use python_fullstack.Core.Errors.{AppError}
use python_fullstack.Identity.Model
use python_fullstack.Identity.Model.{
  RefreshToken, Auth, A, Crypto, Setting, Principal, is_active, TokenClaims,
}
use python_fullstack.Identity.Repository.{get_by_hash, taken, revoked, revoke}
use python_fullstack.Identity.Service.{
  finish, issue_tokens, burn, refresh, new_record, principal_id, principal_active, refresh_claims,
  refresh_stored, refresh_live, rotate, decode_token, load_principal,
}

pub get_by_hash-revoke :
    (now r : ℕ) (hash : String) (ts : List RefreshToken) {t : RefreshToken}
    → get_by_hash hash ts ≡ some t
    → is_active t ≡ true
    → get_by_hash hash (revoke now t.id r ts) ≡ some (revoked now (some r) t)
unfolding get_by_hash revoke
get_by_hash-revoke now r hash [] h on = cc
get_by_hash-revoke now r hash (u ∷ us) {t} h on =
    ground (arith, get_by_hash-revoke now r hash us {t = t})

pub get_by_hash-taken :
    (hash : String) (n : RefreshToken) (ts : List RefreshToken) {t : RefreshToken}
    → taken n ts ≡ false
    → get_by_hash hash ts ≡ some t
    → str_eq n.token_hash hash ≡ false
unfolding get_by_hash taken
get_by_hash-taken hash n [] free h = cc
get_by_hash-taken hash n (u ∷ us) {t} free h = ground (
  arith,
  get_by_hash-taken hash n us {t = t},
  eq_iff u.token_hash n.token_hash,
  eq_iff u.token_hash hash,
  eq_iff n.token_hash hash,
)

-- What a refresh that succeeds has seen and written.
pub record Rotated (k : Crypto) (c : Setting) (token : String) (ts : List RefreshToken)
    (after : Auth) : Type 0 where
  pub old : RefreshToken
  pub found : get_by_hash (k.hash_token token) ts ≡ some old
  pub on : is_active old ≡ true
  pub new : RefreshToken
  pub same_family : new.family_id ≡ old.family_id
  pub new_hash : new.token_hash ≡ k.hash_token c.refresh_token
  pub new_on : is_active new ≡ true
  pub free : taken new ts ≡ false
  pub tokens : after.db.tokens ≡ revoke c.now old.id c.record_id (new ∷ ts)

pub err_not_ok : {E X : Type 0} {e : E} {x : X} → err e ≡ ok x → ⊥
err_not_ok h = cc

issue-Rotated :
    (k : Crypto) (c : Setting) (token : String) (p : Principal) (t : RefreshToken) (s : Auth)
    {x : String}
    → get_by_hash (k.hash_token token) s.db.tokens ≡ some t
    → is_active t ≡ true
    → (issue_tokens k c p (some t.family_id) (some t) s).0 ≡ ok x
    → Rotated k c token s.db.tokens (issue_tokens k c p (some t.family_id) (some t) s).1
unfolding issue_tokens
issue-Rotated k c token p t s e on h =
    let n = new_record k c (principal_id p) (some t.family_id) in
    elim (Bool-cases (taken n s.db.tokens)) [
      | inl clash ↦ absurd (err_not_ok (rw clash at h))
      | inr free ↦ record {
        old = t;
        found = e;
        on = on;
        new = n;
        same_family = refl;
        new_hash = refl;
        new_on = refl;
        free = free;
        tokens = rw free refl;
      }
    ]

burn_fails : (c : Setting) (f : ℕ) (s : Auth) {x : String} → (burn c f s).0 ≡ ok x → ⊥
unfolding burn
burn_fails c f s h = err_not_ok h

rotate-Rotated :
    (k : Crypto) (c : Setting) (token : String) (t : RefreshToken) (p : Option Principal) (s : Auth)
    {x : String}
    → get_by_hash (k.hash_token token) s.db.tokens ≡ some t
    → is_active t ≡ true
    → (rotate k c t p s).0 ≡ ok x
    → Rotated k c token s.db.tokens (rotate k c t p s).1
rotate-Rotated k c token t none s e on h = absurd (burn_fails c t.family_id s h)
rotate-Rotated k c token t (some p) s e on h = elim (Bool-cases (principal_active p)) [
  | inr off ↦ absurd (burn_fails c t.family_id s (rw off at h))
  | inl active ↦ rw active (issue-Rotated k c token p t s e on (rw active at h))
]

refresh_live-Rotated :
    (k : Crypto) (c : Setting) (token : String) (claims : TokenClaims) (t : RefreshToken) (s : Auth)
    {x : String}
    → get_by_hash (k.hash_token token) s.db.tokens ≡ some t
    → is_active t ≡ true
    → (refresh_live k c claims t s).0 ≡ ok x
    → Rotated k c token s.db.tokens (refresh_live k c claims t s).1
refresh_live-Rotated k c token claims t s e on h = elim (Option-cases claims.tenant_id) [
  | inl w ↦ rw w (rotate-Rotated k c token t (load_principal claims.subject s) s e on (rw w at h))
  | inr (tenant, w) ↦
      let s' = record s { scope = some tenant } in
      rw w (rotate-Rotated k c token t (load_principal claims.subject s') s' e on (rw w at h))
]

refresh_stored-Rotated :
    (k : Crypto) (c : Setting) (token : String) (claims : TokenClaims) (o : Option RefreshToken)
    (s : Auth) {x : String}
    → get_by_hash (k.hash_token token) s.db.tokens ≡ o
    → (refresh_stored k c claims o s).0 ≡ ok x
    → Rotated k c token s.db.tokens (refresh_stored k c claims o s).1
refresh_stored-Rotated k c token claims none s e h = absurd (err_not_ok h)
refresh_stored-Rotated k c token claims (some t) s e h = elim (Bool-cases (is_active t)) [
  | inr off ↦ absurd (burn_fails c t.family_id s (rw off at h))
  | inl on ↦ elim (Bool-cases (leb t.expires_at c.now)) [
    | inl late ↦ absurd (err_not_ok (rw (on, late) at h))
    | inr fresh ↦
        rw (on, fresh) (refresh_live-Rotated k c token claims t s e on (rw (on, fresh) at h))
  ]
]

pub refresh-Rotated :
    (k : Crypto) (c : Setting) (token : String) (s : Auth) {x : String}
    → (refresh k c token s).0 ≡ ok x
    → Rotated k c token s.db.tokens (refresh k c token s).1
unfolding refresh
refresh-Rotated k c token s {x} h =
    of_claims (decode_token Model.refresh (k.jwt_decode c.now token)) h
  where
    of_claims :
        (o : Option TokenClaims)
        → (refresh_claims k c token o s).0 ≡ ok x
        → Rotated k c token s.db.tokens (refresh_claims k c token o s).1
    of_claims none h = absurd (err_not_ok h)
    of_claims (some cl) h = refresh_stored-Rotated k c token cl _ s refl h

-- After a refresh that succeeded, the old token is stored as revoked in the family.
pub Rotated-IsSpent :
    (k : Crypto) (c : Setting) (token : String) (s after : Auth)
    → (r : Rotated k c token s.db.tokens after)
    → get_by_hash (k.hash_token token) after.db.tokens
      ≡ some (revoked c.now (some c.record_id) r.old)
Rotated-IsSpent k c token s after r =
    rw r.tokens
      (get_by_hash-revoke c.now c.record_id (k.hash_token token) (r.new ∷ s.db.tokens) behind r.on)
  where
    behind : get_by_hash (k.hash_token token) (r.new ∷ s.db.tokens) ≡ some r.old
    behind =
        unfold get_by_hash in
        rw (get_by_hash-taken (k.hash_token token) r.new s.db.tokens r.free r.found) r.found

pub finish_ok :
    {X : Type 0} (p : Result AppError X × Auth) {x : X} → (finish p).0 ≡ ok x → p.0 ≡ ok x
finish_ok (ok y, s) h = h
finish_ok (err e, s) h = absurd (err_not_ok h)

pub finish_answers :
    {X : Type 0} (p : Result AppError X × Auth) {x : X} → p.0 ≡ ok x → (finish p).0 ≡ ok x
finish_answers (ok y, s) h = h
finish_answers (err e, s) h = absurd (err_not_ok h)

pub finish_saves :
    {X : Type 0} (p : Result AppError X × Auth) {x : X} → p.0 ≡ ok x → (finish p).1.saved ≡ p.1.db
finish_saves (ok y, s) h = refl
finish_saves (err e, s) h = absurd (err_not_ok h)
