-- ===== src/Identity/Rotation/Families.antt =====
-- Requests of the session service, and the number of live tokens in a family along them.
use python_fullstack.Base.{
  ℕ, ◌≤◌, ◌≡◌, refl, true, Option, none, some, String, arith, Option-cases, Bool-cases, inl, inr,
  leb,
}
use python_fullstack.Base.Exec.{Result, ok, err}
use python_fullstack.Core.Errors.{AppError}
use python_fullstack.Identity.Model
use python_fullstack.Identity.Model.{
  RefreshToken, Auth, A, Crypto, Setting, Principal, is_active, TokenClaims,
}
use python_fullstack.Identity.Repository.{get_by_hash}
use python_fullstack.Identity.Service.{
  deny_access, end_session, opened, in_request, finish, issue_tokens, burn, refresh, logout,
  change_password, refresh_claims, refresh_stored, refresh_live, rotate, decode_token,
  load_principal,
}
use python_fullstack.Identity.Rotation.{
  live, live-revoke_family, live-revoke, live-revoke_all, live-revoke_found,
}

-- At most one token of the family is live, in the transaction and in what is committed.
abbrev pub OneLive : ℕ → Auth → Type 0
OneLive g s = (live g s.db.tokens ≤ 1) × (live g s.saved.tokens ≤ 1)

burn-OneLive : (c : Setting) (f g : ℕ) (s : Auth) → OneLive g s → OneLive g (burn c f s).1
unfolding burn
burn-OneLive c f g s h = ground (arith, live-revoke_family c.now f g s.db.tokens)

rotate-OneLive :
    (k : Crypto) (c : Setting) (hash : String) (stored : RefreshToken) (p : Option Principal)
    (g : ℕ) (s : Auth)
    → get_by_hash hash s.db.tokens ≡ some stored
    → is_active stored ≡ true
    → OneLive g s
    → OneLive g (rotate k c stored p s).1
unfolding issue_tokens
rotate-OneLive k c hash stored none g s found on h = burn-OneLive c stored.family_id g s h
rotate-OneLive k c hash stored (some p) g s found on h = ground (
  arith,
  burn-OneLive c stored.family_id g s h,
  live-revoke_found c.now c.record_id hash s.db.tokens found on,
  live-revoke c.now stored.id c.record_id g s.db.tokens,
)

refresh_live-OneLive :
    (k : Crypto) (c : Setting) (hash : String) (claims : TokenClaims) (t : RefreshToken) (g : ℕ)
    (s : Auth)
    → get_by_hash hash s.db.tokens ≡ some t
    → is_active t ≡ true
    → OneLive g s
    → OneLive g (refresh_live k c claims t s).1
refresh_live-OneLive k c hash claims t g s e on h = elim (Option-cases claims.tenant_id) [
  | inl w ↦ rw w (rotate-OneLive k c hash t (load_principal claims.subject s) g s e on h)
  | inr (tenant, w) ↦
      let s' = record s { scope = some tenant } in
      rw w (rotate-OneLive k c hash t (load_principal claims.subject s') g s' e on h)
]

refresh_stored-OneLive :
    (k : Crypto) (c : Setting) (hash : String) (claims : TokenClaims) (o : Option RefreshToken)
    (g : ℕ) (s : Auth)
    → get_by_hash hash s.db.tokens ≡ o
    → OneLive g s
    → OneLive g (refresh_stored k c claims o s).1
refresh_stored-OneLive k c hash claims none g s e h = h
refresh_stored-OneLive k c hash claims (some t) g s e h = elim (Bool-cases (is_active t)) [
  | inr off ↦ rw off (burn-OneLive c t.family_id g s h)
  | inl on ↦ elim (Bool-cases (leb t.expires_at c.now)) [
    | inl late ↦ rw (on, late) h
    | inr fresh ↦ rw (on, fresh) (refresh_live-OneLive k c hash claims t g s e on h)
  ]
]

refresh-OneLive :
    (k : Crypto) (c : Setting) (token : String) (g : ℕ) (s : Auth)
    → OneLive g s
    → OneLive g (refresh k c token s).1
unfolding refresh
refresh-OneLive k c token g s h = claims (decode_token Model.refresh (k.jwt_decode c.now token))
  where
    claims : (o : Option TokenClaims) → OneLive g (refresh_claims k c token o s).1
    claims none = h
    claims (some cl) = refresh_stored-OneLive k c (k.hash_token token) cl _ g s refl h

-- The requests that change sessions. `sign_in` is the end of a login.
pub data AuthRequest : Type 0 where
  sign_in : Principal → AuthRequest
  refresh_with : String → AuthRequest
  log_out : Option String → Option String → AuthRequest
  new_password : ℕ → String → String → AuthRequest

abbrev discard : {X : Type 0} → Result AppError X × Auth → Auth
discard p = p.1

-- A request by its tenant, in its own transaction.
unfoldable pub perform : Crypto → Setting → Option ℕ → AuthRequest → Auth → Auth
perform k c tenant (sign_in p) s = discard (in_request tenant (issue_tokens k c p none none) s)
perform k c tenant (refresh_with token) s = discard (in_request tenant (refresh k c token) s)
perform k c tenant (log_out token jti) s = discard (in_request tenant (logout k c token jti) s)
perform k c tenant (new_password u old new) s =
    discard (in_request tenant (change_password k c u old new) s)

finish-OneLive :
    {X : Type 0} (g : ℕ) (r : Result AppError X × Auth) → OneLive g r.1 → OneLive g (finish r).1
finish-OneLive g (ok x, s) h = (h.0, h.0)
finish-OneLive g (err e, s) h = (h.1, h.1)

end_session-OneLive :
    (k : Crypto) (c : Setting) (token : Option String) (g : ℕ) (s : Auth)
    → OneLive g s
    → OneLive g (end_session k c token s)
end_session-OneLive k c none g s h = h
end_session-OneLive k c (some token) g s h =
    elim (Option-cases (get_by_hash (k.hash_token token) s.db.tokens)) [
      | inl e ↦ ground arith
      | inr (t, e) ↦ ground (arith, live-revoke_family c.now t.family_id g s.db.tokens)
    ]

deny_access-OneLive :
    (k : Crypto) (c : Setting) (jti : Option String) (g : ℕ) (s : Auth)
    → OneLive g s
    → OneLive g (deny_access k c jti s)
deny_access-OneLive k c none g s h = h
deny_access-OneLive k c (some String.[]) g s h = h
deny_access-OneLive k c (some (String.◌∷◌ x xs)) g s h = h

logout-OneLive :
    (k : Crypto) (c : Setting) (token jti : Option String) (g : ℕ) (s : Auth)
    → OneLive g s
    → OneLive g (logout k c token jti s).1
unfolding logout
logout-OneLive k c token jti g s h =
    deny_access-OneLive k c jti g (end_session k c token s) (end_session-OneLive k c token g s h)

change-OneLive :
    (k : Crypto) (c : Setting) (u : ℕ) (old new : String) (g : ℕ) (s : Auth)
    → OneLive g s
    → OneLive g (change_password k c u old new s).1
unfolding change_password
change-OneLive k c u old new g s h = ground (arith, live-revoke_all c.now u g s.db.tokens)

sign_in-OneLive :
    (k : Crypto) (c : Setting) (p : Principal) (g : ℕ) (s : Auth)
    → live c.new_family s.db.tokens ≡ 0
    → OneLive g s
    → OneLive g (issue_tokens k c p none none s).1
unfolding issue_tokens
sign_in-OneLive k c p g s new h = ground arith

-- A new family is one that no stored live token has, as `uuid4` gives it.
abbrev pub StartsFresh : Setting → AuthRequest → Auth → Type 0
StartsFresh c (sign_in p) s = live c.new_family s.saved.tokens ≡ 0
StartsFresh c _ s = Unit {0}

-- If at most one token of a family is live, it stays so with every issue of tokens at the end of
-- a login, every refresh, logout and change of password, whatever its outcome, provided that a login
-- draws a family without a live token.
pub perform-OneLive :
    (k : Crypto) (c : Setting) (tenant : Option ℕ) (r : AuthRequest) (g : ℕ) (s : Auth)
    → StartsFresh c r s
    → live g s.saved.tokens ≤ 1
    → live g (perform k c tenant r s).saved.tokens ≤ 1
unfolding perform
perform-OneLive k c tenant (sign_in p) g s new h =
    let s' = opened tenant s in
    (finish-OneLive g (issue_tokens k c p none none s') (sign_in-OneLive k c p g s' new (h, h))).1
perform-OneLive k c tenant (refresh_with token) g s new h =
    let s' = opened tenant s in
    (finish-OneLive g (refresh k c token s') (refresh-OneLive k c token g s' (h, h))).1
perform-OneLive k c tenant (log_out token jti) g s new h =
    let s' = opened tenant s in
    (finish-OneLive g (logout k c token jti s') (logout-OneLive k c token jti g s' (h, h))).1
perform-OneLive k c tenant (new_password u old new_one) g s new h =
    let s' = opened tenant s in
    (finish-OneLive g (change_password k c u old new_one s')
      (change-OneLive k c u old new_one g s' (h, h))).1
