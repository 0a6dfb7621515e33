-- ===== src/Identity/Rotation/Spent.antt =====
-- A token that was exchanged or revoked stays stored as such, whatever is asked of the sessions later.
use python_fullstack.Base.{
  ℕ, ◌≡◌, Bool, true, false, not, ◌&&◌, Option, none, some, List, [], ◌∷◌, String, arith, ◌==◌, leb,
  inl, inr, Option-cases, Bool-cases,
}
use python_fullstack.Base.Exec.{Result, ok, err}
use python_fullstack.Core.Errors.{AppError}
use python_fullstack.Identity.Model
use python_fullstack.Identity.Model.{
  RefreshToken, Auth, A, Crypto, Setting, Principal, is_active, TokenClaims,
}
use python_fullstack.Identity.Repository.{
  get_by_hash, taken, revoke, revoke_family, revoke_all_for_user,
}
use python_fullstack.Identity.Service.{
  deny_access, end_session, opened, finish, issue_tokens, burn, refresh, logout, change_password,
  refresh_claims, refresh_stored, refresh_live, rotate, decode_token, load_principal,
  revoke_rotated, with_tokens, new_record, principal_id, principal_active,
}
use python_fullstack.Identity.Rotation.Exchange.{get_by_hash-taken}
use python_fullstack.Identity.Rotation.Families.{
  AuthRequest, sign_in, refresh_with, log_out, new_password, perform,
}

-- The row of the hash is there, of this family, and not active.
abbrev spent_row : ℕ → Option RefreshToken → Bool
spent_row family none = false
spent_row family (some t) = (t.family_id == family) && not (is_active t)

abbrev pub is_spent : String → ℕ → List RefreshToken → Bool
is_spent hash family ts = spent_row family (get_by_hash hash ts)

is_spent-revoke :
    (hash : String) (family now id r : ℕ) (ts : List RefreshToken)
    → is_spent hash family ts ≡ true
    → is_spent hash family (revoke now id r ts) ≡ true
unfolding get_by_hash revoke
is_spent-revoke hash family now id r [] h = h
is_spent-revoke hash family now id r (t ∷ ts) h =
    ground (arith, h, is_spent-revoke hash family now id r ts)

is_spent-revoke_family :
    (hash : String) (family now f : ℕ) (ts : List RefreshToken)
    → is_spent hash family ts ≡ true
    → is_spent hash family (revoke_family now f ts) ≡ true
unfolding get_by_hash revoke_family
is_spent-revoke_family hash family now f [] h = h
is_spent-revoke_family hash family now f (t ∷ ts) h =
    ground (arith, h, is_spent-revoke_family hash family now f ts)

is_spent-revoke_all :
    (hash : String) (family now u : ℕ) (ts : List RefreshToken)
    → is_spent hash family ts ≡ true
    → is_spent hash family (revoke_all_for_user now u ts) ≡ true
unfolding get_by_hash revoke_all_for_user
is_spent-revoke_all hash family now u [] h = h
is_spent-revoke_all hash family now u (t ∷ ts) h =
    ground (arith, h, is_spent-revoke_all hash family now u ts)

-- A new row has another hash, by the unique index.
is_spent-add :
    (hash : String) (family : ℕ) (n : RefreshToken) (ts : List RefreshToken)
    → taken n ts ≡ false
    → is_spent hash family ts ≡ true
    → is_spent hash family (n ∷ ts) ≡ true
is_spent-add hash family n ts free h = elim (Option-cases (get_by_hash hash ts)) [
  | inl e ↦ absurd (ground (arith, h, e))
  | inr (t, e) ↦ unfold get_by_hash in rw (get_by_hash-taken hash n ts free e) h
]

-- So in the transaction and in what is committed
abbrev Spent : String → ℕ → Auth → Type 0
Spent hash g s = (is_spent hash g s.db.tokens ≡ true) × (is_spent hash g s.saved.tokens ≡ true)

module _ (hash : String) (g : ℕ) where
  burn-Spent : (c : Setting) (f : ℕ) (s : Auth) → Spent hash g s → Spent hash g (burn c f s).1
  unfolding burn
  burn-Spent c f s h = let p = is_spent-revoke_family hash g c.now f s.db.tokens h.0 in (p, p)

  revoked_row :
      (c : Setting) (old : Option RefreshToken) (s : Auth)
      → Spent hash g s
      → Spent hash g (revoke_rotated c old s)
  revoked_row c none s h = h
  revoked_row c (some t) s h = (is_spent-revoke hash g c.now t.id c.record_id s.db.tokens h.0, h.1)

  issue-Spent :
      (k : Crypto) (c : Setting) (p : Principal) (family : Option ℕ) (old : Option RefreshToken)
      (s : Auth)
      → Spent hash g s
      → Spent hash g (issue_tokens k c p family old s).1
  unfolding issue_tokens
  issue-Spent k c p family old s h =
      let n = new_record k c (principal_id p) family in
      elim (Bool-cases (taken n s.db.tokens)) [
        | inl clash ↦ rw clash h
        | inr free ↦ rw free (
            revoked_row c old (with_tokens (λ ts. n ∷ ts) s)
              (is_spent-add hash g n s.db.tokens free h.0, h.1))
      ]

  rotate-Spent :
      (k : Crypto) (c : Setting) (t : RefreshToken) (p : Option Principal) (s : Auth)
      → Spent hash g s
      → Spent hash g (rotate k c t p s).1
  rotate-Spent k c t none s h = burn-Spent c t.family_id s h
  rotate-Spent k c t (some p) s h = elim (Bool-cases (principal_active p)) [
    | inr off ↦ rw off (burn-Spent c t.family_id s h)
    | inl on ↦ rw on (issue-Spent k c p (some t.family_id) (some t) s h)
  ]

  refresh_live-Spent :
      (k : Crypto) (c : Setting) (claims : TokenClaims) (t : RefreshToken) (s : Auth)
      → Spent hash g s
      → Spent hash g (refresh_live k c claims t s).1
  refresh_live-Spent k c claims t s h = elim (Option-cases claims.tenant_id) [
    | inl w ↦ rw w (rotate-Spent k c t (load_principal claims.subject s) s h)
    | inr (tenant, w) ↦
        let s' = record s { scope = some tenant } in
        rw w (rotate-Spent k c t (load_principal claims.subject s') s' h)
  ]

  refresh_stored-Spent :
      (k : Crypto) (c : Setting) (claims : TokenClaims) (o : Option RefreshToken) (s : Auth)
      → Spent hash g s
      → Spent hash g (refresh_stored k c claims o s).1
  refresh_stored-Spent k c claims none s h = h
  refresh_stored-Spent k c claims (some t) s h = elim (Bool-cases (is_active t)) [
    | inr off ↦ rw off (burn-Spent c t.family_id s h)
    | inl on ↦ elim (Bool-cases (leb t.expires_at c.now)) [
      | inl late ↦ rw (on, late) h
      | inr fresh ↦ rw (on, fresh) (refresh_live-Spent k c claims t s h)
    ]
  ]

  refresh-Spent :
      (k : Crypto) (c : Setting) (token : String) (s : Auth)
      → Spent hash g s
      → Spent hash g (refresh k c token s).1
  unfolding refresh
  refresh-Spent k c token s h = claims (decode_token Model.refresh (k.jwt_decode c.now token))
    where
      claims : (o : Option TokenClaims) → Spent hash g (refresh_claims k c token o s).1
      claims none = h
      claims (some cl) = refresh_stored-Spent k c cl _ s h

  end_session-Spent :
      (k : Crypto) (c : Setting) (token : Option String) (s : Auth)
      → Spent hash g s
      → Spent hash g (end_session k c token s)
  end_session-Spent k c none s h = h
  end_session-Spent k c (some token) s h =
      elim (Option-cases (get_by_hash (k.hash_token token) s.db.tokens)) [
        | inl e ↦ ground (arith, e, h)
        | inr (t, e) ↦
            ground (arith, e, h, is_spent-revoke_family hash g c.now t.family_id s.db.tokens h.0)
      ]

  deny_access-Spent :
      (k : Crypto) (c : Setting) (jti : Option String) (s : Auth)
      → Spent hash g s
      → Spent hash g (deny_access k c jti s)
  deny_access-Spent k c none s h = h
  deny_access-Spent k c (some String.[]) s h = h
  deny_access-Spent k c (some (String.◌∷◌ x xs)) s h = h

  logout-Spent :
      (k : Crypto) (c : Setting) (token jti : Option String) (s : Auth)
      → Spent hash g s
      → Spent hash g (logout k c token jti s).1
  unfolding logout
  logout-Spent k c token jti s h =
      deny_access-Spent k c jti (end_session k c token s) (end_session-Spent k c token s h)

  change-Spent :
      (k : Crypto) (c : Setting) (u : ℕ) (old new : String) (s : Auth)
      → Spent hash g s
      → Spent hash g (change_password k c u old new s).1
  unfolding change_password
  change-Spent k c u old new s h =
      ground (arith, h, is_spent-revoke_all hash g c.now u s.db.tokens h.0)

  finish-Spent :
      {X : Type 0} (r : Result AppError X × Auth)
      → Spent hash g r.1
      → is_spent hash g (finish r).1.saved.tokens ≡ true
  finish-Spent (ok x, s) h = h.0
  finish-Spent (err e, s) h = h.1

  pub perform-is_spent :
      (k : Crypto) (c : Setting) (tenant : Option ℕ) (r : AuthRequest) (s : Auth)
      → is_spent hash g s.saved.tokens ≡ true
      → is_spent hash g (perform k c tenant r s).saved.tokens ≡ true
  unfolding perform
  perform-is_spent k c tenant (sign_in p) s h =
      let s' = opened tenant s in
      finish-Spent (issue_tokens k c p none none s') (issue-Spent k c p none none s' (h, h))
  perform-is_spent k c tenant (refresh_with token) s h =
      let s' = opened tenant s in
      finish-Spent (refresh k c token s') (refresh-Spent k c token s' (h, h))
  perform-is_spent k c tenant (log_out token jti) s h =
      let s' = opened tenant s in
      finish-Spent (logout k c token jti s') (logout-Spent k c token jti s' (h, h))
  perform-is_spent k c tenant (new_password u old new) s h =
      let s' = opened tenant s in
      finish-Spent (change_password k c u old new s') (change-Spent k c u old new s' (h, h))

-- Requests one after the other, each with its setting and its tenant
abbrev pub perform_all : Crypto → List (Setting × (Option ℕ × AuthRequest)) → Auth → Auth
perform_all k [] s = s
perform_all k ((c, (tenant, r)) ∷ rs) s = perform_all k rs (perform k c tenant r s)

pub perform_all-is_spent :
    (hash : String) (g : ℕ) (k : Crypto) (rs : List (Setting × (Option ℕ × AuthRequest))) (s : Auth)
    → is_spent hash g s.saved.tokens ≡ true
    → is_spent hash g (perform_all k rs s).saved.tokens ≡ true
perform_all-is_spent hash g k [] s h = h
perform_all-is_spent hash g k ((c, (tenant, r)) ∷ rs) s h =
    perform_all-is_spent hash g k rs (perform k c tenant r s)
      (perform-is_spent hash g k c tenant r s h)
