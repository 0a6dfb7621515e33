-- ===== src/Identity/Rotation/Replay.antt =====
-- Rotation of refresh tokens and the detection of their reuse.
use text.Mathlib.TextEquality.{eq_iff}
use python_fullstack.Base.{
  ℕ, ◌≡◌, refl, sym, ap, ◌∙◌, true, false, Option, none, some, List, [], ◌∷◌, String, arith, ◌==◌,
  leb, eq_of_some, inl, inr, Option-cases, ==_iff,
}
use python_fullstack.Base.Exec.{ok, err}
use python_fullstack.Core.Errors.{authentication}
use python_fullstack.Identity.Model
use python_fullstack.Identity.Model.{
  RefreshToken, Auth, A, Crypto, Setting, Principal, is_active, TokenClaims,
}
use python_fullstack.Identity.Repository.{get_by_hash, taken, revoked, revoke}
use python_fullstack.Identity.Service.{
  in_request, opened, issue_tokens, refresh, change_password, new_record, principal_id,
  principal_active, decode_token, load_principal, apply_scope,
}
use python_fullstack.Identity.Rotation.{
  live, live_of_user, live-revoke_family_same, live_of_user-revoke_all,
}
use python_fullstack.Identity.Rotation.Families.{AuthRequest}
use python_fullstack.Identity.Rotation.Spent.{is_spent, perform_all, perform_all-is_spent}
use python_fullstack.Identity.Rotation.Exchange.{
  refresh-Rotated, Rotated-IsSpent, finish_ok, finish_answers, finish_saves,
}

-- The row that a refresh token names is stored, and revoked.
pub record IsSpent (k : Crypto) (token : String) (t : RefreshToken) (s : Auth) : Type 0 where
  pub stored : get_by_hash (k.hash_token token) s.saved.tokens ≡ some t
  pub off : is_active t ≡ false

-- A token that was rotated or revoked is presented again: the request is refused, and no token of
-- its family is live in what is committed, although the request rolls back.
pub reuse_revokes_family :
    (k : Crypto) (c : Setting) (tenant : Option ℕ) (token : String) (t : RefreshToken) (s : Auth)
    {claims : TokenClaims}
    → decode_token Model.refresh (k.jwt_decode c.now token) ≡ some claims
    → IsSpent k token t s
    → let (answer, after) = in_request tenant (refresh k c token) s in
      (answer ≡ err authentication) × (live t.family_id after.saved.tokens ≡ 0)
unfolding refresh
reuse_revokes_family k c tenant token t s d h =
    rw (d, h.stored, h.off) (refl, live-revoke_family_same c.now t.family_id s.saved.tokens)

is_spent_if :
    (hash : String) (t : RefreshToken) (ts : List RefreshToken)
    → get_by_hash hash ts ≡ some t
    → is_active t ≡ false
    → is_spent hash t.family_id ts ≡ true
is_spent_if hash t ts h off = ground (arith, h, off)

spent_dies :
    (k : Crypto) (d : Setting) (other : Option ℕ) (token : String) (g : ℕ) (s : Auth)
    {claims : TokenClaims}
    → decode_token Model.refresh (k.jwt_decode d.now token) ≡ some claims
    → is_spent (k.hash_token token) g s.saved.tokens ≡ true
    → ((in_request other (refresh k d token) s).0 ≡ err authentication)
      × (live g (in_request other (refresh k d token) s).1.saved.tokens ≡ 0)
spent_dies k d other token g s dec h =
    elim (Option-cases (get_by_hash (k.hash_token token) s.saved.tokens)) [
      | inl e ↦ absurd (ground (arith, e, h))
      | inr (t, e) ↦
          let same : t.family_id ≡ g = ground (arith, e, h, ==_iff t.family_id g) in
          let off : is_active t ≡ false = ground (arith, e, h) in
          let (refused, dead) =
            reuse_revokes_family k d other token t s dec (record { stored = e; off = off }) in
          (
            refused,
            ap (λ f. live f (in_request other (refresh k d token) s).1.saved.tokens) (sym same)
                ∙ dead,
          )
    ]

-- After a refresh token was once exchanged, and after any further logins, refreshes, logouts and
-- changes of password by anyone, whoever presents it again while it still decodes is refused, and no
-- token of its family is live in what is committed afterwards, although the request rolls back.
pub replay_kills_family :
    (k : Crypto) (c d : Setting) (tenant other : Option ℕ) (token : String)
    (rs : List (Setting × (Option ℕ × AuthRequest))) (s : Auth) {x : String} {claims : TokenClaims}
    → (in_request tenant (refresh k c token) s).0 ≡ ok x
    → decode_token Model.refresh (k.jwt_decode d.now token) ≡ some claims
    → let later = perform_all k rs (in_request tenant (refresh k c token) s).1 in
      let (answer, after) = in_request other (refresh k d token) later in
      (answer ≡ err authentication)
      × ((t : RefreshToken) × (get_by_hash (k.hash_token token) s.saved.tokens ≡ some t)
          × (live t.family_id after.saved.tokens ≡ 0))
replay_kills_family k c d tenant other token rs s h dec =
    let ran = finish_ok (refresh k c token (opened tenant s)) h in
    let r = refresh-Rotated k c token (opened tenant s) ran in
    let once = (in_request tenant (refresh k c token) s).1 in
    let kept = finish_saves (refresh k c token (opened tenant s)) ran in
    let spent : get_by_hash (k.hash_token token) once.saved.tokens
        ≡ some (revoked c.now (some c.record_id) r.old) =
      rw (ap (λ db. db.tokens) kept)
        (Rotated-IsSpent k c token (opened tenant s) (refresh k c token (opened tenant s)).1 r) in
    let stays = perform_all-is_spent (k.hash_token token) r.old.family_id k rs once (
      is_spent_if (k.hash_token token) (revoked c.now (some c.record_id) r.old) once.saved.tokens
        spent refl) in
    let (refused, dead) =
      spent_dies k d other token r.old.family_id (perform_all k rs once) dec stays in
    (refused, (r.old, r.found, dead))

change_saves :
    (k : Crypto) (c : Setting) (u : ℕ) (old new : String) (s : Auth)
    → (change_password k c u old new s).0 ≡ ok tt
    → live_of_user u (change_password k c u old new s).1.db.tokens ≡ 0
unfolding change_password
change_saves k c u old new s h = ground (arith, live_of_user-revoke_all c.now u s.db.tokens)

-- A change of password that succeeds ends every session of the user.
pub change_password_ends_sessions :
    (k : Crypto) (c : Setting) (tenant : Option ℕ) (u : ℕ) (old new : String) (s : Auth)
    → (in_request tenant (change_password k c u old new) s).0 ≡ ok tt
    → live_of_user u (in_request tenant (change_password k c u old new) s).1.saved.tokens ≡ 0
change_password_ends_sessions k c tenant u old new s h =
    let ran = finish_ok (change_password k c u old new (opened tenant s)) h in
    rw (ap (λ db. db.tokens) (finish_saves (change_password k c u old new (opened tenant s)) ran))
      (change_saves k c u old new (opened tenant s) ran)

get_by_hash-fresh_id :
    (hash : String) (n : RefreshToken) (ts : List RefreshToken) {t : RefreshToken}
    → taken n ts ≡ false
    → get_by_hash hash ts ≡ some t
    → (n.id == t.id) ≡ false
unfolding get_by_hash taken
get_by_hash-fresh_id hash n [] free h = cc
get_by_hash-fresh_id hash n (u ∷ us) {t} free h =
    ground (arith, get_by_hash-fresh_id hash n us {t = t})

-- What a refresh needs to be granted.
pub record MayRefresh (k : Crypto) (c : Setting) (token : String) (t : RefreshToken) (s : Auth)
    : Type 0 where
  pub claims : TokenClaims
  pub decodes : decode_token Model.refresh (k.jwt_decode c.now token) ≡ some claims
  pub stored : get_by_hash (k.hash_token token) s.db.tokens ≡ some t
  pub on : is_active t ≡ true
  pub fresh : leb t.expires_at c.now ≡ false
  pub person : Principal
  pub loads : load_principal claims.subject (apply_scope claims.tenant_id s) ≡ some person
  pub active : principal_active person ≡ true
  pub free : taken (new_record k c (principal_id person) (some t.family_id)) s.db.tokens ≡ false

scope_keeps : (o : Option ℕ) (s : Auth) → (apply_scope o s).db ≡ s.db
scope_keeps none s = refl
scope_keeps (some t) s = refl

issue_gives :
    (k : Crypto) (c : Setting) (p : Principal) (t : RefreshToken) (s : Auth)
    → taken (new_record k c (principal_id p) (some t.family_id)) s.db.tokens ≡ false
    → (issue_tokens k c p (some t.family_id) (some t) s).0 ≡ ok c.refresh_token
unfolding issue_tokens
issue_gives k c p t s free = rw free refl

refresh_runs :
    (k : Crypto) (c : Setting) (token : String) (t : RefreshToken) (s : Auth)
    → MayRefresh k c token t s
    → (refresh k c token s).0 ≡ ok c.refresh_token
unfolding refresh
refresh_runs k c token t s m =
    rw (m.decodes, m.stored, m.on, m.fresh, m.loads, m.active)
      (issue_gives k c m.person t (apply_scope m.claims.tenant_id s)
        (rw (scope_keeps m.claims.tenant_id s) m.free))

new_first :
    (now r i : ℕ) (hash : String) (n : RefreshToken) (ts : List RefreshToken)
    → n.token_hash ≡ hash
    → (n.id == i) ≡ false
    → get_by_hash hash (revoke now i r (n ∷ ts)) ≡ some n
unfolding get_by_hash revoke
new_first now r i hash n ts e other = ground (arith, eq_iff n.token_hash hash)

-- A refresh with a live, unexpired token of an active principal is granted. What it hands out is
-- then stored live in the family of the token that was presented, and that one is stored revoked,
-- with the new row named as its replacement.
pub refresh_rotates :
    (k : Crypto) (c : Setting) (tenant : Option ℕ) (token : String) (t : RefreshToken) (s : Auth)
    → MayRefresh k c token t (opened tenant s)
    → let (answer, after) = in_request tenant (refresh k c token) s in
      (answer ≡ ok c.refresh_token)
      × ((n : RefreshToken) × (get_by_hash (k.hash_token c.refresh_token) after.saved.tokens
            ≡ some n)
          × (is_active n ≡ true)
          × (n.family_id ≡ t.family_id))
      × (get_by_hash (k.hash_token token) after.saved.tokens
          ≡ some (revoked c.now (some c.record_id) t))
refresh_rotates k c tenant token t s m =
    let ran = refresh_runs k c token t (opened tenant s) m in
    let r = refresh-Rotated k c token (opened tenant s) ran in
    let same : r.old ≡ t = eq_of_some (sym r.found ∙ m.stored) in
    let kept = ap (λ db. db.tokens) (finish_saves (refresh k c token (opened tenant s)) ran) in
    let first : get_by_hash (k.hash_token c.refresh_token)
          (revoke c.now r.old.id c.record_id (r.new ∷ s.saved.tokens))
        ≡ some r.new =
      new_first c.now c.record_id r.old.id (k.hash_token c.refresh_token) r.new s.saved.tokens
        r.new_hash
        (get_by_hash-fresh_id (k.hash_token token) r.new s.saved.tokens r.free r.found) in
    let gone =
      Rotated-IsSpent k c token (opened tenant s) (refresh k c token (opened tenant s)).1 r in
    (
      finish_answers (refresh k c token (opened tenant s)) ran,
      (r.new, rw (kept, r.tokens) first, r.new_on, r.same_family ∙ ap (λ o. o.family_id) same),
      rw kept (rw (← same) gone),
    )
