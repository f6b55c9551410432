-- ===== src/Auth/Session/Rotation.antt =====
-- The rotation of a refresh token, and its end.
use saa_s_app_be.Prelude.{
  ℕ, ◌<◌, String, ◌≡◌, refl, ap, sym, ◌∙◌, true, false, Option, none, some, arith, eq_iff, eq_refl,
  ◌==◌, Bool-cases, Option-cases, inl, inr, if◌then◌else◌, leb,
}
use saa_s_app_be.Text.Token.{OpaqueToken, parse_token, format_token}
use saa_s_app_be.Action.{ok, err}
use saa_s_app_be.Host.{Host}
use saa_s_app_be.Auth.Model.{Db, User, Draw, RefreshToken}
use saa_s_app_be.Auth.Repositories.RefreshTokens.{delete_by_jti, create_token, find_by_jti}
use saa_s_app_be.Auth.Repositories.Users.{find_active_tenant, find_by_id}
use saa_s_app_be.Auth.Session.{
  AuthSession, invalid_refresh, issue_token_pair, session_of, refresh_record, refresh_expires_at,
  rotate_for, rotate, refresh, assert_may_hold_session, assert_tenant_active_for_auth,
}
use saa_s_app_be.Auth.Session.Laws.{MayHoldSession, issue_token_pair-eq-ok}

module _ (host : Host) where
  open host use {bcrypt_compare, compare-hash}

  find-delete_by_jti :
      (j k : String) (s : Db host)
      → find_by_jti host j (delete_by_jti host k s).1
        ≡ (if k == j then none else find_by_jti host j s)
  unfolding find_by_jti delete_by_jti
  find-delete_by_jti j k s = host.mongo.find-delete_one j k s.refresh_tokens

  delete_by_jti_answer : (k : String) (s : Db host) → (delete_by_jti host k s).0 ≡ ok tt
  unfolding delete_by_jti
  delete_by_jti_answer k s = refl

  MayHoldSession-delete_by_jti :
      (user : User) (k : String) (s : Db host)
      → MayHoldSession host user (delete_by_jti host k s).1
      → MayHoldSession host user s
  unfolding delete_by_jti find_active_tenant
  MayHoldSession-delete_by_jti user k s h = h

  -- Issuing a token pair touches no refresh token but its own.
  find-issue_token_pair :
      (now : ℕ) (draw : Draw) (user : User) (family : Option String) (s : Db host) (j : String)
      → (draw.jti == j) ≡ false
      → find_by_jti host j (issue_token_pair host now draw user family s).1 ≡ find_by_jti host j s
  unfolding issue_token_pair create_token find_by_jti refresh_record assert_may_hold_session
      assert_tenant_active_for_auth
  find-issue_token_pair now draw user family s j other = ground (
    arith,
    host.mongo.find-insert j draw.jti (refresh_record host now draw user family) s.refresh_tokens,
  )

  -- The old record and its user behind a refresh that returned a session, and what is stored after.
  pub record IsRotated (now : ℕ) (draw : Draw) (raw : String) (s : Db host) (r : AuthSession)
      : Type 0 where
    pub parsed : OpaqueToken
    pub parses : parse_token raw ≡ some parsed
    pub old : RefreshToken
    pub user : User
    pub is_stored : find_by_jti host parsed.jti s ≡ some old
    pub unexpired : now < old.expires_at
    pub secret_fits : bcrypt_compare parsed.secret old.secret_hash ≡ true
    pub found : find_by_id host old.user_id s ≡ some user
    pub may : MayHoldSession host user s
    pub session_is : r ≡ session_of host now draw user
    pub session_user : r.user.id ≡ user.id
    pub session_token : r.refresh_token ≡ format_token draw.jti draw.secret
    pub new : RefreshToken
    pub fresh : find_by_jti host draw.jti (refresh host now draw raw s).1 ≡ some new
    pub same_family : new.family_id ≡ old.family_id
    pub same_user : new.user_id ≡ user.id
    pub own_secret : bcrypt_compare draw.secret new.secret_hash ≡ true
    pub expiry : new.expires_at ≡ refresh_expires_at host now
    pub gone :
        find_by_jti host parsed.jti (refresh host now draw raw s).1
        ≡ (if draw.jti == parsed.jti then some new else none)

  rotation_of :
      (now : ℕ) (draw : Draw) (raw : String) (s : Db host) (r : AuthSession) (p : OpaqueToken)
      (old : RefreshToken) (user : User)
      → parse_token raw ≡ some p
      → find_by_jti host p.jti s ≡ some old
      → leb old.expires_at now ≡ false
      → bcrypt_compare p.secret old.secret_hash ≡ true
      → find_by_id host old.user_id s ≡ some user
      → (refresh host now draw raw s).0 ≡ ok r
      → IsRotated now draw raw s r
  unfolding refresh rotate rotate_for refresh_record session_of
  rotation_of now draw raw s r p old user parses stored early fits found h =
      let t = (delete_by_jti host p.jti s).1 in
      let is : refresh host now draw raw s
          ≡ issue_token_pair host now draw user (some old.family_id) t =
        rw (parses, stored, early, fits, found, delete_by_jti_answer p.jti s) refl in
      let (same, may, free, fresh) =
        issue_token_pair-eq-ok host now draw user (some old.family_id) t r (rw is at h) in
      let new : find_by_jti host draw.jti (refresh host now draw raw s).1
          ≡ some (refresh_record host now draw user (some old.family_id)) =
        rw is fresh in
      record {
        parsed = p;
        parses = parses;
        old = old;
        user = user;
        is_stored = stored;
        unexpired = ground arith;
        secret_fits = fits;
        found = found;
        may = MayHoldSession-delete_by_jti user p.jti s may;
        session_is = same;
        session_user = ap (λ x. x.user.id) same;
        session_token = ap (λ x. x.refresh_token) same;
        new = refresh_record host now draw user (some old.family_id);
        fresh = new;
        same_family = refl;
        same_user = refl;
        own_secret = compare-hash draw.salt draw.secret;
        expiry = refl;
        gone = elim (Bool-cases (draw.jti == p.jti)) [
          | inl same_jti ↦
              ap (λ j. find_by_jti host j (refresh host now draw raw s).1)
                (sym ((eq_iff draw.jti p.jti).0 same_jti))
              ∙ new
              ∙ (rw same_jti refl)
          | inr other ↦
              ap (λ x. find_by_jti host p.jti x.1) is
              ∙ find-issue_token_pair now draw user (some old.family_id) t p.jti other
              ∙ find-delete_by_jti p.jti p.jti s
              ∙ (rw (eq_refl p.jti, other) refl)
        ];
      }

  rotate-eq-ok :
      (now : ℕ) (draw : Draw) (p : OpaqueToken) (old : RefreshToken) (s : Db host) (r : AuthSession)
      → (rotate host now draw p old s).0 ≡ ok r
      → (user : User) × (leb old.expires_at now ≡ false)
        × (bcrypt_compare p.secret old.secret_hash ≡ true)
        × (find_by_id host old.user_id s ≡ some user)
  unfolding rotate rotate_for
  rotate-eq-ok now draw p old s r h = elim (Bool-cases (leb old.expires_at now)) [
    | inl late ↦ absurd (ground (arith, delete_by_jti_answer p.jti s))
    | inr early ↦ elim (Bool-cases (bcrypt_compare p.secret old.secret_hash)) [
      | inr other ↦ absurd (ground arith)
      | inl fits ↦ elim (Option-cases (find_by_id host old.user_id s)) [
        | inl missing ↦ absurd (ground (arith, delete_by_jti_answer p.jti s))
        | inr (user, found) ↦ (user, early, fits, found)
      ]
    ]
  ]

  -- When `refresh` returns a session, the token is that of a stored record that has not expired and
  -- whose secret it carries; the user of the record is stored and may hold a session; the session is
  -- that user's and carries the drawn refresh token; the new record is stored under the drawn
  -- identifier, for that user, with the family of the old one, a hash that the drawn secret fits and
  -- the expiry of a token issued now; and the old record is gone, or replaced by the new one if both
  -- have one identifier.
  pub refresh_rotates :
      (now : ℕ) (draw : Draw) (raw : String) (s : Db host) (r : AuthSession)
      → (refresh host now draw raw s).0 ≡ ok r
      → IsRotated now draw raw s r
  unfolding refresh
  refresh_rotates now draw raw s r h = elim (Option-cases (parse_token raw)) [
    | inl unparsed ↦ absurd (ground arith)
    | inr (p, parses) ↦ elim (Option-cases (find_by_jti host p.jti s)) [
      | inl missing ↦ absurd (ground arith)
      | inr (old, stored) ↦
          let (user, early, fits, found) =
            rotate-eq-ok now draw p old s r (rw (parses, stored) at h) in
          rotation_of now draw raw s r p old user parses stored early fits found h
    ]
  ]

  refused_unstored :
      (later : ℕ) (draw : Draw) (raw : String) (p : OpaqueToken) (t : Db host)
      → parse_token raw ≡ some p
      → find_by_jti host p.jti t ≡ none
      → (refresh host later draw raw t).0 ≡ err invalid_refresh
  unfolding refresh
  refused_unstored later draw raw p t parses gone = rw (parses, gone) refl

  -- A refresh token that was rotated is refused when it comes again, if the drawn identifier of the
  -- new one is another.
  pub rotated_token_refused :
      (now later : ℕ) (draw draw' : Draw) (raw : String) (p : OpaqueToken) (s : Db host)
      (r : AuthSession)
      → parse_token raw ≡ some p
      → (draw.jti == p.jti) ≡ false
      → (refresh host now draw raw s).0 ≡ ok r
      → (refresh host later draw' raw (refresh host now draw raw s).1).0 ≡ err invalid_refresh
  rotated_token_refused now later draw draw' raw p s r parses other h =
      let rotated = refresh_rotates now draw raw s r h in
      let same : p ≡ rotated.parsed = ground (arith, parses, rotated.parses) in
      refused_unstored later draw' raw p (refresh host now draw raw s).1 parses (
        ap (λ q. find_by_jti host q.jti (refresh host now draw raw s).1) same
        ∙ rotated.gone
        ∙ (rw (← same, other) refl))
