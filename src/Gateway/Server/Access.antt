-- ===== src/Gateway/Server/Access.antt =====
-- The session behind a request of internal/gateway/server.go, and the answers of its handlers.
use shauth.Common.{
  ℕ, ◌*◌, Bool, true, false, not, ◌||◌, Option, none, some, [], ◌∷◌, ◌≡◌, refl, sym, ◌∙◌, ap, arith,
  Result, ok, err, Commit, ltb, ◌==◌, string_eq, bytes_eq, nat_eq, if◌then◌else◌,
}
use shauth.Gateway.Store.{
  Bytes, Session, Db, Crypto, Store, Site, Error, find, revoke_provider_session, token_replayed,
}
use shauth.Gateway.Server.{
  Config, Provider, Codec, Request, Response, Moment, SessionError, LogoutClaims, Target, answer,
  redirect, finding, revoking, checking, no_session, store_failed, found_session, token_of_cookie,
  current_session, require_session, revoke_claimed, is_recent, has_logout_claims, clears_session,
}

module _ (config : Config) (provider : Provider) (codec : Codec) (crypto : Crypto) (store : Store)
    (reached : Site → Bool) (now : Moment → ℕ) where
  found_session-eq-ok :
      (token : Bytes) (r : Result Error Session) (s : Session) (t : Bytes)
      → found_session token r ≡ ok (s, t)
      → (r ≡ ok s) × (t ≡ token)
  found_session-eq-ok token (ok s0) s t e = (ground arith, ground arith)
  found_session-eq-ok token (err x) s t e = absurd (ground (arith, e))

  -- The session of a request is one that its cookie's token finds.
  pub current_session-eq-ok :
      (request : Request) (db : Db) (s : Session) (t : Bytes)
      → current_session config provider codec crypto store reached now request db ≡ ok (s, t)
      → (token_of_cookie codec request.session_cookie ≡ some t)
        × (find crypto store reached t (now finding) db ≡ ok s)
  unfolding current_session
  current_session-eq-ok request db s t e = go (token_of_cookie codec request.session_cookie) e
    where
      go :
          (o : Option Bytes)
          → (let r : Result SessionError (Session × Bytes) = elim o [
            | none ↦ err no_session
            | some token ↦ found_session token (find crypto store reached token (now finding) db)
          ] in
              r ≡ ok (s, t))
          → (o ≡ some t) × (find crypto store reached t (now finding) db ≡ ok s)
      go none h = absurd (ground arith)
      go (some token) h =
          let (hit, same) = found_session-eq-ok token _ s t h in (ap some (sym same), rw same hit)

  -- A proxied request has a cookie whose token finds its session.
  pub require_session-eq-ok :
      (request : Request) (db : Db) (s : Session)
      → require_session config provider codec crypto store reached now request db ≡ ok s
      → (t : Bytes) × (token_of_cookie codec request.session_cookie ≡ some t)
        × (find crypto store reached t (now finding) db ≡ ok s)
  unfolding require_session
  require_session-eq-ok request db s e =
      go (current_session config provider codec crypto store reached now request db)
        (current_session-eq-ok request db) e
    where
      go :
          (r : Result SessionError (Session × Bytes))
          → ((s : Session) (t : Bytes)
              → r ≡ ok (s, t)
              → (token_of_cookie codec request.session_cookie ≡ some t)
                × (find crypto store reached t (now finding) db ≡ ok s))
          → (let out : Result Response Session = elim r [
            | ok (s, token) ↦ ok s
            | err store_failed ↦ err (answer 503 [])
            | err no_session ↦
                if request.method == "GET" || request.method == "HEAD"
                then elim request.session_cookie [
                  | some value ↦ err (redirect 302 Target.signed_out (clears_session ∷ []))
                  | none ↦ err (redirect 302 Target.gateway_login [])
                ]
                else err (answer 401 [])
          ] in
              out ≡ ok s)
          → (t : Bytes) × (token_of_cookie codec request.session_cookie ≡ some t)
            × (find crypto store reached t (now finding) db ≡ ok s)
      go (ok (s', t)) known h =
          let same : s' ≡ s = ground arith in
          let (cookie, hit) = known s' t refl in (t, cookie, hit ∙ ap ok same)
      go (err store_failed) known h = absurd (ground arith)
      go (err no_session) known h = absurd (ground arith)

  pub revoke_claimed-status :
      (commit : Commit) (claims : LogoutClaims) (db : Db)
      → (revoke_claimed config provider codec crypto store reached now commit claims db).1.status
        ≡ 200
      → ((revoke_provider_session store reached commit claims.provider_session_id claims.token_id
            (claims.expires_at * 1000000)
            (now revoking)
            db).1
          ≡ ok tt)
        × ((revoke_claimed config provider codec crypto store reached now commit claims db).0
            ≡ (revoke_provider_session store reached commit claims.provider_session_id
                claims.token_id
                (claims.expires_at * 1000000)
                (now revoking)
                db).0)
  unfolding revoke_claimed
  revoke_claimed-status commit claims db h =
      go
        (not (has_logout_claims claims)
          || (not claims.has_logout_event
              || (not (is_recent (now checking) claims.issued_at)
                  || ltb (claims.expires_at * 1000000) (now checking))))
        (revoke_provider_session store reached commit claims.provider_session_id claims.token_id
          (claims.expires_at * 1000000) (now revoking) db)
        h
    where
      go :
          (refused : Bool) (result : Db × Result Error (Unit {0}))
          → (let after : Db × Response = if refused then (db, answer 400 []) else elim result.1 [
            | err token_replayed ↦ (result.0, answer 400 [])
            | err e ↦ (result.0, answer 500 [])
            | ok u ↦ (result.0, answer 200 [])
          ] in
              after.1.status ≡ 200 → (result.1 ≡ ok tt) × (after.0 ≡ result.0))
      go true result h = absurd (ground arith)
      go false (db', ok u) h = (refl, refl)
      go false (db', err x) h = absurd (ground (arith, h))
