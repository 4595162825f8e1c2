-- ===== src/Gateway/Server/Logout.antt =====
-- The logout endpoints of internal/gateway/server.go against requireSession.
use shauth.Common.{
  ℕ, ◌+◌, ◌*◌, ◌<◌, String, Bool, true, false, some, List, [], ◌∷◌, ◌≡◌, ◌≢◌, refl, ap, arith,
  Result, ok, err, Commit, All, string_eq, bytes_eq, nat_eq, if◌then◌else◌, Bool-cases, inl, inr,
}
use shauth.Gateway.Store.{
  Bytes, Session, Db, Crypto, Store, Site, Error, find, revoke_browser_token,
}
use shauth.Gateway.Store.Keys.{IsKeyed}
use shauth.Gateway.Store.Logout.{find-revoke_provider_session}
use shauth.Gateway.Store.Stable.{Event, IsFresh, run}
use shauth.Gateway.Store.Token.{IsOther, find-revoke_browser_token}
use shauth.Gateway.Server.{
  Config, Provider, Codec, Request, Response, Moment, SessionError, LogoutClaims, answer, redirect,
  revoking, finding, no_session, store_failed, current_session, require_session, same_origin,
  logout_session, logout, backchannel_logout, end_session, clears_session, issuer_logout,
  token_of_cookie,
}
use shauth.Gateway.Server.Access.{
  require_session-eq-ok, revoke_claimed-status, current_session-eq-ok,
}

module _ (config : Config) (provider : Provider) (codec : Codec) (crypto : Crypto) (store : Store)
    (reached : Site → Bool) (now : Moment → ℕ) where
  -- A back-channel logout that is answered with 200 closes the gateway to the provider session that
  -- its token names: whatever any gateways on the database do before the tombstone's lifetime has
  -- passed, no request is proxied for a session of it, at any later time. The request has one logout
  -- token, with these verified claims, and the database meets its keys.
  pub require_session-backchannel_logout :
      (commit : Commit) (request : Request) (db : Db) (token : String) (claims : LogoutClaims)
      (es : List Event) (reading : Site → Bool) (later : Moment → ℕ) (request' : Request)
      (s : Session)
      → IsKeyed db
      → request.logout_tokens ≡ some (token ∷ [])
      → provider.verify_logout token ≡ some (some claims)
      → (backchannel_logout config provider codec crypto store reached now commit request
          db).1.status
        ≡ 200
      → All (λ e. e.now < now revoking + store.tombstone_lifetime) es
      → require_session config provider codec crypto store reading later request' (
          run es
            (backchannel_logout config provider codec crypto store reached now commit request db).0)
        ≡ ok s
      → s.provider_session_id ≢ claims.provider_session_id
  unfolding backchannel_logout
  require_session-backchannel_logout commit request db token claims es reading later request' s
        keyed one verified done early proxied =
      elim (Bool-cases request.is_form) [
        | inr other ↦ absurd (omega (arith, rw other at done))
        | inl form ↦
            let (revoked, rows) =
              revoke_claimed-status config provider codec crypto store reached now commit claims db
                (rw (form, one, verified) at done) in
            let through = rw (form, one, verified) at proxied in
            let (t, _, hit) =
              require_session-eq-ok config provider codec crypto store reading later request' _ s
                (rw rows at through) in
            find-revoke_provider_session store reached commit claims.provider_session_id
              (now revoking) db keyed claims.token_id (claims.expires_at * 1000000) es crypto
              reading t _ s revoked early hit
      ]

  logout_session-ends :
      (s : Session) (t : Bytes) (db : Db) (id_token : Bytes)
      → (logout_session config provider codec crypto store reached now s t db).1.location
        ≡ some (end_session id_token)
      → ((revoke_browser_token crypto store reached t (now revoking) db).1 ≡ ok tt)
        × ((logout_session config provider codec crypto store reached now s t db).0
            ≡ (revoke_browser_token crypto store reached t (now revoking) db).0)
  unfolding logout_session
  logout_session-ends s t db id_token h =
      go (revoke_browser_token crypto store reached t (now revoking) db) h
    where
      go :
          (result : Db × Result Error (Unit {0}))
          → (let after : Db × Response = elim result.1 [
            | err e ↦ (result.0, answer 500 [])
            | ok u ↦ (result.0, redirect 303 (end_session s.id_token) (clears_session ∷ []))
          ] in
              after.1.location ≡ some (end_session id_token)
              → (result.1 ≡ ok tt) × (after.0 ≡ result.0))
      go (db', ok u) e = (refl, refl)
      go (db', err x) e = absurd (ground arith)

  logout-ends :
      (request : Request) (db : Db) (id_token : Bytes)
      → (logout config provider codec crypto store reached now request db).1.location
        ≡ some (end_session id_token)
      → (t : Bytes) × (token_of_cookie codec request.session_cookie ≡ some t)
        × ((revoke_browser_token crypto store reached t (now revoking) db).1 ≡ ok tt)
        × ((logout config provider codec crypto store reached now request db).0
            ≡ (revoke_browser_token crypto store reached t (now revoking) db).0)
  unfolding logout
  logout-ends request db id_token h =
      go (same_origin config provider codec crypto store reached now request)
        (current_session config provider codec crypto store reached now request db)
        (current_session-eq-ok config provider codec crypto store reached now request db) h
    where
      go :
          (same : Bool) (r : Result SessionError (Session × Bytes))
          → ((s : Session) (t : Bytes)
              → r ≡ ok (s, t)
              → (token_of_cookie codec request.session_cookie ≡ some t)
                × (find crypto store reached t (now finding) db ≡ ok s))
          → (let after : Db × Response =
                if same
                then elim r [
                  | err no_session ↦ (db, redirect 303 issuer_logout (clears_session ∷ []))
                  | err store_failed ↦ (db, answer 503 [])
                  | ok (s, token) ↦
                      logout_session config provider codec crypto store reached now s token db
                ]
                else (db, answer 403 []) in
              after.1.location ≡ some (end_session id_token)
              → (t : Bytes) × (token_of_cookie codec request.session_cookie ≡ some t)
                × ((revoke_browser_token crypto store reached t (now revoking) db).1 ≡ ok tt)
                × (after.0 ≡ (revoke_browser_token crypto store reached t (now revoking) db).0))
      go false r known e = absurd (ground arith)
      go true (err no_session) known e = absurd (ground arith)
      go true (err store_failed) known e = absurd (ground arith)
      go true (ok (s, t)) known e =
          let (done, rows) = logout_session-ends s t db id_token e in
          (t, (known s t refl).0, done, rows)

  -- A logout that sends the browser to the provider's end-session endpoint ended the session of the
  -- request's cookie: no request with that cookie is proxied at any time after it, whatever history
  -- of gateways on the database follows in which no session is stored under a token with the hash
  -- of the cookie's token.
  pub require_session-logout :
      (request : Request) (db : Db) (id_token : Bytes) (reading : Site → Bool) (later : Moment → ℕ)
      (request' : Request) (es : List Event) (s : Session)
      → (logout config provider codec crypto store reached now request db).1.location
        ≡ some (end_session id_token)
      → request'.session_cookie ≡ request.session_cookie
      → ((token : Bytes)
          → token_of_cookie codec request.session_cookie ≡ some token
          → All (λ e. IsFresh (IsOther crypto token) e e.call) es)
      → require_session config provider codec crypto store reading later request'
          (run es (logout config provider codec crypto store reached now request db).0)
        ≢ ok s
  require_session-logout request db id_token reading later request' es s left same fresh proxied =
      let (t, cookie, done, rows) = logout-ends request db id_token left in
      let (t', cookie', hit) =
        require_session-eq-ok config provider codec crypto store reading later request' _ s
          (rw rows at proxied) in
      let token : t' ≡ t = ground (arith, cookie', ap (token_of_cookie codec) same, cookie) in
      find-revoke_browser_token crypto store reached reading t (now revoking) (later finding) db es
        s done (fresh t cookie) (rw token at hit)
