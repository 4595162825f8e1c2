-- ===== src/Gateway/Store/Logout.antt =====
-- A recorded logout against every cookie and every later history.
use shauth.Common.{
  ℕ, ◌+◌, ◌<◌, String, Bool, Option, some, List, ◌≡◌, arith, Commit, ok, All, All-find_first,
  find_first, find_first_sound, ◌≢◌, inl, inr, Option-cases, ltb, length, eq_iff, bytes_eq,
  string_eq, Bool-cases,
}
use shauth.Gateway.Store.{
  Bytes, Session, SessionRow, Db, Crypto, Store, Site, find, matches_cookie, decrypt_session,
  opened_session, revoke_frontchannel_session, revoke_provider_session,
}
use shauth.Gateway.Store.Fence.{IsEnded, IsFenced, run-IsFenced}
use shauth.Gateway.Store.Keys.{IsKeyed}
use shauth.Gateway.Store.Revocation.{
  revoke_frontchannel_session-IsFenced, revoke_provider_session-IsFenced,
}
use shauth.Gateway.Store.Stable.{Event, run}

opened_session-sid :
    (s : SessionRow) (o : Option Bytes) (session : Session)
    → opened_session s o ≡ ok session
    → session.provider_session_id ≡ s.provider_session_id
unfolding opened_session
opened_session-sid s o session e = ground arith

decrypt_session-sid :
    (crypto : Crypto) (store : Store) (s : SessionRow) (session : Session)
    → decrypt_session crypto store s ≡ ok session
    → session.provider_session_id ≡ s.provider_session_id
unfolding decrypt_session
decrypt_session-sid crypto store s session e =
    elim (Bool-cases (ltb (length s.id_token_ciphertext) crypto.nonce_size)) [
      | inl short ↦ absurd (cc (rw short at e))
      | inr long ↦ opened_session-sid s _ session (rw long at e)
    ]

-- A session that is found comes from a row that the query returned.
pub find-row :
    (crypto : Crypto) (store : Store) (reached : Site → Bool) (token : Bytes) (now : ℕ) (db : Db)
    (session : Session)
    → find crypto store reached token now db ≡ ok session
    → (s : SessionRow) × (find_first
          (matches_cookie crypto store (crypto.sha256 token) now)
          db.sessions
        ≡ some s)
      × (decrypt_session crypto store s ≡ ok session)
unfolding find
find-row crypto store reached token now db session e =
    elim (Option-cases
      (find_first (matches_cookie crypto store (crypto.sha256 token) now) db.sessions)) [
        | inl missing ↦ absurd (ground arith)
        | inr (s, found) ↦ (s, found, ground arith)
      ]

-- No cookie names a session of a fenced provider session.
pub find-ne-fenced :
    (crypto : Crypto) (store : Store) (reached : Site → Bool) (sid : String) (until : ℕ)
    (token : Bytes) (now : ℕ) (db : Db) (session : Session)
    → IsFenced store.client_id store.issuer sid until db
    → find crypto store reached token now db ≡ ok session
    → session.provider_session_id ≢ sid
unfolding matches_cookie
find-ne-fenced crypto store reached sid until token now db session f e same =
    let (s, found, opened) = find-row crypto store reached token now db session e in
    let ended =
      All-find_first (IsEnded store.client_id store.issuer sid until) _ db.sessions s f.ended
        found in
    let hit = find_first_sound _ db.sessions s found in
    let sid_is = decrypt_session-sid crypto store s session opened in
    ground
      (arith, hit, sid_is, ended, eq_iff s.client_id store.client_id, eq_iff s.issuer store.issuer)

module _ (store : Store) (reached : Site → Bool) (commit : Commit) (sid : String) (now : ℕ)
    (db : Db) (keyed : IsKeyed db) where
  -- After a back-channel logout that succeeded, and whatever any gateways on the database do before
  -- the tombstone's lifetime has passed, no cookie finds a session of that provider session, at any
  -- later time. The database meets its keys when the logout runs.
  pub find-revoke_provider_session :
      (jti : String) (expires_at : ℕ) (es : List Event) (crypto : Crypto) (reading : Site → Bool)
      (token : Bytes) (later : ℕ) (session : Session)
      → (revoke_provider_session store reached commit sid jti expires_at now db).1 ≡ ok tt
      → All (λ e. e.now < now + store.tombstone_lifetime) es
      → find crypto store reading token later
          (run es (revoke_provider_session store reached commit sid jti expires_at now db).0)
        ≡ ok session
      → session.provider_session_id ≢ sid
  find-revoke_provider_session jti expires_at es crypto reading token later session done early e =
      find-ne-fenced crypto store reading sid (now + store.tombstone_lifetime) token later _ session
        (run-IsFenced store.client_id store.issuer sid _ es _ early (
          revoke_provider_session-IsFenced store reached sid now commit jti expires_at db keyed
            done))
        e

  -- After a front-channel logout that succeeded, and whatever any gateways on the database do before
  -- the tombstone's lifetime has passed, no cookie finds a session of that provider session, at any
  -- later time. The database meets its keys when the logout runs.
  pub find-revoke_frontchannel_session :
      (es : List Event) (crypto : Crypto) (reading : Site → Bool) (token : Bytes) (later : ℕ)
      (session : Session)
      → (revoke_frontchannel_session store reached commit sid now db).1 ≡ ok tt
      → All (λ e. e.now < now + store.tombstone_lifetime) es
      → find crypto store reading token later
          (run es (revoke_frontchannel_session store reached commit sid now db).0)
        ≡ ok session
      → session.provider_session_id ≢ sid
  find-revoke_frontchannel_session es crypto reading token later session done early e =
      find-ne-fenced crypto store reading sid (now + store.tombstone_lifetime) token later _ session
        (run-IsFenced store.client_id store.issuer sid _ es _ early
          (revoke_frontchannel_session-IsFenced store reached sid now commit db keyed done))
        e
