-- ===== src/Gateway/Store.antt =====
-- internal/gateway/store.go and the tables of internal/gateway/migrations: application sessions,
-- logout tombstones and spent logout tokens, with the operations that change them.
pub mod Fence
pub mod Keys
pub mod Revocation
pub mod Stable
pub mod Logout
pub mod Replay
pub mod Sessions
mod Tests
pub mod Token
use shauth.Common.{
  ℕ, ◌+◌, min, max, String, Bool, true, false, not, ◌&&◌, ◌||◌, Option, none, some, List, [], ◌∷◌,
  ◌++◌, ◌≡◌, Result, ok, err, Step, ◌>>=◌, ◌>>◌, return, fail, require, exec, query, Commit,
  transaction, statement, ltb, leb, ◌==◌, nat_eq, string_eq, bytes_eq, is_none, if◌then◌else◌,
  length, take, drop, any, keep, find_first, update_where, delete_where, delete_first, order_by,
  insert_by, steps,
}

abbrev pub Bytes : Type 0
Bytes = List ℕ

-- Times and durations are microseconds, the resolution of a stored timestamp.
abbrev pub hour : ℕ
hour = 3_600_000_000

pub record Session : Type 0 where
  pub id : String
  pub subject : String
  pub provider_session_id : String
  pub id_token : Bytes
  pub username : String
  pub email : String
  pub role : String
  pub expires_at : ℕ

-- A row of oidc_gateway_sessions.
pub record SessionRow : Type 0 where
  pub id : String
  pub client_id : String
  pub token_hash : Bytes
  pub issuer : String
  pub subject : String
  pub provider_session_id : String
  pub id_token_ciphertext : Bytes
  pub username : String
  pub email : String
  pub role : String
  pub created_at : ℕ
  pub expires_at : ℕ
  pub revoked_at : Option ℕ

-- A row of oidc_gateway_logout_tokens.
pub record LogoutToken : Type 0 where
  pub client_id : String
  pub token_id : String
  pub expires_at : ℕ

-- A row of oidc_gateway_logout_tombstones.
pub record Tombstone : Type 0 where
  pub client_id : String
  pub issuer : String
  pub provider_session_id : String
  pub created_at : ℕ
  pub expires_at : ℕ

pub record Db : Type 0 where
  pub sessions : List SessionRow
  pub tokens : List LogoutToken
  pub tombstones : List Tombstone

-- crypto/sha256, crypto/cipher and encoding/json, which the store calls, and PostgreSQL's uuid type:
-- the text that it writes for a text that it reads, blank for one that is no UUID. Opening what was
-- sealed under the same nonce and additional data gives it back.
pub record Crypto : Type 0 where
  pub sha256 : Bytes → Bytes
  pub nonce_size : ℕ
  pub seal : Bytes → Bytes → Bytes → Bytes
  pub unseal : Bytes → Bytes → Bytes → Option Bytes
  pub marshal : List String → Bytes
  pub uuid_text : String → String
  pub unseal_seal :
      (nonce plain data' : Bytes)
      → length nonce ≡ nonce_size
      → unseal nonce (seal nonce plain data') data' ≡ some plain

pub record Store : Type 0 where
  pub client_id : String
  pub issuer : String
  pub tombstone_lifetime : ℕ

-- The calls of the database that can fail, one for each statement.
pub data Site : Type 0 where
  begin lock sweep_tombstones sweep_sessions sweep_tokens read_tombstone insert_session : Site
  insert_token record_tombstone revoke_sessions revoke_token find_session : Site

pub data Error : Type 0 where
  unreachable : Site → Error
  no_nonce session_id_required logged_out constraint_violated : Error
  session_not_found token_replayed commit_failed bad_lifetime : Error

abbrev pub Op : Type 0 → Type 0
Op = Step Db Error

abbrev pub retention_sweep_limit : ℕ
retention_sweep_limit = 500

abbrev pub ended_session_retention : ℕ
ended_session_retention = hour

unfoldable pub new_store : String → String → ℕ → Result Error Store
new_store client_id issuer lifetime =
    if lifetime == 0
    then err bad_lifetime
    else ok (record { client_id = client_id; issuer = issuer; tombstone_lifetime = lifetime })

abbrev pub is_long_revoked : ℕ → Option ℕ → Bool
is_long_revoked now none = false
is_long_revoked now (some t) = leb (t + ended_session_retention) now

-- The columns that the WHERE clauses test.
abbrev pub names_tombstone : String → String → String → Tombstone → Bool
names_tombstone client issuer sid t =
    t.client_id == client && (t.issuer == issuer && t.provider_session_id == sid)

abbrev pub same_tombstone : Tombstone → Tombstone → Bool
same_tombstone v t = names_tombstone v.client_id v.issuer v.provider_session_id t

unfoldable pub delete_expired_tombstones : ℕ → ℕ → List Tombstone → List Tombstone
delete_expired_tombstones now limit rows =
    let expired =
      take limit (order_by (λ t. t.expires_at) (keep (λ t. leb t.expires_at now) rows)) in
    delete_where (λ t. any (λ v. same_tombstone v t) expired) rows

unfoldable pub delete_expired_tokens : String → ℕ → List LogoutToken → List LogoutToken
delete_expired_tokens client now rows =
    delete_first retention_sweep_limit (λ t. t.client_id == client && leb t.expires_at now) rows

-- `$2` is `now` less the retention; the retention is added on the other side instead.
unfoldable pub delete_ended_sessions : String → ℕ → List SessionRow → List SessionRow
delete_ended_sessions client now rows =
    delete_first retention_sweep_limit
      (λ s.
        s.client_id == client
        && (leb (s.expires_at + ended_session_retention) now || is_long_revoked now s.revoked_at))
      rows

abbrev pub is_tombstoned : String → String → String → ℕ → List Tombstone → Bool
is_tombstoned client issuer sid now rows =
    any (λ t. names_tombstone client issuer sid t && ltb now t.expires_at) rows

-- INSERT … ON CONFLICT DO UPDATE keeps the earlier creation and the later expiry.
unfoldable pub upsert_tombstone : Tombstone → List Tombstone → List Tombstone
upsert_tombstone v [] = v ∷ []
upsert_tombstone v (t ∷ ts) =
    if same_tombstone v t
    then record t {
      created_at = min t.created_at v.created_at;
      expires_at = max t.expires_at v.expires_at;
    }
      ∷ ts
    else t ∷ upsert_tombstone v ts

abbrev pub is_unrevoked_of : String → String → String → SessionRow → Bool
is_unrevoked_of client issuer sid s =
    s.client_id == client
    && (s.issuer == issuer && (s.provider_session_id == sid && is_none s.revoked_at))

abbrev pub revoke_at : ℕ → SessionRow → SessionRow
revoke_at now s = record s { revoked_at = some now }

module _ (store : Store) (reached : Site → Bool) where
  pub lock_provider_session : String → Op (Unit {0})
  lock_provider_session sid = do
    require (not (sid == "")) session_id_required
    exec (reached lock) (unreachable lock) (λ db. db)

  pub sweep_expired_tombstones : ℕ → Op (Unit {0})
  sweep_expired_tombstones now =
      exec (reached sweep_tombstones) (unreachable sweep_tombstones)
        λ db. record db { tombstones = delete_expired_tombstones now 1000 db.tombstones }

  pub sweep_expired_tokens : ℕ → Op (Unit {0})
  sweep_expired_tokens now =
      exec (reached sweep_tokens) (unreachable sweep_tokens)
        λ db. record db { tokens = delete_expired_tokens store.client_id now db.tokens }

  pub sweep_ended_sessions : ℕ → Op (Unit {0})
  sweep_ended_sessions now =
      exec (reached sweep_sessions) (unreachable sweep_sessions)
        λ db. record db { sessions = delete_ended_sessions store.client_id now db.sessions }

  -- The row must meet CHECK (expires_at > created_at).
  pub record_logout_tombstone : String → ℕ → Op (Unit {0})
  unfolding sweep_expired_tombstones
  record_logout_tombstone sid now = do
    sweep_expired_tombstones now
    require (ltb now (now + store.tombstone_lifetime)) constraint_violated
    exec (reached record_tombstone) (unreachable record_tombstone) λ db. record db {
      tombstones =
          upsert_tombstone
            (record {
              client_id = store.client_id;
              issuer = store.issuer;
              provider_session_id = sid;
              created_at = now;
              expires_at = now + store.tombstone_lifetime;
            })
            db.tombstones;
    }

  pub revoke_provider_sessions : String → ℕ → Op (Unit {0})
  revoke_provider_sessions sid now =
      exec (reached revoke_sessions) (unreachable revoke_sessions) λ db. record db {
        sessions =
            update_where (is_unrevoked_of store.client_id store.issuer sid) (revoke_at now)
              db.sessions;
      }

  -- What a new session must meet: its identifier is a UUID, it and the token's hash are new, and its
  -- role is one of the two.
  pub is_insertable : SessionRow → Db → Bool
  is_insertable row db =
      not (row.id == "")
      && (not (any (λ s. s.id == row.id || s.token_hash == row.token_hash) db.sessions)
          && (row.role == "developer" || row.role == "admin"))

  pub insert_row : SessionRow → Op (Unit {0})
  unfolding is_insertable
  insert_row row = do
    exec (reached insert_session) (unreachable insert_session) (λ db. db)
    fits ← query true constraint_violated (is_insertable row)
    require fits constraint_violated
    exec true constraint_violated (λ db. record db { sessions = row ∷ db.sessions })

  pub insert_unless_tombstoned : SessionRow → ℕ → Op (Unit {0})
  unfolding insert_row
  insert_unless_tombstoned row now = do
    tombstoned ←
        query (reached read_tombstone) (unreachable read_tombstone)
          λ db. is_tombstoned store.client_id store.issuer row.provider_session_id now db.tombstones
    require (not tombstoned) logged_out
    insert_row row

  pub create_in_transaction : SessionRow → ℕ → Op (Unit {0})
  create_in_transaction row now = do
    exec (reached begin) (unreachable begin) (λ db. db)
    lock_provider_session row.provider_session_id
    sweep_expired_tombstones now
    sweep_ended_sessions now
    sweep_expired_tokens now
    insert_unless_tombstoned row now

  pub revoke_frontchannel_in_transaction : String → ℕ → Op (Unit {0})
  revoke_frontchannel_in_transaction sid now = do
    exec (reached begin) (unreachable begin) (λ db. db)
    lock_provider_session sid
    record_logout_tombstone sid now
    revoke_provider_sessions sid now

  -- A second row for one token identifier breaks the primary key: a replay.
  pub insert_logout_token : String → ℕ → Op (Unit {0})
  insert_logout_token jti expires_at = do
    exec (reached insert_token) (unreachable insert_token) (λ db. db)
    spent ←
        query true token_replayed
          λ db. any (λ t. t.client_id == store.client_id && t.token_id == jti) db.tokens
    require (not spent) token_replayed
    exec true token_replayed λ db. record db {
      tokens =
          record { client_id = store.client_id; token_id = jti; expires_at = expires_at }
          ∷ db.tokens;
    }

  pub revoke_provider_in_transaction : String → String → ℕ → ℕ → Op (Unit {0})
  revoke_provider_in_transaction sid jti expires_at now = do
    exec (reached begin) (unreachable begin) (λ db. db)
    lock_provider_session sid
    sweep_expired_tokens now
    insert_logout_token jti expires_at
    record_logout_tombstone sid now
    revoke_provider_sessions sid now

  pub revoke_frontchannel_session : Commit → String → ℕ → Db → Db × Result Error (Unit {0})
  revoke_frontchannel_session commit sid now =
      transaction commit_failed commit (revoke_frontchannel_in_transaction sid now)

  pub revoke_provider_session : Commit → String → String → ℕ → ℕ → Db → Db × Result Error (Unit {0})
  revoke_provider_session commit sid jti expires_at now =
      transaction commit_failed commit (revoke_provider_in_transaction sid jti expires_at now)

pub opened_session : SessionRow → Option Bytes → Result Error Session
opened_session s none = err session_not_found
opened_session s (some plain) = ok (record {
  id = s.id;
  subject = s.subject;
  provider_session_id = s.provider_session_id;
  id_token = plain;
  username = s.username;
  email = s.email;
  role = s.role;
  expires_at = s.expires_at;
})

module _ (crypto : Crypto) (store : Store) where
  pub session_additional_data : String → String → String → Bytes
  session_additional_data id subject sid =
      crypto.marshal (store.client_id ∷ store.issuer ∷ id ∷ subject ∷ sid ∷ [])

  -- The column holds `$1::uuid`, whose text may differ from the identifier that was given; the
  -- additional data has the identifier as given.
  pub session_row : Session → Bytes → Bytes → ℕ → SessionRow
  unfolding session_additional_data
  session_row session nonce browser_token now = record {
    id = crypto.uuid_text session.id;
    client_id = store.client_id;
    token_hash = crypto.sha256 browser_token;
    issuer = store.issuer;
    subject = session.subject;
    provider_session_id = session.provider_session_id;
    id_token_ciphertext =
        nonce
        ++ crypto.seal nonce session.id_token
            (session_additional_data session.id session.subject session.provider_session_id);
    username = session.username;
    email = session.email;
    role = session.role;
    created_at = now;
    expires_at = session.expires_at;
    revoked_at = none;
  }

  -- `nonce` is what the random source gave, if it answered.
  pub create :
      (Site → Bool)
      → Commit
      → Option Bytes
      → Session
      → Bytes
      → ℕ
      → Db
      → Db × Result Error (Unit {0})
  create reached commit none session browser_token now db = (db, err no_nonce)
  create reached commit (some nonce) session browser_token now db =
      transaction commit_failed commit
        (create_in_transaction store reached (session_row session nonce browser_token now) now) db

  pub matches_cookie : Bytes → ℕ → SessionRow → Bool
  matches_cookie hash now s =
      s.client_id == store.client_id
      && (s.token_hash == hash
          && (s.issuer == store.issuer && (is_none s.revoked_at && ltb now s.expires_at)))

  -- A row that cannot be decrypted is no session.
  pub decrypt_session : SessionRow → Result Error Session
  unfolding session_additional_data
  decrypt_session s =
      if ltb (length s.id_token_ciphertext) crypto.nonce_size
      then err session_not_found
      else opened_session s (
          crypto.unseal (take crypto.nonce_size s.id_token_ciphertext)
            (drop crypto.nonce_size s.id_token_ciphertext)
            (session_additional_data s.id s.subject s.provider_session_id))

  pub find : (Site → Bool) → Bytes → ℕ → Db → Result Error Session
  unfolding matches_cookie decrypt_session
  find reached browser_token now db =
      if reached find_session
      then elim (find_first (matches_cookie (crypto.sha256 browser_token) now) db.sessions) [
        | none ↦ err session_not_found
        | some s ↦ decrypt_session s
      ]
      else err (unreachable find_session)

  pub revoke_browser_token : (Site → Bool) → Bytes → ℕ → Db → Db × Result Error (Unit {0})
  revoke_browser_token reached browser_token now = statement (
      exec (reached revoke_token) (unreachable revoke_token) λ db. record db {
        sessions =
            update_where
              (λ s.
                s.client_id == store.client_id
                && (s.token_hash == crypto.sha256 browser_token && is_none s.revoked_at))
              (revoke_at now) db.sessions;
      })

-- Opens the operations above.
unfoldable pub store_code : Unit {0}
unfolding steps create create_in_transaction session_row session_additional_data
    revoke_provider_session revoke_frontchannel_session revoke_provider_in_transaction
    revoke_frontchannel_in_transaction record_logout_tombstone upsert_tombstone
    delete_expired_tombstones delete_expired_tokens delete_ended_sessions lock_provider_session
    sweep_expired_tokens sweep_ended_sessions insert_unless_tombstoned insert_logout_token
    revoke_provider_sessions find matches_cookie decrypt_session opened_session insert_by order_by
    delete_first revoke_browser_token
store_code = tt
