-- ===== src/Gateway/Store/Stable.antt =====
-- One rule for every invariant of the store: what the single statements keep, the operations and
-- every history keep. A history is any number of gateways on one database, each running the
-- operations of its store at its own times, with any of its calls failing; operations of one
-- provider session exclude each other by an advisory lock, so a history is a sequence of whole
-- operations.
use shauth.Common.{
  ℕ, String, Bool, Option, none, some, List, [], ◌∷◌, ◌≡◌, refl, Commit, Keeps, exec-Keeps,
  require-Keeps, >>-Keeps, transaction-Keeps, statement-Keeps, All, update_where,
}
use shauth.Gateway.Store.{
  Bytes, Session, SessionRow, Tombstone, Db, Crypto, Store, Site, delete_expired_tombstones,
  delete_expired_tokens, delete_ended_sessions, upsert_tombstone, revoke_at, lock_provider_session,
  sweep_expired_tombstones, sweep_expired_tokens, sweep_ended_sessions, record_logout_tombstone,
  revoke_provider_sessions, insert_unless_tombstoned, insert_logout_token, create_in_transaction,
  revoke_frontchannel_in_transaction, revoke_provider_in_transaction, create, session_row,
  revoke_frontchannel_session, revoke_provider_session, revoke_browser_token,
}

-- `Fresh` says which rows may be stored.
pub record IsStableFor (Fresh : SessionRow → Type 0) (P : Db → Type 0) (store : Store)
    (reached : Site → Bool) (now : ℕ) : Type 0 where
  pub swept_tombstones :
      (db : Db)
      → P db
      → P (record db { tombstones = delete_expired_tombstones now 1000 db.tombstones })
  pub swept_tokens :
      (db : Db)
      → P db
      → P (record db { tokens = delete_expired_tokens store.client_id now db.tokens })
  pub swept_sessions :
      (db : Db)
      → P db
      → P (record db { sessions = delete_ended_sessions store.client_id now db.sessions })
  pub stored :
      (row : SessionRow)
      → row.client_id ≡ store.client_id
      → row.issuer ≡ store.issuer
      → Fresh row
      → Keeps P (insert_unless_tombstoned store reached row now)
  pub spent :
      (jti : String) (expires_at : ℕ) → Keeps P (insert_logout_token store reached jti expires_at)
  pub marked :
      (v : Tombstone) (db : Db)
      → P db
      → P (record db { tombstones = upsert_tombstone v db.tombstones })
  pub revoked :
      (p : SessionRow → Bool) (db : Db)
      → P db
      → P (record db { sessions = update_where p (revoke_at now) db.sessions })

-- Stable whatever row is stored.
abbrev pub IsStable : (Db → Type 0) → Store → (Site → Bool) → ℕ → Type 0
IsStable P store reached now = IsStableFor (λ row. Unit {0}) P store reached now

module _ {Fresh : SessionRow → Type 0} {P : Db → Type 0} {store : Store} {reached : Site → Bool}
    {now : ℕ} (stable : IsStableFor Fresh P store reached now) where
  pub lock-Keeps : (sid : String) → Keeps P (lock_provider_session store reached sid)
  unfolding lock_provider_session
  lock-Keeps sid = >>-Keeps P _ _ (require-Keeps P _ _) (exec-Keeps P _ _ (λ db. db) (λ db h. h))

  pub sweep_expired_tombstones-Keeps : Keeps P (sweep_expired_tombstones store reached now)
  unfolding sweep_expired_tombstones
  sweep_expired_tombstones-Keeps = exec-Keeps P _ _ _ stable.swept_tombstones

  pub sweep_expired_tokens-Keeps : Keeps P (sweep_expired_tokens store reached now)
  unfolding sweep_expired_tokens
  sweep_expired_tokens-Keeps = exec-Keeps P _ _ _ stable.swept_tokens

  pub record_logout_tombstone-Keeps :
      (sid : String) → Keeps P (record_logout_tombstone store reached sid now)
  unfolding record_logout_tombstone
  record_logout_tombstone-Keeps sid =
      >>-Keeps P _ _ sweep_expired_tombstones-Keeps
        (>>-Keeps P _ _ (require-Keeps P _ _) (exec-Keeps P _ _ _ (stable.marked _)))

  pub revoke_provider_sessions-Keeps :
      (sid : String) → Keeps P (revoke_provider_sessions store reached sid now)
  unfolding revoke_provider_sessions
  revoke_provider_sessions-Keeps sid = exec-Keeps P _ _ _ (stable.revoked _)

  create_in_transaction-Keeps :
      (row : SessionRow)
      → row.client_id ≡ store.client_id
      → row.issuer ≡ store.issuer
      → Fresh row
      → Keeps P (create_in_transaction store reached row now)
  unfolding create_in_transaction sweep_ended_sessions
  create_in_transaction-Keeps row c i f = >>-Keeps P _ _ (exec-Keeps P _ _ _ (λ db h. h)) (
      >>-Keeps P _ _ (lock-Keeps row.provider_session_id) (
        >>-Keeps P _ _ sweep_expired_tombstones-Keeps (
          >>-Keeps P _ _ (exec-Keeps P _ _ _ stable.swept_sessions)
            (>>-Keeps P _ _ sweep_expired_tokens-Keeps (stable.stored row c i f)))))

  revoke_frontchannel_in_transaction-Keeps :
      (sid : String) → Keeps P (revoke_frontchannel_in_transaction store reached sid now)
  unfolding revoke_frontchannel_in_transaction
  revoke_frontchannel_in_transaction-Keeps sid = >>-Keeps P _ _ (exec-Keeps P _ _ _ (λ db h. h)) (
      >>-Keeps P _ _ (lock-Keeps sid)
        (>>-Keeps P _ _ (record_logout_tombstone-Keeps sid) (revoke_provider_sessions-Keeps sid)))

  revoke_provider_in_transaction-Keeps :
      (sid jti : String) (expires_at : ℕ)
      → Keeps P (revoke_provider_in_transaction store reached sid jti expires_at now)
  unfolding revoke_provider_in_transaction
  revoke_provider_in_transaction-Keeps sid jti expires_at =
      >>-Keeps P _ _ (exec-Keeps P _ _ _ (λ db h. h)) (
        >>-Keeps P _ _ (lock-Keeps sid) (
          >>-Keeps P _ _ sweep_expired_tokens-Keeps (
            >>-Keeps P _ _ (stable.spent jti expires_at) (
              >>-Keeps P _ _ (record_logout_tombstone-Keeps sid)
                (revoke_provider_sessions-Keeps sid)))))

pub data Call : Type 0 where
  creates : Option Bytes → Session → Bytes → Call
  logs_out_front : String → Call
  logs_out_back : String → String → ℕ → Call
  revokes : Bytes → Call

-- A call of one gateway, with the answers that the database and the random source give it.
pub record Event : Type 0 where
  pub crypto : Crypto
  pub store : Store
  pub reached : Site → Bool
  pub commit : Commit
  pub now : ℕ
  pub call : Call

unfoldable pub apply_call : Event → Call → Db → Db
apply_call e (creates nonce session token) db =
    (create e.crypto e.store e.reached e.commit nonce session token e.now db).0
apply_call e (logs_out_front sid) db =
    (revoke_frontchannel_session e.store e.reached e.commit sid e.now db).0
apply_call e (logs_out_back sid jti expires_at) db =
    (revoke_provider_session e.store e.reached e.commit sid jti expires_at e.now db).0
apply_call e (revokes token) db = (revoke_browser_token e.crypto e.store e.reached token e.now db).0

unfoldable pub run : List Event → Db → Db
run [] db = db
run (e ∷ es) db = run es (apply_call e e.call db)

-- A call that creates a session stores a fresh row.
abbrev pub IsFresh : (SessionRow → Type 0) → Event → Call → Type 0
IsFresh Fresh e (creates none session token) = Unit
IsFresh Fresh e (creates (some nonce) session token) =
    Fresh (session_row e.crypto e.store session nonce token e.now)
IsFresh Fresh e (logs_out_front sid) = Unit
IsFresh Fresh e (logs_out_back sid jti expires_at) = Unit
IsFresh Fresh e (revokes token) = Unit

any_row : (e : Event) (c : Call) → IsFresh (λ row. Unit {0}) e c
any_row e (creates none session token) = tt
any_row e (creates (some nonce) session token) = tt
any_row e (logs_out_front sid) = tt
any_row e (logs_out_back sid jti expires_at) = tt
any_row e (revokes token) = tt

apply_call-Keeps :
    {Fresh : SessionRow → Type 0} {P : Db → Type 0} (e : Event) (c : Call) (db : Db)
    → IsStableFor Fresh P e.store e.reached e.now
    → IsFresh Fresh e c
    → P db
    → P (apply_call e c db)
unfolding apply_call create session_row revoke_frontchannel_session revoke_provider_session
    revoke_browser_token
apply_call-Keeps e (creates none session token) db stable fresh h = h
apply_call-Keeps {Fresh} {P} e (creates (some nonce) session token) db stable fresh h =
    transaction-Keeps P _ e.commit _ db
      (create_in_transaction-Keeps stable (session_row e.crypto e.store session nonce token e.now)
        refl refl fresh)
      h
apply_call-Keeps {Fresh} {P} e (logs_out_front sid) db stable fresh h =
    transaction-Keeps P _ e.commit _ db (revoke_frontchannel_in_transaction-Keeps stable sid) h
apply_call-Keeps {Fresh} {P} e (logs_out_back sid jti expires_at) db stable fresh h =
    transaction-Keeps P _ e.commit _ db
      (revoke_provider_in_transaction-Keeps stable sid jti expires_at) h
apply_call-Keeps {Fresh} {P} e (revokes token) db stable fresh h =
    statement-Keeps P _ db (exec-Keeps P _ _ _ (stable.revoked _)) h

-- What is stable at every event of a history holds after it.
pub run-Keeps :
    (P : Db → Type 0) (es : List Event) (db : Db)
    → All (λ e. IsStable P e.store e.reached e.now) es
    → P db
    → P (run es db)
unfolding run
run-Keeps P [] db stable h = h
run-Keeps P (e ∷ es) db stable h =
    run-Keeps P es _ stable.1 (apply_call-Keeps e e.call db stable.0 (any_row e e.call) h)

-- The same where every row that the history stores is fresh.
pub run-Keeps_fresh :
    (Fresh : SessionRow → Type 0) (P : Db → Type 0) (es : List Event) (db : Db)
    → ((e : Event) → IsStableFor Fresh P e.store e.reached e.now)
    → All (λ e. IsFresh Fresh e e.call) es
    → P db
    → P (run es db)
unfolding run
run-Keeps_fresh Fresh P [] db stable fresh h = h
run-Keeps_fresh Fresh P (e ∷ es) db stable fresh h =
    run-Keeps_fresh Fresh P es _ stable fresh.1 (apply_call-Keeps e e.call db (stable e) fresh.0 h)
