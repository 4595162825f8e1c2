-- ===== src/Identity/Sessions.antt =====
-- Browser sessions and the accounts that hold them, in internal/identity/store.go: CreateSession,
-- CurrentUser, DisableUser, EnableUser, RevokeSession, RevokeUserSessions,
-- RecordHydraLoginSession, ProviderSessionAccount, RevalidateSession and UpdateSessionPolicy.
pub mod Stable
pub mod History
pub mod Current
pub mod Lifetime
pub mod Revoked
pub mod Disabled
mod Tests
use shauth.Common.{
  ℕ, ◌+◌, ◌*◌, ◌/◌, String, Bool, true, false, not, ◌&&◌, ◌||◌, Option, none, some, List, [], ◌∷◌,
  ◌++◌, ◌≡◌, Result, ok, err, Step, ◌>>=◌, ◌>>◌, return, fail, require, exec, query, Commit,
  transaction, statement, any, keep, map, find_first, update_where, order_by, ltb, leb, ◌==◌,
  string_eq, bytes_eq, nat_eq, is_none, if◌then◌else◌, length,
}
use shauth.Identity.Policy.{
  SessionPolicy, PolicyRow, read_policy, row_of_policy, validate, second, second_ns, idle_micros,
  lifetime_micros, stored_policy,
}
use shauth.Identity.Rows.{
  Bytes, User, Session, HydraSession, Db, Site, Error, Op, Library, is_active_user, is_in_force,
  revoke_at, member, distinct, begin, read_policy_row, lock_user, insert_session, select_session,
  touch_session, snapshot_sessions, snapshot_hydra, revoke_snapshot, mark_disabled, clear_disabled,
  select_owner, lock_session, insert_hydra, select_hydra, refresh_hydra, update_policy,
  shorten_sessions, unreachable, bad_policy, no_token, user_inactive, user_not_found,
  validation_user_protected, no_active_session, no_session, no_hydra_session, ids_required,
  correlated_elsewhere, constraint_violated, commit_failed, no_policy_record,
}

-- A row that a query must return.
unfoldable pub expect : {A : Type 0} → Option A → Error → Op A
expect none e = fail e
expect (some a) e = return a

unfoldable pub user_session_ids : Library → String → List Session → List String
user_session_ids lib user_id sessions = order_by lib.collate (
    map (λ (s : Session). s.id) (keep (λ s. s.user_id == user_id && is_none s.revoked_at) sessions))

-- The provider sessions of a set of browser sessions.
unfoldable pub hydra_ids_of : Library → (String → Bool) → List HydraSession → List String
hydra_ids_of lib of_browser rows = order_by lib.collate (
    distinct (
      map (λ (h : HydraSession). h.hydra_session_id)
        (keep (λ h. of_browser h.browser_session_id) rows)))

unfoldable pub revoke_ids : List String → ℕ → List Session → List Session
revoke_ids ids now sessions =
    update_where (λ s. member s.id ids && is_none s.revoked_at) (revoke_at now) sessions

-- The limits of the policy in force at `now` on an existing row.
abbrev pub is_session_of : String → String → ℕ → ℕ → Session → Bool
is_session_of id user_id now idle s = s.id == id && (s.user_id == user_id && is_in_force now idle s)

-- Whether a correlation may move from the browser session `old` to another one of `user_id`.
abbrev pub may_refresh : String → String → ℕ → ℕ → Session → Bool
may_refresh user_id active_id now idle old =
    old.id == active_id || old.user_id == user_id && not (is_in_force now idle old)

abbrev pub shorten : ℕ → Session → Session
shorten lifetime s = record s { expires_at = s.created_at + lifetime }

abbrev pub outlives : ℕ → Session → Bool
outlives lifetime s = is_none s.revoked_at && ltb (s.created_at + lifetime) s.expires_at

module _ (lib : Library) (reached : Site → Bool) where
  pub start : Op (Unit {0})
  start = exec (reached begin) (unreachable begin) (λ db. db)

  pub session_policy : Op SessionPolicy
  unfolding read_policy expect
  session_policy = do
    row ← query (reached read_policy_row) (unreachable read_policy_row) (λ db. db.policy)
    elim (read_policy row) [ ok p ↦ return p | err e ↦ fail (bad_policy e) ]

  pub lock_active_user : String → Op (Unit {0})
  lock_active_user user_id = do
    active ←
        query (reached lock_user) (unreachable lock_user)
          λ db. any (is_active_user user_id) db.users
    require active user_inactive

  pub snapshot_user_sessions : String → Op (List String)
  snapshot_user_sessions user_id =
      query (reached snapshot_sessions) (unreachable snapshot_sessions)
        λ db. user_session_ids lib user_id db.sessions

  pub revoke_session_snapshot : List String → ℕ → Op (Unit {0})
  revoke_session_snapshot ids now =
      exec (reached revoke_snapshot) (unreachable revoke_snapshot)
        λ db. record db { sessions = revoke_ids ids now db.sessions }

  -- A new session needs a new identifier and a new token hash.
  pub store_session : Session → Op (Unit {0})
  store_session s = do
    exec (reached insert_session) (unreachable insert_session) (λ db. db)
    fresh ← query true constraint_violated λ db.
        not (any (λ o. o.id == s.id || o.browser_token_hash == s.browser_token_hash) db.sessions)
    require fresh constraint_violated
    exec true constraint_violated (λ db. record db { sessions = s ∷ db.sessions })

  pub create_in_transaction : Session → Op (Unit {0})
  create_in_transaction s = do start; lock_active_user s.user_id; store_session s

  -- The policy is read before the transaction begins.
  pub with_policy :
      {A : Type 0} → (SessionPolicy → Db → Db × Result Error A) → Db → Db × Result Error A
  with_policy operate db = elim (session_policy db) [
    | err e ↦ (db, err e)
    | ok (policy, db) ↦ operate policy db
  ]

  pub new_session : SessionPolicy → String → String → String → String → Bytes → ℕ → Session
  new_session policy token id user_id user_agent remote_ip now = record {
    id = id;
    user_id = user_id;
    browser_token_hash = lib.sha256 token;
    created_at = now;
    last_seen = now;
    expires_at = now + lifetime_micros policy;
    revoked_at = none;
    user_agent = user_agent;
    remote_ip = remote_ip;
  }

  pub create_and_return : String → Session → Op (String × Session)
  create_and_return token s = do create_in_transaction s; return (token, s)

  pub create_under :
      Commit
      → Option String
      → String
      → String
      → String
      → Bytes
      → ℕ
      → SessionPolicy
      → Db
      → Db × Result Error (String × Session)
  unfolding new_session create_and_return
  create_under commit none id user_id user_agent remote_ip now policy db = (db, err no_token)
  create_under commit (some token) id user_id user_agent remote_ip now policy db =
      transaction commit_failed commit
        (create_and_return token (new_session policy token id user_id user_agent remote_ip now)) db

  -- `raw` is what the random source gave, if it answered.
  pub create_session :
      Commit
      → Option String
      → String
      → String
      → String
      → Bytes
      → ℕ
      → Db
      → Db × Result Error (String × Session)
  unfolding with_policy create_under
  create_session commit raw id user_id user_agent remote_ip now =
      with_policy (create_under commit raw id user_id user_agent remote_ip now)

  -- The session of a browser token and its account, if both are good.
  pub find_current : SessionPolicy → String → ℕ → Db → Option (User × Session)
  find_current policy raw now db =
      elim (find_first
        (λ s. s.browser_token_hash == lib.sha256 raw && is_in_force now (idle_micros policy) s)
        db.sessions) [
          | none ↦ none
          | some s ↦ elim (find_first (is_active_user s.user_id) db.users) [
            | none ↦ none
            | some u ↦ some (u, s)
          ]
        ]

  pub record_activity : Bool → ℕ → User × Session → Op (User × Session)
  record_activity false now found = return found
  record_activity true now (user, session) = do
    exec (reached touch_session) (unreachable touch_session) λ db. record db {
      sessions =
          update_where (λ s. s.id == session.id) (λ s. record s { last_seen = now }) db.sessions;
    }
    return (user, record session { last_seen = now })

  pub current_user : Bool → String → ℕ → Op (User × Session)
  unfolding find_current record_activity
  current_user touch raw now = do
    policy ← session_policy
    found ←
        query (reached select_session) (unreachable select_session) (find_current policy raw now)
    good ← expect found no_session
    record_activity touch now good

  pub disable_in_transaction : String → ℕ → Op (List String)
  disable_in_transaction user_id now = do
    start
    found ←
        query (reached lock_user) (unreachable lock_user)
          λ db. find_first (λ u. u.id == user_id) db.users
    user ← expect found user_not_found
    require (not user.is_validation) validation_user_protected
    session_ids ← snapshot_user_sessions user_id
    hydra_ids ← query (reached snapshot_hydra) (unreachable snapshot_hydra) λ db.
        hydra_ids_of lib (λ b. any (λ s. s.id == b && s.user_id == user_id) db.sessions)
          db.hydra_sessions
    revoke_session_snapshot session_ids now
    exec (reached mark_disabled) (unreachable mark_disabled) λ db. record db {
      users =
          update_where (λ u. u.id == user_id)
            (λ u. record u { disabled_at = some (elim u.disabled_at [ none ↦ now | some t ↦ t ]) })
            db.users;
    }
    return hydra_ids

  pub disable_user : Commit → String → ℕ → Db → Db × Result Error (List String)
  disable_user commit user_id now =
      transaction commit_failed commit (disable_in_transaction user_id now)

  pub enable_user : String → Db → Db × Result Error (Unit {0})
  enable_user user_id = statement (do
    known ←
        query (reached clear_disabled) (unreachable clear_disabled)
          λ db. any (λ u. u.id == user_id) db.users
    require known user_not_found
    exec true user_not_found λ db. record db {
      users = update_where (λ u. u.id == user_id) (λ u. record u { disabled_at = none }) db.users;
    })

  pub revoke_session : String → ℕ → Db → Db × Result Error (Unit {0})
  revoke_session id now = statement (do
    active ←
        query (reached revoke_snapshot) (unreachable revoke_snapshot)
          λ db. any (λ s. s.id == id && is_none s.revoked_at) db.sessions
    require active no_active_session
    exec true no_active_session λ db. record db {
      sessions = update_where (λ s. s.id == id && is_none s.revoked_at) (revoke_at now) db.sessions;
    })

  pub revoke_user_in_transaction : String → ℕ → Op (Unit {0})
  revoke_user_in_transaction user_id now = do
    start
    lock_active_user user_id
    session_ids ← snapshot_user_sessions user_id
    revoke_session_snapshot session_ids now

  pub revoke_user_sessions : Commit → String → ℕ → Db → Db × Result Error (Unit {0})
  revoke_user_sessions commit user_id now =
      transaction commit_failed commit (revoke_user_in_transaction user_id now)

  pub revalidate_in_transaction : SessionPolicy → String → String → ℕ → Op (Unit {0})
  revalidate_in_transaction policy user_id id now = do
    start
    lock_active_user user_id
    active ←
        query (reached lock_session) (unreachable lock_session)
          λ db. any (is_session_of id user_id now (idle_micros policy)) db.sessions
    require active no_session

  pub revalidate_session : Commit → String → String → ℕ → Db → Db × Result Error (Unit {0})
  unfolding with_policy
  revalidate_session commit user_id id now =
      with_policy
        λ policy. transaction commit_failed commit (revalidate_in_transaction policy user_id id now)

  -- INSERT … ON CONFLICT DO NOTHING, and the refresh of a correlation that exists.
  pub correlate : SessionPolicy → String → String → String → ℕ → Option HydraSession → Op (Unit {0})
  correlate policy user_id active_id hydra_id now none = exec true no_hydra_session λ db.
      record db {
        hydra_sessions =
            record { hydra_session_id = hydra_id; browser_session_id = active_id; created_at = now }
            ∷ db.hydra_sessions;
      }
  correlate policy user_id active_id hydra_id now (some h) = do
    joined ←
        query (reached select_hydra) (unreachable select_hydra)
          λ db. find_first (λ s. s.id == h.browser_session_id) db.sessions
    old ← expect joined no_hydra_session
    require (may_refresh user_id active_id now (idle_micros policy) old) correlated_elsewhere
    exec (reached refresh_hydra) (unreachable refresh_hydra) λ db. record db {
      hydra_sessions =
          update_where (λ r. r.hydra_session_id == hydra_id)
            (λ r. record r { browser_session_id = active_id; created_at = now }) db.hydra_sessions;
    }

  pub record_hydra_in_transaction : SessionPolicy → String → String → ℕ → Op (Unit {0})
  unfolding correlate
  record_hydra_in_transaction policy browser_id hydra_id now = do
    start
    owner ←
        query (reached select_owner) (unreachable select_owner)
          λ db. find_first (λ s. s.id == browser_id) db.sessions
    session ← expect owner no_session
    lock_active_user session.user_id
    active ←
        query (reached lock_session) (unreachable lock_session)
          λ db. any (is_session_of browser_id session.user_id now (idle_micros policy)) db.sessions
    require active no_session
    exec (reached insert_hydra) (unreachable insert_hydra) (λ db. db)
    existing ←
        query true no_hydra_session
          λ db. find_first (λ h. h.hydra_session_id == hydra_id) db.hydra_sessions
    correlate policy session.user_id browser_id hydra_id now existing

  pub record_hydra_login_session : Commit → String → String → ℕ → Db → Db × Result Error (Unit {0})
  unfolding with_policy
  record_hydra_login_session commit browser_id hydra_id now db =
      if lib.trim_space browser_id == "" || lib.trim_space hydra_id == ""
      then (db, err ids_required)
      else with_policy
          (λ policy.
            transaction commit_failed commit
              (record_hydra_in_transaction policy browser_id hydra_id now))
          db

  -- The account behind a provider session, and whether its browser session is unrevoked.
  unfoldable pub find_account : String → Db → Option (String × Bool)
  find_account hydra_id db =
      elim (find_first (λ h. h.hydra_session_id == hydra_id) db.hydra_sessions) [
        | none ↦ none
        | some h ↦ elim (find_first (λ s. s.id == h.browser_session_id) db.sessions) [
          | none ↦ none
          | some s ↦ some (s.user_id, is_none s.revoked_at)
        ]
      ]

  unfoldable pub provider_session_account : String → Op (String × Bool)
  unfolding find_account
  provider_session_account hydra_id = do
    found ← query (reached select_hydra) (unreachable select_hydra) (find_account hydra_id)
    expect found no_hydra_session

  unfoldable pub user_by_id : String → Op User
  user_by_id id = do
    found ←
        query (reached lock_user) (unreachable lock_user)
          λ db. find_first (λ u. u.id == id) db.users
    expect found user_not_found

  pub update_policy_in_transaction : SessionPolicy → ℕ → Op ℕ
  update_policy_in_transaction policy clock = do
    start
    missing ← query (reached update_policy) (unreachable update_policy) (λ db. is_none db.policy)
    require (not missing) no_policy_record
    exec true no_policy_record (λ db. record db { policy = some (row_of_policy policy clock) })
    exec (reached shorten_sessions) (unreachable shorten_sessions) λ db.
        let lifetime = policy.browser_absolute_lifetime / second_ns * second in
        record db { sessions = update_where (outlives lifetime) (shorten lifetime) db.sessions }
    return clock

  -- `clock` is the database's time.
  pub update_session_policy : Commit → SessionPolicy → ℕ → Db → Db × Result Error ℕ
  update_session_policy commit policy clock db = elim (validate policy) [
    | err e ↦ (db, err (bad_policy (stored_policy e)))
    | ok u ↦ transaction commit_failed commit (update_policy_in_transaction policy clock) db
  ]

-- Opens the disabling of an account.
unfoldable pub disabling_code : Unit {0}
unfolding disable_user disable_in_transaction snapshot_user_sessions revoke_session_snapshot
    user_session_ids hydra_ids_of revoke_ids start
disabling_code = tt
