-- ===== src/Identity/Grants.antt =====
-- Logout correlation grants in internal/identity/store.go: the durable snapshot that carries a
-- browser logout through the provider, its one-time token, and the leases of its recovery.
pub mod Once
mod Tests
use shauth.Common.{
  ℕ, ◌+◌, ◌*◌, ◌≤◌, String, Bool, true, false, not, ◌&&◌, ◌||◌, Option, none, some, List, [], ◌∷◌,
  ◌≡◌, Result, ok, err, Step, ◌>>=◌, ◌>>◌, return, fail, require, exec, query, Commit, transaction,
  statement, all, any, find_first, keep, take, update_where, delete_where, order_by, ltb, leb, ◌==◌,
  string_eq, bytes_eq, nat_eq, is_none, if◌then◌else◌, length, codes,
}
use shauth.Identity.Policy.{second, minute}
use shauth.Identity.Rows.{
  Bytes, Session, HydraSession, Grant, ManagedApp, Db, Site, Error, Op, Library, member,
  snapshot_sessions, snapshot_hydra, select_hydra, select_app, insert_grant, consume_grant,
  claim_grant, complete_grant, fail_grant, delete_grants, unreachable, no_token, ids_required,
  logout_session_inactive, not_correlated, no_managed_app, no_hydra_session, grant_unavailable,
  bad_limit, constraint_violated, commit_failed,
}
use shauth.Identity.Sessions.{
  expect, hydra_ids_of, start, lock_active_user, snapshot_user_sessions, revoke_session_snapshot,
}

abbrev pub logout_correlation_lifetime : ℕ
logout_correlation_lifetime = 2 * minute

abbrev pub logout_completion_lifetime : ℕ
logout_completion_lifetime = 5 * minute

abbrev pub cleanup_lease : ℕ
cleanup_lease = 30 * second

-- browserBootstrapTokenPattern: 64 lowercase hexadecimal digits.
abbrev is_hex : ℕ → Bool
is_hex c = leb b'0' c && leb c b'9' || leb b'a' c && leb c b'f'

unfoldable pub is_browser_token : String → Bool
is_browser_token raw = length (codes raw) == 64 && all is_hex (codes raw)

-- The row constraints of logout_correlation_grants on its times.
abbrev pub is_after : ℕ → Option ℕ → Bool
is_after created none = true
is_after created (some t) = leb created t

abbrev pub meets_checks : Grant → Bool
meets_checks g =
    ltb g.created_at g.expires_at
    && (leb g.created_at g.cleanup_after
        && (is_after g.created_at g.consumed_at && is_after g.created_at g.completed_at))

abbrev pub is_free : ℕ → Option ℕ → Bool
is_free now none = true
is_free now (some t) = leb t now

-- The sessions that a new grant snapshots.
pub record Snapshot : Type 0 where
  pub browser_id : String
  pub active_browser_ids : List String
  pub browser_hydra_ids : List String
  pub active_hydra_ids : List String

module _ (lib : Library) (reached : Site → Bool) where
  -- The browser session behind a provider session, and whether it was already revoked: then the
  -- logout is about the provider session alone.
  find_browser : String → String → Db → Option (String × Bool)
  find_browser subject_id hydra_id db =
      elim (find_first (λ h. h.hydra_session_id == hydra_id) db.hydra_sessions) [
        | none ↦ none
        | some h ↦
            elim (find_first (λ s. s.id == h.browser_session_id && s.user_id == subject_id)
              db.sessions) [ none ↦ none | some s ↦ some (s.id, not (is_none s.revoked_at)) ]
      ]

  resolve_browser : String → String → String → Op (String × Bool)
  unfolding find_browser
  resolve_browser subject_id browser_id hydra_id =
      if browser_id == ""
      then query (reached select_hydra) (unreachable select_hydra)
          (find_browser subject_id hydra_id)
        >>= (λ found. expect found no_hydra_session)
      else return (browser_id, false)

  resolve_signed_out_url : String → Op String
  resolve_signed_out_url client_id =
      if client_id == ""
      then return ""
      else query (reached select_app) (unreachable select_app)
          (λ db. find_first (λ a. a.oidc_client_id == client_id) db.apps)
        >>= (λ found. expect found no_managed_app >>= (λ app. return app.signed_out_url))

  hydra_ids_for_browsers : List String → Op (List String)
  hydra_ids_for_browsers browser_ids =
      query (reached snapshot_hydra) (unreachable snapshot_hydra)
        λ db. hydra_ids_of lib (λ b. member b browser_ids) db.hydra_sessions

  take_snapshot : Bool → String → String → List String → Op Snapshot
  unfolding hydra_ids_for_browsers
  take_snapshot true browser_id hydra_id active_browser_ids = return (record {
    browser_id = browser_id;
    active_browser_ids = [];
    browser_hydra_ids = hydra_id ∷ [];
    active_hydra_ids = hydra_id ∷ [];
  })
  take_snapshot false browser_id hydra_id active_browser_ids = do
    require (member browser_id active_browser_ids) logout_session_inactive
    browser_hydra_ids ← hydra_ids_for_browsers (browser_id ∷ [])
    active_hydra_ids ← hydra_ids_for_browsers active_browser_ids
    require (hydra_id == "" || member hydra_id browser_hydra_ids) not_correlated
    return (record {
      browser_id = browser_id;
      active_browser_ids = active_browser_ids;
      browser_hydra_ids = browser_hydra_ids;
      active_hydra_ids = active_hydra_ids;
    })

  -- A new grant: its identifier and token hash are new, and it meets the checks on its times.
  store_grant : Grant → Op (Unit {0})
  store_grant g = do
    exec (reached insert_grant) (unreachable insert_grant) (λ db. db)
    fresh ←
        query true constraint_violated
          λ db. not (any (λ o. o.id == g.id || o.token_hash == g.token_hash) db.grants)
    require (fresh && meets_checks g) constraint_violated
    exec true constraint_violated (λ db. record db { grants = g ∷ db.grants })

  new_grant : String → String → String → String → String → ℕ → Snapshot → Grant
  new_grant id raw subject_id client_id signed_out_url now s = record {
    id = id;
    token_hash = lib.sha256 raw;
    subject_id = subject_id;
    browser_session_id = s.browser_id;
    active_browser_session_ids = s.active_browser_ids;
    browser_hydra_session_ids = s.browser_hydra_ids;
    active_hydra_session_ids = s.active_hydra_ids;
    managed_client_id = client_id;
    signed_out_url = signed_out_url;
    created_at = now;
    expires_at = now + logout_correlation_lifetime;
    consumed_at = none;
    completed_at = none;
    cleanup_after = now + logout_correlation_lifetime;
    cleanup_claimed_until = none;
    cleanup_attempts = 0;
    last_error = "";
  }

  revoke_any : List String → ℕ → Op (Unit {0})
  revoke_any [] now = return tt
  revoke_any (id ∷ ids) now = revoke_session_snapshot lib reached (id ∷ ids) now

  -- Where no provider session is left to end, no grant is stored and no token is given out.
  finish_grant : String → Grant → ℕ → Op (String × Grant)
  finish_grant raw g now = elim g.active_hydra_session_ids [
    | [] ↦ do revoke_session_snapshot lib reached g.active_browser_session_ids now; return ("", g)
    | h ∷ hs ↦ do store_grant g; revoke_any g.active_browser_session_ids now; return (raw, g)
  ]

  create_grant_in_transaction :
      String → String → String → String → String → String → ℕ → Op (String × Grant)
  unfolding resolve_browser resolve_signed_out_url take_snapshot store_grant new_grant revoke_any
      finish_grant
  create_grant_in_transaction raw id subject_id browser_id hydra_id client_id now = do
    start lib reached
    lock_active_user lib reached subject_id
    signed_out_url ← resolve_signed_out_url client_id
    browser ← resolve_browser subject_id browser_id hydra_id
    active_browser_ids ← snapshot_user_sessions lib reached subject_id
    snapshot ← take_snapshot browser.1 browser.0 hydra_id active_browser_ids
    finish_grant raw (new_grant id raw subject_id client_id signed_out_url now snapshot) now

  pub create_logout_correlation_grant :
      Commit
      → Option String
      → String
      → String
      → String
      → String
      → String
      → ℕ
      → Db
      → Db × Result Error (String × Grant)
  create_logout_correlation_grant commit raw id subject_id browser_id hydra_id client_id now db =
      if lib.trim_space subject_id == ""
        || lib.trim_space browser_id == "" && lib.trim_space hydra_id == ""
      then (db, err ids_required)
      else elim raw [
        | none ↦ (db, err no_token)
        | some token ↦
            transaction commit_failed commit
              (create_grant_in_transaction token id subject_id browser_id hydra_id client_id now) db
      ]

  -- UPDATE … RETURNING on the rows that pass a test: the first of them as it was changed. A row
  -- that breaks a check refuses the statement.
  pub update_grants : Site → (Grant → Bool) → (Grant → Grant) → Op (Option Grant)
  update_grants site p f = do
    exec (reached site) (unreachable site) (λ db. db)
    sound ← query true constraint_violated λ db. all (λ g. meets_checks (f g)) (keep p db.grants)
    require sound constraint_violated
    changed ← query true constraint_violated (λ db. find_first p db.grants)
    exec true constraint_violated (λ db. record db { grants = update_where p f db.grants })
    elim changed [ none ↦ return none | some g ↦ return (some (f g)) ]

  abbrev pub is_consumable : Bytes → String → ℕ → Grant → Bool
  is_consumable hash subject_id now g =
      g.token_hash == hash
      && (g.subject_id == subject_id
          && (is_none g.consumed_at && (is_none g.completed_at && ltb now g.expires_at)))

  abbrev pub consume_at : ℕ → Grant → Grant
  consume_at now g = record g {
    consumed_at = some now;
    cleanup_after = now + logout_completion_lifetime;
  }

  pub consume : String → String → ℕ → Op Grant
  unfolding update_grants
  consume raw subject_id now = do
    changed ←
        update_grants consume_grant (is_consumable (lib.sha256 raw) subject_id now) (consume_at now)
    expect changed grant_unavailable

  pub consume_logout_correlation_grant : String → String → ℕ → Db → Db × Result Error Grant
  consume_logout_correlation_grant raw subject_id now db =
      if not (is_browser_token raw) || lib.trim_space subject_id == ""
      then (db, err grant_unavailable)
      else statement (consume raw subject_id now) db

  abbrev pub lease_at : ℕ → Grant → Grant
  lease_at now g = record g {
    cleanup_claimed_until = some (now + cleanup_lease);
    cleanup_attempts = g.cleanup_attempts + 1;
  }

  abbrev pub is_abandoned : ℕ → Grant → Bool
  is_abandoned now g =
      is_none g.completed_at && (leb g.cleanup_after now && is_free now g.cleanup_claimed_until)

  -- ORDER BY cleanup_after, id FOR UPDATE SKIP LOCKED LIMIT 1: a stable order by identifier, then by
  -- time, of the rows that no other transaction has locked.
  unfoldable pub next_abandoned : (String → Bool) → ℕ → List Grant → Option Grant
  next_abandoned locked now grants =
      find_first (λ g. true)
        (order_by (λ g. g.cleanup_after)
          (order_by (λ g. lib.collate g.id)
            (keep (λ g. is_abandoned now g && not (locked g.id)) grants)))

  claim_abandoned : (String → Bool) → ℕ → Op (Option Grant)
  unfolding update_grants next_abandoned
  claim_abandoned locked now = do
    candidate ←
        query (reached claim_grant) (unreachable claim_grant)
          λ db. next_abandoned locked now db.grants
    elim candidate [
      | none ↦ return none
      | some c ↦ update_grants claim_grant (λ g. g.id == c.id) (lease_at now)
    ]

  pub claim_abandoned_logout_correlation_grant :
      (String → Bool) → ℕ → Db → Db × Result Error (Option Grant)
  claim_abandoned_logout_correlation_grant locked now = statement (claim_abandoned locked now)

  abbrev pub is_claimable : Bytes → ℕ → Grant → Bool
  is_claimable hash now g =
      g.token_hash == hash
      && (not (is_none g.consumed_at)
          && (is_none g.completed_at && is_free now g.cleanup_claimed_until))

  pub claim_consumed : String → ℕ → Op Grant
  unfolding update_grants
  claim_consumed raw now = do
    changed ← update_grants claim_grant (is_claimable (lib.sha256 raw) now) (lease_at now)
    expect changed grant_unavailable

  pub claim_consumed_logout_correlation_grant : String → ℕ → Db → Db × Result Error Grant
  claim_consumed_logout_correlation_grant raw now db =
      if not (is_browser_token raw)
      then (db, err grant_unavailable)
      else statement (claim_consumed raw now) db

  complete : String → ℕ → Op (Unit {0})
  unfolding update_grants
  complete id now = do
    changed ←
        update_grants complete_grant (λ g. g.id == id && is_none g.completed_at)
          λ g. record g { completed_at = some now; cleanup_claimed_until = none; last_error = "" }
    require (not (is_none changed)) grant_unavailable

  pub complete_logout_correlation_grant : String → ℕ → Db → Db × Result Error (Unit {0})
  complete_logout_correlation_grant id now = statement (complete id now)

  retry_grant : String → String → ℕ → Op (Unit {0})
  unfolding update_grants
  retry_grant id failure retry_at = do
    changed ←
        update_grants fail_grant (λ g. g.id == id && is_none g.completed_at)
          λ g. record g {
            cleanup_after = retry_at;
            cleanup_claimed_until = none;
            last_error = failure;
          }
    require (not (is_none changed)) grant_unavailable

  pub fail_logout_correlation_grant : String → String → ℕ → Db → Db × Result Error (Unit {0})
  fail_logout_correlation_grant id failure retry_at = statement (
      retry_grant id
        (if lib.trim_space failure == "" then "provider logout did not complete" else failure)
        retry_at)

  abbrev pub is_completed_before : ℕ → Grant → Bool
  is_completed_before cutoff g = elim g.completed_at [ none ↦ false | some t ↦ ltb t cutoff ]

  abbrev pub completion_time : Grant → ℕ
  completion_time g = elim g.completed_at [ none ↦ 0 | some t ↦ t ]

  unfoldable pub delete_completed : ℕ → ℕ → List Grant → List Grant
  delete_completed cutoff limit grants =
      let expired = take limit (
        order_by completion_time
          (order_by (λ g. lib.collate g.id) (keep (is_completed_before cutoff) grants))) in
      delete_where (λ g. any (λ e. e.id == g.id) expired) grants

  pub delete_completed_logout_correlation_grants : ℕ → ℕ → Db → Db × Result Error (Unit {0})
  unfolding delete_completed
  delete_completed_logout_correlation_grants cutoff limit db =
      if ltb limit 1 || ltb 1000 limit
      then (db, err bad_limit)
      else statement
          (exec (reached delete_grants) (unreachable delete_grants)
            λ db. record db { grants = delete_completed cutoff limit db.grants })
          db
