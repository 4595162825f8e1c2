-- ===== src/Identity/Sessions/Stable.antt =====
-- One rule for every invariant of accounts and browser sessions: what the single changes keep, every
-- operation and every history keep. Accounts are locked row by row, so a history is a sequence of
-- whole operations.
use shauth.Common.{
  return-Keeps, fail-Keeps, require-eq-ok, ◌∙◌, ℕ, ◌+◌, ◌*◌, ◌≤◌, String, Bool, true, false, ◌||◌,
  Option, none, some, List, ◌∷◌, ◌≡◌, refl, arith, Result, ok, err, Step, Keeps, exec-Keeps,
  exec-Leads, require-Keeps, query-Keeps, >>=-Keeps, >>-Keeps, query_then-Leads, require_then-Leads,
  return-eq-ok, fail-ne-ok, any, update_where, return, fail, ◌==◌, string_eq, bytes_eq, subst, sym,
  >>-Leads, query-eq-ok, >>=-eq-ok,
}
use shauth.Identity.Policy.{
  ReadError, SessionPolicy, read_policy, read_policy-IsSound, IsSound, day, PolicyRow,
}
use shauth.Identity.Rows.{
  bad_policy, User, Session, HydraSession, Db, Site, Error, Library, is_active_user, revoke_at,
}
use shauth.Identity.Sessions.{
  expect, start, session_policy, lock_active_user, snapshot_user_sessions, revoke_session_snapshot,
  revoke_ids, store_session, create_in_transaction, record_activity, current_user,
  disable_in_transaction, revoke_user_in_transaction, correlate, record_hydra_in_transaction,
  shorten, outlives, update_policy_in_transaction,
}

-- What the changes to accounts and sessions keep. `MayEnable` says which accounts may be enabled.
pub record IsStable (Q : List User → List Session → Type 0) (MayEnable : String → Type 0)
    : Type 0 where
  pub created :
      (users : List User) (sessions : List Session) (s : Session)
      → any (is_active_user s.user_id) users ≡ true
      → any (λ o. o.id == s.id || o.browser_token_hash == s.browser_token_hash) sessions ≡ false
      → s.expires_at ≤ s.created_at + 90 * day
      → Q users sessions
      → Q users (s ∷ sessions)
  pub revoked :
      (users : List User) (sessions : List Session) (p : Session → Bool) (now : ℕ)
      → Q users sessions
      → Q users (update_where p (revoke_at now) sessions)
  pub touched :
      (users : List User) (sessions : List Session) (p : Session → Bool) (now : ℕ)
      → Q users sessions
      → Q users (update_where p (λ s. record s { last_seen = now }) sessions)
  pub shortened :
      (users : List User) (sessions : List Session) (lifetime : ℕ)
      → Q users sessions
      → Q users (update_where (outlives lifetime) (shorten lifetime) sessions)
  pub disabled :
      (users : List User) (sessions : List Session) (id : String) (now : ℕ)
      → Q users sessions
      → Q
          (update_where
            (λ u. u.id == id)
            (λ u. record u { disabled_at = some (elim u.disabled_at [ none ↦ now | some t ↦ t ]) })
            users)
          sessions
  pub enabled :
      (users : List User) (sessions : List Session) (id : String)
      → MayEnable id
      → Q users sessions
      → Q (update_where (λ u. u.id == id) (λ u. record u { disabled_at = none }) users) sessions

module _ {Q : List User → List Session → Type 0} {MayEnable : String → Type 0}
    (stable : IsStable Q MayEnable) (lib : Library) (reached : Site → Bool) where
  abbrev pub P : Db → Type 0
  P db = Q db.users db.sessions

  expect-Keeps : {A : Type 0} (o : Option A) (e : Error) → Keeps P (expect o e)
  unfolding expect
  expect-Keeps none e = fail-Keeps P e
  expect-Keeps (some b) e = return-Keeps P b

  pub start-Keeps : Keeps P (start lib reached)
  unfolding start
  start-Keeps = exec-Keeps P _ _ _ (λ _ h. h)

  pub lock_active_user-Keeps : (id : String) → Keeps P (lock_active_user lib reached id)
  unfolding lock_active_user
  lock_active_user-Keeps id = >>=-Keeps P _ _ (query-Keeps P _ _ _) (λ active. require-Keeps P _ _)

  pub revoke_session_snapshot-Keeps :
      (ids : List String) (now : ℕ) → Keeps P (revoke_session_snapshot lib reached ids now)
  unfolding revoke_session_snapshot revoke_ids
  revoke_session_snapshot-Keeps ids now =
      exec-Keeps P _ _ _ (λ db h. stable.revoked db.users db.sessions _ now h)

  -- The lock holds until the session is stored.
  pub create_in_transaction-Keeps :
      (s : Session)
      → s.expires_at ≤ s.created_at + 90 * day
      → Keeps P (create_in_transaction lib reached s)
  unfolding create_in_transaction lock_active_user store_session
  create_in_transaction-Keeps s bounded = >>-Keeps P _ _ start-Keeps (
      >>-Leads P Active P _ _
        (query_then-Leads P Active _ _ _ _ λ db h t a t' same e.
          let (active, same') = require-eq-ok _ _ t a t' e in
          subst Active (sym (same' ∙ same)) (h, active))
        (>>-Leads Active Active P _ _ (exec-Keeps Active _ _ _ (λ _ h. h)) (
          query_then-Leads Active P _ _ _ _ λ db h.
            require_then-Leads (λ t. t ≡ db) P _ _ _
              λ fresh.
                exec-Leads (λ t. t ≡ db) P _ _ _
                  λ t same.
                    subst (λ (t : Db). Q t.users (s ∷ t.sessions)) (sym same)
                      (stable.created db.users db.sessions s h.1 (ground arith) bounded h.0))))
    where
      Active : Db → Type 0
      Active db = P db × (any (is_active_user s.user_id) db.users ≡ true)

  pub disable_in_transaction-Keeps :
      (id : String) (now : ℕ) → Keeps P (disable_in_transaction lib reached id now)
  unfolding disable_in_transaction snapshot_user_sessions
  disable_in_transaction-Keeps id now = >>-Keeps P _ _ start-Keeps (
      >>=-Keeps P _ _ (query-Keeps P _ _ _) λ found. >>=-Keeps P _ _ (expect-Keeps found _) λ user.
        >>-Keeps P _ _ (require-Keeps P _ _) (
          >>=-Keeps P _ _ (query-Keeps P _ _ _) λ session_ids.
            >>=-Keeps P _ _ (query-Keeps P _ _ _) λ hydra_ids.
              >>-Keeps P _ _ (revoke_session_snapshot-Keeps session_ids now) (
                >>-Keeps P _ _
                  (exec-Keeps P _ _ _ (λ db h. stable.disabled db.users db.sessions id now h))
                  (return-Keeps P hydra_ids))))

  pub revoke_user_in_transaction-Keeps :
      (id : String) (now : ℕ) → Keeps P (revoke_user_in_transaction lib reached id now)
  unfolding revoke_user_in_transaction snapshot_user_sessions
  revoke_user_in_transaction-Keeps id now = >>-Keeps P _ _ start-Keeps (
      >>-Keeps P _ _ (lock_active_user-Keeps id) (
        >>=-Keeps P _ _ (query-Keeps P _ _ _)
          λ session_ids. revoke_session_snapshot-Keeps session_ids now))

  record_activity-Keeps :
      (touch : Bool) (now : ℕ) (found : User × Session)
      → Keeps P (record_activity lib reached touch now found)
  unfolding record_activity
  record_activity-Keeps false now found = return-Keeps P found
  record_activity-Keeps true now (user, session) =
      >>-Keeps P _ _ (exec-Keeps P _ _ _ (λ db h. stable.touched db.users db.sessions _ now h))
        (return-Keeps P (user, record session { last_seen = now }))

  session_policy-Keeps : Keeps P (session_policy lib reached)
  unfolding session_policy
  session_policy-Keeps = >>=-Keeps P _ _ (query-Keeps P _ _ _) (λ row. answer (read_policy row))
    where
      answer :
          (r : Result ReadError SessionPolicy)
          → Keeps P (
              let m : Step Db Error SessionPolicy = elim r [
                | ok p ↦ return p
                | err e ↦ fail (bad_policy e)
              ] in
              m)
      answer (ok p) = return-Keeps P p
      answer (err e) = fail-Keeps P (bad_policy e)

  pub current_user-Keeps :
      (touch : Bool) (raw : String) (now : ℕ) → Keeps P (current_user lib reached touch raw now)
  unfolding current_user
  current_user-Keeps touch raw now = >>=-Keeps P _ _ session_policy-Keeps λ policy.
      >>=-Keeps P _ _ (query-Keeps P _ _ _)
        λ found. >>=-Keeps P _ _ (expect-Keeps found _) λ good. record_activity-Keeps touch now good

  correlate-Keeps :
      (policy : SessionPolicy) (user_id active_id hydra_id : String) (now : ℕ)
      (existing : Option HydraSession)
      → Keeps P (correlate lib reached policy user_id active_id hydra_id now existing)
  unfolding correlate
  correlate-Keeps policy user_id active_id hydra_id now none = exec-Keeps P _ _ _ (λ _ h. h)
  correlate-Keeps policy user_id active_id hydra_id now (some h) =
      >>=-Keeps P _ _ (query-Keeps P _ _ _) λ joined.
        >>=-Keeps P _ _ (expect-Keeps joined _)
          λ old. >>-Keeps P _ _ (require-Keeps P _ _) (exec-Keeps P _ _ _ (λ _ h. h))

  pub record_hydra_in_transaction-Keeps :
      (policy : SessionPolicy) (browser_id hydra_id : String) (now : ℕ)
      → Keeps P (record_hydra_in_transaction lib reached policy browser_id hydra_id now)
  unfolding record_hydra_in_transaction
  record_hydra_in_transaction-Keeps policy browser_id hydra_id now = >>-Keeps P _ _ start-Keeps (
      >>=-Keeps P _ _ (query-Keeps P _ _ _) λ owner.
        >>=-Keeps P _ _ (expect-Keeps owner _) λ session.
          >>-Keeps P _ _ (lock_active_user-Keeps session.user_id) (
            >>=-Keeps P _ _ (query-Keeps P _ _ _) λ active. >>-Keeps P _ _ (require-Keeps P _ _) (
              >>-Keeps P _ _ (exec-Keeps P _ _ _ (λ _ h. h)) (
                >>=-Keeps P _ _ (query-Keeps P _ _ _) λ existing.
                  correlate-Keeps policy session.user_id browser_id hydra_id now existing))))

  pub update_policy_in_transaction-Keeps :
      (policy : SessionPolicy) (clock : ℕ)
      → Keeps P (update_policy_in_transaction lib reached policy clock)
  unfolding update_policy_in_transaction
  update_policy_in_transaction-Keeps policy clock = >>-Keeps P _ _ start-Keeps (
      >>=-Keeps P _ _ (query-Keeps P _ _ _) λ missing. >>-Keeps P _ _ (require-Keeps P _ _) (
        >>-Keeps P _ _ (exec-Keeps P _ _ _ (λ _ h. h)) (
          >>-Keeps P _ _ (exec-Keeps P _ _ _ (λ db h. stable.shortened db.users db.sessions _ h))
            (return-Keeps P clock))))

-- The policy that is read is sound.
pub session_policy-IsSound :
    (lib : Library) (reached : Site → Bool) (db : Db) (p : SessionPolicy) (db' : Db)
    → session_policy lib reached db ≡ ok (p, db')
    → IsSound p × (db' ≡ db)
unfolding session_policy
session_policy-IsSound lib reached db p db' e =
    let (row, mid, read, rest) = >>=-eq-ok _ _ db p db' e in
    let (_, _, same) = query-eq-ok _ _ _ db row mid read in
    go row mid same (read_policy row) refl rest
  where
    go :
        (row : Option PolicyRow) (mid : Db)
        → mid ≡ db
        → (r : Result ReadError SessionPolicy) → read_policy row ≡ r
        → (let m : Step Db Error SessionPolicy = elim r [
          | ok p ↦ return p
          | err e ↦ fail (bad_policy e)
        ] in
            m mid ≡ ok (p, db'))
        → IsSound p × (db' ≡ db)
    go row mid same (ok q) accepted h =
        let (same_p, same_db) = return-eq-ok q mid p db' h in
        (subst IsSound (sym same_p) (read_policy-IsSound row q accepted), same_db ∙ same)
    go row mid same (err x) accepted h = absurd (fail-ne-ok _ mid p db' h)
