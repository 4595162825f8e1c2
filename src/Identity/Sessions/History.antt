-- ===== src/Identity/Sessions/History.antt =====
-- Histories of operations on accounts and browser sessions, and what every history keeps.
use shauth.Common.{
  ℕ, String, Bool, true, false, Option, none, some, List, [], ◌∷◌, ◌≡◌, refl, arith, Result, ok,
  err, Commit, exec-Keeps, require-Keeps, query-Keeps, >>=-Keeps, >>-Keeps, return-Keeps,
  transaction-Keeps, statement-Keeps, statement, transaction, All, subst, sym, if◌then◌else◌, ◌||◌,
  ◌==◌, string_eq,
}
use shauth.Identity.Policy.{SessionPolicy, IsSound, validate, PolicyError, stored_policy}
use shauth.Identity.Rows.{
  Bytes, User, Session, Db, Site, Error, Library, bad_policy, commit_failed, ids_required,
}
use shauth.Identity.Sessions.{
  session_policy, with_policy, new_session, create_and_return, create_under, create_session,
  current_user, disable_user, enable_user, revoke_session, revoke_user_sessions,
  revalidate_in_transaction, revalidate_session, record_hydra_login_session, update_session_policy,
  update_policy_in_transaction, record_hydra_in_transaction,
}
use shauth.Identity.Sessions.Stable.{
  IsStable, start-Keeps, lock_active_user-Keeps, create_in_transaction-Keeps,
  disable_in_transaction-Keeps, revoke_user_in_transaction-Keeps, current_user-Keeps,
  record_hydra_in_transaction-Keeps, update_policy_in_transaction-Keeps, session_policy-IsSound,
}

pub data Call : Type 0 where
  creates : Option String → String → String → String → Bytes → Call
  reads : Bool → String → Call
  disables enables revokes revokes_all : String → Call
  revalidates : String → String → Call
  records_hydra : String → String → Call
  updates_policy : SessionPolicy → Call

-- An operation, with the answers that the database and the random source give it.
pub record Event : Type 0 where
  pub lib : Library
  pub reached : Site → Bool
  pub commit : Commit
  pub now : ℕ
  pub call : Call

unfoldable pub apply_call : Event → Call → Db → Db
apply_call e (creates raw id user_id agent ip) db =
    (create_session e.lib e.reached e.commit raw id user_id agent ip e.now db).0
apply_call e (reads touch raw) db = (statement (current_user e.lib e.reached touch raw e.now) db).0
apply_call e (disables id) db = (disable_user e.lib e.reached e.commit id e.now db).0
apply_call e (enables id) db = (enable_user e.lib e.reached id db).0
apply_call e (revokes id) db = (revoke_session e.lib e.reached id e.now db).0
apply_call e (revokes_all id) db = (revoke_user_sessions e.lib e.reached e.commit id e.now db).0
apply_call e (revalidates user_id id) db =
    (revalidate_session e.lib e.reached e.commit user_id id e.now db).0
apply_call e (records_hydra browser_id hydra_id) db =
    (record_hydra_login_session e.lib e.reached e.commit browser_id hydra_id e.now db).0
apply_call e (updates_policy policy) db =
    (update_session_policy e.lib e.reached e.commit policy e.now db).0

unfoldable pub run : List Event → Db → Db
run [] db = db
run (e ∷ es) db = run es (apply_call e e.call db)

module _ {Q : List User → List Session → Type 0} {MayEnable : String → Type 0}
    (stable : IsStable Q MayEnable) where
  abbrev Holds : Db → Type 0
  Holds db = Q db.users db.sessions

  -- An operation that reads the policy first runs under a sound one, or not at all.
  with_policy-Keeps :
      {A : Type 0} (lib : Library) (reached : Site → Bool)
      (operate : SessionPolicy → Db → Db × Result Error A) (db : Db)
      → ((p : SessionPolicy) → IsSound p → (db' : Db) → Holds db' → Holds (operate p db').0)
      → Holds db
      → Holds (with_policy lib reached operate db).0
  unfolding with_policy
  with_policy-Keeps {A} lib reached operate db keep h =
      go (session_policy lib reached db) (session_policy-IsSound lib reached db)
    where
      go :
          (r : Result Error (SessionPolicy × Db))
          → ((p : SessionPolicy) (db' : Db) → r ≡ ok (p, db') → IsSound p × (db' ≡ db))
          → (let after : Db × Result Error A = elim r [
            | err e ↦ (db, err e)
            | ok (policy, db) ↦ operate policy db
          ] in
              Holds after.0)
      go (err e) read = h
      go (ok (p, db')) read =
          let (sound, same) = read p db' refl in keep p sound db' (subst Holds (sym same) h)

  apply_call-Keeps :
      (e : Event) (c : Call) (db : Db)
      → ((id : String) → c ≡ enables id → MayEnable id)
      → Holds db
      → Holds (apply_call e c db)
  unfolding apply_call create_session create_under create_and_return new_session disable_user
      enable_user revoke_session revoke_user_sessions revalidate_session revalidate_in_transaction
      record_hydra_login_session update_session_policy
  apply_call-Keeps e (creates none id user_id agent ip) db may h =
      with_policy-Keeps e.lib e.reached _ db (λ p sound db' g. g) h
  apply_call-Keeps e (creates (some raw) id user_id agent ip) db may h =
      with_policy-Keeps e.lib e.reached _ db
        (λ p sound db' g.
          transaction-Keeps Holds _ e.commit _ db'
            (>>-Keeps Holds _ _
              (create_in_transaction-Keeps stable e.lib e.reached
                (new_session e.lib e.reached p raw id user_id agent ip e.now)
                (omega (arith, sound.absolute)))
              (return-Keeps Holds _))
            g)
        h
  apply_call-Keeps e (reads touch raw) db may h =
      statement-Keeps Holds _ db (current_user-Keeps stable e.lib e.reached touch raw e.now) h
  apply_call-Keeps e (disables id) db may h =
      transaction-Keeps Holds _ e.commit _ db
        (disable_in_transaction-Keeps stable e.lib e.reached id e.now) h
  apply_call-Keeps e (enables id) db may h =
      statement-Keeps Holds _ db
        (>>=-Keeps Holds _ _ (query-Keeps Holds _ _ _) λ known.
          >>-Keeps Holds _ _ (require-Keeps Holds _ _)
            (exec-Keeps Holds _ _ _ λ db g. stable.enabled db.users db.sessions id (may id refl) g))
        h
  apply_call-Keeps e (revokes id) db may h =
      statement-Keeps Holds _ db
        (>>=-Keeps Holds _ _ (query-Keeps Holds _ _ _) λ active.
          >>-Keeps Holds _ _ (require-Keeps Holds _ _)
            (exec-Keeps Holds _ _ _ λ db g. stable.revoked db.users db.sessions _ e.now g))
        h
  apply_call-Keeps e (revokes_all id) db may h =
      transaction-Keeps Holds _ e.commit _ db
        (revoke_user_in_transaction-Keeps stable e.lib e.reached id e.now) h
  apply_call-Keeps e (revalidates user_id id) db may h =
      with_policy-Keeps e.lib e.reached _ db
        (λ p sound db' g.
          transaction-Keeps Holds _ e.commit _ db'
            (>>-Keeps Holds _ _ (start-Keeps stable e.lib e.reached) (
              >>-Keeps Holds _ _ (lock_active_user-Keeps stable e.lib e.reached user_id) (
                >>=-Keeps Holds _ _ (query-Keeps Holds _ _ _) (λ active. require-Keeps Holds _ _))))
            g)
        h
  apply_call-Keeps e (records_hydra browser_id hydra_id) db may h =
      go (e.lib.trim_space browser_id == "" || e.lib.trim_space hydra_id == "")
    where
      go :
          (blank : Bool)
          → (let after : Db × Result Error (Unit {0}) =
                if blank
                then (db, err ids_required)
                else with_policy e.lib e.reached
                    (λ policy. transaction commit_failed e.commit (
                      record_hydra_in_transaction e.lib e.reached policy browser_id hydra_id e.now))
                    db in
              Holds after.0)
      go true = h
      go false =
          with_policy-Keeps e.lib e.reached _ db
            (λ p sound db' g.
              transaction-Keeps Holds _ e.commit _ db'
                (record_hydra_in_transaction-Keeps stable e.lib e.reached p browser_id hydra_id
                  e.now)
                g)
            h
  apply_call-Keeps e (updates_policy policy) db may h = go (validate policy)
    where
      go :
          (v : Result PolicyError (Unit {0}))
          → (let after : Db × Result Error ℕ = elim v [
            | err x ↦ (db, err (bad_policy (stored_policy x)))
            | ok u ↦
                transaction commit_failed e.commit
                  (update_policy_in_transaction e.lib e.reached policy e.now)
                  db
          ] in
              Holds after.0)
      go (err x) = h
      go (ok u) =
          transaction-Keeps Holds _ e.commit _ db
            (update_policy_in_transaction-Keeps stable e.lib e.reached policy e.now) h

  pub run-Keeps :
      (es : List Event) (db : Db)
      → All (λ e. (id : String) → e.call ≡ enables id → MayEnable id) es
      → Holds db
      → Holds (run es db)
  unfolding run
  run-Keeps [] db may h = h
  run-Keeps (e ∷ es) db may h =
      run-Keeps es (apply_call e e.call db) may.1 (apply_call-Keeps e e.call db may.0 h)

-- Where any account may be enabled, no event is ruled out.
pub any_enables :
    (es : List Event) → All (λ (e : Event). (id : String) → e.call ≡ enables id → Unit {0}) es
any_enables [] = tt
any_enables (e ∷ es) = ((λ id same. tt), any_enables es)
