-- ===== src/Identity/Validation/History.antt =====
-- Histories of operations on validation runs, in internal/identity/store.go.
use shauth.Common.{
  ℕ, String, Bool, true, false, not, List, [], ◌∷◌, ◌≡◌, refl, Commit, transaction, Result, err,
  transaction-Keeps, if◌then◌else◌, string_eq,
}
use shauth.Identity.Rows.{Bytes, Library}
use shauth.Identity.Validation.Rows.{
  Status, ManagedApp, Direction, Urls, Texts, Db, Site, Error, is_result, not_a_result,
  commit_failed,
}
use shauth.Identity.Validation.{
  claim_app_validation, complete_app_validation, expire_abandoned_app_validation,
  complete_in_transaction, failure_limit,
}
use shauth.Identity.Validation.Failure.{truncate_utf8}
use shauth.Identity.Validation.Slots.{IsOrderly}
use shauth.Identity.Validation.Orderly.{complete_in_transaction-Keeps, expire_in_transaction-Keeps}
use shauth.Identity.Validation.Claiming.{claim_in_transaction-Keeps}
use shauth.Identity.Validation.Queue.{ManagedAppRef, enqueue_app_validations}
use shauth.Identity.Validation.Queue.Enqueued.{enqueue_in_transaction-Keeps}

pub data Call : Type 0 where
  claims expires : Call
  completes : String → Status → Bytes → Call
  enqueues : ManagedAppRef → String → (ManagedApp → Direction → String) → Call

-- An operation, with what the libraries and the database answer to it.
pub record Event : Type 0 where
  pub lib : Library
  pub urls : Urls
  pub texts : Texts
  pub reached : Site → Bool
  pub commit : Commit
  pub locked : String → Bool
  pub lease_expired : Bytes
  pub now : ℕ
  pub call : Call

unfoldable pub apply_call : Event → Call → Db → Db
apply_call e claims db =
    (claim_app_validation e.lib e.reached e.commit e.locked e.lease_expired e.now db).0
apply_call e expires db =
    (expire_abandoned_app_validation e.lib e.reached e.commit e.lease_expired e.now db).0
apply_call e (completes id status failure) db =
    (complete_app_validation e.lib e.reached e.texts e.commit id status failure e.now db).0
apply_call e (enqueues ref requested_by new_id) db =
    (enqueue_app_validations e.lib e.reached e.urls new_id e.commit ref requested_by e.now db).0

unfoldable pub run : List Event → Db → Db
unfolding apply_call
run [] db = db
run (e ∷ es) db = run es (apply_call e e.call db)

complete_app_validation-IsOrderly :
    (e : Event) (id : String) (status : Status) (failure : Bytes) (db : Db)
    → IsOrderly db
    → IsOrderly
        (complete_app_validation e.lib e.reached e.texts e.commit id status failure e.now db).0
unfolding complete_app_validation
complete_app_validation-IsOrderly e id status failure db h = go (is_result status) refl
  where
    go :
        (b : Bool)
        → is_result status ≡ b
        → (let out : Db × Result Error (Unit {0}) =
              if not b
              then (db, err not_a_result)
              else transaction commit_failed e.commit
                  (complete_in_transaction e.lib e.reached id status
                    (e.texts.trim_space (truncate_utf8 e.texts failure failure_limit))
                    e.now)
                  db in
            IsOrderly out.0)
    go false bad = h
    go true good =
        transaction-Keeps IsOrderly commit_failed e.commit _ db
          (complete_in_transaction-Keeps e.lib e.reached id status _ e.now good) h

apply_call-IsOrderly :
    (e : Event) (call : Call) (db : Db) → IsOrderly db → IsOrderly (apply_call e call db)
unfolding apply_call claim_app_validation expire_abandoned_app_validation enqueue_app_validations
apply_call-IsOrderly e claims db h =
    transaction-Keeps IsOrderly commit_failed e.commit _ db
      (claim_in_transaction-Keeps e.lib e.reached e.locked e.lease_expired e.now) h
apply_call-IsOrderly e expires db h =
    transaction-Keeps IsOrderly commit_failed e.commit _ db
      (expire_in_transaction-Keeps e.lib e.reached e.lease_expired e.now) h
apply_call-IsOrderly e (completes id status failure) db h =
    complete_app_validation-IsOrderly e id status failure db h
apply_call-IsOrderly e (enqueues ref requested_by new_id) db h =
    transaction-Keeps IsOrderly commit_failed e.commit _ db
      (enqueue_in_transaction-Keeps e.lib e.reached e.urls new_id ref _ e.now) h

-- Whatever operations run in whatever order, from tables where it is so: at most three runs run at
-- once, no application is the target or the witness of two running runs, every running run holds
-- an identity that no other run holds, and every identity that is checked out belongs to a running
-- run.
pub run-IsOrderly : (es : List Event) (db : Db) → IsOrderly db → IsOrderly (run es db)
unfolding run
run-IsOrderly [] db h = h
run-IsOrderly (e ∷ es) db h =
    run-IsOrderly es (apply_call e e.call db) (apply_call-IsOrderly e e.call db h)
