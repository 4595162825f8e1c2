-- ===== src/Identity/Validation.antt =====
-- Validation runs of managed applications, in internal/identity/store.go: ClaimAppValidation,
-- CompleteAppValidation, ExpireAbandonedAppValidation and truncateUTF8, over the tables
-- app_validation_runs and users. The queue that they empty is filled in Validation/Queue.
pub mod Rows
pub mod Failure
pub mod Slots
pub mod Starting
pub mod Identities
pub mod Orderly
pub mod Claiming
pub mod Queue
pub mod History
pub mod Pool
pub mod Progress
pub mod Started
mod Tests
use shauth.Common.{
  ℕ, ◌+◌, ◌-◌, ◌*◌, ◌/◌, String, Bool, true, false, not, ◌&&◌, ◌||◌, Option, none, some, List, [],
  ◌∷◌, Result, err, ◌>>=◌, ◌>>◌, return, fail, require, exec, query, Commit, transaction, any, keep,
  map, find_first, update_where, order_by, ltb, leb, ◌==◌, string_eq, is_none, if◌then◌else◌,
  length,
}
use shauth.Identity.Rows.{Bytes, User, Library}
use shauth.Identity.Validation.Rows.{
  Run, Witness, Status, Db, Site, Error, Op, Texts, queued, running, passed, failed, is_running,
  is_queued, is_result, begin, lock_queue, expire_runs, release_identities, count_running,
  select_run, select_identity, check_out, lease_run, complete_run, release_identity, unreachable,
  no_identity, not_a_result, run_not_found, constraint_violated, commit_failed, uses_app,
}
use shauth.Identity.Validation.Failure.{truncate_utf8}

abbrev pub concurrency_limit : ℕ
concurrency_limit = 3

-- Times are microseconds.
abbrev pub lease_duration : ℕ
lease_duration = 30 * 60_000_000

abbrev pub failure_limit : ℕ
failure_limit = 1000

-- The cast to bigint rounds to the nearest millisecond; without a start the time is zero.
abbrev pub elapsed : ℕ → Option ℕ → ℕ
elapsed now none = 0
elapsed now (some started) = (now - started + 500) / 1000

abbrev pub finish : Status → Bytes → ℕ → Run → Run
finish status failure now r = record r {
  status = status;
  completed_at = some now;
  lease_expires_at = none;
  duration_milliseconds = some (elapsed now r.started_at);
  failure = failure;
}

abbrev pub is_before : Option ℕ → ℕ → Bool
is_before none now = false
is_before (some t) now = ltb t now

abbrev pub is_abandoned : ℕ → Run → Bool
is_abandoned now r = is_running r && is_before r.lease_expires_at now

abbrev pub ids_of : List Run → List String
ids_of runs = map (λ (r : Run). r.id) runs

abbrev pub is_named : String → Run → Bool
is_named id r = r.id == id

abbrev pub holds : String → User → Bool
holds id u = elim u.validation_run_id [ none ↦ false | some r ↦ r == id ]

abbrev pub holds_any : List String → User → Bool
holds_any ids u = any (λ id. holds id u) ids

abbrev pub let_go : User → User
let_go u = record u { validation_run_id = none }

abbrev pub take_on : String → User → User
take_on run_id u = record u { validation_run_id = some run_id }

-- An application is busy while it is the target or the witness of a running run.
abbrev pub is_busy : List Run → String → Bool
is_busy runs app = any (λ r. is_running r && uses_app app r) runs

abbrev pub has_free_witness : List Run → Option Witness → Bool
has_free_witness runs none = true
has_free_witness runs (some w) = not (is_busy runs w.managed_app_id)

abbrev pub is_completable : String → Run → Bool
is_completable run_id r = is_named run_id r && is_running r

-- A row that another transaction has locked is skipped.
abbrev pub is_eligible : (String → Bool) → List Run → Run → Bool
is_eligible locked runs r =
    is_queued r
    && (not (is_busy runs r.managed_app_id)
        && (has_free_witness runs r.witness && not (locked r.id)))

abbrev pub is_free_identity : (String → Bool) → User → Bool
is_free_identity locked u = u.is_validation && (is_none u.validation_run_id && not (locked u.id))

abbrev pub start_run : ℕ → Run → Run
start_run now r = record r {
  status = running;
  started_at = some now;
  lease_expires_at = some (now + lease_duration);
}

-- What a claim returns: the run as it was read, with the identity that it checked out.
pub record Claim : Type 0 where
  pub run : Run
  pub validation_username : String
  pub validation_email : String

abbrev pub claim_of : ℕ → Run → User → Claim
claim_of now r u = record {
  run = record r { status = running; started_at = some now };
  validation_username = u.username;
  validation_email = u.email;
}

abbrev pub set_runs : (List Run → List Run) → Db → Db
set_runs f db = record db { runs = f db.runs }

abbrev pub set_users : (List User → List User) → Db → Db
set_users f db = record db { users = f db.users }

module _ (lib : Library) (reached : Site → Bool) where
  -- ORDER BY requested_at, id LIMIT 1: a stable order by identifier, then by time.
  unfoldable pub next_run : (String → Bool) → List Run → Option Run
  next_run locked runs =
      find_first (λ r. true)
        (order_by (λ r. r.requested_at)
          (order_by (λ r. lib.collate r.id) (keep (is_eligible locked runs) runs)))

  pub start : Op (Unit {0})
  start = exec (reached begin) (unreachable begin) (λ db. db)

  pub release_expired : List String → Op (Unit {0})
  release_expired [] = return tt
  release_expired (id ∷ ids) =
      exec (reached release_identities) (unreachable release_identities)
        (set_users (update_where (holds_any (id ∷ ids)) let_go))

  -- UPDATE … RETURNING id, and the release of the identities of what it returned.
  pub expire_abandoned : Bytes → ℕ → Op (Unit {0})
  unfolding release_expired
  expire_abandoned reason now = do
    expired ←
        query (reached expire_runs) (unreachable expire_runs)
          λ db. ids_of (keep (is_abandoned now) db.runs)
    exec true (unreachable expire_runs)
        (set_runs (update_where (is_abandoned now) (finish failed reason now)))
    release_expired expired

  pub check_out_identity : String → User → Op (Unit {0})
  check_out_identity run_id u = do
    exec (reached check_out) (unreachable check_out) (λ db. db)
    held ← query true constraint_violated (λ db. any (holds run_id) db.users)
    require (not held) constraint_violated
    exec true constraint_violated (set_users (update_where (λ v. v.id == u.id) (take_on run_id)))

  pub lease : ℕ → Run → User → Op (Option Claim)
  unfolding check_out_identity
  lease now r u = do
    check_out_identity r.id u
    exec (reached lease_run) (unreachable lease_run)
        (set_runs (update_where (is_named r.id) (start_run now)))
    return (some (claim_of now r u))

  pub claim_selected : (String → Bool) → ℕ → Option Run → Op (Option Claim)
  unfolding lease
  claim_selected locked now none = return none
  claim_selected locked now (some r) = do
    identity ←
        query (reached select_identity) (unreachable select_identity)
          λ db. find_first (is_free_identity locked) db.users
    elim identity [ none ↦ fail no_identity | some u ↦ lease now r u ]

  pub select_and_claim : (String → Bool) → ℕ → Op (Option Claim)
  unfolding next_run claim_selected
  select_and_claim locked now = do
    selected ← query (reached select_run) (unreachable select_run) λ db. next_run locked db.runs
    claim_selected locked now selected

  pub claim_below : (String → Bool) → ℕ → Bool → Op (Option Claim)
  unfolding select_and_claim
  claim_below locked now true = return none
  claim_below locked now false = select_and_claim locked now

  -- `locked` are the rows that other transactions hold.
  pub claim_in_transaction : (String → Bool) → Bytes → ℕ → Op (Option Claim)
  unfolding start expire_abandoned claim_below
  claim_in_transaction locked reason now = do
    start
    exec (reached lock_queue) (unreachable lock_queue) (λ db. db)
    expire_abandoned reason now
    running_count ←
        query (reached count_running) (unreachable count_running)
          λ db. length (keep is_running db.runs)
    claim_below locked now (leb concurrency_limit running_count)

  pub claim_app_validation :
      Commit → (String → Bool) → Bytes → ℕ → Db → Db × Result Error (Option Claim)
  claim_app_validation commit locked reason now =
      transaction commit_failed commit (claim_in_transaction locked reason now)

  pub expire_in_transaction : Bytes → ℕ → Op (Unit {0})
  unfolding start expire_abandoned
  expire_in_transaction reason now = do start; expire_abandoned reason now

  pub expire_abandoned_app_validation : Commit → Bytes → ℕ → Db → Db × Result Error (Unit {0})
  expire_abandoned_app_validation commit reason now =
      transaction commit_failed commit (expire_in_transaction reason now)

  pub complete_in_transaction : String → Status → Bytes → ℕ → Op (Unit {0})
  unfolding start
  complete_in_transaction run_id status failure now = do
    start
    affected ←
        query (reached complete_run) (unreachable complete_run)
          λ db. length (keep (is_completable run_id) db.runs)
    exec true (unreachable complete_run)
        (set_runs (update_where (is_completable run_id) (finish status failure now)))
    require (leb affected 1 && leb 1 affected) run_not_found
    exec (reached release_identity) (unreachable release_identity)
        (set_users (update_where (holds run_id) let_go))

  unfoldable pub complete_app_validation :
      Texts → Commit → String → Status → Bytes → ℕ → Db → Db × Result Error (Unit {0})
  unfolding is_result
  complete_app_validation texts commit run_id status failure now db =
      if not (is_result status)
      then (db, err not_a_result)
      else transaction commit_failed commit
          (complete_in_transaction run_id status
            (texts.trim_space (truncate_utf8 texts failure failure_limit)) now)
          db
