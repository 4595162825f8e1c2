-- ===== src/Identity/Validation/Queue.antt =====
-- The queue of validation runs, in internal/identity/store.go: validationWitness,
-- managedAppValidationContractHash, enqueueAppValidation and EnqueueAppValidations.
pub mod Enqueued
pub mod Choice
use shauth.Common.{
  ℕ, zero, suc, ◌+◌, ◌-◌, ◌%◌, String, Bool, true, false, not, ◌&&◌, ◌||◌, Option, none, some, List,
  [], ◌∷◌, ◌++◌, Result, err, ◌>>=◌, ◌>>◌, return, fail, require, exec, query, Commit, transaction,
  any, keep, map, delete_where, order_by, leb, ◌==◌, string_eq, is_none, if◌then◌else◌, length,
  get_elem?,
}
use shauth.Identity.Rows.{Library}
use shauth.Identity.Validation.Rows.{
  Run, Witness, Direction, ManagedApp, Url, Urls, Db, Site, Error, Op, from_shauth, from_app,
  queued, is_running, is_queued, begin, lock_apps, remove_superseded, insert_run, unreachable,
  constraint_violated, commit_failed, app_not_found,
}
use shauth.Identity.Validation.{is_named, set_runs}

abbrev pub is_direction : Direction → Direction → Bool
is_direction from_shauth from_shauth = true
is_direction from_app from_app = true
is_direction _ _ = false

module _ (urls : Urls) where
  abbrev pub same_url_origin : Option Url → Option Url → Bool
  same_url_origin (some left) (some right) =
      urls.equal_fold left.scheme right.scheme && urls.equal_fold left.host right.host
  same_url_origin _ _ = false

  -- Another application, of another client and of another origin.
  abbrev pub may_witness : ManagedApp → ManagedApp → Bool
  may_witness target candidate =
      not (candidate.id == target.id)
      && (not (candidate.oidc_client_id == target.oidc_client_id)
          && not (same_url_origin (urls.parse target.launch_url) (urls.parse candidate.launch_url)))

  -- One more than the index of the target; zero if it is not there.
  unfoldable pub after_target : ManagedApp → List ManagedApp → ℕ
  after_target target [] = zero
  after_target target (a ∷ more) =
      let rest = after_target target more in
      if a.id == target.id then 1 else elim rest [ zero ↦ zero | suc i ↦ suc (suc i) ]

  -- The loop over the offsets, from the application after the target round to the one before it.
  unfoldable pub scan : ManagedApp → List ManagedApp → ℕ → ℕ → Option ManagedApp
  scan target apps zero index = none
  scan target apps (suc left) index =
      let rest = scan target apps left (suc index) in
      elim (get_elem? apps (index % length apps)) [
        | none ↦ rest
        | some candidate ↦ if may_witness target candidate then some candidate else rest
      ]

  unfoldable pub validation_witness : ManagedApp → List ManagedApp → Option ManagedApp
  unfolding after_target scan
  validation_witness target apps = scan target apps (length apps - 1) (after_target target apps)

  abbrev pub witness_fields : Option ManagedApp → List String
  witness_fields none = []
  witness_fields (some w) =
      w.id ∷ w.slug ∷ w.name ∷ w.oidc_client_id ∷ w.oidc_contract_hash ∷ w.launch_url
      ∷ w.validation_url ∷ w.signed_out_url ∷ w.release_revision ∷ []

  abbrev pub contract_hash : ManagedApp → Option ManagedApp → String
  contract_hash app witness = urls.hex_sha256 (
      urls.join_zero (
        (app.slug ∷ app.name ∷ app.description ∷ app.launch_url ∷ app.oidc_client_id
          ∷ app.oidc_contract_hash ∷ app.health_url ∷ app.monitoring_url ∷ app.validation_url
          ∷ app.signed_out_url ∷ app.release_revision ∷ [])
        ++ witness_fields witness))

  abbrev pub witness_row : ManagedApp → Witness
  witness_row w = record {
    managed_app_id = w.id;
    app_slug = w.slug;
    app_name = w.name;
    oidc_client_id = w.oidc_client_id;
    launch_url = w.launch_url;
    validation_url = w.validation_url;
    signed_out_url = w.signed_out_url;
    release_revision = w.release_revision;
  }

  abbrev pub witness_of : Option ManagedApp → Option Witness
  witness_of none = none
  witness_of (some w) = some (witness_row w)

  abbrev pub queued_run :
      ManagedApp → Option ManagedApp → Option String → ℕ → Direction → String → Run
  queued_run app witness requested_by now direction id = record {
    id = id;
    managed_app_id = app.id;
    app_slug = app.slug;
    app_name = app.name;
    oidc_client_id = app.oidc_client_id;
    launch_url = app.launch_url;
    validation_url = app.validation_url;
    signed_out_url = app.signed_out_url;
    direction = direction;
    release_revision = app.release_revision;
    validation_contract_hash = contract_hash app witness;
    witness = witness_of witness;
    status = queued;
    requested_by = requested_by;
    requested_at = now;
    started_at = none;
    lease_expires_at = none;
    completed_at = none;
    duration_milliseconds = none;
    failure = [];
  }

abbrev pub is_superseded : Run → Run → Bool
is_superseded new r =
    r.managed_app_id == new.managed_app_id
    && (is_direction r.direction new.direction
        && (is_queued r && not (r.validation_contract_hash == new.validation_contract_hash)))

-- The rows that the partial unique index compares: queued or running.
abbrev pub is_pending : Run → Run → Bool
is_pending new r =
    r.managed_app_id == new.managed_app_id
    && (is_direction r.direction new.direction
        && (r.validation_contract_hash == new.validation_contract_hash
            && (is_queued r || is_running r)))

-- The check constraint on the witness.
abbrev pub has_other_witness : Run → Bool
has_other_witness new = elim new.witness [
  | none ↦ true
  | some w ↦ not (w.managed_app_id == new.managed_app_id)
]

-- An operator names an application by identifier or by slug, or all of them.
pub record ManagedAppRef : Type 0 where
  pub id : String
  pub slug : String

abbrev pub matches : ManagedAppRef → ManagedApp → Bool
matches ref app = if not (ref.id == "") then app.id == ref.id else app.slug == ref.slug

abbrev pub is_all : ManagedAppRef → Bool
is_all ref = ref.id == "" && ref.slug == ""

abbrev pub is_selected : ManagedAppRef → ManagedApp → Bool
is_selected ref app = is_all ref || matches ref app

abbrev requester : String → Option String
requester requested_by = if requested_by == "" then none else some requested_by

module _ (lib : Library) (reached : Site → Bool) (urls : Urls)
    (new_id : ManagedApp → Direction → String) where
  pub insert_unless_pending : Run → Bool → Op (Unit {0})
  insert_unless_pending new true = return tt
  insert_unless_pending new false = do
    taken ← query true constraint_violated (λ db. any (is_named new.id) db.runs)
    require (not taken && has_other_witness new) constraint_violated
    exec true constraint_violated (set_runs (λ runs. new ∷ runs))

  pub enqueue_run : Run → Op (Unit {0})
  unfolding insert_unless_pending
  enqueue_run new = do
    exec (reached remove_superseded) (unreachable remove_superseded)
        (set_runs (delete_where (is_superseded new)))
    pending ←
        query (reached insert_run) (unreachable insert_run) (λ db. any (is_pending new) db.runs)
    insert_unless_pending new pending

  pub enqueue_app_validation : ManagedApp → Option ManagedApp → Option String → ℕ → Op (Unit {0})
  unfolding enqueue_run
  enqueue_app_validation app witness requested_by now = do
    enqueue_run (queued_run urls app witness requested_by now from_shauth (new_id app from_shauth))
    enqueue_run (queued_run urls app witness requested_by now from_app (new_id app from_app))

  abbrev pub by_slug : List ManagedApp → List ManagedApp
  by_slug apps = order_by (λ a. lib.collate a.slug) apps

  -- The applications that a reference selects, each with a witness from all of them.
  pub enqueue_each : List ManagedApp → List ManagedApp → Option String → ℕ → Op (Unit {0})
  unfolding enqueue_app_validation
  enqueue_each apps [] requested_by now = return tt
  enqueue_each apps (app ∷ rest) requested_by now = do
    enqueue_app_validation app (validation_witness urls app apps) requested_by now
    enqueue_each apps rest requested_by now

  pub enqueue_in_transaction : ManagedAppRef → Option String → ℕ → Op (List String)
  unfolding enqueue_each
  enqueue_in_transaction ref requested_by now = do
    exec (reached begin) (unreachable begin) (λ db. db)
    apps ← query (reached lock_apps) (unreachable lock_apps) (λ db. by_slug db.apps)
    enqueue_each apps (keep (is_selected ref) apps) requested_by now
    require (is_all ref || not (leb (length (keep (is_selected ref) apps)) 0)) app_not_found
    return (map (λ (a : ManagedApp). a.slug) (keep (is_selected ref) apps))

  unfoldable pub enqueue_app_validations :
      Commit → ManagedAppRef → String → ℕ → Db → Db × Result Error (List String)
  enqueue_app_validations commit ref requested_by now =
      transaction commit_failed commit (enqueue_in_transaction ref (requester requested_by) now)
