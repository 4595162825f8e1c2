-- ===== src/Identity/Validation/Progress.antt =====
-- ClaimAppValidation of internal/identity/store.go starts a run whenever it may.
use shauth.Common.{
  ℕ, ◌≤◌, ◌<◌, String, Bool, true, false, ◌&&◌, Option, some, List, [], ◌∷◌, ◌≡◌, refl, sym, ◌∙◌,
  ap, subst, arith, any, keep, find_first, leb, string_eq, length, All, All-map, Bool-cases, inl,
  inr, ok, Result, committed, ◌>>◌, >>=-of-ok, steps, exec, query, return,
}
use shauth.Identity.Rows.{Bytes, User, Library}
use shauth.Identity.Validation.Rows.{
  Run, Db, Site, Error, is_running, commit_failed, unreachable, lease_run,
}
use shauth.Identity.Validation.{
  concurrency_limit, holds, is_named, is_free_identity, next_run, start, expire_abandoned,
  release_expired, claim_of, claim_selected, select_and_claim, claim_below, lease,
  check_out_identity, claim_in_transaction, claim_app_validation,
}
use shauth.Identity.Validation.Slots.{IsOrderly, IsOwned}
use shauth.Identity.Validation.Slots.{run_key}
use shauth.Identity.Validation.Starting.{is_clear}
use shauth.Identity.Validation.{start_run, set_runs, holds_any, let_go, set_users}
use shauth.Identity.Validation.Identities.{taken}
use shauth.Common.{>>-of-ok, transaction-of-ok, any-none, All-same_key, has_key, update_where}
use shauth.Identity.Validation.Orderly.{
  expired, lapsed, IsOrderly-expired, release_nothing, next_run-is_clear,
}
use shauth.Identity.Validation.Pool.{
  is_identity, is_run, free_identity, identities-released, open-released,
}
use shauth.Identity.Validation.Started.{IsStarted, leased, leased-IsStarted}

abbrev up : Site → Bool
up site = true

-- The identifier of a queued run is held by nobody: its only row does not run.
unheld :
    (id : String) (db : Db)
    → IsOrderly db
    → any (λ x. has_key run_key id x && is_clear db.runs x) db.runs ≡ true
    → any (holds id) db.users ≡ false
unheld id db h clear = any-none (holds id) db.users (each db.users h.owned)
  where
    idle_row :
        (r : Run) → (has_key run_key id r ≡ true → is_clear db.runs r ≡ true) → is_run id r ≡ false
    idle_row r k = elim (Bool-cases (is_named id r)) [
      | inl hit ↦ ground (arith, k hit)
      | inr miss ↦ ground (arith, miss)
    ]

    idle : any (is_run id) db.runs ≡ false
    idle = any-none (is_run id) db.runs (
        All-map (λ r k. idle_row r k) db.runs
          (All-same_key run_key (is_clear db.runs) id db.runs h.run_ids clear))

    each : (us : List User) → All (IsOwned db.runs) us → All (λ u. holds id u ≡ false) us
    each [] k = tt
    each (u ∷ us) k = (one (holds id u) refl, each us k.1)
      where
        one : (b : Bool) → holds id u ≡ b → b ≡ false
        one false e = refl
        one true e = absurd (ground (arith, k.0 id e, idle))

exec-ok : (e : Error) (f : Db → Db) (s : Db) → exec true e f s ≡ ok (tt, f s)
unfolding steps
exec-ok e f s = refl

return-ok : {A : Type 0} (a : A) (s : Db) → return {S = Db} {E = Error} a s ≡ ok (a, s)
unfolding steps
return-ok a s = refl

query-ok : {A : Type 0} (e : Error) (f : Db → A) (s : Db) → query true e f s ≡ ok (f s, s)
unfolding steps
query-ok e f s = refl

module _ (lib : Library) where
  release_expired-ok :
      (ids : List String) (db : Db)
      → release_expired lib up ids db ≡ ok (tt, set_users (update_where (holds_any ids) let_go) db)
  unfolding release_expired steps
  release_expired-ok [] db =
      ap (λ us. ok (tt, set_users (λ _. us) db)) (sym (release_nothing db.users))
  release_expired-ok (id ∷ ids) db = refl

  expire_abandoned-ok :
      (reason : Bytes) (now : ℕ) (db : Db)
      → expire_abandoned lib up reason now db ≡ ok (tt, expired reason now db)
  unfolding expire_abandoned steps
  expire_abandoned-ok reason now db = release_expired-ok (lapsed now db) _

  check_out-ok :
      (id : String) (u : User) (db : Db)
      → any (holds id) db.users ≡ false
      → check_out_identity lib up id u db ≡ ok (tt, set_users (λ _. taken u.id id db.users) db)
  unfolding check_out_identity steps
  check_out-ok id u db free = rw (free)

  lease-ok :
      (now : ℕ) (r : Run) (u : User) (db : Db)
      → any (holds r.id) db.users ≡ false
      → lease lib up now r u db ≡ ok (some (claim_of now r u), leased now r u db)
  unfolding lease
  lease-ok now r u db free = >>-of-ok _ _ db _ (check_out-ok r.id u db free) ∙ written
    where
      written :
          (exec true
                (unreachable lease_run)
                (set_runs (update_where (is_named r.id) (start_run now)))
              >> return (some (claim_of now r u)))
            (set_users (λ _. taken u.id r.id db.users) db)
          ≡ ok (
            some (claim_of now r u),
            set_runs
                (update_where (is_named r.id) (start_run now))
                (set_users (λ _. taken u.id r.id db.users) db),
          )
      written = >>-of-ok _ _ _ _ (exec-ok _ _ _) ∙ return-ok _ _

  claim_selected-ok :
      (locked : String → Bool) (now : ℕ) (db : Db) (r : Run) (u : User) (after : Db)
      → find_first (is_free_identity locked) db.users ≡ some u
      → lease lib up now r u db ≡ ok (some (claim_of now r u), after)
      → claim_selected lib up locked now (some r) db ≡ ok (some (claim_of now r u), after)
  unfolding claim_selected
  claim_selected-ok locked now db r u after free leased =
      >>=-of-ok _ _ db db (some u) (query-ok _ _ db ∙ found) ∙ leased
    where
      found :
          ok (find_first (is_free_identity locked) db.users, db)
          ≡ (let out : Result Error (Option User × Db) = ok (some u, db) in out)
      found = ap (λ o. ok (o, db)) free

  claim_below-ok :
      (locked : String → Bool) (now : ℕ) (db : Db) (r : Run) (u : User) (after : Db)
      → leb concurrency_limit (length (keep is_running db.runs)) ≡ false
      → next_run lib up locked db.runs ≡ some r
      → find_first (is_free_identity locked) db.users ≡ some u
      → lease lib up now r u db ≡ ok (some (claim_of now r u), after)
      → claim_below lib up locked now (leb concurrency_limit (length (keep is_running db.runs))) db
        ≡ ok (some (claim_of now r u), after)
  unfolding claim_below select_and_claim steps
  claim_below-ok locked now db r u after room selected free leased =
      rw (room, selected, claim_selected-ok locked now db r u after free leased)

  claim_in_transaction-ok :
      (locked : String → Bool) (reason : Bytes) (now : ℕ) (db : Db)
      → claim_in_transaction lib up locked reason now db
        ≡ claim_below lib up locked now
            (leb concurrency_limit (length (keep is_running (expired reason now db).runs)))
            (expired reason now db)
  unfolding claim_in_transaction start
  claim_in_transaction-ok locked reason now db =
      >>-of-ok _ _ db db (exec-ok _ _ _)
      ∙ (>>-of-ok _ _ db db (exec-ok _ _ _)
          ∙ (>>-of-ok _ _ db (expired reason now db) (expire_abandoned-ok reason now db)
              ∙ >>=-of-ok _ _ (expired reason now db) (expired reason now db) _ (query-ok _ _ _)))

  -- Where the database answers and commits, no identity is locked, and there are at least as many
  -- identities as slots: a claim that finds a slot free and a run to select after it has expired
  -- the abandoned ones never fails for want of an identity. It returns that run with an identity
  -- that is free once the abandoned runs have expired, and it leaves the run's row running with its
  -- lease, and the identity's row holding the run.
  pub claim_app_validation-progress :
      (locked : String → Bool) (reason : Bytes) (now : ℕ) (db : Db) (r : Run)
      → IsOrderly db
      → All (λ u. locked u.id ≡ false) db.users
      → concurrency_limit ≤ length (keep is_identity db.users)
      → length (keep is_running (expired reason now db).runs) < concurrency_limit
      → next_run lib up locked (expired reason now db).runs ≡ some r
      → (u : User) × ((claim_app_validation lib up committed locked reason now db).1
          ≡ ok (some (claim_of now r u)))
        × IsStarted locked
            (expired reason now db)
            now
            r
            u
            (claim_app_validation lib up committed locked reason now db).0
  unfolding claim_app_validation
  claim_app_validation-progress locked reason now db r h open_rows pool room selected =
      let orderly = IsOrderly-expired reason now db h in
      let (u, free) =
        free_identity locked (expired reason now db) orderly
          (open-released locked (holds_any (lapsed now db)) db.users open_rows)
          (subst (λ n. concurrency_limit ≤ n)
            (sym (identities-released (holds_any (lapsed now db)) db.users)) pool)
          room in
      let clear = next_run-is_clear lib up locked (expired reason now db).runs r selected in
      let below : leb concurrency_limit (length (keep is_running (expired reason now db).runs))
          ≡ false =
        ground (arith, room) in
      let claimed = claim_below-ok locked now (expired reason now db) r u _ below selected free (
        lease-ok now r u (expired reason now db)
          (unheld r.id (expired reason now db) orderly clear)) in
      let whole =
        transaction-of-ok commit_failed (claim_in_transaction lib up locked reason now) db _
          (leased now r u (expired reason now db))
          (claim_in_transaction-ok locked reason now db ∙ claimed) in
      (
        u,
        ap (λ x. x.1) whole,
        subst (IsStarted locked (expired reason now db) now r u) (sym (ap (λ x. x.0) whole))
            (leased-IsStarted locked now r u (expired reason now db) free clear),
      )
