-- ===== src/Identity/Validation/Claiming.antt =====
-- ClaimAppValidation of internal/identity/store.go keeps the slots, the applications and the
-- identities in order: the whole transaction, from the expiry to the lease.
use shauth.Common.{
  ℕ, String, Bool, true, false, ◌&&◌, Option, none, some, List, [], ◌∷◌, ◌≡◌, refl, sym, ◌∙◌, ap,
  arith, any, keep, find_first, update_where, leb, ◌==◌, string_eq, is_none, length, All, any-imp,
  has_key, same_key, count-update_key, Distinct-update_pairs, subst, Leads, Keeps, >>-Leads,
  exec-Leads, query_then-Leads, require_then-Leads, return-Keeps, exec-Keeps, >>-Keeps,
}
use shauth.Common.{fail, fail-ne-ok}
use shauth.Identity.Rows.{Bytes, User, Library}
use shauth.Identity.Validation.Rows.{Run, Db, Site, Op, no_identity, is_running}
use shauth.Identity.Validation.{
  Claim, concurrency_limit, holds, take_on, is_named, is_free_identity, start_run, start, next_run,
  check_out_identity, lease, claim_selected, select_and_claim, claim_below, claim_in_transaction,
  set_runs, set_users,
}
use shauth.Identity.Validation.Slots.{IsOrderly, run_key, user_key}
use shauth.Identity.Validation.Starting.{is_clear, apart-started}
use shauth.Identity.Validation.Identities.{taken, once-taken, IsHeld-taken, IsOwned-taken}
use shauth.Identity.Validation.Orderly.{expire_abandoned-Keeps, next_run-is_clear, select-is_free}

module _ (lib : Library) (reached : Site → Bool) where
  IsOrderly-started :
      (now : ℕ) (r : Run) (u : User) (db : Db)
      → IsOrderly db
      → leb concurrency_limit (length (keep is_running db.runs)) ≡ false
      → any (λ x. has_key run_key r.id x && is_clear db.runs x) db.runs ≡ true
      → any (λ v. has_key user_key u.id v && is_none v.validation_run_id) db.users ≡ true
      → any (holds r.id) db.users ≡ false
      → IsOrderly (record db {
        runs = update_where (is_named r.id) (start_run now) db.runs;
        users = update_where (λ v. v.id == u.id) (take_on r.id) db.users;
      })
  IsOrderly-started now r u db h room clear free unheld = record {
    run_ids =
        Distinct-update_pairs (same_key run_key) (is_named r.id) (start_run now) db.runs
          (λ x y. ground arith) h.run_ids;
    user_ids =
        Distinct-update_pairs (same_key user_key) (λ v. v.id == u.id) (take_on r.id) db.users
          (λ x y. ground arith) h.user_ids;
    slots =
        ground
          (arith, count-update_key run_key is_running r.id (start_run now) db.runs h.run_ids, room);
    apart = apart-started now r.id db.runs clear h.run_ids h.apart;
    once = once-taken u.id r.id db.users h.user_ids free unheld h.once;
    held = IsHeld-taken u.id r.id db.users h.user_ids free now db.runs h.held;
    owned = IsOwned-taken u.id r.id db.users h.user_ids free now db.runs known h.owned;
  }
    where
      known : any (is_named r.id) db.runs ≡ true
      known = any-imp _ (is_named r.id) db.runs (each db.runs) clear
        where
          each :
              (xs : List Run)
              → All
                  (λ x.
                    has_key run_key r.id x && is_clear db.runs x ≡ true → is_named r.id x ≡ true)
                  xs
          each [] = tt
          each (x ∷ xs) = ((λ k. ground (arith, k)), each xs)

  check_out-Leads :
      (id : String) (u : User) (s0 : Db)
      → Leads
          (λ s. s ≡ s0)
          (λ s.
            (s ≡ set_users (λ _. taken u.id id s0.users) s0) × (any (holds id) s0.users ≡ false))
          (check_out_identity lib reached id u)
  unfolding check_out_identity
  check_out-Leads id u s0 = >>-Leads At At _ _ _ (exec-Leads At At _ _ _ (λ s h. h)) (
      query_then-Leads At _ _ _ _ _ λ db h.
        require_then-Leads (λ t. t ≡ db) _ _ _ _
          λ unheld.
            exec-Leads (λ t. t ≡ db) _ _ _ _
              λ t k. (
                ap (set_users (update_where (λ v. v.id == u.id) (take_on id))) (k ∙ h),
                subst (λ d. any (holds id) d.users ≡ false) h (ground arith),
              ))
    where
      At : Db → Type 0
      At s = s ≡ s0

  lease-Leads :
      (now : ℕ) (r : Run) (u : User) (db : Db)
      → IsOrderly db
      → leb concurrency_limit (length (keep is_running db.runs)) ≡ false
      → any (λ x. has_key run_key r.id x && is_clear db.runs x) db.runs ≡ true
      → any (λ v. has_key user_key u.id v && is_none v.validation_run_id) db.users ≡ true
      → Leads (λ s. s ≡ db) IsOrderly (lease lib reached now r u)
  unfolding lease
  lease-Leads now r u db h room clear free =
      >>-Leads (λ s. s ≡ db) Taken IsOrderly _ _ (check_out-Leads r.id u db)
        (>>-Leads Taken IsOrderly IsOrderly _ _
          (exec-Leads Taken IsOrderly _ _ _ λ s k.
            subst (λ t. IsOrderly (set_runs (update_where (is_named r.id) (start_run now)) t))
              (sym k.0) (IsOrderly-started now r u db h room clear free k.1))
          (return-Keeps IsOrderly _))
    where
      Taken : Db → Type 0
      Taken s =
          (s ≡ set_users (λ _. taken u.id r.id db.users) db) × (any (holds r.id) db.users ≡ false)

  claim_selected-Leads :
      (locked : String → Bool) (now : ℕ) (db : Db) (o : Option Run)
      → IsOrderly db
      → leb concurrency_limit (length (keep is_running db.runs)) ≡ false
      → next_run lib reached locked db.runs ≡ o
      → Leads (λ s. s ≡ db) IsOrderly (claim_selected lib reached locked now o)
  unfolding claim_selected
  claim_selected-Leads locked now db none h room e s a s' same eq =
      return-Keeps IsOrderly none s a s' (subst IsOrderly (sym same) h) eq
  claim_selected-Leads locked now db (some r) h room e s a s' same eq =
      query_then-Leads (λ t. t ≡ db) IsOrderly _ _ _ _
        (λ t k. checked (find_first (is_free_identity locked) t.users) t k refl) s a s' same eq
    where
      checked :
          (o : Option User) (t : Db)
          → t ≡ db
          → find_first (is_free_identity locked) t.users ≡ o
          → Leads
              (λ u. u ≡ t)
              IsOrderly
              (elim o as (λ _. Op (Option Claim)) [
                | none ↦ fail no_identity
                | some u ↦ lease lib reached now r u
              ])
      checked none t k found u b u' back fails = absurd (fail-ne-ok no_identity u b u' fails)
      checked (some v) t k found u b u' back done =
          lease-Leads now r v db h room (next_run-is_clear lib reached locked db.runs r e)
            (select-is_free lib reached locked db.users v
              (ap (λ d. find_first (is_free_identity locked) d.users) (sym k) ∙ found))
            u b u' (back ∙ k) done

  claim_below-Keeps :
      (locked : String → Bool) (now : ℕ) (db : Db) (full : Bool)
      → IsOrderly db
      → leb concurrency_limit (length (keep is_running db.runs)) ≡ full
      → Leads (λ s. s ≡ db) IsOrderly (claim_below lib reached locked now full)
  unfolding claim_below select_and_claim
  claim_below-Keeps locked now db true h room s a s' same eq =
      return-Keeps IsOrderly none s a s' (subst IsOrderly (sym same) h) eq
  claim_below-Keeps locked now db false h room s a s' same eq =
      query_then-Leads (λ t. t ≡ db) IsOrderly _ _ _ _
        (λ t k u b u' back.
          claim_selected-Leads locked now db (next_run lib reached locked t.runs) h room
            (ap (λ d. next_run lib reached locked d.runs) (sym k)) u b u' (back ∙ k))
        s a s' same eq

  pub claim_in_transaction-Keeps :
      (locked : String → Bool) (reason : Bytes) (now : ℕ)
      → Keeps IsOrderly (claim_in_transaction lib reached locked reason now)
  unfolding claim_in_transaction start
  claim_in_transaction-Keeps locked reason now =
      >>-Keeps IsOrderly _ _ (exec-Keeps IsOrderly _ _ _ (λ s h. h)) (
        >>-Keeps IsOrderly _ _ (exec-Keeps IsOrderly _ _ _ (λ s h. h)) (
          >>-Keeps IsOrderly _ _ (expire_abandoned-Keeps lib reached reason now) (
            query_then-Leads IsOrderly IsOrderly _ _ _ _
              λ s h. claim_below-Keeps locked now s _ h refl)))
