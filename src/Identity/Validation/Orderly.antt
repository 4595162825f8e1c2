-- ===== src/Identity/Validation/Orderly.antt =====
-- ClaimAppValidation, CompleteAppValidation and ExpireAbandonedAppValidation of
-- internal/identity/store.go keep the slots, the applications and the identities in order.
use shauth.Common.{
  ℕ, String, Bool, true, false, ◌&&◌, Option, none, some, List, [], ◌∷◌, ◌≡◌, refl, sym, ◌∙◌, ap,
  arith, any, keep, find_first, update_where, leb, ◌==◌, string_eq, is_none, length, eq_iff,
  ==_refl, ==_sym, All, All-map, All-zip, All-keep, All-keep_test, All-order_by, All-find_first,
  All-any_self, All-key_test, has_key, Bool-cases, inl, inr, subst, Leads, Keeps, require,
  return-eq-ok, exec, ◌>>◌, >>-Leads, exec-Leads, query_then-Leads, require_then-Leads, exec-Keeps,
  >>-Keeps,
}
use shauth.Identity.Rows.{Bytes, User, Library}
use shauth.Identity.Validation.Rows.{
  Run, Status, Db, Site, is_running, is_result, failed, unreachable, expire_runs, complete_run,
  release_identity, run_not_found,
}
use shauth.Identity.Validation.{
  holds, holds_any, let_go, ids_of, is_abandoned, is_eligible, is_free_identity, finish, start,
  next_run, release_expired, expire_abandoned, expire_in_transaction, complete_in_transaction,
  is_completable, set_users, set_runs, set_users,
}
use shauth.Identity.Validation.Slots.{IsOrderly, IsOrderly-ended, run_key, user_key}
use shauth.Identity.Validation.Starting.{is_clear}

-- The identifiers that an expiry returns.
abbrev listed : List String → String → Bool
listed ids id = any (λ i. id == i) ids

ids_of-keep :
    (p : Run → Bool) (k : String) (rs : List Run)
    → listed (ids_of (keep p rs)) k ≡ any (λ r. has_key run_key k r && p r) rs
ids_of-keep p k [] = refl
ids_of-keep p k (r ∷ rs) = ground (arith, ids_of-keep p k rs, ==_sym r.id k)

holds_any-listed :
    (ids : List String) (u : User) (id : String)
    → holds id u ≡ true
    → holds_any ids u ≡ listed ids id
holds_any-listed ids u id on = go u.validation_run_id on ids
  where
    go :
        (o : Option String)
        → (elim o [ none ↦ false | some r ↦ r == id ]) ≡ true
        → (is : List String)
        → any (λ i. elim o [ none ↦ false | some r ↦ r == i ]) is ≡ listed is id
    go none e is = absurd (ground arith)
    go (some r) e is = subst (λ k. any (λ i. r == i) is ≡ listed is k) ((eq_iff r id).0 e) refl

pub release_nothing : (us : List User) → update_where (holds_any []) let_go us ≡ us
release_nothing [] = refl
release_nothing (u ∷ us) = ap (λ vs. u ∷ vs) (release_nothing us)

abbrev pub lapsed : ℕ → Db → List String
lapsed now db = ids_of (keep (is_abandoned now) db.runs)

abbrev pub expired : Bytes → ℕ → Db → Db
expired reason now db = record db {
  runs = update_where (is_abandoned now) (finish failed reason now) db.runs;
  users = update_where (holds_any (lapsed now db)) let_go db.users;
}

pub IsOrderly-expired :
    (reason : Bytes) (now : ℕ) (db : Db) → IsOrderly db → IsOrderly (expired reason now db)
IsOrderly-expired reason now db h =
    IsOrderly-ended (is_abandoned now) (finish failed reason now) (λ r. refl) (λ r. refl)
      (listed (lapsed now db)) (holds_any (lapsed now db)) (holds_any-listed (lapsed now db)) db
      gone kept h
  where
    gone : All (λ r. is_abandoned now r ≡ true → listed (lapsed now db) r.id ≡ true) db.runs
    gone =
        All-map
          (λ r k off.
            ids_of-keep (is_abandoned now) r.id db.runs
            ∙ k r.id (ground (arith, off, ==_refl r.id)))
          db.runs (All-any_self (λ k r. has_key run_key k r && is_abandoned now r) db.runs)

    kept :
        All
          (λ r.
            is_abandoned now r ≡ false → is_running r ≡ true → listed (lapsed now db) r.id ≡ false)
          db.runs
    kept =
        All-map (λ r k off on. ids_of-keep (is_abandoned now) r.id db.runs ∙ k off) db.runs
          (All-key_test run_key (is_abandoned now) db.runs h.run_ids)

module _ (lib : Library) (reached : Site → Bool) where
  release_expired-Leads :
      (ids : List String) (s0 : Db)
      → Leads
          (λ s. s ≡ s0)
          (λ s. s ≡ record s0 { users = update_where (holds_any ids) let_go s0.users })
          (release_expired lib reached ids)
  unfolding release_expired
  release_expired-Leads [] s0 s a s' h e =
      (return-eq-ok tt s a s' e).1
      ∙ (h ∙ ap (λ us. set_users (λ _. us) s0) (sym (release_nothing s0.users)))
  release_expired-Leads (id ∷ ids) s0 s a s' h e =
      exec-Leads (λ t. t ≡ s0)
        (λ t. t ≡ record s0 { users = update_where (holds_any (id ∷ ids)) let_go s0.users }) _ _ _
        (λ t k. ap (set_users (update_where (holds_any (id ∷ ids)) let_go)) k) s a s' h e

  pub expire_abandoned-Keeps :
      (reason : Bytes) (now : ℕ) → Keeps IsOrderly (expire_abandoned lib reached reason now)
  unfolding expire_abandoned
  expire_abandoned-Keeps reason now = query_then-Leads IsOrderly IsOrderly _ _ _ _ λ db h.
      λ s a s' same e.
        subst IsOrderly (sym (changed db s a s' same e)) (IsOrderly-expired reason now db h)
    where
      changed :
          (db : Db)
          → Leads
              (λ s. s ≡ db)
              (λ s. s ≡ expired reason now db)
              (exec true
                  (unreachable expire_runs)
                  (set_runs (update_where (is_abandoned now) (finish failed reason now)))
                >> release_expired lib reached (lapsed now db))
      changed db =
          >>-Leads (λ s. s ≡ db)
            (λ s. s ≡ set_runs (update_where (is_abandoned now) (finish failed reason now)) db)
            (λ s. s ≡ expired reason now db) _ _
            (exec-Leads _ _ _ _ _
              (λ s h. ap (set_runs (update_where (is_abandoned now) (finish failed reason now))) h))
            (release_expired-Leads (lapsed now db) _)

  -- The row that is selected is queued, and nobody uses its applications.
  pub next_run-is_clear :
      (locked : String → Bool) (runs : List Run) (r : Run)
      → next_run lib reached locked runs ≡ some r
      → any (λ x. has_key run_key r.id x && is_clear runs x) runs ≡ true
  unfolding next_run
  next_run-is_clear locked runs r e =
      All-find_first Present (λ x. true) _ r
        (All-order_by Present (λ x. x.requested_at) _
          (All-order_by Present (λ x. lib.collate x.id) _ present))
        e
    where
      Present : Run → Type 0
      Present x = any (λ y. has_key run_key x.id y && is_clear runs y) runs ≡ true

      present : All Present (keep (is_eligible locked runs) runs)
      present =
          All-map (λ x k. k.1 x.id (ground (arith, k.0, ==_refl x.id)))
            (keep (is_eligible locked runs) runs)
            (All-zip _ _ (keep (is_eligible locked runs) runs)
              (All-keep_test (is_eligible locked runs) runs)
              (All-keep _ (is_eligible locked runs) runs
                (All-any_self (λ k y. has_key run_key k y && is_clear runs y) runs)))

  pub select-is_free :
      (locked : String → Bool) (users : List User) (u : User)
      → find_first (is_free_identity locked) users ≡ some u
      → any (λ v. has_key user_key u.id v && is_none v.validation_run_id) users ≡ true
  select-is_free locked [] u e = absurd (ground arith)
  select-is_free locked (v ∷ vs) u e = elim (Bool-cases (is_free_identity locked v)) [
    | inl hit ↦
        let same : v ≡ u = ground arith in
        subst
          (λ w. any (λ v. has_key user_key w.id v && is_none v.validation_run_id) (v ∷ vs) ≡ true)
          same (ground (arith, hit, ==_refl v.id))
    | inr miss ↦ ground (arith, select-is_free locked vs u (ground (arith, e, miss)))
  ]

  -- The run that a worker completes, and the identity that it held.
  completed : String → Status → Bytes → ℕ → Db → Db
  completed id status failure now db = record db {
    runs = update_where (is_completable id) (finish status failure now) db.runs;
    users = update_where (holds id) let_go db.users;
  }

  IsOrderly-completed :
      (id : String) (status : Status) (failure : Bytes) (now : ℕ) (db : Db)
      → is_result status ≡ true
      → IsOrderly db
      → IsOrderly (completed id status failure now db)
  unfolding completed is_result
  IsOrderly-completed id status failure now db result h =
      IsOrderly-ended (is_completable id) (finish status failure now) (λ r. ended status result)
        (λ r. refl) (λ k. id == k) (holds id) released db (gone db.runs) (kept db.runs) h
    where
      ended :
          (s : Status) → is_result s ≡ true → elim s [ Status.running ↦ true | _ ↦ false ] ≡ false
      ended s e = ground arith

      released : (u : User) (k : String) → holds k u ≡ true → holds id u ≡ (id == k)
      released u k on = go u.validation_run_id on
        where
          go :
              (o : Option String)
              → elim o [ none ↦ false | some r ↦ r == k ] ≡ true
              → elim o [ none ↦ false | some r ↦ r == id ] ≡ (id == k)
          go none e = absurd (ground arith)
          go (some r) e = ground (arith, eq_iff r k, eq_iff r id, eq_iff id k, e)

      gone : (rs : List Run) → All (λ r. is_completable id r ≡ true → (id == r.id) ≡ true) rs
      gone [] = tt
      gone (r ∷ rs) = ((λ k. ground (arith, k, ==_sym id r.id)), gone rs)

      kept :
          (rs : List Run)
          → All (λ r. is_completable id r ≡ false → is_running r ≡ true → (id == r.id) ≡ false) rs
      kept [] = tt
      kept (r ∷ rs) = ((λ off on. ground (arith, off, on, ==_sym id r.id)), kept rs)

  pub complete_in_transaction-Keeps :
      (id : String) (status : Status) (failure : Bytes) (now : ℕ)
      → is_result status ≡ true
      → Keeps IsOrderly (complete_in_transaction lib reached id status failure now)
  unfolding complete_in_transaction start completed
  complete_in_transaction-Keeps id status failure now result =
      >>-Keeps IsOrderly _ _ (exec-Keeps IsOrderly _ _ _ (λ s h. h)) (
        query_then-Leads IsOrderly IsOrderly _ _ _ _ λ db h s a s' same e.
          subst IsOrderly (sym (changed db s a s' same e))
            (IsOrderly-completed id status failure now db result h))
    where
      ended : Db → Db
      ended db = set_runs (update_where (is_completable id) (finish status failure now)) db

      changed :
          (db : Db)
          → Leads
              (λ s. s ≡ db)
              (λ s. s ≡ completed id status failure now db)
              (exec true
                  (unreachable complete_run)
                  (set_runs (update_where (is_completable id) (finish status failure now)))
                >> (require
                      (leb (length (keep (is_completable id) db.runs)) 1
                        && leb 1 (length (keep (is_completable id) db.runs)))
                      run_not_found
                    >> exec
                        (reached release_identity)
                        (unreachable release_identity)
                        (set_users (update_where (holds id) let_go))))
      changed db =
          >>-Leads (λ s. s ≡ db) (λ s. s ≡ ended db) (λ s. s ≡ completed id status failure now db) _
            _
            (exec-Leads _ _ _ _ _ (λ s h.
              ap (set_runs (update_where (is_completable id) (finish status failure now))) h))
            (require_then-Leads _ _ _ _ _
              λ _. exec-Leads _ _ _ _ _ (λ s h. ap (set_users (update_where (holds id) let_go)) h))

  pub expire_in_transaction-Keeps :
      (reason : Bytes) (now : ℕ) → Keeps IsOrderly (expire_in_transaction lib reached reason now)
  unfolding expire_in_transaction start
  expire_in_transaction-Keeps reason now =
      >>-Keeps IsOrderly _ _ (exec-Keeps IsOrderly _ _ _ (λ s h. h))
        (expire_abandoned-Keeps reason now)
