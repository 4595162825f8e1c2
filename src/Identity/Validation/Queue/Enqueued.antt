-- ===== src/Identity/Validation/Queue/Enqueued.antt =====
-- EnqueueAppValidations of internal/identity/store.go and the order that running runs keep: it
-- changes queued rows only.
use shauth.Common.{
  ℕ, ◌≤◌, String, Bool, true, false, ◌&&◌, Option, List, [], ◌∷◌, ◌≡◌, refl, sym, arith, any, keep,
  delete_where, string_eq, length, Bool-cases, inl, inr, All, All-map, All-keep, any-none,
  any-delete_where, Distinct-keep, same_key, subst, Keeps, >>-Keeps, >>=-Keeps, exec-Keeps,
  query-Keeps, require-Keeps, return-Keeps, query_then-Leads, require_then-Leads, exec-Leads,
}
use shauth.Identity.Rows.{Library}
use shauth.Identity.Validation.Rows.{
  Run, ManagedApp, Direction, Urls, Db, Site, is_running, is_queued,
}
use shauth.Identity.Validation.{is_named, set_runs}
use shauth.Identity.Validation.Slots.{IsOrderly, run_key, clash, IsHeld}
use shauth.Identity.Validation.Queue.{
  is_superseded, ManagedAppRef, insert_unless_pending, enqueue_run, enqueue_app_validation,
  enqueue_each, enqueue_in_transaction,
}

module _ (p : Run → Bool) (idle : (r : Run) → p r ≡ true → is_running r ≡ false) where
  count-removed :
      (rs : List Run) → length (keep is_running (delete_where p rs)) ≤ length (keep is_running rs)
  count-removed [] = omega arith
  count-removed (r ∷ rs) = ground (arith, count-removed rs, idle r)

  IsOrderly-removed : (db : Db) → IsOrderly db → IsOrderly (set_runs (delete_where p) db)
  IsOrderly-removed db h = record {
    run_ids = Distinct-keep (same_key run_key) _ db.runs h.run_ids;
    user_ids = h.user_ids;
    slots = omega (arith, count-removed db.runs, h.slots);
    apart = Distinct-keep clash _ db.runs h.apart;
    once = h.once;
    held = All-keep (IsHeld db.users) _ db.runs h.held;
    owned =
        All-map
          (λ u k id on.
            any-delete_where (λ r. is_named id r && is_running r) p db.runs
              (λ r run. stays r id run) (k id on))
          db.users h.owned;
  }
    where
      stays : (r : Run) (id : String) → is_named id r && is_running r ≡ true → p r ≡ false
      stays r id run = elim (Bool-cases (p r)) [
        | inl hit ↦ absurd (ground (arith, run, idle r hit))
        | inr miss ↦ miss
      ]

IsOrderly-added :
    (new : Run) (db : Db)
    → is_queued new ≡ true
    → any (is_named new.id) db.runs ≡ false
    → IsOrderly db
    → IsOrderly (set_runs (λ runs. new ∷ runs) db)
IsOrderly-added new db waiting unnamed h = record {
  run_ids = (unnamed, h.run_ids);
  user_ids = h.user_ids;
  slots = ground (arith, h.slots, idle);
  apart = (any-none (clash new) db.runs (quiet db.runs), h.apart);
  once = h.once;
  held = ((λ on. absurd (ground (arith, on, idle))), h.held);
  owned = All-map (λ u k id on. ground (arith, k id on)) db.users h.owned;
}
  where
    idle : is_running new ≡ false
    idle = ground (arith, waiting)

    quiet : (rs : List Run) → All (λ r. clash new r ≡ false) rs
    quiet [] = tt
    quiet (r ∷ rs) = (ground (arith, idle), quiet rs)

module _ (lib : Library) (reached : Site → Bool) (urls : Urls)
    (new_id : ManagedApp → Direction → String) where
  insert_unless_pending-Keeps :
      (new : Run) (pending : Bool)
      → is_queued new ≡ true
      → Keeps IsOrderly (insert_unless_pending lib reached urls new_id new pending)
  unfolding insert_unless_pending
  insert_unless_pending-Keeps new true waiting s a s' h e = return-Keeps IsOrderly tt s a s' h e
  insert_unless_pending-Keeps new false waiting s a s' h e =
      query_then-Leads IsOrderly IsOrderly _ _ _ _
        (λ db k.
          require_then-Leads (λ t. t ≡ db) IsOrderly _ _ _
            λ fresh.
              exec-Leads (λ t. t ≡ db) IsOrderly _ _ _
                λ t back.
                  subst (λ d. IsOrderly (set_runs (λ runs. new ∷ runs) d)) (sym back)
                    (IsOrderly-added new db waiting (ground (arith, fresh)) k))
        s a s' h e

  enqueue_run-Keeps :
      (new : Run) → is_queued new ≡ true → Keeps IsOrderly (enqueue_run lib reached urls new_id new)
  unfolding enqueue_run
  enqueue_run-Keeps new waiting =
      >>-Keeps IsOrderly _ _
        (exec-Keeps IsOrderly _ _ _
          (IsOrderly-removed (is_superseded new) λ r hit. ground (arith, hit)))
        (>>=-Keeps IsOrderly _ _ (query-Keeps IsOrderly _ _ _)
          λ pending. insert_unless_pending-Keeps new pending waiting)

  enqueue_each-Keeps :
      (apps rest : List ManagedApp) (requested_by : Option String) (now : ℕ)
      → Keeps IsOrderly (enqueue_each lib reached urls new_id apps rest requested_by now)
  unfolding enqueue_each enqueue_app_validation
  enqueue_each-Keeps apps [] requested_by now = return-Keeps IsOrderly tt
  enqueue_each-Keeps apps (app ∷ rest) requested_by now =
      >>-Keeps IsOrderly _ _
        (>>-Keeps IsOrderly _ _ (enqueue_run-Keeps _ refl) (enqueue_run-Keeps _ refl))
        (enqueue_each-Keeps apps rest requested_by now)

  pub enqueue_in_transaction-Keeps :
      (ref : ManagedAppRef) (requested_by : Option String) (now : ℕ)
      → Keeps IsOrderly (enqueue_in_transaction lib reached urls new_id ref requested_by now)
  unfolding enqueue_in_transaction
  enqueue_in_transaction-Keeps ref requested_by now =
      >>-Keeps IsOrderly _ _ (exec-Keeps IsOrderly _ _ _ (λ s h. h)) (
        >>=-Keeps IsOrderly _ _ (query-Keeps IsOrderly _ _ _) λ apps.
          >>-Keeps IsOrderly _ _ (enqueue_each-Keeps apps _ requested_by now)
            (>>-Keeps IsOrderly _ _ (require-Keeps IsOrderly _ _) (return-Keeps IsOrderly _)))
