-- ===== src/Identity/Validation/Slots.antt =====
-- What the running validation runs share: three slots, the applications in use, and the validation
-- identities; and what finishing and starting a run does to them.
use shauth.Common.{
  ◌≤◌, String, Bool, true, false, ◌&&◌, ◌||◌, none, some, List, [], ◌∷◌, ◌≡◌, refl, sym, ◌∙◌, arith,
  any, keep, update_where, string_eq, if◌then◌else◌, length, eq_iff, All, All-zip, All-update,
  any-updated, Distinct, Distinct-update_pairs, same_key, Bool-cases, inl, inr,
}
use shauth.Identity.Rows.{User}
use shauth.Identity.Validation.Rows.{Run, Db, is_running, uses_app}
use shauth.Identity.Validation.{concurrency_limit, holds, let_go, is_named}

abbrev pub run_key : Run → String
run_key r = r.id

abbrev pub user_key : User → String
user_key u = u.id

abbrev pub same_hold : User → User → Bool
same_hold u v = elim u.validation_run_id [ none ↦ false | some id ↦ holds id v ]

abbrev pub uses_witness_of : Run → Run → Bool
uses_witness_of r s = elim r.witness [ none ↦ false | some w ↦ uses_app w.managed_app_id s ]

-- Two running runs that use one application.
abbrev pub clash : Run → Run → Bool
clash r s = is_running r && (is_running s && (uses_app r.managed_app_id s || uses_witness_of r s))

abbrev pub IsHeld : List User → Run → Type 0
IsHeld users r = is_running r ≡ true → any (holds r.id) users ≡ true

abbrev pub IsOwned : List Run → User → Type 0
IsOwned runs u =
    (id : String) → holds id u ≡ true → any (λ r. is_named id r && is_running r) runs ≡ true

-- At most three runs run, no application is in two of them, every running run holds an identity of
-- its own, and every identity that is checked out belongs to a running run.
pub record IsOrderly (db : Db) : Type 0 where
  pub run_ids : Distinct (same_key run_key) db.runs
  pub user_ids : Distinct (same_key user_key) db.users
  pub slots : length (keep is_running db.runs) ≤ concurrency_limit
  pub apart : Distinct clash db.runs
  pub once : Distinct same_hold db.users
  pub held : All (IsHeld db.users) db.runs
  pub owned : All (IsOwned db.runs) db.users

-- Rows `p` end, and the identities `released` of the runs that `named` names are released.
module _ (p : Run → Bool) (f : Run → Run) (ended : (r : Run) → is_running (f r) ≡ false)
    (same_id : (r : Run) → (f r).id ≡ r.id) (named : String → Bool) (released : User → Bool)
    (names : (u : User) (id : String) → holds id u ≡ true → released u ≡ named id) where
  count-ended :
      (runs : List Run)
      → length (keep is_running (update_where p f runs)) ≤ length (keep is_running runs)
  count-ended [] = omega arith
  count-ended (r ∷ rs) = ground (arith, ended r, count-ended rs)

  apart-ended : (runs : List Run) → Distinct clash runs → Distinct clash (update_where p f runs)
  apart-ended runs h = Distinct-update_pairs clash p f runs (λ r x. shrinks r x) h
    where
      shrinks :
          (r x : Run)
          → clash r x ≡ false
          → clash (if p r then f r else r) (if p x then f x else x) ≡ false
      shrinks r x e = elim (Bool-cases (p r)) [
        | inl hit ↦ ground (arith, hit, ended r)
        | inr miss ↦ elim (Bool-cases (p x)) [
          | inl also ↦ ground (arith, miss, also, ended x)
          | inr other ↦ ground (arith, miss, other, e)
        ]
      ]

  ids-ended :
      (runs : List Run)
      → Distinct (same_key run_key) runs
      → Distinct (same_key run_key) (update_where p f runs)
  ids-ended runs h =
      Distinct-update_pairs (same_key run_key) p f runs
        (λ r x. ground (arith, same_id r, same_id x)) h

  once-released :
      (users : List User)
      → Distinct same_hold users
      → Distinct same_hold (update_where released let_go users)
  once-released users h =
      Distinct-update_pairs same_hold released let_go users (λ u v. shrinks u v) h
    where
      shrinks :
          (u v : User)
          → same_hold u v ≡ false
          → same_hold (if released u then let_go u else u) (if released v then let_go v else v)
            ≡ false
      shrinks u v e = ground arith

  IsHeld-ended :
      (users : List User) (runs : List Run)
      → All (λ r. p r ≡ false → is_running r ≡ true → named r.id ≡ false) runs
      → All (IsHeld users) runs
      → All (IsHeld (update_where released let_go users)) (update_where p f runs)
  IsHeld-ended users runs kept h =
      All-update (λ r. IsHeld users r × (p r ≡ false → is_running r ≡ true → named r.id ≡ false))
        (IsHeld (update_where released let_go users)) p f runs (each runs) (All-zip _ _ runs h kept)
    where
      holder :
          (r : Run) (us : List User)
          → named r.id ≡ false
          → any (holds r.id) us ≡ true
          → any (holds r.id) (update_where released let_go us) ≡ true
      holder r us free e = any-updated (holds r.id) released let_go us (stays us) e
        where
          stays :
              (vs : List User)
              → All
                  (λ u.
                    holds r.id u ≡ true → holds r.id (if released u then let_go u else u) ≡ true)
                  vs
          stays [] = tt
          stays (v ∷ vs) = ((λ on. ground (arith, on, names v r.id on, free)), stays vs)

      each :
          (rs : List Run)
          → All
              (λ r.
                IsHeld users r × (p r ≡ false → is_running r ≡ true → named r.id ≡ false)
                → IsHeld (update_where released let_go users) (if p r then f r else r))
              rs
      each [] = tt
      each (r ∷ rs) = (one (p r) refl, each rs)
        where
          one :
              (b : Bool)
              → p r ≡ b
              → IsHeld users r × (p r ≡ false → is_running r ≡ true → named r.id ≡ false)
              → IsHeld (update_where released let_go users) (if b then f r else r)
          one true hit k on = absurd (ground (arith, ended r, on))
          one false miss k on = holder r users (k.1 miss on) (k.0 on)

  IsOwned-ended :
      (runs : List Run) (users : List User)
      → All (λ r. p r ≡ true → named r.id ≡ true) runs
      → All (IsOwned runs) users
      → All (IsOwned (update_where p f runs)) (update_where released let_go users)
  IsOwned-ended runs [] gone h = tt
  IsOwned-ended runs (u ∷ us) gone h = (one (released u) refl, IsOwned-ended runs us gone h.1)
    where
      stays :
          (id : String) (rs : List Run)
          → named id ≡ false
          → All (λ r. p r ≡ true → named r.id ≡ true) rs
          → All
              (λ r.
                is_named id r && is_running r ≡ true
                → (is_named id (if p r then f r else r) && is_running (if p r then f r else r)
                    ≡ true))
              rs
      stays id [] free k = tt
      stays id (r ∷ rs) free k =
          ((λ on. ground (arith, on, k.0, free, eq_iff r.id id)), stays id rs free k.1)

      one :
          (b : Bool) → released u ≡ b → IsOwned (update_where p f runs) (if b then let_go u else u)
      one true hit id on = absurd (ground arith)
      one false miss id on =
          any-updated (λ r. is_named id r && is_running r) p f runs
            (stays id runs (sym (names u id on) ∙ miss) gone) (h.0 id on)

  pub IsOrderly-ended :
      (db : Db)
      → All (λ r. p r ≡ true → named r.id ≡ true) db.runs
      → All (λ r. p r ≡ false → is_running r ≡ true → named r.id ≡ false) db.runs
      → IsOrderly db
      → IsOrderly (record db {
        runs = update_where p f db.runs;
        users = update_where released let_go db.users;
      })
  IsOrderly-ended db gone kept h = record {
    run_ids = ids-ended db.runs h.run_ids;
    user_ids =
        Distinct-update_pairs (same_key user_key) released let_go db.users (λ u v. ground arith)
          h.user_ids;
    slots = omega (arith, count-ended db.runs, h.slots);
    apart = apart-ended db.runs h.apart;
    once = once-released db.users h.once;
    held = IsHeld-ended db.users db.runs kept h.held;
    owned = IsOwned-ended db.runs db.users gone h.owned;
  }
