-- ===== src/Identity/Validation/Pool.antt =====
-- The validation identities of internal/identity/store.go, counted against the running runs.
use shauth.Common.{
  ==_refl, ◌≤◌, ◌<◌, String, Bool, true, false, not, ◌&&◌, Option, none, some, List, [], ◌∷◌, ◌≡◌,
  refl, arith, any, keep, find_first, ◌==◌, string_eq, is_none, length, eq_iff, All, All-map,
  All-none, All-zip, Distinct, Option-cases, inl, inr,
}
use shauth.Identity.Rows.{User}
use shauth.Identity.Validation.Rows.{Run, Db, is_running}
use shauth.Identity.Validation.{concurrency_limit, holds, is_named, is_free_identity}
use shauth.Identity.Validation.Slots.{IsOrderly, IsOwned, same_hold}
use shauth.Identity.Validation.{let_go}
use shauth.Common.{update_where}

abbrev is_checked_out : User → Bool
is_checked_out u = not (is_none u.validation_run_id)

abbrev pub is_identity : User → Bool
is_identity u = u.is_validation

abbrev pub is_run : String → Run → Bool
is_run id r = is_named id r && is_running r

-- Taking the rows of a running run away leaves fewer running rows.
count-without :
    (id : String) (runs : List Run)
    → length (keep is_running (keep (λ r. not (is_named id r)) runs))
      ≤ length (keep is_running runs)
count-without id [] = omega arith
count-without id (r ∷ rs) = ground (arith, count-without id rs)

fewer-without :
    (id : String) (runs : List Run)
    → any (is_run id) runs ≡ true
    → length (keep is_running (keep (λ r. not (is_named id r)) runs))
      < length (keep is_running runs)
fewer-without id [] e = absurd (ground arith)
fewer-without id (r ∷ rs) e = ground (arith, count-without id rs, fewer-without id rs)

any-without :
    (id other : String) (runs : List Run)
    → (other == id) ≡ false
    → any (is_run other) runs ≡ true
    → any (is_run other) (keep (λ r. not (is_named id r)) runs) ≡ true
any-without id other [] off e = e
any-without id other (r ∷ rs) off e =
    ground (
      arith,
      any-without id other rs off,
      eq_iff r.id id,
      eq_iff r.id other,
      eq_iff other id,
      off,
      e,
    )

-- No more identities are checked out than runs are running.
checked_out-le-running :
    (users : List User) (runs : List Run)
    → Distinct same_hold users
    → All (IsOwned runs) users
    → length (keep is_checked_out users) ≤ length (keep is_running runs)
checked_out-le-running [] runs once owned = omega arith
checked_out-le-running (u ∷ us) runs once owned =
    go u.validation_run_id refl (λ rs h. checked_out-le-running us rs once.1 h)
  where
    go :
        (o : Option String)
        → u.validation_run_id ≡ o
        → ((rs : List Run)
            → All (IsOwned rs) us
            → length (keep is_checked_out us) ≤ length (keep is_running rs))
        → length (keep is_checked_out (u ∷ us)) ≤ length (keep is_running runs)
    go none e more = ground (arith, e, more runs owned.1)
    go (some id) e more =
        let held : holds id u ≡ true = ground (arith, e, ==_refl id) in
        ground (
          arith,
          e,
          fewer-without id runs (owned.0 id held),
          more (keep (λ r. not (is_named id r)) runs) (
              All-map
                (λ v k other on. any-without id other runs (distinct v other k.0 on) (k.1 other on))
                us (All-zip _ _ us (others once.0) owned.1)),
        )
      where
        others : any (same_hold u) us ≡ false → All (λ v. holds id v ≡ false) us
        others h = All-map (λ v k. ground (arith, e, k)) us (All-none (same_hold u) us h)

        distinct :
            (v : User) (other : String)
            → holds id v ≡ false
            → holds other v ≡ true
            → (other == id) ≡ false
        distinct v other off on = apart v.validation_run_id off on
          where
            apart :
                (o : Option String)
                → elim o [ none ↦ false | some r ↦ r == id ] ≡ false
                → elim o [ none ↦ false | some r ↦ r == other ] ≡ true
                → (other == id) ≡ false
            apart none off on = absurd (ground arith)
            apart (some r) off on =
                ground (arith, off, on, eq_iff r id, eq_iff r other, eq_iff other id)

module _ (locked : String → Bool) where
  -- Where no identity is free, all of them are checked out.
  identities-le-checked_out :
      (users : List User)
      → All (λ u. locked u.id ≡ false) users
      → find_first (is_free_identity locked) users ≡ none
      → length (keep is_identity users) ≤ length (keep is_checked_out users)
  identities-le-checked_out [] open_rows e = omega arith
  identities-le-checked_out (u ∷ us) open_rows e =
      ground (arith, open_rows.0, identities-le-checked_out us open_rows.1)

  pub free_identity :
      (db : Db)
      → IsOrderly db
      → All (λ u. locked u.id ≡ false) db.users
      → concurrency_limit ≤ length (keep is_identity db.users)
      → length (keep is_running db.runs) < concurrency_limit
      → (u : User) × (find_first (is_free_identity locked) db.users ≡ some u)
  free_identity db h open_rows pool room =
      elim (Option-cases (find_first (is_free_identity locked) db.users)) [
        | inl none_free ↦ absurd (
            omega (
              arith,
              identities-le-checked_out db.users open_rows none_free,
              checked_out-le-running db.users db.runs h.once h.owned,
              pool,
              room,
            ))
        | inr found ↦ found
      ]

-- A release leaves the pool as large as it was, and its rows as open.
pub identities-released :
    (q : User → Bool) (users : List User)
    → length (keep is_identity (update_where q let_go users)) ≡ length (keep is_identity users)
identities-released q [] = refl
identities-released q (u ∷ us) = ground (arith, identities-released q us)

pub open-released :
    (locked : String → Bool) (q : User → Bool) (users : List User)
    → All (λ u. locked u.id ≡ false) users
    → All (λ u. locked u.id ≡ false) (update_where q let_go users)
open-released locked q [] h = tt
open-released locked q (u ∷ us) h = (ground (arith, h.0), open-released locked q us h.1)
