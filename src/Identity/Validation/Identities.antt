-- ===== src/Identity/Validation/Identities.antt =====
-- ClaimAppValidation of internal/identity/store.go: the identity that a started run holds.
use shauth.Common.{
  ℕ, String, Bool, Option, subst, ==_sym, true, false, ◌&&◌, none, some, List, [], ◌∷◌, ◌≡◌, refl,
  sym, ◌∙◌, arith, any, update_where, ◌==◌, string_eq, is_none, if◌then◌else◌, eq_iff, ==_refl, All,
  All-map, All-none, All-update, any-updated, Distinct, Distinct-update_pairs_where, All-same_key,
  same_key, has_key, Bool-cases, inl, inr, either_same, Distinct-either, Distinct-right,
}
use shauth.Identity.Rows.{User}
use shauth.Identity.Validation.Rows.{Run, is_running}
use shauth.Identity.Validation.{holds, take_on, is_named, start_run}
use shauth.Identity.Validation.Slots.{user_key, same_hold, IsHeld, IsOwned}

abbrev pub taken : String → String → List User → List User
taken user_id run_id users = update_where (λ v. v.id == user_id) (take_on run_id) users

-- The identity `user_id`, which is free, takes on the run `run_id`, which nobody holds.
module _ (user_id run_id : String) (users : List User)
    (user_ids : Distinct (same_key user_key) users)
    (free : any (λ v. has_key user_key user_id v && is_none v.validation_run_id) users ≡ true) where
  abbrev Free : User → Type 0
  Free v = has_key user_key user_id v ≡ true → is_none v.validation_run_id ≡ true

  All-Free : All Free users
  All-Free = All-same_key user_key (λ v. is_none v.validation_run_id) user_id users user_ids free

  other_run :
      (o : Option String)
      → (elim o [ none ↦ false | some r ↦ r == run_id ]) ≡ false
      → (elim o [ none ↦ false | some i ↦ run_id == i ]) ≡ false
  other_run none h = refl
  other_run (some i) h = ==_sym run_id i ∙ h

  pub once-taken :
      any (holds run_id) users ≡ false
      → Distinct same_hold users
      → Distinct same_hold (taken user_id run_id users)
  once-taken unheld once =
      Distinct-right (same_key user_key) same_hold (taken user_id run_id users) (
        Distinct-update_pairs_where (either_same (same_key user_key) same_hold)
          (λ v. v.id == user_id) (take_on run_id) (λ v. holds run_id v ≡ false) users shrinks
          (All-none _ users unheld)
          (Distinct-either (same_key user_key) same_hold users user_ids once))
    where
      shrinks :
          (u v : User)
          → holds run_id u ≡ false
          → holds run_id v ≡ false
          → either_same (same_key user_key) same_hold u v ≡ false
          → either_same
              (same_key user_key)
              same_hold
              (if u.id == user_id then take_on run_id u else u)
              (if v.id == user_id then take_on run_id v else v)
            ≡ false
      shrinks u v h k e = elim (Bool-cases (u.id == user_id)) [
        | inl hit ↦ elim (Bool-cases (v.id == user_id)) [
          | inl also ↦ absurd (
              ground
                (arith, e, hit, also, eq_iff u.id user_id, eq_iff v.id user_id, eq_iff v.id u.id))
          | inr miss ↦ ground (arith, hit, miss, e, k)
        ]
        | inr off ↦ elim (Bool-cases (v.id == user_id)) [
          | inl also ↦ ground (arith, off, also, e, other_run u.validation_run_id h)
          | inr miss ↦ ground (arith, off, miss, e)
        ]
      ]

  still_held :
      (id : String)
      → any (holds id) users ≡ true
      → any (holds id) (taken user_id run_id users) ≡ true
  still_held id e =
      any-updated (holds id) (λ v. v.id == user_id) (take_on run_id) users
        (All-map (λ v f on. ground (arith, f, on)) users All-Free) e

  newly_held : any (holds run_id) (taken user_id run_id users) ≡ true
  newly_held = go users free
    where
      go :
          (us : List User)
          → any (λ v. has_key user_key user_id v && is_none v.validation_run_id) us ≡ true
          → any (holds run_id) (update_where (λ v. v.id == user_id) (take_on run_id) us) ≡ true
      go [] e = e
      go (u ∷ us) e = ground (arith, e, go us, ==_refl run_id)

  pub IsHeld-taken :
      (now : ℕ) (runs : List Run)
      → All (IsHeld users) runs
      → All
          (IsHeld (taken user_id run_id users))
          (update_where (is_named run_id) (start_run now) runs)
  IsHeld-taken now [] h = tt
  IsHeld-taken now (r ∷ rs) h = (one (is_named run_id r) refl, IsHeld-taken now rs h.1)
    where
      one :
          (b : Bool)
          → is_named run_id r ≡ b
          → IsHeld (taken user_id run_id users) (if b then start_run now r else r)
      one true hit on =
          let same : r.id ≡ run_id = (eq_iff r.id run_id).0 hit in
          subst (λ id. any (holds id) (taken user_id run_id users) ≡ true) (sym same) newly_held
      one false miss on = still_held r.id (h.0 on)

  module _ (now : ℕ) (runs : List Run) (known : any (is_named run_id) runs ≡ true) where
    abbrev started : List Run
    started = update_where (is_named run_id) (start_run now) runs

    abbrev is_run : String → Run → Bool
    is_run id r = is_named id r && is_running r

    still_running : (id : String) → any (is_run id) runs ≡ true → any (is_run id) started ≡ true
    still_running id e =
        any-updated (is_run id) (is_named run_id) (start_run now) runs (stays runs) e
      where
        stays :
            (rs : List Run)
            → All
                (λ r.
                  is_run id r ≡ true
                  → is_run id (if is_named run_id r then start_run now r else r) ≡ true)
                rs
        stays [] = tt
        stays (r ∷ rs) = ((λ on. ground (arith, on)), stays rs)

    now_running : any (is_run run_id) started ≡ true
    now_running = go runs known
      where
        go :
            (rs : List Run)
            → any (is_named run_id) rs ≡ true
            → any (is_run run_id) (update_where (is_named run_id) (start_run now) rs) ≡ true
        go [] e = e
        go (r ∷ rs) e = ground (arith, e, go rs)

    pub IsOwned-taken :
        All (IsOwned runs) users → All (IsOwned started) (taken user_id run_id users)
    IsOwned-taken owned =
        All-update (IsOwned runs) (IsOwned started) (λ v. v.id == user_id) (take_on run_id) users
          (each users) owned
      where
        each :
            (us : List User)
            → All
                (λ v.
                  IsOwned runs v
                  → IsOwned started (if v.id == user_id then take_on run_id v else v))
                us
        each [] = tt
        each (v ∷ vs) = ((λ h. one (v.id == user_id) h), each vs)
          where
            one : (b : Bool) → IsOwned runs v → IsOwned started (if b then take_on run_id v else v)
            one true h id on =
                let same : run_id ≡ id = (eq_iff run_id id).0 on in
                subst (λ i. any (is_run i) started ≡ true) same now_running
            one false h id on = still_running id (h id on)
