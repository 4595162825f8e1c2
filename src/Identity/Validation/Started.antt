-- ===== src/Identity/Validation/Started.antt =====
-- The database that ClaimAppValidation of internal/identity/store.go leaves when it starts a run.
use shauth.Common.{
  ℕ, ◌+◌, none, ◌==◌, is_none, ==_refl, any-imp, String, Bool, true, ◌&&◌, Option, some, List, [],
  ◌∷◌, ◌≡◌, refl, subst, arith, any, find_first, string_eq, All, Bool-cases, inl, inr,
}
use shauth.Identity.Rows.{User}
use shauth.Identity.Validation.Rows.{Run, Db, running}
use shauth.Identity.Validation.{holds, is_named, is_free_identity}
use shauth.Identity.Validation.Slots.{run_key}
use shauth.Identity.Validation.Starting.{is_clear}
use shauth.Identity.Validation.{start_run, set_runs, set_users, take_on, lease_duration}
use shauth.Identity.Validation.Identities.{taken}
use shauth.Common.{has_key, update_where, find_first_sound}

-- What a claim leaves: the run's rows run under a fresh lease, and the row of the identity, which was
-- free before, holds the run.
pub record IsStarted (locked : String → Bool) (before : Db) (now : ℕ) (r : Run) (u : User)
    (after : Db) : Type 0 where
  pub found : find_first (is_free_identity locked) before.users ≡ some u
  pub identity : u.is_validation ≡ true
  pub idle : u.validation_run_id ≡ none
  pub present : any (λ x. x.id == r.id) after.runs ≡ true
  pub started :
      All
        (λ x.
          x.id == r.id ≡ true
          → (x.status ≡ running) × (x.lease_expires_at ≡ some (now + lease_duration)))
        after.runs
  pub held : any (λ v. v.id == u.id && holds r.id v) after.users ≡ true

-- The database after a lease.
abbrev pub leased : ℕ → Run → User → Db → Db
leased now r u db =
    set_runs (update_where (is_named r.id) (start_run now))
      (set_users (λ _. taken u.id r.id db.users) db)

-- Rows that pass a test still show after an update of them, with what the update brings about.
any-after {ℓ} :
    {A : Type ℓ} (p q : A → Bool) (f : A → A) (rs : List A)
    → ((a : A) → p a ≡ true → q (f a) ≡ true)
    → any p rs ≡ true
    → any q (update_where p f rs) ≡ true
any-after p q f [] h e = e
any-after p q f (r ∷ rs) h e = ground (arith, h r, any-after p q f rs h)

found-any :
    (p : User → Bool) (us : List User) (u : User)
    → find_first p us ≡ some u
    → any (λ v. v.id == u.id) us ≡ true
found-any p [] u e = absurd (ground (arith, e))
found-any p (v ∷ vs) u e = elim (Bool-cases (p v)) [
  | inl hit ↦
      let same : v ≡ u = ground (arith, hit, e) in
      ground (arith, subst (λ x. v.id == x.id ≡ true) same (==_refl v.id))
  | inr miss ↦ ground (arith, found-any p vs u (ground (arith, miss, e)))
]

is_none-none : {A : Type 0} (o : Option A) → is_none o ≡ true → o ≡ none
is_none-none none h = refl
is_none-none (some a) h = absurd (ground (arith, h))

pub leased-IsStarted :
    (locked : String → Bool) (now : ℕ) (r : Run) (u : User) (db : Db)
    → find_first (is_free_identity locked) db.users ≡ some u
    → any (λ x. has_key run_key r.id x && is_clear db.runs x) db.runs ≡ true
    → IsStarted locked db now r u (leased now r u db)
leased-IsStarted locked now r u db free clear = record {
  found = free;
  identity = ground (arith, find_first_sound (is_free_identity locked) db.users u free);
  idle =
      is_none-none u.validation_run_id
        (ground (arith, find_first_sound (is_free_identity locked) db.users u free));
  present = any-after (is_named r.id) (is_named r.id) (start_run now) db.runs (λ x h. h) named;
  started = started db.runs;
  held =
      any-after (λ v. v.id == u.id) (λ v. v.id == u.id && holds r.id v) (take_on r.id) db.users
        (λ v h. ground (arith, h, ==_refl r.id)) (found-any _ db.users u free);
}
  where
    named : any (is_named r.id) db.runs ≡ true
    named =
        any-imp (λ x. has_key run_key r.id x && is_clear db.runs x) (is_named r.id) db.runs
          (each db.runs) clear
      where
        each :
            (xs : List Run)
            → All
                (λ x. has_key run_key r.id x && is_clear db.runs x ≡ true → is_named r.id x ≡ true)
                xs
        each [] = tt
        each (x ∷ xs) = ((λ h. ground (arith, h)), each xs)

    started :
        (xs : List Run)
        → All
            (λ x.
              x.id == r.id ≡ true
              → (x.status ≡ running) × (x.lease_expires_at ≡ some (now + lease_duration)))
            (update_where (is_named r.id) (start_run now) xs)
    started [] = tt
    started (x ∷ xs) = elim (Bool-cases (is_named r.id x)) [
      | inl hit ↦ rw (hit) ((λ _. (refl, refl)), started xs)
      | inr miss ↦ rw (miss) ((λ on. absurd (ground (arith, on, miss))), started xs)
    ]
