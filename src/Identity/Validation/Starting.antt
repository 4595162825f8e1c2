-- ===== src/Identity/Validation/Starting.antt =====
-- ClaimAppValidation of internal/identity/store.go: starting the run that was selected, with the
-- identity that was checked out for it.
use shauth.Common.{
  ℕ, String, Bool, true, false, not, ◌&&◌, ◌||◌, Option, none, some, List, ◌≡◌, arith, any,
  update_where, ◌==◌, string_eq, if◌then◌else◌, eq_iff, ==_sym, All, All-zip, All-any_self,
  Distinct, Distinct-update_pairs_where, All-same_key, same_key, has_key, Bool-cases, inl, inr,
  either_same, Distinct-either, Distinct-right,
}
use shauth.Identity.Validation.Rows.{Run, Witness, is_running, is_queued, uses_app}
use shauth.Identity.Validation.{is_named, is_busy, has_free_witness, start_run}
use shauth.Identity.Validation.Slots.{run_key, clash}

-- A queued run whose applications nobody uses.
abbrev pub is_clear : List Run → Run → Bool
is_clear runs r =
    is_queued r && (not (is_busy runs r.managed_app_id) && has_free_witness runs r.witness)

-- Sharing an application is mutual.
shared_sym :
    (r x : Run) (a b : Option Witness)
    → ((x.managed_app_id == r.managed_app_id
          || elim b [ none ↦ false | some w ↦ w.managed_app_id == r.managed_app_id ])
        || elim a [
          | none ↦ false
          | some v ↦
              x.managed_app_id == v.managed_app_id
              || elim b [ none ↦ false | some w ↦ w.managed_app_id == v.managed_app_id ]
        ])
      ≡ ((r.managed_app_id == x.managed_app_id
            || elim a [ none ↦ false | some w ↦ w.managed_app_id == x.managed_app_id ])
          || elim b [
            | none ↦ false
            | some v ↦
                r.managed_app_id == v.managed_app_id
                || elim a [ none ↦ false | some w ↦ w.managed_app_id == v.managed_app_id ]
          ])
shared_sym r x none none = ground (arith, ==_sym x.managed_app_id r.managed_app_id)
shared_sym r x none (some w) =
    ground
      (arith, ==_sym x.managed_app_id r.managed_app_id, ==_sym w.managed_app_id r.managed_app_id)
shared_sym r x (some v) none =
    ground
      (arith, ==_sym x.managed_app_id r.managed_app_id, ==_sym x.managed_app_id v.managed_app_id)
shared_sym r x (some v) (some w) = ground (
  arith,
  ==_sym x.managed_app_id r.managed_app_id,
  ==_sym x.managed_app_id v.managed_app_id,
  ==_sym w.managed_app_id r.managed_app_id,
  ==_sym w.managed_app_id v.managed_app_id,
)

module _ (now : ℕ) (run_id : String) (runs : List Run)
    (found : any (λ r. has_key run_key run_id r && is_clear runs r) runs ≡ true) where
  abbrev Listed : Run → Type 0
  Listed x =
      (has_key run_key run_id x ≡ true → is_clear runs x ≡ true)
      × ((app : String) → is_running x && uses_app app x ≡ true → is_busy runs app ≡ true)

  off_app :
      (x : Run) (app : String)
      → Listed x
      → is_busy runs app ≡ false
      → is_running x && uses_app app x ≡ false
  off_app x app h free = elim (Bool-cases (is_running x && uses_app app x)) [
    | inl on ↦ absurd (ground (arith, h.1 app on, free))
    | inr off ↦ off
  ]

  off_witness :
      (x : Run) (w : Option Witness)
      → Listed x
      → has_free_witness runs w ≡ true
      → is_running x && (elim w [ none ↦ false | some v ↦ uses_app v.managed_app_id x ]) ≡ false
  off_witness x none h free = ground arith
  off_witness x (some w) h free = off_app x w.managed_app_id h (ground (arith, free))

  -- What a started run uses, no running run uses.
  clear-clash : (r x : Run) → Listed x → is_clear runs r ≡ true → clash (start_run now r) x ≡ false
  clear-clash r x h clear = ground (
    arith,
    off_app x r.managed_app_id h (ground (arith, clear)),
    off_witness x r.witness h (ground (arith, clear)),
  )

  clash-clear : (r x : Run) → Listed r → is_clear runs x ≡ true → clash r (start_run now x) ≡ false
  clash-clear r x h clear = ground (
    arith,
    off_app r x.managed_app_id h (ground (arith, clear)),
    off_witness r x.witness h (ground (arith, clear)),
    shared_sym r x r.witness x.witness,
  )

  All-Listed : Distinct (same_key run_key) runs → All Listed runs
  All-Listed ids =
      All-zip _ _ runs (All-same_key run_key (is_clear runs) run_id runs ids found)
        (All-any_self (λ app x. is_running x && uses_app app x) runs)

  abbrev pub started : List Run
  started = update_where (is_named run_id) (start_run now) runs

  pub apart-started :
      Distinct (same_key run_key) runs → Distinct clash runs → Distinct clash started
  apart-started ids apart = Distinct-right (same_key run_key) clash started (
      Distinct-update_pairs_where (either_same (same_key run_key) clash) (is_named run_id)
        (start_run now) Listed runs shrinks (All-Listed ids)
        (Distinct-either (same_key run_key) clash runs ids apart))
    where
      shrinks :
          (r x : Run)
          → Listed r
          → Listed x
          → either_same (same_key run_key) clash r x ≡ false
          → either_same
              (same_key run_key)
              clash
              (if is_named run_id r then start_run now r else r)
              (if is_named run_id x then start_run now x else x)
            ≡ false
      shrinks r x h k e = elim (Bool-cases (is_named run_id r)) [
        | inl hit ↦ elim (Bool-cases (is_named run_id x)) [
          | inl also ↦ absurd (
              ground
                (arith, e, hit, also, eq_iff r.id run_id, eq_iff x.id run_id, eq_iff x.id r.id))
          | inr miss ↦ ground (arith, hit, miss, e, clear-clash r x k (h.0 hit))
        ]
        | inr off ↦ elim (Bool-cases (is_named run_id x)) [
          | inl also ↦ ground (arith, off, also, e, clash-clear r x h (k.0 also))
          | inr miss ↦ ground (arith, off, miss, e)
        ]
      ]
