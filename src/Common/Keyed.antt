-- ===== src/Common/Keyed.antt =====
-- Tables whose rows are named by a key: what an update of the rows of one key changes.
use Prim.Native.Nat.{◌+◌, ◌≤◌}
use Prim.Native.String.{String}
use mathlib.Core.Path.{◌≡◌, refl, sym, ◌∙◌}
use mathlib.Core.Logic.{inl, inr}
use mathlib.Core.Bool.{Bool, true, false, ◌&&◌}
use mathlib.Core.List.{List, [], ◌∷◌}
use native.Mathlib.Omega.{arith}
use text.Mathlib.TextEquality.{eq_iff}
use shauth.Common.Tests.{if◌then◌else◌, Bool-cases, ◌==◌, string_eq}
use shauth.Common.Lists.{length, any, keep, All, All-map}
use shauth.Common.Table.{update_where}
use shauth.Common.Unique.{Distinct}

pub ==_sym : (a b : String) → (a == b) ≡ (b == a)
==_sym a b = ground (arith, eq_iff a b, eq_iff b a)

module _ {ℓ} {A : Type ℓ} where
  -- A row that passes a test shows that some row does.
  pub All-any_self {κ} :
      {K : Type κ} (q : K → A → Bool) (rs : List A)
      → All (λ r. (k : K) → q k r ≡ true → any (q k) rs ≡ true) rs
  All-any_self q [] = tt
  All-any_self q (r ∷ rs) = (
    (λ k hit. ground (arith, hit)),
    All-map (λ x h k hit. ground (arith, h k hit)) rs (All-any_self q rs),
  )

  module _ {κ μ} (P : A → Type κ) (Q : A → Type μ) where
    pub All-zip : (rs : List A) → All P rs → All Q rs → All (λ r. P r × Q r) rs
    All-zip [] h k = tt
    All-zip (r ∷ rs) h k = ((h.0, k.0), All-zip rs h.1 k.1)

    pub All-update :
        (p : A → Bool) (f : A → A) (rs : List A)
        → All (λ r. P r → Q (if p r then f r else r)) rs
        → All P rs
        → All Q (update_where p f rs)
    All-update p f [] h k = tt
    All-update p f (r ∷ rs) h k = (h.0 k.0, All-update p f rs h.1 k.1)

  pub any-imp :
      (p q : A → Bool) (rs : List A)
      → All (λ r. p r ≡ true → q r ≡ true) rs
      → any p rs ≡ true
      → any q rs ≡ true
  any-imp p q [] h e = e
  any-imp p q (r ∷ rs) h e = ground (arith, h.0, any-imp p q rs h.1)

  pub any-none : (p : A → Bool) (rs : List A) → All (λ r. p r ≡ false) rs → any p rs ≡ false
  any-none p [] h = refl
  any-none p (r ∷ rs) h = ground (arith, h.0, any-none p rs h.1)

  pub All-none : (p : A → Bool) (rs : List A) → any p rs ≡ false → All (λ r. p r ≡ false) rs
  All-none p [] h = tt
  All-none p (r ∷ rs) h = (ground arith, All-none p rs (ground arith))

  -- A row that an update leaves alone, or that still passes when it is changed.
  pub any-updated :
      (q p : A → Bool) (f : A → A) (rs : List A)
      → All (λ r. q r ≡ true → q (if p r then f r else r) ≡ true) rs
      → any q rs ≡ true
      → any q (update_where p f rs) ≡ true
  any-updated q p f [] h e = e
  any-updated q p f (r ∷ rs) h e = ground (arith, h.0, any-updated q p f rs h.1)

  -- An update after which no two rows agree that did not agree before.
  module _ (same : A → A → Bool) (p : A → Bool) (f : A → A) where
    any-shrinks :
        (r : A) (rs : List A)
        → All
            (λ x. same r x ≡ false → same (if p r then f r else r) (if p x then f x else x) ≡ false)
            rs
        → any (same r) rs ≡ false
        → any (same (if p r then f r else r)) (update_where p f rs) ≡ false
    any-shrinks r [] h e = refl
    any-shrinks r (x ∷ xs) h e = ground (arith, h.0, any-shrinks r xs h.1)

    abbrev pub Shrinks : A → A → Type 0
    Shrinks r x = same r x ≡ false → same (if p r then f r else r) (if p x then f x else x) ≡ false

    pub Distinct-update_pairs_where {κ} :
        (P : A → Type κ) (rs : List A)
        → ((r x : A) → P r → P x → Shrinks r x)
        → All P rs
        → Distinct same rs
        → Distinct same (update_where p f rs)
    Distinct-update_pairs_where P [] h good k = tt
    Distinct-update_pairs_where P (r ∷ rs) h good k = (
      any-shrinks r rs (All-map (λ x. h r x good.0) rs good.1) k.0,
      Distinct-update_pairs_where P rs h good.1 k.1,
    )

    pub Distinct-update_pairs :
        (rs : List A)
        → ((r x : A) → Shrinks r x)
        → Distinct same rs
        → Distinct same (update_where p f rs)
    Distinct-update_pairs rs h k =
        Distinct-update_pairs_where (λ r. Unit {0}) rs (λ r x _ _. h r x) (units rs) k
      where
        units : (xs : List A) → All (λ r. Unit {0}) xs
        units [] = tt
        units (x ∷ xs) = (tt, units xs)

-- Rows named by a text.
module _ {ℓ} {A : Type ℓ} (key : A → String) where
  abbrev pub same_key : A → A → Bool
  same_key r x = key x == key r

  abbrev pub has_key : String → A → Bool
  has_key k r = key r == k

  same_key-has_key :
      (r : A) (k : String) (rs : List A)
      → key r == k ≡ true
      → any (same_key r) rs ≡ any (has_key k) rs
  same_key-has_key r k [] h = refl
  same_key-has_key r k (x ∷ xs) h =
      ground (
        arith,
        eq_iff (key r) k,
        eq_iff (key x) k,
        eq_iff (key x) (key r),
        same_key-has_key r k xs h,
      )

  -- Where one row of a key passes a test, all rows of the key do.
  pub All-same_key :
      (p : A → Bool) (k : String) (rs : List A)
      → Distinct same_key rs
      → any (λ r. has_key k r && p r) rs ≡ true
      → All (λ r. has_key k r ≡ true → p r ≡ true) rs
  All-same_key p k [] h e = tt
  All-same_key p k (r ∷ rs) h e = elim (Bool-cases (has_key k r)) [
    | inl named ↦
        let others : All (λ x. has_key k x ≡ false) rs =
          All-none (has_key k) rs (sym (same_key-has_key r k rs named) ∙ h.0) in
        let none_pass : any (λ x. has_key k x && p x) rs ≡ false =
          any-none _ rs (All-map (λ x off. ground (arith, off)) rs others) in
        (
          (λ _. ground (arith, none_pass, e)),
          All-map (λ x off on. absurd (ground (arith, off, on))) rs others,
        )
    | inr other ↦
        ((λ named. absurd (ground arith)), All-same_key p k rs h.1 (ground (arith, other, e)))
  ]

  -- A row that fails a test is the only row of its key.
  pub All-key_test :
      (p : A → Bool) (rs : List A)
      → Distinct same_key rs
      → All (λ r. p r ≡ false → any (λ x. has_key (key r) x && p x) rs ≡ false) rs
  All-key_test p [] h = tt
  All-key_test p (r ∷ rs) h =
      let others : All (λ x. key x == key r ≡ false) rs = All-none _ rs h.0 in
      (
        (λ fails. ground (
          arith,
          any-none (λ x. has_key (key r) x && p x) rs
              (All-map (λ x off. ground (arith, off)) rs others),
        )),
        All-map (λ x k fails. ground (arith, k.0 fails, k.1, ==_sym (key x) (key r))) rs
            (All-zip _ _ rs (All-key_test p rs h.1) others),
      )

  -- Updating the one row of a key adds at most one row to those that pass a test.
  pub count-update_key :
      (q : A → Bool) (k : String) (f : A → A) (rs : List A)
      → Distinct same_key rs
      → length (keep q (update_where (has_key k) f rs)) ≤ length (keep q rs) + 1
  count-update_key q k f [] h = omega arith
  count-update_key q k f (r ∷ rs) h = elim (Bool-cases (has_key k r)) [
    | inl named ↦
        let others : any (has_key k) rs ≡ false = sym (same_key-has_key r k rs named) ∙ h.0 in
        ground (arith, named, untouched rs others)
    | inr other ↦ ground (arith, other, count-update_key q k f rs h.1)
  ]
    where
      untouched :
          (xs : List A)
          → any (has_key k) xs ≡ false
          → length (keep q (update_where (has_key k) f xs)) ≡ length (keep q xs)
      untouched [] e = refl
      untouched (x ∷ xs) e = ground (arith, untouched xs)
