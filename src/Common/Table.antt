-- ===== src/Common/Table.antt =====
-- Tables as lists of rows in scan order: the WHERE, LIMIT and ORDER BY clauses the program uses.
use Prim.Native.Nat.{ℕ, zero, suc}
use mathlib.Core.Path.{◌≡◌}
use mathlib.Core.Bool.{Bool, true, false, not}
use mathlib.Core.List.{List, [], ◌∷◌}
use native.Mathlib.Omega.{arith}
use shauth.Common.Tests.{if◌then◌else◌, leb}
use shauth.Common.Lists.{any, All, keep}

module _ {ℓ} {A : Type ℓ} where
  -- UPDATE … SET … WHERE p
  abbrev pub update_where : (A → Bool) → (A → A) → List A → List A
  update_where p f [] = []
  update_where p f (r ∷ rs) = (if p r then f r else r) ∷ update_where p f rs

  -- DELETE … WHERE p
  abbrev pub delete_where : (A → Bool) → List A → List A
  delete_where p rs = keep (λ r. not (p r)) rs

  -- DELETE of the first `n` rows of the scan that pass `p`.
  unfoldable pub delete_first : ℕ → (A → Bool) → List A → List A
  delete_first zero p rs = rs
  delete_first (suc n) p [] = []
  delete_first (suc n) p (r ∷ rs) =
      let fewer = delete_first n p rs in
      let rest = delete_first (suc n) p rs in if p r then fewer else r ∷ rest

  -- ORDER BY key
  unfoldable pub insert_by : (A → ℕ) → A → List A → List A
  insert_by key r [] = r ∷ []
  insert_by key r (x ∷ xs) = if leb (key r) (key x) then r ∷ x ∷ xs else x ∷ insert_by key r xs

  unfoldable pub order_by : (A → ℕ) → List A → List A
  unfolding insert_by
  order_by key [] = []
  order_by key (r ∷ rs) = insert_by key r (order_by key rs)

module _ {ℓ κ} {A : Type ℓ} (P : A → Type κ) where
  pub All-delete_first :
      (n : ℕ) (p : A → Bool) (rs : List A) → All P rs → All P (delete_first n p rs)
  unfolding delete_first
  All-delete_first zero p rs h = h
  All-delete_first (suc n) p [] h = tt
  All-delete_first (suc n) p (r ∷ rs) h =
      ground (arith, All-delete_first n p rs h.1, All-delete_first (suc n) p rs h.1)

  All-insert_by : (key : A → ℕ) (r : A) (xs : List A) → P r → All P xs → All P (insert_by key r xs)
  unfolding insert_by
  All-insert_by key r [] q h = (q, tt)
  All-insert_by key r (x ∷ xs) q h = ground (arith, All-insert_by key r xs q h.1)

  pub All-order_by : (key : A → ℕ) (rs : List A) → All P rs → All P (order_by key rs)
  unfolding order_by
  All-order_by key [] h = tt
  All-order_by key (r ∷ rs) h = All-insert_by key r (order_by key rs) h.0 (All-order_by key rs h.1)

  pub All-update_where :
      (p : A → Bool) (f : A → A) (rs : List A)
      → ((r : A) → p r ≡ true → P r → P (f r))
      → All P rs
      → All P (update_where p f rs)
  All-update_where p f [] step h = tt
  All-update_where p f (r ∷ rs) step h = (ground (arith, step r), All-update_where p f rs step h.1)

module _ {ℓ} {A : Type ℓ} where
  -- Rows that pass `p` outlive a deletion of others.
  pub any-delete_where :
      (p q : A → Bool) (rs : List A)
      → ((r : A) → p r ≡ true → q r ≡ false)
      → any p rs ≡ true
      → any p (delete_where q rs) ≡ true
  any-delete_where p q [] h e = e
  any-delete_where p q (r ∷ rs) h e = ground (arith, h r, any-delete_where p q rs h)
