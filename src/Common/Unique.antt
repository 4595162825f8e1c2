-- ===== src/Common/Unique.antt =====
-- Tables whose rows differ pairwise under a test, as a primary key or a unique column has them.
use Prim.Native.Nat.{ℕ, zero, suc}
use mathlib.Core.Path.{◌≡◌, refl, ◌∙◌}
use mathlib.Core.Bool.{Bool, true, false, ◌||◌}
use mathlib.Core.List.{List, [], ◌∷◌}
use native.Mathlib.Omega.{arith}
use shauth.Common.Tests.{if◌then◌else◌}
use shauth.Common.Lists.{any, keep, All}
use shauth.Common.Table.{update_where, delete_first}

module _ {ℓ} {A : Type ℓ} where
  abbrev pub Distinct : (A → A → Bool) → List A → Type 0
  Distinct same [] = Unit
  Distinct same (r ∷ rs) = (any (same r) rs ≡ false) × Distinct same rs

  pub any-keep : (q p : A → Bool) (rs : List A) → any q rs ≡ false → any q (keep p rs) ≡ false
  any-keep q p [] h = h
  any-keep q p (r ∷ rs) h = ground (arith, any-keep q p rs)

  pub any-delete_first :
      (q : A → Bool) (n : ℕ) (p : A → Bool) (rs : List A)
      → any q rs ≡ false
      → any q (delete_first n p rs) ≡ false
  unfolding delete_first
  any-delete_first q zero p rs h = h
  any-delete_first q (suc n) p [] h = h
  any-delete_first q (suc n) p (r ∷ rs) h =
      ground (arith, any-delete_first q n p rs, any-delete_first q (suc n) p rs)

  pub any-update_where :
      (q p : A → Bool) (f : A → A) (rs : List A)
      → ((r : A) → q (f r) ≡ q r)
      → any q (update_where p f rs) ≡ any q rs
  any-update_where q p f [] h = refl
  any-update_where q p f (r ∷ rs) h = ground (arith, h r, any-update_where q p f rs h)

  module _ (same : A → A → Bool) where
    pub Distinct-keep : (p : A → Bool) (rs : List A) → Distinct same rs → Distinct same (keep p rs)
    Distinct-keep p [] h = tt
    Distinct-keep p (r ∷ rs) h = ground (arith, Distinct-keep p rs h.1, any-keep (same r) p rs h.0)

    pub Distinct-delete_first :
        (n : ℕ) (p : A → Bool) (rs : List A)
        → Distinct same rs
        → Distinct same (delete_first n p rs)
    unfolding delete_first
    Distinct-delete_first zero p rs h = h
    Distinct-delete_first (suc n) p [] h = tt
    Distinct-delete_first (suc n) p (r ∷ rs) h = ground (
      arith,
      Distinct-delete_first n p rs h.1,
      Distinct-delete_first (suc n) p rs h.1,
      any-delete_first (same r) (suc n) p rs h.0,
    )

    -- An update that leaves the compared columns alone.
    pub Distinct-update_where :
        (p : A → Bool) (f : A → A) (rs : List A)
        → ((r x : A) → same r (f x) ≡ same r x)
        → ((r x : A) → same (f r) x ≡ same r x)
        → Distinct same rs
        → Distinct same (update_where p f rs)
    Distinct-update_where p f [] right left h = tt
    Distinct-update_where p f (r ∷ rs) right left h =
        (head (p r), Distinct-update_where p f rs right left h.1)
      where
        updated : any (same r) (update_where p f rs) ≡ false
        updated = any-update_where (same r) p f rs (right r) ∙ h.0

        head : (b : Bool) → any (same (if b then f r else r)) (update_where p f rs) ≡ false
        head true = any-eq (update_where p f rs) ∙ updated
          where
            any-eq : (xs : List A) → any (same (f r)) xs ≡ any (same r) xs
            any-eq [] = refl
            any-eq (x ∷ xs) = cc (left r x, any-eq xs)
        head false = updated

-- No row passes a test that `any` fails.
pub All-not_any {ℓ κ} :
    {A : Type ℓ} (P : A → Type κ) (q : A → Bool) (rs : List A)
    → any q rs ≡ false
    → All (λ r. q r ≡ true → P r) rs
All-not_any P q [] h = tt
All-not_any P q (r ∷ rs) h = ((λ hit. absurd (ground arith)), All-not_any P q rs (ground arith))

pub All-updated {ℓ κ} :
    {A : Type ℓ} (P : A → Type κ) (p : A → Bool) (f : A → A) (rs : List A)
    → ((r : A) → P (if p r then f r else r))
    → All P (update_where p f rs)
All-updated P p f [] h = tt
All-updated P p f (r ∷ rs) h = (h r, All-updated P p f rs h)

module _ {ℓ} {A : Type ℓ} (a b : A → A → Bool) where
  abbrev pub either_same : A → A → Bool
  either_same r x = a r x || b r x

  any-either :
      (r : A) (rs : List A)
      → any (a r) rs ≡ false
      → any (b r) rs ≡ false
      → any (either_same r) rs ≡ false
  any-either r [] h k = refl
  any-either r (x ∷ xs) h k = ground (arith, any-either r xs)

  pub Distinct-either : (rs : List A) → Distinct a rs → Distinct b rs → Distinct either_same rs
  Distinct-either [] h k = tt
  Distinct-either (r ∷ rs) h k = (any-either r rs h.0 k.0, Distinct-either rs h.1 k.1)

  any-right : (r : A) (rs : List A) → any (either_same r) rs ≡ false → any (b r) rs ≡ false
  any-right r [] h = refl
  any-right r (x ∷ xs) h = ground (arith, any-right r xs)

  pub Distinct-right : (rs : List A) → Distinct either_same rs → Distinct b rs
  Distinct-right [] h = tt
  Distinct-right (r ∷ rs) h = (any-right r rs h.0, Distinct-right rs h.1)
