-- ===== src/Common/Rules.antt =====
-- Rules for steps: what a step keeps when it succeeds, and what a transaction then keeps on every
-- outcome.
use mathlib.Core.Path.{◌≡◌, refl, sym, subst}
use mathlib.Core.Logic.{◌⊎◌, ◌≢◌}
use mathlib.Core.Bool.{Bool, true}
use native.Mathlib.Omega.{arith}
use shauth.Common.Steps.{
  Result, ok, err, Step, ◌>>=◌, ◌>>◌, return, fail, require, exec, query, Commit, committed,
  refused, lost, transaction, statement,
}

module _ {S E A B : Type 0} where
  -- Inversion of a successful bind.
  pub >>=-eq-ok :
      (m : Step S E A) (f : A → Step S E B) (s : S) (b : B) (s' : S)
      → (m >>= f) s ≡ ok (b, s')
      → (a : A) × (mid : S) × (m s ≡ ok (a, mid)) × (f a mid ≡ ok (b, s'))
  unfolding ◌>>=◌
  >>=-eq-ok m f s b s' e = go (m s) e
    where
      go :
          (r : Result E (A × S))
          → (let next : Result E (B × S) = elim r [ err x ↦ err x | ok (a, t) ↦ f a t ] in
              next ≡ ok (b, s'))
          → (a : A) × (mid : S) × (r ≡ ok (a, mid)) × (f a mid ≡ ok (b, s'))
      go (ok (a, t)) h = (a, t, ground arith, h)
      go (err x) h = cc

module _ {S E B : Type 0} where
  pub >>-eq-ok :
      (m : Step S E (Unit {0})) (k : Step S E B) (s : S) (b : B) (s' : S)
      → (m >> k) s ≡ ok (b, s')
      → (mid : S) × (m s ≡ ok (tt, mid)) × (k mid ≡ ok (b, s'))
  unfolding ◌>>◌
  >>-eq-ok m k s b s' e =
      let (_, mid, first, rest) = >>=-eq-ok m (λ _. k) s b s' e in (mid, first, rest)

module _ {S E A B : Type 0} where
  -- A chain runs on after a success, and stops at a failure.
  pub >>=-of-ok :
      (m : Step S E A) (f : A → Step S E B) (s s' : S) (a : A)
      → m s ≡ ok (a, s')
      → (m >>= f) s ≡ f a s'
  unfolding ◌>>=◌
  >>=-of-ok m f s s' a h = rw (h, ◌>>=◌)

  pub >>=-of-err :
      (m : Step S E A) (f : A → Step S E B) (s : S) (e : E) → m s ≡ err e → (m >>= f) s ≡ err e
  unfolding ◌>>=◌
  >>=-of-err m f s e h = rw (h, ◌>>=◌)

module _ {S E B : Type 0} where
  pub >>-of-ok :
      (m : Step S E (Unit {0})) (k : Step S E B) (s s' : S) → m s ≡ ok (tt, s') → (m >> k) s ≡ k s'
  unfolding ◌>>◌
  >>-of-ok m k s s' h = >>=-of-ok m (λ _. k) s s' tt h

module _ {S E : Type 0} where
  pub exec-eq-ok :
      (reached : Bool) (e : E) (f : S → S) (s : S) (a : Unit {0}) (s' : S)
      → exec reached e f s ≡ ok (a, s')
      → (reached ≡ true) × (s' ≡ f s)
  unfolding exec
  exec-eq-ok true e f s a s' h = (refl, ground arith)
  exec-eq-ok _ e f s a s' h = cc

  pub require-eq-ok :
      (b : Bool) (e : E) (s : S) (a : Unit {0}) (s' : S)
      → require b e s ≡ ok (a, s')
      → (b ≡ true) × (s' ≡ s)
  unfolding require
  require-eq-ok true e s a s' h = (refl, ground arith)
  require-eq-ok _ e s a s' h = cc

  pub query-eq-ok :
      {A : Type 0} (reached : Bool) (e : E) (f : S → A) (s : S) (a : A) (s' : S)
      → query reached e f s ≡ ok (a, s')
      → (reached ≡ true) × (a ≡ f s) × (s' ≡ s)
  unfolding query
  query-eq-ok true e f s a s' h = (refl, ground arith, ground arith)
  query-eq-ok _ e f s a s' h = cc

module _ {S E A : Type 0} where
  pub return-eq-ok :
      (a : A) (s : S) (b : A) (s' : S)
      → return {S = S} {E = E} a s ≡ ok (b, s')
      → (b ≡ a) × (s' ≡ s)
  unfolding return
  return-eq-ok a s b s' h = (ground arith, ground arith)

  pub fail-ne-ok : (e : E) (s : S) (b : A) (s' : S) → fail {S = S} {E = E} {A = A} e s ≢ ok (b, s')
  unfolding fail
  fail-ne-ok e s b s' h = cc

-- Where `P` holds before and `m` succeeds, `Q` holds after.
abbrev pub Leads {ℓ κ} : {S E A : Type 0} → (S → Type ℓ) → (S → Type κ) → Step S E A → Type (ℓ ⊔ κ)
Leads {S} {A} P Q m = (s : S) (a : A) (s' : S) → P s → m s ≡ ok (a, s') → Q s'

module _ {ℓ κ μ} {S E : Type 0} (P : S → Type ℓ) (Q : S → Type κ) (R : S → Type μ) where
  pub >>=-Leads :
      {A B : Type 0} (m : Step S E A) (f : A → Step S E B)
      → Leads P Q m
      → ((a : A) → Leads Q R (f a))
      → Leads P R (m >>= f)
  >>=-Leads m f hm hf s b s' h e =
      let (a, mid, first, second) = >>=-eq-ok m f s b s' e in
      hf a mid b s' (hm s a mid h first) second

  pub >>-Leads :
      {B : Type 0} (m : Step S E (Unit {0})) (k : Step S E B)
      → Leads P Q m
      → Leads Q R k
      → Leads P R (m >> k)
  unfolding ◌>>◌
  >>-Leads m k hm hk = >>=-Leads m (λ _. k) hm (λ _. hk)

module _ {ℓ κ} {S E : Type 0} (P : S → Type ℓ) (Q : S → Type κ) where
  pub exec-Leads :
      (reached : Bool) (e : E) (f : S → S)
      → ((s : S) → P s → Q (f s))
      → Leads P Q (exec reached e f)
  exec-Leads reached e f hf s a s' h eq =
      subst Q (sym (exec-eq-ok reached e f s a s' eq).1) (hf s h)

  -- What holds where a transaction reports success.
  pub transaction-Leads :
      {A : Type 0} (e : E) (c : Commit) (m : Step S E A) (s : S) (a : A)
      → Leads P Q m
      → P s
      → (transaction e c m s).1 ≡ ok a
      → Q (transaction e c m s).0
  transaction-Leads {A} e c m s a hm h = go (m s) c (λ b s' eq. hm s b s' h eq)
    where
      go :
          (r : Result E (A × S)) (c : Commit)
          → ((b : A) (s' : S) → r ≡ ok (b, s') → Q s')
          → (transaction {S = S} {E = E} {A = A} e c (λ _. r) s).1 ≡ ok a
          → Q (transaction {S = S} {E = E} {A = A} e c (λ _. r) s).0
      go (err x) c k eq = cc
      go (ok (b, s')) committed k eq = k b s' refl
      go (ok (b, s')) refused k eq = cc
      go (ok (b, s')) lost k eq = cc

  -- What follows a test may use that it passed.
  pub require_then-Leads :
      {B : Type 0} (b : Bool) (e : E) (k : Step S E B)
      → (b ≡ true → Leads P Q k)
      → Leads P Q (require b e >> k)
  unfolding ◌>>◌
  require_then-Leads b e k hk s a s' h eq =
      let (_, mid, passed, rest) = >>=-eq-ok (require b e) (λ _. k) s a s' eq in
      let (clear, same) = require-eq-ok b e s _ mid passed in
      hk clear mid a s' (subst P (sym same) h) rest

  -- What follows a query starts from the rows that it read.
  pub query_then-Leads :
      {A B : Type 0} (reached : Bool) (e : E) (f : S → A) (k : A → Step S E B)
      → ((s : S) → P s → Leads (λ t. t ≡ s) Q (k (f s)))
      → Leads P Q (query reached e f >>= k)
  query_then-Leads reached e f k hk s a s' h eq =
      let (b, mid, read, rest) = >>=-eq-ok (query reached e f) k s a s' eq in
      let (_, answer, same) = query-eq-ok reached e f s b mid read in
      hk s h mid a s' same (subst (λ x. k x mid ≡ ok (a, s')) answer rest)

-- What holds where a statement reports success.
pub statement-Leads {ℓ κ} :
    {S E A : Type 0} (P : S → Type ℓ) (Q : S → Type κ) (m : Step S E A) (s : S) (a : A)
    → Leads P Q m
    → P s
    → (statement m s).1 ≡ ok a
    → Q (statement m s).0
statement-Leads {S} {E} {A} P Q m s a hm h = go (m s) (λ b s' eq. hm s b s' h eq)
  where
    go :
        (r : Result E (A × S))
        → ((b : A) (s' : S) → r ≡ ok (b, s') → Q s')
        → (statement {S = S} {E = E} {A = A} (λ _. r) s).1 ≡ ok a
        → Q (statement {S = S} {E = E} {A = A} (λ _. r) s).0
    go (err x) k eq = absurd (ground arith)
    go (ok (b, s')) k eq = k b s' refl

-- `m` keeps `P`: where `P` holds before and `m` succeeds, `P` holds after.
abbrev pub Keeps {ℓ} : {S E A : Type 0} → (S → Type ℓ) → Step S E A → Type ℓ
Keeps P m = Leads P P m

module _ {ℓ} {S E : Type 0} (P : S → Type ℓ) where
  pub >>=-Keeps :
      {A B : Type 0} (m : Step S E A) (f : A → Step S E B)
      → Keeps P m
      → ((a : A) → Keeps P (f a))
      → Keeps P (m >>= f)
  >>=-Keeps m f hm hf = >>=-Leads P P P m f hm hf

  pub >>-Keeps :
      {B : Type 0} (m : Step S E (Unit {0})) (k : Step S E B)
      → Keeps P m
      → Keeps P k
      → Keeps P (m >> k)
  >>-Keeps m k hm hk = >>-Leads P P P m k hm hk

  pub exec-Keeps :
      (reached : Bool) (e : E) (f : S → S) → ((s : S) → P s → P (f s)) → Keeps P (exec reached e f)
  exec-Keeps reached e f hf = exec-Leads P P reached e f hf

  pub require-Keeps : (b : Bool) (e : E) → Keeps P (require {S = S} {E = E} b e)
  require-Keeps b e s a s' h eq = subst P (sym (require-eq-ok b e s a s' eq).1) h

  pub query-Keeps : {A : Type 0} (reached : Bool) (e : E) (f : S → A) → Keeps P (query reached e f)
  query-Keeps reached e f s a s' h eq = subst P (sym (query-eq-ok reached e f s a s' eq).2) h

  pub return-Keeps : {A : Type 0} (a : A) → Keeps P (return {S = S} {E = E} a)
  unfolding return
  return-Keeps a s b s' h eq = let same : s ≡ s' = ground arith in subst P same h

  pub fail-Keeps : {A : Type 0} (e : E) → Keeps P (fail {S = S} {E = E} {A = A} e)
  unfolding fail
  fail-Keeps e s b s' h eq = cc

  pub transaction-Keeps :
      {A : Type 0} (e : E) (c : Commit) (m : Step S E A) (s : S)
      → Keeps P m
      → P s
      → P (transaction e c m s).0
  transaction-Keeps {A} e c m s hm h = go (m s) c (λ a s' eq. hm s a s' h eq)
    where
      go :
          (r : Result E (A × S)) (c : Commit)
          → ((a : A) (s' : S) → r ≡ ok (a, s') → P s')
          → P (transaction {S = S} {E = E} {A = A} e c (λ _. r) s).0
      go (err x) c k = h
      go (ok (a, s')) committed k = k a s' refl
      go (ok (a, s')) refused k = h
      go (ok (a, s')) lost k = k a s' refl

  pub statement-Keeps :
      {A : Type 0} (m : Step S E A) (s : S) → Keeps P m → P s → P (statement m s).0
  statement-Keeps {A} m s hm h = go (m s) (λ a s' eq. hm s a s' h eq)
    where
      go :
          (r : Result E (A × S))
          → ((a : A) (s' : S) → r ≡ ok (a, s') → P s')
          → P (statement {S = S} {E = E} {A = A} (λ _. r) s).0
      go (err x) k = h
      go (ok (a, s')) k = k a s' refl

-- An error whose commit was not lost leaves the rows as they were.
pub transaction_atomic :
    {S E A : Type 0} (e : E) (c : Commit) (m : Step S E A) (s : S) (x : E)
    → (transaction e c m s).1 ≡ err x
    → ((transaction e c m s).0 ≡ s) ⊎ ((c ≡ lost) × (x ≡ e))
transaction_atomic e c m s x h = ground arith

-- A transaction whose step never succeeds changes nothing and reports no success.
pub transaction_never :
    {S E A : Type 0} (e : E) (c : Commit) (m : Step S E A) (s : S)
    → ((a : A) (s' : S) → m s ≢ ok (a, s'))
    → ((transaction e c m s).0 ≡ s) × ((a : A) → (transaction e c m s).1 ≢ ok a)
transaction_never {S} {E} {A} e c m s h = go (m s) (λ a s' eq. h a s' eq)
  where
    go :
        (r : Result E (A × S))
        → ((a : A) (s' : S) → r ≢ ok (a, s'))
        → ((transaction {S = S} {E = E} {A = A} e c (λ _. r) s).0 ≡ s)
          × ((a : A) → (transaction {S = S} {E = E} {A = A} e c (λ _. r) s).1 ≢ ok a)
    go (err x) k = (refl, λ a eq. cc)
    go (ok (a, s')) k = absurd (k a s' refl)

-- A committed transaction whose step succeeds reports its answer.
pub transaction-of-ok :
    {S E A : Type 0} (e : E) (m : Step S E A) (s : S) (a : A) (s' : S)
    → m s ≡ ok (a, s')
    → transaction e committed m s ≡ (s', ok a)
transaction-of-ok e m s a s' h = rw (h, transaction)

-- Inversion of a transaction that reports success.
pub transaction-eq-ok :
    {S E A : Type 0} (e : E) (c : Commit) (m : Step S E A) (s : S) (a : A)
    → (transaction e c m s).1 ≡ ok a
    → (after : S) × (m s ≡ ok (a, after))
transaction-eq-ok {S} {E} {A} e c m s a = go (m s) c
  where
    go :
        (r : Result E (A × S)) (c : Commit)
        → (transaction {S = S} {E = E} {A = A} e c (λ _. r) s).1 ≡ ok a
        → (after : S) × (r ≡ ok (a, after))
    go (err x) c h = absurd (cc)
    go (ok (b, t)) committed h = (t, ground (arith, h))
    go (ok (b, t)) refused h = absurd (cc)
    go (ok (b, t)) lost h = absurd (cc)
