-- ===== src/Common/Steps.antt =====
-- Fallible steps over a database: a step reads and changes the rows, or fails; a transaction
-- publishes its rows only when it commits.

use mathlib.Core.Bool.{Bool}
use shauth.Common.Tests.{if◌then◌else◌}

pub data Result (E : Type 0) (A : Type 0) : Type 0 where
  ok : A → Result E A
  err : E → Result E A

-- `Step S E A` runs over rows `S`, and may fail with `E`.
abbrev pub Step : Type 0 → Type 0 → Type 0 → Type 0
Step S E A = S → Result E (A × S)

infixl 5 ◌>>=◌ ◌>>◌
unfoldable pub ◌>>=◌ : {S E A B : Type 0} → Step S E A → (A → Step S E B) → Step S E B
◌>>=◌ m f s = elim (m s) [ err e ↦ err e | ok (a, s') ↦ f a s' ]

unfoldable pub ◌>>◌ : {S E B : Type 0} → Step S E (Unit {0}) → Step S E B → Step S E B
unfolding ◌>>=◌
m >> k = m >>= (λ _. k)

unfoldable pub return : {S E A : Type 0} → A → Step S E A
return a s = ok (a, s)

unfoldable pub fail : {S E A : Type 0} → E → Step S E A
fail e s = err e

-- Go on only if the test passes.
unfoldable pub require : {S E : Type 0} → Bool → E → Step S E (Unit {0})
require b e s = if b then ok (tt, s) else err e

-- A statement that changes rows: it fails with `e` where the database refuses the call.
unfoldable pub exec : {S E : Type 0} → Bool → E → (S → S) → Step S E (Unit {0})
exec reached e f s = if reached then ok (tt, f s) else err e

-- A query: the rows stay as they are.
unfoldable pub query : {S E A : Type 0} → Bool → E → (S → A) → Step S E A
query reached e f s = if reached then ok (f s, s) else err e

-- The answers of COMMIT: done, refused, or done with the answer lost on the way.
pub data Commit : Type 0 where
  committed refused lost : Commit

-- A failed step rolls back; so does a refused commit. A lost answer is an error over published
-- rows.
abbrev pub transaction : {S E A : Type 0} → E → Commit → Step S E A → S → S × Result E A
transaction e c m s = elim (m s) [
  | err x ↦ (s, err x)
  | ok (a, s') ↦ elim c [ committed ↦ (s', ok a) | refused ↦ (s, err e) | lost ↦ (s', err e) ]
]

-- A single statement outside a transaction publishes its rows, unless the call fails.
abbrev pub statement : {S E A : Type 0} → Step S E A → S → S × Result E A
statement m s = elim (m s) [ err x ↦ (s, err x) | ok (a, s') ↦ (s', ok a) ]

-- Opens the steps above.
unfoldable pub steps : Unit {0}
unfolding ◌>>=◌ ◌>>◌ return fail require exec query
steps = tt
