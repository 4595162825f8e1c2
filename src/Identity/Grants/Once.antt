-- ===== src/Identity/Grants/Once.antt =====
-- Logout grants of internal/identity/store.go: a token is consumed once.
use shauth.Common.{
  ℕ, ◌≤◌, String, Bool, true, false, not, Option, none, some, List, [], ◌∷◌, ◌≡◌, ◌≢◌, refl, ◌∙◌,
  ap, arith, Result, ok, err, Step, statement, find_first, update_where, ◌==◌, string_eq, bytes_eq,
  if◌then◌else◌, ◌||◌, inl, inr, exec-eq-ok, query-eq-ok, require-eq-ok, return-eq-ok, >>=-eq-ok,
  >>-eq-ok, Bool-cases, ◌>>=◌, return,
}
use shauth.Identity.Rows.{Grant, Db, Site, Error, Library, grant_unavailable}
use shauth.Identity.Sessions.{expect}
use shauth.Identity.Sessions.Current.{expect-eq-ok}
use shauth.Identity.Grants.{
  update_grants, is_consumable, consume_at, consume, consume_logout_correlation_grant,
  is_browser_token,
}

-- The rows after an update, and the row that it returns.
update_grants-eq-ok :
    (lib : Library) (reached : Site → Bool) (site : Site) (p : Grant → Bool) (f : Grant → Grant)
    (db : Db) (o : Option Grant) (db' : Db)
    → update_grants lib reached site p f db ≡ ok (o, db')
    → (db'.grants ≡ update_where p f db.grants) × ((find_first p db.grants ≡ none) → o ≡ none)
unfolding update_grants
update_grants-eq-ok lib reached site p f db o db' e =
    let (db1, called, e1) = >>-eq-ok _ _ db o db' e in
    let (_, same1) = exec-eq-ok _ _ _ db tt db1 called in
    let (_, db2, read, e2) = >>=-eq-ok _ _ db1 o db' e1 in
    let (_, _, same2) = query-eq-ok _ _ _ db1 _ db2 read in
    let (db3, passed, e3) = >>-eq-ok _ _ db2 o db' e2 in
    let (_, same3) = require-eq-ok _ _ db2 tt db3 passed in
    let (changed, db4, found, e4) = >>=-eq-ok _ _ db3 o db' e3 in
    let (_, answer, same4) = query-eq-ok _ _ _ db3 changed db4 found in
    let (db5, wrote, e5) = >>-eq-ok _ _ db4 o db' e4 in
    let (_, same5) = exec-eq-ok _ _ _ db4 tt db5 wrote in
    let back = same4 ∙ (same3 ∙ (same2 ∙ same1)) in
    let rows : db5.grants ≡ update_where p f db.grants =
      ap (λ x. x.grants) same5 ∙ ap (λ x. update_where p f x.grants) back in
    let read_rows : changed ≡ find_first p db.grants =
      answer ∙ ap (λ x. find_first p x.grants) (same3 ∙ (same2 ∙ same1)) in
    go changed db5 read_rows e5 rows
  where
    go :
        (changed : Option Grant) (db5 : Db)
        → changed ≡ find_first p db.grants
        → (let m : Step Db Error (Option Grant) = elim changed [
          | none ↦ return none
          | some g ↦ return (some (f g))
        ] in
            m db5 ≡ ok (o, db'))
        → db5.grants ≡ update_where p f db.grants
        → (db'.grants ≡ update_where p f db.grants) × ((find_first p db.grants ≡ none) → o ≡ none)
    go none db5 read h rows =
        let (same, kept) = return-eq-ok none db5 o db' h in
        (ap (λ x. x.grants) kept ∙ rows, λ _. same)
    go (some g) db5 read h rows =
        let (same, kept) = return-eq-ok (some (f g)) db5 o db' h in
        (ap (λ x. x.grants) kept ∙ rows, λ missing. absurd (ground (arith, read, missing)))

-- After an update whose rows a second test never passes, a second update finds no row.
module _ (p q : Grant → Bool) (f : Grant → Grant)
    (spent : (g : Grant) → p g ≡ true → q (f g) ≡ false)
    (kept : (g : Grant) → p g ≡ false → q g ≡ false) where
  no_rows : (gs : List Grant) → find_first q (update_where p f gs) ≡ none
  no_rows [] = refl
  no_rows (g ∷ gs) = elim (Bool-cases (p g)) [
    | inl hit ↦ ground (arith, hit, spent g hit, no_rows gs)
    | inr miss ↦ ground (arith, miss, kept g miss, no_rows gs)
  ]

  module _ (lib : Library) (reached again : Site → Bool) (site other : Site) (h : Grant → Grant)
      (db : Db) where
    second_update :
        (g : Grant) (db' : Db) (g' : Grant) (db'' : Db)
        → (update_grants lib reached site p f >>= (λ o. expect o grant_unavailable)) db
          ≡ ok (g, db')
        → (update_grants lib again other q h >>= (λ o. expect o grant_unavailable)) db'
          ≢ ok (g', db'')
    second_update g db' g' db'' done e =
        let (o, mid, updated, given) = >>=-eq-ok _ _ db g db' done in
        let (_, same) = expect-eq-ok o grant_unavailable mid g db' given in
        let (rows, _) = update_grants-eq-ok lib reached site p f db o mid updated in
        let (o', mid', updated', given') = >>=-eq-ok _ _ db' g' db'' e in
        let (found, _) = expect-eq-ok o' grant_unavailable mid' g' db'' given' in
        let (_, absent) = update_grants-eq-ok lib again other q h db' o' mid' updated' in
        let nothing : find_first q db'.grants ≡ none =
          ap (λ d. find_first q d.grants) same ∙ (ap (find_first q) rows ∙ no_rows db.grants) in
        let missing = absent nothing in ground (arith, found, missing)

statement-eq-ok :
    {A : Type 0} (m : Step Db Error A) (db : Db) (a : A)
    → (statement m db).1 ≡ ok a
    → m db ≡ ok (a, (statement m db).0)
statement-eq-ok {A} m db a e = go (m db) e
  where
    go :
        (r : Result Error (A × Db))
        → (statement {S = Db} {E = Error} {A = A} (λ _. r) db).1 ≡ ok a
        → r ≡ ok (a, (statement {S = Db} {E = Error} {A = A} (λ _. r) db).0)
    go (err x) h = cc
    go (ok (b, db')) h = ground arith

consume-eq-ok :
    (lib : Library) (reached : Site → Bool) (raw subject_id : String) (now : ℕ) (db : Db)
    (g : Grant)
    → (consume_logout_correlation_grant lib reached raw subject_id now db).1 ≡ ok g
    → consume lib reached raw subject_id now db
      ≡ ok (g, (consume_logout_correlation_grant lib reached raw subject_id now db).0)
unfolding consume_logout_correlation_grant
consume-eq-ok lib reached raw subject_id now db g e =
    go (not (is_browser_token raw) || lib.trim_space subject_id == "") e
  where
    go :
        (refused : Bool)
        → (let after : Db × Result Error Grant =
              if refused
              then (db, err grant_unavailable)
              else statement (consume lib reached raw subject_id now) db in
            after.1 ≡ ok g → consume lib reached raw subject_id now db ≡ ok (g, after.0))
    go true h = cc
    go false h = statement-eq-ok (consume lib reached raw subject_id now) db g h

-- A grant's token that was consumed for an account is never consumed for that account again, at the
-- same time or later, before anything else is done to the grants.
pub consume_logout_correlation_grant-once :
    (lib : Library) (reached again : Site → Bool) (raw subject_id : String) (now later : ℕ)
    (db : Db) (g g' : Grant)
    → (consume_logout_correlation_grant lib reached raw subject_id now db).1 ≡ ok g
    → now ≤ later
    → (consume_logout_correlation_grant lib again raw subject_id later
        (consume_logout_correlation_grant lib reached raw subject_id now db).0).1
      ≢ ok g'
unfolding consume
consume_logout_correlation_grant-once lib reached again raw subject_id now later db g g' done after
      e =
    second_update (is_consumable lib reached (lib.sha256 raw) subject_id now)
      (is_consumable lib reached (lib.sha256 raw) subject_id later) (consume_at lib reached now)
      (λ g hit. ground arith) (λ g miss. ground (arith, after, miss)) lib reached again _ _
      (consume_at lib reached later) db g _ g' _
      (consume-eq-ok lib reached raw subject_id now db g done)
      (consume-eq-ok lib again raw subject_id later _ g' e)
