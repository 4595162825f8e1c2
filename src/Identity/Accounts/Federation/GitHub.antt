-- ===== src/Identity/Accounts/Federation/GitHub.antt =====
-- FindOrCreateGitHubUser of internal/identity/store.go: the account, the role and the demotion that
-- a sign-in reports.
use shauth.Common.{transaction-eq-ok}
use shauth.Common.{
  ℕ, String, Bool, true, false, not, ◌||◌, Option, none, some, List, [], ◌∷◌, ◌≡◌, refl, sym, ◌∙◌,
  ap, subst, arith, Result, ok, err, Commit, transaction, find_first, find_first_sound,
  update_where, leb, ◌==◌, string_eq, nat_eq, is_none, if◌then◌else◌, >>=-eq-ok, >>-eq-ok,
  exec-eq-ok, query-eq-ok, return-eq-ok, require-eq-ok, Bool-cases, inl, inr, eq_iff, ==_refl,
}
use shauth.Identity.Accounts.Rows.{
  Account, Db, Site, Error, Library, commit_failed, incomplete_claims,
}
use shauth.Identity.Accounts.{insert_user, normal_email}
use shauth.Identity.Accounts.Federation.{
  holds_login, drop_login, is_github, login_of, is_stale, synchronized, is_demoted, synchronize,
  create_github, synchronize_or_create, github_in_transaction, find_or_create_github_user,
}

insert_user-eq-ok :
    (lib : Library) (reached : Site → Bool) (account : Account) (db : Db) (a : Account) (after : Db)
    → insert_user lib reached account db ≡ ok (a, after)
    → a ≡ account
unfolding insert_user
insert_user-eq-ok lib reached account db a after e =
    let (s1, _, e1) = >>-eq-ok _ _ db a after e in
    let (_, s2, _, e2) = >>=-eq-ok _ _ s1 a after e1 in
    let (s3, _, e3) = >>-eq-ok _ _ s2 a after e2 in
    let (s4, _, e4) = >>-eq-ok _ _ s3 a after e3 in
    let (s5, _, e5) = >>-eq-ok _ _ s4 a after e4 in (return-eq-ok account s5 a after e5).0

up_to_date :
    (a b c d : Bool) → not a || (not b || (not c || not d)) ≡ false → (a ≡ true) × (d ≡ true)
up_to_date a b c d h = (ground (arith, h), ground (arith, h))

-- Releasing a login keeps what finds and ranks an account.
find-released :
    (p : Account → Bool) (q : Account → Bool) (rows : List Account)
    → ((r : Account) → q (drop_login r) ≡ q r)
    → find_first q (update_where p drop_login rows)
      ≡ (elim (find_first q rows) [ none ↦ none | some r ↦ some (if p r then drop_login r else r) ])
find-released p q [] h = refl
find-released p q (r ∷ rs) h = ground (arith, h r, find-released p q rs h)

module _ (lib : Library) (reached : Site → Bool) (github_id : ℕ) (login role : String) where
  -- What a sign-in gives: the account of this GitHub identifier, active, under this login and with
  -- this role.
  pub record IsSignedIn (a : Account) : Type 0 where
    pub owner : is_github github_id a ≡ true
    pub active : is_none a.disabled_at ≡ true
    pub named : login_of a ≡ login
    pub ranked : a.role ≡ role

  -- Whether the account found lost its administrator role.
  abbrev pub demotes : Option Account → Bool
  demotes none = false
  demotes (some o) = is_demoted role o

  synchronize-IsSignedIn :
      (email : String) (o : Account) (stale : Bool) (db : Db) (a : Account) (d : Bool) (after : Db)
      → is_github github_id o ≡ true
      → is_none o.disabled_at ≡ true
      → is_stale login email role o ≡ stale
      → synchronize lib reached login email role o stale db ≡ ok ((a, d), after)
      → IsSignedIn a × (d ≡ is_demoted role o)
  unfolding synchronize
  synchronize-IsSignedIn email o false db a d after owner active stale e =
      let (same, _) = return-eq-ok (o, is_demoted role o) db (a, d) after e in
      let fresh =
        up_to_date (o.role == role) (o.email == email) o.email_verified (login_of o == login)
          stale in
      (
        subst IsSignedIn (sym (ap (λ x. x.0) same)) (record {
          owner = owner;
          active = active;
          named = (eq_iff (login_of o) login).0 (fresh.1);
          ranked = (eq_iff o.role role).0 (fresh.0);
        }),
        ap (λ x. x.1) same,
      )
  synchronize-IsSignedIn email o true db a d after owner active stale e =
      let (s1, _, e1) = >>-eq-ok _ _ db (a, d) after e in
      let (_, s2, _, e2) = >>=-eq-ok _ _ s1 (a, d) after e1 in
      let (s3, _, e3) = >>-eq-ok _ _ s2 (a, d) after e2 in
      let (s4, _, e4) = >>-eq-ok _ _ s3 (a, d) after e3 in
      let (s5, _, e5) = >>-eq-ok _ _ s4 (a, d) after e4 in
      let (same, _) =
        return-eq-ok (synchronized login email role o, is_demoted role o) s5 (a, d) after e5 in
      (
        subst IsSignedIn (sym (ap (λ x. x.0) same))
            (record { owner = owner; active = active; named = refl; ranked = refl }),
        ap (λ x. x.1) same,
      )

  create_github-IsSignedIn :
      (id email : String) (clock : ℕ) (db : Db) (a : Account) (d : Bool) (after : Db)
      → create_github lib reached id github_id login email role clock db ≡ ok ((a, d), after)
      → IsSignedIn a × (d ≡ false)
  unfolding create_github
  create_github-IsSignedIn id email clock db a d after e =
      let (s1, _, e1) = >>-eq-ok _ _ db (a, d) after e in
      let (taken, s2, _, e2) = >>=-eq-ok _ _ s1 (a, d) after e1 in
      let (user, s3, made, e3) = >>=-eq-ok _ _ s2 (a, d) after e2 in
      let (same, _) = return-eq-ok (user, false) s3 (a, d) after e3 in
      let new = insert_user-eq-ok lib reached _ s2 user s3 made in
      (
        subst IsSignedIn (sym (ap (λ x. x.0) same ∙ new))
            (record { owner = ==_refl github_id; active = refl; named = refl; ranked = refl }),
        ap (λ x. x.1) same,
      )

  synchronize_or_create-IsSignedIn :
      (id email : String) (clock : ℕ) (found : Option Account) (db : Db) (a : Account) (d : Bool)
      (after : Db)
      → find_first (is_github github_id) db.accounts ≡ found
      → synchronize_or_create lib reached id github_id login email role clock found db
        ≡ ok ((a, d), after)
      → IsSignedIn a × (d ≡ demotes found)
  unfolding synchronize_or_create
  synchronize_or_create-IsSignedIn id email clock none db a d after is e =
      create_github-IsSignedIn id email clock db a d after e
  synchronize_or_create-IsSignedIn id email clock (some o) db a d after is e =
      let (s1, passed, e1) = >>-eq-ok _ _ db (a, d) after e in
      let (active, _) = require-eq-ok _ _ db tt s1 passed in
      synchronize-IsSignedIn email o _ s1 a d after
        (find_first_sound (is_github github_id) db.accounts o is) active refl e1

  demotes-released :
      (p : Account → Bool) (o : Option Account)
      → demotes (elim o [ none ↦ none | some r ↦ some (if p r then drop_login r else r) ])
        ≡ demotes o
  demotes-released p none = refl
  demotes-released p (some r) = elim (Bool-cases (p r)) [
    | inl hit ↦ ground (arith, hit)
    | inr miss ↦ ground (arith, miss)
  ]

  github_in_transaction-IsSignedIn :
      (id email : String) (clock : ℕ) (db : Db) (a : Account) (d : Bool) (after : Db)
      → github_in_transaction lib reached id github_id login email role clock db
        ≡ ok ((a, d), after)
      → IsSignedIn a × (d ≡ demotes (find_first (is_github github_id) db.accounts))
  unfolding github_in_transaction
  github_in_transaction-IsSignedIn id email clock db a d after e =
      let (s1, began, e1) = >>-eq-ok _ _ db (a, d) after e in
      let (_, same1) = exec-eq-ok _ _ _ db tt s1 began in
      let (s2, released, e2) = >>-eq-ok _ _ s1 (a, d) after e1 in
      let (_, same2) = exec-eq-ok _ _ _ s1 tt s2 released in
      let (found, s3, read, e3) = >>=-eq-ok _ _ s2 (a, d) after e2 in
      let (_, is, same3) = query-eq-ok _ _ _ s2 found s3 read in
      let rows : s3.accounts
          ≡ update_where (holds_login lib reached login github_id) drop_login db.accounts =
        ap (λ (x : Db). x.accounts) same3
        ∙ (ap (λ (x : Db). x.accounts) same2
            ∙ ap
                (λ (x : Db).
                  update_where (holds_login lib reached login github_id) drop_login x.accounts)
                same1) in
      let here : found ≡ find_first (is_github github_id) s3.accounts =
        is ∙ ap (λ (x : Db). find_first (is_github github_id) x.accounts) (sym same3) in
      let (signed_in, reported) =
        synchronize_or_create-IsSignedIn id email clock found s3 a d after (sym here) e3 in
      (
        signed_in,
        reported
            ∙ (ap demotes (
                  here
                  ∙ (ap (find_first (is_github github_id)) rows
                      ∙ find-released (holds_login lib reached login github_id)
                          (is_github github_id) db.accounts (λ r. refl)))
                ∙ demotes-released (holds_login lib reached login github_id)
                    (find_first (is_github github_id) db.accounts)),
      )

-- A GitHub sign-in that succeeds gives the account of that GitHub identifier: it is active and has
-- the login and the role of this sign-in. It reports a demotion exactly where the account that had
-- this identifier before was an administrator and the role is another.
pub find_or_create_github_user-IsSignedIn :
    (lib : Library) (reached : Site → Bool) (commit : Commit) (id : String) (github_id : ℕ)
    (login email role : String) (clock : ℕ) (db : Db) (a : Account) (d : Bool)
    → (find_or_create_github_user lib reached commit id github_id login email role clock db).1
      ≡ ok (a, d)
    → IsSignedIn lib reached github_id (lib.trim_space login) role a
      × (d
          ≡ demotes lib reached github_id
              (lib.trim_space login)
              role
              (find_first (is_github github_id) db.accounts))
unfolding find_or_create_github_user
find_or_create_github_user-IsSignedIn lib reached commit id github_id login email role clock db a d
      h =
    go (leb github_id 0 || lib.trim_space login == "") h
  where
    go :
        (b : Bool)
        → (let out : Db × Result Error (Account × Bool) =
              if b
              then (db, err incomplete_claims)
              else transaction commit_failed commit
                  (github_in_transaction lib reached id github_id
                    (lib.trim_space login)
                    (normal_email lib reached email)
                    role
                    clock)
                  db in
            out.1 ≡ ok (a, d))
        → IsSignedIn lib reached github_id (lib.trim_space login) role a
          × (d
              ≡ demotes lib reached github_id
                  (lib.trim_space login)
                  role
                  (find_first (is_github github_id) db.accounts))
    go true k = absurd (cc)
    go false k =
        let (after, done) =
          transaction-eq-ok commit_failed commit
            (github_in_transaction lib reached id github_id (lib.trim_space login)
              (normal_email lib reached email) role clock)
            db (a, d) k in
        github_in_transaction-IsSignedIn lib reached github_id (lib.trim_space login) role id
          (normal_email lib reached email) clock db a d after done
