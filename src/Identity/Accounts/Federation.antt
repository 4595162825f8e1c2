-- ===== src/Identity/Accounts/Federation.antt =====
-- Federated sign-in of internal/identity/store.go: FindOrCreateGitHubUser and
-- FindOrCreateEntraUser.
pub mod Entra
pub mod GitHub
use shauth.Common.{
  ℕ, String, Bool, true, false, not, ◌&&◌, ◌||◌, Option, none, some, List, ◌∷◌, Result, ok, err,
  ◌>>=◌, ◌>>◌, return, fail, require, exec, query, Commit, transaction, statement, any, find_first,
  update_where, leb, ◌==◌, string_eq, nat_eq, is_none, if◌then◌else◌,
}
use shauth.Identity.Accounts.Rows.{
  Account, Db, Site, Error, Op, Library, begin, release_login, find_github, sync_github,
  check_username, find_entra, link_entra, insert_entra, unreachable, already_exists, commit_failed,
  incomplete_claims, user_inactive, user_disabled, no_verified_email, is_role, check_violated,
  collides, collides_with_other, same_text, same_number,
}
use shauth.Identity.Accounts.{insert_user, normal_email}

abbrev pub set_accounts : (List Account → List Account) → Db → Db
set_accounts f db = record db { accounts = f db.accounts }

abbrev pub is_entra : String → String → Account → Bool
is_entra tenant object a =
    same_text a.entra_tenant_id (some tenant) && same_text a.entra_object_id (some object)

abbrev pub refresh_entra : String → Bool → Account → Account
refresh_entra email verified a = record a {
  email = email;
  email_verified = if a.email == email then a.email_verified || verified else verified;
}

-- Only a verified address links, to an active local account with that verified address.
abbrev pub is_linkable : String → Bool → Account → Bool
is_linkable email verified a =
    a.email == email
    && (verified
        && (a.email_verified
            && (is_none a.entra_tenant_id
                && (is_none a.github_id && (is_none a.disabled_at && not a.is_validation)))))

-- The identity of `account` on the row that it links to.
abbrev pub link_entra_of : Account → Bool → Account → Account
link_entra_of account verified a = record a {
  entra_tenant_id = account.entra_tenant_id;
  entra_object_id = account.entra_object_id;
  email_verified = a.email_verified || verified;
}

abbrev pub entra_account : String → String → String → String → String → Bool → ℕ → Account
entra_account id tenant object username email verified clock = record {
  id = id;
  username = username;
  email = email;
  email_verified = verified;
  password_hash = none;
  github_id = none;
  github_login = none;
  role = "developer";
  entra_tenant_id = some tenant;
  entra_object_id = some object;
  is_validation = false;
  disabled_at = none;
  created_at = clock;
}

abbrev pub drop_login : Account → Account
drop_login a = record a { github_login = none }

abbrev pub is_github : ℕ → Account → Bool
is_github github_id a = same_number a.github_id (some github_id)

abbrev pub login_of : Account → String
login_of a = elim a.github_login [ none ↦ "" | some l ↦ l ]

abbrev pub is_stale : String → String → String → Account → Bool
is_stale login email role a =
    not (a.role == role)
    || (not (a.email == email) || (not a.email_verified || not (login_of a == login)))

-- Without a verified address from GitHub the recorded one stays.
abbrev pub synchronized : String → String → String → Account → Account
synchronized login email role a = record a {
  role = role;
  email = if email == "" then a.email else email;
  email_verified = true;
  github_login = some login;
}

abbrev pub is_demoted : String → Account → Bool
is_demoted role a = a.role == "admin" && not (role == "admin")

abbrev pub github_account : String → ℕ → String → String → String → String → ℕ → Account
github_account id github_id login username email role clock = record {
  id = id;
  username = username;
  email = email;
  email_verified = true;
  password_hash = none;
  github_id = some github_id;
  github_login = some login;
  role = role;
  entra_tenant_id = none;
  entra_object_id = none;
  is_validation = false;
  disabled_at = none;
  created_at = clock;
}

module _ (lib : Library) (reached : Site → Bool) where
  -- UPDATE users … RETURNING: none where no row passes, an error where the new row collides.
  unfoldable pub update_returning :
      Site → (Account → Bool) → (Account → Account) → Op (Option Account)
  update_returning site p f = do
    found ← query (reached site) (unreachable site) (λ db. find_first p db.accounts)
    elim found [
      | none ↦ return none
      | some a ↦ do
        taken ← query true already_exists (λ db. any (collides_with_other (f a)) db.accounts)
        require (not taken) already_exists
        exec true already_exists (set_accounts (update_where p f))
        return (some (f a))
    ]

  pub insert_entra_user : Account → Op Account
  insert_entra_user account = do
    exec (reached insert_entra) (unreachable insert_entra) (λ db. db)
    taken ← query true already_exists (λ db. any (collides account) db.accounts)
    require (not taken) already_exists
    exec true already_exists (set_accounts (λ rows. account ∷ rows))
    return account

  pub or_create : Account → Option Account → Op Account
  unfolding insert_entra_user
  or_create account (some a) = return a
  or_create account none = insert_entra_user account

  -- The three statements, each on its own: find, link, create.
  pub after_link : Account → Db × Result Error (Option Account) → Db × Result Error Account
  unfolding or_create
  after_link account (db, err e) = (db, err e)
  after_link account (db, ok linked) = statement (or_create account linked) db

  pub after_find : Bool → Account → Db × Result Error (Option Account) → Db × Result Error Account
  unfolding after_link
  after_find verified account (db, err e) = (db, err e)
  after_find verified account (db, ok (some a)) =
      (db, if not (is_none a.disabled_at) then err user_disabled else ok a)
  after_find verified account (db, ok none) = after_link account (
      statement
        (update_returning link_entra (is_linkable account.email verified)
          (link_entra_of account verified))
        db)

  -- `account` is the row to create where none is found or linked.
  pub sign_in_entra : String → String → Bool → Account → Db → Db × Result Error Account
  unfolding after_find
  sign_in_entra tenant object verified account db = after_find verified account (
      statement
        (update_returning find_entra (is_entra tenant object)
          (refresh_entra account.email verified))
        db)

  pub find_or_create_entra_user :
      String → String → String → String → String → Bool → ℕ → Db → Db × Result Error Account
  unfolding sign_in_entra
  find_or_create_entra_user id tenant object username email verified clock db =
      let address = normal_email lib reached email in
      let name = lib.trim_space username in
      if tenant == "" || (object == "" || (address == "" || name == ""))
      then (db, err incomplete_claims)
      else sign_in_entra tenant object verified
          (entra_account id tenant object name address verified clock) db

  -- Another account that recorded this login.
  abbrev pub holds_login : String → ℕ → Account → Bool
  holds_login login github_id a =
      (elim a.github_login [ none ↦ false | some l ↦ lib.to_lower l == lib.to_lower login ])
      && not (same_number a.github_id (some github_id))

  pub synchronize : String → String → String → Account → Bool → Op (Account × Bool)
  synchronize login email role a false = return (a, is_demoted role a)
  synchronize login email role a true = do
    exec (reached sync_github) (unreachable sync_github) (λ db. db)
    taken ←
        query true already_exists
          (λ db. any (collides_with_other (synchronized login email role a)) db.accounts)
    require (not taken) already_exists
    require (is_role role) check_violated
    exec true already_exists
        (set_accounts (update_where (λ b. b.id == a.id) (synchronized login email role)))
    return (synchronized login email role a, is_demoted role a)

  pub create_github : String → ℕ → String → String → String → ℕ → Op (Account × Bool)
  create_github id github_id login email role clock = do
    require (not (email == "")) no_verified_email
    taken ←
        query (reached check_username) (unreachable check_username)
          λ db. any (λ a. a.username == login) db.accounts
    user ← insert_user lib reached (
        github_account id github_id login (if taken then lib.github_name github_id else login) email
          role clock)
    return (user, false)

  pub synchronize_or_create :
      String → ℕ → String → String → String → ℕ → Option Account → Op (Account × Bool)
  unfolding synchronize create_github
  synchronize_or_create id github_id login email role clock none =
      create_github id github_id login email role clock
  synchronize_or_create id github_id login email role clock (some a) = do
    require (is_none a.disabled_at) user_inactive
    synchronize login email role a (is_stale login email role a)

  pub github_in_transaction : String → ℕ → String → String → String → ℕ → Op (Account × Bool)
  unfolding synchronize_or_create
  github_in_transaction id github_id login email role clock = do
    exec (reached begin) (unreachable begin) (λ db. db)
    exec (reached release_login) (unreachable release_login)
        (set_accounts (update_where (holds_login login github_id) drop_login))
    found ←
        query (reached find_github) (unreachable find_github)
          λ db. find_first (is_github github_id) db.accounts
    synchronize_or_create id github_id login email role clock found

  -- An identifier of GitHub that is not positive is zero here.
  pub find_or_create_github_user :
      Commit → String → ℕ → String → String → String → ℕ → Db → Db × Result Error (Account × Bool)
  find_or_create_github_user commit id github_id login email role clock db =
      if leb github_id 0 || lib.trim_space login == ""
      then (db, err incomplete_claims)
      else transaction commit_failed commit
          (github_in_transaction id github_id (lib.trim_space login)
            (normal_email lib reached email) role clock)
          db

-- Opens the operations above.
unfoldable pub federation_code : Unit {0}
unfolding find_or_create_entra_user sign_in_entra after_find after_link or_create insert_entra_user
    update_returning find_or_create_github_user github_in_transaction synchronize_or_create
    synchronize create_github
federation_code = tt
