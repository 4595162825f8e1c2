-- ===== src/Identity/Accounts.antt =====
-- The ways to get an account, in internal/identity/store.go: CreatePasswordUser, CreateInvitation,
-- AcceptInvitation, RevokeInvitation, InvitationState and AuthenticatePassword. Federated sign-in
-- is in Accounts/Federation.
pub mod Rows
pub mod Claims
pub mod History
pub mod Used
pub mod Invitations
pub mod Federation
mod Tests
use shauth.Common.{
  ℕ, ◌+◌, ◌*◌, String, Bool, true, false, not, ◌&&◌, ◌||◌, Option, none, some, List, [], ◌∷◌,
  Result, ok, err, ◌>>=◌, ◌>>◌, return, fail, require, exec, query, Commit, transaction, statement,
  any, find_first, update_where, ltb, leb, ◌==◌, string_eq, bytes_eq, is_none, if◌then◌else◌,
  length,
}
use shauth.Identity.Rows.{Bytes}
use shauth.Identity.Accounts.Rows.{
  Account, Invitation, Db, Site, Error, Op, Library, begin, insert_account, insert_invitation,
  claim_invitation, revoke_invitation, read_invitation, read_account, unreachable, invalid_input,
  no_random, not_acceptable, not_revocable, already_exists, commit_failed, hash_failed,
  check_violated, collides, is_role,
}

abbrev pub minimum_password : ℕ
minimum_password = 14

abbrev pub max_password_bytes : ℕ
max_password_bytes = 72

-- Times are microseconds.
abbrev pub invitation_lifetime : ℕ
invitation_lifetime = 7 * (24 * (60 * (60 * 1_000_000)))

pub data InvitationState : Type 0 where
  invitation_accepted invitation_revoked invitation_expired invitation_pending : InvitationState

unfoldable pub state_of : Invitation → ℕ → InvitationState
state_of i now =
    if not (is_none i.accepted_at)
    then invitation_accepted
    else if not (is_none i.revoked_at)
    then invitation_revoked
    else if not (ltb now i.expires_at)
    then invitation_expired
    else invitation_pending

abbrev pub is_claimable : Bytes → ℕ → Invitation → Bool
is_claimable hash now i =
    i.token_hash == hash
    && (is_none i.accepted_at && (is_none i.revoked_at && ltb now i.expires_at))

abbrev pub accept_at : ℕ → Invitation → Invitation
accept_at now i = record i { accepted_at = some now }

abbrev pub revoke_at : ℕ → Invitation → Invitation
revoke_at now i = record i { revoked_at = some now }

abbrev pub is_revocable : String → Invitation → Bool
is_revocable id i = i.id == id && (is_none i.accepted_at && is_none i.revoked_at)

pub data Refusal : Type 0 where
  unknown_user account_disabled no_password wrong_secret store_unavailable : Refusal

module _ (lib : Library) (reached : Site → Bool) where
  unfoldable pub password_credential : String → String → Result Error (String × Bytes)
  password_credential username password =
      let name = lib.trim_space username in
      let hashed : Result Error (String × Bytes) = elim (lib.generate_from_password password) [
        | none ↦ err hash_failed
        | some hash ↦ ok (name, hash)
      ] in
      if name == "" || ltb (lib.byte_length password) minimum_password
      then err invalid_input
      else if ltb max_password_bytes (lib.byte_length password)
      then err invalid_input
      else hashed

  -- INSERT … RETURNING: the unique columns and the check on the role are the database's.
  pub insert_user : Account → Op Account
  insert_user account = do
    exec (reached insert_account) (unreachable insert_account) (λ db. db)
    taken ← query true already_exists (λ db. any (collides account) db.accounts)
    require (not taken) already_exists
    require (is_role account.role) check_violated
    exec true already_exists (λ db. record db { accounts = account ∷ db.accounts })
    return account

  abbrev pub local_account : String → String → String → Bytes → String → ℕ → Account
  local_account id username email hash role clock = record {
    id = id;
    username = username;
    email = email;
    email_verified = true;
    password_hash = some hash;
    github_id = none;
    github_login = none;
    role = role;
    entra_tenant_id = none;
    entra_object_id = none;
    is_validation = false;
    disabled_at = none;
    created_at = clock;
  }

  abbrev pub normal_email : String → String
  normal_email email = lib.to_lower (lib.trim_space email)

  -- `id` is chosen at random and `clock` is the database's time.
  pub create_password_user :
      String → String → String → String → String → ℕ → Db → Db × Result Error Account
  unfolding insert_user
  create_password_user id username email password role clock db =
      let created : Db × Result Error Account = elim (password_credential username password) [
        | err e ↦ (db, err e)
        | ok (name, hash) ↦
            if not (is_role role)
            then (db, err invalid_input)
            else statement
                (insert_user (local_account id name (normal_email email) hash role clock)) db
      ] in
      if normal_email email == "" then (db, err invalid_input) else created

  pub store_invitation : Invitation → Op (Unit {0})
  store_invitation i = do
    exec (reached insert_invitation) (unreachable insert_invitation) (λ db. db)
    taken ←
        query true already_exists
          λ db. any (λ o. o.id == i.id || o.token_hash == i.token_hash) db.invitations
    require (not taken) already_exists
    exec true already_exists (λ db. record db { invitations = i ∷ db.invitations })

  abbrev pub new_invitation : String → String → String → String → String → ℕ → Invitation
  new_invitation id email role raw invited_by now = record {
    id = id;
    email = normal_email email;
    role = role;
    token_hash = lib.sha256 raw;
    invited_by = invited_by;
    created_at = now;
    expires_at = now + invitation_lifetime;
    accepted_at = none;
    revoked_at = none;
  }

  -- `raw` is what the random source gave, if it answered.
  pub create_invitation :
      Option String → String → String → String → String → ℕ → Db → Db × Result Error String
  unfolding store_invitation
  create_invitation raw id email role invited_by now db =
      let stored : Db × Result Error String = elim raw [
        | none ↦ (db, err no_random)
        | some token ↦
            statement
              (do
                store_invitation (new_invitation id email role token invited_by now)
                return token)
              db
      ] in
      if normal_email email == "" || not (is_role role) then (db, err invalid_input) else stored

  -- UPDATE invitations … RETURNING email, role.
  pub claim_row : Bytes → ℕ → Op Invitation
  claim_row hash now = do
    found ←
        query (reached claim_invitation) (unreachable claim_invitation)
          λ db. find_first (is_claimable hash now) db.invitations
    exec true not_acceptable λ db. record db {
      invitations = update_where (is_claimable hash now) (accept_at now) db.invitations;
    }
    elim found [ none ↦ fail not_acceptable | some i ↦ return i ]

  pub accept_in_transaction : String → String → Bytes → Bytes → ℕ → ℕ → Op Account
  unfolding claim_row insert_user
  accept_in_transaction id name credential hash now clock = do
    exec (reached begin) (unreachable begin) (λ db. db)
    i ← claim_row hash now
    insert_user (local_account id name (normal_email i.email) credential i.role clock)

  pub accept_invitation :
      Commit → String → String → String → String → ℕ → ℕ → Db → Db × Result Error Account
  accept_invitation commit id raw username password now clock db =
      elim (password_credential username password) [
        | err e ↦ (db, err e)
        | ok (name, credential) ↦
            transaction commit_failed commit
              (accept_in_transaction id name credential (lib.sha256 raw) now clock) db
      ]

  pub revoke_invitation_row : String → ℕ → Db → Db × Result Error (Unit {0})
  revoke_invitation_row id now = statement (do
    found ←
        query (reached revoke_invitation) (unreachable revoke_invitation)
          λ db. any (is_revocable id) db.invitations
    require found not_revocable
    exec true not_revocable λ db. record db {
      invitations = update_where (is_revocable id) (revoke_at now) db.invitations;
    })

  -- An unknown token is reported as expired.
  pub invitation_state : String → ℕ → Db → Result Error InvitationState
  unfolding state_of
  invitation_state raw now db =
      let found : InvitationState =
        elim (find_first (λ i. i.token_hash == lib.sha256 raw) db.invitations) [
          | none ↦ invitation_expired
          | some i ↦ state_of i now
        ] in
      if lib.trim_space raw == ""
      then ok invitation_expired
      else if reached read_invitation
      then ok found
      else err (unreachable read_invitation)

  abbrev pub is_named : String → Account → Bool
  is_named username a = a.username == lib.trim_space username && not a.is_validation

  abbrev pub hash_of : Account → Bytes
  hash_of a = elim a.password_hash [ none ↦ [] | some hash ↦ hash ]

  abbrev pub check_password : Account → String → Result Refusal Account
  check_password a password =
      if not (is_none a.disabled_at)
      then err account_disabled
      else if leb (length (hash_of a)) 0
      then err no_password
      else if not (lib.compare_hash_and_password (hash_of a) password)
      then err wrong_secret
      else ok a

  pub authenticate_password : String → String → Db → Result Refusal Account
  authenticate_password username password db =
      let checked : Result Refusal Account = elim (find_first (is_named username) db.accounts) [
        | none ↦ err unknown_user
        | some a ↦ check_password a password
      ] in
      if reached read_account then checked else err store_unavailable
