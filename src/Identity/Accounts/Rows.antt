-- ===== src/Identity/Accounts/Rows.antt =====
-- The tables that hold accounts and invitations, their constraints, and what the store takes from
-- other libraries: internal/identity/store.go, migrations/000001, 000004 and 000006.
use shauth.Common.{
  ℕ, String, Bool, false, not, ◌&&◌, ◌||◌, Option, some, List, Step, ◌==◌, string_eq, nat_eq,
  bytes_eq,
}
use shauth.Identity.Rows.{Bytes}

pub record Account : Type 0 where
  pub id : String
  pub username : String
  pub email : String
  pub email_verified : Bool
  pub password_hash : Option Bytes
  pub github_id : Option ℕ
  pub github_login : Option String
  pub role : String
  pub entra_tenant_id : Option String
  pub entra_object_id : Option String
  pub is_validation : Bool
  pub disabled_at : Option ℕ
  pub created_at : ℕ

pub record Invitation : Type 0 where
  pub id : String
  pub email : String
  pub role : String
  pub token_hash : Bytes
  pub invited_by : String
  pub created_at : ℕ
  pub expires_at : ℕ
  pub accepted_at : Option ℕ
  pub revoked_at : Option ℕ

pub record Db : Type 0 where
  pub accounts : List Account
  pub invitations : List Invitation

pub data Site : Type 0 where
  begin insert_account insert_invitation claim_invitation revoke_invitation read_invitation : Site
  read_account release_login find_github sync_github check_username find_entra link_entra : Site
  insert_entra : Site

pub data Error : Type 0 where
  unreachable : Site → Error
  invalid_input no_random not_acceptable not_revocable already_exists commit_failed : Error
  incomplete_claims user_inactive user_disabled no_verified_email hash_failed check_violated : Error

abbrev pub Op : Type 0 → Type 0
Op = Step Db Error

-- strings, crypto/sha256, bcrypt and fmt. bcrypt may fail to make a hash.
pub record Library : Type 0 where
  pub trim_space : String → String
  pub to_lower : String → String
  pub byte_length : String → ℕ
  pub sha256 : String → Bytes
  pub generate_from_password : String → Option Bytes
  pub compare_hash_and_password : Bytes → String → Bool
  pub github_name : ℕ → String

abbrev pub same_text : Option String → Option String → Bool
same_text (some a) (some b) = a == b
same_text _ _ = false

abbrev pub same_number : Option ℕ → Option ℕ → Bool
same_number (some a) (some b) = a == b
same_number _ _ = false

-- The unique columns of users.
abbrev pub collides : Account → Account → Bool
collides a b =
    a.id == b.id
    || (a.username == b.username
        || (a.email == b.email
            || (same_number a.github_id b.github_id
                || (same_text a.github_login b.github_login
                    || same_text a.entra_tenant_id b.entra_tenant_id
                      && same_text a.entra_object_id b.entra_object_id))))

-- An updated row against the rows of other identifiers.
abbrev pub collides_with_other : Account → Account → Bool
collides_with_other a b = not (b.id == a.id) && collides a b

abbrev pub is_role : String → Bool
is_role role = role == "developer" || role == "admin"
