-- ===== src/Identity/Rows.antt =====
-- The tables of internal/identity/store.go (created in migrations), the calls that can fail, and
-- what the store takes from the libraries it calls.
use shauth.Common.{
  ℕ, ◌+◌, String, Bool, ◌&&◌, Option, some, List, [], ◌∷◌, Step, any, ltb, ◌==◌, string_eq,
  bytes_eq, is_none, if◌then◌else◌,
}
use shauth.Identity.Policy.{PolicyRow, ReadError}

abbrev pub Bytes : Type 0
Bytes = List ℕ

pub record User : Type 0 where
  pub id : String
  pub username : String
  pub email : String
  pub email_verified : Bool
  pub github_login : String
  pub role : String
  pub is_validation : Bool
  pub validation_run_id : Option String
  pub disabled_at : Option ℕ
  pub created_at : ℕ

pub record Session : Type 0 where
  pub id : String
  pub user_id : String
  pub browser_token_hash : Bytes
  pub created_at : ℕ
  pub last_seen : ℕ
  pub expires_at : ℕ
  pub revoked_at : Option ℕ
  pub user_agent : String
  pub remote_ip : Bytes

pub record HydraSession : Type 0 where
  pub hydra_session_id : String
  pub browser_session_id : String
  pub created_at : ℕ

pub record Grant : Type 0 where
  pub id : String
  pub token_hash : Bytes
  pub subject_id : String
  pub browser_session_id : String
  pub active_browser_session_ids : List String
  pub browser_hydra_session_ids : List String
  pub active_hydra_session_ids : List String
  pub managed_client_id : String
  pub signed_out_url : String
  pub created_at : ℕ
  pub expires_at : ℕ
  pub consumed_at : Option ℕ
  pub completed_at : Option ℕ
  pub cleanup_after : ℕ
  pub cleanup_claimed_until : Option ℕ
  pub cleanup_attempts : ℕ
  pub last_error : String

-- The columns of managed_apps that a logout reads.
pub record ManagedApp : Type 0 where
  pub oidc_client_id : String
  pub signed_out_url : String

pub record Db : Type 0 where
  pub users : List User
  pub sessions : List Session
  pub hydra_sessions : List HydraSession
  pub grants : List Grant
  pub apps : List ManagedApp
  pub policy : Option PolicyRow

-- One value for each statement of an operation.
pub data Site : Type 0 where
  begin read_policy_row lock_user insert_session select_session touch_session : Site
  snapshot_sessions snapshot_hydra revoke_snapshot mark_disabled clear_disabled : Site
  select_owner lock_session insert_hydra select_hydra refresh_hydra select_app : Site
  insert_grant consume_grant claim_grant complete_grant fail_grant delete_grants update_policy :
      Site
  shorten_sessions : Site

pub data Error : Type 0 where
  unreachable : Site → Error
  bad_policy : ReadError → Error
  no_token user_inactive user_not_found validation_user_protected no_active_session : Error
  no_session no_hydra_session ids_required correlated_elsewhere logout_session_inactive : Error
  not_correlated no_managed_app grant_unavailable bad_limit constraint_violated commit_failed :
      Error
  no_policy_record : Error

abbrev pub Op : Type 0 → Type 0
Op = Step Db Error

-- crypto/sha256, strings.TrimSpace, and the order that PostgreSQL gives to identifiers.
pub record Library : Type 0 where
  pub sha256 : String → Bytes
  pub trim_space : String → String
  pub collate : String → ℕ

abbrev pub is_active_user : String → User → Bool
is_active_user id u = u.id == id && is_none u.disabled_at

-- The columns that make a browser session good at a time: unrevoked, within its absolute lifetime,
-- and seen within the idle timeout. `last_seen > now - idle` has the timeout on the other side.
abbrev pub is_in_force : ℕ → ℕ → Session → Bool
is_in_force now idle s =
    is_none s.revoked_at && (ltb now s.expires_at && ltb now (s.last_seen + idle))

abbrev pub revoke_at : ℕ → Session → Session
revoke_at now s = record s { revoked_at = some now }

abbrev pub member : String → List String → Bool
member x xs = any (λ y. y == x) xs

-- SELECT DISTINCT
unfoldable pub distinct : List String → List String
distinct [] = []
distinct (x ∷ xs) = let rest = distinct xs in if member x rest then rest else x ∷ rest
