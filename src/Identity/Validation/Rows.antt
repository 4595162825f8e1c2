-- ===== src/Identity/Validation/Rows.antt =====
-- The rows that validation runs read and write, the statements that can fail, and the text
-- functions of the standard library: internal/identity/store.go, migrations/000008 and 000014.
use shauth.Common.{
  ℕ, String, Bool, true, false, ◌||◌, Option, none, some, List, Step, ◌==◌, string_eq,
}
use shauth.Identity.Rows.{Bytes, User}

pub data Direction : Type 0 where
  from_shauth from_app : Direction

pub data Status : Type 0 where
  queued running passed failed : Status

pub record Witness : Type 0 where
  pub managed_app_id : String
  pub app_slug : String
  pub app_name : String
  pub oidc_client_id : String
  pub launch_url : String
  pub validation_url : String
  pub signed_out_url : String
  pub release_revision : String

pub record Run : Type 0 where
  pub id : String
  pub managed_app_id : String
  pub app_slug : String
  pub app_name : String
  pub oidc_client_id : String
  pub launch_url : String
  pub validation_url : String
  pub signed_out_url : String
  pub direction : Direction
  pub release_revision : String
  pub validation_contract_hash : String
  pub witness : Option Witness
  pub status : Status
  pub requested_by : Option String
  pub requested_at : ℕ
  pub started_at : Option ℕ
  pub lease_expires_at : Option ℕ
  pub completed_at : Option ℕ
  pub duration_milliseconds : Option ℕ
  pub failure : Bytes

pub record ManagedApp : Type 0 where
  pub id : String
  pub slug : String
  pub name : String
  pub description : String
  pub launch_url : String
  pub oidc_client_id : String
  pub oidc_contract_hash : String
  pub health_url : String
  pub monitoring_url : String
  pub validation_url : String
  pub signed_out_url : String
  pub release_revision : String

pub record Db : Type 0 where
  pub apps : List ManagedApp
  pub runs : List Run
  pub users : List User

pub data Site : Type 0 where
  begin lock_queue expire_runs release_identities count_running select_run select_identity : Site
  check_out lease_run complete_run release_identity lock_apps remove_superseded insert_run : Site

pub data Error : Type 0 where
  unreachable : Site → Error
  no_identity not_a_result run_not_found constraint_violated commit_failed app_not_found : Error

abbrev pub Op : Type 0 → Type 0
Op = Step Db Error

-- What a parsed URL is compared by.
pub record Url : Type 0 where
  pub scheme : String
  pub host : String

-- url.Parse, strings.EqualFold, strings.Join with a zero byte, and the SHA-256 digest in hex.
pub record Urls : Type 0 where
  pub parse : String → Option Url
  pub equal_fold : String → String → Bool
  pub join_zero : List String → String
  pub hex_sha256 : String → String

-- strings.ToValidUTF8 and strings.TrimSpace.
pub record Texts : Type 0 where
  pub to_valid_utf8 : Bytes → Bytes
  pub trim_space : Bytes → Bytes

abbrev pub is_running : Run → Bool
is_running r = elim r.status [ running ↦ true | _ ↦ false ]

abbrev pub is_queued : Run → Bool
is_queued r = elim r.status [ queued ↦ true | _ ↦ false ]

unfoldable pub is_result : Status → Bool
is_result passed = true
is_result failed = true
is_result _ = false

-- The target or the witness of a run.
abbrev pub uses_app : String → Run → Bool
uses_app app r =
    r.managed_app_id == app || elim r.witness [ none ↦ false | some w ↦ w.managed_app_id == app ]
