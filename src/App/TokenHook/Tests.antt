-- ===== src/App/TokenHook/Tests.antt =====
-- Token requests on concrete rows, and instances of their theorems.
use shauth.Common.{
  Bool, true, false, none, some, [], ◌∷◌, ◌≡◌, ◌≢◌, refl, committed, steps, codes, ok, order_by,
  insert_by,
}
use shauth.Identity.Policy.{default_session_policy, row_of_policy}
use shauth.Identity.Rows.{User, Db, Site, Library, distinct}
use shauth.Identity.Sessions.{
  disable_user, disabling_code, provider_session_account, user_by_id, find_account, expect,
}
use shauth.Identity.Sessions.History.{run}
use shauth.App.TokenHook.{
  HookLibrary, HookRequest, Tokens, issue, refuse, text, hydra_token_hook, decoded, for_grant,
  for_account, with_session, with_account, token_hook_grant, lookup, put, copy_claims,
  oidc_identity_claims,
}
use shauth.App.TokenHook.Granted.{
  IsGranted, hydra_token_hook-IsGranted, hydra_token_hook-disable_user,
}

hook_code : Unit {0}
unfolding steps hydra_token_hook decoded for_grant for_account with_session with_account
    token_hook_grant lookup put copy_claims provider_session_account user_by_id find_account expect
hook_code = tt

abbrev plain : Library
plain = record { sha256 = codes; trim_space = λ s. s; collate = λ s. 0 }

abbrev hook : HookLibrary
hook = record {
  byte_length = λ s. 10;
  before = λ s n. s;
  from = λ s n. s;
  equal_fold = λ a b. true;
  is_uuid = λ s. true;
}

abbrev up : Site → Bool
up site = true

abbrev ann : User
ann = record {
  id = "u1";
  username = "ann";
  email = "ann@example";
  email_verified = true;
  github_login = "";
  role = "developer";
  is_validation = false;
  validation_run_id = none;
  disabled_at = none;
  created_at = 0;
}

abbrev rows : Db
rows = record {
  users = ann ∷ [];
  sessions =
      record {
        id = "s1";
        user_id = "u1";
        browser_token_hash = [];
        created_at = 0;
        last_seen = 5;
        expires_at = 100;
        revoked_at = none;
        user_agent = "";
        remote_ip = [];
      }
      ∷ [];
  hydra_sessions =
      record { hydra_session_id = "h1"; browser_session_id = "s1"; created_at = 0 } ∷ [];
  grants = [];
  apps = [];
  policy = some (row_of_policy (default_session_policy 0) 0);
}

-- A token that still says administrator.
abbrev refresh : HookRequest
refresh = record {
  claims_subject = "u1";
  id_token_subject = "";
  id_token_extra = record { name = "sid"; value = text "h1" } ∷ [];
  session_extra = record { name = "role"; value = text "admin" } ∷ [];
  grant_types = "refresh_token" ∷ [];
}

abbrev issued : Tokens
issued = record {
  access_token = copy_claims (oidc_identity_claims ann) refresh.session_extra;
  id_token = copy_claims (oidc_identity_claims ann) refresh.id_token_extra;
}

hydra_token_hook-IsGranted_example : IsGranted plain up refresh rows issued
unfolding hook_code
hydra_token_hook-IsGranted_example =
    hydra_token_hook-IsGranted hook plain up ("secret" ∷ []) "secret" refresh rows issued refl

wrong_token :
    hydra_token_hook hook plain up ("guess" ∷ []) "secret" (some refresh) rows ≡ refuse 401
unfolding hook_code
wrong_token = refl

disabled : (disable_user plain up committed "u1" 10 rows).1 ≡ ok ("h1" ∷ [])
unfolding hook_code disabling_code order_by insert_by distinct
disabled = refl

hydra_token_hook-disable_user_example :
    hydra_token_hook hook plain up
      ("secret" ∷ [])
      "secret"
      (some refresh)
      (run [] (disable_user plain up committed "u1" 10 rows).0)
    ≢ issue issued
hydra_token_hook-disable_user_example =
    hydra_token_hook-disable_user plain up committed "u1" 10 rows ("h1" ∷ []) [] hook plain up
      ("secret" ∷ []) "secret" refresh issued disabled tt refl
