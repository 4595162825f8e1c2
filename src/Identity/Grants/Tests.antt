-- ===== src/Identity/Grants/Tests.antt =====
-- Runs of the logout grants on concrete rows, and instances of their theorems.
use shauth.Common.{◌+◌, String, Bool, true, none, some, [], ◌∷◌, ◌≢◌, refl, arith, ok, steps, codes}
use shauth.Identity.Rows.{Grant, Db, Site, Library}
use shauth.Identity.Sessions.{expect}
use shauth.Identity.Grants.{
  consume_logout_correlation_grant, consume, update_grants, is_browser_token,
  logout_completion_lifetime,
}
use shauth.Identity.Grants.Once.{consume_logout_correlation_grant-once}

abbrev plain : Library
plain = record { sha256 = codes; trim_space = λ s. s; collate = λ s. 0 }

abbrev up : Site → Bool
up site = true

abbrev raw : String
raw = "0123456789abcdef0123456789abcdef0123456789abcdef0123456789abcdef"

abbrev granted : Grant
granted = record {
  id = "g1";
  token_hash = codes raw;
  subject_id = "u1";
  browser_session_id = "s1";
  active_browser_session_ids = "s1" ∷ [];
  browser_hydra_session_ids = "h1" ∷ [];
  active_hydra_session_ids = "h1" ∷ [];
  managed_client_id = "";
  signed_out_url = "";
  created_at = 10;
  expires_at = 100;
  consumed_at = none;
  completed_at = none;
  cleanup_after = 100;
  cleanup_claimed_until = none;
  cleanup_attempts = 0;
  last_error = "";
}

abbrev rows : Db
rows = record {
  users = [];
  sessions = [];
  hydra_sessions = [];
  grants = granted ∷ [];
  apps = [];
  policy = none;
}

abbrev consumed : Grant
consumed = record granted { consumed_at = some 20; cleanup_after = 20 + logout_completion_lifetime }

consume_logout_correlation_grant-once_example :
    (consume_logout_correlation_grant plain up raw "u1" 30
      (consume_logout_correlation_grant plain up raw "u1" 20 rows).0).1
    ≢ ok granted
unfolding steps expect consume_logout_correlation_grant consume update_grants is_browser_token
consume_logout_correlation_grant-once_example =
    consume_logout_correlation_grant-once plain up up raw "u1" 20 30 rows consumed granted refl
      (omega arith)
