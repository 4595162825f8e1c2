-- ===== src/Identity/Sessions/Tests.antt =====
-- Runs of the account and session operations on concrete rows, and instances of their theorems.
use shauth.Common.{
  ◌+◌, ◌*◌, ◌<◌, String, Bool, true, false, none, some, [], ◌∷◌, ◌≡◌, ◌≢◌, refl, arith, committed,
  ok, err, steps, codes, order_by, insert_by,
}
use shauth.Identity.Policy.{day, default_session_policy, row_of_policy, read_policy, validate}
use shauth.Identity.Rows.{User, Session, Db, Site, Library, distinct, no_session}
use shauth.Identity.Sessions.{
  current_user, disable_user, revoke_session, session_policy, find_current, record_activity, expect,
  disable_in_transaction, snapshot_user_sessions, revoke_session_snapshot, user_session_ids,
  hydra_ids_of, revoke_ids, start,
}
use shauth.Identity.Sessions.Disabled.{current_user-disable_user}
use shauth.Identity.Sessions.Lifetime.{current_user-run-IsBounded}
use shauth.Identity.Sessions.Revoked.{current_user-revoke_session}
use shauth.Identity.Sessions.History.{Event, reads, run, apply_call}

session_code : Unit {0}
unfolding steps current_user disable_user revoke_session session_policy find_current record_activity
    expect disable_in_transaction snapshot_user_sessions revoke_session_snapshot user_session_ids
    hydra_ids_of revoke_ids start read_policy validate order_by insert_by distinct run apply_call
session_code = tt

abbrev plain : Library
plain = record { sha256 = codes; trim_space = λ s. s; collate = λ s. 0 }

abbrev up : Site → Bool
up site = true

abbrev ann : User
ann = record {
  id = "u1";
  username = "ann";
  email = "ann@example";
  email_verified = true;
  github_login = "";
  role = "developer";
  is_validation = false;
  validation_run_id = none;
  disabled_at = none;
  created_at = 0;
}

abbrev bob : User
bob = record ann { id = "u2"; username = "bob" }

abbrev ann_session : Session
ann_session = record {
  id = "s1";
  user_id = "u1";
  browser_token_hash = codes "t1";
  created_at = 0;
  last_seen = 5;
  expires_at = 100;
  revoked_at = none;
  user_agent = "";
  remote_ip = [];
}

abbrev bob_session : Session
bob_session = record ann_session { id = "s2"; user_id = "u2"; browser_token_hash = codes "t2" }

abbrev rows : Db
rows = record {
  users = ann ∷ bob ∷ [];
  sessions = ann_session ∷ bob_session ∷ [];
  hydra_sessions = [];
  grants = [];
  apps = [];
  policy = some (row_of_policy (default_session_policy 0) 0);
}

abbrev read_again : Event
read_again = record {
  lib = plain;
  reached = up;
  commit = committed;
  now = 12;
  call = reads false "t2";
}

sign_out :
    (current_user plain up false "t1" 9 rows ≡ ok ((ann, ann_session), rows))
    × (current_user plain up false "t1" 11 (disable_user plain up committed "u1" 10 rows).0
        ≡ err no_session)
unfolding session_code
sign_out = (refl, refl)

current_user-disable_user_example : ◌≢◌ {A = String} "u2" "u1"
unfolding session_code
current_user-disable_user_example =
    current_user-disable_user plain up committed "u1" 10 rows [] (read_again ∷ []) plain up false
      "t2" 13 bob bob_session
      (run (read_again ∷ []) (disable_user plain up committed "u1" 10 rows).0) refl
      ((λ id e. absurd (ground arith)), tt) refl

current_user-revoke_session_example : ◌≢◌ {A = String} "s2" "s1"
unfolding session_code
current_user-revoke_session_example =
    current_user-revoke_session plain up "s1" 10 rows (read_again ∷ []) plain up false "t2" 13 bob
      bob_session (run (read_again ∷ []) (revoke_session plain up "s1" 10 rows).0) refl refl

current_user-run-IsBounded_example : 13 < 0 + 90 * day
unfolding session_code
current_user-run-IsBounded_example =
    current_user-run-IsBounded (read_again ∷ []) rows plain up false "t2" 13 bob bob_session
      (run (read_again ∷ []) rows) (omega arith, (omega arith, tt)) refl
