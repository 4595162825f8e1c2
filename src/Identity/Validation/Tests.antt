-- ===== src/Identity/Validation/Tests.antt =====
-- Runs of the operations on validation runs on concrete rows, and instances of their theorems.
use shauth.Common.{
  ℕ, ◌≤◌, String, Bool, true, false, none, some, List, [], ◌∷◌, ◌≡◌, ◌⊎◌, refl, arith, committed,
  ok, err, steps, any, length, take, ◌==◌, string_eq, is_none, not, order_by, insert_by,
}
use shauth.Identity.Rows.{User, Library}
use shauth.Identity.Validation.Rows.{
  Run, Witness, ManagedApp, Urls, Texts, Db, Site, from_shauth, queued, passed, is_result,
  run_not_found,
}
use shauth.Identity.Validation.{
  claim_of, claim_app_validation, complete_app_validation, expire_abandoned_app_validation,
  claim_in_transaction, start, expire_abandoned, release_expired, claim_below, select_and_claim,
  claim_selected, lease, check_out_identity, next_run, expire_in_transaction,
  complete_in_transaction,
}
use shauth.Identity.Validation.Failure.{truncate_utf8, cut_at, IsCut, truncate_utf8-IsCut}
use shauth.Identity.Validation.Queue.{may_witness, validation_witness, after_target, scan}
use shauth.Identity.Validation.Queue.Choice.{validation_witness-is_some_iff}
use shauth.Identity.Validation.Slots.{IsOrderly}
use shauth.Identity.Validation.History.{
  Event, Call, claims, completes, run, run-IsOrderly, apply_call,
}
use shauth.Identity.Validation.Progress.{claim_app_validation-progress}
use shauth.Identity.Validation.Started.{IsStarted}
use shauth.Identity.Validation.Orderly.{expired}

validation_code : Unit {0}
unfolding steps claim_app_validation complete_app_validation expire_abandoned_app_validation
    claim_in_transaction start expire_abandoned release_expired claim_below select_and_claim
    claim_selected lease check_out_identity next_run expire_in_transaction complete_in_transaction
    is_result truncate_utf8 cut_at validation_witness after_target scan order_by insert_by run
    apply_call
validation_code = tt

abbrev plain : Library
plain = record { sha256 = λ s. []; trim_space = λ s. s; collate = λ s. 0 }

abbrev texts : Texts
texts = record { to_valid_utf8 = λ s. s; trim_space = λ s. s }

abbrev urls : Urls
urls = record {
  parse = λ s. some (record { scheme = "https"; host = s });
  equal_fold = λ a b. a == b;
  join_zero = λ xs. "";
  hex_sha256 = λ s. s;
}

abbrev up : Site → Bool
up site = true

abbrev nobody : String → Bool
nobody id = false

abbrev identity : String → User
identity id = record {
  id = id;
  username = id;
  email = "";
  email_verified = true;
  github_login = "";
  role = "developer";
  is_validation = true;
  validation_run_id = none;
  disabled_at = none;
  created_at = 0;
}

abbrev chat : ManagedApp
chat = record {
  id = "a1";
  slug = "chat";
  name = "Chat";
  description = "";
  launch_url = "chat.example";
  oidc_client_id = "chat";
  oidc_contract_hash = "";
  health_url = "";
  monitoring_url = "";
  validation_url = "";
  signed_out_url = "";
  release_revision = "";
}

abbrev wiki : ManagedApp
wiki = record chat {
  id = "a2";
  slug = "wiki";
  launch_url = "wiki.example";
  oidc_client_id = "wiki";
}

abbrev by_wiki : Witness
by_wiki = record {
  managed_app_id = "a2";
  app_slug = "wiki";
  app_name = "Wiki";
  oidc_client_id = "wiki";
  launch_url = "";
  validation_url = "";
  signed_out_url = "";
  release_revision = "";
}

abbrev waiting : Run
waiting = record {
  id = "r1";
  managed_app_id = "a1";
  app_slug = "chat";
  app_name = "Chat";
  oidc_client_id = "chat";
  launch_url = "";
  validation_url = "";
  signed_out_url = "";
  direction = from_shauth;
  release_revision = "";
  validation_contract_hash = "";
  witness = some by_wiki;
  status = queued;
  requested_by = none;
  requested_at = 1;
  started_at = none;
  lease_expires_at = none;
  completed_at = none;
  duration_milliseconds = none;
  failure = [];
}

abbrev later : Run
later = record waiting { id = "r2"; managed_app_id = "a2"; witness = none; requested_at = 2 }

abbrev tables : Db
tables = record {
  apps = chat ∷ wiki ∷ [];
  runs = later ∷ waiting ∷ [];
  users = identity "u1" ∷ identity "u2" ∷ identity "u3" ∷ [];
}

tables-IsOrderly : IsOrderly tables
tables-IsOrderly = record {
  run_ids = (refl, (refl, tt));
  user_ids = (refl, (refl, (refl, tt)));
  slots = omega arith;
  apart = (refl, (refl, tt));
  once = (refl, (refl, (refl, tt)));
  held = ((λ on. absurd (ground arith)), ((λ on. absurd (ground arith)), tt));
  owned = (
    (λ id on. absurd (ground arith)),
    ((λ id on. absurd (ground arith)), ((λ id on. absurd (ground arith)), tt)),
  );
}

abbrev event : Call → Event
event call = record {
  lib = plain;
  urls = urls;
  texts = texts;
  reached = up;
  commit = committed;
  locked = nobody;
  lease_expired = [];
  now = 10;
  call = call;
}

abbrev day_of_runs : List Event
day_of_runs = event claims ∷ event claims ∷ event (completes "r1" passed []) ∷ event claims ∷ []

-- The second claim finds no run: `later` targets the witness of the running run.
claims_in_turn :
    (claim_app_validation plain up committed nobody [] 10 (run (event claims ∷ []) tables)).1
    ≡ ok none
unfolding validation_code
claims_in_turn = refl

complete_unknown :
    (complete_app_validation plain up texts committed "r1" passed [] 10 tables).1
    ≡ err run_not_found
unfolding validation_code
complete_unknown = refl

run-IsOrderly_example : IsOrderly (run day_of_runs tables)
run-IsOrderly_example = run-IsOrderly day_of_runs tables tables-IsOrderly

claim_app_validation-progress_example :
    (u : User) × ((claim_app_validation plain up committed nobody [] 10 tables).1
      ≡ ok (some (claim_of 10 waiting u)))
    × IsStarted nobody
        (expired [] 10 tables)
        10
        waiting
        u
        (claim_app_validation plain up committed nobody [] 10 tables).0
unfolding validation_code
claim_app_validation-progress_example =
    claim_app_validation-progress plain nobody [] 10 tables waiting tables-IsOrderly
      (refl, (refl, (refl, tt))) (omega arith) (omega arith) refl

validation_witness-is_some_iff_example :
    (is_none (validation_witness urls chat (chat ∷ wiki ∷ []))
      ≡ not (any (may_witness urls chat) (chat ∷ wiki ∷ [])))
    × ((w : ManagedApp)
        → validation_witness urls chat (chat ∷ wiki ∷ []) ≡ some w
        → may_witness urls chat w ≡ true)
validation_witness-is_some_iff_example =
    validation_witness-is_some_iff urls chat (chat ∷ wiki ∷ []) refl

-- A two-byte rune across the limit is dropped whole.
truncated : truncate_utf8 texts (65 ∷ 195 ∷ 169 ∷ []) 2 ≡ 65 ∷ []
unfolding validation_code
truncated = refl

truncate_utf8-IsCut_example :
    (length (truncate_utf8 texts (65 ∷ 195 ∷ 169 ∷ []) 2) ≤ 2)
    × (((truncate_utf8 texts (65 ∷ 195 ∷ 169 ∷ []) 2 ≡ 65 ∷ 195 ∷ 169 ∷ []) × (3 ≤ 2))
        ⊎ ((n : ℕ) × IsCut (65 ∷ 195 ∷ 169 ∷ []) 2 n
            × (truncate_utf8 texts (65 ∷ 195 ∷ 169 ∷ []) 2 ≡ take n (65 ∷ 195 ∷ 169 ∷ []))))
truncate_utf8-IsCut_example = truncate_utf8-IsCut texts (65 ∷ 195 ∷ 169 ∷ []) 2
