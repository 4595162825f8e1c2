-- ===== src/Gateway/Store/Tests.antt =====
-- Runs of the gateway store on concrete rows, and instances of its theorems.
use shauth.Common.{
  ◌+◌, String, Bool, true, some, [], ◌∷◌, ◌≡◌, ◌≢◌, refl, arith, committed, ok, err,
}
use shauth.Gateway.Store.{
  Session, Db, Crypto, Store, Site, hour, create, find, revoke_provider_session, store_code,
  logged_out, token_replayed, session_not_found,
}
use shauth.Gateway.Store.Stable.{Event, creates, run, apply_call}
use shauth.Gateway.Store.Keys.{IsKeyed}
use shauth.Gateway.Store.Logout.{find-revoke_provider_session, find-revoke_frontchannel_session}
use shauth.Gateway.Store.Replay.{revoke_provider_session-replayed}
use shauth.Gateway.Store.Sessions.{find-create, find-create_other}

-- A hash that changes nothing, and a cipher that hides nothing.
abbrev clear_crypto : Crypto
clear_crypto = record {
  sha256 = λ b. b;
  nonce_size = 1;
  seal = λ n p d. p;
  unseal = λ n c d. some c;
  marshal = λ s. [];
  uuid_text = λ s. s;
  unseal_seal = λ n p d h. refl;
}

abbrev console : Store
console = record {
  client_id = "console";
  issuer = "https://auth.example";
  tombstone_lifetime = 1_200_000_000;
}

abbrev up : Site → Bool
up site = true

abbrev no_rows : Db
no_rows = record { sessions = []; tokens = []; tombstones = [] }

abbrev ann : Session
ann = record {
  id = "s1";
  subject = "ann";
  provider_session_id = "p1";
  id_token = 7 ∷ 8 ∷ [];
  username = "ann";
  email = "ann@example";
  role = "developer";
  expires_at = 8 + hour;
}

abbrev signed_in : Db
signed_in = (create clear_crypto console up committed (some (9 ∷ [])) ann (1 ∷ []) 5 no_rows).0

abbrev logged_out_db : Db
logged_out_db = (revoke_provider_session console up committed "p1" "t1" 100 6 signed_in).0

abbrev retry : Event
retry = record {
  crypto = clear_crypto;
  store = console;
  reached = up;
  commit = committed;
  now = 9;
  call = creates (some (9 ∷ [])) (record ann { id = "s2" }) (2 ∷ []);
}

sign_in_and_out :
    (find clear_crypto console up (1 ∷ []) 6 signed_in ≡ ok ann)
    × (find clear_crypto console up (1 ∷ []) 7 logged_out_db ≡ err session_not_found)
    × ((create clear_crypto console up committed
          (some (9 ∷ []))
          (record ann { id = "s2" })
          (2 ∷ [])
          9
          logged_out_db).1
        ≡ err logged_out)
    × ((revoke_provider_session console up committed "p1" "t1" 100 8 logged_out_db).1
        ≡ err token_replayed)
unfolding store_code run apply_call
sign_in_and_out = (refl, refl, refl, refl)

no_rows-IsKeyed : IsKeyed no_rows
no_rows-IsKeyed = record { sessions = tt; tokens = tt; tombstones = tt }

signed_in-IsKeyed : IsKeyed signed_in
unfolding store_code run apply_call
signed_in-IsKeyed = record { sessions = (refl, tt); tokens = tt; tombstones = tt }

-- Another provider session, signed in after the logout.
abbrev bob : Session
bob = record ann { id = "s3"; subject = "bob"; provider_session_id = "p2" }

abbrev bob_signs_in : Event
bob_signs_in = record retry { call = creates (some (9 ∷ [])) bob (3 ∷ []) }

find-revoke_provider_session_example : ◌≢◌ {A = String} "p2" "p1"
unfolding store_code run apply_call
find-revoke_provider_session_example =
    find-revoke_provider_session console up committed "p1" 6 signed_in signed_in-IsKeyed "t1" 100
      (retry ∷ bob_signs_in ∷ []) clear_crypto up (3 ∷ []) 10 bob refl (omega arith) refl

find-revoke_frontchannel_session_example : ◌≢◌ {A = String} "p2" "p1"
unfolding store_code run apply_call
find-revoke_frontchannel_session_example =
    find-revoke_frontchannel_session console up committed "p1" 6 signed_in signed_in-IsKeyed
      (retry ∷ bob_signs_in ∷ []) clear_crypto up (3 ∷ []) 10 bob refl (omega arith) refl

revoke_provider_session-replayed_example :
    ((revoke_provider_session console up committed "p9" "t1" 500 50
        (run (retry ∷ []) logged_out_db)).0
      ≡ run (retry ∷ []) logged_out_db)
    × ((revoke_provider_session console up committed "p9" "t1" 500 50
          (run (retry ∷ []) logged_out_db)).1
        ≢ ok tt)
unfolding store_code run apply_call
revoke_provider_session-replayed_example =
    revoke_provider_session-replayed console up committed "p1" "t1" 100 6 signed_in (retry ∷ [])
      console up committed "p9" 500 50 (omega arith) refl (omega arith) (omega arith) refl

find-create_example : find clear_crypto console up (1 ∷ []) 6 signed_in ≡ ok ann
unfolding store_code run apply_call
find-create_example =
    find-create clear_crypto console up committed (9 ∷ []) ann (1 ∷ []) 5 no_rows up 6 refl refl
      refl refl (omega arith)

find-create_other_example :
    find clear_crypto console up
      (1 ∷ [])
      12
      (create clear_crypto console up committed (some (9 ∷ [])) bob (3 ∷ []) 11 signed_in).0
    ≡ find clear_crypto console up (1 ∷ []) 12 signed_in
find-create_other_example =
    find-create_other clear_crypto console up committed (9 ∷ []) bob (3 ∷ []) 11 signed_in (1 ∷ [])
      12 (λ e. cc) (omega arith) up
