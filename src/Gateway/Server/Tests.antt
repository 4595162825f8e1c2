-- ===== src/Gateway/Server/Tests.antt =====
-- Runs of the gateway's endpoints on concrete requests, and instances of their theorems.
use shauth.Common.{
  ◌≡◌, ◌<◌, ◌*◌, ℕ, String, Bool, true, none, some, List, [], ◌∷◌, ◌≢◌, refl, committed, ok, codes,
  codes,
}
use shauth.Gateway.Store.{Session, SessionRow, Db, Crypto, Store, Site, hour, store_code}
use shauth.Gateway.Store.Keys.{IsKeyed}
use shauth.Gateway.Store.Stable.{Event, creates, run}
use shauth.Gateway.Server.SignIn.{callback-return_to}
use shauth.Gateway.Server.{
  Transaction, IdentityClaims, checking, open_transaction, callback, complete_callback,
  accepted_transaction, verified_identity, is_complete, sign_in, replace_previous, claimed_session,
  Config, Provider, Codec, Request, Moment, LogoutClaims, logout, require_session,
  backchannel_logout, current_session, same_origin, logout_session, revoke_claimed,
}
use shauth.Gateway.Server.Logout.{require_session-backchannel_logout, require_session-logout}

abbrev cookie : String
cookie = "0123456789abcdef0123456789abcdef"

abbrev other_cookie : String
other_cookie = "fedcba9876543210fedcba9876543210"

abbrev clear_crypto : Crypto
clear_crypto = record {
  sha256 = λ b. b;
  nonce_size = 1;
  seal = λ n p d. p;
  unseal = λ n c d. some c;
  marshal = λ s. [];
  uuid_text = λ s. s;
  unseal_seal = λ n p d h. refl;
}

abbrev console : Store
console = record {
  client_id = "console";
  issuer = "https://auth.example";
  tombstone_lifetime = 1_200_000_000;
}

abbrev config : Config
config = record {
  issuer = "https://auth.example";
  client_id = "console";
  public_scheme = "https";
  public_host = "console.example";
  session_max_age = hour;
}

abbrev claims : LogoutClaims
claims = record {
  provider_session_id = "p1";
  token_id = "t1";
  issued_at = 10;
  expires_at = 100;
  nonce = none;
  has_logout_event = true;
}

abbrev provider : Provider
provider = record {
  exchange = λ code verifier. none;
  verify = λ token. none;
  verify_logout = λ token. some (some claims);
}

abbrev codec : Codec
codec = record {
  decode_base64 = λ value. some (codes value);
  encode_base64 = λ bytes. "";
  marshal_transaction = λ t. [];
  unmarshal_transaction = λ b. none;
  parse_origin = λ value. some ("https", "console.example");
}

abbrev up : Site → Bool
up site = true

abbrev clock : Moment → ℕ
clock moment = 20_000_000

abbrev ann_row : SessionRow
ann_row = record {
  id = "s1";
  client_id = "console";
  token_hash = codes cookie;
  issuer = "https://auth.example";
  subject = "ann";
  provider_session_id = "p1";
  id_token_ciphertext = 9 ∷ 7 ∷ [];
  username = "ann";
  email = "ann@example";
  role = "developer";
  created_at = 5;
  expires_at = 30_000_000;
  revoked_at = none;
}

abbrev bob_row : SessionRow
bob_row = record ann_row {
  id = "s2";
  token_hash = codes other_cookie;
  subject = "bob";
  provider_session_id = "p2";
}

abbrev rows : Db
rows = record { sessions = ann_row ∷ bob_row ∷ []; tokens = []; tombstones = [] }

abbrev request : Request
request = record {
  method = "GET";
  session_cookie = some cookie;
  transaction_cookie = none;
  state = "";
  error = "";
  code = "";
  iss = "";
  sid = "";
  origin = "https://console.example";
  referer = "";
  sec_fetch_site = "";
  host = "console.example";
  is_form = true;
  logout_tokens = some ("token" ∷ []);
}

abbrev bob : Session
bob = record {
  id = "s2";
  subject = "bob";
  provider_session_id = "p2";
  id_token = 7 ∷ [];
  username = "ann";
  email = "ann@example";
  role = "developer";
  expires_at = 30_000_000;
}

rows-IsKeyed : IsKeyed rows
rows-IsKeyed = record { sessions = (refl, (refl, tt)); tokens = tt; tombstones = tt }

require_session-backchannel_logout_example : ◌≢◌ {A = String} "p2" "p1"
unfolding store_code run backchannel_logout revoke_claimed require_session current_session
require_session-backchannel_logout_example =
    require_session-backchannel_logout config provider codec clear_crypto console up clock committed
      request rows "token" claims [] up clock
      (record request { session_cookie = some other_cookie }) bob rows-IsKeyed refl refl refl tt
      refl

-- The user signs in again under another token.
abbrev afterwards : List Event
afterwards =
    record {
      crypto = clear_crypto;
      store = console;
      reached = up;
      commit = committed;
      now = 9;
      call = creates (some (9 ∷ [])) bob (99 ∷ []);
    }
    ∷ []

require_session-logout_example :
    require_session config provider codec clear_crypto console up clock request
      (run afterwards (logout config provider codec clear_crypto console up clock request rows).0)
    ≢ ok bob
unfolding store_code logout logout_session same_origin current_session
require_session-logout_example =
    require_session-logout config provider codec clear_crypto console up clock request rows (7 ∷ [])
      up clock request afterwards bob refl refl (λ token e. ((λ same. cc), tt))

abbrev pending : Transaction
pending = record {
  state = "st";
  nonce = "no";
  verifier = "ve";
  return_to = "/home";
  expires_at = 600;
}

abbrev ann_claims : IdentityClaims
ann_claims = record {
  subject = "ann";
  provider_session_id = "p3";
  username = "ann";
  email = "ann@example";
  email_verified = true;
  role = "developer";
  nonce = "no";
}

abbrev issuing : Provider
issuing = record provider {
  exchange = λ code verifier. some (some (7 ∷ []));
  verify = λ token. some (some ann_claims);
}

abbrev sealing : Codec
sealing = record codec { unmarshal_transaction = λ b. some pending }

abbrev returning : Request
returning = record request {
  session_cookie = none;
  transaction_cookie = some "sealed";
  state = "st";
}

callback-return_to_example :
    (value : String) × (p : Transaction) × (returning.transaction_cookie ≡ some value)
    × (open_transaction config issuing sealing clear_crypto console up clock value ≡ some p)
    × (clock checking < p.expires_at * 1000000)
    × (p.state ≡ returning.state)
    × (returning.error ≡ "")
unfolding store_code callback complete_callback accepted_transaction open_transaction
    verified_identity is_complete sign_in replace_previous current_session claimed_session
callback-return_to_example =
    callback-return_to config issuing sealing clear_crypto console up clock committed
      (some (9 ∷ [])) (some (5 ∷ [])) (some "s9") returning rows "/home" refl
