-- ===== src/Gateway/Server.antt =====
-- The gateway's own endpoints: internal/gateway/server.go. A request is what the handlers read of it.
-- The OpenID Connect client, URL parsing, base64 and JSON are parameters; each reading of the clock
-- has a name.
pub mod Access
pub mod Logout
pub mod SignIn
mod Tests
use shauth.Common.{
  ◌/◌, ℕ, ◌+◌, ◌-◌, ◌*◌, String, Bool, true, false, not, ◌&&◌, ◌||◌, Option, none, some, List, [],
  ◌∷◌, ◌++◌, Result, ok, err, Commit, length, take, drop, all, codes, leb, ltb, ◌==◌, nat_eq,
  string_eq, bytes_eq, is_none, if◌then◌else◌,
}
use shauth.Gateway.Store.{
  Bytes, Session, Db, Crypto, Store, Site, Error, create, find, revoke_browser_token,
  revoke_frontchannel_session, revoke_provider_session, session_not_found, token_replayed,
}

pub record Transaction : Type 0 where
  pub state : String
  pub nonce : String
  pub verifier : String
  pub return_to : String
  pub expires_at : ℕ

pub record IdentityClaims : Type 0 where
  pub subject : String
  pub provider_session_id : String
  pub username : String
  pub email : String
  pub email_verified : Bool
  pub role : String
  pub nonce : String

-- `has_logout_event` is the answer of validLogoutEvent on the events; times are in seconds.
pub record LogoutClaims : Type 0 where
  pub provider_session_id : String
  pub token_id : String
  pub issued_at : ℕ
  pub expires_at : ℕ
  pub nonce : Option String
  pub has_logout_event : Bool

pub record Config : Type 0 where
  pub issuer : String
  pub client_id : String
  pub public_scheme : String
  pub public_host : String
  pub session_max_age : ℕ

-- A verified ID token whose claims do not decode gives `some none`.
pub record Provider : Type 0 where
  pub exchange : String → String → Option (Option Bytes)
  pub verify : Bytes → Option (Option IdentityClaims)
  pub verify_logout : String → Option (Option LogoutClaims)

pub record Codec : Type 0 where
  pub decode_base64 : String → Option Bytes
  pub encode_base64 : Bytes → String
  pub marshal_transaction : Transaction → Bytes
  pub unmarshal_transaction : Bytes → Option Transaction
  pub parse_origin : String → Option (String × String)

pub record Request : Type 0 where
  pub method : String
  pub session_cookie : Option String
  pub transaction_cookie : Option String
  pub state : String
  pub error : String
  pub code : String
  pub iss : String
  pub sid : String
  pub origin : String
  pub referer : String
  pub sec_fetch_site : String
  pub host : String
  pub is_form : Bool
  pub logout_tokens : Option (List String)

pub data CookieChange : Type 0 where
  clears_session clears_transaction : CookieChange
  sets_session sets_transaction : String → ℕ → CookieChange

pub data Target : Type 0 where
  signed_out provider_login issuer_logout gateway_login : Target
  end_session : Bytes → Target
  return_to : String → Target

pub record Response : Type 0 where
  pub status : ℕ
  pub location : Option Target
  pub cookies : List CookieChange

pub data Moment : Type 0 where
  checking finding revoking creating : Moment

pub data SessionError : Type 0 where
  no_session store_failed : SessionError

abbrev pub answer : ℕ → List CookieChange → Response
answer status cookies = record { status = status; location = none; cookies = cookies }

abbrev pub redirect : ℕ → Target → List CookieChange → Response
redirect status target cookies = record {
  status = status;
  location = some target;
  cookies = cookies;
}

-- No session, a store that cannot be read, or a session and its token.
abbrev pub found_session : Bytes → Result Error Session → Result SessionError (Session × Bytes)
found_session token (ok s) = ok (s, token)
found_session token (err session_not_found) = err no_session
found_session token (err _) = err store_failed

abbrev is_id_character : ℕ → Bool
is_id_character c =
    leb b'a' c && leb c b'z'
    || (leb b'A' c && leb c b'Z'
        || (leb b'0' c && leb c b'9' || (c == b'-' || (c == b'_' || c == b'.'))))

-- A parsed URL of a return address; `request_uri` is what RequestURI gives.
pub record ReturnTarget : Type 0 where
  pub path : String
  pub is_absolute : Bool
  pub has_host : Bool
  pub request_uri : String

abbrev has_backslash : List ℕ → Bool
has_backslash [] = false
has_backslash (c ∷ cs) = let rest = has_backslash cs in c == 92 || rest

-- A path from the root that no browser reads as another host.
abbrev is_rooted : List ℕ → Bool
is_rooted [] = false
is_rooted (a ∷ []) = a == b'/'
is_rooted (a ∷ b ∷ cs) = a == b'/' && not (b == b'/')

unfoldable pub relative_return_to : Option ReturnTarget → String
relative_return_to none = "/"
relative_return_to (some t) =
    if not (is_rooted (codes t.path))
      || (has_backslash (codes t.path) || (t.is_absolute || t.has_host))
    then "/"
    else t.request_uri

-- A character outside ASCII fails the test, so the length in characters is the length in bytes of
-- every identifier that passes it.
unfoldable pub is_valid_provider_session_id : String → Bool
is_valid_provider_session_id sid =
    not (sid == "") && (leb (length (codes sid)) 128 && all is_id_character (codes sid))

unfoldable pub is_complete : IdentityClaims → Transaction → Bool
is_complete c pending =
    not (c.subject == "")
    && (not (c.provider_session_id == "")
        && (not (c.username == "")
            && (not (c.email == "")
                && (c.email_verified
                    && ((c.role == "developer" || c.role == "admin")
                        && c.nonce == pending.nonce)))))

-- The token of a cookie: 32 bytes.
abbrev pub token_of_cookie : Codec → Option String → Option Bytes
token_of_cookie codec none = none
token_of_cookie codec (some value) = elim (codec.decode_base64 value) [
  | none ↦ none
  | some token ↦ if length token == 32 then some token else none
]

-- The issuing time of a logout token in microseconds is from five minutes ago to five seconds ahead.
abbrev second : ℕ
second = 1000000

abbrev pub is_recent : ℕ → ℕ → Bool
is_recent now issued_at =
    leb (issued_at * second) (now + 5 * second) && leb now (issued_at * second + 300 * second)

abbrev pub has_logout_claims : LogoutClaims → Bool
has_logout_claims c =
    not (c.provider_session_id == "")
    && (not (c.token_id == "")
        && (not (c.issued_at == 0) && (not (c.expires_at == 0) && is_none c.nonce)))

module _ (config : Config) (provider : Provider) (codec : Codec) (crypto : Crypto) (store : Store)
    (reached : Site → Bool) (now : Moment → ℕ) where
  pub current_session : Request → Db → Result SessionError (Session × Bytes)
  current_session request db = elim (token_of_cookie codec request.session_cookie) [
    | none ↦ err no_session
    | some token ↦ found_session token (find crypto store reached token (now finding) db)
  ]

  -- What happens to a request for the application: the gateway answers it, or proxies it for a
  -- session.
  pub require_session : Request → Db → Result Response Session
  unfolding current_session
  require_session request db = elim (current_session request db) [
    | ok (s, token) ↦ ok s
    | err store_failed ↦ err (answer 503 [])
    | err no_session ↦
        if request.method == "GET" || request.method == "HEAD"
        then elim request.session_cookie [
          | some value ↦ err (redirect 302 signed_out (clears_session ∷ []))
          | none ↦ err (redirect 302 gateway_login [])
        ]
        else err (answer 401 [])
  ]

  pub session : Request → Db → Result Response Session
  unfolding current_session
  session request db = elim (current_session request db) [
    | ok (s, token) ↦ ok s
    | err store_failed ↦ err (answer 503 [])
    | err no_session ↦ err (answer 401 [])
  ]

  pub same_origin : Request → Bool
  same_origin request =
      let value =
        if request.origin == "" || request.origin == "null"
        then request.referer
        else request.origin in
      let stated : Bool = elim (codec.parse_origin value) [
        | none ↦ false
        | some (scheme, host) ↦ scheme == config.public_scheme && host == config.public_host
      ] in
      stated || request.sec_fetch_site == "same-origin" && request.host == config.public_host

  pub logout_session : Session → Bytes → Db → Db × Response
  logout_session s token db =
      let (db', revoked) = revoke_browser_token crypto store reached token (now revoking) db in
      elim revoked [
        | err e ↦ (db', answer 500 [])
        | ok u ↦ (db', redirect 303 (end_session s.id_token) (clears_session ∷ []))
      ]

  pub logout : Request → Db → Db × Response
  unfolding current_session same_origin logout_session
  logout request db =
      if same_origin request
      then elim (current_session request db) [
        | err no_session ↦ (db, redirect 303 issuer_logout (clears_session ∷ []))
        | err store_failed ↦ (db, answer 503 [])
        | ok (s, token) ↦ logout_session s token db
      ]
      else (db, answer 403 [])

  pub frontchannel_logout : Commit → Request → Db → Db × Response
  unfolding current_session
  frontchannel_logout commit request db =
      if not (request.iss == config.issuer) || not (is_valid_provider_session_id request.sid)
      then (db, answer 200 [])
      else let (db', revoked) =
          revoke_frontchannel_session store reached commit request.sid (now revoking) db in
        elim revoked [
          | err e ↦ (db', answer 500 [])
          | ok u ↦ elim (current_session request db) [
            | ok (s, token) ↦
                if request.sid == s.provider_session_id
                then (db', answer 200 (clears_session ∷ []))
                else (db', answer 200 [])
            | err e ↦ (db', answer 200 [])
          ]
        ]

  pub revoke_claimed : Commit → LogoutClaims → Db → Db × Response
  revoke_claimed commit claims db =
      if not (has_logout_claims claims)
        || (not claims.has_logout_event
            || (not (is_recent (now checking) claims.issued_at)
                || ltb (claims.expires_at * second) (now checking)))
      then (db, answer 400 [])
      else let (db', revoked) =
          revoke_provider_session store reached commit claims.provider_session_id claims.token_id
            (claims.expires_at * second) (now revoking) db in
        elim revoked [
          | err token_replayed ↦ (db', answer 400 [])
          | err e ↦ (db', answer 500 [])
          | ok u ↦ (db', answer 200 [])
        ]

  pub backchannel_logout : Commit → Request → Db → Db × Response
  unfolding revoke_claimed
  backchannel_logout commit request db =
      if request.is_form
      then elim request.logout_tokens [
        | some (token ∷ []) ↦ elim (provider.verify_logout token) [
          | some (some claims) ↦ revoke_claimed commit claims db
          | _ ↦ (db, answer 400 [])
        ]
        | _ ↦ (db, answer 400 [])
      ]
      else (db, answer 415 [])

  -- The transaction cookie: a nonce, then the sealed transaction, for this client.
  pub open_transaction : String → Option Transaction
  open_transaction value = elim (codec.decode_base64 value) [
    | none ↦ none
    | some sealed ↦
        if ltb (length sealed) crypto.nonce_size
        then none
        else elim (crypto.unseal (take crypto.nonce_size sealed) (drop crypto.nonce_size sealed)
            (codes config.client_id)) [
              | none ↦ none
              | some plain ↦ codec.unmarshal_transaction plain
            ]
  ]

  pub seal_transaction : Bytes → Transaction → String
  seal_transaction nonce pending =
      codec.encode_base64
        (nonce ++ crypto.seal nonce (codec.marshal_transaction pending) (codes config.client_id))

  -- A pending transaction that the callback's state answers in time.
  pub accepted_transaction : Request → String → Option Transaction
  unfolding open_transaction
  accepted_transaction request value = elim (open_transaction value) [
    | none ↦ none
    | some pending ↦
        if ltb (now checking) (pending.expires_at * second) && pending.state == request.state
        then some pending
        else none
  ]

  -- The ID token and its claims, or the status of the refusal.
  pub verified_identity : Request → Transaction → Result ℕ (Bytes × IdentityClaims)
  verified_identity request pending = elim (provider.exchange request.code pending.verifier) [
    | none ↦ err 502
    | some none ↦ err 502
    | some (some []) ↦ err 502
    | some (some (c ∷ cs)) ↦ elim (provider.verify (c ∷ cs)) [
      | none ↦ err 401
      | some none ↦ err 401
      | some (some claims) ↦ if is_complete claims pending then ok (c ∷ cs, claims) else err 401
    ]
  ]

  -- A new sign-in replaces the session that the browser had.
  pub replace_previous : Request → Db → Db × Result Error (Unit {0})
  unfolding current_session
  replace_previous request db = elim (current_session request db) [
    | ok (s, token) ↦ revoke_browser_token crypto store reached token (now revoking) db
    | err e ↦ (db, ok tt)
  ]

  pub claimed_session : Bytes → IdentityClaims → String → Session
  claimed_session id_token claims id = record {
    id = id;
    subject = claims.subject;
    provider_session_id = claims.provider_session_id;
    id_token = id_token;
    username = claims.username;
    email = claims.email;
    role = claims.role;
    expires_at = now creating + config.session_max_age;
  }

  pub sign_in : Commit → Option Bytes → Bytes → Session → String → Request → Db → Db × Response
  unfolding replace_previous
  sign_in commit nonce token s target request db =
      let (db', replaced) = replace_previous request db in
      elim replaced [
        | err e ↦ (db', answer 503 (clears_transaction ∷ []))
        | ok u ↦
            let (db'', created) =
              create crypto store reached commit nonce s token (now creating) db' in
            elim created [
              | err e ↦ (db'', answer 500 (clears_transaction ∷ []))
              | ok u ↦ (
                db'',
                redirect 303 (return_to target) (
                    clears_transaction
                    ∷ sets_session (codec.encode_base64 token) config.session_max_age
                    ∷ []),
              )
            ]
      ]

  -- A verified sign-in needs 32 random bytes and a random identifier.
  pub complete_callback :
      Commit
      → Option Bytes
      → Option Bytes
      → Option String
      → Request
      → Transaction
      → Db
      → Db × Response
  unfolding verified_identity claimed_session sign_in
  complete_callback commit nonce random id request pending db =
      elim (verified_identity request pending) [
        | err status ↦ (db, answer status (clears_transaction ∷ []))
        | ok (id_token, claims) ↦ elim random [
          | none ↦ (db, answer 500 (clears_transaction ∷ []))
          | some token ↦ elim id [
            | none ↦ (db, answer 500 (clears_transaction ∷ []))
            | some session_id ↦
                sign_in commit nonce token (claimed_session id_token claims session_id)
                  pending.return_to request db
          ]
        ]
      ]

  pub callback : Commit → Option Bytes → Option Bytes → Option String → Request → Db → Db × Response
  unfolding accepted_transaction complete_callback
  callback commit nonce random id request db = elim request.transaction_cookie [
    | none ↦ (db, answer 400 [])
    | some value ↦ elim (accepted_transaction request value) [
      | none ↦ (db, answer 400 (clears_transaction ∷ []))
      | some pending ↦
          if request.error == ""
          then complete_callback commit nonce random id request pending db
          else (db, redirect 303 signed_out (clears_transaction ∷ []))
    ]
  ]

  -- GET /auth/login: the state, the nonce and the verifier are the random source's; `target` is what
  -- url.Parse gives for the return address, with its path, its host and whether it is absolute.
  pub login : Option String → Option String → String → Option Bytes → Option ReturnTarget → Response
  unfolding seal_transaction
  login (some state) (some nonce) verifier (some seal_nonce) target = redirect 302 provider_login (
      sets_transaction
        (seal_transaction seal_nonce (record {
          state = state;
          nonce = nonce;
          verifier = verifier;
          return_to = relative_return_to target;
          expires_at = now checking / second + 600;
        }))
        (600 * second)
      ∷ [])
  login _ _ _ _ _ = answer 500 []
