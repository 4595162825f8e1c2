-- ===== src/Gateway/Config.antt =====
-- The gateway's configuration: internal/gateway/config.go. The environment, URL and duration
-- parsing, and loopback addresses are parameters.
pub mod Safety
mod Tests
use shauth.Common.{
  ℕ, ◌*◌, String, Bool, true, false, not, ◌&&◌, ◌||◌, Option, none, some, List, [], ◌∷◌, ◌≡◌, arith,
  Result, ok, err, leb, ltb, ◌==◌, string_eq, if◌then◌else◌, codes, length, take, drop, all,
  bytes_eq, nat_eq,
}

pub record Url : Type 0 where
  pub scheme : String
  pub host : String
  pub path : String
  pub raw_query : String
  pub fragment : String
  pub has_user : Bool
  pub text : String

pub data Variable : Type 0 where
  issuer_url_variable public_url_variable upstream_url_variable post_logout_url_variable : Variable
  listen_address client_id_variable client_secret_variable database_url_variable : Variable
  cookie_secret_variable : Variable
  release_revision_variable allow_insecure_cookie max_age : Variable

pub record Config : Type 0 where
  pub address : String
  pub issuer : Url
  pub client_id : String
  pub client_secret : String
  pub public_url : Url
  pub upstream_url : Url
  pub post_logout_url : Url
  pub database_url : String
  pub cookie_secret : String
  pub session_max_age : ℕ
  pub release_revision : String
  pub insecure_cookie : Bool

-- A missing variable is one of several: the source reports whichever its map gives first.
pub data Error : Type 0 where
  bad_url : Variable → Error
  bad_max_age missing_variable short_client_secret short_cookie_secret : Error
  mutable_release needs_https needs_loopback bad_post_logout_url : Error
  unsupported_url bad_upstream_scheme : Error

-- `resolve` is ResolveReference with a path, and String.
pub record Library : Type 0 where
  pub trim_space : String → String
  pub parse_request_uri : String → Option Url
  pub parse_duration : String → Option ℕ
  pub hostname : Url → String
  pub to_lower : String → String
  pub trim_brackets : String → String
  pub has_suffix : String → String → Bool
  pub is_loopback_address : String → Bool
  pub resolve : Url → String → String
  pub byte_length : String → ℕ

-- A lowercase hexadecimal digit.
abbrev pub is_hex : ℕ → Bool
is_hex c = leb b'0' c && leb c b'9' || leb b'a' c && leb c b'f'

-- immutableApplicationRelease: 12 to 64 lowercase hexadecimal digits, or 64 of them after `sha256:`.
pub is_release : String → Bool
is_release revision =
    let text = codes revision in
    let digest = drop 7 text in
    leb 12 (length text) && (leb (length text) 64 && all is_hex text)
    || take 7 text == codes "sha256:" && (length digest == 64 && all is_hex digest)

-- Durations are microseconds.
abbrev pub minute : ℕ
minute = 60_000_000

abbrev pub hour : ℕ
hour = 60 * minute

pub is_loopback_url : Library → Url → Bool
is_loopback_url lib url =
    let host = lib.trim_brackets (lib.to_lower (lib.hostname url)) in
    host == "localhost" || (lib.has_suffix host ".localhost" || lib.is_loopback_address host)

pub after : {A B : Type 0} → Result Error A → (A → Result Error B) → Result Error B
after (err e) next = err e
after (ok a) next = next a

-- An early return with an error.
pub refuse : Bool → Error → Result Error Config → Result Error Config
refuse refused e next = if refused then err e else next

module _ (lib : Library) (getenv : Variable → String) where
  pub required_url : Variable → Result Error Url
  required_url name = elim (lib.parse_request_uri (lib.trim_space (getenv name))) [
    | none ↦ err (bad_url name)
    | some url ↦
        if url.scheme == "" || (url.host == "" || (url.has_user || not (url.fragment == "")))
        then err (bad_url name)
        else ok url
  ]

  pub configured_max_age : Result Error ℕ
  configured_max_age =
      let configured = lib.trim_space (getenv max_age) in
      let parsed : Result Error ℕ = elim (lib.parse_duration configured) [
        | none ↦ err bad_max_age
        | some age ↦
            if ltb age (5 * minute) || ltb (30 * (24 * hour)) age then err bad_max_age else ok age
      ] in
      if configured == "" then ok (8 * hour) else parsed

  pub is_missing : Config → Bool
  is_missing c =
      c.client_id == ""
      || (c.client_secret == ""
          || (c.database_url == "" || (c.cookie_secret == "" || c.release_revision == "")))

  pub check_urls : Config → Result Error Config
  check_urls c =
      refuse
        (not (c.post_logout_url.text == lib.resolve c.public_url "/auth/shauth/logout/complete"))
        bad_post_logout_url
        (refuse
          (not (c.issuer.raw_query == "")
            || (not (c.public_url.raw_query == "")
                || (not (c.public_url.path == "") && not (c.public_url.path == "/")
                    || not (c.upstream_url.raw_query == ""))))
          unsupported_url
          (refuse (not (c.upstream_url.scheme == "http") && not (c.upstream_url.scheme == "https"))
            bad_upstream_scheme (ok c)))

  -- The tests in the order of the source.
  pub check : Config → Result Error Config
  unfolding is_missing is_loopback_url
  check c = refuse (is_missing c) missing_variable (
      refuse (ltb (lib.byte_length c.client_secret) 32) short_client_secret (
        refuse (ltb (lib.byte_length c.cookie_secret) 32) short_cookie_secret (
          refuse (not (is_release c.release_revision)) mutable_release (
            refuse
              (not c.insecure_cookie
                && (not (c.issuer.scheme == "https")
                    || (not (c.public_url.scheme == "https")
                        || not (c.post_logout_url.scheme == "https"))))
              needs_https
              (refuse
                (c.insecure_cookie
                  && (not (is_loopback_url lib c.issuer)
                      || (not (is_loopback_url lib c.public_url)
                          || not (is_loopback_url lib c.post_logout_url))))
                needs_loopback (check_urls c))))))

  pub configured : Url → Url → Url → Url → ℕ → Config
  configured issuer public_url upstream_url post_logout_url age = record {
    address =
        let address = lib.trim_space (getenv listen_address) in
        if address == "" then ":4180" else address;
    issuer = issuer;
    client_id = lib.trim_space (getenv client_id_variable);
    client_secret = getenv client_secret_variable;
    public_url = public_url;
    upstream_url = upstream_url;
    post_logout_url = post_logout_url;
    database_url = getenv database_url_variable;
    cookie_secret = getenv cookie_secret_variable;
    session_max_age = age;
    release_revision = lib.trim_space (getenv release_revision_variable);
    insecure_cookie = getenv allow_insecure_cookie == "true";
  }

  pub load : Result Error Config
  unfolding required_url configured_max_age configured
  load = after (required_url issuer_url_variable) λ issuer.
      after (required_url public_url_variable) λ public_url.
        after (required_url upstream_url_variable) λ upstream_url.
          after (required_url post_logout_url_variable) λ post_logout_url.
            after configured_max_age
              λ age. check (configured issuer public_url upstream_url post_logout_url age)
