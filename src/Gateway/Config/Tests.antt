-- ===== src/Gateway/Config/Tests.antt =====
-- A configuration that loads, and the instance of its theorem.
use shauth.Common.{◌*◌, ◌≡◌, String, true, false, some, refl, codes, length}
use shauth.Gateway.Config.{
  Url, Variable, Config, Library, hour, load, required_url, configured_max_age, is_missing,
  is_loopback_url, check, check_urls, configured, refuse, after, is_release, issuer_url_variable,
  public_url_variable, upstream_url_variable, post_logout_url_variable, listen_address,
  client_id_variable, client_secret_variable, database_url_variable, cookie_secret_variable,
  release_revision_variable, allow_insecure_cookie, max_age,
}
use shauth.Gateway.Config.Safety.{IsSafe, load-IsSafe}

abbrev site : Url
site = record {
  scheme = "https";
  host = "auth.example";
  path = "";
  raw_query = "";
  fragment = "";
  has_user = false;
  text = "https://auth.example";
}

abbrev plain : Library
plain = record {
  trim_space = λ s. s;
  parse_request_uri = λ s. some site;
  parse_duration = λ s. some hour;
  hostname = λ u. u.host;
  to_lower = λ s. s;
  trim_brackets = λ s. s;
  has_suffix = λ s t. false;
  is_loopback_address = λ s. false;
  resolve = λ u path. u.text;
  byte_length = λ s. length (codes s);
}

abbrev environment : Variable → String
environment issuer_url_variable = "https://auth.example"
environment public_url_variable = "https://auth.example"
environment upstream_url_variable = "https://auth.example"
environment post_logout_url_variable = "https://auth.example"
environment listen_address = ""
environment client_id_variable = "console"
environment client_secret_variable = "0123456789abcdef0123456789abcdef"
environment database_url_variable = "postgres"
environment cookie_secret_variable = "0123456789abcdef0123456789abcdef"
environment release_revision_variable = "0123456789ab"
environment allow_insecure_cookie = ""
environment max_age = ""

abbrev loaded : Config
loaded = record {
  address = ":4180";
  issuer = site;
  client_id = "console";
  client_secret = "0123456789abcdef0123456789abcdef";
  public_url = site;
  upstream_url = site;
  post_logout_url = site;
  database_url = "postgres";
  cookie_secret = "0123456789abcdef0123456789abcdef";
  session_max_age = 8 * hour;
  release_revision = "0123456789ab";
  insecure_cookie = false;
}

-- A tag is refused, as are eleven digits and an upper-case digit.
no_tags :
    (is_release "v1.2.3" ≡ false)
    × (is_release "0123456789a" ≡ false)
    × (is_release "0123456789AB" ≡ false)
    × (is_release "sha256:0123456789abcdef0123456789abcdef0123456789abcdef0123456789abcdef" ≡ true)
unfolding is_release
no_tags = (refl, refl, refl, refl)

load-IsSafe_example : IsSafe plain loaded
unfolding load required_url configured_max_age is_missing is_loopback_url check check_urls
    configured refuse after is_release
load-IsSafe_example = load-IsSafe plain environment loaded refl
