-- ===== src/App/TokenHook.antt =====
-- The answer to Ory Hydra before it issues a token: internal/app/token_hook.go, with
-- oidcIdentityClaims and bearerTokenMatches of internal/app/app.go. The database is that of the
-- identity store.
pub mod Granted
mod Tests
use shauth.Common.{
  ℕ, String, Bool, true, false, not, ◌&&◌, ◌||◌, Option, none, some, List, [], ◌∷◌, Result, ok, err,
  ltb, ◌==◌, string_eq, if◌then◌else◌, is_none, statement, all, length,
}
use shauth.Identity.Rows.{User, Db, Site, Error, Library, no_hydra_session, user_not_found}
use shauth.Identity.Sessions.{provider_session_account, user_by_id}

-- A claim: a text, a truth value, or any other JSON, which is carried over as it is.
pub data Claim : Type 0 where
  text : String → Claim
  flag : Bool → Claim
  other : String → Claim

pub record Entry : Type 0 where
  pub name : String
  pub value : Claim

pub record HookRequest : Type 0 where
  pub claims_subject : String
  pub id_token_subject : String
  pub id_token_extra : List Entry
  pub session_extra : List Entry
  pub grant_types : List String

pub record Tokens : Type 0 where
  pub access_token : List Entry
  pub id_token : List Entry

pub data Answer : Type 0 where
  refuse : ℕ → Answer
  no_content : Answer
  issue : Tokens → Answer

-- Slices of a header, strings.EqualFold, and the pattern of account identifiers.
pub record HookLibrary : Type 0 where
  pub byte_length : String → ℕ
  pub before : String → ℕ → String
  pub from : String → ℕ → String
  pub equal_fold : String → String → Bool
  pub is_uuid : String → Bool

pub data GrantKind : Type 0 where
  account client_credentials neither : GrantKind

abbrev is_account_grant : String → Bool
is_account_grant grant = grant == "authorization_code" || grant == "refresh_token"

unfoldable pub token_hook_grant : List String → GrantKind
token_hook_grant [] = neither
token_hook_grant (grant ∷ more) =
    if all is_account_grant (grant ∷ more)
    then account
    else if ltb (length more) 1 && grant == "client_credentials"
    then client_credentials
    else neither

unfoldable pub lookup : String → List Entry → Option Claim
lookup name [] = none
lookup name (e ∷ es) = if e.name == name then some e.value else lookup name es

-- The `sid` claim, where it is a text.
abbrev pub session_of : HookRequest → String
session_of request = elim (lookup "sid" request.id_token_extra) [ some (text sid) ↦ sid | _ ↦ "" ]

unfoldable pub put : Entry → List Entry → List Entry
put new [] = new ∷ []
put new (e ∷ es) = if e.name == new.name then new ∷ es else e ∷ put new es

unfoldable pub copy_claims : List Entry → List Entry → List Entry
unfolding put
copy_claims [] into = into
copy_claims (e ∷ es) into = copy_claims es (put e into)

abbrev pub oidc_identity_claims : User → List Entry
oidc_identity_claims u =
    record { name = "sub"; value = text u.id }
    ∷ record { name = "email"; value = text u.email }
    ∷ record { name = "email_verified"; value = flag u.email_verified }
    ∷ record { name = "preferred_username"; value = text u.username }
    ∷ record { name = "role"; value = text u.role }
    ∷ []

abbrev pub subject_of : HookRequest → String
subject_of request =
    if request.claims_subject == "" then request.id_token_subject else request.claims_subject

abbrev is_no_session : Error → Bool
is_no_session e = elim e [ no_hydra_session ↦ true | _ ↦ false ]

abbrev is_no_user : Error → Bool
is_no_user e = elim e [ user_not_found ↦ true | _ ↦ false ]

module _ (hook : HookLibrary) (lib : Library) (reached : Site → Bool) where
  abbrev pub bearer_token_matches : List String → String → Bool
  bearer_token_matches (value ∷ []) expected =
      not (ltb (hook.byte_length value) 7)
      && (hook.equal_fold (hook.before value 7) "bearer " && hook.from value 7 == expected)
  bearer_token_matches _ expected = false

  pub with_account : HookRequest → Result Error User → Answer
  with_account request (err e) = if is_no_user e then refuse 403 else refuse 500
  with_account request (ok u) =
      if not (is_none u.disabled_at)
      then refuse 403
      else issue (record {
        access_token = copy_claims (oidc_identity_claims u) request.session_extra;
        id_token = copy_claims (oidc_identity_claims u) request.id_token_extra;
      })

  pub with_session : HookRequest → Db → Result Error (String × Bool) → Answer
  unfolding with_account
  with_session request db (err e) = if is_no_session e then refuse 403 else refuse 500
  with_session request db (ok (owner, in_force)) =
      if not in_force || not (owner == subject_of request)
      then refuse 403
      else with_account request (statement (user_by_id lib reached (subject_of request)) db).1

  pub for_account : HookRequest → Db → Answer
  unfolding with_session
  for_account request db =
      if not (hook.is_uuid (subject_of request))
      then refuse 403
      else if session_of request == ""
      then refuse 403
      else with_session request db
          (statement (provider_session_account lib reached (session_of request)) db).1

  pub for_grant : GrantKind → HookRequest → Db → Answer
  unfolding for_account
  for_grant client_credentials request db = no_content
  for_grant neither request db = refuse 403
  for_grant account request db = for_account request db

  pub decoded : Option HookRequest → Db → Answer
  unfolding for_grant
  decoded none db = refuse 400
  decoded (some request) db = for_grant (token_hook_grant request.grant_types) request db

  -- The Authorization headers, the configured token, and the decoded body.
  pub hydra_token_hook : List String → String → Option HookRequest → Db → Answer
  unfolding decoded
  hydra_token_hook authorization expected request db =
      if bearer_token_matches authorization expected then decoded request db else refuse 401
