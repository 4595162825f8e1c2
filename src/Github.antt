-- ===== src/Github.antt =====
-- The GitHub client: internal/github/teams.go. A server is what it answers for each page; the HTTP
-- client, JSON decoding and strings are parameters.
pub mod Paging
mod Tests
use shauth.Common.{
  ℕ, zero, suc, String, Bool, true, false, not, ◌&&◌, ◌||◌, Option, none, some, List, [], ◌∷◌, ◌++◌,
  Result, ok, err, any, keep, map, find_first, length, ltb, ◌==◌, string_eq, if◌then◌else◌,
}

pub record Team : Type 0 where
  pub slug : String
  pub organization_login : String

pub record OrganizationMembership : Type 0 where
  pub state : String
  pub organization_login : String

pub record Email : Type 0 where
  pub email : String
  pub primary : Bool
  pub verified : Bool

pub data GithubError : Type 0 where
  empty_token bad_endpoint request_failed bad_status undecodable no_primary_email : GithubError

pub record GithubLibrary : Type 0 where
  pub trim_space : String → String
  pub equal_fold : String → String → Bool
  pub endpoint_parses : Bool

abbrev pub page_size : ℕ
page_size = 100

module _ {A B : Type 0} where
  -- The loop over the pages, on fuel: it has no result when the fuel runs out. A page shorter than
  -- the page size is the last.
  unfoldable pub read_pages :
      (List A → List B)
      → (ℕ → Result GithubError (List A))
      → ℕ
      → ℕ
      → List B
      → Option (Result GithubError (List B))
  read_pages select page zero number result = none
  read_pages select page (suc fuel) number result = elim (page number) [
    | err e ↦ some (err e)
    | ok rows ↦
        let rest = read_pages select page fuel (suc number) (result ++ select rows) in
        if ltb (length rows) page_size then some (ok (result ++ select rows)) else rest
  ]

module _ (lib : GithubLibrary) where
  unfoldable pub guarded :
      {B : Type 0}
      → String
      → Option (Result GithubError (List B))
      → Option (Result GithubError (List B))
  guarded token pages =
      if lib.trim_space token == ""
      then some (err empty_token)
      else if not lib.endpoint_parses
      then some (err bad_endpoint)
      else pages

  unfoldable pub teams :
      (ℕ → Result GithubError (List Team)) → ℕ → String → Option (Result GithubError (List Team))
  unfolding guarded
  teams page fuel token = guarded token (read_pages (λ rows. rows) page fuel 1 [])

  -- Only accepted memberships, of organizations with a name.
  unfoldable pub active_logins : List OrganizationMembership → List String
  active_logins memberships =
      map (λ (m : OrganizationMembership). lib.trim_space m.organization_login)
        (keep (λ m. m.state == "active" && not (lib.trim_space m.organization_login == ""))
          memberships)

  unfoldable pub organizations :
      (ℕ → Result GithubError (List OrganizationMembership))
      → ℕ
      → String
      → Option (Result GithubError (List String))
  unfolding guarded
  organizations page fuel token = guarded token (read_pages active_logins page fuel 1 [])

  abbrev pub is_team : String → String → Team → Bool
  is_team organization slug team =
      lib.equal_fold team.organization_login organization && lib.equal_fold team.slug slug

  unfoldable pub is_member :
      (ℕ → Result GithubError (List Team))
      → ℕ
      → String
      → String
      → String
      → Option (Result GithubError Bool)
  unfolding teams
  is_member page fuel token organization slug = elim (teams page fuel token) [
    | none ↦ none
    | some (err e) ↦ some (err e)
    | some (ok found) ↦ some (ok (any (is_team organization slug) found))
  ]

  unfoldable pub primary_verified_email :
      Result GithubError (List Email) → Result GithubError String
  primary_verified_email (err e) = err e
  primary_verified_email (ok emails) =
      elim (find_first (λ e. e.primary && (e.verified && not (lib.trim_space e.email == "")))
        emails) [ none ↦ err no_primary_email | some e ↦ ok e.email ]
