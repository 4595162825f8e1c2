-- ===== src/Github/Tests.antt =====
-- A server of two pages, and instances of the theorems on the loop over pages.
use shauth.Common.{
  ℕ, zero, suc, String, true, some, List, [], ◌∷◌, ◌≡◌, refl, arith, Result, ok, replicate, any,
  ◌==◌, string_eq,
}
use shauth.Github.{
  Team, OrganizationMembership, GithubError, GithubLibrary, teams, is_member, is_team,
  organizations,
}
use shauth.Github.Paging.{joined, is_listed, is_member-joined, organizations-joined}

abbrev plain : GithubLibrary
plain = record { trim_space = λ s. s; equal_fold = λ a b. a == b; endpoint_parses = true }

abbrev core_team : Team
core_team = record { slug = "core"; organization_login = "acme" }

abbrev pages : ℕ → Result GithubError (List Team)
pages zero = ok []
pages (suc zero) = ok (replicate 100 (record { slug = "web"; organization_login = "acme" }))
pages (suc (suc n)) = ok (core_team ∷ [])

abbrev first_page : List Team
first_page = replicate 100 (record { slug = "web"; organization_login = "acme" })

is_member-joined_example :
    (teams plain pages 5 "token"
      ≡ some (ok (joined (λ rows. rows) (first_page ∷ (core_team ∷ []) ∷ []))))
    × (is_member plain pages 5 "token" "acme" "core"
        ≡ some (
            ok (
              any
                (is_team plain "acme" "core")
                (joined (λ rows. rows) (first_page ∷ (core_team ∷ []) ∷ [])))))
is_member-joined_example =
    is_member-joined plain pages (first_page ∷ []) (core_team ∷ []) 5 "token" "acme" "core" refl
      refl (refl, tt) refl (refl, (refl, tt)) (omega arith)

abbrev memberships : ℕ → Result GithubError (List OrganizationMembership)
memberships number = ok (
    record { state = "active"; organization_login = "acme" }
    ∷ record { state = "pending"; organization_login = "other" }
    ∷ [])

organizations-joined_example :
    (logins : List String) × (organizations plain memberships 1 "token" ≡ some (ok logins))
    × ((login : String)
        → any (λ l. l == login) logins
          ≡ any (is_listed plain login) (
              record { state = "active"; organization_login = "acme" }
              ∷ record { state = "pending"; organization_login = "other" }
              ∷ []))
organizations-joined_example =
    organizations-joined plain memberships []
      (record { state = "active"; organization_login = "acme" }
        ∷ record { state = "pending"; organization_login = "other" }
        ∷ [])
      1 "token" refl refl tt refl (refl, tt) (omega arith)
