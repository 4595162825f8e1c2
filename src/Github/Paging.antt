-- ===== src/Github/Paging.antt =====
-- Teams, Organizations and IsMember of internal/github/teams.go: the loop over the pages ends, with
-- every row of every page.
use shauth.Common.{
  ℕ, zero, suc, Bool, not, ◌&&◌, ◌||◌, eq_iff, sym, ◌<◌, String, true, false, Option, some, List,
  [], ◌∷◌, ◌++◌, ◌≡◌, refl, ◌∙◌, ap, arith, Result, ok, err, any, All, length, ltb, ◌==◌, string_eq,
  if◌then◌else◌,
}
use shauth.Github.{
  Team, OrganizationMembership, GithubError, GithubLibrary, page_size, read_pages, guarded, teams,
  active_logins, organizations, is_team, is_member,
}

module _ {A : Type 0} where
  -- The server answers the pages from `number` on.
  abbrev pub Serves : (ℕ → Result GithubError (List A)) → ℕ → List (List A) → Type 0
  Serves page number [] = Unit
  Serves page number (rows ∷ more) = (page number ≡ ok rows) × Serves page (suc number) more

  abbrev pub IsFull : List A → Type 0
  IsFull rows = ltb (length rows) page_size ≡ false

  abbrev pub joined : {B : Type 0} → (List A → List B) → List (List A) → List B
  joined select [] = []
  joined select (rows ∷ more) = select rows ++ joined select more

append_assoc : {B : Type 0} (xs ys zs : List B) → (xs ++ ys) ++ zs ≡ xs ++ (ys ++ zs)
append_assoc [] ys zs = refl
append_assoc (x ∷ xs) ys zs = ap (λ l. x ∷ l) (append_assoc xs ys zs)

append_nil : {B : Type 0} (xs : List B) → xs ++ [] ≡ xs
append_nil [] = refl
append_nil (x ∷ xs) = ap (λ l. x ∷ l) (append_nil xs)

any-append {ℓ} :
    {A : Type ℓ} (p : A → Bool) (xs ys : List A) → any p (xs ++ ys) ≡ any p xs || any p ys
any-append p [] ys = refl
any-append p (x ∷ xs) ys = ground (arith, any-append p xs ys)

-- What the loop does with the answer for a page.
abbrev continued :
    {A B : Type 0}
    → (List A → List B)
    → (ℕ → Result GithubError (List A))
    → ℕ
    → ℕ
    → List B
    → Result GithubError (List A)
    → Option (Result GithubError (List B))
continued select page fuel number result (err e) = some (err e)
continued select page fuel number result (ok rows) =
    if ltb (length rows) page_size
    then some (ok (result ++ select rows))
    else read_pages select page fuel (suc number) (result ++ select rows)

read_pages-continued :
    {A B : Type 0} (select : List A → List B) (page : ℕ → Result GithubError (List A))
    (fuel number : ℕ) (result : List B) (rows : List A)
    → page number ≡ ok rows
    → read_pages select page (suc fuel) number result
      ≡ continued select page fuel number result (ok rows)
unfolding read_pages
read_pages-continued {A} {B} select page fuel number result rows e =
    same (page number) ∙ ap (continued select page fuel number result) e
  where
    same :
        (r : Result GithubError (List A))
        → (let out : Option (Result GithubError (List B)) = elim r [
          | err e ↦ some (err e)
          | ok rows ↦
              if ltb (length rows) page_size
              then some (ok (result ++ select rows))
              else read_pages select page fuel (suc number) (result ++ select rows)
        ] in
            out ≡ continued select page fuel number result r)
    same (err e) = refl
    same (ok rows) = refl

read_pages-joined :
    {A B : Type 0} (select : List A → List B) (page : ℕ → Result GithubError (List A))
    (full : List (List A)) (last : List A) (fuel number : ℕ) (result : List B)
    → All IsFull full
    → ltb (length last) page_size ≡ true
    → Serves page number (full ++ (last ∷ []))
    → length full < fuel
    → read_pages select page fuel number result
      ≡ some (ok (result ++ joined select (full ++ (last ∷ []))))
read_pages-joined select page full last zero number result filled short served enough =
    absurd (omega (arith, enough))
read_pages-joined select page [] last (suc fuel) number result filled short served enough =
    read_pages-continued select page fuel number result last served.0
    ∙ rw (short, append_nil (select last))
read_pages-joined select page (rows ∷ more) last (suc fuel) number result filled short served
      enough =
    read_pages-continued select page fuel number result rows served.0
    ∙ rw (filled.0) (
        read_pages-joined select page more last fuel (suc number) (result ++ select rows) filled.1
          short served.1 (omega (arith, enough))
        ∙ ap (λ l. some (ok l))
            (append_assoc result (select rows) (joined select (more ++ (last ∷ [])))))

module _ (lib : GithubLibrary) where
  teams-joined :
      (page : ℕ → Result GithubError (List Team)) (full : List (List Team)) (last : List Team)
      (fuel : ℕ) (token : String)
      → (lib.trim_space token == "") ≡ false
      → lib.endpoint_parses ≡ true
      → All IsFull full
      → ltb (length last) page_size ≡ true
      → Serves page 1 (full ++ (last ∷ []))
      → length full < fuel
      → teams lib page fuel token ≡ some (ok (joined (λ rows. rows) (full ++ (last ∷ []))))
  unfolding teams guarded
  teams-joined page full last fuel token named parsed filled short served enough =
      rw (named, parsed)
        (read_pages-joined (λ rows. rows) page full last fuel 1 [] filled short served enough)

  is_member-found :
      (page : ℕ → Result GithubError (List Team)) (fuel : ℕ) (token organization slug : String)
      (found : List Team)
      → teams lib page fuel token ≡ some (ok found)
      → is_member lib page fuel token organization slug
        ≡ some (ok (any (is_team lib organization slug) found))
  unfolding is_member
  is_member-found page fuel token organization slug found e = rw (is_member, e)

  -- Where the server answers some full pages and then a short one, and the token is not blank and
  -- the endpoint parses: the loop of Teams ends within as many requests as there are pages, with the
  -- teams of all of them, and IsMember is true exactly when a team on
  -- one of the pages has the organization's login and the slug, case aside.
  pub is_member-joined :
      (page : ℕ → Result GithubError (List Team)) (full : List (List Team)) (last : List Team)
      (fuel : ℕ) (token organization slug : String)
      → (lib.trim_space token == "") ≡ false
      → lib.endpoint_parses ≡ true
      → All IsFull full
      → ltb (length last) page_size ≡ true
      → Serves page 1 (full ++ (last ∷ []))
      → length full < fuel
      → (teams lib page fuel token ≡ some (ok (joined (λ rows. rows) (full ++ (last ∷ [])))))
        × (is_member lib page fuel token organization slug
            ≡ some (
                ok (
                  any
                    (λ (t : Team).
                      lib.equal_fold t.organization_login organization
                      && lib.equal_fold t.slug slug)
                    (joined (λ rows. rows) (full ++ (last ∷ []))))))
  is_member-joined page full last fuel token organization slug named parsed filled short served
        enough =
      let found = teams-joined page full last fuel token named parsed filled short served enough in
      (found, is_member-found page fuel token organization slug _ found)

  -- The membership is active and has this login, which is not blank.
  abbrev pub is_listed : String → OrganizationMembership → Bool
  is_listed login m =
      m.state == "active" && (lib.trim_space m.organization_login == login && not (login == ""))

  active_logins-listed :
      (login : String) (rows : List OrganizationMembership)
      → any (λ l. l == login) (active_logins lib rows) ≡ any (is_listed login) rows
  unfolding active_logins
  active_logins-listed login [] = refl
  active_logins-listed login (m ∷ ms) = ground (
    arith,
    active_logins-listed login ms,
    eq_iff (lib.trim_space m.organization_login) login,
    eq_iff (lib.trim_space m.organization_login) "",
    eq_iff login "",
  )

  joined-listed :
      (login : String) (pages : List (List OrganizationMembership))
      → any (λ l. l == login) (joined (active_logins lib) pages)
        ≡ any (is_listed login) (joined (λ rows. rows) pages)
  joined-listed login [] = refl
  joined-listed login (rows ∷ more) =
      any-append (λ l. l == login) (active_logins lib rows) (joined (active_logins lib) more)
      ∙ (rw (active_logins-listed login rows, joined-listed login more) refl
          ∙ sym (any-append (is_listed login) rows (joined (λ rows. rows) more)))

  -- Where the server answers some full pages and then a short one, and the token is not blank and
  -- the endpoint parses: the loop of Organizations ends within as many requests as there are pages,
  -- and the result has exactly the logins of the active memberships on all of them, trimmed and not
  -- blank.
  pub organizations-joined :
      (page : ℕ → Result GithubError (List OrganizationMembership))
      (full : List (List OrganizationMembership)) (last : List OrganizationMembership) (fuel : ℕ)
      (token : String)
      → (lib.trim_space token == "") ≡ false
      → lib.endpoint_parses ≡ true
      → All IsFull full
      → ltb (length last) page_size ≡ true
      → Serves page 1 (full ++ (last ∷ []))
      → length full < fuel
      → (logins : List String) × (organizations lib page fuel token ≡ some (ok logins))
        × ((login : String)
            → any (λ l. l == login) logins
              ≡ any (is_listed login) (joined (λ rows. rows) (full ++ (last ∷ []))))
  unfolding organizations guarded active_logins
  organizations-joined page full last fuel token named parsed filled short served enough = (
    joined (active_logins lib) (full ++ (last ∷ [])),
    rw (named, parsed)
        (read_pages-joined (active_logins lib) page full last fuel 1 [] filled short served enough),
    (λ login. joined-listed login (full ++ (last ∷ []))),
  )
