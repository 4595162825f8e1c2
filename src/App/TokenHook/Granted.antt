-- ===== src/App/TokenHook/Granted.antt =====
-- internal/app/token_hook.go: what holds of an account and of its session when a token is issued.
use mathlib.Core.Bool.{false≢true}
use shauth.Common.{
  ℕ, String, Bool, true, false, not, ◌||◌, Option, some, List, [], ◌∷◌, ◌≡◌, ◌≢◌, refl, sym, ◌∙◌,
  ap, subst, arith, Result, ok, err, Commit, query, ◌>>=◌, statement, find_first, find_first_sound,
  ◌==◌, string_eq, is_none, if◌then◌else◌, >>=-eq-ok, query-eq-ok, Bool-cases, inl, inr, All,
  All-find_first, eq_iff,
}
use shauth.Identity.Rows.{User, Db, Site, Error, unreachable, Library}
use shauth.Identity.Sessions.{
  provider_session_account, user_by_id, find_account, expect, disable_user,
}
use shauth.Identity.Sessions.Current.{expect-eq-ok}
use shauth.Identity.Sessions.Disabled.{disable_user-stays, IsShut}
use shauth.Identity.Sessions.History.{Event, run, enables}
use shauth.App.TokenHook.{
  Claim, text, flag, Entry, HookRequest, Tokens, refuse, issue, HookLibrary, GrantKind, account,
  client_credentials, neither, token_hook_grant, lookup, put, copy_claims, oidc_identity_claims,
  subject_of, session_of, with_account, with_session, for_account, for_grant, decoded,
  hydra_token_hook, bearer_token_matches,
}

-- A claim that is put is found, and another claim stays.
lookup-put :
    (name : String) (new : Entry) (es : List Entry)
    → lookup name (put new es) ≡ (if new.name == name then some new.value else lookup name es)
unfolding lookup put
lookup-put name new [] = refl
lookup-put name new (e ∷ es) = elim (Bool-cases (e.name == new.name)) [
  | inl hit ↦ ground (arith, hit, eq_iff e.name new.name, eq_iff e.name name, eq_iff new.name name)
  | inr miss ↦ ground (
    arith,
    miss,
    lookup-put name new es,
    eq_iff e.name new.name,
    eq_iff e.name name,
    eq_iff new.name name,
  )
]

lookup-role :
    (u : User) (es : List Entry)
    → (lookup "role" (copy_claims (oidc_identity_claims u) es) ≡ some (text u.role))
      × (lookup "sub" (copy_claims (oidc_identity_claims u) es) ≡ some (text u.id))
unfolding copy_claims
lookup-role u es = (
  lookup-put "role" (entry "role" (text u.role)) after_name,
  lookup-put "sub" (entry "role" (text u.role)) after_name
      ∙ (lookup-put "sub" (entry "preferred_username" (text u.username)) after_verified
          ∙ (lookup-put "sub" (entry "email_verified" (flag u.email_verified)) after_email
              ∙ (lookup-put "sub" (entry "email" (text u.email)) after_subject
                  ∙ lookup-put "sub" (entry "sub" (text u.id)) es))),
)
  where
    entry : String → Claim → Entry
    entry name value = record { name = name; value = value }

    after_subject : List Entry
    after_subject = put (entry "sub" (text u.id)) es

    after_email : List Entry
    after_email = put (entry "email" (text u.email)) after_subject

    after_verified : List Entry
    after_verified = put (entry "email_verified" (flag u.email_verified)) after_email

    after_name : List Entry
    after_name = put (entry "preferred_username" (text u.username)) after_verified

module _ (lib : Library) (reached : Site → Bool) where
  -- The account behind a token and its session, and the claims that the tokens carry.
  pub record IsGranted (request : HookRequest) (db : Db) (tokens : Tokens) : Type 0 where
    pub user : User
    pub known : find_first (λ u. u.id == subject_of request) db.users ≡ some user
    pub active : is_none user.disabled_at ≡ true
    pub in_force :
        find_account lib reached (session_of request) db ≡ some (subject_of request, true)
    pub ranked : lookup "role" tokens.access_token ≡ some (text user.role)
    pub named : lookup "sub" tokens.access_token ≡ some (text user.id)
    pub id_ranked : lookup "role" tokens.id_token ≡ some (text user.role)
    pub id_named : lookup "sub" tokens.id_token ≡ some (text user.id)

  statement-read :
      {A : Type 0} (site : Site) (f : Db → Option A) (e : Error) (db : Db) (a : A)
      → (statement (query (reached site) (unreachable site) f >>= (λ o. expect o e)) db).1 ≡ ok a
      → f db ≡ some a
  statement-read {A} site f e db a =
      go ((query (reached site) (unreachable site) f >>= (λ o. expect o e)) db) inverted
    where
      inverted :
          (b : A) (after : Db)
          → (query (reached site) (unreachable site) f >>= (λ o. expect o e)) db ≡ ok (b, after)
          → f db ≡ some b
      inverted b after h =
          let (o, mid, read, rest) = >>=-eq-ok _ _ db b after h in
          let (_, is, _) = query-eq-ok _ _ _ db o mid read in
          sym is ∙ (expect-eq-ok o e mid b after rest).0

      go :
          (m : Result Error (A × Db))
          → ((b : A) (after : Db) → m ≡ ok (b, after) → f db ≡ some b)
          → (statement {S = Db} {E = Error} {A = A} (λ _. m) db).1 ≡ ok a
          → f db ≡ some a
      go (err x) k h = absurd (cc)
      go (ok (b, after)) k h = let same : b ≡ a = ground (arith, h) in k b after refl ∙ ap some same

  user_by_id-read :
      (id : String) (db : Db) (u : User)
      → (statement (user_by_id lib reached id) db).1 ≡ ok u
      → find_first (λ v. v.id == id) db.users ≡ some u
  unfolding user_by_id
  user_by_id-read id db u h = statement-read _ _ _ db u h

  session-read :
      (sid : String) (db : Db) (found : String × Bool)
      → (statement (provider_session_account lib reached sid) db).1 ≡ ok found
      → find_account lib reached sid db ≡ some found
  unfolding provider_session_account
  session-read sid db found h = statement-read _ _ _ db found h

module _ (hook : HookLibrary) (lib : Library) (reached : Site → Bool) where
  with_account-IsGranted :
      (request : HookRequest) (db : Db) (r : Result Error User) (tokens : Tokens)
      → find_account lib reached (session_of request) db ≡ some (subject_of request, true)
      → ((u : User) → r ≡ ok u → find_first (λ v. v.id == subject_of request) db.users ≡ some u)
      → with_account hook lib reached request r ≡ issue tokens
      → IsGranted lib reached request db tokens
  unfolding with_account
  with_account-IsGranted request db (err e) tokens here read h = absurd (ground (arith, h))
  with_account-IsGranted request db (ok u) tokens here read h =
      elim (Bool-cases (is_none u.disabled_at)) [
        | inl active ↦
            let same : record {
              access_token = copy_claims (oidc_identity_claims u) request.session_extra;
              id_token = copy_claims (oidc_identity_claims u) request.id_token_extra;
            }
                ≡ tokens =
              ground (arith, active, h) in
            let claims = lookup-role u request.session_extra in
            let id_claims = lookup-role u request.id_token_extra in
            record {
              user = u;
              known = read u refl;
              active = active;
              in_force = here;
              ranked = ap (λ (t : Tokens). lookup "role" t.access_token) (sym same) ∙ claims.0;
              named = ap (λ (t : Tokens). lookup "sub" t.access_token) (sym same) ∙ claims.1;
              id_ranked = ap (λ (t : Tokens). lookup "role" t.id_token) (sym same) ∙ id_claims.0;
              id_named = ap (λ (t : Tokens). lookup "sub" t.id_token) (sym same) ∙ id_claims.1;
            }
        | inr off ↦ absurd (ground (arith, off, h))
      ]

  with_session-IsGranted :
      (request : HookRequest) (db : Db) (r : Result Error (String × Bool)) (tokens : Tokens)
      → ((found : String × Bool)
          → r ≡ ok found
          → find_account lib reached (session_of request) db ≡ some found)
      → with_session hook lib reached request db r ≡ issue tokens
      → IsGranted lib reached request db tokens
  unfolding with_session
  with_session-IsGranted request db (err e) tokens read h = absurd (ground (arith, h))
  with_session-IsGranted request db (ok (owner, false)) tokens read h = absurd (cc)
  with_session-IsGranted request db (ok (owner, true)) tokens read h =
      elim (Bool-cases (owner == subject_of request)) [
        | inl same ↦
            with_account-IsGranted request db
              (statement (user_by_id lib reached (subject_of request)) db).1 tokens
              (read (owner, true) refl
                ∙ ap (λ o. some (o, true)) ((eq_iff owner (subject_of request)).0 same))
              (λ u e. user_by_id-read lib reached (subject_of request) db u e)
              (subst
                (λ b.
                  (if not true || not b
                    then refuse 403
                    else with_account hook lib reached request
                        (statement (user_by_id lib reached (subject_of request)) db).1)
                  ≡ issue tokens)
                same h)
        | inr other ↦ absurd (
            ne (
              subst
                (λ b.
                  (if not true || not b
                    then refuse 403
                    else with_account hook lib reached request
                        (statement (user_by_id lib reached (subject_of request)) db).1)
                  ≡ issue tokens)
                other h))
      ]
    where
      ne : refuse 403 ≢ issue tokens
      ne e = cc

  for_account-IsGranted :
      (request : HookRequest) (db : Db) (tokens : Tokens)
      → for_account hook lib reached request db ≡ issue tokens
      → IsGranted lib reached request db tokens
  unfolding for_account
  for_account-IsGranted request db tokens h =
      go (not (hook.is_uuid (subject_of request))) (session_of request == "") h
    where
      go :
          (a b : Bool)
          → (if a
              then refuse 403
              else if b
              then refuse 403
              else with_session hook lib reached request db
                  (statement (provider_session_account lib reached (session_of request)) db).1)
            ≡ issue tokens
          → IsGranted lib reached request db tokens
      go true b h = absurd (cc)
      go false true h = absurd (cc)
      go false false h =
          with_session-IsGranted request db
            (statement (provider_session_account lib reached (session_of request)) db).1 tokens
            (λ found e. session-read lib reached (session_of request) db found e) h

  -- Tokens are issued only to an account that is active, for a provider session whose browser
  -- session is unrevoked and belongs to that account. The access token and the ID token both carry
  -- the role and the identifier that the account has now, whatever claims came with the request.
  pub hydra_token_hook-IsGranted :
      (authorization : List String) (expected : String) (request : HookRequest) (db : Db)
      (tokens : Tokens)
      → hydra_token_hook hook lib reached authorization expected (some request) db ≡ issue tokens
      → IsGranted lib reached request db tokens
  unfolding hydra_token_hook decoded for_grant
  hydra_token_hook-IsGranted authorization expected request db tokens h =
      go (bearer_token_matches hook lib reached authorization expected)
        (token_hook_grant request.grant_types) h
    where
      go :
          (b : Bool) (kind : GrantKind)
          → (if b then for_grant hook lib reached kind request db else refuse 401) ≡ issue tokens
          → IsGranted lib reached request db tokens
      go false kind h = absurd (cc)
      go true account h = for_account-IsGranted request db tokens h
      go true client_credentials h = absurd (cc)
      go true neither h = absurd (cc)

-- After DisableUser succeeds, and whatever history of the operations on accounts and sessions
-- follows in which the account is not enabled, Hydra is given no tokens for the account.
pub hydra_token_hook-disable_user :
    (lib : Library) (reached : Site → Bool) (commit : Commit) (user : String) (now : ℕ) (db : Db)
    (hydra_ids : List String) (es : List Event) (hook : HookLibrary) (reading : Library)
    (answers : Site → Bool) (authorization : List String) (expected : String)
    (request : HookRequest) (tokens : Tokens)
    → (disable_user lib reached commit user now db).1 ≡ ok hydra_ids
    → All (λ e. (id : String) → e.call ≡ enables id → id ≢ user) es
    → subject_of request ≡ user
    → hydra_token_hook hook reading answers authorization expected
        (some request)
        (run es (disable_user lib reached commit user now db).0)
      ≢ issue tokens
hydra_token_hook-disable_user lib reached commit user now db hydra_ids es hook reading answers
      authorization expected request tokens done kept subject issued =
    let granted =
      hydra_token_hook-IsGranted hook reading answers authorization expected request _ tokens
        issued in
    let shut =
      All-find_first (IsShut user) (λ u. u.id == subject_of request) _ granted.user
        (disable_user-stays lib reached commit user now db hydra_ids es done kept).0
        granted.known in
    let named = find_first_sound (λ u. u.id == subject_of request) _ granted.user granted.known in
    let same = subst (λ i. granted.user.id == i ≡ true) subject named in
    false≢true (sym (shut same) ∙ granted.active)
