-- ===== src/Identity/Accounts/Federation/Entra.antt =====
-- FindOrCreateEntraUser of internal/identity/store.go: which accounts an Entra sign-in can reach.
use shauth.Common.{◌||◌, any-none, All-map, All-none}
use mathlib.Core.Bool.{false≢true}
use shauth.Common.{
  ==_sym, ℕ, String, Bool, true, false, not, ◌&&◌, Option, none, some, List, ◌≡◌, inl, inr, refl,
  sym, ◌∙◌, ap, arith, Result, ok, err, ◌>>=◌, ◌>>◌, query, return, require, exec, statement, any,
  find_first, find_first_sound, ◌==◌, string_eq, is_none, if◌then◌else◌, >>=-eq-ok, >>-eq-ok,
  exec-eq-ok, query-eq-ok, return-eq-ok, require-eq-ok, Bool-cases, update_where, subst,
}
use shauth.Identity.Accounts.Rows.{
  Account, Db, Site, Error, Library, Op, collides, collides_with_other, same_text, same_number,
  find_entra, link_entra, already_exists, incomplete_claims,
}
use shauth.Identity.Accounts.{normal_email}
use shauth.Identity.Accounts.Federation.{
  update_returning, is_entra, refresh_entra, is_linkable, link_entra_of, insert_entra_user,
  or_create, after_link, after_find, sign_in_entra, set_accounts, find_or_create_entra_user,
  entra_account,
}

statement-return :
    (b : Account) (s : Db) (a : Account)
    → (statement (return {S = Db} {E = Error} b) s).1 ≡ ok a
    → b ≡ a
unfolding return
statement-return b s a h = ground (arith, h)

-- How an account was reached: by its Entra identity; by an address that both sides verified; or
-- it is new.
pub data Reached (tenant object : String) (verified : Bool) (account : Account) (db : Db)
    (a : Account) : Type 0 where
  known :
      (o : Account)
      → find_first (is_entra tenant object) db.accounts ≡ some o
      → a ≡ refresh_entra account.email verified o
      → is_none a.disabled_at ≡ true
      → Reached tenant object verified account db a
  linked :
      (o : Account)
      → find_first (is_entra tenant object) db.accounts ≡ none
      → find_first (is_linkable account.email verified) db.accounts ≡ some o
      → a ≡ link_entra_of account verified o
      → Reached tenant object verified account db a
  created :
      find_first (is_entra tenant object) db.accounts ≡ none
      → any (collides account) db.accounts ≡ false
      → a ≡ account
      → Reached tenant object verified account db a

module _ (lib : Library) (reached : Site → Bool) where
  -- What an update that answers has found: nothing, over rows left alone, or the row it changed.
  abbrev Found :
      (Account → Bool) → (Account → Account) → Db → Db × Result Error (Option Account) → Type 0
  Found p f db (after, err e) = Unit
  Found p f db (after, ok none) = (find_first p db.accounts ≡ none) × (after ≡ db)
  Found p f db (after, ok (some a)) =
      (o : Account) × (find_first p db.accounts ≡ some o) × (a ≡ f o)

  update_returning-eq-ok :
      (site : Site) (p : Account → Bool) (f : Account → Account) (db : Db) (r : Option Account)
      (after : Db)
      → update_returning lib reached site p f db ≡ ok (r, after)
      → Found p f db (after, ok r)
  unfolding update_returning
  update_returning-eq-ok site p f db r after e =
      let (o, mid, read, rest) = >>=-eq-ok _ _ db r after e in
      let (_, is, same) = query-eq-ok _ _ _ db o mid read in chosen o mid same (sym is) rest
    where
      chosen :
          (o : Option Account) (mid : Db)
          → mid ≡ db
          → find_first p db.accounts ≡ o
          → (let m : Op (Option Account) = elim o [
            | none ↦ return none
            | some a ↦ do
              taken ← query true already_exists (λ db. any (collides_with_other (f a)) db.accounts)
              require (not taken) already_exists
              exec true already_exists (set_accounts (update_where p f))
              return (some (f a))
          ] in
              m mid ≡ ok (r, after))
          → Found p f db (after, ok r)
      chosen none mid same is rest =
          let (nothing, kept) = return-eq-ok none mid r after rest in
          subst (λ o. Found p f db (after, ok o)) (sym nothing) (is, kept ∙ same)
      chosen (some a) mid same is rest =
          let (_, s1, _, rest1) = >>=-eq-ok _ _ mid r after rest in
          let (s2, _, rest2) = >>-eq-ok _ _ s1 r after rest1 in
          let (s3, _, rest3) = >>-eq-ok _ _ s2 r after rest2 in
          let (changed, _) = return-eq-ok (some (f a)) s3 r after rest3 in
          subst (λ o. Found p f db (after, ok o)) (sym changed) (a, is, refl)

  update_returning-Found :
      (site : Site) (p : Account → Bool) (f : Account → Account) (db : Db)
      → Found p f db (statement (update_returning lib reached site p f) db)
  update_returning-Found site p f db =
      go (update_returning lib reached site p f db) (update_returning-eq-ok site p f db)
    where
      go :
          (m : Result Error (Option Account × Db))
          → ((r : Option Account) (after : Db) → m ≡ ok (r, after) → Found p f db (after, ok r))
          → Found p f db (statement {S = Db} {E = Error} {A = Option Account} (λ _. m) db)
      go (err e) k = tt
      go (ok (r, after)) k = k r after refl

  insert_entra_user-eq-ok :
      (account : Account) (db : Db) (a : Account) (after : Db)
      → insert_entra_user lib reached account db ≡ ok (a, after)
      → (any (collides account) db.accounts ≡ false) × (a ≡ account)
  unfolding insert_entra_user
  insert_entra_user-eq-ok account db a after e =
      let (s1, began, e1) = >>-eq-ok _ _ db a after e in
      let (_, same) = exec-eq-ok _ _ _ db tt s1 began in
      let (taken, s2, read, e2) = >>=-eq-ok _ _ s1 a after e1 in
      let (_, is, _) = query-eq-ok _ _ _ s1 taken s2 read in
      let (s3, passed, e3) = >>-eq-ok _ _ s2 a after e2 in
      let (clear, _) = require-eq-ok _ _ s2 tt s3 passed in
      let (s4, _, e4) = >>-eq-ok _ _ s3 a after e3 in
      let (new, _) = return-eq-ok account s4 a after e4 in
      (
        ap (λ (d : Db). any (collides account) d.accounts) (sym same)
            ∙ (sym is ∙ unset taken clear),
        new,
      )
    where
      unset : (b : Bool) → not b ≡ true → b ≡ false
      unset b h = ground (arith, h)

  after_link-Reached :
      (tenant object : String) (verified : Bool) (account : Account) (db : Db)
      (r : Db × Result Error (Option Account)) (a : Account)
      → find_first (is_entra tenant object) db.accounts ≡ none
      → Found (is_linkable account.email verified) (link_entra_of account verified) db r
      → (after_link lib reached account r).1 ≡ ok a
      → Reached tenant object verified account db a
  unfolding after_link or_create
  after_link-Reached tenant object verified account db (s, err e) a new found h = absurd (cc)
  after_link-Reached tenant object verified account db (s, ok (some b)) a new (o, first, is) h =
      linked o new first (sym (statement-return b s a h) ∙ is)
  after_link-Reached tenant object verified account db (s, ok none) a new (nothing, same) h =
      go (insert_entra_user lib reached account s) (insert_entra_user-eq-ok account s) h
    where
      go :
          (m : Result Error (Account × Db))
          → ((b : Account) (t : Db)
              → m ≡ ok (b, t)
              → (any (collides account) s.accounts ≡ false) × (b ≡ account))
          → (statement {S = Db} {E = Error} {A = Account} (λ _. m) s).1 ≡ ok a
          → Reached tenant object verified account db a
      go (err e) k h = absurd (cc)
      go (ok (b, t)) k h =
          let (clear, is) = k b t refl in
          let answer : b ≡ a = ground (arith, h) in
          created new (subst (λ (d : Db). any (collides account) d.accounts ≡ false) same clear)
            (sym answer ∙ is)

  sign_in_entra-Reached :
      (tenant object : String) (verified : Bool) (account : Account) (db : Db) (a : Account)
      → (sign_in_entra lib reached tenant object verified account db).1 ≡ ok a
      → Reached tenant object verified account db a
  unfolding sign_in_entra after_find
  sign_in_entra-Reached tenant object verified account db a =
      go
        (statement
          (update_returning lib reached find_entra (is_entra tenant object)
            (refresh_entra account.email verified))
          db)
        (update_returning-Found find_entra (is_entra tenant object)
          (refresh_entra account.email verified) db)
    where
      go :
          (r : Db × Result Error (Option Account))
          → Found (is_entra tenant object) (refresh_entra account.email verified) db r
          → (after_find lib reached verified account r).1 ≡ ok a
          → Reached tenant object verified account db a
      go (s, err e) found h = absurd (cc)
      go (s, ok (some b)) (o, first, is) h = elim (Bool-cases (is_none b.disabled_at)) [
        | inl active ↦
            let same : b ≡ a = ground (arith, active, h) in
            known o first (sym same ∙ is)
              (ap (λ (x : Account). is_none x.disabled_at) (sym same) ∙ active)
        | inr off ↦ absurd (ground (arith, off, h))
      ]
      go (s, ok none) (new, same) h =
          after_link-Reached tenant object verified account db _ a new
            (subst
              (λ d. Found (is_linkable account.email verified) (link_entra_of account verified) d (
                statement
                  (update_returning lib reached link_entra (is_linkable account.email verified)
                    (link_entra_of account verified))
                  s))
              same
              (update_returning-Found link_entra (is_linkable account.email verified)
                (link_entra_of account verified) s))
            h

-- What a sign-in of an identity that no account has yet may be given: an account that is active,
-- not one of GitHub, and an existing one only for a verified address that is verified there too.
abbrev pub Unlinked : Bool → String → Db → Account → Type 0
Unlinked verified address db a =
    (is_none a.github_id ≡ true)
    × (is_none a.disabled_at ≡ true)
    × (verified ≡ false → any (λ o. o.email == address) db.accounts ≡ false)

third : (a b c d : Bool) → a || (b || (c || d)) ≡ false → c ≡ false
third a b c d h = ground (arith, h)

any_email :
    (account : Account) (rows : List Account)
    → any (collides account) rows ≡ false
    → any (λ o. o.email == account.email) rows ≡ false
any_email account rows h =
    any-none (λ o. o.email == account.email) rows
      (All-map
        (λ r k.
          ==_sym r.email account.email
          ∙ third (account.id == r.id) (account.username == r.username) (account.email == r.email)
              (rest account r) k)
        rows (All-none (collides account) rows h))
  where
    rest : Account → Account → Bool
    rest a b =
        same_number a.github_id b.github_id
        || (same_text a.github_login b.github_login
            || same_text a.entra_tenant_id b.entra_tenant_id
              && same_text a.entra_object_id b.entra_object_id)

linkable :
    (address : String) (verified : Bool) (o : Account)
    → is_linkable address verified o ≡ true
    → (verified ≡ true) × (is_none o.disabled_at ≡ true) × (is_none o.github_id ≡ true)
linkable address verified o h = (ground (arith, h), ground (arith, h), ground (arith, h))

Reached-Unlinked :
    (tenant object : String) (verified : Bool) (account : Account) (db : Db) (a : Account)
    → is_none account.github_id ≡ true
    → is_none account.disabled_at ≡ true
    → Reached tenant object verified account db a
    → (is_none a.disabled_at ≡ true)
      × (find_first (is_entra tenant object) db.accounts ≡ none
          → Unlinked verified account.email db a)
Reached-Unlinked tenant object verified account db a local active (known o first is good) =
    (good, λ new. absurd (ground (arith, first, new)))
Reached-Unlinked tenant object verified account db a local active (linked o new first is) =
    let (on, off, free) =
      linkable account.email verified o
        (find_first_sound (is_linkable account.email verified) db.accounts o first) in
    let good : is_none a.disabled_at ≡ true =
      ap (λ (x : Account). is_none x.disabled_at) is ∙ off in
    (
      good,
      λ _. (
        ap (λ (x : Account). is_none x.github_id) is ∙ free,
        good,
        λ unverified. absurd (false≢true (sym unverified ∙ on)),
      ),
    )
Reached-Unlinked tenant object verified account db a local active (created new clear is) =
    let good : is_none a.disabled_at ≡ true =
      ap (λ (x : Account). is_none x.disabled_at) is ∙ active in
    (
      good,
      λ _. (
        ap (λ (x : Account). is_none x.github_id) is ∙ local,
        good,
        λ _. any_email account db.accounts clear,
      ),
    )

-- Where an Entra sign-in gives an account, that account is active. If no account had this Entra
-- identity before, what it gives is no GitHub account, and for an address that Entra has not
-- verified it is a new account, whose address no account had.
pub find_or_create_entra_user-Unlinked :
    (lib : Library) (reached : Site → Bool) (id tenant object username email : String)
    (verified : Bool) (clock : ℕ) (db : Db) (a : Account)
    → (find_or_create_entra_user lib reached id tenant object username email verified clock db).1
      ≡ ok a
    → (is_none a.disabled_at ≡ true)
      × (find_first (is_entra tenant object) db.accounts ≡ none
          → Unlinked verified (normal_email lib reached email) db a)
unfolding find_or_create_entra_user
find_or_create_entra_user-Unlinked lib reached id tenant object username email verified clock db a
      h =
    go
      (tenant == ""
        || (object == ""
            || (normal_email lib reached email == "" || lib.trim_space username == "")))
      h
  where
    go :
        (b : Bool)
        → (let out : Db × Result Error Account =
              if b
              then (db, err incomplete_claims)
              else sign_in_entra lib reached tenant object verified
                  (entra_account id tenant object
                    (lib.trim_space username)
                    (normal_email lib reached email)
                    verified
                    clock)
                  db in
            out.1 ≡ ok a)
        → (is_none a.disabled_at ≡ true)
          × (find_first (is_entra tenant object) db.accounts ≡ none
              → Unlinked verified (normal_email lib reached email) db a)
    go true k = absurd (cc)
    go false k =
        Reached-Unlinked tenant object verified
          (entra_account id tenant object (lib.trim_space username) (normal_email lib reached email)
            verified clock)
          db a refl refl
          (sign_in_entra-Reached lib reached tenant object verified
            (entra_account id tenant object (lib.trim_space username)
              (normal_email lib reached email) verified clock)
            db a k)
