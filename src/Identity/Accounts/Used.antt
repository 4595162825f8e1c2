-- ===== src/Identity/Accounts/Used.antt =====
-- A token of internal/identity/store.go that was used once stays used, whatever history of the
-- operations on invitations and on accounts with a password follows.
use shauth.Common.{
  ℕ, String, Bool, true, false, Option, none, some, List, [], ◌∷◌, ◌≡◌, refl, sym, subst, arith,
  Result, ok, err, Commit, Step, statement, transaction, ◌>>◌, Keeps, >>-Keeps, >>=-Keeps,
  exec-Keeps, query-Keeps, require-Keeps, return-Keeps, fail-Keeps, query_then-Leads,
  require_then-Leads, exec-Leads, statement-Keeps, transaction-Keeps, any, All, ◌==◌, string_eq,
  bytes_eq, bytes_eq_iff, not, if◌then◌else◌, ◌||◌, fail, return,
}
use shauth.Identity.Rows.{Bytes}
use shauth.Identity.Accounts.Rows.{
  Account, Invitation, Db, Site, Error, Library, is_role, not_acceptable, commit_failed,
  invalid_input, no_random,
}
use shauth.Identity.Accounts.{
  is_claimable, accept_at, revoke_at, is_revocable, claim_row, insert_user, store_invitation,
  password_credential, accept_in_transaction, accept_invitation, create_password_user,
  create_invitation, revoke_invitation_row, new_invitation, normal_email, local_account,
}
use shauth.Identity.Accounts.Claims.{has_token}
use shauth.Identity.Accounts.History.{
  Call, invites, registers, accepts, withdraws, Event, apply_call, run, Used, IsUsed, updated,
}

module _ (lib : Library) (reached : Site → Bool) where
  pub insert_user-Keeps :
      (P : List Invitation → Type 0) (account : Account)
      → Keeps (λ s. P s.invitations) (insert_user lib reached account)
  unfolding insert_user
  insert_user-Keeps P account = >>-Keeps Kept _ _ (exec-Keeps Kept _ _ _ (λ s h. h)) (
      >>=-Keeps Kept _ _ (query-Keeps Kept _ _ _) λ taken.
        >>-Keeps Kept _ _ (require-Keeps Kept _ _) (
          >>-Keeps Kept _ _ (require-Keeps Kept _ _)
            (>>-Keeps Kept _ _ (exec-Keeps Kept _ _ _ (λ s h. h)) (return-Keeps Kept _))))
    where
      Kept : Db → Type 0
      Kept s = P s.invitations

  module _ (hash : Bytes) where
    abbrev P : Db → Type 0
    P = IsUsed hash

    claim_row-Keeps : (token : Bytes) (now : ℕ) → Keeps P (claim_row lib reached token now)
    unfolding claim_row
    claim_row-Keeps token now = >>=-Keeps P _ _ (query-Keeps P _ _ _) λ found.
        >>-Keeps P _ _
          (exec-Keeps P _ _ _ λ db h.
            updated hash (is_claimable token now) (accept_at now) db.invitations (λ x. refl)
              (λ x k. refl) h)
          (answer found)
      where
        answer :
            (o : Option Invitation)
            → Keeps P (elim o as (λ _. Step Db Error Invitation) [
              | none ↦ fail not_acceptable
              | some i ↦ return i
            ])
        answer none = fail-Keeps P _
        answer (some i) = return-Keeps P i

    store_invitation-Keeps : (i : Invitation) → Keeps P (store_invitation lib reached i)
    unfolding store_invitation
    store_invitation-Keeps i = >>-Keeps P _ _ (exec-Keeps P _ _ _ (λ _ h. h)) (
        query_then-Leads P P _ _ _ _ λ db h.
          require_then-Leads (λ t. t ≡ db) P _ _ _
            λ fresh.
              exec-Leads (λ t. t ≡ db) P _ _ _
                λ t same.
                  subst
                    (λ (d : Db).
                      (any (has_token hash) (i ∷ d.invitations) ≡ true)
                      × All (Used hash) (i ∷ d.invitations))
                    (sym same) (stored db.invitations (ground arith) h))
      where
        stored :
            (rows : List Invitation)
            → any (λ o. o.id == i.id || o.token_hash == i.token_hash) rows ≡ false
            → (any (has_token hash) rows ≡ true) × All (Used hash) rows
            → (any (has_token hash) (i ∷ rows) ≡ true) × All (Used hash) (i ∷ rows)
        stored rows fresh h =
            (ground (arith, h.0), ((λ on. absurd (ground (arith, clash rows fresh on, h.0))), h.1))
          where
            clash :
                (xs : List Invitation)
                → any (λ o. o.id == i.id || o.token_hash == i.token_hash) xs ≡ false
                → has_token hash i ≡ true
                → any (has_token hash) xs ≡ false
            clash [] e on = refl
            clash (x ∷ xs) e on = ground (
              arith,
              clash xs (ground (arith, e)) on,
              bytes_eq_iff x.token_hash i.token_hash,
              bytes_eq_iff x.token_hash hash,
              bytes_eq_iff i.token_hash hash,
            )

    accept_in_transaction-Keeps :
        (id name : String) (credential token : Bytes) (now clock : ℕ)
        → Keeps P (accept_in_transaction lib reached id name credential token now clock)
    unfolding accept_in_transaction
    accept_in_transaction-Keeps id name credential token now clock =
        >>-Keeps P _ _ (exec-Keeps P _ _ _ (λ _ h. h))
          (>>=-Keeps P _ _ (claim_row-Keeps token now) (λ i. insert_user-Keeps Rows _))
      where
        Rows : List Invitation → Type 0
        Rows rows = (any (has_token hash) rows ≡ true) × All (Used hash) rows

    accept_invitation-Keeps :
        (commit : Commit) (id raw username password : String) (now clock : ℕ) (db : Db)
        → P db
        → P (accept_invitation lib reached commit id raw username password now clock db).0
    unfolding accept_invitation
    accept_invitation-Keeps commit id raw username password now clock db h =
        go (password_credential lib reached username password)
      where
        go :
            (credential : Result Error (String × Bytes))
            → (let out : Db × Result Error Account = elim credential [
              | err e ↦ (db, err e)
              | ok (name, hashed) ↦
                  transaction commit_failed commit
                    (accept_in_transaction lib reached id name hashed (lib.sha256 raw) now clock)
                    db
            ] in
                P out.0)
        go (err e) = h
        go (ok (name, hashed)) =
            transaction-Keeps P commit_failed commit _ db
              (accept_in_transaction-Keeps id name hashed (lib.sha256 raw) now clock) h

    create_password_user-Keeps :
        (id username email password role : String) (clock : ℕ) (db : Db)
        → P db
        → P (create_password_user lib reached id username email password role clock db).0
    unfolding create_password_user
    create_password_user-Keeps id username email password role clock db h =
        blank (normal_email lib reached email == "")
      where
        Rows : List Invitation → Type 0
        Rows rows = (any (has_token hash) rows ≡ true) × All (Used hash) rows

        created : Result Error (String × Bytes) → Db × Result Error Account
        created credential = elim credential [
          | err e ↦ (db, err e)
          | ok (name, hashed) ↦
              if not (is_role role)
              then (db, err invalid_input)
              else statement
                  (insert_user lib reached (
                    local_account lib reached id name (normal_email lib reached email) hashed role
                      clock))
                  db
        ]

        known :
            (b : Bool) (name : String) (hashed : Bytes)
            → (let out : Db × Result Error Account =
                  if b
                  then (db, err invalid_input)
                  else statement
                      (insert_user lib reached (
                        local_account lib reached id name
                          (normal_email lib reached email)
                          hashed
                          role
                          clock))
                      db in
                P out.0)
        known true name hashed = h
        known false name hashed =
            statement-Keeps P _ db
              (insert_user-Keeps Rows (
                local_account lib reached id name (normal_email lib reached email) hashed role
                  clock))
              h

        go : (credential : Result Error (String × Bytes)) → P (created credential).0
        go (err e) = h
        go (ok (name, hashed)) = known (not (is_role role)) name hashed

        blank :
            (b : Bool)
            → P
                (if b
                  then (db, err invalid_input)
                  else created (password_credential lib reached username password)).0
        blank true = h
        blank false = go (password_credential lib reached username password)

    create_invitation-Keeps :
        (raw : Option String) (id email role by : String) (now : ℕ) (db : Db)
        → P db
        → P (create_invitation lib reached raw id email role by now db).0
    unfolding create_invitation
    create_invitation-Keeps raw id email role by now db h =
        bad (normal_email lib reached email == "" || not (is_role role))
      where
        stored : Option String → Db × Result Error String
        stored raw = elim raw [
          | none ↦ (db, err no_random)
          | some token ↦
              statement
                (do
                  store_invitation lib reached
                      (new_invitation lib reached id email role token by now)
                  return token)
                db
        ]

        go : (raw : Option String) → P (stored raw).0
        go none = h
        go (some token) =
            statement-Keeps P _ db
              (>>-Keeps P _ _ (store_invitation-Keeps _) (return-Keeps P token)) h

        bad : (b : Bool) → P (if b then (db, err invalid_input) else stored raw).0
        bad true = h
        bad false = go raw

    revoke_invitation_row-Keeps :
        (id : String) (now : ℕ) (db : Db) → P db → P (revoke_invitation_row lib reached id now db).0
    unfolding revoke_invitation_row
    revoke_invitation_row-Keeps id now db h =
        statement-Keeps P _ db
          (>>=-Keeps P _ _ (query-Keeps P _ _ _) λ found. >>-Keeps P _ _ (require-Keeps P _ _) (
            exec-Keeps P _ _ _ λ t k.
              updated hash (is_revocable id) (revoke_at now) t.invitations (λ x. refl) (λ x u. u)
                k))
          h

    apply_call-Keeps :
        (now : ℕ) (call : Call) (db : Db) → P db → P (apply_call lib reached now call db)
    unfolding apply_call
    apply_call-Keeps now (invites raw id email role by) db h =
        create_invitation-Keeps raw id email role by now db h
    apply_call-Keeps now (registers id username email password role clock) db h =
        create_password_user-Keeps id username email password role clock db h
    apply_call-Keeps now (accepts commit id raw username password clock) db h =
        accept_invitation-Keeps commit id raw username password now clock db h
    apply_call-Keeps now (withdraws id) db h = revoke_invitation_row-Keeps id now db h

pub run-IsUsed :
    (lib : Library) (hash : Bytes) (es : List Event) (db : Db)
    → IsUsed hash db
    → IsUsed hash (run lib es db)
unfolding run
run-IsUsed lib hash [] db h = h
run-IsUsed lib hash (e ∷ es) db h =
    run-IsUsed lib hash es _ (apply_call-Keeps lib e.reached hash e.now e.call db h)
