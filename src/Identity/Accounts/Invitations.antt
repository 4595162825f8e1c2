-- ===== src/Identity/Accounts/Invitations.antt =====
-- AcceptInvitation of internal/identity/store.go against InvitationState: what a link is good for
-- before and after it is used.

use shauth.Common.{
  Distinct-update_where, ℕ, String, Bool, true, false, any, All, All-find_first, &&-eq-true, [],
  ◌∷◌, arith, Bool-cases, Option, none, some, List, ◌≡◌, ◌≢◌, refl, sym, ◌∙◌, ap, subst, Result, ok,
  err, Commit, transaction, Leads, >>=-Leads, >>-Leads, exec-Leads, query_then-Leads, fail-ne-ok,
  return-eq-ok, transaction-Leads, find_first, find_first_sound, update_where, ◌==◌, string_eq,
  bytes_eq, Distinct, inl, inr, fail, return, Step,
}
use shauth.Identity.Rows.{Bytes}
use shauth.Identity.Accounts.Rows.{
  Account, Invitation, Db, Site, Error, Library, not_acceptable, commit_failed, read_invitation,
}
use shauth.Identity.Accounts.{
  state_of, is_claimable, accept_at, claim_row, password_credential, accept_in_transaction,
  accept_invitation, invitation_state, invitation_accepted, invitation_pending, local_account,
  normal_email,
}
use shauth.Identity.Accounts.Claims.{same_token, has_token, claimed_row, claimable-pending}
use shauth.Identity.Accounts.History.{Event, run, Used, IsUsed, Used-found}
use shauth.Identity.Accounts.Used.{run-IsUsed, insert_user-Keeps}
use mathlib.Core.Bool.{false≢true}

any-found {ℓ} :
    {A : Type ℓ} (p : A → Bool) (rs : List A)
    → any p rs ≡ true
    → (a : A) × (find_first p rs ≡ some a)
any-found p [] e = absurd (ground (arith, e))
any-found p (r ∷ rs) e = elim (Bool-cases (p r)) [
  | inl hit ↦ (r, ground (arith, hit))
  | inr miss ↦
      let (a, found) = any-found p rs (ground (arith, miss, e)) in (a, ground (arith, miss, found))
]

-- The row that a successful claim took, and what it left.
abbrev IsClaimed : Bytes → ℕ → Db → Db → Type 0
IsClaimed hash now db s =
    (i : Invitation) × (find_first (is_claimable hash now) db.invitations ≡ some i)
    × (s.invitations ≡ update_where (is_claimable hash now) (accept_at now) db.invitations)

module _ (lib : Library) (reached : Site → Bool) where
  claim_row-IsClaimed :
      (hash : Bytes) (now : ℕ) (db : Db)
      → Leads (λ s. s ≡ db) (IsClaimed hash now db) (claim_row lib reached hash now)
  unfolding claim_row
  claim_row-IsClaimed hash now db =
      query_then-Leads (λ s. s ≡ db) (IsClaimed hash now db) _ _ _ _
        λ t k.
          >>-Leads (λ s. s ≡ t)
            (λ s.
              s.invitations ≡ update_where (is_claimable hash now) (accept_at now) db.invitations)
            (IsClaimed hash now db) _ _
            (exec-Leads _ _ _ _ _ (λ s back.
              ap (λ (d : Db). update_where (is_claimable hash now) (accept_at now) d.invitations)
                (back ∙ k)))
            (returned (find_first (is_claimable hash now) t.invitations)
              (ap (λ d. find_first (is_claimable hash now) d.invitations) (sym k)))
    where
      returned :
          (o : Option Invitation)
          → find_first (is_claimable hash now) db.invitations ≡ o
          → Leads
              (λ s.
                s.invitations ≡ update_where (is_claimable hash now) (accept_at now) db.invitations)
              (IsClaimed hash now db)
              (elim o as (λ _. Step Db Error Invitation) [
                | none ↦ fail not_acceptable
                | some i ↦ return i
              ])
      returned none e s a s' h eq = absurd (fail-ne-ok not_acceptable s a s' eq)
      returned (some i) e s a s' h eq =
          let (_, same) = return-eq-ok i s a s' eq in
          (
            i,
            e,
            subst
                (λ d.
                  d.invitations
                  ≡ update_where (is_claimable hash now) (accept_at now) db.invitations)
                (sym same) h,
          )

  accept_in_transaction-IsClaimed :
      (id name : String) (credential hash : Bytes) (now clock : ℕ) (db : Db)
      → Leads
          (λ s. s ≡ db)
          (IsClaimed hash now db)
          (accept_in_transaction lib reached id name credential hash now clock)
  unfolding accept_in_transaction
  accept_in_transaction-IsClaimed id name credential hash now clock db =
      >>-Leads (λ s. s ≡ db) (λ s. s ≡ db) Claimed _ _
        (exec-Leads (λ s. s ≡ db) (λ s. s ≡ db) _ _ _ (λ s h. h))
        (>>=-Leads (λ s. s ≡ db) Claimed Claimed _ _ (claim_row-IsClaimed hash now db)
          λ i s a s' h e. (
            h.0,
            h.1,
            insert_user-Keeps lib reached
                (λ rows. rows ≡ update_where (is_claimable hash now) (accept_at now) db.invitations)
                (local_account lib reached id name (normal_email lib reached i.email) credential
                  i.role clock)
                s a s' h.2 e,
          ))
    where
      Claimed : Db → Type 0
      Claimed = IsClaimed hash now db

  accept_invitation-IsClaimed :
      (commit : Commit) (id raw username password : String) (now clock : ℕ) (db : Db) (a : Account)
      → (accept_invitation lib reached commit id raw username password now clock db).1 ≡ ok a
      → IsClaimed
          (lib.sha256 raw)
          now
          db
          (accept_invitation lib reached commit id raw username password now clock db).0
  unfolding accept_invitation
  accept_invitation-IsClaimed commit id raw username password now clock db a =
      go (password_credential lib reached username password)
    where
      go :
          (credential : Result Error (String × Bytes))
          → (let out : Db × Result Error Account = elim credential [
            | err e ↦ (db, err e)
            | ok (name, hash) ↦
                transaction commit_failed commit
                  (accept_in_transaction lib reached id name hash (lib.sha256 raw) now clock)
                  db
          ] in
              out.1 ≡ ok a → IsClaimed (lib.sha256 raw) now db out.0)
      go (err e) h = cc
      go (ok (name, hash)) h =
          transaction-Leads (λ s. s ≡ db) (IsClaimed (lib.sha256 raw) now db) commit_failed commit _
            db a (accept_in_transaction-IsClaimed id name hash (lib.sha256 raw) now clock db) refl h

  invitation_state-of_row :
      (raw : String) (now : ℕ) (db : Db) (i : Invitation)
      → reached read_invitation ≡ true
      → (lib.trim_space raw == "") ≡ false
      → find_first (has_token (lib.sha256 raw)) db.invitations ≡ some i
      → invitation_state lib reached raw now db ≡ ok (state_of i now)
  unfolding invitation_state
  invitation_state-of_row raw now db i answers named found = rw (named, answers, found)

-- What a used token is good for.
module _ (lib : Library) (raw : String) (db : Db) (used : IsUsed (lib.sha256 raw) db) where
  used-accepted :
      (reached : Site → Bool) (later : ℕ)
      → reached read_invitation ≡ true
      → (lib.trim_space raw == "") ≡ false
      → invitation_state lib reached raw later db ≡ ok invitation_accepted
  unfolding state_of
  used-accepted reached later answers named =
      let (i, found) = any-found (has_token (lib.sha256 raw)) db.invitations used.0 in
      let spent =
        All-find_first (Used (lib.sha256 raw)) (has_token (lib.sha256 raw)) db.invitations i used.1
          found (find_first_sound (has_token (lib.sha256 raw)) db.invitations i found) in
      invitation_state-of_row lib reached raw later db i answers named found ∙ ground (arith, spent)

  used-unclaimable :
      (reached : Site → Bool) (commit : Commit) (id username password : String) (now clock : ℕ)
      (a : Account)
      → (accept_invitation lib reached commit id raw username password now clock db).1 ≢ ok a
  used-unclaimable reached commit id username password now clock a done =
      let (i, found, _) =
        accept_invitation-IsClaimed lib reached commit id raw username password now clock db a
          done in
      let good =
        &&-eq-true _ _
          (find_first_sound (is_claimable (lib.sha256 raw) now) db.invitations i found) in
      let spent =
        All-find_first (Used (lib.sha256 raw)) (is_claimable (lib.sha256 raw) now) db.invitations i
          used.1 found good.0 in
      false≢true (sym spent ∙ (&&-eq-true _ _ good.1).0)

-- An invitation that is accepted was pending. Whatever history of invitations, registrations,
-- acceptances and withdrawals follows, it reads as accepted at every time, and its token creates no
-- second account, whatever the name, the password and the answers of the database. The tokens'
-- hashes are distinct before, the token is not blank, and the reading reaches the database.
pub accept_invitation-once :
    (lib : Library) (reached : Site → Bool) (commit : Commit) (id raw username password : String)
    (now clock : ℕ) (db : Db) (a : Account) (es : List Event)
    → Distinct same_token db.invitations
    → reached read_invitation ≡ true
    → (lib.trim_space raw == "") ≡ false
    → (accept_invitation lib reached commit id raw username password now clock db).1 ≡ ok a
    → (invitation_state lib reached raw now db ≡ ok invitation_pending)
      × ((later : ℕ)
          → invitation_state lib reached raw later (
              run lib es
                (accept_invitation lib reached commit id raw username password now clock db).0)
            ≡ ok invitation_accepted)
      × ((again : Site → Bool) (commit' : Commit) (id' username' password' : String)
            (now' clock' : ℕ) (b : Account)
          → (accept_invitation lib again commit' id' raw username' password' now' clock' (
              run lib es
                (accept_invitation lib reached commit id raw username password now clock db).0)).1
            ≢ ok b)
accept_invitation-once lib reached commit id raw username password now clock db a es h answers named
      done =
    let (i, found, after) =
      accept_invitation-IsClaimed lib reached commit id raw username password now clock db a done in
    let (before, accepted) = claimed_row (lib.sha256 raw) now db.invitations i h found in
    let kept =
      Distinct-update_where same_token (is_claimable (lib.sha256 raw) now) (accept_at now)
        db.invitations (λ r x. refl) (λ r x. refl) h in
    let good = find_first_sound (is_claimable (lib.sha256 raw) now) db.invitations i found in
    let used =
      run-IsUsed lib (lib.sha256 raw) es
        (accept_invitation lib reached commit id raw username password now clock db).0
        (subst
          (λ rows.
            (any (has_token (lib.sha256 raw)) rows ≡ true) × All (Used (lib.sha256 raw)) rows)
          (sym after) (Used-found (lib.sha256 raw) _ (accept_at now i) kept accepted refl)) in
    (
      invitation_state-of_row lib reached raw now db i answers named before
          ∙ ap ok (claimable-pending (lib.sha256 raw) i now good),
      (λ later. used-accepted lib raw _ used reached later answers named),
      λ again commit' id' username' password' now' clock' b twice.
          used-unclaimable lib raw _ used again commit' id' username' password' now' clock' b twice,
    )
