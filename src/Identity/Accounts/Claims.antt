-- ===== src/Identity/Accounts/Claims.antt =====
-- The row of an invitation's token in internal/identity/store.go, before and after it is claimed.
use mathlib.Core.Bool.{false≢true}
use shauth.Common.{
  ℕ, Bool, true, false, ◌&&◌, some, List, [], ◌∷◌, ◌≡◌, refl, sym, ◌∙◌, ap, subst, arith, any,
  find_first, &&-eq-true, ◌||◌, update_where, ltb, ◌==◌, string_eq, bytes_eq, is_none,
  if◌then◌else◌, Distinct, Bool-cases, inl, inr, bytes_eq_iff,
}
use shauth.Identity.Rows.{Bytes}
use shauth.Identity.Accounts.Rows.{Invitation}
use shauth.Identity.Accounts.{state_of, is_claimable, accept_at, invitation_pending}

abbrev pub same_token : Invitation → Invitation → Bool
same_token i j = j.token_hash == i.token_hash

abbrev pub has_token : Bytes → Invitation → Bool
has_token hash i = i.token_hash == hash

-- Another row does not have the token of this one.
pub others :
    (hash : Bytes) (r : Invitation) (rs : List Invitation)
    → any (same_token r) rs ≡ false
    → has_token hash r ≡ true
    → any (has_token hash) rs ≡ false
others hash r rs h e =
    subst (λ k. any (has_token k) rs ≡ false) ((bytes_eq_iff r.token_hash hash).0 e) h

claimed_has_token :
    (hash : Bytes) (now : ℕ) (rs : List Invitation) (i : Invitation)
    → find_first (is_claimable hash now) rs ≡ some i
    → any (has_token hash) rs ≡ true
claimed_has_token hash now [] i e = absurd (ground arith)
claimed_has_token hash now (r ∷ rs) i e = elim (Bool-cases (is_claimable hash now r)) [
  | inl hit ↦
      let on : has_token hash r ≡ true = (&&-eq-true _ _ hit).0 in
      or_left (has_token hash r) (any (has_token hash) rs) on
  | inr miss ↦
      or_right (has_token hash r) (any (has_token hash) rs)
        (claimed_has_token hash now rs i (skipped (is_claimable hash now r) miss e))
]
  where
    or_left : (a b : Bool) → a ≡ true → a || b ≡ true
    or_left a b h = ground (arith, h)

    or_right : (a b : Bool) → b ≡ true → a || b ≡ true
    or_right a b h = ground (arith, h)

    skipped :
        (b : Bool)
        → b ≡ false
        → (if b then some r else find_first (is_claimable hash now) rs) ≡ some i
        → find_first (is_claimable hash now) rs ≡ some i
    skipped false h e = e
    skipped true h e = cc

-- The rows before and after the claim of a token: its one row, then that row as accepted.
pub claimed_row :
    (hash : Bytes) (now : ℕ) (rows : List Invitation) (i : Invitation)
    → Distinct same_token rows
    → find_first (is_claimable hash now) rows ≡ some i
    → (find_first (has_token hash) rows ≡ some i)
      × (find_first (has_token hash) (update_where (is_claimable hash now) (accept_at now) rows)
          ≡ some (accept_at now i))
claimed_row hash now [] i h e = absurd (ground arith)
claimed_row hash now (r ∷ rs) i h e =
    go (is_claimable hash now r) (has_token hash r) refl refl e
      (λ k. claimed_row hash now rs i h.1 k)
  where
    go :
        (b c : Bool)
        → is_claimable hash now r ≡ b
        → has_token hash r ≡ c
        → (if b then some r else find_first (is_claimable hash now) rs) ≡ some i
        → (find_first (is_claimable hash now) rs ≡ some i
            → (find_first (has_token hash) rs ≡ some i)
              × (find_first
                    (has_token hash)
                    (update_where (is_claimable hash now) (accept_at now) rs)
                  ≡ some (accept_at now i)))
        → ((if c then some r else find_first (has_token hash) rs) ≡ some i)
          × ((if has_token hash (if b then accept_at now r else r)
                then some (if b then accept_at now r else r)
                else find_first
                    (has_token hash)
                    (update_where (is_claimable hash now) (accept_at now) rs))
              ≡ some (accept_at now i))
    go true true hit on k more =
        let same : r ≡ i = ground (arith, k) in (k, rw (on, ap (λ x. some (accept_at now x)) same))
    go true false hit off k more =
        let on : has_token hash r ≡ true = (&&-eq-true _ _ hit).0 in
        absurd (false≢true (sym off ∙ on))
    go false true miss on k more =
        absurd (ground (arith, claimed_has_token hash now rs i k, others hash r rs h.0 on))
    go false false miss off k more = let rest = more k in (rest.0, rw (off, rest.1))

pub claimable-pending :
    (hash : Bytes) (i : Invitation) (now : ℕ)
    → is_claimable hash now i ≡ true
    → state_of i now ≡ invitation_pending
unfolding state_of
claimable-pending hash i now good = unspent (&&-eq-true _ _ good).1
  where
    unspent :
        is_none i.accepted_at && (is_none i.revoked_at && ltb now i.expires_at) ≡ true
        → state_of i now ≡ invitation_pending
    unspent h = ground (arith, h)
