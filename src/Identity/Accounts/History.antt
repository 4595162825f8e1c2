-- ===== src/Identity/Accounts/History.antt =====
-- Histories of the operations of internal/identity/store.go on invitations and on accounts with a
-- password, and the rows of a token that is used.
use shauth.Common.{
  ℕ, String, Bool, true, false, Option, some, List, [], ◌∷◌, ◌≡◌, sym, ◌∙◌, ap, subst, arith,
  Commit, any, find_first, All, All-map, All-none, All-update, any-updated, update_where, Distinct,
  Bool-cases, inl, inr, ◌==◌, string_eq, bytes_eq, is_none, if◌then◌else◌,
}
use shauth.Identity.Rows.{Bytes}
use shauth.Identity.Accounts.Rows.{Invitation, Db, Site, Library}
use shauth.Identity.Accounts.{
  accept_invitation, create_password_user, create_invitation, revoke_invitation_row,
}
use shauth.Identity.Accounts.Claims.{same_token, has_token, others}

-- What a caller asks of the store.
pub data Call : Type 0 where
  invites : Option String → String → String → String → String → Call
  registers : String → String → String → String → String → ℕ → Call
  accepts : Commit → String → String → String → String → ℕ → Call
  withdraws : String → Call

pub record Event : Type 0 where
  pub reached : Site → Bool
  pub now : ℕ
  pub call : Call

unfoldable pub apply_call : Library → (Site → Bool) → ℕ → Call → Db → Db
apply_call lib reached now (invites raw id email role by) db =
    (create_invitation lib reached raw id email role by now db).0
apply_call lib reached now (registers id username email password role clock) db =
    (create_password_user lib reached id username email password role clock db).0
apply_call lib reached now (accepts commit id raw username password clock) db =
    (accept_invitation lib reached commit id raw username password now clock db).0
apply_call lib reached now (withdraws id) db = (revoke_invitation_row lib reached id now db).0

unfoldable pub run : Library → List Event → Db → Db
unfolding apply_call
run lib [] db = db
run lib (e ∷ es) db = run lib es (apply_call lib e.reached e.now e.call db)

-- A row with this token is accepted.
abbrev pub Used : Bytes → Invitation → Type 0
Used hash i = has_token hash i ≡ true → is_none i.accepted_at ≡ false

-- There is a row with this token, and every such row is accepted.
abbrev pub IsUsed : Bytes → Db → Type 0
IsUsed hash db = (any (has_token hash) db.invitations ≡ true) × All (Used hash) db.invitations

pub Used-found :
    (hash : Bytes) (rows : List Invitation) (i : Invitation)
    → Distinct same_token rows
    → find_first (has_token hash) rows ≡ some i
    → is_none i.accepted_at ≡ false
    → (any (has_token hash) rows ≡ true) × All (Used hash) rows
Used-found hash [] i h e k = absurd (ground (arith, e))
Used-found hash (r ∷ rs) i h e k = elim (Bool-cases (has_token hash r)) [
  | inl hit ↦
      let same : r ≡ i = ground (arith, hit, e) in
      let rest = All-none (has_token hash) rs (others hash r rs h.0 hit) in
      (
        ground (arith, hit),
        (
          (λ _. subst (λ (x : Invitation). is_none x.accepted_at ≡ false) (sym same) k),
          All-map (λ x off on. absurd (ground (arith, off, on))) rs rest,
        ),
      )
  | inr miss ↦
      let rest = Used-found hash rs i h.1 (ground (arith, miss, e)) k in
      (ground (arith, rest.0), ((λ on. absurd (ground (arith, miss, on))), rest.1))
]

pub updated :
    (hash : Bytes) (p : Invitation → Bool) (f : Invitation → Invitation) (rows : List Invitation)
    → ((x : Invitation) → (f x).token_hash ≡ x.token_hash)
    → ((x : Invitation) → is_none x.accepted_at ≡ false → is_none (f x).accepted_at ≡ false)
    → (any (has_token hash) rows ≡ true) × All (Used hash) rows
    → (any (has_token hash) (update_where p f rows) ≡ true)
      × All (Used hash) (update_where p f rows)
updated hash p f rows tokens stays h = (
  any-updated (has_token hash) p f rows (each rows) h.0,
  All-update (Used hash) (Used hash) p f rows (kept rows) h.1,
)
  where
    moved : (x : Invitation) → has_token hash (f x) ≡ has_token hash x
    moved x = ap (λ t. t == hash) (tokens x)

    each :
        (xs : List Invitation)
        → All (λ x. has_token hash x ≡ true → has_token hash (if p x then f x else x) ≡ true) xs
    each [] = tt
    each (x ∷ xs) = ((λ on. ground (arith, on, moved x)), each xs)

    one : (x : Invitation) (b : Bool) → Used hash x → Used hash (if b then f x else x)
    one x true u = λ on. stays x (u (sym (moved x) ∙ on))
    one x false u = u

    kept : (xs : List Invitation) → All (λ x. Used hash x → Used hash (if p x then f x else x)) xs
    kept [] = tt
    kept (x ∷ xs) = (one x (p x), kept xs)
