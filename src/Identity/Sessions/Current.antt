-- ===== src/Identity/Sessions/Current.antt =====
-- What CurrentUser of internal/identity/store.go answers: the row behind a browser token.
use shauth.Common.{
  ℕ, String, Bool, true, false, Option, none, some, ◌≡◌, sym, ◌∙◌, subst, ap, arith, ok, find_first,
  find_first_sound, ◌==◌, string_eq, bytes_eq, ◌&&◌, >>=-eq-ok, query-eq-ok, return-eq-ok,
  fail-ne-ok, >>-eq-ok, All, All-find_first, &&-eq-true, if◌then◌else◌, inl, inr, Option-cases,
}
use shauth.Identity.Policy.{SessionPolicy, IsSound, idle_micros}
use shauth.Identity.Rows.{
  User, Session, Db, Site, Error, Library, is_active_user, is_in_force, no_session,
}
use shauth.Identity.Sessions.{expect, find_current, record_activity, current_user}
use shauth.Identity.Sessions.Stable.{session_policy-IsSound}

pub expect-eq-ok :
    {A : Type 0} (o : Option A) (e : Error) (db : Db) (a : A) (db' : Db)
    → expect o e db ≡ ok (a, db')
    → (o ≡ some a) × (db' ≡ db)
unfolding expect
expect-eq-ok none e db a db' h = absurd (fail-ne-ok e db a db' h)
expect-eq-ok (some b) e db a db' h =
    let (same, rows) = return-eq-ok b db a db' h in (ap some (sym same), rows)

-- The session as CurrentUser returns it.
abbrev pub seen : Bool → ℕ → Session → Session
seen touch now s = if touch then record s { last_seen = now } else s

record_activity-eq-ok :
    (lib : Library) (reached : Site → Bool) (touch : Bool) (now : ℕ) (found : User × Session)
    (db : Db) (u : User) (s : Session) (db' : Db)
    → record_activity lib reached touch now found db ≡ ok ((u, s), db')
    → (u ≡ found.0) × (s ≡ seen touch now found.1)
unfolding record_activity
record_activity-eq-ok lib reached false now found db u s db' h =
    let (same, _) = return-eq-ok found db (u, s) db' h in (ap (λ x. x.0) same, ap (λ x. x.1) same)
record_activity-eq-ok lib reached true now (u0, s0) db u s db' h =
    let (mid, _, rest) = >>-eq-ok _ _ db (u, s) db' h in
    let (same, _) = return-eq-ok (u0, record s0 { last_seen = now }) mid (u, s) db' rest in
    (ap (λ x. x.0) same, ap (λ x. x.1) same)

find_current-eq-some :
    (lib : Library) (reached : Site → Bool) (p : SessionPolicy) (raw : String) (now : ℕ) (db : Db)
    (u : User) (s : Session)
    → find_current lib reached p raw now db ≡ some (u, s)
    → (find_first
          (λ s. s.browser_token_hash == lib.sha256 raw && is_in_force now (idle_micros p) s)
          db.sessions
        ≡ some s)
      × (find_first (is_active_user s.user_id) db.users ≡ some u)
unfolding find_current
find_current-eq-some lib reached p raw now db u s e =
    go
      (find_first (λ s. s.browser_token_hash == lib.sha256 raw && is_in_force now (idle_micros p) s)
        db.sessions)
      e
  where
    go :
        (o : Option Session)
        → (let found : Option (User × Session) = elim o [
          | none ↦ none
          | some s ↦ elim (find_first (is_active_user s.user_id) db.users) [
            | none ↦ none
            | some u ↦ some (u, s)
          ]
        ] in
            found ≡ some (u, s))
        → (o ≡ some s) × (find_first (is_active_user s.user_id) db.users ≡ some u)
    go none h = absurd (ground arith)
    go (some t) h = elim (Option-cases (find_first (is_active_user t.user_id) db.users)) [
      | inl missing ↦ absurd (ground arith)
      | inr (v, account) ↦
          let row : t ≡ s = ground (arith, account) in
          let holder : v ≡ u = ground (arith, account) in
          (
            ap some row,
            subst (λ x. find_first (is_active_user x.user_id) db.users ≡ some u) row
                (account ∙ ap some holder),
          )
    ]

-- The row and the account behind an answer of CurrentUser.
pub current_user-row :
    (lib : Library) (reached : Site → Bool) (touch : Bool) (raw : String) (now : ℕ) (db : Db)
    (u : User) (session : Session) (db' : Db)
    → current_user lib reached touch raw now db ≡ ok ((u, session), db')
    → (p : SessionPolicy) × (s : Session) × IsSound p
      × (session ≡ seen touch now s)
      × (find_first
            (λ s. s.browser_token_hash == lib.sha256 raw && is_in_force now (idle_micros p) s)
            db.sessions
          ≡ some s)
      × (find_first (is_active_user s.user_id) db.users ≡ some u)
unfolding current_user
current_user-row lib reached touch raw now db u session db' e =
    let (p, db1, policy, e1) = >>=-eq-ok _ _ db (u, session) db' e in
    let (sound, same1) = session_policy-IsSound lib reached db p db1 policy in
    let (found, db2, read, e2) = >>=-eq-ok _ _ db1 (u, session) db' e1 in
    let (_, answer, same2) = query-eq-ok _ _ _ db1 found db2 read in
    let ((v, s), db3, good, e3) = >>=-eq-ok _ _ db2 (u, session) db' e2 in
    let (hit, _) = expect-eq-ok found no_session db2 (v, s) db3 good in
    let (holder, stamped) =
      record_activity-eq-ok lib reached touch now (v, s) db3 u session db' e3 in
    let (row, account) =
      find_current-eq-some lib reached p raw now db v s (
        subst (λ d. find_current lib reached p raw now d ≡ some (v, s)) same1 (sym answer ∙ hit)) in
    (p, s, sound, stamped, row, account ∙ ap some (sym holder))

-- The row behind an answer has what every row has, and is in force.
pub current_user-All :
    (P : Session → Type 0) (lib : Library) (reached : Site → Bool) (touch : Bool) (raw : String)
    (now : ℕ) (db : Db) (u : User) (session : Session) (db' : Db)
    → All P db.sessions
    → current_user lib reached touch raw now db ≡ ok ((u, session), db')
    → (s : Session) × (idle : ℕ) × P s
      × (is_in_force now idle s ≡ true)
      × (session ≡ seen touch now s)
      × (find_first (is_active_user s.user_id) db.users ≡ some u)
current_user-All P lib reached touch raw now db u session db' h e =
    let (p, s, _, stamped, found, account) =
      current_user-row lib reached touch raw now db u session db' e in
    let matches : Session → Bool =
      λ s. s.browser_token_hash == lib.sha256 raw && is_in_force now (idle_micros p) s in
    (
      s,
      idle_micros p,
      All-find_first P matches db.sessions s h found,
      (&&-eq-true _ _ (find_first_sound matches db.sessions s found)).1,
      stamped,
      account,
    )
