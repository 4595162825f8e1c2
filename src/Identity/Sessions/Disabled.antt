-- ===== src/Identity/Sessions/Disabled.antt =====
-- DisableUser of internal/identity/store.go against every later history.
use shauth.Common.{
  ℕ, String, Bool, true, false, none, some, List, [], ◌∷◌, ◌≡◌, ◌≢◌, refl, sym, ◌∙◌, subst, arith,
  Commit, ok, All, All-find_first, All-update_where, All-updated, any, find_first_sound, ◌==◌,
  string_eq, bytes_eq, is_none, ◌&&◌, Leads, exec-Leads, >>-Leads, >>=-Leads, query_then-Leads,
  return-Keeps, transaction-Leads, eq_iff, insert_by, order_by, map, keep, ==_refl, All-map,
}
use shauth.Identity.Rows.{User, Session, Db, Site, Library, revoke_at, member, is_active_user}
use shauth.Identity.Sessions.{
  current_user, disable_user, disable_in_transaction, snapshot_user_sessions,
  revoke_session_snapshot, user_session_ids, revoke_ids, outlives, shorten,
}
use shauth.Identity.Sessions.Current.{current_user-All}
use shauth.Identity.Sessions.History.{Event, run, run-Keeps, enables}
use shauth.Identity.Sessions.Stable.{IsStable}

abbrev pub IsShut : String → User → Type 0
IsShut user u = u.id == user ≡ true → is_none u.disabled_at ≡ false

abbrev pub IsOut : String → Session → Type 0
IsOut user s = s.user_id == user ≡ true → is_none s.revoked_at ≡ false

AreOut : String → List User → List Session → Type 0
AreOut user users sessions = All (IsShut user) users × All (IsOut user) sessions

-- No active account has the identifier of a disabled one.
active_other :
    (user id : String) (users : List User)
    → All (IsShut user) users
    → any (is_active_user id) users ≡ true
    → id == user ≡ false
active_other user id [] h k = absurd (ground arith)
active_other user id (u ∷ us) h k =
    ground
      (arith, h.0, active_other user id us h.1, eq_iff u.id id, eq_iff u.id user, eq_iff id user)

abbrev marked : ℕ → User → User
marked now u = record u { disabled_at = some (elim u.disabled_at [ none ↦ now | some t ↦ t ]) }

module _ (user : String) where
  shut : IsStable (AreOut user) (λ id. id ≢ user)
  unfolding AreOut
  shut = record {
    created = λ users sessions s active fresh bounded h. (
      h.0,
      ((λ named. absurd (ground (arith, active_other user s.user_id users h.0 active))), h.1),
    );
    revoked = λ users sessions p now h.
        (h.0, All-update_where (IsOut user) p (revoke_at now) sessions (λ s hit b named. refl) h.1);
    touched = λ users sessions p now h. (
      h.0,
      All-update_where (IsOut user) p (λ s. record s { last_seen = now }) sessions (λ s hit b. b)
          h.1,
    );
    shortened = λ users sessions lifetime h. (
      h.0,
      All-update_where (IsOut user) (outlives lifetime) (shorten lifetime) sessions (λ s hit b. b)
          h.1,
    );
    disabled = λ users sessions id now h. (
      All-update_where (IsShut user) (λ u. u.id == id) (marked now) users (λ u hit b named. refl)
          h.0,
      h.1,
    );
    enabled = λ users sessions id other h. (
      All-update_where (IsShut user) (λ u. u.id == id) (λ u. record u { disabled_at = none }) users
          (λ u hit b named.
            absurd (ground (arith, other, hit, named, eq_iff u.id id, eq_iff u.id user)))
          h.0,
      h.1,
    );
  }

-- Sorting keeps every element.
member-insert_by :
    (key : String → ℕ) (x y : String) (ys : List String)
    → member x (insert_by key y ys) ≡ member x (y ∷ ys)
unfolding insert_by
member-insert_by key x y [] = refl
member-insert_by key x y (z ∷ zs) = ground (arith, member-insert_by key x y zs)

member-order_by :
    (key : String → ℕ) (x : String) (ys : List String) → member x (order_by key ys) ≡ member x ys
unfolding order_by
member-order_by key x [] = refl
member-order_by key x (y ∷ ys) =
    member-insert_by key x y (order_by key ys) ∙ rw (member-order_by key x ys)

module _ (user : String) where
  abbrev ids : List Session → List String
  ids sessions =
      map (λ (s : Session). s.id) (keep (λ s. s.user_id == user && is_none s.revoked_at) sessions)

  abbrev Listed : List String → Session → Type 0
  Listed listed s =
      s.user_id == user ≡ true → is_none s.revoked_at ≡ true → member s.id listed ≡ true

  -- Every unrevoked session of the account is in its snapshot.
  All-Listed : (sessions : List Session) → All (Listed (ids sessions)) sessions
  All-Listed [] = tt
  All-Listed (s ∷ ss) = (
    (λ named good. ground (arith, ==_refl s.id)),
    All-map (λ r listed named good. ground (arith, listed named good)) ss (All-Listed ss),
  )

  snapshot-Listed :
      (lib : Library) (sessions : List Session)
      → All (Listed (user_session_ids lib user sessions)) sessions
  unfolding user_session_ids
  snapshot-Listed lib sessions =
      All-map
        (λ r listed named good. member-order_by lib.collate r.id (ids sessions) ∙ listed named good)
        sessions (All-Listed sessions)

  revoke_ids-AreOut :
      (listed : List String) (now : ℕ) (sessions : List Session)
      → All (Listed listed) sessions
      → All (IsOut user) (revoke_ids listed now sessions)
  unfolding revoke_ids
  revoke_ids-AreOut listed now [] h = tt
  revoke_ids-AreOut listed now (s ∷ ss) h =
      (ground (arith, h.0), revoke_ids-AreOut listed now ss h.1)

  disable_in_transaction-AreOut :
      (lib : Library) (reached : Site → Bool) (now : ℕ)
      → Leads
          (λ db. Unit {0})
          (λ db. AreOut user db.users db.sessions)
          (disable_in_transaction lib reached user now)
  unfolding disable_in_transaction snapshot_user_sessions revoke_session_snapshot AreOut
  disable_in_transaction-AreOut lib reached now =
      >>-Leads Any Any Done _ _ (λ s a s' h e. tt)
        (>>=-Leads Any Any Done _ _ (λ s a s' h e. tt)
          λ found.
            >>=-Leads Any Any Done _ _ (λ s a s' h e. tt)
              λ account.
                >>-Leads Any Any Done _ _ (λ s a s' h e. tt)
                  (query_then-Leads Any Done _ _ _ _ λ db any.
                    query_then-Leads (λ t. t ≡ db) Done _ _ _ _
                      λ t same.
                        >>-Leads (λ r. r ≡ t) Out Done _ _
                          (exec-Leads (λ r. r ≡ t) Out _ _ _
                            λ r again. revoke_ids-AreOut _ now r.sessions (
                              subst
                                (λ (d : Db).
                                  All (Listed (user_session_ids lib user db.sessions)) d.sessions)
                                (sym (again ∙ same)) (snapshot-Listed lib db.sessions)))
                          (>>-Leads Out Done Done _ _
                            (exec-Leads Out Done _ _ _ λ r out. (
                              All-updated (IsShut user) (λ u. u.id == user) (marked now) r.users
                                  (λ u. ground arith),
                              out,
                            ))
                            (return-Keeps Done _))))
    where
      Any : Db → Type 0
      Any db = Unit {0}

      Out : Db → Type 0
      Out db = All (IsOut user) db.sessions

      Done : Db → Type 0
      Done db = All (IsShut user) db.users × All (IsOut user) db.sessions

-- What every later history without enabling keeps of the account and of its sessions.
pub disable_user-stays :
    (lib : Library) (reached : Site → Bool) (commit : Commit) (user : String) (now : ℕ) (db : Db)
    (hydra_ids : List String) (es : List Event)
    → (disable_user lib reached commit user now db).1 ≡ ok hydra_ids
    → All (λ e. (id : String) → e.call ≡ enables id → id ≢ user) es
    → All (IsShut user) (run es (disable_user lib reached commit user now db).0).users
      × All (IsOut user) (run es (disable_user lib reached commit user now db).0).sessions
unfolding disable_user AreOut
disable_user-stays lib reached commit user now db hydra_ids es done kept =
    run-Keeps (shut user) es _ kept (
      transaction-Leads (λ db. Unit {0}) (λ db. AreOut user db.users db.sessions) _ commit _ db
        hydra_ids (disable_in_transaction-AreOut user lib reached now) tt done)

-- After DisableUser succeeds, and whatever history of the operations on accounts and sessions
-- follows in which the account is not enabled, no browser token authenticates the account.
pub current_user-disable_user :
    (lib : Library) (reached : Site → Bool) (commit : Commit) (user : String) (now : ℕ) (db : Db)
    (hydra_ids : List String) (es : List Event) (reading : Library) (answers : Site → Bool)
    (touch : Bool) (raw : String) (later : ℕ) (u : User) (s : Session) (after : Db)
    → (disable_user lib reached commit user now db).1 ≡ ok hydra_ids
    → All (λ e. (id : String) → e.call ≡ enables id → id ≢ user) es
    → current_user reading answers touch raw later
        (run es (disable_user lib reached commit user now db).0)
      ≡ ok ((u, s), after)
    → u.id ≢ user
current_user-disable_user lib reached commit user now db hydra_ids es reading answers touch raw
      later u s after done kept e same =
    let kept_out = disable_user-stays lib reached commit user now db hydra_ids es done kept in
    let (row, _, _, _, _, account) =
      current_user-All (IsOut user) reading answers touch raw later _ u s after kept_out.1 e in
    let shut_u = All-find_first (IsShut user) (is_active_user row.user_id) _ u kept_out.0 account in
    let active = find_first_sound (is_active_user row.user_id) _ u account in
    ground (arith, shut_u, active, same, eq_iff u.id user)
