-- ===== src/Identity/Sessions/Revoked.antt =====
-- RevokeSession of internal/identity/store.go against every later history.
use shauth.Common.{
  ℕ, String, Bool, true, false, List, [], ◌∷◌, ◌≡◌, ◌≢◌, refl, ◌∙◌, arith, ok, All,
  All-update_where, All-updated, any, any-update_where, ◌==◌, string_eq, bytes_eq, is_none, ◌&&◌,
  ◌||◌, exec-Leads, require_then-Leads, query_then-Leads, update_where, eq_iff, statement-Leads,
}
use shauth.Identity.Rows.{User, Session, Db, Site, Library, is_in_force, revoke_at}
use shauth.Identity.Sessions.{current_user, revoke_session, outlives, shorten}
use shauth.Identity.Sessions.Current.{current_user-All, seen}
use shauth.Identity.Sessions.History.{Event, run, run-Keeps, any_enables}
use shauth.Identity.Sessions.Stable.{IsStable}

abbrev IsRevoked : String → Session → Type 0
IsRevoked id s = s.id == id ≡ true → is_none s.revoked_at ≡ false

AreRevoked : String → List User → List Session → Type 0
AreRevoked id users sessions =
    (any (λ (s : Session). s.id == id) sessions ≡ true) × All (IsRevoked id) sessions

-- A session whose identifier is new cannot take one that is in use.
fresh_id :
    (id : String) (s : Session) (sessions : List Session)
    → any (λ (o : Session). o.id == s.id || o.browser_token_hash == s.browser_token_hash) sessions
      ≡ false
    → any (λ (o : Session). o.id == id) sessions ≡ true
    → s.id == id ≡ false
fresh_id id s [] h k = absurd (ground arith)
fresh_id id s (o ∷ os) h k =
    ground (arith, fresh_id id s os, eq_iff o.id s.id, eq_iff o.id id, eq_iff s.id id)

module _ (id : String) where
  updated :
      (users : List User) (sessions : List Session) (p : Session → Bool) (f : Session → Session)
      → ((s : Session) → (f s).id ≡ s.id)
      → ((s : Session) → is_none s.revoked_at ≡ false → is_none (f s).revoked_at ≡ false)
      → AreRevoked id users sessions
      → AreRevoked id users (update_where p f sessions)
  unfolding AreRevoked
  updated users sessions p f same kept h = (
    any-update_where _ p f sessions (λ s. rw (same s)) ∙ h.0,
    All-update_where (IsRevoked id) p f sessions
        (λ s hit b named. kept s (b (rw (same s) at named))) h.1,
  )

  ended : IsStable (AreRevoked id) (λ _. Unit {0})
  unfolding AreRevoked
  ended = record {
    created = λ users sessions s active fresh bounded h. (
      ground (arith, h.0),
      ((λ named. absurd (ground (arith, fresh_id id s sessions fresh h.0))), h.1),
    );
    revoked = λ users sessions p now h.
        updated users sessions p (revoke_at now) (λ s. refl) (λ s b. refl) h;
    touched = λ users sessions p now h.
        updated users sessions p (λ s. record s { last_seen = now }) (λ s. refl) (λ s b. b) h;
    shortened = λ users sessions lifetime h.
        updated users sessions (outlives lifetime) (shorten lifetime) (λ s. refl) (λ s b. b) h;
    disabled = λ users sessions user now h. h;
    enabled = λ users sessions user may h. h;
  }

-- The statement revokes every session that has the identifier.
revoke_session-AreRevoked :
    (lib : Library) (reached : Site → Bool) (id : String) (now : ℕ) (db : Db)
    → (revoke_session lib reached id now db).1 ≡ ok tt
    → AreRevoked id
        (revoke_session lib reached id now db).0.users
        (revoke_session lib reached id now db).0.sessions
unfolding revoke_session AreRevoked
revoke_session-AreRevoked lib reached id now db e =
    statement-Leads (λ t. t ≡ db) (λ t. AreRevoked id t.users t.sessions) _ db tt
      (query_then-Leads (λ t. t ≡ db) _ _ _ _ _
        λ s start.
          require_then-Leads (λ t. t ≡ s) _ _ _ _
            λ active.
              exec-Leads (λ t. t ≡ s) _ _ _ _
                λ t same. (
                  any-update_where _ _ (revoke_at now) t.sessions (λ s. refl)
                      ∙ named t.sessions (rw same active),
                  All-updated (IsRevoked id) (λ s. s.id == id && is_none s.revoked_at)
                      (revoke_at now) t.sessions (λ s. ground arith),
                ))
      refl e
  where
    named :
        (sessions : List Session)
        → any (λ (s : Session). s.id == id && is_none s.revoked_at) sessions ≡ true
        → any (λ (s : Session). s.id == id) sessions ≡ true
    named [] h = h
    named (s ∷ ss) h = ground (arith, named ss)

-- After RevokeSession succeeds, and whatever history of the operations on accounts and sessions
-- follows, no browser token ever again authenticates as the session of that identifier.
pub current_user-revoke_session :
    (lib : Library) (reached : Site → Bool) (id : String) (now : ℕ) (db : Db) (es : List Event)
    (reading : Library) (answers : Site → Bool) (touch : Bool) (raw : String) (later : ℕ) (u : User)
    (s : Session) (after : Db)
    → (revoke_session lib reached id now db).1 ≡ ok tt
    → current_user reading answers touch raw later (run es (revoke_session lib reached id now db).0)
      ≡ ok ((u, s), after)
    → s.id ≢ id
unfolding AreRevoked
current_user-revoke_session lib reached id now db es reading answers touch raw later u s after done
      e same =
    let rows =
      run-Keeps (ended id) es _ (any_enables es)
        (revoke_session-AreRevoked lib reached id now db done) in
    let (row, idle, gone, force, stamped, _) =
      current_user-All (IsRevoked id) reading answers touch raw later _ u s after rows.1 e in
    go touch row idle gone force (rw stamped at same)
  where
    go :
        (touch : Bool) (row : Session) (idle : ℕ)
        → IsRevoked id row
        → is_in_force later idle row ≡ true
        → (seen touch later row).id ≢ id
    go true row idle b f same = ground (arith, b, f, eq_iff row.id id)
    go false row idle b f same = ground (arith, b, f, eq_iff row.id id)
