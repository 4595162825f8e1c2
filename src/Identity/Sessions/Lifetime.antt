-- ===== src/Identity/Sessions/Lifetime.antt =====
-- How long browser sessions of internal/identity/store.go last, over every history.
use shauth.Common.{
  ℕ, ◌+◌, ◌*◌, ◌<◌, ◌≤◌, String, Bool, true, false, List, ◌≡◌, arith, ok, All, All-update_where,
  string_eq, bytes_eq,
}
use shauth.Identity.Policy.{day}
use shauth.Identity.Rows.{User, Session, Db, Site, Library, is_in_force}
use shauth.Identity.Sessions.{current_user, outlives, shorten}
use shauth.Identity.Sessions.Current.{current_user-All, seen}
use shauth.Identity.Sessions.History.{Event, run, run-Keeps, any_enables}
use shauth.Identity.Sessions.Stable.{IsStable}

abbrev pub IsBounded : Session → Type 0
IsBounded s = s.expires_at ≤ s.created_at + 90 * day

AreBounded : List User → List Session → Type 0
AreBounded users sessions = All IsBounded sessions

bounds : IsStable AreBounded (λ id. Unit {0})
unfolding AreBounded
bounds = record {
  created = λ users sessions s active fresh bounded h. (bounded, h);
  revoked = λ users sessions p now h. All-update_where IsBounded p _ sessions (λ s hit b. b) h;
  touched = λ users sessions p now h. All-update_where IsBounded p _ sessions (λ s hit b. b) h;
  shortened = λ users sessions lifetime h.
      All-update_where IsBounded (outlives lifetime) (shorten lifetime) sessions
        (λ s hit b. ground (arith, b)) h;
  disabled = λ users sessions id now h. h;
  enabled = λ users sessions id may h. h;
}

-- From a database in which no session outlasts 90 days (an empty one, for instance), after any
-- history of the operations on accounts and sessions, policy changes included, no browser session
-- authenticates later than 90 days after it was created.
pub current_user-run-IsBounded :
    (es : List Event) (db : Db) (lib : Library) (reached : Site → Bool) (touch : Bool)
    (raw : String) (now : ℕ) (u : User) (s : Session) (after : Db)
    → All IsBounded db.sessions
    → current_user lib reached touch raw now (run es db) ≡ ok ((u, s), after)
    → now < s.created_at + 90 * day
unfolding AreBounded
current_user-run-IsBounded es db lib reached touch raw now u s after bounded e =
    let rows = run-Keeps bounds es db (any_enables es) bounded in
    let (row, idle, limit, force, stamped, _) =
      current_user-All IsBounded lib reached touch raw now _ u s after rows e in
    rw stamped (go touch row idle limit force)
  where
    go :
        (touch : Bool) (row : Session) (idle : ℕ)
        → IsBounded row
        → is_in_force now idle row ≡ true
        → now < (seen touch now row).created_at + 90 * day
    go true row idle b f = ground (arith, b, f)
    go false row idle b f = ground (arith, b, f)
