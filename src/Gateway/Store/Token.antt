-- ===== src/Gateway/Store/Token.antt =====
-- RevokeToken of internal/gateway/store.go against the cookie that it ends.
use shauth.Common.{
  ℕ, Bool, true, false, ◌&&◌, ◌≡◌, ◌≢◌, arith, ok, All, All-updated, All-find_first,
  find_first_sound, ◌==◌, string_eq, bytes_eq, is_none, statement-Leads, exec-Leads, String, List,
  refl, Keeps, >>-Keeps, >>=-Keeps, exec-Keeps, query-Keeps, require-Keeps, All-delete_first,
  All-update_where, bytes_eq_iff,
}
use shauth.Gateway.Store.{
  Bytes, Session, SessionRow, Db, Crypto, Store, Site, find, matches_cookie, revoke_browser_token,
  revoke_at, insert_unless_tombstoned, insert_row, insert_logout_token, delete_ended_sessions,
}
use shauth.Gateway.Store.Stable.{Event, IsStableFor, IsFresh, run, run-Keeps_fresh}
use shauth.Gateway.Store.Logout.{find-row}

-- Of the sessions that a revoked token has, none is unrevoked.
IsOut : Crypto → Store → Bytes → SessionRow → Type 0
IsOut crypto store token s =
    s.client_id == store.client_id ≡ true
    → s.token_hash == crypto.sha256 token ≡ true
    → is_none s.revoked_at ≡ false

revoke_browser_token-IsOut :
    (crypto : Crypto) (store : Store) (reached : Site → Bool) (token : Bytes) (now : ℕ) (db : Db)
    → (revoke_browser_token crypto store reached token now db).1 ≡ ok tt
    → All
        (IsOut crypto store token)
        (revoke_browser_token crypto store reached token now db).0.sessions
unfolding revoke_browser_token IsOut
revoke_browser_token-IsOut crypto store reached token now db e =
    statement-Leads (λ db. Unit {0}) (λ db. All (IsOut crypto store token) db.sessions) _ db tt
      (exec-Leads (λ db. Unit {0}) _ _ _ _
        λ t u.
          All-updated (IsOut crypto store token)
            (λ s.
              s.client_id == store.client_id
              && (s.token_hash == crypto.sha256 token && is_none s.revoked_at))
            (revoke_at now) t.sessions (λ s. ground arith))
      tt e

-- A row with another hash than the token's.
abbrev pub IsOther : Crypto → Bytes → SessionRow → Type 0
IsOther crypto token row = row.token_hash ≢ crypto.sha256 token

module _ (crypto : Crypto) (store : Store) (token : Bytes) (other : Store) (reached : Site → Bool)
    (now : ℕ) where
  abbrev Out : Db → Type 0
  Out db = All (IsOut crypto store token) db.sessions

  insert_unless_tombstoned-Out :
      (row : SessionRow)
      → IsOther crypto token row
      → Keeps Out (insert_unless_tombstoned other reached row now)
  unfolding insert_unless_tombstoned insert_row IsOut
  insert_unless_tombstoned-Out row away = >>=-Keeps Out _ _ (query-Keeps Out _ _ _) λ tombstoned.
      >>-Keeps Out _ _ (require-Keeps Out _ _) (
        >>-Keeps Out _ _ (exec-Keeps Out _ _ _ (λ db h. h)) (
          >>=-Keeps Out _ _ (query-Keeps Out _ _ _) λ fits.
            >>-Keeps Out _ _ (require-Keeps Out _ _) (
              exec-Keeps Out _ _ _ λ db h. (
                (λ client same.
                    absurd (away ((bytes_eq_iff row.token_hash (crypto.sha256 token)).0 same))),
                h,
              ))))

  insert_logout_token-Out :
      (jti : String) (expires_at : ℕ) → Keeps Out (insert_logout_token other reached jti expires_at)
  unfolding insert_logout_token
  insert_logout_token-Out jti expires_at = >>-Keeps Out _ _ (exec-Keeps Out _ _ _ (λ db h. h)) (
      >>=-Keeps Out _ _ (query-Keeps Out _ _ _)
        λ spent. >>-Keeps Out _ _ (require-Keeps Out _ _) (exec-Keeps Out _ _ _ (λ db h. h)))

  Out-IsStable : IsStableFor (IsOther crypto token) Out other reached now
  unfolding delete_ended_sessions IsOut
  Out-IsStable = record {
    swept_tombstones = λ db h. h;
    swept_tokens = λ db h. h;
    swept_sessions = λ db h. All-delete_first (IsOut crypto store token) _ _ db.sessions h;
    stored = λ row c i away. insert_unless_tombstoned-Out row away;
    spent = insert_logout_token-Out;
    marked = λ v db h. h;
    revoked = λ p db h.
        All-update_where (IsOut crypto store token) p (revoke_at now) db.sessions
          (λ s hit out client same. refl) h;
  }

-- A token that was revoked finds no session, whatever the gateways do afterwards that stores no
-- session under a token of the same hash.
pub find-revoke_browser_token :
    (crypto : Crypto) (store : Store) (reached reading : Site → Bool) (token : Bytes)
    (now later : ℕ) (db : Db) (es : List Event) (s : Session)
    → (revoke_browser_token crypto store reached token now db).1 ≡ ok tt
    → All (λ e. IsFresh (IsOther crypto token) e e.call) es
    → find crypto store reading token later
        (run es (revoke_browser_token crypto store reached token now db).0)
      ≢ ok s
unfolding matches_cookie IsOut
find-revoke_browser_token crypto store reached reading token now later db es s done fresh e =
    let (row, found, _) = find-row crypto store reading token later _ s e in
    let out =
      All-find_first (IsOut crypto store token)
        (matches_cookie crypto store (crypto.sha256 token) later) _ row
        (run-Keeps_fresh (IsOther crypto token) (λ db. All (IsOut crypto store token) db.sessions)
          es _ (λ e. Out-IsStable crypto store token e.store e.reached e.now) fresh
          (revoke_browser_token-IsOut crypto store reached token now db done))
        found in
    let hit =
      find_first_sound (matches_cookie crypto store (crypto.sha256 token) later) _ row found in
    ground (arith, out, hit)
