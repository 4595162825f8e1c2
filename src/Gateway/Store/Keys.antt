-- ===== src/Gateway/Store/Keys.antt =====
-- The primary keys and unique columns of the three tables, which every operation keeps.
use shauth.Common.{
  ℕ, String, Bool, false, ◌||◌, ◌&&◌, List, [], ◌∷◌, ◌≡◌, refl, arith, Keeps, exec-Keeps,
  require-Keeps, query-Keeps, >>=-Keeps, >>-Keeps, query_then-Leads, require_then-Leads, exec-Leads,
  subst, sym, any, Distinct, Distinct-keep, Distinct-delete_first, Distinct-update_where, eq_iff,
  ◌==◌, string_eq, bytes_eq, Bool-cases, inl, inr,
}
use shauth.Gateway.Store.Stable.{IsStable}
use shauth.Gateway.Store.{
  SessionRow, LogoutToken, Tombstone, Db, Store, Site, same_tombstone, delete_expired_tombstones,
  delete_expired_tokens, delete_ended_sessions, upsert_tombstone, revoke_at, is_insertable,
  insert_row, insert_unless_tombstoned, insert_logout_token,
}

abbrev pub same_session : SessionRow → SessionRow → Bool
same_session r s = s.id == r.id || s.token_hash == r.token_hash

abbrev pub same_token : LogoutToken → LogoutToken → Bool
same_token r t = t.client_id == r.client_id && t.token_id == r.token_id

pub record IsKeyed (db : Db) : Type 0 where
  pub sessions : Distinct same_session db.sessions
  pub tokens : Distinct same_token db.tokens
  pub tombstones : Distinct same_tombstone db.tombstones

any-upsert_tombstone :
    (r v : Tombstone) (rows : List Tombstone)
    → any (same_tombstone r) rows ≡ false
    → same_tombstone r v ≡ false
    → any (same_tombstone r) (upsert_tombstone v rows) ≡ false
unfolding upsert_tombstone
any-upsert_tombstone r v [] h k = ground arith
any-upsert_tombstone r v (t ∷ ts) h k = ground (arith, any-upsert_tombstone r v ts)

same_tombstone_sym : (v t : Tombstone) → same_tombstone v t ≡ same_tombstone t v
same_tombstone_sym v t = ground (
  arith,
  eq_iff v.client_id t.client_id,
  eq_iff t.client_id v.client_id,
  eq_iff v.issuer t.issuer,
  eq_iff t.issuer v.issuer,
  eq_iff v.provider_session_id t.provider_session_id,
  eq_iff t.provider_session_id v.provider_session_id,
)

upsert_tombstone-Distinct :
    (v : Tombstone) (rows : List Tombstone)
    → Distinct same_tombstone rows
    → Distinct same_tombstone (upsert_tombstone v rows)
unfolding upsert_tombstone
upsert_tombstone-Distinct v [] h = (refl, tt)
upsert_tombstone-Distinct v (t ∷ ts) h = elim (Bool-cases (same_tombstone v t)) [
  | inl same ↦ rw same h
  | inr other ↦ rw other (
    any-upsert_tombstone t v ts h.0 (ground (arith, same_tombstone_sym v t)),
    upsert_tombstone-Distinct v ts h.1,
  )
]

module _ (store : Store) (reached : Site → Bool) (now : ℕ) where
  insert_logout_token-IsKeyed :
      (jti : String) (expires_at : ℕ)
      → Keeps IsKeyed (insert_logout_token store reached jti expires_at)
  unfolding insert_logout_token
  insert_logout_token-IsKeyed jti expires_at =
      >>-Keeps IsKeyed _ _ (exec-Keeps IsKeyed _ _ _ (λ db f. f)) (
        query_then-Leads IsKeyed IsKeyed _ _ _ _ λ db f.
          require_then-Leads (λ t. t ≡ db) IsKeyed _ _ _
            λ unspent.
              exec-Leads (λ t. t ≡ db) IsKeyed _ _ _
                λ t same.
                  subst
                    (λ (t : Db). IsKeyed (record t {
                      tokens =
                          record {
                            client_id = store.client_id;
                            token_id = jti;
                            expires_at = expires_at;
                          }
                          ∷ t.tokens;
                    }))
                    (sym same)
                    (record {
                      sessions = f.sessions;
                      tokens = (ground arith, f.tokens);
                      tombstones = f.tombstones;
                    }))

  insert_row-IsKeyed : (row : SessionRow) → Keeps IsKeyed (insert_row store reached row)
  unfolding insert_row is_insertable
  insert_row-IsKeyed row = >>-Keeps IsKeyed _ _ (exec-Keeps IsKeyed _ _ _ (λ db f. f)) (
      query_then-Leads IsKeyed IsKeyed _ _ _ _ λ db f.
        require_then-Leads (λ t. t ≡ db) IsKeyed _ _ _
          λ fits.
            exec-Leads (λ t. t ≡ db) IsKeyed _ _ _
              λ t same.
                subst (λ (t : Db). IsKeyed (record t { sessions = row ∷ t.sessions })) (sym same)
                  (record {
                    sessions = (ground arith, f.sessions);
                    tokens = f.tokens;
                    tombstones = f.tombstones;
                  }))

  insert_unless_tombstoned-IsKeyed :
      (row : SessionRow) → Keeps IsKeyed (insert_unless_tombstoned store reached row now)
  unfolding insert_unless_tombstoned
  insert_unless_tombstoned-IsKeyed row =
      >>=-Keeps IsKeyed _ _ (query-Keeps IsKeyed _ _ _)
        λ tombstoned. >>-Keeps IsKeyed _ _ (require-Keeps IsKeyed _ _) (insert_row-IsKeyed row)

  pub IsKeyed-IsStable : IsStable IsKeyed store reached now
  unfolding delete_expired_tombstones delete_expired_tokens delete_ended_sessions
  IsKeyed-IsStable = record {
    swept_tombstones = λ db f. record {
      sessions = f.sessions;
      tokens = f.tokens;
      tombstones = Distinct-keep same_tombstone _ db.tombstones f.tombstones;
    };
    swept_tokens = λ db f. record {
      sessions = f.sessions;
      tokens = Distinct-delete_first same_token _ _ db.tokens f.tokens;
      tombstones = f.tombstones;
    };
    swept_sessions = λ db f. record {
      sessions = Distinct-delete_first same_session _ _ db.sessions f.sessions;
      tokens = f.tokens;
      tombstones = f.tombstones;
    };
    stored = λ row c i f. insert_unless_tombstoned-IsKeyed row;
    spent = insert_logout_token-IsKeyed;
    marked = λ v db f. record {
      sessions = f.sessions;
      tokens = f.tokens;
      tombstones = upsert_tombstone-Distinct v db.tombstones f.tombstones;
    };
    revoked = λ p db f. record {
      sessions =
          Distinct-update_where same_session p (revoke_at now) db.sessions (λ r x. refl)
            (λ r x. refl) f.sessions;
      tokens = f.tokens;
      tombstones = f.tombstones;
    };
  }
