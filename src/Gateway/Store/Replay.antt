-- ===== src/Gateway/Store/Replay.antt =====
-- A logout token is accepted once: its identifier stays recorded until the token expires.
use shauth.Common.{
  transaction_never, >>=-Leads, All-map, ℕ, zero, suc, ◌<◌, String, Bool, true, false, ◌&&◌, List,
  [], ◌∷◌, ◌≡◌, arith, Commit, ok, Leads, Keeps, >>-Leads, >>-Keeps, >>=-Keeps, exec-Leads,
  exec-Keeps, require-Keeps, query-Keeps, require_then-Leads, query_then-Leads, transaction-Leads,
  any, All, delete_first, ◌==◌, string_eq, leb, eq_iff, ==_refl, ◌≢◌,
}
use shauth.Gateway.Store.{
  commit_failed, LogoutToken, Db, Store, Site, SessionRow, delete_expired_tokens,
  lock_provider_session, sweep_expired_tokens, insert_row, insert_unless_tombstoned,
  insert_logout_token, revoke_provider_in_transaction, revoke_provider_session,
}
use shauth.Gateway.Store.Stable.{
  IsStable, run-Keeps, lock-Keeps, sweep_expired_tokens-Keeps, record_logout_tombstone-Keeps,
  revoke_provider_sessions-Keeps, Event, run,
}

any-delete_first_other {ℓ} :
    {A : Type ℓ} (q : A → Bool) (n : ℕ) (p : A → Bool) (rs : List A)
    → ((r : A) → q r ≡ true → p r ≡ false)
    → any q rs ≡ true
    → any q (delete_first n p rs) ≡ true
unfolding delete_first
any-delete_first_other q zero p rs h e = e
any-delete_first_other q (suc n) p [] h e = e
any-delete_first_other q (suc n) p (r ∷ rs) h e =
    ground (arith, h r, any-delete_first_other q n p rs h, any-delete_first_other q (suc n) p rs h)

module _ (client jti : String) (until : ℕ) where
  abbrev names_spent : LogoutToken → Bool
  names_spent t = t.client_id == client && (t.token_id == jti && leb until t.expires_at)

  -- The token's identifier is recorded until `until`.
  abbrev IsSpent : Db → Type 0
  IsSpent db = any names_spent db.tokens ≡ true

  delete_expired_tokens-IsSpent :
      (c : String) (now : ℕ) (rows : List LogoutToken)
      → now < until
      → any names_spent rows ≡ true
      → any names_spent (delete_expired_tokens c now rows) ≡ true
  unfolding delete_expired_tokens
  delete_expired_tokens-IsSpent c now rows early e =
      any-delete_first_other names_spent _ _ rows (λ t named. ground arith) e

  module _ (store : Store) (reached : Site → Bool) (now : ℕ) where
    insert_row-IsSpent : (row : SessionRow) → Keeps IsSpent (insert_row store reached row)
    unfolding insert_row
    insert_row-IsSpent row = >>-Keeps IsSpent _ _ (exec-Keeps IsSpent _ _ _ (λ db h. h)) (
        >>=-Keeps IsSpent _ _ (query-Keeps IsSpent _ _ _) λ fits.
          >>-Keeps IsSpent _ _ (require-Keeps IsSpent _ _) (exec-Keeps IsSpent _ _ _ (λ db h. h)))

    IsSpent-IsStable : now < until → IsStable IsSpent store reached now
    unfolding insert_logout_token insert_unless_tombstoned
    IsSpent-IsStable early = record {
      swept_tombstones = λ db h. h;
      swept_tokens = λ db h. delete_expired_tokens-IsSpent store.client_id now db.tokens early h;
      swept_sessions = λ db h. h;
      stored = λ row c i f.
          >>=-Keeps IsSpent _ _ (query-Keeps IsSpent _ _ _)
            λ tombstoned. >>-Keeps IsSpent _ _ (require-Keeps IsSpent _ _) (insert_row-IsSpent row);
      spent = λ j expires_at. >>-Keeps IsSpent _ _ (exec-Keeps IsSpent _ _ _ (λ db h. h)) (
          >>=-Keeps IsSpent _ _ (query-Keeps IsSpent _ _ _) λ spent.
            >>-Keeps IsSpent _ _ (require-Keeps IsSpent _ _)
              (exec-Keeps IsSpent _ _ _ λ db h. ground arith));
      marked = λ v db h. h;
      revoked = λ p db h. h;
    }

  run-IsSpent :
      (es : List Event) (db : Db) → All (λ e. e.now < until) es → IsSpent db → IsSpent (run es db)
  run-IsSpent es db early =
      run-Keeps IsSpent es db
        (All-map (λ e soon. IsSpent-IsStable e.store e.reached e.now soon) es early)

-- A successful insertion records the identifier.
insert_logout_token-IsSpent :
    (store : Store) (reached : Site → Bool) (jti : String) (expires_at : ℕ)
    → Leads
        (λ _. Unit {0})
        (IsSpent store.client_id jti expires_at)
        (insert_logout_token store reached jti expires_at)
unfolding insert_logout_token
insert_logout_token-IsSpent store reached jti expires_at =
    >>-Leads Any Any Spent _ _ (exec-Keeps Any _ _ _ (λ db h. h)) (
      >>=-Leads Any Any Spent _ _ (query-Keeps Any _ _ _) λ spent.
        >>-Leads Any Any Spent _ _ (require-Keeps Any _ _)
          (exec-Leads Any Spent _ _ _ λ db h. ground (arith, ==_refl store.client_id, ==_refl jti)))
  where
    Any : Db → Type 0
    Any db = Unit

    Spent : Db → Type 0
    Spent db = any (names_spent store.client_id jti expires_at) db.tokens ≡ true

-- A recorded identifier is not inserted again.
insert_logout_token-IsSpent' :
    (client : String) (until : ℕ) (store : Store) (reached : Site → Bool) (jti : String)
    (expires_at : ℕ)
    → store.client_id ≡ client
    → Leads (IsSpent client jti until) (λ _. ⊥) (insert_logout_token store reached jti expires_at)
unfolding insert_logout_token
insert_logout_token-IsSpent' client until store reached jti expires_at same =
    >>-Leads Spent Spent Never _ _ (exec-Keeps Spent _ _ _ (λ db h. h)) (
      query_then-Leads Spent Never _ _ _ _ λ db h.
        require_then-Leads (λ t. t ≡ db) Never _ _ _
          λ unspent. absurd (ground (arith, spent_key db.tokens h)))
  where
    Spent : Db → Type 0
    Spent db = any (names_spent client jti until) db.tokens ≡ true

    Never : Db → Type 0
    Never db = ⊥

    spent_key :
        (rows : List LogoutToken)
        → any (names_spent client jti until) rows ≡ true
        → any (λ t. t.client_id == store.client_id && t.token_id == jti) rows ≡ true
    spent_key [] h = h
    spent_key (t ∷ ts) h =
        ground (arith, spent_key ts, eq_iff t.client_id client, eq_iff t.client_id store.client_id)

module _ (store : Store) (reached : Site → Bool) (commit : Commit) (sid jti : String)
    (expires_at now : ℕ) (db : Db) where
  revoke_provider_session-IsSpent :
      now < expires_at
      → (revoke_provider_session store reached commit sid jti expires_at now db).1 ≡ ok tt
      → IsSpent store.client_id jti expires_at
          (revoke_provider_session store reached commit sid jti expires_at now db).0
  unfolding revoke_provider_session revoke_provider_in_transaction lock_provider_session
      sweep_expired_tokens
  revoke_provider_session-IsSpent early done =
      transaction-Leads Any Spent _ commit _ db tt
        (>>-Leads Any Any Spent _ _ (exec-Keeps Any _ _ _ (λ _ h. h)) (
          >>-Leads Any Any Spent _ _
            (>>-Keeps Any _ _ (require-Keeps Any _ _) (exec-Keeps Any _ _ (λ db. db) (λ _ h. h)))
            (>>-Leads Any Any Spent _ _ (exec-Keeps Any _ _ _ (λ _ h. h)) (
              >>-Leads Any Spent Spent _ _
                (insert_logout_token-IsSpent store reached jti expires_at)
                (>>-Keeps Spent _ _ (record_logout_tombstone-Keeps stable sid)
                  (revoke_provider_sessions-Keeps stable sid))))))
        tt done
    where
      Any : Db → Type 0
      Any db = Unit

      Spent : Db → Type 0
      Spent db = any (names_spent store.client_id jti expires_at) db.tokens ≡ true

      stable : IsStable Spent store reached now
      stable = IsSpent-IsStable store.client_id jti expires_at store reached now early

  -- Once a back-channel logout has succeeded, its token is refused until it expires, whatever any
  -- gateways on the database do in between: no later call of a gateway of the same client with the
  -- same token identifier succeeds, for any provider session, and none changes the database.
  pub revoke_provider_session-replayed :
      (es : List Event) (again : Store) (reached' : Site → Bool) (commit' : Commit) (sid' : String)
      (expires_at' later : ℕ)
      → now < expires_at
      → (revoke_provider_session store reached commit sid jti expires_at now db).1 ≡ ok tt
      → All (λ e. e.now < expires_at) es
      → later < expires_at
      → again.client_id ≡ store.client_id
      → let db' =
          run es (revoke_provider_session store reached commit sid jti expires_at now db).0 in
        ((revoke_provider_session again reached' commit' sid' jti expires_at' later db').0 ≡ db')
        × ((revoke_provider_session again reached' commit' sid' jti expires_at' later db').1
            ≢ ok tt)
  unfolding revoke_provider_session revoke_provider_in_transaction
  revoke_provider_session-replayed es again reached' commit' sid' expires_at' later early done soon
        in_time same =
      let db1 : Db = (revoke_provider_session store reached commit sid jti expires_at now db).0 in
      let db2 : Db = run es db1 in
      let spent : Spent db2 =
        run-IsSpent store.client_id jti expires_at es db1 soon
          (revoke_provider_session-IsSpent early done) in
      let (unchanged, refused) =
        transaction_never commit_failed commit'
          (revoke_provider_in_transaction again reached' sid' jti expires_at' later) db2
          (λ a t e. never db2 a t spent e) in
      (unchanged, refused tt)
    where
      Spent : Db → Type 0
      Spent db = any (names_spent store.client_id jti expires_at) db.tokens ≡ true

      Never : Db → Type 0
      Never db = ⊥

      stable : IsStable Spent again reached' later
      stable = IsSpent-IsStable store.client_id jti expires_at again reached' later in_time

      never :
          Leads Spent Never
            (revoke_provider_in_transaction again reached' sid' jti expires_at' later)
      never = >>-Leads Spent Spent Never _ _ (exec-Keeps Spent _ _ _ (λ _ h. h)) (
          >>-Leads Spent Spent Never _ _ (lock-Keeps stable sid') (
            >>-Leads Spent Spent Never _ _ (sweep_expired_tokens-Keeps stable) (
              >>-Leads Spent Never Never _ _
                (insert_logout_token-IsSpent' store.client_id expires_at again reached' jti
                  expires_at' same)
                (λ _ _ _ h _. h))))
