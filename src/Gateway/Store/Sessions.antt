-- ===== src/Gateway/Store/Sessions.antt =====
-- Storing and finding a session: the round trip through the cipher, and what an operation leaves
-- of the sessions that it is not about.
use shauth.Common.{
  >>=-Keeps, ◌∙◌, ℕ, zero, suc, ◌≤◌, ◌<◌, String, Bool, true, false, some, List, [], ◌∷◌, ◌++◌, ◌≡◌,
  ◌≢◌, refl, arith, Commit, ok, Leads, Keeps, >>-Leads, >>=-Leads, >>-Keeps, exec-Leads, exec-Keeps,
  require-Keeps, query-Keeps, transaction-Leads, transaction-Keeps, find_first, delete_first,
  length, take, drop, ltb, string_eq, bytes_eq, bytes_eq_iff, ==_refl, length-append, subst,
}
use shauth.Gateway.Store.{
  Bytes, Session, SessionRow, Db, Crypto, Store, Site, create, create_in_transaction, session_row,
  insert_row, insert_unless_tombstoned, lock_provider_session, sweep_expired_tombstones,
  sweep_expired_tokens, sweep_ended_sessions, delete_ended_sessions, find, find_session,
  matches_cookie, decrypt_session, opened_session,
}

-- A deletion of rows that a search does not accept leaves its result.
find_first-delete_first {ℓ} :
    {A : Type ℓ} (p : A → Bool) (n : ℕ) (q : A → Bool) (rs : List A)
    → ((r : A) → q r ≡ true → p r ≡ false)
    → find_first p (delete_first n q rs) ≡ find_first p rs
unfolding delete_first
find_first-delete_first p zero q rs h = refl
find_first-delete_first p (suc n) q [] h = refl
find_first-delete_first p (suc n) q (r ∷ rs) h =
    ground
      (arith, h r, find_first-delete_first p n q rs h, find_first-delete_first p (suc n) q rs h)

module _ (crypto : Crypto) (store : Store) (token : Bytes) (later : ℕ) where
  abbrev matches : SessionRow → Bool
  matches = matches_cookie crypto store (crypto.sha256 token) later

  -- The sweep of ended sessions removes no session in force.
  sweep-matches :
      (client : String) (now : ℕ) (rows : List SessionRow)
      → now ≤ later
      → find_first matches (delete_ended_sessions client now rows) ≡ find_first matches rows
  unfolding delete_ended_sessions matches_cookie
  sweep-matches client now rows h = find_first-delete_first matches _ _ rows λ s ended. ground arith

take-append {ℓ} : {A : Type ℓ} (xs ys : List A) → take (length xs) (xs ++ ys) ≡ xs
take-append [] ys = refl
take-append (x ∷ xs) ys = rw (take-append xs ys)

drop-append {ℓ} : {A : Type ℓ} (xs ys : List A) → drop (length xs) (xs ++ ys) ≡ ys
drop-append [] ys = refl
drop-append (x ∷ xs) ys = drop-append xs ys

-- A stored session is decrypted to itself, where its identifier is written as the database writes it.
decrypt_session-session_row :
    (crypto : Crypto) (store : Store) (session : Session) (nonce token : Bytes) (now : ℕ)
    → length nonce ≡ crypto.nonce_size
    → crypto.uuid_text session.id ≡ session.id
    → decrypt_session crypto store (session_row crypto store session nonce token now) ≡ ok session
unfolding decrypt_session session_row opened_session
decrypt_session-session_row crypto store session nonce token now sized written =
    rw (written, long, taken, dropped, crypto.unseal_seal nonce session.id_token marshalled sized)
  where
    marshalled : Bytes
    marshalled = crypto.marshal (
        store.client_id ∷ store.issuer ∷ session.id ∷ session.subject ∷ session.provider_session_id
        ∷ [])

    sealed : Bytes
    sealed = crypto.seal nonce session.id_token marshalled

    long : ltb (length (nonce ++ sealed)) crypto.nonce_size ≡ false
    long = ground (arith, length-append nonce sealed)

    taken : take crypto.nonce_size (nonce ++ sealed) ≡ nonce
    taken = subst (λ n. take n (nonce ++ sealed) ≡ nonce) sized (take-append nonce sealed)

    dropped : drop crypto.nonce_size (nonce ++ sealed) ≡ sealed
    dropped = subst (λ n. drop n (nonce ++ sealed) ≡ sealed) sized (drop-append nonce sealed)

module _ (crypto : Crypto) (store : Store) (reached : Site → Bool) (commit : Commit) (nonce : Bytes)
    (session : Session) (token : Bytes) (now : ℕ) (db : Db) where
  abbrev row : SessionRow
  row = session_row crypto store session nonce token now

  -- A row that was inserted stands first.
  abbrev IsFirst : Db → Type 0
  IsFirst db' = (rest : List SessionRow) × (db'.sessions ≡ row ∷ rest)

  insert_row-IsFirst : Leads (λ _. Unit {0}) IsFirst (insert_row store reached row)
  unfolding insert_row
  insert_row-IsFirst = >>-Leads Any Any IsFirst _ _ (exec-Keeps Any _ _ _ (λ _ h. h)) (
      >>=-Leads Any Any IsFirst _ _ (query-Keeps Any _ _ _) λ fits.
        >>-Leads Any Any IsFirst _ _ (require-Keeps Any _ _)
          (exec-Leads Any IsFirst _ _ _ (λ db h. (db.sessions, refl))))
    where
      Any : Db → Type 0
      Any db = Unit

  create-IsFirst :
      (create crypto store reached commit (some nonce) session token now db).1 ≡ ok tt
      → IsFirst (create crypto store reached commit (some nonce) session token now db).0
  unfolding create create_in_transaction lock_provider_session sweep_expired_tombstones
      sweep_ended_sessions sweep_expired_tokens insert_unless_tombstoned
  create-IsFirst done =
      transaction-Leads Any IsFirst _ commit _ db tt
        (>>-Leads Any Any IsFirst _ _ (exec-Keeps Any _ _ _ (λ _ h. h)) (
          >>-Leads Any Any IsFirst _ _
            (>>-Keeps Any _ _ (require-Keeps Any _ _) (exec-Keeps Any _ _ (λ db. db) (λ _ h. h)))
            (>>-Leads Any Any IsFirst _ _ (exec-Keeps Any _ _ _ (λ _ h. h)) (
              >>-Leads Any Any IsFirst _ _ (exec-Keeps Any _ _ _ (λ _ h. h)) (
                >>-Leads Any Any IsFirst _ _ (exec-Keeps Any _ _ _ (λ _ h. h)) (
                  >>=-Leads Any Any IsFirst _ _ (query-Keeps Any _ _ _) λ tombstoned.
                    >>-Leads Any Any IsFirst _ _ (require-Keeps Any _ _) insert_row-IsFirst))))))
        tt done
    where
      Any : Db → Type 0
      Any db = Unit

  row-matches :
      (later : ℕ)
      → later < session.expires_at
      → matches_cookie crypto store (crypto.sha256 token) later row ≡ true
  unfolding matches_cookie session_row
  row-matches later in_time = ground (
    arith,
    ==_refl store.client_id,
    ==_refl store.issuer,
    bytes_eq_iff (crypto.sha256 token) (crypto.sha256 token),
  )

  -- A session that was stored is found by its browser token until it expires, exactly as it was
  -- given, ID token included. The nonce has the cipher's length, the session's identifier is written
  -- as the database writes it back, and the lookup reaches the database.
  pub find-create :
      (reading : Site → Bool) (later : ℕ)
      → length nonce ≡ crypto.nonce_size
      → crypto.uuid_text session.id ≡ session.id
      → (create crypto store reached commit (some nonce) session token now db).1 ≡ ok tt
      → reading find_session ≡ true
      → later < session.expires_at
      → find crypto store reading token later
          (create crypto store reached commit (some nonce) session token now db).0
        ≡ ok session
  unfolding find
  find-create reading later sized written done reads in_time =
      let (rest, first) = create-IsFirst done in
      rw (reads, first, row-matches later in_time)
        (decrypt_session-session_row crypto store session nonce token now sized written)

  module _ (cookie : Bytes) (later : ℕ) (other : crypto.sha256 cookie ≢ crypto.sha256 token)
      (after : now ≤ later) where
    -- The search for another cookie's session has the result that it had before.
    abbrev IsUnmoved : Db → Type 0
    IsUnmoved db' =
        find_first (matches crypto store cookie later) db'.sessions
        ≡ find_first (matches crypto store cookie later) db.sessions

    row-unmatched : matches_cookie crypto store (crypto.sha256 cookie) later row ≡ false
    unfolding matches_cookie session_row
    row-unmatched = ground (arith, bytes_eq_iff (crypto.sha256 token) (crypto.sha256 cookie))

    insert_row-IsUnmoved : Keeps IsUnmoved (insert_row store reached row)
    unfolding insert_row
    insert_row-IsUnmoved = >>-Keeps IsUnmoved _ _ (exec-Keeps IsUnmoved _ _ _ (λ _ h. h)) (
        >>=-Keeps IsUnmoved _ _ (query-Keeps IsUnmoved _ _ _) λ fits.
          >>-Keeps IsUnmoved _ _ (require-Keeps IsUnmoved _ _)
            (exec-Keeps IsUnmoved _ _ _ (λ db' h. rw row-unmatched h)))

    create-IsUnmoved :
        IsUnmoved (create crypto store reached commit (some nonce) session token now db).0
    unfolding create create_in_transaction lock_provider_session sweep_expired_tombstones
        sweep_ended_sessions sweep_expired_tokens insert_unless_tombstoned
    create-IsUnmoved =
        transaction-Keeps IsUnmoved _ commit _ db
          (>>-Keeps IsUnmoved _ _ (exec-Keeps IsUnmoved _ _ _ (λ _ h. h)) (
            >>-Keeps IsUnmoved _ _
              (>>-Keeps IsUnmoved _ _ (require-Keeps IsUnmoved _ _)
                (exec-Keeps IsUnmoved _ _ (λ db. db) (λ _ h. h)))
              (>>-Keeps IsUnmoved _ _ (exec-Keeps IsUnmoved _ _ _ (λ _ h. h)) (
                >>-Keeps IsUnmoved _ _
                  (exec-Keeps IsUnmoved _ _ _ λ db' h.
                    sweep-matches crypto store cookie later store.client_id now db'.sessions after
                    ∙ h)
                  (>>-Keeps IsUnmoved _ _ (exec-Keeps IsUnmoved _ _ _ (λ _ h. h)) (
                    >>=-Keeps IsUnmoved _ _ (query-Keeps IsUnmoved _ _ _) λ tombstoned.
                      >>-Keeps IsUnmoved _ _ (require-Keeps IsUnmoved _ _)
                        insert_row-IsUnmoved))))))
          refl

    -- Storing a session, with the sweeps that it makes, leaves what any other cookie finds from then
    -- on as it was, whether or not the session was stored. The other cookie's hash differs.
    pub find-create_other :
        (reading : Site → Bool)
        → find crypto store reading cookie later
            (create crypto store reached commit (some nonce) session token now db).0
          ≡ find crypto store reading cookie later db
    unfolding find
    find-create_other reading = rw create-IsUnmoved
