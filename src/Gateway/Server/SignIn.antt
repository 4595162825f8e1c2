-- ===== src/Gateway/Server/SignIn.antt =====
-- What the callback of internal/gateway/server.go asks of a sign-in.
use shauth.Common.{
  ℕ, ◌*◌, ◌<◌, String, Bool, ◌&&◌, Option, none, some, [], ◌∷◌, ◌≡◌, refl, arith, Commit, ltb, ◌==◌,
  string_eq, if◌then◌else◌, eq_iff, ltb→lt, &&-eq-true, ap, sym, Bool-cases, inl, inr,
}
use shauth.Gateway.Store.{Bytes, Db, Crypto, Store, Site}
use shauth.Gateway.Server.{
  Config, Provider, Codec, Request, Response, Moment, Transaction, answer, redirect, checking,
  return_to, signed_out, clears_transaction, open_transaction, accepted_transaction,
  complete_callback, callback,
}

module _ (config : Config) (provider : Provider) (codec : Codec) (crypto : Crypto) (store : Store)
    (reached : Site → Bool) (now : Moment → ℕ) where
  accepted_transaction-eq-some :
      (request : Request) (value : String) (pending : Transaction)
      → accepted_transaction config provider codec crypto store reached now request value
        ≡ some pending
      → (open_transaction config provider codec crypto store reached now value ≡ some pending)
        × (now checking < pending.expires_at * 1000000)
        × (pending.state ≡ request.state)
  unfolding accepted_transaction
  accepted_transaction-eq-some request value pending e =
      go (open_transaction config provider codec crypto store reached now value) e
    where
      go :
          (o : Option Transaction)
          → (let out : Option Transaction = elim o [
            | none ↦ none
            | some p ↦
                if ltb (now checking) (p.expires_at * 1000000) && p.state == request.state
                then some p
                else none
          ] in
              out ≡ some pending)
          → (o ≡ some pending)
            × (now checking < pending.expires_at * 1000000)
            × (pending.state ≡ request.state)
      go none h = absurd (ground arith)
      go (some p) h =
          elim (Bool-cases
            (ltb (now checking) (p.expires_at * 1000000) && p.state == request.state)) [
              | inr refused ↦ absurd (ground (arith, rw refused at h))
              | inl passed ↦
                  let same : p ≡ pending = ground (arith, rw passed at h) in
                  let (early, stated) = &&-eq-true _ _ passed in
                  (
                    ap some same,
                    rw (sym same) (ltb→lt (now checking) (p.expires_at * 1000000) early),
                    rw (sym same) ((eq_iff p.state request.state).0 stated),
                  )
            ]

  -- A callback sends the browser on to the application only if the request's transaction cookie
  -- opens to a pending sign-in that has not expired and whose state is the request's, and the request
  -- reports no provider error.
  pub callback-return_to :
      (commit : Commit) (nonce random : Option Bytes) (id : Option String) (request : Request)
      (db : Db) (target : String)
      → (callback config provider codec crypto store reached now commit nonce random id request
          db).1.location
        ≡ some (return_to target)
      → (value : String) × (pending : Transaction) × (request.transaction_cookie ≡ some value)
        × (open_transaction config provider codec crypto store reached now value ≡ some pending)
        × (now checking < pending.expires_at * 1000000)
        × (pending.state ≡ request.state)
        × (request.error ≡ "")
  unfolding callback
  callback-return_to commit nonce random id request db target e =
      outer request.transaction_cookie refl e
    where
      inner :
          (value : String) (o : Option Transaction)
          → accepted_transaction config provider codec crypto store reached now request value ≡ o
          → (let after : Db × Response = elim o [
            | none ↦ (db, answer 400 (clears_transaction ∷ []))
            | some pending ↦
                if request.error == ""
                then complete_callback config provider codec crypto store reached now commit nonce
                    random id request pending db
                else (db, redirect 303 signed_out (clears_transaction ∷ []))
          ] in
              after.1.location ≡ some (return_to target))
          → (pending : Transaction) × (open_transaction config provider codec crypto store reached
                now value
              ≡ some pending)
            × (now checking < pending.expires_at * 1000000)
            × (pending.state ≡ request.state)
            × (request.error ≡ "")
      inner value none known h = absurd (ground arith)
      inner value (some pending) known h =
          let (opened, early, stated) = accepted_transaction-eq-some request value pending known in
          elim (Bool-cases (request.error == "")) [
            | inl clear ↦ (pending, opened, early, stated, (eq_iff request.error "").0 clear)
            | inr reported ↦ absurd (ground (arith, rw reported at h))
          ]

      outer :
          (cookie : Option String)
          → request.transaction_cookie ≡ cookie
          → (let after : Db × Response = elim cookie [
            | none ↦ (db, answer 400 [])
            | some value ↦
                elim (accepted_transaction config provider codec crypto store reached now request
                  value) [
                    | none ↦ (db, answer 400 (clears_transaction ∷ []))
                    | some pending ↦
                        if request.error == ""
                        then complete_callback config provider codec crypto store reached now commit
                            nonce random id request pending db
                        else (db, redirect 303 signed_out (clears_transaction ∷ []))
                  ]
          ] in
              after.1.location ≡ some (return_to target))
          → (value : String) × (pending : Transaction) × (request.transaction_cookie ≡ some value)
            × (open_transaction config provider codec crypto store reached now value ≡ some pending)
            × (now checking < pending.expires_at * 1000000)
            × (pending.state ≡ request.state)
            × (request.error ≡ "")
      outer none same h = absurd (ground arith)
      outer (some value) same h =
          let (pending, opened, early, stated, clear) = inner value _ refl h in
          (value, pending, same, opened, early, stated, clear)
