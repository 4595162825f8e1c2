-- ===== src/Gateway/Store/Revocation.antt =====
-- What a recorded logout establishes: every session of the provider session is revoked, and its
-- tombstone lasts for the store's lifetime.
use shauth.Common.{
  ℕ, ◌+◌, ◌≤◌, String, Bool, true, List, [], ◌∷◌, ◌≡◌, refl, arith, Leads, Commit, ok, >>-Leads,
  exec-Leads, exec-Keeps, require-Keeps, transaction-Leads, any, All, All-map, All-updated,
  All-not_any, Distinct, Bool-cases, inl, inr, eq_iff, if◌then◌else◌, string_eq, ==_refl,
}
use shauth.Gateway.Store.{
  SessionRow, Tombstone, Db, Store, Site, names_tombstone, same_tombstone, upsert_tombstone,
  is_unrevoked_of, revoke_at, record_logout_tombstone, revoke_provider_sessions,
  revoke_frontchannel_in_transaction, revoke_provider_in_transaction, revoke_frontchannel_session,
  revoke_provider_session,
}
use shauth.Gateway.Store.Fence.{IsEnded, Lasts, IsFenced, names-same}
use shauth.Gateway.Store.Keys.{IsKeyed, IsKeyed-IsStable}
use shauth.Gateway.Store.Stable.{
  IsStable, lock-Keeps, sweep_expired_tombstones-Keeps, sweep_expired_tokens-Keeps,
}

-- Where `t` has the key of `v`, another row has the key of `v` just where it has that of `t`.
same_key : (v t r : Tombstone) → same_tombstone v t ≡ true → same_tombstone v r ≡ same_tombstone t r
same_key v t r e = names-same v.client_id v.issuer v.provider_session_id 0 t r e

-- An upsert of a key leaves one row of that key, which ends no earlier than the new one.
upsert-Lasts :
    (v : Tombstone) (rows : List Tombstone)
    → Distinct same_tombstone rows
    → All (Lasts v.client_id v.issuer v.provider_session_id v.expires_at) (upsert_tombstone v rows)
unfolding upsert_tombstone
upsert-Lasts v [] h = ((λ named. omega arith), tt)
upsert-Lasts v (t ∷ ts) h = elim (Bool-cases (same_tombstone v t)) [
  | inl same ↦ rw same (
    (λ named. omega arith),
    All-map (λ r vacuous named. vacuous (ground (arith, same_key v t r same, named))) ts
        (All-not_any (λ r. v.expires_at ≤ r.expires_at) (same_tombstone t) ts h.0),
  )
  | inr other ↦ rw other ((λ named. absurd (ground arith)), upsert-Lasts v ts h.1)
]

upsert_marks :
    (v : Tombstone) (rows : List Tombstone)
    → any (names_tombstone v.client_id v.issuer v.provider_session_id) (upsert_tombstone v rows)
      ≡ true
unfolding upsert_tombstone
upsert_marks v [] =
    ground (arith, ==_refl v.client_id, ==_refl v.issuer, ==_refl v.provider_session_id)
upsert_marks v (t ∷ ts) = ground (arith, upsert_marks v ts)

module _ (store : Store) (reached : Site → Bool) (sid : String) (now : ℕ) where
  abbrev until : ℕ
  until = now + store.tombstone_lifetime

  IsKeyed-stable : IsStable IsKeyed store reached now
  IsKeyed-stable = IsKeyed-IsStable store reached now

  record IsMarked (db : Db) : Type 0 where
    lasting : All (Lasts store.client_id store.issuer sid until) db.tombstones
    marked : any (names_tombstone store.client_id store.issuer sid) db.tombstones ≡ true

  record_logout_tombstone-IsMarked :
      Leads IsKeyed IsMarked (record_logout_tombstone store reached sid now)
  unfolding record_logout_tombstone
  record_logout_tombstone-IsMarked =
      >>-Leads IsKeyed IsKeyed IsMarked _ _ (sweep_expired_tombstones-Keeps IsKeyed-stable) (
        >>-Leads IsKeyed IsKeyed IsMarked _ _ (require-Keeps IsKeyed _ _) (
          exec-Leads IsKeyed IsMarked _ _ _ λ db k. record {
            lasting = upsert-Lasts _ db.tombstones k.tombstones;
            marked = upsert_marks _ db.tombstones;
          }))

  revoked-IsEnded :
      (s : SessionRow)
      → IsEnded store.client_id store.issuer sid until
          (if is_unrevoked_of store.client_id store.issuer sid s then revoke_at now s else s)
  revoked-IsEnded s = elim (Bool-cases (is_unrevoked_of store.client_id store.issuer sid s)) [
    | inl hit ↦ rw hit (λ c i p. refl)
    | inr miss ↦ rw miss λ c i p. ground (
      arith,
      eq_iff s.client_id store.client_id,
      eq_iff s.issuer store.issuer,
      eq_iff s.provider_session_id sid,
    )
  ]

  revoke_provider_sessions-IsFenced :
      Leads IsMarked
        (IsFenced store.client_id store.issuer sid until)
        (revoke_provider_sessions store reached sid now)
  unfolding revoke_provider_sessions
  revoke_provider_sessions-IsFenced =
      exec-Leads IsMarked (IsFenced store.client_id store.issuer sid until) _ _ _ λ db m. record {
        ended =
            All-updated (IsEnded store.client_id store.issuer sid until)
              (is_unrevoked_of store.client_id store.issuer sid) (revoke_at now) db.sessions
              revoked-IsEnded;
        lasting = m.lasting;
        marked = m.marked;
      }

  pub revoke_frontchannel_session-IsFenced :
      (commit : Commit) (db : Db)
      → IsKeyed db
      → (revoke_frontchannel_session store reached commit sid now db).1 ≡ ok tt
      → IsFenced store.client_id store.issuer sid until
          (revoke_frontchannel_session store reached commit sid now db).0
  unfolding revoke_frontchannel_session revoke_frontchannel_in_transaction
  revoke_frontchannel_session-IsFenced commit db k e =
      transaction-Leads IsKeyed Fenced _ commit _ db tt
        (>>-Leads IsKeyed IsKeyed Fenced _ _ (exec-Keeps IsKeyed _ _ _ (λ _ f. f)) (
          >>-Leads IsKeyed IsKeyed Fenced _ _ (lock-Keeps IsKeyed-stable sid) (
            >>-Leads IsKeyed IsMarked Fenced _ _ record_logout_tombstone-IsMarked
              revoke_provider_sessions-IsFenced)))
        k e
    where
      Fenced : Db → Type 0
      Fenced = IsFenced store.client_id store.issuer sid until

  pub revoke_provider_session-IsFenced :
      (commit : Commit) (jti : String) (expires_at : ℕ) (db : Db)
      → IsKeyed db
      → (revoke_provider_session store reached commit sid jti expires_at now db).1 ≡ ok tt
      → IsFenced store.client_id store.issuer sid until
          (revoke_provider_session store reached commit sid jti expires_at now db).0
  unfolding revoke_provider_session revoke_provider_in_transaction
  revoke_provider_session-IsFenced commit jti expires_at db k e =
      transaction-Leads IsKeyed Fenced _ commit _ db tt
        (>>-Leads IsKeyed IsKeyed Fenced _ _ (exec-Keeps IsKeyed _ _ _ (λ _ f. f)) (
          >>-Leads IsKeyed IsKeyed Fenced _ _ (lock-Keeps IsKeyed-stable sid) (
            >>-Leads IsKeyed IsKeyed Fenced _ _ (sweep_expired_tokens-Keeps IsKeyed-stable) (
              >>-Leads IsKeyed IsKeyed Fenced _ _ (IsKeyed-stable.spent jti expires_at) (
                >>-Leads IsKeyed IsMarked Fenced _ _ record_logout_tombstone-IsMarked
                  revoke_provider_sessions-IsFenced)))))
        k e
    where
      Fenced : Db → Type 0
      Fenced = IsFenced store.client_id store.issuer sid until
