-- ===== src/Gateway/Store/Fence.antt =====
-- Logout fences: what stays true of a provider session once its logout is recorded, whatever the
-- gateways that share the database do until the tombstone runs out.
use shauth.Common.{
  All-map, query_then-Leads, require_then-Leads, sym, any-delete_where, ℕ, ◌≤◌, ◌<◌, String, Bool,
  true, false, List, [], ◌∷◌, ◌≡◌, refl, subst, arith, Keeps, exec-Keeps, require-Keeps,
  query-Keeps, >>=-Keeps, >>-Keeps, is_none, any, All, All-delete_first, All-update_where, All-keep,
  All-order_by, All-take, Bool-cases, eq_iff, keep, leb, inl, inr, string_eq,
}
use shauth.Gateway.Store.Stable.{IsStable, Event, run, run-Keeps}
use shauth.Gateway.Store.{
  insert_row, insert_unless_tombstoned, insert_logout_token, delete_ended_sessions, is_tombstoned,
  SessionRow, Tombstone, Db, Store, Site, names_tombstone, same_tombstone,
  delete_expired_tombstones, upsert_tombstone, revoke_at,
}

module _ (client issuer sid : String) (until : ℕ) where
  -- A session of the provider session is revoked.
  abbrev pub IsEnded : SessionRow → Type 0
  IsEnded s =
      s.client_id ≡ client
      → s.issuer ≡ issuer
      → s.provider_session_id ≡ sid
      → is_none s.revoked_at ≡ false

  -- A tombstone of the provider session lasts until `until`.
  abbrev pub Lasts : Tombstone → Type 0
  Lasts t = names_tombstone client issuer sid t ≡ true → until ≤ t.expires_at

  pub record IsFenced (db : Db) : Type 0 where
    pub ended : All IsEnded db.sessions
    pub lasting : All Lasts db.tombstones
    pub marked : any (names_tombstone client issuer sid) db.tombstones ≡ true

  -- Expired rows do not name the provider session while its tombstone lasts.
  expired_other :
      (now : ℕ) (rows : List Tombstone)
      → now < until
      → All Lasts rows
      → All
          (λ t. names_tombstone client issuer sid t ≡ false)
          (keep (λ t. leb t.expires_at now) rows)
  expired_other now [] h k = tt
  expired_other now (t ∷ ts) h k = ground (arith, expired_other now ts h k.1, k.0)

  not_victim :
      (t : Tombstone) (victims : List Tombstone)
      → All (λ v. names_tombstone client issuer sid v ≡ false) victims
      → names_tombstone client issuer sid t ≡ true
      → any (λ v. same_tombstone v t) victims ≡ false
  not_victim t [] h e = refl
  not_victim t (v ∷ vs) h e = ground (
    arith,
    not_victim t vs h.1 e,
    h.0,
    eq_iff t.client_id client,
    eq_iff t.issuer issuer,
    eq_iff t.provider_session_id sid,
    eq_iff v.client_id client,
    eq_iff v.issuer issuer,
    eq_iff v.provider_session_id sid,
    eq_iff t.client_id v.client_id,
    eq_iff t.issuer v.issuer,
    eq_iff t.provider_session_id v.provider_session_id,
  )

  module _ (now limit : ℕ) (early : now < until) where
    sweep_lasting :
        (rows : List Tombstone)
        → All Lasts rows
        → All Lasts (delete_expired_tombstones now limit rows)
    unfolding delete_expired_tombstones
    sweep_lasting rows h = All-keep Lasts _ rows h

    sweep_marked :
        (rows : List Tombstone)
        → All Lasts rows
        → any (names_tombstone client issuer sid) rows ≡ true
        → any (names_tombstone client issuer sid) (delete_expired_tombstones now limit rows) ≡ true
    unfolding delete_expired_tombstones
    sweep_marked rows h e =
        any-delete_where (names_tombstone client issuer sid) _ rows
          (λ t named.
            not_victim t _
              (All-take _ limit _ (All-order_by _ _ _ (expired_other now rows early h))) named)
          e

  -- A tombstone that names the same key is the same one.
  pub names-same :
      (v t : Tombstone)
      → names_tombstone client issuer sid v ≡ true
      → names_tombstone client issuer sid t ≡ same_tombstone v t
  names-same v t e = ground (
    arith,
    eq_iff t.client_id client,
    eq_iff t.issuer issuer,
    eq_iff t.provider_session_id sid,
    eq_iff v.client_id client,
    eq_iff v.issuer issuer,
    eq_iff v.provider_session_id sid,
    eq_iff t.client_id v.client_id,
    eq_iff t.issuer v.issuer,
    eq_iff t.provider_session_id v.provider_session_id,
  )

  -- A new tombstone may end early where an old one that lasts is merged with it.
  upsert_lasting :
      (v : Tombstone) (rows : List Tombstone)
      → (names_tombstone client issuer sid v ≡ true
          → any (names_tombstone client issuer sid) rows ≡ false
          → until ≤ v.expires_at)
      → All Lasts rows
      → All Lasts (upsert_tombstone v rows)
  unfolding upsert_tombstone
  upsert_lasting v [] h k = ((λ named. h named refl), tt)
  upsert_lasting v (t ∷ ts) h k = elim (Bool-cases (same_tombstone v t)) [
    | inl same ↦ rw same ((λ named. ground (arith, k.0)), k.1)
    | inr other ↦ rw other (
      k.0,
      upsert_lasting v ts (λ named absent. h named (ground (arith, names-same v t named))) k.1,
    )
  ]

  upsert_marked :
      (v : Tombstone) (rows : List Tombstone)
      → any (names_tombstone client issuer sid) rows ≡ true
      → any (names_tombstone client issuer sid) (upsert_tombstone v rows) ≡ true
  unfolding upsert_tombstone
  upsert_marked v [] e = absurd (ground arith)
  upsert_marked v (t ∷ ts) e = ground (arith, upsert_marked v ts)

  -- A session of a marked provider session is refused.
  marked-is_tombstoned :
      (now : ℕ) (rows : List Tombstone)
      → now < until
      → All Lasts rows
      → any (names_tombstone client issuer sid) rows ≡ true
      → is_tombstoned client issuer sid now rows ≡ true
  marked-is_tombstoned now [] early h e = e
  marked-is_tombstoned now (t ∷ ts) early h e =
      ground (arith, marked-is_tombstoned now ts early h.1, h.0)

  module _ (store : Store) (reached : Site → Bool) (now : ℕ) (early : now < until) where
    insert_row-Keeps :
        (row : SessionRow) → IsEnded row → Keeps IsFenced (insert_row store reached row)
    unfolding insert_row
    insert_row-Keeps row refused = >>-Keeps IsFenced _ _ (exec-Keeps IsFenced _ _ _ (λ _ g. g)) (
        >>=-Keeps IsFenced _ _ (query-Keeps IsFenced _ _ _) λ fits.
          >>-Keeps IsFenced _ _ (require-Keeps IsFenced _ _) (
            exec-Keeps IsFenced _ _ _ λ db g. record {
              ended = (refused, g.ended);
              lasting = g.lasting;
              marked = g.marked;
            }))

    insert_unless_tombstoned-Keeps :
        (row : SessionRow)
        → row.client_id ≡ store.client_id
        → row.issuer ≡ store.issuer
        → Keeps IsFenced (insert_unless_tombstoned store reached row now)
    unfolding insert_unless_tombstoned
    insert_unless_tombstoned-Keeps row c i = query_then-Leads IsFenced IsFenced _ _ _ _ λ db f.
        require_then-Leads (λ t. t ≡ db) IsFenced _ _ _
          λ clear t a db' same e.
            insert_row-Keeps row (refused db f (ground arith)) t a db' (subst IsFenced (sym same) f)
              e
      where
        refused :
            (db : Db)
            → IsFenced db
            → is_tombstoned store.client_id store.issuer row.provider_session_id now db.tombstones
              ≡ false
            → IsEnded row
        refused db f clear client_is issuer_is sid_is =
            absurd (
              ground
                (arith, marked-is_tombstoned now db.tombstones early f.lasting f.marked, clear))

    pub IsFenced-IsStable : IsStable IsFenced store reached now
    unfolding insert_logout_token delete_ended_sessions
    IsFenced-IsStable = record {
      swept_tombstones = λ db f. record {
        ended = f.ended;
        lasting = sweep_lasting now 1000 early db.tombstones f.lasting;
        marked = sweep_marked now 1000 early db.tombstones f.lasting f.marked;
      };
      swept_tokens = λ db f. record { ended = f.ended; lasting = f.lasting; marked = f.marked };
      swept_sessions = λ db f. record {
        ended = All-delete_first IsEnded _ _ db.sessions f.ended;
        lasting = f.lasting;
        marked = f.marked;
      };
      stored = λ row c i f. insert_unless_tombstoned-Keeps row c i;
      spent = λ jti expires_at. >>-Keeps IsFenced _ _ (exec-Keeps IsFenced _ _ _ (λ db f. f)) (
          >>=-Keeps IsFenced _ _ (query-Keeps IsFenced _ _ _) λ spent.
            >>-Keeps IsFenced _ _ (require-Keeps IsFenced _ _) (
              exec-Keeps IsFenced _ _ _
                λ db f. record { ended = f.ended; lasting = f.lasting; marked = f.marked }));
      marked = λ v db f. record {
        ended = f.ended;
        lasting =
            upsert_lasting v db.tombstones (λ named absent. absurd (ground (arith, f.marked)))
              f.lasting;
        marked = upsert_marked v db.tombstones f.marked;
      };
      revoked = λ p db f. record {
        ended =
            All-update_where IsEnded p (revoke_at now) db.sessions (λ r hit h c i q. refl) f.ended;
        lasting = f.lasting;
        marked = f.marked;
      };
    }

  -- A fence holds through every history that ends before its tombstone does.
  pub run-IsFenced :
      (es : List Event) (db : Db) → All (λ e. e.now < until) es → IsFenced db → IsFenced (run es db)
  run-IsFenced es db early =
      run-Keeps IsFenced es db
        (All-map (λ e soon. IsFenced-IsStable e.store e.reached e.now soon) es early)
