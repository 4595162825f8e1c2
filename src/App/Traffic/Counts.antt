-- ===== src/App/Traffic/Counts.antt =====
-- The counters of internal/app/traffic.go over the requests served.
use shauth.Common.{
  ℕ, zero, suc, ◌+◌, ◌≤◌, ◌<◌, true, false, List, [], ◌∷◌, ◌≡◌, refl, ◌∙◌, ap, arith, length, All,
  if◌then◌else◌, leb, Bool-cases, inl, inr, ◌⊎◌,
}
use shauth.App.Traffic.{
  Bytes, RouteKey, RouteStat, Traffic, StatusClass, class_1xx, class_2xx, class_3xx, class_4xx,
  class_5xx, is_class, new_traffic, begin, finish, status_class, index_from, bucket_index,
  increment, count_request, new_stat, change_route, change_or_add, count_route, has_route, is_key,
  overflow_key, new_route_key, total_requests, latency_bounds_ms, max_tracked_routes,
}

abbrev sum : List ℕ → ℕ
sum [] = 0
sum (n ∷ ns) = n + sum ns

abbrev sum_classes : (StatusClass → ℕ) → ℕ
sum_classes f = f class_1xx + f class_2xx + f class_3xx + f class_4xx + f class_5xx

-- The counters of a route count the same requests, and the slowest one is in the total time.
pub record IsCounted (s : RouteStat) : Type 0 where
  pub buckets_sized : length s.buckets ≡ 11
  pub buckets_counted : sum s.buckets ≡ s.requests
  pub classes_counted : sum_classes s.by_status_class ≡ s.requests
  pub slowest_counted : s.max_ms ≤ s.total_ms

index_from-le : (bounds : List ℕ) (ms : ℕ) → index_from bounds ms ≤ length bounds
index_from-le [] ms = omega arith
index_from-le (b ∷ bs) ms = ground (arith, index_from-le bs ms)

sum-increment : (i : ℕ) (ns : List ℕ) → i < length ns → sum (increment i ns) ≡ sum ns + 1
sum-increment i [] h = absurd (omega arith)
sum-increment zero (n ∷ ns) h = omega arith
sum-increment (suc i) (n ∷ ns) h = omega (arith, sum-increment i ns (omega arith))

length-increment : (i : ℕ) (ns : List ℕ) → length (increment i ns) ≡ length ns
length-increment i [] = refl
length-increment zero (n ∷ ns) = refl
length-increment (suc i) (n ∷ ns) = ap suc (length-increment i ns)

classes-increment :
    (c : StatusClass) (f : StatusClass → ℕ)
    → sum_classes (λ d. if is_class c d then f d + 1 else f d) ≡ sum_classes f + 1
classes-increment class_1xx f = omega arith
classes-increment class_2xx f = omega arith
classes-increment class_3xx f = omega arith
classes-increment class_4xx f = omega arith
classes-increment class_5xx f = omega arith

count_request-IsCounted :
    (status ms now : ℕ) (s : RouteStat) → IsCounted s → IsCounted (count_request status ms now s)
count_request-IsCounted status ms now s h = record {
  buckets_sized = length-increment (bucket_index ms) s.buckets ∙ h.buckets_sized;
  buckets_counted =
      sum-increment (bucket_index ms) s.buckets
        (omega (arith, index_from-le latency_bounds_ms ms, h.buckets_sized))
      ∙ omega (arith, h.buckets_counted);
  classes_counted =
      classes-increment (status_class status) s.by_status_class ∙ omega (arith, h.classes_counted);
  slowest_counted = ground (arith, h.slowest_counted);
}

new_stat-IsCounted : IsCounted new_stat
new_stat-IsCounted = record {
  buckets_sized = refl;
  buckets_counted = refl;
  classes_counted = refl;
  slowest_counted = omega arith;
}

abbrev pub AreCounted : List (RouteKey × RouteStat) → Type 0
AreCounted routes = All (λ (e : RouteKey × RouteStat). IsCounted e.1) routes

-- At most `max_routes` routes, or one more where the overflow route is one of them.
abbrev IsBounded : ℕ → List (RouteKey × RouteStat) → Type 0
IsBounded max_routes routes =
    (length routes ≤ max_routes)
    ⊎ ((length routes ≤ max_routes + 1) × (has_route overflow_key routes ≡ true))

module _ (status ms now : ℕ) where
  abbrev f : RouteStat → RouteStat
  f = count_request status ms now

  change_route-AreCounted :
      (key : RouteKey) (routes : List (RouteKey × RouteStat))
      → AreCounted routes
      → AreCounted (change_route key f routes)
  change_route-AreCounted key [] h = tt
  change_route-AreCounted key (e ∷ es) h = elim (Bool-cases (is_key key e)) [
    | inl hit ↦ rw hit (count_request-IsCounted status ms now e.1 h.0, h.1)
    | inr miss ↦ rw miss (h.0, change_route-AreCounted key es h.1)
  ]

  change_route-total :
      (key : RouteKey) (routes : List (RouteKey × RouteStat))
      → has_route key routes ≡ true
      → (total_requests (change_route key f routes) ≡ total_requests routes + 1)
        × (length (change_route key f routes) ≡ length routes)
  change_route-total key [] h = absurd (cc h)
  change_route-total key (e ∷ es) h = elim (Bool-cases (is_key key e)) [
    | inl hit ↦ rw hit (omega arith, refl)
    | inr miss ↦
        let rest = change_route-total key es (rw miss at h) in
        rw miss (omega (arith, rest.0), ap suc rest.1)
  ]

  -- A request is counted once.
  count_route-counts :
      (max_routes : ℕ) (key : RouteKey) (routes : List (RouteKey × RouteStat))
      → AreCounted routes
      → AreCounted (count_route max_routes key f routes)
        × (total_requests (count_route max_routes key f routes) ≡ total_requests routes + 1)
  count_route-counts max_routes key routes h = elim (Bool-cases (has_route key routes)) [
    | inl known ↦
        rw known (change_route-AreCounted key routes h, (change_route-total key routes known).0)
    | inr missing ↦
        rw missing (added (if leb max_routes (length routes) then overflow_key else key))
  ]
    where
      added :
          (k : RouteKey)
          → AreCounted (change_or_add k f routes)
            × (total_requests (change_or_add k f routes) ≡ total_requests routes + 1)
      added k = elim (Bool-cases (has_route k routes)) [
        | inl known ↦
            rw known (change_route-AreCounted k routes h, (change_route-total k routes known).0)
        | inr missing ↦
            rw missing
              ((count_request-IsCounted status ms now new_stat new_stat-IsCounted, h), omega arith)
      ]

  has_route-change_route :
      (k key : RouteKey) (routes : List (RouteKey × RouteStat))
      → has_route k (change_route key f routes) ≡ has_route k routes
  has_route-change_route k key [] = refl
  has_route-change_route k key (e ∷ es) = elim (Bool-cases (is_key key e)) [
    | inl hit ↦ rw hit refl
    | inr miss ↦
        rw miss (ap (λ b. if is_key k e then true else b) (has_route-change_route k key es))
  ]

  -- A table within its bound, but for the overflow route, stays so.
  count_route-IsBounded :
      (max_routes : ℕ) (key : RouteKey) (routes : List (RouteKey × RouteStat))
      → IsBounded max_routes routes
      → IsBounded max_routes (count_route max_routes key f routes)
  count_route-IsBounded max_routes key routes h = elim (Bool-cases (has_route key routes)) [
    | inl known ↦ rw known (changed key known)
    | inr missing ↦ rw missing (full (Bool-cases (leb max_routes (length routes))))
  ]
    where
      changed :
          (k : RouteKey)
          → has_route k routes ≡ true
          → IsBounded max_routes (change_route k f routes)
      changed k known =
          rw ((change_route-total k routes known).1, has_route-change_route overflow_key k routes) h

      full :
          (leb max_routes (length routes) ≡ true) ⊎ (leb max_routes (length routes) ≡ false)
          → IsBounded max_routes (
              change_or_add (if leb max_routes (length routes) then overflow_key else key) f routes)
      full (inr room) = rw room (small (Bool-cases (has_route key routes)))
        where
          small :
              (has_route key routes ≡ true) ⊎ (has_route key routes ≡ false)
              → IsBounded max_routes (change_or_add key f routes)
          small (inl known) = rw known (changed key known)
          small (inr missing) = rw missing (inl (ground (arith, room)))
      full (inl packed) = rw packed (over (Bool-cases (has_route overflow_key routes)))
        where
          over :
              (has_route overflow_key routes ≡ true) ⊎ (has_route overflow_key routes ≡ false)
              → IsBounded max_routes (change_or_add overflow_key f routes)
          over (inl known) = rw known (changed overflow_key known)
          over (inr missing) = rw missing (inr (ground (arith, h, missing), refl))

pub data Event : Type 0 where
  begins : Event
  finishes : Bytes → Bytes → ℕ → ℕ → ℕ → Event

unfoldable pub serve : (Bytes → Bytes) → List Event → Traffic → Traffic
serve trim_space [] t = t
serve trim_space (begins ∷ es) t = serve trim_space es (begin t)
serve trim_space (finishes method pattern status ms now ∷ es) t =
    serve trim_space es (finish trim_space method pattern status ms now t)

abbrev pub finished : List Event → ℕ
finished [] = 0
finished (begins ∷ es) = finished es
finished (finishes method pattern status ms now ∷ es) = suc (finished es)

serve-from :
    (trim_space : Bytes → Bytes) (es : List Event) (t : Traffic)
    → AreCounted t.routes
    → IsBounded t.max_routes t.routes
    → AreCounted (serve trim_space es t).routes
      × (total_requests (serve trim_space es t).routes ≡ total_requests t.routes + finished es)
      × IsBounded t.max_routes (serve trim_space es t).routes
unfolding serve finish
serve-from trim_space [] t h b = (h, omega arith, b)
serve-from trim_space (begins ∷ es) t h b = serve-from trim_space es (begin t) h b
serve-from trim_space (finishes method pattern status ms now ∷ es) t h b =
    let key = new_route_key trim_space method pattern in
    let (counted, total) = count_route-counts status ms now t.max_routes key t.routes h in
    let bounded = count_route-IsBounded status ms now t.max_routes key t.routes b in
    let (rest, sums, bound) =
      serve-from trim_space es (finish trim_space method pattern status ms now t) counted bounded in
    (rest, omega (arith, sums, total), bound)

-- However requests begin and finish since the process started: in every route the buckets and the
-- status classes each add up to its requests and no response took longer than the total time, the
-- requests of all routes add up to the requests that finished, and the table has at most 513 routes.
pub serve-new_traffic :
    (trim_space : Bytes → Bytes) (es : List Event)
    → AreCounted (serve trim_space es new_traffic).routes
      × (total_requests (serve trim_space es new_traffic).routes ≡ finished es)
      × (length (serve trim_space es new_traffic).routes ≤ max_tracked_routes + 1)
serve-new_traffic trim_space es =
    let (counted, total, bound) = serve-from trim_space es new_traffic tt (inl (omega arith)) in
    (counted, omega (arith, total), ground (arith, bound))
