-- ===== src/App/Traffic.antt =====
-- Requests counted by route, outcome and response time: internal/app/traffic.go. Names are lists of
-- bytes and strings.TrimSpace is a parameter. The counters stand for int64 values below 2^63;
-- `in_flight`, which is also decremented, is an int64's 64 bits.
pub mod Counts
pub mod Percentile
mod Tests
use shauth.Common.{
  ℕ, zero, suc, ◌+◌, ◌-◌, ◌*◌, ◌/◌, ◌%◌, Bool, true, false, ◌&&◌, Option, none, some, List, [], ◌∷◌,
  length, map, leb, ltb, ◌==◌, nat_eq, bytes_eq, if◌then◌else◌, is_none,
}

abbrev pub Bytes : Type 0
Bytes = List ℕ

abbrev pub latency_bounds_ms : List ℕ
latency_bounds_ms = 5 ∷ 10 ∷ 25 ∷ 50 ∷ 100 ∷ 250 ∷ 500 ∷ 1000 ∷ 2500 ∷ 5000 ∷ []

pub record RouteKey : Type 0 where
  pub method : Bytes
  pub pattern : Bytes

pub data StatusClass : Type 0 where
  class_1xx class_2xx class_3xx class_4xx class_5xx : StatusClass

abbrev pub is_class : StatusClass → StatusClass → Bool
is_class class_1xx class_1xx = true
is_class class_2xx class_2xx = true
is_class class_3xx class_3xx = true
is_class class_4xx class_4xx = true
is_class class_5xx class_5xx = true
is_class _ _ = false

pub record RouteStat : Type 0 where
  pub requests : ℕ
  pub by_status_class : StatusClass → ℕ
  pub total_ms : ℕ
  pub max_ms : ℕ
  pub buckets : List ℕ
  pub last_status : ℕ
  pub last_at : ℕ

pub record Traffic : Type 0 where
  pub routes : List (RouteKey × RouteStat)
  pub in_flight : ℕ
  pub max_routes : ℕ

abbrev pub max_tracked_routes : ℕ
max_tracked_routes = 512

abbrev pub new_traffic : Traffic
new_traffic = record { routes = []; in_flight = 0; max_routes = max_tracked_routes }

abbrev pub begin : Traffic → Traffic
begin t = record t { in_flight = (t.in_flight + 1) % 18446744073709551616 }

abbrev pub status_class : ℕ → StatusClass
status_class status =
    if leb 500 status
    then class_5xx
    else if leb 400 status
    then class_4xx
    else if leb 300 status
    then class_3xx
    else if leb 200 status
    then class_2xx
    else class_1xx

-- The first bucket whose bound is not passed, or the one past the last bound.
abbrev pub index_from : List ℕ → ℕ → ℕ
index_from [] milliseconds = 0
index_from (bound ∷ bounds) milliseconds =
    let rest = index_from bounds milliseconds in if leb milliseconds bound then 0 else suc rest

abbrev pub bucket_index : ℕ → ℕ
bucket_index milliseconds = index_from latency_bounds_ms milliseconds

abbrev pub increment : ℕ → List ℕ → List ℕ
increment i [] = []
increment zero (n ∷ ns) = (n + 1) ∷ ns
increment (suc i) (n ∷ ns) = n ∷ increment i ns

-- strings.Cut(pattern, " ")
cut_space : Bytes → Option (Bytes × Bytes)
cut_space [] = none
cut_space (c ∷ cs) =
    let rest : Option (Bytes × Bytes) = elim (cut_space cs) [
      | none ↦ none
      | some (before, after) ↦ some (c ∷ before, after)
    ] in
    if c == b' ' then some ([], cs) else rest

pub new_route_key : (Bytes → Bytes) → Bytes → Bytes → RouteKey
unfolding cut_space
new_route_key trim_space method pattern =
    let trimmed = trim_space pattern in
    if length trimmed == 0
    then record {
      method = method;
      pattern = b'u' ∷ b'n' ∷ b'r' ∷ b'o' ∷ b'u' ∷ b't' ∷ b'e' ∷ b'd' ∷ [];
    }
    else elim (cut_space trimmed) [
      | some (verb, path) ↦ record { method = verb; pattern = path }
      | none ↦ record { method = method; pattern = trimmed }
    ]

abbrev pub overflow_key : RouteKey
overflow_key = record {
  method = b'*' ∷ [];
  pattern = b'o' ∷ b'v' ∷ b'e' ∷ b'r' ∷ b'f' ∷ b'l' ∷ b'o' ∷ b'w' ∷ [];
}

abbrev pub is_key : RouteKey → RouteKey × RouteStat → Bool
is_key key entry = entry.0.method == key.method && entry.0.pattern == key.pattern

abbrev pub has_route : RouteKey → List (RouteKey × RouteStat) → Bool
has_route key [] = false
has_route key (e ∷ es) = let rest = has_route key es in if is_key key e then true else rest

-- A change of the counters of one route, through the pointer that the map holds.
abbrev pub change_route :
    RouteKey → (RouteStat → RouteStat) → List (RouteKey × RouteStat) → List (RouteKey × RouteStat)
change_route key f [] = []
change_route key f (e ∷ es) =
    let rest = change_route key f es in if is_key key e then (e.0, f e.1) ∷ es else e ∷ rest

abbrev pub new_stat : RouteStat
new_stat = record {
  requests = 0;
  by_status_class = λ c. 0;
  total_ms = 0;
  max_ms = 0;
  buckets = map (λ n. 0) (0 ∷ latency_bounds_ms);
  last_status = 0;
  last_at = 0;
}

-- One completed request.
abbrev pub count_request : ℕ → ℕ → ℕ → RouteStat → RouteStat
count_request status milliseconds now s = record {
  requests = s.requests + 1;
  by_status_class = λ c.
      if is_class (status_class status) c then s.by_status_class c + 1 else s.by_status_class c;
  total_ms = s.total_ms + milliseconds;
  max_ms = if ltb s.max_ms milliseconds then milliseconds else s.max_ms;
  buckets = increment (bucket_index milliseconds) s.buckets;
  last_status = status;
  last_at = now;
}

-- The counters of a route, made where the route has none; a new route of a full table counts as
-- the overflow route.
abbrev pub change_or_add :
    RouteKey → (RouteStat → RouteStat) → List (RouteKey × RouteStat) → List (RouteKey × RouteStat)
change_or_add key f routes =
    if has_route key routes then change_route key f routes else (key, f new_stat) ∷ routes

abbrev pub count_route :
    ℕ
    → RouteKey
    → (RouteStat → RouteStat)
    → List (RouteKey × RouteStat)
    → List (RouteKey × RouteStat)
count_route max_routes key f routes =
    if has_route key routes
    then change_route key f routes
    else change_or_add (if leb max_routes (length routes) then overflow_key else key) f routes

pub finish : (Bytes → Bytes) → Bytes → Bytes → ℕ → ℕ → ℕ → Traffic → Traffic
unfolding new_route_key
finish trim_space method pattern status milliseconds now t = record t {
  routes =
      count_route t.max_routes (new_route_key trim_space method pattern)
        (count_request status milliseconds now) t.routes;
  in_flight = (t.in_flight + 18446744073709551615) % 18446744073709551616;
}

-- The walk over the buckets: `seen` requests so far, the bounds that are left.
abbrev pub percentile_from : ℕ → ℕ → List ℕ → List ℕ → ℕ → ℕ
percentile_from target seen [] bounds max_ms = max_ms
percentile_from target seen (c ∷ cs) [] max_ms =
    let rest = percentile_from target (seen + c) cs [] max_ms in
    if ltb (seen + c) target then rest else max_ms
percentile_from target seen (c ∷ cs) (bound ∷ bounds) max_ms =
    let rest = percentile_from target (seen + c) cs bounds max_ms in
    if ltb (seen + c) target then rest else bound

pub percentile_ms : List ℕ → ℕ → ℕ → ℕ → ℕ
percentile_ms buckets requests percentile max_ms =
    let rounded = (requests * percentile + 99) / 100 in
    let target = if ltb rounded 1 then 1 else rounded in
    if requests == 0 then 0 else percentile_from target 0 buckets latency_bounds_ms max_ms

-- The counters that a report adds up over the routes.
abbrev pub total_requests : List (RouteKey × RouteStat) → ℕ
total_requests [] = 0
total_requests (e ∷ es) = e.1.requests + total_requests es

abbrev pub overall : StatusClass → List (RouteKey × RouteStat) → ℕ
overall c [] = 0
overall c (e ∷ es) = e.1.by_status_class c + overall c es

abbrev pub mean_ms : RouteStat → ℕ
mean_ms s = if ltb 0 s.requests then s.total_ms / s.requests else 0
