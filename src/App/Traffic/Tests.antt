-- ===== src/App/Traffic/Tests.antt =====
-- Runs of the traffic counters on concrete requests, and instances of their theorems.
use shauth.Common.{ℕ, ◌<◌, ◌+◌, ◌*◌, ◌≤◌, List, [], ◌∷◌, ◌≡◌, ◌⊎◌, refl, codes, length}
use shauth.App.Traffic.{
  finish, new_route_key, cut_space, new_traffic, total_requests, max_tracked_routes, percentile_ms,
  latency_bounds_ms,
}
use shauth.App.Traffic.Counts.{
  Event, begins, finishes, serve, finished, AreCounted, serve-new_traffic,
}
use shauth.App.Traffic.Percentile.{IsReached, percentile_ms-covers}

abbrev requests : List Event
requests =
    begins
    ∷ finishes (codes "GET") (codes "GET /a") 200 7 1
    ∷ begins
    ∷ finishes (codes "GET") (codes "GET /a") 503 7000 2
    ∷ finishes (codes "POST") [] 403 1 3
    ∷ []

two_routes :
    (length (serve (λ s. s) requests new_traffic).routes ≡ 2)
    × (total_requests (serve (λ s. s) requests new_traffic).routes ≡ 3)
unfolding serve finish new_route_key cut_space
two_routes = (refl, refl)

serve-new_traffic_example :
    AreCounted (serve (λ s. s) requests new_traffic).routes
    × (total_requests (serve (λ s. s) requests new_traffic).routes ≡ finished requests)
    × (length (serve (λ s. s) requests new_traffic).routes ≤ max_tracked_routes + 1)
serve-new_traffic_example = serve-new_traffic (λ s. s) requests

-- Ten requests, of which nine are in the second bucket: its bound is the 95th percentile.
second_bucket : percentile_ms (1 ∷ 9 ∷ []) 10 95 8 ≡ 10
unfolding percentile_ms
second_bucket = refl

percentile_ms-covers_example :
    ((◌≡◌ {A = ℕ} 10 0) × (percentile_ms (1 ∷ 9 ∷ []) 10 95 8 ≡ 0))
    ⊎ ((rank : ℕ) × (1 ≤ rank)
        × (10 * 95 ≤ rank * 100)
        × ((rank ≡ 1) ⊎ (rank * 100 < 10 * 95 + 100))
        × IsReached rank 0 (1 ∷ 9 ∷ []) latency_bounds_ms 8 (percentile_ms (1 ∷ 9 ∷ []) 10 95 8))
percentile_ms-covers_example = percentile_ms-covers (1 ∷ 9 ∷ []) 10 95 8
