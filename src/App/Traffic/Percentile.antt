-- ===== src/App/Traffic/Percentile.antt =====
-- The percentile that internal/app/traffic.go reports, against the counters of the buckets.
use shauth.Common.{
  ℕ, zero, suc, ◌+◌, ◌*◌, ◌/◌, ◌≤◌, ◌<◌, true, List, [], ◌∷◌, ◌++◌, ◌≡◌, refl, ap, arith,
  if◌then◌else◌, ltb, ◌==◌, nat_eq, inl, inr, ◌⊎◌, take, length, Bool-cases,
}
use shauth.App.Traffic.{percentile_from, percentile_ms, latency_bounds_ms}

abbrev pub total : List ℕ → ℕ
total [] = 0
total (c ∷ cs) = c + total cs

-- The answer for the `target`-th fastest request, where `seen` requests precede the buckets: the
-- bound of the first bucket that reaches it, or the slowest where it lies past all bounds.
abbrev pub IsReached : ℕ → ℕ → List ℕ → List ℕ → ℕ → ℕ → Type 0
IsReached target seen buckets bounds max_ms answer =
    ((seen + total (take (length bounds) buckets) < target) × (answer ≡ max_ms))
    ⊎ ((before : List ℕ) × (bound : ℕ) × (after : List ℕ) × (bounds ≡ before ++ (bound ∷ after))
        × (seen + total (take (length before) buckets) < target)
        × (target ≤ seen + total (take (suc (length before)) buckets))
        × (answer ≡ bound))

past_bounds :
    (target seen : ℕ) (buckets : List ℕ) (max_ms : ℕ)
    → percentile_from target seen buckets [] max_ms ≡ max_ms
past_bounds target seen [] max_ms = refl
past_bounds target seen (c ∷ cs) max_ms = ground (arith, past_bounds target (seen + c) cs max_ms)

percentile_from-IsReached :
    (target seen : ℕ) (buckets bounds : List ℕ) (max_ms : ℕ)
    → seen < target
    → IsReached target seen buckets bounds max_ms
        (percentile_from target seen buckets bounds max_ms)
percentile_from-IsReached target seen [] bounds max_ms h = inl (nothing (length bounds), refl)
  where
    nothing : (n : ℕ) → seen + total (take n []) < target
    nothing zero = omega (arith, h)
    nothing (suc n) = omega (arith, h)
percentile_from-IsReached target seen (c ∷ cs) [] max_ms h =
    inl (omega (arith, h), past_bounds target seen (c ∷ cs) max_ms)
percentile_from-IsReached target seen (c ∷ cs) (b ∷ bs) max_ms h =
    elim (Bool-cases (ltb (seen + c) target)) [
      | inl short ↦
          further (percentile_from-IsReached target (seen + c) cs bs max_ms (ground (arith, short)))
            short
      | inr reached ↦
          inr ([], b, bs, refl, omega (arith, h), ground (arith, reached), rw (reached) refl)
    ]
  where
    further :
        IsReached target (seen + c) cs bs max_ms (percentile_from target (seen + c) cs bs max_ms)
        → ltb (seen + c) target ≡ true
        → IsReached target seen
            (c ∷ cs)
            (b ∷ bs)
            max_ms
            (percentile_from target seen (c ∷ cs) (b ∷ bs) max_ms)
    further (inl (few, slowest)) short = inl (omega (arith, few), rw (short) slowest)
    further (inr (before, bound, after, split, few, enough, is)) short = inr (
      b ∷ before,
      bound,
      after,
      ap (λ l. b ∷ l) split,
      omega (arith, few),
      omega (arith, enough),
      rw (short) is,
    )

rounded_up : (m : ℕ) → m ≤ (m + 99) / 100 * 100
rounded_up m = omega arith

rounded_down : (m : ℕ) → (m + 99) / 100 * 100 < m + 100
rounded_down m = omega arith

-- The percentile of a route's requests is read at the least rank, from 1 on, that covers that
-- percentage of them: it is the bound of the bucket in which the running count of the buckets first
-- reaches the rank, and the slowest response where the buckets that have a bound do not reach it. A
-- route that has served no request has 0.
pub percentile_ms-covers :
    (buckets : List ℕ) (requests percentile max_ms : ℕ)
    → ((requests ≡ 0) × (percentile_ms buckets requests percentile max_ms ≡ 0))
      ⊎ ((rank : ℕ) × (1 ≤ rank)
          × (requests * percentile ≤ rank * 100)
          × ((rank ≡ 1) ⊎ (rank * 100 < requests * percentile + 100))
          × IsReached rank 0 buckets latency_bounds_ms max_ms
              (percentile_ms buckets requests percentile max_ms))
unfolding percentile_ms
percentile_ms-covers buckets requests percentile max_ms = elim (Bool-cases (requests == 0)) [
  | inl none ↦ inl (ground (arith, none), rw (none) refl)
  | inr some_served ↦ inr (
    rank,
    positive,
    covers (requests * percentile),
    least (requests * percentile),
    rw (some_served) (
        percentile_from-IsReached rank 0 buckets latency_bounds_ms max_ms
          (omega (arith, positive))),
  )
]
  where
    up_to : ℕ → ℕ
    up_to m = let rounded = (m + 99) / 100 in if ltb rounded 1 then 1 else rounded

    rank : ℕ
    rank = up_to (requests * percentile)

    positive : 1 ≤ rank
    positive = ground arith

    covers : (m : ℕ) → m ≤ up_to m * 100
    covers m = ground (arith, rounded_up m)

    least : (m : ℕ) → (up_to m ≡ 1) ⊎ (up_to m * 100 < m + 100)
    least m = ground (arith, rounded_down m)
