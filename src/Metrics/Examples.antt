-- ===== src/Metrics/Examples.antt =====
-- The metrics at concrete durations.
use execgo_runtime.Base.{ℕ, ◌≡◌, refl, List, [], ◌∷◌, map, length, min, u64_max}
use execgo_runtime.Metrics.{histogram, buckets_ms}
use execgo_runtime.Metrics.Buckets.{at_most, total, histogram_lem}

abbrev durations : List ℕ
durations = 700 ∷ 100 ∷ 90000 ∷ 100 ∷ []

counted :
    (histogram durations).buckets
    ≡ (100, 2)
      ∷ (250, 2)
      ∷ (500, 2)
      ∷ (1000, 3)
      ∷ (5000, 3)
      ∷ (10000, 3)
      ∷ (30000, 3)
      ∷ (60000, 3)
      ∷ (300000, 4)
      ∷ []
unfolding histogram
counted = refl

histogram_lem_example :
    ((histogram durations).buckets ≡ map (λ bound. (bound, at_most bound durations)) buckets_ms)
    × ((histogram durations).sum ≡ min (total durations) u64_max)
    × ((histogram durations).count ≡ length durations)
histogram_lem_example = histogram_lem durations
