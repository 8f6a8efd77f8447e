-- ===== src/Tests/Latency.antt =====
-- A ring of three samples that has taken five.
use remote_way.Prelude.{refl, none, ℕ, List, [], ◌∷◌, ◌≡◌, some, arith}
use remote_way.Core.Latency.{
  record_latency, max_duration, LatencyHistogram, with_capacity, percentiles, record_all,
}
use remote_way.Core.Latency.Percentiles.{Figures, record_all-percentiles}

abbrev later : List ℕ
later = 40 ∷ 5 ∷ 30 ∷ 20 ∷ []

record_all-percentiles_example :
    (h : LatencyHistogram) × (p50 : ℕ) × (p99 : ℕ) × (record_all (with_capacity 3) (10 ∷ later)
      ≡ some h)
    × (percentiles h.samples ≡ some (p50, p99))
    × Figures 3 10 later h p50 p99
record_all-percentiles_example = record_all-percentiles 3 10 later (omega arith) (omega arith)

-- A sum past the longest duration panics.
too_long : record_all (with_capacity 3) (max_duration ∷ 1 ∷ []) ≡ none
unfolding record_all record_latency with_capacity
too_long = refl
