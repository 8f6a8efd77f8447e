-- ===== src/Core/Latency.antt =====
-- crates/remoteway-core/src/latency.rs: a ring of samples with running figures. A `Duration` is its number of
-- nanoseconds; `least` and `greatest` are the fields `min` and `max`; the label is left out. `capacity`
-- is what the vector reserved. A sum past `Duration::MAX` panics; the count wraps at 64 bits.
pub mod Ranks
pub mod Percentiles
use remote_way.Prelude.{
  ℕ, zero, suc, ◌+◌, ◌-◌, ◌*◌, ◌/◌, ◌%◌, ◌^◌, ◌≤◌, ◌<◌, min, max, bit_and, bit_or, bit_xor, Bool,
  true, false, not, ◌&&◌, ◌||◌, List, [], ◌∷◌, ◌++◌, map, Option, none, some, length, take, drop,
  set, replicate, get_elem?, leb, ltb, ◌==◌, if◌then◌else◌, ◌≡◌, ◌≢◌, ◌⊎◌, inl, inr, refl, ◌∙◌, sym,
  ap, ap₂, subst, arith, append_assoc, append-nil, length-take, length-drop, length-append,
  drop-drop, take-append-drop, length-set, drop_all, take_all, take-length, drop-length, drop-take,
  take-take, take-set, drop-set, drop_get, All, All-take, All-drop, All-append, Bool-cases,
  Option-cases, ==_iff, ltb→lt, lt→ltb, le→not-ltb, not-ltb→le, length-map, get_of_drop,
  length-replicate,
}
use remote_way.Compress.Delta.{◌>>=◌}

-- `Duration::MAX`
abbrev pub max_duration : ℕ
max_duration = 2 ^ 64 * 1000000000 - 1

pub record LatencyHistogram : Type 0 where
  pub capacity : ℕ
  pub samples : List ℕ
  pub cursor : ℕ
  pub count : ℕ
  pub sum : ℕ
  pub least : ℕ
  pub greatest : ℕ

unfoldable pub with_capacity : ℕ → LatencyHistogram
with_capacity capacity = record {
  capacity = capacity;
  samples = [];
  cursor = 0;
  count = 0;
  sum = 0;
  least = max_duration;
  greatest = 0;
}

-- `samples[cursor] = latency`; `none` is the panic of an index out of range.
abbrev pub overwrite : List ℕ → ℕ → ℕ → Option (List ℕ)
overwrite samples cursor latency =
    if ltb cursor (length samples) then some (set samples cursor latency) else none

-- `+=` of durations; `none` is its panic.
abbrev pub add_duration : ℕ → ℕ → Option ℕ
add_duration a b = if leb (a + b) max_duration then some (a + b) else none

unfoldable pub record_latency : LatencyHistogram → ℕ → Option LatencyHistogram
record_latency h latency = do
  samples ←
      if ltb (length h.samples) h.capacity
      then some (h.samples ++ (latency ∷ []))
      else overwrite h.samples h.cursor latency
  sum ← add_duration h.sum latency
  some (record h {
    samples = samples;
    cursor = (h.cursor + 1) % max h.capacity 1;
    count = (h.count + 1) % 2 ^ 64;
    sum = sum;
    least = min h.least latency;
    greatest = max h.greatest latency;
  })

unfoldable pub record_ns : LatencyHistogram → ℕ → ℕ → Option LatencyHistogram
record_ns h start_ns end_ns =
    if ltb start_ns end_ns then record_latency h (end_ns - start_ns) else some h

unfoldable pub reset : LatencyHistogram → LatencyHistogram
reset h = record h {
  samples = [];
  cursor = 0;
  count = 0;
  sum = 0;
  least = max_duration;
  greatest = 0;
}

-- `sort` of the standard library.
unfoldable pub insert_sorted : ℕ → List ℕ → List ℕ
insert_sorted x [] = x ∷ []
insert_sorted x (y ∷ ys) = let rest = insert_sorted x ys in if leb x y then x ∷ y ∷ ys else y ∷ rest

unfoldable pub sort : List ℕ → List ℕ
sort [] = []
sort (x ∷ xs) = insert_sorted x (sort xs)

abbrev pub p50_idx : ℕ → ℕ
p50_idx n = n / 2

abbrev pub p99_idx : ℕ → ℕ
p99_idx n = min (n * 99 / 100) (n - 1)

unfoldable pub percentiles : List ℕ → Option (ℕ × ℕ)
percentiles [] = some (0, 0)
percentiles (x ∷ xs) = do
  let sorted = sort (x ∷ xs)
  p50 ← get_elem? sorted (p50_idx (length sorted))
  p99 ← get_elem? sorted (p99_idx (length sorted))
  some (p50, p99)

-- The samples recorded one after the other.
unfoldable pub record_all : LatencyHistogram → List ℕ → Option LatencyHistogram
record_all h [] = some h
record_all h (l ∷ ls) = do h' ← record_latency h l; record_all h' ls
