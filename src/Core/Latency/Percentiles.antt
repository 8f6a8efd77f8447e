-- ===== src/Core/Latency/Percentiles.antt =====
-- What is known of a ring after samples.
use native.Mathlib.Nat.{mod-lt}
use remote_way.Prelude.{
  ℕ, zero, suc, ◌+◌, ◌-◌, ◌*◌, ◌/◌, ◌%◌, ◌^◌, ◌≤◌, ◌<◌, min, max, true, List, [], ◌∷◌, some, length,
  set, ltb, ◌≡◌, inl, inr, refl, ◌∙◌, ap, subst, arith, length-append, length-set, All, All-append,
  Bool-cases, ltb→lt, lt→ltb, not-ltb→le,
}
use remote_way.Core.Latency.{
  LatencyHistogram, max_duration, with_capacity, add_duration, record_latency, sort, p50_idx,
  p99_idx, percentiles, record_all,
}
use remote_way.Core.Latency.Ranks.{
  Within, All-get, get_pair, All-sort, length-sort, sort-Sorted, Ranked, sort-Ranked,
}

All-set {ℓ} : (P : ℕ → Type ℓ) (xs : List ℕ) (i v : ℕ) → All P xs → P v → All P (set xs i v)
All-set P [] i v a p = tt
All-set P (x ∷ xs) zero v a p = (p, a.1)
All-set P (x ∷ xs) (suc i) v a p = (a.0, All-set P xs i v a.1 p)

All-widen :
    (lo hi lo' hi' : ℕ) (xs : List ℕ)
    → lo' ≤ lo
    → hi ≤ hi'
    → All (Within lo hi) xs
    → All (Within lo' hi') xs
All-widen lo hi lo' hi' [] l h a = tt
All-widen lo hi lo' hi' (x ∷ xs) l h a =
    ((omega (arith, a.0.0), omega (arith, a.0.1)), All-widen lo hi lo' hi' xs l h a.1)

-- The ring holds no more than its capacity, and only what lies between the least and the greatest.
pub record Bracketed (capacity : ℕ) (h : LatencyHistogram) : Type 0 where
  pub same_capacity : h.capacity ≡ capacity
  pub room : length h.samples ≤ capacity
  pub cursor_in : h.cursor < capacity
  pub within : All (Within h.least h.greatest) h.samples

with_capacity-Bracketed :
    (capacity : ℕ) → 0 < capacity → Bracketed capacity (with_capacity capacity)
unfolding with_capacity
with_capacity-Bracketed capacity pos = record {
  same_capacity = refl;
  room = omega arith;
  cursor_in = pos;
  within = tt;
}

record Added (capacity l : ℕ) (h h' : LatencyHistogram) : Type 0 where
  count : h'.count ≡ (h.count + 1) % 2 ^ 64
  sum : h'.sum ≡ h.sum + l
  least : h'.least ≡ min h.least l
  greatest : h'.greatest ≡ max h.greatest l
  size : length h'.samples ≡ min capacity (length h.samples + 1)

record_latency-Bracketed :
    (capacity : ℕ) (h : LatencyHistogram) (l : ℕ)
    → 0 < capacity
    → Bracketed capacity h
    → h.sum + l ≤ max_duration
    → (h' : LatencyHistogram) × (record_latency h l ≡ some h')
      × Bracketed capacity h'
      × Added capacity l h h'
unfolding record_latency
record_latency-Bracketed capacity h l pos b room =
    let wide =
      All-widen h.least h.greatest (min h.least l) (max h.greatest l) h.samples (omega arith)
        (omega arith) b.within in
    let fits : Within (min h.least l) (max h.greatest l) l = (omega arith, omega arith) in
    let added : add_duration h.sum l ≡ some (h.sum + l) = ground (arith, room) in
    let next : (h.cursor + 1) % max h.capacity 1 < capacity =
      (let e : max h.capacity 1 ≡ capacity = omega (arith, b.same_capacity) in
        rw e (mod-lt (h.cursor + 1) pos)) in
    elim (Bool-cases (ltb (length h.samples) h.capacity)) [
      | inl more ↦
          let size = length-append h.samples (l ∷ []) in
          (
            _,
            rw (more, added) refl,
            record {
              same_capacity = b.same_capacity;
              room = omega (arith, ltb→lt _ _ more, b.same_capacity, size);
              cursor_in = next;
              within = All-append _ h.samples (l ∷ []) wide (fits, tt);
            },
            record {
              count = refl;
              sum = refl;
              least = refl;
              greatest = refl;
              size = omega (arith, ltb→lt _ _ more, b.same_capacity, size);
            },
          )
      | inr full ↦
          let at : ltb h.cursor (length h.samples) ≡ true =
            lt→ltb _ _ (omega (arith, not-ltb→le _ _ full, b.same_capacity, b.cursor_in)) in
          let size = length-set h.samples h.cursor l in
          (
            _,
            rw (full, at, added) refl,
            record {
              same_capacity = b.same_capacity;
              room = omega (arith, size, b.room);
              cursor_in = next;
              within = All-set _ h.samples h.cursor l wide fits;
            },
            record {
              count = refl;
              sum = refl;
              least = refl;
              greatest = refl;
              size = omega (arith, not-ltb→le _ _ full, b.same_capacity, b.room, size);
            },
          )
    ]

percentiles-Within :
    (lo hi : ℕ) (samples : List ℕ)
    → 0 < length samples
    → All (Within lo hi) samples
    → (p50 : ℕ) × (p99 : ℕ) × (percentiles samples ≡ some (p50, p99))
      × (lo ≤ p50)
      × (p50 ≤ p99)
      × (p99 ≤ hi)
      × Ranked (length samples / 2) samples p50
      × Ranked (min (length samples * 99 / 100) (length samples - 1)) samples p99
unfolding percentiles
percentiles-Within lo hi [] h a = absurd (omega arith)
percentiles-Within lo hi (x ∷ xs) h a =
    let sorted = sort (x ∷ xs) in
    let n = length sorted in
    let count : length sorted ≡ length (x ∷ xs) = length-sort (x ∷ xs) in
    let some_samples : 0 < n = omega (arith, count) in
    let (p50, p99, low, high, le) =
      get_pair sorted (p50_idx n) (p99_idx n) (sort-Sorted (x ∷ xs)) (omega arith) (omega arith) in
    let kept = All-sort (Within lo hi) (x ∷ xs) a in
    let (a50, found50, in50) = All-get sorted (p50_idx n) kept (omega arith) in
    let (a99, found99, in99) = All-get sorted (p99_idx n) kept (omega arith) in
    let same50 : p50 ≡ a50 = cc in
    let same99 : p99 ≡ a99 = cc in
    (
      p50,
      p99,
      rw (low, high) refl,
      omega (arith, same50, in50.0),
      le,
      omega (arith, same99, in99.1),
      subst (λ m. Ranked (p50_idx m) (x ∷ xs) p50) count (sort-Ranked (x ∷ xs) (p50_idx n) p50 low),
      subst (λ m. Ranked (p99_idx m) (x ∷ xs) p99) count
          (sort-Ranked (x ∷ xs) (p99_idx n) p99 high),
    )

abbrev pub total : List ℕ → ℕ
total [] = 0
total (l ∷ ls) = l + total ls

-- The least of a first sample and others, and the greatest.
abbrev pub least_of : ℕ → List ℕ → ℕ
least_of l [] = l
least_of l (x ∷ xs) = least_of (min l x) xs

abbrev pub greatest_of : ℕ → List ℕ → ℕ
greatest_of l [] = l
greatest_of l (x ∷ xs) = greatest_of (max l x) xs

-- What samples make of the figures.
record AllAdded (capacity : ℕ) (ls : List ℕ) (h h' : LatencyHistogram) : Type 0 where
  count : h'.count ≡ (h.count + length ls) % 2 ^ 64
  sum : h'.sum ≡ h.sum + total ls
  least : h'.least ≡ least_of h.least ls
  greatest : h'.greatest ≡ greatest_of h.greatest ls
  size : length h'.samples ≡ min capacity (length h.samples + length ls)

record_all-Bracketed :
    (capacity : ℕ) (ls : List ℕ) (h : LatencyHistogram)
    → 0 < capacity
    → Bracketed capacity h
    → h.count < 2 ^ 64
    → h.sum + total ls ≤ max_duration
    → (h' : LatencyHistogram) × (record_all h ls ≡ some h')
      × Bracketed capacity h'
      × AllAdded capacity ls h h'
unfolding record_all
record_all-Bracketed capacity [] h pos b word room = (
  h,
  refl,
  b,
  record {
    count = omega (arith, word);
    sum = omega arith;
    least = refl;
    greatest = refl;
    size = omega (arith, b.room);
  },
)
record_all-Bracketed capacity (l ∷ ls) h pos b word room =
    let (h1, ran, b1, a1) = record_latency-Bracketed capacity h l pos b (omega (arith, room)) in
    let (h2, rest, b2, a2) =
      record_all-Bracketed capacity ls h1 pos b1 (omega (arith, a1.count))
        (omega (arith, a1.sum, room)) in
    (
      h2,
      rw ran rest,
      b2,
      record {
        count = omega (arith, a1.count, a2.count);
        sum = omega (arith, a1.sum, a2.sum);
        least = a2.least ∙ ap (λ m. least_of m ls) a1.least;
        greatest = a2.greatest ∙ ap (λ m. greatest_of m ls) a1.greatest;
        size = omega (arith, a1.size, a2.size);
      },
    )

-- What is known of a ring after a first sample and others: the figures are those of all samples, also of
-- those that the ring has dropped; the ring holds as many of them as it has room for, and the two
-- percentiles are the values of its samples at n / 2 and at n * 99 / 100, or the last, in order.
pub record Figures (capacity l : ℕ) (ls : List ℕ) (h : LatencyHistogram) (p50 p99 : ℕ)
    : Type 0 where
  pub count : h.count ≡ length (l ∷ ls) % 2 ^ 64
  pub sum : h.sum ≡ total (l ∷ ls)
  pub least : h.least ≡ least_of l ls
  pub greatest : h.greatest ≡ greatest_of l ls
  pub size : length h.samples ≡ min capacity (length (l ∷ ls))
  pub within : All (Within h.least h.greatest) h.samples
  pub median : Ranked (length h.samples / 2) h.samples p50
  pub near_top : Ranked (min (length h.samples * 99 / 100) (length h.samples - 1)) h.samples p99
  pub above_least : h.least ≤ p50
  pub in_order : p50 ≤ p99
  pub below_greatest : p99 ≤ h.greatest

-- After one sample or more whose sum is a duration, in a ring of any capacity but 0, recording and the
-- percentiles have not panicked; the count is that of all samples modulo 2 ^ 64, and the sum, the least
-- and the greatest are those of all, also of those that the ring has dropped. The ring holds as many as
-- it has room for, each between the least and the greatest. Of its n samples at most n / 2 are less
-- than the median and more than that are no greater, and so for the 99th percentile with
-- n * 99 / 100, or n - 1 if that is less; the two lie in this order between the least and the greatest.
pub record_all-percentiles :
    (capacity l : ℕ) (ls : List ℕ)
    → 0 < capacity
    → total (l ∷ ls) ≤ max_duration
    → (h : LatencyHistogram) × (p50 : ℕ) × (p99 : ℕ) × (record_all (with_capacity capacity) (l ∷ ls)
        ≡ some h)
      × (percentiles h.samples ≡ some (p50, p99))
      × Figures capacity l ls h p50 p99
unfolding with_capacity
record_all-percentiles capacity l ls pos room =
    let (h, ran, b, added) =
      record_all-Bracketed capacity (l ∷ ls) (with_capacity capacity) pos
        (with_capacity-Bracketed capacity pos) (omega arith) (omega (arith, room)) in
    let (p50, p99, found, low, mid, high, median, near_top) =
      percentiles-Within h.least h.greatest h.samples (omega (arith, added.size, pos)) b.within in
    let least_first : min max_duration l ≡ l = omega (arith, room) in
    let greatest_first : max 0 l ≡ l = omega arith in
    (
      h,
      p50,
      p99,
      ran,
      found,
      record {
        count = omega (arith, added.count);
        sum = omega (arith, added.sum);
        least = added.least ∙ ap (λ m. least_of m ls) least_first;
        greatest = added.greatest ∙ ap (λ m. greatest_of m ls) greatest_first;
        size = omega (arith, added.size);
        within = b.within;
        median = median;
        near_top = near_top;
        above_least = low;
        in_order = mid;
        below_greatest = high;
      },
    )
