-- ===== src/Display/Presentation/Interval.antt =====
-- The measured interval stays a usable one.
use remote_way.Prelude.{
  refl, ◌^◌, ◌%◌, ◌+◌, length, ℕ, ◌-◌, ◌≤◌, ◌<◌, min, max, true, ◌&&◌, List, [], ◌∷◌, ltb, ◌≡◌, inl,
  inr, arith, Bool-cases,
}
use remote_way.Display.Presentation.{
  PresentationSync, smooth, measure, record_presentation, record_presentations,
}

-- More than nothing and less than 100 ms.
abbrev pub Usable : ℕ → Type 0
Usable interval = (0 < interval) × (interval < 100000000)

-- Smoothing stays between the two intervals.
smooth-between :
    (p : PresentationSync) (interval : ℕ)
    → Usable p.frame_interval_ns
    → Usable interval
    → (min p.frame_interval_ns interval ≤ smooth p interval)
      × (smooth p interval ≤ max p.frame_interval_ns interval)
smooth-between p interval (positive, small) (new_positive, new_small) =
    elim (Bool-cases (ltb p.sample_count 4)) [
      | inl first ↦ rw first (omega arith, omega arith)
      | inr later ↦ rw later (omega (arith, small, new_small), omega (arith, small, new_small))
    ]

-- What passes the tests of a sample.
taken-Usable :
    (last interval : ℕ)
    → ltb 0 last && (ltb 0 interval && ltb interval 100000000) ≡ true
    → Usable interval
taken-Usable last interval taken = (ground (arith, taken), ground (arith, taken))

measure-Usable :
    (p : PresentationSync) (interval : ℕ) → Usable p.frame_interval_ns → Usable (measure p interval)
unfolding measure
measure-Usable p interval (positive, small) =
    elim (Bool-cases (ltb 0 p.last_presented_ns && (ltb 0 interval && ltb interval 100000000))) [
      | inl taken ↦
          let (new_positive, new_small) = taken-Usable p.last_presented_ns interval taken in
          let (least, most) =
            smooth-between p interval (positive, small) (new_positive, new_small) in
          rw taken
            (omega (arith, least, positive, new_positive), omega (arith, most, small, new_small))
      | inr left ↦ rw left (positive, small)
    ]

-- The last of the times, or the one before them.
abbrev pub last : ℕ → List ℕ → ℕ
last before [] = before
last before (t ∷ times) = last t times

-- Whatever times are reported, in any order, the interval stays usable, the last of the times is kept,
-- and all are counted.
pub record_presentations-Usable :
    (p : PresentationSync) (times : List ℕ)
    → Usable p.frame_interval_ns
    → p.sample_count < 2 ^ 64
    → let q = record_presentations p times in
      Usable q.frame_interval_ns
      × (q.last_presented_ns ≡ last p.last_presented_ns times)
      × (q.sample_count ≡ (p.sample_count + length times) % 2 ^ 64)
unfolding record_presentation
record_presentations-Usable p [] usable word = (usable, refl, omega (arith, word))
record_presentations-Usable p (t ∷ times) usable word =
    let (later, kept, count) =
      record_presentations-Usable (record_presentation p t) times
        (measure-Usable p (t - p.last_presented_ns) usable) (omega arith) in
    (later, kept, omega (arith, count))
