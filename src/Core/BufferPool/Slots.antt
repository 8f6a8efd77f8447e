-- ===== src/Core/BufferPool/Slots.antt =====
-- No slot is handed out twice, and none is lost.
use remote_way.Prelude.{
  ℕ, zero, suc, ◌+◌, ◌-◌, ◌/◌, ◌%◌, ◌^◌, ◌≤◌, ◌<◌, max, bit_and, bit_or, Bool, true, false, not,
  ◌&&◌, List, [], ◌∷◌, ◌++◌, none, some, set, leb, ltb, ◌==◌, if◌then◌else◌, ◌≡◌, ◌≢◌, ◌⊎◌, inl,
  inr, refl, ◌∙◌, sym, ap, arith, Bool-cases, ==_iff, ltb→lt, not-ltb→le,
}
use remote_way.Prelude.Bits.{
  test_bit, test_bit-le, test_bit-bit_and, test_bit-bit_or, test_bit-pow_self, test_bit-pow_ne,
  test_bit-not, test_bit-ones, test_bit_high, bit_or-lt, bit_and-lt,
}
use native.Mathlib.Nat.{pow-suc, one-le-pow}
use native.Mathlib.Decide.{dec_lt}
use remote_way.Core.BufferPool.{
  FrameHandle, BufferPool, aligned, new, trailing_zeros, exchange, release, World, Event, loads,
  exchanges, releases, add_handle, step, run,
}

-- How many of the handles have slot `i`.
unfoldable pub holders : ℕ → List FrameHandle → ℕ
holders i [] = 0
holders i (h ∷ hs) = (if h.pool_index == i then 1 else 0) + holders i hs

holders-append :
    (i : ℕ) (xs ys : List FrameHandle) → holders i (xs ++ ys) ≡ holders i xs + holders i ys
unfolding holders
holders-append i [] ys = omega arith
holders-append i (x ∷ xs) ys = omega (arith, holders-append i xs ys)

-- A slot of the pool is free or held by one handle; no other slot is either.
pub record Owned (w : World) : Type 0 where
  pub word : w.pool.free_mask < 2 ^ 64
  pub few : w.pool.capacity ≤ 64
  pub once :
      (i : ℕ)
      → test_bit w.pool.free_mask i + holders i w.held ≡ (if ltb i w.pool.capacity then 1 else 0)

trailing_zeros-test_bit :
    (n mask : ℕ)
    → mask < 2 ^ n
    → mask ≢ 0
    → (trailing_zeros n mask < n) × (test_bit mask (trailing_zeros n mask) ≡ 1)
unfolding trailing_zeros
trailing_zeros-test_bit zero mask h ne = absurd (ne (omega arith))
trailing_zeros-test_bit (suc n) mask h ne = elim (Bool-cases (mask % 2 == 0)) [
  | inl even ↦
      let low : mask % 2 ≡ 0 = (==_iff _ 0).0 even in
      let half : mask / 2 ≢ 0 = λ e. ne (omega arith) in
      let (below, here) = trailing_zeros-test_bit n (mask / 2) (omega (arith, pow-suc 2 n)) half in
      rw even (omega arith, here)
  | inr odd ↦ rw odd (omega arith, ground arith)
]

pow_below : (w s : ℕ) → s < w → 2 ^ s < 2 ^ w
pow_below zero s h = absurd (omega arith)
pow_below (suc w) zero h = omega (arith, pow-suc 2 w, one-le-pow w 2)
pow_below (suc w) (suc s) h = omega (arith, pow-suc 2 w, pow-suc 2 s, pow_below w s (omega arith))

bit_of_pow : (s i : ℕ) → test_bit (2 ^ s) i ≡ (if s == i then 1 else 0)
bit_of_pow s i = elim (Bool-cases (s == i)) [
  | inl same ↦ let e : s ≡ i = (==_iff s i).0 same in rw same (rw e (test_bit-pow_self i))
  | inr other ↦ rw other (test_bit-pow_ne s i (λ e. cc ((==_iff s i).1 e)))
]

cleared :
    (m s i : ℕ)
    → m < 2 ^ 64
    → s < 64
    → test_bit m s ≡ 1
    → test_bit (bit_and m (2 ^ 64 - 1 - 2 ^ s)) i + (if s == i then 1 else 0) ≡ test_bit m i
cleared m s i word below set = elim (dec_lt i 64) [
  | yes within ↦
      let rest = test_bit-not 64 (2 ^ s) i (pow_below 64 s below) within in
      let bit = bit_of_pow s i in
      let both = test_bit-bit_and i m (2 ^ 64 - 1 - 2 ^ s) in
      elim (Bool-cases (s == i)) [
        | inl same ↦
            let e : s ≡ i = (==_iff s i).0 same in
            let here : test_bit m i ≡ 1 = rw (← e) set in
            rw same (omega (arith, both, rest, rw same at bit, here))
        | inr other ↦ rw other (omega (arith, both, rest, rw other at bit, test_bit-le m i))
      ]
  | no past ↦
      let high = test_bit_high 64 m i word (omega arith) in
      let both = test_bit-bit_and i m (2 ^ 64 - 1 - 2 ^ s) in
      let other : (s == i) ≡ false = ground arith in rw other (omega (arith, both, high))
]

added : (m s i : ℕ) → test_bit (bit_or m (2 ^ s)) i ≡ max (test_bit m i) (if s == i then 1 else 0)
added m s i = test_bit-bit_or i m (2 ^ s) ∙ ap (max (test_bit m i)) (bit_of_pow s i)

low_bits : (capacity i : ℕ) → test_bit (2 ^ capacity - 1) i ≡ (if ltb i capacity then 1 else 0)
low_bits capacity i = elim (Bool-cases (ltb i capacity)) [
  | inl within ↦ rw within (test_bit-ones capacity i (ltb→lt _ _ within))
  | inr past ↦ rw past (
      test_bit_high capacity (2 ^ capacity - 1) i (omega (arith, one-le-pow capacity 2))
        (not-ltb→le _ _ past))
]

low_bits_word : (capacity : ℕ) → capacity ≤ 64 → 2 ^ capacity - 1 < 2 ^ 64
low_bits_word capacity h = elim (dec_lt capacity 64) [
  | yes below ↦ omega (arith, pow_below 64 capacity below)
  | no same ↦ let e : capacity ≡ 64 = omega arith in rw e (omega arith)
]

new_mask :
    (capacity : ℕ) → (if capacity == 64 then 2 ^ 64 - 1 else 2 ^ capacity - 1) ≡ 2 ^ capacity - 1
new_mask capacity = elim (Bool-cases (capacity == 64)) [
  | inl full ↦ let e : capacity ≡ 64 = (==_iff capacity 64).0 full in rw e refl
  | inr less ↦ rw less refl
]

-- For 1 to 64 slots a pool is made, and each of its slots is free and none is out.
pub new-Owned :
    (capacity frame_size : ℕ) (loaded : ℕ → ℕ)
    → 0 < capacity
    → capacity ≤ 64
    → (p : BufferPool) × (new capacity frame_size ≡ some p)
      × Owned (record { pool = p; loaded = loaded; held = [] })
unfolding new holders
new-Owned capacity frame_size loaded some_slot few =
    let fits : ltb 0 capacity && leb capacity 64 ≡ true = ground (arith, some_slot, few) in
    let p : BufferPool = record {
      frame_size = aligned frame_size;
      capacity = capacity;
      free_mask = 2 ^ capacity - 1;
    } in
    (
      p,
      rw (fits, new_mask capacity),
      record {
        word = low_bits_word capacity few;
        few = few;
        once = λ i. omega (arith, low_bits capacity i);
      },
    )

exchange-Owned :
    (w : World) (mask : ℕ) (fails : Bool) (timestamp_ns : ℕ)
    → Owned w
    → let r = exchange w.pool mask fails timestamp_ns in
      Owned (record w { pool = r.0; held = add_handle r.1 w.held })
unfolding exchange holders
exchange-Owned w mask fails timestamp_ns o =
    elim (Bool-cases (not (mask == 0) && (w.pool.free_mask == mask) && not fails)) [
      | inl done ↦
          let same : w.pool.free_mask ≡ mask = ground arith in
          let word : mask < 2 ^ 64 = rw same at o.word in
          let some_free : mask ≢ 0 = ground arith in
          let (below, set) = trailing_zeros-test_bit 64 mask word some_free in
          rw done (record {
            word = bit_and-lt 64 mask _ word;
            few = o.few;
            once = λ i. omega (
              arith,
              cleared mask (trailing_zeros 64 mask) i word below set,
              rw same at (o.once i),
            );
          })
      | inr missed ↦ rw missed o
    ]

one_or_none : (b : Bool) → (if b then 1 else 0) ≤ 1
one_or_none true = omega arith
one_or_none false = omega arith

release-Owned :
    (w : World) (before after : List FrameHandle) (handle : FrameHandle)
    → Owned w
    → w.held ≡ before ++ (handle ∷ after)
    → Owned (record w { pool = release w.pool handle; held = before ++ after })
unfolding release holders
release-Owned w before after handle o out =
    let s = handle.pool_index in
    let hold : (i : ℕ)
        → test_bit w.pool.free_mask i
            + (holders i before + ((if s == i then 1 else 0) + holders i after))
          ≡ (if ltb i w.pool.capacity then 1 else 0) =
      λ i.
        ap (λ n. test_bit w.pool.free_mask i + n)
          (sym (ap (holders i) out ∙ holders-append i before (handle ∷ after)))
        ∙ o.once i in
    let inside : s < 64 = elim (Bool-cases (ltb s w.pool.capacity)) [
      | inl below ↦ omega (arith, ltb→lt _ _ below, o.few)
      | inr past ↦
          let here : (s == s) ≡ true = ground arith in
          absurd (omega (arith, rw (here, past) at (hold s)))
    ] in
    record {
      word = bit_or-lt 64 w.pool.free_mask (2 ^ s) o.word (pow_below 64 s inside);
      few = o.few;
      once = λ i. elim (Bool-cases (s == i)) [
        | inl here ↦ omega (
          arith,
          rw here at (added w.pool.free_mask s i),
          rw here at (hold i),
          one_or_none (ltb i w.pool.capacity),
          holders-append i before after,
        )
        | inr other ↦ omega (
          arith,
          rw other at (added w.pool.free_mask s i),
          rw other at (hold i),
          holders-append i before after,
        )
      ];
    }

-- A handle is given back only while it is out.
abbrev pub Legal : World → List Event → Type 0
Legal w [] = Unit {0}
Legal w (loads t ∷ es) = Legal (step w (loads t)) es
Legal w (exchanges t fails ts ∷ es) = Legal (step w (exchanges t fails ts)) es
Legal w (releases before after h ∷ es) =
    (w.held ≡ before ++ (h ∷ after)) × Legal (step w (releases before after h)) es

-- Whatever the order in which the threads load, exchange and release, and whichever exchanges fail,
-- each slot of the pool is at each time either free or out with exactly one handle, and no other
-- slot is ever handed out. Each release gives back a handle that is out.
pub run-Owned : (es : List Event) (w : World) → Owned w → Legal w es → Owned (run w es)
unfolding run step
run-Owned [] w o legal = o
run-Owned (loads t ∷ es) w o legal =
    run-Owned es (step w (loads t)) (record { word = o.word; few = o.few; once = o.once }) legal
run-Owned (exchanges t fails ts ∷ es) w o legal =
    run-Owned es (step w (exchanges t fails ts)) (exchange-Owned w (w.loaded t) fails ts o) legal
run-Owned (releases before after h ∷ es) w o legal =
    run-Owned es (step w (releases before after h)) (release-Owned w before after h o legal.0)
      legal.1

-- A load followed by an exchange of the same thread that does not fail for no reason hands out a
-- free slot, which is then no longer free, unless there is none.
exchange_lem :
    (p : BufferPool) (timestamp_ns : ℕ)
    → p.free_mask < 2 ^ 64
    → (p.free_mask ≡ 0) × ((exchange p p.free_mask false timestamp_ns).1 ≡ none)
      ⊎ (h : FrameHandle) × ((exchange p p.free_mask false timestamp_ns).1 ≡ some h)
        × (test_bit p.free_mask h.pool_index ≡ 1)
        × (test_bit (exchange p p.free_mask false timestamp_ns).0.free_mask h.pool_index ≡ 0)
unfolding exchange
exchange_lem p timestamp_ns word = elim (Bool-cases (p.free_mask == 0)) [
  | inl empty ↦ inl ((==_iff _ 0).0 empty, rw empty refl)
  | inr free ↦
      let (below, set) = trailing_zeros-test_bit 64 p.free_mask word (λ e. cc ((==_iff _ 0).1 e)) in
      let slot = trailing_zeros 64 p.free_mask in
      let itself : (p.free_mask == p.free_mask) ≡ true = ground arith in
      let own : (slot == slot) ≡ true = ground arith in
      inr (
        record { pool_index = slot; len = p.frame_size % 2 ^ 32; timestamp_ns = timestamp_ns },
        rw (free, itself) refl,
        set,
        rw (free, itself)
            (omega (arith, rw own at (cleared p.free_mask slot slot word below set), set)),
      )
]
