-- ===== src/Interpolate/LinearBlend/Between.antt =====
-- What lies between two frames.
use native.Mathlib.Nat.{mul-le-mul_right, div-le_of_le-mul, mul-add}
use remote_way.Prelude.{
  ℕ, zero, suc, ◌+◌, ◌-◌, ◌*◌, ◌^◌, ◌≤◌, ◌<◌, min, max, true, false, ◌&&◌, List, [], ◌∷◌, some,
  length, leb, ◌==◌, ◌≡◌, inl, inr, refl, ap, subst, arith, All, Bool-cases, leb→le,
}
use remote_way.Interpolate.Float.{F32, nan, infinite, finite, units, in_unit_interval}
use remote_way.Interpolate.Float.Exact.{scale_u64-le}
use remote_way.Interpolate.{GpuFrame, same_dimensions, ok}
use remote_way.Interpolate.LinearBlend.{t_fixed, blended, blend, blend_timestamp, blend_interpolate}

-- Each byte lies between those of the two frames at its place, of which there are as many.
pub data Between : List ℕ → List ℕ → List ℕ → Type 0 where
  nothing : Between [] [] []
  byte :
      {a b r : ℕ} {xs ys rs : List ℕ}
      → min a b ≤ r
      → r ≤ max a b
      → Between xs ys rs
      → Between (a ∷ xs) (b ∷ ys) (r ∷ rs)

t_fixed-le : (n : ℕ) → n ≤ units → t_fixed n ≤ 256
unfolding t_fixed
t_fixed-le n h = div-le_of_le-mul units {n = 256} (mul-le-mul_right {m = n} 256 h)

-- Of weights that add up to 256, nothing is lost in 16 bits.
blended-between :
    (w a b : ℕ)
    → w ≤ 256
    → a < 256
    → b < 256
    → (min a b ≤ blended w a b) × (blended w a b ≤ max a b)
unfolding blended
blended-between w a b h a_byte b_byte =
    let v = 256 - w in
    let least : min a b * 256 ≤ a * v + b * w =
      let whole : min a b * (v + w) ≡ min a b * 256 = ap (λ n. min a b * n) (omega (arith, h)) in
      omega (
        arith,
        whole,
        mul-add (min a b) v w,
        mul-le-mul_right {m = min a b} {n = a} v (omega arith),
        mul-le-mul_right {m = min a b} {n = b} w (omega arith),
      ) in
    let most : a * v + b * w ≤ max a b * 256 =
      let whole : max a b * (v + w) ≡ max a b * 256 = ap (λ n. max a b * n) (omega (arith, h)) in
      omega (
        arith,
        whole,
        mul-add (max a b) v w,
        mul-le-mul_right {m = a} {n = max a b} v (omega arith),
        mul-le-mul_right {m = b} {n = max a b} w (omega arith),
      ) in
    (omega (arith, least, most, a_byte, b_byte), omega (arith, least, most, a_byte, b_byte))

blend-Between :
    (w : ℕ) (xs ys : List ℕ)
    → w ≤ 256
    → All (λ a. a < 256) xs
    → All (λ b. b < 256) ys
    → length xs ≡ length ys
    → Between xs ys (blend w xs ys)
unfolding blend
blend-Between w [] [] h xs_bytes ys_bytes e = nothing
blend-Between w [] (b ∷ ys) h xs_bytes ys_bytes e = absurd (omega (arith, e))
blend-Between w (a ∷ xs) [] h xs_bytes ys_bytes e = absurd (omega (arith, e))
blend-Between w (a ∷ xs) (b ∷ ys) h (a_byte, xs_bytes) (b_byte, ys_bytes) e =
    let (least, most) = blended-between w a b h a_byte b_byte in
    byte least most (blend-Between w xs ys h xs_bytes ys_bytes (omega (arith, e)))

blend_timestamp-between :
    (n a b : ℕ)
    → n ≤ units
    → b < 2 ^ 64
    → b < a + 2 ^ 53
    → (a ≤ blend_timestamp n a b) × (blend_timestamp n a b ≤ max a b)
unfolding blend_timestamp
blend_timestamp-between n a b within word close = elim (Bool-cases (leb a b)) [
  | inl later ↦
      let part = scale_u64-le (b - a) n (omega (arith, close)) within in
      rw later
        (omega (arith, part, leb→le a b later, word), omega (arith, part, leb→le a b later, word))
  | inr earlier ↦ rw earlier (omega arith, omega arith)
]

in_unit_interval-le : (t : F32) (n : ℕ) → in_unit_interval t ≡ some n → n ≤ units
unfolding in_unit_interval
in_unit_interval-le nan n e = absurd (cc)
in_unit_interval-le (infinite negative) n e = absurd (cc)
in_unit_interval-le (finite true zero) n e =
    let none_of_it : zero ≡ n = cc in omega (arith, none_of_it)
in_unit_interval-le (finite true (suc m)) n e = absurd (cc)
in_unit_interval-le (finite false m) n e = elim (Bool-cases (leb m units)) [
  | inl within ↦ let same : m ≡ n = cc in subst (λ k. k ≤ units) same (leb→le m units within)
  | inr beyond ↦ absurd (cc)
]

same_dimensions_refl :
    (a : GpuFrame) → (a.width == a.width) && (a.height == a.height) && (a.stride == a.stride) ≡ true
same_dimensions_refl a = ground arith

-- What `blend_interpolate` may give for two frames: the size of both, bytes between theirs, and a time from that
-- of the first frame to that of the later one.
pub record InBetween (a b r : GpuFrame) : Type 0 where
  pub size : same_dimensions a r ≡ true
  pub bytes : Between a.bytes b.bytes r.bytes
  pub not_before : a.timestamp_ns ≤ r.timestamp_ns
  pub not_after : r.timestamp_ns ≤ max a.timestamp_ns b.timestamp_ns

-- Two frames of one size, captured less than 2 ^ 53 nanoseconds apart, are blended at every factor from 0 to 1, to
-- a frame in between.
pub blend_interpolate-InBetween :
    (a b : GpuFrame) (t : F32) (n : ℕ)
    → in_unit_interval t ≡ some n
    → same_dimensions a b ≡ true
    → length a.bytes ≡ length b.bytes
    → All (λ x. x < 256) a.bytes
    → All (λ x. x < 256) b.bytes
    → b.timestamp_ns < 2 ^ 64
    → b.timestamp_ns < a.timestamp_ns + 2 ^ 53
    → (r : GpuFrame) × (blend_interpolate a b t ≡ ok r) × InBetween a b r
unfolding blend_interpolate same_dimensions
blend_interpolate-InBetween a b t n inside same long a_bytes b_bytes word close =
    let within = in_unit_interval-le t n inside in
    let (not_before, not_after) =
      blend_timestamp-between n a.timestamp_ns b.timestamp_ns within word close in
    rw (inside, same)
      (
        _,
        refl,
        record {
          size = same_dimensions_refl a;
          bytes =
              blend-Between (t_fixed n) a.bytes b.bytes (t_fixed-le n within) a_bytes b_bytes long;
          not_before = not_before;
          not_after = not_after;
        },
      )
