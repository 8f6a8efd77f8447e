-- ===== src/Session/Downscale/Bounded.antt =====
-- The sums of the pixels that are averaged, and the part that they are taken from.
use native.Mathlib.Nat.{
  add-mul, mul-add, mul_comm, mul-le-mul, mul-le-mul_right, mul-lt-mul_of_pos_right,
  div-le_of_le-mul, div-lt_iff_lt-mul, le-div_iff_mul-le,
}
use remote_way.Prelude.{
  ℕ, zero, suc, ◌+◌, ◌*◌, ◌/◌, ◌%◌, ◌^◌, ◌≤◌, ◌<◌, false, List, [], ◌∷◌, some, length, get_elem?,
  ◌==◌, ◌≡◌, refl, sym, subst, arith, All,
}
use remote_way.Session.Downscale.{
  Source, Sums, pixel_offset, add_pixel, add_row, add_rows, box_start, box_end, average,
}

-- The bytes hold all rows, in 32 bits, and the rows all pixels.
pub record Whole (src : Source) : Type 0 where
  pub rows : src.height * src.stride ≤ length src.bytes
  pub row : src.width * 4 ≤ src.stride
  pub words : src.height * src.stride < 2 ^ 32

-- A byte from `lo` to `hi`.
abbrev pub Within : ℕ → ℕ → ℕ → Type 0
Within lo hi x = (lo ≤ x) × (x ≤ hi)

offset-lt :
    (src : Source)
    → Whole src
    → (sx sy : ℕ) → sx < src.width
    → sy < src.height
    → pixel_offset src sx sy + 4 ≤ length src.bytes
unfolding pixel_offset
offset-lt src whole sx sy x y = omega (
  arith,
  whole.rows,
  whole.row,
  whole.words,
  x,
  add-mul sy 1 src.stride,
  mul-le-mul_right {m = sy + 1} {n = src.height} src.stride (omega (arith, y)),
)

get-All :
    {P : ℕ → Type 0} (xs : List ℕ) (i : ℕ)
    → All P xs
    → i < length xs
    → (v : ℕ) × (get_elem? xs i ≡ some v) × P v
get-All [] i all h = absurd (omega (arith, h))
get-All (x ∷ xs) zero (p, all) h = (x, refl, p)
get-All (x ∷ xs) (suc i) (p, all) h = get-All xs i all (omega (arith, h))

-- A sum of `n` bytes from `lo` to `hi`.
abbrev pub Sum : ℕ → ℕ → ℕ → ℕ → Type 0
Sum lo hi n x = (lo * n ≤ x) × (x ≤ hi * n)

pub record Held (lo hi n : ℕ) (s : Sums) : Type 0 where
  pub r : Sum lo hi n s.acc_r
  pub g : Sum lo hi n s.acc_g
  pub b : Sum lo hi n s.acc_b
  pub a : Sum lo hi n s.acc_a
  pub count : s.count ≡ n

add_channel :
    (lo hi n x v : ℕ)
    → hi < 256
    → n < 2 ^ 24
    → Within lo hi v
    → Sum lo hi n x
    → Sum lo hi (n + 1) ((x + v) % 2 ^ 32)
add_channel lo hi n x v byte few (v_lo, v_hi) (least, most) =
    let room : hi * (n + 1) ≤ 255 * 2 ^ 24 =
      mul-le-mul {n₁ = hi} {m₁ = n + 1} {n₂ = 255} {m₂ = 2 ^ 24} (omega (arith, byte))
        (omega (arith, few)) in
    let lo_one = mul-add lo n 1 in
    let hi_one = mul-add hi n 1 in
    (
      omega (arith, room, lo_one, hi_one, v_lo, v_hi, least, most),
      omega (arith, room, lo_one, hi_one, v_lo, v_hi, least, most),
    )

module _ (lo hi : ℕ) (byte : hi < 256) where
  add_pixel-Held :
      (bytes : List ℕ) (off n : ℕ) (s : Sums)
      → All (Within lo hi) bytes
      → off + 4 ≤ length bytes
      → n < 2 ^ 24
      → Held lo hi n s
      → (s' : Sums) × (add_pixel bytes off s ≡ some s') × Held lo hi (n + 1) s'
  unfolding add_pixel
  add_pixel-Held bytes off n s all inside few held =
      let (r, r_at, r_in) = get-All bytes off all (omega (arith, inside)) in
      let (g, g_at, g_in) = get-All bytes (off + 1) all (omega (arith, inside)) in
      let (b, b_at, b_in) = get-All bytes (off + 2) all (omega (arith, inside)) in
      let (a, a_at, a_in) = get-All bytes (off + 3) all (omega (arith, inside)) in
      rw (r_at, g_at, b_at, a_at)
        (
          _,
          refl,
          record {
            r = add_channel lo hi n s.acc_r r byte few r_in held.r;
            g = add_channel lo hi n s.acc_g g byte few g_in held.g;
            b = add_channel lo hi n s.acc_b b byte few b_in held.b;
            a = add_channel lo hi n s.acc_a a byte few a_in held.a;
            count = omega (arith, few, held.count);
          },
        )

  module _ (src : Source) (whole : Whole src) (all : All (Within lo hi) src.bytes) where
    add_row-Held :
        (k sx sy n : ℕ) (s : Sums)
        → sy < src.height
        → sx + k ≤ src.width
        → n + k ≤ 2 ^ 24
        → Held lo hi n s
        → (s' : Sums) × (add_row src sy sx k s ≡ some s') × Held lo hi (n + k) s'
    unfolding add_row
    add_row-Held zero sx sy n s y x few held =
        (s, refl, subst (λ m. Held lo hi m s) (omega arith) held)
    add_row-Held (suc k) sx sy n s y x few held =
        let (s1, first, held1) =
          add_pixel-Held src.bytes (pixel_offset src sx sy) n s all
            (offset-lt src whole sx sy (omega (arith, x)) y) (omega (arith, few)) held in
        let (s2, rest, held2) =
          add_row-Held k (sx + 1) sy (n + 1) s1 y (omega (arith, x)) (omega (arith, few)) held1 in
        rw (first, rest) (s2, refl, subst (λ m. Held lo hi m s2) (omega arith) held2)

    pub add_rows-Held :
        (m k sx sy n : ℕ) (s : Sums)
        → sy + m ≤ src.height
        → sx + k ≤ src.width
        → n + m * k ≤ 2 ^ 24
        → Held lo hi n s
        → (s' : Sums) × (add_rows src sx k sy m s ≡ some s') × Held lo hi (n + m * k) s'
    unfolding add_rows
    add_rows-Held zero k sx sy n s y x few held =
        (s, refl, subst (λ c. Held lo hi c s) (omega arith) held)
    add_rows-Held (suc m) k sx sy n s y x few held =
        let more : suc m * k ≡ m * k + k = omega (arith, add-mul m 1 k) in
        let (s1, first, held1) =
          add_row-Held k sx sy n s (omega (arith, y)) x (omega (arith, few, more)) held in
        let (s2, rest, held2) =
          add_rows-Held m k sx (sy + 1) (n + k) s1 (omega (arith, y)) x (omega (arith, few, more))
            held1 in
        rw (first, rest) (s2, refl, subst (λ c. Held lo hi c s2) (omega (arith, more)) held2)

-- The average of a sum lies where its bytes do.
Sum-average : (lo hi n x : ℕ) → 0 < n → hi < 256 → Sum lo hi n x → Within lo hi (x / n % 2 ^ 8)
Sum-average lo hi n x some_of_them byte (least, most) =
    let below : x / n ≤ hi = div-le_of_le-mul n (subst (λ m. x ≤ m) (mul_comm hi n) most) in
    let above : lo ≤ x / n = (le-div_iff_mul-le some_of_them).1 least in
    (omega (arith, below, above, byte), omega (arith, below, above, byte))

pub average-Within :
    (lo hi n : ℕ) (s : Sums)
    → 0 < n
    → hi < 256
    → Held lo hi n s
    → (px : List ℕ) × (average s ≡ some px) × (length px ≡ 4) × All (Within lo hi) px
average-Within lo hi n s some_of_them byte held =
    let some_counted : (s.count == 0) ≡ false = ground (arith, held.count, some_of_them) in
    let each : (x : ℕ) → Sum lo hi n x → Within lo hi (x / s.count % 2 ^ 8) = λ x sum.
      subst (λ c. Within lo hi (x / c % 2 ^ 8)) (sym held.count)
        (Sum-average lo hi n x some_of_them byte sum) in
    rw some_counted (
      _,
      refl,
      refl,
      (
        each s.acc_r held.r,
        (each s.acc_g held.g, (each s.acc_b held.b, (each s.acc_a held.a, tt))),
      ),
    )

-- The part of a pixel is not empty and does not leave the source.
pub box-inside :
    (size dst_size d : ℕ)
    → 0 < size
    → size < 2 ^ 32
    → d < dst_size
    → (box_start size dst_size d < box_end size dst_size d) × (box_end size dst_size d ≤ size)
unfolding box_start box_end
box-inside size dst_size d positive word h =
    let start : d * size / dst_size < size =
      (div-lt_iff_lt-mul {k = dst_size} (omega (arith, h))).1 (
        subst (λ m. d * size < m) (mul_comm dst_size size)
          (mul-lt-mul_of_pos_right {m = d} {n = dst_size} h positive)) in
    (omega (arith, start, word), omega arith)
