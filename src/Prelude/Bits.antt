-- ===== src/Prelude/Bits.antt =====
-- Bits of native numbers: the digit step of the native operations, and the bits one by one.
use Prim.Native.Nat.{ℕ, zero, suc, ◌+◌, ◌-◌, ◌*◌, ◌/◌, ◌%◌, ◌^◌, ◌≤◌, ◌<◌, min, max}
use Prim.Native.Nat.{bit_and, bit_or, bit_xor, digits, bitwise, differ}
use Prim.Native.Nat.{bit_and-bitwise, bit_or-bitwise, bit_xor-bitwise}
use mathlib.Core.Path.{◌≡◌, refl, ap, ◌∙◌}
use mathlib.Core.Logic.{◌≢◌}
use native.Mathlib.Nat.{pow-suc, one-le-pow}
use native.Mathlib.Omega.{arith}

module _ (past : ℕ → ℕ) (digit : ℕ → ℕ → ℕ) where
  -- Once every digit of the first number is read, one more to go changes nothing.
  one_more :
      (count m n : ℕ) → m ≤ count → digits past digit (suc count) m n ≡ digits past digit count m n
  one_more zero zero n h = refl
  one_more zero (suc m) n h = absurd (omega arith)
  one_more (suc count) zero n h = refl
  one_more (suc count) (suc m) n h =
      ap (λ high. high * 2 + digit (suc m % 2) (n % 2))
        (one_more count (suc m / 2) (n / 2) (omega arith))

  many_more :
      (extra count all m n : ℕ)
      → all ≡ extra + count
      → m ≤ count
      → digits past digit all m n ≡ digits past digit count m n
  many_more zero count all m n e h = let same : all ≡ count = omega arith in rw same
  many_more (suc extra) count zero m n e h = absurd (omega arith)
  many_more (suc extra) count (suc all) m n e h =
      one_more all m n (omega arith) ∙ many_more extra count all m n (omega arith) h

  lowest_digit :
      (m n : ℕ)
      → bitwise past digit (suc m) n
        ≡ digit (suc m % 2) (n % 2) + 2 * bitwise past digit (suc m / 2) (n / 2)
  lowest_digit m n =
      let half = suc m / 2 in
      omega (arith, many_more (m - half) half m half (n / 2) (omega arith) (omega arith))

pub bit_or_step : (m n : ℕ) → bit_or m n ≡ max (m % 2) (n % 2) + 2 * bit_or (m / 2) (n / 2)
bit_or_step zero n = simp bit_or-bitwise (omega arith)
bit_or_step (suc m) n = simp bit_or-bitwise (lowest_digit (λ d. d) max m n)

pub bit_and_step : (m n : ℕ) → bit_and m n ≡ min (m % 2) (n % 2) + 2 * bit_and (m / 2) (n / 2)
bit_and_step zero n = simp bit_and-bitwise (omega arith)
bit_and_step (suc m) n = simp bit_and-bitwise (lowest_digit (λ d. 0) min m n)

-- The bit of weight 2 ^ i.
abbrev pub test_bit : ℕ → ℕ → ℕ
test_bit n zero = n % 2
test_bit n (suc i) = test_bit (n / 2) i

pub test_bit-zero : (i : ℕ) → test_bit 0 i ≡ 0
test_bit-zero zero = refl
test_bit-zero (suc i) = test_bit-zero i

pub test_bit-le : (n i : ℕ) → test_bit n i ≤ 1
test_bit-le n zero = omega arith
test_bit-le n (suc i) = test_bit-le (n / 2) i

pub test_bit-bit_and : (i a b : ℕ) → test_bit (bit_and a b) i ≡ min (test_bit a i) (test_bit b i)
test_bit-bit_and zero a b = omega (arith, bit_and_step a b)
test_bit-bit_and (suc i) a b =
    let e : bit_and a b / 2 ≡ bit_and (a / 2) (b / 2) = omega (arith, bit_and_step a b) in
    rw e (test_bit-bit_and i (a / 2) (b / 2))

pub test_bit-bit_or : (i a b : ℕ) → test_bit (bit_or a b) i ≡ max (test_bit a i) (test_bit b i)
test_bit-bit_or zero a b = omega (arith, bit_or_step a b)
test_bit-bit_or (suc i) a b =
    let e : bit_or a b / 2 ≡ bit_or (a / 2) (b / 2) = omega (arith, bit_or_step a b) in
    rw e (test_bit-bit_or i (a / 2) (b / 2))

differ-eq : (a b : ℕ) → differ a b ≡ (a - b) + (b - a)
differ-eq zero b = omega arith
differ-eq (suc a) zero = omega arith
differ-eq (suc a) (suc b) = omega (arith, differ-eq a b)

-- One digit of an exclusive or.
pub bit_xor_step : (a b : ℕ) → bit_xor a b ≡ differ (a % 2) (b % 2) + 2 * bit_xor (a / 2) (b / 2)
bit_xor_step zero b = simp bit_xor-bitwise (omega (arith, differ-eq 0 (b % 2)))
bit_xor_step (suc a) b = simp bit_xor-bitwise (lowest_digit (λ d. d) differ a b)

-- `(c ^ p) ^ p` is `c`, and so are `p ^ (c ^ p)`: on numbers of any width.
pub bit_xor_twice_below : (w c p : ℕ) → c < 2 ^ w → p < 2 ^ w → bit_xor p (bit_xor c p) ≡ c
bit_xor_twice_below zero c p h k =
    let e : c ≡ 0 = omega arith in let d : p ≡ 0 = omega arith in rw (e, d)
bit_xor_twice_below (suc w) c p h k =
    let half : bit_xor c p / 2 ≡ bit_xor (c / 2) (p / 2) =
      omega (arith, bit_xor_step c p, differ-eq (c % 2) (p % 2)) in
    let low : bit_xor c p % 2 ≡ differ (c % 2) (p % 2) =
      omega (arith, bit_xor_step c p, differ-eq (c % 2) (p % 2)) in
    let rec =
      bit_xor_twice_below w (c / 2) (p / 2) (omega (arith, pow-suc 2 w))
        (omega (arith, pow-suc 2 w)) in
    rw (bit_xor_step p (bit_xor c p), half, low, rec)
      (omega (arith, differ-eq (c % 2) (p % 2), differ-eq (p % 2) (differ (c % 2) (p % 2))))

pub bit_xor-lt : (w a b : ℕ) → a < 2 ^ w → b < 2 ^ w → bit_xor a b < 2 ^ w
bit_xor-lt zero a b h k =
    let e : a ≡ 0 = omega arith in let d : b ≡ 0 = omega arith in rw (e, d) (omega arith)
bit_xor-lt (suc w) a b h k =
    let rec =
      bit_xor-lt w (a / 2) (b / 2) (omega (arith, pow-suc 2 w)) (omega (arith, pow-suc 2 w)) in
    omega (arith, pow-suc 2 w, bit_xor_step a b, differ-eq (a % 2) (b % 2))

-- A power of two has one bit.
pub test_bit-pow_self : (i : ℕ) → test_bit (2 ^ i) i ≡ 1
test_bit-pow_self zero = omega arith
test_bit-pow_self (suc i) =
    let e : 2 ^ suc i / 2 ≡ 2 ^ i = omega (arith, pow-suc 2 i) in rw e (test_bit-pow_self i)

pub test_bit-pow_ne : (s i : ℕ) → s ≢ i → test_bit (2 ^ s) i ≡ 0
test_bit-pow_ne zero zero h = absurd (h refl)
test_bit-pow_ne zero (suc i) h = test_bit-zero i
test_bit-pow_ne (suc s) zero h = omega (arith, pow-suc 2 s)
test_bit-pow_ne (suc s) (suc i) h =
    let e : 2 ^ suc s / 2 ≡ 2 ^ s = omega (arith, pow-suc 2 s) in
    rw e (test_bit-pow_ne s i (λ q. h (ap suc q)))

-- The complement within w bits: `!m` on a w-bit word is 2 ^ w - 1 - m.
pub test_bit-not : (w m i : ℕ) → m < 2 ^ w → i < w → test_bit (2 ^ w - 1 - m) i ≡ 1 - test_bit m i
test_bit-not zero m i h k = absurd (omega arith)
test_bit-not (suc w) m zero h k = omega (arith, pow-suc 2 w)
test_bit-not (suc w) m (suc i) h k =
    let e : (2 ^ suc w - 1 - m) / 2 ≡ 2 ^ w - 1 - m / 2 = omega (arith, pow-suc 2 w) in
    rw e (test_bit-not w (m / 2) i (omega (arith, pow-suc 2 w)) (omega arith))

-- The low w bits are all set in 2 ^ w - 1.
pub test_bit-ones : (w i : ℕ) → i < w → test_bit (2 ^ w - 1) i ≡ 1
test_bit-ones zero i h = absurd (omega arith)
test_bit-ones (suc w) zero h = omega (arith, pow-suc 2 w, one-le-pow w 2)
test_bit-ones (suc w) (suc i) h =
    let e : (2 ^ suc w - 1) / 2 ≡ 2 ^ w - 1 = omega (arith, pow-suc 2 w) in
    rw e (test_bit-ones w i (omega arith))

pub test_bit_high : (w m i : ℕ) → m < 2 ^ w → w ≤ i → test_bit m i ≡ 0
test_bit_high zero m i h k = let e : m ≡ 0 = omega arith in rw e (test_bit-zero i)
test_bit_high (suc w) m zero h k = absurd (omega arith)
test_bit_high (suc w) m (suc i) h k =
    test_bit_high w (m / 2) i (omega (arith, pow-suc 2 w)) (omega arith)

-- A number that is not 0 has a bit.
pub eq_zero_of_bits : (w m : ℕ) → m < 2 ^ w → ((i : ℕ) → i < w → test_bit m i ≡ 0) → m ≡ 0
eq_zero_of_bits zero m h all = omega arith
eq_zero_of_bits (suc w) m h all =
    let half : m / 2 ≡ 0 =
      eq_zero_of_bits w (m / 2) (omega (arith, pow-suc 2 w)) (λ i k. all (suc i) (omega arith)) in
    omega (arith, half, all 0 (omega arith))

pub bit_or-lt : (w a b : ℕ) → a < 2 ^ w → b < 2 ^ w → bit_or a b < 2 ^ w
bit_or-lt zero a b h k =
    let e : a ≡ 0 = omega arith in let d : b ≡ 0 = omega arith in rw (e, d) (omega arith)
bit_or-lt (suc w) a b h k =
    let rec =
      bit_or-lt w (a / 2) (b / 2) (omega (arith, pow-suc 2 w)) (omega (arith, pow-suc 2 w)) in
    omega (arith, pow-suc 2 w, bit_or_step a b)

bit_and-zero_below : (w a : ℕ) → a < 2 ^ w → bit_and a 0 ≡ 0
bit_and-zero_below zero a h = let e : a ≡ 0 = omega arith in rw e
bit_and-zero_below (suc w) a h =
    omega (arith, bit_and_step a 0, bit_and-zero_below w (a / 2) (omega (arith, pow-suc 2 w)))

lt-two-pow : (a : ℕ) → a < 2 ^ a
lt-two-pow zero = omega arith
lt-two-pow (suc a) = omega (arith, pow-suc 2 a, lt-two-pow a)

pub bit_and-zero : (a : ℕ) → bit_and a 0 ≡ 0
bit_and-zero a = bit_and-zero_below a a (lt-two-pow a)

-- A mask of one bit.
pub bit_and-pow : (i a : ℕ) → bit_and a (2 ^ i) ≡ test_bit a i * 2 ^ i
bit_and-pow zero a = omega (arith, bit_and_step a 1, bit_and-zero (a / 2))
bit_and-pow (suc i) a =
    let half : 2 ^ suc i / 2 ≡ 2 ^ i = omega (arith, pow-suc 2 i) in
    let low : 2 ^ suc i % 2 ≡ 0 = omega (arith, pow-suc 2 i) in
    rw (bit_and_step a (2 ^ suc i), half, low, bit_and-pow i (a / 2)) (grind (arith, pow-suc 2 i))

bit_and-none : (b : ℕ) → bit_and 0 b ≡ 0
bit_and-none b = simp bit_and-bitwise refl

pub bit_and-lt : (w a b : ℕ) → a < 2 ^ w → bit_and a b < 2 ^ w
bit_and-lt zero a b h =
    let e : a ≡ 0 = omega arith in rw e (omega (arith, bit_and_step 0 b, bit_and-none (b / 2)))
bit_and-lt (suc w) a b h = omega (
  arith,
  pow-suc 2 w,
  bit_and_step a b,
  bit_and-lt w (a / 2) (b / 2) (omega (arith, pow-suc 2 w)),
)
