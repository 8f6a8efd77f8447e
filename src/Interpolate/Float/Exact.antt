-- ===== src/Interpolate/Float/Exact.antt =====
-- Rounding to an `f64` does not pass a bound that is one.
use native.Mathlib.Nat.{
  mul_assoc, mul-le-mul, mul-lt-mul_of_pos_right, mul-le-mul_right, div-add-mod', div-le_of_le-mul,
  mul_comm, pow-suc, lt_of_mul-lt-mul_right, one-le-pow,
}
use remote_way.Prelude.{
  ℕ, zero, suc, ◌+◌, ◌*◌, ◌/◌, ◌%◌, ◌^◌, ◌≤◌, ◌<◌, true, ltb, ◌≡◌, inl, inr, refl, ◌∙◌, sym, ap,
  subst, arith, Bool-cases, lt→ltb, not-ltb→le,
}
use remote_way.Interpolate.Float.{units, excess, round_to, round_f64, scale_u64}

excess-le : (m fuel x : ℕ) → x < 2 ^ 53 * 2 ^ m → excess fuel x ≤ m
unfolding excess
excess-le m zero x h = omega arith
excess-le zero (suc fuel) x h = rw (lt→ltb x (2 ^ 53) (omega (arith, h))) (omega arith)
excess-le (suc m) (suc fuel) x h =
    let half = excess-le m fuel (x / 2) (omega (arith, h, pow-suc 2 m)) in
    elim (Bool-cases (ltb x (2 ^ 53))) [
      | inl few ↦ rw few (omega arith)
      | inr many ↦ rw many (omega (arith, half))
    ]

-- A multiple of the step that a number does not exceed is not exceeded by the rounded one.
round_to-le : (step k x : ℕ) → 0 < step → x ≤ k * step → round_to step x ≤ k * step
round_to-le step k x positive h =
    let whole : x / step ≤ k = div-le_of_le-mul step (subst (λ n. x ≤ n) (mul_comm k step) h) in
    let split : x / step * step + x % step ≡ x = div-add-mod' x step in
    let down : x / step * step ≤ k * step = mul-le-mul_right step whole in
    let up : 0 < x % step → x / step + 1 ≤ k = λ some_left. omega (
      arith,
      lt_of_mul-lt-mul_right step {m = x / step} {n = k} (omega (arith, some_left, split, h)),
    ) in
    elim (Bool-cases (ltb (x % step * 2) step)) [
      | inl near ↦ rw near down
      | inr far ↦
          let room = up (omega (arith, positive, not-ltb→le (x % step * 2) step far)) in
          elim (Bool-cases (ltb step (x % step * 2))) [
            | inl above ↦ rw (far, above) (mul-le-mul_right step room)
            | inr tie ↦
                rw (far, tie)
                  (mul-le-mul_right {m = x / step + x / step % 2} {n = k} step
                    (omega (arith, room)))
          ]
    ]

round_f64-small : (x : ℕ) → x < 2 ^ 53 → round_f64 x ≡ x
unfolding round_f64
round_f64-small x h =
    let none_over : excess 256 x ≡ 0 = omega (arith, excess-le 0 256 x (omega (arith, h))) in
    rw none_over (
      let left_none : ltb (x % 1 * 2) 1 ≡ true = lt→ltb (x % 1 * 2) 1 (omega arith) in
      rw left_none (omega arith))

-- A power of two is a multiple of each smaller one.
pow_multiple : (e m : ℕ) → e ≤ m → (k : ℕ) × (2 ^ m ≡ k * 2 ^ e)
pow_multiple zero m h = (2 ^ m, omega arith)
pow_multiple (suc e) zero h = absurd (omega arith)
pow_multiple (suc e) (suc m) h =
    let (k, same) = pow_multiple e m (omega (arith, h)) in
    (k, rw (pow-suc 2 m, pow-suc 2 e, same) (mul_assoc k (2 ^ e) 2))

units_pow : units ≡ 2 ^ 149
unfolding units
units_pow = refl

units-pos : 0 < units
unfolding units
units-pos = omega arith

-- A bound of fewer than 2 ^ 53 whole numbers in units is not passed.
round_f64-le : (d x : ℕ) → x ≤ d * units → d < 2 ^ 53 → round_f64 x ≤ d * units
unfolding round_f64
round_f64-le d x h small =
    let few : excess 256 x ≤ 149 =
      excess-le 149 256 x (
        omega
          (arith, h, mul-lt-mul_of_pos_right {m = d} {n = 2 ^ 53} small units-pos, units_pow)) in
    let (k, same) = pow_multiple (excess 256 x) 149 few in
    let bound : d * units ≡ d * k * 2 ^ excess 256 x =
      ap (λ n. d * n) (units_pow ∙ same) ∙ sym (mul_assoc d k (2 ^ excess 256 x)) in
    subst (λ n. round_to (2 ^ excess 256 x) x ≤ n) (sym bound)
      (round_to-le (2 ^ excess 256 x) (d * k) x (one-le-pow (excess 256 x) 2 (omega arith))
        (subst (λ n. x ≤ n) bound h))

-- A part of a number of nanoseconds below 2 ^ 53 is at most that number.
pub scale_u64-le : (delta n : ℕ) → delta < 2 ^ 53 → n ≤ units → scale_u64 delta n ≤ delta
unfolding scale_u64
scale_u64-le delta n small h =
    let product : round_f64 (round_f64 delta * n) ≤ delta * units =
      rw (round_f64-small delta small)
        (round_f64-le delta (delta * n) (mul-le-mul {n₁ = delta} (omega arith) h) small) in
    let whole : round_f64 (round_f64 delta * n) / units ≤ delta =
      div-le_of_le-mul units
        (subst (λ m. round_f64 (round_f64 delta * n) ≤ m) (mul_comm delta units) product) in
    omega (arith, whole)
