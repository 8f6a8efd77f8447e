-- ===== src/Interpolate/Float.antt =====
-- The floating-point numbers that crates/remoteway-interpolate/src/interpolator.rs computes with: a finite
-- `f32` is a whole number of units of 2 ^ -149, its smallest step, with a sign; a finite `f64` that is
-- not negative is a whole number of the same units.
pub mod Exact
use remote_way.Prelude.{
  ℕ, zero, suc, ◌+◌, ◌-◌, ◌*◌, ◌/◌, ◌%◌, ◌^◌, ◌≤◌, ◌<◌, min, max, bit_and, bit_or, bit_xor, Bool,
  true, false, not, ◌&&◌, ◌||◌, List, [], ◌∷◌, ◌++◌, map, Option, none, some, length, take, drop,
  set, replicate, get_elem?, leb, ltb, ◌==◌, if◌then◌else◌, ◌≡◌, ◌≢◌, ◌⊎◌, inl, inr, refl, ◌∙◌, sym,
  ap, ap₂, subst, arith, append_assoc, append-nil, length-take, length-drop, length-append,
  drop-drop, take-append-drop, length-set, drop_all, take_all, take-length, drop-length, drop-take,
  take-take, take-set, drop-set, drop_get, All, All-take, All-drop, All-append, Bool-cases,
  Option-cases, ==_iff, ltb→lt, lt→ltb, le→not-ltb, not-ltb→le, length-map, get_of_drop,
  length-replicate,
}

-- `finite negative magnitude`
pub data F32 : Type 0 where
  nan : F32
  infinite : Bool → F32
  finite : Bool → ℕ → F32

-- The number 1.0 in units.
unfoldable pub units : ℕ
units = 2 ^ 149

-- The magnitude of a number for which `(0.0..=1.0).contains(&t)`; -0.0 is one of them.
unfoldable pub in_unit_interval : F32 → Option ℕ
in_unit_interval nan = none
in_unit_interval (infinite _) = none
in_unit_interval (finite true zero) = some zero
in_unit_interval (finite true (suc n)) = none
in_unit_interval (finite false n) = if leb n units then some n else none

-- How many binary digits a number has beyond the 53 of an `f64`.
unfoldable pub excess : ℕ → ℕ → ℕ
excess zero x = zero
excess (suc fuel) x = let rest = excess fuel (x / 2) in if ltb x (2 ^ 53) then zero else suc rest

-- To the nearest multiple of a step, to the even one of two as near.
abbrev pub round_to : ℕ → ℕ → ℕ
round_to step x =
    if ltb (x % step * 2) step
    then x / step * step
    else if ltb step (x % step * 2)
    then (x / step + 1) * step
    else (x / step + x / step % 2) * step

-- The `f64` nearest to a number: of 256 digits at most.
unfoldable pub round_f64 : ℕ → ℕ
round_f64 x = round_to (2 ^ excess 256 x) x

-- `(delta as f64 * f64::from(t)) as u64` at a `t` of `n` units: the product of two exact numbers of
-- units, rounded, without its fraction, at most the largest `u64`.
unfoldable pub scale_u64 : ℕ → ℕ → ℕ
scale_u64 delta n = min (round_f64 (round_f64 delta * n) / units) (2 ^ 64 - 1)
