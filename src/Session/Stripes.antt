-- ===== src/Session/Stripes.antt =====
-- `stripe_full_frame` of crates/remoteway-server/src/pipeline.rs.
pub mod Cover
use remote_way.Prelude.{
  ℕ, zero, suc, ◌+◌, ◌-◌, ◌*◌, ◌/◌, ◌%◌, ◌^◌, ◌≤◌, ◌<◌, min, max, bit_and, bit_or, bit_xor, Bool,
  true, false, not, ◌&&◌, ◌||◌, List, [], ◌∷◌, ◌++◌, map, Option, none, some, length, take, drop,
  set, replicate, get_elem?, leb, ltb, ◌==◌, if◌then◌else◌, ◌≡◌, ◌≢◌, ◌⊎◌, inl, inr, refl, ◌∙◌, sym,
  ap, ap₂, subst, arith, append_assoc, append-nil, length-take, length-drop, length-append,
  drop-drop, take-append-drop, length-set, drop_all, take_all, take-length, drop-length, drop-take,
  take-take, take-set, drop-set, drop_get, All, All-take, All-drop, All-append, Bool-cases,
  Option-cases, ==_iff, ltb→lt, lt→ltb, le→not-ltb, not-ltb→le, length-map, get_of_drop,
  length-replicate,
}
use remote_way.Compress.Delta.{DamageRect}

-- `n` stripes are left, from stripe `i` on, at row `y`.
unfoldable pub stripe_loop : ℕ → ℕ → ℕ → ℕ → ℕ → ℕ → List DamageRect
stripe_loop width base rem zero i y = []
stripe_loop width base rem (suc n) i y =
    let h = base + (if ltb i rem then 1 else 0) in
    record { x = 0; y = y; width = width; height = h }
    ∷ stripe_loop width base rem n (i + 1) (y + h)

-- `(n as u32).min(height).max(1)`
abbrev pub stripe_count : ℕ → ℕ → ℕ
stripe_count height n = max (min (n % 2 ^ 32) height) 1

unfoldable pub stripe_full_frame : ℕ → ℕ → ℕ → List DamageRect
stripe_full_frame width height n =
    let count = stripe_count height n in
    if count == 1
    then record { x = 0; y = 0; width = width; height = height } ∷ []
    else stripe_loop width (height / count) (height % count) count 0 0
