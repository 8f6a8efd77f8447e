-- ===== src/Core/BufferPool.antt =====
-- crates/remoteway-core/src/buffer_pool.rs and frame_handle.rs: slots of one allocation, handed out through a
-- bit set in one atomic word. The bytes of the slots are not modelled. An atomic operation is one step,
-- and the steps of all threads come in one order.
pub mod Slots
use remote_way.Prelude.{
  ℕ, zero, suc, ◌+◌, ◌-◌, ◌*◌, ◌/◌, ◌%◌, ◌^◌, ◌≤◌, ◌<◌, min, max, bit_and, bit_or, bit_xor, Bool,
  true, false, not, ◌&&◌, ◌||◌, List, [], ◌∷◌, ◌++◌, map, Option, none, some, length, take, drop,
  set, replicate, get_elem?, leb, ltb, ◌==◌, if◌then◌else◌, ◌≡◌, ◌≢◌, ◌⊎◌, inl, inr, refl, ◌∙◌, sym,
  ap, ap₂, subst, arith, append_assoc, append-nil, length-take, length-drop, length-append,
  drop-drop, take-append-drop, length-set, drop_all, take_all, take-length, drop-length, drop-take,
  take-take, take-set, drop-set, drop_get, All, All-take, All-drop, All-append, Bool-cases,
  Option-cases, ==_iff, ltb→lt, lt→ltb, le→not-ltb, not-ltb→le, length-map, get_of_drop,
  length-replicate,
}

pub record FrameHandle : Type 0 where
  pub pool_index : ℕ
  pub len : ℕ
  pub timestamp_ns : ℕ

pub record BufferPool : Type 0 where
  pub frame_size : ℕ
  pub capacity : ℕ
  pub free_mask : ℕ

-- `(frame_size + 63) & !63`
abbrev pub aligned : ℕ → ℕ
aligned frame_size = bit_and ((frame_size + 63) % 2 ^ 64) (2 ^ 64 - 1 - 63)

-- `none` where the assertion on the capacity fails. The allocation is taken to succeed.
unfoldable pub new : ℕ → ℕ → Option BufferPool
new capacity frame_size =
    if ltb 0 capacity && leb capacity 64
    then some (record {
      frame_size = aligned frame_size;
      capacity = capacity;
      free_mask = if capacity == 64 then 2 ^ 64 - 1 else 2 ^ capacity - 1;
    })
    else none

-- `u64::trailing_zeros` of a word with `n` bits left to look at.
unfoldable pub trailing_zeros : ℕ → ℕ → ℕ
trailing_zeros zero mask = 0
trailing_zeros (suc n) mask =
    let rest = suc (trailing_zeros n (mask / 2)) in if mask % 2 == 0 then rest else 0

-- The exchange in the loop of `acquire`, for the mask that was loaded before it: a weak exchange may
-- fail for no reason (`fails`). After a failure the loop loads again.
unfoldable pub exchange : BufferPool → ℕ → Bool → ℕ → BufferPool × Option FrameHandle
exchange p mask fails timestamp_ns =
    let slot = trailing_zeros 64 mask in
    if not (mask == 0) && (p.free_mask == mask) && not fails
    then (
      record p { free_mask = bit_and mask (2 ^ 64 - 1 - 2 ^ slot) },
      some (record { pool_index = slot; len = p.frame_size % 2 ^ 32; timestamp_ns = timestamp_ns }),
    )
    else (p, none)

-- `fetch_or(1 << slot)`
unfoldable pub release : BufferPool → FrameHandle → BufferPool
release p handle = record p { free_mask = bit_or p.free_mask (2 ^ handle.pool_index) }

-- The pool, the mask that each thread loaded last, and the handles that are out.
pub record World : Type 0 where
  pub pool : BufferPool
  pub loaded : ℕ → ℕ
  pub held : List FrameHandle

pub data Event : Type 0 where
  loads : (thread : ℕ) → Event
  exchanges : (thread : ℕ) (fails : Bool) (timestamp_ns : ℕ) → Event
  releases : (before after : List FrameHandle) (handle : FrameHandle) → Event

abbrev pub add_handle : Option FrameHandle → List FrameHandle → List FrameHandle
add_handle none held = held
add_handle (some h) held = h ∷ held

-- `releases` gives back the handle that stands between `before` and `after` in the list.
unfoldable pub step : World → Event → World
step w (loads thread) = record w {
  loaded = λ t. if t == thread then w.pool.free_mask else w.loaded t;
}
step w (exchanges thread fails timestamp_ns) =
    let r = exchange w.pool (w.loaded thread) fails timestamp_ns in
    record w { pool = r.0; held = add_handle r.1 w.held }
step w (releases before after handle) = record w {
  pool = release w.pool handle;
  held = before ++ after;
}

unfoldable pub run : World → List Event → World
run w [] = w
run w (e ∷ es) = run (step w e) es
