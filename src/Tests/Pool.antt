-- ===== src/Tests/Pool.antt =====
-- A pool of two slots and two threads.
use remote_way.Prelude.{false, List, [], ◌∷◌, some, ◌≡◌, refl, subst, arith}
use remote_way.Core.BufferPool.{
  FrameHandle, BufferPool, new, exchange, World, Event, loads, exchanges, releases, step, run,
  trailing_zeros,
}
use remote_way.Core.BufferPool.Slots.{Owned, new-Owned, Legal, run-Owned}

abbrev pool : BufferPool
pool = record { frame_size = 64; capacity = 2; free_mask = 3 }

abbrev fresh : World
fresh = record { pool = pool; loaded = λ t. 0; held = [] }

fresh-Owned : Owned fresh
unfolding new
fresh-Owned =
    let (p, made, owned) = new-Owned 2 50 (λ t. 0) (omega arith) (omega arith) in
    let run_new : new 2 50 ≡ some pool = refl in
    let same : p ≡ pool = cc in
    subst (λ q. Owned (record { pool = q; loaded = λ t. 0; held = [] })) same owned

abbrev first : FrameHandle
first = record { pool_index = 0; len = 64; timestamp_ns = 7 }

-- Both threads load the same mask; the first exchange wins, the second misses and tries again.
abbrev events : List Event
events =
    loads 1
    ∷ loads 2
    ∷ exchanges 1 false 7
    ∷ exchanges 2 false 8
    ∷ loads 2
    ∷ exchanges 2 false 9
    ∷ releases (record { pool_index = 1; len = 64; timestamp_ns = 9 } ∷ []) [] first
    ∷ []

events-Legal : Legal fresh events
unfolding step exchange trailing_zeros
events-Legal = (refl, tt)

run-Owned_example : Owned (run fresh events)
run-Owned_example = run-Owned events fresh fresh-Owned events-Legal
