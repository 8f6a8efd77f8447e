-- ===== src/Compress/Delta/Rows.antt =====
-- The inner loops on one row: the blocks of 32 bytes against the plain exclusive or, and the
-- byte-wise decoding against a cut and a paste.
use remote_way.Prelude.{
  ℕ, zero, suc, ◌+◌, ◌-◌, ◌*◌, ◌/◌, ◌%◌, ◌≤◌, bit_xor, List, [], ◌∷◌, ◌++◌, some, length, take,
  drop, set, ◌≡◌, refl, ◌∙◌, ap, arith, append_assoc, append-nil, length-take, length-drop,
  drop-drop, take-append-drop, length-set, drop_all, drop-take, take-take, take-set, drop-set,
  drop_get,
}
use remote_way.Compress.Delta.{
  range, xor_bytes, simd_blocks, simd_tail, xor_into_vec_simd, decode_bytes,
}

pub range-some :
    (bytes : List ℕ) (from to : ℕ)
    → from ≤ to
    → to ≤ length bytes
    → range bytes from to ≡ some (take (to - from) (drop from bytes))
range-some bytes from to h k = ground arith

pub length-xor_bytes : (a b : List ℕ) → length a ≡ length b → length (xor_bytes a b) ≡ length a
length-xor_bytes [] b h = refl
length-xor_bytes (x ∷ a) [] h = absurd (omega arith)
length-xor_bytes (x ∷ a) (y ∷ b) h = ap suc (length-xor_bytes a b (omega arith))

-- The exclusive or of two slices is that of their fronts and that of their rests.
xor_bytes-split :
    (n : ℕ) (a b : List ℕ)
    → length a ≡ length b
    → xor_bytes (take n a) (take n b) ++ xor_bytes (drop n a) (drop n b) ≡ xor_bytes a b
xor_bytes-split zero a b h = refl
xor_bytes-split (suc n) [] [] h = refl
xor_bytes-split (suc n) [] (y ∷ b) h = absurd (omega arith)
xor_bytes-split (suc n) (x ∷ a) [] h = absurd (omega arith)
xor_bytes-split (suc n) (x ∷ a) (y ∷ b) h = rw (xor_bytes-split n a b (omega arith))

-- A longer front in two parts.
xor_bytes-grow :
    (n k m : ℕ) (a b : List ℕ)
    → length a ≡ length b
    → m ≡ n + k
    → xor_bytes (take n a) (take n b) ++ xor_bytes (take k (drop n a)) (take k (drop n b))
      ≡ xor_bytes (take m a) (take m b)
xor_bytes-grow n k m a b h e =
    rw
      (
        ← take-take n m a (omega arith),
        ← take-take n m b (omega arith),
        ← drop-take n m k a e,
        ← drop-take n m k b e,
      )
      (xor_bytes-split n (take m a) (take m b) (omega (arith, length-take m a, length-take m b)))

simd_tail-xor :
    (a b : List ℕ) (n i : ℕ) (dst : List ℕ)
    → length a ≡ length b
    → i + n ≡ length a
    → simd_tail a b n i dst ≡ some (dst ++ xor_bytes (drop i a) (drop i b))
unfolding simd_tail
simd_tail-xor a b zero i dst h e = rw (drop_all a i (omega arith), append-nil dst)
simd_tail-xor a b (suc n) i dst h e =
    let (x, ex, dx) = drop_get a i (omega arith) in
    let (y, ey, dy) = drop_get b i (omega arith) in
    let next : i + 1 ≡ suc i = omega arith in
    rw (ex, ey, dx, dy, next)
      (simd_tail-xor a b n (suc i) (dst ++ (bit_xor x y ∷ [])) h (omega arith)
        ∙ ap some (append_assoc dst (bit_xor x y ∷ []) _))

simd_blocks-xor :
    (a b : List ℕ) (n i : ℕ) (dst : List ℕ)
    → length a ≡ length b
    → (i + n) * 32 ≤ length a
    → simd_blocks a b n i dst
      ≡ some (dst ++ xor_bytes (take (n * 32) (drop (i * 32) a)) (take (n * 32) (drop (i * 32) b)))
unfolding simd_blocks
simd_blocks-xor a b zero i dst h e = simp append-nil
simd_blocks-xor a b (suc n) i dst h e =
    let width : i * 32 + 32 - i * 32 ≡ 32 = omega arith in
    let ra = range-some a (i * 32) (i * 32 + 32) (omega arith) (omega arith) in
    let rb = range-some b (i * 32) (i * 32 + 32) (omega arith) (omega arith) in
    rw (ra, rb, width)
      (simd_blocks-xor a b n (i + 1) _ h (omega arith)
        ∙ ap some (
            append_assoc dst _ _
            ∙ ap (◌++◌ dst) (
                rw
                  (
                    ← drop-drop (i * 32) 32 ((i + 1) * 32) a (omega arith),
                    ← drop-drop (i * 32) 32 ((i + 1) * 32) b (omega arith),
                  )
                  (xor_bytes-grow 32 (n * 32) (suc n * 32) (drop (i * 32) a) (drop (i * 32) b)
                    (omega (arith, length-drop (i * 32) a, length-drop (i * 32) b))
                    (omega arith)))))

pub xor_into_vec_simd-xor :
    (a b dst : List ℕ)
    → length a ≡ length b
    → xor_into_vec_simd a b dst ≡ some (dst ++ xor_bytes a b)
unfolding xor_into_vec_simd
xor_into_vec_simd-xor a b dst h =
    let n = length a / 32 in
    rw (simd_blocks-xor a b n 0 dst h (omega arith)) (
      simd_tail-xor a b (length a % 32) (n * 32) _ h (omega arith)
      ∙ ap some (append_assoc dst _ _ ∙ ap (◌++◌ dst) (xor_bytes-split (n * 32) a b h)))

-- A row decoded byte by byte, from byte `i` on: the bytes before and behind it stay.
pub decode_bytes-paste :
    (delta previous : List ℕ) (stride start offset n i s o : ℕ) (output : List ℕ)
    → length output ≡ length previous
    → s ≡ start + i
    → o ≡ offset + i
    → s + n ≤ length previous
    → o + n ≤ length delta
    → decode_bytes delta previous stride start offset n i output
      ≡ some (
          take s output
          ++ (xor_bytes (take n (drop s previous)) (take n (drop o delta)) ++ drop (s + n) output))
unfolding decode_bytes
decode_bytes-paste delta previous stride start offset zero i s o output len es eo hp hd =
    let same : s + 0 ≡ s = omega arith in rw (same, take-append-drop s output)
decode_bytes-paste delta previous stride start offset (suc n) i s o output len es eo hp hd =
    let (p, ep, dp) = drop_get previous s (omega arith) in
    let (d, ed, dd) = drop_get delta o (omega arith) in
    let (q, eq, dq) = drop_get output s (omega arith) in
    let v = bit_xor p d in
    let rec =
      decode_bytes-paste delta previous stride start offset n (i + 1) (suc s) (suc o)
        (set output s v) (rw (length-set output s v) len) (omega arith) (omega arith) (omega arith)
        (omega arith) in
    let far : suc s + n ≡ s + suc n = omega arith in
    rw
      (
        ← es,
        ← eo,
        ep,
        ed,
        eq,
        rec,
        take-set output s v (omega arith),
        drop-set output s (suc s + n) v (omega arith),
        dp,
        dd,
        far,
      )
      (ap some (append_assoc (take s output) (v ∷ []) _))
