-- ===== src/Capture/Frame/Flipped.antt =====
-- The flip in place, against the rows in the opposite order.
use native.Mathlib.Nat.{add-mul, zero-mul, mul-div_cancel}
use remote_way.Prelude.{
  ℕ, zero, suc, ◌+◌, ◌-◌, ◌*◌, ◌/◌, ◌≤◌, ◌<◌, false, List, [], ◌∷◌, ◌++◌, some, length, drop, ◌==◌,
  ◌≡◌, refl, ◌∙◌, sym, ap, subst, arith, append_assoc, append-nil, length-append, drop-drop,
  take-length, drop-length, All, All-append, lt→ltb, le→not-ltb,
}
use remote_way.Capture.Frame.{swap_blocks, flip_loop, flip_rows}

abbrev pub concat : List (List ℕ) → List ℕ
concat [] = []
concat (b ∷ bs) = b ++ concat bs

abbrev pub reversed : List (List ℕ) → List (List ℕ)
reversed [] = []
reversed (b ∷ bs) = reversed bs ++ (b ∷ [])

-- Rows of one size.
abbrev pub Rows : ℕ → List (List ℕ) → Type 0
Rows stride = All (λ row. length row ≡ stride)

pub length-concat :
    (stride : ℕ) (bs : List (List ℕ)) → Rows stride bs → length (concat bs) ≡ length bs * stride
length-concat stride [] h = omega (arith, zero-mul stride)
length-concat stride (b ∷ bs) (h, hs) = omega (
  arith,
  length-append b (concat bs),
  h,
  length-concat stride bs hs,
  add-mul (length bs) 1 stride,
)

concat-append : (bs cs : List (List ℕ)) → concat (bs ++ cs) ≡ concat bs ++ concat cs
concat-append [] cs = refl
concat-append (b ∷ bs) cs =
    ap (λ r. b ++ r) (concat-append bs cs) ∙ sym (append_assoc b (concat bs) (concat cs))

-- Two blocks change places.
swap_blocks-eq :
    (size i j : ℕ) (p x m y s : List ℕ)
    → length p ≡ i * size
    → length x ≡ size
    → length m ≡ (j - i - 1) * size
    → length y ≡ size
    → i < j
    → swap_blocks size i j (p ++ (x ++ (m ++ (y ++ s)))) ≡ p ++ (y ++ (m ++ (x ++ s)))
unfolding swap_blocks
swap_blocks-eq size i j p x m y s p_long x_long m_long y_long h =
    let all = p ++ (x ++ (m ++ (y ++ s))) in
    let at_x : drop (i * size) all ≡ x ++ (m ++ (y ++ s)) =
      drop-length p _ (i * size) (sym p_long) in
    let after_x : drop ((i + 1) * size) all ≡ m ++ (y ++ s) =
      sym (drop-drop (i * size) size ((i + 1) * size) all (omega (arith, add-mul i 1 size)))
      ∙ (ap (drop size) at_x ∙ drop-length x _ size (sym x_long)) in
    let at_y : drop (j * size) all ≡ y ++ s =
      sym (
        drop-drop ((i + 1) * size) ((j - i - 1) * size) (j * size) all
          (ap (λ n. n * size) (omega (arith, h)) ∙ add-mul (i + 1) (j - i - 1) size))
      ∙ (ap (drop ((j - i - 1) * size)) after_x
          ∙ drop-length m _ ((j - i - 1) * size) (sym m_long)) in
    let after_y : drop ((j + 1) * size) all ≡ s =
      sym (drop-drop (j * size) size ((j + 1) * size) all (omega (arith, add-mul j 1 size)))
      ∙ (ap (drop size) at_y ∙ drop-length y _ size (sym y_long)) in
    rw (take-length p (x ++ (m ++ (y ++ s))) (i * size) (sym p_long), at_y, after_x, at_x, after_y)
      (rw
        (
          take-length y s size (sym y_long),
          take-length m (y ++ s) ((j - i - 1) * size) (sym m_long),
          take-length x (m ++ (y ++ s)) size (sym x_long),
        )
        refl)

-- A list of one element or more has a last one.
snoc :
    (b : List ℕ) (bs : List (List ℕ))
    → (init : List (List ℕ)) × (l : List ℕ) × (b ∷ bs ≡ init ++ (l ∷ []))
      × (length init ≡ length bs)
snoc b [] = ([], b, refl, refl)
snoc b (c ∷ cs) =
    let (init, l, same, long) = snoc c cs in
    (b ∷ init, l, ap (λ r. b ∷ r) same, omega (arith, long))

reversed-snoc : (bs : List (List ℕ)) (l : List ℕ) → reversed (bs ++ (l ∷ [])) ≡ l ∷ reversed bs
reversed-snoc [] l = refl
reversed-snoc (b ∷ bs) l = ap (λ r. r ++ (b ∷ [])) (reversed-snoc bs l)

Rows-snoc :
    (stride : ℕ) (bs : List (List ℕ)) (l : List ℕ)
    → Rows stride (bs ++ (l ∷ []))
    → Rows stride bs × (length l ≡ stride)
Rows-snoc stride [] l (h, _) = (tt, h)
Rows-snoc stride (b ∷ bs) l (h, hs) = let (all, last) = Rows-snoc stride bs l hs in ((h, all), last)

-- The rows of a picture with its ends in the order in which the loop finds and leaves them.
found :
    (p b l s : List ℕ) (init : List (List ℕ))
    → p ++ (concat (b ∷ (init ++ (l ∷ []))) ++ s) ≡ p ++ (b ++ (concat init ++ (l ++ s)))
found p b l s init = simp (append_assoc, concat-append, append-nil) refl

left_behind :
    (pre : List (List ℕ)) (b l s : List ℕ) (init : List (List ℕ))
    → concat (pre ++ (l ∷ [])) ++ (concat (reversed init) ++ (b ++ s))
      ≡ concat pre ++ (concat (reversed (b ∷ (init ++ (l ∷ [])))) ++ s)
left_behind pre b l s init = simp (append_assoc, concat-append, append-nil, reversed-snoc) refl

joined :
    (pre : List (List ℕ)) (b l s : List ℕ) (init : List (List ℕ))
    → concat pre ++ (l ++ (concat init ++ (b ++ s)))
      ≡ concat (pre ++ (l ∷ [])) ++ (concat init ++ (b ++ s))
joined pre b l s init = simp (append_assoc, concat-append, append-nil) refl

flip_loop_step :
    (fuel stride top bottom : ℕ) (bytes : List ℕ)
    → top < bottom
    → flip_loop (suc fuel) stride top bottom bytes
      ≡ flip_loop fuel stride (top + 1) (bottom - 1) (swap_blocks stride top bottom bytes)
unfolding flip_loop
flip_loop_step fuel stride top bottom bytes h = rw (lt→ltb top bottom h) refl

pub flip_loop-reversed :
    (fuel stride top bottom : ℕ) (pre mid post : List (List ℕ))
    → Rows stride pre
    → Rows stride mid
    → top ≡ length pre
    → bottom + 1 ≡ top + length mid
    → length mid ≤ fuel * 2 + 1
    → flip_loop fuel stride top bottom (concat pre ++ (concat mid ++ concat post))
      ≡ concat pre ++ (concat (reversed mid) ++ concat post)
unfolding flip_loop
flip_loop-reversed zero stride top bottom pre [] post hp hm t m few = refl
flip_loop-reversed (suc fuel) stride top bottom pre [] post hp hm t m few =
    rw (le→not-ltb top bottom (omega (arith, m))) refl
flip_loop-reversed zero stride top bottom pre (b ∷ []) post hp hm t m few =
    ap (λ r. concat pre ++ (r ++ concat post)) refl
flip_loop-reversed (suc fuel) stride top bottom pre (b ∷ []) post hp hm t m few =
    rw (le→not-ltb top bottom (omega (arith, m))) refl
flip_loop-reversed zero stride top bottom pre (b ∷ c ∷ cs) post hp hm t m few =
    absurd (omega (arith, few))
flip_loop-reversed (suc fuel) stride top bottom pre (b ∷ c ∷ cs) post hp (hb, hm) t m few =
    let (init, l, same, long) = snoc c cs in
    let (hi, hl) = Rows-snoc stride init l (subst (Rows stride) same hm) in
    let s = concat post in
    let rec =
      flip_loop-reversed fuel stride (top + 1) (bottom - 1) (pre ++ (l ∷ [])) init (b ∷ post)
        (All-append _ pre (l ∷ []) hp (hl, tt)) hi (omega (arith, t, length-append pre (l ∷ [])))
        (omega (arith, m, long)) (omega (arith, few, long)) in
    let swapped =
      swap_blocks-eq stride top bottom (concat pre) b (concat init) l s
        (rw t (length-concat stride pre hp)) hb
        (length-concat stride init hi ∙ ap (λ n. n * stride) (omega (arith, m, long))) hl
        (omega (arith, m)) in
    subst
      (λ ends.
        flip_loop (suc fuel) stride top bottom (concat pre ++ (concat (b ∷ ends) ++ s))
        ≡ concat pre ++ (concat (reversed (b ∷ ends)) ++ s))
      (sym same)
      (flip_loop_step fuel stride top bottom _ (omega (arith, m))
        ∙ (ap (λ bytes. flip_loop fuel stride (top + 1) (bottom - 1) bytes)
              (ap (swap_blocks stride top bottom) (found (concat pre) b l s init)
                ∙ (swapped ∙ joined pre b l s init))
            ∙ (rec ∙ left_behind pre b l s init)))

pub whole :
    (stride : ℕ) (rows : List (List ℕ))
    → Rows stride rows
    → flip_loop (length rows - 1) stride 0 (length rows - 1) (concat rows) ≡ concat (reversed rows)
unfolding flip_loop
whole stride [] h = refl
whole stride (b ∷ bs) h =
    let rows = b ∷ bs in
    subst
      (λ bytes.
        flip_loop (length rows - 1) stride 0 (length rows - 1) bytes ≡ concat (reversed rows))
      (append-nil (concat rows))
      (flip_loop-reversed (length rows - 1) stride 0 (length rows - 1) [] rows [] tt h refl
          (omega arith) (omega arith)
        ∙ append-nil (concat (reversed rows)))

-- A picture of whole rows is flipped to the same rows in the opposite order.
pub flip_rows-reversed :
    (stride : ℕ) (rows : List (List ℕ))
    → 0 < stride
    → Rows stride rows
    → flip_rows (concat rows) stride ≡ some (concat (reversed rows))
unfolding flip_rows
flip_rows-reversed stride rows positive h =
    let count : length (concat rows) / stride ≡ length rows =
      ap (λ n. n / stride) (length-concat stride rows h) ∙ mul-div_cancel (length rows) positive in
    let some_stride : (stride == 0) ≡ false = ground (arith, positive) in
    rw (some_stride, count) (ap some (whole stride rows h))
