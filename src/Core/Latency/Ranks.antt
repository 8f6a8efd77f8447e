-- ===== src/Core/Latency/Ranks.antt =====
-- Sorting, and the ranks of what is found at an index of the sorted samples.
use remote_way.Prelude.{
  ℕ, zero, suc, ◌+◌, ◌≤◌, ◌<◌, List, [], ◌∷◌, some, length, get_elem?, leb, ltb, if◌then◌else◌, ◌≡◌,
  inl, inr, refl, ◌∙◌, ap, subst, arith, All, Bool-cases, le→not-ltb,
}
use remote_way.Core.Latency.{insert_sorted, sort}

-- Between two bounds.
abbrev pub Within : ℕ → ℕ → ℕ → Type 0
Within lo hi x = (lo ≤ x) × (x ≤ hi)

-- Each entry is no greater than those behind it.
abbrev pub Sorted : List ℕ → Type 0
Sorted [] = Unit {0}
Sorted (x ∷ xs) = All (λ y. x ≤ y) xs × Sorted xs

pub All-get {ℓ} :
    {P : ℕ → Type ℓ} (xs : List ℕ) (i : ℕ)
    → All P xs
    → i < length xs
    → (x : ℕ) × (get_elem? xs i ≡ some x) × P x
All-get [] i a h = absurd (omega arith)
All-get (x ∷ xs) zero a h = (x, refl, a.0)
All-get (x ∷ xs) (suc i) a h = All-get xs i a.1 (omega arith)

pub get_pair :
    (xs : List ℕ) (i j : ℕ)
    → Sorted xs
    → i ≤ j
    → j < length xs
    → (x : ℕ) × (y : ℕ) × (get_elem? xs i ≡ some x) × (get_elem? xs j ≡ some y) × (x ≤ y)
get_pair [] i j s h k = absurd (omega arith)
get_pair (x ∷ xs) zero zero s h k = (x, x, refl, refl, omega arith)
get_pair (x ∷ xs) zero (suc j) s h k =
    let (y, found, le) = All-get xs j s.0 (omega arith) in (x, y, refl, found, le)
get_pair (x ∷ xs) (suc i) zero s h k = absurd (omega arith)
get_pair (x ∷ xs) (suc i) (suc j) s h k = get_pair xs i j s.1 (omega arith) (omega arith)

All-insert_sorted {ℓ} :
    (P : ℕ → Type ℓ) (x : ℕ) (ys : List ℕ) → P x → All P ys → All P (insert_sorted x ys)
unfolding insert_sorted
All-insert_sorted P x [] p a = (p, tt)
All-insert_sorted P x (y ∷ ys) p a = elim (Bool-cases (leb x y)) [
  | inl le ↦ rw le (p, a)
  | inr gt ↦ rw gt (a.0, All-insert_sorted P x ys p a.1)
]

pub All-sort {ℓ} : (P : ℕ → Type ℓ) (xs : List ℕ) → All P xs → All P (sort xs)
unfolding sort
All-sort P [] a = tt
All-sort P (x ∷ xs) a = All-insert_sorted P x (sort xs) a.0 (All-sort P xs a.1)

length-insert_sorted : (x : ℕ) (ys : List ℕ) → length (insert_sorted x ys) ≡ suc (length ys)
unfolding insert_sorted
length-insert_sorted x [] = refl
length-insert_sorted x (y ∷ ys) = ground (arith, length-insert_sorted x ys)

pub length-sort : (xs : List ℕ) → length (sort xs) ≡ length xs
unfolding sort
length-sort [] = refl
length-sort (x ∷ xs) = length-insert_sorted x (sort xs) ∙ ap suc (length-sort xs)

All-le : (x y : ℕ) (ys : List ℕ) → x ≤ y → All (λ z. y ≤ z) ys → All (λ z. x ≤ z) ys
All-le x y [] h a = tt
All-le x y (z ∷ zs) h a = (omega (arith, a.0), All-le x y zs h a.1)

insert_sorted-Sorted : (x : ℕ) (ys : List ℕ) → Sorted ys → Sorted (insert_sorted x ys)
unfolding insert_sorted
insert_sorted-Sorted x [] s = (tt, tt)
insert_sorted-Sorted x (y ∷ ys) s = elim (Bool-cases (leb x y)) [
  | inl le ↦ let h : x ≤ y = ground arith in rw le ((h, All-le x y ys h s.0), s)
  | inr gt ↦
      let h : y ≤ x = ground arith in
      rw gt (All-insert_sorted (λ z. y ≤ z) x ys h s.0, insert_sorted-Sorted x ys s.1)
]

pub sort-Sorted : (xs : List ℕ) → Sorted (sort xs)
unfolding sort
sort-Sorted [] = tt
sort-Sorted (x ∷ xs) = insert_sorted-Sorted x (sort xs) (sort-Sorted xs)

-- How many are less, and how many are no greater.
abbrev pub below : ℕ → List ℕ → ℕ
below v [] = 0
below v (x ∷ xs) = (if ltb x v then 1 else 0) + below v xs

abbrev pub upto : ℕ → List ℕ → ℕ
upto v [] = 0
upto v (x ∷ xs) = (if leb x v then 1 else 0) + upto v xs

-- A value that a list has at an index when it is in order: at most so many are less, and more are no
-- greater.
abbrev pub Ranked : ℕ → List ℕ → ℕ → Type 0
Ranked i xs v = (below v xs ≤ i) × (i < upto v xs)

below-insert_sorted : (v x : ℕ) (ys : List ℕ) → below v (insert_sorted x ys) ≡ below v (x ∷ ys)
unfolding insert_sorted
below-insert_sorted v x [] = refl
below-insert_sorted v x (y ∷ ys) = elim (Bool-cases (leb x y)) [
  | inl le ↦ rw le refl
  | inr gt ↦ rw gt (omega (arith, below-insert_sorted v x ys))
]

upto-insert_sorted : (v x : ℕ) (ys : List ℕ) → upto v (insert_sorted x ys) ≡ upto v (x ∷ ys)
unfolding insert_sorted
upto-insert_sorted v x [] = refl
upto-insert_sorted v x (y ∷ ys) = elim (Bool-cases (leb x y)) [
  | inl le ↦ rw le refl
  | inr gt ↦ rw gt (omega (arith, upto-insert_sorted v x ys))
]

below-sort : (v : ℕ) (xs : List ℕ) → below v (sort xs) ≡ below v xs
unfolding sort
below-sort v [] = refl
below-sort v (x ∷ xs) =
    below-insert_sorted v x (sort xs) ∙ ap (λ n. (if ltb x v then 1 else 0) + n) (below-sort v xs)

upto-sort : (v : ℕ) (xs : List ℕ) → upto v (sort xs) ≡ upto v xs
unfolding sort
upto-sort v [] = refl
upto-sort v (x ∷ xs) =
    upto-insert_sorted v x (sort xs) ∙ ap (λ n. (if leb x v then 1 else 0) + n) (upto-sort v xs)

below-least : (v : ℕ) (xs : List ℕ) → All (λ y. v ≤ y) xs → below v xs ≡ 0
below-least v [] h = refl
below-least v (x ∷ xs) (first, h) = rw (le→not-ltb x v first) (omega (arith, below-least v xs h))

at_index : (xs : List ℕ) (i v : ℕ) → Sorted xs → get_elem? xs i ≡ some v → Ranked i xs v
at_index [] i v s e = absurd cc
at_index (x ∷ xs) zero v (least, s) e =
    let same : x ≡ v = cc in
    subst (Ranked 0 (x ∷ xs)) same
      (let none_less = below-least x xs least in (ground (arith, none_less), ground arith))
at_index (x ∷ xs) (suc i) v (least, s) e =
    let (few, enough) = at_index xs i v s e in
    let (w, found, behind) = of_index xs i v least e in
    (ground (arith, few), ground (arith, enough, behind))
  where
    of_index :
        (ys : List ℕ) (i v : ℕ)
        → All (λ y. x ≤ y) ys
        → get_elem? ys i ≡ some v
        → (w : ℕ) × (w ≡ v) × (x ≤ v)
    of_index [] i v h e = absurd cc
    of_index (y ∷ ys) zero v (h, _) e =
        let same : y ≡ v = cc in (v, refl, subst (λ z. x ≤ z) same h)
    of_index (y ∷ ys) (suc i) v (_, h) e = of_index ys i v h e

-- Of the list before it was sorted.
pub sort-Ranked : (xs : List ℕ) (i v : ℕ) → get_elem? (sort xs) i ≡ some v → Ranked i xs v
sort-Ranked xs i v e =
    let (few, enough) = at_index (sort xs) i v (sort-Sorted xs) e in
    (omega (arith, few, below-sort v xs), omega (arith, enough, upto-sort v xs))
