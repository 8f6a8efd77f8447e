-- ===== src/Prelude/Table.antt =====
-- A hash map with numbers for keys, as an association list in which a key stands once.
use Prim.Native.Nat.{ℕ}
use mathlib.Core.Path.{◌≡◌, refl}
use mathlib.Core.Bool.{Bool, true, false}
use mathlib.Core.List.{List, [], ◌∷◌}
use mathlib.Core.Option.{Option, none, some}
use native.Mathlib.Omega.{arith}
use remote_way.Prelude.Tests.{◌==◌, if◌then◌else◌}

abbrev pub Table {ℓ} : Type ℓ → Type ℓ
Table V = List (ℕ × V)

module _ {ℓ} {V : Type ℓ} where
  unfoldable pub find : ℕ → Table V → Option V
  find k [] = none
  find k ((j, v) ∷ m) = if j == k then some v else find k m

  abbrev pub is_some : Option V → Bool
  is_some none = false
  is_some (some v) = true

  unfoldable pub contains_key : ℕ → Table V → Bool
  contains_key k m = is_some (find k m)

  unfoldable pub remove : ℕ → Table V → Table V
  remove k [] = []
  remove k ((j, v) ∷ m) = let rest = remove k m in if j == k then rest else (j, v) ∷ rest

  -- `insert`, which replaces the value of a key that is there.
  unfoldable pub insert : ℕ → V → Table V → Table V
  insert k v [] = (k, v) ∷ []
  insert k v ((j, w) ∷ m) = if j == k then (k, v) ∷ m else (j, w) ∷ insert k v m

  pub find-remove :
      (k j : ℕ) (m : Table V) → find j (remove k m) ≡ (if k == j then none else find j m)
  unfolding find remove
  find-remove k j [] = ground arith
  find-remove k j ((i, w) ∷ m) = ground (arith, find-remove k j m)

  pub find-insert :
      (k j : ℕ) (v : V) (m : Table V)
      → find j (insert k v m) ≡ (if k == j then some v else find j m)
  unfolding find insert
  find-insert k j v [] = refl
  find-insert k j v ((i, w) ∷ m) = ground (arith, find-insert k j v m)

  pub remove_absent : (k : ℕ) (m : Table V) → find k m ≡ none → remove k m ≡ m
  unfolding find remove
  remove_absent k [] h = refl
  remove_absent k ((j, v) ∷ m) h = ground (arith, remove_absent k m)

  -- A key that was not there is put in and taken out again.
  pub remove-insert_absent :
      (k : ℕ) (v : V) (m : Table V) → find k m ≡ none → remove k (insert k v m) ≡ m
  unfolding find remove insert
  remove-insert_absent k v [] h = ground arith
  remove-insert_absent k v ((j, w) ∷ m) h = ground (arith, remove-insert_absent k v m)

  pub insert-insert : (k : ℕ) (v w : V) (m : Table V) → insert k w (insert k v m) ≡ insert k w m
  unfolding insert
  insert-insert k v w [] = ground arith
  insert-insert k v w ((j, x) ∷ m) = ground (arith, insert-insert k v w m)
