-- ===== src/Sort/Inversions.antt =====
-- The number that `base::bubble_sort` (include/base/algorithm.h) returns, for elements that differ.
use libpreempt.Prelude.{ℕ, ◌+◌, ◌≡◌, Bool, false, ◌&&◌, some, List, [], ◌∷◌, if◌then◌else◌}
use libpreempt.Sort.{Pass, outer}
use libpreempt.Sort.Sweep.{All}

module _ {ℓ} {A : Type ℓ} (le : A → A → Bool) where
  -- How many elements of the list are `<=` the given one.
  unfoldable pub count : A → List A → ℕ
  count x [] = 0
  count x (y ∷ ys) = (if le y x then 1 else 0) + count x ys

  -- How many pairs of elements stand the wrong way round: the later one is `<=` the earlier one.
  unfoldable pub inversions : List A → ℕ
  inversions [] = 0
  inversions (x ∷ xs) = count x xs + inversions xs

  -- Of no two elements each is `<=` the other.
  abbrev pub Distinct : List A → Type 0
  Distinct [] = Unit
  Distinct (x ∷ xs) = All (λ y. (le x y && le y x) ≡ false) xs × Distinct xs

  -- What the outer loop leaves: its swaps and the inversions that are left make up the inversions it
  -- was given.
  record Counted (n c : ℕ) (s : Pass A) : Type ℓ where
    last : Pass A
    runs : outer le n s ≡ some last
    total : inversions last.v + last.result ≡ inversions s.v + c
    distinct : Distinct last.v
