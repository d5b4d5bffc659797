-- ===== src/Sort.antt =====
-- `base::bubble_sort` of include/base/algorithm.h, for vectors and arrays alike (the two overloads
-- have the same body). `le` stands for the element type's `<=`.
pub mod Sweep
pub mod Bubbled
pub mod Correct
pub mod Count
pub mod Inversions
pub mod Multiset
pub mod Width
mod Tests
use libpreempt.Prelude.{
  ℕ, zero, suc, ◌+◌, ◌-◌, ◌≡◌, Bool, true, false, Option, none, some, List, length, get_elem?, set,
  if◌then◌else◌,
}

-- The program's variables: the vector, the flag of the inner loop and the number of swaps.
pub record Pass {ℓ} (A : Type ℓ) : Type ℓ where
  pub v : List A
  pub swapped : Bool
  pub result : ℕ

-- An access out of range is undefined behaviour: `none`.
infixl 5 ◌>>=◌
abbrev pub ◌>>=◌ {ℓ κ} : {A : Type ℓ} {B : Type κ} → Option A → (A → Option B) → Option B
some a >>= f = f a
none >>= f = none

module _ {ℓ} {A : Type ℓ} (le : A → A → Bool) where
  -- The body of the inner loop.
  pub compare_swap : ℕ → Pass A → Option (Pass A)
  compare_swap j s = do
    b ← get_elem? s.v (j + 1)
    a ← get_elem? s.v j
    some (
        if le b a
        then record { v = set (set s.v j b) (j + 1) a; swapped = true; result = s.result + 1 }
        else s)

  -- `for (int j = 0; j < v.size() - 1; j++)`: the first argument counts the rounds left.
  pub inner : ℕ → ℕ → Pass A → Option (Pass A)
  inner zero j s = some s
  inner (suc n) j s = compare_swap j s >>= λ s'. inner n (j + 1) s'

  -- `for (int i = 1; i < v.size(); i++)`, left early when a round swaps nothing.
  pub outer : ℕ → Pass A → Option (Pass A)
  outer zero s = some s
  outer (suc n) s = inner (length s.v - 1) 0 (record s { swapped = false }) >>= λ s'.
      elim s'.swapped [ true ↦ outer n s' | false ↦ some s' ]

  -- The sorted vector and the returned number of swaps.
  pub bubble_sort : List A → Option (Pass A)
  bubble_sort v = outer (length v - 1) (record { v = v; swapped = false; result = 0 })
