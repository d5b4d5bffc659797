-- ===== src/Sort/Width.antt =====
-- `base::bubble_sort` of include/base/algorithm.h with the counters it is written with: `result`,
-- `i` and `j` are of type `int`, whose 32 bits are the assumption of this file.
pub mod Bounds
use libpreempt.Prelude.{
  ℕ, zero, suc, ◌+◌, ◌-◌, ◌^◌, Bool, true, false, Option, none, some, List, length, get_elem?, set,
  ltb, if◌then◌else◌,
}
use libpreempt.Sort.{Pass, ◌>>=◌}

abbrev pub int_max : ℕ
int_max = 2147483647

-- `n++` and `n + 1` on an `int`: an overflow is undefined behaviour.
unfoldable pub increment : ℕ → Option ℕ
increment n = if ltb n int_max then some (n + 1) else none

module _ {ℓ} {A : Type ℓ} (le : A → A → Bool) where
  unfoldable pub compare_swap_int : ℕ → Pass A → Option (Pass A)
  compare_swap_int j s = do
    k ← increment j
    b ← get_elem? s.v k
    a ← get_elem? s.v j
    if le b a
        then (increment s.result >>= λ c.
            some (record { v = set (set s.v j b) k a; swapped = true; result = c }))
        else some s

  -- The first argument counts the rounds left, as in `inner`.
  unfoldable pub inner_int : ℕ → ℕ → Pass A → Option (Pass A)
  unfolding compare_swap_int
  inner_int zero j s = some s
  inner_int (suc n) j s = do s' ← compare_swap_int j s; k ← increment j; inner_int n k s'

  -- The second argument is `i`.
  unfoldable pub outer_int : ℕ → ℕ → Pass A → Option (Pass A)
  unfolding inner_int
  outer_int zero i s = some s
  outer_int (suc n) i s = inner_int (length s.v - 1) 0 (record s { swapped = false }) >>= λ s'.
      elim s'.swapped [ true ↦ increment i >>= λ k. outer_int n k s' | false ↦ some s' ]

  unfoldable pub bubble_sort_int : List A → Option (Pass A)
  unfolding outer_int
  bubble_sort_int v = outer_int (length v - 1) 1 (record { v = v; swapped = false; result = 0 })
