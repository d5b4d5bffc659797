-- ===== src/Task/Critical/Sorting.antt =====
-- The tasks of tests/task_03_sort.cc: each fills its array with random numbers and sorts it, the one by
-- std::sort and the other by `base::bubble_sort`. `rand` gives the numbers of a run, and `sort` stands
-- for std::sort.
mod Tests
use mathlib.Core.List.{Perm}
use mathlib.Core.List.Perm
use libpreempt.Prelude.{
  ℕ, zero, suc, ◌+◌, ◌≡◌, refl, ap, Bool, true, Option, some, List, [], ◌∷◌, length, ℤ, leb_ℤ,
  arith,
}
use libpreempt.Sort.{Pass, bubble_sort}
use libpreempt.Sort.Sweep.{IsOrder}
use libpreempt.Sort.Bubbled.{IsSorted}
use libpreempt.Sort.Correct.{bubble_sort-IsSorted}
use libpreempt.Sort.Multiset.{IsAntisymmetric, sorted_unique}

-- `generate(data.begin(), data.end(), ...)`, behind `i` calls of `rand`.
unfoldable pub generate : (ℕ → ℤ) → ℕ → ℕ → List ℤ
generate rand i zero = []
generate rand i (suc size) = rand i ∷ generate rand (i + 1) size

-- `DefaultSort::run`
unfoldable pub default_run : (List ℤ → List ℤ) → (ℕ → ℤ) → ℕ → List ℤ
unfolding generate
default_run sort rand size = sort (generate rand 0 size)

-- `BubbleSort::run`: what it leaves in the array.
unfoldable pub bubble_run : (ℕ → ℤ) → ℕ → Option (Pass ℤ)
unfolding generate
bubble_run rand size = bubble_sort leb_ℤ (generate rand 0 size)

-- What the C++ standard says of std::sort.
pub record Sorts (sort : List ℤ → List ℤ) : Type 0 where
  pub ascending : (v : List ℤ) → IsSorted leb_ℤ (sort v)
  pub perm : (v : List ℤ) → Perm (sort v) v

leb_ℤ-IsOrder : IsOrder leb_ℤ
leb_ℤ-IsOrder = record { total = λ a b h. ground arith; trans = λ a b c h k. ground arith }

leb_ℤ-IsAntisymmetric : IsAntisymmetric leb_ℤ
leb_ℤ-IsAntisymmetric a b h k = ground arith

-- With the same random numbers both tasks leave the same array: `base::bubble_sort` returns, and its
-- array is that of std::sort, in ascending order.
pub runs_agree :
    (sort : List ℤ → List ℤ) (rand : ℕ → ℤ) (size : ℕ)
    → Sorts sort
    → (s : Pass ℤ) × (bubble_run rand size ≡ some s)
      × (s.v ≡ default_run sort rand size)
      × IsSorted leb_ℤ s.v
unfolding default_run bubble_run
runs_agree sort rand size std =
    let numbers = generate rand 0 size in
    let (s, runs, sorted, perm, _) = bubble_sort-IsSorted leb_ℤ-IsOrder numbers in
    (
      s,
      runs,
      sorted_unique leb_ℤ-IsOrder s.v (sort numbers) leb_ℤ-IsAntisymmetric sorted
          (std.ascending numbers) (Perm.trans perm (Perm.symm (std.perm numbers))),
      sorted,
    )
