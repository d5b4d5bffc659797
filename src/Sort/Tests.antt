-- ===== src/Sort/Tests.antt =====
-- Runs of the sort, and its theorems at concrete vectors.
use mathlib.Core.List.{Perm}
use mathlib.Core.Quot
use native.Mathlib.Nat.{ℕ_set}
use libpreempt.Prelude.{
  ℕ, ◌-◌, ◌*◌, ◌≤◌, ◌≡◌, refl, true, some, List, [], ◌∷◌, leb, length, replicate, none, arith,
}
use libpreempt.Sort.{Pass, inner, outer, compare_swap, bubble_sort}
use libpreempt.Sort.Sweep.{IsOrder}
use libpreempt.Sort.Bubbled.{IsSorted}
use libpreempt.Sort.Correct.{bubble_sort-IsSorted}
use libpreempt.Sort.Multiset.{IsAntisymmetric, Bag, bubble_sort-Bag}
use libpreempt.Sort.Width.{bubble_sort_int, outer_int, inner_int, compare_swap_int, increment}
use libpreempt.Sort.Width.Bounds.{bubble_sort_int-IsSorted, bubble_sort_int-replicate}
use libpreempt.Sort.Inversions.{count, inversions}

abbrev mixed : List ℕ
mixed = 5 ∷ 2 ∷ 9 ∷ 2 ∷ []

leb-IsOrder : IsOrder leb
leb-IsOrder = record { total = λ a b h. ground arith; trans = λ a b c h k. ground arith }

mixed_runs :
    bubble_sort leb mixed ≡ some (record { v = 2 ∷ 2 ∷ 5 ∷ 9 ∷ []; swapped = true; result = 4 })
unfolding bubble_sort outer inner compare_swap
mixed_runs = refl

bubble_sort-IsSorted_example :
    (s : Pass ℕ) × (bubble_sort leb mixed ≡ some s)
    × IsSorted leb s.v
    × Perm s.v mixed
    × (s.result ≤ (length mixed - 1) * (length mixed - 1))
bubble_sort-IsSorted_example = bubble_sort-IsSorted leb-IsOrder mixed

four : inversions leb (5 ∷ 2 ∷ 9 ∷ 1 ∷ []) ≡ 4
unfolding inversions count
four = refl

leb-IsAntisymmetric : IsAntisymmetric leb
leb-IsAntisymmetric a b h k = ground arith

bubble_sort-Bag_example :
    (f : Bag ℕ → List ℕ) × ((v : List ℕ)
      → (s : Pass ℕ) × (bubble_sort leb v ≡ some s) × (s.v ≡ f (Quot.mk v)))
    × ((b : Bag ℕ) → Quot.mk (f b) ≡ b)
    × ((v : List ℕ) → IsSorted leb v → f (Quot.mk v) ≡ v)
bubble_sort-Bag_example = bubble_sort-Bag leb-IsOrder ℕ_set leb-IsAntisymmetric

mixed_runs_int :
    bubble_sort_int leb mixed ≡ some (record { v = 2 ∷ 2 ∷ 5 ∷ 9 ∷ []; swapped = true; result = 4 })
unfolding bubble_sort_int outer_int inner_int compare_swap_int increment
mixed_runs_int = refl

bubble_sort_int-IsSorted_example :
    (s : Pass ℕ) × (bubble_sort_int leb mixed ≡ some s)
    × (bubble_sort leb mixed ≡ some s)
    × IsSorted leb s.v
    × Perm s.v mixed
bubble_sort_int-IsSorted_example = bubble_sort_int-IsSorted leb-IsOrder mixed (omega arith)

bubble_sort_int-replicate_example : bubble_sort_int leb (replicate 46342 7) ≡ none
bubble_sort_int-replicate_example =
    bubble_sort_int-replicate leb 7 46341 refl (omega arith) (omega arith)
