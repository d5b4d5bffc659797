-- ===== src/Task/Critical/Sorting/Tests.antt =====
-- The theorem on the sorting tasks with an insertion sort in the place of std::sort.
use mathlib.Core.List.{Perm}
use mathlib.Core.List.Perm
use libpreempt.Prelude.{
  ℕ, ◌+◌, ◌*◌, ◌%◌, ◌≡◌, true, false, Bool-cases, inl, inr, some, List, [], ◌∷◌, ℤ, pos, leb_ℤ,
  if◌then◌else◌, arith,
}
use libpreempt.Sort.{Pass}
use libpreempt.Sort.Sweep.{All, All-imp}
use libpreempt.Sort.Bubbled.{IsSorted}
use libpreempt.Task.Critical.Sorting.{default_run, bubble_run, Sorts, runs_agree}

abbrev insert : ℤ → List ℤ → List ℤ
insert x [] = x ∷ []
insert x (y ∷ ys) = let rest = insert x ys in if leb_ℤ x y then x ∷ y ∷ ys else y ∷ rest

abbrev insertion_sort : List ℤ → List ℤ
insertion_sort [] = []
insertion_sort (x ∷ xs) = insert x (insertion_sort xs)

Perm-insert : (x : ℤ) (ys : List ℤ) → Perm (insert x ys) (x ∷ ys)
Perm-insert x [] = Perm.refl (x ∷ [])
Perm-insert x (y ∷ ys) = elim (Bool-cases (leb_ℤ x y)) [
  | inl e ↦ rw e (Perm.refl (x ∷ y ∷ ys))
  | inr e ↦ rw e (Perm.trans (Perm.cons y (Perm-insert x ys)) (Perm.swap x y ys))
]

Perm-insertion_sort : (xs : List ℤ) → Perm (insertion_sort xs) xs
Perm-insertion_sort [] = Perm.refl []
Perm-insertion_sort (x ∷ xs) =
    Perm.trans (Perm-insert x (insertion_sort xs)) (Perm.cons x (Perm-insertion_sort xs))

below_trans : (x y z : ℤ) → leb_ℤ x y ≡ true → leb_ℤ y z ≡ true → leb_ℤ x z ≡ true
below_trans x y z h k = ground arith

not_below : (x y : ℤ) → leb_ℤ x y ≡ false → leb_ℤ y x ≡ true
not_below x y h = ground arith

All-insert :
    (z x : ℤ) (ys : List ℤ)
    → leb_ℤ z x ≡ true
    → All (λ y. leb_ℤ z y ≡ true) ys
    → All (λ y. leb_ℤ z y ≡ true) (insert x ys)
All-insert z x [] h a = (h, tt)
All-insert z x (y ∷ ys) h a = elim (Bool-cases (leb_ℤ x y)) [
  | inl e ↦ rw e (h, a)
  | inr e ↦ rw e (a.0, All-insert z x ys h a.1)
]

insert-IsSorted : (x : ℤ) (ys : List ℤ) → IsSorted leb_ℤ ys → IsSorted leb_ℤ (insert x ys)
insert-IsSorted x [] s = (tt, tt)
insert-IsSorted x (y ∷ ys) s = elim (Bool-cases (leb_ℤ x y)) [
  | inl e ↦ rw e ((e, All-imp (λ z h. below_trans x y z e h) ys s.0), s)
  | inr e ↦ rw e (All-insert y x ys (not_below x y e) s.0, insert-IsSorted x ys s.1)
]

insertion_sort-IsSorted : (xs : List ℤ) → IsSorted leb_ℤ (insertion_sort xs)
insertion_sort-IsSorted [] = tt
insertion_sort-IsSorted (x ∷ xs) =
    insert-IsSorted x (insertion_sort xs) (insertion_sort-IsSorted xs)

insertion_sort-Sorts : Sorts insertion_sort
insertion_sort-Sorts = record { ascending = insertion_sort-IsSorted; perm = Perm-insertion_sort }

-- 3, 6, 2, 5, 1, ...
abbrev numbers : ℕ → ℤ
numbers i = pos ((i * 3 + 3) % 7)

runs_agree_example :
    (s : Pass ℤ) × (bubble_run numbers 5 ≡ some s)
    × (s.v ≡ default_run insertion_sort numbers 5)
    × IsSorted leb_ℤ s.v
runs_agree_example = runs_agree insertion_sort numbers 5 insertion_sort-Sorts
