-- ===== src/Sort/Width/Bounds.antt =====
-- When the `int` counters of `base::bubble_sort` (include/base/algorithm.h) are wide enough.
use native.Mathlib.Nat.{mul-le-mul}
use libpreempt.Prelude.{
  ◌<◌, ℕ, zero, suc, ◌+◌, ◌-◌, ◌≤◌, ◌≡◌, refl, ◌∙◌, sym, Bool, true, false, Bool-cases,
  Option-cases, inl, inr, Option, none, some, List, [], ◌∷◌, length, replicate, length-replicate,
  length-set, leb, arith, if◌then◌else◌, get_elem?, set,
}
use mathlib.Core.List.{Perm}
use libpreempt.Sort.Sweep.{IsOrder}
use libpreempt.Sort.Bubbled.{IsSorted}
use libpreempt.Sort.Correct.{bubble_sort-IsSorted}
use libpreempt.Sort.Count.{bubble_sort-replicate}
use libpreempt.Sort.{Pass, compare_swap, inner, outer, bubble_sort, ◌>>=◌}
use libpreempt.Sort.Width.{
  int_max, increment, compare_swap_int, inner_int, outer_int, bubble_sort_int,
}

increment_small : (n : ℕ) → n < int_max → increment n ≡ some (n + 1)
unfolding increment
increment_small n h = ground arith

module _ {ℓ} {A : Type ℓ} where
  -- The pass, if its number of swaps is an `int`.
  abbrev pub fits : Pass A → Option (Pass A)
  fits s = if leb s.result int_max then some s else none

  -- The step takes no swap back and adds no element.
  abbrev Grows : (Pass A → Option (Pass A)) → Type ℓ
  Grows f = (s t : Pass A) → f s ≡ some t → (s.result ≤ t.result) × (length t.v ≡ length s.v)

  fits_small : (s : Pass A) → s.result ≤ int_max → fits s ≡ some s
  fits_small s h = ground arith

  fits_none : (s : Pass A) → int_max < s.result → fits s ≡ none
  fits_none s h = ground arith

  Grows-none :
      (f : Pass A → Option (Pass A))
      → Grows f
      → (s : Pass A) → int_max < s.result
      → (f s >>= fits) ≡ none
  Grows-none f g s h = elim (Option-cases (f s)) [
    | inl e ↦ rw e refl
    | inr (t, e) ↦ rw e (fits_none t (omega (arith, h, (g s t e).0)))
  ]

  -- A check after every step refuses the same runs as one check at the end.
  fits-bind :
      (o : Option (Pass A)) (f h : Pass A → Option (Pass A))
      → Grows f
      → ((s : Pass A) → o ≡ some s → s.result ≤ int_max → h s ≡ (f s >>= fits))
      → ((o >>= fits) >>= h) ≡ ((o >>= f) >>= fits)
  fits-bind none f h g same = refl
  fits-bind (some s) f h g same = elim (Bool-cases (leb s.result int_max)) [
    | inl e ↦ rw e (same s refl (ground arith))
    | inr e ↦ rw e (sym (Grows-none f g s (ground arith)))
  ]

  Grows-bind : (f g : Pass A → Option (Pass A)) → Grows f → Grows g → Grows (λ s. f s >>= g)
  Grows-bind f g hf hg s t e = elim (Option-cases (f s)) [
    | inl n ↦ ground (arith, n, e)
    | inr (u, m) ↦
        let (a, b) = hf s u m in
        let (c, d) = hg u t (ground (arith, m, e)) in (omega (arith, a, c), d ∙ b)
  ]

module _ {ℓ} {A : Type ℓ} (le : A → A → Bool) where
  compare_swap-Grows : (j : ℕ) → Grows (compare_swap le j)
  unfolding compare_swap
  compare_swap-Grows j s t e = elim (Option-cases (get_elem? s.v (j + 1))) [
    | inl n ↦ ground (arith, n, e)
    | inr (b, m) ↦ elim (Option-cases (get_elem? s.v j)) [
      | inl n ↦ ground (arith, m, n, e)
      | inr (a, n) ↦ ground (arith, m, n, e, length-set (set s.v j b) (j + 1) a, length-set s.v j b)
    ]
  ]

  compare_swap-fits :
      (j : ℕ) (s : Pass A)
      → j < int_max
      → s.result ≤ int_max
      → compare_swap_int le j s ≡ (compare_swap le j s >>= fits)
  unfolding compare_swap compare_swap_int increment
  compare_swap-fits j s hj hs = elim (Option-cases (get_elem? s.v (j + 1))) [
    | inl n ↦ ground (arith, n)
    | inr (b, m) ↦ elim (Option-cases (get_elem? s.v j)) [
      | inl n ↦ ground (arith, m, n)
      | inr (a, n) ↦ ground (arith, m, n)
    ]
  ]

  inner-Grows : (n j : ℕ) → Grows (inner le n j)
  unfolding inner
  inner-Grows zero j = λ s t e. ground (arith, e)
  inner-Grows (suc n) j =
      Grows-bind (compare_swap le j) (inner le n (j + 1)) (compare_swap-Grows j)
        (inner-Grows n (j + 1))

  inner-fits :
      (n j : ℕ) (s : Pass A)
      → j + n ≤ int_max
      → s.result ≤ int_max
      → inner_int le n j s ≡ (inner le n j s >>= fits)
  unfolding inner inner_int
  inner-fits zero j s hj hs = ground arith
  inner-fits (suc n) j s hj hs =
      rw (compare_swap-fits j s (omega (arith, hj)) hs, increment_small j (omega (arith, hj)))
        (fits-bind (compare_swap le j s) (inner le n (j + 1)) _ (inner-Grows n (j + 1))
          (λ s' e h. inner-fits n (j + 1) s' (omega (arith, hj)) h))

  -- A round of the outer loop after its sweep.
  next : ℕ → Pass A → Option (Pass A)
  next n s = elim s.swapped [ true ↦ outer le n s | false ↦ some s ]

  next-Grows : (n : ℕ) → Grows (outer le n) → Grows (next n)
  unfolding next
  next-Grows n g s t e = elim (Bool-cases s.swapped) [
    | inl b ↦ g s t (ground (arith, b, e))
    | inr b ↦ ground (arith, b, e)
  ]

  outer-Grows : (n : ℕ) → Grows (outer le n)
  unfolding outer next
  outer-Grows zero s t e = ground (arith, e)
  outer-Grows (suc n) s t e =
      Grows-bind (inner le (length s.v - 1) 0) (next n) (inner-Grows _ 0)
        (next-Grows n (outer-Grows n)) (record s { swapped = false }) t e

  outer-fits :
      (n i : ℕ) (s : Pass A)
      → i + n ≤ int_max
      → length s.v - 1 ≤ int_max
      → s.result ≤ int_max
      → outer_int le n i s ≡ (outer le n s >>= fits)
  unfolding outer outer_int next
  outer-fits zero i s hi hl hs = ground arith
  outer-fits (suc n) i s hi hl hs =
      rw (inner-fits (length s.v - 1) 0 (record s { swapped = false }) (omega (arith, hl)) hs) (
        fits-bind (inner le (length s.v - 1) 0 (record s { swapped = false })) (next n) _
          (next-Grows n (outer-Grows n))
          (λ s' e h. elim (Bool-cases s'.swapped) [
            | inl b ↦ ground (
              arith,
              b,
              increment_small i (omega (arith, hi)),
              outer-fits n (i + 1) s' (omega (arith, hi))
                  (omega (arith, hl, (inner-Grows _ 0 (record s { swapped = false }) s' e).1)) h,
            )
            | inr b ↦ ground (arith, b, h)
          ]))

  -- For at most 2 ^ 31 - 1 elements the counters `i` and `j` do not overflow, and the sort with `int`
  -- counters makes the passes of the sort with unbounded ones: it returns the same vector and the same
  -- number of swaps when that number is an `int`, and is undefined when it is not.
  pub bubble_sort_int_lem :
      (v : List A) → length v ≤ int_max → bubble_sort_int le v ≡ (bubble_sort le v >>= fits)
  unfolding bubble_sort bubble_sort_int outer
  bubble_sort_int_lem [] h = refl
  bubble_sort_int_lem (x ∷ xs) h =
      outer-fits (length (x ∷ xs) - 1) 1 (record { v = x ∷ xs; swapped = false; result = 0 })
        (omega (arith, h)) (omega (arith, h)) (omega arith)

  -- On at least 46342 copies of one element, which are sorted from the start, and at most 2 ^ 31 - 1,
  -- the `int` that counts the swaps overflows, which is undefined behaviour.
  pub bubble_sort_int-replicate :
      (x : A) (n : ℕ)
      → le x x ≡ true
      → 46341 ≤ n
      → n < int_max
      → bubble_sort_int le (replicate (suc n) x) ≡ none
  bubble_sort_int-replicate x n e few many =
      let (s, runs, _, count) = bubble_sort-replicate le x n e in
      bubble_sort_int_lem (replicate (suc n) x) (omega (arith, many, length-replicate n x))
      ∙ rw (runs) (fits_none s (omega (arith, count, mul-le-mul few few)))

module _ {ℓ} {A : Type ℓ} {le : A → A → Bool} (o : IsOrder le) where
  short : (v : List A) → length v ≤ 46341 → length v - 1 ≤ 46340
  short v h = omega (arith, h)

  -- On at most 46341 elements no counter overflows: the sort with `int` counters returns an ascending
  -- rearrangement of the given vector and the number of swaps that unbounded counters give.
  pub bubble_sort_int-IsSorted :
      (v : List A)
      → length v ≤ 46341
      → (s : Pass A) × (bubble_sort_int le v ≡ some s)
        × (bubble_sort le v ≡ some s)
        × IsSorted le s.v
        × Perm s.v v
  bubble_sort_int-IsSorted v h =
      let (s, runs, sorted, perm, few) = bubble_sort-IsSorted o v in
      (
        s,
        bubble_sort_int_lem le v (omega (arith, h))
            ∙ rw (runs) (fits_small s (omega (arith, few, mul-le-mul (short v h) (short v h)))),
        runs,
        sorted,
        perm,
      )
