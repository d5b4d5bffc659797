-- ===== src/Sort/Count.antt =====
-- The number that `base::bubble_sort` (include/base/algorithm.h) returns, and the early exit.
use libpreempt.Prelude.{
  ◌<◌, ℕ, zero, suc, ◌+◌, ◌-◌, ◌*◌, ◌≡◌, ◌↔◌, refl, ◌∙◌, Bool, true, false, inl, inr, some, List,
  [], ◌∷◌, length, length-replicate, replicate, arith,
}
use libpreempt.Sort.{Pass, outer, bubble_sort}
use libpreempt.Sort.Sweep.{IsOrder, sweep, swaps}
use libpreempt.Sort.Bubbled.{Bubbled-length, Bubbled-sweep}
use libpreempt.Sort.Correct.{ℕ-cases, outer_stop, outer_next, outer-Sorted, length_pred}

module _ {ℓ} {A : Type ℓ} (le : A → A → Bool) where
  -- No element is `<=` the one before it.
  abbrev pub IsStrict : List A → Type 0
  IsStrict [] = Unit
  IsStrict (x ∷ []) = Unit
  IsStrict (x ∷ y ∷ ys) = (le y x ≡ false) × IsStrict (y ∷ ys)

  swaps-IsStrict : (x : A) (xs : List A) → (swaps le x xs ≡ 0) ↔ IsStrict (x ∷ xs)
  unfolding swaps
  swaps-IsStrict x [] = (λ _. tt, λ _. refl)
  swaps-IsStrict x (y ∷ ys) = ground (arith, swaps-IsStrict y ys)

  equal_swaps :
      (x : A) (n : ℕ)
      → le x x ≡ true
      → (swaps le x (replicate n x) ≡ n) × (sweep le x (replicate n x) ≡ x ∷ replicate n x)
  unfolding sweep swaps
  equal_swaps x zero e = (refl, refl)
  equal_swaps x (suc n) e = ground (arith, equal_swaps x n)

  rest_length : (n : ℕ) (x : A) → length (x ∷ replicate n x) - 1 ≡ n
  rest_length n x = omega (arith, length-replicate n x)

  equal_outer :
      (x : A) (n k : ℕ) (b : Bool) (c : ℕ)
      → le x x ≡ true
      → (s : Pass A) × (outer le k (record { v = x ∷ replicate n x; swapped = b; result = c })
          ≡ some s)
        × (s.v ≡ x ∷ replicate n x)
        × (s.result ≡ c + k * n)
  unfolding outer swaps sweep
  equal_outer x n zero b c e = (_, refl, refl, omega arith)
  equal_outer x zero (suc k) b c e = (_, outer_stop le k x [] b c refl, refl, omega arith)
  equal_outer x (suc n) (suc k) b c e =
      let (es, ev) = equal_swaps x (suc n) e in
      let (s, runs, kept, count) = equal_outer x (suc n) k true (c + suc n) e in
      (
        s,
        outer_next le k x (replicate (suc n) x) b c (rw es (ground arith)) ∙ rw (es, ev) runs,
        kept,
        grind (arith, count),
      )

  -- On `n + 1` copies of one element, which are sorted from the start, the early exit never fires:
  -- the sort makes `n` rounds of `n` swaps each and leaves the vector as it was.
  pub bubble_sort-replicate :
      (x : A) (n : ℕ)
      → le x x ≡ true
      → (s : Pass A) × (bubble_sort le (replicate (suc n) x) ≡ some s)
        × (s.v ≡ replicate (suc n) x)
        × (s.result ≡ n * n)
  unfolding bubble_sort
  bubble_sort-replicate x n e =
      let (s, runs, kept, count) = equal_outer x n n false 0 e in
      (s, rw (rest_length n x) runs, kept, omega (arith, count))

module _ {ℓ} {A : Type ℓ} {le : A → A → Bool} (o : IsOrder le) where
  zero_iff :
      (n : ℕ) (x : A) (xs : List A) {s : Pass A}
      → length xs ≡ suc n
      → outer le (suc n) (record { v = x ∷ xs; swapped = false; result = 0 }) ≡ some s
      → (s.result ≡ 0) ↔ IsStrict le (x ∷ xs)
  zero_iff n x xs {s} len h = elim (ℕ-cases (swaps le x xs)) [
    | inl e ↦
        let at_stop : s.result ≡ 0 = ground (arith, outer_stop le n x xs false 0 e) in
        (λ _. (swaps-IsStrict le x xs).0 e, λ _. at_stop)
    | inr e ↦
        let r =
          outer-Sorted o n (sweep le x xs) true (swaps le x xs) (
            Bubbled-sweep o (suc n) x xs
              (Bubbled-length le (suc (suc n)) (x ∷ xs) (omega arith))) in
        let many : 0 < s.result = ground (arith, outer_next le n x xs false 0 e, r.runs, r.grows) in
        (λ z. absurd (omega arith), λ i. absurd (ground (arith, (swaps-IsStrict le x xs).1 i)))
  ]

  -- The sort returns 0 exactly when no element of the given vector is `<=` the one before it.
  pub bubble_sort-zero_iff :
      (v : List A) {s : Pass A} → bubble_sort le v ≡ some s → (s.result ≡ 0) ↔ IsStrict le v
  unfolding bubble_sort outer
  bubble_sort-zero_iff [] h = (λ _. tt, λ _. ground arith)
  bubble_sort-zero_iff (x ∷ []) h = (λ _. tt, λ _. ground arith)
  bubble_sort-zero_iff (x ∷ y ∷ ys) {s} h =
      zero_iff (length ys) x (y ∷ ys) {s = s} refl (rw (length_pred (suc (length ys))) at h)
