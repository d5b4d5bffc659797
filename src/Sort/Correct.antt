-- ===== src/Sort/Correct.antt =====
-- `base::bubble_sort` of include/base/algorithm.h as a whole: the outer loop over the sweeps.
use mathlib.Core.List.{Perm}
use mathlib.Core.List.Perm
use libpreempt.Prelude.{
  ℕ, zero, suc, ◌+◌, ◌-◌, ◌*◌, ◌≤◌, ◌≡◌, refl, ◌∙◌, ◌⊎◌, Bool, true, false, Bool-cases, inl, inr,
  some, List, [], ◌∷◌, length, ltb, arith,
}
use libpreempt.Sort.{Pass, inner, outer, bubble_sort}
use libpreempt.Sort.Sweep.{All-imp, IsOrder, sweep, swaps, sweep-swap, sweep-keep, inner-sweep}
use libpreempt.Sort.Bubbled.{IsSorted, Bubbled, Bubbled-length, sweep-perm, Bubbled-sweep}

pub ℕ-cases : (n : ℕ) → (n ≡ 0) ⊎ (ltb 0 n ≡ true)
ℕ-cases zero = inl refl
ℕ-cases (suc n) = inr (ground arith)

pub length_pred : (n : ℕ) → suc n - 1 ≡ n
length_pred n = omega arith

module _ {ℓ} {A : Type ℓ} (le : A → A → Bool) where
  pub swaps-le : (x : A) (ys : List A) → swaps le x ys ≤ length ys
  unfolding swaps
  swaps-le x [] = omega arith
  swaps-le x (y ∷ ys) = ground (arith, swaps-le x ys, swaps-le y ys)

  pub length-sweep : (x : A) (ys : List A) → length (sweep le x ys) ≡ suc (length ys)
  unfolding sweep
  length-sweep x [] = refl
  length-sweep x (y ∷ ys) = ground (arith, length-sweep x ys, length-sweep y ys)

  -- A round that swaps nothing ends the sort.
  pub outer_stop :
      (n : ℕ) (x : A) (xs : List A) (b : Bool) (c : ℕ)
      → swaps le x xs ≡ 0
      → outer le (suc n) (record { v = x ∷ xs; swapped = b; result = c })
        ≡ some (record { v = sweep le x xs; swapped = false; result = c + 0 })
  unfolding outer
  outer_stop n x xs b c e = rw (length_pred (length xs), inner-sweep le [] x xs false c, e)

  pub outer_next :
      (n : ℕ) (x : A) (xs : List A) (b : Bool) (c : ℕ)
      → ltb 0 (swaps le x xs) ≡ true
      → outer le (suc n) (record { v = x ∷ xs; swapped = b; result = c })
        ≡ outer le n (record { v = sweep le x xs; swapped = true; result = c + swaps le x xs })
  unfolding outer
  outer_next n x xs b c e = rw (length_pred (length xs), inner-sweep le [] x xs false c, e)

module _ {ℓ} {A : Type ℓ} {le : A → A → Bool} (o : IsOrder le) where
  swaps_zero :
      (x : A) (xs : List A) → swaps le x xs ≡ 0 → (sweep le x xs ≡ x ∷ xs) × IsSorted le (x ∷ xs)
  unfolding sweep swaps
  swaps_zero x [] h = (refl, (tt, tt))
  swaps_zero x (y ∷ ys) h = elim (Bool-cases (le y x)) [
    | inl e ↦ absurd (omega (arith, h, (sweep-swap le x y ys e).1))
    | inr e ↦
        let (same, sorted) = swaps_zero y ys (omega (arith, h, (sweep-keep le x y ys e).1)) in
        let p = o.total y x e in
        rw ((sweep-keep le x y ys e).0, same)
          (refl, ((p, All-imp (λ z. o.trans x y z p) ys sorted.0), sorted))
  ]

  -- What the outer loop promises from any state that is bubbled behind `suc n`.
  pub record Sorted (n c : ℕ) (s : Pass A) : Type ℓ where
    pub last : Pass A
    pub runs : outer le n s ≡ some last
    pub sorted : IsSorted le last.v
    pub perm : Perm last.v s.v
    pub grows : c ≤ last.result
    pub few : last.result ≤ c + n * (length s.v - 1)

  pub outer-Sorted :
      (n : ℕ) (v : List A) (b : Bool) (c : ℕ)
      → Bubbled le (suc n) v
      → Sorted n c (record { v = v; swapped = b; result = c })
  unfolding outer inner
  outer-Sorted zero [] b c h = record {
    last = _;
    runs = refl;
    sorted = tt;
    perm = Perm.refl [];
    grows = omega arith;
    few = ground arith;
  }
  outer-Sorted zero (x ∷ xs) b c h = record {
    last = _;
    runs = refl;
    sorted = (h.1, h.0);
    perm = Perm.refl (x ∷ xs);
    grows = omega arith;
    few = omega arith;
  }
  outer-Sorted (suc n) [] b c h = record {
    last = record { v = []; swapped = false; result = c };
    runs = refl;
    sorted = tt;
    perm = Perm.refl [];
    grows = omega arith;
    few = omega arith;
  }
  outer-Sorted (suc n) (x ∷ xs) b c h = elim (ℕ-cases (swaps le x xs)) [
    | inl e ↦
        let (same, sorted) = swaps_zero x xs e in
        record {
          last = _;
          runs = outer_stop le n x xs b c e;
          sorted = rw same sorted;
          perm = sweep-perm le x xs;
          grows = omega arith;
          few = omega arith;
        }
    | inr e ↦
        let r =
          outer-Sorted n (sweep le x xs) true (c + swaps le x xs)
            (Bubbled-sweep o (suc n) x xs h) in
        record {
          last = r.last;
          runs = outer_next le n x xs b c e ∙ r.runs;
          sorted = r.sorted;
          perm = Perm.trans r.perm (sweep-perm le x xs);
          grows = omega (arith, r.grows);
          few = grind (arith, r.few, swaps-le le x xs, length-sweep le x xs);
        }
  ]

  -- The sort returns, with no access out of range: its vector is an ascending rearrangement of the
  -- given one, and the returned number of swaps is at most (n - 1) * (n - 1) for `n` elements.
  pub bubble_sort-IsSorted :
      (v : List A)
      → (s : Pass A) × (bubble_sort le v ≡ some s)
        × IsSorted le s.v
        × Perm s.v v
        × (s.result ≤ (length v - 1) * (length v - 1))
  unfolding bubble_sort
  bubble_sort-IsSorted v =
      let r =
        outer-Sorted (length v - 1) v false 0
          (Bubbled-length le (suc (length v - 1)) v (omega arith)) in
      (r.last, r.runs, r.sorted, r.perm, omega (arith, r.few))
