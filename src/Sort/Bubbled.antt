-- ===== src/Sort/Bubbled.antt =====
-- The order that a round of `base::bubble_sort` (include/base/algorithm.h) brings about.
-- `Bubbled n v`: from position `n` on, `v` is ascending and above all that stands before.
use mathlib.Core.List.{Perm}
use mathlib.Core.List.Perm
use libpreempt.Prelude.{
  ℕ, zero, suc, ◌≤◌, ◌≡◌, Bool, true, Bool-cases, inl, inr, List, [], ◌∷◌, length, drop, arith,
}
use libpreempt.Sort.Sweep.{All, IsOrder, sweep, sweep-swap, sweep-keep}

module _ {ℓ} {A : Type ℓ} (le : A → A → Bool) where
  abbrev pub IsSorted : List A → Type 0
  IsSorted [] = Unit
  IsSorted (x ∷ xs) = All (λ y. le x y ≡ true) xs × IsSorted xs

  abbrev pub Bubbled : ℕ → List A → Type 0
  Bubbled zero v = IsSorted v
  Bubbled (suc n) [] = Unit
  Bubbled (suc n) (x ∷ xs) = Bubbled n xs × All (λ y. le x y ≡ true) (drop n xs)

  pub sweep-perm : (x : A) (ys : List A) → Perm (sweep le x ys) (x ∷ ys)
  unfolding sweep
  sweep-perm x [] = Perm.refl (x ∷ [])
  sweep-perm x (y ∷ ys) = elim (Bool-cases (le y x)) [
    | inl e ↦
        rw (sweep-swap le x y ys e).0
          (Perm.trans (Perm.cons y (sweep-perm x ys)) (Perm.swap x y ys))
    | inr e ↦ rw (sweep-keep le x y ys e).0 (Perm.cons x (sweep-perm y ys))
  ]

  pub All-sweep {κ} :
      (P : A → Type κ) (x : A) (ys : List A) → P x → All P ys → All P (sweep le x ys)
  unfolding sweep
  All-sweep P x [] h hs = (h, tt)
  All-sweep P x (y ∷ ys) h hs = elim (Bool-cases (le y x)) [
    | inl e ↦ rw (sweep-swap le x y ys e).0 (hs.0, All-sweep P x ys h hs.1)
    | inr e ↦ rw (sweep-keep le x y ys e).0 (h, All-sweep P y ys hs.0 hs.1)
  ]

  -- Nothing stands behind the end of a list.
  All-drop {κ} : (P : A → Type κ) (n : ℕ) (v : List A) → length v ≤ n → All P (drop n v)
  All-drop P zero [] h = tt
  All-drop P zero (x ∷ v) h = absurd (omega arith)
  All-drop P (suc n) [] h = tt
  All-drop P (suc n) (x ∷ v) h = All-drop P n v (omega arith)

  Bubbled-nil : (n : ℕ) → Bubbled n []
  Bubbled-nil zero = tt
  Bubbled-nil (suc n) = tt

  pub Bubbled-length : (n : ℕ) (v : List A) → length v ≤ n → Bubbled n v
  Bubbled-length zero [] h = tt
  Bubbled-length zero (x ∷ v) h = absurd (omega arith)
  Bubbled-length (suc n) [] h = tt
  Bubbled-length (suc n) (x ∷ v) h =
      (Bubbled-length n v (omega arith), All-drop _ n v (omega arith))

module _ {ℓ} {A : Type ℓ} {le : A → A → Bool} (o : IsOrder le) where
  above_sweep :
      (z x : A) (n : ℕ) (ys : List A)
      → le z x ≡ true
      → All (λ y. le z y ≡ true) (drop n ys)
      → All (λ y. le z y ≡ true) (drop n (sweep le x ys))
  unfolding sweep
  above_sweep z x zero ys h hs = All-sweep le _ x ys h hs
  above_sweep z x (suc n) [] h hs = All-drop le _ n [] (omega arith)
  above_sweep z x (suc n) (y ∷ ys) h hs = elim (Bool-cases (le y x)) [
    | inl e ↦ rw (sweep-swap le x y ys e).0 (above_sweep z x n ys h hs)
    | inr e ↦
        rw (sweep-keep le x y ys e).0 (above_sweep z y n ys (o.trans z x y h (o.total y x e)) hs)
  ]

  -- A round fixes one more position from the right.
  pub Bubbled-sweep :
      (n : ℕ) (x : A) (xs : List A) → Bubbled le (suc n) (x ∷ xs) → Bubbled le n (sweep le x xs)
  unfolding sweep
  Bubbled-sweep zero x [] h = (tt, tt)
  Bubbled-sweep (suc n) x [] h = (Bubbled-nil le n, All-drop le _ n [] (omega arith))
  Bubbled-sweep zero x (y ∷ ys) h = elim (Bool-cases (le y x)) [
    | inl e ↦
        rw (sweep-swap le x y ys e).0
          (All-sweep le _ x ys e h.0.0, Bubbled-sweep zero x ys (h.0.1, h.1.1))
    | inr e ↦
        rw (sweep-keep le x y ys e).0
          (All-sweep le _ y ys h.1.0 h.1.1, Bubbled-sweep zero y ys (h.0.1, h.0.0))
  ]
  Bubbled-sweep (suc n) x (y ∷ ys) h = elim (Bool-cases (le y x)) [
    | inl e ↦
        rw (sweep-swap le x y ys e).0
          (Bubbled-sweep n x ys (h.0.0, h.1), above_sweep y x n ys e h.0.1)
    | inr e ↦
        rw (sweep-keep le x y ys e).0
          (Bubbled-sweep n y ys h.0, above_sweep x y n ys (o.total y x e) h.1)
  ]
