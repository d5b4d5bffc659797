-- ===== src/Sort/Sweep.antt =====
-- One round of the inner loop as a single structural pass, and what it does to a vector whose tail
-- is already in place.
use native.Mathlib.Numerals.{add-one}
use libpreempt.Prelude.{
  ℕ, suc, ◌+◌, ◌≡◌, refl, ap, ◌∙◌, Bool, true, false, Bool-cases, inl, inr, ◌||◌, some, List, [],
  ◌∷◌, ◌++◌, length, get_elem?, set, ltb, get_elem?-append, length-append, append_assoc, arith,
}
use libpreempt.Sort.{Pass, compare_swap, inner}

abbrev pub All {ℓ κ} : {A : Type ℓ} → (A → Type κ) → List A → Type κ
All P [] = Unit
All P (x ∷ xs) = P x × All P xs

pub All-imp {ℓ κ} :
    {A : Type ℓ} {P Q : A → Type κ} (f : (a : A) → P a → Q a) (xs : List A) → All P xs → All Q xs
All-imp f [] h = tt
All-imp f (x ∷ xs) h = (f x h.0, All-imp f xs h.1)

-- What the element type's `<=` is assumed to be: a total preorder.
pub record IsOrder {ℓ} {A : Type ℓ} (le : A → A → Bool) : Type ℓ where
  pub total : (a b : A) → le a b ≡ false → le b a ≡ true
  pub trans : (a b c : A) → le a b ≡ true → le b c ≡ true → le a c ≡ true

module _ {ℓ} {A : Type ℓ} (le : A → A → Bool) where
  -- The carried element moves right past every element that is not greater.
  unfoldable pub sweep : A → List A → List A
  sweep x [] = x ∷ []
  sweep x (y ∷ ys) = elim (le y x) [ true ↦ y ∷ sweep x ys | false ↦ x ∷ sweep y ys ]

  unfoldable pub swaps : A → List A → ℕ
  swaps x [] = 0
  swaps x (y ∷ ys) = elim (le y x) [ true ↦ suc (swaps x ys) | false ↦ swaps y ys ]

module _ {ℓ} {A : Type ℓ} where
  second :
      (pre : List A) (x y : A) (ys : List A)
      → get_elem? (pre ++ x ∷ y ∷ ys) (suc (length pre)) ≡ some y
  second [] x y ys = refl
  second (p ∷ pre) x y ys = second pre x y ys

  exchange :
      (pre : List A) (x y : A) (ys : List A)
      → set (set (pre ++ x ∷ y ∷ ys) (length pre) y) (suc (length pre)) x ≡ pre ++ y ∷ x ∷ ys
  exchange [] x y ys = refl
  exchange (p ∷ pre) x y ys = ap (◌∷◌ p) (exchange pre x y ys)

  snoc_shift : (pre : List A) (y : A) (zs : List A) → (pre ++ y ∷ []) ++ zs ≡ pre ++ y ∷ zs
  snoc_shift pre y zs = append_assoc pre (y ∷ []) zs

  length-snoc : (pre : List A) (y : A) → length (pre ++ y ∷ []) ≡ length pre + 1
  length-snoc pre y = omega (arith, length-append pre (y ∷ []))

module _ {ℓ} {A : Type ℓ} (le : A → A → Bool) where
  compare_swap-swap :
      (pre : List A) (x y : A) (ys : List A) (b : Bool) (c : ℕ)
      → le y x ≡ true
      → compare_swap le (length pre) (record { v = pre ++ x ∷ y ∷ ys; swapped = b; result = c })
        ≡ some (record { v = pre ++ y ∷ x ∷ ys; swapped = true; result = c + 1 })
  unfolding compare_swap
  compare_swap-swap pre x y ys b c e = rw (
    add-one (length pre),
    second pre x y ys,
    get_elem?-append pre x (y ∷ ys),
    e,
    exchange pre x y ys,
  )

  compare_swap-keep :
      (pre : List A) (x y : A) (ys : List A) (b : Bool) (c : ℕ)
      → le y x ≡ false
      → compare_swap le (length pre) (record { v = pre ++ x ∷ y ∷ ys; swapped = b; result = c })
        ≡ some (record { v = pre ++ x ∷ y ∷ ys; swapped = b; result = c })
  unfolding compare_swap
  compare_swap-keep pre x y ys b c e =
      rw (add-one (length pre), second pre x y ys, get_elem?-append pre x (y ∷ ys), e)

  pub sweep-swap :
      (x y : A) (ys : List A)
      → le y x ≡ true
      → (sweep le x (y ∷ ys) ≡ y ∷ sweep le x ys) × (swaps le x (y ∷ ys) ≡ suc (swaps le x ys))
  unfolding sweep swaps
  sweep-swap x y ys e = ground arith

  pub sweep-keep :
      (x y : A) (ys : List A)
      → le y x ≡ false
      → (sweep le x (y ∷ ys) ≡ x ∷ sweep le y ys) × (swaps le x (y ∷ ys) ≡ swaps le y ys)
  unfolding sweep swaps
  sweep-keep x y ys e = ground arith

  abbrev after : List A → A → List A → Bool → ℕ → Pass A
  after pre x ys b c = record {
    v = pre ++ sweep le x ys;
    swapped = b || ltb 0 (swaps le x ys);
    result = c + swaps le x ys;
  }

  -- The indexed inner loop, from index `length pre` on, is the sweep; no access is out of range.
  pub inner-sweep :
      (pre : List A) (x : A) (ys : List A) (b : Bool) (c : ℕ)
      → inner le (length ys) (length pre) (record { v = pre ++ x ∷ ys; swapped = b; result = c })
        ≡ some (after pre x ys b c)
  unfolding inner sweep swaps
  inner-sweep pre x [] b c = ground arith
  inner-sweep pre x (y ∷ ys) b c = elim (Bool-cases (le y x)) [
    | inl e ↦
        let (ev, ec) = sweep-swap x y ys e in
        rw (compare_swap-swap pre x y ys b c e) (
          rw (length-snoc pre y, snoc_shift pre y (x ∷ ys), snoc_shift pre y (sweep le x ys)) at
            (inner-sweep (pre ++ y ∷ []) x ys true (c + 1))
          ∙ rw (ev, ec) (ground arith))
    | inr e ↦
        let (ev, ec) = sweep-keep x y ys e in
        rw (compare_swap-keep pre x y ys b c e) (
          rw (length-snoc pre x, snoc_shift pre x (y ∷ ys), snoc_shift pre x (sweep le y ys)) at
            (inner-sweep (pre ++ x ∷ []) y ys b c)
          ∙ rw (ev, ec) refl)
  ]
