-- ===== src/Sort/Multiset.antt =====
-- `base::bubble_sort` (include/base/algorithm.h) as a function of the multiset of the elements, the
-- quotient of the vectors that forgets their order.
use mathlib.Core.Logic.Or
use mathlib.Core.List.{Perm, Mem, is_set, not-mem-nil, eq-or-mem_of_mem-cons, mem-cons_self}
use mathlib.Core.List.Perm
use mathlib.Core.Quot
use mathlib.Core.Quot.{Quot, Quot-set}
use libpreempt.Prelude.{◌≡◌, refl, Bool, true, Bool-cases, inl, inr, some, List, [], ◌∷◌}
use libpreempt.Sort.{Pass, bubble_sort}
use libpreempt.Sort.Sweep.{All, IsOrder}
use libpreempt.Sort.Bubbled.{IsSorted}
use libpreempt.Sort.Correct.{bubble_sort-IsSorted}

-- Elements that are `<=` each other are equal.
abbrev pub IsAntisymmetric {ℓ} : {A : Type ℓ} → (A → A → Bool) → Type ℓ
IsAntisymmetric {A = A} le = (a b : A) → le a b ≡ true → le b a ≡ true → a ≡ b

-- The multisets over A.
abbrev pub Bag {ℓ} : Type ℓ → Type ℓ
Bag A = Quot (Perm {A = A})

module _ {ℓ} {A : Type ℓ} {le : A → A → Bool} (o : IsOrder le) where
  le_refl : (x : A) → le x x ≡ true
  le_refl x = elim (Bool-cases (le x x)) [ inl e ↦ e | inr e ↦ o.total x x e ]

  le_mem : (z a : A) (xs : List A) → All (λ y. le z y ≡ true) xs → Mem a xs → le z a ≡ true
  le_mem z a [] h m = absurd (not-mem-nil m)
  le_mem z a (y ∷ ys) h m =
      Or.elim (hlevel) (eq-or-mem_of_mem-cons m) (λ e. rw e h.0) (λ k. le_mem z a ys h.1 k)

  -- The first element of an ascending vector is a lowest one.
  head_least : (x a : A) (xs : List A) → IsSorted le (x ∷ xs) → Mem a (x ∷ xs) → le x a ≡ true
  head_least x a xs s m = le_mem x a (x ∷ xs) (le_refl x, s.0) m

  -- A multiset has one ascending vector.
  pub sorted_unique :
      (xs ys : List A) → IsAntisymmetric le → IsSorted le xs → IsSorted le ys → Perm xs ys → xs ≡ ys
  sorted_unique [] ys anti s t p = Perm.nil-eq p
  sorted_unique (x ∷ xs) [] anti s t p = Perm.eq-nil p
  sorted_unique (x ∷ xs) (y ∷ ys) anti s t p =
      let xy = head_least x y xs s ((Perm.mem_iff p).1 mem-cons_self) in
      let yx = head_least y x ys t ((Perm.mem_iff p).0 mem-cons_self) in
      let same : x ≡ y = anti x y xy yx in
      let rest = sorted_unique xs ys anti s.1 t.1 (Perm.cons_inv (rw same at p)) in
      rw (same, rest) refl

  -- What the sort leaves.
  last : (v : List A) → Pass A
  last v = (bubble_sort-IsSorted o v).0

  -- Two vectors with the same elements, in whatever order, are sorted to the same vector.
  same_last : (u v : List A) → IsAntisymmetric le → Perm u v → (last u).v ≡ (last v).v
  unfolding last
  same_last u v anti p =
      let (s, _, su, pu, _) = bubble_sort-IsSorted o u in
      let (t, _, sv, pv, _) = bubble_sort-IsSorted o v in
      sorted_unique s.v t.v anti su sv (Perm.trans pu (Perm.trans p (Perm.symm pv)))

  sort_bag : IsSet A → IsAntisymmetric le → Bag A → List A
  sort_bag set anti = Quot.lift (is_set set) (λ v. (last v).v) (λ u v p. same_last u v anti p)

  -- For elements of a set with an antisymmetric order the sorted vector is a function of the multiset
  -- of the given elements alone. That function gives each multiset one of its vectors, and an ascending
  -- vector is the one that it gives.
  pub bubble_sort-Bag :
      IsSet A
      → IsAntisymmetric le
      → (f : Bag A → List A) × ((v : List A)
          → (s : Pass A) × (bubble_sort le v ≡ some s) × (s.v ≡ f (Quot.mk v)))
        × ((b : Bag A) → Quot.mk (f b) ≡ b)
        × ((v : List A) → IsSorted le v → f (Quot.mk v) ≡ v)
  unfolding sort_bag last
  bubble_sort-Bag set anti = (
    sort_bag set anti,
    λ v. (last v, (bubble_sort-IsSorted o v).1, refl),
    Quot.ind (λ b. Quot-set _ _) (λ v. Quot.sound ((bubble_sort-IsSorted o v).3)),
    λ v sorted.
        let (s, _, ascending, perm, _) = bubble_sort-IsSorted o v in
        sorted_unique s.v v anti ascending sorted perm,
  )
