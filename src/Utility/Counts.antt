-- ===== src/Utility/Counts.antt =====
-- The use counts behind the casts of include/base/utility.h.
use libpreempt.Prelude.{
  ℕ, ◌+◌, ◌≤◌, ◌≡◌, Option, none, some, List, [], ◌∷◌, length, ◌==◌, if◌then◌else◌, arith,
  length-append, refl, get_elem?-append,
}
use libpreempt.Utility.{
  Memory, deref, SharedPtr, empty, bump, cast_null, alias, alias_unless_null, ptr_cast,
  static_ptr_cast, make_atomic_ref,
}

-- How many of the live pointers own a block.
abbrev pub owners : ℕ → List SharedPtr → ℕ
owners c [] = 0
owners c (r ∷ live) = elim r.owner [
  | none ↦ owners c live
  | some b ↦ if b == c then owners c live + 1 else owners c live
]

-- The use count of every block is the number of live pointers that own it, and blocks without an
-- object have none.
pub record Counted {ℓ} {A : Type ℓ} (m : Memory A) (live : List SharedPtr) : Type ℓ where
  pub counted : (c : ℕ) → m.counts c ≡ owners c live
  pub unborn : (c : ℕ) → length m.objects ≤ c → m.counts c ≡ 0

owners-alias :
    (counts : ℕ → ℕ) (owner get : Option ℕ) (live : List SharedPtr)
    → ((c : ℕ) → counts c ≡ owners c live)
    → (c : ℕ) → bump counts owner c ≡ owners c (record { owner = owner; get = get } ∷ live)
owners-alias counts none get live h c = h c
owners-alias counts (some b) get live h c = ground (arith, h c)

new_count :
    (n c count k : ℕ)
    → count ≡ k
    → (n ≡ c → count ≡ 0)
    → (if n == c then 1 else count) ≡ (if n == c then k + 1 else k)
new_count n c count k h z = ground arith

unborn_next :
    (n c k count : ℕ) → k ≡ n + 1 → k ≤ c → (n ≤ c → count ≡ 0) → (if n == c then 1 else count) ≡ 0
unborn_next n c k count e le z = ground arith

module _ {ℓ} {A : Type ℓ} where
  alias-Counted :
      (m : Memory A) (owner get p : Option ℕ) (live : List SharedPtr)
      → let r : SharedPtr = record { owner = owner; get = get } in
        Counted m (r ∷ live) → Counted (alias r p m).1 ((alias r p m).0 ∷ r ∷ live)
  alias-Counted m none get p live h = record { counted = h.counted; unborn = h.unborn }
  alias-Counted m (some b) get p live h = record {
    counted = λ c. ground (arith, h.counted c);
    unborn = λ c le. ground (arith, h.counted b, h.unborn c le);
  }

  empty-Counted : (m : Memory A) (live : List SharedPtr) → Counted m live → Counted m (empty ∷ live)
  empty-Counted m live h = record { counted = h.counted; unborn = h.unborn }

  alias_unless_null-Counted :
      (m : Memory A) (r : SharedPtr) (p : Option ℕ) (live : List SharedPtr)
      → Counted m (r ∷ live)
      → Counted (alias_unless_null r p m).1 ((alias_unless_null r p m).0 ∷ r ∷ live)
  alias_unless_null-Counted m r none live h = empty-Counted m (r ∷ live) h
  alias_unless_null-Counted m r (some p) live h = alias-Counted m r.owner r.get (some p) live h

  -- What the cast of a pointer gives: the empty pointer and the memory as it was where it fails, and
  -- the casted address, in the block of the given pointer, where it succeeds.
  pub data Casted (r : SharedPtr) (m : Memory A) (p : Option ℕ) (x : SharedPtr × Memory A)
      : Type ℓ where
    fails : p ≡ none → x ≡ (empty, m) → Casted r m p x
    shares :
        (a : ℕ)
        → p ≡ some a
        → x.0 ≡ record { owner = r.owner; get = some a }
        → x.1.objects ≡ m.objects
        → Casted r m p x

  ptr_cast-Casted :
      (p : Option ℕ) (r : SharedPtr) (m : Memory A) → Casted r m p (alias_unless_null r p m)
  ptr_cast-Casted none r m = fails refl refl
  ptr_cast-Casted (some a) r m = shares a refl refl refl

  -- A cast that fails gives the empty pointer; one that succeeds gives the casted address in the block
  -- of the given pointer, as a static cast always does, with null for null; and a new object has a block
  -- of its own, and the pointer to it points to its value. Behind each of the three the use count of
  -- every block is again the number of the live pointers that own it.
  pub casts-Counted :
      (m : Memory A) (r : SharedPtr) (live : List SharedPtr)
      → Counted m (r ∷ live)
      → ((cast : ℕ → Option ℕ)
          → Casted r m (cast_null cast r.get) (ptr_cast cast r m)
            × Counted (ptr_cast cast r m).1 ((ptr_cast cast r m).0 ∷ r ∷ live))
        × ((cast : ℕ → ℕ)
            → ((static_ptr_cast cast r m).0
                ≡ record { owner = r.owner; get = cast_null (λ a. some (cast a)) r.get })
              × Counted (static_ptr_cast cast r m).1 ((static_ptr_cast cast r m).0 ∷ r ∷ live))
        × ((value : A)
            → ((make_atomic_ref value m).0.owner ≡ some (length m.objects))
              × (deref (make_atomic_ref value m).1 (make_atomic_ref value m).0.get ≡ some value)
              × Counted (make_atomic_ref value m).1 ((make_atomic_ref value m).0 ∷ r ∷ live))
  unfolding ptr_cast static_ptr_cast make_atomic_ref
  casts-Counted m r live h = (
    λ cast. (
      ptr_cast-Casted (cast_null cast r.get) r m,
      alias_unless_null-Counted m r (cast_null cast r.get) live h,
    ),
    λ cast. (refl, alias-Counted m r.owner r.get (cast_null (λ a. some (cast a)) r.get) live h),
    λ value. (
      refl,
      get_elem?-append m.objects value [],
      record {
        counted = λ c.
            new_count (length m.objects) c (m.counts c) (owners c (r ∷ live)) (h.counted c)
              (λ e. h.unborn c (omega arith));
        unborn = λ c le.
            unborn_next (length m.objects) c _ (m.counts c) (length-append m.objects (value ∷ []))
              le (h.unborn c);
      },
    ),
  )
