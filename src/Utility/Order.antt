-- ===== src/Utility/Order.antt =====
-- Pointers ordered by what they point to (include/base/utility.h).
use libpreempt.Prelude.{ℕ, ◌≡◌, refl, ap, arith, Bool, true, false, Option, none, some}
use libpreempt.Utility.{Memory, deref, SharedPtr, compare, ptr_less, shared_ptr_less}

module _ {ℓ} {A : Type ℓ} (c : A → A → Bool) where
  -- What a comparison must be for std::set and std::sort.
  pub record IsStrict : Type ℓ where
    pub irrefl : (x : A) → c x x ≡ false
    pub trans : (x y z : A) → c x y ≡ true → c y z ≡ true → c x z ≡ true

  compare_same :
      IsStrict → (x y : Option A) → x ≡ y → (b : Bool) → compare c x y ≡ some b → b ≡ false
  compare_same h none y e b q = cc
  compare_same h (some x) none e b q = cc
  compare_same h (some x) (some y) e b q = ground (arith, h.irrefl x)

  compare_trans :
      IsStrict
      → (x y z : Option A) → compare c x y ≡ some true
      → compare c y z ≡ some true
      → compare c x z ≡ some true
  compare_trans h none y z p q = cc
  compare_trans h (some x) none z p q = cc
  compare_trans h (some x) (some y) none p q = cc
  compare_trans h (some x) (some y) (some z) p q = ap some (h.trans x y z (cc) (cc))

  -- Both comparisons order pointers as `c` orders the objects: they are transitive, and two pointers
  -- to equal objects are in neither order, whatever their addresses are.
  pub ptr_less-IsStrict :
      (m : Memory A)
      → IsStrict
      → ((a b d : Option ℕ)
          → ptr_less c m a b ≡ some true
          → ptr_less c m b d ≡ some true
          → ptr_less c m a d ≡ some true)
        × ((a b : Option ℕ) (r : Bool)
            → deref m a ≡ deref m b
            → ptr_less c m a b ≡ some r
            → r ≡ false)
        × ((a b : SharedPtr) → shared_ptr_less c m a b ≡ ptr_less c m a.get b.get)
  unfolding ptr_less shared_ptr_less
  ptr_less-IsStrict m h = (
    (λ a b d p q. compare_trans h (deref m a) (deref m b) (deref m d) p q),
    (λ a b r e p. compare_same h (deref m a) (deref m b) e r p),
    λ a b. refl,
  )
