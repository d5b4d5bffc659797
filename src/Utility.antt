-- ===== src/Utility.antt =====
-- include/base/utility.h: comparisons of pointers by what they point to, casts of shared pointers,
-- and access to optional values. An address is a number, and a null pointer is `none`.
pub mod Counts
pub mod Order
pub mod Optional
mod Idioms
mod Tests
use libpreempt.Prelude.{
  ℕ, ◌+◌, ◌≡◌, Bool, not, Option, none, some, List, [], ◌∷◌, ◌++◌, length, get_elem?, ◌==◌,
  if◌then◌else◌,
}
use libpreempt.Machine.{
  M, Run, World, Platform, aborted, ◌>>=◌, ◌>>◌, pure, throw, stop, platform, when,
}

-- The objects by address, and the use count of each control block.
pub record Memory {ℓ} (A : Type ℓ) : Type ℓ where
  pub objects : List A
  pub counts : ℕ → ℕ

abbrev pub deref {ℓ} : {A : Type ℓ} → Memory A → Option ℕ → Option A
deref m none = none
deref m (some a) = get_elem? m.objects a

-- A std::shared_ptr: the control block that it keeps alive, and what `get()` returns.
pub record SharedPtr : Type 0 where
  pub owner : Option ℕ
  pub get : Option ℕ

abbrev pub empty : SharedPtr
empty = record { owner = none; get = none }

abbrev pub compare {ℓ} : {A : Type ℓ} → (A → A → Bool) → Option A → Option A → Option Bool
compare c (some x) (some y) = some (c x y)
compare c none b = none
compare c (some x) none = none

-- `ptr_less`; `none` stands for an access through a pointer that points to no object.
unfoldable pub ptr_less {ℓ} :
    {A : Type ℓ} → (A → A → Bool) → Memory A → Option ℕ → Option ℕ → Option Bool
ptr_less c m a b = compare c (deref m a) (deref m b)

unfoldable pub shared_ptr_less {ℓ} :
    {A : Type ℓ} → (A → A → Bool) → Memory A → SharedPtr → SharedPtr → Option Bool
shared_ptr_less c m a b = compare c (deref m a.get) (deref m b.get)

abbrev pub bump : (ℕ → ℕ) → Option ℕ → ℕ → ℕ
bump counts none c = counts c
bump counts (some b) c = if b == c then counts c + 1 else counts c

-- The aliasing constructor of std::shared_ptr: it shares the ownership of `r`, and holds `p`.
abbrev pub alias {ℓ} : {A : Type ℓ} → SharedPtr → Option ℕ → Memory A → SharedPtr × Memory A
alias r p m = (record { owner = r.owner; get = p }, record m { counts = bump m.counts r.owner })

-- `dynamic_cast` of a pointer, where the cast of an object's address is given; null stays null.
abbrev pub cast_null : (ℕ → Option ℕ) → Option ℕ → Option ℕ
cast_null cast none = none
cast_null cast (some a) = cast a

abbrev pub alias_unless_null {ℓ} :
    {A : Type ℓ} → SharedPtr → Option ℕ → Memory A → SharedPtr × Memory A
alias_unless_null r none m = (empty, m)
alias_unless_null r (some p) m = alias r (some p) m

unfoldable pub ptr_cast {ℓ} :
    {A : Type ℓ} → (ℕ → Option ℕ) → SharedPtr → Memory A → SharedPtr × Memory A
ptr_cast cast r m = alias_unless_null r (cast_null cast r.get) m

-- `static_cast` always gives a pointer, and null for null.
unfoldable pub static_ptr_cast {ℓ} :
    {A : Type ℓ} → (ℕ → ℕ) → SharedPtr → Memory A → SharedPtr × Memory A
static_ptr_cast cast r m = alias r (cast_null (λ a. some (cast a)) r.get) m

-- `std::make_shared`: a new object with a control block of its own.
unfoldable pub make_atomic_ref {ℓ} : {A : Type ℓ} → A → Memory A → SharedPtr × Memory A
make_atomic_ref value m = (
  record { owner = some (length m.objects); get = some (length m.objects) },
  record {
    objects = m.objects ++ value ∷ [];
    counts = λ c. if length m.objects == c then 1 else m.counts c;
  },
)

-- `optional_value`: the assertion aborts a debug build; `value()` throws std::bad_optional_access.
unfoldable pub optional_value {ℓ} : {A : Type ℓ} → Option A → M A
optional_value o = do
  p ← platform
  elim o [ some a ↦ pure a | none ↦ if p.ndebug then throw else stop aborted ]

unfoldable pub optional_default {ℓ} : {A : Type ℓ} → Option A → A → A
optional_default (some a) def = a
optional_default none def = def
