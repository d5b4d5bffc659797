-- ===== src/Utility/Tests.antt =====
-- The theorems on pointers and optional values at concrete memories.
use libpreempt.Prelude.{ℕ, Option, none, some, [], ◌∷◌, arith, length, ◌≡◌, ◌==◌, if◌then◌else◌}
use libpreempt.Utility.{
  Memory, SharedPtr, cast_null, deref, ptr_cast, static_ptr_cast, make_atomic_ref,
}
use libpreempt.Utility.Counts.{Casted, Counted, casts-Counted}

-- One object, 42, at address 0, owned once.
abbrev one_object : Memory ℕ
one_object = record { objects = 42 ∷ []; counts = λ c. if c == 0 then 1 else 0 }

abbrev owner : SharedPtr
owner = record { owner = some 0; get = some 0 }

one_object-Counted : Counted one_object (owner ∷ [])
one_object-Counted = record { counted = λ c. ground arith; unborn = λ c le. ground arith }

casts-Counted_example :
    ((cast : ℕ → Option ℕ)
      → Casted owner one_object (cast_null cast owner.get) (ptr_cast cast owner one_object)
        × Counted
            (ptr_cast cast owner one_object).1
            ((ptr_cast cast owner one_object).0 ∷ owner ∷ []))
    × ((cast : ℕ → ℕ)
        → ((static_ptr_cast cast owner one_object).0
            ≡ record { owner = owner.owner; get = cast_null (λ a. some (cast a)) owner.get })
          × Counted
              (static_ptr_cast cast owner one_object).1
              ((static_ptr_cast cast owner one_object).0 ∷ owner ∷ []))
    × ((value : ℕ)
        → ((make_atomic_ref value one_object).0.owner ≡ some (length one_object.objects))
          × (deref (make_atomic_ref value one_object).1 (make_atomic_ref value one_object).0.get
              ≡ some value)
          × Counted
              (make_atomic_ref value one_object).1
              ((make_atomic_ref value one_object).0 ∷ owner ∷ []))
casts-Counted_example = casts-Counted one_object owner [] one_object-Counted

abbrev three_objects : Memory ℕ
three_objects = record { objects = 1 ∷ 2 ∷ 3 ∷ []; counts = λ c. 0 }

abbrev nothing : Option ℕ
nothing = none
