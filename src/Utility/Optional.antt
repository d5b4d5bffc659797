-- ===== src/Utility/Optional.antt =====
-- Access to optional values (include/base/utility.h).
use libpreempt.Prelude.{◌≡◌, refl, true, false, Option, none, some}
use libpreempt.Machine.{Platform, World, done, threw, stopped, aborted}
use libpreempt.Utility.{optional_value, optional_default}

some_inj {ℓ} : {A : Type ℓ} (x a : A) → some x ≡ some a → x ≡ a
some_inj x a e = cc

-- `optional_value` returns exactly the value that is there, which `optional_default` returns too,
-- whatever its default is. Where there is none, `optional_default` returns the default, and
-- `optional_value` throws in a build with NDEBUG and aborts in one without.
pub optional_lem {ℓ} :
    {A : Type ℓ} (o : Option A) (def : A) (p : Platform) (w : World)
    → ((a : A) → o ≡ some a → (optional_value o p w ≡ done a w) × (optional_default o def ≡ a))
      × (o ≡ none
          → (optional_default o def ≡ def)
            × (p.ndebug ≡ true → optional_value o p w ≡ threw w)
            × (p.ndebug ≡ false → optional_value o p w ≡ stopped aborted w))
unfolding optional_value optional_default
optional_lem none def p w = ((λ a e. cc), λ e. (refl, (λ n. rw n), (λ n. rw n)))
optional_lem (some x) def p w =
    ((λ a e. let same = some_inj x a e in rw same (refl, refl)), λ e. cc)
