-- ===== src/Compiler/Warnings.antt =====
-- include/base/details/cc_signed_warnings_on.h and cc_signed_warnings_off.h: the pragmas of the two
-- headers, and what they leave of the warnings of the code between and behind them.
use libpreempt.Prelude.{
  ◌≡◌, refl, ◌+◌, ◌*◌, Bool, true, false, not, ◌&&◌, ◌||◌, Option, none, some, List, [], ◌∷◌, leb,
  if◌then◌else◌, arith,
}
use libpreempt.Compiler.{Predefined, value, is_defined}

-- `#pragma warning(...)` or `#pragma ... diagnostic ...`; `ignore` is that of the comparison of
-- signed and unsigned.
pub data Pragma : Type 0 where
  push ignore pop : Pragma

abbrev pub has_sign_compare : Option Bool → Bool
has_sign_compare none = false
has_sign_compare (some answer) = answer

-- The condition of the last branch of both headers.
abbrev pub is_gcc_46 : Predefined → Bool
is_gcc_46 p =
    is_defined p.gnuc
    && not (is_defined p.intel)
    && leb 406 (value p.gnuc * 100 + value p.gnuc_minor)

unfoldable pub warnings_on : Predefined → List Pragma
warnings_on p =
    if is_defined p.msc_ver
    then push ∷ ignore ∷ []
    else if is_defined p.clang && is_defined p.has_warning
    then if has_sign_compare p.has_warning then push ∷ ignore ∷ [] else []
    else if is_gcc_46 p
    then push ∷ ignore ∷ []
    else []

unfoldable pub warnings_off : Predefined → List Pragma
warnings_off p =
    if is_defined p.msc_ver
    then pop ∷ []
    else if is_defined p.clang && is_defined p.has_warning
    then if has_sign_compare p.has_warning then pop ∷ [] else []
    else if is_gcc_46 p
    then pop ∷ []
    else []

-- Whether the compiler warns, and what the pushes have kept. A `pop` without a `push` goes back to
-- the command line, which is not modelled: no theorem meets it.
pub record Warnings : Type 0 where
  pub warns : Bool
  pub kept : List Bool

abbrev pub follow : Pragma → Warnings → Warnings
follow push s = record s { kept = s.warns ∷ s.kept }
follow ignore s = record s { warns = false }
follow pop s = elim s.kept [ [] ↦ s | b ∷ bs ↦ record { warns = b; kept = bs } ]

abbrev pub follow_all : List Pragma → Warnings → Warnings
follow_all [] s = s
follow_all (x ∷ xs) s = follow_all xs (follow x s)

-- A text of the program: a line, or a text between the two headers, and what follows.
pub data Text : Type 0 where
  ends : Text
  line : Text → Text
  guarded : Text → Text → Text

-- The warnings behind a text.
unfoldable pub behind : Predefined → Text → Warnings → Warnings
unfolding warnings_on warnings_off
behind p ends s = s
behind p (line rest) s = behind p rest s
behind p (guarded inner rest) s =
    behind p rest (follow_all (warnings_off p) (behind p inner (follow_all (warnings_on p) s)))

-- The compilers under which the headers have an effect.
abbrev pub is_handled : Predefined → Bool
is_handled p =
    is_defined p.msc_ver
    || (if is_defined p.clang && is_defined p.has_warning
        then has_sign_compare p.has_warning
        else is_gcc_46 p)

-- The two headers take the same branch.
branches :
    (p : Predefined)
    → (warnings_on p ≡ (if is_handled p then push ∷ ignore ∷ [] else []))
      × (warnings_off p ≡ (if is_handled p then pop ∷ [] else []))
unfolding warnings_on warnings_off
branches p = (ground arith, ground arith)

around :
    (handled : Bool) (s : Warnings)
    → follow_all
        (if handled then pop ∷ [] else [])
        (follow_all (if handled then push ∷ ignore ∷ [] else []) s)
      ≡ s
around true s = refl
around false s = refl

restored : (p : Predefined) (t : Text) (s : Warnings) → behind p t s ≡ s
unfolding behind
restored p ends s = refl
restored p (line rest) s = restored p rest s
restored p (guarded inner rest) s =
    rw
      (
        restored p inner (follow_all (warnings_on p) s),
        (branches p).0,
        (branches p).1,
        around (is_handled p) s,
      )
      (restored p rest s)

within :
    (handled : Bool) (s : Warnings)
    → (follow_all (if handled then push ∷ ignore ∷ [] else []) s).warns ≡ (s.warns && not handled)
within true s = ground arith
within false s = ground arith

-- Under each compiler, and however deep the guarded texts stand in each other, the warnings behind a
-- text are those before it; inside a guarded text they are off under the compilers that the headers
-- handle, and under the others as before.
behind_restored :
    (p : Predefined) (t : Text) (s : Warnings)
    → (behind p t s ≡ s) × ((follow_all (warnings_on p) s).warns ≡ (s.warns && not (is_handled p)))
behind_restored p t s = (restored p t s, rw (branches p).0 (within (is_handled p) s))
