-- ===== src/Compiler.antt =====
-- include/base/details/cc.h, the target systems of include/base/posix.h, include/standard.h and the two
-- headers for the signed warnings: what the preprocessor makes of them under a given compiler. A
-- macro is `none` where it is not defined, which counts as 0 in a condition.
pub mod Laws
pub mod Warnings
mod Tokens
mod Tests
use libpreempt.Prelude.{
  ℕ, ◌+◌, ◌*◌, Bool, true, false, not, ◌&&◌, ◌||◌, Option, none, some, List, [], ◌∷◌, ltb, leb,
  ◌==◌, if◌then◌else◌,
}

-- The macros that the compiler and its command line define.
pub record Predefined : Type 0 where
  pub gnuc : Option ℕ
  pub gnuc_minor : Option ℕ
  pub gnuc_patchlevel : Option ℕ
  pub gnu_source : Option ℕ  -- -D_GNU_SOURCE
  pub cplusplus : Option ℕ
  pub experimental_cxx0x : Option ℕ
  pub msc_ver : Option ℕ
  pub integral_max_bits : Option ℕ
  pub linux : Option ℕ
  pub cygwin : Option ℕ
  pub win32 : Option ℕ
  pub clang : Option ℕ  -- `intel` is any of the four macros of Intel's compiler
  pub intel : Option ℕ  -- `intel` is any of the four macros of Intel's compiler
  pub has_warning : Option Bool  -- __has_warning, and its answer for "-Wsign-compare"

abbrev pub value : Option ℕ → ℕ
value none = 0
value (some n) = n

abbrev pub is_defined {ℓ} : {A : Type ℓ} → Option A → Bool
is_defined none = false
is_defined (some a) = true

abbrev pub holds : Option ℕ → Bool
holds o = not (value o == 0)

-- `#error` and `#warning`.
pub data Diagnostic : Type 0 where
  gcc_too_old gnu_source_missing cxx98 cxx_unknown target_unknown : Diagnostic

-- The macros that the headers define, and the diagnostics so far, newest first.
pub record Preprocessed : Type 0 where
  pub cxx_17 : Option ℕ
  pub cxx_14 : Option ℕ
  pub cxx_11 : Option ℕ
  pub cxx_0x : Option ℕ
  pub std_atomic : Option ℕ
  pub long_long : Option ℕ
  pub under_linux : Option ℕ
  pub under_cygwin : Option ℕ
  pub under_windows : Option ℕ
  pub errors : List Diagnostic
  pub warnings : List Diagnostic

abbrev pub fail : Diagnostic → Preprocessed → Preprocessed
fail d u = record u { errors = d ∷ u.errors }

unfoldable pub test_gcc : Predefined → Preprocessed → Preprocessed
test_gcc p u =
    if ltb 4 (value p.gnuc)
      || (value p.gnuc == 4
          && (ltb 2 (value p.gnuc_minor)
              || (value p.gnuc_minor == 2 && leb 0 (value p.gnuc_patchlevel))))
    then u
    else fail gcc_too_old u

unfoldable pub test_posix : Predefined → Preprocessed → Preprocessed
test_posix p u = if is_defined p.gnu_source then u else fail gnu_source_missing u

unfoldable pub test_cxx : Predefined → Preprocessed → Preprocessed
test_cxx p u =
    if ltb 201402 (value p.cplusplus)
    then record u { cxx_17 = some 1 }
    else if value p.cplusplus == 201402
    then record u { cxx_14 = some 1 }
    else if value p.cplusplus == 201103
    then if holds p.experimental_cxx0x
      then record u { cxx_0x = some 1 }
      else record u { cxx_11 = some 1 }
    else if value p.cplusplus == 199711
    then fail cxx98 u
    else fail cxx_unknown u

-- A later standard has what an earlier one has.
unfoldable pub add_earlier : Preprocessed → Preprocessed
add_earlier u =
    let v : Preprocessed = if holds u.cxx_17 then record u { cxx_14 = some 1 } else u in
    if holds v.cxx_14 then record v { cxx_11 = some 1 } else v

unfoldable pub test_atomic : Preprocessed → Preprocessed
test_atomic u = record u {
  std_atomic = if holds u.cxx_11 || holds u.cxx_0x then some 1 else some 0;
}

-- A comparison counts as 1 or 0.
unfoldable pub test_long_long : Predefined → Preprocessed → Preprocessed
test_long_long p u =
    if holds p.gnuc && holds u.cxx_11
    then record u { long_long = some 1 }
    else if holds p.msc_ver
    then record u { long_long = some (if value p.integral_max_bits == 64 then 1 else 0) }
    else u

-- The header details/cc.h.
unfoldable pub cc : Predefined → Preprocessed → Preprocessed
unfolding test_gcc test_posix test_cxx add_earlier test_atomic test_long_long
cc p u = test_long_long p (test_atomic (add_earlier (test_cxx p (test_posix p (test_gcc p u)))))

-- The target system, at the head of posix.h.
unfoldable pub test_target : Predefined → Preprocessed → Preprocessed
test_target p u =
    if is_defined p.linux
    then record u { under_linux = some 1 }
    else if is_defined p.cygwin
    then record u { under_cygwin = some 1 }
    else if is_defined p.win32
    then record u { under_windows = some 1 }
    else record u { warnings = target_unknown ∷ u.warnings }

abbrev pub untouched : Preprocessed
untouched = record {
  cxx_17 = none;
  cxx_14 = none;
  cxx_11 = none;
  cxx_0x = none;
  std_atomic = none;
  long_long = none;
  under_linux = none;
  under_cygwin = none;
  under_windows = none;
  errors = [];
  warnings = [];
}

-- The headers that standard.h includes.
pub data Header : Type 0 where
  iostream thread memory mutex future map : Header

unfoldable pub standard : Preprocessed → List Header
standard u = if holds u.cxx_17 then iostream ∷ thread ∷ memory ∷ mutex ∷ future ∷ map ∷ [] else []
