-- ===== src/Compiler/Laws.antt =====
-- Which compilers details/cc.h accepts, and which macros it then defines; the target systems.
use libpreempt.Prelude.{◌≡◌, ◌<◌, ◌≤◌, ◌↔◌, ◌⊎◌, ◌≢◌, ℕ, true, Option, none, some, [], arith}
use libpreempt.Compiler.{
  Predefined, Preprocessed, untouched, value, is_defined, holds, cc, test_target, standard,
  test_gcc, test_posix, test_cxx, add_earlier, test_atomic, test_long_long,
}

-- GCC 4.2 or later, whatever its patch level.
abbrev pub IsRecent : Predefined → Type 0
IsRecent p = (4 < value p.gnuc) ⊎ ((value p.gnuc ≡ 4) × (2 ≤ value p.gnuc_minor))

-- C++11, or C++14 and anything behind it.
abbrev pub IsModern : Predefined → Type 0
IsModern p = (value p.cplusplus ≡ 201103) ⊎ (201402 ≤ value p.cplusplus)

pub errors_iff :
    (p : Predefined)
    → ((cc p untouched).errors ≡ []) ↔ (IsRecent p × (is_defined p.gnu_source ≡ true) × IsModern p)
unfolding cc
errors_iff p = ground arith

-- The macros for the standards.
pub standards :
    (p : Predefined)
    → (cc p untouched).errors ≡ []
    → (((cc p untouched).cxx_17 ≡ some 1) ↔ (201402 < value p.cplusplus))
      × (((cc p untouched).cxx_14 ≡ some 1) ↔ (201402 ≤ value p.cplusplus))
      × (((cc p untouched).cxx_11 ≡ some 1)
          ↔ ((201402 ≤ value p.cplusplus) ⊎ (value p.experimental_cxx0x ≡ 0)))
      × (((cc p untouched).cxx_0x ≡ some 1)
          ↔ ((value p.cplusplus ≡ 201103) × (value p.experimental_cxx0x ≢ 0)))
unfolding cc
standards p h = (ground arith, ground arith, ground arith, ground arith)

-- What is known of a flag that the headers define or leave undefined.
abbrev IsFlag : Option ℕ → Type 0
IsFlag o = (o ≡ none) ⊎ (o ≡ some 1)

long_long_iff :
    (p : Predefined) (u : Preprocessed)
    → value p.gnuc ≢ 0
    → u.long_long ≡ none
    → IsFlag u.cxx_11
    → let v = test_long_long p u in
      (v.long_long ≡ some 1)
      ↔ ((v.cxx_11 ≡ some 1) ⊎ ((value p.msc_ver ≢ 0) × (value p.integral_max_bits ≡ 64)))
unfolding test_long_long
long_long_iff p u g l f = ground arith

before_long_long :
    (p : Predefined)
    → let u = test_atomic (add_earlier (test_cxx p (test_posix p (test_gcc p untouched)))) in
      (u.long_long ≡ none) × IsFlag u.cxx_11
unfolding test_gcc test_posix test_cxx add_earlier test_atomic
before_long_long p = (ground arith, ground arith)

recent_nonzero : (p : Predefined) → IsRecent p → value p.gnuc ≢ 0
recent_nonzero p h = ground arith

features :
    (p : Predefined)
    → (cc p untouched).errors ≡ []
    → ((cc p untouched).std_atomic ≡ some 1)
      × (((cc p untouched).long_long ≡ some 1) ↔ (
          ((cc p untouched).cxx_11 ≡ some 1)
          ⊎ ((value p.msc_ver ≢ 0) × (value p.integral_max_bits ≡ 64))))
unfolding cc
features p h =
    let (none_yet, flag) = before_long_long p in
    (ground arith, long_long_iff p _ (recent_nonzero p ((errors_iff p).0 h).0) none_yet flag)

-- The compilers that the header accepts are GCC from 4.2 on, of any patch level, with _GNU_SOURCE
-- defined and with C++11, C++14 or a later standard. Under each of them HAVE_STD_ATOMIC is 1;
-- HAVE_CXX_17 is 1 behind C++14, HAVE_CXX_14 from C++14 on, HAVE_CXX_11 from C++14 on and for a C++11
-- that is not the experimental one, and HAVE_CXX_0X for that one alone; HAVE_LONG_LONG is 1 exactly
-- where HAVE_CXX_11 is, or where _MSC_VER is not 0 and _INTEGRAL_MAX_BITS is 64.
pub cc_lem :
    (p : Predefined)
    → let u = cc p untouched in
      ((u.errors ≡ []) ↔ (IsRecent p × (is_defined p.gnu_source ≡ true) × IsModern p))
      × (u.errors ≡ []
          → (u.std_atomic ≡ some 1)
            × ((u.cxx_17 ≡ some 1) ↔ (201402 < value p.cplusplus))
            × ((u.cxx_14 ≡ some 1) ↔ (201402 ≤ value p.cplusplus))
            × ((u.cxx_11 ≡ some 1)
                ↔ ((201402 ≤ value p.cplusplus) ⊎ (value p.experimental_cxx0x ≡ 0)))
            × ((u.cxx_0x ≡ some 1)
                ↔ ((value p.cplusplus ≡ 201103) × (value p.experimental_cxx0x ≢ 0)))
            × ((u.long_long ≡ some 1) ↔ (
                (u.cxx_11 ≡ some 1) ⊎ ((value p.msc_ver ≢ 0) × (value p.integral_max_bits ≡ 64)))))
cc_lem p = (
  errors_iff p,
  λ h.
      let (c17, c14, c11, c0x) = standards p h in
      let (atomic, long) = features p h in (atomic, c17, c14, c11, c0x, long),
)

-- standard.h includes its headers exactly behind C++14.
standard_iff : (p : Predefined) → (standard (cc p untouched) ≢ []) ↔ (201402 < value p.cplusplus)
unfolding cc standard
standard_iff p = ground arith

-- At most one target is defined; none exactly where the header warns; and the test of a target by its
-- value (`#if`) agrees with the test of its definition (`#ifdef`).
test_target_lem :
    (p : Predefined)
    → let u = test_target p untouched in
      ((u.warnings ≡ [])
        ↔ ((u.under_linux ≡ some 1) ⊎ (u.under_cygwin ≡ some 1) ⊎ (u.under_windows ≡ some 1)))
      × (u.under_linux ≡ some 1 → (u.under_cygwin ≡ none) × (u.under_windows ≡ none))
      × (u.under_cygwin ≡ some 1 → u.under_windows ≡ none)
      × (holds u.under_linux ≡ is_defined u.under_linux)
unfolding test_target
test_target_lem p = (ground arith, (λ h. ground arith), (λ h. ground arith), ground arith)
