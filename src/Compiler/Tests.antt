-- ===== src/Compiler/Tests.antt =====
-- The theorems on the compiler tests at GCC 9 with -std=c++14, and at an old GCC.
use libpreempt.Prelude.{◌≡◌, refl, ◌<◌, ◌≤◌, ◌↔◌, ◌⊎◌, ◌≢◌, true, none, some, [], ◌∷◌}
use libpreempt.Compiler.{
  Predefined, untouched, value, is_defined, cc, gcc_too_old, gnu_source_missing, cxx_unknown,
}
use libpreempt.Compiler.Laws.{IsRecent, IsModern, cc_lem}
use libpreempt.Compiler.Warnings.{Text, ends, line, guarded, Warnings}

abbrev gcc9 : Predefined
gcc9 = record {
  gnuc = some 9;
  gnuc_minor = some 4;
  gnuc_patchlevel = some 0;
  gnu_source = some 1;
  cplusplus = some 201402;
  experimental_cxx0x = some 1;
  msc_ver = none;
  integral_max_bits = none;
  linux = some 1;
  cygwin = none;
  win32 = none;
  clang = none;
  intel = none;
  has_warning = none;
}

-- Without _GNU_SOURCE and with no standard given.
abbrev gcc41 : Predefined
gcc41 = record gcc9 { gnuc = some 4; gnuc_minor = some 1; gnu_source = none; cplusplus = none }

-- GCC 4.2.0 is let through, though the message asks for 4.9.2.
gcc42_accepted : (cc (record gcc9 { gnuc = some 4; gnuc_minor = some 2 }) untouched).errors ≡ []
unfolding cc
gcc42_accepted = refl

gcc41_errors : (cc gcc41 untouched).errors ≡ cxx_unknown ∷ gnu_source_missing ∷ gcc_too_old ∷ []
unfolding cc
gcc41_errors = refl

cc_lem_example :
    (((cc gcc9 untouched).errors ≡ [])
      ↔ (IsRecent gcc9 × (is_defined gcc9.gnu_source ≡ true) × IsModern gcc9))
    × ((cc gcc9 untouched).errors ≡ []
        → ((cc gcc9 untouched).std_atomic ≡ some 1)
          × (((cc gcc9 untouched).cxx_17 ≡ some 1) ↔ (201402 < value gcc9.cplusplus))
          × (((cc gcc9 untouched).cxx_14 ≡ some 1) ↔ (201402 ≤ value gcc9.cplusplus))
          × (((cc gcc9 untouched).cxx_11 ≡ some 1)
              ↔ ((201402 ≤ value gcc9.cplusplus) ⊎ (value gcc9.experimental_cxx0x ≡ 0)))
          × (((cc gcc9 untouched).cxx_0x ≡ some 1)
              ↔ ((value gcc9.cplusplus ≡ 201103) × (value gcc9.experimental_cxx0x ≢ 0)))
          × (((cc gcc9 untouched).long_long ≡ some 1) ↔ (
              ((cc gcc9 untouched).cxx_11 ≡ some 1)
              ⊎ ((value gcc9.msc_ver ≢ 0) × (value gcc9.integral_max_bits ≡ 64)))))
cc_lem_example = cc_lem gcc9

abbrev nested : Text
nested = guarded (line (guarded (line ends) (line ends))) (line ends)

abbrev warned : Warnings
warned = record { warns = true; kept = [] }
