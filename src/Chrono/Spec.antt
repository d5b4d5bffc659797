-- ===== src/Chrono/Spec.antt =====
-- What the timespec of include/base/chrono.h stands for.
use libpreempt.Prelude.{
  ◌+◌, ◌*◌, ◌≡◌, ◌<◌, refl, ℕ, ℤ, sub_ℕ, ◌+ℤ◌, +ℤ_parts, eq_of_parts, pos, negsuc, pos_part,
  neg_part, arith,
}
use libpreempt.Numeric.{Floating, round_to_nearest}
use libpreempt.Chrono.{timespec_to_nsec, Timespec, nsec_to_timespec}

-- What a timespec stands for, in nanoseconds; the parts of each sign apart.
abbrev pub positive : Timespec → ℕ
positive ts = pos_part ts.tv_sec * 1000000000 + pos_part ts.tv_nsec

abbrev pub negative : Timespec → ℕ
negative ts = neg_part ts.tv_sec * 1000000000 + neg_part ts.tv_nsec

-- The seconds and the nanoseconds of a timespec together are the nanoseconds that it was made of,
-- the sign included, and the nanoseconds are less than a second. From a negative number
-- both parts come out negative or 0, so that a nonzero `tv_nsec` is below 0.
pub nsec_to_timespec_lem :
    (ns : ℤ)
    → let ts : Timespec = nsec_to_timespec ns in
      (positive ts ≡ pos_part ns)
      × (negative ts ≡ neg_part ns)
      × (pos_part ts.tv_nsec < 1000000000)
      × (neg_part ts.tv_nsec < 1000000000)
unfolding nsec_to_timespec
nsec_to_timespec_lem (pos n) = (omega arith, refl, omega arith, omega arith)
nsec_to_timespec_lem (negsuc n) = (ground arith, ground arith, ground arith, ground arith)

-- s seconds in nanoseconds.
abbrev pub in_nanoseconds : ℤ → ℤ
in_nanoseconds (pos s) = pos (s * 1000000000)
in_nanoseconds (negsuc s) = sub_ℕ 0 ((s + 1) * 1000000000)

-- What binary64 has for whole seconds below 2 ^ 32 in size: their product with 1e9 has at most 53
-- significant bits and is exact, and the sum with .5 is rounded to a number with the same floor.
pub record IsExact {A : Type 0} (d : Floating A) : Type 0 where
  pub product :
      (s : ℤ)
      → pos_part s < 4294967296
      → neg_part s < 4294967296
      → d.multiply (d.of_ℤ s) (d.of_ℤ (pos 1000000000)) ≡ d.of_ℤ (in_nanoseconds s)
  pub rounding :
      (s : ℤ)
      → pos_part s < 4294967296
      → neg_part s < 4294967296
      → d.floor (d.plus (d.of_ℤ (in_nanoseconds s)) d.half) ≡ in_nanoseconds s

parts :
    (s : ℤ)
    → (pos_part (in_nanoseconds s) ≡ pos_part s * 1000000000)
      × (neg_part (in_nanoseconds s) ≡ neg_part s * 1000000000)
parts (pos s) = (refl, refl)
parts (negsuc s) = (ground arith, ground arith)

whole :
    (ts : Timespec) (ns : ℤ)
    → positive ts ≡ pos_part ns
    → negative ts ≡ neg_part ns
    → in_nanoseconds ts.tv_sec +ℤ ts.tv_nsec ≡ ns
whole ts ns h k =
    let (p, n) = parts ts.tv_sec in
    eq_of_parts _ ns (omega (arith, h, k, p, n, +ℤ_parts (in_nanoseconds ts.tv_sec) ts.tv_nsec))

-- To split nanoseconds into a timespec and to add them up again changes nothing, for fewer than
-- 2 ^ 32 seconds of either sign.
pub timespec_to_nsec-nsec_to_timespec :
    {A : Type 0} (d : Floating A) (ns : ℤ)
    → IsExact d
    → pos_part ns < 4294967296000000000
    → neg_part ns < 4294967296000000000
    → timespec_to_nsec d (nsec_to_timespec ns) ≡ ns
unfolding timespec_to_nsec round_to_nearest
timespec_to_nsec-nsec_to_timespec d ns exact h k =
    let (p, n, _, _) = nsec_to_timespec_lem ns in
    let s = (nsec_to_timespec ns).tv_sec in
    let small : pos_part s < 4294967296 = omega (arith, p) in
    let small' : neg_part s < 4294967296 = omega (arith, n) in
    rw (exact.product s small small', exact.rounding s small small')
      (whole (nsec_to_timespec ns) ns p n)
