-- ===== src/Numeric/Tests.antt =====
-- The theorems on numbers at integers, with an epsilon of 1 and no adaptive part.
use libpreempt.Prelude.{
  ◌≡◌, true, false, ℤ, pos, ◌-ℤ◌, ltb_ℤ, leb_ℤ, pos_part, neg_part, if◌then◌else◌, arith, ◌+◌,
}
use libpreempt.Numeric.{Arithmetic}
use libpreempt.Numeric.Laws.{IsOrdered}

abbrev integers : Arithmetic ℤ
integers = record {
  less = ltb_ℤ;
  less_equal = leb_ℤ;
  minus = λ a b. a -ℤ b;
  times = λ a b. pos 0;
  fabs = λ a. pos (pos_part a + neg_part a);
  fmax = λ a b. if ltb_ℤ a b then b else a;
  epsilon = pos 1;
  zero = pos 0;
}

less_asym : (a b : ℤ) → ltb_ℤ a b ≡ true → ltb_ℤ b a ≡ false
less_asym a b h = ground arith

distance_sym : (a b : ℤ) → integers.fabs (a -ℤ b) ≡ integers.fabs (b -ℤ a)
unfolding ◌-ℤ◌
distance_sym a b = ground arith

fmax_sym : (a b : ℤ) → integers.fmax a b ≡ integers.fmax b a
fmax_sym a b = ground arith

close :
    (a b : ℤ)
    → ltb_ℤ a b ≡ false
    → ltb_ℤ b a ≡ false
    → leb_ℤ (integers.fabs (a -ℤ b)) (pos 1) ≡ true
unfolding ◌-ℤ◌
close a b h k = ground arith

integers-IsOrdered : IsOrdered integers
integers-IsOrdered = record {
  less_asym = less_asym;
  distance_sym = distance_sym;
  fmax_sym = fmax_sym;
  close = close;
}

less_irrefl : (a : ℤ) → ltb_ℤ a a ≡ false
less_irrefl a = ground arith
