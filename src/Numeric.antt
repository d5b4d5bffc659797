-- ===== src/Numeric.antt =====
-- include/base/numeric.h: rounding, clamping, intervals, and comparisons of floating-point numbers up to the
-- machine epsilon.
pub mod Laws
mod Tests
use libpreempt.Prelude.{
  Bool, true, false, not, ◌&&◌, ◌||◌, Option, none, some, ℤ, pos, negsuc, leb_ℤ, ◌-◌, ◌^◌,
  if◌then◌else◌,
}

-- `base::clamp`; `none` stands for the failed assertion of a build without NDEBUG.
unfoldable pub clamp {ℓ} : {A : Type ℓ} → (ndebug : Bool) → A → A → A → (A → A → Bool) → Option A
clamp ndebug v lo hi less =
    if not ndebug && less hi lo
    then none
    else some (if less v lo then lo else if less hi v then hi else v)

-- class interval
pub record Interval {ℓ} (A : Type ℓ) : Type ℓ where
  pub lower : A
  pub upper : A

unfoldable pub make_interval {ℓ} : {A : Type ℓ} → A → A → Interval A
make_interval low up = record { lower = low; upper = up }

-- `interval::clamp`; `less` is the default argument of `base::clamp`.
unfoldable pub clamp_into {ℓ} :
    {A : Type ℓ} → (ndebug : Bool) → (A → A → Bool) → Interval A → A → Option A
unfolding clamp
clamp_into ndebug less i v = clamp ndebug v i.lower i.upper less

-- `interval::contains`; `le` stands for the `<=` of the type.
unfoldable pub contains {ℓ} : {A : Type ℓ} → (A → A → Bool) → Interval A → A → Bool
contains le i value = le i.lower value && le value i.upper

-- What the comparisons use of `double`, <cmath> and <limits>.
pub record Arithmetic (A : Type 0) : Type 0 where
  pub less : A → A → Bool
  pub less_equal : A → A → Bool
  pub minus : A → A → A
  pub times : A → A → A
  pub fabs : A → A
  pub fmax : A → A → A
  pub epsilon : A
  pub zero : A

module _ {A : Type 0} (d : Arithmetic A) where
  unfoldable pub almost_equal : A → A → Bool
  almost_equal a b =
      let x = d.fabs (d.minus a b) in
      if d.less_equal x d.epsilon
      then true
      else d.less_equal x (d.times d.epsilon (d.fmax (d.fabs a) (d.fabs b)))

  unfoldable pub almost_zero : A → Bool
  unfolding almost_equal
  almost_zero a = almost_equal a d.zero

  unfoldable pub almost_lt : A → A → Bool
  unfolding almost_equal
  almost_lt a b = d.less a b && not (almost_equal a b)

  unfoldable pub almost_le : A → A → Bool
  unfolding almost_equal
  almost_le a b = d.less a b || almost_equal a b

  unfoldable pub almost_gt : A → A → Bool
  unfolding almost_equal
  almost_gt a b = d.less b a && not (almost_equal a b)

  unfoldable pub almost_ge : A → A → Bool
  unfolding almost_equal
  almost_ge a b = d.less b a || almost_equal a b

-- What the roundings and the conversions of include/base/chrono.h use of `double`: `+ .5`,
-- `std::floor` with the cast to an integer type, `*`, `/`, and the conversion from an integer.
pub record Floating (A : Type 0) : Type 0 where
  pub plus : A → A → A
  pub multiply : A → A → A
  pub divide : A → A → A
  pub half : A
  pub floor : A → ℤ
  pub of_ℤ : ℤ → A

unfoldable pub round_to_nearest : {A : Type 0} → Floating A → A → ℤ
round_to_nearest d n = d.floor (d.plus n d.half)

-- The cast to an integer type with the bounds `lo` and `hi` is undefined out of range: `none`.
abbrev pub in_range : ℤ → ℤ → ℤ → Option ℤ
in_range lo hi n = if leb_ℤ lo n && leb_ℤ n hi then some n else none

module _ {A : Type 0} (d : Floating A) where
  unfoldable pub round_to_int : A → Option ℤ
  unfolding round_to_nearest
  round_to_int n = in_range (negsuc (2 ^ 31 - 1)) (pos (2 ^ 31 - 1)) (round_to_nearest d n)

  unfoldable pub round_to_uint : A → Option ℤ
  unfolding round_to_nearest
  round_to_uint n = in_range (pos 0) (pos (2 ^ 32 - 1)) (round_to_nearest d n)

  -- `long` has 64 bits.
  unfoldable pub round_to_long : A → Option ℤ
  unfolding round_to_nearest
  round_to_long n = in_range (negsuc (2 ^ 63 - 1)) (pos (2 ^ 63 - 1)) (round_to_nearest d n)

  unfoldable pub round_to_ulong : A → Option ℤ
  unfolding round_to_nearest
  round_to_ulong n = in_range (pos 0) (pos (2 ^ 64 - 1)) (round_to_nearest d n)

  unfoldable pub round_to_int64 : A → Option ℤ
  unfolding round_to_nearest
  round_to_int64 n = in_range (negsuc (2 ^ 63 - 1)) (pos (2 ^ 63 - 1)) (round_to_nearest d n)

  unfoldable pub round_to_uint64 : A → Option ℤ
  unfolding round_to_nearest
  round_to_uint64 n = in_range (pos 0) (pos (2 ^ 64 - 1)) (round_to_nearest d n)
