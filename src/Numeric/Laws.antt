-- ===== src/Numeric/Laws.antt =====
-- What the comparisons and `clamp` of include/base/numeric.h promise.
use libpreempt.Prelude.{
  ◌≡◌, refl, Bool, true, false, Bool-cases, inl, inr, not, ◌&&◌, ◌||◌, some, arith,
}
use libpreempt.Numeric.{
  clamp, Arithmetic, almost_equal, almost_lt, almost_le, almost_gt, almost_ge, Interval, contains,
}

and_false : (b : Bool) → b && false ≡ false
and_false b = ground arith

-- Where nothing is less than itself and the bounds are in order, `clamp` returns, in both builds;
-- the interval of the bounds contains the result, which is `v` if the interval contains `v`, and to
-- clamp it again does not change it. (`<=` is read as the negation of `less` the other way round.)
clamp_lem {ℓ} :
    {A : Type ℓ} (less : A → A → Bool) (ndebug : Bool) (v lo hi : A)
    → ((a : A) → less a a ≡ false)
    → less hi lo ≡ false
    → let le : A → A → Bool = λ a b. not (less b a) in
      let i : Interval A = record { lower = lo; upper = hi } in
      (r : A) × (clamp ndebug v lo hi less ≡ some r)
      × (contains le i r ≡ true)
      × (contains le i v ≡ true → r ≡ v)
      × (clamp ndebug r lo hi less ≡ some r)
unfolding clamp contains
clamp_lem less ndebug v lo hi irr ok = elim (Bool-cases (less v lo)) [
  | inl a ↦ (
    lo,
    simp (ok, and_false, a),
    rw (irr lo, ok),
    (λ e. absurd (ground arith)),
    simp (ok, and_false, irr lo, ok),
  )
  | inr a ↦ elim (Bool-cases (less hi v)) [
    | inl b ↦ (
      hi,
      simp (ok, and_false, a, b),
      rw (ok, irr hi),
      (λ e. absurd (ground arith)),
      simp (ok, and_false, irr hi),
    )
    | inr b ↦ (v, simp (ok, and_false, a, b), rw (a, b), (λ e. refl), simp (ok, and_false, a, b))
  ]
]

-- What the comparisons need of the arithmetic: as for numbers that are not NaN, `<` goes one way
-- only, the difference of two numbers has the same size both ways, the larger of two is the same both
-- ways, and numbers of which none is less differ by no more than the epsilon.
pub record IsOrdered {A : Type 0} (d : Arithmetic A) : Type 0 where
  pub less_asym : (a b : A) → d.less a b ≡ true → d.less b a ≡ false
  pub distance_sym : (a b : A) → d.fabs (d.minus a b) ≡ d.fabs (d.minus b a)
  pub fmax_sym : (a b : A) → d.fmax a b ≡ d.fmax b a
  pub close :
      (a b : A)
      → d.less a b ≡ false
      → d.less b a ≡ false
      → d.less_equal (d.fabs (d.minus a b)) d.epsilon ≡ true

module _ {A : Type 0} {d : Arithmetic A} (o : IsOrdered d) where
  almost_equal_sym : (a b : A) → almost_equal d a b ≡ almost_equal d b a
  unfolding almost_equal
  almost_equal_sym a b = rw (o.distance_sym a b, o.fmax_sym (d.fabs a) (d.fabs b))

  close_equal : (a b : A) → d.less a b ≡ false → d.less b a ≡ false → almost_equal d a b ≡ true
  unfolding almost_equal
  close_equal a b h k = rw (o.close a b h k)

abbrev pub exactly_one : Bool → Bool → Bool → Bool
exactly_one a b c = (a && not b && not c) || (not a && b && not c) || (not a && not b && c)

compared :
    (lt gt eq : Bool)
    → (lt ≡ true → gt ≡ false)
    → (lt ≡ false → gt ≡ false → eq ≡ true)
    → (exactly_one (lt && not eq) eq (gt && not eq) ≡ true)
      × ((lt || eq) ≡ not (gt && not eq))
      × ((gt || eq) ≡ not (lt && not eq))
compared lt gt eq h k = ground arith

-- For two numbers exactly one of `almost_lt`, `almost_equal` and `almost_gt` holds; `almost_le` is
-- the negation of `almost_gt` and `almost_ge` that of `almost_lt`; `almost_gt` is `almost_lt` with
-- its arguments exchanged.
almost_lem :
    {A : Type 0} (d : Arithmetic A) (a b : A)
    → IsOrdered d
    → (exactly_one (almost_lt d a b) (almost_equal d a b) (almost_gt d a b) ≡ true)
      × (almost_le d a b ≡ not (almost_gt d a b))
      × (almost_ge d a b ≡ not (almost_lt d a b))
      × (almost_gt d a b ≡ almost_lt d b a)
unfolding almost_lt almost_gt almost_le almost_ge
almost_lem d a b o =
    let (one, le, ge) =
      compared (d.less a b) (d.less b a) (almost_equal d a b) (o.less_asym a b)
        (close_equal o a b) in
    (one, le, ge, rw (almost_equal_sym o a b))
