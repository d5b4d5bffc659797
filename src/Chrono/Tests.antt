-- ===== src/Chrono/Tests.antt =====
-- The theorems on the clock at a clock that ticks once at each reading.
use libpreempt.Prelude.{
  ◌+◌, ◌*◌, ◌/◌, ℤ, List, sub_ℕ, ◌≡◌, refl, ℕ, pos, negsuc, pos_part, ◌+ℤ◌, ◌-ℤ◌, ◌≤ℤ◌, length,
  arith,
}
use libpreempt.Machine.{Platform, World, done, Call, put_calls}
use libpreempt.Machine.Samples.{calm, fresh}
use libpreempt.Chrono.{
  timespec_to_nsec, Stopwatch, Timeout, Benchmark, make_timeout, nsec_to_timespec,
}
use libpreempt.Chrono.Watch.{AreMicroseconds, Monotone, laps, laps_lem, stretches, sum}
use libpreempt.Numeric.{Floating}
use libpreempt.Chrono.Spec.{IsExact, in_nanoseconds, timespec_to_nsec-nsec_to_timespec}

-- Each call takes 1000 nanoseconds.
abbrev ticking : Platform
ticking = record calm { code = λ calls c. pos (length calls * 1000) }

ticking-Monotone : Monotone ticking
ticking-Monotone w = omega arith

abbrev idle : Stopwatch
idle = record { t0 = pos 0 }

laps_lem_example :
    (xs : List ℤ) × (last : Stopwatch) × (w' : World) × (m : ℕ) × (laps 2 idle ticking fresh
      ≡ done (xs, last) w')
    × AreMicroseconds xs (stretches 2 idle.t0 ticking fresh)
    × (sum xs ≡ pos m)
    × (pos (m * 1000) ≤ℤ last.t0 -ℤ idle.t0)
laps_lem_example = laps_lem 2 idle ticking fresh ticking-Monotone (omega arith)

abbrev soon : Timeout
soon = record { t1 = pos 5000 }

soon_made : make_timeout (pos 5) ticking fresh ≡ done soon (put_calls fresh Call.clock_now)
unfolding make_timeout ◌+ℤ◌
soon_made = refl

abbrev running : Benchmark
running = record { watch = idle; sum = pos 0 }

-- A number by its halves; the second factor of a product is a whole number that is not negative.
abbrev halves : Floating ℤ
halves = record {
  plus = λ a b. a +ℤ b;
  multiply = λ a b. elim a [
    | pos n ↦ pos (n * (pos_part b / 2))
    | negsuc n ↦ sub_ℕ 0 ((n + 1) * (pos_part b / 2))
  ];
  divide = λ a b. a;
  half = pos 1;
  floor = λ a. elim a [ pos n ↦ pos (n / 2) | negsuc n ↦ negsuc (n / 2) ];
  of_ℤ = λ a. elim a [ pos n ↦ pos (2 * n) | negsuc n ↦ negsuc (2 * n + 1) ];
}

halves-product :
    (s : ℤ)
    → halves.multiply (halves.of_ℤ s) (halves.of_ℤ (pos 1000000000))
      ≡ halves.of_ℤ (in_nanoseconds s)
halves-product (pos s) = ground arith
halves-product (negsuc s) = ground arith

halves-rounding : (s : ℤ) → halves.floor (halves.plus (halves.of_ℤ s) halves.half) ≡ s
unfolding ◌+ℤ◌
halves-rounding (pos s) = ground arith
halves-rounding (negsuc s) = ground arith

halves-IsExact : IsExact halves
halves-IsExact = record {
  product = λ s h k. halves-product s;
  rounding = λ s h k. halves-rounding (in_nanoseconds s);
}

timespec_to_nsec-nsec_to_timespec_example :
    timespec_to_nsec halves (nsec_to_timespec (negsuc 1499999999)) ≡ negsuc 1499999999
timespec_to_nsec-nsec_to_timespec_example =
    timespec_to_nsec-nsec_to_timespec halves (negsuc 1499999999) halves-IsExact (omega arith)
      (omega arith)
