-- ===== src/Chrono/Bench.antt =====
-- What the benchmark of include/base/chrono.h adds up.
use libpreempt.Prelude.{ℕ, zero, suc, ◌≡◌, ℤ, pos, negsuc, ◌+ℤ◌, ◌-ℤ◌, int_laws, arith}
use libpreempt.Machine.{M, Platform, World, done, Call, ◌>>=◌, pure, put_calls}
use libpreempt.Chrono.{duration_cast, cast, nanoseconds, Benchmark, stop}
use libpreempt.Chrono.Watch.{reading}

-- n stops in a row.
pub stops : ℕ → Benchmark → M Benchmark
stops zero b = pure b
stops (suc n) b = do (elapsed, after) ← stop b; stops n after

abbrev pub behind : ℕ → World → World
behind zero w = w
behind (suc n) w = behind n (put_calls w Call.clock_now)

-- The sum of the times from `t0` to each of the next n readings of the clock.
abbrev pub overlapping : ℕ → ℤ → Platform → World → ℤ
overlapping zero t0 p w = pos 0
overlapping (suc n) t0 p w = (reading p w -ℤ t0) +ℤ overlapping n t0 p (put_calls w Call.clock_now)

duration_cast_1 : (n : ℤ) → duration_cast 1 n ≡ n
unfolding duration_cast
duration_cast_1 (pos n) = ground arith
duration_cast_1 (negsuc n) = ground arith

add_assoc : (a b c : ℤ) → a +ℤ b +ℤ c ≡ a +ℤ (b +ℤ c)
add_assoc a b c = omega int_laws

add_zero : (a : ℤ) → a +ℤ pos 0 ≡ a
add_zero a = omega int_laws

stop_lem :
    (b : Benchmark) (p : Platform) (w : World)
    → let sum : ℤ = b.sum +ℤ (reading p w -ℤ b.watch.t0) in
      stop b p w ≡ done (sum, record b { sum = sum }) (put_calls w Call.clock_now)
unfolding stop nanoseconds cast libpreempt.Chrono.count
stop_lem b p w = rw duration_cast_1

-- `stop` does not start the watch of the benchmark again: n stops add the time from the last
-- `reset` to the first of them, from the last `reset` to the second, and so on.
stops_lem :
    (n : ℕ) (b : Benchmark) (p : Platform) (w : World)
    → stops n b p w ≡ done (record b { sum = b.sum +ℤ overlapping n b.watch.t0 p w }) (behind n w)
unfolding stops
stops_lem zero b p w = rw add_zero
stops_lem (suc n) b p w =
    rw (stop_lem b p w, stops_lem n _ p (put_calls w Call.clock_now), add_assoc)
