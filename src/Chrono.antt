-- ===== src/Chrono.antt =====
-- include/base/chrono.h: stopwatches, timeouts and benchmarks over the readings of the clock, in
-- nanoseconds, and the split of nanoseconds into a timespec.
pub mod Watch
pub mod Bench
pub mod Spec
mod Tests
use libpreempt.Prelude.{ℕ, ◌+◌, ◌*◌, ◌/◌, ◌%◌, Bool, ℤ, pos, negsuc, sub_ℕ, ◌+ℤ◌, ◌-ℤ◌, leb_ℤ}
use libpreempt.Numeric.{Floating, round_to_nearest}
use libpreempt.Machine.{M, Platform, World, Run, Call, ◌>>=◌, pure, call}

-- `std::chrono::duration_cast` from nanoseconds to a unit of so many nanoseconds: towards zero.
unfoldable pub duration_cast : ℕ → ℤ → ℤ
duration_cast unit (pos n) = pos (n / unit)
duration_cast unit (negsuc n) = sub_ℕ 0 ((n + 1) / unit)

-- class stopwatch
pub record Stopwatch : Type 0 where
  pub t0 : ℤ

unfoldable pub start : Stopwatch → ℤ
start sw = sw.t0

-- `stopwatch::cast`
unfoldable pub cast : ℕ → Stopwatch → M ℤ
cast unit sw = do now ← call Call.clock_now; pure (duration_cast unit (now -ℤ sw.t0))

unfoldable pub seconds : Stopwatch → M ℤ
seconds sw = cast 1000000000 sw

unfoldable pub milliseconds : Stopwatch → M ℤ
milliseconds sw = cast 1000000 sw

unfoldable pub microseconds : Stopwatch → M ℤ
microseconds sw = cast 1000 sw

unfoldable pub nanoseconds : Stopwatch → M ℤ
nanoseconds sw = cast 1 sw

-- `stopwatch::stop`
unfoldable pub lap : Stopwatch → M (ℤ × Stopwatch)
lap sw = do result ← microseconds sw; now ← call Call.clock_now; pure (result, record { t0 = now })

-- The constructor: `t0_` starts at the clock's epoch.
unfoldable pub make_stopwatch : M Stopwatch
make_stopwatch = do (result, sw) ← lap (record { t0 = pos 0 }); pure sw

-- class timeout
pub record Timeout : Type 0 where
  pub t1 : ℤ

-- `std::chrono::microseconds {us}` in nanoseconds.
abbrev pub from_microseconds : ℤ → ℤ
from_microseconds (pos n) = pos (n * 1000)
from_microseconds (negsuc n) = sub_ℕ 0 ((n + 1) * 1000)

unfoldable pub make_timeout : ℤ → M Timeout
make_timeout us = do now ← call Call.clock_now; pure (record { t1 = now +ℤ from_microseconds us })

unfoldable pub reached : Timeout → M Bool
reached t = do now ← call Call.clock_now; pure (leb_ℤ t.t1 now)

-- `operator bool`
unfoldable pub is_reached : Timeout → M Bool
unfolding reached
is_reached t = reached t

-- class benchmark
pub record Benchmark : Type 0 where
  pub watch : Stopwatch  -- t0_
  pub sum : ℤ

unfoldable pub reset : Benchmark → M Benchmark
reset b = do sw ← make_stopwatch; pure (record { watch = sw; sum = pos 0 })

unfoldable pub count : Benchmark → ℤ
count b = b.sum

-- `benchmark::stop`
unfoldable pub stop : Benchmark → M (ℤ × Benchmark)
stop b = do
  n ← nanoseconds b.watch
  let after : Benchmark = record b { sum = b.sum +ℤ n }
  pure (count after, after)

pub record Timespec : Type 0 where
  pub tv_sec : ℤ
  pub tv_nsec : ℤ

-- `/` and `%` of C++ with a positive right side: the quotient towards zero, and its rest.
abbrev pub quotient : ℤ → ℕ → ℤ
quotient (pos n) d = pos (n / d)
quotient (negsuc n) d = sub_ℕ 0 ((n + 1) / d)

abbrev pub remainder : ℤ → ℕ → ℤ
remainder (pos n) d = pos (n % d)
remainder (negsuc n) d = sub_ℕ 0 ((n + 1) % d)

unfoldable pub nsec_to_timespec : ℤ → Timespec
nsec_to_timespec ns = record { tv_sec = quotient ns 1000000000; tv_nsec = remainder ns 1000000000 }

-- The conversions between the units; `double` is a parameter.
module _ {A : Type 0} (d : Floating A) where
  unfoldable pub sec_to_nsec : A → ℤ
  unfolding round_to_nearest
  sec_to_nsec n = round_to_nearest d (d.multiply n (d.of_ℤ (pos 1000000000)))

  unfoldable pub msec_to_nsec : A → ℤ
  unfolding round_to_nearest
  msec_to_nsec n = round_to_nearest d (d.multiply n (d.of_ℤ (pos 1000000)))

  unfoldable pub usec_to_nsec : A → ℤ
  unfolding round_to_nearest
  usec_to_nsec n = round_to_nearest d (d.multiply n (d.of_ℤ (pos 1000)))

  -- `sec_to_msec` and `msec_to_usec`
  unfoldable pub thousandfold : A → A
  thousandfold n = d.multiply n (d.of_ℤ (pos 1000))

  unfoldable pub sec_to_usec : A → A
  sec_to_usec n = d.multiply n (d.of_ℤ (pos 1000000))

  -- `msec_to_sec` and `usec_to_msec`
  unfoldable pub thousandth : A → A
  thousandth n = d.divide n (d.of_ℤ (pos 1000))

  unfoldable pub usec_to_sec : A → A
  usec_to_sec n = d.divide n (d.of_ℤ (pos 1000000))

  unfoldable pub nsec_to_sec : ℤ → A
  nsec_to_sec n = d.divide (d.of_ℤ n) (d.of_ℤ (pos 1000000000))

  unfoldable pub nsec_to_msec : ℤ → A
  nsec_to_msec n = d.divide (d.of_ℤ n) (d.of_ℤ (pos 1000000))

  unfoldable pub nsec_to_usec : ℤ → A
  nsec_to_usec n = d.divide (d.of_ℤ n) (d.of_ℤ (pos 1000))

  unfoldable pub timespec_to_nsec : Timespec → ℤ
  unfolding round_to_nearest
  timespec_to_nsec ts =
      round_to_nearest d (d.multiply (d.of_ℤ ts.tv_sec) (d.of_ℤ (pos 1000000000))) +ℤ ts.tv_nsec
