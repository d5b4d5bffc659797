-- ===== src/Threading/Tests.antt =====
-- The theorems on `base::thread` and the scheduling functions at concrete platforms.
use libpreempt.Prelude.{
  ◌≡◌, refl, not, ◌&&◌, some, pos, ℕ, if◌then◌else◌, ℤ, pos_part, ◌+◌, ◌*◌, ◌/◌, ◌<◌, ap, arith,
  eqb_ℤ,
}
use libpreempt.Machine.{World, done, sched_other, sched_fifo, Call, failed}
use libpreempt.Machine.Samples.{calm, fresh}
use libpreempt.Threading.{create}
use libpreempt.Threading.Create.{last_handle, run_steps, creation, is_none, Follows, create-Follows}
use libpreempt.Threading.SelfTest.{
  text, check_units, thread_function, test_main, IsBinary, test_main_lem,
}
use libpreempt.Numeric.{Floating}
use native.Mathlib.Nat.{div_self}

create-Follows_example :
    Follows calm fresh (creation sched_fifo (pos 10) 1 2) (create sched_fifo (pos 10) (some 1) 2)
create-Follows_example = create-Follows sched_fifo (pos 10) 1 2 calm fresh refl

-- A number by its halves, for whole numbers that are not negative; a quotient is rounded down.
abbrev halves : Floating ℤ
halves = record {
  plus = λ a b. pos (pos_part a + pos_part b);
  multiply = λ a b. pos (pos_part a * (pos_part b / 2));
  divide = λ a b. pos (2 * (pos_part a / pos_part b));
  half = pos 1;
  floor = λ a. pos (pos_part a / 2);
  of_ℤ = λ a. pos (2 * pos_part a);
}

quotient_one : (n : ℕ) → 0 < n → 2 * ((2 * n) / (2 * n)) ≡ 2
quotient_one n h = let one : (2 * n) / (2 * n) ≡ 1 = div_self (omega arith) in omega (arith, one)

halves-IsBinary : IsBinary halves eqb_ℤ
halves-IsBinary = record {
  reflexive = λ n h. ground arith;
  product = λ n h. ap pos (omega arith);
  quotient = λ n z h. ap pos (quotient_one n z);
  rounding = λ n h. ap pos (omega arith);
}

test_main_lem_example :
    ((w' : World) × (test_main halves eqb_ℤ 1 2 calm fresh
        ≡ done
            (if is_none (run_steps calm (creation sched_other (pos 0) 1 2) fresh.calls).1
                && not (
                    failed (
                      calm.code (run_steps calm (creation sched_other (pos 0) 1 2) fresh.calls).0 (
                        Call.pthread_join (
                          last_handle calm
                            (run_steps calm (creation sched_other (pos 0) 1 2) fresh.calls).0))))
              then 0
              else 1)
            w'))
    × (check_units halves eqb_ℤ calm fresh ≡ done tt fresh)
    × (thread_function text calm fresh ≡ done tt fresh)
test_main_lem_example = test_main_lem halves eqb_ℤ 1 2 calm fresh halves-IsBinary refl
