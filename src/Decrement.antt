-- ===== src/Decrement.antt =====
-- tests/preempt_02_fifo.cc and tests/preempt_03_decrement.cc: threads that each verify and decrement
-- a global number. The order in which the threads run is a list of their expected values; under
-- SCHED_FIFO a thread is not interrupted by one of its own or a lower priority, so that a thread
-- runs as a whole. Creation and join are those of `base::thread` (Threading).
pub mod Laws
pub mod Program
pub mod Creation
pub mod Fifo
pub mod Scheduled
mod Tests
use libpreempt.Prelude.{
  ℕ, zero, suc, ◌+◌, Bool, true, false, ◌&&◌, ◌||◌, ◌==◌, List, [], ◌∷◌, length, ℤ, pos, negsuc,
  ◌-ℤ◌, eqb_ℤ, leb_ℤ, if◌then◌else◌,
}

pub record Shared : Type 0 where
  pub global_value : ℤ
  pub verified : Bool  -- base::g_verify_flag

abbrev pub verified_by : Bool → Shared → Shared
verified_by ok s = record s { verified = s.verified && ok }

-- `void* decrement(void *expected)`
unfoldable pub decrement : ℤ → Shared → Shared
decrement expected s =
    let checked : Shared = verified_by (eqb_ℤ s.global_value expected) s in
    record checked { global_value = checked.global_value -ℤ pos 1 }

-- The threads, in the order in which they run.
unfoldable pub schedule : List ℤ → Shared → Shared
unfolding decrement
schedule [] s = s
schedule (expected ∷ order) s = schedule order (decrement expected s)

-- `main` of preempt_02_fifo.cc, from the start value to the last VERIFY.
unfoldable pub fifo : List ℤ → Shared → Shared
unfolding schedule
fifo order s =
    let after : Shared = schedule order (record s { global_value = pos 9 }) in
    verified_by (eqb_ℤ after.global_value (negsuc 0)) after

-- The first loop of `run`, `rounds` before its end: the priorities of the table do not rise.
unfoldable pub verify_table : ℕ → ℤ → List ℤ → Shared → Shared
verify_table i before [] s = s
verify_table i before (priority ∷ table) s =
    verify_table (i + 1) priority table (verified_by (i == 0 || leb_ℤ priority before) s)

-- The same loop: the values that the N threads expect.
unfoldable pub expected_values : ℕ → ℕ → ℕ → List ℤ
expected_values n i zero = []
expected_values n i (suc rounds) = (pos n -ℤ pos i) ∷ expected_values n (i + 1) rounds

-- `run` of preempt_03_decrement.cc with its table, whose threads run in the order `order`.
unfoldable pub run : List ℤ → List ℤ → Shared → Shared
unfolding schedule verify_table
run table order s =
    let start : Shared =
      verify_table 0 (pos 0) table (record s { global_value = pos (length table) }) in
    let after : Shared = schedule order start in
    verified_by (eqb_ℤ after.global_value (pos 0)) after

-- Several runs after each other, each with its table and the order of its threads.
unfoldable pub run_each : List (List ℤ × List ℤ) → Shared → Shared
unfolding run
run_each [] s = s
run_each ((table, order) ∷ runs) s = run_each runs (run table order s)

-- The tables of `main` of preempt_03_decrement.cc, with the order of the threads of each.
abbrev pub runs_of : (a b c d e f : List ℤ) → List (List ℤ × List ℤ)
runs_of a b c d e f =
    (pos 1 ∷ pos 1 ∷ pos 1 ∷ [], a)
    ∷ (pos 10 ∷ pos 10 ∷ pos 10 ∷ [], b)
    ∷ (pos 30 ∷ pos 20 ∷ pos 10 ∷ [], c)
    ∷ (pos 30 ∷ pos 29 ∷ pos 28 ∷ pos 20 ∷ pos 19 ∷ pos 18 ∷ [], d)
    ∷ (pos 30 ∷ pos 20 ∷ pos 10 ∷ [], e)
    ∷ (pos 30 ∷ pos 29 ∷ pos 28 ∷ pos 27 ∷ pos 26 ∷ pos 25 ∷ [], f)
    ∷ []

-- `main` between the locks of the memory, and its exit status.
unfoldable pub exit_status_of : List (List ℤ × List ℤ) → ℕ
unfolding run_each
exit_status_of runs =
    if (run_each runs (record { global_value = pos 0; verified = true })).verified then 0 else 1
