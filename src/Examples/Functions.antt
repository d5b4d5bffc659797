-- ===== src/Examples/Functions.antt =====
-- What the threads of the test programs run, and the programs as their starts, joins and VERIFYs:
-- tests/std_01_thread.cc, tests/std_02_nonstatic.cc and tests/std_03_array.cc. The system is taken to
-- start and join every thread; an error of std::thread ends the program. A thread function stands as
-- the conditions that it verifies.
pub mod Statuses
mod Tests
use libpreempt.Prelude.{
  ℕ, zero, suc, ◌+◌, ◌*◌, Bool, true, false, ◌&&◌, not, none, some, List, [], ◌∷◌, ◌++◌, ◌==◌,
}
use libpreempt.Text.{Text}
use libpreempt.Text.Literal.{codes, same_text}
use libpreempt.Thread.{owns}
use libpreempt.Examples.Threads.{Action, start, join, verify}

-- std_01_thread.cc; `task1` and `task2` ignore what they return.
abbrev pub task1 : List Bool
task1 = []

abbrev pub task2 : Text → List Bool
task2 arg = same_text arg (codes "Om Gam Ganapataye Namaha") ∷ []

abbrev pub task3 : Text → ℕ → List Bool
task3 arg n = (n == 42) ∷ task2 arg

abbrev pub execute : Text → List Bool
execute arg = same_text arg (codes "example") ∷ []

-- The class Task of the first block of std_02_nonstatic.cc, and the member functions of the second,
-- which sleep.
abbrev pub run : Text → List Bool
run arg = same_text arg (codes "Om Sharavanabhavaya Namaha") ∷ []

abbrev pub foo : List Bool
foo = []

abbrev pub bar : List Bool
bar = []

-- The three operators `()` of std_03_array.cc.
abbrev pub function : List Bool
function = []

abbrev pub call_text : Text → List Bool
call_text arg = same_text arg (codes "example") ∷ []

abbrev pub call_number : ℕ → List Bool
call_number n = (n == 42) ∷ []

abbrev start_each : List (List Bool) → List Action
start_each [] = []
start_each (bs ∷ functions) = start bs ∷ start_each functions

-- The loop over an array of `n` threads, of which the first is the `i`-th of the program.
abbrev join_each : ℕ → ℕ → List Action
join_each i zero = []
join_each i (suc n) = join i ∷ join_each (suc i) n

abbrev pub functions : List Action
functions =
    start_each (
      task1
      ∷ task1
      ∷ task2 (codes "Om Gam Ganapataye Namaha")
      ∷ task3 (codes "Om Gam Ganapataye Namaha") 42
      ∷ [])
    ++ start (execute (codes "example")) ∷ join 4 ∷ join_each 0 4

abbrev pub run_once : ℕ → List Action
run_once i = start (run (codes "Om Sharavanabhavaya Namaha")) ∷ join i ∷ []

abbrev pub nonstatic : List Action
nonstatic = run_once 0 ++ run_once 1 ++ run_once 2 ++ start foo ∷ start bar ∷ join 3 ∷ join 4 ∷ []

-- The two loops over `tha2`, `n` rounds before their ends.
abbrev verify_idle : ℕ → List Action
verify_idle zero = []
verify_idle (suc n) = verify (not (owns none)) ∷ verify_idle n

abbrev fill : ℕ → List Action
fill zero = []
fill (suc n) = start (call_text (codes "example")) ∷ verify (owns (some n)) ∷ fill n

abbrev pub arrays : List Action
arrays =
    start_each (
      function
      ∷ call_text (codes "example")
      ∷ call_text (codes "example")
      ∷ call_number 42
      ∷ call_number 42
      ∷ [])
    ++ verify_idle 10
    ++ fill 10
    ++ join_each 0 5
    ++ join_each 5 10
