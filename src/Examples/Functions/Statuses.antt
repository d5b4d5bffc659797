-- ===== src/Examples/Functions/Statuses.antt =====
-- The exit status of the test programs whose threads run VERIFY.
use libpreempt.Prelude.{ℕ, ◌≡◌, refl, ◌≤◌, true, ◌⊎◌, List, []}
use libpreempt.Verify.Laws.{all_true}
use libpreempt.Examples.Threads.{Action, System, Step, Reach, joins_all, conditions}
use libpreempt.Examples.Threads.Outcome.{cost, outcome_lem}
use libpreempt.Examples.Functions.{functions, nonstatic, arrays}

pub data Program : Type 0 where
  std_01 std_02 std_03 : Program

abbrev pub main_of : Program → List Action
main_of std_01 = functions
main_of std_02 = nonstatic
main_of std_03 = arrays

joins_right : (x : Program) → joins_all 0 (main_of x) ≡ true
joins_right std_01 = refl
joins_right std_02 = refl
joins_right std_03 = refl

all_hold : (x : Program) → all_true (conditions (main_of x)) ≡ true
all_hold std_01 = refl
all_hold std_02 = refl
all_hold std_03 = refl

-- Where the system starts and joins every thread: however the threads of std_01_thread.cc,
-- std_02_nonstatic.cc or std_03_array.cc are interleaved with `main`, the program goes on until
-- `main` has ended with the flag set, which is the status EXIT_SUCCESS, after at most as many steps
-- as its actions and conditions.
pub statuses_lem :
    (x : Program) (k : ℕ) (s : System)
    → Reach (main_of x) k s
    → (((s.main ≡ []) × (s.flag ≡ true)) ⊎ ((t : System) × Step s t)) × (k ≤ cost (main_of x))
statuses_lem x k s r =
    let (ends, few) = outcome_lem (main_of x) k s (joins_right x) r in
    (rw (all_hold x) at ends, few)
