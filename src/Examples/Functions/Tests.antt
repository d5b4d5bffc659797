-- ===== src/Examples/Functions/Tests.antt =====
-- The programs against the calls that the functions of Examples and Task make, and the theorems at
-- concrete runs.
use libpreempt.Prelude.{ℕ, zero, suc, ◌≡◌, ◌≤◌, refl, Bool, true, false, ◌⊎◌, List, [], ◌∷◌, ◌++◌}
use libpreempt.Machine.{Platform, Run, done, threw, stopped, Call}
use libpreempt.Machine.Samples.{calm, fresh}
use libpreempt.Task.Monopoly.Counts.{starts_in}
use libpreempt.Text.{Text}
use libpreempt.Text.Literal.{codes}
use libpreempt.Task.Template as Template
use libpreempt.Thread.Class.Standard as StdThread
use libpreempt.Verify as Verify
use libpreempt.Verify.{exit_status}
use libpreempt.Examples.{functions_main, nonstatic_main, array_main}
use libpreempt.Examples.Threads.{
  Action, System, Step, Reach, here, next, starts, runs, conditions, start, join, verify,
}
use libpreempt.Verify.Laws.{all_true}
use libpreempt.Examples.Threads.Outcome.{cost, outcome_lem}
use libpreempt.Examples.Functions.{
  task1, task2, task3, execute, run, run_once, foo, bar, call_text, call_number, function,
  functions, nonstatic, arrays,
}
use libpreempt.Examples.Functions.Statuses.{std_02, statuses_lem}

-- A thread gets as its handle the number of those started before.
abbrev numbering : Platform
numbering = record calm { handle = λ calls. starts_in calls }

-- The starts and joins of a trace, whose newest call comes first.
abbrev actions_in : (ℕ → List Bool) → List Call → List Action
actions_in body [] = []
actions_in body (c ∷ calls) = elim c [
  | Call.thread_start f ↦ actions_in body calls ++ start (body f) ∷ []
  | Call.thread_join h ↦ actions_in body calls ++ join h ∷ []
  | _ ↦ actions_in body calls
]

abbrev calls_of : {A : Type 0} → Run A → List Call
calls_of (done a w) = w.calls
calls_of (threw w) = w.calls
calls_of (stopped x w) = w.calls

abbrev without_verify : List Action → List Action
without_verify [] = []
without_verify (start bs ∷ rest) = start bs ∷ without_verify rest
without_verify (join i ∷ rest) = join i ∷ without_verify rest
without_verify (verify b ∷ rest) = without_verify rest

-- The functions of a program by their numbers.
abbrev body : List (List Bool) → ℕ → List Bool
body [] f = []
body (bs ∷ bodies) zero = bs
body (bs ∷ bodies) (suc f) = body bodies f

abbrev om : Text
om = codes "Om Gam Ganapataye Namaha"

functions_calls :
    actions_in
      (body (task3 om 42 ∷ task2 om ∷ task1 ∷ task1 ∷ execute (codes "example") ∷ []))
      (calls_of (functions_main numbering fresh))
    ≡ functions
unfolding functions_main starts_in exit_status StdThread.make StdThread.join Template.poly_join
    StdThread.destroy Template.destroy_all
functions_calls = refl

nonstatic_calls :
    actions_in
      (body ([] ∷ run (codes "Om Sharavanabhavaya Namaha") ∷ foo ∷ bar ∷ []))
      (calls_of (nonstatic_main numbering fresh))
    ≡ nonstatic
unfolding nonstatic_main starts_in exit_status StdThread.make StdThread.join StdThread.destroy
    StdThread.assign Template.mono_join Template.mono_joinable
nonstatic_calls = refl

arrays_calls :
    actions_in
      (body (
        call_number 42
        ∷ call_number 42
        ∷ call_text (codes "example")
        ∷ call_text (codes "example")
        ∷ function
        ∷ []))
      (calls_of (array_main numbering fresh))
    ≡ without_verify arrays
unfolding array_main starts_in exit_status Verify.verify StdThread.make StdThread.join
    StdThread.assign Template.poly_join StdThread.destroy Template.destroy_all
arrays_calls = refl

abbrev two : List Action
two = start (false ∷ []) ∷ start (true ∷ true ∷ []) ∷ join 0 ∷ join 1 ∷ []

-- The first thread has failed before the second is started.
abbrev failed : System
failed = record {
  flag = false;
  main = start (true ∷ true ∷ []) ∷ join 0 ∷ join 1 ∷ [];
  threads = [] ∷ [];
}

failed_reached : Reach two 2 failed
failed_reached = next (next here (starts (false ∷ []) _ refl)) (runs 0 false [] refl)

outcome_lem_example :
    (((failed.main ≡ []) × (failed.flag ≡ all_true (conditions two)))
      ⊎ ((t : System) × Step failed t))
    × (2 ≤ cost two)
outcome_lem_example = outcome_lem two 2 failed refl failed_reached

-- The first thread of std_02_nonstatic.cc has run, and `main` is about to join it.
abbrev ran_once : System
ran_once = record {
  flag = true;
  main = join 0 ∷ run_once 1 ++ run_once 2 ++ start foo ∷ start bar ∷ join 3 ∷ join 4 ∷ [];
  threads = [] ∷ [];
}

ran_once_reached : Reach nonstatic 2 ran_once
ran_once_reached = next (next here (starts _ _ refl)) (runs 0 true [] refl)

statuses_lem_example :
    (((ran_once.main ≡ []) × (ran_once.flag ≡ true)) ⊎ ((t : System) × Step ran_once t))
    × (2 ≤ cost nonstatic)
statuses_lem_example = statuses_lem std_02 2 ran_once ran_once_reached
