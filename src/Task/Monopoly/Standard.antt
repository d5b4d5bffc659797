-- ===== src/Task/Monopoly/Standard.antt =====
-- The tasks over std::thread, and `test<std::thread>()` of tests/task_01_monopoly.cc.
use libpreempt.Prelude.{ℕ, Option, List}
use libpreempt.Machine.{M}
use libpreempt.Thread.Class.Standard.{std_thread}
use libpreempt.Task.Template as Template
use libpreempt.Task.Monopoly.{test_of}

-- mono_task<std::thread> and poly_task<std::thread>
abbrev pub mono_join : Option ℕ → M (Option ℕ)
mono_join = Template.mono_join std_thread

abbrev pub poly_join : List (Option ℕ) → M (List (Option ℕ))
poly_join = Template.poly_join std_thread

abbrev pub destroy_all : List (Option ℕ) → M (Unit {0})
destroy_all = Template.destroy_all std_thread

abbrev pub test : M (Unit {0})
test = test_of std_thread
