-- ===== src/Task/Poly.antt =====
-- `poly_task` of include/preempt/task.h over `preempt::thread`.
pub mod Laws
pub mod Spawning
use libpreempt.Prelude.{ℕ, Bool, List}
use libpreempt.Machine.{M}
use libpreempt.Thread.{Thread}
use libpreempt.Thread.Class.{preempt_thread}
use libpreempt.Task.Template.{poly_spawn, poly_join, poly_joinable}

abbrev pub spawn : ℕ → List Thread → M (List Thread)
spawn = poly_spawn preempt_thread

abbrev pub join : List Thread → M (List Thread)
join = poly_join preempt_thread

abbrev pub joinable : List Thread → Bool
joinable = poly_joinable preempt_thread

-- The protected access to the vector.
unfoldable pub threads : List Thread → List Thread
threads task = task
