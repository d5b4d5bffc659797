-- ===== src/Task/Mono.antt =====
-- `mono_task` of include/preempt/task.h over `preempt::thread`.
pub mod Laws
use libpreempt.Prelude.{ℕ, Bool}
use libpreempt.Machine.{M}
use libpreempt.Thread.{Thread}
use libpreempt.Thread.Class.{preempt_thread}
use libpreempt.Task.Template.{mono_joinable, mono_join, mono_spawn}

abbrev pub joinable : Thread → Bool
joinable = mono_joinable preempt_thread

abbrev pub join : Thread → M Thread
join = mono_join preempt_thread

abbrev pub spawn : ℕ → Thread → M Thread
spawn = mono_spawn preempt_thread

-- The protected access to the member.
unfoldable pub thread : Thread → Thread
thread task = task
