-- ===== src/Task/Critical.antt =====
-- `critical_task<Us>` of include/preempt/task.h: a real-time task that measures itself. The clock
-- counts nanoseconds; `duration_cast` to microseconds rounds towards zero.
pub mod Laws
pub mod Program
pub mod Sorting
use libpreempt.Prelude.{
  ℕ, ◌+◌, ◌-◌, ◌*◌, ◌/◌, ◌≡◌, Bool, some, ℤ, pos, negsuc, sub_ℕ, pos_part, neg_part, ◌+ℤ◌, ◌-ℤ◌,
  ltb_ℤ, if◌then◌else◌,
}
use libpreempt.Machine.{M, World, Run, sched_fifo, Message, Call, ◌>>=◌, ◌>>◌, pure, call, perform}
use libpreempt.Verify.{quick_exit}
use libpreempt.Thread.{Thread, change_scheduling}
use libpreempt.Task.Mono

pub record CriticalTask : Type 0 where
  pub thread : Thread
  pub usec : ℤ

-- `duration_cast<microseconds>` of a number of nanoseconds.
unfoldable pub to_microseconds : ℤ → ℤ
to_microseconds (pos n) = pos (n / 1000)
to_microseconds (negsuc n) = sub_ℕ 0 ((n + 1) / 1000)

-- `start(int priority)`; the number stands for `&critical_task::hook`.
unfoldable pub start : ℕ → ℤ → CriticalTask → M CriticalTask
start hook priority task = do
  spawned ← Mono.spawn hook task.thread
  thread ← change_scheduling sched_fifo priority spawned
  pure (record task { thread = thread })

unfoldable pub runtime : CriticalTask → ℤ
runtime task = task.usec

-- `hook()`, with the template's `Us`.
unfoldable pub hook : ℕ → CriticalTask → M CriticalTask
hook us task = do
  begin ← call Call.clock_now
  let deadline = begin +ℤ pos (us * 1000)
  perform Call.run_task
  end ← call Call.clock_now
  let used = to_microseconds (end -ℤ begin)
  if ltb_ℤ deadline end
      then quick_exit (some (Message.deadline_missed us used))
      else pure (record task { usec = used })
