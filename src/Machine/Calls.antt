-- ===== src/Machine/Calls.antt =====
-- The calls that leave the program, and the texts that it prints or keeps as error descriptions.
use libpreempt.Prelude.{ℕ, ℤ, List}

-- The scheduling policies; `sched_unlisted` is any other `int`.
pub data Policy : Type 0 where
  sched_other sched_fifo sched_rr : Policy
  sched_unlisted : ℕ → Policy

-- The program's texts, each with the values that are formatted into it.
pub data Message : Type 0 where
  empty : Message
  verification_failed : Message
  fail_location : Message
  attr_init_failed : ℤ → Message
  set_detach_state_failed : ℤ → Message
  set_inherit_sched_failed : ℤ → Message
  set_sched_policy_failed : Policy → ℤ → Message
  set_sched_param_failed : ℤ → ℤ → Message
  thread_ctor_failed : ℤ → Message
  thread_join_failed : ℤ → Message
  set_scheduling_failed : ℤ → Message
  deadline_missed : ℕ → ℤ → Message
  stat_latency_failed open_latency_failed write_latency_failed : Message
  description : ℕ → Message  -- a text of the caller

-- The two output streams; stderr is that of <cstdio> or std::cerr.
pub data Stream : Type 0 where
  cout cerr : Stream

pub data Call : Type 0 where
  -- <pthread.h>
  attr_init attr_set_detach_state attr_set_inherit_sched : Call
  attr_set_sched_policy : Policy → Call
  attr_set_sched_param : ℤ → Call
  pthread_create : (funp argp : ℕ) → Call
  pthread_join : ℕ → Call
  pthread_equal : ℕ → ℕ → Call
  get_sched_param : ℕ → Call
  set_sched_param : ℕ → Policy → ℤ → Call
  -- <thread>, <mutex>: the system's side of std::thread and std::mutex
  thread_start : ℕ → Call
  thread_join thread_detach : ℕ → Call
  mutex_lock mutex_unlock : Call
  trace_lock trace_unlock : Call  -- the static mutex of `trace`
  logging_lock logging_unlock : Call  -- g_logging_mutex
  -- <sys/resource.h>, <sys/mman.h>
  unlimit_memlock zero_core_limit lock_all unlock_all : Call
  -- files
  stat_latency open_latency : Call
  write_latency : ℤ → ℕ → Call
  close : ℤ → Call
  -- <cstdio>, <errno.h>
  read_errno : Call
  perror print : Message → Call
  flush_stdout flush_stderr : Call
  output : Stream → List ℕ → Call  -- a formatted text
  -- processes and time
  trap : Call
  yield_cpu sleep_1us : Call
  get_pid get_ppid get_tid processors_online : Call
  priority_min priority_max : Policy → Call
  clock_now : Call
  time_now : Call  -- std::time
  relax : Call  -- CPU_RELAX
  run_task : Call  -- the virtual `run()`
