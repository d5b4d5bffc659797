-- ===== src/Kernel.antt =====
-- include/base/posix.h and src/base.cc: what the library asks the operating system about itself.
-- The names of the functions stand in lower case.
pub mod Laws
mod Tests
use libpreempt.Prelude.{
  ℕ, zero, suc, Bool, true, false, not, ◌&&◌, Option, none, some, ℤ, pos, negsuc, eqb_ℤ,
  if◌then◌else◌,
}
use libpreempt.Machine.{
  M, Platform, World, Run, Policy, sched_other, sched_fifo, sched_rr, sched_unlisted, aborted, Call,
  ◌>>=◌, ◌>>◌, pure, stop, platform, world, call, perform, set_num_cores, set_preempt_rt, when,
  failed,
}

-- Without Linux the switch has no case for a policy that is not listed: no value is returned.
unfoldable pub get_min_priority : Policy → M (Option ℤ)
get_min_priority policy = do
  p ← platform
  if p.linux
      then (do r ← call (Call.priority_min policy); pure (some r))
      else pure (elim policy [
        | sched_other ↦ some (pos 0)
        | sched_fifo ↦ some (pos 1)
        | sched_rr ↦ some (pos 1)
        | sched_unlisted n ↦ none
      ])

unfoldable pub get_max_priority : Policy → M (Option ℤ)
get_max_priority policy = do
  p ← platform
  if p.linux
      then (do r ← call (Call.priority_max policy); pure (some r))
      else pure (elim policy [
        | sched_other ↦ some (pos 0)
        | sched_fifo ↦ some (pos 32)
        | sched_rr ↦ some (pos 32)
        | sched_unlisted n ↦ none
      ])

-- The assertion aborts a debug build; with NDEBUG the pair is left indeterminate (`none`).
unfoldable pub get_thread_policy_and_prioritiy : ℕ → M (Option (Policy × ℤ))
get_thread_policy_and_prioritiy h = do
  p ← platform
  w ← world
  errnum ← call (Call.get_sched_param h)
  if failed errnum
      then if p.ndebug then pure none else stop aborted
      else pure (some (p.scheduling w.calls h))

unfoldable pub get_current_thread_id : M ℤ
get_current_thread_id = do p ← platform; if p.linux then call Call.get_tid else pure (pos 0)

unfoldable pub is_main_thread : M Bool
unfolding get_current_thread_id
is_main_thread = do pid ← call Call.get_pid; tid ← get_current_thread_id; pure (eqb_ℤ pid tid)

unfoldable pub get_number_of_processors : M ℤ
get_number_of_processors = do
  p ← platform
  w ← world
  if p.linux
      then elim w.num_cores [
        | some n ↦ pure n
        | none ↦ do n ← call Call.processors_online; set_num_cores n; pure n
      ]
      else pure (pos 4)

unfoldable pub running_under_vm : M Bool
running_under_vm = pure false

unfoldable pub have_realtime_throttling : M Bool
have_realtime_throttling = do p ← platform; pure p.linux

-- The static starts at -1, and only other systems than Linux assign to it.
unfoldable pub have_preempt_rt : M Bool
have_preempt_rt = do
  p ← platform
  w ← world
  when (eqb_ℤ w.preempt_rt (negsuc 0)) (if p.linux then pure tt else set_preempt_rt (pos 0))
  w' ← world
  pure (not (eqb_ℤ w'.preempt_rt (pos 0)))

unfoldable pub have_realtime_kernel : M Bool
unfolding have_realtime_throttling have_preempt_rt
have_realtime_kernel = do
  p ← platform
  throttled ← have_realtime_throttling
  if p.linux then (if not throttled then have_preempt_rt else pure false) else pure (not throttled)

unfoldable pub yield : M (Unit {0})
yield = do p ← platform; if p.linux then perform Call.yield_cpu else perform Call.sleep_1us

unfoldable pub is_equal_thread : ℕ → ℕ → M Bool
is_equal_thread a b = do r ← call (Call.pthread_equal a b); pure (failed r)

-- `CPU_RELAX()` of a GNU compiler, the only kind that include/base/details/cc.h lets pass.
unfoldable pub cpu_relax : M (Unit {0})
cpu_relax = perform Call.relax

-- The loop, `jiffy` rounds before its end.
unfoldable pub busyloop : ℕ → M (Unit {0})
unfolding cpu_relax
busyloop zero = pure tt
busyloop (suc jiffy) = do cpu_relax; busyloop jiffy
