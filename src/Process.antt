-- ===== src/Process.antt =====
-- include/preempt/process.h and src/process.cc: the memory locks of a real-time process and the
-- request for a CPU latency through /dev/cpu_dma_latency.
pub mod Laws
pub mod Latency
pub mod Requests
pub mod Interface
mod Tests
use libpreempt.Prelude.{ℕ, Bool, true, ℤ, negsuc, pos, eqb_ℤ, ltb_ℤ, not, if◌then◌else◌}
use libpreempt.Machine.{
  M, Run, World, Platform, exit_failure, Message, Call, ◌>>=◌, ◌>>◌, pure, stop, platform, world,
  call, perform, set_cpu_dma, when, succeeded,
}
use libpreempt.Kernel

unfoldable pub get_current_process_id : M ℤ
get_current_process_id = call Call.get_pid

unfoldable pub get_parent_process_id : M ℤ
get_parent_process_id = call Call.get_ppid

-- A system call that is made under Linux only; elsewhere the answer is `true`.
abbrev linux_only : Call → M Bool
linux_only c = do p ← platform; if p.linux then (do r ← call c; pure (succeeded r)) else pure true

unfoldable pub unlimit_lock_pages : M Bool
unlimit_lock_pages = linux_only Call.unlimit_memlock

unfoldable pub lock_all_pages : M Bool
lock_all_pages = linux_only Call.lock_all

unfoldable pub unlock_all_pages : M Bool
unlock_all_pages = linux_only Call.unlock_all

unfoldable pub disable_core_file : M Bool
disable_core_file = do r ← call Call.zero_core_limit; pure (succeeded r)

unfoldable pub begin_realtime : M (Unit {0})
unfolding unlimit_lock_pages lock_all_pages
begin_realtime = do unlimit_lock_pages; lock_all_pages; pure tt

unfoldable pub end_realtime : M (Unit {0})
unfolding unlock_all_pages
end_realtime = do unlock_all_pages; pure tt

-- `this_process::yield`
unfoldable pub yield : M (Unit {0})
yield = Kernel.yield

-- -1, the result of a system call that failed and the value of `g_fd_cpu_dma` without a request.
abbrev pub minus_one : ℤ
minus_one = negsuc 0

unfoldable pub reset_cpu_latency : M (Unit {0})
reset_cpu_latency = do
  p ← platform
  w ← world
  when p.linux (
      when (not (eqb_ℤ w.cpu_dma minus_one))
        (do perform (Call.close w.cpu_dma); set_cpu_dma minus_one))

-- `std::perror` with `std::exit(EXIT_FAILURE)`.
abbrev pub give_up : Message → M (Unit {0}) → M (Unit {0})
give_up text cleanup = do perform (Call.perror text); cleanup; stop exit_failure

unfoldable pub request_cpu_latency : ℕ → M (Unit {0})
unfolding reset_cpu_latency
request_cpu_latency c_state = do
  p ← platform
  when p.linux (do
    found ← call Call.stat_latency
    when (eqb_ℤ found minus_one) (give_up Message.stat_latency_failed (pure tt))
    fd ← call Call.open_latency
    set_cpu_dma fd
    when (eqb_ℤ fd minus_one) (give_up Message.open_latency_failed (pure tt))
    written ← call (Call.write_latency fd c_state)
    when (ltb_ℤ written (pos 1)) (give_up Message.write_latency_failed reset_cpu_latency))
