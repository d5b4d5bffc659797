-- ===== src/Thread/Class/Standard.antt =====
-- std::thread with the members of class thread (include/preempt/thread.h). It is the handle of the thread
-- that it owns, if any; its failures are exceptions.
use libpreempt.Prelude.{ℕ, Option, none, some, if◌then◌else◌}
use libpreempt.Machine.{M, Call, terminated, ◌>>=◌, pure, throw, stop, call, start, when, failed}
use libpreempt.Thread.{owns}
use libpreempt.Thread.Class.{ThreadClass}

-- The operations of std::thread that ask the system or can end the process.
unfoldable pub make : ℕ → M (Option ℕ)
make f = do
  (errnum, h) ← start (Call.thread_start f)
  if failed errnum then throw else pure (some h)

unfoldable pub join : Option ℕ → M (Option ℕ)
join none = throw
join (some h) = do errnum ← call (Call.thread_join h); if failed errnum then throw else pure none

unfoldable pub detach : Option ℕ → M (Option ℕ)
detach none = throw
detach (some h) = do
  errnum ← call (Call.thread_detach h)
  if failed errnum then throw else pure none

unfoldable pub assign : Option ℕ → Option ℕ → M (Option ℕ × Option ℕ)
assign t other = if owns t then stop terminated else pure (other, none)

unfoldable pub destroy : Option ℕ → M (Unit {0})
destroy t = when (owns t) (stop terminated)

abbrev pub std_thread : ThreadClass (Option ℕ)
std_thread = record {
  default = none;
  make = make;
  move = λ other. (other, none);
  assign = assign;
  destroy = destroy;
  joinable = owns;
  get_id = λ t. t;
  native_handle = λ t. t;
  join = join;
  detach = detach;
  swap = λ t other. (other, t);
}
