-- ===== src/Thread/Class.antt =====
-- The members of class thread (include/preempt/thread.h) that std::thread has too.
pub mod Standard
pub mod Simulation
use libpreempt.Prelude.{ℕ, Bool, Option}
use libpreempt.Machine.{M}
use libpreempt.Thread as PreemptThread
use libpreempt.Thread.{Thread}

-- Of these the templates of include/preempt/task.h use the constructors, the assignment, the destructor,
-- `joinable` and `join`.
pub record ThreadClass (T : Type 0) : Type 0 where
  pub default : T
  pub make : ℕ → M T
  pub move : T → T × T  -- the new object, and what is left of the other
  pub assign : T → T → M (T × T)  -- both objects afterwards
  pub destroy : T → M (Unit {0})
  pub joinable : T → Bool
  pub get_id : T → Option ℕ
  pub native_handle : T → Option ℕ
  pub join : T → M T
  pub detach : T → M T
  pub swap : T → T → T × T

abbrev pub preempt_thread : ThreadClass Thread
preempt_thread = record {
  default = PreemptThread.default;
  make = PreemptThread.make;
  move = PreemptThread.move;
  assign = PreemptThread.assign;
  destroy = PreemptThread.destroy;
  joinable = PreemptThread.joinable;
  get_id = PreemptThread.get_id;
  native_handle = PreemptThread.native_handle;
  join = PreemptThread.join;
  detach = PreemptThread.detach;
  swap = PreemptThread.swap;
}
