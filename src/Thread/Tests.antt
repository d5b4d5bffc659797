-- ===== src/Thread/Tests.antt =====
-- The theorems on `preempt::thread` at concrete platforms.
use libpreempt.Prelude.{refl, List, [], ◌∷◌, true, some, pos}
use libpreempt.Machine.{Message, sched_fifo}
use libpreempt.Machine.Samples.{calm, fresh}
use libpreempt.Thread.SelfTest.{Serves}
use libpreempt.Thread.{Thread}
use libpreempt.Thread.Ownership.{
  Op, create, change_at, take, join_at, destroy_at, swap_at, apply_each,
}
use libpreempt.Thread.Ownership.Counts.{none-Balanced}
use libpreempt.Thread.Ownership.Balance.{Ends, apply_each-Balanced}

abbrev running : Thread
running = record { impl = some 3; error = Message.empty }

-- Linux with scheduling privileges, and without.
calm-Serves : Serves calm true
calm-Serves = record {
  starts_all = λ w f. refl;
  accepts_all = λ w h policy priority. refl;
  joins_all = λ calls h. refl;
}

-- A thread is started, moved to a second object, exchanged, given a priority, joined there, and the
-- empty object is destroyed.
abbrev handed_on : List Op
handed_on =
    create 5 ∷ take 0 ∷ swap_at 0 1 ∷ change_at sched_fifo (pos 1) 1 ∷ join_at 1 ∷ destroy_at 0 ∷ []

apply_each-Balanced_example : Ends calm handed_on (apply_each handed_on [] calm fresh)
apply_each-Balanced_example =
    apply_each-Balanced handed_on [] calm fresh (none-Balanced calm fresh refl)
