-- ===== src/Task/Monopoly.antt =====
-- tests/task_01_monopoly.cc: a mono_task and a poly_task that run the three functions of class Run,
-- which stand as 1, 2 and 3.
pub mod Counts
pub mod Standard
pub mod Simulation
pub mod Program
pub mod Balance
use libpreempt.Prelude.{ℕ, zero, suc, List, [], ◌∷◌, ℤ}
use libpreempt.Machine.{M, World, Run, Policy, ◌>>=◌, ◌>>◌, pure}
use libpreempt.Thread.{Thread, change_scheduling}
use libpreempt.Task.Template as Template
use libpreempt.Thread.Class.{ThreadClass, preempt_thread}
use libpreempt.Task.Template.{destroy_all}

-- `change` is what happens with the thread that `spawn` returns by reference: nothing, or
-- `change_scheduling`.
module _ {T : Type 0} (c : ThreadClass T) (change : T → M T) where
  unfoldable pub mono_spawn : ℕ → T → M T
  mono_spawn f mono = do spawned ← Template.mono_spawn c f mono; change spawned

  -- The reference is to the last thread of the vector, which `spawn` never leaves empty.
  unfoldable pub change_back : List T → M (List T)
  change_back [] = pure []
  change_back (t ∷ []) = do t' ← change t; pure (t' ∷ [])
  change_back (t ∷ u ∷ ts) = do ts' ← change_back (u ∷ ts); pure (t ∷ ts')

  unfoldable pub poly_spawn : ℕ → List T → M (List T)
  unfolding change_back
  poly_spawn f poly = do spawned ← Template.poly_spawn c f poly; change_back spawned

  -- `for (int i = 0; i < 3; ++i)`, `n` rounds before its end.
  unfoldable pub spawn_rounds : ℕ → List T → M (List T)
  spawn_rounds zero poly = pure poly
  spawn_rounds (suc n) poly = do
    poly1 ← poly_spawn 1 poly
    poly2 ← poly_spawn 2 poly1
    poly3 ← poly_spawn 3 poly2
    spawn_rounds n poly3

  -- The body that the two functions `test` share; the tasks are destroyed at its end, the last one
  -- first.
  unfoldable pub test_with : M (Unit {0})
  test_with = do
    mono1 ← mono_spawn 1 c.default
    mono2 ← mono_spawn 2 mono1
    mono3 ← mono_spawn 3 mono2
    poly ← spawn_rounds 3 []
    joined ← Template.poly_join c poly
    idle ← Template.mono_join c mono3
    destroy_all c joined
    c.destroy idle

-- `test<Thread>()`
unfoldable pub test_of : {T : Type 0} → ThreadClass T → M (Unit {0})
unfolding test_with
test_of c = test_with c pure

-- `test<preempt::thread>()`
abbrev pub test : M (Unit {0})
test = test_of preempt_thread

-- `test(int priority, int policy)`
unfoldable pub test_realtime : ℤ → Policy → M (Unit {0})
unfolding test_with
test_realtime priority policy = test_with preempt_thread (change_scheduling policy priority)
