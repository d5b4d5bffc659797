-- ===== src/Task/Template.antt =====
-- The templates of include/preempt/task.h, whose parameter `Thread` is `preempt::thread` or std::thread:
-- mono_task, which is its one member thread, and poly_task, which is the vector of its member threads.
use libpreempt.Prelude.{ℕ, Bool, true, false, List, [], ◌∷◌, ◌++◌, if◌then◌else◌}
use libpreempt.Machine.{M, Call, ◌>>=◌, ◌>>◌, pure, perform}
use libpreempt.Thread.Class.{ThreadClass}

-- The lock guard is a temporary without a name, which is destroyed at the end of its own line.
unfoldable pub guard : M (Unit {0})
guard = do perform Call.mutex_lock; perform Call.mutex_unlock

module _ {T : Type 0} (c : ThreadClass T) where
  unfoldable pub mono_joinable : T → Bool
  mono_joinable task = c.joinable task

  unfoldable pub mono_join : T → M T
  unfolding mono_joinable
  mono_join task = if mono_joinable task then c.join task else pure task

  -- The new thread is a temporary: it is moved into the member, and what is left is destroyed.
  unfoldable pub mono_spawn : ℕ → T → M T
  unfolding mono_join
  mono_spawn f task = do
    idle ← mono_join task
    temporary ← c.make f
    (thread, left) ← c.assign idle temporary
    c.destroy left
    pure thread

  -- The new thread is a temporary: it is moved into the vector, and what is left is destroyed.
  unfoldable pub poly_spawn : ℕ → List T → M (List T)
  unfolding guard
  poly_spawn f threads = do
    guard
    temporary ← c.make f
    let moved = c.move temporary
    c.destroy moved.1
    pure (threads ++ moved.0 ∷ [])

  -- `for (auto& t : threads_) t.join();`
  unfoldable pub poly_join : List T → M (List T)
  poly_join [] = pure []
  poly_join (t ∷ threads) = do t' ← c.join t; threads' ← poly_join threads; pure (t' ∷ threads')

  unfoldable pub poly_joinable : List T → Bool
  poly_joinable [] = false
  poly_joinable (t ∷ threads) = if c.joinable t then true else poly_joinable threads

  -- The destructor of the vector.
  unfoldable pub destroy_all : List T → M (Unit {0})
  destroy_all [] = pure tt
  destroy_all (t ∷ ts) = do c.destroy t; destroy_all ts
