-- ===== src/Utility/Idioms.antt =====
-- The interfaces of include/base/idioms.h as records of operations, with the defaults that a class
-- inherits: `runnable`, whose `run` is pure virtual, and `lockable`, whose `lock` and `unlock` are.
use libpreempt.Prelude.{ℕ, zero, suc, ◌≡◌, refl, Bool, true, false, if◌then◌else◌}
use libpreempt.Machine.{M, Platform, World, done, ◌>>=◌, ◌>>◌, pure}

record Runnable : Type 0 where
  start : M (Unit {0})
  stop : M (Unit {0})
  run : M (Unit {0})

-- `runnable`, given the `run` of the class.
unfoldable runnable : M (Unit {0}) → Runnable
runnable run = record { start = pure tt; stop = pure tt; run = run }

record Lockable : Type 0 where
  lock : M (Unit {0})
  try_lock : M Bool
  try_lock_for : ℕ → M Bool
  unlock : M (Unit {0})

-- `lockable`, given the `lock` and `unlock` of the class.
unfoldable lockable : M (Unit {0}) → M (Unit {0}) → Lockable
lockable lock unlock = record {
  lock = lock;
  try_lock = pure false;
  try_lock_for = λ us. pure false;
  unlock = unlock;
}

-- A client that tries for the lock so many times, and gives it back if it gets it.
try_times : Lockable → ℕ → ℕ → M Bool
try_times l us zero = pure false
try_times l us (suc n) = do
  ok ← l.try_lock_for us
  if ok then (do l.unlock; pure true) else try_times l us n

-- With the inherited `try_lock_for` no number of tries gets the lock, and neither `lock` nor `unlock`
-- of the class is called.
try_times-false :
    (lock unlock : M (Unit {0})) (us n : ℕ) (p : Platform) (w : World)
    → try_times (lockable lock unlock) us n p w ≡ done false w
unfolding try_times lockable
try_times-false lock unlock us zero p w = refl
try_times-false lock unlock us (suc n) p w = try_times-false lock unlock us n p w
