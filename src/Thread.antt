-- ===== src/Thread.antt =====
-- include/preempt/thread.h: `preempt::thread` around a std::thread. The std::thread is the handle of
-- the thread it owns, if any; its failures are exceptions, and to lose an owned thread ends the
-- process by std::terminate, as the C++ standard says.
pub mod Laws
pub mod SelfTest
pub mod Ownership
pub mod Class
mod Tests
use libpreempt.Prelude.{ℕ, Bool, true, false, not, Option, none, some, ℤ, if◌then◌else◌}
use libpreempt.Machine.{
  M, World, Run, Policy, Message, Call, terminated, ◌>>=◌, ◌>>◌, pure, throw, stop, platform, call,
  start, when, failed,
}
use libpreempt.Verify.{verify}
use libpreempt.Threading as Base

pub record Thread : Type 0 where
  pub impl : Option ℕ
  pub error : Message

-- `thread()`
abbrev pub default : Thread
default = record { impl = none; error = Message.empty }

-- `std::thread::joinable`, which `joinable` calls.
abbrev pub owns : Option ℕ → Bool
owns none = false
owns (some h) = true

unfoldable pub joinable : Thread → Bool
joinable t = owns t.impl

unfoldable pub get_id : Thread → Option ℕ
get_id t = t.impl

-- The handle of the owned thread; without one it is undefined.
unfoldable pub native_handle : Thread → Option ℕ
native_handle t = t.impl

unfoldable pub last_error : Thread → Message
last_error t = t.error

-- `thread(thread&& other)`: the new object, and what is left of `other`.
unfoldable pub move : Thread → Thread × Thread
move other = (record { impl = other.impl; error = Message.empty }, record other { impl = none })

-- `thread(std::thread&& other)`
unfoldable pub adopt : Option ℕ → Thread
adopt other = record { impl = other; error = Message.empty }

-- `thread(Function&& f, Args&&... args)`
unfoldable pub make : ℕ → M Thread
make f = do
  (errnum, h) ← start (Call.thread_start f)
  if failed errnum then throw else pure (record { impl = some h; error = Message.empty })

abbrev pub text_of : Message → Option Message → Message
text_of old none = old
text_of old (some new) = new

unfoldable pub try_scheduling : Policy → ℤ → Thread → M (Bool × Thread)
try_scheduling policy priority t = do
  (ok, text) ← Base.try_scheduling t.impl policy priority (some t.error)
  pure (ok, record t { error = text_of t.error text })

unfoldable pub change_scheduling : Policy → ℤ → Thread → M Thread
change_scheduling policy priority t = do
  text ← Base.change_scheduling t.impl policy priority (some t.error)
  pure (record t { error = text_of t.error text })

-- `thread(int policy, int priority, Function&& f, Args&&... args)`
unfoldable pub make_realtime : Policy → ℤ → ℕ → M Thread
make_realtime policy priority f = do t ← make f; change_scheduling policy priority t

-- The destructor, and behind it that of the std::thread.
unfoldable pub destroy : Thread → M (Unit {0})
unfolding joinable
destroy t = do
  p ← platform
  when (not p.ndebug) (verify (not (joinable t)) >> pure tt)
  when (joinable t) (stop terminated)

-- `operator = (thread&& other)`: both objects afterwards. `error_` stays where it is.
unfoldable pub assign : Thread → Thread → M (Thread × Thread)
assign t other =
    if owns t.impl
    then stop terminated
    else pure (record t { impl = other.impl }, record other { impl = none })

unfoldable pub join : Thread → M Thread
join t = elim t.impl [
  | none ↦ throw
  | some h ↦ do
    errnum ← call (Call.thread_join h)
    if failed errnum then throw else pure (record t { impl = none })
]

unfoldable pub detach : Thread → M Thread
detach t = elim t.impl [
  | none ↦ throw
  | some h ↦ do
    errnum ← call (Call.thread_detach h)
    if failed errnum then throw else pure (record t { impl = none })
]

unfoldable pub swap : Thread → Thread → Thread × Thread
swap t other = (record t { impl = other.impl }, record other { impl = t.impl })

unfoldable pub hardware_concurrency : M ℤ
hardware_concurrency = call Call.processors_online
