-- ===== src/Thread/Laws.antt =====
-- What the operations of `preempt::thread` (include/preempt/thread.h) do on every branch.
use libpreempt.Prelude.{
  ℕ, ◌≡◌, Bool, true, false, Bool-cases, inl, inr, not, ◌&&◌, some, ℤ, if◌then◌else◌, arith,
}
use libpreempt.Machine.{
  Platform, World, done, threw, stopped, terminated, Policy, Message, Call, put_calls, failed,
}
use libpreempt.Verify.{verify, quick_exit}
use libpreempt.Verify.Laws.{quick_exit-bind}
use libpreempt.Threading.Create.{is_valid}
use libpreempt.Threading.Scheduling.{accepts, asked, change_scheduling_lem}
use libpreempt.Thread.{Thread, joinable, make, make_realtime, change_scheduling, destroy}

abbrev pub starts : Platform → World → ℕ → Bool
starts p w f = not (failed (p.code w.calls (Call.thread_start f)))

abbrev pub started : World → ℕ → World
started w f = put_calls w (Call.thread_start f)

pub make_lem :
    (f : ℕ) (p : Platform) (w : World)
    → make f p w ≡ (
        if starts p w f
        then done
            (record { impl = some (p.handle w.calls); error = Message.empty })
            (put_calls w (Call.thread_start f))
        else threw (put_calls w (Call.thread_start f)))
unfolding make
make_lem f p w = elim (Bool-cases (failed (p.code w.calls (Call.thread_start f)))) [
  | inl e ↦ rw e
  | inr e ↦ rw e
]

pub scheduling_lem :
    (t : Thread) (policy : Policy) (priority : ℤ) (p : Platform) (w : World)
    → is_valid policy priority ≡ true
    → change_scheduling policy priority t p w ≡ (
        if accepts p w t.impl policy priority
        then done t (asked w t.impl policy priority)
        else quick_exit (some Message.empty) p (asked w t.impl policy priority))
unfolding change_scheduling
scheduling_lem t policy priority p w v = elim (Bool-cases (accepts p w t.impl policy priority)) [
  | inl e ↦ rw ((change_scheduling_lem t.impl policy priority t.error p w v).0, e)
  | inr e ↦ rw ((change_scheduling_lem t.impl policy priority t.error p w v).0, e, quick_exit-bind)
]

-- The real-time constructor: it throws if the thread cannot be started; it returns the started
-- thread if the change of its scheduling, which is asked for after the start, counts as done; and
-- otherwise it ends the process by `quick_exit`.
pub make_realtime_lem :
    (policy : Policy) (priority : ℤ) (f : ℕ) (p : Platform) (w : World)
    → is_valid policy priority ≡ true
    → make_realtime policy priority f p w ≡ (
        if starts p w f
        then if accepts p (started w f) (some (p.handle w.calls)) policy priority
          then done
              (record { impl = some (p.handle w.calls); error = Message.empty })
              (asked (started w f) (some (p.handle w.calls)) policy priority)
          else quick_exit
              (some Message.empty)
              p
              (asked (started w f) (some (p.handle w.calls)) policy priority)
        else threw (started w f))
unfolding make_realtime
make_realtime_lem policy priority f p w v = elim (Bool-cases (starts p w f)) [
  | inl e ↦
      rw (make_lem f p w, e)
        (scheduling_lem (record { impl = some (p.handle w.calls); error = Message.empty }) policy
          priority p (put_calls w (Call.thread_start f)) v)
  | inr e ↦ rw (make_lem f p w, e)
]

-- The destructor of a thread that owns nothing changes nothing. That of a joinable one ends the
-- process by std::terminate, and in a debug build the verify flag is false by then.
pub destroy_lem :
    (t : Thread) (p : Platform) (w : World)
    → (joinable t ≡ false → destroy t p w ≡ done tt w)
      × (joinable t ≡ true
          → (w' : World) × (destroy t p w ≡ stopped terminated w')
            × (w'.verified ≡ (w.verified && p.ndebug)))
unfolding destroy verify
destroy_lem t p w = elim (Bool-cases p.ndebug) [
  | inl n ↦ (λ e. rw (n, e), λ e. (w, rw (n, e), rw n (ground arith)))
  | inr n ↦ (
    λ e. rw (n, e, verify),
    λ e. (
      record (put_calls w (Call.print Message.verification_failed)) { verified = false },
      rw (n, e, verify),
      rw n (ground arith),
    ),
  )
]
