-- ===== src/Threading/Scheduling.antt =====
-- `try_scheduling` and `change_scheduling` of include/base/threading.h.
use libpreempt.Prelude.{
  ℕ, ◌≡◌, refl, Bool, true, false, Bool-cases, inl, inr, not, ◌||◌, Option, none, some, ◌∷◌, ℤ,
  eqb_ℤ, if◌then◌else◌, arith,
}
use libpreempt.Machine.{Platform, World, done, Policy, Message, Call, put_calls, failed}
use libpreempt.Verify.{verify, quick_exit}
use libpreempt.Threading.{check_priority, esrch, try_scheduling, change_scheduling}
use libpreempt.Threading.Create.{is_valid, check_priority_lem}

-- The number that the system gives for the change of the scheduling of thread `h`.
abbrev pub answer : Platform → World → ℕ → Policy → ℤ → ℤ
answer p w h policy priority =
    p.code (Call.get_sched_param h ∷ w.calls) (Call.set_sched_param h policy priority)

-- A change counts as done if there is no thread, if the system accepts it, and if the thread has
-- already exited.
abbrev pub accepts : Platform → World → Option ℕ → Policy → ℤ → Bool
accepts p w none policy priority = true
accepts p w (some h) policy priority =
    not (failed (answer p w h policy priority)) || eqb_ℤ (answer p w h policy priority) esrch

abbrev pub asked : World → Option ℕ → Policy → ℤ → World
asked w none policy priority = w
asked w (some h) policy priority =
    put_calls (put_calls w (Call.get_sched_param h)) (Call.set_sched_param h policy priority)

-- The error text that a refused change leaves behind.
abbrev pub refusal : Platform → World → Option ℕ → Policy → ℤ → Message
refusal p w none policy priority = Message.empty
refusal p w (some h) policy priority = Message.set_scheduling_failed (answer p w h policy priority)

pub invalid_lem :
    (policy : Policy) (priority : ℤ) (p : Platform) (w : World)
    → is_valid policy priority ≡ false
    → check_priority policy priority p w
      ≡ done tt (record (put_calls w (Call.print Message.verification_failed)) { verified = false })
unfolding check_priority verify
invalid_lem policy priority p w h = ground arith

-- With a valid priority `try_scheduling` returns whether the change counts as done. It asks the
-- system for nothing if there is no thread, and writes an error text exactly if it returns false and
-- has a string to write to.
pub try_scheduling_lem :
    (handle : Option ℕ) (policy : Policy) (priority : ℤ) (text : Message) (p : Platform) (w : World)
    → is_valid policy priority ≡ true
    → try_scheduling handle policy priority (some text) p w
      ≡ done
          (
            accepts p w handle policy priority,
            some (
                if accepts p w handle policy priority
                then text
                else refusal p w handle policy priority),
          )
          (asked w handle policy priority)
unfolding try_scheduling
try_scheduling_lem none policy priority text p w h = rw (check_priority_lem policy priority p w h)
try_scheduling_lem (some handle) policy priority text p w h =
    rw (check_priority_lem policy priority p w h)
      (elim (Bool-cases (failed (answer p w handle policy priority))) [
        | inl e ↦ elim (Bool-cases (eqb_ℤ (answer p w handle policy priority) esrch)) [
          | inl x ↦ rw (e, x)
          | inr x ↦ rw (e, x)
        ]
        | inr e ↦ rw e
      ])

pub change_scheduling_lem :
    (handle : Option ℕ) (policy : Policy) (priority : ℤ) (text : Message) (p : Platform) (w : World)
    → is_valid policy priority ≡ true
    → (change_scheduling handle policy priority (some text) p w ≡ (
        if accepts p w handle policy priority
        then done (some text) (asked w handle policy priority)
        else quick_exit (some Message.empty) p (asked w handle policy priority)))
      × (change_scheduling handle policy priority none p w ≡ (
          if accepts p w handle policy priority
          then done none (asked w handle policy priority)
          else quick_exit
              (some (refusal p w handle policy priority))
              p
              (asked w handle policy priority)))
unfolding change_scheduling
change_scheduling_lem handle policy priority text p w h =
    elim (Bool-cases (accepts p w handle policy priority)) [
      | inl e ↦ (
        rw (try_scheduling_lem handle policy priority text p w h, e),
        rw (try_scheduling_lem handle policy priority Message.empty p w h, e),
      )
      | inr e ↦ (
        rw (try_scheduling_lem handle policy priority text p w h, e),
        rw (try_scheduling_lem handle policy priority Message.empty p w h, e),
      )
    ]

-- A real-time policy with a priority that is not above 0 is reported, but does not keep
-- `try_scheduling` from asking the system: the verify flag is false afterwards, and the thread's
-- scheduling is asked for and changed as otherwise.
pub try_scheduling_invalid :
    (handle : ℕ) (policy : Policy) (priority : ℤ) (text : Message) (p : Platform) (w : World)
    → is_valid policy priority ≡ false
    → (r : Bool × Option Message) × (w' : World) × (try_scheduling
          (some handle)
          policy
          priority
          (some text)
          p
          w
        ≡ done r w')
      × (w'.verified ≡ false)
      × (w'.calls
          ≡ Call.set_sched_param handle policy priority
            ∷ Call.get_sched_param handle
            ∷ Call.print Message.verification_failed
            ∷ w.calls)
unfolding try_scheduling verify
try_scheduling_invalid handle policy priority text p w h =
    rw (invalid_lem policy priority p w h) (_, _, refl, refl, refl)
