-- ===== src/Task/Critical/Laws.antt =====
-- The deadline of `critical_task` (include/preempt/task.h).
use libpreempt.Prelude.{
  ℕ, ◌*◌, ◌≡◌, true, false, some, ◌∷◌, ℤ, pos, negsuc, ◌+ℤ◌, ◌-ℤ◌, ◌≤ℤ◌, ◌<ℤ◌, ltb_ℤ, int_laws,
  arith,
}
use libpreempt.Machine.{Platform, World, done, Message, Call, put_calls}
use libpreempt.Verify.{quick_exit}
use libpreempt.Task.Critical.{CriticalTask, to_microseconds, hook}

-- What `duration_cast` keeps: it is the number of whole microseconds, towards zero.
pub to_microseconds_le : (us : ℕ) (n : ℤ) → n ≤ℤ pos (us * 1000) → to_microseconds n ≤ℤ pos us
unfolding to_microseconds
to_microseconds_le us (pos n) h = omega arith
to_microseconds_le us (negsuc n) h = ground arith

to_microseconds_ge : (us : ℕ) (n : ℤ) → pos (us * 1000) <ℤ n → pos us ≤ℤ to_microseconds n
unfolding to_microseconds
to_microseconds_ge us (pos n) h = omega arith
to_microseconds_ge us (negsuc n) h = absurd (omega arith)

not_late : (a b : ℤ) → b ≤ℤ a → ltb_ℤ a b ≡ false
not_late a b h = ground arith

late : (a b : ℤ) → a <ℤ b → ltb_ℤ a b ≡ true
late a b h = ground arith

shift_le : (a b c : ℤ) → b ≤ℤ a +ℤ c → b -ℤ a ≤ℤ c
shift_le a b c h = omega int_laws

shift_lt : (a b c : ℤ) → a +ℤ c <ℤ b → c <ℤ b -ℤ a
shift_lt a b c h = omega int_laws

-- The world behind the two readings of the clock, and the readings.
abbrev pub measured : World → World
measured w = put_calls (put_calls (put_calls w Call.clock_now) Call.run_task) Call.clock_now

abbrev pub began : Platform → World → ℤ
began p w = p.code w.calls Call.clock_now

abbrev pub ended : Platform → World → ℤ
ended p w = p.code (Call.run_task ∷ Call.clock_now ∷ w.calls) Call.clock_now

abbrev pub used : Platform → World → ℤ
used p w = to_microseconds (ended p w -ℤ began p w)

-- The hook returns exactly if the clock reads no later than the start plus `us` microseconds when
-- `run()` is over, and then the stored runtime is at most `us`. Otherwise the process ends by
-- `quick_exit`, with an announcement of `us` and of a runtime that is at least `us`.
pub hook_lem :
    (us : ℕ) (task : CriticalTask) (p : Platform) (w : World)
    → (ended p w ≤ℤ began p w +ℤ pos (us * 1000)
        → (hook us task p w ≡ done (record task { usec = used p w }) (measured w))
          × (used p w ≤ℤ pos us))
      × (began p w +ℤ pos (us * 1000) <ℤ ended p w
          → (hook us task p w
              ≡ quick_exit (some (Message.deadline_missed us (used p w))) p (measured w))
            × (pos us ≤ℤ used p w))
unfolding hook
hook_lem us task p w = (
  λ h. (rw (not_late _ _ h), to_microseconds_le us _ (shift_le (began p w) _ _ h)),
  λ h. (rw (late _ _ h), to_microseconds_ge us _ (shift_lt (began p w) _ _ h)),
)
