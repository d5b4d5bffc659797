-- ===== src/Threading.antt =====
-- include/base/threading.h: `base::thread` over the pthread functions, and the change of the
-- scheduling of a running std::thread, which is given here by its handle (`none`: not joinable).
pub mod Create
pub mod SelfTest
pub mod Scheduling
mod Tests
use libpreempt.Prelude.{
  ℕ, Bool, true, false, ◌==◌, Option, none, some, ℤ, pos, ltb_ℤ, eqb_ℤ, if◌then◌else◌, not,
}
use libpreempt.Machine.{
  M, World, Run, Policy, sched_other, sched_fifo, sched_rr, sched_unlisted, Message, Call, ◌>>=◌,
  ◌>>◌, pure, call, start, failed, when,
}
use libpreempt.Verify.{verify, quick_exit}

-- `struct thread`. The shared pointers are empty or not; `priority` is what `*schp` holds.
pub record Thread : Type 0 where
  pub has_attr : Bool
  pub priority : Option ℤ
  pub joinable : Bool
  pub last_error : Option Message  -- `none` for the empty string
  pub id : ℕ

abbrev pub default : Thread
default = record { has_attr = false; priority = none; joinable = false; last_error = none; id = 0 }

-- The two policies that need a priority above 0: the cases of both switches.
abbrev pub is_realtime : Policy → Bool
is_realtime sched_other = false
is_realtime sched_fifo = true
is_realtime sched_rr = true
is_realtime (sched_unlisted n) = false

unfoldable pub check_priority : Policy → ℤ → M (Unit {0})
check_priority policy priority =
    when (is_realtime policy) (verify (ltb_ℤ (pos 0) priority) >> pure tt)

-- One call whose failure ends the constructor with an error text.
abbrev pub attempt : Call → (ℤ → Message) → Thread → M Thread → M Thread
attempt c describe t rest = do
  errnum ← call c
  if failed errnum then pure (record t { last_error = some (describe errnum) }) else rest

-- The creation itself, which also stores the handle.
unfoldable pub launch : Thread → ℕ → ℕ → M Thread
launch set funp argp = do
  (errnum, id) ← start (Call.pthread_create funp argp)
  if failed errnum
      then pure (record set { id = id; last_error = some (Message.thread_ctor_failed errnum) })
      else pure (record set { id = id; joinable = true })

-- `thread(int policy, int priority, function funp, void* argp)`; `none` is a null function.
unfoldable pub create : Policy → ℤ → Option ℕ → ℕ → M Thread
unfolding check_priority launch
create policy priority none argp = pure default
create policy priority (some funp) argp =
    let made = record default { has_attr = true } in
    let set = record made { priority = some priority } in
    attempt Call.attr_init Message.attr_init_failed made (do
      check_priority policy priority
      attempt Call.attr_set_detach_state Message.set_detach_state_failed set (
          attempt Call.attr_set_inherit_sched Message.set_inherit_sched_failed set (
            attempt (Call.attr_set_sched_policy policy) (Message.set_sched_policy_failed policy) set
              (attempt (Call.attr_set_sched_param priority)
                (Message.set_sched_param_failed priority) set (launch set funp argp)))))

-- `thread(function funp, void* argp)`
unfoldable pub create_normal : Option ℕ → ℕ → M Thread
create_normal funp argp = create sched_other (pos 0) funp argp

unfoldable pub join : Thread → M Thread
join t = do
  errnum ← call (Call.pthread_join t.id)
  pure (
      if failed errnum
      then record t { last_error = some (Message.thread_join_failed errnum) }
      else record t { joinable = false; last_error = none })

-- ESRCH: the thread has already exited.
abbrev pub esrch : ℤ
esrch = pos 3

-- The result, and what the string behind `errorp` holds then (`none` for a null pointer).
unfoldable pub try_scheduling : Option ℕ → Policy → ℤ → Option Message → M (Bool × Option Message)
unfolding check_priority
try_scheduling handle policy priority errorp = check_priority policy priority >> elim handle [
  | none ↦ pure (true, errorp)
  | some h ↦ do
    call (Call.get_sched_param h)
    errnum ← call (Call.set_sched_param h policy priority)
    pure (
        if failed errnum
        then if eqb_ℤ errnum esrch then (true, errorp) else (
          false,
          elim errorp [ none ↦ none | some old ↦ some (Message.set_scheduling_failed errnum) ],
        )
        else (true, errorp))
]

-- The text that is printed is that of the local string, which `try_scheduling` writes only where no
-- `errorp` was given.
unfoldable pub change_scheduling : Option ℕ → Policy → ℤ → Option Message → M (Option Message)
unfolding try_scheduling
change_scheduling handle policy priority errorp =
    let target : Option Message = elim errorp [
      | none ↦ some Message.empty
      | some text ↦ some text
    ] in
    do
      (ok, written) ← try_scheduling handle policy priority target
      if ok
          then pure (elim errorp [ none ↦ none | some text ↦ written ])
          else quick_exit (elim errorp [ none ↦ written | some text ↦ some Message.empty ])
