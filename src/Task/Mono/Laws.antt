-- ===== src/Task/Mono/Laws.antt =====
-- `mono_task` (include/preempt/task.h) on every branch.
use libpreempt.Prelude.{
  ℕ, ◌≡◌, refl, Bool, true, Bool-cases, inl, inr, not, Option, none, some, if◌then◌else◌,
}
use libpreempt.Machine.{Platform, World, done, threw, Message, Call, put_calls, failed}
use libpreempt.Thread as PreemptThread
use libpreempt.Thread.{Thread, owns, make, assign, destroy}
use libpreempt.Thread.Laws.{starts, make_lem, destroy_lem}
use libpreempt.Task.Template.{mono_join, mono_spawn, mono_joinable}
use libpreempt.Task.Mono.{join, spawn}

-- Whether the system joins the thread that the task owns, if any, and the world behind that join.
abbrev pub joins : Platform → World → Option ℕ → Bool
joins p w none = true
joins p w (some h) = not (failed (p.code w.calls (Call.thread_join h)))

abbrev pub after_join : World → Option ℕ → World
after_join w none = w
after_join w (some h) = put_calls w (Call.thread_join h)

-- `join` of a task with no running thread does nothing and does not throw; otherwise it asks for one
-- join, and the task owns no thread afterwards, or it throws if the system refuses.
pub mono_join_lem :
    (impl : Option ℕ) (error : Message) (p : Platform) (w : World)
    → join (record { impl = impl; error = error }) p w ≡ (
        if joins p w impl
        then done (record { impl = none; error = error }) (after_join w impl)
        else threw (after_join w impl))
unfolding mono_join mono_joinable PreemptThread.join PreemptThread.joinable
mono_join_lem none error p w = refl
mono_join_lem (some h) error p w =
    elim (Bool-cases (failed (p.code w.calls (Call.thread_join h)))) [ inl e ↦ rw e | inr e ↦ rw e ]

-- `spawn` joins the thread that the task runs, if any, before it starts the new one, and then owns
-- the new one. It throws if the system refuses the join, in which case it starts nothing, or the
-- start. It never ends the process and verifies nothing false.
pub mono_spawn_lem :
    (f : ℕ) (impl : Option ℕ) (error : Message) (p : Platform) (w : World)
    → spawn f (record { impl = impl; error = error }) p w ≡ (
        if joins p w impl
        then if starts p (after_join w impl) f
          then done
              (record { impl = some (p.handle (after_join w impl).calls); error = error })
              (put_calls (after_join w impl) (Call.thread_start f))
          else threw (put_calls (after_join w impl) (Call.thread_start f))
        else threw (after_join w impl))
unfolding mono_spawn assign PreemptThread.joinable
mono_spawn_lem f impl error p w = elim (Bool-cases (joins p w impl)) [
  | inl j ↦ elim (Bool-cases (starts p (after_join w impl) f)) [
    | inl s ↦ rw (
      mono_join_lem impl error p w,
      j,
      make_lem,
      s,
      (destroy_lem (record { impl = none; error = Message.empty }) p _).0 refl,
    )
    | inr s ↦ rw (mono_join_lem impl error p w, j, make_lem, s)
  ]
  | inr j ↦ rw (mono_join_lem impl error p w, j)
]
