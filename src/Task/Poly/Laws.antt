-- ===== src/Task/Poly/Laws.antt =====
-- `poly_task` (include/preempt/task.h) on every branch.
use libpreempt.Prelude.{
  ℕ, ◌≡◌, refl, Bool, true, false, Bool-cases, inl, inr, ◌&&◌, Option, none, some, List, [], ◌∷◌,
  ◌++◌, if◌then◌else◌, arith,
}
use libpreempt.Machine.{Platform, World, done, threw, Message, Call, put_calls, failed}
use libpreempt.Thread as PreemptThread
use libpreempt.Thread.{Thread, owns, make, move, destroy}
use libpreempt.Thread.Laws.{starts, make_lem, destroy_lem}
use libpreempt.Task.Template.{poly_spawn, poly_join, poly_joinable}
use libpreempt.Task.Poly.{spawn, join, joinable}

-- The system joins every thread.
abbrev pub Joins : Platform → Type 0
Joins p = (calls : List Call) (h : ℕ) → failed (p.code calls (Call.thread_join h)) ≡ false

abbrev pub all_joinable : List Thread → Bool
all_joinable [] = true
all_joinable (t ∷ threads) = owns t.impl && all_joinable threads

-- The joins, newest first, of the threads up to the first that is not joinable.
unfoldable pub joined : List Thread → List Call → List Call
joined [] calls = calls
joined (t ∷ threads) calls = elim t.impl [
  | none ↦ calls
  | some h ↦ joined threads (Call.thread_join h ∷ calls)
]

abbrev pub released : List Thread → List Thread
released [] = []
released (t ∷ threads) = record t { impl = none } ∷ released threads

abbrev Joining : List Thread → Platform → World → Type 0
Joining threads p w = join threads p w ≡ (
    if all_joinable threads
    then done (released threads) (record w { calls = joined threads w.calls })
    else threw (record w { calls = joined threads w.calls }))

join_step :
    (impl : Option ℕ) (error : Message) (threads : List Thread) (p : Platform) (w : World)
    → Joins p
    → ((w' : World) → Joining threads p w')
    → Joining (record { impl = impl; error = error } ∷ threads) p w
unfolding poly_join joined PreemptThread.join
join_step none error threads p w ok rest = refl
join_step (some h) error threads p w ok rest = elim (Bool-cases (all_joinable threads)) [
  | inl a ↦ rw (ok w.calls h, rest (put_calls w (Call.thread_join h)), a)
  | inr a ↦ rw (ok w.calls h, rest (put_calls w (Call.thread_join h)), a)
]

-- Where the system joins every thread, `join` joins the threads in the order of their creation. It
-- throws at the first that is not joinable, and the joins before it are all that it has asked for; if
-- all are joinable it returns, and no thread is owned afterwards.
pub poly_join_lem :
    (threads : List Thread) (p : Platform) (w : World)
    → Joins p
    → join threads p w ≡ (
        if all_joinable threads
        then done (released threads) (record w { calls = joined threads w.calls })
        else threw (record w { calls = joined threads w.calls }))
unfolding poly_join joined
poly_join_lem [] p w ok = refl
poly_join_lem (t ∷ threads) p w ok =
    join_step t.impl t.error threads p w ok (λ w'. poly_join_lem threads p w' ok)

joinable-released : (threads : List Thread) → joinable (released threads) ≡ false
unfolding poly_joinable PreemptThread.joinable
joinable-released [] = refl
joinable-released (t ∷ threads) = joinable-released threads

join-released :
    (t : Thread) (threads : List Thread) (p : Platform) (w : World)
    → join (released (t ∷ threads)) p w ≡ threw w
unfolding poly_join PreemptThread.join
join-released t threads p w = refl

-- After a successful `join` the task is not joinable, and unless it has no threads at all, a second
-- `join` throws without a call of the system.
pub join-join :
    (t : Thread) (threads : List Thread) (p : Platform) (w : World) {after : List Thread}
    {w' : World}
    → Joins p
    → join (t ∷ threads) p w ≡ done after w'
    → (joinable after ≡ false) × ((w'' : World) → join after p w'' ≡ threw w'')
join-join t threads p w {after} ok h = elim (Bool-cases (all_joinable (t ∷ threads))) [
  | inl a ↦
      let same : after ≡ released (t ∷ threads) =
        ground (arith, poly_join_lem (t ∷ threads) p w ok) in
      rw same (joinable-released (t ∷ threads), λ w''. join-released t threads p w'')
  | inr a ↦ absurd (ground (arith, poly_join_lem (t ∷ threads) p w ok))
]

abbrev pub unlocked : World → World
unlocked w = put_calls (put_calls w Call.mutex_lock) Call.mutex_unlock

-- The lock of the task is taken and released before the thread is started and put at the end of the
-- vector: it does not hold while the vector changes. `spawn` throws if the start fails.
pub poly_spawn_lem :
    (f : ℕ) (threads : List Thread) (p : Platform) (w : World)
    → spawn f threads p w ≡ (
        if starts p (unlocked w) f
        then done
            (threads
              ++ record { impl = some (p.handle (unlocked w).calls); error = Message.empty } ∷ [])
            (put_calls (unlocked w) (Call.thread_start f))
        else threw (put_calls (unlocked w) (Call.thread_start f)))
unfolding poly_spawn move PreemptThread.joinable
poly_spawn_lem f threads p w = elim (Bool-cases (starts p (unlocked w) f)) [
  | inl s ↦
      rw (make_lem, s, (destroy_lem (record { impl = none; error = Message.empty }) p _).0 refl)
  | inr s ↦ rw (make_lem, s)
]
