-- ===== src/Thread/SelfTest.antt =====
-- `main` of tests/preempt_04_thread.cc: three threads, two of them with a real-time scheduling, in a
-- process whose pages are locked. The functions Task1 and Task2 stand as 1 and 2.
use libpreempt.Prelude.{
  ℕ, ◌≡◌, ◌∙◌, refl, Bool, true, false, Bool-cases, inl, inr, some, pos, List, if◌then◌else◌, ℤ,
}
use libpreempt.Machine.{
  M, Platform, World, done, Policy, sched_fifo, sched_rr, Message, Call, ◌>>=◌, ◌>>◌, put_calls,
  failed,
}
use libpreempt.Verify.{exit_status, quick_exit}
use libpreempt.Verify.Laws.{exit_status_lem, quick_exit-bind}
use libpreempt.Process.{begin_realtime, end_realtime}
use libpreempt.Threading.Create.{is_valid}
use libpreempt.Threading.Scheduling.{accepts, asked}
use libpreempt.Thread.{Thread, default, make, make_realtime, assign, join, joinable, destroy}
use libpreempt.Thread.Laws.{starts, started, make_lem, make_realtime_lem, destroy_lem}

-- The temporary that is assigned to the first thread is destroyed at once, the threads at the end of
-- their block, the last one first.
unfoldable pub scheduling_test : M ℕ
scheduling_test = do
  begin_realtime
  temporary ← make 1
  (thr1, left) ← assign default temporary
  destroy left
  thr2 ← make_realtime sched_fifo (pos 1) 1
  thr3 ← make_realtime sched_rr (pos 1) 2
  joined1 ← join thr1
  joined2 ← join thr2
  joined3 ← join thr3
  destroy joined3
  destroy joined2
  destroy joined1
  end_realtime
  exit_status

-- The system starts and joins threads; `permits` says whether it lets their scheduling be changed.
pub record Serves (p : Platform) (permits : Bool) : Type 0 where
  pub starts_all : (w : World) (f : ℕ) → starts p w f ≡ true
  pub accepts_all :
      (w : World) (h : ℕ) (policy : Policy) (priority : ℤ)
      → accepts p w (some h) policy priority ≡ permits
  pub joins_all : (calls : List Call) (h : ℕ) → failed (p.code calls (Call.thread_join h)) ≡ false

pub begins :
    (p : Platform) (w : World)
    → (w' : World) × (begin_realtime p w ≡ done tt w') × (w'.verified ≡ w.verified)
unfolding begin_realtime
begins p w = elim (Bool-cases p.linux) [
  | inl l ↦ (put_calls (put_calls w Call.unlimit_memlock) Call.lock_all, rw l, refl)
  | inr l ↦ (w, rw l, refl)
]

pub ends :
    (p : Platform) (w : World)
    → (w' : World) × (end_realtime p w ≡ done tt w') × (w'.verified ≡ w.verified)
unfolding end_realtime
ends p w = elim (Bool-cases p.linux) [
  | inl l ↦ (put_calls w Call.unlock_all, rw l, refl)
  | inr l ↦ (w, rw l, refl)
]

abbrev pub owned : ℕ → Thread
owned h = record { impl = some h; error = Message.empty }

-- The world behind a real-time constructor.
abbrev realtime : Platform → World → Policy → ℕ → World
realtime p w policy f = asked (started w f) (some (p.handle w.calls)) policy (pos 1)

module _ {p : Platform} {permits : Bool} (s : Serves p permits) where
  makes : (w : World) (f : ℕ) → make f p w ≡ done (owned (p.handle w.calls)) (started w f)
  makes w f = make_lem f p w ∙ rw (s.starts_all w f)

  joins : (w : World) (h : ℕ) → join (owned h) p w ≡ done default (put_calls w (Call.thread_join h))
  unfolding join
  joins w h = rw (s.joins_all w.calls h)

  makes_realtime :
      (w : World) (policy : Policy) (f : ℕ)
      → is_valid policy (pos 1) ≡ true
      → make_realtime policy (pos 1) f p w ≡ (
          if permits
          then done (owned (p.handle w.calls)) (realtime p w policy f)
          else quick_exit (some Message.empty) p (realtime p w policy f))
  makes_realtime w policy f v =
      make_realtime_lem policy (pos 1) f p w v
      ∙ rw (s.starts_all w f, s.accepts_all (started w f) (p.handle w.calls) policy (pos 1))

leaves : (p : Platform) (w : World) → destroy default p w ≡ done tt w
unfolding joinable
leaves p w = (destroy_lem default p w).0 refl

-- Where the system starts and joins threads and permits the change of their scheduling, the program
-- returns, and its exit status is that of the flag at its start.
scheduling_test_lem :
    (p : Platform) (w : World)
    → Serves p true
    → (w' : World) × (scheduling_test p w ≡ done (if w.verified then 0 else 1) w')
unfolding scheduling_test assign
scheduling_test_lem p w s =
    let (w0, b, bv) = begins p w in
    let w1 : World = started w0 1 in
    let w2 : World = realtime p w1 sched_fifo 1 in
    let w3 : World = realtime p w2 sched_rr 2 in
    let w4 : World = put_calls w3 (Call.thread_join (p.handle w0.calls)) in
    let w5 : World = put_calls w4 (Call.thread_join (p.handle w1.calls)) in
    let w6 : World = put_calls w5 (Call.thread_join (p.handle w2.calls)) in
    let (w7, e, ev) = ends p w6 in
    (
      w7,
      rw (
        b,
        makes s w0 1,
        leaves p w1,
        makes_realtime s w1 sched_fifo 1 refl,
        makes_realtime s w2 sched_rr 2 refl,
        joins s w3 (p.handle w0.calls),
        joins s w4 (p.handle w1.calls),
        joins s w5 (p.handle w2.calls),
        leaves p w6,
        leaves p w6,
        leaves p w6,
        e,
        exit_status_lem p w7,
        ev,
        bv,
      ),
    )

-- Where the system starts threads but refuses the change of their scheduling, the program does not
-- return: it ends by `quick_exit` at its second thread.
scheduling_test_refused :
    (p : Platform) (w : World)
    → Serves p false
    → (w' : World) × (scheduling_test p w ≡ quick_exit (some Message.empty) p w')
unfolding scheduling_test assign quick_exit
scheduling_test_refused p w s =
    let (w0, b, bv) = begins p w in
    let w1 : World = started w0 1 in
    (
      realtime p w1 sched_fifo 1,
      rw (b, makes s w0 1, leaves p w1, makes_realtime s w1 sched_fifo 1 refl, quick_exit-bind),
    )
