-- ===== src/Task/Monopoly/Program.antt =====
-- `main` of tests/task_01_monopoly.cc: the four tests after each other, in a process whose pages are
-- locked; an exception ends the process. The functions of the threads are taken to have run when `main`
-- reads the flag, since all the threads are joined by then.
use libpreempt.Prelude.{
  ℕ, ◌+◌, ◌≡◌, ◌∙◌, refl, Bool, true, false, ◌&&◌, ◌==◌, List, [], ◌∷◌, ◌++◌, Bool-cases, inl, inr,
  pos, if◌then◌else◌, arith,
}
use libpreempt.Machine.{
  M, Platform, World, Run, done, threw, stopped, sched_fifo, sched_rr, terminated, Message, Call,
  ◌>>◌, put_calls,
}
use libpreempt.Verify.{exit_status}
use libpreempt.Verify.Laws.{all_true, exit_status_lem}
use libpreempt.Process.{begin_realtime, end_realtime}
use libpreempt.Thread.SelfTest.{Serves}
use libpreempt.Task.Monopoly.{test, test_realtime}
use libpreempt.Task.Monopoly.Standard as Standard
use libpreempt.Task.Monopoly.Simulation.{test_follows}
use libpreempt.Task.Monopoly.Counts.{starts_in, joins_in, Grew, Grew-add}
use libpreempt.Task.Monopoly.Balance.{tests_lem}

-- The handler of std::runtime_error, of which std::system_error is one; the text is that of the library.
abbrev pub catch : Run (Unit {0}) → Run (Unit {0})
catch (done a w) = done a w
catch (threw w) = stopped terminated (put_calls w (Call.print (Message.description 0)))
catch (stopped s w) = stopped s w

-- The block of the `try`.
unfoldable pub tests : M (Unit {0})
tests = do
  begin_realtime
  Standard.test
  test
  test_realtime (pos 1) sched_fifo
  test_realtime (pos 2) sched_rr
  end_realtime

-- The class Run: what each member function verifies.
abbrev fun1 : ℕ → List Bool
fun1 n = (n == 1) ∷ []

abbrev fun2 : ℕ → List Bool
fun2 n = (n == 2) ∷ []

abbrev fun3 : ℕ → List Bool
fun3 n = (n == 3) ∷ []

-- What the thread of each function that the tests start verifies, with the arguments given to `spawn`.
abbrev function_conditions : ℕ → List Bool
function_conditions f =
    if f == 1 then fun1 1 else if f == 2 then fun2 2 else if f == 3 then fun3 3 else []

-- What the threads started in a trace verify.
abbrev verified_in : List Call → List Bool
verified_in [] = []
verified_in (c ∷ calls) = elim c [
  | Call.thread_start f ↦ function_conditions f ++ verified_in calls
  | _ ↦ verified_in calls
]

-- The threads have run: each VERIFY that does not hold has cleared the flag. Behind the tests every thread
-- is joined, and before the end of `main` nothing reads the flag.
unfoldable pub functions_ran : M (Unit {0})
functions_ran p w = done tt (record w { verified = w.verified && all_true (verified_in w.calls) })

-- The end of `main`.
unfoldable pub end_main : M ℕ
unfolding functions_ran
end_main = functions_ran >> exit_status

unfoldable pub task_main : M ℕ
unfolding tests end_main
task_main = (λ p w. catch (tests p w)) >> end_main

conditions_hold : (f : ℕ) → all_true (function_conditions f) ≡ true
conditions_hold f = ground arith

all_true-append : (bs cs : List Bool) → all_true bs ≡ true → all_true (bs ++ cs) ≡ all_true cs
all_true-append [] cs h = refl
all_true-append (true ∷ bs) cs h = all_true-append bs cs h
all_true-append (false ∷ bs) cs h = absurd (ground arith)

verified_in-holds : (calls : List Call) → all_true (verified_in calls) ≡ true
verified_in-holds [] = refl
verified_in-holds (c ∷ calls) = elim c as (λ k. all_true (verified_in (k ∷ calls)) ≡ true) [
  | Call.thread_start f ↦
      all_true-append (function_conditions f) (verified_in calls) (conditions_hold f)
      ∙ verified_in-holds calls
  | _ ↦ verified_in-holds calls
]

-- Since every function verifies what is true, the flag stays as it is.
finish_lem :
    (p : Platform) (w : World)
    → (w' : World) × (end_main p w ≡ done (if w.verified then 0 else 1) w') × Grew 0 0 w w'
unfolding end_main functions_ran
finish_lem p w =
    let same : (w.verified && all_true (verified_in w.calls)) ≡ w.verified =
      rw (verified_in-holds w.calls) (ground arith) in
    let w' : World = record w { verified = w.verified && all_true (verified_in w.calls) } in
    (
      w',
      rw (exit_status_lem p w', same) refl,
      record { starts = omega arith; joins = omega arith; verified = same },
    )

begins_grown :
    (p : Platform) (w : World) → (w' : World) × (begin_realtime p w ≡ done tt w') × Grew 0 0 w w'
unfolding begin_realtime starts_in joins_in
begins_grown p w = elim (Bool-cases p.linux) [
  | inl l ↦ (
    put_calls (put_calls w Call.unlimit_memlock) Call.lock_all,
    rw l,
    record { starts = omega arith; joins = omega arith; verified = refl },
  )
  | inr l ↦ (w, rw l, record { starts = omega arith; joins = omega arith; verified = refl })
]

ends_grown :
    (p : Platform) (w : World) → (w' : World) × (end_realtime p w ≡ done tt w') × Grew 0 0 w w'
unfolding end_realtime starts_in joins_in
ends_grown p w = elim (Bool-cases p.linux) [
  | inl l ↦ (
    put_calls w Call.unlock_all,
    rw l,
    record { starts = omega arith; joins = omega arith; verified = refl },
  )
  | inr l ↦ (w, rw l, record { starts = omega arith; joins = omega arith; verified = refl })
]

grown :
    (w w' : World)
    → starts_in w'.calls ≡ starts_in w.calls + 12
    → joins_in w'.calls ≡ joins_in w.calls + 12
    → w'.verified ≡ w.verified
    → Grew 12 12 w w'
grown w w' s j v = record { starts = s; joins = j; verified = v }

-- Where the system starts and joins threads and permits the change of their scheduling, the program
-- returns: forty-eight threads are started and forty-eight are joined, those over std::thread
-- included, and with the VERIFYs of all the functions that they run, its exit status is that of the
-- verify flag at its start.
pub task_main_lem :
    (p : Platform) (w : World)
    → Serves p true
    → (w' : World) × (task_main p w ≡ done (if w.verified then 0 else 1) w')
      × (starts_in w'.calls ≡ starts_in w.calls + 48)
      × (joins_in w'.calls ≡ joins_in w.calls + 48)
unfolding task_main
task_main_lem p w s =
    let (w0, b, g0) = begins_grown p w in
    let ((u1, e1, s1, j1, v1), _) = tests_lem sched_fifo (pos 1) p w0 s refl in
    let std : Standard.test p w0 ≡ done tt u1 = rw e1 at (test_follows p w0) in
    let ((u2, e2, s2, j2, v2), _) = tests_lem sched_fifo (pos 1) p u1 s refl in
    let (_, (u3, e3, s3, j3, v3)) = tests_lem sched_fifo (pos 1) p u2 s refl in
    let (_, (u4, e4, s4, j4, v4)) = tests_lem sched_rr (pos 2) p u3 s refl in
    let (w5, e, g5) = ends_grown p u4 in
    let (w6, r, g6) = finish_lem p w5 in
    let before : w5.verified ≡ w.verified = g5.verified ∙ v4 ∙ v3 ∙ v2 ∙ v1 ∙ g0.verified in
    let g = Grew-add g0 (
      Grew-add (grown w0 u1 s1 j1 v1) (
        Grew-add (grown u1 u2 s2 j2 v2)
          (Grew-add (grown u2 u3 s3 j3 v3) (Grew-add (grown u3 u4 s4 j4 v4) (Grew-add g5 g6))))) in
    (
      w6,
      rw (b, std, e2, e3, e4, e, r) (rw before refl),
      omega (arith, g.starts),
      omega (arith, g.joins),
    )
