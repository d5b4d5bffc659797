-- ===== src/Examples.antt =====
-- The example programs tests/base_01_main.cc, tests/preempt_01_main.cc, tests/std_01_thread.cc,
-- tests/std_02_nonstatic.cc, tests/std_03_array.cc and tests/std_04_lambda.cc over std::thread, which is
-- the handle of the thread that it owns, if any. What their thread functions do: Examples/Functions.
pub mod Handles
pub mod Returns
pub mod Threads
pub mod Functions
use libpreempt.Prelude.{
  ℕ, zero, suc, ◌+◌, Bool, true, false, not, Option, none, some, List, [], ◌∷◌, replicate,
}
use libpreempt.Machine.{M, World, Run, ◌>>=◌, ◌>>◌, pure, done, threw, stopped}
use libpreempt.Verify.{verify, exit_status}
use libpreempt.Process.{begin_realtime, end_realtime}
use libpreempt.Thread.{owns}
use libpreempt.Thread.Class.Standard.{make, join, assign, destroy}
use libpreempt.Task.Monopoly.Standard.{mono_join, poly_join, destroy_all}
use libpreempt.Task.Monopoly.Program.{catch}

-- base_01_main.cc
unfoldable pub base_main : M ℕ
base_main = exit_status

-- preempt_01_main.cc
unfoldable pub preempt_main : M ℕ
preempt_main = do begin_realtime; end_realtime; exit_status

-- An array of `n` threads with their functions; the number stands for the function.
unfoldable pub make_each : ℕ → M (List (Option ℕ))
make_each zero = pure []
make_each (suc n) = do t ← make n; ts ← make_each n; pure (t ∷ ts)

-- std_01_thread.cc: the array is destroyed at the end of `main`, behind the single thread.
unfoldable pub functions_main : M ℕ
unfolding make_each
functions_main = do
  tha ← make_each 4
  th ← make 4
  joined ← join th
  idle ← poly_join tha
  destroy joined
  destroy_all idle
  exit_status

-- One of the three blocks of std_02_nonstatic.cc.
unfoldable pub run_once : M (Unit {0})
run_once = do th ← make 1; idle ← join th; destroy idle

-- `foo_thread_ = std::thread {...}`
unfoldable pub start_member : ℕ → Option ℕ → M (Option ℕ)
start_member f member = do
  temporary ← make f
  (th, left) ← assign member temporary
  destroy left
  pure th

-- `Task().start()` with the destructor of the temporary, and behind it those of its two members.
unfoldable pub start_temporary : M (Unit {0})
unfolding start_member
start_temporary = do
  foo ← start_member 2 none
  bar ← start_member 3 none
  foo_joined ← mono_join foo
  bar_joined ← mono_join bar
  destroy bar_joined
  destroy foo_joined

-- std_02_nonstatic.cc
unfoldable pub nonstatic_main : M ℕ
unfolding run_once start_temporary
nonstatic_main = do run_once; run_once; run_once; start_temporary; exit_status

unfoldable pub verify_idle : List (Option ℕ) → M (Unit {0})
verify_idle [] = pure tt
verify_idle (t ∷ ts) = do verify (not (owns t)); verify_idle ts

-- The second loop of std_03_array.cc, whose function is that of the third thread of the array.
unfoldable pub fill : List (Option ℕ) → M (List (Option ℕ))
fill [] = pure []
fill (t ∷ ts) = do
  temporary ← make 2
  (th, left) ← assign t temporary
  destroy left
  verify (owns th)
  ths ← fill ts
  pure (th ∷ ths)

-- The `try` of std_03_array.cc.
unfoldable pub arrays : M (Unit {0})
unfolding make_each verify_idle fill
arrays = do
  tha1 ← make_each 5
  verify_idle (replicate 10 none)
  tha2 ← fill (replicate 10 none)
  idle1 ← poly_join tha1
  idle2 ← poly_join tha2
  destroy_all idle2
  destroy_all idle1

unfoldable pub array_main : M ℕ
unfolding arrays
array_main = (λ p w. catch (arrays p w)) >> exit_status

-- std_04_lambda.cc: the function of the thread, which has run when the thread is joined.
abbrev fn : Bool → Bool
fn local = true

unfoldable pub lambda_main : M ℕ
lambda_main = do th ← make 1; idle ← join th; verify (fn false); destroy idle; exit_status
