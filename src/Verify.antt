-- ===== src/Verify.antt =====
-- include/base/verify.h and the verify flag of src/base.cc: VERIFY, breakpoints and the two ways out
-- of the process.
pub mod Laws
pub mod Threads
mod Tests
use libpreempt.Prelude.{
  ℕ, Bool, true, false, ◌||◌, Option, none, some, List, [], ◌∷◌, if◌then◌else◌, not,
}
use libpreempt.Machine.{
  M, Platform, World, Run, Message, Call, quick_exit_failure, terminated, ◌>>=◌, ◌>>◌, pure, stop,
  platform, world, call, perform, set_verified, when, failed,
}

-- `bool global_verify_flag()`
unfoldable pub global_verify_flag : M Bool
global_verify_flag = do w ← world; pure w.verified

-- `void global_verify_flag(bool)`
unfoldable pub set_global_verify_flag : Bool → M (Unit {0})
set_global_verify_flag v = set_verified v

unfoldable pub verify_error : M (Unit {0})
unfolding set_global_verify_flag
verify_error = do perform (Call.print Message.verification_failed); set_global_verify_flag false

-- The macro `VERIFY(expr)`.
unfoldable pub verify : Bool → M Bool
unfolding verify_error
verify expr = if expr then pure true else (do verify_error; pure false)

unfoldable pub running_under_debugger : M Bool
running_under_debugger = do
  p ← platform
  pure (elim p.debugger [ none ↦ false | some env ↦ elim env [ [] ↦ false | c ∷ cs ↦ true ] ])

unfoldable pub breakpoint : Bool → M (Unit {0})
unfolding running_under_debugger
breakpoint unconditional = do
  debugged ← running_under_debugger
  when (debugged || unconditional) (perform Call.trap)

-- The text in front of both exits.
unfoldable pub describe : Option Message → M (Unit {0})
describe (some descr) = do
  errno ← call Call.read_errno
  perform (if failed errno then Call.perror descr else Call.print descr)
describe none = do
  errno ← call Call.read_errno
  when (failed errno) (perform (Call.perror Message.empty))

unfoldable pub quick_exit {ℓ} : {A : Type ℓ} → Option Message → M A
unfolding describe breakpoint
quick_exit descr = do
  describe descr
  perform Call.flush_stdout
  perform Call.flush_stderr
  p ← platform
  when (not p.ndebug) (breakpoint false)
  stop quick_exit_failure

unfoldable pub quick_exit_at {ℓ} : {A : Type ℓ} → Option Message → M A
unfolding quick_exit
quick_exit_at descr = do perform (Call.print Message.fail_location); quick_exit descr

unfoldable pub terminate {ℓ} : {A : Type ℓ} → Option Message → M A
unfolding describe
terminate descr = do describe descr; stop terminated

unfoldable pub terminate_at {ℓ} : {A : Type ℓ} → Option Message → M A
unfolding terminate
terminate_at descr = do perform (Call.print Message.fail_location); terminate descr

-- `return global_verify_flag() ? EXIT_SUCCESS : EXIT_FAILURE;`, the last line of every test program.
unfoldable pub exit_status : M ℕ
unfolding global_verify_flag
exit_status = do ok ← global_verify_flag; pure (if ok then 0 else 1)
