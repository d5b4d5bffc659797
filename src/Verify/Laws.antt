-- ===== src/Verify/Laws.antt =====
-- What VERIFY and the two exits of include/base/verify.h leave behind.
use libpreempt.Prelude.{
  ◌≡◌, refl, Bool, true, false, Bool-cases, inl, inr, not, ◌&&◌, Option, none, some, List, [], ◌∷◌,
  ◌++◌, if◌then◌else◌, arith,
}
use libpreempt.Machine.{
  M, Platform, World, Run, bind, done, stopped, Message, Call, quick_exit_failure, terminated, ◌>>◌,
  when, pure, failed,
}
use libpreempt.Verify.{verify, exit_status, breakpoint, describe, quick_exit, terminate}

-- A test program that verifies one condition after the other.
pub verify_each : List Bool → M (Unit {0})
unfolding verify
verify_each [] = pure tt
verify_each (b ∷ bs) = verify b >> verify_each bs

abbrev pub all_true : List Bool → Bool
all_true [] = true
all_true (b ∷ bs) = b && all_true bs

pub verify_lem :
    (b : Bool) (p : Platform) (w : World)
    → (w' : World) × (verify b p w ≡ done b w')
      × (w'.verified ≡ (w.verified && b))
      × (w'.calls ≡ (if b then w.calls else Call.print Message.verification_failed ∷ w.calls))
unfolding verify
verify_lem true p w = (w, refl, ground arith, refl)
verify_lem false p w = (_, refl, ground arith, refl)

pub verify-true : (b : Bool) (p : Platform) (w : World) → b ≡ true → verify b p w ≡ done true w
unfolding verify
verify-true b p w h = rw h refl

pub exit_status_lem :
    (p : Platform) (w : World) → exit_status p w ≡ done (if w.verified then 0 else 1) w
unfolding exit_status
exit_status_lem p w = refl

-- A program of VERIFYs always runs to its end, and the flag is then true exactly when it was true
-- before and every condition held.
pub verify_each-flag :
    (bs : List Bool) (p : Platform) (w : World)
    → (w' : World) × (verify_each bs p w ≡ done tt w') × (w'.verified ≡ (w.verified && all_true bs))
unfolding verify_each
verify_each-flag [] p w = (w, refl, ground arith)
verify_each-flag (b ∷ bs) p w =
    let (w1, runs, flag, _) = verify_lem b p w in
    let (w2, rest, all) = verify_each-flag bs p w1 in (w2, rw runs rest, ground arith)

-- A test program that starts with the flag set and verifies a list of conditions returns
-- EXIT_SUCCESS (0) if all of them hold and EXIT_FAILURE (1) if one does not.
pub verify_each-exit_status :
    (bs : List Bool) (p : Platform) (w : World)
    → w.verified ≡ true
    → (w' : World) × ((verify_each bs >> exit_status) p w ≡ done (if all_true bs then 0 else 1) w')
unfolding exit_status
verify_each-exit_status bs p w h =
    let (w', runs, flag) = verify_each-flag bs p w in (w', rw (runs, flag, h))

abbrev pub is_debugged : Platform → Bool
is_debugged p = elim p.debugger [
  | none ↦ false
  | some env ↦ elim env [ [] ↦ false | c ∷ cs ↦ true ]
]

abbrev traps : Platform → List Call
traps p = if not p.ndebug && is_debugged p then Call.trap ∷ [] else []

breakpoint_lem :
    (p : Platform) (w : World)
    → when (not p.ndebug) (breakpoint false) p w ≡ done tt (record w { calls = traps p ++ w.calls })
unfolding breakpoint
breakpoint_lem p w = elim (Bool-cases p.ndebug) [
  | inl e ↦ rw e
  | inr e ↦ elim (Bool-cases (is_debugged p)) [ inl d ↦ rw (e, d) | inr d ↦ rw (e, d) ]
]

-- What both exits say: the description, through `perror` if an error number is set.
abbrev pub announcement : Option Message → Platform → World → List Call
announcement (some descr) p w =
    (if failed (p.code w.calls Call.read_errno) then Call.perror descr else Call.print descr)
    ∷ Call.read_errno
    ∷ w.calls
announcement none p w =
    (if failed (p.code w.calls Call.read_errno) then Call.perror Message.empty ∷ [] else [])
    ++ Call.read_errno ∷ w.calls

describe_lem :
    (descr : Option Message) (p : Platform) (w : World)
    → describe descr p w ≡ done tt (record w { calls = announcement descr p w })
unfolding describe
describe_lem (some descr) p w = refl
describe_lem none p w = elim (Bool-cases (failed (p.code w.calls Call.read_errno))) [
  | inl e ↦ rw e
  | inr e ↦ rw e
]

abbrev pub exit_calls : Option Message → Platform → World → List Call
exit_calls descr p w =
    (if not p.ndebug && is_debugged p then Call.trap ∷ [] else [])
    ++ Call.flush_stderr ∷ Call.flush_stdout ∷ announcement descr p w

pub quick_exit_lem {ℓ} :
    {A : Type ℓ} (descr : Option Message) (p : Platform) (w : World)
    → quick_exit {A = A} descr p w
      ≡ stopped quick_exit_failure (record w { calls = exit_calls descr p w })
unfolding quick_exit
quick_exit_lem descr p w = rw (describe_lem, breakpoint_lem)

-- Nothing that would follow is run.
pub quick_exit-bind {ℓ κ} :
    {A : Type ℓ} {B : Type κ} (descr : Option Message) (p : Platform) (w : World)
    (f : A → World → Run B)
    → bind (quick_exit {A = A} descr p w) f ≡ quick_exit {A = B} descr p w
quick_exit-bind {A} {B} descr p w f =
    rw (quick_exit_lem {A = A} descr p w, quick_exit_lem {A = B} descr p w)

-- Both exits end the process after the same announcement; `quick_exit` then flushes stdout and
-- stderr and, in a debug build under a debugger, stops at a breakpoint. `terminate` does neither.
terminate-quick_exit :
    (descr : Option Message) (p : Platform) (w : World)
    → (terminate {A = Unit {0}} descr p w
        ≡ stopped terminated (record w { calls = announcement descr p w }))
      × (quick_exit {A = Unit {0}} descr p w
          ≡ stopped quick_exit_failure (record w {
            calls =
                (if not p.ndebug && is_debugged p then Call.trap ∷ [] else [])
                ++ Call.flush_stderr ∷ Call.flush_stdout ∷ announcement descr p w;
          }))
unfolding terminate
terminate-quick_exit descr p w = (rw describe_lem, quick_exit_lem descr p w)
