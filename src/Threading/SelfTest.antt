-- ===== src/Threading/SelfTest.antt =====
-- tests/base_02_thread.cc: the conversions of the units of include/base/chrono.h, and a thread
-- without real-time priority, verified before and after its join. The thread's own VERIFY compares the
-- text behind its argument with the text that `main` has put there; pthread_self() is not used.
use libpreempt.Prelude.{
  ℕ, ◌≡◌, refl, Bool, true, false, not, ◌&&◌, some, pos, if◌then◌else◌, arith, ◌∙◌, ap, ◌<◌, eqb_ℤ,
}
use libpreempt.Machine.{
  M, Platform, World, done, sched_other, Call, ◌>>=◌, ◌>>◌, failed, put_calls, pure,
}
use libpreempt.Text.{Text}
use libpreempt.Text.Literal.{codes, same_text}
use libpreempt.Verify.{verify, exit_status}
use libpreempt.Numeric.{Floating, round_to_nearest}
use libpreempt.Chrono.{sec_to_nsec, sec_to_usec, thousandfold, nsec_to_sec, usec_to_sec, thousandth}
use libpreempt.Threading.{Thread, create_normal, join}
use libpreempt.Verify.Laws.{verify_lem, exit_status_lem}
use libpreempt.Threading.Create.{
  join_lem, last_handle, run_steps, creation, is_none, create-Follows,
}

unfoldable pub self_check : Thread → M ℕ
self_check context = do
  verify context.joinable
  context' ← join context
  verify (not context'.joinable)
  exit_status

-- X
abbrev pub text : Text
text = codes "Om Gam Ganapataye Namaha"

-- `thread_function`, given the text behind its argument.
unfoldable pub thread_function : Text → M (Unit {0})
thread_function arg = do verify (same_text arg text); pure tt

-- The first part of `main`; `equal` is the `==` of double.
unfoldable pub check_units : {A : Type 0} → Floating A → (A → A → Bool) → M (Unit {0})
unfolding sec_to_nsec sec_to_usec thousandfold nsec_to_sec usec_to_sec thousandth
check_units d equal = do
  verify (eqb_ℤ (sec_to_nsec d (d.of_ℤ (pos 1))) (pos 1000000000))
  verify (equal (sec_to_usec d (d.of_ℤ (pos 1))) (d.of_ℤ (pos 1000000)))
  verify (equal (thousandfold d (d.of_ℤ (pos 1))) (d.of_ℤ (pos 1000)))
  verify (equal (nsec_to_sec d (pos 1000000000)) (d.of_ℤ (pos 1)))
  verify (equal (usec_to_sec d (d.of_ℤ (pos 1000000))) (d.of_ℤ (pos 1)))
  verify (equal (thousandth d (d.of_ℤ (pos 1000))) (d.of_ℤ (pos 1)))
  pure tt

unfoldable pub self_test : ℕ → ℕ → M ℕ
self_test funp argp = create_normal (some funp) argp >>= self_check

-- `main`
unfoldable pub test_main : {A : Type 0} → Floating A → (A → A → Bool) → ℕ → ℕ → M ℕ
unfolding check_units self_test
test_main d equal funp argp = do check_units d equal; self_test funp argp

-- What the three steps of the test do to the flag.
status :
    (joinable bad bad' flag1 joinable' flag2 : Bool)
    → flag1 ≡ (true && joinable)
    → flag2 ≡ (flag1 && not joinable')
    → joinable' ≡ (joinable && bad')
    → (joinable ≡ true → bad' ≡ bad)
    → flag2 ≡ (joinable && not bad)
status joinable bad bad' flag1 joinable' flag2 a b c d = ground arith

taken {ℓ} : {A : Type ℓ} (b : Bool) (x y z : A) → x ≡ (if b then y else z) → b ≡ true → x ≡ y
taken b x y z e h = e ∙ rw h

self_check_lem :
    (t : Thread) (p : Platform) (w : World)
    → w.verified ≡ true
    → (w' : World) × (self_check t p w
        ≡ done
            (if t.joinable && not (failed (p.code w.calls (Call.pthread_join t.id))) then 0 else 1)
            w')
unfolding self_check
self_check_lem t p w h =
    let (w1, first, flag1, calls1) = verify_lem t.joinable p w in
    let (t', joined, left) = join_lem t p w1 in
    let (w2, second, flag2, _) =
      verify_lem (not t'.joinable) p (put_calls w1 (Call.pthread_join t.id)) in
    (
      w2,
      rw (first, joined, second, exit_status_lem)
          (rw (
            status t.joinable _ _ w1.verified t'.joinable w2.verified
              (flag1 ∙ ap (λ (b : Bool). b && t.joinable) h) flag2 left
              (λ j.
                ap (λ c. failed (p.code c (Call.pthread_join t.id)))
                  (taken t.joinable _ _ _ calls1 j)))),
    )

-- Only the handle of a joinable thread counts.
with_handle :
    (joinable : Bool) (id id' : ℕ) (k : ℕ → Bool)
    → (joinable ≡ true → id ≡ id')
    → (joinable && k id) ≡ (joinable && k id')
with_handle true id id' k h = ap k (h refl)
with_handle false id id' k h = refl

-- Started with the verify flag set, the test returns EXIT_SUCCESS (0) exactly if every call of the
-- table that creates the thread succeeds and the join of its handle succeeds after them; otherwise it returns
-- EXIT_FAILURE (1).
self_test_lem :
    (funp argp : ℕ) (p : Platform) (w : World)
    → w.verified ≡ true
    → (w' : World) × (self_test funp argp p w
        ≡ done
            (if is_none (run_steps p (creation sched_other (pos 0) funp argp) w.calls).1
                && not (
                    failed (
                      p.code (run_steps p (creation sched_other (pos 0) funp argp) w.calls).0 (
                        Call.pthread_join (
                          last_handle p
                            (run_steps p (creation sched_other (pos 0) funp argp) w.calls).0))))
              then 0
              else 1)
            w')
unfolding self_test create_normal
self_test_lem funp argp p w h =
    let f = create-Follows sched_other (pos 0) funp argp p w refl in
    let (w', runs) = self_check_lem f.thread p f.after (f.verifies ∙ h) in
    (
      w',
      rw (f.runs, ← f.follows, ← f.joins)
          (runs
            ∙ ap (λ (b : Bool). done (if b then 0 else 1) w')
                (with_handle f.thread.joinable f.thread.id (last_handle p f.after.calls)
                  (λ id. not (failed (p.code f.after.calls (Call.pthread_join id)))) f.owns)),
    )

-- What binary64 has for the integers of the test, which are below 2 ^ 31: they are equal to themselves,
-- the product with 1 and the quotient of a number and itself are exact, and the sum with .5 is
-- rounded to a number with the same floor.
pub record IsBinary {A : Type 0} (d : Floating A) (equal : A → A → Bool) : Type 0 where
  pub reflexive : (n : ℕ) → n < 2147483648 → equal (d.of_ℤ (pos n)) (d.of_ℤ (pos n)) ≡ true
  pub product :
      (n : ℕ) → n < 2147483648 → d.multiply (d.of_ℤ (pos 1)) (d.of_ℤ (pos n)) ≡ d.of_ℤ (pos n)
  pub quotient :
      (n : ℕ) → 0 < n → n < 2147483648 → d.divide (d.of_ℤ (pos n)) (d.of_ℤ (pos n)) ≡ d.of_ℤ (pos 1)
  pub rounding : (n : ℕ) → n < 2147483648 → d.floor (d.plus (d.of_ℤ (pos n)) d.half) ≡ pos n

check_units_lem :
    {A : Type 0} (d : Floating A) (equal : A → A → Bool) (p : Platform) (w : World)
    → IsBinary d equal
    → check_units d equal p w ≡ done tt w
unfolding check_units verify round_to_nearest
check_units_lem d equal p w b = rw (
  b.product 1000000000 (omega arith),
  b.rounding 1000000000 (omega arith),
  b.product 1000000 (omega arith),
  b.product 1000 (omega arith),
  b.quotient 1000000000 (omega arith) (omega arith),
  b.quotient 1000000 (omega arith) (omega arith),
  b.quotient 1000 (omega arith) (omega arith),
  b.reflexive 1000000 (omega arith),
  b.reflexive 1000 (omega arith),
  b.reflexive 1 (omega arith),
)

-- Started with the verify flag set, and where the integers of the test are exact as `double`, the
-- program returns EXIT_SUCCESS (0) exactly if every call of the table that creates the thread succeeds
-- and the join of the handle that the system gave with the last of them succeeds after them; otherwise
-- it returns EXIT_FAILURE (1). Its conversions of the units all hold and change nothing, and neither does
-- its thread's VERIFY of the text X.
pub test_main_lem :
    {A : Type 0} (d : Floating A) (equal : A → A → Bool) (funp argp : ℕ) (p : Platform) (w : World)
    → IsBinary d equal
    → w.verified ≡ true
    → ((w' : World) × (test_main d equal funp argp p w
          ≡ done
              (if is_none (run_steps p (creation sched_other (pos 0) funp argp) w.calls).1
                  && not (
                      failed (
                        p.code (run_steps p (creation sched_other (pos 0) funp argp) w.calls).0 (
                          Call.pthread_join (
                            last_handle p
                              (run_steps p (creation sched_other (pos 0) funp argp) w.calls).0))))
                then 0
                else 1)
              w'))
      × (check_units d equal p w ≡ done tt w)
      × (thread_function text p w ≡ done tt w)
unfolding test_main thread_function verify
test_main_lem d equal funp argp p w b h =
    let checked = check_units_lem d equal p w b in
    let (w', runs) = self_test_lem funp argp p w h in ((w', rw checked runs), checked, refl)
