-- ===== src/Decrement/Scheduled/TwoCpus.antt =====
-- `run` of tests/preempt_03_decrement.cc where two threads can run at the same time: it can fail.
use libpreempt.Prelude.{
  ℕ, ◌-◌, ◌<◌, ◌≤◌, ◌≡◌, ◌≢◌, refl, ◌∙◌, Bool, true, false, ◌&&◌, pos, ◌-ℤ◌, eqb_ℤ, int_laws,
  update, arith,
}
use libpreempt.Decrement.Scheduled.{
  unborn, verifying, finished, System, Runner, main_thread, thread, Step, create, created_all, join,
  joined_all, verify, read, write, start, Reach, here, next, is_live,
}

-- The documented behaviour of two processors under SCHED_FIFO, with priorities that do not rise:
-- a thread that can run does where at most one of those before it can, and `main` where at most one
-- thread can.
pub record BothRun (n : ℕ) (runs : System → Runner → Bool) : Type 0 where
  pub thread_runs :
      (s : System) (i k : ℕ)
      → is_live (s.pc i) ≡ true
      → ((j : ℕ) → j < i → j ≢ k → is_live (s.pc j) ≡ false)
      → runs s (thread i) ≡ true
  pub main_runs :
      (s : System) (k : ℕ)
      → ((j : ℕ) → j < n → j ≢ k → is_live (s.pc j) ≡ false)
      → runs s main_thread ≡ true

unequal : (n : ℕ) → 2 ≤ n → eqb_ℤ (pos n) (pos n -ℤ pos 1) ≡ false
unfolding ◌-ℤ◌
unequal n h = ground arith

down : (n : ℕ) → 2 ≤ n → pos n -ℤ pos 1 ≡ pos (n - 1)
down n h = omega int_laws

both_false : (b c : Bool) → c ≡ false → (b && c) ≡ false
both_false b c h = ground arith

Step-verified :
    {n : ℕ} {runs : System → Runner → Bool} {s t : System}
    → Step n runs s t
    → s.verified ≡ false
    → t.verified ≡ false
Step-verified (create i l m r) h = h
Step-verified (created_all m r) h = h
Step-verified (join i l m f r) h = h
Step-verified (joined_all m r) h = rw h refl
Step-verified (verify i l e r) h = rw h refl
Step-verified (read i l e r) h = h
Step-verified (write i v l e r) h = h

Reach-verified :
    {n : ℕ} {runs : System → Runner → Bool} {s0 : System} {k : ℕ} {s : System}
    → s0.verified ≡ false
    → Reach n runs s0 k s
    → s.verified ≡ false
Reach-verified h here = h
Reach-verified h (next r st) = Step-verified st (Reach-verified h r)

alone : (j : ℕ) → j ≢ 0 → is_live (update (λ _. unborn) 0 verifying j) ≡ false
alone j h = ground arith

-- The first two threads are created, and verify, read and write in turn.
turns :
    (n : ℕ) (b : Bool) (runs : System → Runner → Bool)
    → 2 ≤ n
    → BothRun n runs
    → (s : System) × Reach n runs (start n b) 8 s
      × (s.value ≡ pos n -ℤ pos 1)
      × (s.verified ≡ ((b && eqb_ℤ (pos n) (pos n -ℤ pos 0)) && eqb_ℤ (pos n) (pos n -ℤ pos 1)))
      × (s.pc 0 ≡ finished)
      × (s.pc 1 ≡ finished)
turns n b runs two both =
    let first : (s : System) → is_live (s.pc 0) ≡ true → runs s (thread 0) ≡ true =
      λ s e. both.thread_runs s 0 0 e (λ j l. absurd (omega arith)) in
    let second : (s : System) → is_live (s.pc 1) ≡ true → runs s (thread 1) ≡ true =
      λ s e. both.thread_runs s 1 0 e (λ j l other. absurd (other (omega arith))) in
    let r1 =
      next here (create 0 (omega arith) refl (both.main_runs (start n b) 0 (λ j l other. refl))) in
    let r2 =
      next r1 (create 1 (omega arith) refl (both.main_runs _ 0 (λ j l other. alone j other))) in
    let r3 = next r2 (verify 0 (omega arith) refl (first _ refl)) in
    let r4 = next r3 (verify 1 (omega arith) refl (second _ refl)) in
    let r5 = next r4 (read 0 (omega arith) refl (first _ refl)) in
    let r6 = next r5 (read 1 (omega arith) refl (second _ refl)) in
    let r7 = next r6 (write 0 (pos n) (omega arith) refl (first _ refl)) in
    let r8 = next r7 (write 1 (pos n) (omega arith) refl (second _ refl)) in
    (_, r8, refl, refl, refl, refl)

-- Where two threads can run at the same time, `run` with two or more threads can fail, from either
-- value of the flag: in eight steps it reaches a state in which the first two threads have
-- decremented the global number only once, and the verify flag is false, now and in every state that
-- is reached from there.
pub two_cpus :
    (n : ℕ) (b : Bool) (runs : System → Runner → Bool)
    → 2 ≤ n
    → BothRun n runs
    → (s : System) × Reach n runs (start n b) 8 s
      × (s.pc 0 ≡ finished)
      × (s.pc 1 ≡ finished)
      × (s.value ≡ pos (n - 1))
      × ((k : ℕ) (t : System) → Reach n runs s k t → t.verified ≡ false)
two_cpus n b runs two both =
    let (s, r, value, verified, first, second) = turns n b runs two both in
    let lost : s.verified ≡ false = verified ∙ both_false _ _ (unequal n two) in
    (s, r, first, second, value ∙ down n two, λ k t onward. Reach-verified lost onward)
