-- ===== src/Decrement/Scheduled/Tests.antt =====
-- The theorems on the scheduled threads with a scheduler that runs the first `m` threads that can run,
-- and `main` behind them.
use libpreempt.Prelude.{
  ℕ, zero, suc, ◌+◌, ◌-◌, ◌*◌, ◌<◌, ◌≤◌, ◌≡◌, ◌≢◌, ◌↔◌, refl, Bool, true, false, pos, ltb, ◌&&◌, ℤ,
  ◌-ℤ◌, eqb_ℤ, update, if◌then◌else◌, total, arith,
}
use native.Mathlib.Decide.{dec_lt}
use libpreempt.Decrement.Scheduled.{
  Pc, unborn, verifying, reading, writing, finished, ended, created_all, join, joined_all, verify,
  read, write, System, Runner, main_thread, thread, Step, create, start, Reach, here, next, is_live,
}
use libpreempt.Decrement.Scheduled.Invariant.{MainWaits}
use libpreempt.Decrement.Scheduled.OneCpu.{IsBusy, one_cpu}
use libpreempt.Decrement.Scheduled.TwoCpus.{BothRun, two_cpus}

abbrev live : Pc → ℕ
live p = if is_live p then 1 else 0

abbrev on_cpus : (m n : ℕ) → System → Runner → Bool
on_cpus m n s main_thread = ltb (total live n s.pc) m
on_cpus m n s (thread i) = ltb (total live i s.pc) m

none_live : (n : ℕ) (pc : ℕ → Pc) (j : ℕ) → total live n pc ≡ 0 → j < n → is_live (pc j) ≡ false
unfolding total
none_live zero pc j h l = absurd (omega arith)
none_live (suc n) pc j h l = elim (dec_lt j n) [
  | yes below ↦ none_live n pc j (omega (arith, h)) below
  | no last ↦ ground (arith, h)
]

no_total : (n : ℕ) (pc : ℕ → Pc) → ((j : ℕ) → j < n → is_live (pc j) ≡ false) → total live n pc ≡ 0
unfolding total
no_total zero pc h = refl
no_total (suc n) pc h = ground (arith, no_total n pc (λ j l. h j (omega arith)), h n (omega arith))

at_most_one :
    (n k : ℕ) (pc : ℕ → Pc)
    → ((j : ℕ) → j < n → j ≢ k → is_live (pc j) ≡ false)
    → total live n pc ≤ 1
unfolding total
at_most_one zero k pc h = omega arith
at_most_one (suc n) k pc h = elim (dec_lt k n) [
  | yes l ↦ ground (arith, at_most_one n k pc (λ j lt e. h j (omega arith) e), h n (omega arith))
  | no g ↦ ground (arith, no_total n pc (λ j lt. h j (omega arith) (λ e. omega arith)))
]

-- The first thread that can run.
first_live :
    (n : ℕ) (pc : ℕ → Pc)
    → 0 < total live n pc
    → (i : ℕ) × (i < n) × (is_live (pc i) ≡ true) × (total live i pc ≡ 0)
unfolding total
first_live zero pc h = absurd (omega (arith, h))
first_live (suc n) pc h = elim (dec_lt 0 (total live n pc)) [
  | yes some_live ↦ let (i, l, e, z) = first_live n pc some_live in (i, omega arith, e, z)
  | no none_before ↦ (n, omega arith, ground (arith, h), omega arith)
]

one-MainWaits : (n : ℕ) → MainWaits n (on_cpus 1 n)
one-MainWaits n s r j l = none_live n s.pc j (ground arith) l

some_live : (n : ℕ) (pc : ℕ → Pc) (j : ℕ) → j < n → is_live (pc j) ≡ true → 0 < total live n pc
some_live n pc j l e = elim (dec_lt 0 (total live n pc)) [
  | yes h ↦ h
  | no h ↦ absurd (ground (arith, none_live n pc j (omega arith) l))
]

one-IsBusy : (n : ℕ) → IsBusy n (on_cpus 1 n)
one-IsBusy n = record {
  some_thread = λ s j l e.
      let (i, below, live_i, first) = first_live n s.pc (some_live n s.pc j l e) in
      (i, below, live_i, rw first refl);
  main_alone = λ s on h. rw (no_total n s.pc h) refl;
}

below_two : (a : ℕ) → a ≤ 1 → ltb a 2 ≡ true
below_two a h = ground arith

two-BothRun : (n : ℕ) → BothRun n (on_cpus 2 n)
two-BothRun n = record {
  thread_runs = λ s i k e h. below_two _ (at_most_one i k s.pc h);
  main_runs = λ s k h. below_two _ (at_most_one n k s.pc h);
}

-- The program counters behind all the steps of a thread.
abbrev run_through : (ℕ → Pc) → ℕ → ℤ → ℕ → Pc
run_through pc i v =
    update (update (update (update pc i verifying) i reading) i (writing v)) i finished

-- Behind a run of two threads.
abbrev last : System
last = record {
  value = pos 2 -ℤ pos 1 -ℤ pos 1;
  verified =
      ((true && eqb_ℤ (pos 2) (pos 2 -ℤ pos 0)) && eqb_ℤ (pos 2 -ℤ pos 1) (pos 2 -ℤ pos 1))
      && eqb_ℤ (pos 2 -ℤ pos 1 -ℤ pos 1) (pos 0);
  main = ended;
  pc = run_through (run_through (λ _. unborn) 0 (pos 2)) 1 (pos 2 -ℤ pos 1);
}

whole_run : Reach 2 (on_cpus 1 2) (start 2 true) 12 last
unfolding total
whole_run =
    let in_0 : 0 < 2 = omega arith in
    let in_1 : 1 < 2 = omega arith in
    let r1 = next here (create 0 in_0 refl refl) in
    let r2 = next r1 (verify 0 in_0 refl refl) in
    let r3 = next r2 (read 0 in_0 refl refl) in
    let r4 = next r3 (write 0 (pos 2) in_0 refl refl) in
    let r5 = next r4 (create 1 in_1 refl refl) in
    let r6 = next r5 (verify 1 in_1 refl refl) in
    let r7 = next r6 (read 1 in_1 refl refl) in
    let r8 = next r7 (write 1 (pos 2 -ℤ pos 1) in_1 refl refl) in
    let r9 = next r8 (created_all refl refl) in
    let r10 = next r9 (join 0 in_0 refl refl refl) in
    let r11 = next r10 (join 1 in_1 refl refl refl) in next r11 (joined_all refl refl)

one_cpu_example :
    (12 ≤ 5 * 2 + 2)
    × ((last.main ≡ ended) ↔ (12 ≡ 5 * 2 + 2))
    × (12 < 5 * 2 + 2 → (t : System) × Step 2 (on_cpus 1 2) last t)
    × (last.main ≡ ended → (last.value ≡ pos 0) × (last.verified ≡ true))
one_cpu_example = one_cpu 2 true (on_cpus 1 2) 12 last (one-MainWaits 2) (one-IsBusy 2) whole_run

two_cpus_example :
    (s : System) × Reach 3 (on_cpus 2 3) (start 3 true) 8 s
    × (s.pc 0 ≡ finished)
    × (s.pc 1 ≡ finished)
    × (s.value ≡ pos (3 - 1))
    × ((k : ℕ) (t : System) → Reach 3 (on_cpus 2 3) s k t → t.verified ≡ false)
two_cpus_example = two_cpus 3 true (on_cpus 2 3) (omega arith) (two-BothRun 3)
