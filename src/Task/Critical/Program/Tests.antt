-- ===== src/Task/Critical/Program/Tests.antt =====
-- The theorem on the programs with critical tasks at a run of two tasks of 1500 microseconds.
use libpreempt.Prelude.{
  ℕ, ◌+◌, ◌*◌, ◌<◌, ◌≤◌, ◌≡◌, refl, none, some, [], ◌∷◌, ℤ, pos, ◌-ℤ◌, ◌≤ℤ◌, update, arith,
}
use libpreempt.Task.Critical.{to_microseconds}
use libpreempt.Task.Critical.Program.{
  Pc, unborn, hooked, running, ran, finished, ended, joining, System, tick, start_task, all_started,
  begin, run, meet, join, print, all_joined, Reach, here, next,
}
use libpreempt.Task.Critical.Program.Invariant.{Missed, printed_by, runtimes}
use libpreempt.Task.Critical.Program.Runtimes.{Kept, runtimes_lem}
use libpreempt.Task.Critical.Program.Sleeping.{
  Slept, awake, sleep_for, sleeps, Sleeping, sleeping_lem,
}

-- critical_task<20000>
abbrev limits : ℕ → ℕ
limits i = 20000

abbrev stored : ℕ → ℤ
stored =
    update (update (λ _. pos 0) 0 (to_microseconds (pos 1500000 -ℤ pos 0))) 1
      (to_microseconds (pos 1500000 -ℤ pos 0))

abbrev begun_both : ℕ → Pc
begun_both =
    update (update (update (update (λ _. unborn) 0 hooked) 1 hooked) 0 (running 0)) 1 (running 0)

abbrev last : System
last = record {
  clock = 1500000;
  usec = stored;
  pc =
      update (update (update (update begun_both 1 (ran 0)) 0 (ran 0)) 0 (finished 0 1500000)) 1
        (finished 0 1500000);
  main = ended;
  printed = stored 1 ∷ stored 0 ∷ [];
  missed = none;
}

whole_run : Reach 2 limits 0 last
whole_run =
    let in_0 : 0 < 2 = omega arith in
    let in_1 : 1 < 2 = omega arith in
    let on : 0 ≤ 1500000 = omega arith in
    let early : 1500000 ≤ 0 + 20000 * 1000 = omega arith in
    let r1 = next here (start_task 0 in_0 refl refl) in
    let r2 = next r1 (start_task 1 in_1 refl refl) in
    let r3 = next r2 (all_started refl refl) in
    let r4 = next r3 (begin 0 in_0 refl refl) in
    let r5 = next r4 (begin 1 in_1 refl refl) in
    let r6 = next r5 (tick 1500000 on refl) in
    let r7 = next r6 (run 1 0 in_1 refl refl) in
    let r8 = next r7 (run 0 0 in_0 refl refl) in
    let r9 = next r8 (meet 0 0 in_0 refl early refl) in
    let r10 = next r9 (meet 1 0 in_1 refl early refl) in
    let r11 = next r10 (join 0 0 1500000 in_0 refl refl refl) in
    let r12 = next r11 (print 0 refl refl) in
    let r13 = next r12 (join 1 0 1500000 in_1 refl refl refl) in
    let r14 = next r13 (print 1 refl refl) in next r14 (all_joined refl refl)

runtimes_lem_example :
    (last.printed ≡ runtimes last.usec (printed_by 2 last.main))
    × ((j : ℕ) → j < printed_by 2 last.main → Kept (limits j) (last.usec j) (last.pc j))
    × ((i : ℕ)
        → last.missed ≡ some i
        → (i < 2) × Missed (limits i) last.clock (last.usec i) × (printed_by 2 last.main ≤ i))
    × (last.main ≡ ended → (last.printed ≡ runtimes last.usec 2) × (last.missed ≡ none))
runtimes_lem_example = runtimes_lem 2 limits 0 last whole_run

-- One task that sleeps three milliseconds, up to the print of its runtime.
abbrev slept : System
slept = record {
  clock = 3000000;
  usec = update (λ _. pos 0) 0 (to_microseconds (pos 3000000 -ℤ pos 0));
  pc =
      update (update (update (update (λ _. unborn) 0 hooked) 0 (running 0)) 0 (ran 0)) 0
        (finished 0 3000000);
  main = joining 1;
  printed = to_microseconds (pos 3000000 -ℤ pos 0) ∷ [];
  missed = none;
}

three_sleeps : Slept sleeps 0 3000000
three_sleeps = sleep_for {m = 1000000} (omega arith) (
    sleep_for {m = 2000000} (omega arith)
      (sleep_for {m = 3000000} (omega arith) (awake (omega arith))))

slept_run : (r : Reach 1 limits 0 slept) × Sleeping r
slept_run =
    let in_0 : 0 < 1 = omega arith in
    let on : 0 ≤ 3000000 = omega arith in
    let early : 3000000 ≤ 0 + 20000 * 1000 = omega arith in
    let r1 = next here (start_task 0 in_0 refl refl) in
    let r2 = next r1 (all_started refl refl) in
    let r3 = next r2 (begin 0 in_0 refl refl) in
    let r4 = next r3 (tick 3000000 on refl) in
    let r5 = next r4 (run 0 0 in_0 refl refl) in
    let r6 = next r5 (meet 0 0 in_0 refl early refl) in
    let r7 = next r6 (join 0 0 3000000 in_0 refl refl refl) in
    (next r7 (print 0 refl refl), ((((((((tt, tt), tt), tt), tt), three_sleeps), tt), tt), tt))

sleeping_lem_example : (pos 3000 ≤ℤ slept.usec 0) × (slept.usec 0 ≤ℤ pos 20000)
sleeping_lem_example = sleeping_lem 1 limits 0 slept slept_run.0 0 slept_run.1 (omega arith)
