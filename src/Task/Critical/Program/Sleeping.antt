-- ===== src/Task/Critical/Program/Sleeping.antt =====
-- The program tests/task_02_deadline.cc: what its tasks do in `run()`, and the runtimes that it prints.
use libpreempt.Prelude.{
  ℕ, ◌+◌, ◌*◌, ◌<◌, ◌≤◌, subst, subst⁻¹, each, List, [], ◌∷◌, ℤ, pos, negsuc, ◌≤ℤ◌, update,
  update-same, update-other, int_laws, arith,
}
use libpreempt.Task.Critical.{to_microseconds}
use libpreempt.Task.Critical.Program.{
  Pc, unborn, hooked, running, ran, leaving, finished, System, Step, tick, start_task, all_started,
  begin, run, meet, miss, leave, join, print, all_joined, Reach, here, next,
}
use libpreempt.Task.Critical.Program.Invariant.{printed_by}
use libpreempt.Task.Critical.Program.Runtimes.{runtimes_lem}

-- The three sleeps of `SleepFor3ms::run`, in nanoseconds.
abbrev pub sleeps : List ℕ
sleeps = 1 * 1000000 ∷ 1000 * 1000 ∷ 1000000 ∷ []

-- `sleep_for`, one after the other, from a reading of the clock to a later one: none ends before its
-- time.
pub data Slept : List ℕ → ℕ → ℕ → Type 0 where
  awake : {c e : ℕ} → c ≤ e → Slept [] c e
  sleep_for : {d c m e : ℕ} {ds : List ℕ} → c + d ≤ m → Slept ds m e → Slept (d ∷ ds) c e

abbrev total : List ℕ → ℕ
total [] = 0
total (d ∷ ds) = d + total ds

Slept-total : {ds : List ℕ} {c e : ℕ} → Slept ds c e → c + total ds ≤ e
Slept-total (awake h) = omega (arith, h)
Slept-total (sleep_for h s) = omega (arith, h, Slept-total s)

-- Each `run()` that ends in the step has slept since the first reading of its clock.
abbrev pub Sleeps : {n : ℕ} {us : ℕ → ℕ} {s t : System} → Step n us s t → Type 0
Sleeps {n} {us} {s} (run i b l e m) = Slept sleeps b s.clock
Sleeps (tick now l m) = Unit
Sleeps (start_task i l e m) = Unit
Sleeps (all_started e m) = Unit
Sleeps (begin i l e m) = Unit
Sleeps (meet i b l e h m) = Unit
Sleeps (miss i b l e h m) = Unit
Sleeps (leave i l e m) = Unit
Sleeps (join i b e l at f m) = Unit
Sleeps (print i e m) = Unit
Sleeps (all_joined e m) = Unit

abbrev pub Sleeping : {n : ℕ} {us : ℕ → ℕ} {now : ℕ} {s : System} → Reach n us now s → Type 0
Sleeping here = Unit
Sleeping (next r st) = Sleeping r × Sleeps st

-- A task that has left `run()` has slept.
abbrev Slow : ℕ → Pc → Type 0
Slow clock unborn = Unit
Slow clock hooked = Unit
Slow clock (running b) = Unit
Slow clock (ran b) = b + 3000000 ≤ clock
Slow clock leaving = Unit
Slow clock (finished b e) = b + 3000000 ≤ e

Slow-later : (c d : ℕ) (p : Pc) → c ≤ d → Slow c p → Slow d p
Slow-later c d unborn h t = tt
Slow-later c d hooked h t = tt
Slow-later c d (running b) h t = tt
Slow-later c d (ran b) h t = omega (arith, h, t)
Slow-later c d leaving h t = tt
Slow-later c d (finished b e) h t = t

Slow-goes :
    (s : System) (i : ℕ) (p : Pc)
    → ((j : ℕ) → Slow s.clock (s.pc j))
    → Slow s.clock p
    → (j : ℕ) → Slow s.clock (update s.pc i p j)
Slow-goes s i p old new =
    each (λ j. Slow s.clock (update s.pc i p j)) i
      (subst⁻¹ (Slow s.clock) (update-same s.pc i p) new)
      (λ j e. subst⁻¹ (Slow s.clock) (update-other s.pc i j p e) (old j))

Step-Slow :
    {n : ℕ} {us : ℕ → ℕ} {s t : System} (st : Step n us s t)
    → Sleeps st
    → ((j : ℕ) → Slow s.clock (s.pc j))
    → (j : ℕ) → Slow t.clock (t.pc j)
Step-Slow {n} {us} {s} (run i b l e m) h old =
    Slow-goes s i (ran b) old (omega (arith, Slept-total h))
Step-Slow {n} {us} {s} (tick now l m) h old = λ j. Slow-later s.clock now (s.pc j) l (old j)
Step-Slow {n} {us} {s} (start_task i l e m) h old = Slow-goes s i hooked old tt
Step-Slow (all_started e m) h old = old
Step-Slow {n} {us} {s} (begin i l e m) h old = Slow-goes s i (running s.clock) old tt
Step-Slow {n} {us} {s} (meet i b l e d m) h old =
    Slow-goes s i (finished b s.clock) old (subst (Slow s.clock) e (old i))
Step-Slow {n} {us} {s} (miss i b l e d m) h old = Slow-goes s i leaving old tt
Step-Slow (leave i l e m) h old = old
Step-Slow (join i b e l at f m) h old = old
Step-Slow (print i e m) h old = old
Step-Slow (all_joined e m) h old = old

Reach-Slow :
    {n : ℕ} {us : ℕ → ℕ} {now : ℕ} {s : System} (r : Reach n us now s)
    → Sleeping r
    → (j : ℕ) → Slow s.clock (s.pc j)
Reach-Slow here h = λ j. tt
Reach-Slow (next r st) h = Step-Slow st h.1 (Reach-Slow r h.0)

to_microseconds_least : (us : ℕ) (n : ℤ) → pos (us * 1000) ≤ℤ n → pos us ≤ℤ to_microseconds n
unfolding to_microseconds
to_microseconds_least us (pos n) h = omega arith
to_microseconds_least us (negsuc n) h = ground arith

-- Where no `sleep_for` ends before its time, each runtime that the program of the sleeping tasks prints
-- is from 3000 microseconds, which its task sleeps, to its `Us`.
pub sleeping_lem :
    (n : ℕ) (us : ℕ → ℕ) (now : ℕ) (s : System) (r : Reach n us now s) (j : ℕ)
    → Sleeping r
    → j < printed_by n s.main
    → (pos 3000 ≤ℤ s.usec j) × (s.usec j ≤ℤ pos (us j))
sleeping_lem n us now s r j h l =
    let (_, keeps, _, _) = runtimes_lem n us now s r in
    let k = keeps j l in
    let slow : k.begun + 3000000 ≤ k.over = subst (Slow s.clock) k.stands (Reach-Slow r h j) in
    (
      subst⁻¹ (λ x. pos 3000 ≤ℤ x) k.measured (to_microseconds_least 3000 _ (omega int_laws)),
      k.bounded,
    )
