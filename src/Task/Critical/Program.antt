-- ===== src/Task/Critical/Program.antt =====
-- The programs tests/task_02_deadline.cc and tests/task_03_sort.cc: `main` starts critical tasks,
-- joins one after the other and prints each `runtime()`, while the tasks run `hook`
-- (include/preempt/task.h) at the same time. What `run()` does is left open; the clock counts
-- nanoseconds and can go on at any time, and it is taken not to run backwards, which
-- `high_resolution_clock` does not promise. The start of the threads is taken to succeed (its
-- failures: Task/Critical and Thread).
pub mod Invariant
pub mod Runtimes
pub mod Sleeping
mod Tests
use libpreempt.Prelude.{
  ℕ, suc, ◌+◌, ◌*◌, ◌<◌, ◌≤◌, ◌≡◌, Option, none, some, List, [], ◌∷◌, ℤ, pos, ◌-ℤ◌, update,
}
use libpreempt.Task.Critical.{to_microseconds}

-- Where `hook` stands, with the readings of the clock: at its start, in `run()`, before the second
-- reading, before `quick_exit`, and at its end.
pub data Pc : Type 0 where
  unborn hooked : Pc
  running ran : ℕ → Pc
  leaving : Pc
  finished : (begun over : ℕ) → Pc

pub data Main : Type 0 where
  starting joining printing : ℕ → Main
  ended : Main

pub record System : Type 0 where
  pub clock : ℕ
  pub usec : ℕ → ℤ  -- usec_ of the tasks
  pub pc : ℕ → Pc
  pub main : Main
  pub printed : List ℤ  -- newest first
  pub missed : Option ℕ  -- the task whose `hook` has ended the process

abbrev pub goes : System → ℕ → Pc → System
goes s i p = record s { pc = update s.pc i p }

-- One step of a program with `n` tasks; `us` is the argument `Us` of each. None follows the end of the
-- process.
pub data Step (n : ℕ) (us : ℕ → ℕ) (s : System) : System → Type 0 where
  tick : (now : ℕ) → s.clock ≤ now → s.missed ≡ none → Step n us s (record s { clock = now })
  start_task :
      (i : ℕ)
      → i < n
      → s.main ≡ starting i
      → s.missed ≡ none
      → Step n us s (record (goes s i hooked) { main = starting (suc i) })
  all_started : s.main ≡ starting n → s.missed ≡ none → Step n us s (record s { main = joining 0 })
  begin :
      (i : ℕ) → i < n → s.pc i ≡ hooked → s.missed ≡ none → Step n us s (goes s i (running s.clock))
  run : (i b : ℕ) → i < n → s.pc i ≡ running b → s.missed ≡ none → Step n us s (goes s i (ran b))
  meet :
      (i b : ℕ)
      → i < n
      → s.pc i ≡ ran b
      → s.clock ≤ b + us i * 1000
      → s.missed ≡ none
      → Step n us s (record (goes s i (finished b s.clock)) {
        usec = update s.usec i (to_microseconds (pos s.clock -ℤ pos b));
      })
  miss :
      (i b : ℕ)
      → i < n
      → s.pc i ≡ ran b
      → b + us i * 1000 < s.clock
      → s.missed ≡ none
      → Step n us s (record (goes s i leaving) {
        usec = update s.usec i (to_microseconds (pos s.clock -ℤ pos b));
      })
  leave :
      (i : ℕ)
      → i < n
      → s.pc i ≡ leaving
      → s.missed ≡ none
      → Step n us s (record s { missed = some i })
  join :
      (i b e : ℕ)
      → i < n
      → s.main ≡ joining i
      → s.pc i ≡ finished b e
      → s.missed ≡ none
      → Step n us s (record s { main = printing i })
  print :
      (i : ℕ)
      → s.main ≡ printing i
      → s.missed ≡ none
      → Step n us s (record s { main = joining (suc i); printed = s.usec i ∷ s.printed })
  all_joined : s.main ≡ joining n → s.missed ≡ none → Step n us s (record s { main = ended })

abbrev pub start : ℕ → System
start now = record {
  clock = now;
  usec = λ _. pos 0;
  pc = λ _. unborn;
  main = starting 0;
  printed = [];
  missed = none;
}

pub data Reach (n : ℕ) (us : ℕ → ℕ) (now : ℕ) : System → Type 0 where
  here : Reach n us now (start now)
  next : {s t : System} → Reach n us now s → Step n us s t → Reach n us now t
