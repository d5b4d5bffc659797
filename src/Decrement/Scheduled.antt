-- ===== src/Decrement/Scheduled.antt =====
-- `run` of tests/preempt_03_decrement.cc while its threads run: `main`, a thread without real-time
-- priority, creates the threads, joins them and verifies the global number; each thread verifies,
-- reads and writes it in steps of its own. Which of them goes on is the system's choice, the
-- parameter `runs`. The creation is taken to succeed (its failures: Decrement/Creation).
pub mod Invariant
pub mod OneCpu
pub mod TwoCpus
mod Tests
use libpreempt.Prelude.{
  ℕ, suc, ◌<◌, ◌≡◌, Bool, true, false, ◌&&◌, not, ℤ, pos, ◌-ℤ◌, eqb_ℤ, update, if◌then◌else◌,
}

-- What a thread does next; `writing` keeps what was read.
pub data Pc : Type 0 where
  unborn verifying reading : Pc
  writing : ℤ → Pc
  finished : Pc

-- The loops of `run`, with their counter.
pub data Main : Type 0 where
  creating joining : ℕ → Main
  ended : Main

pub record System : Type 0 where
  pub value : ℤ  -- global_value
  pub verified : Bool  -- base::g_verify_flag
  pub main : Main
  pub pc : ℕ → Pc

pub data Runner : Type 0 where
  main_thread : Runner
  thread : ℕ → Runner

abbrev pub goes : System → ℕ → Pc → System
goes s i p = record s { pc = update s.pc i p }

-- One step of `run` with `n` threads.
pub data Step (n : ℕ) (runs : System → Runner → Bool) (s : System) : System → Type 0 where
  create :
      (i : ℕ)
      → i < n
      → s.main ≡ creating i
      → runs s main_thread ≡ true
      → Step n runs s (record (goes s i verifying) { main = creating (suc i) })
  created_all :
      s.main ≡ creating n
      → runs s main_thread ≡ true
      → Step n runs s (record s { main = joining 0 })
  join :
      (i : ℕ)
      → i < n
      → s.main ≡ joining i
      → s.pc i ≡ finished
      → runs s main_thread ≡ true
      → Step n runs s (record s { main = joining (suc i) })
  joined_all :
      s.main ≡ joining n
      → runs s main_thread ≡ true
      → Step n runs s (record s { main = ended; verified = s.verified && eqb_ℤ s.value (pos 0) })
  verify :
      (i : ℕ)
      → i < n
      → s.pc i ≡ verifying
      → runs s (thread i) ≡ true
      → Step n runs s
          (record (goes s i reading) { verified = s.verified && eqb_ℤ s.value (pos n -ℤ pos i) })
  read :
      (i : ℕ)
      → i < n
      → s.pc i ≡ reading
      → runs s (thread i) ≡ true
      → Step n runs s (goes s i (writing s.value))
  write :
      (i : ℕ) (v : ℤ)
      → i < n
      → s.pc i ≡ writing v
      → runs s (thread i) ≡ true
      → Step n runs s (record (goes s i finished) { value = v -ℤ pos 1 })

-- Behind the first loop of `run`, with the verify flag `b`.
abbrev pub start : ℕ → Bool → System
start n b = record { value = pos n; verified = b; main = creating 0; pc = λ _. unborn }

-- What is reached from `s0` in so many steps.
pub data Reach (n : ℕ) (runs : System → Runner → Bool) (s0 : System) : ℕ → System → Type 0 where
  here : Reach n runs s0 0 s0
  next : {k : ℕ} {s t : System} → Reach n runs s0 k s → Step n runs s t → Reach n runs s0 (suc k) t

-- Created, and not at its end.
abbrev pub is_live : Pc → Bool
is_live unborn = false
is_live verifying = true
is_live reading = true
is_live (writing v) = true
is_live finished = false
