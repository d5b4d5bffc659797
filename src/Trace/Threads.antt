-- ===== src/Trace/Threads.antt =====
-- `trace` and the log macros (include/base/trace.h) in several threads at a time: what stands in the
-- order of its output on stderr. `trace` locks a mutex of its own, and the macros g_logging_mutex.
pub mod Invariant
pub mod Mixed
use libpreempt.Prelude.{
  ℕ, ◌<◌, ◌≡◌, ◌≢◌, refl, sym, ◌∙◌, Bool, true, false, Option, none, some, List, [], ◌∷◌, update,
  update-same, update-other, arith,
}

-- What a thread does next: it locks, prints the time, prints the text, or is at the end of the scope.
pub data Pc : Type 0 where
  idle trace_lock trace_stamp trace_text trace_end log_lock log_line log_end : Pc

-- A piece of the output, with the thread that has printed it.
pub data Piece : Type 0 where
  time text line : ℕ → Piece

pub record System : Type 0 where
  pub trace_owner : Option ℕ  -- the static lock of `trace`
  pub log_owner : Option ℕ  -- g_logging_mutex
  pub pc : ℕ → Pc
  pub out : List Piece  -- newest first

abbrev pub goes : System → ℕ → Pc → System
goes s i p = record s { pc = update s.pc i p }

abbrev pub prints : System → ℕ → Piece → Pc → System
prints s i piece p = record s { pc = update s.pc i p; out = piece ∷ s.out }

-- One step of one of `n` threads.
pub data Step (n : ℕ) (s : System) : System → Type 0 where
  call_trace : (i : ℕ) → i < n → s.pc i ≡ Pc.idle → Step n s (goes s i Pc.trace_lock)
  lock_trace :
      (i : ℕ)
      → i < n
      → s.pc i ≡ Pc.trace_lock
      → s.trace_owner ≡ none
      → Step n s (record (goes s i Pc.trace_stamp) { trace_owner = some i })
  print_stamp :
      (i : ℕ) → i < n → s.pc i ≡ Pc.trace_stamp → Step n s (prints s i (time i) Pc.trace_text)
  print_text :
      (i : ℕ) → i < n → s.pc i ≡ Pc.trace_text → Step n s (prints s i (text i) Pc.trace_end)
  end_trace :
      (i : ℕ)
      → i < n
      → s.pc i ≡ Pc.trace_end
      → Step n s (record (goes s i Pc.idle) { trace_owner = none })
  call_log : (i : ℕ) → i < n → s.pc i ≡ Pc.idle → Step n s (goes s i Pc.log_lock)
  lock_log :
      (i : ℕ)
      → i < n
      → s.pc i ≡ Pc.log_lock
      → s.log_owner ≡ none
      → Step n s (record (goes s i Pc.log_line) { log_owner = some i })
  print_line : (i : ℕ) → i < n → s.pc i ≡ Pc.log_line → Step n s (prints s i (line i) Pc.log_end)
  end_log :
      (i : ℕ)
      → i < n
      → s.pc i ≡ Pc.log_end
      → Step n s (record (goes s i Pc.idle) { log_owner = none })

abbrev pub start : System
start = record { trace_owner = none; log_owner = none; pc = λ _. Pc.idle; out = [] }

pub data Reach (n : ℕ) : System → Type 0 where
  here : Reach n start
  next : {s t : System} → Reach n s → Step n s t → Reach n t
