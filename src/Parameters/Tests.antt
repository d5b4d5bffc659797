-- ===== src/Parameters/Tests.antt =====
-- The theorems on `depends_on` for two threads in the middle of their calls.
use libpreempt.Prelude.{total, ℕ, ◌+◌, ◌<◌, ◌≡◌, ◌≢◌, refl, false, none, arith}
use libpreempt.Parameters.{
  Params, idle, System, Step, call_set, call_get, lock_set, write_first, write_second, return_set,
  lock_get, read_first, read_second, return_get, Reach, here, next,
}
use libpreempt.Parameters.Atomic.{Register, mutual_exclusion, reach-Register}
use libpreempt.Parameters.Progress.{steps_left, begins, Finishing, calls-return}

abbrev old : Params ℕ
old = record { first = 1; second = 2 }

abbrev new : Params ℕ
new = record { first = 7; second = 8 }

-- Thread 0 has written the first part, and thread 1 waits for the lock.
abbrev torn : (s : System ℕ) × Reach 2 old s
torn = (
  _,
  next
      (next
        (next (next here (call_set 0 new (omega arith) refl))
          (lock_set 0 new (omega arith) refl refl))
        (call_get 1 (omega arith) refl))
      (write_first 0 new (omega arith) refl),
)

-- Both calls have returned.
abbrev quiet : (s : System ℕ) × Reach 2 old s
quiet = (
  _,
  next
      (next
        (next
          (next
            (next (next torn.1 (write_second 0 new (omega arith) refl))
              (return_set 0 new (omega arith) refl))
            (lock_get 1 (omega arith) refl refl))
          (read_first 1 (omega arith) refl))
        (read_second 1 7 (omega arith) refl))
      (return_get 1 new (omega arith) refl),
)

mutual_exclusion_example : ◌≡◌ {A = ℕ} 0 0
mutual_exclusion_example = mutual_exclusion torn.1 0 0 refl refl

reach-Register_example :
    (now : Params ℕ) × Register old quiet.0.history now
    × (quiet.0.owner ≡ none → quiet.0.params ≡ now)
reach-Register_example = reach-Register quiet.1

calls-return_example :
    ((i : ℕ)
      → i < 2
      → torn.0.pc i ≢ idle
      → (t : System ℕ) × (st : Step 2 torn.0 t) × (begins st ≡ false))
    × ((k : ℕ) (t : System ℕ)
        → Finishing 2 k torn.0 t
        → total steps_left 2 t.pc + k ≡ total steps_left 2 torn.0.pc)
    × ((t : System ℕ) × Finishing 2 (total steps_left 2 torn.0.pc) torn.0 t
        × ((i : ℕ) → t.pc i ≡ idle))
calls-return_example = calls-return torn.1
