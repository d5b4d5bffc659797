-- ===== src/Verify/Tests.antt =====
-- A concrete platform, and the theorems on VERIFY and the exits at concrete inputs.
use libpreempt.Prelude.{
  ℕ, ◌≤◌, ◌<◌, ◌≢◌, Bool, List, arith, ◌==◌, ◌≡◌, refl, true, false, [], ◌∷◌, if◌then◌else◌,
}
use libpreempt.Machine.{World, done, ◌>>◌}
use libpreempt.Machine.Samples.{calm, fresh}
use libpreempt.Verify.Threads.{
  verifying, System, Step, holds, print, clear, Reach, here, next, in_order, cost, verify_threads,
}
use libpreempt.Verify.{exit_status}
use libpreempt.Verify.Laws.{verify_each}

-- Thread 0 verifies a condition that holds, thread 1 one that fails and then one that holds.
abbrev conditions : ℕ → List Bool
conditions i = if i == 0 then true ∷ [] else false ∷ true ∷ []

-- Both have come to their end.
abbrev ended : (s : System) × Reach 2 conditions 4 s
ended = (
  _,
  next
      (next
        (next (next here (print 1 (true ∷ []) (omega arith) refl)) (holds 0 [] (omega arith) refl))
        (clear 1 (true ∷ []) (omega arith) refl))
      (holds 1 [] (omega arith) refl),
)

verify_threads_example :
    (((i : ℕ) → i < 2 → ended.0.pc i ≡ verifying [])
      → (w' : World) × ((verify_each (in_order 2 conditions) >> exit_status) calm fresh
          ≡ done (if ended.0.flag then 0 else 1) w'))
    × ((i : ℕ) → i < 2 → ended.0.pc i ≢ verifying [] → (t : System) × Step 2 ended.0 t)
    × (4 ≤ cost (in_order 2 conditions))
verify_threads_example = verify_threads 2 4 conditions ended.0 calm fresh ended.1 refl
