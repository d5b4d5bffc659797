-- ===== src/Trace/Tests.antt =====
-- The theorems on tracing at a concrete platform.
use libpreempt.Prelude.{none, ◌≡◌, refl, [], ◌∷◌, arith}
use libpreempt.Machine.Samples.{calm}
use libpreempt.Text.{Text}
use libpreempt.Text.Fields.{IsFree}
use libpreempt.Trace.{newline}
use libpreempt.Trace.Threads.{time, text, line, System, Reach}
use libpreempt.Trace.Threads.Invariant.{traces, Paired}
use libpreempt.Trace.Threads.Mixed.{trace-Paired}
use libpreempt.Trace.Laws.{IsDated}

abbrev thu : Text
thu = b'T' ∷ b'h' ∷ b'u' ∷ []

abbrev hello : Text
hello = b'h' ∷ b'i' ∷ []

thu-IsFree : IsFree newline thu
thu-IsFree = omega arith

calm-IsDated : IsDated calm
calm-IsDated t = (thu, thu-IsFree, refl)

trace-Paired_example :
    ((s : System) → Reach 2 s → s.trace_owner ≡ none → Paired (traces s.out))
    × ((s : System) × Reach 2 s × (s.out ≡ text 0 ∷ line 1 ∷ time 0 ∷ []))
trace-Paired_example = trace-Paired 2 0 1 (omega arith) (omega arith) (λ e. absurd (omega arith))
