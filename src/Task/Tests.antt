-- ===== src/Task/Tests.antt =====
-- The theorems on the tasks at concrete platforms.
use libpreempt.Prelude.{
  ◌+◌, ◌*◌, ◌≡◌, ◌≢◌, refl, true, some, arith, [], ◌∷◌, pos, ◌+ℤ◌, ◌≤ℤ◌, ◌<ℤ◌, if◌then◌else◌,
}
use libpreempt.Machine.{World, done, threw, Message}
use libpreempt.Machine.Samples.{calm, fresh}
use libpreempt.Verify.{quick_exit}
use libpreempt.Thread.{Thread, default}
use libpreempt.Thread.SelfTest.{Serves}
use libpreempt.Task.Poly
use libpreempt.Task.Poly.Laws as PolyLaws
use libpreempt.Task.Poly.Laws.{all_joinable, joined, released, unlocked}
use libpreempt.Task.Poly.Spawning.{appending, System, Reach, spawn_unguarded}
use libpreempt.Task.Monopoly.Counts.{starts_in, joins_in}
use libpreempt.Task.Monopoly.Standard as Standard
use libpreempt.Task.Monopoly.Program.{task_main, task_main_lem}
use libpreempt.Task.Critical.{CriticalTask, hook}
use libpreempt.Task.Critical.Laws.{measured, began, ended, used, hook_lem}

abbrev first : Thread
first = record { impl = some 3; error = Message.empty }

abbrev second : Thread
second = record { impl = some 5; error = Message.empty }

poly_join_lem_example : Poly.join (first ∷ second ∷ []) calm fresh ≡ (
    if all_joinable (first ∷ second ∷ [])
    then done
        (released (first ∷ second ∷ []))
        (record fresh { calls = joined (first ∷ second ∷ []) fresh.calls })
    else threw (record fresh { calls = joined (first ∷ second ∷ []) fresh.calls }))
poly_join_lem_example = PolyLaws.poly_join_lem (first ∷ second ∷ []) calm fresh (λ calls h. refl)

abbrev idle : CriticalTask
idle = record { thread = default; usec = pos 0 }

hook_lem_example :
    (ended calm fresh ≤ℤ began calm fresh +ℤ pos (20000 * 1000)
      → (hook 20000 idle calm fresh
          ≡ done (record idle { usec = used calm fresh }) (measured fresh))
        × (used calm fresh ≤ℤ pos 20000))
    × (began calm fresh +ℤ pos (20000 * 1000) <ℤ ended calm fresh
        → (hook 20000 idle calm fresh
            ≡ quick_exit
                (some (Message.deadline_missed 20000 (used calm fresh)))
                calm
                (measured fresh))
          × (pos 20000 ≤ℤ used calm fresh))
hook_lem_example = hook_lem 20000 idle calm fresh

spawn_unguarded_example :
    ((s : System) × Reach 2 s × (s.pc 0 ≡ appending) × (s.pc 1 ≡ appending))
    × ((s : System) → Reach 2 s → s.pc 0 ≡ appending → s.owner ≢ some 0)
spawn_unguarded_example =
    spawn_unguarded 2 0 1 (omega arith) (omega arith) (λ e. absurd (omega arith))

calm-Serves : Serves calm true
calm-Serves = record {
  starts_all = λ w f. refl;
  accepts_all = λ w h policy priority. refl;
  joins_all = λ calls h. refl;
}

task_main_lem_example :
    (w' : World) × (task_main calm fresh ≡ done (if fresh.verified then 0 else 1) w')
    × (starts_in w'.calls ≡ starts_in fresh.calls + 48)
    × (joins_in w'.calls ≡ joins_in fresh.calls + 48)
task_main_lem_example = task_main_lem calm fresh calm-Serves
