-- ===== src/Decrement/Tests.antt =====
-- The theorems on the decrement tests at concrete orders.
use libpreempt.Prelude.{
  ◌≡◌, refl, true, none, some, length, false, ◌↔◌, ◌⊎◌, ◌++◌, ℕ, [], ◌∷◌, ℤ, List, pos, replicate,
}
use libpreempt.Decrement.{Shared, expected_values}
use libpreempt.Machine.{World, done, stopped, exit_failure, Message, Call, sched_fifo}
use libpreempt.Machine.Samples.{calm, fresh}
use libpreempt.Threading.{Thread}
use libpreempt.Threading.Create.{run_steps}
use libpreempt.Decrement.Creation.{
  start_all, run_threads, creations, handles, joins_on, joins_of, run_threads_lem, all_joinable,
  text_of,
}
use libpreempt.Decrement.Fifo.{create_handles, join_handles, fifo_main, fifo_main_lem}
use libpreempt.Process.{begin_realtime}

abbrev start : Shared
start = record { global_value = pos 0; verified = true }

-- The last two threads have changed places.
abbrev disorder : List ℤ
disorder = pos 9 ∷ pos 8 ∷ pos 7 ∷ pos 6 ∷ pos 5 ∷ pos 4 ∷ pos 3 ∷ pos 2 ∷ pos 0 ∷ pos 1 ∷ []

abbrev table : List ℤ
table = pos 30 ∷ pos 20 ∷ pos 10 ∷ []

abbrev three : List ℤ
three = pos 3 ∷ pos 2 ∷ pos 1 ∷ []

abbrev six : List ℤ
six = pos 6 ∷ pos 5 ∷ pos 4 ∷ three

run_threads_lem_example :
    ((run_steps calm (creations sched_fifo 0 table) fresh.calls).1 ≡ none
      → (contexts : List Thread) × (w1 : World) × (w' : World) × (start_all sched_fifo 0 table calm
            fresh
          ≡ done contexts w1)
        × (length contexts ≡ length table)
        × (run_threads sched_fifo table calm fresh ≡ done tt w')
        × (w'.calls
            ≡ joins_on
                (handles calm sched_fifo 0 table fresh.calls)
                (run_steps calm (creations sched_fifo 0 table) fresh.calls).0)
        × (w'.verified ≡ fresh.verified))
    × ((text : Message)
        → (run_steps calm (creations sched_fifo 0 table) fresh.calls).1 ≡ some text
        → (w' : World) × (run_threads sched_fifo table calm fresh ≡ stopped exit_failure w')
          × (w'.calls
              ≡ Call.print text ∷ (run_steps calm (creations sched_fifo 0 table) fresh.calls).0))
run_threads_lem_example = run_threads_lem sched_fifo table calm fresh refl

-- The system of this test creates all the threads.
all_created : (run_steps calm (creations sched_fifo 0 table) fresh.calls).1 ≡ none
unfolding run_steps
all_created = refl

-- With the order of their creation; a system that creates all threads.
abbrev in_order : List ℤ
in_order = pos 9 ∷ pos 8 ∷ pos 7 ∷ pos 6 ∷ pos 5 ∷ pos 4 ∷ pos 3 ∷ pos 2 ∷ pos 1 ∷ pos 0 ∷ []

fifo_main_lem_example :
    (ts : List Thread) × (w0 : World) × (w1 : World) × (n : ℕ) × (w2 : World) × (begin_realtime calm
        fresh
      ≡ done tt w0)
    × (create_handles 10 0 calm w0 ≡ done ts w1)
    × (length ts ≡ 10)
    × (fifo_main in_order calm fresh ≡ done n w2)
    × (((all_joinable ts ≡ true)
          × (join_handles ts calm w1
              ≡ done true (record w1 {
                calls =
                    joins_on (handles calm sched_fifo 0 (replicate 10 (pos 1)) w0.calls) w1.calls;
              }))
          × ((n ≡ 0) ↔ (in_order ≡ expected_values 9 0 10)))
        ⊎ ((first : List Thread) × (t : Thread) × (others : List Thread) × (ts
              ≡ first ++ t ∷ others)
            × (all_joinable first ≡ true)
            × (t.joinable ≡ false)
            × (n ≡ 1)
            × (w2.calls ≡ Call.print (text_of t.last_error) ∷ joins_of first w1.calls)))
fifo_main_lem_example = fifo_main_lem in_order calm fresh refl refl
