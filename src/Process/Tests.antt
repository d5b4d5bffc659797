-- ===== src/Process/Tests.antt =====
-- The theorems on the process at concrete platforms.
use libpreempt.Prelude.{
  Bool, true, List, ◌≡◌, ◌+◌, eqb_ℤ, length, not, [], false, refl, ◌∷◌, if◌then◌else◌,
}
use libpreempt.Machine.{World, done, stopped, exit_failure, Call, put_calls}
use libpreempt.Machine.Samples.{calm, latency, fresh}
use libpreempt.Process.{minus_one, request_cpu_latency}
use libpreempt.Process.Laws.{locked}
use libpreempt.Process.Interface.{
  process, Request, begin, finish, lock, ask_each, asked_of, sure_after, possible_after, follow,
  implies, requests_lem,
}
use libpreempt.Process.Requests.{
  request, reset, run_each, requested, repeated, Grants, run_each_lem,
}
use libpreempt.Process.Latency.{open_fds, granted, found, descriptor, request_cpu_latency_lem}

-- The world behind a granted request.
abbrev after_request : World
after_request =
    record (put_calls (put_calls (put_calls fresh Call.stat_latency) Call.open_latency)
      (Call.write_latency (descriptor latency fresh) 0)) { cpu_dma = descriptor latency fresh }

request_runs : request_cpu_latency 0 latency fresh ≡ done tt after_request
unfolding request_cpu_latency
request_runs = refl

request_cpu_latency_lem_example :
    (w' : World) × (request_cpu_latency 0 latency fresh
      ≡ (if granted 0 latency fresh then done tt w' else stopped exit_failure w'))
    × (w'.cpu_dma ≡ (
        if granted 0 latency fresh
        then descriptor latency fresh
        else if found latency fresh
        then minus_one
        else fresh.cpu_dma))
    × (open_fds latency w'.calls ≡ (
        if granted 0 latency fresh
        then descriptor latency fresh ∷ open_fds latency fresh.calls
        else open_fds latency fresh.calls))
request_cpu_latency_lem_example = request_cpu_latency_lem 0 latency fresh refl

latency-Grants : Grants latency
latency-Grants c w = refl

run_each_lem_example :
    (w' : World) × (run_each (request 0 ∷ request 1 ∷ reset ∷ request 2 ∷ []) latency fresh
      ≡ done tt w')
    × (eqb_ℤ w'.cpu_dma minus_one
        ≡ not (requested false (request 0 ∷ request 1 ∷ reset ∷ request 2 ∷ [])))
    × (length (open_fds latency w'.calls)
        ≡ length (open_fds latency fresh.calls)
          + repeated false (request 0 ∷ request 1 ∷ reset ∷ request 2 ∷ [])
          + (if requested false (request 0 ∷ request 1 ∷ reset ∷ request 2 ∷ []) then 1 else 0))
run_each_lem_example =
    run_each_lem (request 0 ∷ request 1 ∷ reset ∷ request 2 ∷ []) latency fresh refl latency-Grants
      refl

-- Of the three descriptors that were opened, one is lost and one is kept.
run_opens : repeated false (request 0 ∷ request 1 ∷ reset ∷ request 2 ∷ []) ≡ 1
run_opens = refl

-- The pages are locked by `begin_realtime`, which does not say so, and by `lock_all_pages`, which does.
abbrev steps : List Request
steps = begin ∷ lock ∷ finish ∷ lock ∷ []

requests_lem_example :
    (bs : List Bool) × (w' : World) × (ask_each process steps calm fresh ≡ done bs w')
    × (w'.calls ≡ asked_of steps fresh.calls)
    × (implies (follow sure_after (locked calm fresh.calls) steps bs) (locked calm w'.calls) ≡ true)
    × (implies (locked calm w'.calls) (follow possible_after (locked calm fresh.calls) steps bs)
        ≡ true)
requests_lem_example = requests_lem steps calm fresh refl
