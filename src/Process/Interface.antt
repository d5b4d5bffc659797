-- ===== src/Process/Interface.antt =====
-- The interface include/preempt/process.h: its functions, and what its comments promise of the locked
-- pages.
use libpreempt.Prelude.{
  ℕ, ◌≡◌, refl, ap, ◌∙◌, ◌++◌, Bool, true, false, not, ◌&&◌, ◌||◌, List, [], ◌∷◌, ℤ, arith,
}
use libpreempt.Machine.{M, Platform, World, done, Call, ◌>>=◌, ◌>>◌, pure, succeeded, put_calls}
use libpreempt.Kernel
use libpreempt.Process as Process
use libpreempt.Process.Laws.{locked}

pub record RealtimeProcess : Type 0 where
  pub get_current_process_id : M ℤ
  pub get_parent_process_id : M ℤ
  pub begin_realtime : M (Unit {0})
  pub end_realtime : M (Unit {0})
  pub unlimit_lock_pages : M Bool
  pub lock_all_pages : M Bool
  pub unlock_all_pages : M Bool
  pub disable_core_file : M Bool
  pub yield : M (Unit {0})
  pub request_cpu_latency : ℕ → M (Unit {0})
  pub reset_cpu_latency : M (Unit {0})

abbrev pub process : RealtimeProcess
process = record {
  get_current_process_id = Process.get_current_process_id;
  get_parent_process_id = Process.get_parent_process_id;
  begin_realtime = Process.begin_realtime;
  end_realtime = Process.end_realtime;
  unlimit_lock_pages = Process.unlimit_lock_pages;
  lock_all_pages = Process.lock_all_pages;
  unlock_all_pages = Process.unlock_all_pages;
  disable_core_file = Process.disable_core_file;
  yield = Process.yield;
  request_cpu_latency = Process.request_cpu_latency;
  reset_cpu_latency = Process.reset_cpu_latency;
}

-- The functions of namespace this_process.
pub data Request : Type 0 where
  begin finish unlimit lock unlock no_core pause : Request

-- What the function reports; those that return nothing report no failure.
abbrev pub ask : RealtimeProcess → Request → M Bool
ask m begin = do m.begin_realtime; pure true
ask m finish = do m.end_realtime; pure true
ask m unlimit = m.unlimit_lock_pages
ask m lock = m.lock_all_pages
ask m unlock = m.unlock_all_pages
ask m no_core = m.disable_core_file
ask m pause = do m.yield; pure true

abbrev pub ask_each : RealtimeProcess → List Request → M (List Bool)
ask_each m [] = pure []
ask_each m (r ∷ rs) = do b ← ask m r; bs ← ask_each m rs; pure (b ∷ bs)

-- Whether a caller can be sure that the pages are locked behind a request and its answer, and whether
-- they can be: `begin_realtime` and `end_realtime` do not say whether the system has refused.
abbrev pub sure_after : Bool → Request → Bool → Bool
sure_after s finish b = false
sure_after s lock b = s || b
sure_after s unlock b = s && not b
sure_after s begin b = s
sure_after s unlimit b = s
sure_after s no_core b = s
sure_after s pause b = s

abbrev pub possible_after : Bool → Request → Bool → Bool
possible_after s begin b = true
possible_after s lock b = s || b
possible_after s unlock b = s && not b
possible_after s finish b = s
possible_after s unlimit b = s
possible_after s no_core b = s
possible_after s pause b = s

-- What a request asks the system for under Linux, newest first.
abbrev pub asks : Request → List Call
asks begin = Call.lock_all ∷ Call.unlimit_memlock ∷ []
asks finish = Call.unlock_all ∷ []
asks unlimit = Call.unlimit_memlock ∷ []
asks lock = Call.lock_all ∷ []
asks unlock = Call.unlock_all ∷ []
asks no_core = Call.zero_core_limit ∷ []
asks pause = Call.yield_cpu ∷ []

abbrev pub asked_of : List Request → List Call → List Call
asked_of [] calls = calls
asked_of (r ∷ rs) calls = asked_of rs (asks r ++ calls)

-- Behind a sequence of requests with their answers.
abbrev pub follow : (Bool → Request → Bool → Bool) → Bool → List Request → List Bool → Bool
follow f s [] bs = s
follow f s (r ∷ rs) [] = s
follow f s (r ∷ rs) (b ∷ bs) = follow f (f s r b) rs bs

abbrev pub implies : Bool → Bool → Bool
implies a b = not a || b

self : (b : Bool) → implies b b ≡ true
self b = ground arith

module _ (p : Platform) (l : p.linux ≡ true) where
  asked :
      (r : Request) (s m : Bool) (w : World)
      → implies s (locked p w.calls) ≡ true
      → implies (locked p w.calls) m ≡ true
      → (b : Bool) × (w' : World) × (ask process r p w ≡ done b w')
        × (w'.calls ≡ asks r ++ w.calls)
        × (implies (sure_after s r b) (locked p w'.calls) ≡ true)
        × (implies (locked p w'.calls) (possible_after m r b) ≡ true)
  unfolding locked Process.begin_realtime Process.end_realtime Process.unlimit_lock_pages
      Process.lock_all_pages Process.unlock_all_pages Process.disable_core_file Process.yield
      Kernel.yield
  asked begin s m w h k = (
    true,
    put_calls (put_calls w Call.unlimit_memlock) Call.lock_all,
    rw l refl,
    refl,
    ground arith,
    ground arith,
  )
  asked finish s m w h k =
      (true, put_calls w Call.unlock_all, rw l refl, refl, ground arith, ground arith)
  asked unlimit s m w h k = (
    succeeded (p.code w.calls Call.unlimit_memlock),
    put_calls w Call.unlimit_memlock,
    rw l refl,
    refl,
    h,
    k,
  )
  asked lock s m w h k = (
    succeeded (p.code w.calls Call.lock_all),
    put_calls w Call.lock_all,
    rw l refl,
    refl,
    ground arith,
    ground arith,
  )
  asked unlock s m w h k = (
    succeeded (p.code w.calls Call.unlock_all),
    put_calls w Call.unlock_all,
    rw l refl,
    refl,
    ground arith,
    ground arith,
  )
  asked no_core s m w h k = (_, put_calls w Call.zero_core_limit, refl, refl, h, k)
  asked pause s m w h k = (true, put_calls w Call.yield_cpu, rw l refl, refl, h, k)

  asked_each :
      (rs : List Request) (s m : Bool) (w : World)
      → implies s (locked p w.calls) ≡ true
      → implies (locked p w.calls) m ≡ true
      → (bs : List Bool) × (w' : World) × (ask_each process rs p w ≡ done bs w')
        × (w'.calls ≡ asked_of rs w.calls)
        × (implies (follow sure_after s rs bs) (locked p w'.calls) ≡ true)
        × (implies (locked p w'.calls) (follow possible_after m rs bs) ≡ true)
  asked_each [] s m w h k = ([], w, refl, refl, h, k)
  asked_each (r ∷ rs) s m w h k =
      let (b, w1, e, c, h1, k1) = asked r s m w h k in
      let (bs, w', es, cs, h', k') =
        asked_each rs (sure_after s r b) (possible_after m r b) w1 h1 k1 in
      (b ∷ bs, w', rw (e, es) refl, cs ∙ ap (asked_of rs) c, h', k')

-- Under Linux any sequence of requests to this_process returns and asks the system for what the table
-- says, in its order, whatever the system answers. The pages are locked at the end where the answers of
-- `lock_all_pages` and `unlock_all_pages` make that sure to a caller that knows whether they were at
-- first, and where they are locked these answers, and the calls of `begin_realtime` and `end_realtime`,
-- which report nothing, leave it possible.
pub requests_lem :
    (rs : List Request) (p : Platform) (w : World)
    → p.linux ≡ true
    → (bs : List Bool) × (w' : World) × (ask_each process rs p w ≡ done bs w')
      × (w'.calls ≡ asked_of rs w.calls)
      × (implies (follow sure_after (locked p w.calls) rs bs) (locked p w'.calls) ≡ true)
      × (implies (locked p w'.calls) (follow possible_after (locked p w.calls) rs bs) ≡ true)
requests_lem rs p w l =
    asked_each p l rs (locked p w.calls) (locked p w.calls) w (self (locked p w.calls))
      (self (locked p w.calls))
