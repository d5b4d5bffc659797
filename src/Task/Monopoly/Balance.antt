-- ===== src/Task/Monopoly/Balance.antt =====
-- The threads that the tests of tests/task_01_monopoly.cc start and join.
use libpreempt.Prelude.{
  ℕ, zero, suc, ◌+◌, ◌*◌, ◌≡◌, refl, ◌∙◌, true, length, length-append, none, some, List, [], ◌∷◌,
  ◌++◌, ℤ, arith,
}
use libpreempt.Machine.{M, Platform, World, done, Policy, Message, Call, pure, put_calls}
use libpreempt.Threading.Create.{is_valid}
use libpreempt.Threading.Scheduling.{asked}
use libpreempt.Thread as PreemptThread
use libpreempt.Thread.{Thread, default, change_scheduling, destroy}
use libpreempt.Thread.Laws.{started, scheduling_lem, destroy_lem}
use libpreempt.Thread.SelfTest.{Serves, owned}
use libpreempt.Thread.Class.{preempt_thread}
use libpreempt.Task.Template.{destroy_all}
use libpreempt.Task.Mono.Laws.{mono_spawn_lem, mono_join_lem}
use libpreempt.Task.Poly.Laws.{
  all_joinable, joined, released, unlocked, poly_join_lem, poly_spawn_lem,
}
use libpreempt.Task.Monopoly.{
  mono_spawn, change_back, poly_spawn, spawn_rounds, test_with, test_of, test, test_realtime,
}
use libpreempt.Task.Monopoly.Counts.{
  starts_in, joins_in, Grew, Grew-zero, Grew-add, Grew-start, Grew-join, Grew-unlocked, Grew-asked,
  Grew-joined, all_joinable-snoc,
}

abbrev Changes : Platform → (Thread → M Thread) → Type 0
Changes p change =
    (w : World) (h : ℕ) → (w' : World) × (change (owned h) p w ≡ done (owned h) w') × Grew 0 0 w w'

changes :
    {p : Platform} (policy : Policy) (priority : ℤ)
    → Serves p true
    → is_valid policy priority ≡ true
    → Changes p (change_scheduling policy priority)
changes {p} policy priority s v w h = (
  asked w (some h) policy priority,
  scheduling_lem (owned h) policy priority p w v ∙ rw (s.accepts_all w h policy priority) refl,
  Grew-asked policy priority h w,
)

module _ {p : Platform} (s : Serves p true) (change : Thread → M Thread)
    (c : Changes p change) where
  spawns_first :
      (f : ℕ) (w : World)
      → (h : ℕ) × (w' : World) × (mono_spawn preempt_thread change f default p w
          ≡ done (owned h) w')
        × Grew 1 0 w w'
  unfolding mono_spawn starts_in joins_in
  spawns_first f w =
      let (w', e, g) = c (started w f) (p.handle w.calls) in
      (
        p.handle w.calls,
        w',
        rw (mono_spawn_lem f none Message.empty p w, s.starts_all w f, e) refl,
        Grew-add (Grew-start f w) g,
      )

  spawns_next :
      (f h : ℕ) (w : World)
      → (h' : ℕ) × (w' : World) × (mono_spawn preempt_thread change f (owned h) p w
          ≡ done (owned h') w')
        × Grew 1 1 w w'
  unfolding mono_spawn starts_in joins_in
  spawns_next f h w =
      let v : World = put_calls w (Call.thread_join h) in
      let (w', e, g) = c (started v f) (p.handle v.calls) in
      (
        p.handle v.calls,
        w',
        rw (mono_spawn_lem f (some h) Message.empty p w, s.joins_all w.calls h, s.starts_all v f, e)
            refl,
        Grew-add (Grew-add (Grew-join h w) (Grew-start f v)) g,
      )

  change_back-snoc :
      (ts : List Thread) (h : ℕ) (w : World)
      → (w' : World) × (change_back preempt_thread change (ts ++ owned h ∷ []) p w
          ≡ done (ts ++ owned h ∷ []) w')
        × Grew 0 0 w w'
  unfolding change_back
  change_back-snoc [] h w = let (w', e, g) = c w h in (w', rw e refl, g)
  change_back-snoc (t ∷ []) h w = let (w', e, g) = c w h in (w', rw e refl, g)
  change_back-snoc (t ∷ u ∷ ts) h w =
      let (w', e, g) = change_back-snoc (u ∷ ts) h w in (w', rw e refl, g)

  -- A vector of `n` joinable threads is what is left, and so many threads are started as say `k`.
  record Spawned (n k : ℕ) (m : M (List Thread)) (w : World) : Type 0 where
    threads : List Thread
    last : World
    runs : m p w ≡ done threads last
    count : length threads ≡ n
    joinable : all_joinable threads ≡ true
    grew : Grew k 0 w last

  spawns_poly :
      (f : ℕ) (ts : List Thread) (w : World)
      → all_joinable ts ≡ true
      → Spawned (length ts + 1) 1 (poly_spawn preempt_thread change f ts) w
  unfolding poly_spawn
  spawns_poly f ts w a =
      let h = p.handle (unlocked w).calls in
      let (w', e, g) = change_back-snoc ts h (started (unlocked w) f) in
      record {
        threads = ts ++ owned h ∷ [];
        last = w';
        runs = rw (poly_spawn_lem f ts p w, s.starts_all (unlocked w) f, e) refl;
        count = length-append ts (owned h ∷ []);
        joinable = all_joinable-snoc ts h a;
        grew = Grew-add (Grew-add (Grew-unlocked w) (Grew-start f (unlocked w))) g;
      }

  spawns_rounds :
      (n : ℕ) (ts : List Thread) (w : World)
      → all_joinable ts ≡ true
      → Spawned (length ts + n * 3) (n * 3) (spawn_rounds preempt_thread change n ts) w
  unfolding spawn_rounds
  spawns_rounds zero ts w a = record {
    threads = ts;
    last = w;
    runs = refl;
    count = omega arith;
    joinable = a;
    grew = Grew-zero w;
  }
  spawns_rounds (suc n) ts w a =
      let r1 = spawns_poly 1 ts w a in
      let r2 = spawns_poly 2 r1.threads r1.last r1.joinable in
      let r3 = spawns_poly 3 r2.threads r2.last r2.joinable in
      let r = spawns_rounds n r3.threads r3.last r3.joinable in
      let g = Grew-add (Grew-add r1.grew (Grew-add r2.grew r3.grew)) r.grew in
      record {
        threads = r.threads;
        last = r.last;
        runs = rw (r1.runs, r2.runs, r3.runs, r.runs) refl;
        count = omega (arith, r1.count, r2.count, r3.count, r.count);
        joinable = r.joinable;
        grew = record {
          starts = omega (arith, g.starts);
          joins = omega (arith, g.joins);
          verified = g.verified;
        };
      }

  destroys_all :
      (ts : List Thread) (w : World) → destroy_all preempt_thread (released ts) p w ≡ done tt w
  unfolding destroy_all PreemptThread.joinable
  destroys_all [] w = refl
  destroys_all (t ∷ ts) w =
      rw ((destroy_lem (record t { impl = none }) p w).0 refl) (destroys_all ts w)

  -- A test returns, and joins each of the twelve threads that it starts.
  test_with_lem :
      (w : World)
      → (w' : World) × (test_with preempt_thread change p w ≡ done tt w') × Grew 12 12 w w'
  unfolding test_with PreemptThread.joinable
  test_with_lem w =
      let (h1, w1, e1, g1) = spawns_first 1 w in
      let (h2, w2, e2, g2) = spawns_next 2 h1 w1 in
      let (h3, w3, e3, g3) = spawns_next 3 h2 w2 in
      let r = spawns_rounds 3 [] w3 refl in
      let w4 : World = record r.last { calls = joined r.threads r.last.calls } in
      let w5 : World = put_calls w4 (Call.thread_join h3) in
      (
        w5,
        rw
            (
              e1,
              e2,
              e3,
              r.runs,
              poly_join_lem r.threads p r.last s.joins_all,
              r.joinable,
              mono_join_lem (some h3) Message.empty p w4,
              s.joins_all w4.calls h3,
              destroys_all r.threads w5,
            )
            ((destroy_lem default p w5).0 refl),
        Grew-add (Grew-add g1 (Grew-add g2 g3)) (
            Grew-add r.grew
              (Grew-add (Grew-joined r.threads r.last r.count r.joinable) (Grew-join h3 w4))),
      )

-- Where the system starts and joins threads and permits the change of their scheduling, both tests
-- return, the second one with a priority above 0: twelve threads are started and twelve are joined,
-- so that none is destroyed while it runs, and the verify flag stays as it is.
pub tests_lem :
    (policy : Policy) (priority : ℤ) (p : Platform) (w : World)
    → Serves p true
    → is_valid policy priority ≡ true
    → ((w' : World) × (test p w ≡ done tt w')
        × (starts_in w'.calls ≡ starts_in w.calls + 12)
        × (joins_in w'.calls ≡ joins_in w.calls + 12)
        × (w'.verified ≡ w.verified))
      × ((w' : World) × (test_realtime priority policy p w ≡ done tt w')
          × (starts_in w'.calls ≡ starts_in w.calls + 12)
          × (joins_in w'.calls ≡ joins_in w.calls + 12)
          × (w'.verified ≡ w.verified))
unfolding test_of test_realtime
tests_lem policy priority p w s v =
    let (w1, e1, g1) = test_with_lem s pure (λ w h. (w, refl, Grew-zero w)) w in
    let (w2, e2, g2) =
      test_with_lem s (change_scheduling policy priority) (changes policy priority s v) w in
    ((w1, e1, g1.starts, g1.joins, g1.verified), (w2, e2, g2.starts, g2.joins, g2.verified))
