-- ===== src/Examples/Returns.antt =====
-- The example programs return.
use libpreempt.Prelude.{ℕ, ◌+◌, ◌≡◌, refl, ◌∙◌, true, length, if◌then◌else◌, arith}
use libpreempt.Machine.{M, Platform, World, done, Call, put_calls}
use libpreempt.Verify.{verify, exit_status}
use libpreempt.Verify.Laws.{exit_status_lem}
use libpreempt.Thread.Laws.{started}
use libpreempt.Thread.SelfTest.{Serves, begins, ends}
use libpreempt.Task.Template as Template
use libpreempt.Thread.Class.Standard as StdThread
use libpreempt.Task.Monopoly.Counts.{starts_in, joins_in, Grew, Grew-add, Grew-start, Grew-join}
use libpreempt.Examples.{
  base_main, preempt_main, functions_main, array_main, lambda_main, run_once, start_temporary,
  nonstatic_main,
}
use libpreempt.Examples.Handles.{makes, joins, makes_each, fills, joins_each, destroys, idles}

-- The status is that of the flag before, and so many threads are started as are joined.
abbrev pub Returns : ℕ → M ℕ → Platform → World → Type 0
Returns k m p w =
    (w' : World) × (m p w ≡ done (if w.verified then 0 else 1) w')
    × (starts_in w'.calls ≡ starts_in w.calls + k)
    × (joins_in w'.calls ≡ joins_in w.calls + k)

status :
    (p : Platform) (w w' : World)
    → w'.verified ≡ w.verified
    → exit_status p w' ≡ done (if w.verified then 0 else 1) w'
status p w w' h = exit_status_lem p w' ∙ rw h refl

module _ {p : Platform} (s : Serves p true) where
  runs_once : (w : World) → (w' : World) × (run_once p w ≡ done tt w') × Grew 1 1 w w'
  unfolding run_once StdThread.destroy
  runs_once w =
      let h = p.handle w.calls in
      (
        put_calls (started w 1) (Call.thread_join h),
        rw (makes s 1 w, joins s h (started w 1)) refl,
        Grew-add (Grew-start 1 w) (Grew-join h (started w 1)),
      )

  starts_temporary : (w : World) → (w' : World) × (start_temporary p w ≡ done tt w') × Grew 2 2 w w'
  unfolding start_temporary StdThread.assign StdThread.destroy Template.mono_join
      Template.mono_joinable
  starts_temporary w =
      let h = p.handle w.calls in
      let v : World = started w 2 in
      let k = p.handle v.calls in
      let u : World = put_calls (started v 3) (Call.thread_join h) in
      (
        put_calls u (Call.thread_join k),
        rw (makes s 2 w, makes s 3 v, joins s h (started v 3), joins s k u) refl,
        Grew-add (Grew-start 2 w)
            (Grew-add (Grew-start 3 v) (Grew-add (Grew-join h (started v 3)) (Grew-join k u))),
      )

module _ {p : Platform} (s : Serves p true) (w : World) where
  nonstatic-Returns : Returns 5 nonstatic_main p w
  unfolding nonstatic_main
  nonstatic-Returns =
      let (w1, e1, g1) = runs_once s w in
      let (w2, e2, g2) = runs_once s w1 in
      let (w3, e3, g3) = runs_once s w2 in
      let (w', e, g4) = starts_temporary s w3 in
      let g = Grew-add g1 (Grew-add g2 (Grew-add g3 g4)) in
      (
        w',
        rw (e1, e2, e3, e, status p w w' g.verified) refl,
        omega (arith, g.starts),
        omega (arith, g.joins),
      )

  functions-Returns : Returns 5 functions_main p w
  unfolding functions_main StdThread.destroy
  functions-Returns =
      let a = makes_each s 4 w in
      let h = p.handle a.last.calls in
      let v : World = put_calls (started a.last 4) (Call.thread_join h) in
      let (w', e, j) = joins_each s a.threads v a.own in
      let g =
        Grew-add a.grew
          (Grew-add (Grew-start 4 a.last) (Grew-add (Grew-join h (started a.last 4)) j)) in
      (
        w',
        rw
            (
              a.runs,
              makes s 4 a.last,
              joins s h (started a.last 4),
              e,
              destroys (length a.threads) p w',
              status p w w' g.verified,
            )
            refl,
        omega (arith, g.starts),
        omega (arith, g.joins, a.count),
      )

  arrays-Returns : Returns 15 array_main p w
  unfolding array_main
  arrays-Returns =
      let a = makes_each s 5 w in
      let b = fills s 10 a.last in
      let (u, e1, j1) = joins_each s a.threads b.last a.own in
      let (w', e2, j2) = joins_each s b.threads u b.own in
      let g = Grew-add a.grew (Grew-add b.grew (Grew-add j1 j2)) in
      (
        w',
        rw
            (
              a.runs,
              idles 10 p a.last,
              b.runs,
              e1,
              e2,
              destroys (length b.threads) p w',
              destroys (length a.threads) p w',
              status p w w' g.verified,
            )
            refl,
        omega (arith, g.starts),
        omega (arith, g.joins, a.count, b.count),
      )

  lambda-Returns : Returns 1 lambda_main p w
  unfolding lambda_main StdThread.destroy verify
  lambda-Returns =
      let h = p.handle w.calls in
      let w' : World = put_calls (started w 1) (Call.thread_join h) in
      let g = Grew-add (Grew-start 1 w) (Grew-join h (started w 1)) in
      (
        w',
        rw (makes s 1 w, joins s h (started w 1), status p w w' refl) refl,
        omega (arith, g.starts),
        omega (arith, g.joins),
      )

-- Where the system starts and joins threads, each of the examples returns with the status of the verify
-- flag at its start, and joins all the threads that it starts: five, five, fifteen and one.
examples_lem :
    (p : Platform) (w : World)
    → Serves p true
    → Returns 5 functions_main p w
      × Returns 5 nonstatic_main p w
      × Returns 15 array_main p w
      × Returns 1 lambda_main p w
examples_lem p w s =
    (functions-Returns s w, nonstatic-Returns s w, arrays-Returns s w, lambda-Returns s w)

-- The two programs without threads.
mains_lem :
    (p : Platform) (w : World)
    → (base_main p w ≡ done (if w.verified then 0 else 1) w)
      × ((w' : World) × (preempt_main p w ≡ done (if w.verified then 0 else 1) w'))
unfolding base_main preempt_main
mains_lem p w =
    let (w1, b, flag1) = begins p w in
    let (w2, e, flag2) = ends p w1 in
    (exit_status_lem p w, (w2, rw (b, e, status p w w2 (flag2 ∙ flag1)) refl))
