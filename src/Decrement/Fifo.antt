-- ===== src/Decrement/Fifo.antt =====
-- `main` of tests/preempt_02_fifo.cc: its ten threads are created whatever their constructors answer,
-- and joined up to the first that was not created. What the threads have done when all of them are
-- joined is given by the order in which they ran (`schedule`): each is taken to run as a whole,
-- though nothing in it is atomic or locked. Their interleaved steps are in Decrement/Scheduled.
use libpreempt.Prelude.{
  ℕ, zero, suc, ◌+◌, ◌≡◌, ◌↔◌, refl, sym, ◌∙◌, ap, Bool, true, false, ◌&&◌, Bool-cases, inl, inr,
  ◌⊎◌, some, List, [], ◌∷◌, ◌++◌, append-nil, length, replicate, ℤ, pos, negsuc, eqb_ℤ,
  if◌then◌else◌, arith,
}
use libpreempt.Machine.{
  M, Platform, World, done, sched_fifo, Call, ◌>>=◌, ◌>>◌, pure, world, set_verified, perform,
  put_calls,
}
use libpreempt.Verify.{verify, exit_status}
use libpreempt.Verify.Laws.{verify_lem, exit_status_lem}
use libpreempt.Process.{begin_realtime, end_realtime}
use libpreempt.Threading.{Thread, create, join}
use libpreempt.Threading.Create.{create-Follows, join_lem}
use libpreempt.Thread.SelfTest.{begins, ends}
use libpreempt.Decrement.{Shared, schedule, fifo, expected_values}
use libpreempt.Decrement.Creation.{
  text_of, all_joinable, handles, handles_next, ids, joins_of, joins_of-on, joins_on, and_true,
}
use libpreempt.Decrement.Laws.{fifo_lem}

-- The array `handle`, from index `i` on.
unfoldable pub create_handles : ℕ → ℕ → M (List Thread)
create_handles zero i = pure []
create_handles (suc rounds) i = do
  t ← create sched_fifo (pos 1) (some 1) i
  ts ← create_handles rounds (i + 1)
  pure (t ∷ ts)

-- The loop; the answer says whether it was left by its end.
unfoldable pub join_handles : List Thread → M Bool
join_handles [] = pure true
join_handles (t ∷ ts) =
    if t.joinable
    then (do join t; join_handles ts)
    else (do perform (Call.print (text_of t.last_error)); pure false)

-- What the threads leave, if each `decrement` runs as a whole, one after another in the given order,
-- and all of them have run when the joins are over, whatever these answer: the flag, and the global
-- number, which starts at 9.
unfoldable pub threads_ran : List ℤ → M ℤ
threads_ran order = do
  w ← world
  let after : Shared = schedule order (record { global_value = pos 9; verified = w.verified })
  set_verified after.verified
  pure after.global_value

-- From the end of the loop on.
unfoldable pub finish_main : List ℤ → M ℕ
unfolding threads_ran
finish_main order = do
  value ← threads_ran order
  end_realtime
  verify (eqb_ℤ value (negsuc 0))
  exit_status

unfoldable pub fifo_main : List ℤ → M ℕ
unfolding create_handles join_handles finish_main
fifo_main order = do
  begin_realtime
  handles ← create_handles 10 0
  joined ← join_handles handles
  if joined then finish_main order else pure 1

-- All the constructors return.
creates :
    (rounds i : ℕ) (p : Platform) (w : World)
    → (ts : List Thread) × (w' : World) × (create_handles rounds i p w ≡ done ts w')
      × (length ts ≡ rounds)
      × (w'.verified ≡ w.verified)
      × (all_joinable ts ≡ true
          → ids ts ≡ handles p sched_fifo i (replicate rounds (pos 1)) w.calls)
unfolding create_handles
creates zero i p w = ([], w, refl, refl, refl, λ a. refl)
creates (suc rounds) i p w =
    let f = create-Follows sched_fifo (pos 1) 1 i p w refl in
    let (ts, w', runs, count, flag, has) = creates rounds (i + 1) p f.after in
    (
      f.thread ∷ ts,
      w',
      rw (f.runs, runs) refl,
      ap suc count,
      flag ∙ f.verifies,
      λ a.
          let (j, others) = and_true f.thread.joinable (all_joinable ts) a in
          handles_next p sched_fifo i (pos 1) (replicate rounds (pos 1)) f.thread.id ts w.calls
            f.after.calls (ap (λ x. x.0) f.follows) (f.owns j) (has others),
    )

-- Where the loop stops, if it does.
data Stopped (ts : List Thread) : Type 0 where
  nowhere : all_joinable ts ≡ true → Stopped ts
  before :
      (first : List Thread) (t : Thread) (others : List Thread)
      → ts ≡ first ++ t ∷ others
      → all_joinable first ≡ true
      → t.joinable ≡ false
      → Stopped ts

stops : (ts : List Thread) → Stopped ts
stops [] = nowhere refl
stops (t ∷ ts) = elim (Bool-cases t.joinable) [
  | inr e ↦ before [] t ts refl refl e
  | inl e ↦ elim (stops ts) [
    | nowhere a ↦ nowhere (rw (e, a) refl)
    | before first u others parts a j ↦
        before (t ∷ first) u others (ap (◌∷◌ t) parts) (rw (e, a) refl) j
  ]
]

chosen :
    (b : Bool) (m k : M Bool) (p : Platform) (w : World)
    → b ≡ true
    → (if b then m else k) p w ≡ m p w
chosen b m k p w h = rw h refl

joins_first :
    (first others : List Thread) (p : Platform) (w : World)
    → all_joinable first ≡ true
    → join_handles (first ++ others) p w
      ≡ join_handles others p (record w { calls = joins_of first w.calls })
unfolding join_handles
joins_first [] others p w a = refl
joins_first (t ∷ first) others p w a =
    let (j, rest) = and_true t.joinable (all_joinable first) a in
    let (t', runs, _) = join_lem t p w in
    chosen t.joinable _ _ p w j
    ∙ rw runs (joins_first first others p (put_calls w (Call.pthread_join t.id)) rest)

joins_all :
    (ts : List Thread) (p : Platform) (w : World)
    → all_joinable ts ≡ true
    → join_handles ts p w ≡ done true (record w { calls = joins_of ts w.calls })
unfolding join_handles
joins_all ts p w a = ap (λ x. join_handles x p w) (sym (append-nil ts)) ∙ joins_first ts [] p w a

joins_before :
    (first : List Thread) (t : Thread) (others : List Thread) (p : Platform) (w : World)
    → all_joinable first ≡ true
    → t.joinable ≡ false
    → join_handles (first ++ t ∷ others) p w
      ≡ done false (record w { calls = Call.print (text_of t.last_error) ∷ joins_of first w.calls })
unfolding join_handles
joins_before first t others p w a j = joins_first first (t ∷ others) p w a ∙ rw j refl

exit_zero : (v b : Bool) → (◌≡◌ {A = ℕ} (if v && b then 0 else 1) 0) ↔ (v && b ≡ true)
exit_zero v b = ground arith

-- The end of `main`, when all threads are joined.
finishes :
    (order : List ℤ) (p : Platform) (w : World)
    → (n : ℕ) × (w' : World) × (finish_main order p w ≡ done n w')
      × ((n ≡ 0)
          ↔ ((fifo order (record { global_value = pos 0; verified = w.verified })).verified ≡ true))
unfolding finish_main threads_ran fifo
finishes order p w =
    let after : Shared = schedule order (record { global_value = pos 9; verified = w.verified }) in
    let (w1, e, flag) = ends p (record w { verified = after.verified }) in
    let reached = eqb_ℤ after.global_value (negsuc 0) in
    let (w2, v, flag2, _) = verify_lem reached p w1 in
    (
      (if w2.verified then 0 else 1),
      w2,
      rw (e, v, exit_status_lem p w2) refl,
      rw (flag2, flag) (exit_zero after.verified reached),
    )

-- With the flag set at its start, and where the threads run one after another, each as a whole, in
-- the given order of their arguments, and have all run when the joins are over, the program returns.
-- If its ten threads are created, each of the ten handles that the system gave with them is joined,
-- in their order, and the status is EXIT_SUCCESS (0) exactly if they have run in the order of their
-- creation. Otherwise the status is EXIT_FAILURE (1): only the threads before the first one that was
-- not created are joined, the text of that one is printed, and `end_realtime` is not called.
pub fifo_main_lem :
    (order : List ℤ) (p : Platform) (w : World)
    → w.verified ≡ true
    → length order ≡ 10
    → (ts : List Thread) × (w0 : World) × (w1 : World) × (n : ℕ) × (w2 : World) × (begin_realtime p
          w
        ≡ done tt w0)
      × (create_handles 10 0 p w0 ≡ done ts w1)
      × (length ts ≡ 10)
      × (fifo_main order p w ≡ done n w2)
      × (((all_joinable ts ≡ true)
            × (join_handles ts p w1
                ≡ done true (record w1 {
                  calls =
                      joins_on (handles p sched_fifo 0 (replicate 10 (pos 1)) w0.calls) w1.calls;
                }))
            × ((n ≡ 0) ↔ (order ≡ expected_values 9 0 10)))
          ⊎ ((first : List Thread) × (t : Thread) × (others : List Thread) × (ts
                ≡ first ++ t ∷ others)
              × (all_joinable first ≡ true)
              × (t.joinable ≡ false)
              × (n ≡ 1)
              × (w2.calls ≡ Call.print (text_of t.last_error) ∷ joins_of first w1.calls)))
unfolding fifo_main
fifo_main_lem order p w h l =
    let (w0, b, flag0) = begins p w in
    let (ts, w1, c, count, flag1, has) = creates 10 0 p w0 in
    elim (stops ts) [
      | nowhere a ↦
          let v : World = record w1 { calls = joins_of ts w1.calls } in
          let (n, w2, e, (to, from)) = finishes order p v in
          let (order_of, of_order) =
            fifo_lem order (record { global_value = pos 0; verified = w1.verified })
              (flag1 ∙ flag0 ∙ h) l in
          (
            ts,
            w0,
            w1,
            n,
            w2,
            b,
            c,
            count,
            rw (b, c, joins_all ts p w1 a, e) refl,
            inl (
              a,
              joins_all ts p w1 a ∙ rw (joins_of-on ts w1.calls, has a) refl,
              ((λ z. order_of (to z)), λ o. from (of_order o)),
            ),
          )
      | before first t others parts a j ↦ (
        ts,
        w0,
        w1,
        1,
        record w1 { calls = Call.print (text_of t.last_error) ∷ joins_of first w1.calls },
        b,
        c,
        count,
        rw (b, c, parts, joins_before first t others p w1 a j) refl,
        inr (first, t, others, parts, a, j, refl, refl),
      )
    ]
