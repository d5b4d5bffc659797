-- ===== src/Thread/Ownership/Scheduling.antt =====
-- What the operations of `preempt::thread` (include/preempt/thread.h) that change the scheduling of a thread
-- leave of the ownership: no thread is started, joined or detached by them, whatever the system answers.
use libpreempt.Prelude.{
  ℕ, ◌≡◌, ◌⊎◌, refl, set, ◌∙◌, ap, Bool, true, false, eqb_ℤ, if◌then◌else◌, Bool-cases, inl, inr,
  Option, none, some, List, ◌∷◌, ℤ, get_elem?, arith,
}
use libpreempt.Machine.{
  M, Platform, World, Run, done, threw, stopped, terminated, quick_exit_failure, Policy, Message,
  Call, failed, put_calls,
}
use libpreempt.Verify.Laws.{exit_calls, quick_exit_lem}
use libpreempt.Threading.{check_priority, esrch}
use libpreempt.Threading as Base
use libpreempt.Threading.Create.{is_valid, check_priority_lem}
use libpreempt.Threading.Scheduling.{answer, asked, invalid_lem}
use libpreempt.Thread.{Thread, text_of, make_realtime, try_scheduling, change_scheduling}
use libpreempt.Thread.Laws.{make_lem}
use libpreempt.Thread.Ownership.{create_realtime, try_at, change_at, on, apply}
use libpreempt.Thread.Ownership.Counts.{own, owned, started, released, Balanced, owned-set}

-- An operation leaves the threads balanced, as a caller sees it that catches an exception, or it ends
-- the process: by std::terminate, or by `quick_exit` if it is one of those that do so.
abbrev pub After : Bool → Platform → List Thread → Run (List Thread) → Type 0
After quits p ts (done ts' w) = Balanced p ts' w
After quits p ts (threw w) = Balanced p ts w
After quits p ts (stopped s w) = (s ≡ terminated) ⊎ ((quits ≡ true) × (s ≡ quick_exit_failure))

pub on-After :
    (quits : Bool) (o : Option Thread) (ts : List Thread) (k : Thread → M (List Thread))
    (p : Platform) (w : World)
    → Balanced p ts w
    → ((t : Thread) → o ≡ some t → After quits p ts (k t p w))
    → After quits p ts (on o ts k p w)
on-After quits none ts k p w b h = b
on-After quits (some t) ts k p w b h = h t refl

-- Between the two worlds no thread is started or given up.
record Quiet (p : Platform) (w w' : World) : Type 0 where
  starts : (h : ℕ) → started p h w'.calls ≡ started p h w.calls
  releases : (h : ℕ) → released p h w'.calls ≡ released p h w.calls

Quiet-add : {p : Platform} {u v w : World} → Quiet p u v → Quiet p v w → Quiet p u w
Quiet-add a b = record {
  starts = λ h. b.starts h ∙ a.starts h;
  releases = λ h. b.releases h ∙ a.releases h;
}

checks :
    (policy : Policy) (priority : ℤ) (p : Platform) (w : World)
    → (w' : World) × (check_priority policy priority p w ≡ done tt w') × Quiet p w w'
unfolding started released
checks policy priority p w = elim (Bool-cases (is_valid policy priority)) [
  | inl e ↦ (
    w,
    check_priority_lem policy priority p w e,
    record { starts = λ h. refl; releases = λ h. refl },
  )
  | inr e ↦
      (_, invalid_lem policy priority p w e, record { starts = λ h. refl; releases = λ h. refl })
]

tries :
    (handle : Option ℕ) (policy : Policy) (priority : ℤ) (text : Option Message) (p : Platform)
    (w : World)
    → (r : Bool × Option Message) × (w' : World) × (Base.try_scheduling handle policy priority text
          p w
        ≡ done r w')
      × Quiet p w w'
unfolding Base.try_scheduling started released
tries none policy priority text p w =
    let (w1, runs, quiet) = checks policy priority p w in ((true, text), w1, rw runs refl, quiet)
tries (some k) policy priority text p w =
    let (w1, runs, quiet) = checks policy priority p w in
    let errnum = answer p w1 k policy priority in
    (
      if failed errnum
          then if eqb_ℤ errnum esrch then (true, text) else (
            false,
            elim text [ none ↦ none | some old ↦ some (Message.set_scheduling_failed errnum) ],
          )
          else (true, text),
      asked w1 (some k) policy priority,
      rw runs refl,
      Quiet-add quiet (record { starts = λ h. refl; releases = λ h. refl }),
    )

-- Either the thread keeps what it owns, or the process has ended.
data Changed (p : Platform) (w : World) (t : Thread) (r : Run Thread) : Type 0 where
  kept :
      (t' : Thread) (w' : World)
      → r ≡ done t' w'
      → t'.impl ≡ t.impl
      → Quiet p w w'
      → Changed p w t r
  quit : (w' : World) → r ≡ stopped quick_exit_failure w' → Changed p w t r

changes :
    (policy : Policy) (priority : ℤ) (t : Thread) (p : Platform) (w : World)
    → Changed p w t (change_scheduling policy priority t p w)
unfolding change_scheduling Base.change_scheduling
changes policy priority t p w =
    let (r, w1, runs, quiet) = tries t.impl policy priority (some t.error) p w in
    elim (Bool-cases r.0) [
      | inl e ↦ kept (record t { error = text_of t.error r.1 }) w1 (rw (runs, e) refl) refl quiet
      | inr e ↦
          quit (record w1 { calls = exit_calls (some Message.empty) p w1 })
            (rw (runs, e, quick_exit_lem) refl)
    ]

-- The threads with one of them exchanged for another that owns the same.
same_owner :
    (ts : List Thread) (i : ℕ) (t t' : Thread) (p : Platform) (w w' : World)
    → Balanced p ts w
    → get_elem? ts i ≡ some t
    → t'.impl ≡ t.impl
    → Quiet p w w'
    → Balanced p (set ts i t') w'
same_owner ts i t t' p w w' b e same q =
    λ h. omega (arith, b h, q.starts h, q.releases h, ap (own h) same, owned-set h ts i t t' e)

pub create_realtime-After :
    (policy : Policy) (priority : ℤ) (f : ℕ) (ts : List Thread) (p : Platform) (w : World)
    → Balanced p ts w
    → After true p ts (apply (create_realtime policy priority f) ts p w)
unfolding apply make_realtime owned started released
create_realtime-After policy priority f ts p w b =
    elim (Bool-cases (failed (p.code w.calls (Call.thread_start f)))) [
      | inl e ↦ rw (make_lem f p w, e) (λ h. rw e (omega (arith, b h)))
      | inr e ↦
          let t : Thread = record { impl = some (p.handle w.calls); error = Message.empty } in
          let w1 : World = put_calls w (Call.thread_start f) in
          let b1 : Balanced p (t ∷ ts) w1 = λ h. rw e (omega (arith, b h)) in
          elim (changes policy priority t p w1) [
            | kept t' w' runs same quiet ↦
                rw (make_lem f p w, e, runs) (same_owner (t ∷ ts) 0 t t' p w1 w' b1 refl same quiet)
            | quit w' runs ↦ rw (make_lem f p w, e, runs) (inr (refl, refl))
          ]
    ]

pub change-After :
    (policy : Policy) (priority : ℤ) (i : ℕ) (ts : List Thread) (p : Platform) (w : World)
    → Balanced p ts w
    → After true p ts (apply (change_at policy priority i) ts p w)
unfolding apply
change-After policy priority i ts p w b = on-After true (get_elem? ts i) ts _ p w b (λ t ei.
    elim (changes policy priority t p w) [
      | kept t' w' runs same quiet ↦ rw runs (same_owner ts i t t' p w w' b ei same quiet)
      | quit w' runs ↦ rw runs (inr (refl, refl))
    ])

pub try-After :
    (policy : Policy) (priority : ℤ) (i : ℕ) (ts : List Thread) (p : Platform) (w : World)
    → Balanced p ts w
    → After false p ts (apply (try_at policy priority i) ts p w)
unfolding apply try_scheduling
try-After policy priority i ts p w b = on-After false (get_elem? ts i) ts _ p w b (λ t ei.
    let (r, w1, runs, quiet) = tries t.impl policy priority (some t.error) p w in
    rw runs (same_owner ts i t (record t { error = text_of t.error r.1 }) p w w1 b ei refl quiet))
