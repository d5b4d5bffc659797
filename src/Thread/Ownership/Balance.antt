-- ===== src/Thread/Ownership/Balance.antt =====
-- Every thread that `preempt::thread` (include/preempt/thread.h) starts has one owner until it is joined or
-- detached.
use libpreempt.Prelude.{
  ℕ, ◌≡◌, ◌||◌, ◌⊎◌, Bool, true, false, refl, ap, ◌==◌, Bool-cases, Option-cases, inl, inr, none,
  List, [], ◌∷◌, get_elem?, arith,
}
use libpreempt.Machine.{
  Platform, World, Run, bind, done, threw, stopped, quick_exit_failure, terminated, Call, failed,
}
use libpreempt.Thread.Class.Standard as StdThread
use libpreempt.Thread.Ownership.Scheduling.{
  After, on-After, create_realtime-After, change-After, try-After,
}
use libpreempt.Thread.{Thread, adopt, joinable, move, assign, swap, join, detach}
use libpreempt.Thread.Laws.{make_lem, destroy_lem}
use libpreempt.Thread.Ownership.{
  Op, create, create_realtime, adopt_new, try_at, change_at, may_quit, take, join_at, detach_at,
  destroy_at, put, swap_at, apply, recover, apply_each,
}
use libpreempt.Thread.Ownership.Counts.{
  own, owned, started, released, Balanced, owned-set, owned-erase, owned-set-set,
}

create-After :
    (f : ℕ) (ts : List Thread) (p : Platform) (w : World)
    → Balanced p ts w
    → After false p ts (apply (create f) ts p w)
unfolding apply owned started released
create-After f ts p w b = elim (Bool-cases (failed (p.code w.calls (Call.thread_start f)))) [
  | inl e ↦ rw (make_lem f p w, e) (λ h. rw e (omega (arith, b h)))
  | inr e ↦ rw (make_lem f p w, e) (λ h. rw e (omega (arith, b h)))
]

adopt-After :
    (f : ℕ) (ts : List Thread) (p : Platform) (w : World)
    → Balanced p ts w
    → After false p ts (apply (adopt_new f) ts p w)
unfolding apply adopt StdThread.make owned started released
adopt-After f ts p w b = elim (Bool-cases (failed (p.code w.calls (Call.thread_start f)))) [
  | inl e ↦ rw e (λ h. rw e (omega (arith, b h)))
  | inr e ↦ rw e (λ h. rw e (omega (arith, b h)))
]

take-After :
    (i : ℕ) (ts : List Thread) (p : Platform) (w : World)
    → Balanced p ts w
    → After false p ts (apply (take i) ts p w)
unfolding apply move owned
take-After i ts p w b =
    on-After false (get_elem? ts i) ts _ p w b
      (λ t e h. omega (arith, b h, owned-set h ts i t (record t { impl = none }) e))

swap-After :
    (i j : ℕ) (ts : List Thread) (p : Platform) (w : World)
    → Balanced p ts w
    → After false p ts (apply (swap_at i j) ts p w)
unfolding apply swap
swap-After i j ts p w b = on-After false (get_elem? ts i) ts _ p w b (λ t ei.
    on-After false (get_elem? ts j) ts _ p w b (λ other ej. elim (Bool-cases (i == j)) [
      | inl e ↦ rw e b
      | inr e ↦ rw e (λ h. omega (
        arith,
        b h,
        owned-set-set h ts i j t other (record t { impl = other.impl })
            (record other { impl = t.impl }) ei ej (λ q. refl),
      ))
    ]))

put-After :
    (i j : ℕ) (ts : List Thread) (p : Platform) (w : World)
    → Balanced p ts w
    → After false p ts (apply (put i j) ts p w)
unfolding apply assign
put-After i j ts p w b = on-After false (get_elem? ts i) ts _ p w b (λ t ei.
    on-After false (get_elem? ts j) ts _ p w b (λ other ej. elim (Option-cases t.impl) [
      | inl e ↦ rw e (λ h. omega (
        arith,
        b h,
        ap (own h) e,
        owned-set-set h ts i j t other (record t { impl = other.impl })
            (record other { impl = none }) ei ej (λ q. refl),
      ))
      | inr (k, e) ↦ rw e (inl refl)
    ]))

join-After :
    (i : ℕ) (ts : List Thread) (p : Platform) (w : World)
    → Balanced p ts w
    → After false p ts (apply (join_at i) ts p w)
unfolding apply join released started
join-After i ts p w b = on-After false (get_elem? ts i) ts _ p w b (λ t ei.
    elim (Option-cases t.impl) [
      | inl e ↦ rw e b
      | inr (k, e) ↦ elim (Bool-cases (failed (p.code w.calls (Call.thread_join k)))) [
        | inl bad ↦ rw (e, bad) (λ h. rw bad (omega (arith, b h)))
        | inr ok ↦
            rw (e, ok)
              (λ h. rw ok (
                omega (arith, b h, ap (own h) e, owned-set h ts i t (record t { impl = none }) ei)))
      ]
    ])

detach-After :
    (i : ℕ) (ts : List Thread) (p : Platform) (w : World)
    → Balanced p ts w
    → After false p ts (apply (detach_at i) ts p w)
unfolding apply detach released started
detach-After i ts p w b = on-After false (get_elem? ts i) ts _ p w b (λ t ei.
    elim (Option-cases t.impl) [
      | inl e ↦ rw e b
      | inr (k, e) ↦ elim (Bool-cases (failed (p.code w.calls (Call.thread_detach k)))) [
        | inl bad ↦ rw (e, bad) (λ h. rw bad (omega (arith, b h)))
        | inr ok ↦
            rw (e, ok)
              (λ h. rw ok (
                omega (arith, b h, ap (own h) e, owned-set h ts i t (record t { impl = none }) ei)))
      ]
    ])

destroy-After :
    (i : ℕ) (ts : List Thread) (p : Platform) (w : World)
    → Balanced p ts w
    → After false p ts (apply (destroy_at i) ts p w)
unfolding apply joinable
destroy-After i ts p w b = on-After false (get_elem? ts i) ts _ p w b (λ t ei.
    elim (Option-cases t.impl) [
      | inl e ↦
          rw ((destroy_lem t p w).0 (rw e refl))
            (λ h. omega (arith, b h, ap (own h) e, owned-erase h ts i t ei))
      | inr (k, e) ↦ let (w', runs, _) = (destroy_lem t p w).1 (rw e refl) in rw runs (inl refl)
    ])

apply-After :
    (op : Op) (ts : List Thread) (p : Platform) (w : World)
    → Balanced p ts w
    → After (may_quit op) p ts (apply op ts p w)
apply-After (create f) ts p w b = create-After f ts p w b
apply-After (create_realtime policy priority f) ts p w b =
    create_realtime-After policy priority f ts p w b
apply-After (adopt_new f) ts p w b = adopt-After f ts p w b
apply-After (try_at policy priority i) ts p w b = try-After policy priority i ts p w b
apply-After (change_at policy priority i) ts p w b = change-After policy priority i ts p w b
apply-After (take i) ts p w b = take-After i ts p w b
apply-After (join_at i) ts p w b = join-After i ts p w b
apply-After (detach_at i) ts p w b = detach-After i ts p w b
apply-After (destroy_at i) ts p w b = destroy-After i ts p w b
apply-After (put i j) ts p w b = put-After i j ts p w b
apply-After (swap_at i j) ts p w b = swap-After i j ts p w b

-- Whether one of the operations may end the process by `quick_exit`.
abbrev pub quits : List Op → Bool
quits [] = false
quits (op ∷ ops) = may_quit op || quits ops

-- How a sequence of operations ends.
abbrev pub Ends : Platform → List Op → Run (List Thread) → Type 0
Ends p ops r =
    ((ts : List Thread) × (w : World) × (r ≡ done ts w) × Balanced p ts w)
    ⊎ ((w : World) × (r ≡ stopped terminated w))
    ⊎ ((quits ops ≡ true) × ((w : World) × (r ≡ stopped quick_exit_failure w)))

or_true : (a b : Bool) → a ≡ true → a || b ≡ true
or_true a b h = ground arith

or_right : (a b : Bool) → b ≡ true → a || b ≡ true
or_right a b h = ground arith

Ends-later :
    (p : Platform) (op : Op) (ops : List Op) (r : Run (List Thread))
    → Ends p ops r
    → Ends p (op ∷ ops) r
Ends-later p op ops r (inl x) = inl x
Ends-later p op ops r (inr (inl x)) = inr (inl x)
Ends-later p op ops r (inr (inr (q, x))) = inr (inr (or_right (may_quit op) (quits ops) q, x))

Ends-bind :
    (p : Platform) (ts : List Thread) (r : Run (List Thread)) (op : Op) (ops : List Op)
    → After (may_quit op) p ts r
    → ((ts' : List Thread) (w' : World) → Balanced p ts' w' → Ends p ops (apply_each ops ts' p w'))
    → Ends p (op ∷ ops) (bind (recover ts r) (λ ts' w'. apply_each ops ts' p w'))
Ends-bind p ts (done ts' w') op ops b next = Ends-later p op ops _ (next ts' w' b)
Ends-bind p ts (threw w') op ops b next = Ends-later p op ops _ (next ts w' b)
Ends-bind p ts (stopped s w') op ops (inl e) next = inr (inl (w', rw e refl))
Ends-bind p ts (stopped s w') op ops (inr (q, e)) next =
    inr (inr (or_true (may_quit op) (quits ops) q, (w', rw e refl)))

-- From threads that are balanced, as at the start where there are none, any sequence of constructions
-- (with a function, with a policy and a priority too, from a std::thread, from another object),
-- assignments, swaps, changes of the scheduling, joins, detachments and destructions runs to its end or
-- ends the process: by std::terminate, or by `quick_exit` if a construction with a policy or a
-- `change_scheduling` is among them. In the first case the threads are balanced again: as many objects
-- own a thread as it was started, less the times that it was joined or detached, so that none is lost
-- and none has two owners.
pub apply_each-Balanced :
    (ops : List Op) (ts : List Thread) (p : Platform) (w : World)
    → Balanced p ts w
    → Ends p ops (apply_each ops ts p w)
unfolding apply_each
apply_each-Balanced [] ts p w b = inl (ts, w, refl, b)
apply_each-Balanced (op ∷ ops) ts p w b =
    Ends-bind p ts (apply op ts p w) op ops (apply-After op ts p w b)
      (λ ts' w' b'. apply_each-Balanced ops ts' p w' b')
