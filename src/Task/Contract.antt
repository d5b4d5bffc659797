-- ===== src/Task/Contract.antt =====
-- `basic_task` of include/preempt/task.h: the interface that mono_task and poly_task implement, and
-- what its comments promise.
use libpreempt.Prelude.{
  ◌≡◌, refl, ◌∙◌, ℕ, Bool, true, false, Bool-cases, Option-cases, inl, inr, Option, none, some,
  List, [], ◌∷◌,
}
use libpreempt.Machine.{
  M, World, Platform, Run, done, threw, stopped, bind, pure, Message, Call, put_calls, failed,
}
use libpreempt.Thread as PreemptThread
use libpreempt.Thread.{Thread}
use libpreempt.Task.Template as Template
use libpreempt.Task.Mono
use libpreempt.Task.Mono.Laws.{joins, after_join, mono_join_lem}
use libpreempt.Task.Poly
use libpreempt.Task.Poly.Laws.{Joins, all_joinable, joined, released, poly_join_lem}

pub record BasicTask (T : Type 0) : Type 0 where
  pub join : T → M T
  pub joinable : T → Bool

abbrev pub mono_task : BasicTask Thread
mono_task = record { join = Mono.join; joinable = Mono.joinable }

abbrev pub poly_task : BasicTask (List Thread)
poly_task = record { join = Poly.join; joinable = Poly.joinable }

-- The handles of the threads that a task runs, in the order of their creation.
abbrev pub handles : List Thread → List ℕ
handles [] = []
handles (t ∷ ts) = elim t.impl [ none ↦ handles ts | some h ↦ h ∷ handles ts ]

-- The trace behind the joins of these threads, one after the other.
abbrev pub joined_in : List ℕ → List Call → List Call
joined_in [] calls = calls
joined_in (h ∷ hs) calls = joined_in hs (Call.thread_join h ∷ calls)

abbrev pub nonempty : List ℕ → Bool
nonempty [] = false
nonempty (h ∷ hs) = true

-- What holds of a run, if it returns.
abbrev pub Returned : {T : Type 0} → (T → World → Type 0) → Run T → Type 0
Returned Q (done t w) = Q t w
Returned Q (threw w) = Unit
Returned Q (stopped e w) = Unit

Returned-done :
    {T : Type 0} (Q : T → World → Type 0) (r : Run T) {t : T} {w : World}
    → Returned Q r
    → r ≡ done t w
    → Q t w
Returned-done Q r h e = rw e at h

-- `running` gives the handles of the threads that a task runs, and `ready` says whether its state
-- lets `join` return.
pub record Keeps {T : Type 0} (task : BasicTask T) (running : T → List ℕ) (ready : T → Bool)
    : Type 0 where
  pub at_least_one : (t : T) → task.joinable t ≡ nonempty (running t)
  pub joins_all :
      (t t' : T) (p : Platform) (w w' : World)
      → task.join t p w ≡ done t' w'
      → (running t' ≡ []) × (w'.calls ≡ joined_in (running t) w.calls)
  pub returns :
      (t : T) (p : Platform) (w : World)
      → Joins p
      → ready t ≡ true
      → (t' : T) × (w' : World) × (task.join t p w ≡ done t' w')

mono_joinable : (t : Thread) → Mono.joinable t ≡ nonempty (handles (t ∷ []))
unfolding Template.mono_joinable PreemptThread.joinable
mono_joinable t = elim (Option-cases t.impl) [ inl e ↦ rw e refl | inr (h, e) ↦ rw e refl ]

abbrev AllJoined : List ℕ → World → List Thread → World → Type 0
AllJoined hs w ts' w' = (handles ts' ≡ []) × (w'.calls ≡ joined_in hs w.calls)

released_calls :
    (impl : Option ℕ) (error : Message) (w : World)
    → (after_join w impl).calls
      ≡ joined_in (handles (record { impl = impl; error = error } ∷ [])) w.calls
released_calls none error w = refl
released_calls (some h) error w = refl

joins-ok : (p : Platform) (w : World) (impl : Option ℕ) → Joins p → joins p w impl ≡ true
joins-ok p w none ok = refl
joins-ok p w (some h) ok = rw (ok w.calls h) refl

mono_joined :
    (impl : Option ℕ) (error : Message) (p : Platform) (w : World)
    → Returned
        (λ t'. AllJoined (handles (record { impl = impl; error = error } ∷ [])) w (t' ∷ []))
        (Mono.join (record { impl = impl; error = error }) p w)
mono_joined impl error p w = elim (Bool-cases (joins p w impl)) [
  | inl j ↦ rw (mono_join_lem impl error p w, j) (refl, released_calls impl error w)
  | inr j ↦ rw (mono_join_lem impl error p w, j) tt
]

poly_joinable : (ts : List Thread) → Poly.joinable ts ≡ nonempty (handles ts)
unfolding Template.poly_joinable PreemptThread.joinable
poly_joinable [] = refl
poly_joinable (t ∷ ts) = elim (Option-cases t.impl) [
  | inl e ↦ rw e (poly_joinable ts)
  | inr (h, e) ↦ rw e refl
]

joined_cons :
    (hs : List ℕ) (error : Message) (p : Platform) (w : World) (r : Run (List Thread))
    → Returned (AllJoined hs w) r
    → Returned
        (AllJoined hs w)
        (bind r (λ ts'. pure (record { impl = none; error = error } ∷ ts') p))
joined_cons hs error p w (done ts' w') h = h
joined_cons hs error p w (threw w') h = tt
joined_cons hs error p w (stopped e w') h = tt

poly_joined :
    (ts : List Thread) (p : Platform) (w : World)
    → Returned (AllJoined (handles ts) w) (Poly.join ts p w)
unfolding Template.poly_join PreemptThread.join
poly_joined [] p w = (refl, refl)
poly_joined (t ∷ ts) p w = elim (Option-cases t.impl) [
  | inl n ↦ rw n tt
  | inr (h, n) ↦ elim (Bool-cases (failed (p.code w.calls (Call.thread_join h)))) [
    | inl e ↦ rw (n, e) tt
    | inr e ↦
        rw (n, e)
          (joined_cons (handles ts) t.error p (put_calls w (Call.thread_join h)) _
            (poly_joined ts p (put_calls w (Call.thread_join h))))
  ]
]

-- `mono_task` and `poly_task` both keep what the comments of `basic_task` promise: a task is joinable
-- exactly if it runs at least one thread, and a `join` that returns has joined every thread that the
-- task ran, each once and in the order of their creation, after which it runs none. Where the system
-- joins every thread, the `join` of a mono_task always returns, and that of a poly_task returns if
-- each of its threads is joinable.
pub tasks-Keeps :
    Keeps mono_task (λ t. handles (t ∷ [])) (λ t. true) × Keeps poly_task handles all_joinable
tasks-Keeps = (
  record {
    at_least_one = mono_joinable;
    joins_all = λ t t' p w w' e. Returned-done _ _ (mono_joined t.impl t.error p w) e;
    returns = λ t p w ok r. (
      record t { impl = none },
      after_join w t.impl,
      mono_join_lem t.impl t.error p w ∙ rw (joins-ok p w t.impl ok) refl,
    );
  },
  record {
    at_least_one = poly_joinable;
    joins_all = λ ts ts' p w w' e. Returned-done _ _ (poly_joined ts p w) e;
    returns = λ ts p w ok r.
        (released ts, record w { calls = joined ts w.calls }, poly_join_lem ts p w ok ∙ rw r refl);
  },
)
