-- ===== src/Threading/Create.antt =====
-- The constructor of `base::thread` (include/base/threading.h) against a table of its calls.
use libpreempt.Prelude.{
  ℕ, ◌≡◌, refl, Bool, true, false, Bool-cases, inl, inr, not, ◌&&◌, ◌||◌, Option, none, some, List,
  [], ◌∷◌, ℤ, pos, ltb_ℤ, if◌then◌else◌, arith,
}
use libpreempt.Machine.{M, Platform, World, done, Policy, Message, Call, ◌>>◌, put_calls, failed}
use libpreempt.Verify.{verify}
use libpreempt.Threading.{
  Thread, default, is_realtime, check_priority, attempt, launch, create, join,
}

-- A call that must return 0, and the error text if it does not.
pub record Step : Type 0 where
  pub asks : Call
  pub describe : ℤ → Message

-- The calls up to the first failure, on top of those made before, and the text of that failure.
unfoldable pub run_steps : Platform → List Step → List Call → List Call × Option Message
run_steps p [] calls = (calls, none)
run_steps p (s ∷ steps) calls =
    let rest = run_steps p steps (s.asks ∷ calls) in
    if failed (p.code calls s.asks)
    then (s.asks ∷ calls, some (s.describe (p.code calls s.asks)))
    else rest

abbrev pub creation : Policy → ℤ → ℕ → ℕ → List Step
creation policy priority funp argp =
    record { asks = Call.attr_init; describe = Message.attr_init_failed }
    ∷ record { asks = Call.attr_set_detach_state; describe = Message.set_detach_state_failed }
    ∷ record { asks = Call.attr_set_inherit_sched; describe = Message.set_inherit_sched_failed }
    ∷ record {
      asks = Call.attr_set_sched_policy policy;
      describe = Message.set_sched_policy_failed policy;
    }
    ∷ record {
      asks = Call.attr_set_sched_param priority;
      describe = Message.set_sched_param_failed priority;
    }
    ∷ record { asks = Call.pthread_create funp argp; describe = Message.thread_ctor_failed }
    ∷ []

-- A real-time policy comes with a priority above 0.
abbrev pub is_valid : Policy → ℤ → Bool
is_valid policy priority = not (is_realtime policy) || ltb_ℤ (pos 0) priority

abbrev pub is_none {ℓ} : {A : Type ℓ} → Option A → Bool
is_none none = true
is_none (some a) = false

-- The handle that the system gives with the newest call.
abbrev pub last_handle : Platform → List Call → ℕ
last_handle p [] = 0
last_handle p (c ∷ calls) = p.handle calls

-- The constructor returns, its calls and its error text are those of the table, the thread is joinable
-- exactly if there is no error text, and it then has the handle that its last call gives.
pub record Follows (p : Platform) (w : World) (steps : List Step) (m : M Thread) : Type 0 where
  pub thread : Thread
  pub after : World
  pub runs : m p w ≡ done thread after
  pub follows : (after.calls, thread.last_error) ≡ run_steps p steps w.calls
  pub joins : thread.joinable ≡ is_none thread.last_error
  pub owns : thread.joinable ≡ true → thread.id ≡ last_handle p after.calls
  pub verifies : after.verified ≡ w.verified

attempt-Follows :
    (p : Platform) (w : World) (s : Step) (steps : List Step) (t : Thread) (rest : M Thread)
    → t.joinable ≡ false
    → Follows p (put_calls w s.asks) steps rest
    → Follows p w (s ∷ steps) (attempt s.asks s.describe t rest)
unfolding run_steps
attempt-Follows p w s steps t rest h f = elim (Bool-cases (failed (p.code w.calls s.asks))) [
  | inl e ↦ record {
    thread = record t { last_error = some (s.describe (p.code w.calls s.asks)) };
    after = put_calls w s.asks;
    runs = rw e;
    follows = rw e;
    joins = h;
    owns = λ j. absurd (ground (arith, h, j));
    verifies = refl;
  }
  | inr e ↦ record {
    thread = f.thread;
    after = f.after;
    runs = rw e f.runs;
    follows = rw e f.follows;
    joins = f.joins;
    owns = f.owns;
    verifies = f.verifies;
  }
]

pub check_priority_lem :
    (policy : Policy) (priority : ℤ) (p : Platform) (w : World)
    → is_valid policy priority ≡ true
    → check_priority policy priority p w ≡ done tt w
unfolding check_priority verify
check_priority_lem policy priority p w h = ground arith

checked_Follows :
    (p : Platform) (w : World) (steps : List Step) (c : M (Unit {0})) (m : M Thread)
    → c p w ≡ done tt w
    → Follows p w steps m
    → Follows p w steps (c >> m)
checked_Follows p w steps c m e f = record {
  thread = f.thread;
  after = f.after;
  runs = rw e f.runs;
  follows = f.follows;
  joins = f.joins;
  owns = f.owns;
  verifies = f.verifies;
}

launch-Follows :
    (t : Thread) (funp argp : ℕ) (p : Platform) (w : World)
    → t.joinable ≡ false
    → t.last_error ≡ none
    → Follows p w
        (record { asks = Call.pthread_create funp argp; describe = Message.thread_ctor_failed }
          ∷ [])
        (launch t funp argp)
unfolding launch run_steps
launch-Follows t funp argp p w h k =
    elim (Bool-cases (failed (p.code w.calls (Call.pthread_create funp argp)))) [
      | inl e ↦ record {
        thread = record t {
          id = p.handle w.calls;
          last_error =
              some (Message.thread_ctor_failed (p.code w.calls (Call.pthread_create funp argp)));
        };
        after = put_calls w (Call.pthread_create funp argp);
        runs = rw e;
        follows = rw e;
        joins = h;
        owns = λ j. refl;
        verifies = refl;
      }
      | inr e ↦ record {
        thread = record t { id = p.handle w.calls; joinable = true };
        after = put_calls w (Call.pthread_create funp argp);
        runs = rw e;
        follows = rw (e, k);
        joins = rw k;
        owns = λ j. refl;
        verifies = refl;
      }
    ]

-- With a function and a valid priority the constructor makes the calls of the table in its order up
-- to the first that fails, keeps that failure's text, and the thread is joinable exactly if none
-- failed; it then has the handle that the system gave with it. The verify flag stays as it is.
pub create-Follows :
    (policy : Policy) (priority : ℤ) (funp argp : ℕ) (p : Platform) (w : World)
    → is_valid policy priority ≡ true
    → Follows p w (creation policy priority funp argp) (create policy priority (some funp) argp)
unfolding create
create-Follows policy priority funp argp p w h =
    let made : Thread = record default { has_attr = true } in
    let set : Thread = record made { priority = some priority } in
    attempt-Follows p w _ _ made _ refl (
      checked_Follows p _ _ _ _ (check_priority_lem policy priority p _ h) (
        attempt-Follows p _ _ _ set _ refl (
          attempt-Follows p _ _ _ set _ refl (
            attempt-Follows p _ _ _ set _ refl
              (attempt-Follows p _ _ _ set _ refl (launch-Follows set funp argp p _ refl refl))))))

pub join_lem :
    (t : Thread) (p : Platform) (w : World)
    → (t' : Thread) × (join t p w ≡ done t' (put_calls w (Call.pthread_join t.id)))
      × (t'.joinable ≡ (t.joinable && failed (p.code w.calls (Call.pthread_join t.id))))
unfolding join
join_lem t p w = elim (Bool-cases (failed (p.code w.calls (Call.pthread_join t.id)))) [
  | inl e ↦ (
    record t {
      last_error = some (Message.thread_join_failed (p.code w.calls (Call.pthread_join t.id)));
    },
    rw e,
    rw e (ground arith),
  )
  | inr e ↦ (record t { joinable = false; last_error = none }, rw e, rw e (ground arith))
]
