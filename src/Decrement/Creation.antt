-- ===== src/Decrement/Creation.antt =====
-- The threads of `run` (tests/preempt_03_decrement.cc): their creation, which ends the process if one
-- fails, and their joins, on copies. The function `decrement` stands as 1, and a thread's argument
-- as its index.
use libpreempt.Prelude.{
  ℕ, suc, ◌+◌, ◌≡◌, refl, sym, ◌∙◌, ap, Bool, true, ◌&&◌, Bool-cases, Option-cases, inl, inr,
  Option, none, some, List, [], ◌∷◌, ◌++◌, length, ℤ, arith, if◌then◌else◌,
}
use libpreempt.Machine.{
  M, Platform, World, done, stopped, exit_failure, Policy, Message, Call, ◌>>=◌, ◌>>◌, pure, stop,
  perform, put_calls, failed,
}
use libpreempt.Verify.{verify}
use libpreempt.Verify.Laws.{verify-true}
use libpreempt.Threading.{Thread, create, join}
use libpreempt.Threading.Create.{
  Step, run_steps, creation, is_valid, is_none, last_handle, create-Follows, join_lem,
}

abbrev pub text_of : Option Message → Message
text_of none = Message.empty
text_of (some text) = text

-- The loop over the table, from index `i` on.
unfoldable pub start_all : Policy → ℕ → List ℤ → M (List Thread)
start_all policy i [] = pure []
start_all policy i (priority ∷ table) = do
  context ← create policy priority (some 1) i
  if context.joinable
      then (do contexts ← start_all policy (i + 1) table; pure (context ∷ contexts))
      else (do perform (Call.print (text_of context.last_error)); stop exit_failure)

-- `for (auto c : context)`: the copies are changed, and given up.
unfoldable pub join_all : List Thread → M (Unit {0})
join_all [] = pure tt
join_all (c ∷ contexts) = do verify c.joinable; join c; join_all contexts

-- The part of `run` that starts and joins the threads. What the threads do, and the VERIFY of the global
-- number behind their joins (line 93), are in Decrement and Decrement/Scheduled.
unfoldable pub run_threads : Policy → List ℤ → M (Unit {0})
unfolding start_all join_all
run_threads policy table = do contexts ← start_all policy 0 table; join_all contexts

-- What the system is asked for, for one thread after the other.
abbrev pub creations : Policy → ℕ → List ℤ → List Step
creations policy i [] = []
creations policy i (priority ∷ table) =
    creation policy priority 1 i ++ creations policy (i + 1) table

abbrev pub all_valid : Policy → List ℤ → Bool
all_valid policy [] = true
all_valid policy (priority ∷ table) = is_valid policy priority && all_valid policy table

abbrev pub all_joinable : List Thread → Bool
all_joinable [] = true
all_joinable (c ∷ contexts) = c.joinable && all_joinable contexts

-- The calls go on where the first steps end, unless one of them fails.
run_steps-append :
    (p : Platform) (steps more : List Step) (calls : List Call)
    → run_steps p (steps ++ more) calls ≡ (
        if is_none (run_steps p steps calls).1
        then run_steps p more (run_steps p steps calls).0
        else run_steps p steps calls)
unfolding run_steps
run_steps-append p [] more calls = refl
run_steps-append p (s ∷ steps) more calls = elim (Bool-cases (failed (p.code calls s.asks))) [
  | inl e ↦ rw e refl
  | inr e ↦ rw e (run_steps-append p steps more (s.asks ∷ calls))
]

-- The handles that the system gives to the threads, one after the other.
abbrev pub handles : Platform → Policy → ℕ → List ℤ → List Call → List ℕ
handles p policy i [] calls = []
handles p policy i (priority ∷ table) calls =
    let made = (run_steps p (creation policy priority 1 i) calls).0 in
    last_handle p made ∷ handles p policy (i + 1) table made

abbrev pub ids : List Thread → List ℕ
ids [] = []
ids (c ∷ contexts) = c.id ∷ ids contexts

-- One join for each handle, newest first.
abbrev pub joins_on : List ℕ → List Call → List Call
joins_on [] calls = calls
joins_on (h ∷ hs) calls = joins_on hs (Call.pthread_join h ∷ calls)

-- How the start ends, given the calls made and the text of the first failure.
data Started (p : Platform) (w : World) (policy : Policy) (i : ℕ) (table : List ℤ) : Type 0 where
  returns :
      (contexts : List Thread) (w' : World)
      → start_all policy i table p w ≡ done contexts w'
      → (w'.calls, none) ≡ run_steps p (creations policy i table) w.calls
      → (length contexts ≡ length table)
        × (all_joinable contexts ≡ true)
        × (w'.verified ≡ w.verified)
        × (ids contexts ≡ handles p policy i table w.calls)
      → Started p w policy i table
  exits :
      (calls : List Call) (text : Message) (w' : World)
      → start_all policy i table p w ≡ stopped exit_failure w'
      → (calls, some text) ≡ run_steps p (creations policy i table) w.calls
      → w'.calls ≡ Call.print text ∷ calls
      → Started p w policy i table

pub and_true : (a b : Bool) → (a && b) ≡ true → (a ≡ true) × (b ≡ true)
and_true a b h = ground arith

run_steps-nil : (p : Platform) (calls : List Call) → run_steps p [] calls ≡ (calls, none)
unfolding run_steps
run_steps-nil p calls = refl

-- All the steps, where those of the first thread are known.
run_steps-known :
    (p : Platform) (steps more : List Step) (calls calls' : List Call) (error : Option Message)
    → run_steps p steps calls ≡ (calls', error)
    → run_steps p (steps ++ more) calls
      ≡ (if is_none error then run_steps p more calls' else (calls', error))
run_steps-known p steps more calls calls' error e = run_steps-append p steps more calls ∙ rw e refl

pub handles_next :
    (p : Platform) (policy : Policy) (i : ℕ) (priority : ℤ) (table : List ℤ) (id : ℕ)
    (contexts : List Thread) (calls made : List Call)
    → made ≡ (run_steps p (creation policy priority 1 i) calls).0
    → id ≡ last_handle p made
    → ids contexts ≡ handles p policy (i + 1) table made
    → id ∷ ids contexts ≡ handles p policy i (priority ∷ table) calls
handles_next p policy i priority table id contexts calls made e own others =
    rw (own, others, e) refl

starts_all :
    (policy : Policy) (i : ℕ) (table : List ℤ) (p : Platform) (w : World)
    → all_valid policy table ≡ true
    → Started p w policy i table
unfolding start_all
starts_all policy i [] p w v =
    returns [] w refl (sym (run_steps-nil p w.calls)) (refl, refl, refl, refl)
starts_all policy i (priority ∷ table) p w v =
    let (valid, others) = and_true (is_valid policy priority) (all_valid policy table) v in
    let f = create-Follows policy priority 1 i p w valid in
    let known =
      run_steps-known p (creation policy priority 1 i) (creations policy (i + 1) table) w.calls
        f.after.calls f.thread.last_error (sym f.follows) in
    elim (Option-cases f.thread.last_error) [
      | inl e ↦
          let joins : f.thread.joinable ≡ true = f.joins ∙ rw e refl in
          elim (starts_all policy (i + 1) table p f.after others) [
            | returns contexts w' runs steps facts ↦
                returns (f.thread ∷ contexts) w' (rw (f.runs, joins, runs) refl)
                  (steps ∙ sym (known ∙ rw e refl))
                  (
                    ap suc facts.0,
                    rw joins facts.1,
                    facts.2 ∙ f.verifies,
                    handles_next p policy i priority table f.thread.id contexts w.calls
                        f.after.calls (ap (λ x. x.0) f.follows) (f.owns joins) facts.3,
                  )
            | exits calls text w' runs steps printed ↦
                exits calls text w' (rw (f.runs, joins, runs) refl)
                  (steps ∙ sym (known ∙ rw e refl)) printed
          ]
      | inr (text, e) ↦
          exits f.after.calls text (put_calls f.after (Call.print text))
            (rw (f.runs, f.joins, e) refl) (sym (known ∙ rw e refl)) refl
    ]

-- One join for each thread, newest first.
abbrev pub joins_of : List Thread → List Call → List Call
joins_of [] calls = calls
joins_of (c ∷ contexts) calls = joins_of contexts (Call.pthread_join c.id ∷ calls)

pub joins_of-on :
    (contexts : List Thread) (calls : List Call)
    → joins_of contexts calls ≡ joins_on (ids contexts) calls
joins_of-on [] calls = refl
joins_of-on (c ∷ contexts) calls = joins_of-on contexts (Call.pthread_join c.id ∷ calls)

joins_each :
    (contexts : List Thread) (p : Platform) (w : World)
    → all_joinable contexts ≡ true
    → join_all contexts p w ≡ done tt (record w { calls = joins_of contexts w.calls })
unfolding join_all
joins_each [] p w a = refl
joins_each (c ∷ contexts) p w a =
    let (first, others) = and_true c.joinable (all_joinable contexts) a in
    let (c', joined, _) = join_lem c p w in
    rw (verify-true c.joinable p w first, joined)
      (joins_each contexts p (put_calls w (Call.pthread_join c.id)) others)

-- Of `run` the part that starts and joins the threads, without what the threads themselves verify and
-- the VERIFY behind it: with a table of valid priorities the threads are created one after the other,
-- by the calls that the tables of their constructors say. If none of these calls fails, each of the
-- handles that the system gave with them, one for each priority, is joined once, in their order, and
-- none of the VERIFYs of this part fails, whatever the joins answer. At the first that fails the
-- process prints its text and ends with EXIT_FAILURE: no further thread is created, and none is
-- joined.
pub run_threads_lem :
    (policy : Policy) (table : List ℤ) (p : Platform) (w : World)
    → all_valid policy table ≡ true
    → let asked = run_steps p (creations policy 0 table) w.calls in
      (asked.1 ≡ none
        → (contexts : List Thread) × (w1 : World) × (w' : World) × (start_all policy 0 table p w
            ≡ done contexts w1)
          × (length contexts ≡ length table)
          × (run_threads policy table p w ≡ done tt w')
          × (w'.calls ≡ joins_on (handles p policy 0 table w.calls) asked.0)
          × (w'.verified ≡ w.verified))
      × ((text : Message)
          → asked.1 ≡ some text
          → (w' : World) × (run_threads policy table p w ≡ stopped exit_failure w')
            × (w'.calls ≡ Call.print text ∷ asked.0))
unfolding run_threads
run_threads_lem policy table p w v = elim (starts_all policy 0 table p w v) [
  | returns contexts w1 runs steps facts ↦ (
    λ h. (
      contexts,
      w1,
      record w1 { calls = joins_of contexts w1.calls },
      runs,
      facts.0,
      rw runs (joins_each contexts p w1 facts.1),
      joins_of-on contexts w1.calls ∙ rw (facts.3, ap (λ x. x.0) steps) refl,
      facts.2,
    ),
    λ text h. absurd (ground (arith, h, ap (λ x. x.1) steps)),
  )
  | exits calls text w' runs steps printed ↦ (
    λ h. absurd (ground (arith, h, ap (λ x. x.1) steps)),
    λ other h.
        let same : text ≡ other = ground (arith, h, ap (λ x. x.1) steps) in
        (w', rw runs refl, printed ∙ rw same (ap (λ x. Call.print other ∷ x.0) steps)),
  )
]
