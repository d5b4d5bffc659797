-- ===== src/Verify/Threads.antt =====
-- VERIFY (include/base/verify.h) in several threads at a time, over the one flag of src/base.cc, which
-- is a std::atomic_bool. The threads are the numbers below `n`, and each verifies a list of conditions.
use libpreempt.Prelude.{
  ℕ, zero, suc, ◌+◌, ◌≤◌, ◌<◌, ◌≡◌, refl, sym, ◌∙◌, Bool, true, false, ◌&&◌, List, [], ◌∷◌, ◌++◌,
  ◌≢◌, update, arith, if◌then◌else◌,
}
use native.Mathlib.Decide.{dec_lt}
use libpreempt.Machine.{Platform, World, done, ◌>>◌}
use libpreempt.Verify.{exit_status}
use libpreempt.Verify.Laws.{verify_each, all_true, verify_each-exit_status}

-- Where a thread stands: the conditions that it still has to verify, or, behind the message of a
-- failed one and before the flag is cleared, those that come after it.
pub data Pc : Type 0 where
  verifying failing : List Bool → Pc

pub record System : Type 0 where
  pub flag : Bool  -- g_verify_flag
  pub pc : ℕ → Pc

pub data Step (n : ℕ) (s : System) : System → Type 0 where
  holds :
      (i : ℕ) (bs : List Bool)
      → i < n
      → s.pc i ≡ verifying (true ∷ bs)
      → Step n s (record s { pc = update s.pc i (verifying bs) })
  print :
      (i : ℕ) (bs : List Bool)
      → i < n
      → s.pc i ≡ verifying (false ∷ bs)
      → Step n s (record s { pc = update s.pc i (failing bs) })
  clear :
      (i : ℕ) (bs : List Bool)
      → i < n
      → s.pc i ≡ failing bs
      → Step n s (record { flag = false; pc = update s.pc i (verifying bs) })

abbrev pub start : (ℕ → List Bool) → System
start conditions = record { flag = true; pc = λ i. verifying (conditions i) }

-- `k` steps from the start.
pub data Reach (n : ℕ) (conditions : ℕ → List Bool) : ℕ → System → Type 0 where
  here : Reach n conditions 0 (start conditions)
  next : {k : ℕ} {s t : System} → Reach n conditions k s → Step n s t → Reach n conditions (suc k) t

-- What the thread will have made of a set flag.
abbrev outcome : Pc → Bool
outcome (verifying bs) = all_true bs
outcome (failing bs) = false

all : ℕ → (ℕ → Pc) → Bool
all zero pc = true
all (suc n) pc = all n pc && outcome (pc n)

-- The conditions of all the threads, in the order of the threads.
abbrev pub in_order : ℕ → (ℕ → List Bool) → List Bool
in_order zero conditions = []
in_order (suc n) conditions = in_order n conditions ++ conditions n

all-update_of_le : (n : ℕ) (pc : ℕ → Pc) (i : ℕ) (p : Pc) → n ≤ i → all n (update pc i p) ≡ all n pc
unfolding all
all-update_of_le zero pc i p h = refl
all-update_of_le (suc n) pc i p h = ground (arith, all-update_of_le n pc i p)

-- A step that keeps the outcome of its thread keeps that of all.
all-update :
    (n : ℕ) (pc : ℕ → Pc) (i : ℕ) (p : Pc)
    → outcome (pc i) ≡ outcome p
    → all n (update pc i p) ≡ all n pc
unfolding all
all-update zero pc i p e = refl
all-update (suc n) pc i p e = ground (arith, all-update n pc i p)

all-false : (n : ℕ) (pc : ℕ → Pc) (i : ℕ) → i < n → outcome (pc i) ≡ false → all n pc ≡ false
unfolding all
all-false zero pc i lt e = absurd (omega arith)
all-false (suc n) pc i lt e = elim (dec_lt i n) [
  | yes below ↦ ground (arith, all-false n pc i below e)
  | no last ↦ let same : i ≡ n = omega (arith, last) in ground (arith, rw same at e)
]

Step-all : {n : ℕ} {s t : System} → Step n s t → (t.flag && all n t.pc) ≡ (s.flag && all n s.pc)
Step-all {n} {s} (holds i bs lt e) = ground (arith, all-update n s.pc i (verifying bs))
Step-all {n} {s} (print i bs lt e) = ground (arith, all-update n s.pc i (failing bs))
Step-all {n} {s} (clear i bs lt e) = ground (arith, all-false n s.pc i lt)

Reach-all :
    {n : ℕ} {conditions : ℕ → List Bool} {k : ℕ} {s : System}
    → Reach n conditions k s
    → (s.flag && all n s.pc) ≡ all n (start conditions).pc
Reach-all here = refl
Reach-all (next r st) = Step-all st ∙ Reach-all r

pub all_true-append : (cs bs : List Bool) → all_true (cs ++ bs) ≡ (all_true cs && all_true bs)
all_true-append [] bs = refl
all_true-append (a ∷ cs) bs = ground (arith, all_true-append cs bs)

all-start :
    (n : ℕ) (conditions : ℕ → List Bool)
    → all n (start conditions).pc ≡ all_true (in_order n conditions)
unfolding all
all-start zero conditions = refl
all-start (suc n) conditions =
    rw (all-start n conditions) (sym (all_true-append (in_order n conditions) (conditions n)))

all-ended : (n : ℕ) (pc : ℕ → Pc) → ((i : ℕ) → i < n → pc i ≡ verifying []) → all n pc ≡ true
unfolding all
all-ended zero pc h = refl
all-ended (suc n) pc h = rw (all-ended n pc (λ i lt. h i (omega arith)), h n (omega arith)) refl

-- A failed condition takes two steps.
abbrev pub cost : List Bool → ℕ
cost [] = 0
cost (true ∷ bs) = suc (cost bs)
cost (false ∷ bs) = suc (suc (cost bs))

abbrev steps_left : Pc → ℕ
steps_left (verifying bs) = cost bs
steps_left (failing bs) = suc (cost bs)

work : ℕ → (ℕ → Pc) → ℕ
work zero pc = 0
work (suc n) pc = work n pc + steps_left (pc n)

work-update_of_le :
    (n : ℕ) (pc : ℕ → Pc) (i : ℕ) (p : Pc) → n ≤ i → work n (update pc i p) ≡ work n pc
unfolding work
work-update_of_le zero pc i p h = refl
work-update_of_le (suc n) pc i p h = ground (arith, work-update_of_le n pc i p)

work-update :
    (n : ℕ) (pc : ℕ → Pc) (i : ℕ) (p : Pc)
    → i < n
    → work n (update pc i p) + steps_left (pc i) ≡ work n pc + steps_left p
unfolding work
work-update zero pc i p h = absurd (omega arith)
work-update (suc n) pc i p h = elim (dec_lt i n) [
  | yes below ↦ ground (arith, work-update n pc i p below)
  | no last ↦ ground (arith, work-update_of_le n pc i p)
]

Step-work : {n : ℕ} {s t : System} → Step n s t → suc (work n t.pc) ≡ work n s.pc
Step-work {n} {s} (holds i bs lt e) = ground (arith, work-update n s.pc i (verifying bs) lt)
Step-work {n} {s} (print i bs lt e) = ground (arith, work-update n s.pc i (failing bs) lt)
Step-work {n} {s} (clear i bs lt e) = ground (arith, work-update n s.pc i (verifying bs) lt)

Reach-work :
    {n : ℕ} {conditions : ℕ → List Bool} {k : ℕ} {s : System}
    → Reach n conditions k s
    → k + work n s.pc ≡ work n (start conditions).pc
Reach-work here = omega arith
Reach-work (next r st) = omega (arith, Reach-work r, Step-work st)

cost-append : (cs bs : List Bool) → cost (cs ++ bs) ≡ cost cs + cost bs
cost-append [] bs = omega arith
cost-append (true ∷ cs) bs = omega (arith, cost-append cs bs)
cost-append (false ∷ cs) bs = omega (arith, cost-append cs bs)

work-start :
    (n : ℕ) (conditions : ℕ → List Bool)
    → work n (start conditions).pc ≡ cost (in_order n conditions)
unfolding work
work-start zero conditions = refl
work-start (suc n) conditions =
    rw (work-start n conditions) (sym (cost-append (in_order n conditions) (conditions n)))

goes_on :
    (n i : ℕ) (s : System) (p : Pc)
    → i < n
    → s.pc i ≡ p
    → p ≢ verifying []
    → (t : System) × Step n s t
goes_on n i s (verifying []) lt e h = absurd (h refl)
goes_on n i s (verifying (true ∷ bs)) lt e h = (_, holds i bs lt e)
goes_on n i s (verifying (false ∷ bs)) lt e h = (_, print i bs lt e)
goes_on n i s (failing bs) lt e h = (_, clear i bs lt e)

-- However the steps of the threads interleave, when all have verified their conditions the flag gives
-- the exit status that a program gets which verifies all the conditions one after the other in one
-- thread. A thread that has not come to its end can always go on, and there are at most as many steps
-- as one for each condition and one more for each that fails.
pub verify_threads :
    (n k : ℕ) (conditions : ℕ → List Bool) (s : System) (p : Platform) (w : World)
    → Reach n conditions k s
    → w.verified ≡ true
    → (((i : ℕ) → i < n → s.pc i ≡ verifying [])
        → (w' : World) × ((verify_each (in_order n conditions) >> exit_status) p w
            ≡ done (if s.flag then 0 else 1) w'))
      × ((i : ℕ) → i < n → s.pc i ≢ verifying [] → (t : System) × Step n s t)
      × (k ≤ cost (in_order n conditions))
verify_threads n k conditions s p w r h = (
  λ ended.
      let all_ended = all-ended n s.pc ended in
      let flag : s.flag ≡ all_true (in_order n conditions) =
        ground (arith, Reach-all r, all-start n conditions) in
      rw flag (verify_each-exit_status (in_order n conditions) p w h),
  λ i lt u. goes_on n i s (s.pc i) lt refl u,
  omega (arith, Reach-work r, work-start n conditions),
)
