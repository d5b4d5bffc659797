-- ===== src/Thread/Ownership.antt =====
-- Any sequence of operations on any number of `preempt::thread` objects (include/preempt/thread.h), and
-- who owns the threads that they start. An exception of an operation is caught.
pub mod Counts
pub mod Scheduling
pub mod Balance
use libpreempt.Prelude.{
  ℕ, zero, suc, Bool, true, false, ℤ, ◌==◌, Option, none, some, List, [], ◌∷◌, get_elem?, set,
  if◌then◌else◌,
}
use libpreempt.Thread.Class.Standard as StdThread
use libpreempt.Machine.{M, Policy, World, Run, done, threw, stopped, ◌>>=◌, ◌>>◌, pure}
use libpreempt.Thread.{
  Thread, adopt, make_realtime, try_scheduling, change_scheduling, make, move, assign, swap, join,
  detach, destroy,
}

-- `adopt_new f` constructs an object from a new std::thread by a move; `take i` constructs an object
-- from the i-th by a move, and `put i j` assigns the j-th to the i-th.
pub data Op : Type 0 where
  create adopt_new take join_at detach_at destroy_at : ℕ → Op
  create_realtime try_at change_at : Policy → ℤ → ℕ → Op
  put swap_at : ℕ → ℕ → Op

-- Whether an operation ends the process if the system refuses the change of a thread's scheduling.
abbrev pub may_quit : Op → Bool
may_quit (create f) = false
may_quit (adopt_new f) = false
may_quit (take i) = false
may_quit (join_at i) = false
may_quit (detach_at i) = false
may_quit (destroy_at i) = false
may_quit (create_realtime policy priority f) = true
may_quit (try_at policy priority i) = false
may_quit (change_at policy priority i) = true
may_quit (put i j) = false
may_quit (swap_at i j) = false

abbrev pub erase : List Thread → ℕ → List Thread
erase [] i = []
erase (t ∷ ts) zero = ts
erase (t ∷ ts) (suc i) = t ∷ erase ts i

-- An operation on an object that does not exist is left out.
abbrev pub on : Option Thread → List Thread → (Thread → M (List Thread)) → M (List Thread)
on none ts k = pure ts
on (some t) ts k = k t

-- An object is assigned to itself through both references.
pub apply : Op → List Thread → M (List Thread)
apply (create f) ts = do t ← make f; pure (t ∷ ts)
apply (create_realtime policy priority f) ts = do t ← make_realtime policy priority f; pure (t ∷ ts)
apply (adopt_new f) ts = do impl ← StdThread.make f; pure (adopt impl ∷ ts)
apply (try_at policy priority i) ts =
    on (get_elem? ts i) ts (λ t. do (ok, t') ← try_scheduling policy priority t; pure (set ts i t'))
apply (change_at policy priority i) ts =
    on (get_elem? ts i) ts (λ t. do t' ← change_scheduling policy priority t; pure (set ts i t'))
apply (take i) ts = on (get_elem? ts i) ts (λ t. pure ((move t).0 ∷ set ts i (move t).1))
apply (put i j) ts = on (get_elem? ts i) ts (λ t.
    on (get_elem? ts j) ts
      (λ other. do (t', other') ← assign t other; pure (set (set ts i t') j other')))
apply (swap_at i j) ts = on (get_elem? ts i) ts (λ t.
    on (get_elem? ts j) ts
      (λ other. pure (if i == j then ts else set (set ts i (swap t other).0) j (swap t other).1)))
apply (join_at i) ts = on (get_elem? ts i) ts (λ t. do t' ← join t; pure (set ts i t'))
apply (detach_at i) ts = on (get_elem? ts i) ts (λ t. do t' ← detach t; pure (set ts i t'))
apply (destroy_at i) ts = on (get_elem? ts i) ts (λ t. do destroy t; pure (erase ts i))

abbrev pub recover : List Thread → Run (List Thread) → Run (List Thread)
recover ts (done ts' w) = done ts' w
recover ts (threw w) = done ts w
recover ts (stopped s w) = stopped s w

pub apply_each : List Op → List Thread → M (List Thread)
apply_each [] ts = pure ts
apply_each (op ∷ ops) ts = (λ p w. recover ts (apply op ts p w)) >>= apply_each ops
