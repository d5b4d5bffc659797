-- ===== src/Trace/Threads/Invariant.antt =====
-- Who holds the lock of `trace` (include/base/trace.h), and what it has then printed.
use libpreempt.Prelude.{
  ℕ, ◌≡◌, ◌≢◌, refl, sym, Bool, true, false, Option, none, some, List, [], ◌∷◌, update, update-same,
  update-other, arith,
}
use libpreempt.Trace.Threads.{
  Pc, trace_stamp, trace_text, trace_end, Piece, time, text, line, System, Step, call_trace,
  lock_trace, print_stamp, print_text, end_trace, call_log, lock_log, print_line, end_log, start,
  Reach, here, next,
}

-- The pieces of `trace` alone.
abbrev pub traces : List Piece → List Piece
traces [] = []
traces (line i ∷ out) = traces out
traces (time i ∷ out) = time i ∷ traces out
traces (text i ∷ out) = text i ∷ traces out

-- Each text follows the time of the same thread, and nothing is left over.
abbrev pub Paired : List Piece → Type 0
Paired [] = Unit
Paired (text i ∷ time j ∷ out) = (i ≡ j) × Paired out
Paired _ = ⊥

-- Behind the time of thread `i`.
abbrev Opened : ℕ → List Piece → Type 0
Opened i (time j ∷ out) = (i ≡ j) × Paired out
Opened i _ = ⊥

abbrev inside : Pc → Bool
inside trace_stamp = true
inside trace_text = true
inside trace_end = true
inside _ = false

abbrev Shape : ℕ → Pc → List Piece → Type 0
Shape i trace_text out = Opened i out
Shape i _ out = Paired out

pub record Inv (s : System) : Type 0 where
  alone : (i : ℕ) → inside (s.pc i) ≡ true → s.trace_owner ≡ some i
  held : (i : ℕ) → s.trace_owner ≡ some i → inside (s.pc i) ≡ true
  pub free : s.trace_owner ≡ none → Paired (traces s.out)
  shape : (i : ℕ) → s.trace_owner ≡ some i → Shape i (s.pc i) (traces s.out)

Inv-start : Inv start
Inv-start = record {
  alone = λ i h. absurd (ground arith);
  held = λ i h. absurd (ground arith);
  free = λ h. tt;
  shape = λ i h. absurd (ground arith);
}

Step-alone :
    {n : ℕ} {s t : System}
    → Step n s t
    → Inv s
    → (j : ℕ) → inside (t.pc j) ≡ true
    → t.trace_owner ≡ some j
Step-alone (call_trace i lt e) inv j h = ground (arith, inv.alone j)
Step-alone (lock_trace i lt e o) inv j h = ground (arith, inv.alone j)
Step-alone (print_stamp i lt e) inv j h = ground (arith, inv.alone j, inv.alone i)
Step-alone (print_text i lt e) inv j h = ground (arith, inv.alone j, inv.alone i)
Step-alone (end_trace i lt e) inv j h = ground (arith, inv.alone j, inv.alone i)
Step-alone (call_log i lt e) inv j h = ground (arith, inv.alone j)
Step-alone (lock_log i lt e o) inv j h = ground (arith, inv.alone j)
Step-alone (print_line i lt e) inv j h = ground (arith, inv.alone j)
Step-alone (end_log i lt e) inv j h = ground (arith, inv.alone j)

Step-held :
    {n : ℕ} {s t : System}
    → Step n s t
    → Inv s
    → (j : ℕ) → t.trace_owner ≡ some j
    → inside (t.pc j) ≡ true
Step-held (call_trace i lt e) inv j h = ground (arith, inv.held j)
Step-held (lock_trace i lt e o) inv j h = ground (arith, inv.held j)
Step-held (print_stamp i lt e) inv j h = ground (arith, inv.held j)
Step-held (print_text i lt e) inv j h = ground (arith, inv.held j)
Step-held (end_trace i lt e) inv j h = ground (arith, inv.held j)
Step-held (call_log i lt e) inv j h = ground (arith, inv.held j)
Step-held (lock_log i lt e o) inv j h = ground (arith, inv.held j)
Step-held (print_line i lt e) inv j h = ground (arith, inv.held j)
Step-held (end_log i lt e) inv j h = ground (arith, inv.held j)

-- A step of another thread than the owner.
Shape-other :
    {s : System} (i j : ℕ) (p : Pc)
    → Inv s
    → inside (s.pc i) ≡ false
    → s.trace_owner ≡ some j
    → Shape j (update s.pc i p j) (traces s.out)
Shape-other {s} i j p inv outside o =
    let apart : i ≢ j = λ e. absurd (ground (arith, inv.held j o, rw e at outside)) in
    rw (update-other s.pc i j p apart) (inv.shape j o)

-- The shape of the output for the thread that takes the step.
Shape-at :
    {s : System} (i : ℕ) (q : Pc) → Inv s → s.pc i ≡ q → inside q ≡ true → Shape i q (traces s.out)
Shape-at {s} i q inv e h = rw e at (inv.shape i (inv.alone i (rw e h)))

Shape-own :
    {o : Option ℕ} (pc : ℕ → Pc) (i j : ℕ) (p : Pc) (out : List Piece)
    → o ≡ some i
    → o ≡ some j
    → Shape i p out
    → Shape j (update pc i p j) out
Shape-own pc i j p out oi oj h =
    let same : i ≡ j = ground (arith, oi, oj) in rw (sym same, update-same pc i p) h

Paired-text : (i : ℕ) (out : List Piece) → Opened i out → Paired (text i ∷ out)
Paired-text i [] h = h
Paired-text i (time j ∷ out) h = h
Paired-text i (text j ∷ out) h = h
Paired-text i (line j ∷ out) h = h

Step-free :
    {n : ℕ} {s t : System} → Step n s t → Inv s → t.trace_owner ≡ none → Paired (traces t.out)
Step-free (call_trace i lt e) inv h = inv.free h
Step-free (lock_trace i lt e o) inv h = absurd (ground arith)
Step-free (print_stamp i lt e) inv h = absurd (ground (arith, inv.alone i))
Step-free (print_text i lt e) inv h = absurd (ground (arith, inv.alone i))
Step-free (end_trace i lt e) inv h = Shape-at i Pc.trace_end inv e refl
Step-free (call_log i lt e) inv h = inv.free h
Step-free (lock_log i lt e o) inv h = inv.free h
Step-free (print_line i lt e) inv h = inv.free h
Step-free (end_log i lt e) inv h = inv.free h

Step-Shape :
    {n : ℕ} {s t : System}
    → Step n s t
    → Inv s
    → (j : ℕ) → t.trace_owner ≡ some j
    → Shape j (t.pc j) (traces t.out)
Step-Shape (call_trace i lt e) inv j h = Shape-other i j Pc.trace_lock inv (rw e refl) h
Step-Shape {n} {s} (lock_trace i lt e o) inv j h =
    Shape-own s.pc i j Pc.trace_stamp (traces s.out) refl h (inv.free o)
Step-Shape {n} {s} (print_stamp i lt e) inv j h =
    Shape-own s.pc i j Pc.trace_text (time i ∷ traces s.out) (inv.alone i (rw e refl)) h
      (refl, Shape-at i Pc.trace_stamp inv e refl)
Step-Shape {n} {s} (print_text i lt e) inv j h =
    Shape-own s.pc i j Pc.trace_end (text i ∷ traces s.out) (inv.alone i (rw e refl)) h
      (Paired-text i (traces s.out) (Shape-at i Pc.trace_text inv e refl))
Step-Shape (end_trace i lt e) inv j h = absurd (ground arith)
Step-Shape (call_log i lt e) inv j h = Shape-other i j Pc.log_lock inv (rw e refl) h
Step-Shape (lock_log i lt e o) inv j h = Shape-other i j Pc.log_line inv (rw e refl) h
Step-Shape (print_line i lt e) inv j h = Shape-other i j Pc.log_end inv (rw e refl) h
Step-Shape (end_log i lt e) inv j h = Shape-other i j Pc.idle inv (rw e refl) h

pub Reach-Inv : {n : ℕ} {s : System} → Reach n s → Inv s
Reach-Inv here = Inv-start
Reach-Inv (next r st) =
    let inv = Reach-Inv r in
    record {
      alone = Step-alone st inv;
      held = Step-held st inv;
      free = Step-free st inv;
      shape = Step-Shape st inv;
    }
