-- ===== src/Trace/Threads/Mixed.antt =====
-- The output of `trace` and of the log macros (include/base/trace.h) together.
use libpreempt.Prelude.{ℕ, ◌<◌, ◌≡◌, ◌≢◌, refl, sym, ◌∙◌, none, [], ◌∷◌, arith}
use libpreempt.Trace.Threads.{
  Pc, Piece, time, text, line, System, prints, call_trace, lock_trace, print_stamp, print_text,
  call_log, lock_log, print_line, end_log, start, Reach, here, next,
}
use libpreempt.Trace.Threads.Invariant.{traces, Paired, Reach-Inv}

-- What a thread brings about that comes to a point of its call while the others stand.
record Alone (n i : ℕ) (s : System) (p : Pc) (piece : Piece) : Type 0 where
  state : System
  reach : Reach n state
  prints_one : state.out ≡ piece ∷ s.out
  stands : state.pc i ≡ p
  others : (j : ℕ) → i ≢ j → state.pc j ≡ s.pc j
  logs : s.log_owner ≡ none → state.log_owner ≡ none

stamps :
    (n i : ℕ) (s : System)
    → Reach n s
    → i < n
    → s.pc i ≡ Pc.idle
    → s.trace_owner ≡ none
    → Alone n i s Pc.trace_text (time i)
stamps n i s r lt e o =
    let a = next r (call_trace i lt e) in
    let b = next a (lock_trace i lt (ground arith) o) in
    record {
      state = _;
      reach = next b (print_stamp i lt (ground arith));
      prints_one = refl;
      stands = ground arith;
      others = λ j h. ground arith;
      logs = λ h. h;
    }

lines :
    (n i : ℕ) (s : System)
    → Reach n s
    → i < n
    → s.pc i ≡ Pc.idle
    → s.log_owner ≡ none
    → Alone n i s Pc.idle (line i)
lines n i s r lt e o =
    let a = next r (call_log i lt e) in
    let b = next a (lock_log i lt (ground arith) o) in
    let c = next b (print_line i lt (ground arith)) in
    record {
      state = _;
      reach = next c (end_log i lt (ground arith));
      prints_one = refl;
      stands = ground arith;
      others = λ j h. ground arith;
      logs = λ h. refl;
    }

-- Of the pieces that `trace` prints, while no thread is inside of it, each text follows directly the
-- time of its own call, in every interleaving. But the log macros lock another mutex: any thread can
-- put a line of theirs between the time and the text that another thread traces.
pub trace-Paired :
    (n i j : ℕ)
    → i < n
    → j < n
    → i ≢ j
    → ((s : System) → Reach n s → s.trace_owner ≡ none → Paired (traces s.out))
      × ((s : System) × Reach n s × (s.out ≡ text i ∷ line j ∷ time i ∷ []))
trace-Paired n i j li lj h =
    let a = stamps n i start here li refl refl in
    let b = lines n j a.state a.reach lj (a.others j h) (a.logs refl) in
    let at_text : b.state.pc i ≡ Pc.trace_text = b.others i (λ e. h (sym e)) ∙ a.stands in
    (
      λ s r. (Reach-Inv r).free,
      (
        prints b.state i (text i) Pc.trace_end,
        next b.reach (print_text i li at_text),
        rw (b.prints_one, a.prints_one) refl,
      ),
    )
