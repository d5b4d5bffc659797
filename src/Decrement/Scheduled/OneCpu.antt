-- ===== src/Decrement/Scheduled/OneCpu.antt =====
-- `run` of tests/preempt_03_decrement.cc on one processor: it ends, and each of its VERIFYs holds.
use libpreempt.Prelude.{
  ℕ, suc, ◌+◌, ◌-◌, ◌*◌, ◌<◌, ◌≤◌, ◌≡◌, ◌≢◌, ◌⊎◌, inl, inr, ◌↔◌, refl, sym, ◌∙◌, ap, subst, Bool,
  true, false, pos, total, total-update, total-same, arith,
}
use native.Mathlib.Decide.{dec_lt}
use libpreempt.Decrement.Scheduled.{
  Pc, unborn, verifying, reading, writing, finished, Main, creating, joining, ended, System, Runner,
  main_thread, thread, Step, create, created_all, join, joined_all, verify, read, write, start,
  Reach, here, next, is_live,
}
use libpreempt.Decrement.Scheduled.Invariant.{
  MainWaits, MainAt, Between, Inv, between, within, main_at, not_live, at_creating, at_joining,
  Busy-live, Reach-Inv,
}

-- The processor is not idle: some thread that can run does, and `main` where there is none, unless
-- it has ended.
pub record IsBusy (n : ℕ) (runs : System → Runner → Bool) : Type 0 where
  pub some_thread :
      (s : System) (j : ℕ)
      → j < n
      → is_live (s.pc j) ≡ true
      → (i : ℕ) × (i < n) × (is_live (s.pc i) ≡ true) × (runs s (thread i) ≡ true)
  pub main_alone :
      (s : System)
      → s.main ≢ ended
      → ((j : ℕ) → j < n → is_live (s.pc j) ≡ false)
      → runs s main_thread ≡ true

-- The steps that a thread, and `main`, have before them.
abbrev thread_left : Pc → ℕ
thread_left unborn = 3
thread_left verifying = 3
thread_left reading = 2
thread_left (writing v) = 1
thread_left finished = 0

abbrev main_left : ℕ → Main → ℕ
main_left n (creating i) = (n - i) + 1 + n + 1
main_left n (joining i) = (n - i) + 1
main_left n ended = 0

abbrev left : ℕ → System → ℕ
left n s = total thread_left n s.pc + main_left n s.main

abbrev IsCreating : Main → Type 0
IsCreating (creating i) = Unit
IsCreating (joining i) = ⊥
IsCreating ended = ⊥

creating_goes : (i : ℕ) → creating i ≢ ended
creating_goes i e = cc

joining_goes : (i : ℕ) → joining i ≢ ended
joining_goes i e = cc

main_creates :
    (n i : ℕ) (m : Main)
    → i < n
    → m ≡ creating i
    → main_left n m ≡ suc (main_left n (creating (suc i)))
main_creates n i m l e = rw e (omega arith)

module _ {n : ℕ} (b : Bool) (runs : System → Runner → Bool) (waits : MainWaits n runs) where
  Step-left : {s t : System} → Step n runs s t → Inv n b s → suc (left n t) ≡ left n s
  Step-left {s} (create i l m r) inv =
      let (c, w) = main_at runs waits r inv in
      let e : c ≡ i = sym (at_creating n c i s.main m w.stands) in
      let new : s.pc i ≡ unborn = w.around.behind i (omega arith) in
      omega (
        arith,
        total-update thread_left n s.pc i verifying l,
        ap thread_left new,
        main_creates n i s.main l m,
      )
  Step-left {s} (created_all m r) inv = omega (arith, ap (main_left n) m)
  Step-left {s} (join i l m f r) inv = omega (arith, ap (main_left n) m)
  Step-left {s} (joined_all m r) inv = omega (arith, ap (main_left n) m)
  Step-left {s} (verify i l e r) inv =
      omega (arith, total-update thread_left n s.pc i reading l, ap thread_left e)
  Step-left {s} (read i l e r) inv =
      omega (arith, total-update thread_left n s.pc i (writing s.value) l, ap thread_left e)
  Step-left {s} (write i v l e r) inv =
      omega (arith, total-update thread_left n s.pc i finished l, ap thread_left e)

  left-start : left n (start n b) ≡ 5 * n + 2
  left-start = omega (arith, total-same thread_left n (λ _. unborn) 3 (λ j l. refl))

  Reach-left : {k : ℕ} {s : System} → Reach n runs (start n b) k s → k + left n s ≡ 5 * n + 2
  Reach-left here = omega (arith, left-start)
  Reach-left (next r st) = omega (arith, Reach-left r, Step-left st (Reach-Inv runs waits r))

  module _ (busy : IsBusy n runs) where
    thread_goes :
        (s : System) (i : ℕ) (p : Pc)
        → i < n
        → s.pc i ≡ p
        → is_live p ≡ true
        → runs s (thread i) ≡ true
        → (t : System) × Step n runs s t
    thread_goes s i unborn l e h r = absurd (ground arith)
    thread_goes s i verifying l e h r = (_, verify i l e r)
    thread_goes s i reading l e h r = (_, read i l e r)
    thread_goes s i (writing v) l e h r = (_, write i v l e r)
    thread_goes s i finished l e h r = absurd (ground arith)

    main_goes :
        (s : System) (c : ℕ) (m : Main)
        → Between n b s c
        → s.main ≡ m
        → (s.main ≢ ended → runs s main_thread ≡ true)
        → (m ≡ ended) ⊎ ((t : System) × Step n runs s t)
    main_goes s c (creating i) w e r =
        let now = r (λ q. creating_goes i (sym e ∙ q)) in
        let h : i ≡ c = at_creating n c i s.main e w.stands in
        let last : i ≤ n = omega (arith, w.below) in
        elim (dec_lt i n) [
          | yes l ↦ inr (_, create i l e now)
          | no l ↦ let full : i ≡ n = omega arith in inr (_, created_all (e ∙ ap creating full) now)
        ]
    main_goes s c (joining i) w e r =
        let now = r (λ q. joining_goes i (sym e ∙ q)) in
        let (all, last) = at_joining n c i s.main e w.stands in
        elim (dec_lt i n) [
          | yes l ↦ inr (_, join i l e (w.around.before i (omega arith)) now)
          | no l ↦ let full : i ≡ n = omega arith in inr (_, joined_all (e ∙ ap joining full) now)
        ]
    main_goes s c ended w e r = inl refl

    goes_on : (s : System) → Inv n b s → (s.main ≡ ended) ⊎ ((t : System) × Step n runs s t)
    goes_on s (between c w) =
        main_goes s c s.main w refl (λ q. busy.main_alone s q (λ j l. not_live c j s.pc w.around))
    goes_on s (within k w) =
        let (i, l, live, r) = busy.some_thread s k w.below (Busy-live _ (s.pc k) w.busy) in
        inr (thread_goes s i (s.pc i) l refl live r)

    -- What holds behind the last VERIFY.
    over :
        (s : System)
        → Inv n b s
        → s.main ≡ ended
        → (left n s ≡ 0) × (s.value ≡ pos 0) × (s.verified ≡ b)
    over s (between c w) e =
        let all : c ≡ n = subst (MainAt n c) e w.stands in
        let none_left : total thread_left n s.pc ≡ n * 0 =
          total-same thread_left n s.pc 0
            (λ j l. ap thread_left (w.around.before j (omega arith))) in
        (omega (arith, none_left, ap (main_left n) e), w.value ∙ ap pos (omega arith), w.verified)
    over s (within k w) e = absurd (subst IsCreating (sym w.stands ∙ e) tt)

-- On one processor, which is not idle while a thread can run, and where a thread without real-time
-- priority runs only while no other can: whatever the system chooses, each run of n threads has
-- exactly 5 * n + 2 steps. It has ended exactly behind the last of them, and before it there is a
-- step to go on with. Where it has ended, the global number is 0 and the verify flag is as it was.
pub one_cpu :
    (n : ℕ) (b : Bool) (runs : System → Runner → Bool) (k : ℕ) (s : System)
    → MainWaits n runs
    → IsBusy n runs
    → Reach n runs (start n b) k s
    → (k ≤ 5 * n + 2)
      × ((s.main ≡ ended) ↔ (k ≡ 5 * n + 2))
      × (k < 5 * n + 2 → (t : System) × Step n runs s t)
      × (s.main ≡ ended → (s.value ≡ pos 0) × (s.verified ≡ b))
one_cpu n b runs k s waits busy r =
    let inv = Reach-Inv runs waits r in
    let sum : k + left n s ≡ 5 * n + 2 = Reach-left b runs waits r in
    let at_end : s.main ≡ ended → (left n s ≡ 0) × (s.value ≡ pos 0) × (s.verified ≡ b) =
      over b runs waits busy s inv in
    let further : (t : System) → Step n runs s t → 0 < left n s =
      λ t st. omega (arith, Step-left b runs waits st inv) in
    (
      omega (arith, sum),
      (
        (λ e. omega (arith, sum, (at_end e).0)),
        λ full. elim (goes_on b runs waits busy s inv) [
          | inl e ↦ e
          | inr (t, st) ↦ absurd (omega (arith, sum, further t st, full))
        ],
      ),
      (λ l. elim (goes_on b runs waits busy s inv) [
        | inl e ↦ absurd (omega (arith, sum, l, (at_end e).0))
        | inr next_step ↦ next_step
      ]),
      (λ e. let (zero_left, value, verified) = at_end e in (value, verified)),
    )
