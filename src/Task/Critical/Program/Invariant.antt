-- ===== src/Task/Critical/Program/Invariant.antt =====
-- What holds while `main` and the critical tasks take turns: what the readings of the clock say, which
-- tasks are joined, and what is printed.
use libpreempt.Prelude.{
  ℕ, zero, suc, ◌+◌, ◌*◌, ◌<◌, ◌≤◌, ◌≡◌, refl, sym, ◌∙◌, ap, subst, ◌⊎◌, inl, inr, subst⁻¹, each,
  Bool, true, false, Option, none, some, List, [], ◌∷◌, ℤ, pos, ◌-ℤ◌, update, update-same,
  update-other, arith,
}
use native.Mathlib.Decide.{dec_lt}
use libpreempt.Task.Critical.{to_microseconds}
use libpreempt.Task.Critical.Program.{
  Pc, unborn, hooked, running, ran, leaving, finished, Main, starting, joining, printing, ended,
  System, goes, Step, tick, start_task, all_started, begin, run, meet, miss, leave, join, print,
  all_joined, start, Reach, here, next,
}

abbrev pub is_finished : Pc → Bool
is_finished unborn = false
is_finished hooked = false
is_finished (running b) = false
is_finished (ran b) = false
is_finished leaving = false
is_finished (finished b e) = true

-- How many runtimes are printed, and how many tasks are known to be joined.
abbrev pub printed_by : ℕ → Main → ℕ
printed_by n (starting i) = 0
printed_by n (joining i) = i
printed_by n (printing i) = i
printed_by n ended = n

abbrev pub joined_by : ℕ → Main → ℕ
joined_by n (starting i) = 0
joined_by n (joining i) = i
joined_by n (printing i) = suc i
joined_by n ended = n

-- The first `n` runtimes, newest first.
abbrev pub runtimes : (ℕ → ℤ) → ℕ → List ℤ
runtimes usec zero = []
runtimes usec (suc n) = usec n ∷ runtimes usec n

runtimes-update :
    (usec : ℕ → ℤ) (i : ℕ) (v : ℤ) (n : ℕ) → n ≤ i → runtimes (update usec i v) n ≡ runtimes usec n
runtimes-update usec i v zero h = refl
runtimes-update usec i v (suc n) h =
    rw (update-other usec i n v (λ e. omega arith), runtimes-update usec i v n (omega arith)) refl

-- The two readings of a task that has run longer than its deadline, and its `usec_` by them.
pub record Missed (us clock : ℕ) (usec : ℤ) : Type 0 where
  pub begun : ℕ
  pub over : ℕ
  pub exceeds : begun + us * 1000 < over
  pub passed : over ≤ clock
  pub measured : usec ≡ to_microseconds (pos over -ℤ pos begun)

-- What the readings of a task say, given the clock and its `usec_`.
abbrev pub Timed : ℕ → ℕ → ℤ → Pc → Type 0
Timed us clock usec unborn = Unit
Timed us clock usec hooked = Unit
Timed us clock usec (running b) = b ≤ clock
Timed us clock usec (ran b) = b ≤ clock
Timed us clock usec leaving = Missed us clock usec
Timed us clock usec (finished b e) =
    (b ≤ e) × (e ≤ b + us * 1000) × (usec ≡ to_microseconds (pos e -ℤ pos b))

pub record Inv (n : ℕ) (us : ℕ → ℕ) (s : System) : Type 0 where
  pub timed : (j : ℕ) → Timed (us j) s.clock (s.usec j) (s.pc j)
  pub printed : s.printed ≡ runtimes s.usec (printed_by n s.main)
  pub joined : (j : ℕ) → j < joined_by n s.main → is_finished (s.pc j) ≡ true
  pub below : joined_by n s.main ≤ n
  pub late : (i : ℕ) → s.missed ≡ some i → (i < n) × (s.pc i ≡ leaving)

Inv-start : (n : ℕ) (us : ℕ → ℕ) (now : ℕ) → Inv n us (start now)
Inv-start n us now = record {
  timed = λ j. tt;
  printed = refl;
  joined = λ j l. absurd (omega arith);
  below = omega arith;
  late = λ i h. absurd (ground arith);
}

Timed-later : (us c d : ℕ) (u : ℤ) (p : Pc) → c ≤ d → Timed us c u p → Timed us d u p
Timed-later us c d u unborn h t = tt
Timed-later us c d u hooked h t = tt
Timed-later us c d u (running b) h t = omega arith
Timed-later us c d u (ran b) h t = omega arith
Timed-later us c d u leaving h t = record {
  begun = t.begun;
  over = t.over;
  exceeds = t.exceeds;
  passed = omega (arith, t.passed);
  measured = t.measured;
}
Timed-later us c d u (finished b e) h t = t

pub printed_le : (n : ℕ) (m : Main) → printed_by n m ≤ joined_by n m
printed_le n (starting i) = omega arith
printed_le n (joining i) = omega arith
printed_le n (printing i) = omega arith
printed_le n ended = omega arith

-- A task that has not finished is not joined.
pub open_task :
    {n : ℕ} {us : ℕ → ℕ} {s : System} (i : ℕ)
    → Inv n us s
    → is_finished (s.pc i) ≡ false
    → joined_by n s.main ≤ i
open_task {n} {us} {s} i inv h = elim (dec_lt i (joined_by n s.main)) [
  | yes l ↦ absurd (ground (arith, inv.joined i l))
  | no l ↦ omega arith
]

not_both : (o : Option ℕ) (i : ℕ) → o ≡ none → o ≡ some i → ⊥
not_both o i h k = ground arith

-- A step of one task that is not joined, which stores `v` in its `usec_`.
store_step :
    {n : ℕ} {us : ℕ → ℕ} {s : System} (i : ℕ) (p : Pc) (v : ℤ)
    → Inv n us s
    → s.missed ≡ none
    → joined_by n s.main ≤ i
    → Timed (us i) s.clock v p
    → Inv n us (record (goes s i p) { usec = update s.usec i v })
store_step {n} {us} {s} i p v inv m o new = record {
  timed =
      each (λ j. Timed (us j) s.clock (update s.usec i v j) (update s.pc i p j)) i
        (subst⁻¹ (λ x. Timed (us i) s.clock (update s.usec i v i) x) (update-same s.pc i p)
          (subst⁻¹ (λ x. Timed (us i) s.clock x p) (update-same s.usec i v) new))
        (λ j d.
          subst⁻¹ (λ x. Timed (us j) s.clock x (update s.pc i p j)) (update-other s.usec i j v d)
            (subst⁻¹ (Timed (us j) s.clock (s.usec j)) (update-other s.pc i j p d) (inv.timed j)));
  printed =
      inv.printed
      ∙ sym (runtimes-update s.usec i v (printed_by n s.main) (omega (arith, printed_le n s.main)));
  joined = λ j l. ap is_finished (update-other s.pc i j p (λ e. omega arith)) ∙ inv.joined j l;
  below = inv.below;
  late = λ k h. absurd (not_both s.missed k m h);
}

-- A step that leaves `usec_` as it is.
task_step :
    {n : ℕ} {us : ℕ → ℕ} {s : System} (i : ℕ) (p : Pc)
    → Inv n us s
    → s.missed ≡ none
    → joined_by n s.main ≤ i
    → Timed (us i) s.clock (s.usec i) p
    → Inv n us (goes s i p)
task_step {n} {us} {s} i p inv m o new = record {
  timed =
      each (λ j. Timed (us j) s.clock (s.usec j) (update s.pc i p j)) i
        (subst⁻¹ (Timed (us i) s.clock (s.usec i)) (update-same s.pc i p) new)
        (λ j e.
          subst⁻¹ (Timed (us j) s.clock (s.usec j)) (update-other s.pc i j p e) (inv.timed j));
  printed = inv.printed;
  joined = λ j l. ap is_finished (update-other s.pc i j p (λ e. omega arith)) ∙ inv.joined j l;
  below = inv.below;
  late = λ k h. absurd (not_both s.missed k m h);
}

some_inj : (i k : ℕ) → some i ≡ some k → i ≡ k
some_inj i k h = ground arith

-- A step of `main` from `m` to `m'`.
main_step :
    {n : ℕ} {us : ℕ → ℕ} {s : System} (m m' : Main) (out : List ℤ)
    → Inv n us s
    → s.main ≡ m
    → (s.printed ≡ runtimes s.usec (printed_by n m) → out ≡ runtimes s.usec (printed_by n m'))
    → ((j : ℕ) → j < joined_by n m' → (j < joined_by n m) ⊎ (is_finished (s.pc j) ≡ true))
    → (joined_by n m ≤ n → joined_by n m' ≤ n)
    → Inv n us (record s { main = m'; printed = out })
main_step {n} {us} {s} m m' out inv e prints joins stays = record {
  timed = inv.timed;
  printed = prints (subst (λ x. s.printed ≡ runtimes s.usec (printed_by n x)) e inv.printed);
  joined = λ j l. elim (joins j l) [
    | inl h ↦ inv.joined j (subst⁻¹ (λ x. j < joined_by n x) e h)
    | inr f ↦ f
  ];
  below = stays (subst (λ x. joined_by n x ≤ n) e inv.below);
  late = inv.late;
}

Step-Inv : {n : ℕ} {us : ℕ → ℕ} {s t : System} → Step n us s t → Inv n us s → Inv n us t
Step-Inv {n} {us} {s} (tick now l m) inv = record {
  timed = λ j. Timed-later (us j) s.clock now (s.usec j) (s.pc j) l (inv.timed j);
  printed = inv.printed;
  joined = inv.joined;
  below = inv.below;
  late = inv.late;
}
Step-Inv {n} {us} {s} (start_task i l e m) inv =
    let waiting : Inv n us (record s { main = starting (suc i) }) =
      main_step (starting i) (starting (suc i)) s.printed inv e (λ h. h)
        (λ j k. absurd (omega arith)) (λ h. omega arith) in
    task_step i hooked waiting m (omega arith) tt
Step-Inv {n} {us} {s} (all_started e m) inv =
    main_step (starting n) (joining 0) s.printed inv e (λ h. h) (λ j k. absurd (omega arith))
      (λ h. omega arith)
Step-Inv {n} {us} {s} (begin i l e m) inv =
    task_step i (running s.clock) inv m (open_task i inv (ap is_finished e)) (omega arith)
Step-Inv {n} {us} {s} (run i b l e m) inv =
    task_step i (ran b) inv m (open_task i inv (ap is_finished e))
      (subst (Timed (us i) s.clock (s.usec i)) e (inv.timed i))
Step-Inv {n} {us} {s} (meet i b l e h m) inv =
    let begun : b ≤ s.clock = subst (Timed (us i) s.clock (s.usec i)) e (inv.timed i) in
    store_step i (finished b s.clock) _ inv m (open_task i inv (ap is_finished e)) (begun, h, refl)
Step-Inv {n} {us} {s} (miss i b l e h m) inv =
    store_step i leaving _ inv m (open_task i inv (ap is_finished e))
      (record { begun = b; over = s.clock; exceeds = h; passed = omega arith; measured = refl })
Step-Inv {n} {us} {s} (leave i l e m) inv = record {
  timed = inv.timed;
  printed = inv.printed;
  joined = inv.joined;
  below = inv.below;
  late = λ k q. subst (λ x. (x < n) × (s.pc x ≡ leaving)) (some_inj i k q) (l, e);
}
Step-Inv {n} {us} {s} (join i b e l at f m) inv =
    main_step (joining i) (printing i) s.printed inv at (λ h. h)
      (λ j k. elim (dec_lt j i) [
        | yes before ↦ inl before
        | no last ↦
            let same : i ≡ j = omega arith in
            inr (subst (λ x. is_finished (s.pc x) ≡ true) same (ap is_finished f))
      ])
      (λ h. l)
Step-Inv {n} {us} {s} (print i e m) inv =
    main_step (printing i) (joining (suc i)) (s.usec i ∷ s.printed) inv e
      (λ h. ap (◌∷◌ (s.usec i)) h) (λ j k. inl k) (λ h. h)
Step-Inv {n} {us} {s} (all_joined e m) inv =
    main_step (joining n) ended s.printed inv e (λ h. h) (λ j k. inl k) (λ h. h)

pub Reach-Inv : {n : ℕ} {us : ℕ → ℕ} {now : ℕ} {s : System} → Reach n us now s → Inv n us s
Reach-Inv {n} {us} {now} here = Inv-start n us now
Reach-Inv (next r st) = Step-Inv st (Reach-Inv r)
