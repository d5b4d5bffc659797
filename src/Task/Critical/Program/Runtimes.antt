-- ===== src/Task/Critical/Program/Runtimes.antt =====
-- What the programs with critical tasks print.
use libpreempt.Prelude.{
  ℕ, ◌+◌, ◌*◌, ◌<◌, ◌≤◌, ◌≡◌, refl, ap, subst, inl, inr, Option-cases, ◌≤ℤ◌, subst⁻¹, true, none,
  some, ℤ, pos, ◌-ℤ◌, int_laws, arith,
}
use libpreempt.Task.Critical.{to_microseconds}
use libpreempt.Task.Critical.Laws.{to_microseconds_le}
use libpreempt.Task.Critical.Program.{
  Pc, unborn, hooked, running, ran, leaving, finished, ended, System, Reach,
}
use libpreempt.Task.Critical.Program.Invariant.{
  is_finished, printed_by, joined_by, printed_le, runtimes, Missed, Timed, open_task, Reach-Inv,
}

-- A task that has finished, with the two readings of its clock: it has kept its deadline, and `usec_`
-- is the time between the readings, which is at most `Us` microseconds.
pub record Kept (us : ℕ) (usec : ℤ) (pc : Pc) : Type 0 where
  pub begun : ℕ
  pub over : ℕ
  pub stands : pc ≡ finished begun over
  pub order : begun ≤ over
  pub deadline : over ≤ begun + us * 1000
  pub measured : usec ≡ to_microseconds (pos over -ℤ pos begun)
  pub bounded : usec ≤ℤ pos us

kept :
    (us clock : ℕ) (usec : ℤ) (p q : Pc)
    → q ≡ p
    → Timed us clock usec p
    → is_finished p ≡ true
    → Kept us usec q
kept us clock usec (finished b e) q h (l, d, m) f = record {
  begun = b;
  over = e;
  stands = h;
  order = l;
  deadline = d;
  measured = m;
  bounded = subst⁻¹ (λ x. x ≤ℤ pos us) m (to_microseconds_le us _ (omega int_laws));
}
kept us clock usec unborn q h t f = absurd (ground arith)
kept us clock usec hooked q h t f = absurd (ground arith)
kept us clock usec (running b) q h t f = absurd (ground arith)
kept us clock usec (ran b) q h t f = absurd (ground arith)
kept us clock usec leaving q h t f = absurd (ground arith)

-- However the tasks and `main` take turns and the clock goes on without running backwards, the
-- program prints the runtimes of its tasks in their order, each as the task has stored it; each task
-- whose runtime is printed has kept its deadline, and its runtime is at most its `Us`. Where a task
-- ends the process, its second reading of the clock exceeds the first by more than its `Us`, its
-- `usec_` is the time between them, and no runtime of it or of a task behind it is printed. At the
-- end of `main` all runtimes are printed, and no task has missed its deadline.
pub runtimes_lem :
    (n : ℕ) (us : ℕ → ℕ) (now : ℕ) (s : System)
    → Reach n us now s
    → (s.printed ≡ runtimes s.usec (printed_by n s.main))
      × ((j : ℕ) → j < printed_by n s.main → Kept (us j) (s.usec j) (s.pc j))
      × ((i : ℕ)
          → s.missed ≡ some i
          → (i < n) × Missed (us i) s.clock (s.usec i) × (printed_by n s.main ≤ i))
      × (s.main ≡ ended → (s.printed ≡ runtimes s.usec n) × (s.missed ≡ none))
runtimes_lem n us now s r =
    let inv = Reach-Inv r in
    let before : (i : ℕ)
        → s.missed ≡ some i
        → (i < n) × Missed (us i) s.clock (s.usec i) × (joined_by n s.main ≤ i) =
      λ i h.
        let (l, f) = inv.late i h in
        (
          l,
          subst (Timed (us i) s.clock (s.usec i)) f (inv.timed i),
          open_task i inv (ap is_finished f),
        ) in
    (
      inv.printed,
      (λ j l.
          kept (us j) s.clock (s.usec j) (s.pc j) (s.pc j) refl (inv.timed j)
            (inv.joined j (omega (arith, printed_le n s.main)))),
      (λ i h. let (l, m, k) = before i h in (l, m, omega (arith, k, printed_le n s.main))),
      λ e. (
        subst (λ x. s.printed ≡ runtimes s.usec (printed_by n x)) e inv.printed,
        elim (Option-cases s.missed) [
          | inl none_late ↦ none_late
          | inr (i, h) ↦
              let (l, _, k) = before i h in absurd (omega (arith, l, k, ap (joined_by n) e))
        ],
      ),
    )
