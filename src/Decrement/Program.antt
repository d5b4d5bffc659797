-- ===== src/Decrement/Program.antt =====
-- `main` of tests/preempt_03_decrement.cc: six runs after each other.
use libpreempt.Prelude.{
  ◌≡◌, refl, ℕ, ◌↔◌, Bool, true, List, [], ◌∷◌, length, ℤ, pos, if◌then◌else◌, arith,
}
use libpreempt.Decrement.{Shared, expected_values, run, run_each, runs_of, exit_status_of}
use libpreempt.Decrement.Laws.{falling, and_iff, run_verified}

-- Each run has a table of priorities that do not rise, and as many threads as the table.
abbrev pub Falling : List (List ℤ × List ℤ) → Type 0
Falling [] = Unit
Falling ((table, order) ∷ runs) =
    ((length order ≡ length table) × (falling table ≡ true)) × Falling runs

-- In each run the threads run in the order of their creation.
abbrev pub InOrder : List (List ℤ × List ℤ) → Type 0
InOrder [] = Unit
InOrder ((table, order) ∷ runs) =
    (order ≡ expected_values (length table) 0 (length table)) × InOrder runs

run_each-InOrder :
    (runs : List (List ℤ × List ℤ)) (s : Shared)
    → Falling runs
    → ((run_each runs s).verified ≡ true) ↔ ((s.verified ≡ true) × InOrder runs)
unfolding run_each
run_each-InOrder [] s f = ((λ h. (h, tt)), λ h. h.0)
run_each-InOrder ((table, order) ∷ runs) s f =
    let (_, (to, from)) = run_verified table order s f.0.0 in
    let (rest, back) = run_each-InOrder runs (run table order s) f.1 in
    let (split, join) = and_iff s.verified (falling table) in
    (
      (λ e. let (v, o) = rest e in let (a, b) = to v in ((split a).0, (b, o))),
      λ e. back (from (join (e.0, f.0.1), e.1.0), e.1.1),
    )

exit_success : (b : Bool) → (◌≡◌ {A = ℕ} (if b then 0 else 1) 0) ↔ (b ≡ true)
exit_success b = ground arith

-- The program with the six tables of its `main`, in whatever orders the threads of its tables run,
-- returns EXIT_SUCCESS (0) exactly if for each table they run in the order of their creation.
decrement-InOrder :
    (a b c d e f : List ℤ)
    → length a ≡ 3
    → length b ≡ 3
    → length c ≡ 3
    → length d ≡ 6
    → length e ≡ 3
    → length f ≡ 6
    → (exit_status_of (runs_of a b c d e f) ≡ 0) ↔ InOrder (runs_of a b c d e f)
unfolding exit_status_of falling
decrement-InOrder a b c d e f ha hb hc hd he hf =
    let runs = runs_of a b c d e f in
    let start : Shared = record { global_value = pos 0; verified = true } in
    let (to, from) =
      run_each-InOrder runs start
        ((ha, refl), ((hb, refl), ((hc, refl), ((hd, refl), ((he, refl), ((hf, refl), tt)))))) in
    let (true_of, of_true) = exit_success (run_each runs start).verified in
    ((λ s. (to (true_of s)).1), λ o. of_true (from (refl, o)))
