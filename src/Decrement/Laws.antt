-- ===== src/Decrement/Laws.antt =====
-- What the decrement tests find out about the order of the threads.
use libpreempt.Prelude.{
  ◌≡◌, ◌≤◌, ◌==◌, refl, ℕ, zero, suc, ◌+◌, ◌↔◌, Bool, true, false, ◌&&◌, List, [], ◌∷◌, length, ℤ,
  pos, negsuc, ◌-ℤ◌, eqb_ℤ, leb_ℤ, int_laws, arith, ◌∙◌, sym, ap,
}
use libpreempt.Decrement.{
  Shared, verified_by, decrement, schedule, fifo, verify_table, expected_values, run,
}

-- `n` numbers, one less each time.
pub countdown : ℤ → ℕ → List ℤ
countdown g zero = []
countdown g (suc n) = g ∷ countdown (g -ℤ pos 1) n

eqb_iff : (a b : ℤ) → (eqb_ℤ a b ≡ true) ↔ (a ≡ b)
eqb_iff a b = ground arith

pub and_iff : (a b : Bool) → (a && b ≡ true) ↔ ((a ≡ true) × (b ≡ true))
and_iff a b = ground arith

minus_suc : (g : ℤ) (n : ℕ) → g -ℤ pos 1 -ℤ pos n ≡ g -ℤ pos (suc n)
minus_suc g n = omega int_laws

minus_next : (n i : ℕ) → pos n -ℤ pos (i + 1) ≡ pos n -ℤ pos i -ℤ pos 1
minus_next n i = omega int_laws

same_cons : {a b : ℤ} {xs ys : List ℤ} → a ≡ b → xs ≡ ys → a ∷ xs ≡ b ∷ ys
same_cons h k = cc

cons_same : {a b : ℤ} {xs ys : List ℤ} → a ∷ xs ≡ b ∷ ys → (a ≡ b) × (xs ≡ ys)
cons_same h = (cc, cc)

schedule-value :
    (order : List ℤ) (s : Shared)
    → (schedule order s).global_value ≡ s.global_value -ℤ pos (length order)
unfolding schedule decrement
schedule-value [] s = omega int_laws
schedule-value (e ∷ order) s =
    schedule-value order (decrement e s) ∙ minus_suc s.global_value (length order)

schedule-verified :
    (order : List ℤ) (s : Shared)
    → ((schedule order s).verified ≡ true)
      ↔ ((s.verified ≡ true) × (order ≡ countdown s.global_value (length order)))
unfolding schedule decrement countdown
schedule-verified [] s = ((λ h. (h, refl)), λ h. h.0)
schedule-verified (e ∷ order) s =
    let (to, from) = schedule-verified order (decrement e s) in
    let (same, eqb) = eqb_iff s.global_value e in
    let (split, join) = and_iff s.verified (eqb_ℤ s.global_value e) in
    (
      (λ h. let (v, o) = to h in let (sv, eq) = split v in (sv, same_cons (sym (same eq)) o)),
      λ (h : (s.verified ≡ true)
            × (e ∷ order ≡ s.global_value ∷ countdown (s.global_value -ℤ pos 1) (length order))).
          let (eq, o) = cons_same h.1 in from (join (h.0, eqb (sym eq)), o),
    )

-- The values that `run` gives to its threads.
expected-countdown :
    (n i rounds : ℕ) → expected_values n i rounds ≡ countdown (pos n -ℤ pos i) rounds
unfolding expected_values countdown
expected-countdown n i zero = refl
expected-countdown n i (suc rounds) =
    ap (◌∷◌ (pos n -ℤ pos i))
      (expected-countdown n (i + 1) rounds ∙ ap (λ x. countdown x rounds) (minus_next n i))

-- The priorities do not rise.
unfoldable pub falling : List ℤ → Bool
falling [] = true
falling (a ∷ []) = true
falling (a ∷ b ∷ table) = leb_ℤ b a && falling (b ∷ table)

with_verified :
    (s : Shared) (a b : Bool) → a ≡ b → record s { verified = a } ≡ record s { verified = b }
with_verified s a b h = ap (λ (v : Bool). record s { verified = v }) h

and_true : (a : Bool) → a ≡ (a && true)
and_true a = ground arith

and_assoc : (a b c : Bool) → (a && b) && c ≡ a && (b && c)
and_assoc a b c = ground arith

not_zero : (n : ℕ) → 1 ≤ n → (n == 0) ≡ false
not_zero n h = ground arith

verify_table_from :
    (n : ℕ) (before : ℤ) (table : List ℤ) (s : Shared)
    → 1 ≤ n
    → verify_table n before table s ≡ record s { verified = s.verified && falling (before ∷ table) }
unfolding verify_table falling
verify_table_from n before [] s h = with_verified s s.verified _ (and_true s.verified)
verify_table_from n before (priority ∷ table) s h = rw (not_zero n h) (
    verify_table_from (n + 1) priority table (verified_by (leb_ℤ priority before) s) (omega arith)
    ∙ with_verified s _ _
        (and_assoc s.verified (leb_ℤ priority before) (falling (priority ∷ table))))

verify_table_lem :
    (table : List ℤ) (s : Shared)
    → verify_table 0 (pos 0) table s ≡ record s { verified = s.verified && falling table }
unfolding verify_table falling
verify_table_lem [] s = with_verified s s.verified _ (and_true s.verified)
verify_table_lem (priority ∷ table) s =
    verify_table_from 1 priority table (verified_by true s) (omega arith)
    ∙ with_verified s _ _ (and_assoc s.verified true (falling (priority ∷ table)))

minus_zero : (n : ℕ) → pos n -ℤ pos 0 ≡ pos n
minus_zero n = omega int_laws

reached : (b : Bool) (a t : ℤ) → a ≡ t → (b && eqb_ℤ a t ≡ true) ↔ (b ≡ true)
reached b a t h = rw h (ground arith)

-- A run from `n` with so many threads that it ends at `t`, and a last VERIFY of `t`.
run_down :
    (order : List ℤ) (n : ℕ) (t : ℤ) (v : Bool)
    → let s : Shared = record { global_value = pos n; verified = v } in
      pos n -ℤ pos (length order) ≡ t
      → ((schedule order s).verified && eqb_ℤ (schedule order s).global_value t ≡ true)
        ↔ ((v ≡ true) × (order ≡ expected_values n 0 (length order)))
run_down order n t v h =
    let s : Shared = record { global_value = pos n; verified = v } in
    let (verified, back) = reached (schedule order s).verified _ t (schedule-value order s ∙ h) in
    let (to, from) = schedule-verified order s in
    let same : expected_values n 0 (length order) ≡ countdown (pos n) (length order) =
      expected-countdown n 0 (length order) ∙ ap (λ x. countdown x (length order)) (minus_zero n) in
    (
      (λ e. let (a, b) = to (verified e) in (a, b ∙ sym same)),
      λ (e : (v ≡ true) × (order ≡ expected_values n 0 (length order))).
          back (from (e.0, e.1 ∙ same)),
    )

-- The first test succeeds exactly if its ten threads run in the order of their creation: with the
-- flag set before, the flag is true behind the last VERIFY exactly for the order 9, 8, ..., 0.
pub fifo_lem :
    (order : List ℤ) (s : Shared)
    → s.verified ≡ true
    → length order ≡ 10
    → ((fifo order s).verified ≡ true) ↔ (order ≡ expected_values 9 0 10)
unfolding fifo
fifo_lem order s h l =
    let (to, from) = run_down order 9 (negsuc 0) s.verified (rw l (omega int_laws)) in
    ((λ e. rw⁻¹ l ((to e).1)), λ e. from (h, rw l e))

-- A run of the second test from any flag.
pub run_verified :
    (table order : List ℤ) (s : Shared)
    → length order ≡ length table
    → ((run table order s).global_value ≡ pos 0)
      × (((run table order s).verified ≡ true) ↔ (
          (s.verified && falling table ≡ true)
          × (order ≡ expected_values (length table) 0 (length table))))
unfolding run
run_verified table order s l =
    let start : Shared = record s { global_value = pos (length table) } in
    let zero_left : pos (length table) -ℤ pos (length order) ≡ pos 0 = rw l (omega int_laws) in
    let (to, from) =
      run_down order (length table) (pos 0) (s.verified && falling table) zero_left in
    rw (verify_table_lem table start) (
      schedule-value order _ ∙ zero_left,
      (
        (λ e. let (a, b) = to e in (a, b ∙ ap (λ n. expected_values (length table) 0 n) l)),
        λ e. from (e.0, e.1 ∙ ap (λ n. expected_values (length table) 0 n) (sym l)),
      ),
    )

-- The second test: with the flag set before, and as many threads run as the table has priorities,
-- the flag is true afterwards exactly if the priorities do not rise and the threads run in the order
-- of their creation; and the global number is 0 in any case.
run_lem :
    (table order : List ℤ) (s : Shared)
    → s.verified ≡ true
    → length order ≡ length table
    → ((run table order s).global_value ≡ pos 0)
      × (((run table order s).verified ≡ true)
          ↔ ((falling table ≡ true) × (order ≡ expected_values (length table) 0 (length table))))
run_lem table order s h l =
    let (value, (to, from)) = run_verified table order s l in
    let (split, join) = and_iff s.verified (falling table) in
    (value, ((λ e. let (a, b) = to e in ((split a).1, b)), λ e. from (join (h, e.0), e.1)))
