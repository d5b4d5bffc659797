-- ===== src/Examples/Threads/Outcome.antt =====
-- The threads of a test program in any interleaving: its flag, its joins and its steps.
use libpreempt.Prelude.{
  ℕ, zero, suc, ◌+◌, ◌≤◌, ◌<◌, ◌≡◌, refl, ap, ◌∙◌, Bool, true, false, ◌&&◌, ◌⊎◌, inl, inr, some,
  List, [], ◌∷◌, ◌++◌, get_elem?, set, length, length-append, length-set, ◌==◌, arith, Bool-cases,
}
use libpreempt.Verify.Laws.{all_true}
use libpreempt.Verify.Threads.{all_true-append}
use libpreempt.Examples.Threads.{
  Action, System, Step, starts, joins, verifies, runs, Reach, here, next, will_join, joins_all,
  conditions,
}

abbrev all_each : List (List Bool) → Bool
all_each [] = true
all_each (bs ∷ ts) = all_true bs && all_each ts

abbrev size : List (List Bool) → ℕ
size [] = 0
size (bs ∷ ts) = length bs + size ts

-- The steps that the actions stand for, those of the started threads included.
abbrev pub cost : List Action → ℕ
cost [] = 0
cost (Action.start bs ∷ rest) = suc (length bs + cost rest)
cost (Action.join i ∷ rest) = suc (cost rest)
cost (Action.verify b ∷ rest) = suc (cost rest)

all_each-snoc :
    (ts : List (List Bool)) (bs : List Bool)
    → all_each (ts ++ bs ∷ []) ≡ (all_each ts && all_true bs)
all_each-snoc [] bs = ground arith
all_each-snoc (t ∷ ts) bs = ground (arith, all_each-snoc ts bs)

all_each-set :
    (ts : List (List Bool)) (i : ℕ) (b : Bool) (bs : List Bool)
    → get_elem? ts i ≡ some (b ∷ bs)
    → (b && all_each (set ts i bs)) ≡ all_each ts
all_each-set [] i b bs e = absurd (ground (arith, e))
all_each-set (t ∷ ts) zero b bs e = ground (arith, e)
all_each-set (t ∷ ts) (suc i) b bs e = ground (arith, all_each-set ts i b bs e)

size-snoc : (ts : List (List Bool)) (bs : List Bool) → size (ts ++ bs ∷ []) ≡ size ts + length bs
size-snoc [] bs = omega arith
size-snoc (t ∷ ts) bs = omega (arith, size-snoc ts bs)

size-set :
    (ts : List (List Bool)) (i : ℕ) (b : Bool) (bs : List Bool)
    → get_elem? ts i ≡ some (b ∷ bs)
    → suc (size (set ts i bs)) ≡ size ts
size-set [] i b bs e = absurd (ground (arith, e))
size-set (t ∷ ts) zero b bs e = ground (arith, e)
size-set (t ∷ ts) (suc i) b bs e = omega (arith, size-set ts i b bs e)

-- The flag together with the conditions that are left, and the number of steps that are left.
abbrev outlook : System → Bool
outlook s = s.flag && all_each s.threads && all_true (conditions s.main)

abbrev left : System → ℕ
left s = size s.threads + cost s.main

Step-outlook : {s t : System} → Step s t → outlook t ≡ outlook s
Step-outlook {s} (starts bs rest e) =
    ground (arith, e, all_each-snoc s.threads bs, all_true-append bs (conditions rest))
Step-outlook (joins i rest e f) = ground (arith, e)
Step-outlook (verifies b rest e) = ground (arith, e)
Step-outlook {s} (runs i b bs e) = ground (arith, all_each-set s.threads i b bs e)

Step-left : {s t : System} → Step s t → suc (left t) ≡ left s
Step-left {s} (starts bs rest e) = ground (arith, e, size-snoc s.threads bs)
Step-left (joins i rest e f) = ground (arith, e)
Step-left (verifies b rest e) = ground (arith, e)
Step-left {s} (runs i b bs e) = ground (arith, size-set s.threads i b bs e)

get_elem?-snoc :
    (ts : List (List Bool)) (bs cs : List Bool) (i : ℕ)
    → get_elem? (ts ++ bs ∷ []) i ≡ some cs
    → (get_elem? ts i ≡ some cs) ⊎ (i ≡ length ts)
get_elem?-snoc [] bs cs zero e = inr refl
get_elem?-snoc [] bs cs (suc i) e = absurd (ground (arith, e))
get_elem?-snoc (t ∷ ts) bs cs zero e = inl e
get_elem?-snoc (t ∷ ts) bs cs (suc i) e = elim (get_elem?-snoc ts bs cs i e) [
  | inl h ↦ inl h
  | inr h ↦ inr (ap suc h)
]

get_elem?-set :
    (ts : List (List Bool)) (i j : ℕ) (b : Bool) (bs cs : List Bool)
    → get_elem? ts i ≡ some (b ∷ bs)
    → get_elem? (set ts i bs) j ≡ some cs
    → (get_elem? ts j ≡ some cs) ⊎ ((j ≡ i))
get_elem?-set [] i j b bs cs e h = absurd (ground (arith, e))
get_elem?-set (t ∷ ts) zero zero b bs cs e h = inr refl
get_elem?-set (t ∷ ts) zero (suc j) b bs cs e h = inl h
get_elem?-set (t ∷ ts) (suc i) zero b bs cs e h = inl h
get_elem?-set (t ∷ ts) (suc i) (suc j) b bs cs e h = elim (get_elem?-set ts i j b bs cs e h) [
  | inl h ↦ inl h
  | inr h ↦ inr (ap suc h)
]

get_elem?-below :
    (ts : List (List Bool)) (i : ℕ) → i < length ts → (bs : List Bool) × (get_elem? ts i ≡ some bs)
get_elem?-below [] i h = absurd (omega arith)
get_elem?-below (t ∷ ts) zero h = (t, refl)
get_elem?-below (t ∷ ts) (suc i) h = get_elem?-below ts i (omega arith)

-- The joins that are left fit the threads, and a thread that will not be joined any more has ended.
record IsOrderly (s : System) : Type 0 where
  fits : joins_all (length s.threads) s.main ≡ true
  ended :
      (i : ℕ) (bs : List Bool)
      → get_elem? s.threads i ≡ some bs
      → will_join i s.main ≡ false
      → bs ≡ []

Step-IsOrderly : {s t : System} → IsOrderly s → Step s t → IsOrderly t
Step-IsOrderly {s} o (starts bs rest e) = record {
  fits = ground (arith, o.fits, e, length-append s.threads (bs ∷ []));
  ended = λ i cs h n. elim (get_elem?-snoc s.threads bs cs i h) [
    | inl old ↦ o.ended i cs old (ground (arith, e, n))
    | inr new ↦ absurd (ground (arith, o.fits, e, new, n))
  ];
}
Step-IsOrderly {s} o (joins i rest e f) = record {
  fits = ground (arith, o.fits, e);
  ended = λ j cs h n. elim (Bool-cases (j == i)) [
    | inl same ↦ ground (arith, f, h, same)
    | inr other ↦ o.ended j cs h (ground (arith, e, n, other))
  ];
}
Step-IsOrderly {s} o (verifies b rest e) = record {
  fits = ground (arith, o.fits, e);
  ended = λ j cs h n. o.ended j cs h (ground (arith, e, n));
}
Step-IsOrderly {s} o (runs i b bs e) = record {
  fits = ground (arith, o.fits, length-set s.threads i bs);
  ended = λ j cs h n. elim (get_elem?-set s.threads i j b bs cs e h) [
    | inl old ↦ o.ended j cs old n
    | inr same ↦ absurd (ground (arith, o.ended i (b ∷ bs) e, same, n))
  ];
}

Reach-kept :
    {program : List Action} {k : ℕ} {s : System}
    → joins_all 0 program ≡ true
    → Reach program k s
    → IsOrderly s × (outlook s ≡ all_true (conditions program)) × (k + left s ≡ cost program)
Reach-kept ok here =
    (record { fits = ok; ended = λ i bs h n. absurd (ground (arith, h)) }, refl, omega arith)
Reach-kept ok (next r st) =
    let (o, e, l) = Reach-kept ok r in
    (Step-IsOrderly o st, Step-outlook st ∙ e, omega (arith, l, Step-left st))

all_ended :
    (ts : List (List Bool))
    → ((i : ℕ) (bs : List Bool) → get_elem? ts i ≡ some bs → bs ≡ [])
    → all_each ts ≡ true
all_ended [] h = refl
all_ended (t ∷ ts) h = ground (arith, h 0 t refl, all_ended ts (λ i. h (suc i)))

goes_on :
    (s : System) (main : List Action)
    → s.main ≡ main
    → IsOrderly s
    → (s.main ≡ []) ⊎ ((t : System) × Step s t)
goes_on s [] e o = inl e
goes_on s (Action.start bs ∷ rest) e o = inr (_, starts bs rest e)
goes_on s (Action.verify b ∷ rest) e o = inr (_, verifies b rest e)
goes_on s (Action.join i ∷ rest) e o =
    let (bs, h) = get_elem?-below s.threads i (ground (arith, o.fits, e)) in
    elim bs as (λ bs. get_elem? s.threads i ≡ some bs → (s.main ≡ []) ⊎ ((t : System) × Step s t)) [
      | [] ↦ λ h. inr (_, joins i rest e h)
      | c ∷ cs ↦ λ h. inr (_, runs i c cs h)
    ]
      h

-- A program that joins each of its threads once, behind its start, never gets stuck, however its
-- threads are interleaved: it either goes on, or `main` has ended and the flag says whether all
-- conditions of `main` and of the threads hold. It takes at most one step for each action of `main` and
-- for each condition of a thread.
pub outcome_lem :
    (program : List Action) (k : ℕ) (s : System)
    → joins_all 0 program ≡ true
    → Reach program k s
    → (((s.main ≡ []) × (s.flag ≡ all_true (conditions program))) ⊎ ((t : System) × Step s t))
      × (k ≤ cost program)
outcome_lem program k s ok r =
    let (o, e, l) = Reach-kept ok r in
    (
      elim (goes_on s s.main refl o) [
        | inl ended ↦ inl (
          ended,
          ground (arith, e, ended, all_ended s.threads (λ i bs h. o.ended i bs h (rw ended refl))),
        )
        | inr more ↦ inr more
      ],
      omega (arith, l),
    )
