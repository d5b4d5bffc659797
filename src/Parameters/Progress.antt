-- ===== src/Parameters/Progress.antt =====
-- No call of `set_parameters` or `get_parameters` (include/base/idioms.h) waits for ever.
use libpreempt.Prelude.{
  total, total-update, ℕ, zero, suc, ◌+◌, ◌-◌, ◌≤◌, ◌<◌, ◌≡◌, ◌≢◌, refl, Bool, true, false, inl,
  inr, none, Option-cases, arith,
}
use native.Mathlib.Decide.{dec_lt}
use libpreempt.Parameters.{
  Params, Pc, idle, set_lock, set_first, set_second, set_return, get_lock, get_first, get_second,
  get_return, System, Step, call_set, call_get, lock_set, write_first, write_second, return_set,
  lock_get, read_first, read_second, return_get, Reach, here, next,
}
use libpreempt.Parameters.Invariant.{inside, Reach-Inv}

module _ {ℓ} {A : Type ℓ} where
  -- The steps that a thread still has to make in its call.
  abbrev pub steps_left : Pc A → ℕ
  steps_left idle = 0
  steps_left (set_lock v) = 4
  steps_left (set_first v) = 3
  steps_left (set_second v) = 2
  steps_left (set_return v) = 1
  steps_left get_lock = 4
  steps_left get_first = 3
  steps_left (get_second a) = 2
  steps_left (get_return v) = 1

  -- A step that begins a new call.
  abbrev pub begins : {n : ℕ} {s t : System A} → Step n s t → Bool
  begins (call_set i v lt e) = true
  begins (call_get i lt e) = true
  begins _ = false

  -- k steps, none of which begins a call.
  pub data Finishing (n : ℕ) : ℕ → System A → System A → Type ℓ where
    stay : {s : System A} → Finishing n 0 s s
    more :
        {k : ℕ} {s t u : System A}
        → (st : Step n s t) → begins st ≡ false
        → Finishing n k t u
        → Finishing n (suc k) s u

  Step-total :
      {n : ℕ} {s t : System A} (st : Step n s t)
      → begins st ≡ false
      → suc (total steps_left n t.pc) ≡ total steps_left n s.pc
  Step-total (call_set i u lt e) b = cc
  Step-total (call_get i lt e) b = cc
  Step-total {n} {s} (lock_set i u lt e o) b =
      ground (arith, total-update steps_left n s.pc i (set_first u) lt)
  Step-total {n} {s} (write_first i u lt e) b =
      ground (arith, total-update steps_left n s.pc i (set_second u) lt)
  Step-total {n} {s} (write_second i u lt e) b =
      ground (arith, total-update steps_left n s.pc i (set_return u) lt)
  Step-total {n} {s} (return_set i u lt e) b =
      ground (arith, total-update steps_left n s.pc i idle lt)
  Step-total {n} {s} (lock_get i lt e o) b =
      ground (arith, total-update steps_left n s.pc i get_first lt)
  Step-total {n} {s} (read_first i lt e) b =
      ground (arith, total-update steps_left n s.pc i (get_second s.params.first) lt)
  Step-total {n} {s} (read_second i a lt e) b = ground (
    arith,
    total-update steps_left n s.pc i (get_return (record { first = a; second = s.params.second }))
        lt,
  )
  Step-total {n} {s} (return_get i u lt e) b =
      ground (arith, total-update steps_left n s.pc i idle lt)

  Finishing-total :
      {n k : ℕ} {s t : System A}
      → Finishing n k s t
      → total steps_left n t.pc + k ≡ total steps_left n s.pc
  Finishing-total stay = omega arith
  Finishing-total (more st b f) = omega (arith, Finishing-total f, Step-total st b)

  -- Only the first `n` threads ever move.
  Step-outside :
      {n : ℕ} {s t : System A} → Step n s t → (j : ℕ) → n ≤ j → s.pc j ≡ idle → t.pc j ≡ idle
  Step-outside (call_set i u lt e) j h q = ground arith
  Step-outside (call_get i lt e) j h q = ground arith
  Step-outside (lock_set i u lt e o) j h q = ground arith
  Step-outside (write_first i u lt e) j h q = ground arith
  Step-outside (write_second i u lt e) j h q = ground arith
  Step-outside (return_set i u lt e) j h q = ground arith
  Step-outside (lock_get i lt e o) j h q = ground arith
  Step-outside (read_first i lt e) j h q = ground arith
  Step-outside (read_second i a lt e) j h q = ground arith
  Step-outside (return_get i u lt e) j h q = ground arith

  Reach-outside :
      {n : ℕ} {v : Params A} {s : System A} → Reach n v s → (j : ℕ) → n ≤ j → s.pc j ≡ idle
  Reach-outside here j h = refl
  Reach-outside (next r st) j h = Step-outside st j h (Reach-outside r j h)

  abbrev Goes : ℕ → System A → Type ℓ
  Goes n s = (t : System A) × (st : Step n s t) × (begins st ≡ false)

  -- The thread that holds the lock can go on.
  inside-Goes :
      (n : ℕ) (s : System A) (i : ℕ) (p : Pc A) → i < n → s.pc i ≡ p → inside p ≡ true → Goes n s
  inside-Goes n s i idle lt e h = cc
  inside-Goes n s i (set_lock v) lt e h = cc
  inside-Goes n s i (set_first v) lt e h = (_, write_first i v lt e, refl)
  inside-Goes n s i (set_second v) lt e h = (_, write_second i v lt e, refl)
  inside-Goes n s i (set_return v) lt e h = (_, return_set i v lt e, refl)
  inside-Goes n s i get_lock lt e h = cc
  inside-Goes n s i get_first lt e h = (_, read_first i lt e, refl)
  inside-Goes n s i (get_second a) lt e h = (_, read_second i a lt e, refl)
  inside-Goes n s i (get_return v) lt e h = (_, return_get i v lt e, refl)

  -- A thread in a call can go on when the lock is free.
  free-Goes :
      (n : ℕ) (s : System A) (i : ℕ) (p : Pc A)
      → i < n
      → s.pc i ≡ p
      → s.owner ≡ none
      → p ≢ idle
      → Goes n s
  free-Goes n s i idle lt e o h = absurd (h refl)
  free-Goes n s i (set_lock v) lt e o h = (_, lock_set i v lt e o, refl)
  free-Goes n s i get_lock lt e o h = (_, lock_get i lt e o, refl)
  free-Goes n s i (set_first v) lt e o h = inside-Goes n s i (set_first v) lt e refl
  free-Goes n s i (set_second v) lt e o h = inside-Goes n s i (set_second v) lt e refl
  free-Goes n s i (set_return v) lt e o h = inside-Goes n s i (set_return v) lt e refl
  free-Goes n s i get_first lt e o h = inside-Goes n s i get_first lt e refl
  free-Goes n s i (get_second a) lt e o h = inside-Goes n s i (get_second a) lt e refl
  free-Goes n s i (get_return v) lt e o h = inside-Goes n s i (get_return v) lt e refl

  not-inside-idle : (p : Pc A) → inside p ≡ true → p ≢ idle
  not-inside-idle p h e = ground arith

  within :
      {n : ℕ} {v : Params A} {s : System A} → Reach n v s → (j : ℕ) → inside (s.pc j) ≡ true → j < n
  within {n} {s} r j h = elim (dec_lt j n) [
    | yes lt ↦ lt
    | no ge ↦ absurd (not-inside-idle (s.pc j) h (Reach-outside r j (omega arith)))
  ]

  step_inside :
      {n : ℕ} {v : Params A} {s : System A}
      → Reach n v s
      → (i : ℕ) → i < n
      → s.pc i ≢ idle
      → Goes n s
  step_inside {n} {s} r i lt busy = elim (Option-cases s.owner) [
    | inl o ↦ free-Goes n s i (s.pc i) lt refl o busy
    | inr (j, o) ↦
        let h = (Reach-Inv r).held j o in inside-Goes n s j (s.pc j) (within r j h) refl h
  ]

  steps_left-idle : (p : Pc A) → steps_left p ≡ 0 → p ≡ idle
  steps_left-idle idle h = refl
  steps_left-idle (set_lock v) h = absurd (omega arith)
  steps_left-idle (set_first v) h = absurd (omega arith)
  steps_left-idle (set_second v) h = absurd (omega arith)
  steps_left-idle (set_return v) h = absurd (omega arith)
  steps_left-idle get_lock h = absurd (omega arith)
  steps_left-idle get_first h = absurd (omega arith)
  steps_left-idle (get_second a) h = absurd (omega arith)
  steps_left-idle (get_return v) h = absurd (omega arith)

  all-idle : (n : ℕ) (pc : ℕ → Pc A) → total steps_left n pc ≡ 0 → (i : ℕ) → i < n → pc i ≡ idle
  unfolding total
  all-idle zero pc h i lt = absurd (omega arith)
  all-idle (suc n) pc h i lt = elim (dec_lt i n) [
    | yes below ↦ all-idle n pc (omega arith) i below
    | no last ↦ let e : i ≡ n = omega arith in rw e (steps_left-idle (pc n) (omega arith))
  ]

  some-busy :
      (n k : ℕ) (pc : ℕ → Pc A) → total steps_left n pc ≡ suc k → (i : ℕ) × (i < n) × (pc i ≢ idle)
  unfolding total
  some-busy zero k pc h = absurd (omega arith)
  some-busy (suc n) k pc h = elim (dec_lt 0 (total steps_left n pc)) [
    | yes earlier ↦
        let (i, lt, busy) = some-busy n (total steps_left n pc - 1) pc (omega arith) in
        (i, omega arith, busy)
    | no none_earlier ↦ (n, omega arith, λ e. absurd (ground arith))
  ]

  finish :
      (n k : ℕ) {v : Params A} (s : System A)
      → Reach n v s
      → total steps_left n s.pc ≡ k
      → (t : System A) × Finishing n k s t × ((i : ℕ) → t.pc i ≡ idle)
  finish n zero s r h = (
    s,
    stay,
    λ i. elim (dec_lt i n) [
      | yes lt ↦ all-idle n s.pc h i lt
      | no ge ↦ Reach-outside r i (omega arith)
    ],
  )
  finish n (suc k) s r h =
      let (i, lt, busy) = some-busy n k s.pc h in
      let (t, st, b) = step_inside r i lt busy in
      let (u, f, q) = finish n k t (next r st) (omega (arith, Step-total st b)) in
      (u, more st b f, q)

  -- From every state that the threads can reach, all calls that have begun can return: without a new
  -- call, some thread can make a step as long as one is in a call, every sequence of such steps is as
  -- long as what the threads then have done of the steps they had left, and a longest one ends with
  -- all threads out of their calls.
  pub calls-return :
      {n : ℕ} {v : Params A} {s : System A}
      → Reach n v s
      → ((i : ℕ) → i < n → s.pc i ≢ idle → (t : System A) × (st : Step n s t) × (begins st ≡ false))
        × ((k : ℕ) (t : System A)
            → Finishing n k s t
            → total steps_left n t.pc + k ≡ total steps_left n s.pc)
        × ((t : System A) × Finishing n (total steps_left n s.pc) s t × ((i : ℕ) → t.pc i ≡ idle))
  calls-return {n} {s} r =
      (step_inside r, (λ k t f. Finishing-total f), finish n (total steps_left n s.pc) s r refl)
