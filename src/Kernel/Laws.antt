-- ===== src/Kernel/Laws.antt =====
-- What the questions of src/base.cc to the operating system answer.
use libpreempt.Prelude.{
  ◌≡◌, refl, ◌∙◌, ◌++◌, ℕ, zero, suc, true, false, Bool-cases, Option-cases, inl, inr, not, none,
  some, List, [], ◌∷◌, ℤ, pos, negsuc, ◌≤ℤ◌, eqb_ℤ, ltb_ℤ, replicate, replicate-cons, if◌then◌else◌,
  ◌⊎◌, arith,
}
use libpreempt.Machine.{M, Platform, World, done, Policy, Call, ◌>>=◌, pure, put_calls}
use libpreempt.Threading.{is_realtime}
use libpreempt.Kernel.{
  get_min_priority, get_max_priority, is_main_thread, get_number_of_processors, have_preempt_rt,
  have_realtime_kernel, busyloop,
}

-- `have_preempt_rt` asks the kernel nothing: as long as its static has the initial -1 it answers
-- `true` under Linux, every time, and `false` elsewhere, where it stores 0.
pub have_preempt_rt_lem :
    (p : Platform) (w : World)
    → w.preempt_rt ≡ negsuc 0
    → have_preempt_rt p w
      ≡ done p.linux (record w { preempt_rt = if p.linux then negsuc 0 else pos 0 })
unfolding have_preempt_rt
have_preempt_rt_lem p w h = elim (Bool-cases p.linux) [ inl l ↦ rw (h, l) | inr l ↦ rw (h, l) ]

-- `have_realtime_kernel` asks the kernel nothing: it answers `false` on every Linux and `true`
-- elsewhere.
pub have_realtime_kernel_lem :
    (p : Platform) (w : World) → have_realtime_kernel p w ≡ done (not p.linux) w
unfolding have_realtime_kernel
have_realtime_kernel_lem p w = elim (Bool-cases p.linux) [ inl l ↦ rw l | inr l ↦ rw l ]

-- A program that asks n times for the number of processors.
pub ask_each : ℕ → M (List ℤ)
ask_each zero = pure []
ask_each (suc n) = do x ← get_number_of_processors; xs ← ask_each n; pure (x ∷ xs)

ask_known :
    (n : ℕ) (x : ℤ) (p : Platform) (w : World)
    → get_number_of_processors p w ≡ done x w
    → ask_each n p w ≡ done (replicate n x) w
unfolding ask_each
ask_known zero x p w h = refl
ask_known (suc n) x p w h = rw (h, ask_known n x p w h)

ask_suc :
    (n : ℕ) (x : ℤ) (p : Platform) (w w' : World)
    → get_number_of_processors p w ≡ done x w'
    → get_number_of_processors p w' ≡ done x w'
    → ask_each (suc n) p w ≡ done (replicate (suc n) x) w'
unfolding ask_each
ask_suc n x p w w' first again = rw (first, ask_known n x p w' again)

known :
    (x : ℤ) (p : Platform) (w : World)
    → w.num_cores ≡ some x
    → p.linux ≡ true
    → get_number_of_processors p w ≡ done x w
unfolding get_number_of_processors
known x p w e l = rw (l, e)

unknown :
    (p : Platform) (w : World)
    → w.num_cores ≡ none
    → p.linux ≡ true
    → let x : ℤ = p.code w.calls Call.processors_online in
      get_number_of_processors p w
      ≡ done x (record (put_calls w Call.processors_online) { num_cores = some x })
unfolding get_number_of_processors
unknown p w e l = rw (l, e)

elsewhere :
    (p : Platform) (w : World) → p.linux ≡ false → get_number_of_processors p w ≡ done (pos 4) w
unfolding get_number_of_processors
elsewhere p w l = rw l

-- Any number of questions for the number of processors get the same answer, and together they make
-- at most one call of the system: none if the number is known already or the system is not Linux.
ask_each_lem :
    (n : ℕ) (p : Platform) (w : World)
    → (x : ℤ) × (w' : World) × (ask_each (suc n) p w ≡ done (replicate (suc n) x) w')
      × ((w' ≡ w) ⊎ ((w.num_cores ≡ none) × (w'.calls ≡ Call.processors_online ∷ w.calls)))
ask_each_lem n p w = elim (Bool-cases p.linux) [
  | inl l ↦ elim (Option-cases w.num_cores) [
    | inl e ↦ (_, _, ask_suc n _ p w _ (unknown p w e l) (known _ p _ refl l), inr (e, refl))
    | inr (x, e) ↦ (x, w, ask_suc n x p w w (known x p w e l) (known x p w e l), inl refl)
  ]
  | inr l ↦ (pos 4, w, ask_suc n (pos 4) p w w (elsewhere p w l) (elsewhere p w l), inl refl)
]

-- Without Linux the priorities of a listed policy form a range, and its lowest is above 0 exactly
-- for the policies that the library holds for real-time ones, whose highest is 32.
pub priority_range :
    (policy : Policy) (p : Platform) (w : World)
    → p.linux ≡ false
    → ((n : ℕ) → ¬ (policy ≡ Policy.sched_unlisted n))
    → (lo hi : ℤ) × (get_min_priority policy p w ≡ done (some lo) w)
      × (get_max_priority policy p w ≡ done (some hi) w)
      × (lo ≤ℤ hi)
      × (ltb_ℤ (pos 0) lo ≡ is_realtime policy)
      × (hi ≡ (if is_realtime policy then pos 32 else pos 0))
unfolding get_min_priority get_max_priority
priority_range Policy.sched_other p w l h = (pos 0, pos 0, rw l, rw l, omega arith, refl, refl)
priority_range Policy.sched_fifo p w l h = (pos 1, pos 32, rw l, rw l, omega arith, refl, refl)
priority_range Policy.sched_rr p w l h = (pos 1, pos 32, rw l, rw l, omega arith, refl, refl)
priority_range (Policy.sched_unlisted n) p w l h = absurd (h n refl)

-- Under Linux `is_main_thread` compares the process with the thread. Elsewhere the thread is always
-- 0, so that it answers `false` in every thread of a process whose number is not 0.
pub is_main_thread_lem :
    (p : Platform) (w : World)
    → let pid : ℤ = p.code w.calls Call.get_pid in
      let asked : World = put_calls w Call.get_pid in
      (p.linux ≡ true
        → is_main_thread p w
          ≡ done (eqb_ℤ pid (p.code asked.calls Call.get_tid)) (put_calls asked Call.get_tid))
      × (p.linux ≡ false → eqb_ℤ pid (pos 0) ≡ false → is_main_thread p w ≡ done false asked)
unfolding is_main_thread
is_main_thread_lem p w = ((λ l. rw l), (λ l z. rw (l, z)))

-- `busyloop` returns after exactly as many pauses of the CPU as its argument says, and makes no other
-- call.
pub busyloop_lem :
    (jiffy : ℕ) (p : Platform) (w : World)
    → busyloop jiffy p w ≡ done tt (record w { calls = replicate jiffy Call.relax ++ w.calls })
unfolding busyloop
busyloop_lem zero p w = refl
busyloop_lem (suc jiffy) p w =
    busyloop_lem jiffy p (put_calls w Call.relax)
    ∙ rw (replicate-cons jiffy Call.relax w.calls) refl
