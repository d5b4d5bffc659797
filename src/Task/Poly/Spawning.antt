-- ===== src/Task/Poly/Spawning.antt =====
-- `poly_task::spawn` (include/preempt/task.h) called by several threads on one task. The lock guard has
-- no name, and so is destroyed at the end of its own line, before the vector is changed.
use libpreempt.Prelude.{
  update, update-same, ℕ, ◌<◌, ◌≡◌, ◌≢◌, refl, sym, ◌∙◌, Option, none, some, arith,
}

-- Where a caller stands: it is about to lock, to destroy the guard, or is in `emplace_back`.
pub data Pc : Type 0 where
  idle to_lock to_unlock appending : Pc

pub record System : Type 0 where
  pub owner : Option ℕ  -- lock_
  pub pc : ℕ → Pc

pub data Step (n : ℕ) (s : System) : System → Type 0 where
  call : (i : ℕ) → i < n → s.pc i ≡ Pc.idle → Step n s (record s { pc = update s.pc i Pc.to_lock })
  lock :
      (i : ℕ)
      → i < n
      → s.pc i ≡ Pc.to_lock
      → s.owner ≡ none
      → Step n s (record { owner = some i; pc = update s.pc i Pc.to_unlock })
  unlock :
      (i : ℕ)
      → i < n
      → s.pc i ≡ Pc.to_unlock
      → Step n s (record { owner = none; pc = update s.pc i Pc.appending })
  return :
      (i : ℕ) → i < n → s.pc i ≡ Pc.appending → Step n s (record s { pc = update s.pc i Pc.idle })

abbrev pub start : System
start = record { owner = none; pc = λ _. Pc.idle }

pub data Reach (n : ℕ) : System → Type 0 where
  here : Reach n start
  next : {s t : System} → Reach n s → Step n s t → Reach n t

-- A caller that finds the lock free gets into `emplace_back` and leaves the lock free.
reach-appending :
    (n i : ℕ) (s : System)
    → Reach n s
    → i < n
    → s.pc i ≡ Pc.idle
    → s.owner ≡ none
    → (t : System) × Reach n t
      × (t.owner ≡ none)
      × (t.pc i ≡ Pc.appending)
      × ((j : ℕ) → i ≢ j → t.pc j ≡ s.pc j)
reach-appending n i s r lt e o =
    let a = next r (call i lt e) in
    let b = next a (lock i lt (update-same s.pc i Pc.to_lock) o) in
    let c = next b (unlock i lt (update-same (update s.pc i Pc.to_lock) i Pc.to_unlock)) in
    (
      _,
      c,
      refl,
      update-same (update (update s.pc i Pc.to_lock) i Pc.to_unlock) i Pc.appending,
      λ j h. ground arith,
    )

-- The lock is held only by a caller that is about to destroy its guard.
Step-owner :
    {n : ℕ} {s t : System}
    → Step n s t
    → ((i : ℕ) → s.owner ≡ some i → s.pc i ≡ Pc.to_unlock)
    → (i : ℕ) → t.owner ≡ some i
    → t.pc i ≡ Pc.to_unlock
Step-owner (call j lt e) h i o = ground (arith, h i)
Step-owner (lock j lt e f) h i o = ground (arith, h i)
Step-owner (unlock j lt e) h i o = ground (arith, h i)
Step-owner (return j lt e) h i o = ground (arith, h i)

Reach-owner : {n : ℕ} {s : System} → Reach n s → (i : ℕ) → s.owner ≡ some i → s.pc i ≡ Pc.to_unlock
Reach-owner here i o = absurd (ground arith)
Reach-owner (next r st) i o = Step-owner st (Reach-owner r) i o

-- Any two callers can be in `emplace_back` of the same vector at the same time, so that the lock does
-- not keep them apart, and no caller ever holds the lock while it is in `emplace_back`.
pub spawn_unguarded :
    (n i j : ℕ)
    → i < n
    → j < n
    → i ≢ j
    → ((s : System) × Reach n s × (s.pc i ≡ Pc.appending) × (s.pc j ≡ Pc.appending))
      × ((s : System) → Reach n s → s.pc i ≡ Pc.appending → s.owner ≢ some i)
spawn_unguarded n i j li lj h =
    let (s, r, free, ei, keep) = reach-appending n i start here li refl refl in
    let (t, r', free', ej, keep') = reach-appending n j s r lj (keep j h) free in
    (
      (t, r', keep' i (λ e. h (sym e)) ∙ ei, ej),
      λ u q e o. absurd (ground (arith, Reach-owner q i o)),
    )
