-- ===== src/Parameters/Atomic.antt =====
-- `depends_on` (include/base/idioms.h) as an atomic register.
use libpreempt.Prelude.{ℕ, ◌≡◌, true, none, List, [], ◌∷◌, arith}
use libpreempt.Parameters.{Params, Event, was_set, was_got, System, Reach}
use libpreempt.Parameters.Invariant.{inside, current, Legal, Reach-Inv}

-- The register that the class promises: a set replaces the value whole, a get returns it.
pub data Register {ℓ} {A : Type ℓ} (v : Params A) : List (Event A) → Params A → Type ℓ where
  initial : Register v [] v
  set :
      (u : Params A) {h : List (Event A)} {now : Params A}
      → Register v h now
      → Register v (was_set u ∷ h) u
  get : {h : List (Event A)} {now : Params A} → Register v h now → Register v (was_got now ∷ h) now

module _ {ℓ} {A : Type ℓ} where
  Legal-Register : (v : Params A) (h : List (Event A)) → Legal v h → Register v h (current v h)
  Legal-Register v [] l = initial
  Legal-Register v (was_set u ∷ h) l = set u (Legal-Register v h l)
  Legal-Register v (was_got u ∷ h) l = rw l.0 (get (Legal-Register v h l.1))

  -- Two threads are never between the lock and the end of the scope together.
  pub mutual_exclusion :
      {n : ℕ} {v : Params A} {s : System A}
      → Reach n v s
      → (i j : ℕ) → inside (s.pc i) ≡ true
      → inside (s.pc j) ≡ true
      → i ≡ j
  mutual_exclusion r i j in_i in_j =
      ground (arith, (Reach-Inv r).alone i in_i, (Reach-Inv r).alone j in_j)

  -- With `lock_` declared `mutable`, which the source leaves out and without which `get_parameters`
  -- does not compile: in every interleaving of any number of threads the calls that have returned are
  -- a run of an atomic register: each `get_parameters` returned, whole, what the last
  -- `set_parameters` before it set, or the initial parameters. Whenever the lock is free the
  -- parameters are the register's.
  pub reach-Register :
      {n : ℕ} {v : Params A} {s : System A}
      → Reach n v s
      → (now : Params A) × Register v s.history now × (s.owner ≡ none → s.params ≡ now)
  reach-Register {v} {s} r =
      (current v s.history, Legal-Register v s.history (Reach-Inv r).legal, (Reach-Inv r).free)
