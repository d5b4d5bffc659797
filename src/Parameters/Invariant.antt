-- ===== src/Parameters/Invariant.antt =====
-- Who holds the lock of `depends_on` (include/base/idioms.h), and what is then in the parameters.
use libpreempt.Prelude.{ℕ, ◌≡◌, refl, Bool, true, false, none, some, List, [], ◌∷◌, arith}
use libpreempt.Parameters.{
  Params, Pc, idle, set_lock, set_first, set_second, set_return, get_lock, get_first, get_second,
  get_return, Event, was_set, was_got, System, Step, call_set, call_get, lock_set, write_first,
  write_second, return_set, lock_get, read_first, read_second, return_get, start, Reach, here, next,
}

module _ {ℓ} {A : Type ℓ} where
  -- Between the lock and the end of the scope.
  abbrev pub inside : Pc A → Bool
  inside idle = false
  inside (set_lock v) = false
  inside get_lock = false
  inside _ = true

  -- An atomic register: what it holds behind the calls of a history.
  abbrev pub current : Params A → List (Event A) → Params A
  current v [] = v
  current v (was_set u ∷ h) = u
  current v (was_got u ∷ h) = current v h

  -- What the locals of a thread inside say about the parameters.
  abbrev pub Local : Params A → Params A → Pc A → Type ℓ
  Local now params (set_first v) = params ≡ now
  Local now params (set_second v) = params.first ≡ v.first
  Local now params (set_return v) = params ≡ v
  Local now params get_first = params ≡ now
  Local now params (get_second a) = (params ≡ now) × (a ≡ now.first)
  Local now params (get_return v) = (params ≡ now) × (v ≡ now)
  Local now params _ = Unit

  -- In an atomic register every call of `get_parameters` returns what the register holds.
  abbrev pub Legal : Params A → List (Event A) → Type ℓ
  Legal v [] = Unit
  Legal v (was_set u ∷ h) = Legal v h
  Legal v (was_got u ∷ h) = (u ≡ current v h) × Legal v h

  pub record Inv (v : Params A) (s : System A) : Type ℓ where
    pub alone : (i : ℕ) → inside (s.pc i) ≡ true → s.owner ≡ some i
    pub held : (i : ℕ) → s.owner ≡ some i → inside (s.pc i) ≡ true
    pub free : s.owner ≡ none → s.params ≡ current v s.history
    pub locals : (i : ℕ) → Local (current v s.history) s.params (s.pc i)
    pub legal : Legal v s.history

  Inv-start : (v : Params A) → Inv v (start v)
  Inv-start v = record {
    alone = λ i h. absurd (ground arith);
    held = λ i h. absurd (ground arith);
    free = λ h. refl;
    locals = λ i. tt;
    legal = tt;
  }

  Step-alone :
      {n : ℕ} {v : Params A} {s t : System A}
      → Step n s t
      → Inv v s
      → (j : ℕ) → inside (t.pc j) ≡ true
      → t.owner ≡ some j
  Step-alone (call_set i u lt e) inv j h = ground (arith, inv.alone j)
  Step-alone (call_get i lt e) inv j h = ground (arith, inv.alone j)
  Step-alone (lock_set i u lt e o) inv j h = ground (arith, inv.alone j)
  Step-alone (write_first i u lt e) inv j h = ground (arith, inv.alone i, inv.alone j)
  Step-alone (write_second i u lt e) inv j h = ground (arith, inv.alone i, inv.alone j)
  Step-alone (return_set i u lt e) inv j h = ground (arith, inv.alone i, inv.alone j)
  Step-alone (lock_get i lt e o) inv j h = ground (arith, inv.alone j)
  Step-alone (read_first i lt e) inv j h = ground (arith, inv.alone i, inv.alone j)
  Step-alone (read_second i a lt e) inv j h = ground (arith, inv.alone i, inv.alone j)
  Step-alone (return_get i u lt e) inv j h = ground (arith, inv.alone i, inv.alone j)

  Step-held :
      {n : ℕ} {v : Params A} {s t : System A}
      → Step n s t
      → Inv v s
      → (j : ℕ) → t.owner ≡ some j
      → inside (t.pc j) ≡ true
  Step-held (call_set i u lt e) inv j h = ground (arith, inv.held i, inv.held j, inv.alone i)
  Step-held (call_get i lt e) inv j h = ground (arith, inv.held i, inv.held j, inv.alone i)
  Step-held (lock_set i u lt e o) inv j h = ground (arith, inv.held i, inv.held j, inv.alone i)
  Step-held (write_first i u lt e) inv j h = ground (arith, inv.held i, inv.held j, inv.alone i)
  Step-held (write_second i u lt e) inv j h = ground (arith, inv.held i, inv.held j, inv.alone i)
  Step-held (return_set i u lt e) inv j h = ground (arith, inv.held i, inv.held j, inv.alone i)
  Step-held (lock_get i lt e o) inv j h = ground (arith, inv.held i, inv.held j, inv.alone i)
  Step-held (read_first i lt e) inv j h = ground (arith, inv.held i, inv.held j, inv.alone i)
  Step-held (read_second i a lt e) inv j h = ground (arith, inv.held i, inv.held j, inv.alone i)
  Step-held (return_get i u lt e) inv j h = ground (arith, inv.held i, inv.held j, inv.alone i)

  Step-free :
      {n : ℕ} {v : Params A} {s t : System A}
      → Step n s t
      → Inv v s
      → t.owner ≡ none
      → t.params ≡ current v t.history
  Step-free (call_set i u lt e) inv h = ground (arith, inv.alone i, inv.free, inv.locals i)
  Step-free (call_get i lt e) inv h = ground (arith, inv.alone i, inv.free, inv.locals i)
  Step-free (lock_set i u lt e o) inv h = ground (arith, inv.alone i, inv.free, inv.locals i)
  Step-free (write_first i u lt e) inv h = ground (arith, inv.alone i, inv.free, inv.locals i)
  Step-free (write_second i u lt e) inv h = ground (arith, inv.alone i, inv.free, inv.locals i)
  Step-free (return_set i u lt e) inv h = ground (arith, inv.alone i, inv.free, inv.locals i)
  Step-free (lock_get i lt e o) inv h = ground (arith, inv.alone i, inv.free, inv.locals i)
  Step-free (read_first i lt e) inv h = ground (arith, inv.alone i, inv.free, inv.locals i)
  Step-free (read_second i a lt e) inv h = ground (arith, inv.alone i, inv.free, inv.locals i)
  Step-free (return_get i u lt e) inv h = ground (arith, inv.alone i, inv.free, inv.locals i)

  Step-locals :
      {n : ℕ} {v : Params A} {s t : System A}
      → Step n s t
      → Inv v s
      → (j : ℕ) → Local (current v t.history) t.params (t.pc j)
  Step-locals (call_set i u lt e) inv j =
      ground (arith, inv.alone i, inv.alone j, inv.free, inv.locals i, inv.locals j)
  Step-locals (call_get i lt e) inv j =
      ground (arith, inv.alone i, inv.alone j, inv.free, inv.locals i, inv.locals j)
  Step-locals (lock_set i u lt e o) inv j =
      ground (arith, inv.alone i, inv.alone j, inv.free, inv.locals i, inv.locals j)
  Step-locals (write_first i u lt e) inv j =
      ground (arith, inv.alone i, inv.alone j, inv.free, inv.locals i, inv.locals j)
  Step-locals (write_second i u lt e) inv j =
      ground (arith, inv.alone i, inv.alone j, inv.free, inv.locals i, inv.locals j)
  Step-locals (return_set i u lt e) inv j =
      ground (arith, inv.alone i, inv.alone j, inv.free, inv.locals i, inv.locals j)
  Step-locals (lock_get i lt e o) inv j =
      ground (arith, inv.alone i, inv.alone j, inv.free, inv.locals i, inv.locals j)
  Step-locals (read_first i lt e) inv j =
      ground (arith, inv.alone i, inv.alone j, inv.free, inv.locals i, inv.locals j)
  Step-locals (read_second i a lt e) inv j =
      ground (arith, inv.alone i, inv.alone j, inv.free, inv.locals i, inv.locals j)
  Step-locals (return_get i u lt e) inv j =
      ground (arith, inv.alone i, inv.alone j, inv.free, inv.locals i, inv.locals j)

  Step-Legal : {n : ℕ} {v : Params A} {s t : System A} → Step n s t → Inv v s → Legal v t.history
  Step-Legal (call_set i u lt e) inv = ground (arith, inv.legal, inv.locals i)
  Step-Legal (call_get i lt e) inv = ground (arith, inv.legal, inv.locals i)
  Step-Legal (lock_set i u lt e o) inv = ground (arith, inv.legal, inv.locals i)
  Step-Legal (write_first i u lt e) inv = ground (arith, inv.legal, inv.locals i)
  Step-Legal (write_second i u lt e) inv = ground (arith, inv.legal, inv.locals i)
  Step-Legal (return_set i u lt e) inv = ground (arith, inv.legal, inv.locals i)
  Step-Legal (lock_get i lt e o) inv = ground (arith, inv.legal, inv.locals i)
  Step-Legal (read_first i lt e) inv = ground (arith, inv.legal, inv.locals i)
  Step-Legal (read_second i a lt e) inv = ground (arith, inv.legal, inv.locals i)
  Step-Legal (return_get i u lt e) inv = ground (arith, inv.legal, inv.locals i)

  -- Every step of every thread keeps the invariant.
  pub Step-Inv : {n : ℕ} {v : Params A} {s t : System A} → Step n s t → Inv v s → Inv v t
  Step-Inv st inv = record {
    alone = Step-alone st inv;
    held = Step-held st inv;
    free = Step-free st inv;
    locals = Step-locals st inv;
    legal = Step-Legal st inv;
  }

  pub Reach-Inv : {n : ℕ} {v : Params A} {s : System A} → Reach n v s → Inv v s
  Reach-Inv {v} here = Inv-start v
  Reach-Inv (next r st) = Step-Inv st (Reach-Inv r)
