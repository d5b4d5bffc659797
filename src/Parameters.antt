-- ===== src/Parameters.antt =====
-- `depends_on<Params>` of include/base/idioms.h under threads that call `set_parameters` and
-- `get_parameters` in any order, with the scoped lock of BASE_STD_GUARD (include/base/utility.h).
-- The copy of `Params` is not atomic: it is made in two parts. In the source `lock_` is not
-- `mutable`, so that `get_parameters` does not compile when it is used: the steps of `get_parameters`
-- are those of a class whose `lock_` is `mutable`, and those of `set_parameters` are of the source.
pub mod Invariant
pub mod Atomic
pub mod Progress
mod Tests
use libpreempt.Prelude.{update, ℕ, ◌<◌, ◌≡◌, Option, none, some, List, [], ◌∷◌, ◌==◌, if◌then◌else◌}

pub record Params {ℓ} (A : Type ℓ) : Type ℓ where
  pub first : A
  pub second : A

-- Where a thread stands. A name tells what comes next: the lock, the copy of a part, or the end of
-- the scope, where the guard unlocks and the call returns.
pub data Pc {ℓ} (A : Type ℓ) : Type ℓ where
  idle : Pc A
  set_lock set_first set_second set_return : Params A → Pc A
  get_lock get_first : Pc A
  get_second : A → Pc A
  get_return : Params A → Pc A

-- The calls that have returned.
pub data Event {ℓ} (A : Type ℓ) : Type ℓ where
  was_set was_got : Params A → Event A

pub record System {ℓ} (A : Type ℓ) : Type ℓ where
  pub owner : Option ℕ  -- lock_
  pub params : Params A  -- params_
  pub pc : ℕ → Pc A
  pub history : List (Event A)  -- newest first

module _ {ℓ} {A : Type ℓ} where
  abbrev pub goes : System A → ℕ → Pc A → System A
  goes s i p = record s { pc = update s.pc i p }

  abbrev pub locks : System A → ℕ → Pc A → System A
  locks s i p = record s { owner = some i; pc = update s.pc i p }

  abbrev pub returns : System A → ℕ → Event A → System A
  returns s i e = record s { owner = none; pc = update s.pc i Pc.idle; history = e ∷ s.history }

  -- One step of one of `n` threads.
  pub data Step (n : ℕ) (s : System A) : System A → Type ℓ where
    call_set :
        (i : ℕ) (v : Params A) → i < n → s.pc i ≡ Pc.idle → Step n s (goes s i (Pc.set_lock v))
    call_get : (i : ℕ) → i < n → s.pc i ≡ Pc.idle → Step n s (goes s i Pc.get_lock)
    lock_set :
        (i : ℕ) (v : Params A)
        → i < n
        → s.pc i ≡ Pc.set_lock v
        → s.owner ≡ none
        → Step n s (locks s i (Pc.set_first v))
    write_first :
        (i : ℕ) (v : Params A)
        → i < n
        → s.pc i ≡ Pc.set_first v
        → Step n s
            (record (goes s i (Pc.set_second v)) { params = record s.params { first = v.first } })
    write_second :
        (i : ℕ) (v : Params A)
        → i < n
        → s.pc i ≡ Pc.set_second v
        → Step n s
            (record (goes s i (Pc.set_return v)) { params = record s.params { second = v.second } })
    return_set :
        (i : ℕ) (v : Params A)
        → i < n
        → s.pc i ≡ Pc.set_return v
        → Step n s (returns s i (Event.was_set v))
    lock_get :
        (i : ℕ) → i < n → s.pc i ≡ Pc.get_lock → s.owner ≡ none → Step n s (locks s i Pc.get_first)
    read_first :
        (i : ℕ) → i < n → s.pc i ≡ Pc.get_first → Step n s (goes s i (Pc.get_second s.params.first))
    read_second :
        (i : ℕ) (a : A)
        → i < n
        → s.pc i ≡ Pc.get_second a
        → Step n s (goes s i (Pc.get_return (record { first = a; second = s.params.second })))
    return_get :
        (i : ℕ) (v : Params A)
        → i < n
        → s.pc i ≡ Pc.get_return v
        → Step n s (returns s i (Event.was_got v))

  abbrev pub start : Params A → System A
  start v = record { owner = none; params = v; pc = λ _. Pc.idle; history = [] }

  pub data Reach (n : ℕ) (v : Params A) : System A → Type ℓ where
    here : Reach n v (start v)
    next : {s t : System A} → Reach n v s → Step n s t → Reach n v t
