-- ===== src/Examples/Threads.antt =====
-- Test programs whose threads run VERIFY (include/base/verify.h) while `main` goes on: `main` starts
-- threads, joins them, may verify conditions itself, and returns the status of the flag. A VERIFY is
-- one step: the message of a failed one is no state of the program.
pub mod Outcome
use libpreempt.Prelude.{
  ℕ, zero, suc, ◌+◌, ◌≡◌, Bool, true, false, ◌&&◌, ◌||◌, not, Option, some, List, [], ◌∷◌, ◌++◌,
  get_elem?, set, length, ltb, ◌==◌,
}

-- What `main` still has to do. A thread is started with the conditions that its function verifies, and
-- is joined by its position in the order of the starts.
pub data Action : Type 0 where
  start : List Bool → Action
  join : ℕ → Action
  verify : Bool → Action

pub record System : Type 0 where
  pub flag : Bool  -- g_verify_flag
  pub main : List Action
  pub threads : List (List Bool)  -- what the threads still have to verify, in the order of the starts

pub data Step (s : System) : System → Type 0 where
  starts :
      (bs : List Bool) (rest : List Action)
      → s.main ≡ start bs ∷ rest
      → Step s (record s { main = rest; threads = s.threads ++ bs ∷ [] })
  joins :
      (i : ℕ) (rest : List Action)
      → s.main ≡ join i ∷ rest
      → get_elem? s.threads i ≡ some []
      → Step s (record s { main = rest })
  verifies :
      (b : Bool) (rest : List Action)
      → s.main ≡ verify b ∷ rest
      → Step s (record s { flag = s.flag && b; main = rest })
  runs :
      (i : ℕ) (b : Bool) (bs : List Bool)
      → get_elem? s.threads i ≡ some (b ∷ bs)
      → Step s (record s { flag = s.flag && b; threads = set s.threads i bs })

-- `k` steps of a program.
pub data Reach (program : List Action) : ℕ → System → Type 0 where
  here : Reach program 0 (record { flag = true; main = program; threads = [] })
  next : {k : ℕ} {s t : System} → Reach program k s → Step s t → Reach program (suc k) t

abbrev pub will_join : ℕ → List Action → Bool
will_join i [] = false
will_join i (start bs ∷ rest) = will_join i rest
will_join i (join j ∷ rest) = i == j || will_join i rest
will_join i (verify b ∷ rest) = will_join i rest

-- Behind `n` starts, each further thread is joined, none before its start and none twice.
abbrev pub joins_all : ℕ → List Action → Bool
joins_all n [] = true
joins_all n (start bs ∷ rest) = will_join n rest && joins_all (suc n) rest
joins_all n (join i ∷ rest) = ltb i n && not (will_join i rest) && joins_all n rest
joins_all n (verify b ∷ rest) = joins_all n rest

-- All conditions of the program.
abbrev pub conditions : List Action → List Bool
conditions [] = []
conditions (start bs ∷ rest) = bs ++ conditions rest
conditions (join i ∷ rest) = conditions rest
conditions (verify b ∷ rest) = b ∷ conditions rest
