-- ===== src/Machine.antt =====
-- What the library runs on. The functions of libc, POSIX and the operating system are no part of
-- the program: a `Platform` answers them, each answer depending on all the calls made before. A
-- program is a function of the platform and the `World`, which keeps the trace of the calls and the
-- program's globals and function-local statics.
mod Calls
pub mod Samples
pub use Calls.*
use libpreempt.Prelude.{
  ℕ, Bool, true, false, ◌≡◌, Option, some, List, [], ◌∷◌, ℤ, pos, negsuc, eqb_ℤ, not, if◌then◌else◌,
}

pub record Platform : Type 0 where
  pub linux : Bool  -- RUNNING_UNDER_LINUX
  pub ndebug : Bool  -- NDEBUG
  pub debugger : Option (List ℕ)  -- getenv("RUNNING_UNDER_DEBUGGER")
  pub code : List Call → Call → ℤ  -- what a call returns
  pub handle : List Call → ℕ  -- the handle of the thread that a call starts
  pub ctime : ℤ → List ℕ  -- std::ctime
  pub scheduling : List Call → ℕ → Policy × ℤ  -- what pthread_getschedparam stores

pub record World : Type 0 where
  pub calls : List Call  -- newest first
  pub verified : Bool  -- base::g_verify_flag
  pub cpu_dma : ℤ  -- g_fd_cpu_dma
  pub num_cores : Option ℤ  -- the static of get_number_of_processors, `none` before its first call
  pub preempt_rt : ℤ  -- the static of have_preempt_rt

-- How the process ends.
pub data Stop : Type 0 where
  exit_failure quick_exit_failure terminated aborted null_access : Stop

pub data Run {ℓ} (A : Type ℓ) : Type ℓ where
  done : A → World → Run A
  threw : World → Run A  -- std::system_error
  stopped : Stop → World → Run A

abbrev pub M {ℓ} : Type ℓ → Type ℓ
M A = Platform → World → Run A

abbrev pub bind {ℓ κ} : {A : Type ℓ} {B : Type κ} → Run A → (A → World → Run B) → Run B
bind (done a w) f = f a w
bind (threw w) f = threw w
bind (stopped s w) f = stopped s w

infixl 5 ◌>>=◌ ◌>>◌
abbrev pub ◌>>=◌ {ℓ κ} : {A : Type ℓ} {B : Type κ} → M A → (A → M B) → M B
◌>>=◌ m f p w = bind (m p w) (λ a w'. f a p w')

abbrev pub ◌>>◌ {ℓ κ} : {A : Type ℓ} {B : Type κ} → M A → M B → M B
m >> k = m >>= λ _. k

abbrev pub pure {ℓ} : {A : Type ℓ} → A → M A
pure a p w = done a w

abbrev pub throw {ℓ} : {A : Type ℓ} → M A
throw p w = threw w

abbrev pub stop {ℓ} : {A : Type ℓ} → Stop → M A
stop s p w = stopped s w

abbrev pub platform : M Platform
platform p w = done p w

abbrev pub world : M World
world p w = done w w

abbrev pub put_calls : World → Call → World
put_calls w c = record w { calls = c ∷ w.calls }

abbrev pub call : Call → M ℤ
call c p w = done (p.code w.calls c) (put_calls w c)

-- A call whose result is not used.
abbrev pub perform : Call → M (Unit {0})
perform c p w = done tt (put_calls w c)

-- A call that starts a thread: its result and the handle of the thread.
abbrev pub start : Call → M (ℤ × ℕ)
start c p w = done (p.code w.calls c, p.handle w.calls) (put_calls w c)

abbrev pub set_verified : Bool → M (Unit {0})
set_verified b p w = done tt (record w { verified = b })

abbrev pub set_cpu_dma : ℤ → M (Unit {0})
set_cpu_dma fd p w = done tt (record w { cpu_dma = fd })

abbrev pub set_num_cores : ℤ → M (Unit {0})
set_num_cores n p w = done tt (record w { num_cores = some n })

abbrev pub set_preempt_rt : ℤ → M (Unit {0})
set_preempt_rt r p w = done tt (record w { preempt_rt = r })

abbrev pub when : Bool → M (Unit {0}) → M (Unit {0})
when true m = m
when false m = pure tt

-- `if (int errnum = ...)`
abbrev pub failed : ℤ → Bool
failed e = not (eqb_ℤ e (pos 0))

abbrev pub succeeded : ℤ → Bool
succeeded e = eqb_ℤ e (pos 0)
