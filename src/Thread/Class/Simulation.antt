-- ===== src/Thread/Class/Simulation.antt =====
-- When one class of threads does what another one does, and `preempt::thread` (include/preempt/thread.h)
-- beside std::thread.
use libpreempt.Prelude.{ℕ, ◌≡◌, refl, Bool-cases, inl, inr, Option, Option-cases}
use libpreempt.Machine.{M, Platform, World, Run, done, threw, stopped, bind, ◌>>=◌, Call, failed}
use libpreempt.Verify.{verify}
use libpreempt.Thread as Preempt
use libpreempt.Thread.{Thread, owns}
use libpreempt.Thread.Class.{ThreadClass, preempt_thread}
use libpreempt.Thread.Class.Standard as Standard
use libpreempt.Thread.Class.Standard.{std_thread}

-- A run and its image: it returns the image of the result in the same world, throws in the same world,
-- or ends the process in the same way.
abbrev pub Image : {A B : Type 0} → (A → B) → Run A → Run B → Type 0
Image g (done a w) r = r ≡ done (g a) w
Image g (threw w) r = r ≡ threw w
Image g (stopped x w) r = (w' : World) × (r ≡ stopped x w')

abbrev pub Follows : {A B : Type 0} → (A → B) → M A → M B → Type 0
Follows g m n = (p : Platform) (w : World) → Image g (m p w) (n p w)

bind-Image :
    {A B C D : Type 0} (g : A → B) (h : C → D) (r : Run A) (r' : Run B) (f : A → World → Run C)
    (k : B → World → Run D)
    → Image g r r'
    → ((a : A) (w : World) → Image h (f a w) (k (g a) w))
    → Image h (bind r f) (bind r' k)
bind-Image g h (done a w) r' f k e t = rw e (t a w)
bind-Image g h (threw w) r' f k e t = rw e refl
bind-Image g h (stopped x w) r' f k (w', e) t = (w', rw e refl)

pub then_Follows :
    {A B C D : Type 0} (g : A → B) (h : C → D) (m : M A) (n : M B) (f : A → M C) (k : B → M D)
    → Follows g m n
    → ((a : A) → Follows h (f a) (k (g a)))
    → Follows h (m >>= f) (n >>= k)
then_Follows g h m n f k s t p w =
    bind-Image g h (m p w) (n p w) (λ a v. f a p v) (λ b v. k b p v) (s p w) (λ a v. t a p v)

abbrev pub pair_map : {T U : Type 0} → (T → U) → T × T → U × U
pair_map g x = (g x.0, g x.1)

-- The operations of the class `d` do what those of `c` do, where `g` gives the image of a thread.
pub record Simulates {T U : Type 0} (g : T → U) (c : ThreadClass T) (d : ThreadClass U)
    : Type 0 where
  pub default : g c.default ≡ d.default
  pub make : (f : ℕ) → Follows g (c.make f) (d.make f)
  pub move : (t : T) → pair_map g (c.move t) ≡ d.move (g t)
  pub assign : (t u : T) → Follows (pair_map g) (c.assign t u) (d.assign (g t) (g u))
  pub destroy : (t : T) → Follows (λ u. u) (c.destroy t) (d.destroy (g t))
  pub joinable : (t : T) → d.joinable (g t) ≡ c.joinable t
  pub get_id : (t : T) → d.get_id (g t) ≡ c.get_id t
  pub native_handle : (t : T) → d.native_handle (g t) ≡ c.native_handle t
  pub join : (t : T) → Follows g (c.join t) (d.join (g t))
  pub detach : (t : T) → Follows g (c.detach t) (d.detach (g t))
  pub swap : (t u : T) → pair_map g (c.swap t u) ≡ d.swap (g t) (g u)

abbrev pub impl_of : Thread → Option ℕ
impl_of t = t.impl

make-Follows : (f : ℕ) → Follows impl_of (Preempt.make f) (Standard.make f)
unfolding Preempt.make Standard.make
make-Follows f p w = elim (Bool-cases (failed (p.code w.calls (Call.thread_start f)))) [
  | inl e ↦ rw e refl
  | inr e ↦ rw e refl
]

join-Follows : (t : Thread) → Follows impl_of (Preempt.join t) (Standard.join t.impl)
unfolding Preempt.join Standard.join
join-Follows t p w = elim (Option-cases t.impl) [
  | inl n ↦ rw n refl
  | inr (h, o) ↦ elim (Bool-cases (failed (p.code w.calls (Call.thread_join h)))) [
    | inl e ↦ rw (o, e) refl
    | inr e ↦ rw (o, e) refl
  ]
]

detach-Follows : (t : Thread) → Follows impl_of (Preempt.detach t) (Standard.detach t.impl)
unfolding Preempt.detach Standard.detach
detach-Follows t p w = elim (Option-cases t.impl) [
  | inl n ↦ rw n refl
  | inr (h, o) ↦ elim (Bool-cases (failed (p.code w.calls (Call.thread_detach h)))) [
    | inl e ↦ rw (o, e) refl
    | inr e ↦ rw (o, e) refl
  ]
]

destroy-Follows : (t : Thread) → Follows (λ u. u) (Preempt.destroy t) (Standard.destroy t.impl)
unfolding Preempt.destroy Preempt.joinable Standard.destroy verify
destroy-Follows t p w = elim (Option-cases t.impl) [
  | inl n ↦ elim (Bool-cases p.ndebug) [ inl d ↦ rw (n, d) refl | inr d ↦ rw (n, d) refl ]
  | inr (h, o) ↦ elim (Bool-cases p.ndebug) [
    | inl d ↦ rw (o, d) (w, refl)
    | inr d ↦ rw (o, d) (w, refl)
  ]
]

assign-Follows :
    (t u : Thread) → Follows (pair_map impl_of) (Preempt.assign t u) (Standard.assign t.impl u.impl)
unfolding Preempt.assign Standard.assign
assign-Follows t u p w = elim (Bool-cases (owns t.impl)) [
  | inl e ↦ rw e (w, refl)
  | inr e ↦ rw e refl
]

-- `preempt::thread` is like std::thread: on every platform each of its members that std::thread has too
-- does with the thread that it owns what that of std::thread does. It returns or throws where that one
-- does, behind the same calls and with the same owners left, and it ends the process where that one does,
-- in the same way.
pub std_Simulates : Simulates impl_of preempt_thread std_thread
unfolding Preempt.move Preempt.joinable Preempt.get_id Preempt.native_handle Preempt.swap
std_Simulates = record {
  default = refl;
  make = make-Follows;
  move = λ t. refl;
  assign = assign-Follows;
  destroy = destroy-Follows;
  joinable = λ t. refl;
  get_id = λ t. refl;
  native_handle = λ t. refl;
  join = join-Follows;
  detach = detach-Follows;
  swap = λ t u. refl;
}
