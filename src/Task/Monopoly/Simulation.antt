-- ===== src/Task/Monopoly/Simulation.antt =====
-- The tasks over one class of threads do what they do over another one, where the operations of the
-- classes correspond (include/preempt/task.h, tests/task_01_monopoly.cc).
use libpreempt.Prelude.{
  ℕ, zero, suc, ◌≡◌, refl, ap, Bool, true, false, List, [], ◌∷◌, ◌++◌, map, if◌then◌else◌,
}
use libpreempt.Machine.{M, Platform, World, ◌>>=◌, ◌>>◌, pure, Call, put_calls}
use libpreempt.Thread.Class.{ThreadClass}
use libpreempt.Thread.Class.Simulation.{
  Image, Follows, then_Follows, pair_map, Simulates, std_Simulates,
}
use libpreempt.Task.Template as Template
use libpreempt.Task.Monopoly
use libpreempt.Task.Monopoly.Standard as Standard

if_Follows :
    {A B : Type 0} (g : A → B) (b : Bool) (m m' : M A) (n n' : M B)
    → Follows g m n
    → Follows g m' n'
    → Follows g (if b then m else m') (if b then n else n')
if_Follows g true m m' n n' s t = s
if_Follows g false m m' n n' s t = t

map-snoc :
    {T U : Type 0} (g : T → U) (ts : List T) (t : T) → map g (ts ++ t ∷ []) ≡ map g ts ++ g t ∷ []
map-snoc g [] t = refl
map-snoc g (u ∷ ts) t = ap (◌∷◌ (g u)) (map-snoc g ts t)

appended :
    {T U : Type 0} (g : T → U) (ts : List T) (t : T)
    → Follows (map g) (pure (ts ++ t ∷ [])) (pure (map g ts ++ g t ∷ []))
appended g ts t p w = rw (map-snoc g ts t) refl

module _ {T U : Type 0} {g : T → U} {c : ThreadClass T} {d : ThreadClass U}
    (s : Simulates g c d) where
  mono_join-Follows : (t : T) → Follows g (Template.mono_join c t) (Template.mono_join d (g t))
  unfolding Template.mono_join Template.mono_joinable
  mono_join-Follows t =
      rw (s.joinable t) (if_Follows g (c.joinable t) _ _ _ _ (s.join t) (λ p w. refl))

  mono_spawn-Follows :
      (f : ℕ) (t : T) → Follows g (Template.mono_spawn c f t) (Template.mono_spawn d f (g t))
  unfolding Template.mono_spawn
  mono_spawn-Follows f t = then_Follows g g _ _ _ _ (mono_join-Follows t) (λ idle.
      then_Follows g g _ _ _ _ (s.make f) (λ temporary.
        then_Follows (pair_map g) g _ _ _ _ (s.assign idle temporary)
          (λ x. then_Follows (λ (u : Unit {0}). u) g _ _ _ _ (s.destroy x.1) (λ u p w. refl))))

  moved-Follows :
      (ts : List T) (t : T)
      → Follows
          (map g)
          (c.destroy (c.move t).1 >> pure (ts ++ (c.move t).0 ∷ []))
          (d.destroy (d.move (g t)).1 >> pure (map g ts ++ (d.move (g t)).0 ∷ []))
  moved-Follows ts t = rw⁻¹ (s.move t) (
      then_Follows (λ (u : Unit {0}). u) (map g) _ _ _ _ (s.destroy (c.move t).1)
        (λ u. appended g ts (c.move t).0))

  poly_spawn-Follows :
      (f : ℕ) (ts : List T)
      → Follows (map g) (Template.poly_spawn c f ts) (Template.poly_spawn d f (map g ts))
  unfolding Template.poly_spawn Template.guard
  poly_spawn-Follows f ts p w =
      then_Follows g (map g) (c.make f) (d.make f)
        (λ t. c.destroy (c.move t).1 >> pure (ts ++ (c.move t).0 ∷ []))
        (λ u. d.destroy (d.move u).1 >> pure (map g ts ++ (d.move u).0 ∷ [])) (s.make f)
        (λ t. moved-Follows ts t) p (put_calls (put_calls w Call.mutex_lock) Call.mutex_unlock)

  poly_join-Follows :
      (ts : List T) → Follows (map g) (Template.poly_join c ts) (Template.poly_join d (map g ts))
  unfolding Template.poly_join
  poly_join-Follows [] = λ p w. refl
  poly_join-Follows (t ∷ ts) =
      then_Follows g (map g) _ _ _ _ (s.join t)
        (λ u. then_Follows (map g) (map g) _ _ _ _ (poly_join-Follows ts) (λ us p w. refl))

  destroy_all-Follows :
      (ts : List T)
      → Follows (λ u. u) (Template.destroy_all c ts) (Template.destroy_all d (map g ts))
  unfolding Template.destroy_all
  destroy_all-Follows [] = λ p w. refl
  destroy_all-Follows (t ∷ ts) =
      then_Follows (λ u. u) (λ u. u) _ _ _ _ (s.destroy t) (λ u. destroy_all-Follows ts)

-- `test_with` over both classes, where also what happens with the spawned threads corresponds.
module _ {T U : Type 0} {g : T → U} {c : ThreadClass T} {d : ThreadClass U} (s : Simulates g c d)
    (change : T → M T) (change' : U → M U)
    (e : (t : T) → Follows g (change t) (change' (g t))) where
  mono-Follows :
      (f : ℕ) (t : T)
      → Follows g (Monopoly.mono_spawn c change f t) (Monopoly.mono_spawn d change' f (g t))
  unfolding Monopoly.mono_spawn
  mono-Follows f t = then_Follows g g _ _ _ _ (mono_spawn-Follows s f t) e

  first-Follows :
      Follows g
        (Monopoly.mono_spawn c change 1 c.default)
        (Monopoly.mono_spawn d change' 1 d.default)
  first-Follows = rw s.default at (mono-Follows 1 c.default)

  change_back-Follows :
      (ts : List T)
      → Follows
          (map g)
          (Monopoly.change_back c change ts)
          (Monopoly.change_back d change' (map g ts))
  unfolding Monopoly.change_back
  change_back-Follows [] = λ p w. refl
  change_back-Follows (t ∷ []) = then_Follows g (map g) _ _ _ _ (e t) (λ u p w. refl)
  change_back-Follows (t ∷ u ∷ ts) =
      then_Follows (map g) (map g) _ _ _ _ (change_back-Follows (u ∷ ts)) (λ us p w. refl)

  poly-Follows :
      (f : ℕ) (ts : List T)
      → Follows
          (map g)
          (Monopoly.poly_spawn c change f ts)
          (Monopoly.poly_spawn d change' f (map g ts))
  unfolding Monopoly.poly_spawn
  poly-Follows f ts =
      then_Follows (map g) (map g) _ _ _ _ (poly_spawn-Follows s f ts) change_back-Follows

  spawn_rounds-Follows :
      (n : ℕ) (ts : List T)
      → Follows
          (map g)
          (Monopoly.spawn_rounds c change n ts)
          (Monopoly.spawn_rounds d change' n (map g ts))
  unfolding Monopoly.spawn_rounds
  spawn_rounds-Follows zero ts = λ p w. refl
  spawn_rounds-Follows (suc n) ts = then_Follows (map g) (map g) _ _ _ _ (poly-Follows 1 ts) (λ ts1.
      then_Follows (map g) (map g) _ _ _ _ (poly-Follows 2 ts1) (λ ts2.
        then_Follows (map g) (map g) _ _ _ _ (poly-Follows 3 ts2)
          (λ ts3. spawn_rounds-Follows n ts3)))

  ended-Follows :
      (us : List T) (m : T)
      → Follows
          (λ u. u)
          (Template.mono_join c m >>= λ idle. Template.destroy_all c us >> c.destroy idle)
          (Template.mono_join d (g m) >>= λ idle.
            Template.destroy_all d (map g us) >> d.destroy idle)
  ended-Follows us m =
      then_Follows g (λ u. u) _ _ _ _ (mono_join-Follows s m)
        (λ idle.
          then_Follows (λ u. u) (λ u. u) _ _ _ _ (destroy_all-Follows s us) (λ u. s.destroy idle))

  pub test_with-Follows :
      Follows (λ u. u) (Monopoly.test_with c change) (Monopoly.test_with d change')
  unfolding Monopoly.test_with
  test_with-Follows =
      then_Follows g (λ u. u) _ _ _ _ (first-Follows)
        (λ m1.
          then_Follows g (λ u. u) _ _ _ _ (mono-Follows 2 m1)
            (λ m2.
              then_Follows g (λ u. u) _ _ _ _ (mono-Follows 3 m2)
                (λ m3.
                  then_Follows (map g) (λ u. u) _ _ _ _ (spawn_rounds-Follows 3 [])
                    (λ ts.
                      then_Follows (map g) (λ u. u) _ _ _ _ (poly_join-Follows s ts)
                        (λ us. ended-Follows us m3)))))

pub test_follows :
    (p : Platform) (w : World) → Image (λ u. u) (Monopoly.test p w) (Standard.test p w)
unfolding Monopoly.test_of
test_follows = test_with-Follows std_Simulates pure pure (λ t p w. refl)
