-- ===== src/Task/Monopoly/Counts.antt =====
-- How many threads are started and joined between two worlds, for tests/task_01_monopoly.cc.
use libpreempt.Prelude.{
  ℕ, suc, ◌+◌, ◌≡◌, refl, ◌∙◌, true, inl, inr, Option-cases, length, some, List, [], ◌∷◌, ◌++◌, ℤ,
  arith,
}
use libpreempt.Machine.{World, Policy, Call, put_calls}
use libpreempt.Threading.Scheduling.{asked}
use libpreempt.Thread.{Thread}
use libpreempt.Thread.Laws.{started}
use libpreempt.Thread.SelfTest.{owned}
use libpreempt.Task.Poly.Laws.{all_joinable, joined, unlocked}

unfoldable pub starts_in : List Call → ℕ
starts_in [] = 0
starts_in (c ∷ calls) = elim c [ Call.thread_start f ↦ suc (starts_in calls) | _ ↦ starts_in calls ]

unfoldable pub joins_in : List Call → ℕ
joins_in [] = 0
joins_in (c ∷ calls) = elim c [ Call.thread_join h ↦ suc (joins_in calls) | _ ↦ joins_in calls ]

-- Between the two worlds so many threads are started and joined, and the verify flag is kept.
pub record Grew (started joined : ℕ) (w w' : World) : Type 0 where
  pub starts : starts_in w'.calls ≡ starts_in w.calls + started
  pub joins : joins_in w'.calls ≡ joins_in w.calls + joined
  pub verified : w'.verified ≡ w.verified

pub Grew-zero : (w : World) → Grew 0 0 w w
Grew-zero w = record { starts = omega arith; joins = omega arith; verified = refl }

pub Grew-add :
    {a b c d : ℕ} {u v w : World} → Grew a b u v → Grew c d v w → Grew (a + c) (b + d) u w
Grew-add g h = record {
  starts = omega (arith, g.starts, h.starts);
  joins = omega (arith, g.joins, h.joins);
  verified = h.verified ∙ g.verified;
}

pub Grew-start : (f : ℕ) (w : World) → Grew 1 0 w (started w f)
unfolding starts_in joins_in
Grew-start f w = record { starts = omega arith; joins = omega arith; verified = refl }

pub Grew-join : (h : ℕ) (w : World) → Grew 0 1 w (put_calls w (Call.thread_join h))
unfolding starts_in joins_in
Grew-join h w = record { starts = omega arith; joins = omega arith; verified = refl }

pub Grew-unlocked : (w : World) → Grew 0 0 w (unlocked w)
unfolding starts_in joins_in
Grew-unlocked w = record { starts = omega arith; joins = omega arith; verified = refl }

-- The system joins every thread of the list.
starts_joined :
    (ts : List Thread) (calls : List Call) → starts_in (joined ts calls) ≡ starts_in calls
unfolding joined starts_in
starts_joined [] calls = refl
starts_joined (t ∷ ts) calls = elim (Option-cases t.impl) [
  | inl e ↦ rw e refl
  | inr (h, e) ↦ rw e (starts_joined ts (Call.thread_join h ∷ calls))
]

all_joinable-tail :
    (t : Thread) (h : ℕ) (ts : List Thread) → all_joinable (t ∷ ts) ≡ true → all_joinable ts ≡ true
all_joinable-tail t h ts a = ground arith

joins_joined :
    (ts : List Thread) (calls : List Call)
    → all_joinable ts ≡ true
    → joins_in (joined ts calls) ≡ joins_in calls + length ts
unfolding joined joins_in
joins_joined [] calls a = omega arith
joins_joined (t ∷ ts) calls a = elim (Option-cases t.impl) [
  | inl e ↦ absurd (ground (arith, e))
  | inr (h, e) ↦
      rw e
        (omega (arith, joins_joined ts (Call.thread_join h ∷ calls) (all_joinable-tail t h ts a)))
]

pub Grew-joined :
    {n : ℕ} (ts : List Thread) (w : World)
    → length ts ≡ n
    → all_joinable ts ≡ true
    → Grew 0 n w (record w { calls = joined ts w.calls })
Grew-joined ts w l a = record {
  starts = omega (arith, starts_joined ts w.calls);
  joins = omega (arith, joins_joined ts w.calls a);
  verified = refl;
}

pub all_joinable-snoc :
    (ts : List Thread) (h : ℕ) → all_joinable ts ≡ true → all_joinable (ts ++ owned h ∷ []) ≡ true
all_joinable-snoc [] h a = refl
all_joinable-snoc (t ∷ ts) h a = ground (arith, all_joinable-snoc ts h)

pub Grew-asked :
    (policy : Policy) (priority : ℤ) (h : ℕ) (w : World)
    → Grew 0 0 w (asked w (some h) policy priority)
unfolding starts_in joins_in
Grew-asked policy priority h w = record {
  starts = omega arith;
  joins = omega arith;
  verified = refl;
}
