-- ===== src/Prelude/Threads.antt =====
-- What the models of several threads share: a table of the threads' program counters, in which one
-- thread takes a step.
use Prim.Native.Nat.{ℕ, zero, suc, ◌+◌, ◌*◌, ◌≤◌, ◌<◌}
use mathlib.Core.Path.{◌≡◌, refl, subst}
use mathlib.Core.Logic.{◌≢◌, inl, inr}
use native.Mathlib.Decide.{dec_lt}
use native.Mathlib.Omega.{arith}
use libpreempt.Prelude.Tests.{◌==◌, if◌then◌else◌, Bool-cases, ==_iff}

abbrev pub update {ℓ} : {A : Type ℓ} → (ℕ → A) → ℕ → A → ℕ → A
update f i a j = if i == j then a else f j

module _ {ℓ} {A : Type ℓ} where
  pub update-same : (f : ℕ → A) (i : ℕ) (a : A) → update f i a i ≡ a
  update-same f i a = ground arith

  pub update-other : (f : ℕ → A) (i j : ℕ) (a : A) → i ≢ j → update f i a j ≡ f j
  update-other f i j a h = ground arith

-- What holds of one thread, and of the others, holds of all.
pub each {ℓ} : (P : ℕ → Type ℓ) (i : ℕ) → P i → ((j : ℕ) → i ≢ j → P j) → (j : ℕ) → P j
each P i here others j = elim (Bool-cases (i == j)) [
  | inl e ↦ subst P ((==_iff i j).0 e) here
  | inr e ↦ others j (λ h. ground (arith, (==_iff i j).1 h))
]

-- What the first n threads sum up to, where each has a weight by its program counter.
module _ {ℓ} {A : Type ℓ} (weight : A → ℕ) where
  unfoldable pub total : ℕ → (ℕ → A) → ℕ
  total zero pc = 0
  total (suc n) pc = total n pc + weight (pc n)

  total-update_of_le :
      (n : ℕ) (pc : ℕ → A) (i : ℕ) (p : A) → n ≤ i → total n (update pc i p) ≡ total n pc
  unfolding total
  total-update_of_le zero pc i p h = refl
  total-update_of_le (suc n) pc i p h = ground (arith, total-update_of_le n pc i p)

  pub total-update :
      (n : ℕ) (pc : ℕ → A) (i : ℕ) (p : A)
      → i < n
      → total n (update pc i p) + weight (pc i) ≡ total n pc + weight p
  unfolding total
  total-update zero pc i p h = absurd (omega arith)
  total-update (suc n) pc i p h = elim (dec_lt i n) [
    | yes below ↦ ground (arith, total-update n pc i p below)
    | no last ↦ ground (arith, total-update_of_le n pc i p)
  ]

  pub total-same :
      (n : ℕ) (pc : ℕ → A) (k : ℕ) → ((j : ℕ) → j < n → weight (pc j) ≡ k) → total n pc ≡ n * k
  unfolding total
  total-same zero pc k h = omega arith
  total-same (suc n) pc k h =
      omega (arith, total-same n pc k (λ j l. h j (omega arith)), h n (omega arith))
