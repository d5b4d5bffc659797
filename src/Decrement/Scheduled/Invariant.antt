-- ===== src/Decrement/Scheduled/Invariant.antt =====
-- On one processor: at most one thread has begun and not finished, and what the global number is then.
use libpreempt.Prelude.{
  ℕ, suc, ◌-◌, ◌<◌, ◌≤◌, ◌≡◌, refl, sym, ◌∙◌, ap, subst, Bool, true, false, ◌&&◌, ℤ, pos, ◌-ℤ◌,
  eqb_ℤ, int_laws, update, update-same, update-other, arith,
}
use native.Mathlib.Decide.{dec_lt}
use libpreempt.Decrement.Scheduled.{
  Pc, unborn, verifying, reading, writing, finished, Main, creating, joining, ended, System, Runner,
  main_thread, Step, create, created_all, join, joined_all, verify, read, write, start, Reach, here,
  next, is_live,
}

-- The documented behaviour of one processor: a thread without real-time priority runs only while no
-- thread with real-time priority can run.
abbrev pub MainWaits : ℕ → (System → Runner → Bool) → Type 0
MainWaits n runs =
    (s : System) → runs s main_thread ≡ true → (j : ℕ) → j < n → is_live (s.pc j) ≡ false

-- Where `main` stands behind `c` creations.
abbrev pub MainAt : ℕ → ℕ → Main → Type 0
MainAt n c (creating i) = i ≡ c
MainAt n c (joining i) = (c ≡ n) × (i ≤ n)
MainAt n c ended = c ≡ n

-- What a thread that has begun has read, given the global number.
abbrev pub Busy : ℤ → Pc → Type 0
Busy value unborn = ⊥
Busy value verifying = Unit
Busy value reading = Unit
Busy value (writing v) = v ≡ value
Busy value finished = ⊥

-- All threads below `c` have finished and those from `d` on do not exist.
pub record Around (c d : ℕ) (pc : ℕ → Pc) : Type 0 where
  pub before : (j : ℕ) → j < c → pc j ≡ finished
  pub behind : (j : ℕ) → d ≤ j → pc j ≡ unborn

-- No thread has begun and not finished: the first `c` have finished, and the others do not exist.
pub record Between (n : ℕ) (b : Bool) (s : System) (c : ℕ) : Type 0 where
  pub below : c ≤ n
  pub stands : MainAt n c s.main
  pub value : s.value ≡ pos (n - c)
  pub verified : s.verified ≡ b
  pub around : Around c c s.pc

-- The thread `k` has begun and not finished.
pub record Within (n : ℕ) (b : Bool) (s : System) (k : ℕ) : Type 0 where
  pub below : k < n
  pub stands : s.main ≡ creating (suc k)
  pub value : s.value ≡ pos (n - k)
  pub verified : s.verified ≡ b
  pub busy : Busy (pos (n - k)) (s.pc k)
  pub around : Around k (suc k) s.pc

pub data Inv (n : ℕ) (b : Bool) (s : System) : Type 0 where
  between : (c : ℕ) → Between n b s c → Inv n b s
  within : (k : ℕ) → Within n b s k → Inv n b s

expected : (n i : ℕ) → i < n → pos n -ℤ pos i ≡ pos (n - i)
expected n i h = omega int_laws

lowered : (n i : ℕ) → i < n → pos (n - i) -ℤ pos 1 ≡ pos (n - suc i)
lowered n i h = omega int_laws

kept : (b : Bool) (a z : ℤ) → a ≡ z → (b && eqb_ℤ a z) ≡ b
kept b a z h = rw h (ground arith)

moved : (k d : ℕ) (pc : ℕ → Pc) (p : Pc) → k < d → Around k d pc → Around k d (update pc k p)
moved k d pc p h a = record {
  before = λ j l. update-other pc k j p (λ e. omega arith) ∙ a.before j l;
  behind = λ j l. update-other pc k j p (λ e. omega arith) ∙ a.behind j l;
}

born : (c : ℕ) (pc : ℕ → Pc) → Around c c pc → Around c (suc c) (update pc c verifying)
born c pc a =
    moved c (suc c) pc verifying (omega arith)
      (record { before = a.before; behind = λ j l. a.behind j (omega arith) })

ended_at :
    (k : ℕ) (pc : ℕ → Pc) → Around k (suc k) pc → Around (suc k) (suc k) (update pc k finished)
ended_at k pc a = record {
  before = λ j l. ground (arith, a.before j);
  behind = λ j l. ground (arith, a.behind j l);
}

pub Busy-live : (v : ℤ) (p : Pc) → Busy v p → is_live p ≡ true
Busy-live v unborn b = absurd b
Busy-live v verifying b = refl
Busy-live v reading b = refl
Busy-live v (writing w) b = refl
Busy-live v finished b = absurd b

pub at_creating : (n c i : ℕ) (m : Main) → m ≡ creating i → MainAt n c m → i ≡ c
at_creating n c i m e h = subst (MainAt n c) e h

pub at_joining : (n c i : ℕ) (m : Main) → m ≡ joining i → MainAt n c m → (c ≡ n) × (i ≤ n)
at_joining n c i m e h = subst (MainAt n c) e h

pub not_live : (c i : ℕ) (pc : ℕ → Pc) → Around c c pc → is_live (pc i) ≡ false
not_live c i pc a = elim (dec_lt i c) [
  | yes l ↦ rw (a.before i l)
  | no l ↦ rw (a.behind i (omega arith))
]

the_live : (k i : ℕ) (pc : ℕ → Pc) → Around k (suc k) pc → is_live (pc i) ≡ true → k ≡ i
the_live k i pc a h = elim (dec_lt i k) [
  | yes l ↦ absurd (ground (arith, a.before i l))
  | no l ↦ elim (dec_lt k i) [
    | yes g ↦ absurd (ground (arith, a.behind i (omega arith)))
    | no g ↦ omega arith
  ]
]

all_below : (n : ℕ) → pos n ≡ pos (n - 0)
all_below n = ap pos (omega arith)

Inv-start : (n : ℕ) (b : Bool) → Inv n b (start n b)
Inv-start n b = between 0 (record {
  below = omega arith;
  stands = refl;
  value = all_below n;
  verified = refl;
  around = record { before = λ j l. absurd (omega arith); behind = λ j l. refl };
})

module _ {n : ℕ} {b : Bool} where
  -- A thread that has begun and not finished is the one.
  at : {s : System} (i : ℕ) → is_live (s.pc i) ≡ true → Inv n b s → Within n b s i
  at {s} i l (between c w) = absurd (ground (arith, not_live c i s.pc w.around))
  at {s} i l (within k w) = subst (Within n b s) (the_live k i s.pc w.around l) w

  module _ (runs : System → Runner → Bool) (waits : MainWaits n runs) where
    -- Where `main` runs, there is none.
    pub main_at : {s : System} → runs s main_thread ≡ true → Inv n b s → (c : ℕ) × Between n b s c
    main_at {s} r (between c w) = (c, w)
    main_at {s} r (within k w) =
        absurd (ground (arith, Busy-live _ (s.pc k) w.busy, waits s r k w.below))

    Step-Inv : {s t : System} → Step n runs s t → Inv n b s → Inv n b t
    Step-Inv {s} (create i lt m r) inv =
        let (c, w) = main_at r inv in
        let e : c ≡ i = sym (at_creating n c i s.main m w.stands) in
        let v : Between n b s i = subst (Between n b s) e w in
        within i (record {
          below = lt;
          stands = refl;
          value = v.value;
          verified = v.verified;
          busy = rw (update-same s.pc i verifying) tt;
          around = born i s.pc v.around;
        })
    Step-Inv {s} (created_all m r) inv =
        let (c, w) = main_at r inv in
        between c (record {
          below = w.below;
          stands = (sym (at_creating n c n s.main m w.stands), omega arith);
          value = w.value;
          verified = w.verified;
          around = w.around;
        })
    Step-Inv {s} (join i lt m f r) inv =
        let (c, w) = main_at r inv in
        between c (record {
          below = w.below;
          stands = ((at_joining n c i s.main m w.stands).0, omega arith);
          value = w.value;
          verified = w.verified;
          around = w.around;
        })
    Step-Inv {s} (joined_all m r) inv =
        let (c, w) = main_at r inv in
        let all : c ≡ n = (at_joining n c n s.main m w.stands).0 in
        between c (record {
          below = w.below;
          stands = all;
          value = w.value;
          verified = kept s.verified s.value (pos 0) (w.value ∙ ap pos (omega arith)) ∙ w.verified;
          around = w.around;
        })
    Step-Inv {s} (verify i lt e r) inv =
        let w : Within n b s i = at i (ap is_live e) inv in
        within i (record {
          below = lt;
          stands = w.stands;
          value = w.value;
          verified = kept s.verified s.value _ (w.value ∙ sym (expected n i lt)) ∙ w.verified;
          busy = rw (update-same s.pc i reading) tt;
          around = moved i (suc i) s.pc reading (omega arith) w.around;
        })
    Step-Inv {s} (read i lt e r) inv =
        let w : Within n b s i = at i (ap is_live e) inv in
        within i (record {
          below = lt;
          stands = w.stands;
          value = w.value;
          verified = w.verified;
          busy = rw (update-same s.pc i (writing s.value)) w.value;
          around = moved i (suc i) s.pc (writing s.value) (omega arith) w.around;
        })
    Step-Inv {s} (write i v lt e r) inv =
        let w : Within n b s i = at i (ap is_live e) inv in
        let read_value : v ≡ pos (n - i) = subst (Busy (pos (n - i))) e w.busy in
        between (suc i) (record {
          below = lt;
          stands = subst (MainAt n (suc i)) (sym w.stands) refl;
          value = ap (λ x. x -ℤ pos 1) read_value ∙ lowered n i lt;
          verified = w.verified;
          around = ended_at i s.pc w.around;
        })

    pub Reach-Inv : {k : ℕ} {s : System} → Reach n runs (start n b) k s → Inv n b s
    Reach-Inv here = Inv-start n b
    Reach-Inv (next r st) = Step-Inv st (Reach-Inv r)
