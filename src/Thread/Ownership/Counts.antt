-- ===== src/Thread/Ownership/Counts.antt =====
-- How often a thread is owned, started and given up.
use libpreempt.Prelude.{
  ℕ, zero, suc, ◌+◌, ◌≡◌, ◌≢◌, refl, sym, ◌∙◌, ap, inl, inr, Bool-cases, ==_iff, ◌==◌, Option, none,
  some, List, [], ◌∷◌, get_elem?, set, arith, if◌then◌else◌,
}
use libpreempt.Machine.{Platform, World, Call, failed}
use libpreempt.Thread.{Thread}
use libpreempt.Thread.Ownership.{erase}

abbrev pub own : ℕ → Option ℕ → ℕ
own h none = 0
own h (some k) = if k == h then 1 else 0

-- How many of the objects own thread `h`.
unfoldable pub owned : ℕ → List Thread → ℕ
owned h [] = 0
owned h (t ∷ ts) = own h t.impl + owned h ts

-- How many calls have started a thread with the handle `h`, and how many have joined or detached it.
unfoldable pub started : Platform → ℕ → List Call → ℕ
started p h [] = 0
started p h (c ∷ cs) =
    let before = started p h cs in
    elim c [
      | Call.thread_start f ↦
          (if failed (p.code cs (Call.thread_start f)) then 0 else own h (some (p.handle cs)))
          + before
      | _ ↦ before
    ]

unfoldable pub released : Platform → ℕ → List Call → ℕ
released p h [] = 0
released p h (c ∷ cs) =
    let before = released p h cs in
    elim c [
      | Call.thread_join k ↦
          (if failed (p.code cs (Call.thread_join k)) then 0 else own h (some k)) + before
      | Call.thread_detach k ↦
          (if failed (p.code cs (Call.thread_detach k)) then 0 else own h (some k)) + before
      | _ ↦ before
    ]

-- Every thread that was started has one owner, unless it was joined or detached.
abbrev pub Balanced : Platform → List Thread → World → Type 0
Balanced p ts w = (h : ℕ) → owned h ts + released p h w.calls ≡ started p h w.calls

-- At the start there are no threads.
pub none-Balanced : (p : Platform) (w : World) → w.calls ≡ [] → Balanced p [] w
unfolding owned started released
none-Balanced p w e h = rw e refl

same_own : (h : ℕ) (s t : Thread) → some s ≡ some t → own h s.impl ≡ own h t.impl
same_own h s t e = ap (λ o. elim o [ none ↦ 0 | some x ↦ own h x.impl ]) e

pub owned-set :
    (h : ℕ) (ts : List Thread) (i : ℕ) (t u : Thread)
    → get_elem? ts i ≡ some t
    → owned h (set ts i u) + own h t.impl ≡ owned h ts + own h u.impl
unfolding owned
owned-set h [] i t u e = absurd (ground arith)
owned-set h (s ∷ ts) zero t u e = omega (arith, same_own h s t e)
owned-set h (s ∷ ts) (suc i) t u e = omega (arith, owned-set h ts i t u e)

pub owned-erase :
    (h : ℕ) (ts : List Thread) (i : ℕ) (t : Thread)
    → get_elem? ts i ≡ some t
    → owned h (erase ts i) + own h t.impl ≡ owned h ts
unfolding owned
owned-erase h [] i t e = absurd (ground arith)
owned-erase h (s ∷ ts) zero t e = omega (arith, same_own h s t e)
owned-erase h (s ∷ ts) (suc i) t e = omega (arith, owned-erase h ts i t e)

pub get-set :
    (ts : List Thread) (i j : ℕ) (u : Thread) → i ≢ j → get_elem? (set ts i u) j ≡ get_elem? ts j
get-set [] i j u h = refl
get-set (s ∷ ts) zero zero u h = absurd (h refl)
get-set (s ∷ ts) zero (suc j) u h = refl
get-set (s ∷ ts) (suc i) zero u h = refl
get-set (s ∷ ts) (suc i) (suc j) u h = get-set ts i j u (λ e. h (ap suc e))

get-set-same :
    (ts : List Thread) (i : ℕ) (t u : Thread)
    → get_elem? ts i ≡ some t
    → get_elem? (set ts i u) i ≡ some u
get-set-same [] i t u e = absurd (ground arith)
get-set-same (s ∷ ts) zero t u e = refl
get-set-same (s ∷ ts) (suc i) t u e = get-set-same ts i t u e

-- Two objects change, or one does twice, which then first gets what the other had.
pub owned-set-set :
    (h : ℕ) (ts : List Thread) (i j : ℕ) (t other u v : Thread)
    → get_elem? ts i ≡ some t
    → get_elem? ts j ≡ some other
    → (i ≡ j → own h u.impl ≡ own h other.impl)
    → owned h (set (set ts i u) j v) + own h t.impl + own h other.impl
      ≡ owned h ts + own h u.impl + own h v.impl
owned-set-set h ts i j t other u v ei ej same = elim (Bool-cases (i == j)) [
  | inl q ↦
      let e : i ≡ j = (==_iff i j).0 q in
      omega (
        arith,
        owned-set h ts i t u ei,
        owned-set h (set ts i u) j u v
            (ap (get_elem? (set ts i u)) (sym e) ∙ get-set-same ts i t u ei),
        same e,
      )
  | inr q ↦
      let apart : i ≢ j = λ e. absurd (ground (arith, q, e)) in
      omega (
        arith,
        owned-set h ts i t u ei,
        owned-set h (set ts i u) j other v (get-set ts i j u apart ∙ ej),
      )
]
