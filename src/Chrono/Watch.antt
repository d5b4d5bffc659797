-- ===== src/Chrono/Watch.antt =====
-- Stopwatches and timeouts of include/base/chrono.h over a clock that does not run backwards.
use libpreempt.Prelude.{
  ℕ, zero, suc, ◌+◌, ◌*◌, ◌/◌, ◌≡◌, refl, sym, Bool, true, List, [], ◌∷◌, ℤ, pos, negsuc, ◌+ℤ◌,
  ◌-ℤ◌, ◌≤ℤ◌, ◌↔◌, leb_ℤ, int_laws, arith,
}
use libpreempt.Machine.{M, Platform, World, Run, done, Call, ◌>>=◌, pure, put_calls}
use libpreempt.Chrono.{
  Stopwatch, duration_cast, cast, microseconds, lap, Timeout, from_microseconds, make_timeout,
  reached,
}

-- What the clock reads next.
abbrev pub reading : Platform → World → ℤ
reading p w = p.code w.calls Call.clock_now

-- Two readings in a row do not go backwards.
abbrev pub Monotone : Platform → Type 0
Monotone p = (w : World) → reading p w ≤ℤ reading p (put_calls w Call.clock_now)

-- The results of n laps, and the stopwatch behind them.
pub laps : ℕ → Stopwatch → M (List ℤ × Stopwatch)
laps zero sw = pure ([], sw)
laps (suc n) sw = do (first, next) ← lap sw; (rest, last) ← laps n next; pure (first ∷ rest, last)

-- From where each of n laps starts to the reading that ends it, and where the next one starts.
abbrev pub stretches : ℕ → ℤ → Platform → World → List ℤ
stretches zero t0 p w = []
stretches (suc n) t0 p w =
    let read : World = put_calls w Call.clock_now in
    (reading p w -ℤ t0) ∷ stretches n (reading p read) p (put_calls read Call.clock_now)

-- Whole microseconds for nanoseconds, none of them negative.
abbrev pub AreMicroseconds : List ℤ → List ℤ → Type 0
AreMicroseconds [] [] = Unit
AreMicroseconds [] (d ∷ ds) = ⊥
AreMicroseconds (x ∷ xs) [] = ⊥
AreMicroseconds (x ∷ xs) (d ∷ ds) =
    ((m : ℕ) × (x ≡ pos m) × (pos (m * 1000) ≤ℤ d) × (d ≤ℤ pos (m * 1000 + 999)))
    × AreMicroseconds xs ds

abbrev pub sum : List ℤ → ℤ
sum [] = pos 0
sum (x ∷ xs) = x +ℤ sum xs

-- Rounding loses less than a microsecond.
duration_cast_le :
    (n : ℤ)
    → pos 0 ≤ℤ n
    → (m : ℕ) × (duration_cast 1000 n ≡ pos m) × (pos (m * 1000) ≤ℤ n) × (n ≤ℤ pos (m * 1000 + 999))
unfolding duration_cast
duration_cast_le (pos n) h = (n / 1000, refl, omega arith, omega arith)
duration_cast_le (negsuc n) h = absurd (omega arith)

pos_add : (a b : ℕ) → pos a +ℤ pos b ≡ pos (a + b)
pos_add a b = omega int_laws

lap_lem :
    (sw : Stopwatch) (p : Platform) (w : World)
    → sw.t0 ≤ℤ reading p w
    → (m : ℕ) × (lap sw p w
        ≡ done
            (pos m, record { t0 = reading p (put_calls w Call.clock_now) })
            (put_calls (put_calls w Call.clock_now) Call.clock_now))
      × (pos (m * 1000) ≤ℤ reading p w -ℤ sw.t0)
      × (reading p w -ℤ sw.t0 ≤ℤ pos (m * 1000 + 999))
unfolding lap microseconds cast
lap_lem sw p w h =
    let (m, same, le, ge) = duration_cast_le (reading p w -ℤ sw.t0) (omega int_laws) in
    (m, rw same refl, le, ge)

-- As long as the clock does not run backwards, n laps return, and each of them is the whole
-- microseconds, not negative, from its start to the reading that ends it. The clock between two laps is
-- not measured: the sum of the laps in microseconds is at most the time from the first start of the
-- stopwatch to its last.
pub laps_lem :
    (n : ℕ) (sw : Stopwatch) (p : Platform) (w : World)
    → Monotone p
    → sw.t0 ≤ℤ reading p w
    → (xs : List ℤ) × (last : Stopwatch) × (w' : World) × (m : ℕ) × (laps n sw p w
        ≡ done (xs, last) w')
      × AreMicroseconds xs (stretches n sw.t0 p w)
      × (sum xs ≡ pos m)
      × (pos (m * 1000) ≤ℤ last.t0 -ℤ sw.t0)
unfolding laps
laps_lem zero sw p w mono h = ([], sw, w, 0, refl, tt, refl, omega int_laws)
laps_lem (suc n) sw p w mono h =
    let (m, runs, le, ge) = lap_lem sw p w h in
    let w0 : World = put_calls w Call.clock_now in
    let next : Stopwatch = record { t0 = reading p w0 } in
    let step = mono w in
    let (xs, last, w', k, rest, each, total, le') =
      laps_lem n next p (put_calls w0 Call.clock_now) mono (mono w0) in
    (
      pos m ∷ xs,
      last,
      w',
      m + k,
      rw (runs, rest) refl,
      ((m, refl, le, ge), each),
      rw total (pos_add m k),
      omega (int_laws, le, le', step),
    )

leb_ℤ_iff : (a b : ℤ) → (leb_ℤ a b ≡ true) ↔ (a ≤ℤ b)
leb_ℤ_iff a b = ground arith

same_timeout :
    {t1 : ℤ} {t : Timeout} {w w' : World}
    → ◌≡◌ {A = Run Timeout} (done (record { t1 = t1 }) w) (done t w')
    → (t1 ≡ t.t1) × (w ≡ w')
same_timeout h = ground arith

le_trans : (a b c : ℤ) → a ≤ℤ b → b ≤ℤ c → a ≤ℤ c
le_trans a b c h k = omega arith

-- Whether a shifted end has come.
shifted : (a b d e : ℤ) → e ≡ a +ℤ d → (e ≤ℤ b) ↔ (d ≤ℤ b -ℤ a)
shifted a b d e h = rw h ((λ le. omega int_laws), (λ le. omega int_laws))

-- A timeout of `us` microseconds, which may be negative, is reached exactly if the clock reads at
-- least `us` microseconds more than at its construction; and if the clock does not run backwards, a
-- timeout that is reached is also reached when it is asked again.
reached_lem :
    (us : ℤ) (p : Platform) (w w1 : World) (t : Timeout)
    → Monotone p
    → make_timeout us p w ≡ done t w1
    → (b : Bool) × (reached t p w1 ≡ done b (put_calls w1 Call.clock_now))
      × ((b ≡ true) ↔ (from_microseconds us ≤ℤ reading p w1 -ℤ reading p w))
      × (b ≡ true
          → reached t p (put_calls w1 Call.clock_now)
            ≡ done true (put_calls (put_calls w1 Call.clock_now) Call.clock_now))
unfolding make_timeout reached
reached_lem us p w w1 t mono made =
    let at = sym (same_timeout made).0 in
    let (to, from) = leb_ℤ_iff t.t1 (reading p w1) in
    let (there, back) = shifted (reading p w) (reading p w1) (from_microseconds us) t.t1 at in
    let (_, later) = leb_ℤ_iff t.t1 (reading p (put_calls w1 Call.clock_now)) in
    let step = mono w1 in
    (
      _,
      refl,
      ((λ e. there (to e)), (λ le. from (back le))),
      λ e. rw (later (le_trans t.t1 _ _ (to e) step)),
    )
