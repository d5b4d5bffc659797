-- ===== src/Examples/Handles.antt =====
-- The std::threads of the example programs, where the system starts and joins threads.
use libpreempt.Prelude.{
  ℕ, zero, suc, ◌≡◌, refl, Bool, true, false, not, ◌&&◌, Option, none, some, List, [], ◌∷◌,
  replicate, length, arith,
}
use libpreempt.Machine.{M, Platform, World, done, Call, put_calls}
use libpreempt.Verify.{verify}
use libpreempt.Thread.{owns}
use libpreempt.Thread.Laws.{started}
use libpreempt.Thread.SelfTest.{Serves}
use libpreempt.Task.Template as Template
use libpreempt.Thread.Class.Standard as StdThread
use libpreempt.Task.Monopoly.Standard as Standard
use libpreempt.Task.Monopoly.Counts.{Grew, Grew-zero, Grew-add, Grew-start, Grew-join}
use libpreempt.Examples.{make_each, verify_idle, fill}

abbrev pub all_own : List (Option ℕ) → Bool
all_own [] = true
all_own (t ∷ ts) = owns t && all_own ts

not-true : (b : Bool) → not b ≡ true → b ≡ false
not-true b h = ground arith

module _ {p : Platform} (s : Serves p true) where
  pub makes :
      (f : ℕ) (w : World) → StdThread.make f p w ≡ done (some (p.handle w.calls)) (started w f)
  unfolding StdThread.make
  makes f w = rw (not-true _ (s.starts_all w f)) refl

  pub joins :
      (h : ℕ) (w : World)
      → StdThread.join (some h) p w ≡ done none (put_calls w (Call.thread_join h))
  unfolding StdThread.join
  joins h w = rw (s.joins_all w.calls h) refl

  -- A list of `n` running threads, behind so many starts.
  pub record Made (n : ℕ) (m : M (List (Option ℕ))) (w : World) : Type 0 where
    pub threads : List (Option ℕ)
    pub last : World
    pub runs : m p w ≡ done threads last
    pub own : all_own threads ≡ true
    pub count : length threads ≡ n
    pub grew : Grew n 0 w last

  pub makes_each : (n : ℕ) (w : World) → Made n (make_each n) w
  unfolding make_each
  makes_each zero w = record {
    threads = [];
    last = w;
    runs = refl;
    own = refl;
    count = refl;
    grew = Grew-zero w;
  }
  makes_each (suc n) w =
      let r = makes_each n (started w n) in
      let g = Grew-add (Grew-start n w) r.grew in
      record {
        threads = some (p.handle w.calls) ∷ r.threads;
        last = r.last;
        runs = rw (makes n w, r.runs) refl;
        own = r.own;
        count = omega (arith, r.count);
        grew = record {
          starts = omega (arith, g.starts);
          joins = omega (arith, g.joins);
          verified = g.verified;
        };
      }

  pub fills : (n : ℕ) (w : World) → Made n (fill (replicate n none)) w
  unfolding fill StdThread.assign StdThread.destroy verify
  fills zero w = record {
    threads = [];
    last = w;
    runs = refl;
    own = refl;
    count = refl;
    grew = Grew-zero w;
  }
  fills (suc n) w =
      let r = fills n (started w 2) in
      let g = Grew-add (Grew-start 2 w) r.grew in
      record {
        threads = some (p.handle w.calls) ∷ r.threads;
        last = r.last;
        runs = rw (makes 2 w, r.runs) refl;
        own = r.own;
        count = omega (arith, r.count);
        grew = record {
          starts = omega (arith, g.starts);
          joins = omega (arith, g.joins);
          verified = g.verified;
        };
      }

  pub joins_each :
      (ts : List (Option ℕ)) (w : World)
      → all_own ts ≡ true
      → (w' : World) × (Standard.poly_join ts p w ≡ done (replicate (length ts) none) w')
        × Grew 0 (length ts) w w'
  unfolding Template.poly_join
  joins_each [] w a = (w, refl, Grew-zero w)
  joins_each (none ∷ ts) w a = absurd (ground (arith, a))
  joins_each (some h ∷ ts) w a =
      let (w', e, g) = joins_each ts (put_calls w (Call.thread_join h)) a in
      let both = Grew-add (Grew-join h w) g in
      (
        w',
        rw (joins h w, e) refl,
        record {
          starts = omega (arith, both.starts);
          joins = omega (arith, both.joins);
          verified = both.verified;
        },
      )

pub destroys :
    (n : ℕ) (p : Platform) (w : World) → Standard.destroy_all (replicate n none) p w ≡ done tt w
unfolding Template.destroy_all StdThread.destroy
destroys zero p w = refl
destroys (suc n) p w = destroys n p w

pub idles : (n : ℕ) (p : Platform) (w : World) → verify_idle (replicate n none) p w ≡ done tt w
unfolding verify_idle verify
idles zero p w = refl
idles (suc n) p w = idles n p w
