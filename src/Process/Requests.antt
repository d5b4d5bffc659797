-- ===== src/Process/Requests.antt =====
-- Any sequence of `request_CPU_latency` and `reset_CPU_latency` (src/process.cc), and the descriptors
-- that it leaves open.
use libpreempt.Prelude.{
  ℕ, ◌+◌, ◌≡◌, refl, ap, ◌∙◌, Bool, true, false, not, List, [], ◌∷◌, length, ℤ, eqb_ℤ,
  if◌then◌else◌, arith,
}
use libpreempt.Machine.{M, Platform, World, done, ◌>>◌, pure}
use libpreempt.Process.{minus_one, reset_cpu_latency, request_cpu_latency}
use libpreempt.Process.Latency.{
  open_fds, granted, found, descriptor, unwritten, eqb_self, opened_of, request_granted,
  reset_cpu_latency_lem,
}

pub data Op : Type 0 where
  request : ℕ → Op
  reset : Op

pub run_each : List Op → M (Unit {0})
run_each [] = pure tt
run_each (request c ∷ ops) = do request_cpu_latency c; run_each ops
run_each (reset ∷ ops) = do reset_cpu_latency; run_each ops

-- Whether the last of the calls is a request; `b` is the answer if there is none.
abbrev pub requested : Bool → List Op → Bool
requested b [] = b
requested b (request c ∷ ops) = requested true ops
requested b (reset ∷ ops) = requested false ops

-- How many requests follow a request directly.
abbrev pub repeated : Bool → List Op → ℕ
repeated b [] = 0
repeated b (request c ∷ ops) = (if b then 1 else 0) + repeated true ops
repeated b (reset ∷ ops) = repeated false ops

-- The kept descriptor, if any, is open, and `lost` are the others.
abbrev Kept : Platform → World → Bool → List ℤ → Type 0
Kept p w true lost = (eqb_ℤ w.cpu_dma minus_one ≡ false) × (open_fds p w.calls ≡ w.cpu_dma ∷ lost)
Kept p w false lost = (w.cpu_dma ≡ minus_one) × (open_fds p w.calls ≡ lost)

-- The system grants every request.
abbrev pub Grants : Platform → Type 0
Grants p = (c : ℕ) (w : World) → granted c p w ≡ true

valid :
    (c : ℕ) (p : Platform) (w : World)
    → granted c p w ≡ true
    → eqb_ℤ (descriptor p w) minus_one ≡ false
valid c p w g = opened_of (found p w) (eqb_ℤ (descriptor p w) minus_one) (unwritten c p w) g

requests :
    (b : Bool) (c : ℕ) (p : Platform) (w : World) (lost : List ℤ)
    → p.linux ≡ true
    → Grants p
    → Kept p w b lost
    → (w' : World) × (lost' : List ℤ) × (request_cpu_latency c p w ≡ done tt w')
      × Kept p w' true lost'
      × (length lost' ≡ length lost + (if b then 1 else 0))
requests true c p w lost l g k =
    let (w', runs, kept, fds) = request_granted c p w l (g c w) in
    (
      w',
      w.cpu_dma ∷ lost,
      runs,
      (ap (λ x. eqb_ℤ x minus_one) kept ∙ valid c p w (g c w), fds ∙ rw (kept, k.1) refl),
      omega arith,
    )
requests false c p w lost l g k =
    let (w', runs, kept, fds) = request_granted c p w l (g c w) in
    (
      w',
      lost,
      runs,
      (ap (λ x. eqb_ℤ x minus_one) kept ∙ valid c p w (g c w), fds ∙ rw (kept, k.1) refl),
      omega arith,
    )

resets :
    (b : Bool) (p : Platform) (w : World) (lost : List ℤ)
    → p.linux ≡ true
    → Kept p w b lost
    → (w' : World) × (reset_cpu_latency p w ≡ done tt w') × Kept p w' false lost
resets true p w lost l k =
    let (w', runs, none_kept, fds) = reset_cpu_latency_lem p w l in
    (w', runs, (none_kept, fds ∙ rw (k.0, k.1, eqb_self w.cpu_dma) refl))
resets false p w lost l k =
    let (w', runs, none_kept, fds) = reset_cpu_latency_lem p w l in
    (w', runs, (none_kept, fds ∙ rw k.0 k.1))

runs_all :
    (ops : List Op) (b : Bool) (p : Platform) (w : World) (lost : List ℤ)
    → p.linux ≡ true
    → Grants p
    → Kept p w b lost
    → (w' : World) × (lost' : List ℤ) × (run_each ops p w ≡ done tt w')
      × Kept p w' (requested b ops) lost'
      × (length lost' ≡ length lost + repeated b ops)
unfolding run_each
runs_all [] b p w lost l g k = (w, lost, refl, k, omega arith)
runs_all (request c ∷ ops) b p w lost l g k =
    let (w1, lost1, runs, kept, count) = requests b c p w lost l g k in
    let (w2, lost2, rest, last, more) = runs_all ops true p w1 lost1 l g kept in
    (w2, lost2, rw (runs, rest) refl, last, omega (arith, count, more))
runs_all (reset ∷ ops) b p w lost l g k =
    let (w1, runs, kept) = resets b p w lost l k in
    let (w2, lost2, rest, last, more) = runs_all ops false p w1 lost l g kept in
    (w2, lost2, rw (runs, rest) refl, last, more)

count_open :
    (b : Bool) (p : Platform) (w : World) (lost : List ℤ)
    → Kept p w b lost
    → (eqb_ℤ w.cpu_dma minus_one ≡ not b)
      × (length (open_fds p w.calls) ≡ length lost + (if b then 1 else 0))
count_open true p w lost k = (k.0, rw k.1 (omega arith))
count_open false p w lost k = (rw k.0 refl, rw k.1 (omega arith))

-- Under Linux, where the system grants every request, any sequence of requests and resets that starts
-- without a kept descriptor runs to its end. A descriptor is kept then exactly if the last call was a
-- request. Besides the kept one, each request that directly follows another leaves one descriptor open
-- for good; apart from these every opened descriptor is closed.
pub run_each_lem :
    (ops : List Op) (p : Platform) (w : World)
    → p.linux ≡ true
    → Grants p
    → w.cpu_dma ≡ minus_one
    → (w' : World) × (run_each ops p w ≡ done tt w')
      × (eqb_ℤ w'.cpu_dma minus_one ≡ not (requested false ops))
      × (length (open_fds p w'.calls)
          ≡ length (open_fds p w.calls)
            + repeated false ops
            + (if requested false ops then 1 else 0))
run_each_lem ops p w l g e =
    let (w', lost, runs, kept, count) = runs_all ops false p w (open_fds p w.calls) l g (e, refl) in
    let (last, left) = count_open (requested false ops) p w' lost kept in
    (w', runs, last, rw (left, count) refl)
