-- ===== src/Process/Latency.antt =====
-- The descriptor of /dev/cpu_dma_latency, which the trace of the calls follows.
use libpreempt.Prelude.{
  ◌≡◌, refl, ℕ, Bool, true, false, Bool-cases, inl, inr, not, ◌&&◌, ◌∙◌, sym, ap, List, [], ◌∷◌, ℤ,
  pos, eqb_ℤ, ltb_ℤ, if◌then◌else◌, arith,
}
use libpreempt.Machine.{
  Platform, World, Run, done, stopped, exit_failure, Message, Call, ◌>>◌, put_calls,
}
use libpreempt.Process.{minus_one, reset_cpu_latency, request_cpu_latency}

abbrev remove : ℤ → List ℤ → List ℤ
remove fd [] = []
remove fd (x ∷ xs) = let rest = remove fd xs in if eqb_ℤ fd x then xs else x ∷ rest

-- The descriptors that the calls of a trace have left open, the newest first.
pub open_fds : Platform → List Call → List ℤ
open_fds p [] = []
open_fds p (c ∷ cs) =
    let before = open_fds p cs in
    elim c [
      | Call.open_latency ↦
          if eqb_ℤ (p.code cs Call.open_latency) minus_one
          then before
          else p.code cs Call.open_latency ∷ before
      | Call.close fd ↦ remove fd before
      | _ ↦ before
    ]

-- What the three system calls of a request answer.
abbrev pub found : Platform → World → Bool
found p w = not (eqb_ℤ (p.code w.calls Call.stat_latency) minus_one)

abbrev pub descriptor : Platform → World → ℤ
descriptor p w = p.code (Call.stat_latency ∷ w.calls) Call.open_latency

abbrev pub opened : Platform → World → Bool
opened p w = not (eqb_ℤ (descriptor p w) minus_one)

abbrev pub unwritten : ℕ → Platform → World → Bool
unwritten c p w =
    ltb_ℤ
      (p.code (Call.open_latency ∷ Call.stat_latency ∷ w.calls)
        (Call.write_latency (descriptor p w) c))
      (pos 1)

abbrev pub granted : ℕ → Platform → World → Bool
granted c p w = found p w && opened p w && not (unwritten c p w)

pub eqb_self : (x : ℤ) → eqb_ℤ x x ≡ true
eqb_self x = ground arith

is_minus_one : (x : ℤ) → eqb_ℤ x minus_one ≡ true → x ≡ minus_one
is_minus_one x h = ground arith

-- The worlds behind the system calls.
abbrev stat_done : World → World
stat_done w = put_calls w Call.stat_latency

abbrev open_done : ℤ → World → World
open_done fd w = record (put_calls (stat_done w) Call.open_latency) { cpu_dma = fd }

abbrev write_done : ℕ → ℤ → World → World
write_done c fd w = put_calls (open_done fd w) (Call.write_latency fd c)

abbrev write_undone : ℕ → ℤ → World → World
write_undone c fd w = put_calls (write_done c fd w) (Call.perror Message.write_latency_failed)

-- The world behind the release of a kept descriptor.
abbrev closed : World → World
closed w = record (put_calls w (Call.close w.cpu_dma)) { cpu_dma = minus_one }

reset_kept :
    (p : Platform) (w : World)
    → p.linux ≡ true
    → eqb_ℤ w.cpu_dma minus_one ≡ false
    → reset_cpu_latency p w ≡ done tt (closed w)
unfolding reset_cpu_latency
reset_kept p w l e = rw (l, e)

reset_free :
    (p : Platform) (w : World)
    → eqb_ℤ w.cpu_dma minus_one ≡ true
    → reset_cpu_latency p w ≡ done tt w
unfolding reset_cpu_latency
reset_free p w e = elim (Bool-cases p.linux) [ inl l ↦ rw (l, e) | inr l ↦ rw l ]

-- Under Linux a request returns exactly if the three system calls succeed, and ends the process
-- with EXIT_FAILURE if one fails. Where it returns, one more descriptor is open, and it is the one
-- that is kept; where it fails, no descriptor is left open that was not open before, and none is
-- kept, but for a failure of `stat`, which leaves the kept descriptor as it was.
pub request_cpu_latency_lem :
    (c : ℕ) (p : Platform) (w : World)
    → p.linux ≡ true
    → (w' : World) × (request_cpu_latency c p w
        ≡ (if granted c p w then done tt w' else stopped exit_failure w'))
      × (w'.cpu_dma
          ≡ (if granted c p w then descriptor p w else if found p w then minus_one else w.cpu_dma))
      × (open_fds p w'.calls
          ≡ (if granted c p w then descriptor p w ∷ open_fds p w.calls else open_fds p w.calls))
unfolding request_cpu_latency open_fds
request_cpu_latency_lem c p w l =
    elim (Bool-cases (eqb_ℤ (p.code w.calls Call.stat_latency) minus_one)) [
      | inl s ↦
          (put_calls (stat_done w) (Call.perror Message.stat_latency_failed), rw (l, s), rw s, rw s)
      | inr s ↦ elim (Bool-cases (eqb_ℤ (descriptor p w) minus_one)) [
        | inl o ↦ (
          put_calls (open_done (descriptor p w) w) (Call.perror Message.open_latency_failed),
          rw (l, s, o),
          rw (s, o, is_minus_one (descriptor p w) o),
          rw (s, o),
        )
        | inr o ↦ elim (Bool-cases (unwritten c p w)) [
          | inl g ↦ (
            closed (write_undone c (descriptor p w) w),
            simp (l, s, o, g),
            rw (s, o, g),
            rw (s, o, g, eqb_self (descriptor p w)),
          )
          | inr g ↦ (write_done c (descriptor p w) w, rw (l, s, o, g), rw (s, o, g), rw (s, o, g))
        ]
      ]
    ]

-- Under Linux a reset always returns, keeps no descriptor, and closes exactly the one kept before.
pub reset_cpu_latency_lem :
    (p : Platform) (w : World)
    → p.linux ≡ true
    → (w' : World) × (reset_cpu_latency p w ≡ done tt w')
      × (w'.cpu_dma ≡ minus_one)
      × (open_fds p w'.calls ≡ (
          if eqb_ℤ w.cpu_dma minus_one
          then open_fds p w.calls
          else remove w.cpu_dma (open_fds p w.calls)))
unfolding open_fds
reset_cpu_latency_lem p w l = elim (Bool-cases (eqb_ℤ w.cpu_dma minus_one)) [
  | inl e ↦ (w, reset_free p w e, is_minus_one w.cpu_dma e, rw e)
  | inr e ↦ (closed w, reset_kept p w l e, refl, rw e)
]

-- A second reset does nothing, on every platform.
pub reset-reset :
    (p : Platform) (w : World)
    → (reset_cpu_latency >> reset_cpu_latency) p w ≡ reset_cpu_latency p w
unfolding reset_cpu_latency
reset-reset p w = elim (Bool-cases p.linux) [
  | inl l ↦ elim (Bool-cases (eqb_ℤ w.cpu_dma minus_one)) [
    | inl e ↦ simp (reset_free p w e)
    | inr e ↦ simp (reset_kept p w l e, reset_free p (closed w) refl)
  ]
  | inr l ↦ rw l
]

pub opened_of : (f o u : Bool) → f && not o && not u ≡ true → o ≡ false
opened_of f o u h = ground arith

-- A granted request, without the conditionals.
pub request_granted :
    (c : ℕ) (p : Platform) (w : World)
    → p.linux ≡ true
    → granted c p w ≡ true
    → (w' : World) × (request_cpu_latency c p w ≡ done tt w')
      × (w'.cpu_dma ≡ descriptor p w)
      × (open_fds p w'.calls ≡ descriptor p w ∷ open_fds p w.calls)
request_granted c p w l g =
    let (w', runs, kept, fds) = request_cpu_latency_lem c p w l in
    (
      w',
      runs ∙ ap (λ b. if b then done tt w' else stopped exit_failure w') g,
      kept ∙ ap (λ b. if b then descriptor p w else if found p w then minus_one else w.cpu_dma) g,
      fds ∙ ap (λ b. if b then descriptor p w ∷ open_fds p w.calls else open_fds p w.calls) g,
    )

-- Under Linux a request that is granted and then reset runs to its end and leaves the descriptors
-- open that were open before, and none kept.
pub request-reset :
    (c : ℕ) (p : Platform) (w : World)
    → p.linux ≡ true
    → granted c p w ≡ true
    → (w' : World) × ((request_cpu_latency c >> reset_cpu_latency) p w ≡ done tt w')
      × (w'.cpu_dma ≡ minus_one)
      × (open_fds p w'.calls ≡ open_fds p w.calls)
request-reset c p w l g =
    let (w1, runs, kept, fds) = request_granted c p w l g in
    let o = opened_of (found p w) (eqb_ℤ (descriptor p w) minus_one) (unwritten c p w) g in
    let (w2, rest, none_kept, closes) = reset_cpu_latency_lem p w1 l in
    (w2, rw (runs, rest), none_kept, closes ∙ rw (kept, fds, o, eqb_self (descriptor p w)))

same_world : {w w' : World} → ◌≡◌ {A = Run (Unit {0})} (done tt w) (done tt w') → w ≡ w'
same_world h = ground arith

-- Under Linux two granted requests in a row, then reset, leave the first one's descriptor open and
-- none kept: the second request loses it.
pub request-request :
    (c d : ℕ) (p : Platform) (w w1 : World)
    → p.linux ≡ true
    → granted c p w ≡ true
    → request_cpu_latency c p w ≡ done tt w1
    → granted d p w1 ≡ true
    → (w' : World) × ((request_cpu_latency d >> reset_cpu_latency) p w1 ≡ done tt w')
      × (w'.cpu_dma ≡ minus_one)
      × (open_fds p w'.calls ≡ descriptor p w ∷ open_fds p w.calls)
request-request c d p w w1 l g run g1 =
    let (w1', runs, kept, fds) = request_granted c p w l g in
    let (w', rest, none_kept, same) = request-reset d p w1 l g1 in
    (w', rest, none_kept, same ∙ ap (λ x. open_fds p x.calls) (same_world (sym run ∙ runs)) ∙ fds)
