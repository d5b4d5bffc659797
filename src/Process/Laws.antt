-- ===== src/Process/Laws.antt =====
-- The memory locks of src/process.cc, followed along the trace of the calls.
use libpreempt.Prelude.{
  ◌≡◌, refl, Bool, true, false, Bool-cases, inl, inr, not, ◌&&◌, ◌||◌, List, [], ◌∷◌, arith,
}
use libpreempt.Machine.{Platform, World, done, Call, ◌>>◌, succeeded}
use libpreempt.Process.{begin_realtime, end_realtime, lock_all_pages, unlock_all_pages}

-- Whether the calls of a trace have locked the pages of the process.
unfoldable pub locked : Platform → List Call → Bool
locked p [] = false
locked p (c ∷ cs) =
    let before = locked p cs in
    elim c [
      | Call.lock_all ↦ before || succeeded (p.code cs Call.lock_all)
      | Call.unlock_all ↦ before && not (succeeded (p.code cs Call.unlock_all))
      | _ ↦ before
    ]

-- Under Linux `begin_realtime` returns whatever the system answers, also where the pages could not
-- be locked: they are locked afterwards exactly if they were before or `mlockall` succeeded.
pub begin_realtime_lem :
    (p : Platform) (w : World)
    → p.linux ≡ true
    → (w' : World) × (begin_realtime p w ≡ done tt w')
      × (locked p w'.calls
          ≡ (locked p w.calls || succeeded (p.code (Call.unlimit_memlock ∷ w.calls) Call.lock_all)))
unfolding begin_realtime locked
begin_realtime_lem p w l =
    (record w { calls = Call.lock_all ∷ Call.unlimit_memlock ∷ w.calls }, rw l, refl)

-- Under Linux `lock_all_pages` and `unlock_all_pages` report `true` only if the pages are then
-- locked or unlocked, and a failure of either leaves the pages as they were.
pub lock-unlock :
    (p : Platform) (w : World)
    → p.linux ≡ true
    → ((b : Bool) × (w' : World) × (lock_all_pages p w ≡ done b w')
        × (locked p w'.calls ≡ (locked p w.calls || b)))
      × ((b : Bool) × (w' : World) × (unlock_all_pages p w ≡ done b w')
          × (locked p w'.calls ≡ (locked p w.calls && not b)))
unfolding lock_all_pages unlock_all_pages locked
lock-unlock p w l = (
  (_, record w { calls = Call.lock_all ∷ w.calls }, rw l, refl),
  (_, record w { calls = Call.unlock_all ∷ w.calls }, rw l, refl),
)

-- After `begin_realtime` and `end_realtime` the pages are not locked if `munlockall` succeeds, and
-- without Linux neither of the two makes a call.
pub begin-end_realtime :
    (p : Platform) (w : World)
    → (w' : World) × ((begin_realtime >> end_realtime) p w ≡ done tt w')
      × (p.linux ≡ true
          → succeeded (p.code (Call.lock_all ∷ Call.unlimit_memlock ∷ w.calls) Call.unlock_all)
            ≡ true
          → locked p w'.calls ≡ false)
      × (p.linux ≡ false → w' ≡ w)
unfolding begin_realtime end_realtime locked
begin-end_realtime p w = elim (Bool-cases p.linux) [
  | inl l ↦ (
    record w { calls = Call.unlock_all ∷ Call.lock_all ∷ Call.unlimit_memlock ∷ w.calls },
    rw l,
    (λ l' s. rw s (ground arith)),
    (λ l'. absurd (ground arith)),
  )
  | inr l ↦ (w, rw l, (λ l' s. absurd (ground arith)), (λ l'. refl))
]
