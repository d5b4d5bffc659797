-- ===== src/Trace/Laws.antt =====
-- What the functions and macros of include/base/trace.h print.
use libpreempt.Prelude.{
  ◌≡◌, refl, ◌∙◌, ap, Bool, true, false, ℤ, none, some, List, [], ◌∷◌, ◌++◌, if◌then◌else◌, arith,
}
use libpreempt.Machine.{Platform, World, done, stopped, null_access, Stream, cout, cerr, Call, ◌>>◌}
use libpreempt.Text.{Text}
use libpreempt.Text.Fields.{IsFree}
use libpreempt.Trace.{
  newline, chomp, put_stamped, trace, is_true_text, is_false_text, trace_if_true, trace_if_false,
  log_cout, log_cerr,
}

-- What has been put out on a stream, newest first.
pub printed : Stream → List Call → List Text
printed s [] = []
printed s (c ∷ calls) =
    let before = printed s calls in
    elim c [
      | Call.output cout t ↦ elim s [ cout ↦ t ∷ before | cerr ↦ before ]
      | Call.output cerr t ↦ elim s [ cout ↦ before | cerr ↦ t ∷ before ]
      | _ ↦ before
    ]

chomp-line : (day rest : Text) → IsFree newline day → chomp (day ++ newline ∷ rest) ≡ some day
unfolding chomp
chomp-line [] rest h = refl
chomp-line (c ∷ day) rest h = ground (arith, chomp-line day rest h.1)

chomp-free : (s : Text) → IsFree newline s → chomp s ≡ none
unfolding chomp
chomp-free [] h = refl
chomp-free (c ∷ s) h = ground (arith, chomp-free s h.1)

-- The text of the time that `trace` asks for.
abbrev pub stamp : Platform → World → Text
stamp p w = p.ctime (p.code (Call.trace_lock ∷ w.calls) Call.time_now)

abbrev pub spaces : Text
spaces = 32 ∷ 32 ∷ []

abbrev pub traced : Text → Text → World → World
traced day text w = record w {
  calls =
      Call.trace_unlock
      ∷ Call.flush_stderr
      ∷ Call.output cerr text
      ∷ Call.output cerr (day ++ spaces)
      ∷ Call.time_now
      ∷ Call.trace_lock
      ∷ w.calls;
}

-- Where the text of the time has a newline, `trace` puts out on stderr what stands before it, two
-- spaces, and its own text, all between the lock and the unlock of its mutex. Without a newline it
-- writes through a null pointer, with the mutex locked and nothing put out.
trace_lem :
    (text day rest : Text) (p : Platform) (w : World)
    → (IsFree newline day
        → stamp p w ≡ day ++ newline ∷ rest
        → trace text p w ≡ done tt (traced day text w))
      × (IsFree newline (stamp p w)
          → trace text p w
            ≡ stopped null_access (record w { calls = Call.time_now ∷ Call.trace_lock ∷ w.calls }))
unfolding trace put_stamped
trace_lem text day rest p w =
    (λ h e. rw (ap chomp e ∙ chomp-line day rest h), λ h. rw (chomp-free (stamp p w) h))

-- `std::ctime` as the C standard has it: the text ends with its only newline.
abbrev pub IsDated : Platform → Type 0
IsDated p = (t : ℤ) → (day : Text) × IsFree newline day × (p.ctime t ≡ day ++ newline ∷ [])

-- Of the two macros exactly one traces, and only what it found: the texts on stderr do not contain
-- the expression, and nothing is put out on stdout.
pub trace_if-printed :
    (expr : Bool) (p : Platform) (w : World)
    → IsDated p
    → (day : Text) × (w' : World) × (stamp p w ≡ day ++ newline ∷ [])
      × ((trace_if_true expr >> trace_if_false expr) p w ≡ done tt w')
      × (printed cerr w'.calls
          ≡ (if expr then is_true_text else is_false_text) ∷ (day ++ spaces) ∷ printed cerr w.calls)
      × (printed cout w'.calls ≡ printed cout w.calls)
unfolding trace_if_true trace_if_false printed
trace_if-printed true p w d =
    let (day, free, e) = d (p.code (Call.trace_lock ∷ w.calls) Call.time_now) in
    (
      day,
      traced day is_true_text w,
      e,
      rw ((trace_lem is_true_text day [] p w).0 free e),
      refl,
      refl,
    )
trace_if-printed false p w d =
    let (day, free, e) = d (p.code (Call.trace_lock ∷ w.calls) Call.time_now) in
    (day, traced day is_false_text w, e, (trace_lem is_false_text day [] p w).0 free e, refl, refl)

-- Both log macros make the same calls: also that for `std::cout` puts its line out on `std::cerr`,
-- and nothing on `std::cout`.
pub log-printed :
    (line : Text) (p : Platform) (w : World)
    → (log_cout line p w ≡ log_cerr line p w)
      × ((w' : World) × (log_cout line p w ≡ done tt w')
          × (printed cerr w'.calls ≡ line ∷ printed cerr w.calls)
          × (printed cout w'.calls ≡ printed cout w.calls))
unfolding log_cout log_cerr printed
log-printed line p w = (refl, (_, refl, refl, refl))
