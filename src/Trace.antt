-- ===== src/Trace.antt =====
-- include/base/trace.h: `trace`, the macros TRACE_IF_TRUE and TRACE_IF_FALSE, and the log macros.
-- A text that is formatted by the C library or a stream is given as formatted.
pub mod Laws
pub mod Threads
mod Tests
use libpreempt.Prelude.{
  ℕ, Bool, true, false, Option, none, some, [], ◌∷◌, ◌++◌, ◌==◌, if◌then◌else◌,
}
use libpreempt.Machine.{
  M, World, Run, Platform, null_access, Stream, cout, cerr, Call, ◌>>=◌, ◌>>◌, pure, stop, platform,
  call, perform, when,
}
use libpreempt.Text.{Text}

abbrev pub newline : ℕ
newline = 10

-- `*std::strchr(s, '\n') = '\0'`, and what `%s` then prints of `s`; `none` where there is no newline.
unfoldable pub chomp : Text → Option Text
chomp [] = none
chomp (c ∷ cs) =
    let rest = chomp cs in
    if c == newline then some [] else elim rest [ none ↦ none | some t ↦ some (c ∷ t) ]

-- The rest of `trace`, behind the search for the newline.
unfoldable pub put_stamped : Option Text → Text → M (Unit {0})
put_stamped none text = stop null_access
put_stamped (some s) text = do
  perform (Call.output cerr (s ++ 32 ∷ 32 ∷ []))
  perform (Call.output cerr text)
  perform Call.flush_stderr
  perform Call.trace_unlock

-- `trace(fmt, ...)`, with the scoped lock of BASE_STD_GUARD.
unfoldable pub trace : Text → M (Unit {0})
unfolding chomp put_stamped
trace text = do
  perform Call.trace_lock
  now ← call Call.time_now
  p ← platform
  put_stamped (chomp (p.ctime now)) text

-- The format strings of the macros. They have no conversion: the expression, the file and the line
-- are passed, and not printed.
abbrev pub is_true_text : Text
is_true_text =
    b'E' ∷ b'x' ∷ b'p' ∷ b'r' ∷ b'e' ∷ b's' ∷ b's' ∷ b'i' ∷ b'o' ∷ b'n' ∷ 32 ∷ b'i' ∷ b's' ∷ 32
    ∷ b't' ∷ b'r' ∷ b'u' ∷ b'e' ∷ b':' ∷ 32 ∷ []

abbrev pub is_false_text : Text
is_false_text =
    b'E' ∷ b'x' ∷ b'p' ∷ b'r' ∷ b'e' ∷ b's' ∷ b's' ∷ b'i' ∷ b'o' ∷ b'n' ∷ 32 ∷ b'i' ∷ b's' ∷ 32
    ∷ b'f' ∷ b'a' ∷ b'l' ∷ b's' ∷ b'e' ∷ b':' ∷ 32 ∷ []

unfoldable pub trace_if_true : Bool → M (Unit {0})
trace_if_true expr = if expr then trace is_true_text else pure tt

unfoldable pub trace_if_false : Bool → M (Unit {0})
trace_if_false expr = if expr then pure tt else trace is_false_text

-- BASE_LOG_IMPL: the stream that is asked for is not used.
unfoldable pub log : Stream → Text → M (Unit {0})
log stream line = do
  call Call.clock_now
  perform Call.logging_lock
  perform (Call.output cerr line)
  perform Call.logging_unlock

-- BASE_LOG_COUT and BASE_LOG_CERR
unfoldable pub log_cout : Text → M (Unit {0})
unfolding log
log_cout line = log cout line

unfoldable pub log_cerr : Text → M (Unit {0})
unfolding log
log_cerr line = log cerr line
