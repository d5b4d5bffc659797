-- ===== src/Machine/Samples.antt =====
-- Concrete platforms and worlds for the tests.
use libpreempt.Prelude.{true, false, none, some, [], ◌∷◌, pos, negsuc}
use libpreempt.Machine.{Platform, World, Call, sched_other}

-- Linux, a debug build under a debugger; every call returns 0, and threads get the handle 7.
abbrev pub calm : Platform
calm = record {
  linux = true;
  ndebug = false;
  debugger = some (b'1' ∷ []);
  code = λ calls c. pos 0;
  handle = λ calls. 7;
  ctime = λ t. b'T' ∷ b'h' ∷ b'u' ∷ 10 ∷ [];
  scheduling = λ calls h. (sched_other, pos 0);
}

-- Linux without scheduling privileges: a change of the scheduling fails with EPERM (1).
abbrev pub refusing : Platform
refusing = record calm {
  ndebug = true;
  code = λ calls c. elim c [ Call.set_sched_param h policy priority ↦ pos 1 | _ ↦ pos 0 ];
}

-- As `calm`, but writing to /dev/cpu_dma_latency writes 4 bytes and opening it gives descriptor 5.
abbrev pub latency : Platform
latency = record calm {
  code =
      λ calls c. elim c [ Call.open_latency ↦ pos 5 | Call.write_latency fd n ↦ pos 4 | _ ↦ pos 0 ];
}

-- Cygwin: no Linux.
abbrev pub cygwin : Platform
cygwin = record calm { linux = false }

abbrev pub fresh : World
fresh = record {
  calls = [];
  verified = true;
  cpu_dma = negsuc 0;
  num_cores = none;
  preempt_rt = negsuc 0;
}
