-- ===== src/Lib.antt =====
-- Libpreempt: threads, tasks and processes with real-time scheduling under POSIX, in C++.
--
-- The program is a set of headers and two source files. `include/base` holds the general parts: text
-- and sorting helpers, VERIFY and the exits of the process, `base::thread` over the pthread functions,
-- clocks, and questions to the operating system. `include/preempt` builds on it: `preempt::thread`
-- wraps a std::thread and changes its scheduling, the tasks in `task.h` own such threads, and
-- `process.h` locks the memory of the process and asks for a CPU latency. The test programs in `tests`
-- use VERIFY, whose flag decides the exit status.
--
-- The files here and the code they model:
--   Prelude     names, Boolean tests, lists and signed integers that all other files share
--   Machine     what the program runs on: the calls that leave it, the platform that answers them, the
--               world (the trace of the calls and the globals), and runs that return, throw or stop
--   Sort        include/base/algorithm.h: bubble_sort; its result as a function of the multiset of the
--               elements (Sort/Multiset) and its number of swaps (Sort/Inversions), and the same sort with
--               its counters as 32-bit `int` (Sort/Width)
--   Text        include/base/string.h: join, split, sprintf, is_quoted, unquote; the literals of
--               the test programs (Text/Literal)
--   Verify      include/base/verify.h and the flag in src/base.cc: VERIFY, breakpoint, quick_exit,
--               terminate, and VERIFY by several threads at a time (Verify/Threads)
--   Threading   include/base/threading.h: base::thread, try_scheduling, change_scheduling, and the
--               self test tests/base_02_thread.cc (Threading/SelfTest)
--   Thread      include/preempt/thread.h: preempt::thread, any sequence of its operations on any number
--               of objects (Thread/Ownership), the members that it shares with std::thread
--               (Thread/Class), and tests/preempt_04_thread.cc
--   Task        include/preempt/task.h: the interface basic_task (Task/Contract), the templates of
--               mono_task and poly_task over a class of threads (Task/Template), mono_task (Task/Mono),
--               poly_task (Task/Poly, and its spawn called by several threads in Task/Poly/Spawning),
--               critical_task (Task/Critical); tests/task_01_monopoly.cc (Task/Monopoly, over std::thread in
--               Task/Monopoly/Standard), tests/task_02_deadline.cc and tests/task_03_sort.cc with their
--               tasks running at the same time (Task/Critical/Program), how long the first ones sleep
--               (Task/Critical/Program/Sleeping), and what the latter sort
--               (Task/Critical/Sorting)
--   Kernel      include/base/posix.h and src/base.cc: priorities, processors, the kind of the kernel
--   Process     include/preempt/process.h and src/process.cc: memory locks and the CPU latency, for any
--               sequence of requests and resets (Process/Requests), and the interface (Process/Interface)
--   Chrono      include/base/chrono.h: stopwatch, timeout, benchmark, units and timespec
--   Numeric     include/base/numeric.h: rounding, clamp, interval, comparisons up to an epsilon
--   Trace       include/base/trace.h: trace, the TRACE_IF macros and the log macros, also called
--               by several threads (Trace/Threads)
--   Utility     include/base/utility.h: pointer comparisons and casts, optional values; the interfaces of
--               include/base/idioms.h (Utility/Idioms)
--   Parameters  include/base/idioms.h: depends_on, called by any number of threads, with the scoped lock of
--               BASE_STD_GUARD
--   Decrement   tests/preempt_02_fifo.cc and tests/preempt_03_decrement.cc: threads that check the
--               order in which they run; their creation and join (Decrement/Creation, Decrement/Fifo), and
--               the steps of all threads under a scheduler (Decrement/Scheduled)
--   Examples    tests/base_01_main.cc, tests/preempt_01_main.cc, and the programs over std::thread from
--               tests/std_01_thread.cc to tests/std_04_lambda.cc; the thread functions of these programs
--               (Examples/Functions), which run VERIFY while `main` goes on (Examples/Threads)
--   Compiler    include/base/details/cc.h, the target systems of include/base/posix.h,
--               include/standard.h, the headers for the signed warnings (Compiler/Warnings), and the
--               macros that paste tokens (Compiler/Tokens)
--
-- A function of the program is a function of the same name here, in lower case (`stopwatch::stop` is
-- `lap`, and a constructor is `make` or `create`); a member function takes its object and returns the
-- changed one. A function that calls the system runs in `M`: it takes the platform and
-- the world, and returns (`done`), throws std::system_error (`threw`) or ends the process (`stopped`).
-- The answers of the C library, pthread, std::thread and the kernel are the fields of `Platform`, each
-- a function of all the calls made before, so that every theorem holds for all answers that are not
-- excluded by a named hypothesis. The tests of a component, with the theorems at concrete inputs,
-- stand in its module Tests.
--
-- Bounds: texts are byte lists; `size_t` is a number below 2 ^ 64, and its wrap-around is written out
-- where the code subtracts. The loop of `split` runs on fuel, one more than the length of the text,
-- which the theorem on `split` shows to be enough for every text that std::string can hold; the loops
-- of bubble_sort are structural in the rounds that are left, and an `int` that overflows in
-- Sort/Width has no result. Readings of the clock are integers in nanoseconds.
--
-- Where threads of the program run at the same time (Parameters, Verify/Threads, Trace/Threads,
-- Task/Poly/Spawning, Task/Critical/Program, Decrement/Scheduled, Examples/Threads), the threads
-- are numbers below some n, each stands at a program counter, and a step relation takes one thread
-- one step further; a state is reached by any sequence of such steps. In Decrement/Scheduled the
-- scheduler is a parameter, and what the documentation of SCHED_FIFO says of one or of two
-- processors is a named hypothesis.
--
-- Not modelled: the headers that only include others, the abstract scheduler, which does not
-- compile, the class noncopyable of idioms.h, the exception classes of threading.h, which are
-- thrown nowhere, and the formatting of texts. `double` and its operations are parameters; where a
-- theorem relies on them, what it relies on is a named record of laws. Where a program ends by an
-- exception, the destructors on the way are left out.
--
-- What is taken for granted: `lock_` of `depends_on` is declared `mutable`; without it the const member
-- `get_parameters` locks a const std::mutex and does not compile. In Task/Critical/Program the clock does
-- not run backwards, which `high_resolution_clock` does not promise. In Decrement/Fifo each thread runs
-- `decrement` as a whole, one after another in an order that is a parameter, and all have run when the
-- joins are over; Decrement/Scheduled has the interleaved steps. In Task/Monopoly/Program the VERIFYs of the
-- threads stand at the end of `main`, where all of them are joined. In Examples/Functions the system starts
-- and joins every thread.
pub mod Prelude
pub mod Sort
pub mod Text
pub mod Machine
pub mod Verify
pub mod Threading
pub mod Thread
pub mod Task
pub mod Kernel
pub mod Process
pub mod Chrono
pub mod Numeric
pub mod Decrement
pub mod Parameters
pub mod Trace
pub mod Utility
pub mod Compiler
pub mod Examples
