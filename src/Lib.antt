-- ===== src/Lib.antt =====
-- Verification of tragach, four eBPF tracers for the Firebird database server. Each tracer is a BPF
-- program, whose probes fire on calls of the traced server and on kernel tracepoints and keep their
-- state in BPF maps, and a userspace program that reads its ring buffer or its maps and prints lines.
--
-- Prelude, Prelude/*: Boolean tests, lists over native numbers, texts, printed numbers, results and
--   handlers. A handler is a function from the maps to a result and the maps; an early return keeps
--   the writes made before.
-- Kernel: the BPF maps, the ring buffer and what a probe reads of its context. That code is not in
--   the repository; it enters as records of operations with the documented laws. An insertion may
--   fail, an LRU map may evict any other entry, and a ring may have no room. Kernel/Bounded
--   implements the records at small capacities, Kernel/Entries has predicates on all entries.
-- Event, Event/Layout: crates/tragach-common/src/event.rs, the records and their bytes.
-- SlowQuery: the maps of crates/tragach-slowquery/src/bpf/main.rs; SlowQuery/Probes: its probe
--   bodies, one handler for each Rust function of the same name, `fire` for the probes themselves and
--   `run` for a sequence of them. SlowQuery/Rules and Bodies carry an invariant through every probe,
--   given rules for captured texts, statements, executions, cursors and events; WellFormed and
--   Provenance are two sets of rules. Frames, Executions and Cursors are about single spans, with
--   Expected for their events, Text about the SQL text. SlowQuery/Userspace: crates/tragach-slowquery/src/main.rs, `decode_event`,
--   the loop over the ring and `write_json`; Decoding, Ids and Dropped are about them.
-- RingLoop: the loop that `run_event_loop` of slowquery and of attach share, with Ctrl-C, wake-ups,
--   and writes that fail; SlowQuery/Session and Attach/Session: the two functions;
--   SlowQuery/Main and Attach/Main: the start and the loop together.
-- Human: durations as the tracers print them; SlowQuery/Human, Attach/Human, PageIo/Human and
--   IoWait/Human: the lines for people.
-- Attach, Attach/*: crates/tragach-attach/src/bpf/main.rs and crates/tragach-attach/src/main.rs;
--   Attach/WellFormed: the widths of the events' fields.
-- PageIo: crates/tragach-pageio/src/bpf/main.rs; PageIo/Userspace, Windows, Ledger:
--   crates/tragach-pageio/src/main.rs; PageIo/Requests, Fetches: the spans of a block request and of
--   a page fetch; PageIo/Session: the event loop; PageIo/Main: the start
--   and the loop together; PageIo/Averages: averages and maxima.
-- IoWait: crates/tragach-iowait/src/bpf/main.rs; IoWait/Spans: the span of a sleeping thread;
--   IoWait/Classify: crates/tragach-iowait/src/classify.rs; IoWait/Kallsyms and its children:
--   crates/tragach-iowait/src/kallsyms.rs; IoWait/Windows, Drain, Amid: `flush_window` of
--   crates/tragach-iowait/src/main.rs, what it reports and what it does to the map; IoWait/Ledger: the
--   spans of the BPF program, without its maps; IoWait/Session: the event loop, with Accounts for its
--   sums; IoWait/Main: the start and the loop together; IoWait/Interleaved: wakeups on several CPUs, whose operations on the maps interleave.
-- Startup: `main` of the four tracers up to the event loop. What they share, a step that fails or
--   goes on and a log of effects, is in Startup, the four programs in Startup/Tracers. Attaching has
--   rules for the effects of a start, Outcomes for its failing and succeeding, Gives for its result;
--   Order, Runs, Willing and Pid are about the programs.
-- Build: crates/tragach-slowquery/build.rs and its copies; Build/Objects: their `main` functions and
--   the objects that the tracers include.
-- Xtask: xtask/src/main.rs; Xtask/Sorting, Artifact: the symbol tables that it writes.
-- Symbols, Symbols/Targets: symbols.rs of crates/tragach-slowquery/src, crates/tragach-attach/src and
--   crates/tragach-pageio/src, one loop with three chains of prefix tests; Symbols/Unique and Complete
--   are about it.
-- Tests, Tests/*: the theorems at concrete runs.
--
-- Numbers are natural numbers with the wrap-around of machine words written out; an i32 stack id is
-- its 32-bit pattern. A saturating subtraction is the subtraction of natural numbers. Probes run one
-- after the other: a run is a list, on any threads and CPUs, but a probe is not interrupted by
-- another one, except in IoWait/Interleaved and IoWait/Amid. No function needs fuel but the printing of numbers, which has 20 decimal or 16
-- hexadecimal digits, the most that a 64-bit number has.
--
-- Not modelled: the wall clock, floating-point numbers (their printing and the idle threshold of
-- iowait are arguments), UTF-8 decoding (a parameter), the texts of errors and log lines, and the
-- parsing of the command line. Ctrl-C and failing writes are inputs of the event loops.
pub mod Attach
pub mod Build
pub mod Event
pub mod Human
pub mod IoWait
pub mod Kernel
pub mod PageIo
pub mod Prelude
pub mod RingLoop
pub mod SlowQuery
pub mod Startup
pub mod Symbols
pub mod Tests
pub mod Xtask
