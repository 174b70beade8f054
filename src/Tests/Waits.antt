-- ===== src/Tests/Waits.antt =====
-- Sleeps and windows of iowait, crates/tragach-iowait/src/bpf/main.rs and
-- crates/tragach-iowait/src/main.rs.
use mathlib.Core.Option.{get_or}
use native.Mathlib.Decide.{ℕ_discrete}
use tragach.IoWait
use tragach.IoWait.{StartInfo, BucketKey, sched_switch, sched_wakeup}
use tragach.IoWait.Classify.Meaning.{Means, classify-Means}
use tragach.IoWait.Classify.{block_io, sched_delay, classify}
use tragach.IoWait.Kallsyms.{Sym}
use tragach.IoWait.Spans.{off_cpu-span}
use tragach.IoWait.Windows.{Bucket, aggregate, elem}
use tragach.IoWait.Windows.Totals.{
  aggregate-reason, aggregate-threads, reason_ns, Distinct, seen, pids, total,
}
use tragach.Kernel.Bounded.{Assoc, insert, remove, bounded_hash}
use tragach.Prelude.{
  ℕ, ◌+◌, ◌%◌, ◌-◌, ◌^◌, ◌≡◌, ◌↔◌, refl, min, some, none, Option, List, [], ◌∷◌, ◌++◌, arith,
}
use tragach.IoWait.Session.{loop, ticks, AreReports, running, loop-spans, Runs}
use tragach.IoWait.{Probe}
use tragach.IoWait.Interleaved.{operate, step, steps, AllFinished}
use tragach.IoWait.Interleaved.Serial.{interleaved, interleaved-run, probes}
use tragach.IoWait.Drain.{remove_all}
use tragach.Kernel.Bounded.{get}
use tragach.Prelude.{false}
use tragach.Tests.Others.{bucket, bucket_key_discrete, hash}
use tragach.Tests.Windows.{iter, listed}

-- Thread 9 of process 7 sleeps, with stack 3.
abbrev sched_context : (t : ℕ) → IoWait.Context
sched_context t = record {
  read_at = λ i. some 9;
  ktime_ns = t;
  pid_tgid = 30064771077;
  get_stackid = some 3;
}

abbrev pub awake : IoWait.Maps (Assoc ℕ_discrete) (Assoc bucket_key_discrete)
awake = record { target_tgid = some 7; start = []; buckets = [] }

off_cpu-span_example :
    let s' =
      IoWait.run ⦃hash = hash⦄ ⦃bucket = bucket⦄ []
        (IoWait.fire ⦃hash = hash⦄ ⦃bucket = bucket⦄ (sched_switch (sched_context 100)) awake) in
    let s'' = IoWait.fire ⦃hash = hash⦄ ⦃bucket = bucket⦄ (sched_wakeup (sched_context 130)) s' in
    (bucket.get s''.buckets (record { pid = 9; stack_id = 3 })
      ≡ some ((get_or (bucket.get s'.buckets (record { pid = 9; stack_id = 3 })) 0 + 30) % 2 ^ 64))
    × (hash.get s''.start 9 ≡ none)
unfolding bounded_hash insert remove IoWait.run IoWait.fire IoWait.try_sched_switch IoWait.stack_of
off_cpu-span_example =
    off_cpu-span ⦃hash = hash⦄ ⦃bucket = bucket⦄ awake (sched_context 100) (sched_context 130) [] 9
      9 refl refl refl refl refl tt refl (omega arith) refl

-- "schedule" and "blk_x".
abbrev schedule : List ℕ
schedule = 115 ∷ 99 ∷ 104 ∷ 101 ∷ 100 ∷ 117 ∷ 108 ∷ 101 ∷ []

abbrev blk : List ℕ
blk = 98 ∷ 108 ∷ 107 ∷ 95 ∷ 120 ∷ []

classify-Means_example :
    (classify (schedule ∷ blk ∷ []) ≡ block_io) ↔ Means (schedule ∷ blk ∷ []) block_io
classify-Means_example = classify-Means (schedule ∷ blk ∷ []) block_io

abbrev table : List Sym
table = record { addr = 100; name = schedule } ∷ record { addr = 200; name = blk } ∷ []

abbrev pub stacks : ℕ → Option (List ℕ)
stacks i = some (150 ∷ [])

abbrev buckets : List Bucket
buckets =
    record { key = record { pid = 9; stack_id = 3 }; ns = 30 }
    ∷ record { key = record { pid = 9; stack_id = 4 }; ns = 12 }
    ∷ []

aggregate-reason_example :
    total (aggregate table stacks (λ _. none) buckets sched_delay)
    ≡ min (reason_ns table stacks sched_delay buckets) (2 ^ 64 - 1)
aggregate-reason_example = aggregate-reason table stacks sched_delay buckets

aggregate-threads_example :
    Distinct (pids (aggregate table stacks (λ _. none) buckets sched_delay))
    × (elem 9 (pids (aggregate table stacks (λ _. none) buckets sched_delay))
        ≡ seen table stacks 9 sched_delay buckets)
aggregate-threads_example = aggregate-threads table stacks sched_delay 9 buckets

-- Two of three stacks fit the list, and a bucket of 50 ns is above the threshold.
abbrev more_buckets : List Bucket
more_buckets =
    record { key = record { pid = 8; stack_id = 3 }; ns = 5 }
    ∷ record { key = record { pid = 8; stack_id = 5 }; ns = 40 }
    ∷ record { key = record { pid = 8; stack_id = 6 }; ns = 50 }
    ∷ buckets

-- One sleep of one thread: from the switch to its wakeup.
abbrev slept : (off on : ℕ) → List Probe
slept off on = sched_switch (sched_context off) ∷ sched_wakeup (sched_context on) ∷ []

-- The second sleep lasts over a tick.
abbrev pub groups : List (List Probe)
groups =
    (slept 100 2000100 ++ (sched_switch (sched_context 3000000) ∷ []))
    ∷ (sched_wakeup (sched_context 8000000) ∷ [])
    ∷ []

pub groups-Runs : Runs ⦃hash = hash⦄ ⦃bucket = bucket⦄ iter groups awake
unfolding bounded_hash insert remove get IoWait.run IoWait.fire IoWait.try_sched_switch
    IoWait.stack_of iter remove_all bucket_key_discrete ℕ_discrete
groups-Runs = (
  listed ((record { pid = 9; stack_id = 3 }, 2000000) ∷ []),
  (refl, (refl, (refl, tt))),
  refl,
  omega arith,
  (listed ((record { pid = 9; stack_id = 3 }, 5000000) ∷ []), (refl, tt), refl, omega arith, tt),
)

loop-spans_example :
    let (windows, ending) =
      loop ⦃hash = hash⦄ ⦃bucket = bucket⦄ iter table stacks 1000 7 5 false 0 awake
        (ticks groups) in
    AreReports table stacks 1000 7 (some 7) (λ t. none) groups windows × (ending ≡ running)
unfolding bounded_hash get
loop-spans_example =
    loop-spans ⦃hash = hash⦄ ⦃bucket = bucket⦄ iter table stacks 1000 7 5 0 groups awake (λ k. refl)
      groups-Runs

-- Threads 9 and 8 sleep with the same stack, and wake up at once.
abbrev asleep : IoWait.Maps (Assoc ℕ_discrete) (Assoc bucket_key_discrete)
asleep = record {
  target_tgid = some 7;
  start =
      (9, record { ts_ns = 100; stack_id = 3 }) ∷ (8, record { ts_ns = 110; stack_id = 3 }) ∷ [];
  buckets = [];
}

abbrev wakeup_context : (pid t : ℕ) → IoWait.Context
wakeup_context pid t = record {
  read_at = λ i. some pid;
  ktime_ns = t;
  pid_tgid = 30064771077;
  get_stackid = none;
}

abbrev wakeups : List (ℕ × IoWait.Context)
wakeups = (9, wakeup_context 9 130) ∷ (8, wakeup_context 8 131) ∷ []

abbrev turns_taken : List ℕ
turns_taken = 9 ∷ 8 ∷ 8 ∷ 9 ∷ 9 ∷ 8 ∷ 8 ∷ 9 ∷ []

interleaved-run_example :
    let m = interleaved ⦃hash = hash⦄ ⦃bucket = bucket⦄ wakeups turns_taken asleep in
    let s = IoWait.run ⦃hash = hash⦄ ⦃bucket = bucket⦄ (probes wakeups) asleep in
    AllFinished m
    × ((t : ℕ) → hash.get m.maps.start t ≡ hash.get s.start t)
    × ((k : IoWait.BucketKey) → bucket.get m.maps.buckets k ≡ bucket.get s.buckets k)
unfolding bounded_hash insert remove get operate step steps bucket_key_discrete ℕ_discrete
interleaved-run_example =
    interleaved-run ⦃hash = hash⦄ ⦃bucket = bucket⦄ wakeups turns_taken asleep
      (refl, refl, (refl, refl, tt)) (omega arith, (omega arith, tt))
      (tt, (tt, (tt, (tt, (tt, (tt, (refl, (refl, tt))))))))
      (tt, (tt, (tt, (refl, (tt, (tt, (tt, (refl, tt))))))))
