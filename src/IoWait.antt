-- ===== src/IoWait.antt =====
-- The iowait BPF program, crates/tragach-iowait/src/bpf/main.rs: its maps and its two tracepoints.
-- An i32 is kept as its 32-bit pattern: a stack id of -1 is 2 ^ 32 - 1.
pub mod Spans
pub mod Classify
pub mod Kallsyms
pub mod Windows
pub mod Drain
pub mod Amid
pub mod Ledger
pub mod Accounts
pub mod Interleaved
pub mod Session
pub mod Main
pub mod Human
use mathlib.Core.Option.{get_or}
use tragach.Kernel.{HashMap}
use tragach.Prelude.{
  ℕ, ◌+◌, ◌-◌, ◌/◌, ◌%◌, ◌^◌, Bool, not, ◌||◌, Option, none, some, List, [], ◌∷◌, ok, Handler,
  ◌>>=◌, pure, modify, ok_or, write, ◌==◌, if◌then◌else◌,
}

pub record StartInfo : Type 0 where
  pub ts_ns : ℕ
  pub stack_id : ℕ

pub record BucketKey : Type 0 where
  pub pid : ℕ
  pub stack_id : ℕ

pub record Maps (M N : Type 0 → Type 0) : Type 0 where
  pub target_tgid : Option ℕ
  pub start : M StartInfo
  pub buckets : N ℕ

-- What a tracepoint reads: trace fields by their offset, the clock, the current task's ids, and
-- the id that STACKS gives to the current stack, if it gives one.
pub record Context : Type 0 where
  pub read_at : ℕ → Option ℕ
  pub ktime_ns : ℕ
  pub pid_tgid : ℕ
  pub get_stackid : Option ℕ

-- `STACKS.get_stackid(ctx, 0).unwrap_or(-1) as i32`
unfoldable pub stack_of : Context → ℕ
stack_of c = get_or c.get_stackid (2 ^ 64 - 1) % 2 ^ 32

-- `*target == 0 || *target != tgid`
abbrev pub filtered : Context → ℕ → Bool
filtered c target = target == 0 || not (target == c.pid_tgid / 2 ^ 32)

-- `match BUCKETS.get(&bkey) { Some(total) => total.wrapping_add(delta), None => delta }`
abbrev pub new_total : Option ℕ → ℕ → ℕ
new_total none delta = delta
new_total (some total) delta = (total + delta) % 2 ^ 64

-- `let _ = MAP.insert(..)`: a failure is ignored.
abbrev try_write : {S A : Type 0} → Handler S A → S → S
try_write m s = (m s).1

pub data Probe : Type 0 where
  sched_switch : Context → Probe
  sched_wakeup : Context → Probe

module _ {M N : Type 0 → Type 0} ⦃hash : HashMap M ℕ⦄ ⦃bucket : HashMap N BucketKey⦄ where
  unfoldable pub try_sched_switch : Context → Handler (Maps M N) (Unit {0})
  unfolding stack_of
  try_sched_switch c = do
    prev_pid ← ok_or (c.read_at 24) 1
    prev_state ← ok_or (c.read_at 32) 1
    let sleep : Handler (Maps M N) (Unit {0}) = do
      target ← (λ s. ok_or s.target_tgid 1 s)
      let track : Handler (Maps M N) (Unit {0}) = do
        let info : StartInfo = record { ts_ns = c.ktime_ns; stack_id = stack_of c }
        modify (λ s.
            try_write (write (hash.insert s.start prev_pid info) (λ m s. record s { start = m })) s)
      if filtered c target then pure tt else track
    if prev_state % 256 == 0 then pure tt else sleep

  unfoldable pub try_sched_wakeup : Context → Handler (Maps M N) (Unit {0})
  try_sched_wakeup c = do
    key ← ok_or (c.read_at 24) 1
    info ← (λ s. ok_or (hash.get s.start key) 1 s)
    _ ← modify (λ s. record s { start = hash.remove s.start key })
    let delta = c.ktime_ns - info.ts_ns
    let bkey : BucketKey = record { pid = key; stack_id = info.stack_id }
    modify (λ s.
        try_write
          (write (bucket.insert s.buckets bkey (new_total (bucket.get s.buckets bkey) delta))
            (λ m s. record s { buckets = m }))
          s)

  -- A tracepoint drops the result of its body.
  unfoldable pub fire : Probe → Maps M N → Maps M N
  unfolding try_sched_switch try_sched_wakeup
  fire (sched_switch c) s = (try_sched_switch c s).1
  fire (sched_wakeup c) s = (try_sched_wakeup c s).1

  unfoldable pub run : List Probe → Maps M N → Maps M N
  run [] s = s
  run (p ∷ ps) s = run ps (fire p s)
