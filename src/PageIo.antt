-- ===== src/PageIo.antt =====
-- The pageio BPF program, crates/tragach-pageio/src/bpf/main.rs: its maps and its probe bodies.
pub mod Ledger
pub mod Session
pub mod Main
pub mod Requests
pub mod Averages
pub mod Fetches
pub mod Human
pub mod Userspace
pub mod Windows
use mathlib.Core.Option.{get_or}
use tragach.Kernel.{HashMap}
use tragach.Prelude.{
  ℕ, ◌+◌, ◌-◌, ◌/◌, ◌%◌, ◌^◌, Bool, not, ◌||◌, Option, List, [], ◌∷◌, ok, Handler, ◌>>=◌, pure,
  modify, ok_or, write, set, get_elem?, ltb, ◌==◌, if◌then◌else◌,
}

pub record PageIoCounters : Type 0 where
  pub engine_count : ℕ
  pub engine_total_ns : ℕ
  pub engine_max_ns : ℕ
  pub block_count : ℕ
  pub block_total_bytes : ℕ
  pub block_total_wait_ns : ℕ
  pub block_max_wait_ns : ℕ

pub record FetchInfo : Type 0 where
  pub start_ts : ℕ
  pub page_num : ℕ

pub record BlockKey : Type 0 where
  pub dev : ℕ
  pub sector : ℕ

-- `target_tgid` is the one slot of TARGET_TGID, and `counters` has a slot for each CPU.
pub record Maps (M N : Type 0 → Type 0) : Type 0 where
  pub target_tgid : Option ℕ
  pub fetch_in_progress : M FetchInfo
  pub block_inflight : N ℕ
  pub counters : List PageIoCounters

-- What a probe body reads: arguments, trace fields by their offset, user memory, the clock, the ids
-- of the current task, and the CPU that it runs on.
pub record Context : Type 0 where
  pub arg : ℕ → Option ℕ
  pub read_at : ℕ → Option ℕ
  pub read_user : ℕ → Option ℕ
  pub ktime_ns : ℕ
  pub pid_tgid : ℕ
  pub cpu : ℕ

abbrev pub tgid : Context → ℕ
tgid c = c.pid_tgid / 2 ^ 32

abbrev pub tid : Context → ℕ
tid c = c.pid_tgid % 2 ^ 32

-- `u64::wrapping_add`
abbrev pub wrapping_add : ℕ → ℕ → ℕ
wrapping_add a b = (a + b) % 2 ^ 64

-- The update of the counters at the end of a fetch, at the issue of a request and at its
-- completion.
unfoldable pub count_fetch : ℕ → PageIoCounters → PageIoCounters
count_fetch duration_ns p = record p {
  engine_count = wrapping_add p.engine_count 1;
  engine_total_ns = wrapping_add p.engine_total_ns duration_ns;
  engine_max_ns = if ltb p.engine_max_ns duration_ns then duration_ns else p.engine_max_ns;
}

unfoldable pub count_issue : ℕ → PageIoCounters → PageIoCounters
count_issue bytes p = record p {
  block_count = wrapping_add p.block_count 1;
  block_total_bytes = wrapping_add p.block_total_bytes bytes;
}

unfoldable pub count_complete : ℕ → PageIoCounters → PageIoCounters
count_complete wait_ns p = record p {
  block_total_wait_ns = wrapping_add p.block_total_wait_ns wait_ns;
  block_max_wait_ns = if ltb p.block_max_wait_ns wait_ns then wait_ns else p.block_max_wait_ns;
}

-- `*target == 0 || *target != tgid`
abbrev pub filtered : Context → ℕ → Bool
filtered c target = target == 0 || not (target == tgid c)

-- The tracepoints and probes of the program, each with the context that fires it.
pub data Probe : Type 0 where
  cch_fetch_page_entry : Context → Probe
  cch_fetch_page_exit : Context → Probe
  block_rq_issue : Context → Probe
  block_rq_complete : Context → Probe

module _ {M N : Type 0 → Type 0} ⦃hash : HashMap M ℕ⦄ ⦃block : HashMap N BlockKey⦄ where
  -- The current CPU's slot of COUNTERS is read and written in place.
  unfoldable pub update_counters :
      Context → (PageIoCounters → PageIoCounters) → Handler (Maps M N) (Unit {0})
  update_counters c f = do
    p ← (λ s. ok_or (get_elem? s.counters c.cpu) 1 s)
    modify (λ s. record s { counters = set s.counters c.cpu (f p) })

  unfoldable pub try_cch_entry : Context → Handler (Maps M N) (Unit {0})
  try_cch_entry c = do
    target ← (λ s. ok_or s.target_tgid 1 s)
    let track : Handler (Maps M N) (Unit {0}) = do
      win_ptr ← ok_or (c.arg 1) 1
      let page_num = if win_ptr == 0 then 0 else get_or (c.read_user win_ptr) 0
      let info : FetchInfo = record { start_ts = c.ktime_ns; page_num = page_num }
      λ s.
          write (hash.insert s.fetch_in_progress (tid c) info)
            (λ m s. record s { fetch_in_progress = m }) s
    if filtered c target then pure tt else track

  unfoldable pub try_cch_exit : Context → Handler (Maps M N) (Unit {0})
  try_cch_exit c = do
    info ← (λ s. ok_or (hash.get s.fetch_in_progress (tid c)) 1 s)
    _ ← modify (λ s. record s { fetch_in_progress = hash.remove s.fetch_in_progress (tid c) })
    update_counters c (count_fetch (c.ktime_ns - info.start_ts))

  -- `let _ = BLOCK_INFLIGHT.insert(..)`: a failure is ignored.
  unfoldable pub try_block_issue : Context → Handler (Maps M N) (Unit {0})
  try_block_issue c = do
    target ← (λ s. ok_or s.target_tgid 1 s)
    let track : Handler (Maps M N) (Unit {0}) = do
      dev ← ok_or (c.read_at 8) 1
      sector ← ok_or (c.read_at 16) 1
      bytes ← ok_or (c.read_at 28) 1
      let key : BlockKey = record { dev = dev; sector = sector }
      _ ← (λ s. (
        ok tt,
        (write (block.insert s.block_inflight key c.ktime_ns)
            (λ m s. record s { block_inflight = m }) s).1,
      ))
      update_counters c (count_issue bytes)
    if filtered c target then pure tt else track

  unfoldable pub try_block_complete : Context → Handler (Maps M N) (Unit {0})
  try_block_complete c = do
    dev ← ok_or (c.read_at 8) 1
    sector ← ok_or (c.read_at 16) 1
    let key : BlockKey = record { dev = dev; sector = sector }
    issue_ts ← (λ s. ok_or (block.get s.block_inflight key) 1 s)
    _ ← modify (λ s. record s { block_inflight = block.remove s.block_inflight key })
    update_counters c (count_complete (c.ktime_ns - issue_ts))

  -- A probe drops the result of its body: `let _ = try_cch_entry(&ctx); 0`.
  unfoldable pub fire : Probe → Maps M N → Maps M N
  unfolding try_cch_entry try_cch_exit try_block_issue try_block_complete
  fire (cch_fetch_page_entry c) s = (try_cch_entry c s).1
  fire (cch_fetch_page_exit c) s = (try_cch_exit c s).1
  fire (block_rq_issue c) s = (try_block_issue c s).1
  fire (block_rq_complete c) s = (try_block_complete c s).1

  unfoldable pub run : List Probe → Maps M N → Maps M N
  run [] s = s
  run (p ∷ ps) s = run ps (fire p s)
