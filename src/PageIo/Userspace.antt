-- ===== src/PageIo/Userspace.antt =====
-- The windows of pageio, crates/tragach-pageio/src/main.rs: the per-CPU counters are summed into a
-- snapshot, and a window is the difference of two snapshots.
use tragach.PageIo.{PageIoCounters, wrapping_add}
use tragach.Prelude.{ℕ, ◌+◌, ◌-◌, ◌/◌, ◌%◌, ◌^◌, List, [], ◌∷◌, ltb, if◌then◌else◌}

-- `PageIoCounters::default()`
abbrev pub default : PageIoCounters
default = record {
  engine_count = 0;
  engine_total_ns = 0;
  engine_max_ns = 0;
  block_count = 0;
  block_total_bytes = 0;
  block_total_wait_ns = 0;
  block_max_wait_ns = 0;
}

-- The body of the loop of `snapshot_counters`.
unfoldable pub add_slot : PageIoCounters → PageIoCounters → PageIoCounters
add_slot out c = record {
  engine_count = wrapping_add out.engine_count c.engine_count;
  engine_total_ns = wrapping_add out.engine_total_ns c.engine_total_ns;
  engine_max_ns =
      if ltb out.engine_max_ns c.engine_max_ns then c.engine_max_ns else out.engine_max_ns;
  block_count = wrapping_add out.block_count c.block_count;
  block_total_bytes = wrapping_add out.block_total_bytes c.block_total_bytes;
  block_total_wait_ns = wrapping_add out.block_total_wait_ns c.block_total_wait_ns;
  block_max_wait_ns =
      if ltb out.block_max_wait_ns c.block_max_wait_ns
      then c.block_max_wait_ns
      else out.block_max_wait_ns;
}

unfoldable pub sum_slots : PageIoCounters → List PageIoCounters → PageIoCounters
sum_slots out [] = out
sum_slots out (c ∷ per_cpu) = sum_slots (add_slot out c) per_cpu

unfoldable pub snapshot_counters : List PageIoCounters → PageIoCounters
unfolding sum_slots
snapshot_counters per_cpu = sum_slots default per_cpu

-- `u64::wrapping_sub`
abbrev pub wrapping_sub : ℕ → ℕ → ℕ
wrapping_sub a b = (a + 2 ^ 64 - b) % 2 ^ 64

unfoldable pub delta_counters : PageIoCounters → PageIoCounters → PageIoCounters
delta_counters prev now = record {
  engine_count = wrapping_sub now.engine_count prev.engine_count;
  engine_total_ns = wrapping_sub now.engine_total_ns prev.engine_total_ns;
  engine_max_ns = now.engine_max_ns;
  block_count = wrapping_sub now.block_count prev.block_count;
  block_total_bytes = wrapping_sub now.block_total_bytes prev.block_total_bytes;
  block_total_wait_ns = wrapping_sub now.block_total_wait_ns prev.block_total_wait_ns;
  block_max_wait_ns = now.block_max_wait_ns;
}

-- What `write_json` reports of a window, beside the time and the pid.
pub record JsonWindow : Type 0 where
  pub window_ms : ℕ
  pub pid : ℕ
  pub engine_count : ℕ
  pub engine_total_ns : ℕ
  pub engine_avg_ns : ℕ
  pub engine_max_ns : ℕ
  pub block_count : ℕ
  pub block_total_bytes : ℕ
  pub block_total_wait_ns : ℕ
  pub block_avg_wait_ns : ℕ
  pub block_max_wait_ns : ℕ

unfoldable pub json_window : PageIoCounters → ℕ → ℕ → JsonWindow
json_window c window_ms pid = record {
  window_ms = window_ms;
  pid = pid;
  engine_count = c.engine_count;
  engine_total_ns = c.engine_total_ns;
  engine_avg_ns = if ltb 0 c.engine_count then c.engine_total_ns / c.engine_count else 0;
  engine_max_ns = c.engine_max_ns;
  block_count = c.block_count;
  block_total_bytes = c.block_total_bytes;
  block_total_wait_ns = c.block_total_wait_ns;
  block_avg_wait_ns = if ltb 0 c.block_count then c.block_total_wait_ns / c.block_count else 0;
  block_max_wait_ns = c.block_max_wait_ns;
}
