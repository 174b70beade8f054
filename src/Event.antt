-- ===== src/Event.antt =====
-- The records that the BPF programs write into their ring buffers and userspace reads back:
-- crates/tragach-common/src/event.rs. A byte is a number, and a `[u8; N]` a list of N of them.
pub mod Layout
use tragach.Prelude.{ℕ, ◌^◌, ◌<◌, ◌≡◌, List, length}

abbrev pub sql_max : ℕ
sql_max = 512

pub data OffCpuReason : Type 0 where
  other block_io futex sched_delay : OffCpuReason

pub record SlowQueryEvent : Type 0 where
  pub ts_ns : ℕ
  pub prepare_ns : ℕ
  pub execute_ns : ℕ
  pub attachment_id : ℕ
  pub tid : ℕ
  pub sql_len : ℕ
  pub sql_truncated : ℕ
  pub pad : ℕ
  pub sql : List ℕ

-- `kstack_id` is the bit pattern of an i32, and `reason` a number of an `OffCpuReason`. No program
-- writes or reads one.
pub record IoWaitSample : Type 0 where
  pub ts_ns : ℕ
  pub pid : ℕ
  pub tid : ℕ
  pub offcpu_ns : ℕ
  pub kstack_id : ℕ
  pub reason : ℕ

pub data AttachEventKind : Type 0 where
  opened closed : AttachEventKind

-- `kind as u32`
abbrev pub discriminant : AttachEventKind → ℕ
discriminant opened = 0
discriminant closed = 1

pub record AttachEvent : Type 0 where
  pub ts_ns : ℕ
  pub duration_ns : ℕ
  pub attachment_ptr : ℕ
  pub pid : ℕ
  pub tid : ℕ
  pub kind : ℕ
  pub pad : ℕ

-- The field's Rust types: `u64`, `u32` and `[u8; 512]`.
pub record IsSlowQueryEvent (e : SlowQueryEvent) : Type 0 where
  pub ts_ns : e.ts_ns < 2 ^ 64
  pub prepare_ns : e.prepare_ns < 2 ^ 64
  pub execute_ns : e.execute_ns < 2 ^ 64
  pub attachment_id : e.attachment_id < 2 ^ 64
  pub tid : e.tid < 2 ^ 32
  pub sql_len : e.sql_len < 2 ^ 32
  pub sql_truncated : e.sql_truncated < 2 ^ 32
  pub pad : e.pad < 2 ^ 32
  pub sql : length e.sql ≡ sql_max

pub record IsAttachEvent (e : AttachEvent) : Type 0 where
  pub ts_ns : e.ts_ns < 2 ^ 64
  pub duration_ns : e.duration_ns < 2 ^ 64
  pub attachment_ptr : e.attachment_ptr < 2 ^ 64
  pub pid : e.pid < 2 ^ 32
  pub tid : e.tid < 2 ^ 32
  pub kind : e.kind < 2 ^ 32
  pub pad : e.pad < 2 ^ 32
