-- ===== src/SlowQuery.antt =====
-- The state of the slowquery BPF program, crates/tragach-slowquery/src/bpf/main.rs: the values of
-- its maps, and its maps. The scratch slots are no state: every field is written before it is read.
pub mod Probes
pub mod Rules
pub mod Bodies
pub mod WellFormed
pub mod Provenance
pub mod Frames
pub mod Expected
pub mod Executions
pub mod Userspace
pub mod Session
pub mod Main
pub mod Dropped
pub mod Ids
pub mod Text
pub mod Decoding
pub mod Human
pub mod Cursors
use tragach.Event.{SlowQueryEvent}
use tragach.Kernel.{HashMap, LruHashMap, RingBuf}
use tragach.Prelude.{ℕ, List}

pub record WithSql : Type 0 where
  pub ts_ns : ℕ
  pub attachment_ptr : ℕ
  pub sql_len : ℕ
  pub sql_truncated : ℕ
  pub sql : List ℕ

pub record PreparedStatement : Type 0 where
  pub attachment_ptr : ℕ
  pub prepare_ns : ℕ
  pub sql_len : ℕ
  pub sql_truncated : ℕ
  pub sql : List ℕ

pub record ExecuteEntry : Type 0 where
  pub ts_ns : ℕ
  pub dsql_request_ptr : ℕ

pub record OpenCursor : Type 0 where
  pub open_ts_ns : ℕ
  pub dsql_request_ptr : ℕ

-- The maps, for a kind `M` of hash maps, `L` of LRU maps and `R` of ring buffers.
pub record Maps (M L R : Type 0 → Type 0) : Type 0 where
  pub prepare_in_progress : M WithSql
  pub execute_in_progress : M ExecuteEntry
  pub immediate_in_progress : M WithSql
  pub opencursor_in_progress : M OpenCursor
  pub fetch_in_progress : M ℕ
  pub prepared_statements : L PreparedStatement
  pub open_cursors : L OpenCursor
  pub events : R SlowQueryEvent

-- The maps when the program is loaded.
abbrev pub loaded :
    {M L R : Type 0 → Type 0} ⦃hash : HashMap M ℕ⦄ ⦃lru : LruHashMap L ℕ⦄ ⦃ring : RingBuf R⦄
    → Maps M L R
loaded ⦃hash⦄ ⦃lru⦄ ⦃ring⦄ = record {
  prepare_in_progress = hash.empty;
  execute_in_progress = hash.empty;
  immediate_in_progress = hash.empty;
  opencursor_in_progress = hash.empty;
  fetch_in_progress = hash.empty;
  prepared_statements = lru.empty;
  open_cursors = lru.empty;
  events = ring.empty;
}
