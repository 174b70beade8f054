-- ===== src/SlowQuery/Expected.antt =====
-- The events of the slowquery program, crates/tragach-slowquery/src/bpf/main.rs, described without
-- the record that the program fills in place.
use tragach.Event.{SlowQueryEvent}
use tragach.Kernel.{ProbeContext}
use tragach.Prelude.{ℕ, ◌^◌, ◌%◌, ◌≡◌, refl, Option, none, some, replicate}
use tragach.SlowQuery.Probes.{event_for, zeroed}
use tragach.SlowQuery.{PreparedStatement}

-- The event of an execution or a cursor that ends in `c` after `ns`, field by field, with the statement that is
-- known of its request.
abbrev pub expected : ProbeContext → ℕ → Option PreparedStatement → SlowQueryEvent
expected c ns (some p) = record {
  ts_ns = c.ktime_ns;
  prepare_ns = p.prepare_ns;
  execute_ns = ns;
  attachment_id = p.attachment_ptr;
  tid = c.pid_tgid % 2 ^ 32;
  sql_len = p.sql_len;
  sql_truncated = p.sql_truncated;
  pad = 0;
  sql = p.sql;
}
expected c ns none = record {
  ts_ns = c.ktime_ns;
  prepare_ns = 0;
  execute_ns = ns;
  attachment_id = 0;
  tid = c.pid_tgid % 2 ^ 32;
  sql_len = 0;
  sql_truncated = 0;
  pad = 0;
  sql = replicate 512 0;
}

pub event_for_lem :
    (c : ProbeContext) (ns : ℕ) (o : Option PreparedStatement) → event_for c ns o ≡ expected c ns o
unfolding zeroed
event_for_lem c ns (some p) = refl
event_for_lem c ns none = refl
