-- ===== src/SlowQuery/WellFormed.antt =====
-- Every event of the slowquery program fits the field widths of `SlowQueryEvent`.
use tragach.Event.{SlowQueryEvent, IsSlowQueryEvent, sql_max}
use tragach.Kernel.{HashMap, LruHashMap, RingBuf, ProbeContext, IsContext}
use tragach.Prelude.{ℕ, ◌≤◌, ◌<◌, ◌^◌, ◌≡◌, List, length, length-replicate, All, arith, some}
use tragach.SlowQuery.Bodies.{run-Keeps, loaded-Keeps}
use tragach.SlowQuery.Probes.{
  captured, zeroed, sql_entry, SqlTarget, prepare, immediate, Probe, context, traced,
}
use tragach.SlowQuery.Rules.{Rules}
use tragach.SlowQuery.{WithSql, PreparedStatement}

record IsWithSql (w : WithSql) : Type 0 where
  ts_ns : w.ts_ns < 2 ^ 64
  attachment_ptr : w.attachment_ptr < 2 ^ 64
  sql_len : w.sql_len < 2 ^ 32
  sql_truncated : w.sql_truncated ≤ 1
  sql : length w.sql ≡ sql_max

record IsPreparedStatement (p : PreparedStatement) : Type 0 where
  attachment_ptr : p.attachment_ptr < 2 ^ 64
  prepare_ns : p.prepare_ns < 2 ^ 64
  sql_len : p.sql_len < 2 ^ 32
  sql_truncated : p.sql_truncated ≤ 1
  sql : length p.sql ≡ sql_max

abbrev pub IsEvent : SlowQueryEvent → Type 0
IsEvent e = IsSlowQueryEvent e × (e.sql_truncated ≤ 1)

length-zeroed : length zeroed ≡ sql_max
unfolding zeroed
length-zeroed = length-replicate {A = ℕ} sql_max 0

captured-IsWithSql :
    (c : ProbeContext) (a n p : ℕ) → IsContext c → a < 2 ^ 64 → IsWithSql (captured c a n p)
unfolding captured
captured-IsWithSql c a n p k h = record {
  ts_ns = ground (arith, k.ktime_ns);
  attachment_ptr = ground arith;
  sql_len = ground arith;
  sql_truncated = ground arith;
  sql = ground (arith, k.buffer p zeroed, length-zeroed);
}

capture-IsWithSql :
    (target : SqlTarget) (c : ProbeContext) (a n p : ℕ)
    → IsContext (context (sql_entry target c))
    → c.arg 1 ≡ some a
    → IsWithSql (captured c a n p)
capture-IsWithSql prepare c a n p g e = captured-IsWithSql c a n p g (g.arg 1 a e)
capture-IsWithSql immediate c a n p g e = captured-IsWithSql c a n p g (g.arg 1 a e)

-- What the predicates say of the values that the bodies write.
wf :
    Rules
      (λ p. IsContext (context p))
      (λ _. IsWithSql)
      IsPreparedStatement
      (λ x. x.ts_ns < 2 ^ 64)
      (λ o. o.open_ts_ns < 2 ^ 64)
      IsEvent
wf = record {
  capture = λ target c a n p g ea en ep. capture-IsWithSql target c a n p g ea;
  prepared = λ c w g h. ground (arith, g.ktime_ns);
  started = λ c r g e. g.ktime_ns;
  opened = λ c r g e. g.ktime_ns;
  executed = λ c x g h.
      ((λ p i. ground (arith, g.ktime_ns, g.pid_tgid)), ground (arith, g.ktime_ns, length-zeroed));
  fetched = λ c o g h.
      ((λ p i. ground (arith, g.ktime_ns, g.pid_tgid)), ground (arith, g.ktime_ns, length-zeroed));
  ran_immediate = λ c w g h. ground (arith, g.ktime_ns);
}

-- Whatever the probes that fire and the threads they fire on, whatever insertions fail and entries
-- are evicted: every event has fields that fit the wire struct, an SQL buffer of exactly 512 bytes
-- and a truncation flag of 0 or 1, if the machine's words have their widths.
pub traced-IsEvent :
    {M L R : Type 0 → Type 0} (hash : HashMap M ℕ) (lru : LruHashMap L ℕ) (ring : RingBuf R)
    (ps : List Probe)
    → All (λ p. IsContext (context p)) ps
    → All IsEvent (traced hash lru ring ps)
traced-IsEvent hash lru ring ps g =
    (run-Keeps ⦃hash = hash⦄ ⦃lru = lru⦄ ⦃ring = ring⦄ wf ps _ g
      (loaded-Keeps ⦃hash = hash⦄ ⦃lru = lru⦄ ⦃ring = ring⦄ wf)).events
