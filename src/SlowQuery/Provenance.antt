-- ===== src/SlowQuery/Provenance.antt =====
-- Where an event of the slowquery program comes from: a description of the possible events by the
-- probes that fired, which mentions no map.
use tragach.Event.{SlowQueryEvent}
use tragach.Kernel.{HashMap, LruHashMap, RingBuf, ProbeContext}
use tragach.Prelude.{ℕ, ◌-◌, ◌≡◌, none, some, List, All, Among, All-Among, subst, sym}
use tragach.SlowQuery.Bodies.{run-Keeps, loaded-Keeps}
use tragach.SlowQuery.Expected.{expected, event_for_lem}
use tragach.SlowQuery.Probes.{
  captured, SqlTarget, prepare, immediate, prepared_at, sql_entry, Probe, dsql_prepare_exit,
  dsql_execute_entry, dsql_execute_exit, dsql_execute_immediate_exit, dsql_open_cursor_entry,
  dsql_fetch_next_exit, traced,
}
use tragach.SlowQuery.Rules.{Rules}
use tragach.SlowQuery.{WithSql, PreparedStatement, ExecuteEntry, OpenCursor}

-- `w` is what one of the entry programs of a target captured from its own arguments.
pub data Captured (ps : List Probe) (target : SqlTarget) : WithSql → Type 0 where
  capture :
      (c : ProbeContext) (attachment_ptr len sql_ptr : ℕ)
      → Among (sql_entry target c) ps
      → c.arg 1 ≡ some attachment_ptr
      → c.arg 3 ≡ some len
      → c.arg 4 ≡ some sql_ptr
      → Captured ps target (captured c attachment_ptr len sql_ptr)

-- `p` is a statement that a prepare call captured and finished.
pub data Prepared (ps : List Probe) : PreparedStatement → Type 0 where
  finish :
      (c : ProbeContext) (w : WithSql)
      → Among (dsql_prepare_exit c) ps
      → Captured ps prepare w
      → Prepared ps (prepared_at c w)

-- A call of `DSQL_execute` that began, with its request.
pub data Executing (ps : List Probe) : ExecuteEntry → Type 0 where
  begin :
      (c : ProbeContext) (r : ℕ)
      → Among (dsql_execute_entry c) ps
      → c.arg 2 ≡ some r
      → Executing ps (record { ts_ns = c.ktime_ns; dsql_request_ptr = r })

-- A call of `openCursor` that began.
pub data Opening (ps : List Probe) : OpenCursor → Type 0 where
  begin :
      (c : ProbeContext) (r : ℕ)
      → Among (dsql_open_cursor_entry c) ps
      → c.arg 0 ≡ some r
      → Opening ps (record { open_ts_ns = c.ktime_ns; dsql_request_ptr = r })

-- A statement that runs without a prepare call: its time to prepare is 0.
abbrev pub unprepared : WithSql → PreparedStatement
unprepared w = record {
  attachment_ptr = w.attachment_ptr;
  prepare_ns = 0;
  sql_len = w.sql_len;
  sql_truncated = w.sql_truncated;
  sql = w.sql;
}

-- The events that a run may emit. Each is emitted at an exit, has that exit's time and thread, and
-- runs from the entry of an execution or, for a fetch, of `openCursor`; its statement is one that was prepared or captured,
-- or it has no statement: no attachment, no durations but its own, and a zeroed SQL buffer.
pub data Explained (ps : List Probe) : SlowQueryEvent → Type 0 where
  executed :
      (c : ProbeContext) (x : ExecuteEntry) (p : PreparedStatement)
      → Among (dsql_execute_exit c) ps
      → Executing ps x
      → Prepared ps p
      → Explained ps (expected c (c.ktime_ns - x.ts_ns) (some p))
  executed_unknown :
      (c : ProbeContext) (x : ExecuteEntry)
      → Among (dsql_execute_exit c) ps
      → Executing ps x
      → Explained ps (expected c (c.ktime_ns - x.ts_ns) none)
  fetched :
      (c : ProbeContext) (o : OpenCursor) (p : PreparedStatement)
      → Among (dsql_fetch_next_exit c) ps
      → Opening ps o
      → Prepared ps p
      → Explained ps (expected c (c.ktime_ns - o.open_ts_ns) (some p))
  fetched_unknown :
      (c : ProbeContext) (o : OpenCursor)
      → Among (dsql_fetch_next_exit c) ps
      → Opening ps o
      → Explained ps (expected c (c.ktime_ns - o.open_ts_ns) none)
  ran_immediate :
      (c : ProbeContext) (w : WithSql)
      → Among (dsql_execute_immediate_exit c) ps
      → Captured ps immediate w
      → Explained ps (expected c (c.ktime_ns - w.ts_ns) (some (unprepared w)))

provenance :
    (ps : List Probe)
    → Rules (λ p. Among p ps) (Captured ps) (Prepared ps) (Executing ps) (Opening ps) (Explained ps)
provenance ps = record {
  capture = λ target c a n p g ea en ep. capture c a n p g ea en ep;
  prepared = λ c w g h. finish c w g h;
  started = λ c r g e. Executing.begin c r g e;
  opened = λ c r g e. Opening.begin c r g e;
  executed = λ c x g h. (
    (λ p i. executed c x p g h i),
    subst (Explained ps) (sym (event_for_lem c _ none)) (executed_unknown c x g h),
  );
  fetched = λ c o g h. (
    (λ p i. fetched c o p g h i),
    subst (Explained ps) (sym (event_for_lem c _ none)) (fetched_unknown c o g h),
  );
  ran_immediate = λ c w g h. ran_immediate c w g h;
}

-- Every event that a run emits is one that `Explained` describes: it has the time and thread of an
-- exit probe of the run, a duration that runs from the entry of an execution or of `openCursor` in the
-- run, and a statement that an entry of `DSQL_prepare` or `DSQL_execute_immediate` in the run
-- captured, or none.
pub traced-Explained :
    {M L R : Type 0 → Type 0} (hash : HashMap M ℕ) (lru : LruHashMap L ℕ) (ring : RingBuf R)
    (ps : List Probe)
    → All (Explained ps) (traced hash lru ring ps)
traced-Explained hash lru ring ps =
    (run-Keeps ⦃hash = hash⦄ ⦃lru = lru⦄ ⦃ring = ring⦄ (provenance ps) ps _ (All-Among ps)
      (loaded-Keeps ⦃hash = hash⦄ ⦃lru = lru⦄ ⦃ring = ring⦄ (provenance ps))).events
