-- ===== src/SlowQuery/Rules.antt =====
-- Invariants of the slowquery program. A predicate for the values of each map and one for the
-- events make an invariant if they agree with what the probe bodies write (`Rules`); then every
-- probe keeps it, whatever thread it fires on, whichever insertions fail and entries are evicted.
use tragach.Event.{SlowQueryEvent}
use tragach.Kernel.Entries.{Entries}
use tragach.Kernel.{HashMap, LruHashMap, RingBuf, ProbeContext}
use tragach.Prelude.{
  ℕ, ◌-◌, ◌≡◌, refl, Bool, true, false, Option, none, some, Result, ok, err, Handler, bind_outcome,
  ok_or, write, if◌then◌else◌, All,
}
use tragach.SlowQuery.Probes.{
  captured, sql_entry, SqlTarget, prepare, immediate, slot, joined, prepared_at, Probe,
  dsql_prepare_exit, dsql_execute_entry, dsql_execute_exit, dsql_execute_immediate_exit,
  dsql_open_cursor_entry, dsql_fetch_next_exit,
}
use tragach.SlowQuery.{WithSql, PreparedStatement, ExecuteEntry, OpenCursor, Maps}

abbrev pub Any : {A : Type 0} → A → Type 0
Any a = Unit

-- `G` says which probes fire.
pub record Rules (G : Probe → Type 0) (W : SqlTarget → WithSql → Type 0)
    (P : PreparedStatement → Type 0) (X : ExecuteEntry → Type 0) (O : OpenCursor → Type 0)
    (E : SlowQueryEvent → Type 0) : Type 0 where
  pub capture :
      (target : SqlTarget) (c : ProbeContext) (attachment_ptr len sql_ptr : ℕ)
      → G (sql_entry target c)
      → c.arg 1 ≡ some attachment_ptr
      → c.arg 3 ≡ some len
      → c.arg 4 ≡ some sql_ptr
      → W target (captured c attachment_ptr len sql_ptr)
  pub prepared :
      (c : ProbeContext) (w : WithSql) → G (dsql_prepare_exit c) → W prepare w → P (prepared_at c w)
  pub started :
      (c : ProbeContext) (r : ℕ)
      → G (dsql_execute_entry c)
      → c.arg 2 ≡ some r
      → X (record { ts_ns = c.ktime_ns; dsql_request_ptr = r })
  pub opened :
      (c : ProbeContext) (r : ℕ)
      → G (dsql_open_cursor_entry c)
      → c.arg 0 ≡ some r
      → O (record { open_ts_ns = c.ktime_ns; dsql_request_ptr = r })
  pub executed :
      (c : ProbeContext) (x : ExecuteEntry)
      → G (dsql_execute_exit c)
      → X x
      → ((p : PreparedStatement) → P p → E (joined c p (c.ktime_ns - x.ts_ns)))
        × E (slot c 0 0 (c.ktime_ns - x.ts_ns) 0 0 none)
  pub fetched :
      (c : ProbeContext) (o : OpenCursor)
      → G (dsql_fetch_next_exit c)
      → O o
      → ((p : PreparedStatement) → P p → E (joined c p (c.ktime_ns - o.open_ts_ns)))
        × E (slot c 0 0 (c.ktime_ns - o.open_ts_ns) 0 0 none)
  pub ran_immediate :
      (c : ProbeContext) (w : WithSql)
      → G (dsql_execute_immediate_exit c)
      → W immediate w
      → E (slot c w.attachment_ptr 0 (c.ktime_ns - w.ts_ns) w.sql_len w.sql_truncated (some w.sql))

module _ {M L R : Type 0 → Type 0} ⦃hash : HashMap M ℕ⦄ ⦃lru : LruHashMap L ℕ⦄ ⦃ring : RingBuf R⦄
    {G : Probe → Type 0} {W : SqlTarget → WithSql → Type 0} {P : PreparedStatement → Type 0}
    {X : ExecuteEntry → Type 0} {O : OpenCursor → Type 0} {E : SlowQueryEvent → Type 0}
    (rules : Rules G W P X O E) where
  pub record Keeps (s : Maps M L R) : Type 0 where
    pub prepares : Entries (W prepare) (hash.get s.prepare_in_progress)
    pub executes : Entries X (hash.get s.execute_in_progress)
    pub immediates : Entries (W immediate) (hash.get s.immediate_in_progress)
    pub opencursors : Entries O (hash.get s.opencursor_in_progress)
    pub statements : Entries P (lru.get s.prepared_statements)
    pub cursors : Entries O (lru.get s.open_cursors)
    pub events : All E (ring.records s.events)

  -- A write of one map.
  pub put_prepares :
      {s : Maps M L R} (m : M WithSql)
      → Keeps s
      → Entries (W prepare) (hash.get m)
      → Keeps (record s { prepare_in_progress = m })
  put_prepares m k h = record {
    prepares = h;
    executes = k.executes;
    immediates = k.immediates;
    opencursors = k.opencursors;
    statements = k.statements;
    cursors = k.cursors;
    events = k.events;
  }

  pub put_executes :
      {s : Maps M L R} (m : M ExecuteEntry)
      → Keeps s
      → Entries X (hash.get m)
      → Keeps (record s { execute_in_progress = m })
  put_executes m k h = record {
    prepares = k.prepares;
    executes = h;
    immediates = k.immediates;
    opencursors = k.opencursors;
    statements = k.statements;
    cursors = k.cursors;
    events = k.events;
  }

  pub put_immediates :
      {s : Maps M L R} (m : M WithSql)
      → Keeps s
      → Entries (W immediate) (hash.get m)
      → Keeps (record s { immediate_in_progress = m })
  put_immediates m k h = record {
    prepares = k.prepares;
    executes = k.executes;
    immediates = h;
    opencursors = k.opencursors;
    statements = k.statements;
    cursors = k.cursors;
    events = k.events;
  }

  pub put_opencursors :
      {s : Maps M L R} (m : M OpenCursor)
      → Keeps s
      → Entries O (hash.get m)
      → Keeps (record s { opencursor_in_progress = m })
  put_opencursors m k h = record {
    prepares = k.prepares;
    executes = k.executes;
    immediates = k.immediates;
    opencursors = h;
    statements = k.statements;
    cursors = k.cursors;
    events = k.events;
  }

  pub put_statements :
      {s : Maps M L R} (m : L PreparedStatement)
      → Keeps s
      → Entries P (lru.get m)
      → Keeps (record s { prepared_statements = m })
  put_statements m k h = record {
    prepares = k.prepares;
    executes = k.executes;
    immediates = k.immediates;
    opencursors = k.opencursors;
    statements = h;
    cursors = k.cursors;
    events = k.events;
  }

  pub put_cursors :
      {s : Maps M L R} (m : L OpenCursor)
      → Keeps s
      → Entries O (lru.get m)
      → Keeps (record s { open_cursors = m })
  put_cursors m k h = record {
    prepares = k.prepares;
    executes = k.executes;
    immediates = k.immediates;
    opencursors = k.opencursors;
    statements = k.statements;
    cursors = h;
    events = k.events;
  }

  pub put_events :
      {s : Maps M L R} (m : R SlowQueryEvent)
      → Keeps s
      → All E (ring.records m)
      → Keeps (record s { events = m })
  put_events m k h = record {
    prepares = k.prepares;
    executes = k.executes;
    immediates = k.immediates;
    opencursors = k.opencursors;
    statements = k.statements;
    cursors = k.cursors;
    events = h;
  }

  pub put_fetches :
      {s : Maps M L R} (m : M ℕ) → Keeps s → Keeps (record s { fetch_in_progress = m })
  put_fetches m k = record {
    prepares = k.prepares;
    executes = k.executes;
    immediates = k.immediates;
    opencursors = k.opencursors;
    statements = k.statements;
    cursors = k.cursors;
    events = k.events;
  }

  -- A handler's outcome: the maps are kept, and a result satisfies `Q`.
  abbrev pub Post : {A : Type 0} → (A → Type 0) → Result A × Maps M L R → Type 0
  Post Q (ok a, s) = Keeps s × Q a
  Post Q (err e, s) = Keeps s

  pub Post-Keeps : {A : Type 0} (o : Result A × Maps M L R) → Post Any o → Keeps o.1
  Post-Keeps (ok a, s) h = h.0
  Post-Keeps (err e, s) h = h

  pub Post-bind :
      {A B : Type 0} (Q : A → Type 0) (o : Result A × Maps M L R) (f : A → Handler (Maps M L R) B)
      → Post Q o
      → ((a : A) (s : Maps M L R) → Keeps s → Q a → Post Any (f a s))
      → Post Any (bind_outcome o f)
  Post-bind Q (ok a, s) f h k = k a s h.0 h.1
  Post-bind Q (err e, s) f h k = h

  pub Post-ok_or :
      {A : Type 0} (Q : A → Type 0) (o : Option A) (s : Maps M L R)
      → Keeps s
      → ((a : A) → o ≡ some a → Q a)
      → Post Q (ok_or o 1 s)
  Post-ok_or Q none s k q = k
  Post-ok_or Q (some a) s k q = (k, q a refl)

  pub Post-if :
      {A : Type 0} (Q : A → Type 0) (b : Bool) (m n : Handler (Maps M L R) A) (s : Maps M L R)
      → Post Q (m s)
      → Post Q (n s)
      → Post Q ((if b then m else n) s)
  Post-if Q true m n s h k = h
  Post-if Q false m n s h k = k

  pub Post-if_value :
      {A : Type 0} (Q : A → Type 0) (b : Bool) (o p : Result A × Maps M L R)
      → Post Q o
      → Post Q p
      → Post Q (if b then o else p)
  Post-if_value Q true o p h k = h
  Post-if_value Q false o p h k = k

  pub Post-write :
      {A : Type 0} (r : Result A) (put : A → Maps M L R → Maps M L R) (s : Maps M L R)
      → Keeps s
      → ((a : A) → r ≡ ok a → Keeps (put a s))
      → Post Any (write r put s)
  Post-write (ok a) put s k h = (h a refl, tt)
  Post-write (err e) put s k h = k
