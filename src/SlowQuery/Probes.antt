-- ===== src/SlowQuery/Probes.antt =====
-- The probe bodies of crates/tragach-slowquery/src/bpf/main.rs, each as a handler over the maps.
use mathlib.Core.Option.{get_or}
use tragach.Event.{SlowQueryEvent, sql_max}
use tragach.Kernel.{HashMap, LruHashMap, RingBuf, ProbeContext}
use tragach.Prelude.{
  ℕ, ◌-◌, ◌^◌, ◌%◌, ◌&&◌, Option, none, some, List, [], ◌∷◌, ok, err, Handler, ◌>>=◌, pure, fail,
  modify, ok_or, write, length, replicate, ltb, leb, ◌==◌, if◌then◌else◌,
}
use tragach.SlowQuery.{WithSql, PreparedStatement, ExecuteEntry, OpenCursor, Maps, loaded}

abbrev pub tid : ProbeContext → ℕ
tid c = c.pid_tgid % 2 ^ 32

unfoldable pub zeroed : List ℕ
zeroed = replicate sql_max 0

-- What `try_capture_sql_entry` writes into the scratch slot.
unfoldable pub captured : ProbeContext → ℕ → ℕ → ℕ → WithSql
captured c attachment_ptr len sql_ptr =
    let (copied, sql) = c.read_user_str sql_ptr zeroed in
    let copied_len = length (get_or copied []) % 2 ^ 32 in
    if sql_ptr == 0
    then record {
      ts_ns = c.ktime_ns;
      attachment_ptr = attachment_ptr;
      sql_len = 0;
      sql_truncated = 0;
      sql = zeroed;
    }
    else record {
      ts_ns = c.ktime_ns;
      attachment_ptr = attachment_ptr;
      sql_len = if len == 0 then copied_len else len % 2 ^ 32;
      sql_truncated = if leb (sql_max - 1) copied_len && ltb copied_len len then 1 else 0;
      sql = sql;
    }

-- The map that `try_capture_sql_entry` is given.
pub data SqlTarget : Type 0 where
  prepare immediate : SqlTarget

-- The record that `emit_event` writes: the SQL buffer is a copy of the source, or zeroes.
abbrev pub slot : ProbeContext → ℕ → ℕ → ℕ → ℕ → ℕ → Option (List ℕ) → SlowQueryEvent
slot c attachment_ptr prepare_ns execute_ns sql_len sql_truncated sql_src = record {
  ts_ns = c.ktime_ns;
  prepare_ns = prepare_ns;
  execute_ns = execute_ns;
  attachment_id = attachment_ptr;
  tid = tid c;
  sql_len = sql_len;
  sql_truncated = sql_truncated;
  pad = 0;
  sql = get_or sql_src zeroed;
}

-- The event of an execution whose statement is known.
abbrev pub joined : ProbeContext → PreparedStatement → ℕ → SlowQueryEvent
joined c p execute_ns =
    slot c p.attachment_ptr p.prepare_ns execute_ns p.sql_len p.sql_truncated (some p.sql)

-- The event of an execution, from what the lookup of its statement finds.
abbrev pub event_for : ProbeContext → ℕ → Option PreparedStatement → SlowQueryEvent
event_for c execute_ns (some p) = joined c p execute_ns
event_for c execute_ns none = slot c 0 0 execute_ns 0 0 none

-- The entry that `try_prepare_exit` writes into the scratch slot.
abbrev pub prepared_at : ProbeContext → WithSql → PreparedStatement
prepared_at c entry = record {
  attachment_ptr = entry.attachment_ptr;
  prepare_ns = c.ktime_ns - entry.ts_ns;
  sql_len = entry.sql_len;
  sql_truncated = entry.sql_truncated;
  sql = entry.sql;
}

module _ {M L R : Type 0 → Type 0} ⦃hash : HashMap M ℕ⦄ ⦃lru : LruHashMap L ℕ⦄
    ⦃ring : RingBuf R⦄ where
  unfoldable pub store_sql : SqlTarget → ℕ → WithSql → Handler (Maps M L R) (Unit {0})
  store_sql prepare key entry s =
      write (hash.insert s.prepare_in_progress key entry)
        (λ m s. record s { prepare_in_progress = m }) s
  store_sql immediate key entry s =
      write (hash.insert s.immediate_in_progress key entry)
        (λ m s. record s { immediate_in_progress = m }) s

  unfoldable pub try_capture_sql_entry : ProbeContext → SqlTarget → Handler (Maps M L R) (Unit {0})
  unfolding store_sql
  try_capture_sql_entry c target = do
    attachment_ptr ← ok_or (c.arg 1) 1
    len ← ok_or (c.arg 3) 1
    sql_ptr ← ok_or (c.arg 4) 1
    _ ← if c.scratch then pure tt else fail 1
    store_sql target (tid c) (captured c attachment_ptr len sql_ptr)

  unfoldable pub emit_event :
      ProbeContext → ℕ → ℕ → ℕ → ℕ → ℕ → Option (List ℕ) → Handler (Maps M L R) (Unit {0})
  emit_event c attachment_ptr prepare_ns execute_ns sql_len sql_truncated sql_src s =
      if ring.reserve s.events
      then (
        ok tt,
        record s {
          events =
              ring.submit s.events
                (slot c attachment_ptr prepare_ns execute_ns sql_len sql_truncated sql_src);
        },
      )
      else (err 1, s)

  unfoldable pub try_prepare_exit : ProbeContext → Handler (Maps M L R) (Unit {0})
  try_prepare_exit c = do
    entry ← (λ s. ok_or (hash.get s.prepare_in_progress (tid c)) 1 s)
    let dsql_request_ptr = get_or c.ret 0
    let done : Handler (Maps M L R) (Unit {0}) =
        modify (λ s. record s { prepare_in_progress = hash.remove s.prepare_in_progress (tid c) })
    let keep : Handler (Maps M L R) (Unit {0}) = do
      _ ← if c.scratch then pure tt else fail 1
      _ ← done
      λ s.
          write (lru.insert s.prepared_statements dsql_request_ptr (prepared_at c entry))
            (λ m s. record s { prepared_statements = m }) s
    if dsql_request_ptr == 0 then done else keep

  unfoldable pub try_execute_entry : ProbeContext → Handler (Maps M L R) (Unit {0})
  try_execute_entry c = do
    dsql_request_ptr ← ok_or (c.arg 2) 1
    let entry : ExecuteEntry = record { ts_ns = c.ktime_ns; dsql_request_ptr = dsql_request_ptr }
    let insert : Handler (Maps M L R) (Unit {0}) = λ s.
        write (hash.insert s.execute_in_progress (tid c) entry)
          (λ m s. record s { execute_in_progress = m }) s
    if dsql_request_ptr == 0 then pure tt else insert

  -- The `match` on what is known of the statement of an execution or a cursor.
  unfoldable pub emit_for :
      ProbeContext → ℕ → Option PreparedStatement → Handler (Maps M L R) (Unit {0})
  emit_for c execute_ns (some p) =
      emit_event c p.attachment_ptr p.prepare_ns execute_ns p.sql_len p.sql_truncated (some p.sql)
  emit_for c execute_ns none = emit_event c 0 0 execute_ns 0 0 none

  -- The lookup in PREPARED_STATEMENTS, and the event of what it finds.
  unfoldable pub emit_joined : ProbeContext → ℕ → ℕ → Handler (Maps M L R) (Unit {0})
  emit_joined c dsql_request_ptr execute_ns = do
    prepared ← (λ s. (
      ok (lru.get s.prepared_statements dsql_request_ptr),
      record s { prepared_statements = lru.touch s.prepared_statements dsql_request_ptr },
    ))
    emit_for c execute_ns prepared

  unfoldable pub try_execute_exit : ProbeContext → Handler (Maps M L R) (Unit {0})
  try_execute_exit c = do
    entry ← (λ s. ok_or (hash.get s.execute_in_progress (tid c)) 1 s)
    _ ← modify (λ s. record s { execute_in_progress = hash.remove s.execute_in_progress (tid c) })
    emit_joined c entry.dsql_request_ptr (c.ktime_ns - entry.ts_ns)

  -- The entry is removed whether or not the event found room.
  unfoldable pub try_immediate_exit : ProbeContext → Handler (Maps M L R) (Unit {0})
  try_immediate_exit c = do
    entry ← (λ s. ok_or (hash.get s.immediate_in_progress (tid c)) 1 s)
    λ s.
        let (r, s') =
          emit_event c entry.attachment_ptr 0 (c.ktime_ns - entry.ts_ns) entry.sql_len
            entry.sql_truncated (some entry.sql) s in
        (r, record s' { immediate_in_progress = hash.remove s'.immediate_in_progress (tid c) })

  unfoldable pub try_open_cursor_entry : ProbeContext → Handler (Maps M L R) (Unit {0})
  try_open_cursor_entry c = do
    dsql_request_ptr ← ok_or (c.arg 0) 1
    let entry : OpenCursor = record { open_ts_ns = c.ktime_ns; dsql_request_ptr = dsql_request_ptr }
    λ s.
        write (hash.insert s.opencursor_in_progress (tid c) entry)
          (λ m s. record s { opencursor_in_progress = m }) s

  unfoldable pub try_open_cursor_exit : ProbeContext → Handler (Maps M L R) (Unit {0})
  try_open_cursor_exit c = do
    entry ← (λ s. ok_or (hash.get s.opencursor_in_progress (tid c)) 1 s)
    _ ←
        modify
          (λ s. record s { opencursor_in_progress = hash.remove s.opencursor_in_progress (tid c) })
    let cursor_ptr = get_or c.ret 0
    let insert : Handler (Maps M L R) (Unit {0}) = λ s.
        write (lru.insert s.open_cursors cursor_ptr entry) (λ m s. record s { open_cursors = m }) s
    if cursor_ptr == 0 then pure tt else insert

  unfoldable pub try_fetch_next_entry : ProbeContext → Handler (Maps M L R) (Unit {0})
  try_fetch_next_entry c = do
    cursor_ptr ← ok_or (c.arg 0) 1
    let insert : Handler (Maps M L R) (Unit {0}) = λ s.
        write (hash.insert s.fetch_in_progress (tid c) cursor_ptr)
          (λ m s. record s { fetch_in_progress = m }) s
    if cursor_ptr == 0 then pure tt else insert

  -- The end of a cursor: the part of `try_fetch_next_exit` behind the test of the return value.
  unfoldable pub finish_cursor : ProbeContext → ℕ → Handler (Maps M L R) (Unit {0})
  finish_cursor c cursor_ptr = do
    oc ← (λ s.
        ok_or (lru.get s.open_cursors cursor_ptr) 1
          (record s { open_cursors = lru.touch s.open_cursors cursor_ptr }))
    _ ← modify (λ s. record s { open_cursors = lru.remove s.open_cursors cursor_ptr })
    emit_joined c oc.dsql_request_ptr (c.ktime_ns - oc.open_ts_ns)

  unfoldable pub try_fetch_next_exit : ProbeContext → Handler (Maps M L R) (Unit {0})
  try_fetch_next_exit c = do
    cursor_ptr ← (λ s. ok_or (hash.get s.fetch_in_progress (tid c)) 1 s)
    _ ← modify (λ s. record s { fetch_in_progress = hash.remove s.fetch_in_progress (tid c) })
    if get_or c.ret 0 == 1 then finish_cursor c cursor_ptr else pure tt

-- The ten programs, and the firing of one: the error code of its body is dropped.
pub data Probe : Type 0 where
  dsql_prepare_entry dsql_prepare_exit : ProbeContext → Probe
  dsql_execute_entry dsql_execute_exit : ProbeContext → Probe
  dsql_execute_immediate_entry dsql_execute_immediate_exit : ProbeContext → Probe
  dsql_open_cursor_entry dsql_open_cursor_exit : ProbeContext → Probe
  dsql_fetch_next_entry dsql_fetch_next_exit : ProbeContext → Probe

-- The entry program that captures for a map.
abbrev pub sql_entry : SqlTarget → ProbeContext → Probe
sql_entry prepare c = dsql_prepare_entry c
sql_entry immediate c = dsql_execute_immediate_entry c

abbrev pub context : Probe → ProbeContext
context (dsql_prepare_entry c) = c
context (dsql_prepare_exit c) = c
context (dsql_execute_entry c) = c
context (dsql_execute_exit c) = c
context (dsql_execute_immediate_entry c) = c
context (dsql_execute_immediate_exit c) = c
context (dsql_open_cursor_entry c) = c
context (dsql_open_cursor_exit c) = c
context (dsql_fetch_next_entry c) = c
context (dsql_fetch_next_exit c) = c

module _ {M L R : Type 0 → Type 0} ⦃hash : HashMap M ℕ⦄ ⦃lru : LruHashMap L ℕ⦄
    ⦃ring : RingBuf R⦄ where
  unfoldable pub fire : Probe → Maps M L R → Maps M L R
  fire (dsql_prepare_entry c) s = (try_capture_sql_entry c prepare s).1
  fire (dsql_prepare_exit c) s = (try_prepare_exit c s).1
  fire (dsql_execute_entry c) s = (try_execute_entry c s).1
  fire (dsql_execute_exit c) s = (try_execute_exit c s).1
  fire (dsql_execute_immediate_entry c) s = (try_capture_sql_entry c immediate s).1
  fire (dsql_execute_immediate_exit c) s = (try_immediate_exit c s).1
  fire (dsql_open_cursor_entry c) s = (try_open_cursor_entry c s).1
  fire (dsql_open_cursor_exit c) s = (try_open_cursor_exit c s).1
  fire (dsql_fetch_next_entry c) s = (try_fetch_next_entry c s).1
  fire (dsql_fetch_next_exit c) s = (try_fetch_next_exit c s).1

  -- A run of the program: the probes in the order in which they fired, on whatever threads.
  unfoldable pub run : List Probe → Maps M L R → Maps M L R
  run [] s = s
  run (p ∷ ps) s = run ps (fire p s)

-- The events that a run from the loaded program has submitted to the ring buffer.
abbrev pub traced :
    {M L R : Type 0 → Type 0} (hash : HashMap M ℕ) (lru : LruHashMap L ℕ) (ring : RingBuf R)
    → List Probe
    → List SlowQueryEvent
traced hash lru ring ps =
    ring.records
      (run ⦃hash = hash⦄ ⦃lru = lru⦄ ⦃ring = ring⦄ ps
        (loaded ⦃hash = hash⦄ ⦃lru = lru⦄ ⦃ring = ring⦄)).events
