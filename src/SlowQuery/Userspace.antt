-- ===== src/SlowQuery/Userspace.antt =====
-- The userspace half of slowquery, crates/tragach-slowquery/src/main.rs: records are decoded,
-- filtered, given small attachment ids and turned into output records. What is outside the
-- repository is a parameter: the decoding of UTF-8 (`String::from_utf8_lossy`).
use tragach.Event.Layout.{read_word, size_of_slow_query_event}
use tragach.Event.{SlowQueryEvent, sql_max}
use tragach.Prelude.{
  ℕ, ◌+◌, ◌/◌, ◌%◌, ◌^◌, min, Bool, false, not, ◌&&◌, Option, none, some, List, [], ◌∷◌, ◌++◌,
  length, take, drop, ltb, ◌==◌, if◌then◌else◌,
}

-- `read_unaligned` at the type `SlowQueryEvent`.
unfoldable pub read_event : List ℕ → SlowQueryEvent
read_event bytes = record {
  ts_ns = read_word 8 0 bytes;
  prepare_ns = read_word 8 8 bytes;
  execute_ns = read_word 8 16 bytes;
  attachment_id = read_word 8 24 bytes;
  tid = read_word 4 32 bytes;
  sql_len = read_word 4 36 bytes;
  sql_truncated = read_word 4 40 bytes;
  pad = read_word 4 44 bytes;
  sql = take sql_max (drop 48 bytes);
}

-- `Err(())` is none.
unfoldable pub decode_event : List ℕ → Option SlowQueryEvent
decode_event bytes =
    if ltb (length bytes) size_of_slow_query_event then none else some (read_event bytes)

-- The bytes up to the first NUL, or all of them.
unfoldable pub before_nul : List ℕ → List ℕ
before_nul [] = []
before_nul (b ∷ bs) = if b == 0 then [] else b ∷ before_nul bs

-- The bytes that `sql_str` decodes.
unfoldable pub sql_bytes : SlowQueryEvent → List ℕ
unfolding before_nul
sql_bytes ev = before_nul (take (min ev.sql_len sql_max) ev.sql)

-- `id_table`: a `HashMap<u64, u32>`, the latest insertion first.
unfoldable pub find : ℕ → List (ℕ × ℕ) → Option ℕ
find ptr [] = none
find ptr ((p, id) ∷ table) = if p == ptr then some id else find ptr table

pub record Ids : Type 0 where
  pub id_table : List (ℕ × ℕ)
  pub next_id : ℕ

-- `entry(attachment_id).or_insert_with(..)`, unless the attachment is unknown.
unfoldable pub insert_new : Option ℕ → ℕ → Ids → Option ℕ × Ids
insert_new (some id) ptr s = (some id, s)
insert_new none ptr s =
    let next = (s.next_id + 1) % 2 ^ 32 in
    (some next, record { id_table = (ptr, next) ∷ s.id_table; next_id = next })

unfoldable pub small_id : ℕ → Ids → Option ℕ × Ids
unfolding insert_new
small_id ptr s = if ptr == 0 then (none, s) else insert_new (find ptr s.id_table) ptr s

-- `JsonEvent` without its wall-clock time; `att_ptr` is the number that is printed in hexadecimal.
pub record JsonEvent (Text : Type 0) : Type 0 where
  pub att : Option ℕ
  pub att_ptr : Option ℕ
  pub tid : ℕ
  pub prepare_us : ℕ
  pub execute_us : ℕ
  pub sql : Option Text
  pub truncated : Bool

pub record Session (Text : Type 0) : Type 0 where
  pub ids : Ids
  pub dropped : ℕ
  pub written : List (JsonEvent Text)

module _ {Text : Type 0} (from_utf8_lossy : List ℕ → Text) (is_empty : Text → Bool) where
  -- `write_json`, as the value that it serialises.
  unfoldable pub json_event : SlowQueryEvent → Option ℕ → JsonEvent Text
  json_event ev att =
      let sql = from_utf8_lossy (sql_bytes ev) in
      record {
        att = att;
        att_ptr = if ev.attachment_id == 0 then none else some ev.attachment_id;
        tid = ev.tid;
        prepare_us = ev.prepare_ns / 1000;
        execute_us = ev.execute_ns / 1000;
        sql = if is_empty sql && ev.attachment_id == 0 then none else some sql;
        truncated = not (ev.sql_truncated == 0);
      }

  -- `if let Some(t) = threshold_ns { if ev.execute_ns < t { continue; } }`
  unfoldable pub skips : Option ℕ → SlowQueryEvent → Bool
  skips none ev = false
  skips (some t) ev = ltb ev.execute_ns t

  -- The body of the loop over the ring buffer for one record, with `--json`.
  unfoldable pub on_event : Option ℕ → Option SlowQueryEvent → Session Text → Session Text
  on_event threshold_ns none s = record s { dropped = s.dropped + 1 }
  on_event threshold_ns (some ev) s =
      let (att, ids) = small_id ev.attachment_id s.ids in
      if skips threshold_ns ev
      then s
      else record s { ids = ids; written = s.written ++ json_event ev att ∷ [] }

  -- `while let Some(item) = ring.next()`.
  unfoldable pub drain : Option ℕ → List (List ℕ) → Session Text → Session Text
  drain threshold_ns [] s = s
  drain threshold_ns (bytes ∷ items) s =
      drain threshold_ns items (on_event threshold_ns (decode_event bytes) s)
