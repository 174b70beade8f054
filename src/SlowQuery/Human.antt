-- ===== src/SlowQuery/Human.antt =====
-- The lines that slowquery prints for people, `write_human` of
-- crates/tragach-slowquery/src/main.rs. The wall-clock time and the decoding of UTF-8 are arguments.
use tragach.Event.{SlowQueryEvent}
use tragach.Human.{Floats, fmt_duration}
use tragach.Prelude.{
  ℕ, ◌&&◌, not, Option, none, some, ◌++◌, Text, codes, show, pad_left, pad_right, not_empty, ◌==◌,
  if◌then◌else◌,
}
use tragach.SlowQuery.Userspace.{sql_bytes}

abbrev pub att_display : Option ℕ → Text
att_display none = codes "?   "
att_display (some id) = pad_right 4 (show id)

module _ (floats : Floats) (from_utf8_lossy : Text → Text) where
  unfoldable pub sql_display : SlowQueryEvent → Text
  unfolding sql_bytes
  sql_display ev =
      let sql = from_utf8_lossy (sql_bytes ev) in
      if not (not_empty sql) && ev.attachment_id == 0
      then codes "<sql unknown — execute without tracked prepare>"
      else sql

  unfoldable pub write_human : (ts : Text) → SlowQueryEvent → Option ℕ → Text
  unfolding sql_display
  write_human ts ev att =
      let truncated = if not (ev.sql_truncated == 0) then codes "..." else codes "" in
      ts
      ++ (codes "  att="
          ++ (att_display att
              ++ (codes " prepare="
                  ++ (pad_left 32 9 (fmt_duration floats ev.prepare_ns)
                      ++ (codes "  execute="
                          ++ (pad_left 32 9 (fmt_duration floats ev.execute_ns)
                              ++ (codes "  " ++ (sql_display ev ++ (truncated ++ codes "\n")))))))))
