-- ===== src/PageIo/Human.antt =====
-- The windows that pageio prints for people, `write_human`, `fmt_dur_ns` and `fmt_bytes` of
-- crates/tragach-pageio/src/main.rs. The wall-clock time and the printing of the interval by the
-- humantime library are arguments.
use tragach.Human.{Floats}
use tragach.PageIo.{PageIoCounters}
use tragach.Prelude.{
  ℕ, ◌/◌, ◌^◌, max, ◌&&◌, List, [], ◌∷◌, ◌++◌, Text, codes, show, leb, ltb, ◌==◌, if◌then◌else◌,
}

-- `ns as f64 / 1e9` and `ns as f64 / 1e6` are quotients.
unfoldable pub fmt_dur_ns : Floats → (ns : ℕ) → Text
fmt_dur_ns floats ns =
    if leb 1000000000 ns
    then floats.quotient ns 1000000000 ++ codes "s"
    else if leb 1000000 ns
    then floats.quotient ns 1000000 ++ codes "ms"
    else if leb 1000 ns
    then show (ns / 1000) ++ codes "us"
    else show ns ++ codes "ns"

unfoldable pub fmt_bytes : Floats → (b : ℕ) → Text
fmt_bytes floats b =
    if leb (2 ^ 30) b
    then floats.quotient b (2 ^ 30) ++ codes " GB"
    else if leb (2 ^ 20) b
    then floats.quotient b (2 ^ 20) ++ codes " MB"
    else if leb (2 ^ 10) b
    then floats.quotient b (2 ^ 10) ++ codes " kB"
    else show b ++ codes " B"

module _ (floats : Floats) (format_duration : (window_ms : ℕ) → Text) where
  abbrev pub engine_avg : PageIoCounters → ℕ
  engine_avg c = if ltb 0 c.engine_count then c.engine_total_ns / c.engine_count else 0

  abbrev pub block_avg : PageIoCounters → ℕ
  block_avg c = if ltb 0 c.block_count then c.block_total_wait_ns / max c.block_count 1 else 0

  abbrev pub ratio_lines : PageIoCounters → List Text
  ratio_lines c =
      if ltb 0 c.engine_total_ns
      then (codes "Ratio block/engine    : "
          ++ (floats.quotient c.block_total_wait_ns c.engine_total_ns
              ++ codes "  (1.0 = engine wait dominated by disk; <1.0 = cache/coord overhead)"))
        ∷ []
      else []

  abbrev pub activity : PageIoCounters → List Text
  activity c =
      codes "Engine page reads (cache misses):"
      ∷ (codes "  count               : " ++ show c.engine_count)
      ∷ (codes "  total wait          : " ++ fmt_dur_ns floats c.engine_total_ns)
      ∷ (codes "  avg / max per call  : "
          ++ (fmt_dur_ns floats (engine_avg c)
              ++ (codes " / " ++ fmt_dur_ns floats c.engine_max_ns)))
      ∷ codes "Block-device I/O (filtered to Firebird tgid):"
      ∷ (codes "  requests            : " ++ show c.block_count)
      ∷ (codes "  total bytes         : " ++ fmt_bytes floats c.block_total_bytes)
      ∷ (codes "  total wait          : " ++ fmt_dur_ns floats c.block_total_wait_ns)
      ∷ (codes "  avg / max per req   : "
          ++ (fmt_dur_ns floats (block_avg c)
              ++ (codes " / " ++ fmt_dur_ns floats c.block_max_wait_ns)))
      ∷ (ratio_lines c ++ [] ∷ [])

  -- The lines of a window.
  unfoldable pub write_human : (ts : Text) → PageIoCounters → (window_ms pid : ℕ) → List Text
  write_human ts c window_ms pid =
      (codes "=== tragach-pageio  "
        ++ (format_duration window_ms ++ (codes " window  pid=" ++ (show pid ++ codes " ==="))))
      ∷ (if c.engine_count == 0 && c.block_count == 0
          then (codes "  (no page-I/O activity in this window)  [" ++ (ts ++ codes "]")) ∷ [] ∷ []
          else activity c)
