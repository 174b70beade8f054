-- ===== src/Human.antt =====
-- The durations that the tracers print for people: `fmt_duration` of
-- crates/tragach-slowquery/src/main.rs and crates/tragach-attach/src/main.rs.
use tragach.Prelude.{ℕ, ◌/◌, ◌++◌, Text, codes, show, leb, if◌then◌else◌}

-- Floating-point numbers, printed with two places: the seconds and the milliseconds of so many
-- nanoseconds, and a quotient.
pub record Floats : Type 0 where
  pub seconds : ℕ → Text
  pub millis : ℕ → Text
  pub quotient : (a b : ℕ) → Text

unfoldable pub fmt_duration : Floats → (ns : ℕ) → Text
fmt_duration floats ns =
    if leb 1 (ns / 1000000000)
    then floats.seconds ns ++ codes "s"
    else if leb 1 (ns / 1000000)
    then floats.millis ns ++ codes "ms"
    else if leb 1 (ns / 1000)
    then show (ns / 1000) ++ codes "us"
    else show ns ++ codes "ns"
