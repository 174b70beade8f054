-- ===== src/Startup/Pid.antt =====
-- The process that `resolve_firebird_pid` takes from the output of pgrep,
-- crates/tragach-pageio/src/main.rs and crates/tragach-iowait/src/main.rs.
use tragach.Prelude.Numerals.{from_str_radix-show, first_word-append, show-IsWord, show-ne-nil}
use tragach.Prelude.{
  ℕ, Text, true, some, List, ◌∷◌, ◌++◌, ◌≡◌, ◌<◌, ◌^◌, refl, show, first_word, arith,
}
use tragach.Startup.{Host, Effect, ok, the, require, ◌>>=◌, ◌>>◌, resolve_firebird_pid, parse_pid}

-- Where pgrep succeeds and prints a number below 2^32 on its first line, before any others, that
-- number is the process.
pub resolve_firebird_pid-show :
    (host : Host) (pid : ℕ) (others : Text) (log : List Effect)
    → pid < 2 ^ 32
    → host.pgrep ≡ some (true, some (show pid ++ 10 ∷ others))
    → resolve_firebird_pid host log ≡ (ok pid, log)
unfolding resolve_firebird_pid ◌>>=◌ ◌>>◌ the require
resolve_firebird_pid-show host pid others log small printed =
    let word : first_word (show pid ++ 10 ∷ others) ≡ some (show pid) =
      first_word-append (show pid) others 10 (show-IsWord pid) (show-ne-nil pid) refl in
    let number : parse_pid (show pid) ≡ some pid =
      from_str_radix-show (2 ^ 32) pid small (omega arith) in
    rw printed (rw word (rw number refl))
