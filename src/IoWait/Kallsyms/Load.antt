-- ===== src/IoWait/Kallsyms/Load.antt =====
-- The reading of /proc/kallsyms, `Kallsyms::load` of crates/tragach-iowait/src/kallsyms.rs, after
-- the file is read as text.
use tragach.IoWait.Kallsyms.{Sym}
use tragach.Prelude.{
  put_front, ℕ, ◌^◌, ◌||◌, Option, none, some, List, [], ◌∷◌, Text, eq_str, from_str_radix, leb,
  ◌==◌, if◌then◌else◌,
}

-- `str::lines`: each line with its end, and then without.
unfoldable pub split_inclusive : Text → List Text
split_inclusive [] = []
split_inclusive (c ∷ t) =
    let rest = split_inclusive t in if c == 10 then (10 ∷ []) ∷ rest else put_front c rest

unfoldable pub strip_end : Text → Text
strip_end [] = []
strip_end (c ∷ t) =
    let rest = strip_end t in
    if eq_str (c ∷ t) (10 ∷ []) || eq_str (c ∷ t) (13 ∷ 10 ∷ []) then [] else c ∷ rest

-- `split(sep).next()`, and what follows the first separator.
unfoldable pub before : ℕ → Text → Text
before sep [] = []
before sep (c ∷ t) = let rest = before sep t in if c == sep then [] else c ∷ rest

unfoldable pub after : ℕ → Text → Option Text
after sep [] = none
after sep (c ∷ t) = let rest = after sep t in if c == sep then some t else rest

-- "<hex_addr> <type_char> <name>[\t<module>]"; the lines that the loop passes over are `none`.
abbrev pub entry : Option ℕ → Option Text → Option Sym
entry (some addr) (some name) =
    if addr == 0 then none else some (record { addr = addr; name = before 9 name })
entry _ _ = none

abbrev pub third : Option Text → Option Text
third none = none
third (some rest) = after 32 rest

unfoldable pub parse_line : Text → Option Sym
parse_line line = entry (from_str_radix 16 (2 ^ 64) (before 32 line)) (third (after 32 line))

abbrev pub push_some : Option Sym → List Sym → List Sym
push_some none syms = syms
push_some (some s) syms = s ∷ syms

unfoldable pub parse_lines : List Text → List Sym
parse_lines [] = []
parse_lines (line ∷ rest) = push_some (parse_line (strip_end line)) (parse_lines rest)

-- The table in the order of the file.
unfoldable pub file_syms : Text → List Sym
file_syms text = parse_lines (split_inclusive text)

-- `sort_by_key`, which is stable.
unfoldable pub insert : Sym → List Sym → List Sym
insert s [] = s ∷ []
insert s (t ∷ syms) = if leb s.addr t.addr then s ∷ t ∷ syms else t ∷ insert s syms

unfoldable pub sort_by_addr : List Sym → List Sym
sort_by_addr [] = []
sort_by_addr (s ∷ syms) = insert s (sort_by_addr syms)

unfoldable pub load : Text → List Sym
load text = sort_by_addr (file_syms text)
