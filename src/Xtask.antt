-- ===== src/Xtask.antt =====
-- The regeneration of the symbol tables, xtask/src/main.rs. The files, nm and the repository's root
-- are a `Machine`; texts are bytes.
pub mod Sorting
pub mod Artifact
use tragach.Prelude.{
  put_front, ℕ, Bool, true, false, not, Option, none, some, List, [], ◌∷◌, ◌++◌, Text, codes, ltb,
  ◌==◌, not_empty, if◌then◌else◌,
}
use tragach.Startup.{join, libengine}

pub data Cmd : Type 0 where
  symbols : (firebird_prefix tag : Text) → Cmd
  build test : Cmd

-- `exists` is `Path::exists`; `nm` is what `nm -C --defined-only` gives on a file, if it can be run:
-- whether it succeeded, and its output; `create_dir_all` and `write` are whether they succeed.
pub record Machine : Type 0 where
  pub exists : Text → Bool
  pub nm : Text → Option (Bool × Text)
  pub repo_root : Text
  pub create_dir_all : Text → Bool
  pub write : Text → Text → Bool

pub data Outcome : Type 0 where
  wrote : (path contents : Text) → Outcome
  engine_missing nm_not_run nm_failed no_directory write_failed not_implemented : Outcome

-- `split(|b| *b == b'\n')`
unfoldable pub split_lines : Text → List Text
split_lines [] = [] ∷ []
split_lines (c ∷ t) = let rest = split_lines t in if c == 10 then [] ∷ rest else put_front c rest

abbrev pub push_line : Text → List Text → List Text
push_line line rest = if not_empty line then line ∷ rest else rest

unfoldable pub filter_lines : List Text → List Text
filter_lines [] = []
filter_lines (line ∷ rest) = push_line line (filter_lines rest)

unfoldable pub symbol_lines : Text → List Text
symbol_lines stdout = filter_lines (split_lines stdout)

-- The order of byte slices, and `sort`.
unfoldable pub le_text : Text → Text → Bool
le_text [] t = true
le_text (c ∷ s) [] = false
le_text (c ∷ s) (d ∷ t) = let rest = le_text s t in if c == d then rest else ltb c d

unfoldable pub insert : Text → List Text → List Text
insert s [] = s ∷ []
insert s (t ∷ lines) = let rest = insert s lines in if le_text s t then s ∷ t ∷ lines else t ∷ rest

unfoldable pub sort : List Text → List Text
sort [] = []
sort (s ∷ lines) = insert s (sort lines)

-- `lines.join(&b'\n')`
abbrev pub join_tail : List Text → Text
join_tail [] = []
join_tail (line ∷ rest) = 10 ∷ line ++ join_tail rest

abbrev pub join_lines : List Text → Text
join_lines [] = []
join_lines (line ∷ rest) = line ++ join_tail rest

-- The bytes that are written, of the output of nm.
unfoldable pub artifact : Text → Text
artifact stdout = join_lines (sort (symbol_lines stdout)) ++ 10 ∷ []

abbrev pub debug_source : Text → Text
debug_source prefix = join prefix (codes "plugins/.debug/libEngine13.so.debug")

abbrev pub out_dir : Machine → Text
out_dir m = join m.repo_root (codes "symbols")

abbrev pub out_path : Machine → Text → Text
out_path m tag = join (out_dir m) (tag ++ codes "-libEngine13.txt")

abbrev pub written : Machine → Text → Text → Outcome
written m tag contents =
    if not (m.create_dir_all (out_dir m))
    then no_directory
    else if m.write (out_path m tag) contents
    then wrote (out_path m tag) contents
    else write_failed

abbrev pub after_nm : Machine → Text → Option (Bool × Text) → Outcome
after_nm m tag none = nm_not_run
after_nm m tag (some (false, stdout)) = nm_failed
after_nm m tag (some (true, stdout)) = written m tag (artifact stdout)

abbrev pub source : Machine → Text → Text
source m prefix = if m.exists (debug_source prefix) then debug_source prefix else libengine prefix

unfoldable pub regen_symbols : Machine → (prefix tag : Text) → Outcome
regen_symbols m prefix tag =
    if not (m.exists (libengine prefix))
    then engine_missing
    else after_nm m tag (m.nm (source m prefix))

unfoldable pub run : Machine → Cmd → Outcome
unfolding regen_symbols
run m (symbols prefix tag) = regen_symbols m prefix tag
run m build = not_implemented
run m test = not_implemented
