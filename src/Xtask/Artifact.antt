-- ===== src/Xtask/Artifact.antt =====
-- The symbol tables that xtask/src/main.rs writes.
use mathlib.Core.List.{Permᴰ, append_assoc, append-nil}
use tragach.Prelude.{
  put_front, ℕ, Bool, true, false, not, Option, none, some, List, [], ◌∷◌, ◌++◌, ◌≡◌, ◌≢◌, refl, ap,
  ◌∙◌, sym, subst, Text, All, not_empty, ◌==◌, ==-of_ne, Bool-cases, inl, inr, if◌then◌else◌, arith,
}
use tragach.Startup.{libengine}
use tragach.Xtask.Sorting.{Sorted, sort_perm, sort-Sorted, sort-Permᴰ, All-sort}
use tragach.Xtask.{
  Machine, Cmd, Outcome, wrote, symbols, split_lines, push_line, filter_lines, symbol_lines, sort,
  join_tail, join_lines, artifact, after_nm, written, source, no_directory, write_failed,
  engine_missing, run, out_path, out_dir,
}

abbrev Without : Text → Type 0
Without t = All (λ c. c ≢ 10) t

put_front-Without :
    (c : ℕ) (lines : List Text) → c ≢ 10 → All Without lines → All Without (put_front c lines)
put_front-Without c [] h hs = ((h, tt), tt)
put_front-Without c (line ∷ rest) h hs = ((h, hs.0), hs.1)

split_lines-Without : (t : Text) → All Without (split_lines t)
unfolding split_lines
split_lines-Without [] = (tt, tt)
split_lines-Without (c ∷ t) = elim (Bool-cases (c == 10)) [
  | inl e ↦ rw e (tt, split_lines-Without t)
  | inr e ↦
      rw e (put_front-Without c (split_lines t) (λ z. ground (arith, z, e)) (split_lines-Without t))
]

-- A line is not empty and has no line end in it.
abbrev IsLine : Text → Type 0
IsLine t = (not_empty t ≡ true) × Without t

filter_lines-IsLine : (lines : List Text) → All Without lines → All IsLine (filter_lines lines)
unfolding filter_lines
filter_lines-IsLine [] h = tt
filter_lines-IsLine ([] ∷ lines) h = filter_lines-IsLine lines h.1
filter_lines-IsLine ((c ∷ t) ∷ lines) h = ((refl, h.0), filter_lines-IsLine lines h.1)

split_lines-append :
    (line rest : Text) → Without line → split_lines (line ++ 10 ∷ rest) ≡ line ∷ split_lines rest
unfolding split_lines
split_lines-append [] rest h = refl
split_lines-append (c ∷ line) rest h =
    rw (==-of_ne c 10 h.0) (ap (put_front c) (split_lines-append line rest h.1))

push_line-IsLine :
    (line : Text) (rest : List Text) → IsLine line → push_line line rest ≡ line ∷ rest
push_line-IsLine line rest h = rw (h.0) refl

symbol_lines-append :
    (line rest : Text) → IsLine line → symbol_lines (line ++ 10 ∷ rest) ≡ line ∷ symbol_lines rest
unfolding symbol_lines filter_lines
symbol_lines-append line rest h =
    ap filter_lines (split_lines-append line rest h.1)
    ∙ push_line-IsLine line (filter_lines (split_lines rest)) h

symbol_lines-join :
    (line : Text) (rest : List Text)
    → IsLine line
    → All IsLine rest
    → symbol_lines ((line ++ join_tail rest) ++ 10 ∷ []) ≡ line ∷ rest
symbol_lines-join line [] h hs =
    ap (λ t. symbol_lines (t ++ 10 ∷ [])) (append-nil line)
    ∙ symbol_lines-append line [] h
    ∙ (unfold symbol_lines split_lines filter_lines in refl)
symbol_lines-join line (next ∷ rest) h hs =
    ap symbol_lines (append_assoc line (join_tail (next ∷ rest)) (10 ∷ []))
    ∙ symbol_lines-append line ((next ++ join_tail rest) ++ 10 ∷ []) h
    ∙ ap (◌∷◌ line) (symbol_lines-join next rest hs.0 hs.1)

symbol_lines-join_lines :
    (lines : List Text) → All IsLine lines → symbol_lines (join_lines lines ++ 10 ∷ []) ≡ lines
symbol_lines-join_lines [] h = unfold symbol_lines split_lines filter_lines in refl
symbol_lines-join_lines (line ∷ rest) h = symbol_lines-join line rest h.0 h.1

symbol_lines-artifact :
    (stdout : Text) → symbol_lines (artifact stdout) ≡ sort (symbol_lines stdout)
unfolding artifact
symbol_lines-artifact stdout = symbol_lines-join_lines (sort (symbol_lines stdout)) (
    All-sort IsLine (symbol_lines stdout) (
      unfold symbol_lines in filter_lines-IsLine (split_lines stdout) (split_lines-Without stdout)))

-- Two outputs of nm with the same lines, in any order.
abbrev pub SameLines : Option (Bool × Text) → Option (Bool × Text) → Type 0
SameLines (some (true, s)) (some (true, t)) = Permᴰ (symbol_lines s) (symbol_lines t)
SameLines (some (false, s)) (some (false, t)) = Unit
SameLines none none = Unit
SameLines _ _ = ⊥

after_nm-SameLines :
    (m : Machine) (tag : Text) (a b : Option (Bool × Text))
    → SameLines a b
    → after_nm m tag a ≡ after_nm m tag b
unfolding artifact
after_nm-SameLines m tag none none h = refl
after_nm-SameLines m tag none (some b) h = absurd h
after_nm-SameLines m tag (some (true, s)) (some (true, t)) h =
    ap (λ l. written m tag (join_lines l ++ 10 ∷ [])) (sort-Permᴰ h)
after_nm-SameLines m tag (some (false, s)) (some (false, t)) h = refl
after_nm-SameLines m tag (some (true, s)) (some (false, t)) h = absurd h
after_nm-SameLines m tag (some (false, s)) (some (true, t)) h = absurd h
after_nm-SameLines m tag (some (true, s)) none h = absurd h
after_nm-SameLines m tag (some (false, s)) none h = absurd h

-- Where nm gives the same lines in any order, on each file, the command does the same: it writes the
-- same bytes to the same path, or fails with the same error.
pub run-SameLines :
    (m : Machine) (nm : Text → Option (Bool × Text)) (cmd : Cmd)
    → ((file : Text) → SameLines (m.nm file) (nm file))
    → run m cmd ≡ run (record m { nm = nm }) cmd
unfolding run
run-SameLines m nm Cmd.build same = refl
run-SameLines m nm Cmd.test same = refl
run-SameLines m nm (symbols prefix tag) same =
    ap (λ o. if not (m.exists (libengine prefix)) then engine_missing else o)
      (after_nm-SameLines m tag (m.nm (source m prefix)) (nm (source m prefix))
        (same (source m prefix)))

if_written :
    (dir ok : Bool) (path contents : Text) {p c : Text}
    → (if not dir then no_directory else if ok then wrote path contents else write_failed)
      ≡ wrote p c
    → (p ≡ path) × (c ≡ contents)
if_written true true path contents e = (cc, cc)
if_written true false path contents e = absurd (cc)
if_written false ok path contents e = absurd (cc)

after_nm-wrote :
    (m : Machine) (tag : Text) (out : Option (Bool × Text)) {path contents : Text}
    → after_nm m tag out ≡ wrote path contents
    → (stdout : Text) × (out ≡ some (true, stdout))
      × (path ≡ out_path m tag)
      × (contents ≡ artifact stdout)
after_nm-wrote m tag none e = absurd (cc)
after_nm-wrote m tag (some (false, stdout)) e = absurd (cc)
after_nm-wrote m tag (some (true, stdout)) e =
    let (p, c) =
      if_written (m.create_dir_all (out_dir m)) (m.write (out_path m tag) (artifact stdout)) _ _
        e in
    (stdout, refl, p, c)

if_present :
    (there : Bool) (o : Outcome) {path contents : Text}
    → (if not there then engine_missing else o) ≡ wrote path contents
    → o ≡ wrote path contents
if_present true o e = e
if_present false o e = absurd (cc)

-- A symbol table that is written has the lines that nm printed of the debug file, if there is one,
-- or of the engine, but for the empty lines, each as often as there, and in order.
pub run-Sorted :
    (m : Machine) (prefix tag path contents : Text)
    → run m (symbols prefix tag) ≡ wrote path contents
    → (stdout : Text) × (m.nm (source m prefix) ≡ some (true, stdout))
      × (path ≡ out_path m tag)
      × Permᴰ (symbol_lines contents) (symbol_lines stdout)
      × Sorted (symbol_lines contents)
unfolding run
run-Sorted m prefix tag path contents e =
    let (stdout, out, p, c) =
      after_nm-wrote m tag (m.nm (source m prefix))
        (if_present (m.exists (libengine prefix)) _ e) in
    let lines : symbol_lines contents ≡ sort (symbol_lines stdout) =
      ap symbol_lines c ∙ symbol_lines-artifact stdout in
    (
      stdout,
      out,
      p,
      subst (λ l. Permᴰ l (symbol_lines stdout)) (sym lines) (sort_perm (symbol_lines stdout)),
      subst Sorted (sym lines) (sort-Sorted (symbol_lines stdout)),
    )
