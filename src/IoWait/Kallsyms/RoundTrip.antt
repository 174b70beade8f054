-- ===== src/IoWait/Kallsyms/RoundTrip.antt =====
-- A table as the kernel prints it in /proc/kallsyms loads back,
-- crates/tragach-iowait/src/kallsyms.rs.
use tragach.IoWait.Kallsyms.Load.{
  split_inclusive, strip_end, before, after, entry, third, parse_line, push_some, parse_lines,
  file_syms,
}
use tragach.IoWait.Kallsyms.{Sym}
use tragach.Prelude.Numerals.Fields.{from_str_radix-pad_left, pad_left-above}
use tragach.Prelude.{
  put_front, ℕ, ◌^◌, ◌<◌, ◌≤◌, ◌≡◌, ◌≢◌, some, List, [], ◌∷◌, ◌++◌, All, All-map, All-append, Text,
  map, refl, ap, ◌∙◌, show_hex, pad_left, ==-of_ne, arith, from_str_radix,
}

-- A line of the file: the symbol, its type character, and the module that follows a tab.
pub record Listed : Type 0 where
  pub symbol : Sym
  pub kind : ℕ
  pub suffix : Text

abbrev pub print_line : Listed → Text
print_line l =
    pad_left 48 16 (show_hex l.symbol.addr) ++ 32 ∷ l.kind ∷ 32 ∷ (l.symbol.name ++ l.suffix)

abbrev pub print_table : List Listed → Text
print_table [] = []
print_table (l ∷ table) = print_line l ++ 10 ∷ print_table table

abbrev pub Without : ℕ → Text → Type 0
Without c t = All (λ d. d ≢ c) t

-- The suffix is empty or starts with a tab.
abbrev pub IsSuffix : Text → Type 0
IsSuffix [] = Unit
IsSuffix (c ∷ t) = c ≡ 9

pub record IsListed (l : Listed) : Type 0 where
  pub nonzero : 0 < l.symbol.addr
  pub word : l.symbol.addr < 2 ^ 64
  pub kind_ne : (l.kind ≢ 10) × (l.kind ≢ 13) × (l.kind ≢ 32)
  pub name_tab : Without 9 l.symbol.name
  pub name_end : Without 10 (l.symbol.name ++ l.suffix)
  pub name_return : Without 13 (l.symbol.name ++ l.suffix)
  pub suffix_tab : IsSuffix l.suffix

before-append : (sep : ℕ) (t rest : Text) → Without sep t → before sep (t ++ sep ∷ rest) ≡ t
unfolding before
before-append sep [] rest h = ground arith
before-append sep (c ∷ t) rest h =
    rw (==-of_ne c sep h.0) (ap (◌∷◌ c) (before-append sep t rest h.1))

after-append : (sep : ℕ) (t rest : Text) → Without sep t → after sep (t ++ sep ∷ rest) ≡ some rest
unfolding after
after-append sep [] rest h = ground arith
after-append sep (c ∷ t) rest h = rw (==-of_ne c sep h.0) (after-append sep t rest h.1)

before-suffix :
    (name suffix : Text) → Without 9 name → IsSuffix suffix → before 9 (name ++ suffix) ≡ name
unfolding before
before-suffix [] [] h s = refl
before-suffix [] (c ∷ suffix) h s = ground arith
before-suffix (c ∷ name) suffix h s =
    rw (==-of_ne c 9 h.0) (ap (◌∷◌ c) (before-suffix name suffix h.1 s))

strip_end-append : (t : Text) → Without 10 t → Without 13 t → strip_end (t ++ 10 ∷ []) ≡ t
unfolding strip_end
strip_end-append [] h r = refl
strip_end-append (c ∷ t) h r =
    rw (==-of_ne c 10 h.0) (rw (==-of_ne c 13 r.0) (ap (◌∷◌ c) (strip_end-append t h.1 r.1)))

split_inclusive-append :
    (t rest : Text)
    → Without 10 t
    → split_inclusive (t ++ 10 ∷ rest) ≡ (t ++ 10 ∷ []) ∷ split_inclusive rest
unfolding split_inclusive
split_inclusive-append [] rest h = refl
split_inclusive-append (c ∷ t) rest h =
    rw (==-of_ne c 10 h.0) (ap (put_front c) (split_inclusive-append t rest h.1))

module _ (l : Listed) (h : IsListed l) where
  abbrev address : Text
  address = pad_left 48 16 (show_hex l.symbol.addr)

  address-Without : (c : ℕ) → c < 48 → Without c address
  address-Without c small =
      All-map (λ d. 48 ≤ d) (λ d. d ≢ c) address (λ d above e. omega (arith, above, e, small))
        (pad_left-above 16 l.symbol.addr)

  parse_line-print_line : parse_line (print_line l) ≡ some l.symbol
  unfolding parse_line
  parse_line-print_line =
      let full = l.symbol.name ++ l.suffix in
      let rest = l.kind ∷ 32 ∷ full in
      let addr : from_str_radix 16 (2 ^ 64) (before 32 (address ++ 32 ∷ rest))
          ≡ some l.symbol.addr =
        ap (from_str_radix 16 (2 ^ 64))
          (before-append 32 address rest (address-Without 32 (omega arith)))
        ∙ from_str_radix-pad_left (2 ^ 64) 16 l.symbol.addr h.word h.word in
      let name : third (after 32 (address ++ 32 ∷ rest)) ≡ some full =
        ap third (after-append 32 address rest (address-Without 32 (omega arith)))
        ∙ after-append 32 (l.kind ∷ []) full (h.kind_ne.2, tt) in
      ap (λ a. entry a (third (after 32 (address ++ 32 ∷ rest)))) addr
      ∙ ap (entry (some l.symbol.addr)) name
      ∙ rw (==-of_ne l.symbol.addr 0 (omega (arith, h.nonzero))) (
          ap (λ n. some (record { addr = l.symbol.addr; name = n }))
            (before-suffix l.symbol.name l.suffix h.name_tab h.suffix_tab))

  print_line-Without :
      (c : ℕ)
      → c < 48
      → 32 ≢ c
      → l.kind ≢ c
      → Without c (l.symbol.name ++ l.suffix)
      → Without c (print_line l)
  print_line-Without c small space kind name =
      All-append (λ d. d ≢ c) address _ (address-Without c small) (space, (kind, (space, name)))

parse_lines-print_line :
    (l : Listed) (rest : Text)
    → IsListed l
    → file_syms (print_line l ++ 10 ∷ rest) ≡ l.symbol ∷ file_syms rest
unfolding file_syms parse_lines
parse_lines-print_line l rest h =
    let ends = print_line-Without l h 10 (omega arith) (omega arith) h.kind_ne.0 h.name_end in
    let returns = print_line-Without l h 13 (omega arith) (omega arith) h.kind_ne.1 h.name_return in
    ap parse_lines (split_inclusive-append (print_line l) rest ends)
    ∙ ap (λ t. push_some (parse_line t) (parse_lines (split_inclusive rest)))
        (strip_end-append (print_line l) ends returns)
    ∙ ap (λ o. push_some o (parse_lines (split_inclusive rest))) (parse_line-print_line l h)

-- The symbols of a printed table are those that it was printed from, in order, if their addresses are
-- nonzero and have 64 bits, no type character is a space, no name has a tab, no module comes without
-- one before it, and no line end stands in a line.
pub file_syms-print_table :
    (table : List Listed)
    → All IsListed table
    → file_syms (print_table table) ≡ map (λ l. l.symbol) table
file_syms-print_table [] h = unfold file_syms parse_lines split_inclusive in refl
file_syms-print_table (l ∷ table) h =
    parse_lines-print_line l (print_table table) h.0
    ∙ ap (◌∷◌ l.symbol) (file_syms-print_table table h.1)
