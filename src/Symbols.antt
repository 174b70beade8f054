-- ===== src/Symbols.antt =====
-- The resolution of probe targets, the loop that symbols.rs of crates/tragach-slowquery/src,
-- crates/tragach-attach/src and crates/tragach-pageio/src share. The ELF file's symbols are an
-- argument, names are lists of bytes, and the text of an error is left out.
pub mod Targets
pub mod Unique
pub mod Complete
use tragach.Prelude.{
  starts_with, ℕ, Option, none, some, List, [], ◌∷◌, Bool, true, false, ◌||◌, ◌==◌, if◌then◌else◌,
  length, ◌-◌, drop, ltb, ◌&&◌,
}

-- What the loop reads of an ELF symbol.
pub record Symbol : Type 0 where
  pub is_text : Bool
  pub name : Option (List ℕ)
  pub address : ℕ

-- `str::ends_with`
abbrev pub ends_with : List ℕ → List ℕ → Bool
ends_with [] suffix = length suffix == 0
ends_with (c ∷ name) suffix =
    let rest = ends_with name suffix in
    (length (c ∷ name) == length suffix && starts_with (c ∷ name) suffix) || rest

-- ".cold"
abbrev pub cold : List ℕ
cold = 46 ∷ 99 ∷ 111 ∷ 108 ∷ 100 ∷ []

-- None is the error; a slot that is filled must hold the same address.
unfoldable pub check_unique : Option ℕ → ℕ → Option (Option ℕ)
check_unique none addr = some (some addr)
check_unique (some prev) addr = if prev == addr then some (some prev) else none

-- The slots are numbered.
abbrev put : (ℕ → Option ℕ) → ℕ → Option (Option ℕ) → Option (ℕ → Option ℕ)
put slots t none = none
put slots t (some v) = some (λ u. if u == t then v else slots u)

abbrev visit : (ℕ → Option ℕ) → Option ℕ → ℕ → Option (ℕ → Option ℕ)
visit slots none addr = some slots
visit slots (some t) addr = put slots t (check_unique (slots t) addr)

abbrev then_scan :
    Option (ℕ → Option ℕ) → ((ℕ → Option ℕ) → Option (ℕ → Option ℕ)) → Option (ℕ → Option ℕ)
then_scan none rest = none
then_scan (some slots) rest = rest slots

-- `target_of` is the chain of prefix tests on a name.
module _ (target_of : List ℕ → Option ℕ) where
  abbrev pub named : Option (List ℕ) → Option ℕ
  named none = none
  named (some name) = if ends_with name cold then none else target_of name

  -- The slot that a symbol concerns, if it is a text symbol with a name that is not a cold clone.
  unfoldable pub target : Symbol → Option ℕ
  target sym = if sym.is_text then named sym.name else none

  -- `for sym in elf.symbols()`
  unfoldable pub scan : (ℕ → Option ℕ) → List Symbol → Option (ℕ → Option ℕ)
  unfolding target check_unique
  scan slots [] = some slots
  scan slots (sym ∷ syms) = then_scan (visit slots (target sym) sym.address) (λ s. scan s syms)
