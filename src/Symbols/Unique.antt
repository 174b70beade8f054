-- ===== src/Symbols/Unique.antt =====
-- What a resolution finds, symbols.rs of crates/tragach-slowquery/src, crates/tragach-attach/src
-- and crates/tragach-pageio/src.
use tragach.Prelude.{
  ℕ, ◌≡◌, ◌<◌, ◌∙◌, refl, subst, sym, ap, Option, none, some, some_injective, List, [], ◌∷◌, All,
  length, Bool, true, false, not, ◌&&◌, Bool-cases, ◌==◌, ==_iff, if◌then◌else◌, Option-cases, inl,
  inr, arith,
}
use tragach.Symbols.{
  Symbol, ends_with, cold, named, check_unique, put, visit, then_scan, target, scan,
}
use tragach.Symbols.Targets.{
  dsql_target, DsqlOffsets, dsql_offsets, dsql_found, attach_found, page_io_found, resolve_dsql,
  attach_target, AttachOffsets, attach_offsets, resolve_attach, page_io_target, resolve_page_io,
}

abbrev pub is_slot : ℕ → Option ℕ → Bool
is_slot t none = false
is_slot t (some u) = t == u

-- There is an address, and every address is `a`.
abbrev pub Only : ℕ → List ℕ → Type 0
Only a xs = (0 < length xs) × All (λ b. b ≡ a) xs

abbrev fill_with : Option (Option ℕ) → (Option ℕ → Option (Option ℕ)) → Option (Option ℕ)
fill_with none rest = none
fill_with (some v) rest = rest v

abbrev pub fill : Option ℕ → List ℕ → Option (Option ℕ)
fill v [] = some v
fill v (a ∷ xs) = fill_with (check_unique v a) (λ w. fill w xs)

pub fill-some :
    (a : ℕ) (xs : List ℕ) (o : Option ℕ)
    → fill (some a) xs ≡ some o
    → (o ≡ some a) × All (λ b. b ≡ a) xs
unfolding check_unique
fill-some a [] o e = ground arith
fill-some a (b ∷ xs) o e = ground (arith, fill-some a xs o)

fill-none : (a : ℕ) (xs : List ℕ) → fill none xs ≡ some (some a) → Only a xs
unfolding check_unique
fill-none a [] e = absurd (ground arith)
fill-none a (b ∷ xs) e =
    let (same, all) = fill-some b xs (some a) e in
    let ab : a ≡ b = some_injective same in
    (omega arith, (sym ab, subst (λ c. All (λ x. x ≡ c) xs) (sym ab) all))

abbrev pub Slots : Type 0
Slots = ℕ → Option ℕ

pub cc_none : {A : Type 0} {a : A} → none ≡ some a → ⊥
cc_none e = cc

put-cases :
    (slots out : Slots) (u : ℕ) (x : Option (Option ℕ))
    → put slots u x ≡ some out
    → (v : Option ℕ) × (x ≡ some v) × ((λ t. if t == u then v else slots t) ≡ out)
put-cases slots out u none e = absurd (cc_none e)
put-cases slots out u (some v) e = (v, refl, some_injective e)

put-fill :
    (b : Bool) (x y v w : Option ℕ) (addr : ℕ) (rest : List ℕ)
    → (b ≡ true → x ≡ y)
    → check_unique y addr ≡ some v
    → fill (if b then v else x) rest ≡ some w
    → fill x (if b then addr ∷ rest else rest) ≡ some w
put-fill true x y v w addr rest same checked f = rw (same refl, checked) f
put-fill false x y v w addr rest same checked f = f

module _ (target_of : List ℕ → Option ℕ) where
  -- Whether a symbol concerns a slot, by its section and name: a cold clone never does.
  abbrev pub concerns : ℕ → Bool → Option (List ℕ) → Bool
  concerns t true (some name) = not (ends_with name cold) && is_slot t (target_of name)
  concerns t true none = false
  concerns t false name = false

  fields-concerns :
      (t : ℕ) (text : Bool) (name : Option (List ℕ))
      → is_slot t (if text then named target_of name else none) ≡ concerns t text name
  fields-concerns t false name = refl
  fields-concerns t true none = refl
  fields-concerns t true (some name) = elim (Bool-cases (ends_with name cold)) [
    | inl z ↦ rw z refl
    | inr z ↦ rw z refl
  ]

  pub is_slot-target :
      (t : ℕ) (symbol : Symbol)
      → is_slot t (target target_of symbol) ≡ concerns t symbol.is_text symbol.name
  unfolding target
  is_slot-target t symbol = fields-concerns t symbol.is_text symbol.name

  -- The addresses of the symbols that concern a slot.
  abbrev pub matches : ℕ → List Symbol → List ℕ
  matches t [] = []
  matches t (symbol ∷ syms) =
      let rest = matches t syms in
      if concerns t symbol.is_text symbol.name then symbol.address ∷ rest else rest

  visit-fill :
      (t : ℕ) (slots next : Slots) (o : Option ℕ) (addr : ℕ) (rest : List ℕ) (w : Option ℕ)
      → visit slots o addr ≡ some next
      → fill (next t) rest ≡ some w
      → fill (slots t) (if is_slot t o then addr ∷ rest else rest) ≡ some w
  visit-fill t slots next none addr rest w e f = ap (λ s. fill (s t) rest) (some_injective e) ∙ f
  visit-fill t slots next (some u) addr rest w e f =
      let (v, checked, stored) = put-cases slots next u (check_unique (slots u) addr) e in
      let g : fill (if t == u then v else slots t) rest ≡ some w =
        ap (λ s. fill (s t) rest) stored ∙ f in
      put-fill (t == u) (slots t) (slots u) v w addr rest (λ z. ap slots ((==_iff t u).0 z)) checked
        g

  then-cases :
      (o : Option Slots) (rest : Slots → Option Slots) (out : Slots)
      → then_scan o rest ≡ some out
      → (s : Slots) × (o ≡ some s) × (rest s ≡ some out)
  then-cases none rest out e = absurd (cc_none e)
  then-cases (some s) rest out e = (s, refl, e)

  pub scan-fill :
      (t : ℕ) (slots out : ℕ → Option ℕ) (syms : List Symbol)
      → scan target_of slots syms ≡ some out
      → fill (slots t) (matches t syms) ≡ some (out t)
  unfolding scan
  scan-fill t slots out [] e = ap some (ap (λ f. f t) (some_injective e))
  scan-fill t slots out (symbol ∷ syms) e =
      let (next, visited, rest) =
        then-cases (visit slots (target target_of symbol) symbol.address)
          (λ s. scan target_of s syms) out e in
      rw (sym (is_slot-target t symbol)) (
        visit-fill t slots next (target target_of symbol) symbol.address (matches t syms) (out t)
          visited (scan-fill t next out syms rest))

  scan-Only :
      (t a : ℕ) (out : Slots) (syms : List Symbol)
      → scan target_of (λ _. none) syms ≡ some out
      → out t ≡ some a
      → Only a (matches t syms)
  scan-Only t a out syms e f =
      fill-none a (matches t syms) (scan-fill t (λ _. none) out syms e ∙ ap some f)

-- The five targets have each a match and all matches of a target the address of its offset.
pub record IsResolved (syms : List Symbol) (o : DsqlOffsets) : Type 0 where
  pub prepare : Only o.prepare (matches dsql_target 0 syms)
  pub execute : Only o.execute (matches dsql_target 1 syms)
  pub execute_immediate : Only o.execute_immediate (matches dsql_target 2 syms)
  pub open_cursor : Only o.open_cursor (matches dsql_target 3 syms)
  pub fetch_next : Only o.fetch_next (matches dsql_target 4 syms)

dsql_offsets-some :
    (a b c d e : Option ℕ) (o : DsqlOffsets)
    → dsql_offsets a b c d e ≡ some o
    → (a ≡ some o.prepare)
      × (b ≡ some o.execute)
      × (c ≡ some o.execute_immediate)
      × (d ≡ some o.open_cursor)
      × (e ≡ some o.fetch_next)
unfolding dsql_offsets
dsql_offsets-some a b c d e o h = ground arith

attach_offsets-some :
    (a b : Option ℕ) (o : AttachOffsets)
    → attach_offsets a b ≡ some o
    → (a ≡ some o.attachment_ctor) × (b ≡ some o.release_attachment)
unfolding attach_offsets
attach_offsets-some a b o h = ground arith

-- If slowquery's resolution succeeds, then each of its five functions has a symbol in the file, and
-- all symbols of a function have the address that is its offset.
pub resolve_dsql-IsResolved :
    (syms : List Symbol) (o : DsqlOffsets) → resolve_dsql syms ≡ some o → IsResolved syms o
unfolding resolve_dsql
resolve_dsql-IsResolved syms o e = elim (Option-cases (scan dsql_target (λ _. none) syms)) [
  | inl f ↦ absurd (cc_none (ap dsql_found (sym f) ∙ e))
  | inr (out, f) ↦
      let (p, x, i, c, n) =
        dsql_offsets-some (out 0) (out 1) (out 2) (out 3) (out 4) o (ap dsql_found (sym f) ∙ e) in
      record {
        prepare = scan-Only dsql_target 0 o.prepare out syms f p;
        execute = scan-Only dsql_target 1 o.execute out syms f x;
        execute_immediate = scan-Only dsql_target 2 o.execute_immediate out syms f i;
        open_cursor = scan-Only dsql_target 3 o.open_cursor out syms f c;
        fetch_next = scan-Only dsql_target 4 o.fetch_next out syms f n;
      }
]

-- If attach's resolution succeeds, then the constructor, in either of its two variants, and the
-- release have each a symbol in the file, and all their symbols have the address that is the
-- offset.
pub resolve_attach-Only :
    (syms : List Symbol) (o : AttachOffsets)
    → resolve_attach syms ≡ some o
    → Only o.attachment_ctor (matches attach_target 0 syms)
      × Only o.release_attachment (matches attach_target 1 syms)
unfolding resolve_attach
resolve_attach-Only syms o e = elim (Option-cases (scan attach_target (λ _. none) syms)) [
  | inl f ↦ absurd (cc_none (ap attach_found (sym f) ∙ e))
  | inr (out, f) ↦
      let (c, r) = attach_offsets-some (out 0) (out 1) o (ap attach_found (sym f) ∙ e) in
      (
        scan-Only attach_target 0 o.attachment_ctor out syms f c,
        scan-Only attach_target 1 o.release_attachment out syms f r,
      )
]

-- If pageio's resolution succeeds, then `CCH_fetch_page` has a symbol in the file, and all its
-- symbols have the address that is the offset.
pub resolve_page_io-Only :
    (syms : List Symbol) (o : ℕ)
    → resolve_page_io syms ≡ some o
    → Only o (matches page_io_target 0 syms)
unfolding resolve_page_io
resolve_page_io-Only syms o e = elim (Option-cases (scan page_io_target (λ _. none) syms)) [
  | inl f ↦ absurd (cc_none (ap page_io_found (sym f) ∙ e))
  | inr (out, f) ↦ scan-Only page_io_target 0 o out syms f (ap page_io_found (sym f) ∙ e)
]
