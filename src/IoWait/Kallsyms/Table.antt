-- ===== src/IoWait/Kallsyms/Table.antt =====
-- The table that `Kallsyms::load` makes of a text, and the symbols that `lookup` finds in it,
-- crates/tragach-iowait/src/kallsyms.rs.
use tragach.IoWait.Kallsyms.Load.{insert, sort_by_addr, load, file_syms}
use tragach.IoWait.Kallsyms.{Sym, Sorted, IsFloor, lookup, lookup-IsFloor}
use tragach.Prelude.{
  ℕ, ◌≤◌, ◌<◌, ◌≡◌, List, [], ◌∷◌, All, All-map, All-at, All-Among, Text, ◌+◌, Among, length, leb,
  Bool-cases, leb_iff, ◌⊎◌, inl, inr, arith, refl, show_hex,
}

All-insert :
    (P : Sym → Type 0) (s : Sym) (syms : List Sym) → P s → All P syms → All P (insert s syms)
unfolding insert
All-insert P s [] h hs = (h, tt)
All-insert P s (t ∷ syms) h hs = elim (Bool-cases (leb s.addr t.addr)) [
  | inl e ↦ rw e (h, hs)
  | inr e ↦ rw e (hs.0, All-insert P s syms h hs.1)
]

insert-Sorted : (s : Sym) (syms : List Sym) → Sorted syms → Sorted (insert s syms)
unfolding insert
insert-Sorted s [] h = (tt, tt)
insert-Sorted s (t ∷ syms) h = elim (Bool-cases (leb s.addr t.addr)) [
  | inl e ↦
      let le : s.addr ≤ t.addr = (leb_iff s.addr t.addr).0 e in
      rw e (
        (
          le,
          All-map (λ u. t.addr ≤ u.addr) (λ u. s.addr ≤ u.addr) syms
              (λ u above. omega (arith, le, above)) h.0,
        ),
        h,
      )
  | inr e ↦
      let le : t.addr ≤ s.addr = ground (arith, e) in
      rw e (All-insert (λ u. t.addr ≤ u.addr) s syms le h.0, insert-Sorted s syms h.1)
]

sort_by_addr-Sorted : (syms : List Sym) → Sorted (sort_by_addr syms)
unfolding sort_by_addr
sort_by_addr-Sorted [] = tt
sort_by_addr-Sorted (s ∷ syms) = insert-Sorted s (sort_by_addr syms) (sort_by_addr-Sorted syms)

All-of_insert :
    (P : Sym → Type 0) (s : Sym) (syms : List Sym) → All P (insert s syms) → P s × All P syms
unfolding insert
All-of_insert P s [] h = h
All-of_insert P s (t ∷ syms) h = elim (Bool-cases (leb s.addr t.addr)) [
  | inl e ↦ rw e at h
  | inr e ↦
      let both : P t × All P (insert s syms) = rw e at h in
      let (first, rest) = All-of_insert P s syms both.1 in (first, (both.0, rest))
]

-- Sorting keeps the symbols.
All-sort_by_addr : (P : Sym → Type 0) (syms : List Sym) → All P syms → All P (sort_by_addr syms)
unfolding sort_by_addr
All-sort_by_addr P [] h = tt
All-sort_by_addr P (s ∷ syms) h =
    All-insert P s (sort_by_addr syms) h.0 (All-sort_by_addr P syms h.1)

All-of_sort_by_addr : (P : Sym → Type 0) (syms : List Sym) → All P (sort_by_addr syms) → All P syms
unfolding sort_by_addr
All-of_sort_by_addr P [] h = tt
All-of_sort_by_addr P (s ∷ syms) h =
    let (first, rest) = All-of_insert P s (sort_by_addr syms) h in
    (first, All-of_sort_by_addr P syms rest)

IsFloor-of_sort_by_addr :
    (syms : List Sym) (ip : ℕ) (s : Sym) → IsFloor (sort_by_addr syms) ip s → IsFloor syms ip s
IsFloor-of_sort_by_addr syms ip s (among, le, others) = (
  All-at (λ t. Among t syms) (sort_by_addr syms)
      (All-sort_by_addr (λ t. Among t syms) syms (All-Among syms)) among,
  le,
  All-of_sort_by_addr (λ t. (t.addr ≤ ip) → (t.addr ≤ s.addr)) syms others,
)

length-insert : (s : Sym) (syms : List Sym) → length (insert s syms) ≡ length syms + 1
unfolding insert
length-insert s [] = omega arith
length-insert s (t ∷ syms) = ground (arith, length-insert s syms)

length-sort_by_addr : (syms : List Sym) → length (sort_by_addr syms) ≡ length syms
unfolding sort_by_addr
length-sort_by_addr [] = refl
length-sort_by_addr (s ∷ syms) =
    omega (arith, length-insert s (sort_by_addr syms), length-sort_by_addr syms)

-- Whatever the text, if any of its lines is a symbol, `lookup` in the loaded table names a symbol of
-- the text of the largest address that is not above a nonzero instruction pointer. It prints the
-- pointer only if every address of the text is above it.
pub lookup-load :
    (text : Text) (ip : ℕ)
    → 0 < ip
    → 0 < length (file_syms text)
    → ((s : Sym) × IsFloor (file_syms text) ip s × (lookup (load text) ip ≡ s.name))
      ⊎ (All (λ t. ip < t.addr) (file_syms text) × (lookup (load text) ip ≡ 48 ∷ 120 ∷ show_hex ip))
unfolding load
lookup-load text ip pos some_sym =
    let syms = file_syms text in
    let many : 0 < length (sort_by_addr syms) = omega (arith, length-sort_by_addr syms) in
    elim (lookup-IsFloor (sort_by_addr syms) ip (sort_by_addr-Sorted syms) pos many) [
      | inl (s, floor, named) ↦ inl (s, IsFloor-of_sort_by_addr syms ip s floor, named)
      | inr (above, printed) ↦ inr (All-of_sort_by_addr (λ t. ip < t.addr) syms above, printed)
    ]
