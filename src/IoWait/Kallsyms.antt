-- ===== src/IoWait/Kallsyms.antt =====
-- The symbol of an instruction pointer, crates/tragach-iowait/src/kallsyms.rs.
pub mod Load
pub mod Table
pub mod RoundTrip
use tragach.Prelude.{
  show_hex, show_in, digits, ℕ, zero, suc, ◌+◌, ◌-◌, ◌/◌, ◌%◌, ◌≤◌, ◌<◌, ◌≡◌, refl, Bool, List, [],
  ◌∷◌, All, All-map, All-at, ◌∙◌, length, Among, ltb, leb, ◌==◌, if◌then◌else◌, ◌⊎◌, inl, inr,
  arith,
}

pub record Sym : Type 0 where
  pub addr : ℕ
  pub name : List ℕ

-- `slice::partition_point` on a slice whose matching entries come first.
unfoldable pub partition_point : (Sym → Bool) → List Sym → ℕ
partition_point p [] = 0
partition_point p (s ∷ syms) = let rest = partition_point p syms in if p s then suc rest else 0

-- `syms[i].1`, in range whenever `lookup` asks.
abbrev name_at : List Sym → ℕ → List ℕ
name_at [] i = []
name_at (s ∷ syms) zero = s.name
name_at (s ∷ syms) (suc i) = name_at syms i

abbrev pub unknown : List ℕ
unknown = 63 ∷ []

-- "?" for no address or no table, "0x…" below the first symbol.
unfoldable pub lookup : List Sym → ℕ → List ℕ
unfolding show_hex show_in digits partition_point
lookup [] ip = unknown
lookup (s ∷ syms) ip =
    let idx = partition_point (λ s. leb s.addr ip) (s ∷ syms) in
    if ip == 0
    then unknown
    else if idx == 0
    then 48 ∷ 120 ∷ show_hex ip
    else name_at (s ∷ syms) (idx - 1)

-- The order that `load` sorts the table into.
abbrev pub Sorted : List Sym → Type 0
Sorted [] = Unit
Sorted (s ∷ syms) = All (λ t. s.addr ≤ t.addr) syms × Sorted syms

-- The symbol stands in the table at or below the address, and none at or below the address stands
-- above the symbol.
abbrev pub IsFloor : List Sym → ℕ → Sym → Type 0
IsFloor syms ip s = Among s syms × (s.addr ≤ ip) × All (λ t. (t.addr ≤ ip) → (t.addr ≤ s.addr)) syms

abbrev below : ℕ → Sym → Bool
below ip s = leb s.addr ip

point-true :
    (ip : ℕ) (s : Sym) (syms : List Sym) (i : ℕ)
    → partition_point (below ip) (s ∷ syms) ≡ suc i
    → (s.addr ≤ ip) × (partition_point (below ip) syms ≡ i)
unfolding partition_point
point-true ip s syms i e = ground arith

point-false :
    (ip : ℕ) (s : Sym) (syms : List Sym) → partition_point (below ip) (s ∷ syms) ≡ 0 → ip < s.addr
unfolding partition_point
point-false ip s syms e = ground arith

zero-cases : (n : ℕ) → (n ≡ 0) ⊎ ((i : ℕ) × (n ≡ suc i))
zero-cases zero = inl refl
zero-cases (suc n) = inr (n, refl)

above-point :
    (ip : ℕ) (syms : List Sym)
    → Sorted syms
    → partition_point (below ip) syms ≡ 0
    → All (λ t. ip < t.addr) syms
above-point ip [] h e = tt
above-point ip (s ∷ syms) h e =
    let lower : ip < s.addr = point-false ip s syms e in
    (
      lower,
      All-map (λ t. s.addr ≤ t.addr) (λ t. ip < t.addr) syms (λ t le. omega (arith, le, lower)) h.0,
    )

point-IsFloor :
    (ip : ℕ) (syms : List Sym) (i : ℕ)
    → Sorted syms
    → partition_point (below ip) syms ≡ suc i
    → (s : Sym) × IsFloor syms ip s × (name_at syms i ≡ s.name)
point-IsFloor ip [] i h e = unfold partition_point in absurd (omega arith)
point-IsFloor ip (s ∷ syms) zero h e =
    let (le, none_left) = point-true ip s syms 0 e in
    let above : All (λ t. (t.addr ≤ ip) → (t.addr ≤ s.addr)) syms =
      All-map (λ t. ip < t.addr) (λ t. (t.addr ≤ ip) → (t.addr ≤ s.addr)) syms
        (λ t lt le'. absurd (omega (arith, lt, le'))) (above-point ip syms h.1 none_left) in
    (s, (inl refl, le, (λ x. omega arith, above)), refl)
point-IsFloor ip (s ∷ syms) (suc i) h e =
    let (le, rest) = point-true ip s syms (suc i) e in
    let (t, (among, t_le, others), named) = point-IsFloor ip syms i h.1 rest in
    (t, (inr among, t_le, (λ x. All-at (λ u. s.addr ≤ u.addr) syms h.0 among, others)), named)

lookup-above :
    (syms : List Sym) (ip : ℕ)
    → 0 < ip
    → partition_point (below ip) syms ≡ 0
    → 0 < length syms
    → lookup syms ip ≡ 48 ∷ 120 ∷ show_hex ip
unfolding lookup
lookup-above [] ip pos e h = absurd (omega arith)
lookup-above (s ∷ syms) ip pos e h = ground arith

lookup-at :
    (syms : List Sym) (ip i : ℕ)
    → 0 < ip
    → partition_point (below ip) syms ≡ suc i
    → lookup syms ip ≡ name_at syms i
unfolding lookup
lookup-at [] ip i pos e = unfold partition_point in absurd (omega arith)
lookup-at (s ∷ syms) ip i pos e = ground arith

-- Of a sorted table that is not empty, `lookup` names a symbol of the largest address that is not
-- above a nonzero instruction pointer. It prints the pointer only if every address is above it.
pub lookup-IsFloor :
    (syms : List Sym) (ip : ℕ)
    → Sorted syms
    → 0 < ip
    → 0 < length syms
    → ((s : Sym) × IsFloor syms ip s × (lookup syms ip ≡ s.name))
      ⊎ (All (λ t. ip < t.addr) syms × (lookup syms ip ≡ 48 ∷ 120 ∷ show_hex ip))
lookup-IsFloor syms ip h pos some_sym = elim (zero-cases (partition_point (below ip) syms)) [
  | inl e ↦ inr (above-point ip syms h e, lookup-above syms ip pos e some_sym)
  | inr (i, e) ↦
      let (s, floor, named) = point-IsFloor ip syms i h e in
      inl (s, floor, lookup-at syms ip i pos e ∙ named)
]
