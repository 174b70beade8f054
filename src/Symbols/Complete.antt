-- ===== src/Symbols/Complete.antt =====
-- That the resolution of crates/tragach-slowquery/src/symbols.rs succeeds.
use tragach.Prelude.{
  ℕ, zero, suc, ◌<◌, ◌≡◌, ◌∙◌, refl, sym, ap, Option, none, some, List, [], ◌∷◌, All, Bool, true,
  ◌==◌, ==_iff, if◌then◌else◌, ◌⊎◌, Bool-cases, Option-cases, inl, inr, arith,
}
use tragach.Symbols.{Symbol, check_unique, put, visit, then_scan, target, scan}
use tragach.Symbols.Targets.{dsql_target, DsqlOffsets, dsql_offsets, resolve_dsql}
use tragach.Symbols.Unique.{
  is_slot, is_slot-target, Only, fill, fill-some, Slots, matches, scan-fill, IsResolved,
}

fill-found : (a : ℕ) (xs : List ℕ) (o : Option ℕ) → Only a xs → fill none xs ≡ some o → o ≡ some a
unfolding check_unique
fill-found a [] o h e = absurd (omega (arith, h.0))
fill-found a (b ∷ xs) o h e = (fill-some b xs o e).0 ∙ ap some h.1.0

check_unique-same :
    (x : Option ℕ) (a : ℕ) → (x ≡ none) ⊎ (x ≡ some a) → check_unique x a ≡ some (some a)
unfolding check_unique
check_unique-same x a (inl e) = rw e refl
check_unique-same x a (inr e) = rw (e, (==_iff a a).1 refl) refl

module _ (target_of : List ℕ → Option ℕ) where
  -- The symbols of a slot have an address.
  abbrev At : ℕ → ℕ → Symbol → Type 0
  At t a s = target target_of s ≡ some t → s.address ≡ a

  matches-At :
      (t a : ℕ) (syms : List Symbol)
      → All (λ b. b ≡ a) (matches target_of t syms)
      → All (At t a) syms
  matches-At t a [] h = tt
  matches-At t a (s ∷ syms) h = elim (Bool-cases (is_slot t (target target_of s))) [
    | inl z ↦
        let both : All (λ b. b ≡ a) (s.address ∷ matches target_of t syms) =
          rw (sym (is_slot-target target_of t s), z) at h in
        ((λ e. both.0), matches-At t a syms both.1)
    | inr z ↦
        let rest : All (λ b. b ≡ a) (matches target_of t syms) =
          rw (sym (is_slot-target target_of t s), z) at h in
        (
          (λ e.
              let yes_slot : is_slot t (target target_of s) ≡ true =
                ap (is_slot t) e ∙ (==_iff t t).1 refl in
              absurd (ground (arith, yes_slot, z))),
          matches-At t a syms rest,
        )
  ]

  module _ (want : ℕ → ℕ) where
    abbrev Agrees : Symbol → Type 0
    Agrees s = (t : ℕ) → At t (want t) s

    abbrev Fits : Slots → Type 0
    Fits slots = (t : ℕ) → (slots t ≡ none) ⊎ (slots t ≡ some (want t))

    visit-total :
        (slots : Slots) (o : Option ℕ) (addr : ℕ)
        → Fits slots
        → ((t : ℕ) → o ≡ some t → addr ≡ want t)
        → (next : Slots) × (visit slots o addr ≡ some next) × Fits next
    visit-total slots none addr p a = (slots, refl, p)
    visit-total slots (some u) addr p a =
        let checked : check_unique (slots u) addr ≡ some (some (want u)) =
          rw (a u refl) (check_unique-same (slots u) (want u) (p u)) in
        (
          (λ t. if t == u then some (want u) else slots t),
          ap (put slots u) checked,
          λ t. elim (Bool-cases (t == u)) [
            | inl z ↦ rw z (inr (ap (λ x. some (want x)) (sym ((==_iff t u).0 z))))
            | inr z ↦ rw z (p t)
          ],
        )

    scan-total :
        (slots : Slots) (syms : List Symbol)
        → Fits slots
        → All Agrees syms
        → (out : Slots) × (scan target_of slots syms ≡ some out)
    unfolding scan
    scan-total slots [] p h = (slots, refl)
    scan-total slots (s ∷ syms) p h =
        let (next, visited, p') = visit-total slots (target target_of s) s.address p h.0 in
        let (out, e) = scan-total next syms p' h.1 in
        (out, ap (λ o. then_scan o (λ x. scan target_of x syms)) visited ∙ e)

abbrev dsql_want : DsqlOffsets → ℕ → ℕ
dsql_want o zero = o.prepare
dsql_want o (suc zero) = o.execute
dsql_want o (suc (suc zero)) = o.execute_immediate
dsql_want o (suc (suc (suc zero))) = o.open_cursor
dsql_want o (suc (suc (suc (suc t)))) = o.fetch_next

chain-lt :
    (p i x c n : Bool) (t : ℕ)
    → (if p
        then some 0
        else if i
        then some 2
        else if x
        then some 1
        else if c
        then some 3
        else if n
        then some 4
        else none)
      ≡ some t
    → t < 5
chain-lt p i x c n t e = ground arith

dsql_target-lt : (name : List ℕ) (t : ℕ) → dsql_target name ≡ some t → t < 5
unfolding dsql_target
dsql_target-lt name t e = chain-lt _ _ _ _ _ t e

target-lt : (s : Symbol) (t : ℕ) → target dsql_target s ≡ some t → t < 5
unfolding target
target-lt s t e = elim (Bool-cases s.is_text) [
  | inr z ↦ absurd (ground (arith, z))
  | inl z ↦ elim (Option-cases s.name) [
    | inl n ↦ absurd (ground (arith, z, n))
    | inr (name, n) ↦ dsql_target-lt name t (ground (arith, z, n))
  ]
]

every-Agrees :
    (o : DsqlOffsets) (s : Symbol)
    → At dsql_target 0 o.prepare s
    → At dsql_target 1 o.execute s
    → At dsql_target 2 o.execute_immediate s
    → At dsql_target 3 o.open_cursor s
    → At dsql_target 4 o.fetch_next s
    → Agrees dsql_target (dsql_want o) s
every-Agrees o s p x i c n zero e = p e
every-Agrees o s p x i c n (suc zero) e = x e
every-Agrees o s p x i c n (suc (suc zero)) e = i e
every-Agrees o s p x i c n (suc (suc (suc zero))) e = c e
every-Agrees o s p x i c n (suc (suc (suc (suc zero)))) e = n e
every-Agrees o s p x i c n (suc (suc (suc (suc (suc t))))) e =
    absurd (omega (arith, target-lt s (suc (suc (suc (suc (suc t))))) e))

IsResolved-All :
    (o : DsqlOffsets) (syms : List Symbol)
    → IsResolved syms o
    → All (Agrees dsql_target (dsql_want o)) syms
IsResolved-All o syms h =
    each syms (matches-At dsql_target 0 o.prepare syms h.prepare.1)
      (matches-At dsql_target 1 o.execute syms h.execute.1)
      (matches-At dsql_target 2 o.execute_immediate syms h.execute_immediate.1)
      (matches-At dsql_target 3 o.open_cursor syms h.open_cursor.1)
      (matches-At dsql_target 4 o.fetch_next syms h.fetch_next.1)
  where
    each :
        (syms : List Symbol)
        → All (At dsql_target 0 o.prepare) syms
        → All (At dsql_target 1 o.execute) syms
        → All (At dsql_target 2 o.execute_immediate) syms
        → All (At dsql_target 3 o.open_cursor) syms
        → All (At dsql_target 4 o.fetch_next) syms
        → All (Agrees dsql_target (dsql_want o)) syms
    each [] p x i c n = tt
    each (s ∷ syms) p x i c n =
        (every-Agrees o s p.0 x.0 i.0 c.0 n.0, each syms p.1 x.1 i.1 c.1 n.1)

-- Slowquery's resolution succeeds on every file in which each of the five functions has a symbol
-- and all symbols of a function have one address, and gives those addresses.
pub resolve_dsql-of_IsResolved :
    (syms : List Symbol) (o : DsqlOffsets) → IsResolved syms o → resolve_dsql syms ≡ some o
unfolding resolve_dsql dsql_offsets
resolve_dsql-of_IsResolved syms o h =
    let (out, e) =
      scan-total dsql_target (dsql_want o) (λ _. none) syms (λ t. inl refl)
        (IsResolved-All o syms h) in
    let found : (t a : ℕ) → Only a (matches dsql_target t syms) → out t ≡ some a = λ t a only.
      fill-found a (matches dsql_target t syms) (out t) only
        (scan-fill dsql_target t (λ _. none) out syms e) in
    rw
      (
        e,
        found 0 o.prepare h.prepare,
        found 1 o.execute h.execute,
        found 2 o.execute_immediate h.execute_immediate,
        found 3 o.open_cursor h.open_cursor,
        found 4 o.fetch_next h.fetch_next,
      )
      refl
