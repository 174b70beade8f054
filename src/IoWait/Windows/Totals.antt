-- ===== src/IoWait/Windows/Totals.antt =====
-- What the window of crates/tragach-iowait/src/main.rs accounts for.
use mathlib.Core.Option.{get_or}
use tragach.IoWait.Classify.{Reason, classify}
use tragach.IoWait.Kallsyms.{Sym}
use tragach.IoWait.Windows.{
  Bucket, ReasonAgg, default, frames_of, elem, insert_pid, add_bucket, update_entry, aggregate, tag,
}
use tragach.Prelude.{
  ℕ, ◌+◌, ◌-◌, ◌^◌, ◌≤◌, ◌≡◌, ◌∙◌, refl, sym, subst, min, Bool, true, false, ◌||◌, ◌&&◌, Option,
  none, List, [], ◌∷◌, ◌==◌, ==_iff, if◌then◌else◌, arith, Bool-cases, inl, inr,
}

abbrev pub total : Option ReasonAgg → ℕ
total o = (get_or o default).total_ns

abbrev pub pids : Option ReasonAgg → List ℕ
pids o = (get_or o default).pids

cap-step :
    (c : Bool) (t t' n rest : ℕ)
    → t' ≡ min (t + (if c then n else 0)) (2 ^ 64 - 1)
    → min (t' + rest) (2 ^ 64 - 1) ≡ min (t + (if c then n + rest else rest)) (2 ^ 64 - 1)
cap-step true t t' n rest e = omega (arith, e)
cap-step false t t' n rest e = omega (arith, e)

module _ (syms : List Sym) (stacks : ℕ → Option (List ℕ)) where
  -- The nanoseconds of the buckets whose stack has a reason.
  abbrev pub reason_ns : Reason → List Bucket → ℕ
  reason_ns r [] = 0
  reason_ns r (b ∷ snapshot) =
      let rest = reason_ns r snapshot in
      if tag r == tag (classify (frames_of syms stacks b.key.stack_id)) then b.ns + rest else rest

  update-total :
      (r : Reason) (by_reason : Reason → Option ReasonAgg) (b : Bucket) (frames : List (List ℕ))
      → total (by_reason r) ≤ 2 ^ 64 - 1
      → total (update_entry by_reason (classify frames) (add_bucket b frames) r)
        ≡ min
            (total (by_reason r) + (if tag r == tag (classify frames) then b.ns else 0))
            (2 ^ 64 - 1)
  unfolding add_bucket
  update-total r by_reason b frames h = elim (Bool-cases (tag r == tag (classify frames))) [
    | inl e ↦ ground arith
    | inr e ↦ ground arith
  ]

  aggregate-total :
      (r : Reason) (by_reason : Reason → Option ReasonAgg) (snapshot : List Bucket)
      → total (by_reason r) ≤ 2 ^ 64 - 1
      → total (aggregate syms stacks by_reason snapshot r)
        ≡ min (total (by_reason r) + reason_ns r snapshot) (2 ^ 64 - 1)
  unfolding aggregate
  aggregate-total r by_reason [] h = omega (arith, h)
  aggregate-total r by_reason (b ∷ snapshot) h =
      let frames = frames_of syms stacks b.key.stack_id in
      let next = update_entry by_reason (classify frames) (add_bucket b frames) in
      let first = update-total r by_reason b frames h in
      let rest = aggregate-total r next snapshot (omega (arith, first)) in
      rest
      ∙ cap-step (tag r == tag (classify frames)) (total (by_reason r)) (total (next r)) b.ns
          (reason_ns r snapshot) first

  -- Without an overflow, the total of a reason is the time of its buckets; the sum stops at 2 ^ 64
  -- - 1.
  pub aggregate-reason :
      (r : Reason) (snapshot : List Bucket)
      → total (aggregate syms stacks (λ _. none) snapshot r)
        ≡ min (reason_ns r snapshot) (2 ^ 64 - 1)
  aggregate-reason r snapshot = omega (arith, aggregate-total r (λ _. none) snapshot (omega arith))

-- A thread id that a list holds once at most.
abbrev pub Distinct : List ℕ → Type 0
Distinct [] = Unit
Distinct (p ∷ pids) = (elem p pids ≡ false) × Distinct pids

insert_pid-Distinct : (q : ℕ) (pids : List ℕ) → Distinct pids → Distinct (insert_pid q pids)
unfolding insert_pid
insert_pid-Distinct q pids h = elim (Bool-cases (elem q pids)) [
  | inl e ↦ rw e h
  | inr e ↦ rw e (e, h)
]

elem-at : (p q : ℕ) (pids : List ℕ) → elem q pids ≡ true → (p == q || elem p pids) ≡ elem p pids
elem-at p q pids e = elim (Bool-cases (p == q)) [
  | inl same ↦ ground (arith, subst (λ x. elem x pids ≡ true) (sym ((==_iff p q).0 same)) e)
  | inr ne ↦ rw ne refl
]

insert_pid-elem : (q p : ℕ) (pids : List ℕ) → elem p (insert_pid q pids) ≡ (p == q || elem p pids)
unfolding insert_pid
insert_pid-elem q p pids = elim (Bool-cases (elem q pids)) [
  | inl e ↦ rw e (sym (elem-at p q pids e))
  | inr e ↦ rw e refl
]

or-step : (x y z : Bool) {w : Bool} → w ≡ (x || z) → (y || w) ≡ ((x || y) || z)
or-step x y z e = ground arith

or_false : (x : Bool) → (x || false) ≡ x
or_false x = ground arith

-- The ids of the threads whose buckets' stacks have a reason.
module _ (syms : List Sym) (stacks : ℕ → Option (List ℕ)) where
  abbrev pub seen : ℕ → Reason → List Bucket → Bool
  seen p r [] = false
  seen p r (b ∷ snapshot) =
      (tag r == tag (classify (frames_of syms stacks b.key.stack_id)) && p == b.key.pid)
      || seen p r snapshot

  update-pids :
      (r : Reason) (by_reason : Reason → Option ReasonAgg) (b : Bucket) (frames : List (List ℕ))
      (p : ℕ)
      → Distinct (pids (by_reason r))
      → Distinct (pids (update_entry by_reason (classify frames) (add_bucket b frames) r))
        × (elem p (pids (update_entry by_reason (classify frames) (add_bucket b frames) r))
            ≡ ((tag r == tag (classify frames) && p == b.key.pid) || elem p (pids (by_reason r))))
  unfolding add_bucket
  update-pids r by_reason b frames p h = elim (Bool-cases (tag r == tag (classify frames))) [
    | inl e ↦ ground (
      arith,
      insert_pid-elem b.key.pid p (pids (by_reason r)),
      insert_pid-Distinct b.key.pid (pids (by_reason r)) h,
    )
    | inr e ↦ ground arith
  ]

  aggregate-pids :
      (r : Reason) (p : ℕ) (by_reason : Reason → Option ReasonAgg) (snapshot : List Bucket)
      → Distinct (pids (by_reason r))
      → Distinct (pids (aggregate syms stacks by_reason snapshot r))
        × (elem p (pids (aggregate syms stacks by_reason snapshot r))
            ≡ (seen p r snapshot || elem p (pids (by_reason r))))
  unfolding aggregate
  aggregate-pids r p by_reason [] h = (h, refl)
  aggregate-pids r p by_reason (b ∷ snapshot) h =
      let frames = frames_of syms stacks b.key.stack_id in
      let next = update_entry by_reason (classify frames) (add_bucket b frames) in
      let (kept, first) = update-pids r by_reason b frames p h in
      let (done, rest) = aggregate-pids r p next snapshot kept in
      (
        done,
        rest
            ∙ or-step (tag r == tag (classify frames) && p == b.key.pid) (seen p r snapshot)
                (elem p (pids (by_reason r))) first,
      )

  -- The threads of a reason: each once, and those with a bucket whose stack has the reason.
  pub aggregate-threads :
      (r : Reason) (p : ℕ) (snapshot : List Bucket)
      → Distinct (pids (aggregate syms stacks (λ _. none) snapshot r))
        × (elem p (pids (aggregate syms stacks (λ _. none) snapshot r)) ≡ seen p r snapshot)
  aggregate-threads r p snapshot =
      let (d, e) = aggregate-pids r p (λ _. none) snapshot tt in
      (d, e ∙ or_false (seen p r snapshot))
