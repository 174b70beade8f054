-- ===== src/IoWait/Windows/Stacks/Entries.antt =====
-- What the loop of `flush_window` of crates/tragach-iowait/src/main.rs makes of the buckets: the
-- tables of stacks of IoWait/Windows/Stacks.
use tragach.IoWait.Classify.{Reason, classify}
use tragach.IoWait.Kallsyms.{Sym}
use tragach.IoWait.Windows.{
  Bucket, StackEntry, ReasonAgg, saturating_add, retain, frames_of, add_stack, add_bucket,
  update_entry, aggregate, tag,
}
use tragach.Prelude.{
  ℕ, ◌+◌, ◌≡◌, ◌≢◌, ◌∙◌, refl, subst, ap, Bool, true, false, ◌||◌, Option, none, some, List, [],
  ◌∷◌, ◌==◌, ==_iff, ltb, if◌then◌else◌, arith, Bool-cases, inl, inr,
}
use tragach.IoWait.Windows.Stacks.{
  table, find, DistinctIds, passes, kept, about, stack_seen, stack_ns, entry_of, IsTable,
}

-- The entry with a bucket's time added, and a new one.
abbrev bumped : ℕ → ℕ → List (List ℕ) → Option StackEntry → StackEntry
bumped i ns frames none = record { stack_id = i; ns = saturating_add 0 ns; frames = frames }
bumped i ns frames (some e) = record e { ns = saturating_add e.ns ns }

find-add_stack_self :
    (i ns : ℕ) (frames : List (List ℕ)) (entries : List StackEntry)
    → find i (add_stack i ns frames entries) ≡ some (bumped i ns frames (find i entries))
unfolding add_stack
find-add_stack_self i ns frames [] = ground arith
find-add_stack_self i ns frames (e ∷ entries) =
    ground (arith, find-add_stack_self i ns frames entries)

find-add_stack_ne :
    (i j ns : ℕ) (frames : List (List ℕ)) (entries : List StackEntry)
    → j ≢ i
    → find j (add_stack i ns frames entries) ≡ find j entries
unfolding add_stack
find-add_stack_ne i j ns frames [] ne = ground arith
find-add_stack_ne i j ns frames (e ∷ entries) ne =
    ground (arith, find-add_stack_ne i j ns frames entries ne)

add_stack-DistinctIds :
    (i ns : ℕ) (frames : List (List ℕ)) (entries : List StackEntry)
    → DistinctIds entries
    → DistinctIds (add_stack i ns frames entries)
unfolding add_stack
add_stack-DistinctIds i ns frames [] h = (refl, tt)
add_stack-DistinctIds i ns frames (e ∷ entries) h = elim (Bool-cases (e.stack_id == i)) [
  | inl same ↦ rw same h
  | inr ne ↦ rw ne (
    find-add_stack_ne i e.stack_id ns frames entries (ground arith) ∙ h.0,
    add_stack-DistinctIds i ns frames entries h.1,
  )
]

module _ (syms : List Sym) (stacks : ℕ → Option (List ℕ)) where
  bumped-entry :
      (i : ℕ) (there : Bool) (n ns : ℕ)
      → (there ≡ false → n ≡ 0)
      → some (bumped i ns (frames_of syms stacks i) (entry_of syms stacks i there n))
        ≡ entry_of syms stacks i true (n + ns)
  bumped-entry i true n ns h = ground arith
  bumped-entry i false n ns h = ground (arith, h refl)

  find-add_bucket :
      (i : ℕ) (b : Bucket) (entries : List StackEntry) (there : Bool) (n : ℕ)
      → i ≡ b.key.stack_id
      → find i entries ≡ entry_of syms stacks i there n
      → (there ≡ false → n ≡ 0)
      → find i (add_stack b.key.stack_id b.ns (frames_of syms stacks b.key.stack_id) entries)
        ≡ entry_of syms stacks i true (n + b.ns)
  find-add_bucket i b entries there n same h absent =
      subst
        (λ k.
          find i (add_stack k b.ns (frames_of syms stacks k) entries)
          ≡ some (bumped i b.ns (frames_of syms stacks i) (find i entries)))
        same (find-add_stack_self i b.ns (frames_of syms stacks i) entries)
      ∙ ap (λ o. some (bumped i b.ns (frames_of syms stacks i) o)) h
      ∙ bumped-entry i there n b.ns absent

  entry-without :
      (i : ℕ) (there : Bool) (n : ℕ)
      → entry_of syms stacks i there n ≡ entry_of syms stacks i (there || false) (n + 0)
  entry-without i there n = ground arith

  entry-with :
      (i : ℕ) (there : Bool) (n : ℕ)
      → entry_of syms stacks i true n ≡ entry_of syms stacks i (there || true) n
  entry-with i there n = ground arith

  update-stack :
      (r : Reason) (i : ℕ) (b : Bucket) (by_reason : Reason → Option ReasonAgg) (there : Bool)
      (n : ℕ)
      → find i (table (by_reason r)) ≡ entry_of syms stacks i there n
      → (there ≡ false → n ≡ 0)
      → let frames = frames_of syms stacks b.key.stack_id in
        find i (table (update_entry by_reason (classify frames) (add_bucket b frames) r))
        ≡ entry_of syms stacks i
            (there || about syms stacks r i b)
            (n + (if about syms stacks r i b then b.ns else 0))
  unfolding add_bucket
  update-stack r i b by_reason there n h absent =
      let frames = frames_of syms stacks b.key.stack_id in
      elim (Bool-cases (tag r == tag (classify frames))) [
        | inr other ↦ rw other (h ∙ entry-without i there n)
        | inl match ↦ elim (Bool-cases (i == b.key.stack_id)) [
          | inl same ↦
              rw (match, same)
                (find-add_bucket i b (table (by_reason r)) there n
                    ((==_iff i b.key.stack_id).0 same) h absent
                  ∙ entry-with i there (n + b.ns))
          | inr ne ↦
              rw (match, ne)
                (find-add_stack_ne b.key.stack_id i b.ns frames (table (by_reason r)) (ground arith)
                  ∙ h
                  ∙ entry-without i there n)
        ]
      ]

  update-DistinctIds :
      (r : Reason) (b : Bucket) (by_reason : Reason → Option ReasonAgg) (frames : List (List ℕ))
      → DistinctIds (table (by_reason r))
      → DistinctIds (table (update_entry by_reason (classify frames) (add_bucket b frames) r))
  unfolding add_bucket
  update-DistinctIds r b by_reason frames h = elim (Bool-cases (tag r == tag (classify frames))) [
    | inl match ↦
        rw match (add_stack-DistinctIds b.key.stack_id b.ns frames (table (by_reason r)) h)
    | inr other ↦ rw other h
  ]

  aggregate-DistinctIds :
      (r : Reason) (by_reason : Reason → Option ReasonAgg) (snapshot : List Bucket)
      → DistinctIds (table (by_reason r))
      → DistinctIds (table (aggregate syms stacks by_reason snapshot r))
  unfolding aggregate
  aggregate-DistinctIds r by_reason [] h = h
  aggregate-DistinctIds r by_reason (b ∷ snapshot) h =
      let frames = frames_of syms stacks b.key.stack_id in
      aggregate-DistinctIds r (update_entry by_reason (classify frames) (add_bucket b frames))
        snapshot (update-DistinctIds r b by_reason frames h)

  absent-step :
      (there c : Bool) (n ns : ℕ)
      → (there ≡ false → n ≡ 0)
      → (there || c) ≡ false
      → n + (if c then ns else 0) ≡ 0
  absent-step true c n ns h e = absurd (cc)
  absent-step false true n ns h e = absurd (cc)
  absent-step false false n ns h e = omega (arith, h refl)

  entry-step :
      (i : ℕ) (there c seen : Bool) (n ns rest : ℕ)
      → entry_of syms stacks i ((there || c) || seen) ((n + (if c then ns else 0)) + rest)
        ≡ entry_of syms stacks i (there || (c || seen)) (n + (if c then ns + rest else rest))
  entry-step i there c seen n ns rest = ground arith

  aggregate-entries :
      (r : Reason) (i : ℕ) (by_reason : Reason → Option ReasonAgg) (snapshot : List Bucket)
      (there : Bool) (n : ℕ)
      → find i (table (by_reason r)) ≡ entry_of syms stacks i there n
      → (there ≡ false → n ≡ 0)
      → find i (table (aggregate syms stacks by_reason snapshot r))
        ≡ entry_of syms stacks i
            (there || stack_seen syms stacks (λ _. true) r i snapshot)
            (n + stack_ns syms stacks (λ _. true) r i snapshot)
  unfolding aggregate
  aggregate-entries r i by_reason [] there n h absent = h ∙ entry-without i there n
  aggregate-entries r i by_reason (b ∷ snapshot) there n h absent =
      let frames = frames_of syms stacks b.key.stack_id in
      let c = about syms stacks r i b in
      aggregate-entries r i (update_entry by_reason (classify frames) (add_bucket b frames))
        snapshot (there || c) (n + (if c then b.ns else 0))
        (update-stack r i b by_reason there n h absent) (absent-step there c n b.ns absent)
      ∙ entry-step i there c (stack_seen syms stacks (λ _. true) r i snapshot) n b.ns
          (stack_ns syms stacks (λ _. true) r i snapshot)

  retain-stack :
      (r : Reason) (i t : ℕ) (snapshot : List Bucket)
      → (stack_seen syms stacks (λ _. true) r i (retain t snapshot)
          ≡ stack_seen syms stacks (λ b. ltb b.ns t) r i snapshot)
        × (stack_ns syms stacks (λ _. true) r i (retain t snapshot)
            ≡ stack_ns syms stacks (λ b. ltb b.ns t) r i snapshot)
  unfolding retain
  retain-stack r i t [] = (refl, refl)
  retain-stack r i t (b ∷ snapshot) =
      let (seen, ns) = retain-stack r i t snapshot in
      elim (Bool-cases (ltb b.ns t)) [
        | inl e ↦ rw (e, seen, ns) (refl, refl)
        | inr e ↦ rw e (seen, ns)
      ]

  kept-stack :
      (r : Reason) (i : ℕ) (exclude_idle : Bool) (t : ℕ) (snapshot : List Bucket)
      → (stack_seen syms stacks (λ _. true) r i (kept exclude_idle t snapshot)
          ≡ stack_seen syms stacks (passes exclude_idle t) r i snapshot)
        × (stack_ns syms stacks (λ _. true) r i (kept exclude_idle t snapshot)
            ≡ stack_ns syms stacks (passes exclude_idle t) r i snapshot)
  kept-stack r i true t snapshot = retain-stack r i t snapshot
  kept-stack r i false t snapshot = (refl, refl)

  pub aggregate-IsTable :
      (exclude_idle : Bool) (t : ℕ) (snapshot : List Bucket) (r : Reason)
      → IsTable syms stacks exclude_idle t snapshot r
          (table (aggregate syms stacks (λ _. none) (kept exclude_idle t snapshot) r))
  aggregate-IsTable exclude_idle t snapshot r = (
    aggregate-DistinctIds r (λ _. none) (kept exclude_idle t snapshot) tt,
    λ i.
        let (seen, ns) = kept-stack r i exclude_idle t snapshot in
        aggregate-entries r i (λ _. none) (kept exclude_idle t snapshot) false 0 refl (λ _. refl)
        ∙ ap
            (λ b.
              entry_of syms stacks i b
                (0 + stack_ns syms stacks (λ _. true) r i (kept exclude_idle t snapshot)))
            seen
        ∙ ap (entry_of syms stacks i (stack_seen syms stacks (passes exclude_idle t) r i snapshot))
            (omega (arith, ns)),
  )
