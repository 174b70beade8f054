-- ===== src/IoWait/Amid.antt =====
-- Tracepoints that fire while `flush_window` of crates/tragach-iowait/src/main.rs drains BUCKETS,
-- after the snapshot and before each removal.
use tragach.IoWait.Windows.{Bucket}
use tragach.IoWait.{
  Maps, BucketKey, StartInfo, Probe, Context, sched_switch, sched_wakeup, try_sched_switch,
  try_sched_wakeup, fire, run, stack_of, filtered, new_total,
}
use tragach.Kernel.{HashMap}
use tragach.Prelude.{
  ℕ, ◌≡◌, refl, ap, sym, ◌∙◌, Option, some, Option-cases, Result, ok, err, write, List, [], ◌∷◌,
  ◌++◌, inl, inr, Bool-cases, ◌==◌, ◌%◌, ◌-◌,
}

abbrev fired : List (List Probe × Bucket) → List Probe
fired [] = []
fired ((ps, b) ∷ rounds) = ps ++ fired rounds

module _ (N : Type 0 → Type 0) ⦃bucket : HashMap N BucketKey⦄ where
  abbrev added : N ℕ → ℕ → StartInfo → Context → Result (N ℕ)
  added n key info c =
      bucket.insert n (record { pid = key; stack_id = info.stack_id })
        (new_total (bucket.get n (record { pid = key; stack_id = info.stack_id }))
          (c.ktime_ns - info.ts_ns))

module _ {M N : Type 0 → Type 0} ⦃hash : HashMap M ℕ⦄ ⦃bucket : HashMap N BucketKey⦄ where
  -- What the sleeps in progress are kept in.
  abbrev sleeps : Maps M N → Option ℕ × M StartInfo
  sleeps s = (s.target_tgid, s.start)

  write-sleeps :
      (r : Result (M StartInfo)) (s t : Maps M N)
      → sleeps s ≡ sleeps t
      → sleeps (write r (λ m s. record s { start = m }) s).1
        ≡ sleeps (write r (λ m s. record s { start = m }) t).1
  write-sleeps (ok m) s t h = ap (λ x. (x.0, m)) h
  write-sleeps (err e) s t h = h

  write_buckets-sleeps :
      (r : Result (N ℕ)) (s : Maps M N)
      → sleeps (write r (λ m s. record s { buckets = m }) s).1 ≡ sleeps s
  write_buckets-sleeps (ok m) s = refl
  write_buckets-sleeps (err e) s = refl

  fire-sleeps :
      (p : Probe) (s : Maps M N) (n : N ℕ)
      → sleeps (fire p (record s { buckets = n })) ≡ sleeps (fire p s)
  unfolding fire try_sched_switch try_sched_wakeup
  fire-sleeps (sched_switch c) s n = elim (Option-cases (c.read_at 24)) [
    | inl e ↦ rw (fire, e) refl
    | inr (prev_pid, e) ↦ elim (Option-cases (c.read_at 32)) [
      | inl e' ↦ rw (fire, e, e') refl
      | inr (prev_state, e') ↦ elim (Bool-cases (prev_state % 256 == 0)) [
        | inl z ↦ rw (fire, e, e', z) refl
        | inr z ↦ elim (Option-cases s.target_tgid) [
          | inl t ↦ rw (fire, e, e', z, t) refl
          | inr (target, t) ↦ elim (Bool-cases (filtered c target)) [
            | inl f ↦ rw (fire, e, e', z, t, f) refl
            | inr f ↦
                rw (fire, e, e', z, t, f)
                  (write-sleeps
                    (hash.insert s.start prev_pid
                      (record { ts_ns = c.ktime_ns; stack_id = stack_of c }))
                    (record { target_tgid = some target; start = s.start; buckets = n })
                    (record s { target_tgid = some target }) refl)
          ]
        ]
      ]
    ]
  ]
  fire-sleeps (sched_wakeup c) s n = elim (Option-cases (c.read_at 24)) [
    | inl e ↦ rw (fire, e) refl
    | inr (key, e) ↦ elim (Option-cases (hash.get s.start key)) [
      | inl e' ↦ rw (fire, e, e') refl
      | inr (info, e') ↦
          rw (fire, e, e')
            (write_buckets-sleeps (added N n key info c) (record {
              target_tgid = s.target_tgid;
              start = hash.remove s.start key;
              buckets = n;
            })
              ∙ sym (
                  write_buckets-sleeps (added N s.buckets key info c)
                    (record s { start = hash.remove s.start key })))
    ]
  ]

  fire-cong :
      (p : Probe) (s t : Maps M N) → sleeps s ≡ sleeps t → sleeps (fire p s) ≡ sleeps (fire p t)
  fire-cong p s t h =
      sym (fire-sleeps p s t.buckets)
      ∙ ap (λ x. sleeps (fire p (record { target_tgid = x.0; start = x.1; buckets = t.buckets }))) h

  run-cong :
      (ps : List Probe) (s t : Maps M N)
      → sleeps s ≡ sleeps t
      → sleeps (run ps s) ≡ sleeps (run ps t)
  unfolding run
  run-cong [] s t h = h
  run-cong (p ∷ ps) s t h = run-cong ps (fire p s) (fire p t) (fire-cong p s t h)

  run-append : (ps qs : List Probe) (s : Maps M N) → run (ps ++ qs) s ≡ run qs (run ps s)
  unfolding run
  run-append [] qs s = refl
  run-append (p ∷ ps) qs s = run-append ps qs (fire p s)

  abbrev without : BucketKey → Maps M N → Maps M N
  without k s = record s { buckets = bucket.remove s.buckets k }

  -- The removals of a snapshot, with the tracepoints that fire before each.
  unfoldable remove_amid : List (List Probe × Bucket) → Maps M N → Maps M N
  remove_amid [] s = s
  remove_amid ((ps, b) ∷ rounds) s = remove_amid rounds (without b.key (run ps s))

  -- Whatever tracepoints fire before each removal while the buckets are removed, the sleeps in progress and the target
  -- are those that the tracepoints alone would leave: the drain loses no sleep and makes none.
  remove_amid-sleeps :
      (rounds : List (List Probe × Bucket)) (s : Maps M N)
      → sleeps (remove_amid rounds s) ≡ sleeps (run (fired rounds) s)
  unfolding remove_amid
  remove_amid-sleeps [] s = unfold run in refl
  remove_amid-sleeps ((ps, b) ∷ rounds) s =
      remove_amid-sleeps rounds (without b.key (run ps s))
      ∙ run-cong (fired rounds) (without b.key (run ps s)) (run ps s) refl
      ∙ ap sleeps (sym (run-append ps (fired rounds) s))
