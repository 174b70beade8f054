-- ===== src/IoWait/Ledger/Runs.antt =====
-- What a run of the two tracepoints of crates/tragach-iowait/src/bpf/main.rs leaves in the maps: the
-- threads that are asleep and the spans of IoWait/Ledger.
use mathlib.Core.Path.{fun_ext, ap₂}
use tragach.IoWait.Windows.{Bucket}
use tragach.IoWait.{
  StartInfo, BucketKey, Maps, Context, new_total, Probe, sched_switch, sched_wakeup,
  try_sched_switch, try_sched_wakeup, fire, run,
}
use tragach.Kernel.{HashMap}
use tragach.Prelude.{
  ℕ, ◌-◌, ◌≡◌, ◌∙◌, inl, inr, sym, refl, Option, none, some, List, [], ◌∷◌, ok, Option-cases, arith,
}
use tragach.IoWait.Ledger.{
  Sleeping, info_of, tracked, sleeper, span_of, next, ended, spans, asleep, totalled, Result-is_ok,
  Takes, insert-sleeping, remove-sleeping, Counts, insert-totalled, with_thread-none,
  totalled-append,
}

module _ {M N : Type 0 → Type 0} ⦃hash : HashMap M ℕ⦄ ⦃bucket : HashMap N BucketKey⦄ where
  abbrev pub sleeping_of : Maps M N → Sleeping
  sleeping_of s t = hash.get s.start t

  abbrev pub sleeper_of : Maps M N → Context → Option ℕ
  sleeper_of s c = sleeper (tracked s.target_tgid c) (c.read_at 24) (c.read_at 32)

  -- The maps have room for what a tracepoint adds.
  abbrev pub Fits : Probe → Maps M N → Type 0
  Fits (sched_switch c) s = Takes hash s.start (sleeper_of s c) (info_of c)
  Fits (sched_wakeup c) s =
      Counts bucket s.buckets (span_of (c.read_at 24) c.ktime_ns (sleeping_of s))

  abbrev pub AllFit : List Probe → Maps M N → Type 0
  AllFit [] s = Unit
  AllFit (p ∷ ps) s = Fits p s × AllFit ps (fire p s)

  -- What a tracepoint does to the maps, if they have room.
  record Fired (p : Probe) (s : Maps M N) (s' : Maps M N) : Type 0 where
    target : s'.target_tgid ≡ s.target_tgid
    sleeping : (u : ℕ) → hash.get s'.start u ≡ next s.target_tgid p (sleeping_of s) u
    counted :
        (k : BucketKey)
        → bucket.get s'.buckets k ≡ totalled (bucket.get s.buckets k) k (ended p (sleeping_of s))

  switch-none : (c : Context) (s : Maps M N) → sleeper_of s c ≡ none → fire (sched_switch c) s ≡ s
  unfolding fire try_sched_switch
  switch-none c s h = elim (Option-cases (c.read_at 24)) [
    | inl e ↦ ground arith
    | inr (pid, e) ↦ elim (Option-cases (c.read_at 32)) [
      | inl e' ↦ ground arith
      | inr (state, e') ↦ elim (Option-cases s.target_tgid) [
        | inl t ↦ ground arith
        | inr (target, t) ↦ ground arith
      ]
    ]
  ]

  switch-some :
      (c : Context) (s : Maps M N) (t : ℕ) {m : M StartInfo}
      → sleeper_of s c ≡ some t
      → hash.insert s.start t (info_of c) ≡ ok m
      → fire (sched_switch c) s ≡ record s { start = m }
  unfolding fire try_sched_switch
  switch-some c s t h i = elim (Option-cases (c.read_at 24)) [
    | inl e ↦ ground arith
    | inr (pid, e) ↦ elim (Option-cases (c.read_at 32)) [
      | inl e' ↦ ground arith
      | inr (state, e') ↦ elim (Option-cases s.target_tgid) [
        | inl g ↦ ground arith
        | inr (target, g) ↦ ground arith
      ]
    ]
  ]

  switch-Fired :
      (c : Context) (s : Maps M N)
      → Fits (sched_switch c) s
      → Fired (sched_switch c) s (fire (sched_switch c) s)
  switch-Fired c s h = elim (Option-cases (sleeper_of s c)) [
    | inl e ↦
        rw (switch-none c s e)
          record { target = refl; sleeping = λ u. rw e refl; counted = λ k. refl }
    | inr (t, e) ↦
        let (m, i) = Result-is_ok (hash.insert s.start t (info_of c)) (rw e at h) in
        rw (switch-some c s t e i) record {
          target = refl;
          sleeping = λ u. rw e (insert-sleeping hash s.start t (info_of c) u i);
          counted = λ k. refl;
        }
  ]

  wakeup-none :
      (c : Context) (s : Maps M N)
      → span_of (c.read_at 24) c.ktime_ns (sleeping_of s) ≡ []
      → fire (sched_wakeup c) s ≡ s
  unfolding fire try_sched_wakeup
  wakeup-none c s h = elim (Option-cases (c.read_at 24)) [
    | inl e ↦ ground arith
    | inr (t, e) ↦ elim (Option-cases (hash.get s.start t)) [
      | inl e' ↦ ground arith
      | inr (info, e') ↦ ground arith
    ]
  ]

  wakeup-some :
      (c : Context) (s : Maps M N) (t : ℕ) (info : StartInfo) {m : N ℕ}
      → c.read_at 24 ≡ some t
      → hash.get s.start t ≡ some info
      → let k : BucketKey = record { pid = t; stack_id = info.stack_id } in
        bucket.insert s.buckets k (new_total (bucket.get s.buckets k) (c.ktime_ns - info.ts_ns))
          ≡ ok m
        → fire (sched_wakeup c) s ≡ record s { start = hash.remove s.start t; buckets = m }
  unfolding fire try_sched_wakeup
  wakeup-some c s t info e e' i = rw (fire, e, e', i) refl

  wakeup-Fired :
      (c : Context) (s : Maps M N)
      → Fits (sched_wakeup c) s
      → Fired (sched_wakeup c) s (fire (sched_wakeup c) s)
  wakeup-Fired c s h = elim (Option-cases (c.read_at 24)) [
    | inl e ↦
        rw (wakeup-none c s (rw e refl))
          record { target = refl; sleeping = λ u. rw e refl; counted = λ k. rw e refl }
    | inr (t, e) ↦ elim (Option-cases (hash.get s.start t)) [
      | inl e' ↦ rw (wakeup-none c s (rw (e, e') refl)) record {
        target = refl;
        sleeping = λ u. rw e (with_thread-none t u (hash.get s.start) e');
        counted = λ k. rw (e, e') refl;
      }
      | inr (info, e') ↦
          let key : BucketKey = record { pid = t; stack_id = info.stack_id } in
          let b : Bucket = record { key = key; ns = c.ktime_ns - info.ts_ns } in
          let (m, i) =
            Result-is_ok (bucket.insert s.buckets key (new_total (bucket.get s.buckets key) b.ns))
              (rw (e, e') at h) in
          rw (wakeup-some c s t info e e' i) record {
            target = refl;
            sleeping = λ u. rw e (remove-sleeping hash s.start t u);
            counted = λ k. rw (e, e') (insert-totalled bucket s.buckets b k i);
          }
    ]
  ]

  fire-Fired : (p : Probe) (s : Maps M N) → Fits p s → Fired p s (fire p s)
  fire-Fired (sched_switch c) s h = switch-Fired c s h
  fire-Fired (sched_wakeup c) s h = wakeup-Fired c s h

  pub run-target :
      (ps : List Probe) (s : Maps M N) → AllFit ps s → (run ps s).target_tgid ≡ s.target_tgid
  unfolding run
  run-target [] s h = refl
  run-target (p ∷ ps) s h = run-target ps (fire p s) h.1 ∙ (fire-Fired p s h.0).target

  fire-sleeping :
      (p : Probe) (s : Maps M N)
      → Fits p s
      → sleeping_of (fire p s) ≡ next s.target_tgid p (sleeping_of s)
  fire-sleeping p s h = fun_ext (fire-Fired p s h).sleeping

  -- If the map has room, it has the threads that are asleep after a run.
  pub run-sleeping :
      (ps : List Probe) (s : Maps M N)
      → AllFit ps s
      → sleeping_of (run ps s) ≡ asleep s.target_tgid ps (sleeping_of s)
  unfolding run
  run-sleeping [] s h = refl
  run-sleeping (p ∷ ps) s h =
      run-sleeping ps (fire p s) h.1
      ∙ ap₂ (λ g sl. asleep g ps sl) (fire-Fired p s h.0).target (fire-sleeping p s h.0)

  -- If the maps have room, a run adds its spans to the totals of their buckets.
  pub run-spans :
      (ps : List Probe) (s : Maps M N) (k : BucketKey)
      → AllFit ps s
      → bucket.get (run ps s).buckets k
        ≡ totalled (bucket.get s.buckets k) k (spans s.target_tgid ps (sleeping_of s))
  unfolding run
  run-spans [] s k h = refl
  run-spans (p ∷ ps) s k h =
      run-spans ps (fire p s) k h.1
      ∙ ap₂ (λ o l. totalled o k l) ((fire-Fired p s h.0).counted k)
          (ap₂ (λ g sl. spans g ps sl) (fire-Fired p s h.0).target (fire-sleeping p s h.0))
      ∙ sym (totalled-append (bucket.get s.buckets k) k (ended p (sleeping_of s)) _)
