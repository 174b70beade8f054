-- ===== src/IoWait/Spans.antt =====
-- The off-CPU span that crates/tragach-iowait/src/bpf/main.rs measures: from the switch that takes
-- a thread off its CPU to the thread's wakeup.
use mathlib.Core.Option.{get_or}
use tragach.IoWait.{
  StartInfo, BucketKey, Maps, Context, stack_of, filtered, new_total, Probe, sched_switch,
  sched_wakeup, try_sched_switch, try_sched_wakeup, fire, run,
}
use tragach.Kernel.{HashMap}
use tragach.Prelude.{
  ℕ, ◌+◌, ◌-◌, ◌%◌, ◌^◌, ◌<◌, Option, ◌≡◌, ◌≢◌, ◌∙◌, inl, inr, sym, ap, refl, false, none, some,
  List, [], ◌∷◌, ok, All, ◌==◌, Option-cases, Result-cases, arith,
}

-- The tracepoint names another thread.
abbrev pub OtherThread : ℕ → Probe → Type 0
OtherThread t (sched_switch c) = c.read_at 24 ≢ some t
OtherThread t (sched_wakeup c) = c.read_at 24 ≢ some t

abbrev pub bucket_of : ℕ → Context → BucketKey
bucket_of t c = record { pid = t; stack_id = stack_of c }

new_total_lem :
    (o : Option ℕ) (delta : ℕ) → delta < 2 ^ 64 → new_total o delta ≡ (get_or o 0 + delta) % 2 ^ 64
new_total_lem none delta h = omega (arith, h)
new_total_lem (some total) delta h = refl

module _ {M N : Type 0 → Type 0} ⦃hash : HashMap M ℕ⦄ ⦃bucket : HashMap N BucketKey⦄ where
  switch_frame :
      (c : Context) (t q : ℕ) (s : Maps M N)
      → t ≢ q
      → c.read_at 24 ≡ some q
      → hash.get (fire (sched_switch c) s).start t ≡ hash.get s.start t
  unfolding fire try_sched_switch
  switch_frame c t q s ne e =
      let info : StartInfo = record { ts_ns = c.ktime_ns; stack_id = stack_of c } in
      elim (Result-cases (hash.insert s.start q info)) [
        | inl (m, i) ↦ ground (arith, hash.get-insert_ne s.start q t info i ne)
        | inr (n, i) ↦ ground arith
      ]

  wakeup_frame :
      (c : Context) (t q : ℕ) (s : Maps M N)
      → t ≢ q
      → c.read_at 24 ≡ some q
      → hash.get (fire (sched_wakeup c) s).start t ≡ hash.get s.start t
  unfolding fire try_sched_wakeup
  wakeup_frame c t q s ne e = elim (Option-cases (hash.get s.start q)) [
    | inl g ↦ ground arith
    | inr (info, g) ↦ ground (arith, hash.get-remove_ne s.start q t ne)
  ]

  fire_frame :
      (p : Probe) (t : ℕ) (s : Maps M N)
      → OtherThread t p
      → hash.get (fire p s).start t ≡ hash.get s.start t
  unfolding fire
  fire_frame (sched_switch c) t s h = elim (Option-cases (c.read_at 24)) [
    | inl e ↦ unfold try_sched_switch in (ground arith)
    | inr (q, e) ↦ switch_frame c t q s (λ same. h (e ∙ ap some (sym same))) e
  ]
  fire_frame (sched_wakeup c) t s h = elim (Option-cases (c.read_at 24)) [
    | inl e ↦ unfold try_sched_wakeup in (ground arith)
    | inr (q, e) ↦ wakeup_frame c t q s (λ same. h (e ∙ ap some (sym same))) e
  ]

  run_frame :
      (ps : List Probe) (t : ℕ) (s : Maps M N)
      → All (OtherThread t) ps
      → hash.get (run ps s).start t ≡ hash.get s.start t
  unfolding run
  run_frame [] t s h = refl
  run_frame (p ∷ ps) t s h = run_frame ps t (fire p s) h.1 ∙ fire_frame p t s h.0

  switch_starts :
      (c : Context) (s : Maps M N) (t state : ℕ) {m : M StartInfo}
      → c.read_at 24 ≡ some t
      → c.read_at 32 ≡ some state
      → (state % 256 == 0) ≡ false
      → filtered c (get_or s.target_tgid 0) ≡ false
      → hash.insert s.start t (record { ts_ns = c.ktime_ns; stack_id = stack_of c }) ≡ ok m
      → hash.get (fire (sched_switch c) s).start t
        ≡ some (record { ts_ns = c.ktime_ns; stack_id = stack_of c })
  unfolding fire try_sched_switch
  switch_starts c s t state {m} e24 e32 off f i = elim (Option-cases s.target_tgid) [
    | inl e ↦ ground arith
    | inr (g, e) ↦ ground (
      arith,
      hash.get-insert_self s.start t (record { ts_ns = c.ktime_ns; stack_id = stack_of c }) i,
    )
  ]

  wakeup_ends :
      (c : Context) (s : Maps M N) (t ts st : ℕ) {m : N ℕ}
      → c.read_at 24 ≡ some t
      → hash.get s.start t ≡ some (record { ts_ns = ts; stack_id = st })
      → bucket.insert s.buckets
          (record { pid = t; stack_id = st })
          (new_total (bucket.get s.buckets (record { pid = t; stack_id = st })) (c.ktime_ns - ts))
        ≡ ok m
      → (bucket.get (fire (sched_wakeup c) s).buckets (record { pid = t; stack_id = st })
          ≡ some (
              new_total
                (bucket.get s.buckets (record { pid = t; stack_id = st }))
                (c.ktime_ns - ts)))
        × (hash.get (fire (sched_wakeup c) s).start t ≡ none)
  unfolding fire try_sched_wakeup
  wakeup_ends c s t ts st {m} e g i = ground (
    arith,
    hash.get-remove_self s.start t,
    bucket.get-insert_self s.buckets (record { pid = t; stack_id = st })
        (new_total (bucket.get s.buckets (record { pid = t; stack_id = st })) (c.ktime_ns - ts)) i,
  )

  -- The sum in 64 bits of what a bucket holds, 0 if it is not there, and a time.
  abbrev pub sum_with : Maps M N → BucketKey → (ns : ℕ) → ℕ
  sum_with s k ns = (get_or (bucket.get s.buckets k) 0 + ns) % 2 ^ 64

  -- A thread of the target that leaves its CPU asleep and is woken later, at a time that has 64 bits,
  -- with no tracepoint about it between the two: the time between them is added in 64 bits to the
  -- bucket of the stack that it left with, which is 0 if it is not there, and no span of the thread
  -- is open afterwards, if both insertions succeed.
  pub off_cpu-span :
      (s : Maps M N) (off on : Context) (between : List Probe) (t state : ℕ) {m : M StartInfo}
      {n : N ℕ}
      → off.read_at 24 ≡ some t
      → off.read_at 32 ≡ some state
      → (state % 256 == 0) ≡ false
      → filtered off (get_or s.target_tgid 0) ≡ false
      → hash.insert s.start t (record { ts_ns = off.ktime_ns; stack_id = stack_of off }) ≡ ok m
      → All (OtherThread t) between
      → on.read_at 24 ≡ some t
      → on.ktime_ns < 2 ^ 64
      → bucket.insert (run between (fire (sched_switch off) s)).buckets (bucket_of t off) (
          sum_with
            (run between (fire (sched_switch off) s))
            (bucket_of t off)
            (on.ktime_ns - off.ktime_ns))
        ≡ ok n
      → let s' : Maps M N = run between (fire (sched_switch off) s) in
        let s'' : Maps M N = fire (sched_wakeup on) s' in
        (bucket.get s''.buckets (bucket_of t off)
          ≡ some (sum_with s' (bucket_of t off) (on.ktime_ns - off.ktime_ns)))
        × (hash.get s''.start t ≡ none)
  off_cpu-span s off on between t state e24 e32 asleep f i quiet w clock j =
      let s' : Maps M N = run between (fire (sched_switch off) s) in
      let sum =
        new_total_lem (bucket.get s'.buckets (bucket_of t off)) (on.ktime_ns - off.ktime_ns)
          (omega (arith, clock)) in
      let (counted, closed) =
        wakeup_ends on s' t off.ktime_ns (stack_of off) w
          (run_frame between t (fire (sched_switch off) s) quiet
            ∙ switch_starts off s t state e24 e32 asleep f i)
          (ap (bucket.insert s'.buckets (bucket_of t off)) sum ∙ j) in
      (counted ∙ ap some sum, closed)
