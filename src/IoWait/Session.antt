-- ===== src/IoWait/Session.antt =====
-- The event loop of crates/tragach-iowait/src/main.rs: a window for each tick, until Ctrl-C or an
-- error, while the tracepoints of crates/tragach-iowait/src/bpf/main.rs fire between the ticks.
use tragach.IoWait.Accounts.{
  weigh, weigh-le, weigh-snapshot, time, time_of, has_key, totalled-none, Among-has_key,
}
use tragach.IoWait.Classify.{Reason, classify}
use tragach.IoWait.Drain.{MapIter, drained, drained-none, flush}
use tragach.IoWait.Kallsyms.{Sym}
use tragach.IoWait.Ledger.Runs.{sleeping_of, AllFit, run-target, run-sleeping, run-spans}
use tragach.IoWait.Ledger.{same_key, Sleeping, asleep, spans, totalled}
use tragach.IoWait.Windows.Totals.{total, reason_ns, aggregate-reason}
use tragach.IoWait.Windows.{
  Bucket, ReasonAgg, JsonReason, JsonWindow, aggregate, frames_of, flush_window, json_entry,
  json_reason, tag,
}
use tragach.IoWait.{Maps, Probe, BucketKey, run}
use tragach.Kernel.{HashMap}
use tragach.Prelude.{
  ℕ, ◌/◌, ◌^◌, ◌<◌, ◌≡◌, Bool, true, false, Option, none, some, List, [], ◌∷◌, All, All-weaken,
  ◌==◌, if◌then◌else◌, refl, ap, sym, ◌∙◌, subst, arith,
}

-- What happens next: tracepoints fire, or `select!` takes a tick, whose window can be written or
-- not, or Ctrl-C.
pub data Event : Type 0 where
  fired : List Probe → Event
  tick : (written : Bool) → Event
  ctrl_c : Event

pub data Ending : Type 0 where
  shut_down read_failed write_failed running : Ending

module _ {M N : Type 0 → Type 0} ⦃hash : HashMap M ℕ⦄ ⦃bucket : HashMap N BucketKey⦄
    (iter : MapIter N bucket) (syms : List Sym) (stacks : ℕ → Option (List ℕ))
    (window_ms pid top_stacks : ℕ) (exclude_idle : Bool) (threshold_ns : ℕ) where
  -- A window that cannot be written ends the loop, with its buckets gone.
  abbrev pub ticked :
      Bool
      → Option (JsonWindow × Maps M N)
      → (Maps M N → List JsonWindow × Ending)
      → List JsonWindow × Ending
  ticked written none rest = ([], read_failed)
  ticked false (some (w, s)) rest = ([], write_failed)
  ticked true (some (w, s)) rest = (w ∷ (rest s).0, (rest s).1)

  -- The windows that are written, and how the loop ends; `running` is after the events so far.
  unfoldable pub loop : Maps M N → List Event → List JsonWindow × Ending
  loop s [] = ([], running)
  loop s (ctrl_c ∷ events) = ([], shut_down)
  loop s (fired ps ∷ events) = loop (run ps s) events
  loop s (tick written ∷ events) =
      ticked written
        (flush bucket iter syms stacks window_ms pid top_stacks exclude_idle threshold_ns s)
        (λ s'. loop s' events)

-- Tracepoints fire in groups, each before a tick.
abbrev pub ticks : List (List Probe) → List Event
ticks [] = []
ticks (ps ∷ groups) = fired ps ∷ tick true ∷ ticks groups

abbrev pub reported_ms : Option JsonReason → ℕ
reported_ms none = 0
reported_ms (some j) = j.total_ms

reported-total :
    (top_stacks : ℕ) (o : Option ReasonAgg)
    → reported_ms (json_entry top_stacks o) ≡ total o / 1000000
unfolding json_reason
reported-total top_stacks none = omega arith
reported-total top_stacks (some agg) = refl

module _ (syms : List Sym) (stacks : ℕ → Option (List ℕ)) (window_ms pid : ℕ) where
  -- Each window is about the process and reports, by reason, the spans that ended in its group.
  abbrev pub AreReports : Option ℕ → Sleeping → List (List Probe) → List JsonWindow → Type 0
  AreReports target sleeping [] [] = Unit
  AreReports target sleeping (ps ∷ groups) (w ∷ windows) =
      (w.window_ms ≡ window_ms)
      × (w.pid ≡ pid)
      × ((r : Reason)
          → reported_ms (w.by_reason r)
            ≡ reason_ns syms stacks r (spans target ps sleeping) / 1000000)
      × AreReports target (asleep target ps sleeping) groups windows
  AreReports target sleeping _ _ = ⊥

  AreReports-at :
      {g g' : Option ℕ} {sl sl' : Sleeping}
      → g ≡ g'
      → sl ≡ sl'
      → (groups : List (List Probe)) (windows : List JsonWindow) → AreReports g sl groups windows
      → AreReports g' sl' groups windows
  AreReports-at e e' groups windows h =
      subst (λ (x : Option ℕ × Sleeping). AreReports x.0 x.1 groups windows) (λ i. (e i, e' i)) h

module _ (syms : List Sym) (stacks : ℕ → Option (List ℕ)) where
  reason_ns-weigh :
      (r : Reason) (bs : List Bucket)
      → reason_ns syms stacks r bs
        ≡ weigh (λ k. tag r == tag (classify (frames_of syms stacks k.stack_id))) bs
  reason_ns-weigh r [] = refl
  reason_ns-weigh r (b ∷ bs) = rw (reason_ns-weigh r bs) refl

module _ {M N : Type 0 → Type 0} ⦃hash : HashMap M ℕ⦄ ⦃bucket : HashMap N BucketKey⦄
    (iter : MapIter N bucket) where
  -- Before every tick the maps have room for what the tracepoints add, the buckets can be listed,
  -- and no sum overflows.
  abbrev pub Runs : List (List Probe) → Maps M N → Type 0
  Runs [] s = Unit
  Runs (ps ∷ groups) s =
      (snapshot : List Bucket) × AllFit ps s
      × (iter.entries (run ps s).buckets ≡ some snapshot)
      × (time (spans s.target_tgid ps (sleeping_of s)) < 2 ^ 64)
      × Runs groups (drained bucket (run ps s) snapshot)

  module _ (ps : List Probe) (s : Maps M N)
      (empty : (k : BucketKey) → bucket.get s.buckets k ≡ none) (fit : AllFit ps s)
      (small : time (spans s.target_tgid ps (sleeping_of s)) < 2 ^ 64) where
    bucket-time :
        (k : BucketKey)
        → let bs = spans s.target_tgid ps (sleeping_of s) in
          bucket.get (run ps s).buckets k ≡ (if has_key k bs then some (time_of k bs) else none)
    bucket-time k =
        let bs = spans s.target_tgid ps (sleeping_of s) in
        run-spans ps s k fit
        ∙ ap (λ o. totalled o k bs) (empty k)
        ∙ totalled-none k bs (omega (arith, weigh-le (λ j. same_key j k) bs))

    snapshot-times :
        {snapshot : List Bucket}
        → iter.entries (run ps s).buckets ≡ some snapshot
        → All (λ a. a.ns ≡ time_of a.key (spans s.target_tgid ps (sleeping_of s))) snapshot
    snapshot-times {snapshot} e =
        let bs = spans s.target_tgid ps (sleeping_of s) in
        All-weaken (λ a. a.ns ≡ time_of a.key bs) snapshot
          λ a m.
            let both : some a.ns ≡ (if has_key a.key bs then some (time_of a.key bs) else none) =
              sym (iter.get-entries (run ps s).buckets a e m) ∙ bucket-time a.key in
            ground arith

    snapshot-keys :
        {snapshot : List Bucket}
        → iter.entries (run ps s).buckets ≡ some snapshot
        → All (λ a. has_key a.key snapshot ≡ true) (spans s.target_tgid ps (sleeping_of s))
    snapshot-keys {snapshot} e =
        let bs = spans s.target_tgid ps (sleeping_of s) in
        All-weaken (λ a. has_key a.key snapshot ≡ true) bs
          λ a m.
            let there : bucket.get (run ps s).buckets a.key ≡ some (time_of a.key bs) =
              rw (Among-has_key a bs m) at (bucket-time a.key) in
            Among-has_key (record { key = a.key; ns = time_of a.key bs }) snapshot
              (iter.entries-get (run ps s).buckets a.key (time_of a.key bs) e there)

    -- The buckets account for the spans of the run.
    snapshot-spans :
        (syms : List Sym) (stacks : ℕ → Option (List ℕ)) (r : Reason) {snapshot : List Bucket}
        → iter.entries (run ps s).buckets ≡ some snapshot
        → reason_ns syms stacks r snapshot
          ≡ reason_ns syms stacks r (spans s.target_tgid ps (sleeping_of s))
    snapshot-spans syms stacks r {snapshot} e =
        let bs = spans s.target_tgid ps (sleeping_of s) in
        reason_ns-weigh syms stacks r snapshot
        ∙ weigh-snapshot _ snapshot bs (iter.entries-DistinctKeys (run ps s).buckets e)
            (snapshot-times e) (snapshot-keys e)
        ∙ sym (reason_ns-weigh syms stacks r bs)

    pub window-spans :
        (syms : List Sym) (stacks : ℕ → Option (List ℕ)) (window_ms pid top_stacks threshold_ns : ℕ)
        (r : Reason) {snapshot : List Bucket}
        → iter.entries (run ps s).buckets ≡ some snapshot
        → reported_ms (
            (flush_window syms stacks window_ms pid top_stacks false threshold_ns
                snapshot).by_reason
              r)
          ≡ reason_ns syms stacks r (spans s.target_tgid ps (sleeping_of s)) / 1000000
    unfolding flush_window
    window-spans syms stacks window_ms pid top_stacks threshold_ns r {snapshot} e =
        let bs = spans s.target_tgid ps (sleeping_of s) in
        let sum = aggregate-reason syms stacks r snapshot in
        let same = snapshot-spans syms stacks r e in
        let bound : reason_ns syms stacks r bs < 2 ^ 64 = omega (
          arith,
          weigh-le (λ k. tag r == tag (classify (frames_of syms stacks k.stack_id))) bs,
          reason_ns-weigh syms stacks r bs,
        ) in
        reported-total top_stacks (aggregate syms stacks (λ _. none) snapshot r)
        ∙ ap (λ n. n / 1000000) (omega (arith, sum, same, bound))

  -- From empty buckets, whatever tracepoints fire between the ticks, the loop without --exclude-idle
  -- writes one window for each tick and goes on, and the window has the process and the interval that
  -- the loop is given and reports, by reason, the whole milliseconds of the spans that ended since the
  -- tick before, or since the start: no span is lost between two windows or counted in both. Before
  -- every tick the maps have room, the buckets can be listed, and the spans take less than 2 ^ 64 ns.
  pub loop-spans :
      (syms : List Sym) (stacks : ℕ → Option (List ℕ)) (window_ms pid top_stacks threshold_ns : ℕ)
      (groups : List (List Probe)) (s : Maps M N)
      → ((k : BucketKey) → bucket.get s.buckets k ≡ none)
      → Runs groups s
      → let (windows, ending) =
          loop iter syms stacks window_ms pid top_stacks false threshold_ns s (ticks groups) in
        AreReports syms stacks window_ms pid s.target_tgid (sleeping_of s) groups windows
        × (ending ≡ running)
  unfolding loop
  loop-spans syms stacks window_ms pid top_stacks threshold_ns [] s empty h = (tt, refl)
  loop-spans syms stacks window_ms pid top_stacks threshold_ns (ps ∷ groups) s empty
        (snapshot, fit, e, small, h) =
      let s' = drained bucket (run ps s) snapshot in
      let rest =
        loop-spans syms stacks window_ms pid top_stacks threshold_ns groups s'
          (λ k.
            drained-none bucket iter syms stacks window_ms pid top_stacks false threshold_ns
              (run ps s) snapshot k e)
          h in
      let flushed : flush bucket iter syms stacks window_ms pid top_stacks false threshold_ns
            (run ps s)
          ≡ some
              (flush_window syms stacks window_ms pid top_stacks false threshold_ns snapshot, s') =
        unfold flush in rw e refl in
      rw flushed (
        (
          unfold flush_window in refl,
          unfold flush_window in refl,
          λ r.
              window-spans ps s empty fit small syms stacks window_ms pid top_stacks threshold_ns r
                e,
          AreReports-at syms stacks window_ms pid (run-target ps s fit) (run-sleeping ps s fit)
              groups
              (loop iter syms stacks window_ms pid top_stacks false threshold_ns s'
                (ticks groups)).0
              rest.0,
        ),
        rest.1,
      )
