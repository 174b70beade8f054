-- ===== src/PageIo/Averages.antt =====
-- The averages of a window of crates/tragach-pageio/src/main.rs against its maxima.
use native.Mathlib.Nat.{div-le_of_le-mul}
use tragach.Kernel.{HashMap}
use tragach.PageIo.Ledger.{cpu, ledger, ledger-IsWindow, run-Outcome}
use tragach.PageIo.Userspace.{default, snapshot_counters, delta_counters, json_window}
use tragach.PageIo.Windows.Slots.{Update, fetch, issue, complete, update}
use tragach.PageIo.Windows.{fetches, fetch_ns, updates}
use tragach.PageIo.{
  Maps, Probe, BlockKey, PageIoCounters, run, count_fetch, count_issue, count_complete,
}
use tragach.Prelude.{
  ℕ, ◌+◌, ◌*◌, ◌/◌, ◌%◌, ◌^◌, ◌≤◌, ◌<◌, ◌≡◌, List, [], ◌∷◌, All, length, ltb, if◌then◌else◌,
  Bool-cases, inl, inr, arith,
}

update-max : (u : Update) (c : PageIoCounters) → c.engine_max_ns ≤ (update u c).engine_max_ns
unfolding count_fetch count_issue count_complete
update-max (fetch d) c = ground arith
update-max (issue b) c = ground arith
update-max (complete w) c = ground arith

updates-max :
    (us : List Update) (c : PageIoCounters) → c.engine_max_ns ≤ (updates us c).engine_max_ns
updates-max [] c = omega arith
updates-max (u ∷ us) c = omega (arith, update-max u c, updates-max us (update u c))

fetch-max : (d : ℕ) (c : PageIoCounters) → d ≤ (count_fetch d c).engine_max_ns
unfolding count_fetch
fetch-max d c = ground arith

-- No fetch is longer than the maximum.
fetch_ns-le :
    (us : List Update) (c : PageIoCounters)
    → fetch_ns us ≤ fetches us * (updates us c).engine_max_ns
fetch_ns-le [] c = omega arith
fetch_ns-le (fetch d ∷ us) c =
    let m = (updates us (count_fetch d c)).engine_max_ns in
    let longest : d ≤ m = omega (arith, fetch-max d c, updates-max us (count_fetch d c)) in
    let rest = fetch_ns-le us (count_fetch d c) in grind arith
fetch_ns-le (issue b ∷ us) c = fetch_ns-le us (count_issue b c)
fetch_ns-le (complete w ∷ us) c = fetch_ns-le us (count_complete w c)

average-le :
    (total count m : ℕ) → total ≤ count * m → (if ltb 0 count then total / count else 0) ≤ m
average-le total count m h = elim (Bool-cases (ltb 0 count)) [
  | inl e ↦ rw e (div-le_of_le-mul count h)
  | inr e ↦ rw e (omega arith)
]

total-le :
    (total count ns n m : ℕ)
    → total ≡ ns % 2 ^ 64
    → count ≡ n % 2 ^ 64
    → n < 2 ^ 64
    → ns ≤ n * m
    → total ≤ count * m
total-le total count ns n m e e' small h =
    let same : count ≡ n = omega arith in rw same (omega arith)

module _ {M N : Type 0 → Type 0} ⦃hash : HashMap M ℕ⦄ ⦃block : HashMap N BlockKey⦄ where
  -- On any sequence of probes, each on a CPU that has a slot, of which fewer than 2 ^ 64 end a
  -- fetch, the window between two snapshots reports an average fetch that is not above the maximum
  -- that it reports.
  pub engine_avg-le-max :
      (ps : List Probe) (s : Maps M N) (window_ms pid : ℕ)
      → All (λ p. cpu p < length s.counters) ps
      → fetches (ledger ps s) < 2 ^ 64
      → let prev = snapshot_counters s.counters in
        let now = snapshot_counters (run ps s).counters in
        let w = json_window (delta_counters prev now) window_ms pid in
        w.engine_avg_ns ≤ w.engine_max_ns
  unfolding json_window delta_counters
  engine_avg-le-max ps s window_ms pid h small =
      let us = ledger ps s in
      let window = ledger-IsWindow ps s h in
      let prev = snapshot_counters s.counters in
      let now = snapshot_counters (run ps s).counters in
      let longest : fetch_ns us ≤ fetches us * now.engine_max_ns =
        rw (run-Outcome ps s h) (fetch_ns-le us prev) in
      average-le _ _ now.engine_max_ns (
        total-le _ _ (fetch_ns us) (fetches us) now.engine_max_ns window.engine_total_ns
          window.engine_count small longest)

-- A window in which one request is issued and two complete, the other one issued before it, reports
-- an average wait of a request that is twice the maximum.
block_avg-above-max :
    (b w window_ms pid : ℕ)
    → 0 < w
    → w + w < 2 ^ 64
    → let now = updates (issue b ∷ complete w ∷ complete w ∷ []) default in
      let window = json_window (delta_counters default now) window_ms pid in
      (window.block_avg_wait_ns ≡ w + w) × (window.block_max_wait_ns ≡ w)
unfolding json_window delta_counters count_issue count_complete
block_avg-above-max b w window_ms pid h small = ground arith
