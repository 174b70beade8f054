-- ===== src/PageIo/Ledger.antt =====
-- What the probes of crates/tragach-pageio/src/bpf/main.rs add to the counters between two
-- snapshots of crates/tragach-pageio/src/main.rs, on any sequence of probes and CPUs.
use tragach.Kernel.{HashMap}
use tragach.PageIo.{
  Context, FetchInfo, BlockKey, Maps, Probe, cch_fetch_page_entry, cch_fetch_page_exit,
  block_rq_issue, block_rq_complete, tid, filtered, update_counters, try_cch_entry, try_cch_exit,
  try_block_issue, try_block_complete, fire, run,
}
use tragach.PageIo.Userspace.{default, snapshot_counters, delta_counters}
use tragach.PageIo.Windows.Slots.{Update, fetch, issue, complete, update, sum_slots-set}
use tragach.PageIo.Windows.{updates, IsWindow, snapshots-IsWindow, updates-append}
use tragach.Prelude.{
  ℕ, ◌-◌, ◌<◌, ◌≡◌, inl, inr, ◌∙◌, sym, ap, refl, Option, none, some, List, [], ◌∷◌, ◌++◌, All,
  length, get_elem?-lt, length-set, if◌then◌else◌, arith, Option-cases, Result-cases, subst,
}

-- The update that a probe owes: a fetch that ends and was in progress, a request that the target
-- process issues, a request that completes and was in flight.
abbrev ended : Context → Option FetchInfo → List Update
ended c none = []
ended c (some info) = fetch (c.ktime_ns - info.start_ts) ∷ []

abbrev issued : Context → (target dev sector bytes : Option ℕ) → List Update
issued c (some t) (some dev) (some sector) (some b) = if filtered c t then [] else issue b ∷ []
issued c _ _ _ _ = []

abbrev completed : Context → Option ℕ → List Update
completed c none = []
completed c (some issue_ts) = complete (c.ktime_ns - issue_ts) ∷ []

abbrev pub cpu : Probe → ℕ
cpu (cch_fetch_page_entry c) = c.cpu
cpu (cch_fetch_page_exit c) = c.cpu
cpu (block_rq_issue c) = c.cpu
cpu (block_rq_complete c) = c.cpu

abbrev in_flight : (BlockKey → Option ℕ) → (dev sector : Option ℕ) → Option ℕ
in_flight at (some dev) (some sector) = at record { dev = dev; sector = sector }
in_flight at _ _ = none

module _ {M N : Type 0 → Type 0} ⦃hash : HashMap M ℕ⦄ ⦃block : HashMap N BlockKey⦄ where
  abbrev pub due : Probe → Maps M N → List Update
  due (cch_fetch_page_entry c) s = []
  due (cch_fetch_page_exit c) s = ended c (hash.get s.fetch_in_progress (tid c))
  due (block_rq_issue c) s = issued c s.target_tgid (c.read_at 8) (c.read_at 16) (c.read_at 28)
  due (block_rq_complete c) s =
      completed c (in_flight (block.get s.block_inflight) (c.read_at 8) (c.read_at 16))

  abbrev pub ledger : List Probe → Maps M N → List Update
  ledger [] s = []
  ledger (p ∷ ps) s = due p s ++ ledger ps (fire p s)

  abbrev pub Outcome : Maps M N → List Update → Maps M N → Type 0
  Outcome s us s' =
      (snapshot_counters s'.counters ≡ updates us (snapshot_counters s.counters))
      × (length s'.counters ≡ length s.counters)

  update_counters-Outcome :
      (c : Context) (u : Update) (s : Maps M N)
      → c.cpu < length s.counters
      → Outcome s (u ∷ []) (update_counters c (update u) s).1
  unfolding update_counters snapshot_counters
  update_counters-Outcome c u s h =
      let (x, e) = get_elem?-lt s.counters c.cpu h in
      ground (
        arith,
        e,
        sum_slots-set u default s.counters c.cpu e,
        length-set s.counters c.cpu (update u x),
      )

  issue-Outcome :
      (c : Context) (s : Maps M N) (t dev sector b : ℕ)
      → c.cpu < length s.counters
      → s.target_tgid ≡ some t
      → c.read_at 8 ≡ some dev
      → c.read_at 16 ≡ some sector
      → c.read_at 28 ≡ some b
      → Outcome s (due (block_rq_issue c) s) (fire (block_rq_issue c) s)
  unfolding fire try_block_issue
  issue-Outcome c s t dev sector b h e e8 e16 e28 =
      let key : BlockKey = record { dev = dev; sector = sector } in
      elim (Result-cases (block.insert s.block_inflight key c.ktime_ns)) [
        | inl (m, i) ↦
            ground (arith, update_counters-Outcome c (issue b) (record s { block_inflight = m }) h)
        | inr (n, i) ↦ ground (arith, update_counters-Outcome c (issue b) s h)
      ]

  complete-Outcome :
      (c : Context) (s : Maps M N) (dev sector : ℕ)
      → c.cpu < length s.counters
      → c.read_at 8 ≡ some dev
      → c.read_at 16 ≡ some sector
      → Outcome s (due (block_rq_complete c) s) (fire (block_rq_complete c) s)
  unfolding fire try_block_complete
  complete-Outcome c s dev sector h e8 e16 =
      let key : BlockKey = record { dev = dev; sector = sector } in
      elim (Option-cases (block.get s.block_inflight key)) [
        | inl e ↦ ground arith
        | inr (t, e) ↦
            let s' : Maps M N = record s { block_inflight = block.remove s.block_inflight key } in
            ground (arith, update_counters-Outcome c (complete (c.ktime_ns - t)) s' h)
      ]

  pub fire-Outcome :
      (p : Probe) (s : Maps M N) → cpu p < length s.counters → Outcome s (due p s) (fire p s)
  unfolding fire try_cch_entry try_cch_exit
  fire-Outcome (cch_fetch_page_entry c) s h = ground arith
  fire-Outcome (cch_fetch_page_exit c) s h =
      elim (Option-cases (hash.get s.fetch_in_progress (tid c))) [
        | inl e ↦ ground arith
        | inr (info, e) ↦
            let s' : Maps M N = record s {
              fetch_in_progress = hash.remove s.fetch_in_progress (tid c);
            } in
            ground (arith, update_counters-Outcome c (fetch (c.ktime_ns - info.start_ts)) s' h)
      ]
  fire-Outcome (block_rq_issue c) s h = elim (Option-cases s.target_tgid) [
    | inl e ↦ unfold try_block_issue in (ground arith)
    | inr (t, e) ↦ elim (Option-cases (c.read_at 8)) [
      | inl e8 ↦ unfold try_block_issue in (ground arith)
      | inr (dev, e8) ↦ elim (Option-cases (c.read_at 16)) [
        | inl e16 ↦ unfold try_block_issue in (ground arith)
        | inr (sector, e16) ↦ elim (Option-cases (c.read_at 28)) [
          | inl e28 ↦ unfold try_block_issue in (ground arith)
          | inr (b, e28) ↦ issue-Outcome c s t dev sector b h e e8 e16 e28
        ]
      ]
    ]
  ]
  fire-Outcome (block_rq_complete c) s h = elim (Option-cases (c.read_at 8)) [
    | inl e8 ↦ unfold try_block_complete in (ground arith)
    | inr (dev, e8) ↦ elim (Option-cases (c.read_at 16)) [
      | inl e16 ↦ unfold try_block_complete in (ground arith)
      | inr (sector, e16) ↦ complete-Outcome c s dev sector h e8 e16
    ]
  ]

  -- The counters of a run are the updates of its ledger, on whatever CPUs its probes fire.
  pub run-Outcome :
      (ps : List Probe) (s : Maps M N)
      → All (λ p. cpu p < length s.counters) ps
      → snapshot_counters (run ps s).counters ≡ updates (ledger ps s) (snapshot_counters s.counters)
  unfolding run
  run-Outcome [] s h = refl
  run-Outcome (p ∷ ps) s h =
      let (e, l) = fire-Outcome p s h.0 in
      let h' : All (λ q. cpu q < length (fire p s).counters) ps =
        subst (λ n. All (λ q. cpu q < n) ps) (sym l) h.1 in
      run-Outcome ps (fire p s) h'
      ∙ ap (updates (ledger ps (fire p s))) e
      ∙ sym (updates-append (due p s) (ledger ps (fire p s)) (snapshot_counters s.counters))

  -- Between two snapshots, on any sequence of probes, each on a CPU that has a slot, the counts and
  -- the totals of the difference are those of the ledger, in 64 bits: the fetches that ended and
  -- were in progress, the requests that the target issued, the requests that completed and were in
  -- flight.
  pub ledger-IsWindow :
      (ps : List Probe) (s : Maps M N)
      → All (λ p. cpu p < length s.counters) ps
      → IsWindow
          (ledger ps s)
          (delta_counters (snapshot_counters s.counters) (snapshot_counters (run ps s).counters))
  ledger-IsWindow ps s h =
      snapshots-IsWindow (ledger ps s) s.counters (run ps s).counters (run-Outcome ps s h)
