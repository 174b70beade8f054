-- ===== src/PageIo/Requests.antt =====
-- The span that crates/tragach-pageio/src/bpf/main.rs measures: a block request from its issue to
-- its completion.
use mathlib.Core.Option.{get_or}
use tragach.Kernel.{HashMap}
use tragach.PageIo.{
  Context, BlockKey, Maps, PageIoCounters, Probe, cch_fetch_page_entry, cch_fetch_page_exit,
  block_rq_issue, block_rq_complete, tid, filtered, update_counters, try_cch_entry, try_cch_exit,
  try_block_issue, try_block_complete, fire, run, count_fetch, count_issue, count_complete,
}
use tragach.Prelude.{
  ℕ, ◌+◌, ◌-◌, ◌%◌, ◌^◌, max, ◌≡◌, ◌≢◌, inl, inr, ◌∙◌, sym, ap, refl, false, none, some, List, [],
  ◌∷◌, All, ok, get_elem?, set, arith, Option-cases, Result-cases,
}

abbrev pub request_key : ℕ → ℕ → BlockKey
request_key dev sector = record { dev = dev; sector = sector }

-- The probe neither issues nor completes the request of that device and sector.
abbrev pub Elsewhere : ℕ → ℕ → Probe → Type 0
Elsewhere dev sector (cch_fetch_page_entry c) = Unit
Elsewhere dev sector (cch_fetch_page_exit c) = Unit
Elsewhere dev sector (block_rq_issue c) =
    ¬ ((c.read_at 8 ≡ some dev) × (c.read_at 16 ≡ some sector))
Elsewhere dev sector (block_rq_complete c) =
    ¬ ((c.read_at 8 ≡ some dev) × (c.read_at 16 ≡ some sector))

-- A slot with one more wait in the total, modulo 2 ^ 64, and in the maximum.
abbrev pub with_wait : (wait_ns : ℕ) → PageIoCounters → PageIoCounters
with_wait wait_ns x = record {
  engine_count = x.engine_count;
  engine_total_ns = x.engine_total_ns;
  engine_max_ns = x.engine_max_ns;
  block_count = x.block_count;
  block_total_bytes = x.block_total_bytes;
  block_total_wait_ns = (x.block_total_wait_ns + wait_ns) % 2 ^ 64;
  block_max_wait_ns = max x.block_max_wait_ns wait_ns;
}

count_complete_lem : (w : ℕ) (x : PageIoCounters) → count_complete w x ≡ with_wait w x
unfolding count_complete
count_complete_lem w x = ground arith

module _ {M N : Type 0 → Type 0} ⦃hash : HashMap M ℕ⦄ ⦃block : HashMap N BlockKey⦄ where
  pub update_counters-maps :
      (c : Context) (f : PageIoCounters → PageIoCounters) (s : Maps M N)
      → let s' : Maps M N = (update_counters c f s).1 in
        (s'.block_inflight ≡ s.block_inflight)
        × (s'.fetch_in_progress ≡ s.fetch_in_progress)
        × (s'.target_tgid ≡ s.target_tgid)
  unfolding update_counters
  update_counters-maps c f s = elim (Option-cases (get_elem? s.counters c.cpu)) [
    | inl e ↦ ground arith
    | inr (x, e) ↦ ground arith
  ]

  entry-inflight :
      (c : Context) (s : Maps M N)
      → (fire (cch_fetch_page_entry c) s).block_inflight ≡ s.block_inflight
  unfolding fire try_cch_entry
  entry-inflight c s = ground arith

  exit-inflight :
      (c : Context) (s : Maps M N)
      → (fire (cch_fetch_page_exit c) s).block_inflight ≡ s.block_inflight
  unfolding fire try_cch_exit
  exit-inflight c s = elim (Option-cases (hash.get s.fetch_in_progress (tid c))) [
    | inl e ↦ ground arith
    | inr (info, e) ↦
        let s' : Maps M N = record s {
          fetch_in_progress = hash.remove s.fetch_in_progress (tid c);
        } in
        ground (arith, update_counters-maps c (count_fetch (c.ktime_ns - info.start_ts)) s')
  ]

  issue-inflight :
      (c : Context) (k : BlockKey) (s : Maps M N) (dev sector b : ℕ)
      → k ≢ request_key dev sector
      → c.read_at 8 ≡ some dev
      → c.read_at 16 ≡ some sector
      → c.read_at 28 ≡ some b
      → block.get (fire (block_rq_issue c) s).block_inflight k ≡ block.get s.block_inflight k
  unfolding fire try_block_issue
  issue-inflight c k s dev sector b ne e8 e16 e28 =
      elim (Result-cases (block.insert s.block_inflight (request_key dev sector) c.ktime_ns)) [
        | inl (m, i) ↦ ground (
          arith,
          block.get-insert_ne s.block_inflight (request_key dev sector) k c.ktime_ns i ne,
          update_counters-maps c (count_issue b) (record s { block_inflight = m }),
        )
        | inr (n, i) ↦ ground (arith, update_counters-maps c (count_issue b) s)
      ]

  complete-inflight :
      (c : Context) (k : BlockKey) (s : Maps M N) (dev sector : ℕ)
      → k ≢ request_key dev sector
      → c.read_at 8 ≡ some dev
      → c.read_at 16 ≡ some sector
      → block.get (fire (block_rq_complete c) s).block_inflight k ≡ block.get s.block_inflight k
  unfolding fire try_block_complete
  complete-inflight c k s dev sector ne e8 e16 =
      elim (Option-cases (block.get s.block_inflight (request_key dev sector))) [
        | inl e ↦ ground arith
        | inr (t, e) ↦
            let s' : Maps M N = record s {
              block_inflight = block.remove s.block_inflight (request_key dev sector);
            } in
            ground (
              arith,
              block.get-remove_ne s.block_inflight (request_key dev sector) k ne,
              update_counters-maps c (count_complete (c.ktime_ns - t)) s',
            )
      ]

  fire-inflight :
      (p : Probe) (dev sector : ℕ) (s : Maps M N)
      → Elsewhere dev sector p
      → block.get (fire p s).block_inflight (request_key dev sector)
        ≡ block.get s.block_inflight (request_key dev sector)
  unfolding fire
  fire-inflight (cch_fetch_page_entry c) dev sector s h =
      ap (λ m. block.get m (request_key dev sector)) (entry-inflight c s)
  fire-inflight (cch_fetch_page_exit c) dev sector s h =
      ap (λ m. block.get m (request_key dev sector)) (exit-inflight c s)
  fire-inflight (block_rq_issue c) dev sector s h = elim (Option-cases (c.read_at 8)) [
    | inl e8 ↦ unfold try_block_issue in (ground arith)
    | inr (d, e8) ↦ elim (Option-cases (c.read_at 16)) [
      | inl e16 ↦ unfold try_block_issue in (ground arith)
      | inr (x, e16) ↦ elim (Option-cases (c.read_at 28)) [
        | inl e28 ↦ unfold try_block_issue in (ground arith)
        | inr (b, e28) ↦
            issue-inflight c (request_key dev sector) s d x b
              (λ same. h (
                e8 ∙ ap some (sym (ap (λ k. k.dev) same)),
                e16 ∙ ap some (sym (ap (λ k. k.sector) same)),
              ))
              e8 e16 e28
      ]
    ]
  ]
  fire-inflight (block_rq_complete c) dev sector s h = elim (Option-cases (c.read_at 8)) [
    | inl e8 ↦ unfold try_block_complete in (ground arith)
    | inr (d, e8) ↦ elim (Option-cases (c.read_at 16)) [
      | inl e16 ↦ unfold try_block_complete in (ground arith)
      | inr (x, e16) ↦
          complete-inflight c (request_key dev sector) s d x
            (λ same. h (
              e8 ∙ ap some (sym (ap (λ k. k.dev) same)),
              e16 ∙ ap some (sym (ap (λ k. k.sector) same)),
            ))
            e8 e16
    ]
  ]

  run-inflight :
      (ps : List Probe) (dev sector : ℕ) (s : Maps M N)
      → All (Elsewhere dev sector) ps
      → block.get (run ps s).block_inflight (request_key dev sector)
        ≡ block.get s.block_inflight (request_key dev sector)
  unfolding run
  run-inflight [] dev sector s h = refl
  run-inflight (p ∷ ps) dev sector s h =
      run-inflight ps dev sector (fire p s) h.1 ∙ fire-inflight p dev sector s h.0

  issue-starts :
      (c : Context) (s : Maps M N) (dev sector b : ℕ) {m : N ℕ}
      → filtered c (get_or s.target_tgid 0) ≡ false
      → c.read_at 8 ≡ some dev
      → c.read_at 16 ≡ some sector
      → c.read_at 28 ≡ some b
      → block.insert s.block_inflight (request_key dev sector) c.ktime_ns ≡ ok m
      → block.get (fire (block_rq_issue c) s).block_inflight (request_key dev sector)
        ≡ some c.ktime_ns
  unfolding fire try_block_issue
  issue-starts c s dev sector b {m} f e8 e16 e28 i = elim (Option-cases s.target_tgid) [
    | inl e ↦ ground arith
    | inr (t, e) ↦ ground (
      arith,
      block.get-insert_self s.block_inflight (request_key dev sector) c.ktime_ns i,
      update_counters-maps c (count_issue b) (record s { block_inflight = m }),
    )
  ]

  complete-ends :
      (c : Context) (s : Maps M N) (dev sector t : ℕ) {x : PageIoCounters}
      → c.read_at 8 ≡ some dev
      → c.read_at 16 ≡ some sector
      → block.get s.block_inflight (request_key dev sector) ≡ some t
      → get_elem? s.counters c.cpu ≡ some x
      → ((fire (block_rq_complete c) s).counters
          ≡ set s.counters c.cpu (with_wait (c.ktime_ns - t) x))
        × (block.get (fire (block_rq_complete c) s).block_inflight (request_key dev sector) ≡ none)
  unfolding fire try_block_complete update_counters
  complete-ends c s dev sector t {x} e8 e16 g e = ground (
    arith,
    block.get-remove_self s.block_inflight (request_key dev sector),
    count_complete_lem (c.ktime_ns - t) x,
  )

  -- A request of the target that is put in flight and completes later, with no probe about the same
  -- device and sector between the two, on a CPU that has a slot: the completion adds,
  -- on its CPU alone, the time between the two to the total wait, in 64 bits, raises the maximum to
  -- that time if it is below, and leaves the request not in flight.
  pub request-wait :
      (s : Maps M N) (issue complete : Context) (between : List Probe) (dev sector b : ℕ) {m : N ℕ}
      {x : PageIoCounters}
      → filtered issue (get_or s.target_tgid 0) ≡ false
      → issue.read_at 8 ≡ some dev
      → issue.read_at 16 ≡ some sector
      → issue.read_at 28 ≡ some b
      → block.insert s.block_inflight (request_key dev sector) issue.ktime_ns ≡ ok m
      → All (Elsewhere dev sector) between
      → complete.read_at 8 ≡ some dev
      → complete.read_at 16 ≡ some sector
      → get_elem? (run between (fire (block_rq_issue issue) s)).counters complete.cpu ≡ some x
      → let s' : Maps M N = run between (fire (block_rq_issue issue) s) in
        let s'' : Maps M N = fire (block_rq_complete complete) s' in
        (s''.counters
          ≡ set s'.counters complete.cpu (with_wait (complete.ktime_ns - issue.ktime_ns) x))
        × (block.get s''.block_inflight (request_key dev sector) ≡ none)
  request-wait s c d ps dev sector b f e8 e16 e28 i quiet d8 d16 e =
      complete-ends d (run ps (fire (block_rq_issue c) s)) dev sector c.ktime_ns d8 d16
        (run-inflight ps dev sector (fire (block_rq_issue c) s) quiet
          ∙ issue-starts c s dev sector b f e8 e16 e28 i)
        e
