-- ===== src/PageIo/Fetches.antt =====
-- The span of a page fetch that crates/tragach-pageio/src/bpf/main.rs measures: from the entry of
-- CCH_fetch_page to its exit on the same thread.
use mathlib.Core.Option.{get_or}
use tragach.Kernel.{HashMap}
use tragach.PageIo.Requests.{request_key, update_counters-maps}
use tragach.PageIo.{
  Context, FetchInfo, BlockKey, Maps, PageIoCounters, Probe, cch_fetch_page_entry,
  cch_fetch_page_exit, block_rq_issue, block_rq_complete, tid, filtered, update_counters,
  try_cch_entry, try_cch_exit, try_block_issue, try_block_complete, fire, run, count_fetch,
  count_issue, count_complete,
}
use tragach.Prelude.{
  ℕ, ◌+◌, ◌-◌, ◌%◌, ◌^◌, max, ◌==◌, ◌≡◌, ◌≢◌, inl, inr, ◌∙◌, ap, refl, false, none, some, List, [],
  ◌∷◌, All, ok, get_elem?, set, arith, Option-cases, Result-cases, if◌then◌else◌,
}

-- The probe is no fetch of that thread.
abbrev pub OtherThread : ℕ → Probe → Type 0
OtherThread i (cch_fetch_page_entry c) = i ≢ tid c
OtherThread i (cch_fetch_page_exit c) = i ≢ tid c
OtherThread i (block_rq_issue c) = Unit
OtherThread i (block_rq_complete c) = Unit

-- What the entry of a fetch records: its time and the page, 0 where the window cannot be read.
abbrev pub fetch_info : Context → ℕ → FetchInfo
fetch_info c win_ptr = record {
  start_ts = c.ktime_ns;
  page_num = if win_ptr == 0 then 0 else get_or (c.read_user win_ptr) 0;
}

-- A slot with one more fetch, whose time is in the total, modulo 2 ^ 64, and in the maximum.
abbrev pub with_fetch : (duration_ns : ℕ) → PageIoCounters → PageIoCounters
with_fetch duration_ns x = record {
  engine_count = (x.engine_count + 1) % 2 ^ 64;
  engine_total_ns = (x.engine_total_ns + duration_ns) % 2 ^ 64;
  engine_max_ns = max x.engine_max_ns duration_ns;
  block_count = x.block_count;
  block_total_bytes = x.block_total_bytes;
  block_total_wait_ns = x.block_total_wait_ns;
  block_max_wait_ns = x.block_max_wait_ns;
}

count_fetch_lem : (d : ℕ) (x : PageIoCounters) → count_fetch d x ≡ with_fetch d x
unfolding count_fetch
count_fetch_lem d x = ground arith

module _ {M N : Type 0 → Type 0} ⦃hash : HashMap M ℕ⦄ ⦃block : HashMap N BlockKey⦄ where
  entry_ne :
      (c : Context) (i : ℕ) (s : Maps M N)
      → i ≢ tid c
      → hash.get (fire (cch_fetch_page_entry c) s).fetch_in_progress i
        ≡ hash.get s.fetch_in_progress i
  unfolding fire try_cch_entry
  entry_ne c i s ne = elim (Option-cases (c.arg 1)) [
    | inl e ↦ ground arith
    | inr (w, e) ↦ elim (Result-cases (hash.insert s.fetch_in_progress (tid c) (fetch_info c w))) [
      | inl (m, h) ↦
          ground (arith, hash.get-insert_ne s.fetch_in_progress (tid c) i (fetch_info c w) h ne)
      | inr (n, h) ↦ ground arith
    ]
  ]

  exit_ne :
      (c : Context) (i : ℕ) (s : Maps M N)
      → i ≢ tid c
      → hash.get (fire (cch_fetch_page_exit c) s).fetch_in_progress i
        ≡ hash.get s.fetch_in_progress i
  unfolding fire try_cch_exit
  exit_ne c i s ne = elim (Option-cases (hash.get s.fetch_in_progress (tid c))) [
    | inl e ↦ ground arith
    | inr (info, e) ↦
        let s' : Maps M N = record s {
          fetch_in_progress = hash.remove s.fetch_in_progress (tid c);
        } in
        ground (
          arith,
          hash.get-remove_ne s.fetch_in_progress (tid c) i ne,
          update_counters-maps c (count_fetch (c.ktime_ns - info.start_ts)) s',
        )
  ]

  complete-fetches :
      (c : Context) (s : Maps M N)
      → (fire (block_rq_complete c) s).fetch_in_progress ≡ s.fetch_in_progress
  unfolding fire try_block_complete
  complete-fetches c s = elim (Option-cases (c.read_at 8)) [
    | inl e8 ↦ ground arith
    | inr (d, e8) ↦ elim (Option-cases (c.read_at 16)) [
      | inl e16 ↦ ground arith
      | inr (x, e16) ↦ elim (Option-cases (block.get s.block_inflight (request_key d x))) [
        | inl e ↦ ground arith
        | inr (t, e) ↦
            let s' : Maps M N = record s {
              block_inflight = block.remove s.block_inflight (request_key d x);
            } in
            ground (arith, update_counters-maps c (count_complete (c.ktime_ns - t)) s')
      ]
    ]
  ]

  issue-fetches :
      (c : Context) (s : Maps M N)
      → (fire (block_rq_issue c) s).fetch_in_progress ≡ s.fetch_in_progress
  unfolding fire try_block_issue
  issue-fetches c s = elim (Option-cases (c.read_at 8)) [
    | inl e8 ↦ ground arith
    | inr (d, e8) ↦ elim (Option-cases (c.read_at 16)) [
      | inl e16 ↦ ground arith
      | inr (x, e16) ↦ elim (Option-cases (c.read_at 28)) [
        | inl e28 ↦ ground arith
        | inr (b, e28) ↦
            elim (Result-cases (block.insert s.block_inflight (request_key d x) c.ktime_ns)) [
              | inl (m, i) ↦
                  ground (
                    arith,
                    update_counters-maps c (count_issue b) (record s { block_inflight = m }),
                  )
              | inr (n, i) ↦ ground (arith, update_counters-maps c (count_issue b) s)
            ]
      ]
    ]
  ]

  fire-fetch :
      (p : Probe) (i : ℕ) (s : Maps M N)
      → OtherThread i p
      → hash.get (fire p s).fetch_in_progress i ≡ hash.get s.fetch_in_progress i
  fire-fetch (cch_fetch_page_entry c) i s h = entry_ne c i s h
  fire-fetch (cch_fetch_page_exit c) i s h = exit_ne c i s h
  fire-fetch (block_rq_issue c) i s h = ap (λ m. hash.get m i) (issue-fetches c s)
  fire-fetch (block_rq_complete c) i s h = ap (λ m. hash.get m i) (complete-fetches c s)

  run-fetch :
      (ps : List Probe) (i : ℕ) (s : Maps M N)
      → All (OtherThread i) ps
      → hash.get (run ps s).fetch_in_progress i ≡ hash.get s.fetch_in_progress i
  unfolding run
  run-fetch [] i s h = refl
  run-fetch (p ∷ ps) i s h = run-fetch ps i (fire p s) h.1 ∙ fire-fetch p i s h.0

  entry-starts :
      (c : Context) (s : Maps M N) (win_ptr : ℕ) {m : M FetchInfo}
      → filtered c (get_or s.target_tgid 0) ≡ false
      → c.arg 1 ≡ some win_ptr
      → hash.insert s.fetch_in_progress (tid c) (fetch_info c win_ptr) ≡ ok m
      → hash.get (fire (cch_fetch_page_entry c) s).fetch_in_progress (tid c)
        ≡ some (fetch_info c win_ptr)
  unfolding fire try_cch_entry
  entry-starts c s w {m} f e i = elim (Option-cases s.target_tgid) [
    | inl t ↦ ground arith
    | inr (target, t) ↦
        ground (arith, hash.get-insert_self s.fetch_in_progress (tid c) (fetch_info c w) i)
  ]

  exit-ends :
      (c : Context) (s : Maps M N) (info : FetchInfo) {x : PageIoCounters}
      → hash.get s.fetch_in_progress (tid c) ≡ some info
      → get_elem? s.counters c.cpu ≡ some x
      → ((fire (cch_fetch_page_exit c) s).counters
          ≡ set s.counters c.cpu (with_fetch (c.ktime_ns - info.start_ts) x))
        × (hash.get (fire (cch_fetch_page_exit c) s).fetch_in_progress (tid c) ≡ none)
  unfolding fire try_cch_exit update_counters
  exit-ends c s info {x} g e = ground (
    arith,
    hash.get-remove_self s.fetch_in_progress (tid c),
    count_fetch_lem (c.ktime_ns - info.start_ts) x,
  )

  -- A fetch that the target enters, whose record is put in the map, and that ends later on a CPU
  -- that has a slot, whatever probes that are no fetch of that thread fire between the two: the
  -- exit adds, on its CPU alone, 1 to the count and the time between the two to the total, in 64
  -- bits, raises the maximum to that time if it is below, and leaves the thread with no fetch in
  -- progress.
  pub fetch-span :
      (s : Maps M N) (entry exit : Context) (between : List Probe) (win_ptr : ℕ) {m : M FetchInfo}
      {x : PageIoCounters}
      → filtered entry (get_or s.target_tgid 0) ≡ false
      → entry.arg 1 ≡ some win_ptr
      → hash.insert s.fetch_in_progress (tid entry) (fetch_info entry win_ptr) ≡ ok m
      → All (OtherThread (tid entry)) between
      → tid exit ≡ tid entry
      → get_elem? (run between (fire (cch_fetch_page_entry entry) s)).counters exit.cpu ≡ some x
      → let s' : Maps M N = run between (fire (cch_fetch_page_entry entry) s) in
        let s'' : Maps M N = fire (cch_fetch_page_exit exit) s' in
        (s''.counters ≡ set s'.counters exit.cpu (with_fetch (exit.ktime_ns - entry.ktime_ns) x))
        × (hash.get s''.fetch_in_progress (tid exit) ≡ none)
  fetch-span s c d ps w f e i quiet same slot =
      let s' : Maps M N = run ps (fire (cch_fetch_page_entry c) s) in
      exit-ends d s' (fetch_info c w)
        (ap (hash.get s'.fetch_in_progress) same
          ∙ run-fetch ps (tid c) (fire (cch_fetch_page_entry c) s) quiet
          ∙ entry-starts c s w f e i)
        slot
