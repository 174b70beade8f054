-- ===== src/Tests/Others.antt =====
-- Runs of attach, pageio and iowait, crates/tragach-attach/src, crates/tragach-pageio/src and
-- crates/tragach-iowait/src, on one thread of process 7.
use native.Mathlib.Decide.{ℕ_discrete}
use tragach.Attach
use tragach.Attach.{LiveAttachment, attach_ctor_entry, release_attachment_entry, live_at}
use tragach.Attach.Lifecycle.{closed_event, closing, release-lifetime}
use tragach.IoWait.{BucketKey}
use tragach.Kernel.Bounded.{Assoc, insert, remove, push, bounded_hash, bounded_lru, bounded_ring}
use tragach.Kernel.{HashMap, LruHashMap, RingBuf}
use tragach.PageIo
use tragach.PageIo.{
  FetchInfo, BlockKey, PageIoCounters, cch_fetch_page_entry, cch_fetch_page_exit, block_rq_issue,
  block_rq_complete, count_issue, count_complete,
}
use tragach.PageIo.Ledger.{ledger, ledger-IsWindow}
use tragach.PageIo.Averages.{engine_avg-le-max}
use tragach.PageIo.Requests.{request-wait}
use tragach.PageIo.Userspace.{json_window, default, snapshot_counters, delta_counters}
use tragach.PageIo.Windows.{IsWindow}
use tragach.Prelude.{ℕ, ◌++◌, ◌≤◌, ◌≡◌, refl, some, none, List, [], ◌∷◌, set, arith}
use tragach.Tests.{context_of}

abbrev pub lru : LruHashMap (Assoc ℕ_discrete) ℕ
lru = bounded_lru ℕ_discrete 4

abbrev pub ring : RingBuf List
ring = bounded_ring 4

abbrev pub nothing_live : Attach.Maps (Assoc ℕ_discrete) List
nothing_live = record { live = []; events = [] }

release-lifetime_example :
    let s' = Attach.run ⦃lru = lru⦄ ⦃ring = ring⦄ (attach_ctor_entry (context_of 4 0 120) ∷ []) (
      Attach.fire ⦃lru = lru⦄ ⦃ring = ring⦄
        (attach_ctor_entry (context_of 3 0 100))
        nothing_live) in
    ring.records
      (Attach.fire ⦃lru = lru⦄ ⦃ring = ring⦄
        (release_attachment_entry (context_of 3 0 190))
        s').events
    ≡ closing ⦃lru = lru⦄ ⦃ring = ring⦄ s'
        (λ _. closed_event (context_of 3 0 190) 90 3)
        (lru.get s'.live 3)
unfolding bounded_lru push remove
release-lifetime_example =
    release-lifetime ⦃lru = lru⦄ ⦃ring = ring⦄ nothing_live (context_of 3 0 100)
      (context_of 3 0 190) (attach_ctor_entry (context_of 4 0 120) ∷ []) 3 refl refl (omega arith)
      refl ((λ e. ground arith), tt)

-- Pageio on two CPUs, for process 7: fields at every offset are `f`.
abbrev pub page_context : (f ktime_ns cpu : ℕ) → PageIo.Context
page_context f t cpu = record {
  arg = λ i. some 0;
  read_at = λ i. some f;
  read_user = λ p. none;
  ktime_ns = t;
  pid_tgid = 30064771077;
  cpu = cpu;
}

unfoldable pub block_key_discrete : Discrete BlockKey
block_key_discrete = hlevel ℕ_discrete

unfoldable pub bucket_key_discrete : Discrete BucketKey
bucket_key_discrete = hlevel ℕ_discrete

abbrev pub hash : HashMap (Assoc ℕ_discrete) ℕ
hash = bounded_hash ℕ_discrete 4

abbrev pub block : HashMap (Assoc block_key_discrete) BlockKey
block = bounded_hash block_key_discrete 4

abbrev pub bucket : HashMap (Assoc bucket_key_discrete) BucketKey
bucket = bounded_hash bucket_key_discrete 4

abbrev pub Pages : Type 0
Pages = PageIo.Maps (Assoc ℕ_discrete) (Assoc block_key_discrete)

abbrev pub two_cpus : Pages
two_cpus = record {
  target_tgid = some 7;
  fetch_in_progress = [];
  block_inflight = [];
  counters = default ∷ default ∷ [];
}

abbrev pub io : List PageIo.Probe
io =
    cch_fetch_page_entry (page_context 9 100 0)
    ∷ block_rq_issue (page_context 9 110 0)
    ∷ block_rq_complete (page_context 9 150 1)
    ∷ cch_fetch_page_exit (page_context 9 180 1)
    ∷ []

ledger-IsWindow_example : IsWindow (ledger ⦃hash = hash⦄ ⦃block = block⦄ io two_cpus) (
    delta_counters
      (snapshot_counters two_cpus.counters)
      (snapshot_counters (PageIo.run ⦃hash = hash⦄ ⦃block = block⦄ io two_cpus).counters))
ledger-IsWindow_example =
    ledger-IsWindow ⦃hash = hash⦄ ⦃block = block⦄ io two_cpus
      (omega arith, (omega arith, (omega arith, (omega arith, tt))))

engine_avg-le-max_example :
    let prev = snapshot_counters two_cpus.counters in
    let now =
      snapshot_counters (PageIo.run ⦃hash = hash⦄ ⦃block = block⦄ (io ++ io) two_cpus).counters in
    let w = json_window (delta_counters prev now) 1000 7 in w.engine_avg_ns ≤ w.engine_max_ns
unfolding PageIo.run PageIo.fire PageIo.update_counters PageIo.try_block_issue bounded_hash insert
    remove block_key_discrete ℕ_discrete
engine_avg-le-max_example =
    engine_avg-le-max ⦃hash = hash⦄ ⦃block = block⦄ (io ++ io) two_cpus 1000 7
      (
        omega arith,
        (
          omega arith,
          (
            omega arith,
            (omega arith, (omega arith, (omega arith, (omega arith, (omega arith, tt))))),
          ),
        ),
      )
      (omega arith)

request-wait_example :
    let s' = PageIo.run ⦃hash = hash⦄ ⦃block = block⦄ [] (
      PageIo.fire ⦃hash = hash⦄ ⦃block = block⦄ (block_rq_issue (page_context 9 110 0)) two_cpus) in
    let s'' =
      PageIo.fire ⦃hash = hash⦄ ⦃block = block⦄ (block_rq_complete (page_context 9 150 1)) s' in
    (s''.counters
      ≡ set s'.counters 1 (record default { block_total_wait_ns = 40; block_max_wait_ns = 40 }))
    × (block.get s''.block_inflight (record { dev = 9; sector = 9 }) ≡ none)
unfolding bounded_hash insert remove PageIo.run PageIo.fire PageIo.update_counters
request-wait_example =
    request-wait ⦃hash = hash⦄ ⦃block = block⦄ two_cpus (page_context 9 110 0)
      (page_context 9 150 1) [] 9 9 9 refl refl refl refl refl tt refl refl refl
