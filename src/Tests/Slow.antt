-- ===== src/Tests/Slow.antt =====
-- Runs of slowquery, crates/tragach-slowquery/src: one thread executes a statement of 3 bytes.
use native.Mathlib.Decide.{ℕ_discrete}
use tragach.Kernel.{HashMap, LruHashMap, RingBuf, IsContext}
use tragach.Kernel.Bounded.{Assoc, get, insert, remove, bounded_hash, bounded_lru, bounded_ring}
use tragach.Prelude.{
  ℕ, ◌^◌, ◌≡◌, ◌<◌, refl, All, length, none, List, [], ◌∷◌, arith, subst, some_injective, suc, ap,
}
use tragach.SlowQuery.{Maps, OpenCursor}
use tragach.SlowQuery.Probes.{
  Probe, dsql_prepare_entry, dsql_prepare_exit, dsql_execute_entry, dsql_execute_exit,
  dsql_fetch_next_exit, context, traced, fire, run, captured, zeroed,
}
use tragach.SlowQuery.WellFormed.{traced-IsEvent, IsEvent}
use tragach.SlowQuery.Provenance.{traced-Explained, Explained}
use tragach.SlowQuery.Executions.{appended, execute-span}
use tragach.SlowQuery.Expected.{expected}
use tragach.SlowQuery.Cursors.{fetch_next_exit-cursor}
use tragach.SlowQuery.Text.{ReadsText, shown, captured-text, captured-strlen}
use tragach.Tests.{context_of, overlay}

abbrev pub hash : HashMap (Assoc ℕ_discrete) ℕ
hash = bounded_hash ℕ_discrete 4

abbrev pub lru : LruHashMap (Assoc ℕ_discrete) ℕ
lru = bounded_lru ℕ_discrete 4

abbrev pub ring : RingBuf List
ring = bounded_ring 4

abbrev State : Type 0
State = Maps (Assoc ℕ_discrete) (Assoc ℕ_discrete) List

abbrev at_load : State
at_load = record {
  prepare_in_progress = [];
  execute_in_progress = [];
  immediate_in_progress = [];
  opencursor_in_progress = [];
  fetch_in_progress = [];
  prepared_statements = [];
  open_cursors = [];
  events = [];
}

abbrev pub calls : List Probe
calls =
    dsql_prepare_entry (context_of 3 0 100)
    ∷ dsql_prepare_exit (context_of 3 9 150)
    ∷ dsql_execute_entry (context_of 9 0 200)
    ∷ dsql_execute_exit (context_of 9 0 260)
    ∷ []

length-overlay : (t d : List ℕ) → length (overlay t d) ≡ length d
length-overlay [] d = refl
length-overlay (b ∷ t) [] = refl
length-overlay (b ∷ t) (x ∷ d) = ap suc (length-overlay t d)

pub context_of-IsContext :
    (a r t : ℕ) → a < 2 ^ 64 → r < 2 ^ 64 → t < 2 ^ 64 → IsContext (context_of a r t)
context_of-IsContext a r t ha hr ht = record {
  arg = λ i v e. subst (λ x. x < 2 ^ 64) (some_injective e) ha;
  ret = λ v e. subst (λ x. x < 2 ^ 64) (some_injective e) hr;
  ktime_ns = ht;
  pid_tgid = omega arith;
  buffer = λ p d. length-overlay (83 ∷ 69 ∷ 76 ∷ []) d;
}

pub calls-IsContext : All (λ p. IsContext (context p)) calls
calls-IsContext = (
  context_of-IsContext 3 0 100 (omega arith) (omega arith) (omega arith),
  (
    context_of-IsContext 3 9 150 (omega arith) (omega arith) (omega arith),
    (
      context_of-IsContext 9 0 200 (omega arith) (omega arith) (omega arith),
      (context_of-IsContext 9 0 260 (omega arith) (omega arith) (omega arith), tt),
    ),
  ),
)

traced-IsEvent_example : All IsEvent (traced hash lru ring calls)
traced-IsEvent_example = traced-IsEvent hash lru ring calls calls-IsContext

traced-Explained_example : All (Explained calls) (traced hash lru ring calls)
traced-Explained_example = traced-Explained hash lru ring calls

execute-span_example :
    let s' = run ⦃hash = hash⦄ ⦃lru = lru⦄ ⦃ring = ring⦄ [] (
      fire ⦃hash = hash⦄ ⦃lru = lru⦄ ⦃ring = ring⦄
        (dsql_execute_entry (context_of 9 0 200))
        at_load) in
    let s'' =
      fire ⦃hash = hash⦄ ⦃lru = lru⦄ ⦃ring = ring⦄ (dsql_execute_exit (context_of 9 0 260)) s' in
    (ring.records s''.events
      ≡ appended ⦃hash = hash⦄ ⦃lru = lru⦄ ⦃ring = ring⦄ s'
          (expected (context_of 9 0 260) 60 (lru.get s'.prepared_statements 9)))
    × (hash.get s''.execute_in_progress 5 ≡ none)
unfolding bounded_hash insert remove
execute-span_example =
    execute-span ⦃hash = hash⦄ ⦃lru = lru⦄ ⦃ring = ring⦄ at_load (context_of 9 0 200)
      (context_of 9 0 260) [] 9 refl (omega arith) refl tt refl

-- The state while thread 5 is in `openCursor` for request 9, and while it fetches from cursor 40.
abbrev opening : OpenCursor
opening = record { open_ts_ns = 300; dsql_request_ptr = 9 }

abbrev at_fetch : State
at_fetch = record at_load { fetch_in_progress = (5, 40) ∷ []; open_cursors = (40, opening) ∷ [] }

fetch_next_exit-cursor_example :
    let s' =
      fire ⦃hash = hash⦄ ⦃lru = lru⦄ ⦃ring = ring⦄
        (dsql_fetch_next_exit (context_of 0 1 400))
        at_fetch in
    (ring.records s'.events
      ≡ appended ⦃hash = hash⦄ ⦃lru = lru⦄ ⦃ring = ring⦄ at_fetch
          (expected (context_of 0 1 400) 100 (lru.get at_fetch.prepared_statements 9)))
    × (lru.get s'.open_cursors 40 ≡ none)
    × (hash.get s'.fetch_in_progress 5 ≡ none)
unfolding bounded_hash bounded_lru get ℕ_discrete
fetch_next_exit-cursor_example =
    fetch_next_exit-cursor ⦃hash = hash⦄ ⦃lru = lru⦄ ⦃ring = ring⦄ (context_of 0 1 400) 40 opening
      at_fetch refl refl

select-ReadsText : ReadsText (context_of 3 0 100) 77 (83 ∷ 69 ∷ 76 ∷ [])
unfolding zeroed
select-ReadsText = record {
  copied = refl;
  buffer = refl;
  no_nul = (omega arith, (omega arith, (omega arith, tt)));
}

captured-text_example :
    (shown (context_of 3 0 100) 3 3 77 ≡ 83 ∷ 69 ∷ 76 ∷ [])
    × ((captured (context_of 3 0 100) 3 3 77).sql_len ≡ 3)
    × ((captured (context_of 3 0 100) 3 3 77).sql_truncated ≡ 0)
captured-text_example =
    captured-text (context_of 3 0 100) 3 77 (83 ∷ 69 ∷ 76 ∷ []) select-ReadsText (omega arith)
      (λ e. ground arith) (omega arith)

captured-strlen_example :
    (shown (context_of 3 0 100) 3 0 77 ≡ 83 ∷ 69 ∷ 76 ∷ [])
    × ((captured (context_of 3 0 100) 3 0 77).sql_len ≡ 3)
    × ((captured (context_of 3 0 100) 3 0 77).sql_truncated ≡ 0)
captured-strlen_example =
    captured-strlen (context_of 3 0 100) 3 77 (83 ∷ 69 ∷ 76 ∷ []) select-ReadsText (omega arith)
