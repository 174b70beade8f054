-- ===== src/Tests/Loops.antt =====
-- `main` and the event loops of crates/tragach-slowquery/src/main.rs and crates/tragach-attach/src/main.rs on the
-- records of short runs: the ring wakes them up twice, for nothing and for everything.
use mathlib.Core.List.{foldl}
use tragach.Attach
use tragach.Attach.Session as AttachSession
use tragach.Attach.Main as AttachMain
use tragach.Attach.Main.{main-lines}
use tragach.Attach.Userspace.{lines}
use tragach.Attach.{attach_ctor_entry, release_attachment_entry}
use tragach.Event.Layout.{attach_bytes, slow_query_bytes}
use tragach.Prelude.{ℕ, ◌≡◌, refl, ap, true, some, List, [], ◌∷◌, ◌++◌, map, All, Text, arith}
use tragach.RingLoop.{Item, ready, ctrl_c, shut_down, wake_ups, concat}
use tragach.SlowQuery.Probes.{traced}
use tragach.SlowQuery.Session.{
  jsons, Session, plain, is_empty, with_json, started_session, run_event_loop,
  run_event_loop-traced,
}
use tragach.SlowQuery.Dropped.{run_event_loop-dropped, long_ones, shorts}
use tragach.SlowQuery.Main as SlowQueryMain
use tragach.SlowQuery.Main.{main-traced}
use tragach.SlowQuery.Userspace
use tragach.Startup.Order.{dsql_probes, attach_probes}
use tragach.Startup.Tracers.{engine}
use tragach.Symbols.Targets.{
  AttachOffsets, dsql_target, attach_target, dsql_offsets, attach_offsets, resolve_dsql,
  resolve_attach,
}
use tragach.Symbols.{scan, target, check_unique}
use tragach.Tests.Files
use tragach.Tests.Starts.{host, args, host-IsWilling}
use tragach.Tests.Lines.{floats}
use tragach.Tests.Others
use tragach.Tests.Others.{nothing_live}
use tragach.Tests.Slow.{hash, lru, ring, calls, calls-IsContext, context_of-IsContext}
use tragach.Tests.{context_of}

abbrev items : List (List ℕ) → List Item
items [] = []
items (b ∷ records) = record { bytes = b; now = []; writable = true } ∷ items records

abbrev batches : List (List ℕ) → List (List Item)
batches records = [] ∷ items records ∷ []

items-bytes : (records : List (List ℕ)) → map (λ i. i.bytes) (items records ++ []) ≡ records
items-bytes [] = refl
items-bytes (b ∷ records) = ap (◌∷◌ b) (items-bytes records)

items-writable : (records : List (List ℕ)) → All (λ i. i.writable ≡ true) (items records ++ [])
items-writable [] = tt
items-writable (b ∷ records) = (refl, items-writable records)

abbrev text_of : Text → Text
text_of bytes = bytes

run_event_loop-traced_example :
    let records = map slow_query_bytes (traced hash lru ring calls) in
    let (s, ending) =
      run_event_loop floats text_of
        (with_json (some 50))
        true
        (wake_ups (batches records) ++ ctrl_c ∷ ready (some []) ∷ []) in
    (plain s
      ≡ foldl
          (λ u e. Userspace.on_event text_of is_empty (some 50) (some e) u)
          (plain started_session)
          (traced hash lru ring calls))
    × (s.dropped ≡ 0)
    × (ending ≡ shut_down)
run_event_loop-traced_example =
    run_event_loop-traced floats text_of (some 50) hash lru ring calls
      (batches (map slow_query_bytes (traced hash lru ring calls))) (ready (some []) ∷ [])
      calls-IsContext (items-bytes (map slow_query_bytes (traced hash lru ring calls)))
      (items-writable (map slow_query_bytes (traced hash lru ring calls)))

abbrev two_offsets : AttachOffsets
two_offsets = record { attachment_ctor = 60; release_attachment = 70 }

-- An attachment that lives for 90 ns.
abbrev opened_and_closed : List Attach.Probe
opened_and_closed =
    attach_ctor_entry (context_of 3 0 100) ∷ release_attachment_entry (context_of 3 0 190) ∷ []

main-lines_example :
    let events =
      (Attach.run ⦃lru = Others.lru⦄ ⦃ring = Others.ring⦄ opened_and_closed nothing_live).events in
    (s : AttachSession.Session) × (AttachMain.main floats host args
        (AttachSession.with_json (some 50))
        true
        (wake_ups (batches (map attach_bytes events)) ++ ctrl_c ∷ [])
      ≡ AttachMain.served (attach_probes two_offsets (engine args)) (s, shut_down))
    × (AttachSession.jsons s.written ≡ lines 50 events)
unfolding resolve_attach attach_offsets scan target check_unique attach_target
main-lines_example =
    let events =
      (Attach.run ⦃lru = Others.lru⦄ ⦃ring = Others.ring⦄ opened_and_closed nothing_live).events in
    main-lines floats host args Files.engine two_offsets 50 ⦃lru = Others.lru⦄ ⦃ring = Others.ring⦄
      opened_and_closed nothing_live (batches (map attach_bytes events)) [] host-IsWilling refl refl
      (
        context_of-IsContext 3 0 100 (omega arith) (omega arith) (omega arith),
        (context_of-IsContext 3 0 190 (omega arith) (omega arith) (omega arith), tt),
      )
      refl (items-bytes (map attach_bytes events)) (items-writable (map attach_bytes events))

main-traced_example :
    let records = map slow_query_bytes (traced hash lru ring calls) in
    (s : Session) × (SlowQueryMain.main floats text_of host args
        (with_json (some 50))
        true
        (wake_ups (batches records) ++ ctrl_c ∷ ready (some []) ∷ [])
      ≡ SlowQueryMain.served (dsql_probes Files.engine_offsets (engine args)) (s, shut_down))
    × (plain s
        ≡ foldl
            (λ u e. Userspace.on_event text_of is_empty (some 50) (some e) u)
            (plain started_session)
            (traced hash lru ring calls))
    × (s.dropped ≡ 0)
unfolding resolve_dsql dsql_offsets scan target check_unique dsql_target
main-traced_example =
    main-traced floats text_of host args Files.engine Files.engine_offsets (some 50) hash lru ring
      calls (batches (map slow_query_bytes (traced hash lru ring calls))) (ready (some []) ∷ [])
      host-IsWilling refl refl calls-IsContext
      (items-bytes (map slow_query_bytes (traced hash lru ring calls)))
      (items-writable (map slow_query_bytes (traced hash lru ring calls)))

-- A record of one byte comes before those of the run.
abbrev with_short : List (List Item)
with_short =
    (record { bytes = 7 ∷ []; now = []; writable = true } ∷ [])
    ∷ batches (map slow_query_bytes (traced hash lru ring calls))

run_event_loop-dropped_example :
    let (s, ending) =
      run_event_loop floats text_of
        (with_json (some 50))
        true
        (wake_ups with_short ++ ctrl_c ∷ []) in
    let (s', ending') =
      run_event_loop floats text_of
        (with_json (some 50))
        true
        (wake_ups (long_ones (concat with_short) ∷ []) ++ ctrl_c ∷ []) in
    (s.ids ≡ s'.ids)
    × (jsons s.written ≡ jsons s'.written)
    × (s.dropped ≡ shorts (concat with_short))
    × (s'.dropped ≡ 0)
    × (ending ≡ shut_down)
run_event_loop-dropped_example =
    run_event_loop-dropped floats text_of (some 50) with_short []
      (refl, items-writable (map slow_query_bytes (traced hash lru ring calls)))
