-- ===== src/SlowQuery/Main.antt =====
-- `main` of crates/tragach-slowquery/src/main.rs: the start and the event loop.
use mathlib.Core.List.{foldl}
use tragach.Event.Layout.{slow_query_bytes}
use tragach.Human.{Floats}
use tragach.Kernel.{HashMap, LruHashMap, RingBuf, IsContext}
use tragach.Prelude.{ℕ, ◌≡◌, ap, ◌∙◌, true, Bool, Option, some, List, [], ◌∷◌, ◌++◌, map, All, Text}
use tragach.RingLoop.{Item, Event, ctrl_c, Ending, shut_down, wake_ups, concat}
use tragach.SlowQuery.Probes.{Probe, context, traced}
use tragach.SlowQuery.Session.{
  Session, Args, as_nanos, is_empty, plain, started_session, with_json, run_event_loop,
  run_event_loop-traced,
}
use tragach.SlowQuery.Userspace
use tragach.Startup.Order.{dsql_probes}
use tragach.Startup.Tracers.{engine, debug, start_slowquery}
use tragach.Startup.Tracers as Tracers
use tragach.Startup.Willing.{IsWilling, start_slowquery-Completes}
use tragach.Startup.{Host, Effect, Failure, Outcome, ok, failed}
use tragach.Symbols.Targets.{DsqlOffsets, resolve_dsql}
use tragach.Symbols.{Symbol}

-- A start that fails; or what the start has done, what is written, and how the loop ends.
pub data Exit : Type 0 where
  refused : Failure → Exit
  served : List Effect → Session × Ending → Exit

module _ (floats : Floats) (from_utf8_lossy : Text → Text) where
  abbrev pub serve :
      Args → (registered : Bool) → List Event → Outcome (Unit {0}) × List Effect → Exit
  serve args registered events (failed e, log) = refused e
  serve args registered events (ok u, log) =
      served log (run_event_loop floats from_utf8_lossy args registered events)

  unfoldable pub main : Host → Tracers.Args → Args → (registered : Bool) → List Event → Exit
  main host paths args registered events =
      serve args registered events (start_slowquery host paths [])

  -- On a host that refuses nothing, with the functions resolved to the offsets `o`, slowquery starts
  -- with its ten probes at these offsets. If tokio takes the ring and the contexts have the machine's
  -- word sizes, however the records of a run of the BPF program are spread over wake-ups, and as long
  -- as lines can be written, with --json it handles the events of the run in order, with the
  -- threshold's nanoseconds cut to 64 bits, drops none, and ends at Ctrl-C.
  pub main-traced :
      (host : Host) (paths : Tracers.Args) (syms : List Symbol) (o : DsqlOffsets) (t : Option ℕ)
      {M L R : Type 0 → Type 0} (hash : HashMap M ℕ) (lru : LruHashMap L ℕ) (ring : RingBuf R)
      (ps : List Probe) (batches : List (List Item)) (later : List Event)
      → IsWilling host
      → host.symbols (debug paths) ≡ some syms
      → resolve_dsql syms ≡ some o
      → All (λ p. IsContext (context p)) ps
      → map (λ i. i.bytes) (concat batches) ≡ map slow_query_bytes (traced hash lru ring ps)
      → All (λ i. i.writable ≡ true) (concat batches)
      → (s : Session) × (main host paths (with_json t) true (wake_ups batches ++ ctrl_c ∷ later)
          ≡ served (dsql_probes o (engine paths)) (s, shut_down))
        × (plain s
            ≡ foldl
                (λ u e. Userspace.on_event from_utf8_lossy is_empty (as_nanos t) (some e) u)
                (plain started_session)
                (traced hash lru ring ps))
        × (s.dropped ≡ 0)
  unfolding main
  main-traced host paths syms o t hash lru ring ps batches later w file dsql fits e writable =
      let events = wake_ups batches ++ ctrl_c ∷ later in
      let x = run_event_loop floats from_utf8_lossy (with_json t) true events in
      let (u, started) = start_slowquery-Completes host paths syms o w file dsql in
      let (handled, none_dropped, ends) =
        run_event_loop-traced floats from_utf8_lossy t hash lru ring ps batches later fits e
          writable in
      (
        x.0,
        ap (serve (with_json t) true events) started
            ∙ ap (λ y. served (dsql_probes o (engine paths)) (x.0, y)) ends,
        handled,
        none_dropped,
      )
