-- ===== src/Attach/Main.antt =====
-- `main` of crates/tragach-attach/src/main.rs: the start and the event loop.
use tragach.Attach.Session.{Session, Args, jsons, with_json, run_event_loop, run_event_loop-lines}
use tragach.Attach.Userspace.{lines}
use tragach.Attach.WellFormed.{context}
use tragach.Attach.{Maps, Probe, run}
use tragach.Event.Layout.{attach_bytes}
use tragach.Human.{Floats}
use tragach.Kernel.{LruHashMap, RingBuf, IsContext}
use tragach.Prelude.{◌%◌, ◌^◌, ℕ, ◌≡◌, ap, ◌∙◌, true, Bool, some, List, [], ◌∷◌, ◌++◌, map, All}
use tragach.RingLoop.{Item, Event, ctrl_c, Ending, shut_down, wake_ups, concat}
use tragach.Startup.Order.{attach_probes}
use tragach.Startup.Tracers.{engine, debug, start_attach}
use tragach.Startup.Tracers as Tracers
use tragach.Startup.Willing.{IsWilling, start_attach-Completes}
use tragach.Startup.{Host, Effect, Failure, Outcome, ok, failed}
use tragach.Symbols.Targets.{AttachOffsets, resolve_attach}
use tragach.Symbols.{Symbol}

-- A start that fails; or what the start has done, what is written, and how the loop ends.
pub data Exit : Type 0 where
  refused : Failure → Exit
  served : List Effect → Session × Ending → Exit

module _ (floats : Floats) where
  abbrev pub serve :
      Args → (registered : Bool) → List Event → Outcome (Unit {0}) × List Effect → Exit
  serve args registered events (failed e, log) = refused e
  serve args registered events (ok u, log) =
      served log (run_event_loop floats args registered events)

  unfoldable pub main : Host → Tracers.Args → Args → (registered : Bool) → List Event → Exit
  main host paths args registered events = serve args registered events (start_attach host paths [])

  -- On a host that refuses nothing, with the functions resolved to the offsets `a`, attach starts with
  -- its two probes at these offsets. If tokio takes the ring, the contexts have the machine's word
  -- sizes and the ring is empty at first, however the records of a run of the BPF program are spread
  -- over wake-ups, and as long as lines can be written, with --json and --min-duration it writes a
  -- line for each Opened event of the run and for each Closed one that lived at least as many
  -- nanoseconds, cut to 64 bits, in order, and ends at Ctrl-C.
  pub main-lines :
      (host : Host) (paths : Tracers.Args) (syms : List Symbol) (a : AttachOffsets) (t : ℕ)
      {L R : Type 0 → Type 0} ⦃lru : LruHashMap L ℕ⦄ ⦃ring : RingBuf R⦄ (ps : List Probe)
      (maps : Maps L R) (batches : List (List Item)) (later : List Event)
      → IsWilling host
      → host.symbols (debug paths) ≡ some syms
      → resolve_attach syms ≡ some a
      → All (λ p. IsContext (context p)) ps
      → ring.records maps.events ≡ []
      → map (λ i. i.bytes) (concat batches) ≡ map attach_bytes (ring.records (run ps maps).events)
      → All (λ i. i.writable ≡ true) (concat batches)
      → (s : Session) × (main host paths
            (with_json (some t))
            true
            (wake_ups batches ++ ctrl_c ∷ later)
          ≡ served (attach_probes a (engine paths)) (s, shut_down))
        × (jsons s.written ≡ lines (t % 2 ^ 64) (ring.records (run ps maps).events))
  unfolding main
  main-lines host paths syms a t ps maps batches later w file att fits none_yet e writable =
      let events = wake_ups batches ++ ctrl_c ∷ later in
      let x = run_event_loop floats (with_json (some t)) true events in
      let (u, started) = start_attach-Completes host paths syms a w file att in
      let (written, ends) =
        run_event_loop-lines floats t ps maps batches later fits none_yet e writable in
      (
        x.0,
        ap (serve (with_json (some t)) true events) started
            ∙ ap (λ y. served (attach_probes a (engine paths)) (x.0, y)) ends,
        written,
      )
