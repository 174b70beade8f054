-- ===== src/Startup/Order.antt =====
-- What the starts of the tracers leave attached, and that they do start.
use Prim.Native.String.{String}
use tragach.Prelude.{ℕ, Text, none, some, List, [], ◌∷◌, ◌≡◌}
use tragach.Startup.Attaching.{
  Attaches, attaching, ensure_paths-Attaches, raise_rlimit_memlock-Attaches, set_target-Attaches,
  attach_program-Attaches, take_map-Attaches, quiet-then, pair-then, Attaches-then, ignore-Attaches,
  require-Attaches, done-Attaches, effect-then,
}
use tragach.Startup.Outcomes.{Fails, Fails-then, none-Fails, some-Attaches}
use tragach.Startup.Tracers.{
  Args, engine, debug, resolved, attach_uprobe, attach_pair, attach_dsql, start_slowquery,
  start_attach, trace_pages, trace_waits, take_bucket_maps,
}
use tragach.Startup.{Host, Effect, attached, target_set, uprobe, tracepoint, object_invalid}
use tragach.Symbols.Targets.{
  DsqlOffsets, AttachOffsets, resolve_dsql, resolve_attach, resolve_page_io,
}

abbrev pub at_offset : String → ℕ → Text → Effect
at_offset name offset lib = attached name (uprobe offset lib)

-- The ten probes of slowquery, in the order in which they are attached.
abbrev pub dsql_probes : DsqlOffsets → Text → List Effect
dsql_probes o lib =
    at_offset "dsql_prepare_entry" o.prepare lib
    ∷ at_offset "dsql_prepare_exit" o.prepare lib
    ∷ at_offset "dsql_execute_entry" o.execute lib
    ∷ at_offset "dsql_execute_exit" o.execute lib
    ∷ at_offset "dsql_execute_immediate_entry" o.execute_immediate lib
    ∷ at_offset "dsql_execute_immediate_exit" o.execute_immediate lib
    ∷ at_offset "dsql_open_cursor_entry" o.open_cursor lib
    ∷ at_offset "dsql_open_cursor_exit" o.open_cursor lib
    ∷ at_offset "dsql_fetch_next_entry" o.fetch_next lib
    ∷ at_offset "dsql_fetch_next_exit" o.fetch_next lib
    ∷ []

abbrev pub attach_probes : AttachOffsets → Text → List Effect
attach_probes o lib =
    at_offset "attach_ctor_entry" o.attachment_ctor lib
    ∷ at_offset "release_attachment_entry" o.release_attachment lib
    ∷ []

-- The filter's target, before the probes that it filters.
abbrev pub page_io_effects : (pid fetch_page : ℕ) → Text → List Effect
page_io_effects pid fetch_page lib =
    target_set pid
    ∷ at_offset "cch_fetch_page_entry" fetch_page lib
    ∷ at_offset "cch_fetch_page_exit" fetch_page lib
    ∷ attached "block_rq_issue" (tracepoint "block" "block_rq_issue")
    ∷ attached "block_rq_complete" (tracepoint "block" "block_rq_complete")
    ∷ []

abbrev pub io_wait_effects : ℕ → List Effect
io_wait_effects pid =
    target_set pid
    ∷ attached "sched_switch" (tracepoint "sched" "sched_switch")
    ∷ attached "sched_wakeup" (tracepoint "sched" "sched_wakeup")
    ∷ []

module _ (host : Host) where
  attach_pair-Attaches :
      (entry exit : String) (offset : ℕ) (lib : Text)
      → Attaches
          (at_offset entry offset lib ∷ at_offset exit offset lib ∷ [])
          (attach_pair host entry exit offset lib)
  unfolding attach_pair
  attach_pair-Attaches entry exit offset lib = search (attaching, attach_program-Attaches)

  attach_uprobe-Attaches :
      (name : String) (offset : ℕ) (lib : Text)
      → Attaches (at_offset name offset lib ∷ []) (attach_uprobe host name offset lib)
  unfolding attach_uprobe
  attach_uprobe-Attaches name offset lib = attach_program-Attaches host name (uprobe offset lib)

  attach_dsql-Attaches :
      (o : DsqlOffsets) (lib : Text) → Attaches (dsql_probes o lib) (attach_dsql host o lib)
  unfolding attach_dsql
  attach_dsql-Attaches o lib = search (pair-then, attach_pair-Attaches)

  pub start_slowquery-Attaches :
      (args : Args) (o : DsqlOffsets)
      → resolved resolve_dsql (host.symbols (debug args)) ≡ some o
      → Attaches (dsql_probes o (engine args)) (start_slowquery host args)
  unfolding start_slowquery
  start_slowquery-Attaches args o e =
      quiet-then (ensure_paths-Attaches host (engine args) (debug args)) (
        some-Attaches _ _ e (
          quiet-then (ignore-Attaches (raise_rlimit_memlock-Attaches host)) (
            quiet-then (require-Attaches host.load_object object_invalid) (
              Attaches-then (attach_dsql-Attaches o (engine args))
                (take_map-Attaches host "EVENTS")))))

  pub start_slowquery-Fails :
      (args : Args)
      → resolved resolve_dsql (host.symbols (debug args)) ≡ none
      → Fails (start_slowquery host args)
  unfolding start_slowquery
  start_slowquery-Fails args e =
      Fails-then (ensure_paths-Attaches host (engine args) (debug args)) (none-Fails _ _ e)

  pub start_attach-Attaches :
      (args : Args) (o : AttachOffsets)
      → resolved resolve_attach (host.symbols (debug args)) ≡ some o
      → Attaches (attach_probes o (engine args)) (start_attach host args)
  unfolding start_attach
  start_attach-Attaches args o e =
      quiet-then (ensure_paths-Attaches host (engine args) (debug args)) (
        some-Attaches _ _ e (
          quiet-then (ignore-Attaches (raise_rlimit_memlock-Attaches host)) (
            quiet-then (require-Attaches host.load_object object_invalid) (
              effect-then (attach_uprobe-Attaches _ _ _)
                (effect-then (attach_uprobe-Attaches _ _ _) (take_map-Attaches host "EVENTS"))))))

  pub start_attach-Fails :
      (args : Args)
      → resolved resolve_attach (host.symbols (debug args)) ≡ none
      → Fails (start_attach host args)
  unfolding start_attach
  start_attach-Fails args e =
      Fails-then (ensure_paths-Attaches host (engine args) (debug args)) (none-Fails _ _ e)

  pub trace_pages-Attaches :
      (args : Args) (pid offset : ℕ)
      → resolved resolve_page_io (host.symbols (debug args)) ≡ some offset
      → Attaches (page_io_effects pid offset (engine args)) (trace_pages host args pid)
  unfolding trace_pages
  trace_pages-Attaches args pid offset e =
      quiet-then (ensure_paths-Attaches host (engine args) (debug args)) (
        some-Attaches _ _ e (
          quiet-then (ignore-Attaches (raise_rlimit_memlock-Attaches host)) (
            quiet-then (require-Attaches host.load_object object_invalid) (
              effect-then (set_target-Attaches host pid) (
                effect-then (attach_uprobe-Attaches _ _ _) (
                  effect-then (attach_uprobe-Attaches _ _ _) (
                    effect-then (attach_program-Attaches host _ _) (
                      effect-then (attach_program-Attaches host _ _)
                        (quiet-then (take_map-Attaches host "COUNTERS") (done-Attaches pid))))))))))

  pub trace_pages-Fails :
      (args : Args) (pid : ℕ)
      → resolved resolve_page_io (host.symbols (debug args)) ≡ none
      → Fails (trace_pages host args pid)
  unfolding trace_pages
  trace_pages-Fails args pid e =
      Fails-then (ensure_paths-Attaches host (engine args) (debug args)) (none-Fails _ _ e)

  take_bucket_maps-Attaches : Attaches [] (take_bucket_maps host)
  unfolding take_bucket_maps
  take_bucket_maps-Attaches = search attaching depth 12

  pub trace_waits-Attaches :
      (pid : ℕ) (text : Text)
      → host.kallsyms ≡ some text
      → Attaches (io_wait_effects pid) (trace_waits host pid)
  unfolding trace_waits
  trace_waits-Attaches pid text e = some-Attaches _ _ e (
      quiet-then (ignore-Attaches (raise_rlimit_memlock-Attaches host)) (
        quiet-then (require-Attaches host.load_object object_invalid) (
          effect-then (set_target-Attaches host pid) (
            effect-then (attach_program-Attaches host _ _) (
              effect-then (attach_program-Attaches host _ _)
                (quiet-then take_bucket_maps-Attaches (done-Attaches (pid, text))))))))

  pub trace_waits-Fails : (pid : ℕ) → host.kallsyms ≡ none → Fails (trace_waits host pid)
  unfolding trace_waits
  trace_waits-Fails pid e = none-Fails _ _ e
