-- ===== src/PageIo/Main.antt =====
-- `main` of crates/tragach-pageio/src/main.rs: the start, and the event loop on the maps as the start
-- leaves them.
use tragach.Kernel.{HashMap}
use tragach.PageIo.Ledger.{cpu}
use tragach.PageIo.Session.{Event, Ending, running, loop, ticks, AreWindows, loop-windows}
use tragach.PageIo.Userspace.{default, snapshot_counters}
use tragach.PageIo.{Maps, BlockKey, Probe, PageIoCounters, run}
use tragach.Prelude.{ℕ, ◌≡◌, ◌<◌, some, List, [], ◌∷◌, All, refl, ap, sym, ◌∙◌, replicate}
use tragach.Startup.Gives.{Gives, Gives-done, Gives-then, Gives-the}
use tragach.Startup.Order.{page_io_effects}
use tragach.Startup.Tracers.{Args, engine, debug, resolved, trace_pages, start_pageio}
use tragach.Startup.Willing.{IsWilling, start_pageio-Completes, given_target}
use tragach.Startup.{Host, Effect, target_set, attached, Failure, Outcome, ok, failed}
use tragach.Symbols.Targets.{resolve_page_io}
use tragach.Symbols.{Symbol}

-- What the effects of the start do to the maps.
abbrev pub apply : {M N : Type 0 → Type 0} → List Effect → Maps M N → Maps M N
apply [] s = s
apply (target_set pid ∷ log) s = apply log (record s { target_tgid = some pid })
apply (attached name a ∷ log) s = apply log s

-- A start that fails, or the process that the windows are about, the windows that are written, and
-- how the loop ends.
pub data Exit : Type 0 where
  refused : Failure → Exit
  served : (pid : ℕ) → List PageIoCounters × Ending → Exit

module _ {M N : Type 0 → Type 0} where
  -- What the loop sees depends on the maps as the start leaves them.
  abbrev pub serve : Maps M N → (Maps M N → List Event) → Outcome ℕ × List Effect → Exit
  serve s events (failed e, log) = refused e
  serve s events (ok pid, log) = served pid (loop default (events (apply log s)))

  unfoldable pub main : Host → Args → Maps M N → (Maps M N → List Event) → Exit
  main host args s events = serve s events (start_pageio host args [])

trace_pages-Gives :
    (host : Host) (args : Args) (pid offset : ℕ)
    → resolved resolve_page_io (host.symbols (debug args)) ≡ some offset
    → Gives pid (trace_pages host args pid)
unfolding trace_pages
trace_pages-Gives host args pid offset e = Gives-then _ _ (
    Gives-the _ _ offset e (
      Gives-then _ _ (
        Gives-then _ _ (
          Gives-then _ _ (
            Gives-then _ _ (
              Gives-then _ _
                (Gives-then _ _ (Gives-then _ _ (Gives-then _ _ (Gives-done pid))))))))))

start_pageio-gives :
    (host : Host) (args : Args) (syms : List Symbol) (offset pid : ℕ)
    → IsWilling host
    → host.symbols (debug args) ≡ some syms
    → resolve_page_io syms ≡ some offset
    → args.pid ≡ some pid
    → start_pageio host args [] ≡ (ok pid, page_io_effects pid offset (engine args))
unfolding start_pageio
start_pageio-gives host args syms offset pid w file page target =
    let (p, e) = start_pageio-Completes host args syms offset pid w file page target in
    let same =
      (trace_pages-Gives host args pid offset (ap (resolved resolve_page_io) file ∙ page)).same []
        (sym (given_target host pid (trace_pages host args) target) ∙ e) in
    e ∙ ap (λ x. (ok x, page_io_effects pid offset (engine args))) same

module _ {M N : Type 0 → Type 0} ⦃hash : HashMap M ℕ⦄ ⦃block : HashMap N BlockKey⦄ where
  abbrev pub targeted : ℕ → Maps M N → Maps M N
  targeted pid s = record s { target_tgid = some pid }

  ticks-running :
      (groups : List (List Probe)) (prev : PageIoCounters) (s : Maps M N)
      → (loop prev (ticks s groups)).1 ≡ running
  unfolding loop
  ticks-running [] prev s = refl
  ticks-running (ps ∷ groups) prev s =
      ticks-running groups (snapshot_counters (run ps s).counters) (run ps s)

  -- On a host that refuses nothing, with the target given and CCH_fetch_page resolved, pageio starts
  -- and its loop writes one window for each tick, about the target, and goes on, and the window has
  -- the counts and totals of the probes since the tick before, or since the start, if the counters
  -- are zero at first and each probe fires on a CPU that has a slot.
  pub main-windows :
      (host : Host) (args : Args) (syms : List Symbol) (offset pid cpus : ℕ)
      (groups : List (List Probe)) (s : Maps M N)
      → IsWilling host
      → host.symbols (debug args) ≡ some syms
      → resolve_page_io syms ≡ some offset
      → args.pid ≡ some pid
      → s.counters ≡ replicate cpus default
      → All (λ ps. All (λ p. cpu p < cpus) ps) groups
      → (windows : List PageIoCounters) × (main host args s (λ s'. ticks s' groups)
          ≡ served pid (windows, running))
        × AreWindows (targeted pid s) groups windows
  unfolding main
  main-windows host args syms offset pid cpus groups s w file page target zeroed slots =
      let x = loop default (ticks (targeted pid s) groups) in
      (
        x.0,
        ap (serve s (λ s'. ticks s' groups))
              (start_pageio-gives host args syms offset pid w file page target)
            ∙ ap (λ e. served pid (x.0, e)) (ticks-running groups default (targeted pid s)),
        loop-windows groups (targeted pid s) cpus zeroed slots,
      )
