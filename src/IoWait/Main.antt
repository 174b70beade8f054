-- ===== src/IoWait/Main.antt =====
-- `main` of crates/tragach-iowait/src/main.rs: the start, and the event loop on the maps as the start
-- leaves them.
use tragach.IoWait.Drain.{MapIter}
use tragach.IoWait.Kallsyms.Load.{load}
use tragach.IoWait.Ledger.Runs.{sleeping_of}
use tragach.IoWait.Session.{Event, Ending, running, loop, ticks, AreReports, Runs, loop-spans}
use tragach.IoWait.Windows.{JsonWindow}
use tragach.IoWait.{Maps, BucketKey, Probe}
use tragach.Kernel.{HashMap}
use tragach.Prelude.{ℕ, ◌≡◌, Bool, false, Option, none, some, List, [], ◌∷◌, Text, ap, sym, ◌∙◌}
use tragach.Startup.Gives.{Gives, Gives-done, Gives-then, Gives-the}
use tragach.Startup.Order.{io_wait_effects}
use tragach.Startup.Tracers.{Args, trace_waits, start_iowait}
use tragach.Startup.Willing.{IsWilling, start_iowait-Completes, given_target}
use tragach.Startup.{Host, Effect, target_set, attached, Failure, Outcome, ok, failed}

-- What the effects of the start do to the maps.
abbrev pub apply : {M N : Type 0 → Type 0} → List Effect → Maps M N → Maps M N
apply [] s = s
apply (target_set pid ∷ log) s = apply log (record s { target_tgid = some pid })
apply (attached name a ∷ log) s = apply log s

-- A start that fails, or the windows that are written and how the loop ends.
pub data Exit : Type 0 where
  refused : Failure → Exit
  served : List JsonWindow × Ending → Exit

module _ {M N : Type 0 → Type 0} ⦃hash : HashMap M ℕ⦄ ⦃bucket : HashMap N BucketKey⦄
    (iter : MapIter N bucket) (stacks : ℕ → Option (List ℕ)) (window_ms top_stacks : ℕ)
    (exclude_idle : Bool) (threshold_ns : ℕ) where
  -- The maps are as the object's loading leaves them.
  abbrev pub serve : Maps M N → List Event → Outcome (ℕ × Text) × List Effect → Exit
  serve s events (failed e, log) = refused e
  serve s events (ok (pid, text), log) = served (
      loop iter (load text) stacks window_ms pid top_stacks exclude_idle threshold_ns (apply log s)
        events)

  unfoldable pub main : Host → Args → Maps M N → List Event → Exit
  main host args s events = serve s events (start_iowait host args [])

trace_waits-Gives :
    (host : Host) (pid : ℕ) (text : Text)
    → host.kallsyms ≡ some text
    → Gives (pid, text) (trace_waits host pid)
unfolding trace_waits
trace_waits-Gives host pid text e = Gives-the _ _ text e (
    Gives-then _ _ (
      Gives-then _ _ (
        Gives-then _ _
          (Gives-then _ _ (Gives-then _ _ (Gives-then _ _ (Gives-done (pid, text))))))))

-- The start of iowait, given its target, gives it back with the kernel symbols.
start_iowait-gives :
    (host : Host) (args : Args) (pid : ℕ) (text : Text)
    → IsWilling host
    → args.pid ≡ some pid
    → host.kallsyms ≡ some text
    → start_iowait host args [] ≡ (ok (pid, text), io_wait_effects pid)
unfolding start_iowait
start_iowait-gives host args pid text w target kernel =
    let (r, e) = start_iowait-Completes host args pid text w target kernel in
    let same =
      (trace_waits-Gives host pid text kernel).same []
        (sym (given_target host pid (trace_waits host) target) ∙ e) in
    e ∙ ap (λ x. (ok x, io_wait_effects pid)) same

module _ {M N : Type 0 → Type 0} ⦃hash : HashMap M ℕ⦄ ⦃bucket : HashMap N BucketKey⦄
    (iter : MapIter N bucket) where
  abbrev pub targeted : ℕ → Maps M N → Maps M N
  targeted pid s = record s { target_tgid = some pid }

  -- On a host that refuses nothing, with the target given and the kernel symbols readable, iowait
  -- starts and its loop writes one window for each tick and goes on, and the window has the target and
  -- the interval and reports, by the reasons under those symbols, the whole milliseconds of the
  -- off-CPU spans of the target's threads that ended since the tick before, or since the start, if no
  -- bucket is there at first and before every tick the maps have room, the buckets can be listed and
  -- the spans take less than 2 ^ 64 ns.
  pub main-spans :
      (stacks : ℕ → Option (List ℕ)) (window_ms top_stacks threshold_ns : ℕ) (host : Host)
      (args : Args) (pid : ℕ) (text : Text) (groups : List (List Probe)) (s : Maps M N)
      → IsWilling host
      → args.pid ≡ some pid
      → host.kallsyms ≡ some text
      → ((k : BucketKey) → bucket.get s.buckets k ≡ none)
      → Runs iter groups (targeted pid s)
      → (windows : List JsonWindow) × (main iter stacks window_ms top_stacks false threshold_ns host
            args s
            (ticks groups)
          ≡ served (windows, running))
        × AreReports (load text) stacks window_ms pid (some pid) (sleeping_of s) groups windows
  unfolding main
  main-spans stacks window_ms top_stacks threshold_ns host args pid text groups s w target kernel
        empty runs =
      let x =
        loop iter (load text) stacks window_ms pid top_stacks false threshold_ns (targeted pid s)
          (ticks groups) in
      let (reports, ending) =
        loop-spans iter (load text) stacks window_ms pid top_stacks threshold_ns groups
          (targeted pid s) empty runs in
      (
        x.0,
        ap (serve iter stacks window_ms top_stacks false threshold_ns s (ticks groups))
              (start_iowait-gives host args pid text w target kernel)
            ∙ ap (λ e. served (x.0, e)) ending,
        reports,
      )
