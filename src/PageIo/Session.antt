-- ===== src/PageIo/Session.antt =====
-- The event loop of crates/tragach-pageio/src/main.rs: a window for each tick, until Ctrl-C or an
-- error.
use tragach.Kernel.{HashMap}
use tragach.PageIo.Ledger.{cpu, ledger, ledger-IsWindow, fire-Outcome}
use tragach.PageIo.Userspace.{default, sum_slots, snapshot_counters, delta_counters, add_slot}
use tragach.PageIo.Windows.{IsWindow}
use tragach.PageIo.{Maps, Probe, PageIoCounters, BlockKey, fire, run}
use tragach.Prelude.{
  ℕ, zero, suc, ◌<◌, ◌≡◌, Bool, true, Option, none, some, List, [], ◌∷◌, All, length, replicate,
  length-replicate, if◌then◌else◌, refl, ap, sym, ◌∙◌, subst,
}

-- What `select!` takes next. A tick has the per-CPU values, if they can be read, and whether the
-- window can be written.
pub data Event : Type 0 where
  ctrl_c : Event
  tick : (per_cpu : Option (List PageIoCounters)) (written : Bool) → Event

pub data Ending : Type 0 where
  shut_down read_failed write_failed running : Ending

-- The windows that are written, and how the loop ends; `running` is after the events so far.
unfoldable pub loop : (prev_snapshot : PageIoCounters) → List Event → List PageIoCounters × Ending
loop prev [] = ([], running)
loop prev (ctrl_c ∷ events) = ([], shut_down)
loop prev (tick none written ∷ events) = ([], read_failed)
loop prev (tick (some per_cpu) written ∷ events) =
    let snapshot = snapshot_counters per_cpu in
    let rest = loop snapshot events in
    if written then (delta_counters prev snapshot ∷ rest.0, rest.1) else ([], write_failed)

sum_slots-default : (n : ℕ) → sum_slots default (replicate n default) ≡ default
unfolding sum_slots add_slot
sum_slots-default zero = refl
sum_slots-default (suc n) = sum_slots-default n

module _ {M N : Type 0 → Type 0} ⦃hash : HashMap M ℕ⦄ ⦃block : HashMap N BlockKey⦄ where
  -- The ticks of a run whose probes fire in so many groups, each before a tick.
  abbrev pub ticks : Maps M N → List (List Probe) → List Event
  ticks s [] = []
  ticks s (ps ∷ groups) = tick (some (run ps s).counters) true ∷ ticks (run ps s) groups

  -- Each window reports the ledger of the probes of its group.
  abbrev pub AreWindows : Maps M N → List (List Probe) → List PageIoCounters → Type 0
  AreWindows s [] [] = Unit
  AreWindows s (ps ∷ groups) (w ∷ windows) =
      IsWindow (ledger ps s) w × AreWindows (run ps s) groups windows
  AreWindows s _ _ = ⊥

  length-run :
      (ps : List Probe) (s : Maps M N)
      → All (λ p. cpu p < length s.counters) ps
      → length (run ps s).counters ≡ length s.counters
  unfolding run
  length-run [] s h = refl
  length-run (p ∷ ps) s h =
      let l = (fire-Outcome p s h.0).1 in
      length-run ps (fire p s) (subst (λ n. All (λ q. cpu q < n) ps) (sym l) h.1) ∙ l

  loop-AreWindows :
      (groups : List (List Probe)) (s : Maps M N)
      → All (λ ps. All (λ p. cpu p < length s.counters) ps) groups
      → AreWindows s groups (loop (snapshot_counters s.counters) (ticks s groups)).0
  unfolding loop
  loop-AreWindows [] s h = tt
  loop-AreWindows (ps ∷ groups) s h =
      let l = length-run ps s h.0 in
      (
        ledger-IsWindow ps s h.0,
        loop-AreWindows groups (run ps s)
            (subst (λ n. All (λ qs. All (λ q. cpu q < n) qs) groups) (sym l) h.1),
      )

  -- From zeroed counters, whatever probes fire between the ticks, each on a CPU that has a slot, the
  -- loop writes one window for each tick, and the window reports the probes since the tick before,
  -- or since the start: no probe is lost between two windows or counted in both.
  pub loop-windows :
      (groups : List (List Probe)) (s : Maps M N) (cpus : ℕ)
      → s.counters ≡ replicate cpus default
      → All (λ ps. All (λ p. cpu p < cpus) ps) groups
      → AreWindows s groups (loop default (ticks s groups)).0
  loop-windows groups s cpus zeroed h =
      let start : snapshot_counters s.counters ≡ default =
        ap snapshot_counters zeroed ∙ (unfold snapshot_counters in sum_slots-default cpus) in
      let slots : cpus ≡ length s.counters =
        sym (length-replicate cpus default) ∙ ap length (sym zeroed) in
      subst (λ c. AreWindows s groups (loop c (ticks s groups)).0) start
        (loop-AreWindows groups s (subst (λ n. All (λ ps. All (λ p. cpu p < n) ps) groups) slots h))
