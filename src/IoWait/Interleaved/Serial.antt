-- ===== src/IoWait/Interleaved/Serial.antt =====
-- The schedule of IoWait/Interleaved in which one wakeup follows another, which is what the
-- tracepoints of IoWait run in turn do.
use native.Mathlib.Decide.{ℕ_discrete}
use tragach.IoWait.Interleaved.Turns.{turns, remaining, steps-finished}
use tragach.IoWait.Interleaved.Views.{steps-final}
use tragach.IoWait.Interleaved.{
  Local, waiting, finished, Machine, operate, step, steps, AllWrite, begin, started, AllFinished,
}
use tragach.IoWait.{BucketKey, Maps, Context, Probe, sched_wakeup, try_sched_wakeup, fire, run}
use tragach.Kernel.{HashMap}
use tragach.Prelude.{
  ℕ, ◌≡◌, ◌∙◌, inl, inr, ap, sym, refl, subst, Option, none, some, List, [], ◌∷◌, ◌==◌, ==-of_ne,
  ==_iff, if◌then◌else◌, Option-cases, All, ◌≤◌, arith,
}

-- The wakeups, each with the thread that it reads from its trace fields.
abbrev pub wakeup_of : List (ℕ × Context) → ℕ → Option ℕ
wakeup_of [] u = none
wakeup_of ((t, c) ∷ ws) u = if u == t then some c.ktime_ns else wakeup_of ws u

-- The threads are distinct, and are those that the trace fields name.
abbrev pub AllRead : List (ℕ × Context) → Type 0
AllRead [] = Unit
AllRead ((t, c) ∷ ws) = (c.read_at 24 ≡ some t) × (wakeup_of ws t ≡ none) × AllRead ws

abbrev pub serial : List (ℕ × Context) → List ℕ
serial [] = []
serial ((t, c) ∷ ws) = t ∷ t ∷ t ∷ t ∷ serial ws

abbrev pub probes : List (ℕ × Context) → List Probe
probes [] = []
probes ((t, c) ∷ ws) = sched_wakeup c ∷ probes ws

begin-finished :
    (ws : List (ℕ × Context)) (schedule : List ℕ) (t : ℕ)
    → All (λ w. 4 ≤ turns w.0 schedule) ws
    → remaining (begin (wakeup_of ws t)) ≤ turns t schedule
begin-finished [] schedule t enough = omega arith
begin-finished ((u, c) ∷ ws) schedule t enough = elim (ℕ_discrete t u) [
  | yes p ↦ rw (p, (==_iff u u).1 refl) enough.0
  | no p ↦ rw (==-of_ne t u p) (begin-finished ws schedule t enough.1)
]

module _ {M N : Type 0 → Type 0} ⦃hash : HashMap M ℕ⦄ ⦃bucket : HashMap N BucketKey⦄ where
  -- Thread `t` and the maps are as `x` says.
  abbrev At : ℕ → Local × Maps M N → Machine M N → Type 0
  At t x m = (m.pool t ≡ x.0) × (m.maps ≡ x.1)

  step-At :
      (t : ℕ) (x : Local × Maps M N) (m : Machine M N)
      → At t x m
      → At t (operate t x.0 x.1) (step t m)
  unfolding step
  step-At t x m h = rw ((==_iff t t).1 refl, h.0, h.1) (refl, refl)

  step-ne : (t u : ℕ) (m : Machine M N) → (u ≡ t → ⊥) → (step t m).pool u ≡ m.pool u
  unfolding step
  step-ne t u m h = rw (==-of_ne u t h) refl

  abbrev next : ℕ → Local × Maps M N → Local × Maps M N
  next t x = operate t x.0 x.1

  operate-fire :
      (t : ℕ) (c : Context) (s : Maps M N)
      → c.read_at 24 ≡ some t
      → next t (next t (next t (next t (waiting c.ktime_ns, s))))
        ≡ (finished, fire (sched_wakeup c) s)
  unfolding operate fire try_sched_wakeup
  operate-fire t c s e = elim (Option-cases (hash.get s.start t)) [
    | inl none_yet ↦ rw (fire, e, none_yet) refl
    | inr (info, got) ↦ rw (fire, e, got) refl
  ]

  abbrev four : ℕ → Machine M N → Machine M N
  four t m = step t (step t (step t (step t m)))

  four-fire :
      (t : ℕ) (c : Context) (m : Machine M N)
      → c.read_at 24 ≡ some t
      → m.pool t ≡ waiting c.ktime_ns
      → At t (finished, fire (sched_wakeup c) m.maps) (four t m)
  four-fire t c m e h =
      subst (λ x. At t x (four t m)) (operate-fire t c m.maps e)
        (step-At t _ _
          (step-At t _ _ (step-At t _ _ (step-At t (waiting c.ktime_ns, m.maps) m (h, refl)))))

  four-ne : (t u : ℕ) (m : Machine M N) → (u ≡ t → ⊥) → (four t m).pool u ≡ m.pool u
  four-ne t u m h = step-ne t u _ h ∙ step-ne t u _ h ∙ step-ne t u _ h ∙ step-ne t u m h

  serial-run :
      (ws : List (ℕ × Context)) (m : Machine M N)
      → AllRead ws
      → ((u : ℕ) → m.pool u ≡ begin (wakeup_of ws u))
      → ((steps (serial ws) m).maps ≡ run (probes ws) m.maps) × AllFinished (steps (serial ws) m)
  unfolding steps run
  serial-run [] m all h = (refl, h)
  serial-run ((t, c) ∷ ws) m all h =
      let here : m.pool t ≡ waiting c.ktime_ns = rw ((==_iff t t).1 refl) at (h t) in
      let at = four-fire t c m all.0 here in
      let pools : (u : ℕ) → (four t m).pool u ≡ begin (wakeup_of ws u) = λ u.
        elim (ℕ_discrete u t) [
          | yes p ↦ rw (p, all.1) at.0
          | no p ↦ four-ne t u m p ∙ rw (==-of_ne u t p) at (h u)
        ] in
      let rest = serial-run ws (four t m) all.2 pools in
      (rest.0 ∙ ap (run (probes ws)) at.1, rest.1)

  abbrev pub interleaved : List (ℕ × Context) → List ℕ → Maps M N → Machine M N
  interleaved ws schedule s = steps schedule (started (wakeup_of ws) s)

  -- Wakeups of distinct threads on several CPUs, interleaved in any order of their operations on the
  -- maps in which each thread has at least four turns, all end, and leave in both maps what the same
  -- wakeups leave one after another, if no insertion fails in either order: no total is lost.
  pub interleaved-run :
      (ws : List (ℕ × Context)) (schedule : List ℕ) (s : Maps M N)
      → AllRead ws
      → All (λ w. 4 ≤ turns w.0 schedule) ws
      → AllWrite schedule (started (wakeup_of ws) s)
      → AllWrite (serial ws) (started (wakeup_of ws) s)
      → AllFinished (interleaved ws schedule s)
        × ((t : ℕ)
            → hash.get (interleaved ws schedule s).maps.start t
              ≡ hash.get (run (probes ws) s).start t)
        × ((k : BucketKey)
            → bucket.get (interleaved ws schedule s).maps.buckets k
              ≡ bucket.get (run (probes ws) s).buckets k)
  interleaved-run ws schedule s reads enough fits alone_fits =
      let w = wakeup_of ws in
      let all : AllFinished (interleaved ws schedule s) =
        λ t. steps-finished t schedule (started w s) (begin-finished ws schedule t enough) in
      let alone = serial-run ws (started w s) reads (λ u. refl) in
      let one = λ (t : ℕ). steps-final w s schedule t fits all in
      let other = λ (t : ℕ). rw alone.0 at (steps-final w s (serial ws) t alone_fits alone.1) in
      (
        all,
        λ t. (one t).0 ∙ sym (other t).0,
        λ k. (one k.pid).1 k.stack_id ∙ sym ((other k.pid).1 k.stack_id),
      )
