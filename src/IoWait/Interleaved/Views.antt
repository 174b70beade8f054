-- ===== src/IoWait/Interleaved/Views.antt =====
-- What each thread sees of the maps of IoWait/Interleaved: whatever the schedule, its wakeup leaves
-- there what it would leave alone.
use native.Mathlib.Decide.{ℕ_discrete}
use tragach.IoWait.Interleaved.{
  Local, waiting, found, removed, counted, finished, key_of, Machine, operate, step, steps, Writes,
  AllWrite, begin, started, AllFinished,
}
use tragach.IoWait.Ledger.{Result-is_ok}
use tragach.IoWait.{StartInfo, BucketKey, Maps, new_total}
use tragach.Kernel.{HashMap}
use tragach.Prelude.{
  ℕ, ◌-◌, ◌≡◌, ◌≢◌, ◌∙◌, inl, inr, sym, ap, refl, Option, none, some, List, [], ◌∷◌, ok, ◌==◌,
  ==-of_ne, ==_iff, if◌then◌else◌, Option-cases, Result-cases, arith,
}

-- What the wakeup of a thread leaves of its sleep and of the total of a stack.
abbrev pub final_start : Option ℕ → Option StartInfo → Option StartInfo
final_start none o = o
final_start (some now) o = none

abbrev pub final_total : Option ℕ → Option StartInfo → (stack_id : ℕ) → Option ℕ → Option ℕ
final_total (some now) (some info) stack_id total =
    if stack_id == info.stack_id then some (new_total total (now - info.ts_ns)) else total
final_total (some now) none stack_id total = total
final_total none o stack_id total = total

-- What the maps hold about a thread.
pub record View : Type 0 where
  pub start : Option StartInfo
  pub total : ℕ → Option ℕ

-- How the view of a thread has come about, from the one before a wakeup at `w`, if there is one.
abbrev pub Reached : Option ℕ → View → Local → View → Type 0
Reached w v (waiting now) v' =
    (w ≡ some now) × (v'.start ≡ v.start) × ((i : ℕ) → v'.total i ≡ v.total i)
Reached w v (found now info) v' =
    (w ≡ some now)
    × (v.start ≡ some info)
    × (v'.start ≡ v.start)
    × ((i : ℕ) → v'.total i ≡ v.total i)
Reached w v (removed now info) v' =
    (w ≡ some now) × (v.start ≡ some info) × (v'.start ≡ none) × ((i : ℕ) → v'.total i ≡ v.total i)
Reached w v (counted now info total) v' =
    (w ≡ some now)
    × (v.start ≡ some info)
    × (v'.start ≡ none)
    × (total ≡ new_total (v.total info.stack_id) (now - info.ts_ns))
    × ((i : ℕ) → v'.total i ≡ v.total i)
Reached w v finished v' =
    (v'.start ≡ final_start w v.start)
    × ((i : ℕ) → v'.total i ≡ final_total w v.start i (v.total i))

Reached-view :
    (w : Option ℕ) (v : View) (l : Local) (a b : View)
    → b.start ≡ a.start
    → ((i : ℕ) → b.total i ≡ a.total i)
    → Reached w v l a
    → Reached w v l b
Reached-view w v (waiting now) a b e f h = (h.0, e ∙ h.1, λ i. f i ∙ h.2 i)
Reached-view w v (found now info) a b e f h = (h.0, h.1, e ∙ h.2, λ i. f i ∙ h.3 i)
Reached-view w v (removed now info) a b e f h = (h.0, h.1, e ∙ h.2, λ i. f i ∙ h.3 i)
Reached-view w v (counted now info total) a b e f h = (h.0, h.1, e ∙ h.2, h.3, λ i. f i ∙ h.4 i)
Reached-view w v finished a b e f h = (e ∙ h.0, λ i. f i ∙ h.1 i)

begin-Reached : (o : Option ℕ) (v : View) → Reached o v (begin o) v
begin-Reached none v = (refl, λ i. refl)
begin-Reached (some now) v = (refl, refl, λ i. refl)

module _ {M N : Type 0 → Type 0} ⦃hash : HashMap M ℕ⦄ ⦃bucket : HashMap N BucketKey⦄ where
  abbrev pub view : ℕ → Maps M N → View
  view t s = record {
    start = hash.get s.start t;
    total = λ i. bucket.get s.buckets (record { pid = t; stack_id = i });
  }

  -- The wakeup of another thread does not touch the view.
  operate_ne :
      (t u : ℕ) (l : Local) (s : Maps M N)
      → t ≢ u
      → ((view t (operate u l s).1).start ≡ (view t s).start)
        × ((i : ℕ) → (view t (operate u l s).1).total i ≡ (view t s).total i)
  unfolding operate
  operate_ne t u (waiting now) s ne = elim (Option-cases (hash.get s.start u)) [
    | inl e ↦ rw e (refl, λ i. refl)
    | inr (info, e) ↦ rw e (refl, λ i. refl)
  ]
  operate_ne t u (found now info) s ne = (hash.get-remove_ne s.start u t ne, λ i. refl)
  operate_ne t u (removed now info) s ne = (refl, λ i. refl)
  operate_ne t u (counted now info total) s ne =
      elim (Result-cases (bucket.insert s.buckets (key_of u info) total)) [
        | inl (m, e) ↦ rw e (
          refl,
          λ i.
              bucket.get-insert_ne s.buckets (key_of u info) (record { pid = t; stack_id = i })
                total e (λ same. ne (ap (λ k. k.pid) same)),
        )
        | inr (n, e) ↦ rw e (refl, λ i. refl)
      ]
  operate_ne t u finished s ne = (refl, λ i. refl)

  inserted-total :
      (t total : ℕ) (info : StartInfo) (now i : ℕ) (old : ℕ → Option ℕ) (s : Maps M N) {m : N ℕ}
      → bucket.insert s.buckets (key_of t info) total ≡ ok m
      → total ≡ new_total (old info.stack_id) (now - info.ts_ns)
      → bucket.get s.buckets (record { pid = t; stack_id = i }) ≡ old i
      → bucket.get m (record { pid = t; stack_id = i })
        ≡ final_total (some now) (some info) i (old i)
  inserted-total t total info now i old s {m} e sum same = elim (ℕ_discrete i info.stack_id) [
    | yes p ↦
        let here : bucket.get m (key_of t info) ≡ some total =
          bucket.get-insert_self s.buckets (key_of t info) total e in
        rw p (ground (arith, here, sum))
    | no p ↦
        let there =
          bucket.get-insert_ne s.buckets (key_of t info) (record { pid = t; stack_id = i }) total e
            (λ same. p (ap (λ k. k.stack_id) same)) in
        ground (arith, there, same)
  ]

  operate_self :
      (w : Option ℕ) (v : View) (t : ℕ) (l : Local) (s : Maps M N)
      → Writes t l s
      → Reached w v l (view t s)
      → Reached w v (operate t l s).0 (view t (operate t l s).1)
  unfolding operate
  operate_self w v t (waiting now) s fits h = elim (Option-cases (hash.get s.start t)) [
    | inl e ↦ let gone : v.start ≡ none = sym h.1 ∙ e in rw (e, h.0, gone) (e, λ i. h.2 i)
    | inr (info, e) ↦ rw e (h.0, sym h.1 ∙ e, h.1, h.2)
  ]
  operate_self w v t (found now info) s fits h = (h.0, h.1, hash.get-remove_self s.start t, h.3)
  operate_self w v t (removed now info) s fits h =
      (h.0, h.1, h.2, ap (λ o. new_total o (now - info.ts_ns)) (h.3 info.stack_id), h.3)
  operate_self w v t (counted now info total) s written h =
      let (m, e) = Result-is_ok (bucket.insert s.buckets (key_of t info) total) written in
      rw (e, h.0, h.1) (h.2, λ i. inserted-total t total info now i v.total s e h.3 (h.4 i))
  operate_self w v t finished s fits h = h

  -- The wakeups that are to come, `w t` for thread `t`, and the maps before them.
  abbrev pub Sound : (ℕ → Option ℕ) → Maps M N → Machine M N → Type 0
  Sound w s m = (t : ℕ) → Reached (w t) (view t s) (m.pool t) (view t m.maps)

  step-Sound :
      (w : ℕ → Option ℕ) (s : Maps M N) (u : ℕ) (m : Machine M N)
      → Writes u (m.pool u) m.maps
      → Sound w s m
      → Sound w s (step u m)
  unfolding step
  step-Sound w s u m fits h t = elim (ℕ_discrete t u) [
    | yes p ↦
        rw (p, (==_iff u u).1 refl) (operate_self (w u) (view u s) u (m.pool u) m.maps fits (h u))
    | no p ↦
        let (e, f) = operate_ne t u (m.pool u) m.maps p in
        rw (==-of_ne t u p) (
          Reached-view (w t) (view t s) (m.pool t) (view t m.maps)
            (view t (operate u (m.pool u) m.maps).1) e f (h t))
  ]

  steps-Sound :
      (w : ℕ → Option ℕ) (s : Maps M N) (schedule : List ℕ) (m : Machine M N)
      → AllWrite schedule m
      → Sound w s m
      → Sound w s (steps schedule m)
  unfolding steps
  steps-Sound w s [] m fits h = h
  steps-Sound w s (t ∷ schedule) m fits h =
      steps-Sound w s schedule (step t m) fits.1 (step-Sound w s t m fits.0 h)

  -- When all wakeups have ended and no insertion has failed, the maps hold what each alone leaves,
  -- whatever the schedule.
  pub steps-final :
      (w : ℕ → Option ℕ) (s : Maps M N) (schedule : List ℕ) (t : ℕ)
      → AllWrite schedule (started w s)
      → AllFinished (steps schedule (started w s))
      → Reached (w t) (view t s) finished (view t (steps schedule (started w s)).maps)
  steps-final w s schedule t fits all =
      rw (all t) at
        (steps-Sound w s schedule (started w s) fits (λ t. begin-Reached (w t) (view t s)) t)
