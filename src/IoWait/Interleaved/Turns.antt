-- ===== src/IoWait/Interleaved/Turns.antt =====
-- Every wakeup of IoWait/Interleaved ends after at most four turns of its thread.
use native.Mathlib.Decide.{ℕ_discrete}
use tragach.IoWait.Interleaved.{
  Local, waiting, found, removed, counted, finished, Machine, operate, step, steps, begin,
}
use tragach.IoWait.{Maps, BucketKey}
use tragach.Kernel.{HashMap}
use tragach.Prelude.{
  ℕ, ◌+◌, ◌≤◌, ◌≡◌, subst, inl, inr, refl, Option, none, some, List, [], ◌∷◌, ◌==◌, ==-of_ne,
  ==_iff, if◌then◌else◌, Option-cases, arith,
}

abbrev pub remaining : Local → ℕ
remaining (waiting now) = 4
remaining (found now info) = 3
remaining (removed now info) = 2
remaining (counted now info total) = 1
remaining finished = 0

abbrev pub turns : ℕ → List ℕ → ℕ
turns t [] = 0
turns t (u ∷ us) = let rest = turns t us in if t == u then 1 + rest else rest

remaining-finished : (l : Local) → remaining l ≤ 0 → l ≡ finished
remaining-finished (waiting now) h = absurd (omega arith)
remaining-finished (found now info) h = absurd (omega arith)
remaining-finished (removed now info) h = absurd (omega arith)
remaining-finished (counted now info total) h = absurd (omega arith)
remaining-finished finished h = refl

remaining-begin : (o : Option ℕ) → remaining (begin o) ≤ 4
remaining-begin none = omega arith
remaining-begin (some now) = omega arith

module _ {M N : Type 0 → Type 0} ⦃hash : HashMap M ℕ⦄ ⦃bucket : HashMap N BucketKey⦄ where
  remaining-operate :
      (t n : ℕ) (l : Local) (s : Maps M N) → remaining l ≤ 1 + n → remaining (operate t l s).0 ≤ n
  unfolding operate
  remaining-operate t n (waiting now) s h = elim (Option-cases (hash.get s.start t)) [
    | inl e ↦ rw e (omega arith)
    | inr (info, e) ↦ rw e (omega arith)
  ]
  remaining-operate t n (found now info) s h = omega arith
  remaining-operate t n (removed now info) s h = omega arith
  remaining-operate t n (counted now info total) s h = omega arith
  remaining-operate t n finished s h = omega arith

  pub steps-finished :
      (t : ℕ) (schedule : List ℕ) (m : Machine M N)
      → remaining (m.pool t) ≤ turns t schedule
      → (steps schedule m).pool t ≡ finished
  unfolding steps step
  steps-finished t [] m h = remaining-finished (m.pool t) h
  steps-finished t (u ∷ schedule) m h = elim (ℕ_discrete t u) [
    | yes p ↦
        let fewer = remaining-operate u (turns u schedule) (m.pool u) m.maps (
          rw ((==_iff u u).1 refl) at
            (subst (λ v. remaining (m.pool v) ≤ turns v (u ∷ schedule)) p h)) in
        steps-finished t schedule (step u m) (rw (p, (==_iff u u).1 refl) fewer)
    | no p ↦ steps-finished t schedule (step u m) (rw (==-of_ne t u p) (rw (==-of_ne t u p) at h))
  ]
