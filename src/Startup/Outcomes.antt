-- ===== src/Startup/Outcomes.antt =====
-- Steps that stop a start before it has any effect, and steps that succeed.
use tragach.Prelude.{
  Bool, true, Option, none, some, List, [], ◌∷◌, ◌++◌, ◌≡◌, refl, ap, ◌∙◌, ◌⊎◌, inl, inr,
}
use tragach.Startup.Attaching.{Attaches, Leaves}
use tragach.Startup.{
  Outcome, ok, failed, Start, Effect, Failure, ◌>>=◌, ◌>>◌, require, the, effect, ignore, done,
}
use mathlib.Core.List.{append-nil}

-- Whatever was done before, the step fails and does nothing.
pub record Fails {A : Type 0} (m : Start A) : Type 0 where
  pub fails : (log : List Effect) → (e : Failure) × (m log ≡ (failed e, log))

quiet-cases :
    {A : Type 0} (log : List Effect) (r : Outcome A × List Effect)
    → Leaves [] log r
    → ((a : A) × (r ≡ (ok a, log))) ⊎ ((e : Failure) × (r ≡ (failed e, log)))
quiet-cases log (ok a, log') h = inl (a, ap (λ l. (ok a, l)) (h ∙ append-nil log))
quiet-cases log (failed e, log') ([], rest, split, left) =
    inr (e, ap (λ l. (failed e, l)) (left ∙ append-nil log))
quiet-cases log (failed e, log') (x ∷ first, rest, split, left) = absurd (cc)

pub quiet_or_fails :
    {A : Type 0} {m : Start A} (log : List Effect)
    → Attaches [] m
    → ((a : A) × (m log ≡ (ok a, log))) ⊎ ((e : Failure) × (m log ≡ (failed e, log)))
quiet_or_fails {m} log h = quiet-cases log (m log) (h.leaves log)

pub Fails-bind :
    {A B : Type 0} {m : Start A} {f : A → Start B}
    → Attaches [] m
    → ((a : A) → Fails (f a))
    → Fails (m >>= f)
unfolding ◌>>=◌
Fails-bind {m} {f} h k = record {
  fails = λ log. elim (quiet_or_fails {m = m} log h) [
    | inl (a, e) ↦ let (why, stuck) = (k a).fails log in (why, rw e stuck)
    | inr (why, e) ↦ (why, rw e refl)
  ];
}

pub Fails-then :
    {B : Type 0} {m : Start (Unit {0})} {n : Start B} → Attaches [] m → Fails n → Fails (m >> n)
unfolding ◌>>◌
Fails-then h k = Fails-bind h (λ _. k)

pub none-Fails :
    {A B : Type 0} {o : Option A} (e : Failure) (f : A → Start B) → o ≡ none → Fails (the o e >>= f)
unfolding ◌>>=◌ the
none-Fails e f h = record { fails = λ log. (e, rw h) }

pub some-Attaches :
    {A B : Type 0} {o : Option A} {es : List Effect} {a : A} (e : Failure) (f : A → Start B)
    → o ≡ some a
    → Attaches es (f a)
    → Attaches es (the o e >>= f)
unfolding ◌>>=◌ the
some-Attaches e f h k = rw h k

-- Whatever was done before, the step succeeds.
pub record Succeeds {A : Type 0} (m : Start A) : Type 0 where
  pub succeeds : (log : List Effect) → (a : A) × (log' : List Effect) × (m log ≡ (ok a, log'))

pub Succeeds-bind :
    {A B : Type 0} {m : Start A} {f : A → Start B}
    → Succeeds m
    → ((a : A) → Succeeds (f a))
    → Succeeds (m >>= f)
unfolding ◌>>=◌
Succeeds-bind h k = record {
  succeeds = λ log.
      let (a, log', e) = h.succeeds log in
      let (b, log'', e') = (k a).succeeds log' in (b, log'', rw e e');
}

pub Succeeds-then :
    {B : Type 0} {m : Start (Unit {0})} {n : Start B} → Succeeds m → Succeeds n → Succeeds (m >> n)
unfolding ◌>>◌
Succeeds-then h k = Succeeds-bind h (λ _. k)

pub require-Succeeds : {b : Bool} (e : Failure) → b ≡ true → Succeeds (require b e)
unfolding require
require-Succeeds e h = record { succeeds = λ log. (tt, log, rw h) }

pub the-Succeeds :
    {A : Type 0} {o : Option A} {a : A} (e : Failure) → o ≡ some a → Succeeds (the o e)
unfolding the
the-Succeeds {a} e h = record { succeeds = λ log. (a, log, rw h) }

pub effect-Succeeds : (e : Effect) → Succeeds (effect e)
unfolding effect
effect-Succeeds e = record { succeeds = λ log. (tt, log ++ e ∷ [], refl) }

pub ignore-Succeeds : {A : Type 0} (m : Start A) → Succeeds (ignore m)
unfolding ignore
ignore-Succeeds m = record { succeeds = λ log. (tt, (m log).1, refl) }

pub done-Succeeds : {A : Type 0} (a : A) → Succeeds (done a)
unfolding done
done-Succeeds a = record { succeeds = λ log. (a, log, refl) }

pub ruleset succeeding = (
  Succeeds-bind, Succeeds-then, require-Succeeds, the-Succeeds, effect-Succeeds, ignore-Succeeds,
  done-Succeeds,
)

-- A first step that has no effect decides: it fails, or the rest runs on its result.
pub quiet_first :
    {A B : Type 0} (m : Start A) (f : A → Start B) (log : List Effect)
    → Attaches [] m
    → ((a : A) × (m log ≡ (ok a, log)) × ((m >>= f) log ≡ f a log))
      ⊎ ((e : Failure) × ((m >>= f) log ≡ (failed e, log)))
unfolding ◌>>=◌
quiet_first m f log h = elim (quiet_or_fails {m = m} log h) [
  | inl (a, e) ↦ inl (a, e, rw e refl)
  | inr (why, e) ↦ inr (why, rw e refl)
]
