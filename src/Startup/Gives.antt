-- ===== src/Startup/Gives.antt =====
-- What the steps of a start give when they succeed.
use tragach.Prelude.{◌≡◌, refl, Option, some, List}
use tragach.Startup.{
  Effect, Failure, Outcome, ok, failed, Start, ◌>>=◌, ◌>>◌, the, done, bind_start,
}

-- If the step succeeds, it gives `a`.
pub record Gives {A : Type 0} (a : A) (m : Start A) : Type 0 where
  pub same : (log : List Effect) {b : A} {log' : List Effect} → m log ≡ (ok b, log') → b ≡ a

bound-ok :
    {A B : Type 0} (o : Outcome A × List Effect) (f : A → Start B) {b : B} {log' : List Effect}
    → bind_start o f ≡ (ok b, log')
    → (a : A) × (log : List Effect) × (o ≡ (ok a, log)) × (f a log ≡ (ok b, log'))
bound-ok (ok a, log) f e = (a, log, refl, e)
bound-ok (failed x, log) f e = absurd (cc)

pub Gives-done : {A : Type 0} (a : A) → Gives a (done a)
unfolding done
Gives-done a = record { same = λ log e. cc }

pub Gives-then :
    {B : Type 0} {b : B} (m : Start (Unit {0})) (k : Start B) → Gives b k → Gives b (m >> k)
unfolding ◌>>◌ ◌>>=◌
Gives-then m k g = record {
  same = λ log e. let (a, mid, h, e') = bound-ok (m log) (λ _. k) e in g.same mid e';
}

pub Gives-the :
    {A B : Type 0} {b : B} {o : Option A} (x : Failure) (f : A → Start B) (a : A)
    → o ≡ some a
    → Gives b (f a)
    → Gives b (the o x >>= f)
unfolding the ◌>>=◌
Gives-the x f a e g = record { same = λ log h. g.same log (rw e at h) }
