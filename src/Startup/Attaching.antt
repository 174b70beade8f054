-- ===== src/Startup/Attaching.antt =====
-- What a start leaves attached: all of a list of effects if it succeeds, and the first of them, in
-- order, if it fails.
use tragach.Prelude.{
  ℕ, Text, subst, Bool, true, false, Option, none, some, List, [], ◌∷◌, ◌++◌, ◌≡◌, refl, sym, ap,
  ◌∙◌,
}
use Prim.Native.String.{String}
use tragach.Startup.{
  done, Host, Attachment, ensure_paths, raise_rlimit_memlock, resolve_firebird_pid, set_target,
  target_set, attached, attach_program, take_map, target_pid, Outcome, ok, failed, Start, Effect,
  Failure, ◌>>=◌, ◌>>◌, require, the, effect, ignore, bind_start,
}
use mathlib.Core.List.{append_assoc, append-nil}

abbrev pub Leaves : {A : Type 0} → List Effect → List Effect → Outcome A × List Effect → Type 0
Leaves es log (ok a, log') = log' ≡ log ++ es
Leaves es log (failed e, log') =
    (first : List Effect) × (rest : List Effect) × (es ≡ first ++ rest) × (log' ≡ log ++ first)

pub record Attaches {A : Type 0} (es : List Effect) (m : Start A) : Type 0 where
  pub leaves : (log : List Effect) → Leaves es log (m log)

Leaves-after :
    {B : Type 0} (es later log : List Effect) (r : Outcome B × List Effect)
    → Leaves later (log ++ es) r
    → Leaves (es ++ later) log r
Leaves-after es later log (ok b, log') left = left ∙ append_assoc log es later
Leaves-after es later log (failed e, log') (first, rest, split, left) = (
  es ++ first,
  rest,
  ap (λ l. es ++ l) split ∙ sym (append_assoc es first rest),
  left ∙ append_assoc log es first,
)

Leaves-bind :
    {A B : Type 0} (es later log : List Effect) (r : Outcome A × List Effect) (f : A → Start B)
    → Leaves es log r
    → ((a : A) → Attaches later (f a))
    → Leaves (es ++ later) log (bind_start r f)
Leaves-bind es later log (ok a, log') f h k =
    Leaves-after es later log (f a log')
      (subst (λ l. Leaves later l (f a log')) h ((k a).leaves log'))
Leaves-bind es later log (failed e, log') f (first, rest, split, left) k =
    (first, rest ++ later, ap (λ l. l ++ later) split ∙ append_assoc first rest later, left)

pub Attaches-bind :
    {A B : Type 0} {es later : List Effect} {m : Start A} {f : A → Start B}
    → Attaches es m
    → ((a : A) → Attaches later (f a))
    → Attaches (es ++ later) (m >>= f)
unfolding ◌>>=◌
Attaches-bind {es} {later} {m} {f} h k = record {
  leaves = λ log. Leaves-bind es later log (m log) f (h.leaves log) k;
}

pub Attaches-then :
    {B : Type 0} {es later : List Effect} {m : Start (Unit {0})} {n : Start B}
    → Attaches es m
    → Attaches later n
    → Attaches (es ++ later) (m >> n)
unfolding ◌>>◌
Attaches-then h k = Attaches-bind h (λ _. k)

require-Leaves : (b : Bool) (e : Failure) (log : List Effect) → Leaves [] log (require b e log)
unfolding require
require-Leaves true e log = sym (append-nil log)
require-Leaves false e log = ([], [], refl, sym (append-nil log))

pub require-Attaches : (b : Bool) (e : Failure) → Attaches [] (require b e)
require-Attaches b e = record { leaves = require-Leaves b e }

the-Leaves :
    {A : Type 0} (o : Option A) (e : Failure) (log : List Effect) → Leaves [] log (the o e log)
unfolding the
the-Leaves none e log = ([], [], refl, sym (append-nil log))
the-Leaves (some a) e log = sym (append-nil log)

pub the-Attaches : {A : Type 0} (o : Option A) (e : Failure) → Attaches [] (the o e)
the-Attaches o e = record { leaves = the-Leaves o e }

pub effect-Attaches : (e : Effect) → Attaches (e ∷ []) (effect e)
unfolding effect
effect-Attaches e = record { leaves = λ log. refl }

nil-of_append : (first rest : List Effect) → [] ≡ first ++ rest → first ≡ []
nil-of_append [] rest e = refl
nil-of_append (f ∷ first) rest e = absurd (cc)

Leaves-ok :
    {A : Type 0} (log : List Effect) (r : Outcome A × List Effect)
    → Leaves [] log r
    → r.1 ≡ log ++ []
Leaves-ok log (ok a, log') h = h
Leaves-ok log (failed e, log') (first, rest, split, left) =
    left ∙ ap (λ l. log ++ l) (nil-of_append first rest split)

-- A step whose failure is only a warning.
pub ignore-Attaches : {A : Type 0} {m : Start A} → Attaches [] m → Attaches [] (ignore m)
unfolding ignore
ignore-Attaches {m} h = record { leaves = λ log. Leaves-ok log (m log) (h.leaves log) }

pub done-Attaches : {A : Type 0} (a : A) → Attaches [] (done a)
unfolding done
done-Attaches a = record { leaves = λ log. sym (append-nil log) }

-- The rules for a step that attaches nothing, and for one that has one effect.
pub quiet-bind :
    {A B : Type 0} {es : List Effect} {m : Start A} {f : A → Start B}
    → Attaches [] m
    → ((a : A) → Attaches es (f a))
    → Attaches es (m >>= f)
quiet-bind h k = Attaches-bind h k

pub quiet-then :
    {B : Type 0} {es : List Effect} {m : Start (Unit {0})} {n : Start B}
    → Attaches [] m
    → Attaches es n
    → Attaches es (m >> n)
quiet-then h k = Attaches-then h k

pub effect-then :
    {B : Type 0} {e : Effect} {es : List Effect} {m : Start (Unit {0})} {n : Start B}
    → Attaches (e ∷ []) m
    → Attaches es n
    → Attaches (e ∷ es) (m >> n)
effect-then h k = Attaches-then h k

pub pair-then :
    {B : Type 0} {e e' : Effect} {es : List Effect} {m : Start (Unit {0})} {n : Start B}
    → Attaches (e ∷ e' ∷ []) m
    → Attaches es n
    → Attaches (e ∷ e' ∷ es) (m >> n)
pair-then h k = Attaches-then h k

pub ruleset attaching = (
  quiet-bind, quiet-then, effect-then, require-Attaches, the-Attaches, effect-Attaches,
  ignore-Attaches, done-Attaches,
)

module _ (host : Host) where
  pub ensure_paths-Attaches : (lib debug : Text) → Attaches [] (ensure_paths host lib debug)
  unfolding ensure_paths
  ensure_paths-Attaches lib debug = search attaching

  pub raise_rlimit_memlock-Attaches : Attaches [] (raise_rlimit_memlock host)
  unfolding raise_rlimit_memlock
  raise_rlimit_memlock-Attaches = search attaching

  pub target_pid-Attaches : (pid : Option ℕ) → Attaches [] (target_pid host pid)
  unfolding target_pid resolve_firebird_pid
  target_pid-Attaches none = search attaching
  target_pid-Attaches (some pid) = search attaching

  pub set_target-Attaches : (pid : ℕ) → Attaches (target_set pid ∷ []) (set_target host pid)
  unfolding set_target
  set_target-Attaches pid = search attaching

  pub attach_program-Attaches :
      (name : String) (a : Attachment)
      → Attaches (attached name a ∷ []) (attach_program host name a)
  unfolding attach_program
  attach_program-Attaches name a = search attaching

  pub take_map-Attaches : (name : String) → Attaches [] (take_map host name)
  unfolding take_map
  take_map-Attaches name = search attaching
