-- ===== src/IoWait/Interleaved.antt =====
-- Wakeups of several threads at once, on several CPUs: `try_sched_wakeup` of
-- crates/tragach-iowait/src/bpf/main.rs as four operations on the maps, each of them atomic, which
-- interleave in any order.
pub mod Views
pub mod Turns
pub mod Serial
use tragach.IoWait.Ledger.{is_ok}
use tragach.IoWait.{StartInfo, BucketKey, Maps, new_total}
use tragach.Kernel.{HashMap}
use tragach.Prelude.{
  ℕ, ◌-◌, ◌≡◌, ◌≢◌, ◌∙◌, inl, inr, sym, ap, refl, Bool, true, false, Option, none, some, List, [],
  ◌∷◌, Result, ok, err, write, ◌==◌, ==-of_ne, ==_iff, if◌then◌else◌, Option-cases, Result-cases,
  Bool-cases, arith,
}

-- How far the wakeup of a thread is: nothing is read yet, `START.get`, `START.remove` and
-- `BUCKETS.get` are done, or all is.
pub data Local : Type 0 where
  waiting : (now : ℕ) → Local
  found : (now : ℕ) → StartInfo → Local
  removed : (now : ℕ) → StartInfo → Local
  counted : (now : ℕ) → StartInfo → (total : ℕ) → Local
  finished : Local

abbrev pub key_of : ℕ → StartInfo → BucketKey
key_of t info = record { pid = t; stack_id = info.stack_id }

abbrev pub with_local : ℕ → Local → (ℕ → Local) → ℕ → Local
with_local t l pool u = if u == t then l else pool u

-- The wakeups in progress, by their threads, and the maps.
pub record Machine (M N : Type 0 → Type 0) : Type 0 where
  pub pool : ℕ → Local
  pub maps : Maps M N

abbrev pub begin : Option ℕ → Local
begin none = finished
begin (some now) = waiting now

abbrev pub AllFinished : {M N : Type 0 → Type 0} → Machine M N → Type 0
AllFinished m = (t : ℕ) → m.pool t ≡ finished

module _ {M N : Type 0 → Type 0} ⦃hash : HashMap M ℕ⦄ ⦃bucket : HashMap N BucketKey⦄ where
  abbrev looked_up : (now : ℕ) → Option StartInfo → Maps M N → Local × Maps M N
  looked_up now none s = (finished, s)
  looked_up now (some info) s = (found now info, s)

  -- The next operation of the wakeup of thread `t`.
  unfoldable pub operate : (t : ℕ) → Local → Maps M N → Local × Maps M N
  operate t (waiting now) s = looked_up now (hash.get s.start t) s
  operate t (found now info) s = (removed now info, record s { start = hash.remove s.start t })
  operate t (removed now info) s =
      (counted now info (new_total (bucket.get s.buckets (key_of t info)) (now - info.ts_ns)), s)
  operate t (counted now info total) s = (
    finished,
    (write (bucket.insert s.buckets (key_of t info) total) (λ m s. record s { buckets = m }) s).1,
  )
  operate t finished s = (finished, s)

  unfoldable pub step : (t : ℕ) → Machine M N → Machine M N
  unfolding operate
  step t m =
      let (l, s) = operate t (m.pool t) m.maps in record { pool = with_local t l m.pool; maps = s }

  -- The CPUs take turns as a schedule says, a thread for each operation.
  unfoldable pub steps : List ℕ → Machine M N → Machine M N
  steps [] m = m
  steps (t ∷ schedule) m = steps schedule (step t m)

  -- The insertion of a wakeup succeeds.
  abbrev pub Writes : ℕ → Local → Maps M N → Type 0
  Writes t (counted now info total) s = is_ok (bucket.insert s.buckets (key_of t info) total) ≡ true
  Writes t _ s = Unit

  abbrev pub AllWrite : List ℕ → Machine M N → Type 0
  AllWrite [] m = Unit
  AllWrite (t ∷ schedule) m = Writes t (m.pool t) m.maps × AllWrite schedule (step t m)

  abbrev pub started : (ℕ → Option ℕ) → Maps M N → Machine M N
  started w s = record { pool = λ t. begin (w t); maps = s }
