-- ===== src/IoWait/Ledger.antt =====
-- What crates/tragach-iowait/src/bpf/main.rs measures, without its maps: the threads of the target
-- that are asleep, and the spans of those that are woken.
pub mod Runs
use mathlib.Core.Path.{fun_ext, ap₂}
use native.Mathlib.Decide.{ℕ_discrete}
use tragach.IoWait.Windows.{Bucket}
use tragach.IoWait.{
  StartInfo, BucketKey, Maps, Context, stack_of, filtered, new_total, Probe, sched_switch,
  sched_wakeup, try_sched_switch, try_sched_wakeup, fire, run,
}
use tragach.Kernel.{HashMap}
use tragach.Prelude.{
  ℕ, ◌-◌, ◌%◌, ◌≡◌, ◌≢◌, ◌∙◌, inl, inr, sym, ap, refl, Bool, true, false, ◌&&◌, not, Option, none,
  some, List, [], ◌∷◌, ◌++◌, Result, ok, err, ◌==◌, if◌then◌else◌, Option-cases, Bool-cases, arith,
}

-- When and with which stack each thread that is asleep left its CPU.
abbrev pub Sleeping : Type 0
Sleeping = ℕ → Option StartInfo

abbrev pub info_of : Context → StartInfo
info_of c = record { ts_ns = c.ktime_ns; stack_id = stack_of c }

abbrev pub with_thread : ℕ → Option StartInfo → Sleeping → Sleeping
with_thread t o sleeping u = if u == t then o else sleeping u

abbrev pub tracked : Option ℕ → Context → Bool
tracked none c = false
tracked (some target) c = not (filtered c target)

-- The thread that a switch takes off its CPU, if it is the target's and does not stay runnable.
abbrev pub sleeper : Bool → Option ℕ → Option ℕ → Option ℕ
sleeper false pid state = none
sleeper true none state = none
sleeper true (some pid) none = none
sleeper true (some pid) (some state) = if state % 256 == 0 then none else some pid

abbrev pub falls_asleep : Option ℕ → StartInfo → Sleeping → Sleeping
falls_asleep none info sleeping = sleeping
falls_asleep (some t) info sleeping = with_thread t (some info) sleeping

abbrev pub wakes : Option ℕ → Sleeping → Sleeping
wakes none sleeping = sleeping
wakes (some t) sleeping = with_thread t none sleeping

abbrev pub span_since : ℕ → (now : ℕ) → Option StartInfo → List Bucket
span_since t now none = []
span_since t now (some info) =
    record { key = record { pid = t; stack_id = info.stack_id }; ns = now - info.ts_ns } ∷ []

abbrev pub span_of : Option ℕ → (now : ℕ) → Sleeping → List Bucket
span_of none now sleeping = []
span_of (some t) now sleeping = span_since t now (sleeping t)

abbrev pub next : Option ℕ → Probe → Sleeping → Sleeping
next target (sched_switch c) sleeping =
    falls_asleep (sleeper (tracked target c) (c.read_at 24) (c.read_at 32)) (info_of c) sleeping
next target (sched_wakeup c) sleeping = wakes (c.read_at 24) sleeping

abbrev pub ended : Probe → Sleeping → List Bucket
ended (sched_switch c) sleeping = []
ended (sched_wakeup c) sleeping = span_of (c.read_at 24) c.ktime_ns sleeping

-- The spans that end in a run.
abbrev pub spans : Option ℕ → List Probe → Sleeping → List Bucket
spans target [] sleeping = []
spans target (p ∷ ps) sleeping = ended p sleeping ++ spans target ps (next target p sleeping)

-- The threads that are asleep after a run.
abbrev pub asleep : Option ℕ → List Probe → Sleeping → Sleeping
asleep target [] sleeping = sleeping
asleep target (p ∷ ps) sleeping = asleep target ps (next target p sleeping)

abbrev pub same_key : BucketKey → BucketKey → Bool
same_key j k = j.pid == k.pid && j.stack_id == k.stack_id

-- The total of a key after spans are added to it.
abbrev pub totalled : Option ℕ → BucketKey → List Bucket → Option ℕ
totalled o k [] = o
totalled o k (b ∷ bs) = totalled (if same_key b.key k then some (new_total o b.ns) else o) k bs

abbrev pub is_ok : {A : Type 0} → Result A → Bool
is_ok (ok a) = true
is_ok (err e) = false

pub Result-is_ok : {A : Type 0} (r : Result A) → is_ok r ≡ true → (a : A) × (r ≡ ok a)
Result-is_ok (ok a) h = (a, refl)
Result-is_ok (err e) h = absurd (cc)

module _ {M : Type 0 → Type 0} (hash : HashMap M ℕ) where
  -- The map takes the entry of a thread that falls asleep.
  abbrev pub Takes : M StartInfo → Option ℕ → StartInfo → Type 0
  Takes m none info = Unit
  Takes m (some t) info = is_ok (hash.insert m t info) ≡ true

  pub insert-sleeping :
      (m : M StartInfo) (t : ℕ) (info : StartInfo) {m' : M StartInfo} (u : ℕ)
      → hash.insert m t info ≡ ok m'
      → hash.get m' u ≡ with_thread t (some info) (hash.get m) u
  insert-sleeping m t info u e = elim (ℕ_discrete u t) [
    | yes p ↦ ground (arith, hash.get-insert_self m t info e)
    | no p ↦ ground (arith, hash.get-insert_ne m t u info e p)
  ]

  pub remove-sleeping :
      (m : M StartInfo) (t u : ℕ) → hash.get (hash.remove m t) u ≡ with_thread t none (hash.get m) u
  remove-sleeping m t u = elim (ℕ_discrete u t) [
    | yes p ↦ ground (arith, hash.get-remove_self m t)
    | no p ↦ ground (arith, hash.get-remove_ne m t u p)
  ]

same_key-ne : (j k : BucketKey) → same_key j k ≡ false → k ≢ j
same_key-ne j k h = λ e. ground (arith, ap (λ x. x.pid) e, ap (λ x. x.stack_id) e)

pub same_key-eq : (j k : BucketKey) → same_key j k ≡ true → k ≡ j
same_key-eq j k h = ground arith

module _ {N : Type 0 → Type 0} (bucket : HashMap N BucketKey) where
  -- The map takes the new total of a span's key.
  abbrev pub Counts : N ℕ → List Bucket → Type 0
  Counts m [] = Unit
  Counts m (b ∷ bs) = is_ok (bucket.insert m b.key (new_total (bucket.get m b.key) b.ns)) ≡ true

  pub insert-totalled :
      (m : N ℕ) (b : Bucket) {m' : N ℕ} (k : BucketKey)
      → bucket.insert m b.key (new_total (bucket.get m b.key) b.ns) ≡ ok m'
      → bucket.get m' k ≡ totalled (bucket.get m k) k (b ∷ [])
  insert-totalled m b {m'} k e = elim (Bool-cases (same_key b.key k)) [
    | inl same ↦
        let eq : k ≡ b.key = same_key-eq b.key k same in
        rw (same, eq) (bucket.get-insert_self m b.key (new_total (bucket.get m b.key) b.ns) e)
    | inr ne ↦ rw ne (
        bucket.get-insert_ne m b.key k (new_total (bucket.get m b.key) b.ns) e
          (same_key-ne b.key k ne))
  ]

pub with_thread-none :
    (t u : ℕ) (sleeping : Sleeping) → sleeping t ≡ none → sleeping u ≡ with_thread t none sleeping u
with_thread-none t u sleeping e = elim (ℕ_discrete u t) [
  | yes p ↦ ground arith
  | no p ↦ ground arith
]

pub totalled-append :
    (o : Option ℕ) (k : BucketKey) (xs ys : List Bucket)
    → totalled o k (xs ++ ys) ≡ totalled (totalled o k xs) k ys
totalled-append o k [] ys = refl
totalled-append o k (b ∷ xs) ys =
    totalled-append (if same_key b.key k then some (new_total o b.ns) else o) k xs ys
