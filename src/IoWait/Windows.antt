-- ===== src/IoWait/Windows.antt =====
-- One window of iowait, `flush_window` of crates/tragach-iowait/src/main.rs. The idle threshold in
-- nanoseconds is an argument, since the source computes it with floating-point numbers, and so are
-- the buckets that the map's iterator gave and the stack map. A hash map keyed by reasons is a
-- function, and one keyed by stack ids lists its entries in some order.
pub mod Totals
pub mod Stacks
pub mod Top
use mathlib.Core.Option.{get_or}
use tragach.IoWait.{BucketKey}
use tragach.IoWait.Classify.{Reason, block_io, futex, sched_delay, other, classify}
use tragach.IoWait.Kallsyms.{Sym, lookup}
use tragach.Kernel.{HashMap}
use tragach.Prelude.{
  ℕ, zero, suc, ◌+◌, ◌-◌, ◌/◌, ◌^◌, Bool, true, false, ◌||◌, Option, none, some, List, [], ◌∷◌,
  ◌++◌, map, length, take, ltb, leb, ◌==◌, if◌then◌else◌,
}

pub record Bucket : Type 0 where
  pub key : BucketKey
  pub ns : ℕ

pub record StackEntry : Type 0 where
  pub stack_id : ℕ
  pub ns : ℕ
  pub frames : List (List ℕ)

pub record ReasonAgg : Type 0 where
  pub total_ns : ℕ
  pub pids : List ℕ
  pub by_stack : List StackEntry

abbrev pub default : ReasonAgg
default = record { total_ns = 0; pids = []; by_stack = [] }

abbrev pub tag : Reason → ℕ
tag block_io = 0
tag futex = 1
tag sched_delay = 2
tag other = 3

-- `u64::saturating_add`
abbrev pub saturating_add : ℕ → ℕ → ℕ
saturating_add a b = if ltb (a + b) (2 ^ 64) then a + b else 2 ^ 64 - 1

-- `snapshot.retain(|(_, ns)| *ns < threshold_ns)`
unfoldable pub retain : ℕ → List Bucket → List Bucket
retain threshold_ns [] = []
retain threshold_ns (b ∷ snapshot) =
    let rest = retain threshold_ns snapshot in if ltb b.ns threshold_ns then b ∷ rest else rest

-- The frames of a bucket's stack, none for a negative stack id or a stack that is gone.
abbrev lookup_all : List Sym → Option (List ℕ) → List (List ℕ)
lookup_all syms none = []
lookup_all syms (some ips) = map (lookup syms) ips

unfoldable pub frames_of : List Sym → (ℕ → Option (List ℕ)) → ℕ → List (List ℕ)
unfolding lookup
frames_of syms stacks stack_id =
    if ltb stack_id (2 ^ 31) then lookup_all syms (stacks stack_id) else []

abbrev pub elem : ℕ → List ℕ → Bool
elem p [] = false
elem p (q ∷ pids) = p == q || elem p pids

-- `agg.pids.insert(key.pid)`
unfoldable pub insert_pid : ℕ → List ℕ → List ℕ
insert_pid p pids = if elem p pids then pids else p ∷ pids

-- `agg.by_stack.entry(key.stack_id).or_insert_with(|| (0, frames))`, and the addition to it.
unfoldable pub add_stack : ℕ → ℕ → List (List ℕ) → List StackEntry → List StackEntry
add_stack stack_id ns frames [] =
    record { stack_id = stack_id; ns = saturating_add 0 ns; frames = frames } ∷ []
add_stack stack_id ns frames (e ∷ entries) =
    let rest = add_stack stack_id ns frames entries in
    if e.stack_id == stack_id then record e { ns = saturating_add e.ns ns } ∷ entries else e ∷ rest

unfoldable pub add_bucket : Bucket → List (List ℕ) → ReasonAgg → ReasonAgg
unfolding insert_pid add_stack
add_bucket b frames agg = record {
  total_ns = saturating_add agg.total_ns b.ns;
  pids = insert_pid b.key.pid agg.pids;
  by_stack = add_stack b.key.stack_id b.ns frames agg.by_stack;
}

-- `by_reason.entry(reason).or_default()`, with the update of what it gives.
abbrev pub update_entry :
    (Reason → Option ReasonAgg) → Reason → (ReasonAgg → ReasonAgg) → Reason → Option ReasonAgg
update_entry by_reason reason f r =
    if tag r == tag reason then some (f (get_or (by_reason r) default)) else by_reason r

module _ (syms : List Sym) (stacks : ℕ → Option (List ℕ)) where
  -- The loop over the snapshot.
  unfoldable pub aggregate : (Reason → Option ReasonAgg) → List Bucket → Reason → Option ReasonAgg
  unfolding add_bucket frames_of classify
  aggregate by_reason [] = by_reason
  aggregate by_reason (b ∷ snapshot) =
      let frames = frames_of syms stacks b.key.stack_id in
      aggregate (update_entry by_reason (classify frames) (add_bucket b frames)) snapshot

-- The most expensive stacks first, `top.sort_by_key(..)` and `top.truncate(..)`.
unfoldable pub insert_sorted : StackEntry → List StackEntry → List StackEntry
insert_sorted e [] = e ∷ []
insert_sorted e (f ∷ entries) =
    let rest = insert_sorted e entries in if leb f.ns e.ns then e ∷ f ∷ entries else f ∷ rest

unfoldable pub sort : List StackEntry → List StackEntry
unfolding insert_sorted
sort [] = []
sort (e ∷ entries) = insert_sorted e (sort entries)

pub record JsonStack : Type 0 where
  pub ms : ℕ
  pub frames : List (List ℕ)

pub record JsonReason : Type 0 where
  pub total_ms : ℕ
  pub threads : ℕ
  pub top_stacks : List JsonStack

unfoldable pub json_reason : ℕ → ReasonAgg → JsonReason
unfolding sort
json_reason top_stacks agg = record {
  total_ms = agg.total_ns / 1000000;
  threads = length agg.pids;
  top_stacks =
      map (λ e. record { ms = e.ns / 1000000; frames = e.frames })
        (take top_stacks (sort agg.by_stack));
}

-- The record that is written, beside its wall-clock time.
pub record JsonWindow : Type 0 where
  pub window_ms : ℕ
  pub pid : ℕ
  pub excluded_idle_buckets : ℕ
  pub by_reason : Reason → Option JsonReason

abbrev pub json_entry : ℕ → Option ReasonAgg → Option JsonReason
json_entry top_stacks none = none
json_entry top_stacks (some agg) = some (json_reason top_stacks agg)

unfoldable pub flush_window :
    List Sym
    → (ℕ → Option (List ℕ))
    → (window_ms pid top_stacks : ℕ) → (exclude_idle : Bool) → (threshold_ns : ℕ) → List Bucket
    → JsonWindow
unfolding retain aggregate json_reason
flush_window syms stacks window_ms pid top_stacks exclude_idle threshold_ns snapshot =
    let kept = if exclude_idle then retain threshold_ns snapshot else snapshot in
    record {
      window_ms = window_ms;
      pid = pid;
      excluded_idle_buckets = length snapshot - length kept;
      by_reason = λ r. json_entry top_stacks (aggregate syms stacks (λ _. none) kept r);
    }
