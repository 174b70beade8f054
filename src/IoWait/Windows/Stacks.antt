-- ===== src/IoWait/Windows/Stacks.antt =====
-- The table of stacks that `flush_window` of crates/tragach-iowait/src/main.rs keeps for a reason.
pub mod Entries
use mathlib.Core.Option.{get_or}
use tragach.IoWait.Classify.{Reason, classify}
use tragach.IoWait.Kallsyms.{Sym}
use tragach.IoWait.Windows.{Bucket, StackEntry, ReasonAgg, default, retain, frames_of, tag}
use tragach.Prelude.{
  ℕ, ◌+◌, ◌-◌, ◌^◌, ◌≡◌, min, Bool, true, false, not, ◌||◌, ◌&&◌, Option, none, some, List, [], ◌∷◌,
  ◌==◌, ltb, if◌then◌else◌,
}

abbrev pub table : Option ReasonAgg → List StackEntry
table o = (get_or o default).by_stack

-- The entry of a stack id.
abbrev pub find : ℕ → List StackEntry → Option StackEntry
find i [] = none
find i (e ∷ entries) = if i == e.stack_id then some e else find i entries

-- A stack id has one entry at most.
abbrev pub DistinctIds : List StackEntry → Type 0
DistinctIds [] = Unit
DistinctIds (e ∷ entries) = (find e.stack_id entries ≡ none) × DistinctIds entries

-- Without --exclude-idle every bucket counts, with it those below the threshold.
abbrev pub passes : (exclude_idle : Bool) → (threshold_ns : ℕ) → Bucket → Bool
passes exclude_idle threshold_ns b = not exclude_idle || ltb b.ns threshold_ns

abbrev pub kept : Bool → ℕ → List Bucket → List Bucket
kept exclude_idle threshold_ns snapshot =
    if exclude_idle then retain threshold_ns snapshot else snapshot

module _ (syms : List Sym) (stacks : ℕ → Option (List ℕ)) where
  -- A bucket is about a stack that has a reason.
  abbrev pub about : Reason → ℕ → Bucket → Bool
  about r i b =
      tag r == tag (classify (frames_of syms stacks b.key.stack_id)) && i == b.key.stack_id

  -- Of the buckets that pass a test: whether there is one of a stack and a reason, and their time.
  abbrev pub stack_seen : (Bucket → Bool) → Reason → ℕ → List Bucket → Bool
  stack_seen keeps r i [] = false
  stack_seen keeps r i (b ∷ snapshot) = (keeps b && about r i b) || stack_seen keeps r i snapshot

  abbrev pub stack_ns : (Bucket → Bool) → Reason → ℕ → List Bucket → ℕ
  stack_ns keeps r i [] = 0
  stack_ns keeps r i (b ∷ snapshot) =
      let rest = stack_ns keeps r i snapshot in if keeps b && about r i b then b.ns + rest else rest

  -- The entry of a stack with a time, which stops at 2 ^ 64 - 1, if it is there.
  abbrev pub entry_of : ℕ → Bool → ℕ → Option StackEntry
  entry_of i there ns =
      if there
      then some
          (record { stack_id = i; ns = min ns (2 ^ 64 - 1); frames = frames_of syms stacks i })
      else none

  -- The table of a reason has one entry for each stack of its buckets that pass the idle filter, and
  -- no other, with the frames of the stack and the time of these buckets, stopped at 2 ^ 64 - 1.
  abbrev pub IsTable : Bool → ℕ → List Bucket → Reason → List StackEntry → Type 0
  IsTable exclude_idle t snapshot r entries =
      DistinctIds entries
      × ((i : ℕ)
          → find i entries
            ≡ entry_of i (stack_seen (passes exclude_idle t) r i snapshot)
                (stack_ns (passes exclude_idle t) r i snapshot))
