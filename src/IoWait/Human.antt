-- ===== src/IoWait/Human.antt =====
-- The windows that iowait prints for people, the second half of `flush_window`, `meaningful_frame`
-- and `fmt_ms` of crates/tragach-iowait/src/main.rs. The printing of the interval and of the idle
-- threshold, the floating-point printing of `fmt_ms` and the order in which a hash map lists its
-- reasons are arguments.
use tragach.IoWait.Classify.{Reason, block_io, futex, sched_delay, other}
use tragach.IoWait.Windows.{StackEntry, ReasonAgg, sort}
use tragach.Prelude.{
  All, ◌≡◌, refl, ap, ℕ, Bool, true, false, not, ◌&&◌, ◌||◌, Option, none, some, List, [], ◌∷◌,
  ◌++◌, Text, codes, show, leb, pad_left, pad_right, starts_with, eq_str, length, take,
  if◌then◌else◌,
}

-- A leaf that every sleeping thread has.
unfoldable pub is_scheduler : Text → Bool
is_scheduler s =
    (eq_str s (codes "__schedule")
      || (starts_with s (codes "schedule") && not (starts_with s (codes "schedule_"))))
    || eq_str s (codes "schedule")

abbrev pub first_or : Text → List Text → Text
first_or t [] = t
first_or t (f ∷ frames) = f

unfoldable pub first_meaningful : List Text → Option Text
first_meaningful [] = none
first_meaningful (f ∷ frames) =
    let rest = first_meaningful frames in if is_scheduler f then rest else some f

abbrev pub or_first : Option Text → List Text → Text
or_first (some f) frames = f
or_first none frames = first_or (codes "?") frames

unfoldable pub meaningful_frame : List Text → Text
unfolding first_meaningful
meaningful_frame frames = or_first (first_meaningful frames) frames

-- `Reason::label`
abbrev pub label : Reason → Text
label block_io = codes "block I/O wait"
label futex = codes "futex wait"
label sched_delay = codes "scheduler delay"
label other = codes "other"

pub record ReasonEntry : Type 0 where
  pub reason : Reason
  pub agg : ReasonAgg

abbrev pub entry_of : Reason → Option ReasonAgg → List ReasonEntry → List ReasonEntry
entry_of r none rest = rest
entry_of r (some agg) rest = record { reason = r; agg = agg } ∷ rest

-- `by_reason.iter()`, in the order in which the map lists its keys.
abbrev pub entries : (Reason → Option ReasonAgg) → List Reason → List ReasonEntry
entries by_reason [] = []
entries by_reason (r ∷ order) = entry_of r (by_reason r) (entries by_reason order)

-- `reasons.sort_by_key(|(_, a)| Reverse(a.total_ns))`
unfoldable pub insert_reason : ReasonEntry → List ReasonEntry → List ReasonEntry
insert_reason e [] = e ∷ []
insert_reason e (f ∷ reasons) =
    let rest = insert_reason e reasons in
    if leb f.agg.total_ns e.agg.total_ns then e ∷ f ∷ reasons else f ∷ rest

unfoldable pub sort_reasons : List ReasonEntry → List ReasonEntry
sort_reasons [] = []
sort_reasons (e ∷ reasons) = insert_reason e (sort_reasons reasons)

-- `max_by_key`, which gives the last of the greatest.
unfoldable pub max_entry : StackEntry → List StackEntry → StackEntry
max_entry best [] = best
max_entry best (e ∷ by_stack) = max_entry (if leb best.ns e.ns then e else best) by_stack

unfoldable pub top_frame : List StackEntry → Text
top_frame [] = codes "?"
top_frame (e ∷ by_stack) = meaningful_frame (max_entry e by_stack).frames

-- `join(" → ")`
abbrev pub join_frames : List Text → Text
join_frames [] = []
join_frames (f ∷ []) = f
join_frames (f ∷ frames) = f ++ (codes " → " ++ join_frames frames)

abbrev pub is_empty : {A : Type 0} → List A → Bool
is_empty [] = true
is_empty (x ∷ xs) = false

module _ (fmt_ms : (ns : ℕ) → Text) where
  abbrev pub stack_lines : List StackEntry → List Text
  stack_lines [] = []
  stack_lines (e ∷ stacks) =
      let rest = stack_lines stacks in
      if is_empty e.frames
      then rest
      else (codes "      "
          ++ (pad_left 32 7 (fmt_ms e.ns) ++ (codes "  " ++ join_frames (take 5 e.frames))))
        ∷ rest

  abbrev pub reason_lines : (top_stacks : ℕ) → List ReasonEntry → List Text
  reason_lines top_stacks [] = []
  reason_lines top_stacks (e ∷ reasons) =
      (codes "  "
        ++ (pad_right 22 (label e.reason)
            ++ (codes ": "
                ++ (pad_left 32 7 (fmt_ms e.agg.total_ns)
                    ++ (codes "  ("
                        ++ (pad_left 32 3 (show (length e.agg.pids))
                            ++ (codes " threads, top: "
                                ++ (top_frame e.agg.by_stack ++ codes ")"))))))))
      ∷ (stack_lines (take top_stacks (sort e.agg.by_stack)) ++ reason_lines top_stacks reasons)

  -- The lines of a window, of the drained buckets by reason.
  unfoldable pub write_human :
      (window idle_percent : Text)
      → (pid top_stacks : ℕ) → (exclude_idle : Bool) → (excluded_idle : ℕ) → List ReasonEntry
      → List Text
  write_human window idle_percent pid top_stacks exclude_idle excluded_idle reasons =
      let header =
        codes "=== tragach-iowait  "
        ++ (window ++ (codes " window  pid=" ++ (show pid ++ codes " ==="))) in
      let idle =
        codes "  --exclude-idle: dropped "
        ++ (show excluded_idle
            ++ (codes " bucket(s) above " ++ (idle_percent ++ codes "% of window"))) in
      let by_reason =
        if is_empty reasons
        then codes "  (no off-CPU activity in this window)" ∷ []
        else codes "Off-CPU time by reason:" ∷ reason_lines top_stacks (sort_reasons reasons) in
      header ∷ ((if exclude_idle then idle ∷ [] else []) ++ (by_reason ++ [] ∷ []))

first_meaningful-leaf :
    (pre : List Text) (f : Text) (post : List Text)
    → All (λ g. is_scheduler g ≡ true) pre
    → is_scheduler f ≡ false
    → first_meaningful (pre ++ f ∷ post) ≡ some f
unfolding first_meaningful
first_meaningful-leaf [] f post h e = rw e refl
first_meaningful-leaf (g ∷ pre) f post h e = rw (h.0) (first_meaningful-leaf pre f post h.1 e)

-- The frame that is shown of a stack is the nearest to the leaf that is no scheduler call.
pub meaningful_frame-leaf :
    (pre : List Text) (f : Text) (post : List Text)
    → All (λ g. is_scheduler g ≡ true) pre
    → is_scheduler f ≡ false
    → meaningful_frame (pre ++ f ∷ post) ≡ f
unfolding meaningful_frame
meaningful_frame-leaf pre f post h e =
    ap (λ o. or_first o (pre ++ f ∷ post)) (first_meaningful-leaf pre f post h e)
