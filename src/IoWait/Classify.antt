-- ===== src/IoWait/Classify.antt =====
-- The reason of a stack, crates/tragach-iowait/src/classify.rs. A name is the list of its bytes.
pub mod Meaning
use tragach.Prelude.{
  starts_with, eq_str, ℕ, ◌≡◌, ◌∙◌, refl, Bool, true, false, ◌||◌, List, [], ◌∷◌, ◌++◌, All,
  if◌then◌else◌, arith,
}

pub data Reason : Type 0 where
  block_io : Reason
  futex : Reason
  sched_delay : Reason
  other : Reason

-- The names that are searched for.
-- "blk_"
abbrev blk_name : List ℕ
blk_name = 98 ∷ 108 ∷ 107 ∷ 95 ∷ []

-- "bio_"
abbrev bio_name : List ℕ
bio_name = 98 ∷ 105 ∷ 111 ∷ 95 ∷ []

-- "submit_bio"
abbrev submit_bio_name : List ℕ
submit_bio_name = 115 ∷ 117 ∷ 98 ∷ 109 ∷ 105 ∷ 116 ∷ 95 ∷ 98 ∷ 105 ∷ 111 ∷ []

-- "io_schedule"
abbrev io_schedule_name : List ℕ
io_schedule_name = 105 ∷ 111 ∷ 95 ∷ 115 ∷ 99 ∷ 104 ∷ 101 ∷ 100 ∷ 117 ∷ 108 ∷ 101 ∷ []

-- "__io_schedule"
abbrev under_io_schedule_name : List ℕ
under_io_schedule_name =
    95 ∷ 95 ∷ 105 ∷ 111 ∷ 95 ∷ 115 ∷ 99 ∷ 104 ∷ 101 ∷ 100 ∷ 117 ∷ 108 ∷ 101 ∷ []

-- "wait_on_buffer"
abbrev wait_on_buffer_name : List ℕ
wait_on_buffer_name =
    119 ∷ 97 ∷ 105 ∷ 116 ∷ 95 ∷ 111 ∷ 110 ∷ 95 ∷ 98 ∷ 117 ∷ 102 ∷ 102 ∷ 101 ∷ 114 ∷ []

-- "futex_"
abbrev futex_name : List ℕ
futex_name = 102 ∷ 117 ∷ 116 ∷ 101 ∷ 120 ∷ 95 ∷ []

-- "do_futex"
abbrev do_futex_name : List ℕ
do_futex_name = 100 ∷ 111 ∷ 95 ∷ 102 ∷ 117 ∷ 116 ∷ 101 ∷ 120 ∷ []

-- "__futex"
abbrev under_futex_name : List ℕ
under_futex_name = 95 ∷ 95 ∷ 102 ∷ 117 ∷ 116 ∷ 101 ∷ 120 ∷ []

-- "schedule"
abbrev schedule_name : List ℕ
schedule_name = 115 ∷ 99 ∷ 104 ∷ 101 ∷ 100 ∷ 117 ∷ 108 ∷ 101 ∷ []

-- "__schedule"
abbrev under_schedule_name : List ℕ
under_schedule_name = 95 ∷ 95 ∷ 115 ∷ 99 ∷ 104 ∷ 101 ∷ 100 ∷ 117 ∷ 108 ∷ 101 ∷ []

unfoldable pub is_block_io : List ℕ → Bool
is_block_io name =
    starts_with name blk_name
    || starts_with name bio_name
    || starts_with name submit_bio_name
    || starts_with name io_schedule_name
    || starts_with name under_io_schedule_name
    || starts_with name wait_on_buffer_name

unfoldable pub is_futex : List ℕ → Bool
is_futex name =
    starts_with name futex_name
    || starts_with name do_futex_name
    || starts_with name under_futex_name

-- `f.starts_with("schedule") || f == "__schedule"`
unfoldable pub is_schedule : List ℕ → Bool
is_schedule f = starts_with f schedule_name || eq_str f under_schedule_name

-- The second loop of `classify`.
unfoldable pub find_schedule : List (List ℕ) → Reason
find_schedule [] = other
find_schedule (f ∷ frames) = if is_schedule f then sched_delay else find_schedule frames

-- The first loop of `classify`; the second one starts again from the first frame.
unfoldable pub scan : List (List ℕ) → List (List ℕ) → Reason
unfolding find_schedule
scan all [] = find_schedule all
scan all (f ∷ frames) =
    if is_block_io f then block_io else if is_futex f then futex else scan all frames

unfoldable pub classify : List (List ℕ) → Reason
unfolding scan
classify frames = scan frames frames

-- A frame that neither test of the first loop knows.
abbrev pub Quiet : List ℕ → Type 0
Quiet f = (is_block_io f ≡ false) × (is_futex f ≡ false)

abbrev pub any_schedule : List (List ℕ) → Bool
any_schedule [] = false
any_schedule (f ∷ frames) = is_schedule f || any_schedule frames

scan-leaf :
    (all pre : List (List ℕ)) (f : List ℕ) (post : List (List ℕ))
    → All Quiet pre
    → (is_block_io f || is_futex f) ≡ true
    → scan all (pre ++ f ∷ post) ≡ (if is_block_io f then block_io else futex)
unfolding scan
scan-leaf all [] f post quiet e = ground arith
scan-leaf all (g ∷ pre) f post quiet e = ground (arith, scan-leaf all pre f post quiet.1 e)

scan-Quiet : (all frames : List (List ℕ)) → All Quiet frames → scan all frames ≡ find_schedule all
unfolding scan
scan-Quiet all [] quiet = refl
scan-Quiet all (f ∷ frames) quiet = ground (arith, scan-Quiet all frames quiet.1)

find_schedule-any :
    (frames : List (List ℕ))
    → find_schedule frames ≡ (if any_schedule frames then sched_delay else other)
unfolding find_schedule
find_schedule-any [] = refl
find_schedule-any (f ∷ frames) = ground (arith, find_schedule-any frames)

-- The frame nearest the leaf that is a block-I/O or futex frame decides the reason, whatever the
-- frames behind it are.
pub classify-leaf :
    (pre : List (List ℕ)) (f : List ℕ) (post : List (List ℕ))
    → All Quiet pre
    → (is_block_io f || is_futex f) ≡ true
    → classify (pre ++ f ∷ post) ≡ (if is_block_io f then block_io else futex)
unfolding classify
classify-leaf pre f post quiet e = scan-leaf (pre ++ f ∷ post) pre f post quiet e

-- Without such a frame the reason is a scheduler delay if any frame is a schedule call, and `other`
-- if none is.
pub classify-Quiet :
    (frames : List (List ℕ))
    → All Quiet frames
    → classify frames ≡ (if any_schedule frames then sched_delay else other)
unfolding classify
classify-Quiet frames quiet = scan-Quiet frames frames quiet ∙ find_schedule-any frames
