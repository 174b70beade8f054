-- ===== src/IoWait/Windows/Top.antt =====
-- The stacks that a window of crates/tragach-iowait/src/main.rs shows for a reason.
use tragach.IoWait.Windows.{StackEntry, JsonReason, JsonStack}
use tragach.Prelude.{
  ℕ, ◌≤◌, ◌≡◌, Option, none, some, map, min, length, ◌/◌, ◌++◌, List, [], ◌∷◌, All,
}

-- The most expensive entries come first.
abbrev pub Descending : List StackEntry → Type 0
Descending [] = Unit
Descending (e ∷ entries) = All (λ f. f.ns ≤ e.ns) entries × Descending entries

abbrev pub stacks_of : Option JsonReason → List JsonStack
stacks_of none = []
stacks_of (some j) = j.top_stacks

abbrev pub json_stack : StackEntry → JsonStack
json_stack e = record { ms = e.ns / 1000000; frames = e.frames }

-- The listed stacks are the first `n` entries of a table, or all, in descending order of their time,
-- and no entry that is left out took longer than a listed one.
abbrev pub ListsTop : (n : ℕ) → (List StackEntry → Type 0) → List JsonStack → Type 0
ListsTop n P listed =
    (shown : List StackEntry) × (rest : List StackEntry) × (listed ≡ map json_stack shown)
    × (length shown ≡ min n (length (shown ++ rest)))
    × Descending shown
    × All (λ e. All (λ f. f.ns ≤ e.ns) rest) shown
    × P (shown ++ rest)
