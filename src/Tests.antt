-- ===== src/Tests.antt =====
-- The theorems applied to small runs of the programs, on bounded maps and rings.
pub mod Slow
pub mod Sessions
pub mod Others
pub mod Starts
pub mod Windows
pub mod Waits
pub mod Mains
pub mod Loops
pub mod Lines
pub mod Files
use tragach.Kernel.{ProbeContext}
use tragach.Prelude.{ℕ, some, true, List, [], ◌∷◌}

-- The text written over the front of a buffer.
abbrev pub overlay : List ℕ → List ℕ → List ℕ
overlay [] d = d
overlay (b ∷ t) [] = []
overlay (b ∷ t) (x ∷ d) = b ∷ overlay t d

-- An event on process 7 and thread 5 whose arguments are all `a`, and whose memory holds "SEL".
abbrev pub context_of : (a ret ktime_ns : ℕ) → ProbeContext
context_of a r t = record {
  arg = λ i. some a;
  ret = some r;
  ktime_ns = t;
  pid_tgid = 30064771077;
  read_user_str = λ p d. (some (83 ∷ 69 ∷ 76 ∷ []), overlay (83 ∷ 69 ∷ 76 ∷ []) d);
  scratch = true;
}
