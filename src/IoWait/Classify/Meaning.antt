-- ===== src/IoWait/Classify/Meaning.antt =====
-- What each reason of crates/tragach-iowait/src/classify.rs says of the frames of a stack.
use tragach.IoWait.Classify.{
  Reason, block_io, futex, sched_delay, other, Quiet, is_block_io, is_futex, is_schedule, classify,
  any_schedule, classify-leaf, classify-Quiet,
}
use tragach.Prelude.{
  ℕ, ◌≡◌, ◌∙◌, ◌↔◌, inl, inr, refl, subst, sym, ap, true, false, List, [], ◌∷◌, ◌++◌, All, arith,
  Bool-cases,
}

-- A frame that passes the test has only quiet frames between it and the leaf.
abbrev pub Leads : (List ℕ → Type 0) → List (List ℕ) → Type 0
Leads P frames =
    (pre : List (List ℕ)) × (f : List ℕ) × (post : List (List ℕ)) × (frames ≡ pre ++ f ∷ post)
    × All Quiet pre
    × P f

abbrev pub Means : List (List ℕ) → Reason → Type 0
Means frames block_io = Leads (λ f. is_block_io f ≡ true) frames
Means frames futex = Leads (λ f. (is_block_io f ≡ false) × (is_futex f ≡ true)) frames
Means frames sched_delay = All Quiet frames × (any_schedule frames ≡ true)
Means frames other = All Quiet frames × (any_schedule frames ≡ false)

Leads-behind :
    (P : List ℕ → Type 0) (g : List ℕ) (frames : List (List ℕ))
    → Quiet g
    → Leads P frames
    → Leads P (g ∷ frames)
Leads-behind P g frames q (pre, f, post, e, quiet, p) =
    (g ∷ pre, f, post, ap (λ fs. g ∷ fs) e, (q, quiet), p)

Means-behind :
    (f : List ℕ) (frames : List (List ℕ)) (r : Reason)
    → Quiet f
    → Means frames r
    → (r' : Reason) × Means (f ∷ frames) r'
Means-behind f frames block_io q h = (block_io, Leads-behind _ f frames q h)
Means-behind f frames futex q h = (futex, Leads-behind _ f frames q h)
Means-behind f frames sched_delay q h = (sched_delay, ((q, h.0), ground (arith, h.1)))
Means-behind f frames other q h = elim (Bool-cases (is_schedule f)) [
  | inl s ↦ (sched_delay, ((q, h.0), ground (arith, s)))
  | inr s ↦ (other, ((q, h.0), ground (arith, s, h.1)))
]

-- Every stack has one of the four meanings.
Means-cases : (frames : List (List ℕ)) → (r : Reason) × Means frames r
Means-cases [] = (other, (tt, refl))
Means-cases (f ∷ frames) = elim (Bool-cases (is_block_io f)) [
  | inl b ↦ (block_io, ([], f, frames, refl, tt, b))
  | inr b ↦ elim (Bool-cases (is_futex f)) [
    | inl x ↦ (futex, ([], f, frames, refl, tt, (b, x)))
    | inr x ↦ let (r, h) = Means-cases frames in Means-behind f frames r (b, x) h
  ]
]

Means-classify : (frames : List (List ℕ)) (r : Reason) → Means frames r → classify frames ≡ r
Means-classify frames block_io (pre, f, post, e, quiet, b) =
    rw (← e, b) at (classify-leaf pre f post quiet (rw b refl))
Means-classify frames futex (pre, f, post, e, quiet, (b, x)) =
    rw (← e, b) at (classify-leaf pre f post quiet (rw (b, x) refl))
Means-classify frames sched_delay h = rw h.1 at (classify-Quiet frames h.0)
Means-classify frames other h = rw h.1 at (classify-Quiet frames h.0)

-- A stack is classified as block I/O or as a futex exactly if the frame nearest the leaf that is of
-- either kind is of that kind, block I/O first, as a scheduler delay exactly if no frame is of either
-- kind and some frame is a schedule call, and as other exactly if no frame is any of these.
pub classify-Means : (frames : List (List ℕ)) (r : Reason) → (classify frames ≡ r) ↔ Means frames r
classify-Means frames r =
    let (r', h) = Means-cases frames in
    (λ e. subst (Means frames) (sym (Means-classify frames r' h) ∙ e) h, Means-classify frames r)
