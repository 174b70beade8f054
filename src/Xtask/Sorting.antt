-- ===== src/Xtask/Sorting.antt =====
-- The order of the symbol lines, xtask/src/main.rs: the sorted lines do not depend on the order in
-- which they come.
use mathlib.Core.List.Permᴰ
use mathlib.Core.List.{Permᴰ}
use tragach.Prelude.{
  All, All-map, true, false, List, [], ◌∷◌, ◌≡◌, refl, ap, ◌∙◌, Text, Bool-cases, inl, inr, arith,
}
use tragach.Xtask.{le_text, insert, sort}

le_text_total : (s t : Text) → le_text s t ≡ false → le_text t s ≡ true
unfolding le_text
le_text_total [] t h = cc
le_text_total (c ∷ s) [] h = refl
le_text_total (c ∷ s) (d ∷ t) h = ground (arith, le_text_total s t)

le_text_antisymm : (s t : Text) → le_text s t ≡ true → le_text t s ≡ true → s ≡ t
unfolding le_text
le_text_antisymm [] [] h k = refl
le_text_antisymm [] (d ∷ t) h k = cc
le_text_antisymm (c ∷ s) [] h k = cc
le_text_antisymm (c ∷ s) (d ∷ t) h k = ground (arith, le_text_antisymm s t)

pub le_text_trans : (s t u : Text) → le_text s t ≡ true → le_text t u ≡ true → le_text s u ≡ true
unfolding le_text
le_text_trans [] t u h k = refl
le_text_trans (c ∷ s) [] u h k = cc
le_text_trans (c ∷ s) (d ∷ t) [] h k = cc
le_text_trans (c ∷ s) (d ∷ t) (e ∷ u) h k = ground (arith, le_text_trans s t u)

insert_comm : (x y : Text) (l : List Text) → insert x (insert y l) ≡ insert y (insert x l)
unfolding insert
insert_comm x y [] = ground (arith, le_text_antisymm x y, le_text_total x y)
insert_comm x y (t ∷ l) = ground (
  arith,
  le_text_antisymm x y,
  le_text_total x y,
  le_text_trans y x t,
  le_text_trans x y t,
  insert_comm x y l,
)

-- Two rearrangements of the same lines are sorted into the same list.
pub sort-Permᴰ : {xs ys : List Text} → Permᴰ xs ys → sort xs ≡ sort ys
unfolding sort
sort-Permᴰ Permᴰ.nil = refl
sort-Permᴰ (Permᴰ.cons {a} {l₂ = ys} e p) =
    ap (insert a) (sort-Permᴰ p) ∙ ap (λ b. insert b (sort ys)) e
sort-Permᴰ (Permᴰ.swap {a} {b} {a' = a'} {l = l} e e') =
    insert_comm a b (sort l)
    ∙ ap (λ x. insert x (insert a (sort l))) e'
    ∙ ap (λ y. insert a' (insert y (sort l))) e
sort-Permᴰ (Permᴰ.trans p q) = sort-Permᴰ p ∙ sort-Permᴰ q

insert-Permᴰ : (s : Text) (l : List Text) → Permᴰ (insert s l) (s ∷ l)
unfolding insert
insert-Permᴰ s [] = Permᴰ.refl (s ∷ [])
insert-Permᴰ s (t ∷ l) = elim (Bool-cases (le_text s t)) [
  | inl e ↦ rw e (Permᴰ.refl (s ∷ t ∷ l))
  | inr e ↦ rw e (Permᴰ.trans (Permᴰ.cons refl (insert-Permᴰ s l)) (Permᴰ.swap refl refl))
]

-- Sorting loses no line and makes none.
pub sort_perm : (l : List Text) → Permᴰ (sort l) l
unfolding sort
sort_perm [] = Permᴰ.nil
sort_perm (s ∷ l) = Permᴰ.trans (insert-Permᴰ s (sort l)) (Permᴰ.cons refl (sort_perm l))

abbrev pub Sorted : List Text → Type 0
Sorted [] = Unit
Sorted (s ∷ l) = All (λ t. le_text s t ≡ true) l × Sorted l

pub All-insert : (P : Text → Type 0) (s : Text) (l : List Text) → P s → All P l → All P (insert s l)
unfolding insert
All-insert P s [] h hs = (h, tt)
All-insert P s (t ∷ l) h hs = elim (Bool-cases (le_text s t)) [
  | inl e ↦ rw e (h, hs)
  | inr e ↦ rw e (hs.0, All-insert P s l h hs.1)
]

pub All-sort : (P : Text → Type 0) (l : List Text) → All P l → All P (sort l)
unfolding sort
All-sort P [] h = tt
All-sort P (s ∷ l) h = All-insert P s (sort l) h.0 (All-sort P l h.1)

insert-Sorted : (s : Text) (l : List Text) → Sorted l → Sorted (insert s l)
unfolding insert
insert-Sorted s [] h = (tt, tt)
insert-Sorted s (t ∷ l) h = elim (Bool-cases (le_text s t)) [
  | inl e ↦ rw e (
    (
      e,
      All-map (λ u. le_text t u ≡ true) (λ u. le_text s u ≡ true) l (λ u k. le_text_trans s t u e k)
          h.0,
    ),
    h,
  )
  | inr e ↦
      rw e
        (All-insert (λ u. le_text t u ≡ true) s l (le_text_total s t e) h.0, insert-Sorted s l h.1)
]

pub sort-Sorted : (l : List Text) → Sorted (sort l)
unfolding sort
sort-Sorted [] = tt
sort-Sorted (s ∷ l) = insert-Sorted s (sort l) (sort-Sorted l)
