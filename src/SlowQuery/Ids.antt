-- ===== src/SlowQuery/Ids.antt =====
-- The small attachment ids of the userspace loop, and its threshold.
use mathlib.Core.List.{foldl, append-nil}
use tragach.Event.{SlowQueryEvent}
use tragach.Prelude.{
  ℕ, ◌+◌, ◌-◌, ◌%◌, ◌^◌, ◌≤◌, ◌<◌, ◌≡◌, ◌≢◌, refl, ap, sym, ◌∙◌, Bool, true, false, Option, none,
  some, List, [], ◌∷◌, ◌++◌, map, ◌==◌, if◌then◌else◌, Option-cases, Bool-cases, inl, inr, arith,
  ltb, leb,
}
use tragach.SlowQuery.Userspace.{
  find, Ids, insert_new, small_id, JsonEvent, Session, json_event, skips, on_event,
}

-- The table holds the ids `next_id`, …, 1 in this order, each for another attachment.
abbrev Numbered : ℕ → List (ℕ × ℕ) → Type 0
Numbered n [] = n ≡ 0
Numbered n ((ptr, id) ∷ table) =
    (n ≡ id) × (0 < id) × (ptr ≢ 0) × (find ptr table ≡ none) × Numbered (id - 1) table

pub record IsIds (s : Ids) : Type 0 where
  pub numbered : Numbered s.next_id s.id_table
  pub fits : s.next_id < 2 ^ 32

Numbered-le :
    (n : ℕ) (table : List (ℕ × ℕ)) (ptr id : ℕ)
    → Numbered n table
    → find ptr table ≡ some id
    → (0 < id) × (id ≤ n)
unfolding find
Numbered-le n [] ptr id h e = cc
Numbered-le n ((p, i) ∷ table) ptr id h e = ground (arith, Numbered-le (i - 1) table ptr id)

Numbered-injective :
    (n : ℕ) (table : List (ℕ × ℕ)) (p q id : ℕ)
    → Numbered n table
    → find p table ≡ some id
    → find q table ≡ some id
    → p ≡ q
unfolding find
Numbered-injective n [] p q id h e e' = cc
Numbered-injective n ((r, i) ∷ table) p q id h e e' = ground (
  arith,
  Numbered-injective (i - 1) table p q id,
  Numbered-le (i - 1) table p id,
  Numbered-le (i - 1) table q id,
)

-- From a table of distinct attachments with the ids 1, 2, …, as long as there are ids left,
-- `small_id` gives no id to the null attachment and to any other the one that the table then has
-- for it, and leaves such a table.
pub small_id-IsIds :
    (ptr : ℕ) (s : Ids)
    → IsIds s
    → s.next_id + 1 < 2 ^ 32
    → let (id, s') = small_id ptr s in
      IsIds s' × (id ≡ (if ptr == 0 then none else find ptr s'.id_table))
unfolding small_id insert_new find
small_id-IsIds ptr s h room = elim (Bool-cases (ptr == 0)) [
  | inl z ↦ rw (z, small_id) (h, refl)
  | inr z ↦ elim (Option-cases (find ptr s.id_table)) [
    | inr (id, e) ↦ rw (z, small_id, e) (h, sym e)
    | inl e ↦
        let last : s.next_id + 1 - 1 ≡ s.next_id = omega arith in
        let next : (s.next_id + 1) % 2 ^ 32 ≡ s.next_id + 1 = omega arith in
        rw (z, small_id, e, next)
          (
            record {
              numbered = (refl, omega arith, ground arith, e, rw last h.numbered);
              fits = room;
            },
            ground arith,
          )
  ]
]

-- The id of an attachment is kept for ever: whatever attachment `small_id` is asked about, one that
-- has an id has the same id afterwards.
pub small_id-keeps :
    (ptr : ℕ) (s : Ids) (q i : ℕ)
    → find q s.id_table ≡ some i
    → find q (small_id ptr s).1.id_table ≡ some i
unfolding small_id insert_new find
small_id-keeps ptr s q i e = elim (Bool-cases (ptr == 0)) [
  | inl z ↦ rw (z, small_id) e
  | inr z ↦ elim (Option-cases (find ptr s.id_table)) [
    | inr (id, e') ↦ rw (z, small_id, e') e
    | inl e' ↦ ground arith
  ]
]

-- In a table of distinct attachments with the ids 1, 2, …, attachments with the same id are the
-- same, and no id is 0.
find-injective :
    (s : Ids) (p q i : ℕ)
    → IsIds s
    → find p s.id_table ≡ some i
    → find q s.id_table ≡ some i
    → (p ≡ q) × (0 < i)
find-injective s p q i h e e' = (
  Numbered-injective s.next_id s.id_table p q i h.numbered e e',
  (Numbered-le s.next_id s.id_table p i h.numbered e).0,
)

-- The events that the threshold lets through.
unfoldable pub passing : Option ℕ → List SlowQueryEvent → List SlowQueryEvent
passing none es = es
passing (some t) [] = []
passing (some t) (e ∷ es) =
    if leb t e.execute_ns then e ∷ passing (some t) es else passing (some t) es

abbrev pub blank : {Text : Type 0} → JsonEvent Text → JsonEvent Text
blank j = record j { att = none }

module _ {Text : Type 0} (from_utf8_lossy : List ℕ → Text) (is_empty : Text → Bool) where
  abbrev json : SlowQueryEvent → JsonEvent Text
  json e = json_event from_utf8_lossy is_empty e none

  written-line :
      (e : SlowQueryEvent) (att : Option ℕ) (w rest : List (JsonEvent Text))
      → map blank (w ++ json_event from_utf8_lossy is_empty e att ∷ []) ++ rest
        ≡ map blank w ++ json e ∷ rest
  unfolding json_event
  written-line e att [] rest = refl
  written-line e att (j ∷ w) rest = ap (◌∷◌ (blank j)) (written-line e att w rest)

  -- One line is written for each event that lasted at least the threshold, in order and but for the
  -- small id by `json_event` of the event alone; the others write nothing.
  pub foldl-on_event-written :
      (t : Option ℕ) (es : List SlowQueryEvent) (s : Session Text)
      → map blank (foldl (λ s e. on_event from_utf8_lossy is_empty t (some e) s) s es).written
        ≡ map blank s.written ++ map json (passing t es)
  unfolding on_event skips passing
  foldl-on_event-written none [] s = sym (append-nil _)
  foldl-on_event-written (some t) [] s = sym (append-nil _)
  foldl-on_event-written none (e ∷ es) s =
      foldl-on_event-written none es _ ∙ written-line e _ s.written (map json es)
  foldl-on_event-written (some t) (e ∷ es) s = elim (Bool-cases (leb t e.execute_ns)) [
    | inl z ↦
        let late : ltb e.execute_ns t ≡ false = ground arith in
        rw (late, foldl, on_event, skips, z)
          (foldl-on_event-written (some t) es _
            ∙ written-line e _ s.written (map json (passing (some t) es)))
    | inr z ↦
        let early : ltb e.execute_ns t ≡ true = ground arith in
        rw (early, foldl, on_event, skips, z) (foldl-on_event-written (some t) es s)
  ]
