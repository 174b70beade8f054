-- ===== src/SlowQuery/Dropped.antt =====
-- Records of the ring that are too short for an event, in `run_event_loop` of
-- crates/tragach-slowquery/src/main.rs.
use mathlib.Core.List.{append-nil}
use tragach.Event.{SlowQueryEvent}
use tragach.Human.{Floats}
use tragach.Prelude.{
  ℕ, ◌+◌, ◌≡◌, refl, ap, sym, ◌∙◌, Bool, true, false, Option, none, some, List, [], ◌∷◌, ◌++◌, map,
  All, Text, length, ltb, if◌then◌else◌, Bool-cases, inl, inr, arith,
}
use tragach.RingLoop.{Item, Event, ctrl_c, shut_down, wake_ups, concat}
use tragach.SlowQuery.Session.{
  as_nanos, jsons, plain, is_empty, started_session, with_json, run_event_loop, loop-plain,
}
use tragach.SlowQuery.Userspace
use tragach.SlowQuery.Userspace.{read_event, decode_event, small_id, skips}

-- The struct has 560 bytes.
abbrev pub is_short : List ℕ → Bool
is_short bytes = ltb (length bytes) 560

abbrev pub shorts : List Item → ℕ
shorts [] = 0
shorts (i ∷ items) = let rest = shorts items in if is_short i.bytes then 1 + rest else rest

abbrev pub long_ones : List Item → List Item
long_ones [] = []
long_ones (i ∷ items) = let rest = long_ones items in if is_short i.bytes then rest else i ∷ rest

decode_short : (bytes : List ℕ) → is_short bytes ≡ true → decode_event bytes ≡ none
unfolding decode_event
decode_short bytes h = rw h refl

decode_long :
    (bytes : List ℕ) → is_short bytes ≡ false → decode_event bytes ≡ some (read_event bytes)
unfolding decode_event
decode_long bytes h = rw h refl

module _ (from_utf8_lossy : Text → Text) (t : Option ℕ) where
  abbrev drain : List Item → Userspace.Session Text → Userspace.Session Text
  drain items = Userspace.drain from_utf8_lossy is_empty (as_nanos t) (map (λ i. i.bytes) items)

  -- The sessions have the same ids and lines, and have dropped so many.
  record Alike (s u : Userspace.Session Text) (d e : ℕ) : Type 0 where
    ids : s.ids ≡ u.ids
    written : s.written ≡ u.written
    dropped : s.dropped ≡ d
    other_dropped : u.dropped ≡ e

  on_event-Alike :
      (ev : SlowQueryEvent) (s u : Userspace.Session Text) (d e : ℕ)
      → Alike s u d e
      → Alike
          (Userspace.on_event from_utf8_lossy is_empty (as_nanos t) (some ev) s)
          (Userspace.on_event from_utf8_lossy is_empty (as_nanos t) (some ev) u)
          d
          e
  unfolding Userspace.on_event
  on_event-Alike ev s u d e h = elim (Bool-cases (skips from_utf8_lossy is_empty (as_nanos t) ev)) [
    | inl x ↦ rw x h
    | inr x ↦ rw x record {
      ids = ap (λ ids. (small_id ev.attachment_id ids).1) h.ids;
      written = rw (h.written, h.ids) refl;
      dropped = h.dropped;
      other_dropped = h.other_dropped;
    }
  ]

  none-Alike :
      (s u : Userspace.Session Text) (d e : ℕ)
      → Alike s u d e
      → Alike (Userspace.on_event from_utf8_lossy is_empty (as_nanos t) none s) u (d + 1) e
  unfolding Userspace.on_event
  none-Alike s u d e h = record {
    ids = h.ids;
    written = h.written;
    dropped = omega (arith, h.dropped);
    other_dropped = h.other_dropped;
  }

  drain-Alike :
      (items : List Item) (s u : Userspace.Session Text) (d e : ℕ)
      → Alike s u d e
      → Alike (drain items s) (drain (long_ones items) u) (d + shorts items) e
  unfolding Userspace.drain
  drain-Alike [] s u d e h = record {
    ids = h.ids;
    written = h.written;
    dropped = omega (arith, h.dropped);
    other_dropped = h.other_dropped;
  }
  drain-Alike (i ∷ items) s u d e h = elim (Bool-cases (is_short i.bytes)) [
    | inl x ↦
        let decoded = decode_short i.bytes x in
        let rest =
          drain-Alike items (Userspace.on_event from_utf8_lossy is_empty (as_nanos t) none s) u
            (d + 1) e (none-Alike s u d e h) in
        rw (Userspace.drain, decoded, x)
          record {
            ids = rest.ids;
            written = rest.written;
            dropped = omega (arith, rest.dropped);
            other_dropped = rest.other_dropped;
          }
    | inr x ↦
        let ev = read_event i.bytes in
        let decoded = decode_long i.bytes x in
        rw (Userspace.drain, decoded, x, decoded)
          (drain-Alike items (Userspace.on_event from_utf8_lossy is_empty (as_nanos t) (some ev) s)
            (Userspace.on_event from_utf8_lossy is_empty (as_nanos t) (some ev) u) d e
            (on_event-Alike ev s u d e h))
  ]

All-long_ones : (P : Item → Type 0) (items : List Item) → All P items → All P (long_ones items)
All-long_ones P [] h = tt
All-long_ones P (i ∷ items) h = elim (Bool-cases (is_short i.bytes)) [
  | inl x ↦ rw x (All-long_ones P items h.1)
  | inr x ↦ rw x (h.0, All-long_ones P items h.1)
]

-- Whatever records the ring gives, however they are spread over wake-ups, and as long as lines can be
-- written: with --json the loop drops the records of fewer than 560 bytes and no other, counts them,
-- gives the ids and writes the lines that it would without them, and goes on to Ctrl-C.
pub run_event_loop-dropped :
    (floats : Floats) (from_utf8_lossy : Text → Text) (t : Option ℕ) (batches : List (List Item))
    (later : List Event)
    → All (λ i. i.writable ≡ true) (concat batches)
    → let (s, ending) =
        run_event_loop floats from_utf8_lossy
          (with_json t)
          true
          (wake_ups batches ++ ctrl_c ∷ later) in
      let (s', ending') =
        run_event_loop floats from_utf8_lossy
          (with_json t)
          true
          (wake_ups (long_ones (concat batches) ∷ []) ++ ctrl_c ∷ []) in
      (s.ids ≡ s'.ids)
      × (jsons s.written ≡ jsons s'.written)
      × (s.dropped ≡ shorts (concat batches))
      × (s'.dropped ≡ 0)
      × (ending ≡ shut_down)
unfolding run_event_loop
run_event_loop-dropped floats f t batches later writable =
    let items = concat batches in
    let (same, ends) = loop-plain floats f t batches later started_session writable in
    let longs = long_ones items in
    let one : concat (longs ∷ []) ≡ longs = append-nil longs in
    let (same', ends') =
      loop-plain floats f t (longs ∷ []) [] started_session
        (rw one (All-long_ones (λ i. i.writable ≡ true) items writable)) in
    let alone = same' ∙ ap (λ l. drain f t l (plain started_session)) one in
    let start = plain started_session in
    let h =
      drain-Alike f t items start start 0 0
        record { ids = refl; written = refl; dropped = refl; other_dropped = refl } in
    (
      ap (λ u. u.ids) same ∙ h.ids ∙ sym (ap (λ u. u.ids) alone),
      ap (λ u. u.written) same ∙ h.written ∙ sym (ap (λ u. u.written) alone),
      ap (λ u. u.dropped) same ∙ omega (arith, h.dropped),
      ap (λ u. u.dropped) alone ∙ h.other_dropped,
      ends,
    )
