-- ===== src/Attach/Userspace.antt =====
-- The userspace half of attach, crates/tragach-attach/src/main.rs: records are decoded, filtered by
-- `--min-duration` and turned into output records.
use mathlib.Core.List.{append-nil, append_assoc}
use tragach.Event.Layout.{le_bytes, read_word, attach_bytes, size_of_attach_event, word64, word32}
use tragach.Event.{AttachEvent, IsAttachEvent, opened, closed, discriminant}
use tragach.Prelude.{
  ℕ, ◌+◌, ◌/◌, ◌≤◌, ◌≡◌, refl, ap, sym, ◌∙◌, Bool, false, ◌&&◌, Option, none, some, List, [], ◌∷◌,
  ◌++◌, map, length, length-append, All, ltb, leb, not-ltb, ◌==◌, if◌then◌else◌, Bool-cases, inl,
  inr, arith,
}

-- `read_unaligned` at the type `AttachEvent`.
unfoldable pub read_event : List ℕ → AttachEvent
read_event bytes = record {
  ts_ns = read_word 8 0 bytes;
  duration_ns = read_word 8 8 bytes;
  attachment_ptr = read_word 8 16 bytes;
  pid = read_word 4 24 bytes;
  tid = read_word 4 28 bytes;
  kind = read_word 4 32 bytes;
  pad = read_word 4 36 bytes;
}

-- `Err(())` is none.
unfoldable pub decode_event : List ℕ → Option AttachEvent
decode_event bytes =
    if ltb (length bytes) size_of_attach_event then none else some (read_event bytes)

-- The string that `event` holds.
pub data EventName : Type 0 where
  named_opened named_closed : EventName

-- `JsonEvent` without its wall-clock time; `att_ptr` is the number that is printed in hexadecimal.
pub record JsonEvent : Type 0 where
  pub event : EventName
  pub att_ptr : ℕ
  pub duration_us : Option ℕ
  pub pid : ℕ
  pub tid : ℕ

-- `write_json`, as the value that it serialises.
unfoldable pub json_event : AttachEvent → JsonEvent
json_event ev = record {
  event = if ev.kind == discriminant opened then named_opened else named_closed;
  att_ptr = ev.attachment_ptr;
  duration_us = if ev.kind == discriminant opened then none else some (ev.duration_ns / 1000);
  pid = ev.pid;
  tid = ev.tid;
}

pub record Session : Type 0 where
  pub dropped : ℕ
  pub written : List JsonEvent

-- `if let Some(t) = min_duration_ns { if ev.duration_ns < t { continue; } }`
unfoldable pub skips : Option ℕ → AttachEvent → Bool
skips none ev = false
skips (some t) ev = ltb ev.duration_ns t

-- The body of the loop over the ring buffer for one record, with `--json`.
unfoldable pub on_event : Option ℕ → Option AttachEvent → Session → Session
unfolding skips
on_event min_duration_ns none s = record s { dropped = s.dropped + 1 }
on_event min_duration_ns (some ev) s =
    if ev.kind == discriminant closed && skips min_duration_ns ev
    then s
    else record s { written = s.written ++ json_event ev ∷ [] }

-- `while let Some(item) = ring.next()`.
unfoldable pub drain : Option ℕ → List (List ℕ) → Session → Session
drain min_duration_ns [] s = s
drain min_duration_ns (bytes ∷ items) s =
    drain min_duration_ns items (on_event min_duration_ns (decode_event bytes) s)

read_event-attach_bytes :
    (e : AttachEvent) (rest : List ℕ) → IsAttachEvent e → read_event (attach_bytes e ++ rest) ≡ e
unfolding read_event attach_bytes le_bytes read_word
read_event-attach_bytes e rest h = λ i. record {
  ts_ns = word64 e.ts_ns h.ts_ns i;
  duration_ns = word64 e.duration_ns h.duration_ns i;
  attachment_ptr = word64 e.attachment_ptr h.attachment_ptr i;
  pid = word32 e.pid h.pid i;
  tid = word32 e.tid h.tid i;
  kind = word32 e.kind h.kind i;
  pad = word32 e.pad h.pad i;
}

length-attach_bytes : (e : AttachEvent) → length (attach_bytes e) ≡ 40
unfolding attach_bytes le_bytes
length-attach_bytes e = refl

-- What the layout writes of an event whose fields fit the decoder reads, whatever bytes follow it
-- in the record.
pub decode_event-attach_bytes :
    (e : AttachEvent) (rest : List ℕ)
    → IsAttachEvent e
    → decode_event (attach_bytes e ++ rest) ≡ some e
unfolding decode_event
decode_event-attach_bytes e rest h =
    let long : 40 ≤ length (attach_bytes e ++ rest) =
      omega (arith, length-append (attach_bytes e) rest, length-attach_bytes e) in
    rw (not-ltb _ _ long, read_event-attach_bytes e rest h)

-- The events that are shown: every `Opened` one, and each other that lived long enough.
abbrev pub lines : ℕ → List AttachEvent → List JsonEvent
lines t [] = []
lines t (e ∷ es) =
    if e.kind == 0
    then record {
      event = named_opened;
      att_ptr = e.attachment_ptr;
      duration_us = none;
      pid = e.pid;
      tid = e.tid;
    }
      ∷ lines t es
    else (if leb t e.duration_ns
        then record {
          event = named_closed;
          att_ptr = e.attachment_ptr;
          duration_us = some (e.duration_ns / 1000);
          pid = e.pid;
          tid = e.tid;
        }
          ∷ lines t es
        else lines t es)

step-lines :
    (t : ℕ) (e : AttachEvent) (s : Session) (rest : List JsonEvent)
    → e.kind ≤ 1
    → (on_event (some t) (some e) s).written ++ rest
      ≡ s.written
        ++ (if e.kind == 0
            then json_event e ∷ rest
            else (if leb t e.duration_ns then json_event e ∷ rest else rest))
unfolding on_event
step-lines t e s rest h = ground (arith, append_assoc s.written (json_event e ∷ []) rest)

json-lines :
    (t : ℕ) (e : AttachEvent) (es : List AttachEvent)
    → (if e.kind == 0
        then json_event e ∷ lines t es
        else (if leb t e.duration_ns then json_event e ∷ lines t es else lines t es))
      ≡ lines t (e ∷ es)
unfolding json_event
json-lines t e es = elim (Bool-cases (e.kind == 0)) [ inl z ↦ rw z | inr z ↦ rw z ]

-- Given records of events whose fields fit, with a known kind, and `--min-duration`, userspace
-- decodes every one and writes a line for each `Opened` event and for each `Closed` event that
-- lived at least as long, in order; a line has the lifetime in microseconds exactly if the event is
-- a `Closed` one.
pub drain-lines :
    (t : ℕ) (es : List AttachEvent) (s : Session)
    → All (λ e. IsAttachEvent e × (e.kind ≤ 1)) es
    → (drain (some t) (map attach_bytes es) s).written ≡ s.written ++ lines t es
unfolding drain
drain-lines t [] s h = sym (append-nil s.written)
drain-lines t (e ∷ es) s h =
    let decoded : decode_event (attach_bytes e) ≡ some e =
      ap decode_event (sym (append-nil (attach_bytes e))) ∙ decode_event-attach_bytes e [] h.0.0 in
    let next = on_event (some t) (some e) s in
    rw (decoded, drain)
      (drain-lines t es next h.1
        ∙ (step-lines t e s (lines t es) h.0.1 ∙ ap (◌++◌ s.written) (json-lines t e es)))
