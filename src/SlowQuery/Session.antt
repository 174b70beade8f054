-- ===== src/SlowQuery/Session.antt =====
-- `run_event_loop` of crates/tragach-slowquery/src/main.rs, with both kinds of output. The decoding
-- of UTF-8 and the printing of floating-point numbers are parameters.
use mathlib.Core.List.{foldl}
use tragach.Event.Layout.{slow_query_bytes}
use tragach.Event.{SlowQueryEvent}
use tragach.Human.{Floats}
use tragach.Kernel.{HashMap, LruHashMap, RingBuf, IsContext}
use tragach.Prelude.{
  ℕ, ◌+◌, ◌%◌, ◌^◌, ◌≡◌, refl, ap, ◌∙◌, Bool, true, false, not, Option, none, some, List, [], ◌∷◌,
  ◌++◌, map, All, Text, not_empty, if◌then◌else◌, Bool-cases, inl, inr,
}
use tragach.RingLoop
use tragach.RingLoop.{
  Item, Event, ctrl_c, Ending, shut_down, not_registered, wake_ups, concat, loop-view,
}
use tragach.SlowQuery.Decoding.{drain-traced}
use tragach.SlowQuery.Human.{write_human}
use tragach.SlowQuery.Probes.{Probe, context, traced}
use tragach.SlowQuery.Userspace
use tragach.SlowQuery.Userspace.{Ids, JsonEvent, decode_event, json_event, small_id, skips}

-- What is written of an event; the JSON line has the time as its `ts`.
pub data Line : Type 0 where
  json : (ts : Text) → JsonEvent Text → Line
  human : Text → Line

pub record Session : Type 0 where
  pub ids : Ids
  pub dropped : ℕ
  pub written : List Line

abbrev pub is_empty : Text → Bool
is_empty sql = not (not_empty sql)

abbrev pub started_session : Session
started_session = record { ids = record { id_table = []; next_id = 0 }; dropped = 0; written = [] }

-- `--json` and the nanoseconds of `--threshold`.
pub record Args : Type 0 where
  pub json : Bool
  pub threshold : Option ℕ

-- `map(|d| d.as_nanos() as u64)`
abbrev pub as_nanos : Option ℕ → Option ℕ
as_nanos none = none
as_nanos (some d) = some (d % 2 ^ 64)

module _ (floats : Floats) (from_utf8_lossy : Text → Text) (args : Args) where
  unfoldable pub line : (now : Text) → SlowQueryEvent → Option ℕ → Line
  line now ev att =
      if args.json
      then json now (json_event from_utf8_lossy is_empty ev att)
      else human (write_human floats from_utf8_lossy now ev att)

  -- The small id is given before the line is written.
  unfoldable pub on_event : Item → SlowQueryEvent → Session → Session × Bool
  on_event i ev s =
      let (att, ids) = small_id ev.attachment_id s.ids in
      if skips from_utf8_lossy is_empty (as_nanos args.threshold) ev
      then (s, true)
      else if i.writable
      then (record s { ids = ids; written = s.written ++ line i.now ev att ∷ [] }, true)
      else (record s { ids = ids }, false)

  abbrev pub on_decoded : Item → Option SlowQueryEvent → Session → Session × Bool
  on_decoded i none s = (record s { dropped = s.dropped + 1 }, true)
  on_decoded i (some ev) s = on_event i ev s

  unfoldable pub on_item : Item → Session → Session × Bool
  on_item i = on_decoded i (decode_event i.bytes)

  -- `registered` is whether tokio takes the ring's file descriptor.
  unfoldable pub run_event_loop : (registered : Bool) → List Event → Session × Ending
  run_event_loop registered events =
      if registered
      then RingLoop.loop on_item started_session events
      else (started_session, not_registered)

abbrev pub jsons : List Line → List (JsonEvent Text)
jsons [] = []
jsons (json ts j ∷ lines) = j ∷ jsons lines
jsons (human text ∷ lines) = jsons lines

-- The session without the times and the human lines.
abbrev pub plain : Session → Userspace.Session Text
plain s = record { ids = s.ids; dropped = s.dropped; written = jsons s.written }

jsons-append :
    (lines : List Line) (ts : Text) (j : JsonEvent Text)
    → jsons (lines ++ json ts j ∷ []) ≡ jsons lines ++ j ∷ []
jsons-append [] ts j = refl
jsons-append (json ts' j' ∷ lines) ts j = ap (◌∷◌ j') (jsons-append lines ts j)
jsons-append (human text ∷ lines) ts j = jsons-append lines ts j

abbrev pub with_json : Option ℕ → Args
with_json threshold = record { json = true; threshold = threshold }

module _ (floats : Floats) (from_utf8_lossy : Text → Text) (t : Option ℕ) where
  abbrev Goes : Session × Bool → Userspace.Session Text → Type 0
  Goes o u = (o.1 ≡ true) × (plain o.0 ≡ u)

  event-plain :
      (i : Item) (ev : SlowQueryEvent) (s : Session)
      → i.writable ≡ true
      → Goes
          (on_event floats from_utf8_lossy (with_json t) i ev s)
          (Userspace.on_event from_utf8_lossy is_empty (as_nanos t) (some ev) (plain s))
  unfolding on_event Userspace.on_event line
  event-plain i ev s h = elim (Bool-cases (skips from_utf8_lossy is_empty (as_nanos t) ev)) [
    | inl e ↦ rw e (refl, refl)
    | inr e ↦
        rw (e, h)
          (
            refl,
            λ k. record {
              ids = (small_id ev.attachment_id s.ids).1;
              dropped = s.dropped;
              written =
                  jsons-append s.written i.now
                    (json_event from_utf8_lossy is_empty ev (small_id ev.attachment_id s.ids).0) k;
            },
          )
  ]

  pub decoded-plain :
      (i : Item) (o : Option SlowQueryEvent) (s : Session)
      → i.writable ≡ true
      → Goes
          (on_decoded floats from_utf8_lossy (with_json t) i o s)
          (Userspace.on_event from_utf8_lossy is_empty (as_nanos t) o (plain s))
  decoded-plain i none s h = unfold Userspace.on_event in (refl, refl)
  decoded-plain i (some ev) s h = event-plain i ev s h

  pub loop-plain :
      (batches : List (List Item)) (later : List Event) (s : Session)
      → All (λ i. i.writable ≡ true) (concat batches)
      → let (s', ending) =
          RingLoop.loop
            (on_item floats from_utf8_lossy (with_json t))
            s
            (wake_ups batches ++ ctrl_c ∷ later) in
        (plain s'
          ≡ Userspace.drain from_utf8_lossy is_empty
              (as_nanos t)
              (map (λ i. i.bytes) (concat batches))
              (plain s))
        × (ending ≡ shut_down)
  unfolding Userspace.drain on_item
  loop-plain =
      loop-view (on_item floats from_utf8_lossy (with_json t)) plain
        (Userspace.drain from_utf8_lossy is_empty (as_nanos t)) (λ u. refl)
        (λ i items s h.
          let (on, first) = decoded-plain i (decode_event i.bytes) s h in
          (on, ap (Userspace.drain from_utf8_lossy is_empty (as_nanos t) items) first))

-- Whatever the probes of a run emit, if the machine's words have their widths, and however the
-- records of the ring are spread over wake-ups: with --json and as long as lines can be written, the
-- loop handles the events in order, one after the other, with the threshold's nanoseconds cut to 64
-- bits, drops none, and ends at Ctrl-C.
pub run_event_loop-traced :
    (floats : Floats) (from_utf8_lossy : Text → Text) (t : Option ℕ) {M L R : Type 0 → Type 0}
    (hash : HashMap M ℕ) (lru : LruHashMap L ℕ) (ring : RingBuf R) (ps : List Probe)
    (batches : List (List Item)) (later : List Event)
    → All (λ p. IsContext (context p)) ps
    → map (λ i. i.bytes) (concat batches) ≡ map slow_query_bytes (traced hash lru ring ps)
    → All (λ i. i.writable ≡ true) (concat batches)
    → let (s, ending) =
        run_event_loop floats from_utf8_lossy
          (with_json t)
          true
          (wake_ups batches ++ ctrl_c ∷ later) in
      (plain s
        ≡ foldl
            (λ u e. Userspace.on_event from_utf8_lossy is_empty (as_nanos t) (some e) u)
            (plain started_session)
            (traced hash lru ring ps))
      × (s.dropped ≡ 0)
      × (ending ≡ shut_down)
unfolding run_event_loop
run_event_loop-traced floats f t hash lru ring ps batches later h e w =
    let (all, none_dropped) =
      drain-traced f is_empty hash lru ring ps (as_nanos t) (plain started_session) h in
    let (same, ends) = loop-plain floats f t batches later started_session w in
    let handled =
      same ∙ ap (λ l. Userspace.drain f is_empty (as_nanos t) l (plain started_session)) e in
    (handled ∙ all, ap (λ u. u.dropped) handled ∙ none_dropped, ends)
