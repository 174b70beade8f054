-- ===== src/Attach/Session.antt =====
-- `run_event_loop` of crates/tragach-attach/src/main.rs, with both kinds of output. The printing of
-- floating-point numbers is a parameter.
use tragach.Attach.Human.{write_human}
use tragach.Attach.Userspace
use tragach.Attach.Userspace.{JsonEvent, decode_event, json_event, skips, lines, drain-lines}
use tragach.Attach.WellFormed.{AllWritten, context, run-AllWritten}
use tragach.Attach.{Maps, Probe, run}
use tragach.Event.Layout.{attach_bytes}
use tragach.Event.{AttachEvent, closed, discriminant}
use tragach.Human.{Floats}
use tragach.Kernel.{LruHashMap, RingBuf, IsContext}
use tragach.Prelude.{
  ℕ, ◌+◌, ◌%◌, ◌^◌, ◌≡◌, refl, ap, ◌∙◌, Bool, true, false, ◌&&◌, Option, none, some, List, [], ◌∷◌,
  ◌++◌, map, All, Text, ◌==◌, if◌then◌else◌, Bool-cases, inl, inr,
}
use tragach.RingLoop
use tragach.RingLoop.{
  Item, Event, ctrl_c, Ending, shut_down, not_registered, wake_ups, concat, loop-view,
}

-- What is written of an event; the JSON line has the time as its `ts`.
pub data Line : Type 0 where
  json : (ts : Text) → JsonEvent → Line
  human : Text → Line

pub record Session : Type 0 where
  pub dropped : ℕ
  pub written : List Line

abbrev pub started_session : Session
started_session = record { dropped = 0; written = [] }

-- `--json` and the nanoseconds of `--min-duration`.
pub record Args : Type 0 where
  pub json : Bool
  pub min_duration : Option ℕ

-- `map(|d| d.as_nanos() as u64)`
abbrev pub as_nanos : Option ℕ → Option ℕ
as_nanos none = none
as_nanos (some d) = some (d % 2 ^ 64)

module _ (floats : Floats) (args : Args) where
  unfoldable pub line : (now : Text) → AttachEvent → Line
  line now ev = if args.json then json now (json_event ev) else human (write_human floats now ev)

  unfoldable pub on_event : Item → AttachEvent → Session → Session × Bool
  on_event i ev s =
      if ev.kind == discriminant closed && skips (as_nanos args.min_duration) ev
      then (s, true)
      else if i.writable
      then (record s { written = s.written ++ line i.now ev ∷ [] }, true)
      else (s, false)

  abbrev pub on_decoded : Item → Option AttachEvent → Session → Session × Bool
  on_decoded i none s = (record s { dropped = s.dropped + 1 }, true)
  on_decoded i (some ev) s = on_event i ev s

  unfoldable pub on_item : Item → Session → Session × Bool
  on_item i = on_decoded i (decode_event i.bytes)

  -- `registered` is whether tokio takes the ring's file descriptor.
  unfoldable pub run_event_loop : (registered : Bool) → List Event → Session × Ending
  run_event_loop registered events =
      if registered
      then RingLoop.loop on_item started_session events
      else (started_session, not_registered)

abbrev pub jsons : List Line → List JsonEvent
jsons [] = []
jsons (json ts j ∷ written) = j ∷ jsons written
jsons (human text ∷ written) = jsons written

-- The session without the times and the human lines.
abbrev pub plain : Session → Userspace.Session
plain s = record { dropped = s.dropped; written = jsons s.written }

jsons-append :
    (written : List Line) (ts : Text) (j : JsonEvent)
    → jsons (written ++ json ts j ∷ []) ≡ jsons written ++ j ∷ []
jsons-append [] ts j = refl
jsons-append (json ts' j' ∷ written) ts j = ap (◌∷◌ j') (jsons-append written ts j)
jsons-append (human text ∷ written) ts j = jsons-append written ts j

abbrev pub with_json : Option ℕ → Args
with_json min_duration = record { json = true; min_duration = min_duration }

module _ (floats : Floats) (t : Option ℕ) where
  abbrev Goes : Session × Bool → Userspace.Session → Type 0
  Goes o u = (o.1 ≡ true) × (plain o.0 ≡ u)

  event-plain :
      (i : Item) (ev : AttachEvent) (s : Session)
      → i.writable ≡ true
      → Goes
          (on_event floats (with_json t) i ev s)
          (Userspace.on_event (as_nanos t) (some ev) (plain s))
  unfolding on_event Userspace.on_event line
  event-plain i ev s h =
      elim (Bool-cases (ev.kind == discriminant closed && skips (as_nanos t) ev)) [
        | inl e ↦ rw e (refl, refl)
        | inr e ↦
            rw (e, h)
              (
                refl,
                λ k. record {
                  dropped = s.dropped;
                  written = jsons-append s.written i.now (json_event ev) k;
                },
              )
      ]

  pub decoded-plain :
      (i : Item) (o : Option AttachEvent) (s : Session)
      → i.writable ≡ true
      → Goes (on_decoded floats (with_json t) i o s) (Userspace.on_event (as_nanos t) o (plain s))
  decoded-plain i none s h = unfold Userspace.on_event in (refl, refl)
  decoded-plain i (some ev) s h = event-plain i ev s h

  loop-plain :
      (batches : List (List Item)) (later : List Event) (s : Session)
      → All (λ i. i.writable ≡ true) (concat batches)
      → let (s', ending) =
          RingLoop.loop (on_item floats (with_json t)) s (wake_ups batches ++ ctrl_c ∷ later) in
        (plain s' ≡ Userspace.drain (as_nanos t) (map (λ i. i.bytes) (concat batches)) (plain s))
        × (ending ≡ shut_down)
  unfolding Userspace.drain on_item
  loop-plain =
      loop-view (on_item floats (with_json t)) plain (Userspace.drain (as_nanos t)) (λ u. refl)
        (λ i items s h.
          let (on, first) = decoded-plain i (decode_event i.bytes) s h in
          (on, ap (Userspace.drain (as_nanos t) items) first))

-- Whatever the probes of a run emit into an empty ring, if the machine's words have their widths,
-- and however the records are spread over wake-ups: with --json and --min-duration, and as long as
-- lines can be written, the loop writes a line for each `Opened` event and for each `Closed` event
-- that lived at least as many nanoseconds, cut to 64 bits, in order, and ends at Ctrl-C.
pub run_event_loop-lines :
    (floats : Floats) (t : ℕ) {L R : Type 0 → Type 0} ⦃lru : LruHashMap L ℕ⦄ ⦃ring : RingBuf R⦄
    (ps : List Probe) (maps : Maps L R) (batches : List (List Item)) (later : List Event)
    → All (λ p. IsContext (context p)) ps
    → ring.records maps.events ≡ []
    → map (λ i. i.bytes) (concat batches) ≡ map attach_bytes (ring.records (run ps maps).events)
    → All (λ i. i.writable ≡ true) (concat batches)
    → let (s, ending) =
        run_event_loop floats (with_json (some t)) true (wake_ups batches ++ ctrl_c ∷ later) in
      (jsons s.written ≡ lines (t % 2 ^ 64) (ring.records (run ps maps).events))
      × (ending ≡ shut_down)
unfolding run_event_loop
run_event_loop-lines floats t ⦃lru⦄ ⦃ring⦄ ps maps batches later k none_yet e w =
    let fits : AllWritten maps = rw none_yet tt in
    let events = ring.records (run ps maps).events in
    let (same, ends) = loop-plain floats (some t) batches later started_session w in
    (
      ap (λ u. u.written)
            (same ∙ ap (λ l. Userspace.drain (some (t % 2 ^ 64)) l (plain started_session)) e)
          ∙ drain-lines (t % 2 ^ 64) events (plain started_session) (run-AllWritten ps maps k fits),
      ends,
    )
