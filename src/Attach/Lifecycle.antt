-- ===== src/Attach/Lifecycle.antt =====
-- The life of an attachment in the attach BPF program.
use tragach.Attach.{
  LiveAttachment, Maps, slot, live_at, emit, try_attach_ctor_entry, try_release_attachment_entry,
  Probe, attach_ctor_entry, release_attachment_entry, fire, run,
}
use tragach.Event.{AttachEvent, opened, closed}
use tragach.Kernel.{LruHashMap, RingBuf, ProbeContext}
use tragach.Prelude.{
  some_injective, ℕ, ◌^◌, ◌/◌, ◌%◌, ◌-◌, ◌≡◌, ◌≢◌, refl, ◌∙◌, sym, Option, none, some, List, [],
  ◌∷◌, ◌++◌, ok, All, Option-cases, Result-cases, ap, inl, inr, if◌then◌else◌, ==-of_ne, arith,
}

-- The attachment that a probe is about.
abbrev pub about : Probe → Option ℕ
about (attach_ctor_entry c) = c.arg 0
about (release_attachment_entry c) = c.arg 1

-- A `Closed` event, field by field.
abbrev pub closed_event : ProbeContext → ℕ → ℕ → AttachEvent
closed_event c ns ptr = record {
  ts_ns = c.ktime_ns;
  duration_ns = ns;
  attachment_ptr = ptr;
  pid = c.pid_tgid / 2 ^ 32;
  tid = c.pid_tgid % 2 ^ 32;
  kind = 1;
  pad = 0;
}

module _ {L R : Type 0 → Type 0} ⦃lru : LruHashMap L ℕ⦄ ⦃ring : RingBuf R⦄ where
  -- The ring after an attempt to emit an event: without room it is dropped.
  abbrev pub appended : Maps L R → AttachEvent → List AttachEvent
  appended s e =
      if ring.reserve s.events then ring.records s.events ++ e ∷ [] else ring.records s.events

  -- The ring after a release, for the entry that the release finds.
  abbrev pub closing :
      Maps L R → (LiveAttachment → AttachEvent) → Option LiveAttachment → List AttachEvent
  closing s e none = ring.records s.events
  closing s e (some l) = appended s (e l)

  pub emit_lem :
      (e : AttachEvent) (s : Maps L R)
      → (ring.records (emit e s).1.events ≡ appended s e) × ((emit e s).1.live ≡ s.live)
  unfolding emit
  emit_lem e s = ground (arith, ring.records-submit s.events e)

  -- The constructor's probe of a nonzero attachment records it, if the insertion succeeds, and
  -- emits one `Opened` event, if there is room.
  pub ctor-opens :
      (c : ProbeContext) (ptr : ℕ) (s : Maps L R) {m : L LiveAttachment}
      → c.arg 0 ≡ some ptr
      → ptr ≢ 0
      → lru.insert s.live ptr (live_at c) ≡ ok m
      → let s' = fire (attach_ctor_entry c) s in
        (ring.records s'.events ≡ appended s (slot c 0 ptr opened))
        × (lru.get s'.live ptr ≡ some (live_at c))
  unfolding fire try_attach_ctor_entry
  ctor-opens c ptr s {m} e pos i =
      let s' = record s { live = m } in
      rw (e, fire, ==-of_ne ptr 0 pos, i)
        (
          (emit_lem (slot c 0 ptr opened) s').0,
          rw (emit_lem (slot c 0 ptr opened) s').1 (lru.get-insert_self s.live ptr _ i),
        )

  release_known :
      (c : ProbeContext) (ptr : ℕ) (l : LiveAttachment) (s : Maps L R)
      → c.arg 1 ≡ some ptr
      → ptr ≢ 0
      → lru.get s.live ptr ≡ some l
      → let s' = fire (release_attachment_entry c) s in
        (ring.records s'.events ≡ appended s (slot c (c.ktime_ns - l.open_ts_ns) ptr closed))
        × (lru.get s'.live ptr ≡ none)
  unfolding fire try_release_attachment_entry
  release_known c ptr l s e pos g =
      let s' = record s { live = lru.remove (lru.touch s.live ptr) ptr } in
      let e' = slot c (c.ktime_ns - l.open_ts_ns) ptr closed in
      rw (e, fire, ==-of_ne ptr 0 pos, g)
        ((emit_lem e' s').0, rw (emit_lem e' s').1 (lru.get-remove_self _ ptr))

  release_unknown :
      (c : ProbeContext) (ptr : ℕ) (s : Maps L R)
      → c.arg 1 ≡ some ptr
      → ptr ≢ 0
      → lru.get s.live ptr ≡ none
      → let s' = fire (release_attachment_entry c) s in
        (ring.records s'.events ≡ ring.records s.events) × (lru.get s'.live ptr ≡ none)
  unfolding fire try_release_attachment_entry
  release_unknown c ptr s e pos g =
      rw (e, fire, ==-of_ne ptr 0 pos, g) (refl, lru.get-touch s.live ptr ptr ∙ g)

  -- The release of a nonzero attachment emits one `Closed` event with the time since it was opened
  -- if the attachment is recorded and the ring has room, and nothing otherwise; after it the
  -- attachment is not recorded, so that a second release of it emits nothing.
  pub release-closes :
      (c : ProbeContext) (ptr : ℕ) (s : Maps L R)
      → c.arg 1 ≡ some ptr
      → ptr ≢ 0
      → let s' = fire (release_attachment_entry c) s in
        (ring.records s'.events
          ≡ closing s (λ l. slot c (c.ktime_ns - l.open_ts_ns) ptr closed) (lru.get s.live ptr))
        × (lru.get s'.live ptr ≡ none)
  release-closes c ptr s e pos = elim (Option-cases (lru.get s.live ptr)) [
    | inl g ↦ rw g (release_unknown c ptr s e pos g)
    | inr (l, g) ↦ rw g (release_known c ptr l s e pos g)
  ]

  open_frame :
      (c : ProbeContext) (q ptr : ℕ) (l : LiveAttachment) (s : Maps L R)
      → c.arg 0 ≡ some q
      → q ≢ ptr
      → lru.get (try_attach_ctor_entry c s).1.live ptr ≡ some l
      → lru.get s.live ptr ≡ some l
  unfolding try_attach_ctor_entry emit
  open_frame c q ptr l s e ne g = elim (Result-cases (lru.insert s.live q (live_at c))) [
    | inl (m, i) ↦ ground (arith, lru.get-insert_ne s.live q ptr (live_at c) l i)
    | inr (n, i) ↦ ground arith
  ]

  release_frame :
      (c : ProbeContext) (q ptr : ℕ) (l : LiveAttachment) (s : Maps L R)
      → c.arg 1 ≡ some q
      → q ≢ ptr
      → lru.get (try_release_attachment_entry c s).1.live ptr ≡ some l
      → lru.get s.live ptr ≡ some l
  unfolding try_release_attachment_entry emit
  release_frame c q ptr l s e ne g =
      ground (arith, lru.get-remove_ne (lru.touch s.live q) q ptr, lru.get-touch s.live q ptr)

  -- A probe about another attachment puts nothing under this one.
  fire_frame :
      (p : Probe) (ptr : ℕ) (l : LiveAttachment) (s : Maps L R)
      → about p ≢ some ptr
      → lru.get (fire p s).live ptr ≡ some l
      → lru.get s.live ptr ≡ some l
  unfolding fire
  fire_frame (attach_ctor_entry c) ptr l s ne g = elim (Option-cases (c.arg 0)) [
    | inl e ↦ unfold try_attach_ctor_entry in (ground arith)
    | inr (q, e) ↦ open_frame c q ptr l s e (λ same. ne (e ∙ ap some same)) g
  ]
  fire_frame (release_attachment_entry c) ptr l s ne g = elim (Option-cases (c.arg 1)) [
    | inl e ↦ unfold try_release_attachment_entry in (ground arith)
    | inr (q, e) ↦ release_frame c q ptr l s e (λ same. ne (e ∙ ap some same)) g
  ]

  run_frame :
      (ps : List Probe) (ptr : ℕ) (l : LiveAttachment) (s : Maps L R)
      → All (λ p. about p ≢ some ptr) ps
      → lru.get (run ps s).live ptr ≡ some l
      → lru.get s.live ptr ≡ some l
  unfolding run
  run_frame [] ptr l s h g = g
  run_frame (p ∷ ps) ptr l s h g = fire_frame p ptr l s h.0 (run_frame ps ptr l (fire p s) h.1 g)

  -- A nonzero attachment that is opened and put in the map, and later released, with probes about
  -- other attachments between the two, however many: the release emits a `Closed` event with
  -- exactly the time between the two probes and the releasing thread, or nothing, if the record was
  -- evicted by then.
  pub release-lifetime :
      (s : Maps L R) (ctor release : ProbeContext) (between : List Probe) (ptr : ℕ)
      {m : L LiveAttachment}
      → ctor.arg 0 ≡ some ptr
      → release.arg 1 ≡ some ptr
      → ptr ≢ 0
      → lru.insert s.live ptr (live_at ctor) ≡ ok m
      → All (λ p. about p ≢ some ptr) between
      → let s' = run between (fire (attach_ctor_entry ctor) s) in
        (ring.records (fire (release_attachment_entry release) s').events
          ≡ closing s'
              (λ _. closed_event release (release.ktime_ns - ctor.ktime_ns) ptr)
              (lru.get s'.live ptr))
  release-lifetime s ctor release between ptr e e' pos i quiet =
      let s' = run between (fire (attach_ctor_entry ctor) s) in
      elim (Option-cases (lru.get s'.live ptr)) [
        | inl g ↦ rw g (release_unknown release ptr s' e' pos g).0
        | inr (l, g) ↦
            let first = run_frame between ptr l (fire (attach_ctor_entry ctor) s) quiet g in
            let same : live_at ctor ≡ l =
              some_injective (sym (ctor-opens ctor ptr s e pos i).1 ∙ first) in
            rw g (release_known release ptr (live_at ctor) s' e' pos (g ∙ ap some (sym same))).0
      ]
