-- ===== src/Attach/WellFormed.antt =====
-- Every event that crates/tragach-attach/src/bpf/main.rs writes fits the wire struct of
-- crates/tragach-common/src/event.rs.
use tragach.Attach.Lifecycle.{emit_lem}
use tragach.Attach.{
  Maps, slot, live_at, emit, try_attach_ctor_entry, try_release_attachment_entry, Probe,
  attach_ctor_entry, release_attachment_entry, fire, run,
}
use tragach.Event.{AttachEvent, AttachEventKind, IsAttachEvent, opened, closed}
use tragach.Kernel.{LruHashMap, RingBuf, ProbeContext, IsContext}
use tragach.Prelude.{
  ℕ, ◌-◌, ◌≤◌, ◌≡◌, some, List, [], ◌∷◌, All, All-append, Option-cases, Result-cases, Bool-cases,
  inl, inr, ◌==◌, arith,
}

abbrev pub context : Probe → ProbeContext
context (attach_ctor_entry c) = c
context (release_attachment_entry c) = c

-- The fields fit, and the kind is known.
abbrev pub IsWritten : AttachEvent → Type 0
IsWritten e = IsAttachEvent e × (e.kind ≤ 1)

slot-IsWritten :
    (c : ProbeContext) (duration_ns ptr i : ℕ) (kind : AttachEventKind)
    → IsContext c
    → c.arg i ≡ some ptr
    → duration_ns ≤ c.ktime_ns
    → IsWritten (slot c duration_ns ptr kind)
slot-IsWritten c d ptr i opened k a h =
    (ground (arith, k.ktime_ns, k.pid_tgid, k.arg i ptr), omega arith)
slot-IsWritten c d ptr i closed k a h =
    (ground (arith, k.ktime_ns, k.pid_tgid, k.arg i ptr), omega arith)

module _ {L R : Type 0 → Type 0} ⦃lru : LruHashMap L ℕ⦄ ⦃ring : RingBuf R⦄ where
  abbrev pub AllWritten : Maps L R → Type 0
  AllWritten s = All IsWritten (ring.records s.events)

  emit-AllWritten :
      (e : AttachEvent) (s : Maps L R) → IsWritten e → AllWritten s → AllWritten (emit e s).1
  emit-AllWritten e s h all = rw (emit_lem e s).0 (elim (Bool-cases (ring.reserve s.events)) [
    | inl r ↦ rw r (All-append IsWritten (ring.records s.events) (e ∷ []) all (h, tt))
    | inr r ↦ rw r all
  ])

  ctor-AllWritten :
      (c : ProbeContext) (s : Maps L R)
      → IsContext c
      → AllWritten s
      → AllWritten (fire (attach_ctor_entry c) s)
  unfolding fire try_attach_ctor_entry
  ctor-AllWritten c s k all = elim (Option-cases (c.arg 0)) [
    | inl e ↦ rw (fire, e) all
    | inr (ptr, e) ↦ elim (Bool-cases (ptr == 0)) [
      | inl z ↦ rw (fire, e, z) all
      | inr z ↦ elim (Result-cases (lru.insert s.live ptr (live_at c))) [
        | inl (m, i) ↦
            rw (fire, e, z, i)
              (emit-AllWritten (slot c 0 ptr opened) (record s { live = m })
                (slot-IsWritten c 0 ptr 0 opened k e (omega arith)) all)
        | inr (n, i) ↦ rw (fire, e, z, i) all
      ]
    ]
  ]

  release-AllWritten :
      (c : ProbeContext) (s : Maps L R)
      → IsContext c
      → AllWritten s
      → AllWritten (fire (release_attachment_entry c) s)
  unfolding fire try_release_attachment_entry
  release-AllWritten c s k all = elim (Option-cases (c.arg 1)) [
    | inl e ↦ rw (fire, e) all
    | inr (ptr, e) ↦ elim (Bool-cases (ptr == 0)) [
      | inl z ↦ rw (fire, e, z) all
      | inr z ↦ elim (Option-cases (lru.get s.live ptr)) [
        | inl g ↦ rw (fire, e, z, g) all
        | inr (l, g) ↦
            let d = c.ktime_ns - l.open_ts_ns in
            rw (fire, e, z, g)
              (emit-AllWritten (slot c d ptr closed)
                (record s { live = lru.remove (lru.touch s.live ptr) ptr })
                (slot-IsWritten c d ptr 1 closed k e (omega arith)) all)
      ]
    ]
  ]

  -- Whatever probes fire, if the machine's words have their widths.
  pub run-AllWritten :
      (ps : List Probe) (s : Maps L R)
      → All (λ p. IsContext (context p)) ps
      → AllWritten s
      → AllWritten (run ps s)
  unfolding run
  run-AllWritten [] s k all = all
  run-AllWritten (attach_ctor_entry c ∷ ps) s k all =
      run-AllWritten ps (fire (attach_ctor_entry c) s) k.1 (ctor-AllWritten c s k.0 all)
  run-AllWritten (release_attachment_entry c ∷ ps) s k all =
      run-AllWritten ps (fire (release_attachment_entry c) s) k.1 (release-AllWritten c s k.0 all)
