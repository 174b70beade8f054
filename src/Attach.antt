-- ===== src/Attach.antt =====
-- The attach BPF program, crates/tragach-attach/src/bpf/main.rs: its maps and its two probe bodies.
pub mod Human
pub mod Lifecycle
pub mod WellFormed
pub mod Session
pub mod Main
pub mod Userspace
use tragach.Event.{AttachEvent, AttachEventKind, opened, closed, discriminant}
use tragach.Kernel.{LruHashMap, RingBuf, ProbeContext}
use tragach.Prelude.{
  ℕ, ◌-◌, ◌/◌, ◌%◌, ◌^◌, List, [], ◌∷◌, ok, Handler, ◌>>=◌, pure, modify, ok_or, write, ◌==◌,
  if◌then◌else◌,
}

pub record LiveAttachment : Type 0 where
  pub open_ts_ns : ℕ
  pub open_pid : ℕ
  pub open_tid : ℕ

pub record Maps (L R : Type 0 → Type 0) : Type 0 where
  pub live : L LiveAttachment
  pub events : R AttachEvent

-- `pid_tid`
abbrev pub pid : ProbeContext → ℕ
pid c = c.pid_tgid / 2 ^ 32

abbrev pub tid : ProbeContext → ℕ
tid c = c.pid_tgid % 2 ^ 32

-- The record that is written in place.
abbrev pub slot : ProbeContext → ℕ → ℕ → AttachEventKind → AttachEvent
slot c duration_ns attachment_ptr kind = record {
  ts_ns = c.ktime_ns;
  duration_ns = duration_ns;
  attachment_ptr = attachment_ptr;
  pid = pid c;
  tid = tid c;
  kind = discriminant kind;
  pad = 0;
}

abbrev pub live_at : ProbeContext → LiveAttachment
live_at c = record { open_ts_ns = c.ktime_ns; open_pid = pid c; open_tid = tid c }

module _ {L R : Type 0 → Type 0} ⦃lru : LruHashMap L ℕ⦄ ⦃ring : RingBuf R⦄ where
  -- `if let Some(mut slot) = EVENTS.reserve(0) { .. slot.submit(0); }`
  unfoldable pub emit : AttachEvent → Handler (Maps L R) (Unit {0})
  emit e s =
      (ok tt, if ring.reserve s.events then record s { events = ring.submit s.events e } else s)

  unfoldable pub try_attach_ctor_entry : ProbeContext → Handler (Maps L R) (Unit {0})
  try_attach_ctor_entry c = do
    attachment_ptr ← ok_or (c.arg 0) 1
    let opening : Handler (Maps L R) (Unit {0}) = do
      _ ← (λ s.
          write (lru.insert s.live attachment_ptr (live_at c)) (λ m s. record s { live = m }) s)
      emit (slot c 0 attachment_ptr opened)
    if attachment_ptr == 0 then pure tt else opening

  unfoldable pub try_release_attachment_entry : ProbeContext → Handler (Maps L R) (Unit {0})
  try_release_attachment_entry c = do
    attachment_ptr ← ok_or (c.arg 1) 1
    let closing : Handler (Maps L R) (Unit {0}) = do
      live ← (λ s.
          ok_or (lru.get s.live attachment_ptr) 1
            (record s { live = lru.touch s.live attachment_ptr }))
      _ ← modify (λ s. record s { live = lru.remove s.live attachment_ptr })
      emit (slot c (c.ktime_ns - live.open_ts_ns) attachment_ptr closed)
    if attachment_ptr == 0 then pure tt else closing

pub data Probe : Type 0 where
  attach_ctor_entry release_attachment_entry : ProbeContext → Probe

module _ {L R : Type 0 → Type 0} ⦃lru : LruHashMap L ℕ⦄ ⦃ring : RingBuf R⦄ where
  unfoldable pub fire : Probe → Maps L R → Maps L R
  fire (attach_ctor_entry c) s = (try_attach_ctor_entry c s).1
  fire (release_attachment_entry c) s = (try_release_attachment_entry c s).1

  unfoldable pub run : List Probe → Maps L R → Maps L R
  run [] s = s
  run (p ∷ ps) s = run ps (fire p s)
