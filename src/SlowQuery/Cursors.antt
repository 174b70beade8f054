-- ===== src/SlowQuery/Cursors.antt =====
-- The life of a cursor in the slowquery program: crates/tragach-slowquery/src/bpf/main.rs from
-- `try_open_cursor_exit` to `try_fetch_next_exit`.
use mathlib.Core.Option.{get_or}
use tragach.Kernel.{HashMap, LruHashMap, RingBuf, ProbeContext}
use tragach.Prelude.{
  ℕ, ◌-◌, ◌≡◌, refl, none, some, ok, ap, ◌∙◌, Bool-cases, inl, inr, ◌==◌, if◌then◌else◌,
}
use tragach.SlowQuery.Executions.{appended, emit_joined-records, emit_joined-cursors}
use tragach.SlowQuery.Expected.{expected, event_for_lem}
use tragach.SlowQuery.Probes.{
  tid, try_open_cursor_exit, finish_cursor, try_fetch_next_exit, dsql_open_cursor_exit,
  dsql_fetch_next_exit, fire,
}
use tragach.SlowQuery.{OpenCursor, Maps}

module _ {M L R : Type 0 → Type 0} ⦃hash : HashMap M ℕ⦄ ⦃lru : LruHashMap L ℕ⦄
    ⦃ring : RingBuf R⦄ where
  -- If the insertion succeeds, the exit of `openCursor` hands the thread's entry over to the cursor
  -- that it returned: the cursor has the time at which the call began and its request. A null
  -- cursor is not recorded. The thread's entry is gone in both cases.
  open_cursor_exit-hands_over :
      (c : ProbeContext) (o : OpenCursor) (s : Maps M L R) {m : L OpenCursor}
      → hash.get s.opencursor_in_progress (tid c) ≡ some o
      → lru.insert s.open_cursors (get_or c.ret 0) o ≡ ok m
      → let s' = fire (dsql_open_cursor_exit c) s in
        (if get_or c.ret 0 == 0
          then s'.open_cursors ≡ s.open_cursors
          else lru.get s'.open_cursors (get_or c.ret 0) ≡ some o)
        × (hash.get s'.opencursor_in_progress (tid c) ≡ none)
        × (s'.events ≡ s.events)
  unfolding fire try_open_cursor_exit
  open_cursor_exit-hands_over c o s {m} e i = elim (Bool-cases (get_or c.ret 0 == 0)) [
    | inl z ↦ rw (e, fire, z) (refl, hash.get-remove_self s.opencursor_in_progress (tid c), refl)
    | inr z ↦
        rw (e, fire, z, i)
          (
            lru.get-insert_self s.open_cursors _ o i,
            hash.get-remove_self s.opencursor_in_progress (tid c),
            refl,
          )
  ]

  -- Of a thread that fetches from an open cursor: a fetch that returns anything but 1 emits nothing
  -- and leaves the cursor open. The fetch that returns 1 closes the cursor and emits one event, if
  -- the ring has room: the time since the cursor was opened, and the statement that its request has
  -- by then. The thread's entry is gone after either.
  pub fetch_next_exit-cursor :
      (c : ProbeContext) (cursor_ptr : ℕ) (o : OpenCursor) (s : Maps M L R)
      → hash.get s.fetch_in_progress (tid c) ≡ some cursor_ptr
      → lru.get s.open_cursors cursor_ptr ≡ some o
      → let s' = fire (dsql_fetch_next_exit c) s in
        (ring.records s'.events ≡ (
          if get_or c.ret 0 == 1
          then appended s (
              expected c
                (c.ktime_ns - o.open_ts_ns)
                (lru.get s.prepared_statements o.dsql_request_ptr))
          else ring.records s.events))
        × (lru.get s'.open_cursors cursor_ptr ≡ (if get_or c.ret 0 == 1 then none else some o))
        × (hash.get s'.fetch_in_progress (tid c) ≡ none)
  unfolding fire try_fetch_next_exit finish_cursor
  fetch_next_exit-cursor c p o s e i = elim (Bool-cases (get_or c.ret 0 == 1)) [
    | inl z ↦
        rw (e, fire, z, i)
          (
            emit_joined-records c o.dsql_request_ptr x s' ∙ ap (appended s') (event_for_lem c x _),
            rw (emit_joined-cursors c o.dsql_request_ptr x s').0 (lru.get-remove_self _ p),
            rw (emit_joined-cursors c o.dsql_request_ptr x s').1 (hash.get-remove_self _ (tid c)),
          )
    | inr z ↦ rw (e, fire, z) (refl, i, hash.get-remove_self s.fetch_in_progress (tid c))
  ]
    where
      s' : Maps M L R
      s' = record s {
        fetch_in_progress = hash.remove s.fetch_in_progress (tid c);
        open_cursors = lru.remove (lru.touch s.open_cursors p) p;
      }

      x : ℕ
      x = c.ktime_ns - o.open_ts_ns
