-- ===== src/SlowQuery/Frames.antt =====
-- What each probe leaves alone: a thread's entry in one in-progress map is touched only by the
-- programs of that map on that thread.
use tragach.Kernel.{HashMap, LruHashMap, RingBuf, ProbeContext}
use tragach.Kernel.Entries.{get-insert_frame}
use tragach.Prelude.{ℕ, ◌≡◌, Bool, false, Option, List, Option-cases, ◌-◌, ◌==◌, arith, inl, inr}
use tragach.SlowQuery.Probes.{
  SqlTarget, prepare, immediate, tid, try_capture_sql_entry, emit_event, emit_for, emit_joined,
  try_prepare_exit, try_execute_entry, try_execute_exit, try_immediate_exit, try_open_cursor_entry,
  try_open_cursor_exit, try_fetch_next_entry, finish_cursor, try_fetch_next_exit, Probe,
  dsql_prepare_entry, dsql_prepare_exit, dsql_execute_entry, dsql_execute_exit,
  dsql_execute_immediate_entry, dsql_execute_immediate_exit, dsql_open_cursor_entry,
  dsql_open_cursor_exit, dsql_fetch_next_entry, dsql_fetch_next_exit, fire,
}
use tragach.SlowQuery.{Maps}

-- A program of `DSQL_execute` that fires on the thread.
abbrev pub executes_on : ℕ → Probe → Bool
executes_on k (dsql_execute_entry c) = tid c == k
executes_on k (dsql_execute_exit c) = tid c == k
executes_on k p = false

module _ {M L R : Type 0 → Type 0} ⦃hash : HashMap M ℕ⦄ ⦃lru : LruHashMap L ℕ⦄
    ⦃ring : RingBuf R⦄ where
  emit_event-execute :
      (c : ProbeContext) (a p x n t : ℕ) (src : Option (List ℕ)) (s : Maps M L R)
      → (emit_event c a p x n t src s).1.execute_in_progress ≡ s.execute_in_progress
  unfolding emit_event
  emit_event-execute c a p x n t src s = ground arith

  pub emit_joined-execute :
      (c : ProbeContext) (r x : ℕ) (s : Maps M L R)
      → (emit_joined c r x s).1.execute_in_progress ≡ s.execute_in_progress
  unfolding emit_joined emit_for emit_event
  emit_joined-execute c r x s = ground arith

  capture-execute :
      (c : ProbeContext) (target : SqlTarget) (s : Maps M L R)
      → (try_capture_sql_entry c target s).1.execute_in_progress ≡ s.execute_in_progress
  unfolding try_capture_sql_entry
  capture-execute c target s = ground arith

  execute_entry_ne :
      (c : ProbeContext) (s : Maps M L R) (k : ℕ)
      → (tid c == k) ≡ false
      → hash.get (try_execute_entry c s).1.execute_in_progress k ≡ hash.get s.execute_in_progress k
  unfolding try_execute_entry
  execute_entry_ne c s k h = elim (Option-cases (c.arg 2)) [
    | inl e ↦ ground arith
    | inr (r, e) ↦ ground (
      arith,
      get-insert_frame hash s.execute_in_progress (tid c) k
          (record { ts_ns = c.ktime_ns; dsql_request_ptr = r }),
    )
  ]

  execute_exit_ne :
      (c : ProbeContext) (s : Maps M L R) (k : ℕ)
      → (tid c == k) ≡ false
      → hash.get (try_execute_exit c s).1.execute_in_progress k ≡ hash.get s.execute_in_progress k
  unfolding try_execute_exit
  execute_exit_ne c s k h = elim (Option-cases (hash.get s.execute_in_progress (tid c))) [
    | inl e ↦ ground arith
    | inr (x, e) ↦ rw e (
        ground (
          arith,
          emit_joined-execute c x.dsql_request_ptr (c.ktime_ns - x.ts_ns)
              (record s { execute_in_progress = hash.remove s.execute_in_progress (tid c) }),
          hash.get-remove_ne s.execute_in_progress (tid c) k,
        ))
  ]

  -- Another program, or the same on another thread, leaves a thread's execution in progress.
  pub fire-execute_in_progress :
      (p : Probe) (s : Maps M L R) (k : ℕ)
      → executes_on k p ≡ false
      → hash.get (fire p s).execute_in_progress k ≡ hash.get s.execute_in_progress k
  unfolding fire
  fire-execute_in_progress (dsql_prepare_entry c) s k h = rw (capture-execute c prepare s)
  fire-execute_in_progress (dsql_prepare_exit c) s k h = unfold try_prepare_exit in (ground arith)
  fire-execute_in_progress (dsql_execute_entry c) s k h = execute_entry_ne c s k h
  fire-execute_in_progress (dsql_execute_exit c) s k h = execute_exit_ne c s k h
  fire-execute_in_progress (dsql_execute_immediate_entry c) s k h =
      rw (capture-execute c immediate s)
  fire-execute_in_progress (dsql_execute_immediate_exit c) s k h =
      unfold try_immediate_exit emit_event in (ground arith)
  fire-execute_in_progress (dsql_open_cursor_entry c) s k h =
      unfold try_open_cursor_entry in (ground arith)
  fire-execute_in_progress (dsql_open_cursor_exit c) s k h =
      unfold try_open_cursor_exit in (ground arith)
  fire-execute_in_progress (dsql_fetch_next_entry c) s k h =
      unfold try_fetch_next_entry in (ground arith)
  fire-execute_in_progress (dsql_fetch_next_exit c) s k h =
      unfold try_fetch_next_exit finish_cursor emit_joined emit_for emit_event in (ground arith)
