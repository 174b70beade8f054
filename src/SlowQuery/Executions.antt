-- ===== src/SlowQuery/Executions.antt =====
-- The spans that the slowquery events measure: `DSQL_execute` from entry to exit, and a cursor from
-- the entry of `openCursor` to the fetch that finds the end.
use tragach.Event.{SlowQueryEvent}
use tragach.Kernel.{HashMap, LruHashMap, RingBuf, ProbeContext}
use tragach.Prelude.{
  ℕ, ◌-◌, ap, ◌≡◌, ◌≢◌, refl, ◌∙◌, false, Option, none, some, List, [], ◌∷◌, ◌++◌, ok, All,
  if◌then◌else◌, arith, ==-of_ne,
}
use tragach.SlowQuery.Expected.{expected, event_for_lem}
use tragach.SlowQuery.Frames.{executes_on, emit_joined-execute, fire-execute_in_progress}
use tragach.SlowQuery.Probes.{
  tid, slot, event_for, emit_event, emit_for, emit_joined, try_execute_entry, try_execute_exit,
  Probe, dsql_execute_entry, dsql_execute_exit, fire, run,
}
use tragach.SlowQuery.{PreparedStatement, ExecuteEntry, Maps}

module _ {M L R : Type 0 → Type 0} ⦃hash : HashMap M ℕ⦄ ⦃lru : LruHashMap L ℕ⦄
    ⦃ring : RingBuf R⦄ where
  -- The ring after an attempt to emit an event: without room it is dropped.
  abbrev pub appended : Maps M L R → SlowQueryEvent → List SlowQueryEvent
  appended s e =
      if ring.reserve s.events then ring.records s.events ++ e ∷ [] else ring.records s.events

  pub emit_event-records :
      (c : ProbeContext) (a p x n t : ℕ) (src : Option (List ℕ)) (s : Maps M L R)
      → ring.records (emit_event c a p x n t src s).1.events ≡ appended s (slot c a p x n t src)
  unfolding emit_event
  emit_event-records c a p x n t src s =
      ground (arith, ring.records-submit s.events (slot c a p x n t src))

  emit_for-records :
      (c : ProbeContext) (x : ℕ) (o : Option PreparedStatement) (s : Maps M L R)
      → ring.records (emit_for c x o s).1.events ≡ appended s (event_for c x o)
  unfolding emit_for
  emit_for-records c x (some p) s = emit_event-records c _ _ _ _ _ _ s
  emit_for-records c x none s = emit_event-records c _ _ _ _ _ _ s

  pub emit_joined-records :
      (c : ProbeContext) (r x : ℕ) (s : Maps M L R)
      → ring.records (emit_joined c r x s).1.events
        ≡ appended s (event_for c x (lru.get s.prepared_statements r))
  unfolding emit_joined
  emit_joined-records c r x s = emit_for-records c x (lru.get s.prepared_statements r) _

  pub emit_joined-cursors :
      (c : ProbeContext) (r x : ℕ) (s : Maps M L R)
      → ((emit_joined c r x s).1.open_cursors ≡ s.open_cursors)
        × ((emit_joined c r x s).1.fetch_in_progress ≡ s.fetch_in_progress)
  unfolding emit_joined emit_for emit_event
  emit_joined-cursors c r x s = ground arith

  run-execute_in_progress :
      (ps : List Probe) (s : Maps M L R) (k : ℕ)
      → All (λ p. executes_on k p ≡ false) ps
      → hash.get (run ps s).execute_in_progress k ≡ hash.get s.execute_in_progress k
  unfolding run
  run-execute_in_progress [] s k h = refl
  run-execute_in_progress (p ∷ ps) s k h =
      run-execute_in_progress ps (fire p s) k h.1 ∙ fire-execute_in_progress p s k h.0

  execute_exit-event :
      (c : ProbeContext) (x : ExecuteEntry) (s : Maps M L R)
      → hash.get s.execute_in_progress (tid c) ≡ some x
      → (ring.records (fire (dsql_execute_exit c) s).events
          ≡ appended s (
              event_for c
                (c.ktime_ns - x.ts_ns)
                (lru.get s.prepared_statements x.dsql_request_ptr)))
        × (hash.get (fire (dsql_execute_exit c) s).execute_in_progress (tid c) ≡ none)
  unfolding fire try_execute_exit
  execute_exit-event c x s e =
      let s' = record s { execute_in_progress = hash.remove s.execute_in_progress (tid c) } in
      rw (e, fire)
        (
          emit_joined-records c x.dsql_request_ptr (c.ktime_ns - x.ts_ns) s',
          rw (emit_joined-execute c x.dsql_request_ptr (c.ktime_ns - x.ts_ns) s')
              (hash.get-remove_self s.execute_in_progress (tid c)),
        )

  execute_entry-starts :
      (c : ProbeContext) (r : ℕ) (s : Maps M L R) {m : M ExecuteEntry}
      → c.arg 2 ≡ some r
      → r ≢ 0
      → hash.insert s.execute_in_progress
          (tid c)
          (record { ts_ns = c.ktime_ns; dsql_request_ptr = r })
        ≡ ok m
      → hash.get (fire (dsql_execute_entry c) s).execute_in_progress (tid c)
        ≡ some (record { ts_ns = c.ktime_ns; dsql_request_ptr = r })
  unfolding fire try_execute_entry
  execute_entry-starts c r s e pos i =
      rw (e, fire, ==-of_ne r 0 pos, i) (hash.get-insert_self s.execute_in_progress (tid c) _ i)

  -- A call of `DSQL_execute` whose entry was recorded emits exactly one event at its exit, if the
  -- ring has room: the exit's time and thread, the time since the entry, and the statement that the
  -- request has by then. The entry is gone after it. Meanwhile any other probes may fire, those of
  -- other threads' executions too.
  pub execute-span :
      (s : Maps M L R) (entry exit : ProbeContext) (between : List Probe) (r : ℕ)
      {m : M ExecuteEntry}
      → entry.arg 2 ≡ some r
      → r ≢ 0
      → hash.insert s.execute_in_progress
          (tid entry)
          (record { ts_ns = entry.ktime_ns; dsql_request_ptr = r })
        ≡ ok m
      → All (λ p. executes_on (tid entry) p ≡ false) between
      → tid exit ≡ tid entry
      → let s' = run between (fire (dsql_execute_entry entry) s) in
        let s'' = fire (dsql_execute_exit exit) s' in
        (ring.records s''.events
          ≡ appended s'
              (expected exit (exit.ktime_ns - entry.ktime_ns) (lru.get s'.prepared_statements r)))
        × (hash.get s''.execute_in_progress (tid entry) ≡ none)
  execute-span s entry exit between r {m} e pos i quiet same =
      let s' = run between (fire (dsql_execute_entry entry) s) in
      let kept : hash.get s'.execute_in_progress (tid entry)
          ≡ some (record { ts_ns = entry.ktime_ns; dsql_request_ptr = r }) =
        run-execute_in_progress between (fire (dsql_execute_entry entry) s) (tid entry) quiet
        ∙ execute_entry-starts entry r s e pos i in
      let done = execute_exit-event exit _ s' (rw same kept) in
      (done.0 ∙ ap (appended s') (event_for_lem exit _ _), rw same at done.1)
