-- ===== src/SlowQuery/Bodies/Statements.antt =====
-- The bodies of the probes on statements keep an invariant that agrees with its `Rules`, on every
-- branch: crates/tragach-slowquery/src/bpf/main.rs.
use native.Mathlib.Decide.{ℕ_discrete}
use mathlib.Core.Option.{get_or}
use tragach.Event.{SlowQueryEvent}
use tragach.Kernel.Entries.{Entries-insert, Entries-remove, Entries-lru_insert, Entries-touch}
use tragach.Kernel.{HashMap, LruHashMap, RingBuf, ProbeContext}
use tragach.Prelude.{
  ℕ, ◌≡◌, refl, Option, none, some, List, [], ◌∷◌, Result, ok, err, pure, fail, All-append, ◌==◌,
}
use tragach.SlowQuery.Probes.{
  sql_entry, SqlTarget, prepare, immediate, slot, joined, prepared_at, store_sql,
  try_capture_sql_entry, emit_event, emit_for, tid, try_prepare_exit, try_execute_entry,
  emit_joined, try_execute_exit, try_immediate_exit, Probe, dsql_prepare_exit, dsql_execute_entry,
  dsql_execute_exit, dsql_execute_immediate_exit,
}
use tragach.SlowQuery.{WithSql, PreparedStatement, ExecuteEntry, OpenCursor, Maps}
use tragach.SlowQuery.Rules.{
  Rules, Any, Keeps, Post, Post-bind, Post-ok_or, Post-if, Post-if_value, Post-write, put_prepares,
  put_executes, put_immediates, put_statements, put_events,
}

module _ {M L R : Type 0 → Type 0} ⦃hash : HashMap M ℕ⦄ ⦃lru : LruHashMap L ℕ⦄ ⦃ring : RingBuf R⦄
    {G : Probe → Type 0} {W : SqlTarget → WithSql → Type 0} {P : PreparedStatement → Type 0}
    {X : ExecuteEntry → Type 0} {O : OpenCursor → Type 0} {E : SlowQueryEvent → Type 0}
    (rules : Rules G W P X O E) where
  store_sql-Post :
      (target : SqlTarget) (key : ℕ) (w : WithSql) (s : Maps M L R)
      → W target w
      → Keeps rules s
      → Post rules Any (store_sql target key w s)
  unfolding store_sql
  store_sql-Post prepare key w s h k =
      Post-write rules (hash.insert s.prepare_in_progress key w)
        (λ m s. record s { prepare_in_progress = m }) s k
        λ m e.
          put_prepares rules m k (
            Entries-insert ℕ_discrete hash (W prepare) s.prepare_in_progress m key w e h k.prepares)
  store_sql-Post immediate key w s h k =
      Post-write rules (hash.insert s.immediate_in_progress key w)
        (λ m s. record s { immediate_in_progress = m }) s k
        λ m e. put_immediates rules m k (
          Entries-insert ℕ_discrete hash (W immediate) s.immediate_in_progress m key w e h
            k.immediates)

  pub try_capture_sql_entry-Post :
      (c : ProbeContext) (target : SqlTarget) (s : Maps M L R)
      → G (sql_entry target c)
      → Keeps rules s
      → Post rules Any (try_capture_sql_entry c target s)
  unfolding try_capture_sql_entry
  try_capture_sql_entry-Post c target s g k =
      Post-bind rules (λ a. c.arg 1 ≡ some a) _ _ (Post-ok_or rules _ (c.arg 1) s k (λ a e. e))
        λ a s k ea.
          Post-bind rules (λ n. c.arg 3 ≡ some n) _ _ (Post-ok_or rules _ (c.arg 3) s k (λ n e. e))
            λ n s k en.
              Post-bind rules (λ p. c.arg 4 ≡ some p) _ _
                (Post-ok_or rules _ (c.arg 4) s k (λ p e. e))
                λ p s k ep.
                  Post-bind rules Any _ _
                    (Post-if rules Any c.scratch (pure tt) (fail 1) s (k, tt) k)
                    λ _ s k _.
                      store_sql-Post target _ _ s (rules.capture target c a n p g ea en ep) k

  emit_event-Post :
      (c : ProbeContext) (a p x n t : ℕ) (src : Option (List ℕ)) (s : Maps M L R)
      → E (slot c a p x n t src)
      → Keeps rules s
      → Post rules Any (emit_event c a p x n t src s)
  unfolding emit_event
  emit_event-Post c a p x n t src s h k =
      let e = slot c a p x n t src in
      Post-if_value rules Any (ring.reserve s.events) _ _
        (
          put_events rules (ring.submit s.events e) k (
              rw (ring.records-submit s.events e)
                (All-append E (ring.records s.events) (e ∷ []) k.events (h, tt))),
          tt,
        )
        k

  emit_for-Post :
      (c : ProbeContext) (x : ℕ) (o : Option PreparedStatement) (s : Maps M L R)
      → ((p : PreparedStatement) → o ≡ some p → E (joined c p x))
      → E (slot c 0 0 x 0 0 none)
      → Keeps rules s
      → Post rules Any (emit_for c x o s)
  unfolding emit_for
  emit_for-Post c x (some p) s h u k = emit_event-Post c _ _ _ _ _ _ s (h p refl) k
  emit_for-Post c x none s h u k = emit_event-Post c _ _ _ _ _ _ s u k

  pub emit_joined-Post :
      (c : ProbeContext) (r x : ℕ) (s : Maps M L R)
      → ((p : PreparedStatement) → P p → E (joined c p x)) × E (slot c 0 0 x 0 0 none)
      → Keeps rules s
      → Post rules Any (emit_joined c r x s)
  unfolding emit_joined
  emit_joined-Post c r x s h k =
      emit_for-Post c x (lru.get s.prepared_statements r) _ (λ p e. h.0 p (k.statements r p e)) h.1
        (put_statements rules _ k
          (Entries-touch ℕ_discrete lru P s.prepared_statements r k.statements))

  pub try_prepare_exit-Post :
      (c : ProbeContext) (s : Maps M L R)
      → G (dsql_prepare_exit c)
      → Keeps rules s
      → Post rules Any (try_prepare_exit c s)
  unfolding try_prepare_exit
  try_prepare_exit-Post c s g k =
      Post-bind rules (W prepare) _ _
        (Post-ok_or rules (W prepare) (hash.get s.prepare_in_progress (tid c)) s k
          (k.prepares (tid c)))
        λ w s k h.
          let done : (s : Maps M L R)
              → Keeps rules s
              → Keeps rules
                  (record s { prepare_in_progress = hash.remove s.prepare_in_progress (tid c) }) =
            λ s k. put_prepares rules _ k (
              Entries-remove ℕ_discrete hash (W prepare) s.prepare_in_progress (tid c)
                k.prepares) in
          Post-if rules Any (get_or c.ret 0 == 0) _ _ s (done s k, tt)
            (Post-bind rules Any _ _ (Post-if rules Any c.scratch (pure tt) (fail 1) s (k, tt) k)
              λ _ s k _.
                Post-write rules
                  (lru.insert s.prepared_statements (get_or c.ret 0) (prepared_at c w))
                  (λ m s. record s { prepared_statements = m }) _ (done s k)
                  λ m e. put_statements rules m (done s k) (
                    Entries-lru_insert ℕ_discrete lru P s.prepared_statements m _ _ e
                      (rules.prepared c w g h) k.statements))

  pub try_execute_entry-Post :
      (c : ProbeContext) (s : Maps M L R)
      → G (dsql_execute_entry c)
      → Keeps rules s
      → Post rules Any (try_execute_entry c s)
  unfolding try_execute_entry
  try_execute_entry-Post c s g k =
      Post-bind rules (λ r. c.arg 2 ≡ some r) _ _ (Post-ok_or rules _ (c.arg 2) s k (λ r e. e))
        λ r s k er.
          Post-if rules Any (r == 0) _ _ s (k, tt)
            (Post-write rules (hash.insert s.execute_in_progress (tid c) _)
              (λ m s. record s { execute_in_progress = m }) s k
              λ m e. put_executes rules m k (
                Entries-insert ℕ_discrete hash X s.execute_in_progress m _ _ e
                  (rules.started c r g er) k.executes))

  pub try_execute_exit-Post :
      (c : ProbeContext) (s : Maps M L R)
      → G (dsql_execute_exit c)
      → Keeps rules s
      → Post rules Any (try_execute_exit c s)
  unfolding try_execute_exit
  try_execute_exit-Post c s g k =
      Post-bind rules X _ _
        (Post-ok_or rules X (hash.get s.execute_in_progress (tid c)) s k (k.executes (tid c)))
        λ x s k h. emit_joined-Post c _ _ _ (rules.executed c x g h) (
          put_executes rules _ k
            (Entries-remove ℕ_discrete hash X s.execute_in_progress (tid c) k.executes))

  Post-removed :
      (k : ℕ) (o : Result (Unit {0}) × Maps M L R)
      → Post rules Any o
      → Post rules Any
          (o.0, record (o.1) { immediate_in_progress = hash.remove o.1.immediate_in_progress k })
  Post-removed k (ok a, s) h = (
    put_immediates rules _ h.0 (Entries-remove ℕ_discrete hash (W immediate) _ k h.0.immediates),
    tt,
  )
  Post-removed k (err e, s) h =
      put_immediates rules _ h (Entries-remove ℕ_discrete hash (W immediate) _ k h.immediates)

  pub try_immediate_exit-Post :
      (c : ProbeContext) (s : Maps M L R)
      → G (dsql_execute_immediate_exit c)
      → Keeps rules s
      → Post rules Any (try_immediate_exit c s)
  unfolding try_immediate_exit
  try_immediate_exit-Post c s g k =
      Post-bind rules (W immediate) _ _
        (Post-ok_or rules (W immediate) (hash.get s.immediate_in_progress (tid c)) s k
          (k.immediates (tid c)))
        λ w s k h.
          Post-removed (tid c) _ (emit_event-Post c _ _ _ _ _ _ s (rules.ran_immediate c w g h) k)
