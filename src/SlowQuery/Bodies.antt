-- ===== src/SlowQuery/Bodies.antt =====
-- Every probe body keeps an invariant that agrees with its `Rules`, on every branch.
pub mod Statements
use native.Mathlib.Decide.{ℕ_discrete}
use mathlib.Core.Option.{get_or}
use tragach.Event.{SlowQueryEvent}
use tragach.Kernel.Entries.{
  Entries-empty, Entries-insert, Entries-remove, Entries-lru_empty, Entries-lru_insert,
  Entries-lru_remove, Entries-touch,
}
use tragach.Kernel.{HashMap, LruHashMap, RingBuf, ProbeContext}
use tragach.Prelude.{
  ℕ, ◌≡◌, refl, Option, none, some, List, [], ◌∷◌, Result, ok, err, pure, fail, All, All-append,
  ◌==◌,
}
use tragach.SlowQuery.Bodies.Statements.{
  try_capture_sql_entry-Post, try_prepare_exit-Post, try_execute_entry-Post, try_execute_exit-Post,
  try_immediate_exit-Post, emit_joined-Post,
}
use tragach.SlowQuery.Probes.{
  sql_entry, SqlTarget, prepare, immediate, slot, joined, prepared_at, store_sql,
  try_capture_sql_entry, emit_event, emit_for, tid, try_prepare_exit, try_execute_entry,
  emit_joined, try_execute_exit, try_immediate_exit, try_open_cursor_entry, try_open_cursor_exit,
  try_fetch_next_entry, finish_cursor, try_fetch_next_exit, Probe, dsql_prepare_entry,
  dsql_prepare_exit, dsql_execute_entry, dsql_execute_exit, dsql_execute_immediate_entry,
  dsql_execute_immediate_exit, dsql_open_cursor_entry, dsql_open_cursor_exit, dsql_fetch_next_entry,
  dsql_fetch_next_exit, fire, run,
}
use tragach.SlowQuery.{WithSql, PreparedStatement, ExecuteEntry, OpenCursor, Maps, loaded}
use tragach.SlowQuery.Rules.{
  Rules, Any, Keeps, Post, Post-Keeps, Post-bind, Post-ok_or, Post-if, Post-if_value, Post-write,
  put_prepares, put_executes, put_immediates, put_opencursors, put_statements, put_cursors,
  put_events, put_fetches,
}

module _ {M L R : Type 0 → Type 0} ⦃hash : HashMap M ℕ⦄ ⦃lru : LruHashMap L ℕ⦄ ⦃ring : RingBuf R⦄
    {G : Probe → Type 0} {W : SqlTarget → WithSql → Type 0} {P : PreparedStatement → Type 0}
    {X : ExecuteEntry → Type 0} {O : OpenCursor → Type 0} {E : SlowQueryEvent → Type 0}
    (rules : Rules G W P X O E) where
  try_open_cursor_entry-Post :
      (c : ProbeContext) (s : Maps M L R)
      → G (dsql_open_cursor_entry c)
      → Keeps rules s
      → Post rules Any (try_open_cursor_entry c s)
  unfolding try_open_cursor_entry
  try_open_cursor_entry-Post c s g k =
      Post-bind rules (λ r. c.arg 0 ≡ some r) _ _ (Post-ok_or rules _ (c.arg 0) s k (λ r e. e))
        λ r s k er.
          Post-write rules (hash.insert s.opencursor_in_progress (tid c) _)
            (λ m s. record s { opencursor_in_progress = m }) s k
            λ m e. put_opencursors rules m k (
              Entries-insert ℕ_discrete hash O s.opencursor_in_progress m _ _ e
                (rules.opened c r g er) k.opencursors)

  try_open_cursor_exit-Post :
      (c : ProbeContext) (s : Maps M L R)
      → Keeps rules s
      → Post rules Any (try_open_cursor_exit c s)
  unfolding try_open_cursor_exit
  try_open_cursor_exit-Post c s k =
      Post-bind rules O _ _
        (Post-ok_or rules O (hash.get s.opencursor_in_progress (tid c)) s k (k.opencursors (tid c)))
        λ o s k h.
          let k' =
            put_opencursors rules _ k
              (Entries-remove ℕ_discrete hash O s.opencursor_in_progress (tid c) k.opencursors) in
          Post-if rules Any (get_or c.ret 0 == 0) _ _ _ (k', tt)
            (Post-write rules (lru.insert s.open_cursors (get_or c.ret 0) o)
              (λ m s. record s { open_cursors = m }) _ k'
              λ m e.
                put_cursors rules m k'
                  (Entries-lru_insert ℕ_discrete lru O s.open_cursors m _ _ e h k.cursors))

  try_fetch_next_entry-Post :
      (c : ProbeContext) (s : Maps M L R)
      → Keeps rules s
      → Post rules Any (try_fetch_next_entry c s)
  unfolding try_fetch_next_entry
  try_fetch_next_entry-Post c s k =
      Post-bind rules Any _ _ (Post-ok_or rules Any (c.arg 0) s k (λ _ _. tt)) λ p s k _.
        Post-if rules Any (p == 0) _ _ s (k, tt)
          (Post-write rules (hash.insert s.fetch_in_progress (tid c) p)
            (λ m s. record s { fetch_in_progress = m }) s k λ m e. put_fetches rules m k)

  finish_cursor-Post :
      (c : ProbeContext) (p : ℕ) (s : Maps M L R)
      → G (dsql_fetch_next_exit c)
      → Keeps rules s
      → Post rules Any (finish_cursor c p s)
  unfolding finish_cursor
  finish_cursor-Post c p s g k =
      let k' = put_cursors rules _ k (Entries-touch ℕ_discrete lru O s.open_cursors p k.cursors) in
      Post-bind rules O _ _ (Post-ok_or rules O (lru.get s.open_cursors p) _ k' (k.cursors p))
        λ o s k h.
          emit_joined-Post rules c _ _ _ (rules.fetched c o g h)
            (put_cursors rules _ k (Entries-lru_remove ℕ_discrete lru O s.open_cursors p k.cursors))

  try_fetch_next_exit-Post :
      (c : ProbeContext) (s : Maps M L R)
      → G (dsql_fetch_next_exit c)
      → Keeps rules s
      → Post rules Any (try_fetch_next_exit c s)
  unfolding try_fetch_next_exit
  try_fetch_next_exit-Post c s g k =
      Post-bind rules Any _ _
        (Post-ok_or rules Any (hash.get s.fetch_in_progress (tid c)) s k (λ _ _. tt))
        λ p s k _.
          Post-if rules Any (get_or c.ret 0 == 1) _ _ _
            (finish_cursor-Post c p _ g (put_fetches rules _ k)) (put_fetches rules _ k, tt)

  -- Every probe keeps an invariant.
  pub fire-Keeps : (p : Probe) (s : Maps M L R) → G p → Keeps rules s → Keeps rules (fire p s)
  unfolding fire
  fire-Keeps (dsql_prepare_entry c) s g k =
      Post-Keeps rules _ (try_capture_sql_entry-Post rules c prepare s g k)
  fire-Keeps (dsql_prepare_exit c) s g k = Post-Keeps rules _ (try_prepare_exit-Post rules c s g k)
  fire-Keeps (dsql_execute_entry c) s g k =
      Post-Keeps rules _ (try_execute_entry-Post rules c s g k)
  fire-Keeps (dsql_execute_exit c) s g k = Post-Keeps rules _ (try_execute_exit-Post rules c s g k)
  fire-Keeps (dsql_execute_immediate_entry c) s g k =
      Post-Keeps rules _ (try_capture_sql_entry-Post rules c immediate s g k)
  fire-Keeps (dsql_execute_immediate_exit c) s g k =
      Post-Keeps rules _ (try_immediate_exit-Post rules c s g k)
  fire-Keeps (dsql_open_cursor_entry c) s g k =
      Post-Keeps rules _ (try_open_cursor_entry-Post c s g k)
  fire-Keeps (dsql_open_cursor_exit c) s g k = Post-Keeps rules _ (try_open_cursor_exit-Post c s k)
  fire-Keeps (dsql_fetch_next_entry c) s g k = Post-Keeps rules _ (try_fetch_next_entry-Post c s k)
  fire-Keeps (dsql_fetch_next_exit c) s g k = Post-Keeps rules _ (try_fetch_next_exit-Post c s g k)

  pub run-Keeps :
      (ps : List Probe) (s : Maps M L R) → All G ps → Keeps rules s → Keeps rules (run ps s)
  unfolding run
  run-Keeps [] s g k = k
  run-Keeps (p ∷ ps) s g k = run-Keeps ps (fire p s) g.1 (fire-Keeps p s g.0 k)

  pub loaded-Keeps : Keeps rules (loaded {M = M} {L = L} {R = R})
  loaded-Keeps = record {
    prepares = Entries-empty ℕ_discrete hash (W prepare);
    executes = Entries-empty ℕ_discrete hash X;
    immediates = Entries-empty ℕ_discrete hash (W immediate);
    opencursors = Entries-empty ℕ_discrete hash O;
    statements = Entries-lru_empty ℕ_discrete lru P;
    cursors = Entries-lru_empty ℕ_discrete lru O;
    events = rw ring.records-empty tt;
  }
