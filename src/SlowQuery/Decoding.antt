-- ===== src/SlowQuery/Decoding.antt =====
-- The wire: userspace reads back the records that the BPF program writes.
use mathlib.Core.List.{append-nil, foldl}
use tragach.Event.Layout.{le_bytes, read_word, slow_query_bytes, word64, word32}
use tragach.Event.{SlowQueryEvent, IsSlowQueryEvent, sql_max}
use tragach.Kernel.{HashMap, LruHashMap, RingBuf, IsContext}
use tragach.Prelude.{
  ℕ, ◌+◌, ◌≤◌, ◌≡◌, refl, some, List, [], ◌∷◌, ◌++◌, map, length, length-append, take-append, All,
  Bool, Option, ap, sym, ◌∙◌, arith, not-ltb,
}
use tragach.SlowQuery.Probes.{Probe, context, traced}
use tragach.SlowQuery.Userspace.{read_event, decode_event, drain, on_event, Session}
use tragach.SlowQuery.WellFormed.{traced-IsEvent, IsEvent}

read_event-slow_query_bytes :
    (e : SlowQueryEvent) (rest : List ℕ)
    → IsSlowQueryEvent e
    → read_event (slow_query_bytes e ++ rest) ≡ e
unfolding read_event slow_query_bytes le_bytes read_word
read_event-slow_query_bytes e rest h = λ i. record {
  ts_ns = word64 e.ts_ns h.ts_ns i;
  prepare_ns = word64 e.prepare_ns h.prepare_ns i;
  execute_ns = word64 e.execute_ns h.execute_ns i;
  attachment_id = word64 e.attachment_id h.attachment_id i;
  tid = word32 e.tid h.tid i;
  sql_len = word32 e.sql_len h.sql_len i;
  sql_truncated = word32 e.sql_truncated h.sql_truncated i;
  pad = word32 e.pad h.pad i;
  sql = take-append e.sql rest sql_max h.sql i;
}

length-slow_query_bytes : (e : SlowQueryEvent) → length (slow_query_bytes e) ≡ 48 + length e.sql
unfolding slow_query_bytes le_bytes
length-slow_query_bytes e = omega arith

-- What the layout writes of an event whose fields fit the decoder reads, whatever bytes follow it
-- in the record.
pub decode_event-slow_query_bytes :
    (e : SlowQueryEvent) (rest : List ℕ)
    → IsSlowQueryEvent e
    → decode_event (slow_query_bytes e ++ rest) ≡ some e
unfolding decode_event
decode_event-slow_query_bytes e rest h =
    let long : 560 ≤ length (slow_query_bytes e ++ rest) =
      omega (arith, length-append (slow_query_bytes e) rest, length-slow_query_bytes e, h.sql) in
    rw (not-ltb _ _ long, read_event-slow_query_bytes e rest h)

handled :
    {Text : Type 0} (from_utf8_lossy : List ℕ → Text) (is_empty : Text → Bool) (t : Option ℕ)
    (es : List SlowQueryEvent) (s : Session Text)
    → (foldl (λ s e. on_event from_utf8_lossy is_empty t (some e) s) s es).dropped ≡ s.dropped
unfolding on_event
handled f g t [] s = refl
handled f g t (e ∷ es) s = handled f g t es _ ∙ ground arith

-- The events of a run, written into the ring and drained.
drain-slow_query_bytes :
    {Text : Type 0} (from_utf8_lossy : List ℕ → Text) (is_empty : Text → Bool) (t : Option ℕ)
    (es : List SlowQueryEvent) (s : Session Text)
    → All IsEvent es
    → drain from_utf8_lossy is_empty t (map slow_query_bytes es) s
      ≡ foldl (λ s e. on_event from_utf8_lossy is_empty t (some e) s) s es
unfolding drain
drain-slow_query_bytes f g t [] s h = refl
drain-slow_query_bytes f g t (e ∷ es) s h =
    let decoded : decode_event (slow_query_bytes e) ≡ some e =
      ap decode_event (sym (append-nil (slow_query_bytes e)))
      ∙ decode_event-slow_query_bytes e [] h.0.0 in
    rw (decoded, drain) (drain-slow_query_bytes f g t es _ h.1)

-- Whatever a run of the BPF program emits, if the machine's words have their widths, userspace
-- handles: it decodes every record of the ring to the event that was written, and drops none.
pub drain-traced :
    {Text : Type 0} (from_utf8_lossy : List ℕ → Text) (is_empty : Text → Bool)
    {M L R : Type 0 → Type 0} (hash : HashMap M ℕ) (lru : LruHashMap L ℕ) (ring : RingBuf R)
    (ps : List Probe) (t : Option ℕ) (s : Session Text)
    → All (λ p. IsContext (context p)) ps
    → (drain from_utf8_lossy is_empty t (map slow_query_bytes (traced hash lru ring ps)) s
        ≡ foldl (λ s e. on_event from_utf8_lossy is_empty t (some e) s) s (traced hash lru ring ps))
      × ((drain from_utf8_lossy is_empty t
            (map slow_query_bytes (traced hash lru ring ps))
            s).dropped
          ≡ s.dropped)
drain-traced f g hash lru ring ps t s h =
    let e =
      drain-slow_query_bytes f g t (traced hash lru ring ps) s
        (traced-IsEvent hash lru ring ps h) in
    (e, ap (λ s. s.dropped) e ∙ handled f g t (traced hash lru ring ps) s)
