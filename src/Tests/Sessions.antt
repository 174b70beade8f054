-- ===== src/Tests/Sessions.antt =====
-- The userspace of slowquery, crates/tragach-slowquery/src/main.rs, on the events of a short run.
use mathlib.Core.List.{foldl}
use tragach.Event.{SlowQueryEvent, IsSlowQueryEvent}
use tragach.Event.Layout.{slow_query_bytes}
use tragach.Prelude.{
  ℕ, ◌≡◌, refl, length, map, some, none, List, [], ◌∷◌, ◌++◌, Bool, ◌==◌, replicate, arith,
}
use tragach.SlowQuery.Userspace.{Ids, find, small_id, Session, on_event, decode_event, json_event}
use tragach.SlowQuery.Ids.{IsIds, small_id-IsIds, foldl-on_event-written, passing, blank}
use tragach.SlowQuery.Decoding.{decode_event-slow_query_bytes}

abbrev two_ids : Ids
two_ids = record { id_table = (8, 2) ∷ (7, 1) ∷ []; next_id = 2 }

two_ids-IsIds : IsIds two_ids
unfolding find
two_ids-IsIds = record {
  numbered = (refl, omega arith, omega arith, refl, (refl, omega arith, omega arith, refl, refl));
  fits = omega arith;
}

small_id-IsIds_example : let (id, s') = small_id 9 two_ids in IsIds s' × (id ≡ find 9 s'.id_table)
small_id-IsIds_example = small_id-IsIds 9 two_ids two_ids-IsIds (omega arith)

abbrev an_event : SlowQueryEvent
an_event = record {
  ts_ns = 260;
  prepare_ns = 50;
  execute_ns = 60;
  attachment_id = 3;
  tid = 5;
  sql_len = 3;
  sql_truncated = 0;
  pad = 0;
  sql = replicate 512 0;
}

an_event-IsSlowQueryEvent : IsSlowQueryEvent an_event
an_event-IsSlowQueryEvent = record {
  ts_ns = omega arith;
  prepare_ns = omega arith;
  execute_ns = omega arith;
  attachment_id = omega arith;
  tid = omega arith;
  sql_len = omega arith;
  sql_truncated = omega arith;
  pad = omega arith;
  sql = refl;
}

decode_event-slow_query_bytes_example :
    decode_event (slow_query_bytes an_event ++ 1 ∷ []) ≡ some an_event
decode_event-slow_query_bytes_example =
    decode_event-slow_query_bytes an_event (1 ∷ []) an_event-IsSlowQueryEvent

-- Texts are lists of bytes here, and empty ones are found by their length.
abbrev text_of : List ℕ → List ℕ
text_of bytes = bytes

abbrev is_empty : List ℕ → Bool
is_empty text = length text == 0

abbrev started : Session (List ℕ)
started = record { ids = record { id_table = []; next_id = 0 }; dropped = 0; written = [] }

foldl-on_event-written_example :
    map blank
      (foldl
        (λ s e. on_event text_of is_empty (some 50) (some e) s)
        started
        (an_event ∷ [])).written
    ≡ [] ++ map (λ e. json_event text_of is_empty e none) (passing (some 50) (an_event ∷ []))
foldl-on_event-written_example =
    foldl-on_event-written text_of is_empty (some 50) (an_event ∷ []) started
