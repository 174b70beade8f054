-- ===== src/Tests/Files.antt =====
-- Resolutions of small symbol tables, symbols.rs of crates/tragach-slowquery/src,
-- crates/tragach-attach/src and crates/tragach-pageio/src.
use tragach.Prelude.{arith, ◌≡◌, ℕ, refl, some, List, [], ◌∷◌, true}
use tragach.Symbols.{Symbol, scan, target, check_unique}
use tragach.Symbols.Complete.{resolve_dsql-of_IsResolved}
use tragach.Symbols.Targets.{
  DsqlOffsets, prepare_prefix, immediate_prefix, execute_prefix, open_cursor_prefix,
  fetch_next_prefix, complete_ctor_prefix, base_ctor_prefix, release_prefix, fetch_page_prefix,
  dsql_target, dsql_offsets, resolve_dsql,
}
use tragach.Symbols.Unique.{IsResolved, resolve_dsql-IsResolved}

abbrev pub text : List ℕ → ℕ → Symbol
text name address = record { is_text = true; name = some name; address = address }

abbrev pub engine : List Symbol
engine =
    text prepare_prefix 10
    ∷ text immediate_prefix 20
    ∷ text execute_prefix 30
    ∷ text open_cursor_prefix 40
    ∷ text fetch_next_prefix 50
    ∷ text complete_ctor_prefix 60
    ∷ text base_ctor_prefix 60
    ∷ text release_prefix 70
    ∷ text fetch_page_prefix 80
    ∷ []

resolve_dsql-IsResolved_example : IsResolved engine (record {
  prepare = 10;
  execute = 30;
  execute_immediate = 20;
  open_cursor = 40;
  fetch_next = 50;
})
unfolding resolve_dsql dsql_offsets scan target check_unique dsql_target
resolve_dsql-IsResolved_example =
    resolve_dsql-IsResolved engine
      (record {
        prepare = 10;
        execute = 30;
        execute_immediate = 20;
        open_cursor = 40;
        fetch_next = 50;
      })
      refl

abbrev pub engine_offsets : DsqlOffsets
engine_offsets = record {
  prepare = 10;
  execute = 30;
  execute_immediate = 20;
  open_cursor = 40;
  fetch_next = 50;
}

engine-IsResolved : IsResolved engine engine_offsets
unfolding scan target check_unique dsql_target
engine-IsResolved = record {
  prepare = (omega arith, (refl, tt));
  execute = (omega arith, (refl, tt));
  execute_immediate = (omega arith, (refl, tt));
  open_cursor = (omega arith, (refl, tt));
  fetch_next = (omega arith, (refl, tt));
}

resolve_dsql-of_IsResolved_example : resolve_dsql engine ≡ some engine_offsets
resolve_dsql-of_IsResolved_example =
    resolve_dsql-of_IsResolved engine engine_offsets engine-IsResolved
