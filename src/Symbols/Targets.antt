-- ===== src/Symbols/Targets.antt =====
-- The targets of each tracer and their offsets, symbols.rs of crates/tragach-slowquery/src,
-- crates/tragach-attach/src and crates/tragach-pageio/src.
use tragach.Prelude.{starts_with, ℕ, Option, none, some, List, [], ◌∷◌, ◌||◌, if◌then◌else◌}
use tragach.Symbols.{Symbol, scan}

-- "_Z12DSQL_prepareP"
abbrev pub prepare_prefix : List ℕ
prepare_prefix =
    95 ∷ 90 ∷ 49 ∷ 50 ∷ 68 ∷ 83 ∷ 81 ∷ 76 ∷ 95 ∷ 112 ∷ 114 ∷ 101 ∷ 112 ∷ 97 ∷ 114 ∷ 101 ∷ 80 ∷ []

-- "_Z22DSQL_execute_immediateP"
abbrev pub immediate_prefix : List ℕ
immediate_prefix =
    95 ∷ 90 ∷ 50 ∷ 50 ∷ 68 ∷ 83 ∷ 81 ∷ 76 ∷ 95 ∷ 101 ∷ 120 ∷ 101 ∷ 99 ∷ 117 ∷ 116 ∷ 101 ∷ 95 ∷ 105
    ∷ 109 ∷ 109 ∷ 101 ∷ 100 ∷ 105 ∷ 97 ∷ 116 ∷ 101 ∷ 80 ∷ []

-- "_Z12DSQL_executeP"
abbrev pub execute_prefix : List ℕ
execute_prefix =
    95 ∷ 90 ∷ 49 ∷ 50 ∷ 68 ∷ 83 ∷ 81 ∷ 76 ∷ 95 ∷ 101 ∷ 120 ∷ 101 ∷ 99 ∷ 117 ∷ 116 ∷ 101 ∷ 80 ∷ []

-- "_ZN3Jrd14DsqlDmlRequest10openCursorE"
abbrev pub open_cursor_prefix : List ℕ
open_cursor_prefix =
    95 ∷ 90 ∷ 78 ∷ 51 ∷ 74 ∷ 114 ∷ 100 ∷ 49 ∷ 52 ∷ 68 ∷ 115 ∷ 113 ∷ 108 ∷ 68 ∷ 109 ∷ 108 ∷ 82 ∷ 101
    ∷ 113 ∷ 117 ∷ 101 ∷ 115 ∷ 116 ∷ 49 ∷ 48 ∷ 111 ∷ 112 ∷ 101 ∷ 110 ∷ 67 ∷ 117 ∷ 114 ∷ 115 ∷ 111
    ∷ 114 ∷ 69 ∷ []

-- "_ZN3Jrd10DsqlCursor9fetchNextE"
abbrev pub fetch_next_prefix : List ℕ
fetch_next_prefix =
    95 ∷ 90 ∷ 78 ∷ 51 ∷ 74 ∷ 114 ∷ 100 ∷ 49 ∷ 48 ∷ 68 ∷ 115 ∷ 113 ∷ 108 ∷ 67 ∷ 117 ∷ 114 ∷ 115 ∷ 111
    ∷ 114 ∷ 57 ∷ 102 ∷ 101 ∷ 116 ∷ 99 ∷ 104 ∷ 78 ∷ 101 ∷ 120 ∷ 116 ∷ 69 ∷ []

-- "_ZN3Jrd10AttachmentC1E"
abbrev pub complete_ctor_prefix : List ℕ
complete_ctor_prefix =
    95 ∷ 90 ∷ 78 ∷ 51 ∷ 74 ∷ 114 ∷ 100 ∷ 49 ∷ 48 ∷ 65 ∷ 116 ∷ 116 ∷ 97 ∷ 99 ∷ 104 ∷ 109 ∷ 101 ∷ 110
    ∷ 116 ∷ 67 ∷ 49 ∷ 69 ∷ []

-- "_ZN3Jrd10AttachmentC2E"
abbrev pub base_ctor_prefix : List ℕ
base_ctor_prefix =
    95 ∷ 90 ∷ 78 ∷ 51 ∷ 74 ∷ 114 ∷ 100 ∷ 49 ∷ 48 ∷ 65 ∷ 116 ∷ 116 ∷ 97 ∷ 99 ∷ 104 ∷ 109 ∷ 101 ∷ 110
    ∷ 116 ∷ 67 ∷ 50 ∷ 69 ∷ []

-- "_ZL18release_attachment"
abbrev pub release_prefix : List ℕ
release_prefix =
    95 ∷ 90 ∷ 76 ∷ 49 ∷ 56 ∷ 114 ∷ 101 ∷ 108 ∷ 101 ∷ 97 ∷ 115 ∷ 101 ∷ 95 ∷ 97 ∷ 116 ∷ 116 ∷ 97 ∷ 99
    ∷ 104 ∷ 109 ∷ 101 ∷ 110 ∷ 116 ∷ []

-- "_Z14CCH_fetch_pagePN3Jrd9thread_dbE"
abbrev pub fetch_page_prefix : List ℕ
fetch_page_prefix =
    95 ∷ 90 ∷ 49 ∷ 52 ∷ 67 ∷ 67 ∷ 72 ∷ 95 ∷ 102 ∷ 101 ∷ 116 ∷ 99 ∷ 104 ∷ 95 ∷ 112 ∷ 97 ∷ 103 ∷ 101
    ∷ 80 ∷ 78 ∷ 51 ∷ 74 ∷ 114 ∷ 100 ∷ 57 ∷ 116 ∷ 104 ∷ 114 ∷ 101 ∷ 97 ∷ 100 ∷ 95 ∷ 100 ∷ 98 ∷ 69
    ∷ []

-- The slots in the order of their declaration: prepare, execute, execute_immediate, open_cursor,
-- fetch_next.
unfoldable pub dsql_target : List ℕ → Option ℕ
dsql_target name =
    if starts_with name prepare_prefix
    then some 0
    else if starts_with name immediate_prefix
    then some 2
    else if starts_with name execute_prefix
    then some 1
    else if starts_with name open_cursor_prefix
    then some 3
    else if starts_with name fetch_next_prefix
    then some 4
    else none

pub record DsqlOffsets : Type 0 where
  pub prepare : ℕ
  pub execute : ℕ
  pub execute_immediate : ℕ
  pub open_cursor : ℕ
  pub fetch_next : ℕ

unfoldable pub dsql_offsets :
    Option ℕ → Option ℕ → Option ℕ → Option ℕ → Option ℕ → Option DsqlOffsets
dsql_offsets (some a) (some b) (some c) (some d) (some e) =
    some
      (record { prepare = a; execute = b; execute_immediate = c; open_cursor = d; fetch_next = e })
dsql_offsets _ _ _ _ _ = none

abbrev pub dsql_found : Option (ℕ → Option ℕ) → Option DsqlOffsets
dsql_found none = none
dsql_found (some slots) = dsql_offsets (slots 0) (slots 1) (slots 2) (slots 3) (slots 4)

-- `resolve` of slowquery.
unfoldable pub resolve_dsql : List Symbol → Option DsqlOffsets
unfolding dsql_offsets
resolve_dsql syms = dsql_found (scan dsql_target (λ _. none) syms)

-- The slots: attachment_ctor, release_attachment.
unfoldable pub attach_target : List ℕ → Option ℕ
attach_target name =
    if starts_with name complete_ctor_prefix || starts_with name base_ctor_prefix
    then some 0
    else if starts_with name release_prefix
    then some 1
    else none

pub record AttachOffsets : Type 0 where
  pub attachment_ctor : ℕ
  pub release_attachment : ℕ

unfoldable pub attach_offsets : Option ℕ → Option ℕ → Option AttachOffsets
attach_offsets (some a) (some b) = some (record { attachment_ctor = a; release_attachment = b })
attach_offsets _ _ = none

abbrev pub attach_found : Option (ℕ → Option ℕ) → Option AttachOffsets
attach_found none = none
attach_found (some slots) = attach_offsets (slots 0) (slots 1)

-- `resolve` of attach.
unfoldable pub resolve_attach : List Symbol → Option AttachOffsets
unfolding attach_offsets
resolve_attach syms = attach_found (scan attach_target (λ _. none) syms)

-- The slot: cch_fetch_page.
unfoldable pub page_io_target : List ℕ → Option ℕ
page_io_target name = if starts_with name fetch_page_prefix then some 0 else none

abbrev pub page_io_found : Option (ℕ → Option ℕ) → Option ℕ
page_io_found none = none
page_io_found (some slots) = slots 0

-- `resolve` of pageio, whose offsets have one field.
unfoldable pub resolve_page_io : List Symbol → Option ℕ
resolve_page_io syms = page_io_found (scan page_io_target (λ _. none) syms)
