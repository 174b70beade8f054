-- ===== src/Startup/Tracers.antt =====
-- The starts of the four tracers: `main` up to its event loop in
-- crates/tragach-slowquery/src/main.rs, crates/tragach-attach/src/main.rs,
-- crates/tragach-pageio/src/main.rs and crates/tragach-iowait/src/main.rs.
use Prim.Native.String.{String}
use tragach.Prelude.{ℕ, Text, Option, none, some, List}
use tragach.Startup.{
  Host, Start, uprobe, tracepoint, ◌>>=◌, ◌>>◌, the, require, done, ignore, libengine, debug_file,
  ensure_paths, raise_rlimit_memlock, target_pid, set_target, attach_program, take_map, unresolved,
  object_invalid, map_missing, map_kind, no_kallsyms,
}
use tragach.Symbols.Targets.{DsqlOffsets, resolve_dsql, resolve_attach, resolve_page_io}
use tragach.Symbols.{Symbol}

-- The options that a start reads; slowquery and attach have no `pid`, iowait has no other.
pub record Args : Type 0 where
  pub firebird_prefix : Text
  pub debug_path : Option Text
  pub pid : Option ℕ

-- `symbols::resolve`, after the file is read and parsed.
abbrev pub resolved : {A : Type 0} → (List Symbol → Option A) → Option (List Symbol) → Option A
resolved resolve none = none
resolved resolve (some syms) = resolve syms

-- The paths that a start uses.
abbrev pub engine : Args → Text
engine args = libengine args.firebird_prefix

abbrev pub debug : Args → Text
debug args = debug_file args.firebird_prefix args.debug_path

module _ (host : Host) where
  unfoldable pub attach_uprobe : String → (offset : ℕ) (target : Text) → Start (Unit {0})
  attach_uprobe name offset target = attach_program host name (uprobe offset target)

  unfoldable pub attach_pair : (entry exit : String) (offset : ℕ) (target : Text) → Start (Unit {0})
  attach_pair entry exit offset target = do
    attach_program host entry (uprobe offset target)
    attach_program host exit (uprobe offset target)

  unfoldable pub attach_dsql : DsqlOffsets → Text → Start (Unit {0})
  attach_dsql offsets lib = do
    attach_pair "dsql_prepare_entry" "dsql_prepare_exit" offsets.prepare lib
    attach_pair "dsql_execute_entry" "dsql_execute_exit" offsets.execute lib
    attach_pair "dsql_execute_immediate_entry" "dsql_execute_immediate_exit"
        offsets.execute_immediate lib
    attach_pair "dsql_open_cursor_entry" "dsql_open_cursor_exit" offsets.open_cursor lib
    attach_pair "dsql_fetch_next_entry" "dsql_fetch_next_exit" offsets.fetch_next lib

  unfoldable pub start_slowquery : Args → Start (Unit {0})
  start_slowquery args = do
    ensure_paths host (engine args) (debug args)
    offsets ← the (resolved resolve_dsql (host.symbols (debug args))) unresolved
    ignore (raise_rlimit_memlock host)
    require host.load_object object_invalid
    attach_dsql offsets (engine args)
    take_map host "EVENTS"

  unfoldable pub start_attach : Args → Start (Unit {0})
  start_attach args = do
    ensure_paths host (engine args) (debug args)
    offsets ← the (resolved resolve_attach (host.symbols (debug args))) unresolved
    ignore (raise_rlimit_memlock host)
    require host.load_object object_invalid
    attach_uprobe "attach_ctor_entry" offsets.attachment_ctor (engine args)
    attach_uprobe "release_attachment_entry" offsets.release_attachment (engine args)
    take_map host "EVENTS"

  -- pageio after it has its target. The pid is the result, which the windows report.
  unfoldable pub trace_pages : Args → (pid : ℕ) → Start ℕ
  trace_pages args pid = do
    ensure_paths host (engine args) (debug args)
    fetch_page ← the (resolved resolve_page_io (host.symbols (debug args))) unresolved
    ignore (raise_rlimit_memlock host)
    require host.load_object object_invalid
    set_target host pid
    attach_uprobe "cch_fetch_page_entry" fetch_page (engine args)
    attach_uprobe "cch_fetch_page_exit" fetch_page (engine args)
    attach_program host "block_rq_issue" (tracepoint "block" "block_rq_issue")
    attach_program host "block_rq_complete" (tracepoint "block" "block_rq_complete")
    take_map host "COUNTERS"
    done pid

  unfoldable pub start_pageio : Args → Start ℕ
  start_pageio args = do pid ← target_pid host args.pid; trace_pages args pid

  -- Both maps are taken before either is converted.
  unfoldable pub take_bucket_maps : Start (Unit {0})
  take_bucket_maps = do
    require (host.has_map "BUCKETS") (map_missing "BUCKETS")
    require (host.has_map "STACKS") (map_missing "STACKS")
    require (host.is_map "BUCKETS") (map_kind "BUCKETS")
    require (host.is_map "STACKS") (map_kind "STACKS")

  -- iowait after it has its target. The text of /proc/kallsyms, which is read before anything is
  -- attached, is the other result.
  unfoldable pub trace_waits : (pid : ℕ) → Start (ℕ × Text)
  trace_waits pid = do
    kallsyms ← the host.kallsyms no_kallsyms
    ignore (raise_rlimit_memlock host)
    require host.load_object object_invalid
    set_target host pid
    attach_program host "sched_switch" (tracepoint "sched" "sched_switch")
    attach_program host "sched_wakeup" (tracepoint "sched" "sched_wakeup")
    take_bucket_maps
    done (pid, kallsyms)

  unfoldable pub start_iowait : Args → Start (ℕ × Text)
  start_iowait args = do pid ← target_pid host args.pid; trace_waits pid
