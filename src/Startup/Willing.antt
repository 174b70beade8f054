-- ===== src/Startup/Willing.antt =====
-- On a host that refuses nothing the tracers start, and pageio and iowait find the server that
-- pgrep prints.
use Prim.Native.String.{String}
use tragach.Prelude.{ℕ, Text, true, Option, some, List, [], ◌≡◌, refl, ap, ◌∙◌, subst}
use tragach.Startup.Attaching.{Attaches, Leaves}
use tragach.Startup.Order.{
  dsql_probes, attach_probes, page_io_effects, io_wait_effects, start_slowquery-Attaches,
  start_attach-Attaches, trace_pages-Attaches, trace_waits-Attaches,
}
use tragach.Startup.Outcomes.{Succeeds, succeeding}
use tragach.Startup.Tracers.{
  Args, engine, debug, resolved, attach_uprobe, attach_pair, attach_dsql, start_slowquery,
  start_attach, trace_pages, start_pageio, trace_waits, take_bucket_maps, start_iowait,
}
use tragach.Startup.{
  ◌>>=◌, done, Effect, ok, target_pid, Host, Start, Attachment, attach_program, uprobe, take_map,
  set_target, ensure_paths,
}
use tragach.Symbols.Targets.{
  DsqlOffsets, AttachOffsets, resolve_dsql, resolve_attach, resolve_page_io,
}
use tragach.Symbols.{Symbol}

-- Every file is there, and the kernel and aya refuse nothing.
pub record IsWilling (host : Host) : Type 0 where
  pub exists : (path : Text) → host.exists path ≡ true
  pub load_object : host.load_object ≡ true
  pub has_program : (name : String) → host.has_program name ≡ true
  pub is_program : (name : String) → host.is_program name ≡ true
  pub load_program : (name : String) → host.load_program name ≡ true
  pub attach : (name : String) (a : Attachment) → host.attach name a ≡ true
  pub has_map : (name : String) → host.has_map name ≡ true
  pub is_map : (name : String) → host.is_map name ≡ true
  pub set_target : (pid : ℕ) → host.set_target pid ≡ true

module _ (host : Host) (w : IsWilling host) where
  open w use {exists, load_object, has_program, is_program, load_program, attach, has_map, is_map}

  attach_program-Succeeds : (name : String) (a : Attachment) → Succeeds (attach_program host name a)
  unfolding attach_program
  attach_program-Succeeds name a =
      search (succeeding, has_program, is_program, load_program, attach) depth 12

  take_map-Succeeds : (name : String) → Succeeds (take_map host name)
  unfolding take_map
  take_map-Succeeds name = search (succeeding, has_map, is_map) depth 12

  ensure_paths-Succeeds : (lib debug : Text) → Succeeds (ensure_paths host lib debug)
  unfolding ensure_paths
  ensure_paths-Succeeds lib debug = search (succeeding, exists)

  set_target-Succeeds : (pid : ℕ) → Succeeds (set_target host pid)
  unfolding set_target
  set_target-Succeeds pid = search (succeeding, has_map, is_map, w.set_target) depth 12

  attach_uprobe-Succeeds :
      (name : String) (offset : ℕ) (lib : Text) → Succeeds (attach_uprobe host name offset lib)
  unfolding attach_uprobe
  attach_uprobe-Succeeds name offset lib = attach_program-Succeeds name (uprobe offset lib)

  attach_pair-Succeeds :
      (entry exit : String) (offset : ℕ) (lib : Text)
      → Succeeds (attach_pair host entry exit offset lib)
  unfolding attach_pair
  attach_pair-Succeeds entry exit offset lib = search (succeeding, attach_program-Succeeds)

  attach_dsql-Succeeds : (o : DsqlOffsets) (lib : Text) → Succeeds (attach_dsql host o lib)
  unfolding attach_dsql
  attach_dsql-Succeeds o lib = search (succeeding, attach_pair-Succeeds) depth 12

  start_slowquery-Succeeds :
      (args : Args) {o : DsqlOffsets}
      → resolved resolve_dsql (host.symbols (debug args)) ≡ some o
      → Succeeds (start_slowquery host args)
  unfolding start_slowquery
  start_slowquery-Succeeds args e =
      search
        (succeeding, load_object, ensure_paths-Succeeds, attach_dsql-Succeeds, take_map-Succeeds)
        depth 12

  start_attach-Succeeds :
      (args : Args) {o : AttachOffsets}
      → resolved resolve_attach (host.symbols (debug args)) ≡ some o
      → Succeeds (start_attach host args)
  unfolding start_attach
  start_attach-Succeeds args e =
      search
        (succeeding, load_object, ensure_paths-Succeeds, attach_uprobe-Succeeds, take_map-Succeeds)
        depth 12

  trace_pages-Succeeds :
      (args : Args) (pid : ℕ) {offset : ℕ}
      → resolved resolve_page_io (host.symbols (debug args)) ≡ some offset
      → Succeeds (trace_pages host args pid)
  unfolding trace_pages
  trace_pages-Succeeds args pid e =
      search
        (
          succeeding, load_object, ensure_paths-Succeeds, set_target-Succeeds,
          attach_uprobe-Succeeds, attach_program-Succeeds, take_map-Succeeds,
        )
        depth 16

  take_bucket_maps-Succeeds : Succeeds (take_bucket_maps host)
  unfolding take_bucket_maps
  take_bucket_maps-Succeeds = search (succeeding, has_map, is_map) depth 12

  trace_waits-Succeeds :
      (pid : ℕ) {text : Text} → host.kallsyms ≡ some text → Succeeds (trace_waits host pid)
  unfolding trace_waits
  trace_waits-Succeeds pid e =
      search
        (
          succeeding, load_object, set_target-Succeeds, attach_program-Succeeds,
          take_bucket_maps-Succeeds,
        )
        depth 16

-- The start succeeds, with these effects.
abbrev pub Completes : {A : Type 0} → Start A → List Effect → Type 0
Completes {A} m es = (a : A) × (m [] ≡ (ok a, es))

-- A step that succeeds leaves all of its effects.
Leaves-all :
    {A : Type 0} {m : Start A} {es : List Effect} → Succeeds m → Attaches es m → Completes m es
Leaves-all {m} {es} s h =
    let (a, log', e) = s.succeeds [] in
    let left : Leaves es [] (ok a, log') = subst (Leaves es []) e (h.leaves []) in
    (a, e ∙ ap (λ l. (ok a, l)) left)

pub given_target :
    {B : Type 0} (host : Host) {given : Option ℕ} (pid : ℕ) (f : ℕ → Start B)
    → given ≡ some pid
    → (target_pid host given >>= f) [] ≡ f pid []
unfolding ◌>>=◌ target_pid done
given_target host pid f e = rw e refl

pub start_slowquery-Completes :
    (host : Host) (args : Args) (syms : List Symbol) (o : DsqlOffsets)
    → IsWilling host
    → host.symbols (debug args) ≡ some syms
    → resolve_dsql syms ≡ some o
    → Completes (start_slowquery host args) (dsql_probes o (engine args))
start_slowquery-Completes host args syms o w file dsql =
    let found : resolved resolve_dsql (host.symbols (debug args)) ≡ some o =
      ap (resolved resolve_dsql) file ∙ dsql in
    Leaves-all (start_slowquery-Succeeds host w args found)
      (start_slowquery-Attaches host args o found)

pub start_attach-Completes :
    (host : Host) (args : Args) (syms : List Symbol) (a : AttachOffsets)
    → IsWilling host
    → host.symbols (debug args) ≡ some syms
    → resolve_attach syms ≡ some a
    → Completes (start_attach host args) (attach_probes a (engine args))
start_attach-Completes host args syms a w file att =
    let found : resolved resolve_attach (host.symbols (debug args)) ≡ some a =
      ap (resolved resolve_attach) file ∙ att in
    Leaves-all (start_attach-Succeeds host w args found) (start_attach-Attaches host args a found)

pub start_iowait-Completes :
    (host : Host) (args : Args) (pid : ℕ) (text : Text)
    → IsWilling host
    → args.pid ≡ some pid
    → host.kallsyms ≡ some text
    → Completes (start_iowait host args) (io_wait_effects pid)
unfolding start_iowait
start_iowait-Completes host args pid text w target kernel =
    let (r, waits) =
      Leaves-all (trace_waits-Succeeds host w pid kernel)
        (trace_waits-Attaches host pid text kernel) in
    (r, given_target host pid (trace_waits host) target ∙ waits)

pub start_pageio-Completes :
    (host : Host) (args : Args) (syms : List Symbol) (offset pid : ℕ)
    → IsWilling host
    → host.symbols (debug args) ≡ some syms
    → resolve_page_io syms ≡ some offset
    → args.pid ≡ some pid
    → Completes (start_pageio host args) (page_io_effects pid offset (engine args))
unfolding start_pageio
start_pageio-Completes host args syms offset pid w file page target =
    let found : resolved resolve_page_io (host.symbols (debug args)) ≡ some offset =
      ap (resolved resolve_page_io) file ∙ page in
    let (p, pages) =
      Leaves-all (trace_pages-Succeeds host w args pid found)
        (trace_pages-Attaches host args pid offset found) in
    (p, given_target host pid (trace_pages host args) target ∙ pages)

-- On a host that refuses nothing, with the target given, each tracer whose debug file resolves (and,
-- of iowait, whose kernel symbols are readable) starts with all of its probes attached.
start_all :
    (host : Host) (args : Args) (syms : List Symbol) (o : DsqlOffsets) (a : AttachOffsets)
    (offset pid : ℕ) (text : Text)
    → IsWilling host
    → host.symbols (debug args) ≡ some syms
    → resolve_dsql syms ≡ some o
    → resolve_attach syms ≡ some a
    → resolve_page_io syms ≡ some offset
    → args.pid ≡ some pid
    → host.kallsyms ≡ some text
    → Completes (start_slowquery host args) (dsql_probes o (engine args))
      × Completes (start_attach host args) (attach_probes a (engine args))
      × Completes (start_pageio host args) (page_io_effects pid offset (engine args))
      × Completes (start_iowait host args) (io_wait_effects pid)
start_all host args syms o a offset pid text w file dsql att page target kernel = (
  start_slowquery-Completes host args syms o w file dsql,
  start_attach-Completes host args syms a w file att,
  start_pageio-Completes host args syms offset pid w file page target,
  start_iowait-Completes host args pid text w target kernel,
)
