-- ===== src/Startup/Runs.antt =====
-- Whole starts of the tracers, whatever the host answers, and on a host that refuses nothing.
use tragach.Prelude.{
  ℕ, Option, none, some, List, [], ◌≡◌, ◌⊎◌, inl, inr, refl, ◌∙◌, subst, Option-cases, sym,
}
use tragach.Startup.Attaching.{Leaves, target_pid-Attaches}
use tragach.Startup.Order.{
  dsql_probes, attach_probes, page_io_effects, io_wait_effects, start_slowquery-Attaches,
  start_slowquery-Fails, start_attach-Attaches, start_attach-Fails, trace_pages-Attaches,
  trace_pages-Fails, trace_waits-Attaches, trace_waits-Fails,
}
use tragach.Startup.Outcomes.{quiet_first}
use tragach.Startup.Tracers.{
  Args, engine, debug, resolved, start_slowquery, start_attach, trace_pages, trace_waits,
  start_pageio, start_iowait,
}
use tragach.Startup.{Host, Effect, Failure, ok, failed, target_pid, Outcome}
use tragach.Symbols.Targets.{
  DsqlOffsets, AttachOffsets, resolve_dsql, resolve_attach, resolve_page_io, attach_target,
  page_io_target,
}
use tragach.Symbols.Unique.{
  IsResolved, resolve_dsql-IsResolved, Only, matches, resolve_attach-Only, resolve_page_io-Only,
}
use tragach.Symbols.{Symbol}

-- Nothing was done, and the start failed.
abbrev pub Refused : {A : Type 0} → Outcome A × List Effect → Type 0
Refused r = (e : Failure) × (r ≡ (failed e, []))

resolved-some :
    {A : Type 0} (resolve : List Symbol → Option A) (file : Option (List Symbol)) {a : A}
    → resolved resolve file ≡ some a
    → (syms : List Symbol) × (file ≡ some syms) × (resolve syms ≡ some a)
resolved-some resolve none e = absurd (cc)
resolved-some resolve (some syms) e = (syms, refl, e)

-- The ten probes at the offsets that the symbols determine, or as many of the first as are attached
-- when the start fails; or nothing.
abbrev pub AttachesDsql : Host → Args → Type 0
AttachesDsql host args =
    ((syms : List Symbol) × (o : DsqlOffsets) × (host.symbols (debug args) ≡ some syms)
      × IsResolved syms o
      × Leaves (dsql_probes o (engine args)) [] (start_slowquery host args []))
    ⊎ Refused (start_slowquery host args [])

-- On every host, slowquery attaches in order its ten probes, all of them if it starts and the
-- first of them if it fails, at the offsets that the debug file's symbols determine; or it fails
-- with nothing attached.
pub start_slowquery-dsql_probes : (host : Host) (args : Args) → AttachesDsql host args
start_slowquery-dsql_probes host args =
    elim (Option-cases (resolved resolve_dsql (host.symbols (debug args)))) [
      | inl e ↦ inr ((start_slowquery-Fails host args e).fails [])
      | inr (o, e) ↦
          let (syms, file, found) = resolved-some resolve_dsql (host.symbols (debug args)) e in
          inl (
            syms,
            o,
            file,
            resolve_dsql-IsResolved syms o found,
            (start_slowquery-Attaches host args o e).leaves [],
          )
    ]

-- The two probes of attach in the same way.
abbrev pub AttachesAttach : Host → Args → Type 0
AttachesAttach host args =
    ((syms : List Symbol) × (o : AttachOffsets) × (host.symbols (debug args) ≡ some syms)
      × Only o.attachment_ctor (matches attach_target 0 syms)
      × Only o.release_attachment (matches attach_target 1 syms)
      × Leaves (attach_probes o (engine args)) [] (start_attach host args []))
    ⊎ Refused (start_attach host args [])

-- On every host, attach attaches in order its two probes, all of them if it starts and the first of
-- them if it fails, at offsets that are the only addresses of its functions in the debug file; or it
-- fails with nothing attached.
pub start_attach-attach_probes : (host : Host) (args : Args) → AttachesAttach host args
start_attach-attach_probes host args =
    elim (Option-cases (resolved resolve_attach (host.symbols (debug args)))) [
      | inl e ↦ inr ((start_attach-Fails host args e).fails [])
      | inr (o, e) ↦
          let (syms, file, found) = resolved-some resolve_attach (host.symbols (debug args)) e in
          let (ctor, release) = resolve_attach-Only syms o found in
          inl (syms, o, file, ctor, release, (start_attach-Attaches host args o e).leaves [])
    ]

-- The target and then the four probes, or as many of the first of these as are done when the start
-- fails; or nothing.
abbrev pub AttachesPages : Host → Args → Type 0
AttachesPages host args =
    ((pid : ℕ) × (offset : ℕ) × (syms : List Symbol) × (target_pid host args.pid [] ≡ (ok pid, []))
      × (host.symbols (debug args) ≡ some syms)
      × Only offset (matches page_io_target 0 syms)
      × Leaves (page_io_effects pid offset (engine args)) [] (start_pageio host args []))
    ⊎ Refused (start_pageio host args [])

-- On every host, pageio first sets the target of its filter, to the process that it found, and then
-- attaches its four probes in order, all of them if it starts and the first of them if it fails, with
-- the uprobes at the only address of `CCH_fetch_page` in the debug file; or it fails with nothing
-- done.
pub start_pageio-target_set : (host : Host) (args : Args) → AttachesPages host args
unfolding start_pageio
start_pageio-target_set host args =
    elim (quiet_first (target_pid host args.pid) (trace_pages host args) []
      (target_pid-Attaches host args.pid)) [
        | inr refused ↦ inr refused
        | inl (pid, found, rest) ↦
            elim (Option-cases (resolved resolve_page_io (host.symbols (debug args)))) [
              | inl e ↦
                  let (why, stuck) = (trace_pages-Fails host args pid e).fails [] in
                  inr (why, rest ∙ stuck)
              | inr (offset, e) ↦
                  let (syms, file, resolves) =
                    resolved-some resolve_page_io (host.symbols (debug args)) e in
                  inl (
                    pid,
                    offset,
                    syms,
                    found,
                    file,
                    resolve_page_io-Only syms offset resolves,
                    subst (Leaves (page_io_effects pid offset (engine args)) []) (sym rest)
                        ((trace_pages-Attaches host args pid offset e).leaves []),
                  )
            ]
      ]

-- The target and then the two probes of iowait in the same way.
abbrev pub AttachesWaits : Host → Args → Type 0
AttachesWaits host args =
    ((pid : ℕ) × (target_pid host args.pid [] ≡ (ok pid, []))
      × Leaves (io_wait_effects pid) [] (start_iowait host args []))
    ⊎ Refused (start_iowait host args [])

-- On every host, iowait first sets the target of its filter, to the process that it found, and then
-- attaches its two probes in order, all of them if it starts and the first of them if it fails; or
-- it fails with nothing done.
pub start_iowait-target_set : (host : Host) (args : Args) → AttachesWaits host args
unfolding start_iowait
start_iowait-target_set host args =
    elim (quiet_first (target_pid host args.pid) (trace_waits host) []
      (target_pid-Attaches host args.pid)) [
        | inr refused ↦ inr refused
        | inl (pid, found, rest) ↦ elim (Option-cases host.kallsyms) [
          | inl e ↦
              let (why, stuck) = (trace_waits-Fails host pid e).fails [] in inr (why, rest ∙ stuck)
          | inr (text, e) ↦ inl (
            pid,
            found,
            subst (Leaves (io_wait_effects pid) []) (sym rest)
                ((trace_waits-Attaches host pid text e).leaves []),
          )
        ]
      ]
