-- ===== src/Tests/Mains.antt =====
-- The whole of `main` of crates/tragach-iowait/src/main.rs and crates/tragach-pageio/src/main.rs.
use tragach.IoWait.Kallsyms.Load.{load}
use tragach.IoWait.Main.{main, main-spans, served}
use tragach.IoWait.Session.{ticks, AreReports, running}
use tragach.IoWait.Windows.{JsonWindow}
use tragach.Kernel.Bounded.{bounded_hash, get}
use tragach.Prelude.{◌≡◌, refl, some, none, false, List, [], ◌∷◌, arith}
use tragach.PageIo
use tragach.PageIo.Main as PageIoMain
use tragach.PageIo.Main.{main-windows}
use tragach.PageIo.Session as PageIoSession
use tragach.PageIo.Session.{AreWindows}
use tragach.Symbols.{scan, target, check_unique}
use tragach.Symbols.Targets.{resolve_page_io, page_io_target}
use tragach.Tests.Files.{engine}
use tragach.Tests.Others.{bucket, hash, block, two_cpus, io}
use tragach.Tests.Starts.{host, args, host-IsWilling, kernel_text}
use tragach.Tests.Waits.{awake, groups, groups-Runs, stacks}
use tragach.Tests.Windows.{iter}

main-spans_example :
    (windows : List JsonWindow) × (main ⦃hash = hash⦄ ⦃bucket = bucket⦄ iter stacks 1000 5 false 0
        host
        (record args { pid = some 7 })
        awake
        (ticks groups)
      ≡ served (windows, running))
    × AreReports (load kernel_text) stacks 1000 7 (some 7) (λ t. none) groups windows
unfolding bounded_hash get
main-spans_example =
    main-spans ⦃hash = hash⦄ ⦃bucket = bucket⦄ iter stacks 1000 5 0 host
      (record args { pid = some 7 }) 7 kernel_text groups awake host-IsWilling refl refl (λ k. refl)
      groups-Runs

main-windows_example :
    (windows : List PageIo.PageIoCounters) × (PageIoMain.main host args two_cpus
        (λ s. PageIoSession.ticks ⦃hash = hash⦄ ⦃block = block⦄ s (io ∷ [] ∷ io ∷ []))
      ≡ PageIoMain.served 42 (windows, PageIoSession.running))
    × AreWindows ⦃hash = hash⦄ ⦃block = block⦄
        (record two_cpus { target_tgid = some 42 })
        (io ∷ [] ∷ io ∷ [])
        windows
unfolding resolve_page_io scan target check_unique page_io_target
main-windows_example =
    main-windows ⦃hash = hash⦄ ⦃block = block⦄ host args engine 80 42 2 (io ∷ [] ∷ io ∷ []) two_cpus
      host-IsWilling refl refl refl refl (omega arith)
