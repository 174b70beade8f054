-- ===== src/Tests/Starts.antt =====
-- Starts of the tracers on a host with a small engine, crates/tragach-slowquery/src/main.rs,
-- crates/tragach-pageio/src/main.rs and crates/tragach-iowait/src/main.rs, and a symbol table of
-- xtask/src/main.rs.
use mathlib.Core.List.{Permᴰ}
use tragach.Prelude.{Text, true, none, some, [], ◌∷◌, ◌++◌, ◌≡◌, refl, codes, show, arith}
use tragach.Startup.Pid.{resolve_firebird_pid-show}
use tragach.Startup.Runs.{
  AttachesDsql, AttachesPages, AttachesAttach, AttachesWaits, start_attach-attach_probes,
  start_iowait-target_set, start_slowquery-dsql_probes, start_pageio-target_set,
}
use tragach.Startup.Tracers.{Args}
use tragach.Startup.Willing.{IsWilling}
use tragach.Startup.{Host, ok, resolve_firebird_pid}
use tragach.Tests.Files.{engine}
use tragach.Xtask.Artifact.{run-SameLines}
use tragach.Xtask.{Machine, run, symbols, symbol_lines, split_lines, filter_lines}

-- /proc/kallsyms.
abbrev pub kernel_text : Text
kernel_text = codes "0000000000000064 t schedule\n00000000000000c8 T blk_x\n"

-- pgrep prints the processes 42 and 7.
abbrev pub host : Host
host = record {
  exists = λ _. true;
  symbols = λ _. some engine;
  pgrep = some (true, some (show 42 ++ 10 ∷ 55 ∷ 10 ∷ []));
  setrlimit = true;
  load_object = true;
  has_program = λ _. true;
  is_program = λ _. true;
  load_program = λ _. true;
  attach = λ _ _. true;
  has_map = λ _. true;
  is_map = λ _. true;
  set_target = λ _. true;
  kallsyms = some kernel_text;
}

abbrev pub args : Args
args = record { firebird_prefix = codes "/opt/firebird-v5"; debug_path = none; pid = some 42 }

start_slowquery-dsql_probes_example : AttachesDsql host args
start_slowquery-dsql_probes_example = start_slowquery-dsql_probes host args

start_pageio-target_set_example : AttachesPages host args
start_pageio-target_set_example = start_pageio-target_set host args

start_attach-attach_probes_example : AttachesAttach host args
start_attach-attach_probes_example = start_attach-attach_probes host args

start_iowait-target_set_example : AttachesWaits host args
start_iowait-target_set_example = start_iowait-target_set host args

pub host-IsWilling : IsWilling host
host-IsWilling = record {
  exists = λ _. refl;
  load_object = refl;
  has_program = λ _. refl;
  is_program = λ _. refl;
  load_program = λ _. refl;
  attach = λ _ _. refl;
  has_map = λ _. refl;
  is_map = λ _. refl;
  set_target = λ _. refl;
}

resolve_firebird_pid-show_example : resolve_firebird_pid host [] ≡ (ok 42, [])
resolve_firebird_pid-show_example =
    resolve_firebird_pid-show host 42 (55 ∷ 10 ∷ []) [] (omega arith) refl

-- nm prints the lines "b" and "a".
abbrev machine : Machine
machine = record {
  exists = λ _. true;
  nm = λ _. some (true, codes "b\na\n");
  repo_root = codes "/src";
  create_dir_all = λ _. true;
  write = λ _ _. true;
}

run-SameLines_example :
    run machine (symbols (codes "/opt") (codes "v5"))
    ≡ run
        (record machine { nm = λ _. some (true, codes "a\n\nb") })
        (symbols (codes "/opt") (codes "v5"))
unfolding symbol_lines split_lines filter_lines
run-SameLines_example =
    run-SameLines machine (λ _. some (true, codes "a\n\nb")) (symbols (codes "/opt") (codes "v5"))
      (λ _. Permᴰ.swap refl refl)
