-- ===== src/Tests/Lines.antt =====
-- Lines that the tracers print for people, crates/tragach-attach/src/main.rs,
-- crates/tragach-pageio/src/main.rs, crates/tragach-slowquery/src/main.rs and
-- crates/tragach-iowait/src/main.rs, with floating-point numbers rounded down.
use tragach.Attach.Human
use tragach.Attach.Human.{write_human-pointer, kind_str, duration_str}
use tragach.Build.{Machine, build_bpf_subcrate, target_triple, copied}
use tragach.Build.Objects.{attach, main_attach, main-includes}
use tragach.Build.Succeeded.{Done}
use tragach.Event.{AttachEvent}
use tragach.Human.{Floats, fmt_duration}
use tragach.IoWait.Classify.{futex}
use tragach.IoWait.Human as Waits
use tragach.IoWait.Human.{
  is_scheduler, first_meaningful, meaningful_frame, max_entry, top_frame, insert_reason,
  sort_reasons,
}
use tragach.IoWait.Windows.{sort, insert_sorted}
use tragach.PageIo.Human as Pages
use tragach.PageIo.Human.{fmt_bytes, fmt_dur_ns}
use tragach.PageIo.Userspace.{default}
use tragach.Prelude.{
  ◌+◌, ◌/◌, ◌^◌, ◌≡◌, some, [], ◌∷◌, ◌++◌, if◌then◌else◌, false, refl, codes, show, show_hex,
  show_in, digits, true, eq_str, take, drop, length, from_str_radix, arith,
}

abbrev pub floats : Floats
floats = record {
  seconds = λ ns. show (ns / 1000000000);
  millis = λ ns. show (ns / 1000000);
  quotient = λ a b. show (a / b);
}

abbrev closed_event : AttachEvent
closed_event = record {
  ts_ns = 190;
  duration_ns = 90000;
  attachment_ptr = 139637976727552;
  pid = 7;
  tid = 9;
  kind = 1;
  pad = 0;
}

write_human-pointer_example :
    from_str_radix 16 (2 ^ 64) (
      take 16
        (drop (length (codes "now") + 12) (Human.write_human floats (codes "now") closed_event)))
    ≡ some 139637976727552
write_human-pointer_example = write_human-pointer floats (codes "now") closed_event (omega arith)

closed_line :
    Human.write_human floats (codes "now") closed_event
    ≡ codes "now  att_ptr=0x00007f0000000000  duration=     90us  pid=     7 tid=     9  (closed)\n"
unfolding Human.write_human kind_str duration_str fmt_duration show show_hex show_in digits
closed_line = refl

kilobytes : fmt_bytes floats 5000 ≡ codes "4 kB"
unfolding fmt_bytes show show_in digits
kilobytes = refl

idle_window :
    Pages.write_human floats (λ ms. show (ms / 1000) ++ codes "s") (codes "now") default 10000 42
    ≡ codes "=== tragach-pageio  10s window  pid=42 ==="
      ∷ codes "  (no page-I/O activity in this window)  [now]"
      ∷ []
      ∷ []
unfolding Pages.write_human show show_in digits
idle_window = refl

waits :
    Waits.write_human
      (λ ns. show (ns / 1000000) ++ codes "ms")
      (codes "10s")
      (codes "90")
      42
      1
      false
      0
      (record {
        reason = futex;
        agg = record {
          total_ns = 30000000;
          pids = 9 ∷ [];
          by_stack =
              record {
                stack_id = 3;
                ns = 30000000;
                frames = codes "schedule" ∷ codes "futex_wait" ∷ [];
              }
              ∷ [];
        };
      }
        ∷ [])
    ≡ codes "=== tragach-iowait  10s window  pid=42 ==="
      ∷ codes "Off-CPU time by reason:"
      ∷ codes "  futex wait            :    30ms  (  1 threads, top: futex_wait)"
      ∷ codes "         30ms  schedule → futex_wait"
      ∷ []
      ∷ []
unfolding Waits.write_human top_frame max_entry meaningful_frame first_meaningful is_scheduler
    sort_reasons insert_reason sort insert_sorted show show_in digits
waits = refl

-- A build on x86-64, whose command succeeds.
abbrev machine : Machine
machine = record {
  manifest_dir = codes "/src/crates/tragach-attach";
  exists = λ _. true;
  var = λ name.
      if eq_str (codes name) (codes "CARGO_CFG_TARGET_ENDIAN")
      then some (codes "little")
      else if eq_str (codes name) (codes "OUT_DIR")
      then some (codes "/out")
      else some (codes "tragach-attach");
  status = λ _. some true;
  copy = λ _ _. true;
}

attach_object :
    build_bpf_subcrate machine (codes "src/bpf")
    ≡ copied
        (codes "/out/bpf-target/bpfel-unknown-none/release/tragach-attach")
        (codes "/out/tragach-attach")
unfolding build_bpf_subcrate target_triple
attach_object = refl

main-includes_example :
    Done machine
      (codes "/src/crates/tragach-attach/src/bpf/Cargo.toml")
      (codes "/out/bpf-target/bpfel-unknown-none/release/tragach-attach")
      (codes "/out/tragach-attach")
    × (codes "/out/tragach-attach" ≡ codes "/out" ++ codes "/tragach-attach")
unfolding main_attach build_bpf_subcrate target_triple
main-includes_example =
    main-includes attach machine (codes "/out")
      (codes "/out/bpf-target/bpfel-unknown-none/release/tragach-attach")
      (codes "/out/tragach-attach") refl refl refl refl
