-- ===== src/Attach/Human.antt =====
-- The lines that attach prints for people, `write_human` of crates/tragach-attach/src/main.rs, and
-- what can be read from them. The wall-clock time is an argument.
use mathlib.Core.List.{append_assoc}
use tragach.Event.{AttachEvent, opened, discriminant}
use tragach.Human.{Floats, fmt_duration}
use tragach.Prelude.Numerals.Fields.{from_str_radix-pad_left, length-pad_left}
use tragach.Prelude.{
  ◌^◌, ◌+◌, ◌<◌, ◌≡◌, ap, sym, ◌∙◌, some, ◌++◌, Text, codes, show, show_hex, pad_left,
  from_str_radix, take, drop, length, ◌==◌, if◌then◌else◌, take-append, drop-append, length-append,
}

unfoldable pub kind_str : AttachEvent → Text
kind_str ev = if ev.kind == discriminant opened then codes "opened" else codes "closed"

unfoldable pub duration_str : Floats → AttachEvent → Text
duration_str floats ev =
    if ev.kind == discriminant opened
    then codes "        -"
    else pad_left 32 9 (fmt_duration floats ev.duration_ns)

-- `{:016x}` of the pointer.
abbrev pub pointer : AttachEvent → Text
pointer ev = pad_left 48 16 (show_hex ev.attachment_ptr)

abbrev pub after_pointer : Floats → AttachEvent → Text
after_pointer floats ev =
    codes "  duration="
    ++ (duration_str floats ev
        ++ (codes "  pid="
            ++ (pad_left 32 6 (show ev.pid)
                ++ (codes " tid="
                    ++ (pad_left 32 6 (show ev.tid)
                        ++ (codes "  (" ++ (kind_str ev ++ codes ")\n")))))))

unfoldable pub write_human : Floats → (ts : Text) → AttachEvent → Text
write_human floats ts ev = ts ++ (codes "  att_ptr=0x" ++ (pointer ev ++ after_pointer floats ev))

-- The line has the attachment's pointer in 16 hexadecimal digits, 12 characters behind the time, and
-- they read back as the pointer.
pub write_human-pointer :
    (floats : Floats) (ts : Text) (ev : AttachEvent)
    → ev.attachment_ptr < 2 ^ 64
    → from_str_radix 16 (2 ^ 64) (take 16 (drop (length ts + 12) (write_human floats ts ev)))
      ≡ some ev.attachment_ptr
unfolding write_human
write_human-pointer floats ts ev wide =
    let front = ts ++ codes "  att_ptr=0x" in
    let rest = pointer ev ++ after_pointer floats ev in
    let columns : length front ≡ length ts + 12 = length-append ts (codes "  att_ptr=0x") in
    let line : write_human floats ts ev ≡ front ++ rest =
      sym (append_assoc ts (codes "  att_ptr=0x") rest) in
    let digits : take 16 (drop (length ts + 12) (write_human floats ts ev)) ≡ pointer ev =
      ap (λ l. take 16 (drop (length ts + 12) l)) line
      ∙ ap (take 16) (drop-append front rest (length ts + 12) columns)
      ∙ take-append (pointer ev) (after_pointer floats ev) 16 (length-pad_left ev.attachment_ptr) in
    ap (from_str_radix 16 (2 ^ 64)) digits
    ∙ from_str_radix-pad_left (2 ^ 64) 16 ev.attachment_ptr wide wide
