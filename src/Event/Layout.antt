-- ===== src/Event/Layout.antt =====
-- The `#[repr(C)]` layouts of event.rs on a little-endian machine: fields in order, no padding but
-- the explicit one, and words as their bytes from the lowest.
use native.Mathlib.Nat.{pow-suc}
use tragach.Event.{SlowQueryEvent, AttachEvent}
use tragach.Prelude.{
  ℕ, zero, suc, ◌+◌, ◌*◌, ◌/◌, ◌%◌, ◌^◌, ◌<◌, ◌≡◌, List, [], ◌∷◌, ◌++◌, take, drop, arith,
}

-- The `w` bytes of a word.
unfoldable pub le_bytes : ℕ → ℕ → List ℕ
le_bytes zero n = []
le_bytes (suc w) n = n % 256 ∷ le_bytes w (n / 256)

unfoldable pub from_le_bytes : List ℕ → ℕ
from_le_bytes [] = 0
from_le_bytes (b ∷ bs) = b + 256 * from_le_bytes bs

-- The word of `w` bytes at an offset.
unfoldable pub read_word : ℕ → ℕ → List ℕ → ℕ
read_word w offset bytes = from_le_bytes (take w (drop offset bytes))

unfoldable pub slow_query_bytes : SlowQueryEvent → List ℕ
slow_query_bytes e =
    le_bytes 8 e.ts_ns
    ++ (le_bytes 8 e.prepare_ns
        ++ (le_bytes 8 e.execute_ns
            ++ (le_bytes 8 e.attachment_id
                ++ (le_bytes 4 e.tid
                    ++ (le_bytes 4 e.sql_len
                        ++ (le_bytes 4 e.sql_truncated ++ (le_bytes 4 e.pad ++ e.sql)))))))

unfoldable pub attach_bytes : AttachEvent → List ℕ
attach_bytes e =
    le_bytes 8 e.ts_ns
    ++ (le_bytes 8 e.duration_ns
        ++ (le_bytes 8 e.attachment_ptr
            ++ (le_bytes 4 e.pid ++ (le_bytes 4 e.tid ++ (le_bytes 4 e.kind ++ le_bytes 4 e.pad)))))

abbrev pub size_of_slow_query_event : ℕ
size_of_slow_query_event = 560

abbrev pub size_of_attach_event : ℕ
size_of_attach_event = 40

pub from_le_bytes-le_bytes : (w n : ℕ) → n < 256 ^ w → from_le_bytes (le_bytes w n) ≡ n
unfolding from_le_bytes le_bytes
from_le_bytes-le_bytes zero n h = omega arith
from_le_bytes-le_bytes (suc w) n h =
    let e : 256 ^ suc w ≡ 256 ^ w * 256 = pow-suc 256 w in
    omega (arith, from_le_bytes-le_bytes w (n / 256) (omega arith))

pub word64 : (n : ℕ) → n < 2 ^ 64 → from_le_bytes (le_bytes 8 n) ≡ n
word64 n h = omega (arith, from_le_bytes-le_bytes 8 n h)

pub word32 : (n : ℕ) → n < 2 ^ 32 → from_le_bytes (le_bytes 4 n) ≡ n
word32 n h = omega (arith, from_le_bytes-le_bytes 4 n h)
