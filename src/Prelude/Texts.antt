-- ===== src/Prelude/Texts.antt =====
-- Texts as lists of code points: literals, the printing and the reading of numbers, padding, words.
use Prim.Native.Char.{code}
use Prim.Native.Nat.{ℕ, zero, suc, ◌+◌, ◌-◌, ◌*◌, ◌/◌, ◌%◌}
use Prim.Native.String.{String}
use mathlib.Core.Bool.{Bool, true, false, ◌&&◌, ◌||◌}
use mathlib.Core.List.{List, [], ◌∷◌, ◌++◌}
use mathlib.Core.Option.{Option, none, some}
use tragach.Prelude.Lists.{length, replicate}
use tragach.Prelude.Tests.{ltb, leb, ◌==◌, if◌then◌else◌}

abbrev pub Text : Type 0
Text = List ℕ

-- `String` has its own `[]` and `∷`.
abbrev pub codes : String → Text
codes String.[] = []
codes (String.◌∷◌ c s) = code c ∷ codes s

-- `str::starts_with`
abbrev pub starts_with : Text → Text → Bool
starts_with name [] = true
starts_with [] (p ∷ prefix) = false
starts_with (c ∷ name) (p ∷ prefix) = (c == p) && starts_with name prefix

-- `==` on strings
abbrev pub eq_str : Text → Text → Bool
eq_str [] [] = true
eq_str (c ∷ s) (d ∷ t) = (c == d) && eq_str s t
eq_str _ _ = false

-- The digits of a number in a base up to 16, before a text; none for 0, and at most `fuel` of them.
abbrev pub digit : ℕ → ℕ
digit d = if ltb d 10 then 48 + d else 87 + d

unfoldable pub digits : (base fuel : ℕ) → ℕ → Text → Text
digits base zero n out = out
digits base (suc fuel) n out =
    let rest = digits base fuel (n / base) (digit (n % base) ∷ out) in if n == 0 then out else rest

-- `{}` and `{:x}` of a 64-bit number.
unfoldable pub show_in : (base fuel : ℕ) → ℕ → Text
show_in base fuel n = if n == 0 then 48 ∷ [] else digits base fuel n []

unfoldable pub show : ℕ → Text
show n = show_in 10 20 n

unfoldable pub show_hex : ℕ → Text
show_hex n = show_in 16 16 n

-- `{:>width}`, `{:<width}` and `{:0width}`
abbrev pub pad_left : ℕ → ℕ → Text → Text
pad_left fill width t = replicate (width - length t) fill ++ t

abbrev pub pad_right : ℕ → Text → Text
pad_right width t = t ++ replicate (width - length t) 32

-- `char::to_digit`
abbrev pub to_digit : ℕ → ℕ → Option ℕ
to_digit base c =
    if leb 48 c && leb c 57 && ltb (c - 48) base
    then some (c - 48)
    else if leb 97 c && leb c 122 && ltb (c - 87) base
    then some (c - 87)
    else if leb 65 c && leb c 90 && ltb (c - 55) base
    then some (c - 55)
    else none

-- The digits of `from_str_radix` for an unsigned type of so many values: a character that is no
-- digit and an overflow are errors.
abbrev pub next_value : (base limit acc : ℕ) → Option ℕ → Option ℕ
next_value base limit acc none = none
next_value base limit acc (some d) =
    if ltb (acc * base + d) limit then some (acc * base + d) else none

unfoldable pub read_digits : (base limit : ℕ) → Option ℕ → Text → Option ℕ
read_digits base limit acc [] = acc
read_digits base limit none (c ∷ t) = none
read_digits base limit (some acc) (c ∷ t) =
    read_digits base limit (next_value base limit acc (to_digit base c)) t

-- `from_str_radix`: a leading plus sign is allowed, an empty text is an error.
abbrev pub not_empty : Text → Bool
not_empty [] = false
not_empty (c ∷ t) = true

abbrev pub unsigned : Text → Text
unsigned [] = []
unsigned (c ∷ t) = if c == 43 && not_empty t then t else c ∷ t

unfoldable pub from_str_radix : (base limit : ℕ) → Text → Option ℕ
unfolding read_digits
from_str_radix base limit t =
    if not_empty t then read_digits base limit (some 0) (unsigned t) else none

-- `char::is_whitespace`
abbrev pub is_whitespace : ℕ → Bool
is_whitespace c =
    (leb 9 c && leb c 13)
    || c == 32
    || c == 133
    || c == 160
    || c == 5760
    || (leb 8192 c && leb c 8202)
    || c == 8232
    || c == 8233
    || c == 8239
    || c == 8287
    || c == 12288

-- `text.split_whitespace().next()`
abbrev pub until_space : Text → Text
until_space [] = []
until_space (c ∷ t) = let rest = until_space t in if is_whitespace c then [] else c ∷ rest

unfoldable pub first_word : Text → Option Text
first_word [] = none
first_word (c ∷ t) =
    let rest = first_word t in if is_whitespace c then rest else some (c ∷ until_space t)

-- A character in front of the first line.
abbrev pub put_front : ℕ → List Text → List Text
put_front c [] = (c ∷ []) ∷ []
put_front c (line ∷ rest) = (c ∷ line) ∷ rest
