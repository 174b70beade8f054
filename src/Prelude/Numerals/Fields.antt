-- ===== src/Prelude/Numerals/Fields.antt =====
-- Numbers in fields of fixed width, with leading zeros.
use Prim.Native.Nat.{ℕ, zero, suc, ◌+◌, ◌-◌, ◌/◌, ◌%◌, ◌^◌, ◌≤◌, ◌<◌}
use mathlib.Core.List.{[], ◌∷◌, ◌++◌}
use mathlib.Core.Logic.{inl, inr}
use mathlib.Core.Option.{some}
use mathlib.Core.Path.{◌≡◌, refl, ap, sym, ◌∙◌}
use native.Mathlib.Omega.{arith}
use tragach.Prelude.Lists.{length-append, length-replicate, All, All-append, length, replicate}
use tragach.Prelude.Tests.{◌==◌, Bool-cases}
use tragach.Prelude.Texts.{
  Text, digit, digits, show_in, show_hex, to_digit, next_value, read_digits, pad_left,
  from_str_radix,
}
use tragach.Prelude.Numerals.{
  IsPlain, to_digit-digit, digits_pos-IsPlain, from_str_radix-IsPlain, from_str_radix-show_hex,
  show_hex-above,
}

replicate-above : (k : ℕ) → All (λ c. 48 ≤ c) (replicate k 48)
replicate-above zero = tt
replicate-above (suc k) = (omega arith, replicate-above k)

-- Leading zeros change nothing.
padded-IsPlain : (k : ℕ) (t : Text) → IsPlain t → IsPlain (replicate k 48 ++ t)
padded-IsPlain zero t h = h
padded-IsPlain (suc k) t h = λ e. absurd (omega (arith, e))

read_digits-padded :
    (base limit k : ℕ) (t : Text)
    → 2 ≤ base
    → base ≤ 16
    → 0 < limit
    → read_digits base limit (some 0) (replicate k 48 ++ t) ≡ read_digits base limit (some 0) t
unfolding read_digits
read_digits-padded base limit zero t two sixteen pos = refl
read_digits-padded base limit (suc k) t two sixteen pos =
    let zero_digit : to_digit base 48 ≡ some 0 = to_digit-digit base 0 sixteen (omega arith) in
    let fits : next_value base limit 0 (some 0) ≡ some 0 = ground arith in
    ap (λ o. read_digits base limit (next_value base limit 0 o) (replicate k 48 ++ t)) zero_digit
    ∙ ap (λ o. read_digits base limit o (replicate k 48 ++ t)) fits
    ∙ read_digits-padded base limit k t two sixteen pos

show_hex-IsPlain : (n : ℕ) → IsPlain (show_hex n)
unfolding show_hex show_in
show_hex-IsPlain n = elim (Bool-cases (n == 0)) [
  | inl z ↦ rw z (λ e. absurd (omega (arith, e)))
  | inr z ↦ rw z (digits_pos-IsPlain 16 15 n z)
]

pub from_str_radix-pad_left :
    (limit width n : ℕ)
    → n < limit
    → n < 2 ^ 64
    → from_str_radix 16 limit (pad_left 48 width (show_hex n)) ≡ some n
from_str_radix-pad_left limit width n lt wide =
    let k = width - length (show_hex n) in
    from_str_radix-IsPlain 16 limit _ (padded-IsPlain k (show_hex n) (show_hex-IsPlain n))
    ∙ read_digits-padded 16 limit k (show_hex n) (omega arith) (omega arith) (omega arith)
    ∙ sym (from_str_radix-IsPlain 16 limit _ (show_hex-IsPlain n))
    ∙ from_str_radix-show_hex limit n lt wide

pub pad_left-above : (width n : ℕ) → All (λ c. 48 ≤ c) (pad_left 48 width (show_hex n))
pad_left-above width n =
    All-append (λ c. 48 ≤ c) _ (show_hex n) (replicate-above (width - length (show_hex n)))
      (show_hex-above n)

length-digits-le :
    (base fuel n : ℕ) (out : Text) → length (digits base fuel n out) ≤ fuel + length out
unfolding digits
length-digits-le base zero n out = omega arith
length-digits-le base (suc fuel) n out = elim (Bool-cases (n == 0)) [
  | inl z ↦ rw z (omega arith)
  | inr z ↦ rw z (omega (arith, length-digits-le base fuel (n / base) (digit (n % base) ∷ out)))
]

length-show_hex-le : (n : ℕ) → length (show_hex n) ≤ 16
unfolding show_hex show_in
length-show_hex-le n = elim (Bool-cases (n == 0)) [
  | inl z ↦ rw z (omega arith)
  | inr z ↦ rw z (omega (arith, length-digits-le 16 16 n []))
]

-- `{:016x}` has 16 digits.
pub length-pad_left : (n : ℕ) → length (pad_left 48 16 (show_hex n)) ≡ 16
length-pad_left n = omega (
  arith,
  length-append (replicate (16 - length (show_hex n)) 48) (show_hex n),
  length-replicate {A = ℕ} (16 - length (show_hex n)) 48,
  length-show_hex-le n,
)
