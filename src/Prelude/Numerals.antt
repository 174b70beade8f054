-- ===== src/Prelude/Numerals.antt =====
-- A printed number reads back, and its digits are enough.
pub mod Fields
use Prim.Native.Nat.{ℕ, zero, suc, ◌+◌, ◌-◌, ◌*◌, ◌/◌, ◌%◌, ◌^◌, ◌≤◌, ◌<◌}
use mathlib.Core.Bool.{true, false}
use mathlib.Core.List.{[], ◌∷◌, ◌++◌}
use mathlib.Core.Logic.{◌≢◌, inl, inr}
use mathlib.Core.Option.{some}
use mathlib.Core.Path.{◌≡◌, refl, ap, sym, subst, ◌∙◌}
use native.Mathlib.Nat.{mod-lt, mod-add-div'}
use native.Mathlib.Omega.{arith}
use tragach.Prelude.Lists.{length-append, length-replicate, All, All-append, length, replicate}
use native.Mathlib.Nat.{div-le_self}
use tragach.Prelude.Tests.{◌==◌, ==-of_ne, Bool-cases}
use tragach.Prelude.Texts.{
  Text, digit, digits, show_in, show, show_hex, to_digit, next_value, read_digits, pad_left,
  is_whitespace, until_space, first_word, from_str_radix,
}

-- The number has at most so many digits.
abbrev Small : (base fuel : ℕ) → ℕ → Type 0
Small base zero n = n ≡ 0
Small base (suc fuel) n = Small base fuel (n / base)

to_digit-digit : (base d : ℕ) → base ≤ 16 → d < base → to_digit base (digit d) ≡ some d
to_digit-digit base d h lt = ground arith

read_digits-digits :
    (base limit fuel n : ℕ) (out : Text)
    → 2 ≤ base
    → base ≤ 16
    → Small base fuel n
    → n < limit
    → read_digits base limit (some 0) (digits base fuel n out) ≡ read_digits base limit (some n) out
unfolding digits read_digits
read_digits-digits base limit zero n out two sixteen small lt =
    ap (λ k. read_digits base limit (some k) out) (omega (arith, small))
read_digits-digits base limit (suc fuel) n out two sixteen small lt = elim (Bool-cases (n == 0)) [
  | inl z ↦
      let e : 0 ≡ n = ground (arith, z) in rw z (ap (λ k. read_digits base limit (some k) out) e)
  | inr z ↦
      let d : n % base < base = mod-lt n {m = base} (omega arith) in
      let whole : n / base * base + n % base ≡ n = omega (arith, mod-add-div' n base) in
      let smaller : n / base < limit = omega (arith, div-le_self n base) in
      let stepped : read_digits base limit (some (n / base)) (digit (n % base) ∷ out)
          ≡ read_digits base limit (some n) out =
        ap (λ o. read_digits base limit (next_value base limit (n / base) o) out)
          (to_digit-digit base (n % base) sixteen d)
        ∙ ap (λ o. read_digits base limit o out) (ground (arith, whole)) in
      rw z (
        read_digits-digits base limit fuel (n / base) (digit (n % base) ∷ out) two sixteen small
          smaller
        ∙ stepped)
]

decimal-Small : (n : ℕ) → n < 2 ^ 64 → Small 10 20 n
decimal-Small n h = omega arith

hexadecimal-Small : (n : ℕ) → n < 2 ^ 64 → Small 16 16 n
hexadecimal-Small n h = omega arith

-- The text is not empty and begins with no sign.
abbrev IsPlain : Text → Type 0
IsPlain [] = ⊥
IsPlain (c ∷ t) = c ≢ 43

digit-ne-sign : (d : ℕ) → digit d ≢ 43
digit-ne-sign d e = ground arith

digits-IsPlain : (base fuel n : ℕ) (out : Text) → IsPlain out → IsPlain (digits base fuel n out)
unfolding digits
digits-IsPlain base zero n out h = h
digits-IsPlain base (suc fuel) n out h = elim (Bool-cases (n == 0)) [
  | inl z ↦ rw z h
  | inr z ↦
      rw z (digits-IsPlain base fuel (n / base) (digit (n % base) ∷ out) (digit-ne-sign (n % base)))
]

digits_pos-IsPlain : (base fuel n : ℕ) → (n == 0) ≡ false → IsPlain (digits base (suc fuel) n [])
unfolding digits
digits_pos-IsPlain base fuel n z =
    rw z (digits-IsPlain base fuel (n / base) (digit (n % base) ∷ []) (digit-ne-sign (n % base)))

from_str_radix-IsPlain :
    (base limit : ℕ) (t : Text)
    → IsPlain t
    → from_str_radix base limit t ≡ read_digits base limit (some 0) t
unfolding from_str_radix
from_str_radix-IsPlain base limit [] h = absurd h
from_str_radix-IsPlain base limit (c ∷ t) h = rw (==-of_ne c 43 h)

from_str_radix-show_in :
    (base limit fuel n : ℕ)
    → 2 ≤ base
    → base ≤ 16
    → Small base (suc fuel) n
    → n < limit
    → from_str_radix base limit (show_in base (suc fuel) n) ≡ some n
unfolding show_in
from_str_radix-show_in base limit fuel n two sixteen small lt = elim (Bool-cases (n == 0)) [
  | inl z ↦
      let zero_digit : to_digit base 48 ≡ some 0 = to_digit-digit base 0 sixteen (omega arith) in
      rw z (unfold from_str_radix read_digits in rw zero_digit (ground (arith, z, lt)))
  | inr z ↦ rw z (
      from_str_radix-IsPlain base limit (digits base (suc fuel) n [])
        (digits_pos-IsPlain base fuel n z)
      ∙ read_digits-digits base limit (suc fuel) n [] two sixteen small lt
      ∙ (unfold read_digits in refl))
]

-- A 64-bit number within the limit reads back from its decimal and from its hexadecimal digits.
pub from_str_radix-show :
    (limit n : ℕ) → n < limit → n < 2 ^ 64 → from_str_radix 10 limit (show n) ≡ some n
unfolding show
from_str_radix-show limit n lt wide =
    from_str_radix-show_in 10 limit 19 n (omega arith) (omega arith) (decimal-Small n wide) lt

pub from_str_radix-show_hex :
    (limit n : ℕ) → n < limit → n < 2 ^ 64 → from_str_radix 16 limit (show_hex n) ≡ some n
unfolding show_hex
from_str_radix-show_hex limit n lt wide =
    from_str_radix-show_in 16 limit 15 n (omega arith) (omega arith) (hexadecimal-Small n wide) lt

-- No character of the text is white space.
abbrev pub IsWord : Text → Type 0
IsWord t = All (λ c. is_whitespace c ≡ false) t

-- What holds of every digit holds of the characters of a printed number.
module _ (P : ℕ → Type 0) (of_digit : (d : ℕ) → d < 16 → P (digit d)) where
  digits-All :
      (base fuel n : ℕ) (out : Text)
      → 2 ≤ base
      → base ≤ 16
      → All P out
      → All P (digits base fuel n out)
  unfolding digits
  digits-All base zero n out two sixteen h = h
  digits-All base (suc fuel) n out two sixteen h = elim (Bool-cases (n == 0)) [
    | inl z ↦ rw z h
    | inr z ↦
        let small : n % base < base = mod-lt n {m = base} (omega arith) in
        let first : P (digit (n % base)) = of_digit (n % base) (omega arith) in
        rw z (digits-All base fuel (n / base) (digit (n % base) ∷ out) two sixteen (first, h))
  ]

  show_in-All : (base fuel n : ℕ) → 2 ≤ base → base ≤ 16 → All P (show_in base fuel n)
  unfolding show_in
  show_in-All base fuel n two sixteen = elim (Bool-cases (n == 0)) [
    | inl z ↦ let zero_digit : P (digit 0) = of_digit 0 (omega arith) in rw z (zero_digit, tt)
    | inr z ↦ rw z (digits-All base fuel n [] two sixteen tt)
  ]

digit-IsWord : (d : ℕ) → d < 16 → is_whitespace (digit d) ≡ false
digit-IsWord d h = ground arith

digit-above : (d : ℕ) → d < 16 → 48 ≤ digit d
digit-above d h = ground arith

pub show-IsWord : (n : ℕ) → IsWord (show n)
unfolding show
show-IsWord n =
    show_in-All (λ c. is_whitespace c ≡ false) digit-IsWord 10 20 n (omega arith) (omega arith)

pub show_hex-above : (n : ℕ) → All (λ c. 48 ≤ c) (show_hex n)
unfolding show_hex
show_hex-above n = show_in-All (λ c. 48 ≤ c) digit-above 16 16 n (omega arith) (omega arith)

until_space-word :
    (t rest : Text) (c : ℕ) → IsWord t → is_whitespace c ≡ true → until_space (t ++ c ∷ rest) ≡ t
until_space-word [] rest c h e = rw e refl
until_space-word (d ∷ t) rest c h e = rw h.0 (ap (◌∷◌ d) (until_space-word t rest c h.1 e))

pub first_word-append :
    (t rest : Text) (c : ℕ)
    → IsWord t
    → t ≢ []
    → is_whitespace c ≡ true
    → first_word (t ++ c ∷ rest) ≡ some t
unfolding first_word
first_word-append [] rest c h e s = absurd (e refl)
first_word-append (d ∷ t) rest c h e s =
    rw h.0 (ap (λ u. some (d ∷ u)) (until_space-word t rest c h.1 s))

pub show-ne-nil : (n : ℕ) → show n ≢ []
unfolding show show_in
show-ne-nil n = elim (Bool-cases (n == 0)) [
  | inl z ↦ rw z (λ e. cc)
  | inr z ↦ rw z (λ e. subst IsPlain e (digits_pos-IsPlain 10 19 n z))
]
