-- ===== src/Prelude/Results.antt =====
-- Results of fallible code, and handlers: a probe body reads and writes the maps of its program and
-- may stop early with an error code, keeping the writes that it made before.
use Prim.Native.Nat.{ℕ}
use mathlib.Core.Logic.{◌⊎◌, inl, inr}
use mathlib.Core.Option.{Option, none, some}
use mathlib.Core.Path.{◌≡◌, refl}

-- `Result<A, i64>`; the error code -n is kept as n.
pub data Result {ℓ} (A : Type ℓ) : Type ℓ where
  ok : A → Result A
  err : ℕ → Result A

abbrev pub Handler : Type 0 → Type 0 → Type 0
Handler S A = S → Result A × S

-- The first part of a handler's outcome decides: an error ends the handler in the state it left.
abbrev pub bind_outcome {ℓ} :
    {S A B : Type ℓ} → Result A × S → (A → S → Result B × S) → Result B × S
bind_outcome (ok a, s) f = f a s
bind_outcome (err e, s) f = (err e, s)

infixl 5 ◌>>=◌ ◌>>◌
abbrev pub ◌>>=◌ : {S A B : Type 0} → Handler S A → (A → Handler S B) → Handler S B
◌>>=◌ m f s = bind_outcome (m s) f

abbrev pub ◌>>◌ : {S B : Type 0} → Handler S (Unit {0}) → Handler S B → Handler S B
m >> k = m >>= λ _. k

abbrev pub pure : {S A : Type 0} → A → Handler S A
pure a s = (ok a, s)

abbrev pub fail : {S A : Type 0} → ℕ → Handler S A
fail e s = (err e, s)

abbrev pub gets : {S A : Type 0} → (S → A) → Handler S A
gets f s = (ok (f s), s)

abbrev pub modify : {S : Type 0} → (S → S) → Handler S (Unit {0})
modify f s = (ok tt, f s)

-- `o.ok_or(-e)?`
abbrev pub ok_or : {S A : Type 0} → Option A → ℕ → Handler S A
ok_or none e s = (err e, s)
ok_or (some a) e s = (ok a, s)

-- `MAP.insert(..)?`: the new map is put in place, or the error ends the handler.
abbrev pub write : {S A : Type 0} → Result A → (A → S → S) → Handler S (Unit {0})
write (ok m) put s = (ok tt, put m s)
write (err e) put s = (err e, s)

pub Result-cases {ℓ} :
    {A : Type ℓ} (r : Result A) → ((a : A) × (r ≡ ok a)) ⊎ ((e : ℕ) × (r ≡ err e))
Result-cases (ok a) = inl (a, refl)
Result-cases (err e) = inr (e, refl)
