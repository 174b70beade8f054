-- ===== src/Kernel/Entries.antt =====
-- A predicate of every value that a map holds, and what the map operations do to it.
use tragach.Kernel.{HashMap, LruHashMap}
use tragach.Prelude.{◌≡◌, ◌∙◌, sym, Option, some, ok, err, Result, ◌≢◌, refl, arith, subst}

abbrev pub Entries : {K V : Type 0} → (V → Type 0) → (K → Option V) → Type 0
Entries {K} {V} P get = (k : K) (v : V) → get k ≡ some v → P v

-- Equality of keys is decided to split on "the key that was written".
module _ {M : Type 0 → Type 0} {K : Type 0} (dec : Discrete K) (hash : HashMap M K) {V : Type 0}
    (P : V → Type 0) where
  pub Entries-empty : Entries P (hash.get {V = V} hash.empty)
  Entries-empty k v h = ground (arith, hash.get-empty {V = V} k)

  pub Entries-insert :
      (m m' : M V) (k : K) (v : V)
      → hash.insert m k v ≡ ok m'
      → P v
      → Entries P (hash.get m)
      → Entries P (hash.get m')
  Entries-insert m m' k v e pv h j w g = elim (dec j k) [
    | yes p ↦ let same : v ≡ w = ground (arith, hash.get-insert_self m k v e) in subst P same pv
    | no n ↦ h j w (sym (hash.get-insert_ne m k j v e n) ∙ g)
  ]

  pub Entries-remove :
      (m : M V) (k : K) → Entries P (hash.get m) → Entries P (hash.get (hash.remove m k))
  Entries-remove m k h j w g = elim (dec j k) [
    | yes p ↦ absurd (ground (arith, hash.get-remove_self m k))
    | no n ↦ h j w (sym (hash.get-remove_ne m k j n) ∙ g)
  ]

module _ {L : Type 0 → Type 0} {K : Type 0} (dec : Discrete K) (lru : LruHashMap L K) {V : Type 0}
    (P : V → Type 0) where
  pub Entries-lru_empty : Entries P (lru.get {V = V} lru.empty)
  Entries-lru_empty k v h = ground (arith, lru.get-empty {V = V} k)

  pub Entries-lru_insert :
      (m m' : L V) (k : K) (v : V)
      → lru.insert m k v ≡ ok m'
      → P v
      → Entries P (lru.get m)
      → Entries P (lru.get m')
  Entries-lru_insert m m' k v e pv h j w g = elim (dec j k) [
    | yes p ↦ let same : v ≡ w = ground (arith, lru.get-insert_self m k v e) in subst P same pv
    | no n ↦ h j w (lru.get-insert_ne m k j v w e n g)
  ]

  pub Entries-lru_remove :
      (m : L V) (k : K) → Entries P (lru.get m) → Entries P (lru.get (lru.remove m k))
  Entries-lru_remove m k h j w g = elim (dec j k) [
    | yes p ↦ absurd (ground (arith, lru.get-remove_self m k))
    | no n ↦ h j w (sym (lru.get-remove_ne m k j n) ∙ g)
  ]

  pub Entries-touch :
      (m : L V) (k : K) → Entries P (lru.get m) → Entries P (lru.get (lru.touch m k))
  Entries-touch m k h j w g = h j w (sym (lru.get-touch m k j) ∙ g)

module _ {M : Type 0 → Type 0} {K : Type 0} (hash : HashMap M K) {V : Type 0} where
  -- What another key reads after an insertion, whether or not it succeeded.
  pub get-insert_frame :
      (m : M V) (k j : K) (v : V)
      → j ≢ k
      → (elim (hash.insert m k v) [ ok m' ↦ hash.get m' j | err e ↦ hash.get m j ]) ≡ hash.get m j
  get-insert_frame m k j v ne = go (hash.insert m k v) refl
    where
      go :
          (r : Result (M V))
          → hash.insert m k v ≡ r
          → (elim r as (λ _. Option V) [ ok m' ↦ hash.get m' j | err e ↦ hash.get m j ])
            ≡ hash.get m j
      go (ok m') e = hash.get-insert_ne m k j v e ne
      go (err n) e = refl
