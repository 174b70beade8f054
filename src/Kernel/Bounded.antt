-- ===== src/Kernel/Bounded.antt =====
-- A small implementation of the kernel's interfaces, to run the programs at concrete inputs: a map
-- is a list of entries of which at most `capacity` keys are held, and an LRU map drops old entries.
use mathlib.Core.Logic.{ite}
use tragach.Kernel.{HashMap, LruHashMap, RingBuf}
use tragach.Prelude.{
  ℕ, zero, suc, ◌≡◌, refl, ◌≢◌, Option, none, some, List, [], ◌∷◌, ◌++◌, Result, ok, err, length,
  take, ltb, if◌then◌else◌, arith,
}

module _ {K : Type 0} (dec : Discrete K) where
  module _ {V : Type 0} where
    unfoldable pub get : List (K × V) → K → Option V
    get [] k = none
    get ((j, v) ∷ m) k = ite (dec j k) (some v) (get m k)

    unfoldable pub remove : List (K × V) → K → List (K × V)
    remove [] k = []
    remove ((j, v) ∷ m) k = ite (dec j k) (remove m k) ((j, v) ∷ remove m k)

    -- The kernel's E2BIG is 7.
    unfoldable pub insert : ℕ → List (K × V) → K → V → Result (List (K × V))
    insert capacity m k v =
        if ltb (length (remove m k)) capacity then ok ((k, v) ∷ remove m k) else err 7

    unfoldable pub push : ℕ → List (K × V) → K → V → Result (List (K × V))
    push capacity m k v = ok ((k, v) ∷ take capacity (remove m k))

    pub get-remove_self : (m : List (K × V)) (k : K) → get (remove m k) k ≡ none
    unfolding get remove
    get-remove_self [] k = refl
    get-remove_self ((j, v) ∷ m) k = ground (arith, get-remove_self m k)

    pub get-remove_ne : (m : List (K × V)) (k j : K) → j ≢ k → get (remove m k) j ≡ get m j
    unfolding get remove
    get-remove_ne [] k j h = refl
    get-remove_ne ((i, v) ∷ m) k j h = ground (arith, get-remove_ne m k j)

    get-take :
        (n : ℕ) (m : List (K × V)) (j : K) (w : V) → get (take n m) j ≡ some w → get m j ≡ some w
    unfolding get
    get-take zero m j w h = cc
    get-take (suc n) [] j w h = h
    get-take (suc n) ((i, v) ∷ m) j w h = ground (arith, get-take n m j w)

    pub get-insert_self :
        (n : ℕ) (m : List (K × V)) (k : K) (v : V) {m' : List (K × V)}
        → insert n m k v ≡ ok m'
        → get m' k ≡ some v
    unfolding insert get
    get-insert_self n m k v h = ground arith

    pub get-insert_ne :
        (n : ℕ) (m : List (K × V)) (k j : K) (v : V) {m' : List (K × V)}
        → insert n m k v ≡ ok m'
        → j ≢ k
        → get m' j ≡ get m j
    unfolding insert get
    get-insert_ne n m k j v h ne = ground (arith, get-remove_ne m k j)

    pub get-push_self :
        (n : ℕ) (m : List (K × V)) (k : K) (v : V) {m' : List (K × V)}
        → push n m k v ≡ ok m'
        → get m' k ≡ some v
    unfolding push get
    get-push_self n m k v h = ground arith

    pub get-push_ne :
        (n : ℕ) (m : List (K × V)) (k j : K) (v w : V) {m' : List (K × V)}
        → push n m k v ≡ ok m'
        → j ≢ k
        → get m' j ≡ some w
        → get m j ≡ some w
    unfolding push get
    get-push_ne n m k j v w h ne e =
        ground (arith, get-remove_ne m k j, get-take n (remove m k) j w)

  abbrev pub Assoc : Type 0 → Type 0
  Assoc V = List (K × V)

  unfoldable pub bounded_hash : ℕ → HashMap Assoc K
  unfolding get remove insert
  bounded_hash capacity = record {
    empty = [];
    get = get;
    insert = insert capacity;
    remove = remove;
    get-empty = λ k. refl;
    get-insert_self = get-insert_self capacity;
    get-insert_ne = get-insert_ne capacity;
    get-remove_self = get-remove_self;
    get-remove_ne = get-remove_ne;
  }

  unfoldable pub bounded_lru : ℕ → LruHashMap Assoc K
  unfolding get remove push
  bounded_lru capacity = record {
    empty = [];
    get = get;
    touch = λ m k. m;
    insert = push capacity;
    remove = remove;
    get-empty = λ k. refl;
    get-touch = λ m k j. refl;
    get-insert_self = get-push_self capacity;
    get-insert_ne = get-push_ne capacity;
    get-remove_self = get-remove_self;
    get-remove_ne = get-remove_ne;
  }

-- A ring with room for `capacity` records.
abbrev pub bounded_ring : ℕ → RingBuf List
bounded_ring capacity = record {
  empty = [];
  reserve = λ r. ltb (length r) capacity;
  submit = λ r e. r ++ e ∷ [];
  records = λ r. r;
  records-empty = refl;
  records-submit = λ r e. refl;
}
