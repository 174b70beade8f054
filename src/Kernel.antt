-- ===== src/Kernel.antt =====
-- What the probe programs use of the kernel and of aya: the BPF maps, the ring buffer and the
-- helpers. None of that code is in the repository, so each enters as a record of operations with
-- the documented laws that the theorems use.
pub mod Bounded
pub mod Entries
use tragach.Prelude.{
  ℕ, ◌^◌, ◌<◌, ◌≡◌, ◌≢◌, length, Bool, Option, none, some, List, [], ◌∷◌, ◌++◌, Result, ok,
}

-- `HashMap<K, V>` (BPF_MAP_TYPE_HASH). An insertion that fails leaves the map as it was.
pub record HashMap (M : Type 0 → Type 0) (K : Type 0) : Type 1 where
  pub empty : {V : Type 0} → M V
  pub get : {V : Type 0} → M V → K → Option V
  pub insert : {V : Type 0} → M V → K → V → Result (M V)
  pub remove : {V : Type 0} → M V → K → M V
  pub get-empty : {V : Type 0} (k : K) → get (empty {V = V}) k ≡ none
  pub get-insert_self :
      {V : Type 0} (m : M V) (k : K) (v : V) {m' : M V} → insert m k v ≡ ok m' → get m' k ≡ some v
  pub get-insert_ne :
      {V : Type 0} (m : M V) (k j : K) (v : V) {m' : M V}
      → insert m k v ≡ ok m'
      → j ≢ k
      → get m' j ≡ get m j
  pub get-remove_self : {V : Type 0} (m : M V) (k : K) → get (remove m k) k ≡ none
  pub get-remove_ne : {V : Type 0} (m : M V) (k j : K) → j ≢ k → get (remove m k) j ≡ get m j

-- `LruHashMap<K, V>` (BPF_MAP_TYPE_LRU_HASH). An insertion may evict any other entry, and a lookup
-- leaves a mark (`touch`) that bears on later evictions and on nothing that can be read.
pub record LruHashMap (L : Type 0 → Type 0) (K : Type 0) : Type 1 where
  pub empty : {V : Type 0} → L V
  pub get : {V : Type 0} → L V → K → Option V
  pub touch : {V : Type 0} → L V → K → L V
  pub insert : {V : Type 0} → L V → K → V → Result (L V)
  pub remove : {V : Type 0} → L V → K → L V
  pub get-empty : {V : Type 0} (k : K) → get (empty {V = V}) k ≡ none
  pub get-touch : {V : Type 0} (m : L V) (k j : K) → get (touch m k) j ≡ get m j
  pub get-insert_self :
      {V : Type 0} (m : L V) (k : K) (v : V) {m' : L V} → insert m k v ≡ ok m' → get m' k ≡ some v
  pub get-insert_ne :
      {V : Type 0} (m : L V) (k j : K) (v w : V) {m' : L V}
      → insert m k v ≡ ok m'
      → j ≢ k
      → get m' j ≡ some w
      → get m j ≡ some w
  pub get-remove_self : {V : Type 0} (m : L V) (k : K) → get (remove m k) k ≡ none
  pub get-remove_ne : {V : Type 0} (m : L V) (k j : K) → j ≢ k → get (remove m k) j ≡ get m j

-- `RingBuf`: `reserve` may find no room; a submitted record comes behind the earlier ones.
pub record RingBuf (R : Type 0 → Type 0) : Type 1 where
  pub empty : {E : Type 0} → R E
  pub reserve : {E : Type 0} → R E → Bool
  pub submit : {E : Type 0} → R E → E → R E
  pub records : {E : Type 0} → R E → List E
  pub records-empty : {E : Type 0} → records (empty {E = E}) ≡ []
  pub records-submit : {E : Type 0} (r : R E) (e : E) → records (submit r e) ≡ records r ++ e ∷ []

-- What a probe body reads of the event that fires it: the traced function's arguments and return
-- value, the helpers' answers, and whether the per-CPU scratch slot was found.
-- `read_user_str` is `bpf_probe_read_user_str_bytes`: the bytes it copied, if it succeeds, and the
-- destination buffer after the call.
pub record ProbeContext : Type 0 where
  pub arg : ℕ → Option ℕ
  pub ret : Option ℕ
  pub ktime_ns : ℕ
  pub pid_tgid : ℕ
  pub read_user_str : ℕ → List ℕ → Option (List ℕ) × List ℕ
  pub scratch : Bool

-- The machine's word sizes: registers, the clock and the ids are 64 bits wide, and the string
-- helper never resizes its destination buffer.
pub record IsContext (c : ProbeContext) : Type 0 where
  pub arg : (i v : ℕ) → c.arg i ≡ some v → v < 2 ^ 64
  pub ret : (v : ℕ) → c.ret ≡ some v → v < 2 ^ 64
  pub ktime_ns : c.ktime_ns < 2 ^ 64
  pub pid_tgid : c.pid_tgid < 2 ^ 64
  pub buffer : (p : ℕ) (d : List ℕ) → length (c.read_user_str p d).1 ≡ length d
