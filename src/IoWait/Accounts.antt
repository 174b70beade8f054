-- ===== src/IoWait/Accounts.antt =====
-- The windows of crates/tragach-iowait/src/main.rs against the spans of the tracepoints that fired
-- before them, crates/tragach-iowait/src/bpf/main.rs.
use tragach.IoWait.Ledger.{same_key, same_key-eq, totalled}
use tragach.IoWait.Windows.{Bucket}
use tragach.IoWait.{BucketKey}
use tragach.Prelude.{
  ℕ, ◌+◌, ◌%◌, ◌^◌, ◌≤◌, ◌<◌, ◌≡◌, ◌∙◌, inl, inr, sym, ap, refl, Bool, true, false, ◌||◌, none,
  some, List, [], ◌∷◌, All, Among, if◌then◌else◌, Bool-cases, arith,
}

abbrev pub has_key : BucketKey → List Bucket → Bool
has_key k [] = false
has_key k (b ∷ bs) = same_key b.key k || has_key k bs

pub Among-has_key : (b : Bucket) (bs : List Bucket) → Among b bs → has_key b.key bs ≡ true
Among-has_key b [] h = absurd h
Among-has_key b (a ∷ bs) (inl e) = ground (arith, ap (λ x. x.key) e)
Among-has_key b (a ∷ bs) (inr h) = ground (arith, Among-has_key b bs h)

-- A list with one entry for a key at most.
abbrev pub DistinctKeys : List Bucket → Type 0
DistinctKeys [] = Unit
DistinctKeys (b ∷ bs) = (has_key b.key bs ≡ false) × DistinctKeys bs

-- The time of the entries whose key has a property.
abbrev pub weigh : (BucketKey → Bool) → List Bucket → ℕ
weigh test [] = 0
weigh test (b ∷ bs) = let rest = weigh test bs in if test b.key then b.ns + rest else rest

abbrev pub time_of : BucketKey → List Bucket → ℕ
time_of k bs = weigh (λ j. same_key j k) bs

abbrev pub time : List Bucket → ℕ
time [] = 0
time (b ∷ bs) = b.ns + time bs

pub weigh-le : (test : BucketKey → Bool) (bs : List Bucket) → weigh test bs ≤ time bs
weigh-le test [] = omega arith
weigh-le test (b ∷ bs) = ground (arith, weigh-le test bs)

totalled-some :
    (a : ℕ) (k : BucketKey) (bs : List Bucket)
    → a + time_of k bs < 2 ^ 64
    → totalled (some a) k bs ≡ some (a + time_of k bs)
totalled-some a k [] h = ground arith
totalled-some a k (b ∷ bs) h = elim (Bool-cases (same_key b.key k)) [
  | inl e ↦
      let small : (a + b.ns) + time_of k bs < 2 ^ 64 = ground arith in
      let plain : (a + b.ns) % 2 ^ 64 ≡ a + b.ns = omega arith in
      rw (e, plain) (totalled-some (a + b.ns) k bs small ∙ ap some (omega arith))
  | inr e ↦ rw e (totalled-some a k bs (ground arith))
]

-- Without an overflow the total of a key is the time of its spans.
pub totalled-none :
    (k : BucketKey) (bs : List Bucket)
    → time_of k bs < 2 ^ 64
    → totalled none k bs ≡ (if has_key k bs then some (time_of k bs) else none)
totalled-none k [] h = refl
totalled-none k (b ∷ bs) h = elim (Bool-cases (same_key b.key k)) [
  | inl e ↦ rw e (totalled-some b.ns k bs (ground arith))
  | inr e ↦ rw e (totalled-none k bs (ground arith))
]

abbrev without : BucketKey → List Bucket → List Bucket
without k [] = []
without k (b ∷ bs) = let rest = without k bs in if same_key b.key k then rest else b ∷ rest

same_key-rw : (test : BucketKey → Bool) (j k : BucketKey) → same_key j k ≡ true → test j ≡ test k
same_key-rw test j k h = ap test (sym (same_key-eq j k h))

-- A key's time can be counted apart.
weigh-without :
    (test : BucketKey → Bool) (k : BucketKey) (bs : List Bucket)
    → weigh test bs ≡ (if test k then time_of k bs else 0) + weigh test (without k bs)
weigh-without test k [] = ground arith
weigh-without test k (b ∷ bs) = elim (Bool-cases (same_key b.key k)) [
  | inl e ↦ rw (e, same_key-rw test b.key k e) (ground (arith, weigh-without test k bs))
  | inr e ↦ rw e (ground (arith, weigh-without test k bs))
]

time_of-without :
    (j k : BucketKey) (bs : List Bucket)
    → same_key j k ≡ false
    → time_of j (without k bs) ≡ time_of j bs
time_of-without j k [] h = refl
time_of-without j k (b ∷ bs) h = elim (Bool-cases (same_key b.key k)) [
  | inl e ↦
      let other : same_key b.key j ≡ false = ground arith in
      rw (e, other) (time_of-without j k bs h)
  | inr e ↦ rw e (ground (arith, time_of-without j k bs h))
]

-- The keys of the spans that are left stand behind the first entry.
without-keys :
    (b : Bucket) (snapshot bs : List Bucket)
    → All (λ a. has_key a.key (b ∷ snapshot) ≡ true) bs
    → All (λ a. has_key a.key snapshot ≡ true) (without b.key bs)
without-keys b snapshot [] h = tt
without-keys b snapshot (a ∷ bs) h = elim (Bool-cases (same_key a.key b.key)) [
  | inl e ↦ rw e (without-keys b snapshot bs h.1)
  | inr e ↦
      let later : has_key a.key snapshot ≡ true = ground (arith, h.0) in
      rw e (later, without-keys b snapshot bs h.1)
]

times-without :
    (k : BucketKey) (snapshot bs : List Bucket)
    → has_key k snapshot ≡ false
    → All (λ a. a.ns ≡ time_of a.key bs) snapshot
    → All (λ a. a.ns ≡ time_of a.key (without k bs)) snapshot
times-without k [] bs h t = tt
times-without k (a ∷ snapshot) bs h t = (
  t.0 ∙ sym (time_of-without a.key k bs (ground arith)),
  times-without k snapshot bs (ground arith) t.1,
)

-- A table with one entry for each key that has spans, with the time of the key's spans, accounts for
-- all spans, whatever keys are asked for.
pub weigh-snapshot :
    (test : BucketKey → Bool) (snapshot bs : List Bucket)
    → DistinctKeys snapshot
    → All (λ a. a.ns ≡ time_of a.key bs) snapshot
    → All (λ a. has_key a.key snapshot ≡ true) bs
    → weigh test snapshot ≡ weigh test bs
weigh-snapshot test [] [] d t c = refl
weigh-snapshot test [] (a ∷ bs) d t c = absurd (cc)
weigh-snapshot test (b ∷ snapshot) bs d t c =
    let rest =
      weigh-snapshot test snapshot (without b.key bs) d.1 (times-without b.key snapshot bs d.0 t.1)
        (without-keys b snapshot bs c) in
    ground (arith, rest, weigh-without test b.key bs, t.0)
