-- ===== src/IoWait/Drain.antt =====
-- What `flush_window` of crates/tragach-iowait/src/main.rs does to the BUCKETS map, in a tick in
-- which no tracepoint fires. The map's iterator is an interface.
use tragach.IoWait.Accounts.{DistinctKeys}
use tragach.IoWait.Kallsyms.{Sym}
use tragach.IoWait.Windows.{Bucket, JsonWindow, flush_window}
use tragach.IoWait.Classify.{Reason}
use tragach.IoWait.{Maps, BucketKey}
use tragach.Kernel.{HashMap}
use tragach.Prelude.{
  ℕ, Bool, true, false, Option, none, some, List, [], ◌∷◌, ◌≡◌, inl, inr, refl, sym, ap, ◌∙◌, subst,
  Among, Option-cases,
}
use native.Mathlib.Decide.{ℕ_discrete}

-- `HashMap::iter`, in a map that does not change: its entries, each once and in some order, or an
-- error.
pub record MapIter (N : Type 0 → Type 0) (bucket : HashMap N BucketKey) : Type 0 where
  pub entries : N ℕ → Option (List Bucket)
  pub entries-get :
      (m : N ℕ) (k : BucketKey) (ns : ℕ) {snapshot : List Bucket}
      → entries m ≡ some snapshot
      → bucket.get m k ≡ some ns
      → Among (record { key = k; ns = ns }) snapshot
  pub get-entries :
      (m : N ℕ) (b : Bucket) {snapshot : List Bucket}
      → entries m ≡ some snapshot
      → Among b snapshot
      → bucket.get m b.key ≡ some b.ns
  pub entries-DistinctKeys :
      (m : N ℕ) {snapshot : List Bucket} → entries m ≡ some snapshot → DistinctKeys snapshot

BucketKey-discrete : Discrete BucketKey
BucketKey-discrete = hlevel ℕ_discrete

module _ {N : Type 0 → Type 0} (bucket : HashMap N BucketKey) where
  -- `for (k, _) in &snapshot { let _ = buckets.remove(k); }`
  unfoldable pub remove_all : List Bucket → N ℕ → N ℕ
  remove_all [] m = m
  remove_all (b ∷ snapshot) m = remove_all snapshot (bucket.remove m b.key)

  get-remove_none :
      (k j : BucketKey) (m : N ℕ) → bucket.get m k ≡ none → bucket.get (bucket.remove m j) k ≡ none
  get-remove_none k j m h = elim (BucketKey-discrete k j) [
    | yes e ↦
        subst (λ i. bucket.get (bucket.remove m j) i ≡ none) (sym e) (bucket.get-remove_self m j)
    | no ne ↦ bucket.get-remove_ne m j k ne ∙ h
  ]

  remove_all-none :
      (k : BucketKey) (snapshot : List Bucket) (m : N ℕ)
      → bucket.get m k ≡ none
      → bucket.get (remove_all snapshot m) k ≡ none
  unfolding remove_all
  remove_all-none k [] m h = h
  remove_all-none k (b ∷ snapshot) m h =
      remove_all-none k snapshot (bucket.remove m b.key) (get-remove_none k b.key m h)

  remove_all-Among :
      (b : Bucket) (snapshot : List Bucket) (m : N ℕ)
      → Among b snapshot
      → bucket.get (remove_all snapshot m) b.key ≡ none
  unfolding remove_all
  remove_all-Among b [] m h = absurd h
  remove_all-Among b (c ∷ snapshot) m (inl e) =
      remove_all-none b.key snapshot (bucket.remove m c.key) (
        subst (λ x. bucket.get (bucket.remove m c.key) x.key ≡ none) (sym e)
          (bucket.get-remove_self m c.key))
  remove_all-Among b (c ∷ snapshot) m (inr h) =
      remove_all-Among b snapshot (bucket.remove m c.key) h

  empty-of_none :
      (iter : MapIter N bucket) (m : N ℕ) (snapshot : List Bucket)
      → iter.entries m ≡ some snapshot
      → ((k : BucketKey) → bucket.get m k ≡ none)
      → snapshot ≡ []
  empty-of_none iter m [] e h = refl
  empty-of_none iter m (b ∷ snapshot) e h =
      let clash : none ≡ some b.ns = sym (h b.key) ∙ iter.get-entries m b e (inl refl) in
      absurd (cc)

-- No time in the window.
abbrev pub IsEmptyWindow : JsonWindow → Type 0
IsEmptyWindow w = (w.excluded_idle_buckets ≡ 0) × ((r : Reason) → w.by_reason r ≡ none)

flush_window-IsEmptyWindow :
    (syms : List Sym) (stacks : ℕ → Option (List ℕ)) (window_ms pid top_stacks : ℕ)
    (exclude_idle : Bool) (threshold_ns : ℕ)
    → IsEmptyWindow (flush_window syms stacks window_ms pid top_stacks exclude_idle threshold_ns [])
unfolding flush_window
flush_window-IsEmptyWindow syms stacks window_ms pid top_stacks true threshold_ns =
    (refl, λ r. refl)
flush_window-IsEmptyWindow syms stacks window_ms pid top_stacks false threshold_ns =
    (refl, λ r. refl)

module _ {M N : Type 0 → Type 0} (bucket : HashMap N BucketKey) where
  abbrev pub drained : Maps M N → List Bucket → Maps M N
  drained s snapshot = record s { buckets = remove_all bucket snapshot s.buckets }

  module _ (iter : MapIter N bucket) (syms : List Sym) (stacks : ℕ → Option (List ℕ))
      (window_ms pid top_stacks : ℕ) (exclude_idle : Bool) (threshold_ns : ℕ) where
    abbrev flushed : Maps M N → Option (List Bucket) → Option (JsonWindow × Maps M N)
    flushed s none = none
    flushed s (some snapshot) = some (
      flush_window syms stacks window_ms pid top_stacks exclude_idle threshold_ns snapshot,
      drained s snapshot,
    )

    -- A window and the maps after it; `none` is the error of `entry?`.
    unfoldable pub flush : Maps M N → Option (JsonWindow × Maps M N)
    flush s = flushed s (iter.entries s.buckets)

  module _ (iter : MapIter N bucket) (syms : List Sym) (stacks : ℕ → Option (List ℕ))
      (window_ms pid top_stacks : ℕ) (exclude_idle : Bool) (threshold_ns : ℕ) where
    flush-some :
        (s s' : Maps M N) (w : JsonWindow)
        → flush iter syms stacks window_ms pid top_stacks exclude_idle threshold_ns s ≡ some (w, s')
        → (snapshot : List Bucket) × (iter.entries s.buckets ≡ some snapshot)
          × (w
              ≡ flush_window syms stacks window_ms pid top_stacks exclude_idle threshold_ns
                  snapshot)
          × (s' ≡ drained s snapshot)
    unfolding flush
    flush-some s s' w e = elim (Option-cases (iter.entries s.buckets)) [
      | inl absent ↦
          let nothing : ◌≡◌ {A = Option (JsonWindow × Maps M N)} none (some (w, s')) =
            sym (
              ap (flushed iter syms stacks window_ms pid top_stacks exclude_idle threshold_ns s)
                absent)
            ∙ e in
          absurd (cc)
      | inr (snapshot, present) ↦
          let both =
            sym (
              ap (flushed iter syms stacks window_ms pid top_stacks exclude_idle threshold_ns s)
                present)
            ∙ e in
          (snapshot, present, cc, cc)
    ]

    pub drained-none :
        (s : Maps M N) (snapshot : List Bucket) (k : BucketKey)
        → iter.entries s.buckets ≡ some snapshot
        → bucket.get (drained s snapshot).buckets k ≡ none
    drained-none s snapshot k e = elim (Option-cases (bucket.get s.buckets k)) [
      | inl absent ↦ remove_all-none bucket k snapshot s.buckets absent
      | inr (ns, present) ↦
          remove_all-Among bucket (record { key = k; ns = ns }) snapshot s.buckets
            (iter.entries-get s.buckets k ns e present)
    ]

    flush-drained :
        (s s' : Maps M N) (w : JsonWindow)
        → flush iter syms stacks window_ms pid top_stacks exclude_idle threshold_ns s ≡ some (w, s')
        → ((k : BucketKey) → bucket.get s'.buckets k ≡ none) × (s'.start ≡ s.start)
    flush-drained s s' w e =
        let (snapshot, listed, reported, after) = flush-some s s' w e in
        (
          λ k. ap (λ t. bucket.get t.buckets k) after ∙ drained-none s snapshot k listed,
          ap (λ t. t.start) after,
        )

    -- After a window, a second one before any tracepoint fires is empty: no time is reported twice.
    -- The first takes every bucket, and keeps the sleeps that are in progress.
    pub flush-flush :
        (s s' s'' : Maps M N) (w w' : JsonWindow)
        → flush iter syms stacks window_ms pid top_stacks exclude_idle threshold_ns s ≡ some (w, s')
        → flush iter syms stacks window_ms pid top_stacks exclude_idle threshold_ns s'
          ≡ some (w', s'')
        → IsEmptyWindow w'
          × ((k : BucketKey) → bucket.get s'.buckets k ≡ none)
          × (s'.start ≡ s.start)
    flush-flush s s' s'' w w' e e' =
        let (gone, start) = flush-drained s s' w e in
        let (snapshot, listed, reported, after) = flush-some s' s'' w' e' in
        let nothing = empty-of_none bucket iter s'.buckets snapshot listed gone in
        let same =
          reported
          ∙ ap (flush_window syms stacks window_ms pid top_stacks exclude_idle threshold_ns)
              nothing in
        (
          subst IsEmptyWindow (sym same) (
              flush_window-IsEmptyWindow syms stacks window_ms pid top_stacks exclude_idle
                threshold_ns),
          gone,
          start,
        )
