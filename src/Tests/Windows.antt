-- ===== src/Tests/Windows.antt =====
-- Windows of pageio and iowait, crates/tragach-pageio/src/main.rs and
-- crates/tragach-iowait/src/main.rs, and a table of kernel symbols,
-- crates/tragach-iowait/src/kallsyms.rs.
use mathlib.Core.Logic.{ite, if_pos, if_neg}
use tragach.IoWait.Accounts.{DistinctKeys, has_key}
use tragach.IoWait.Ledger.{same_key, same_key-eq}
use tragach.IoWait.Drain.{MapIter}
use tragach.IoWait.Kallsyms.Load.{load, file_syms}
use tragach.IoWait.Kallsyms.RoundTrip.{Listed, IsListed, print_table, file_syms-print_table}
use tragach.IoWait.Kallsyms.Table.{lookup-load}
use tragach.IoWait.Kallsyms.{Sym, IsFloor, lookup}
use tragach.IoWait.Windows.{Bucket}
use tragach.IoWait.{BucketKey}
use tragach.Kernel.Bounded.{Assoc, bounded_hash, get, insert, remove}
use tragach.PageIo
use tragach.PageIo.{cch_fetch_page_entry, cch_fetch_page_exit, block_rq_issue, count_fetch}
use tragach.PageIo.Fetches.{fetch-span}
use tragach.PageIo.Session.{AreWindows, loop, loop-windows, ticks}
use tragach.PageIo.Userspace.{default}
use tragach.Prelude.{
  ℕ, set, ◌<◌, ◌≡◌, ◌≢◌, some_injective, refl, sym, ap, ◌∙◌, subst, Bool-cases, Bool, true, false,
  ◌&&◌, Option, none, some, List, [], ◌∷◌, All, length, Among, ◌⊎◌, inl, inr, map, codes, arith,
  show_hex, if◌then◌else◌,
}
use tragach.Tests.Others.{
  page_context, bucket, bucket_key_discrete, hash, block, two_cpus, Pages, io,
}

loop-windows_example :
    AreWindows ⦃hash = hash⦄ ⦃block = block⦄ two_cpus
      (io ∷ [] ∷ io ∷ [])
      (loop default (ticks ⦃hash = hash⦄ ⦃block = block⦄ two_cpus (io ∷ [] ∷ io ∷ []))).0
loop-windows_example =
    loop-windows ⦃hash = hash⦄ ⦃block = block⦄ (io ∷ [] ∷ io ∷ []) two_cpus 2 refl (omega arith)

-- A request is issued while a thread fetches a page, and the fetch ends on the other CPU.
fetch-span_example :
    let s' : Pages =
      PageIo.run ⦃hash = hash⦄ ⦃block = block⦄ (block_rq_issue (page_context 9 110 0) ∷ []) (
        PageIo.fire ⦃hash = hash⦄ ⦃block = block⦄
          (cch_fetch_page_entry (page_context 9 100 0))
          two_cpus) in
    let s'' : Pages =
      PageIo.fire ⦃hash = hash⦄ ⦃block = block⦄ (cch_fetch_page_exit (page_context 9 180 1)) s' in
    (s''.counters
      ≡ set s'.counters 1
          (record default { engine_count = 1; engine_total_ns = 80; engine_max_ns = 80 }))
    × (hash.get s''.fetch_in_progress 5 ≡ none)
unfolding bounded_hash insert remove PageIo.run PageIo.fire PageIo.update_counters
    PageIo.try_block_issue
fetch-span_example =
    fetch-span ⦃hash = hash⦄ ⦃block = block⦄ two_cpus (page_context 9 100 0) (page_context 9 180 1)
      (block_rq_issue (page_context 9 110 0) ∷ []) 0 refl refl refl (tt, tt) refl refl

abbrev pub fresh : BucketKey → List (BucketKey × ℕ) → Bool
fresh k [] = true
fresh k ((j, v) ∷ m) = ite (bucket_key_discrete j k) false (fresh k m)

abbrev pub distinct : List (BucketKey × ℕ) → Bool
distinct [] = true
distinct ((j, v) ∷ m) = fresh j m && distinct m

abbrev pub listed : List (BucketKey × ℕ) → List Bucket
listed [] = []
listed ((k, v) ∷ m) = record { key = k; ns = v } ∷ listed m

-- The entries of a map, if no key is there twice.
abbrev pub entries : List (BucketKey × ℕ) → Option (List Bucket)
entries m = if distinct m then some (listed m) else none

pub Among-listed :
    (m : List (BucketKey × ℕ)) (k : BucketKey) (ns : ℕ)
    → get bucket_key_discrete m k ≡ some ns
    → Among (record { key = k; ns = ns }) (listed m)
unfolding get
Among-listed [] k ns e = absurd (cc)
Among-listed ((j, v) ∷ m) k ns e = elim (bucket_key_discrete j k) [
  | yes p ↦
      let same = sym (if_pos (bucket_key_discrete j k) p _ _) ∙ e in
      inl (λ i. record { key = sym p i; ns = some_injective (sym same) i })
  | no np ↦ inr (Among-listed m k ns (sym (if_neg (bucket_key_discrete j k) np _ _) ∙ e))
]

fresh-ne :
    (j : BucketKey) (m : List (BucketKey × ℕ)) (b : Bucket)
    → fresh j m ≡ true
    → Among b (listed m)
    → b.key ≢ j
fresh-ne j [] b h a = absurd a
fresh-ne j ((k, v) ∷ m) b h (inl e) = λ same.
    let absent : false ≡ true =
      sym (if_pos (bucket_key_discrete k j) (sym (ap (λ x. x.key) e) ∙ same) false (fresh j m))
      ∙ h in
    cc
fresh-ne j ((k, v) ∷ m) b h (inr a) = fresh-ne j m b (ground (arith, h)) a

pub get-listed :
    (m : List (BucketKey × ℕ)) (b : Bucket)
    → distinct m ≡ true
    → Among b (listed m)
    → get bucket_key_discrete m b.key ≡ some b.ns
unfolding get
get-listed [] b h a = absurd a
get-listed ((k, v) ∷ m) b h (inl e) =
    if_pos (bucket_key_discrete k b.key) (sym (ap (λ x. x.key) e)) _ _ ∙ ap (λ x. some x.ns) (sym e)
get-listed ((k, v) ∷ m) b h (inr a) =
    let ne = fresh-ne k m b (ground (arith, h)) a in
    if_neg (bucket_key_discrete k b.key) (λ same. ne (sym same)) _ _
    ∙ get-listed m b (ground (arith, h)) a

has_key-fresh :
    (k : BucketKey) (m : List (BucketKey × ℕ)) → fresh k m ≡ true → has_key k (listed m) ≡ false
has_key-fresh k [] h = refl
has_key-fresh k ((j, v) ∷ m) h = elim (bucket_key_discrete j k) [
  | yes p ↦
      let absent : false ≡ true = sym (if_pos (bucket_key_discrete j k) p false (fresh k m)) ∙ h in
      absurd (cc)
  | no np ↦
      let later =
        has_key-fresh k m (sym (if_neg (bucket_key_discrete j k) np false (fresh k m)) ∙ h) in
      elim (Bool-cases (same_key j k)) [
        | inl same ↦ absurd (np (sym (same_key-eq j k same)))
        | inr ne ↦ rw (ne, later) refl
      ]
]

pub listed-DistinctKeys : (m : List (BucketKey × ℕ)) → distinct m ≡ true → DistinctKeys (listed m)
listed-DistinctKeys [] h = tt
listed-DistinctKeys ((k, v) ∷ m) h =
    (has_key-fresh k m (ground (arith, h)), listed-DistinctKeys m (ground (arith, h)))

pub distinct-some :
    (m : List (BucketKey × ℕ)) {snapshot : List Bucket}
    → entries m ≡ some snapshot
    → (distinct m ≡ true) × (listed m ≡ snapshot)
distinct-some m e = elim (Bool-cases (distinct m)) [
  | inl d ↦ (d, some_injective (sym (ap (λ b. if b then some (listed m) else none) d) ∙ e))
  | inr d ↦
      let nothing : ◌≡◌ {A = Option (List Bucket)} none (some _) =
        sym (ap (λ b. if b then some (listed m) else none) d) ∙ e in
      absurd (cc)
]

unfoldable pub iter : MapIter (Assoc bucket_key_discrete) bucket
unfolding get bounded_hash
iter = record {
  entries = entries;
  entries-get = λ m k ns e h.
      subst (Among (record { key = k; ns = ns })) (distinct-some m e).1 (Among-listed m k ns h);
  get-entries =
      λ m b e a. let (d, l) = distinct-some m e in get-listed m b d (subst (Among b) (sym l) a);
  entries-DistinctKeys =
      λ m e. let (d, l) = distinct-some m e in subst DistinctKeys l (listed-DistinctKeys m d);
}

-- The lines of "schedule" and "blk_x" at 200 and 100.
abbrev symbols : List Listed
symbols =
    record { symbol = record { addr = 200; name = codes "schedule" }; kind = 116; suffix = [] }
    ∷ record {
      symbol = record { addr = 100; name = codes "blk_x" };
      kind = 84;
      suffix = codes "\t[virtio]";
    }
    ∷ []

symbols-IsListed : All IsListed symbols
symbols-IsListed = omega arith

file_syms-print_table_example : file_syms (print_table symbols) ≡ map (λ l. l.symbol) symbols
file_syms-print_table_example = file_syms-print_table symbols symbols-IsListed

lookup-load_example :
    ((s : Sym) × IsFloor (file_syms (print_table symbols)) 150 s
      × (lookup (load (print_table symbols)) 150 ≡ s.name))
    ⊎ (All (λ t. 150 < t.addr) (file_syms (print_table symbols))
        × (lookup (load (print_table symbols)) 150 ≡ 48 ∷ 120 ∷ show_hex 150))
lookup-load_example =
    lookup-load (print_table symbols) 150 (omega arith)
      (omega (arith, ap length (file_syms-print_table symbols symbols-IsListed)))
