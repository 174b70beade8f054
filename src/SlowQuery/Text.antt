-- ===== src/SlowQuery/Text.antt =====
-- The SQL text from the traced process to the output: `try_capture_sql_entry` reads it, `sql_str`
-- cuts it out of the record again.
use tragach.Event.{sql_max}
use tragach.Kernel.{ProbeContext}
use tragach.Prelude.{
  All-take, ℕ, zero, suc, ◌-◌, ◌≤◌, ◌<◌, ◌^◌, ◌≡◌, ◌≢◌, refl, ap, min, some, List, [], ◌∷◌, ◌++◌,
  length, length-take, take, replicate, All, leb, ◌==◌, if◌then◌else◌, ==-of_ne, ◌∙◌, ◌%◌, ◌&&◌,
  ltb, arith,
}
use tragach.SlowQuery.Probes.{captured, zeroed, slot}
use tragach.SlowQuery.Userspace.{before_nul, sql_bytes}

-- What `bpf_probe_read_user_str_bytes` documents for a readable NUL-terminated text: it copies as
-- much of the text as leaves room for a NUL, terminates it, and leaves the rest of the buffer.
pub record ReadsText (c : ProbeContext) (ptr : ℕ) (text : List ℕ) : Type 0 where
  pub copied : (c.read_user_str ptr zeroed).0 ≡ some (take (sql_max - 1) text)
  pub buffer :
      (c.read_user_str ptr zeroed).1
      ≡ take (sql_max - 1) text ++ replicate (sql_max - length (take (sql_max - 1) text)) 0
  pub no_nul : All (λ b. b ≢ 0) text

before_nul-padded :
    (n k : ℕ) (t : List ℕ)
    → All (λ b. b ≢ 0) t
    → length t ≤ n
    → before_nul (take n (t ++ replicate k 0)) ≡ t
unfolding before_nul
before_nul-padded zero k [] h le = refl
before_nul-padded (suc n) zero [] h le = refl
before_nul-padded (suc n) (suc k) [] h le = refl
before_nul-padded zero k (b ∷ t) h le = absurd (omega arith)
before_nul-padded (suc n) k (b ∷ t) h le =
    rw (==-of_ne b 0 h.0) (ap (◌∷◌ b) (before_nul-padded n k t h.1 (omega arith)))

-- The text that a record's `sql_str` shows, for a captured statement that is emitted.
abbrev pub shown : ProbeContext → ℕ → ℕ → ℕ → List ℕ
shown c attachment_ptr len ptr =
    let w = captured c attachment_ptr len ptr in
    sql_bytes (slot c attachment_ptr 0 0 w.sql_len w.sql_truncated (some w.sql))

module _ (c : ProbeContext) (a len ptr : ℕ) (text : List ℕ) (reads : ReadsText c ptr text)
    (nonnull : ptr ≢ 0) where
  -- The number of bytes that are copied.
  abbrev copied_len : ℕ
  copied_len = length (take (sql_max - 1) text)

  copied_len-min : copied_len ≡ min (sql_max - 1) (length text)
  copied_len-min = length-take (sql_max - 1) text

  captured-sql :
      (captured c a len ptr).sql ≡ take (sql_max - 1) text ++ replicate (sql_max - copied_len) 0
  unfolding captured
  captured-sql = rw (==-of_ne ptr 0 nonnull, captured) reads.buffer

  captured-sql_len :
      (captured c a len ptr).sql_len ≡ (if len == 0 then copied_len % 2 ^ 32 else len % 2 ^ 32)
  unfolding captured
  captured-sql_len = rw (==-of_ne ptr 0 nonnull, captured, reads.copied)

  captured-sql_truncated :
      (captured c a len ptr).sql_truncated
      ≡ (if leb (sql_max - 1) (copied_len % 2 ^ 32) && ltb (copied_len % 2 ^ 32) len then 1 else 0)
  unfolding captured
  captured-sql_truncated = rw (==-of_ne ptr 0 nonnull, captured, reads.copied)

  captured-shown :
      copied_len ≤ min (captured c a len ptr).sql_len sql_max
      → shown c a len ptr ≡ take (sql_max - 1) text
  unfolding sql_bytes
  captured-shown le = rw captured-sql (
      before_nul-padded (min (captured c a len ptr).sql_len sql_max) _ (take (sql_max - 1) text)
        (All-take _ (sql_max - 1) text reads.no_nul) le)

len_known : (m n : ℕ) → n ≢ 0 → n < 2 ^ 32 → (if n == 0 then m % 2 ^ 32 else n % 2 ^ 32) ≡ n
len_known m n pos h = ground arith

flag_known :
    (m n : ℕ)
    → m ≡ min 511 n
    → (if◌then◌else◌ {A = ℕ} (leb 511 (m % 2 ^ 32) && ltb (m % 2 ^ 32) n) 1 0)
      ≡ (if leb 512 n then 1 else 0)
flag_known m n e = ground arith

flag_unknown :
    (m : ℕ) → (if◌then◌else◌ {A = ℕ} (leb 511 (m % 2 ^ 32) && ltb (m % 2 ^ 32) 0) 1 0) ≡ 0
flag_unknown m = ground arith

-- A statement that is readable, not empty and shorter than 2 ^ 32 bytes, whose length the engine
-- passes: the record shows its first 511 bytes, and is marked as truncated exactly if there are
-- more.
pub captured-text :
    (c : ProbeContext) (attachment_ptr ptr : ℕ) (text : List ℕ)
    → ReadsText c ptr text
    → ptr ≢ 0
    → text ≢ []
    → length text < 2 ^ 32
    → (shown c attachment_ptr (length text) ptr ≡ take (sql_max - 1) text)
      × ((captured c attachment_ptr (length text) ptr).sql_len ≡ length text)
      × ((captured c attachment_ptr (length text) ptr).sql_truncated
          ≡ (if leb sql_max (length text) then 1 else 0))
captured-text c a ptr [] r pos ne h = absurd (ne refl)
captured-text c a ptr (b ∷ t) r pos ne h =
    let text = b ∷ t in
    let n = length text in
    let l = captured-sql_len c a n ptr text r pos in
    let m = copied_len-min c a n ptr text r pos in
    let l' : (captured c a n ptr).sql_len ≡ n = l ∙ len_known _ n (omega arith) h in
    (
      captured-shown c a n ptr text r pos (omega arith),
      l',
      captured-sql_truncated c a n ptr text r pos ∙ flag_known _ n m,
    )

-- A readable statement whose length the engine passes as 0, which stands for a NUL-terminated text:
-- the record shows the first 511 bytes, with their number as the length, and is never marked as
-- truncated, however long the text is.
pub captured-strlen :
    (c : ProbeContext) (attachment_ptr ptr : ℕ) (text : List ℕ)
    → ReadsText c ptr text
    → ptr ≢ 0
    → (shown c attachment_ptr 0 ptr ≡ take (sql_max - 1) text)
      × ((captured c attachment_ptr 0 ptr).sql_len ≡ min (sql_max - 1) (length text))
      × ((captured c attachment_ptr 0 ptr).sql_truncated ≡ 0)
captured-strlen c a ptr text r pos =
    let l = captured-sql_len c a 0 ptr text r pos in
    let m = copied_len-min c a 0 ptr text r pos in
    (
      captured-shown c a 0 ptr text r pos (omega arith),
      omega arith,
      captured-sql_truncated c a 0 ptr text r pos ∙ flag_unknown (length (take (sql_max - 1) text)),
    )
