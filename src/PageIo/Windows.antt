-- ===== src/PageIo/Windows.antt =====
-- The windows of pageio against the updates that the probes make on each CPU,
-- crates/tragach-pageio/src/bpf/main.rs and crates/tragach-pageio/src/main.rs.
pub mod Slots
use tragach.PageIo.{PageIoCounters, count_fetch, count_issue, count_complete}
use tragach.PageIo.Windows.Slots.{Update, fetch, issue, complete, update}
use tragach.PageIo.Userspace.{default, add_slot, sum_slots, snapshot_counters, delta_counters}
use tragach.Prelude.{
  ℕ, zero, suc, ◌+◌, ◌%◌, ◌^◌, ◌<◌, ◌≡◌, ◌∙◌, subst, sym, ap, some_injective, refl, some, List, [],
  ◌∷◌, ◌++◌, get_elem?, set, arith,
}

-- What a sequence of updates adds.
abbrev pub fetches : List Update → ℕ
fetches [] = 0
fetches (fetch d ∷ us) = suc (fetches us)
fetches (issue b ∷ us) = fetches us
fetches (complete w ∷ us) = fetches us

abbrev pub fetch_ns : List Update → ℕ
fetch_ns [] = 0
fetch_ns (fetch d ∷ us) = d + fetch_ns us
fetch_ns (issue b ∷ us) = fetch_ns us
fetch_ns (complete w ∷ us) = fetch_ns us

abbrev pub requests : List Update → ℕ
requests [] = 0
requests (fetch d ∷ us) = requests us
requests (issue b ∷ us) = suc (requests us)
requests (complete w ∷ us) = requests us

abbrev pub request_bytes : List Update → ℕ
request_bytes [] = 0
request_bytes (fetch d ∷ us) = request_bytes us
request_bytes (issue b ∷ us) = b + request_bytes us
request_bytes (complete w ∷ us) = request_bytes us

abbrev pub wait_ns : List Update → ℕ
wait_ns [] = 0
wait_ns (fetch d ∷ us) = wait_ns us
wait_ns (issue b ∷ us) = wait_ns us
wait_ns (complete w ∷ us) = w + wait_ns us

abbrev pub updates : List Update → PageIoCounters → PageIoCounters
updates [] c = c
updates (u ∷ us) c = updates us (update u c)

-- The five totals of a window that a sequence of updates accounts for, in 64 bits.
pub record IsWindow (us : List Update) (w : PageIoCounters) : Type 0 where
  pub engine_count : w.engine_count ≡ fetches us % 2 ^ 64
  pub engine_total_ns : w.engine_total_ns ≡ fetch_ns us % 2 ^ 64
  pub block_count : w.block_count ≡ requests us % 2 ^ 64
  pub block_total_bytes : w.block_total_bytes ≡ request_bytes us % 2 ^ 64
  pub block_total_wait_ns : w.block_total_wait_ns ≡ wait_ns us % 2 ^ 64

-- Counters whose totals fit in 64 bits.
record IsWide (c : PageIoCounters) : Type 0 where
  engine_count : c.engine_count < 2 ^ 64
  engine_total_ns : c.engine_total_ns < 2 ^ 64
  block_count : c.block_count < 2 ^ 64
  block_total_bytes : c.block_total_bytes < 2 ^ 64
  block_total_wait_ns : c.block_total_wait_ns < 2 ^ 64

sum_slots-IsWide :
    (out : PageIoCounters) (xs : List PageIoCounters) → IsWide out → IsWide (sum_slots out xs)
unfolding sum_slots add_slot
sum_slots-IsWide out [] h = h
sum_slots-IsWide out (x ∷ xs) h = sum_slots-IsWide (add_slot out x) xs record {
  engine_count = omega arith;
  engine_total_ns = omega arith;
  block_count = omega arith;
  block_total_bytes = omega arith;
  block_total_wait_ns = omega arith;
}

snapshot-IsWide : (xs : List PageIoCounters) → IsWide (snapshot_counters xs)
unfolding snapshot_counters
snapshot-IsWide xs = sum_slots-IsWide default xs record {
  engine_count = omega arith;
  engine_total_ns = omega arith;
  block_count = omega arith;
  block_total_bytes = omega arith;
  block_total_wait_ns = omega arith;
}

-- `now` is ahead of `prev` by the totals of the updates.
record IsAhead (us : List Update) (prev now : PageIoCounters) : Type 0 where
  engine_count : now.engine_count ≡ (prev.engine_count + fetches us) % 2 ^ 64
  engine_total_ns : now.engine_total_ns ≡ (prev.engine_total_ns + fetch_ns us) % 2 ^ 64
  block_count : now.block_count ≡ (prev.block_count + requests us) % 2 ^ 64
  block_total_bytes : now.block_total_bytes ≡ (prev.block_total_bytes + request_bytes us) % 2 ^ 64
  block_total_wait_ns : now.block_total_wait_ns ≡ (prev.block_total_wait_ns + wait_ns us) % 2 ^ 64

update-IsWide : (u : Update) (c : PageIoCounters) → IsWide c → IsWide (update u c)
unfolding count_fetch count_issue count_complete
update-IsWide (fetch d) c h = record {
  engine_count = omega (arith, h.engine_count);
  engine_total_ns = omega (arith, h.engine_total_ns);
  block_count = omega (arith, h.block_count);
  block_total_bytes = omega (arith, h.block_total_bytes);
  block_total_wait_ns = omega (arith, h.block_total_wait_ns);
}
update-IsWide (issue b) c h = record {
  engine_count = omega (arith, h.engine_count);
  engine_total_ns = omega (arith, h.engine_total_ns);
  block_count = omega (arith, h.block_count);
  block_total_bytes = omega (arith, h.block_total_bytes);
  block_total_wait_ns = omega (arith, h.block_total_wait_ns);
}
update-IsWide (complete w) c h = record {
  engine_count = omega (arith, h.engine_count);
  engine_total_ns = omega (arith, h.engine_total_ns);
  block_count = omega (arith, h.block_count);
  block_total_bytes = omega (arith, h.block_total_bytes);
  block_total_wait_ns = omega (arith, h.block_total_wait_ns);
}

IsAhead-update :
    (u : Update) (us : List Update) (c now : PageIoCounters)
    → IsAhead us (update u c) now
    → IsAhead (u ∷ us) c now
unfolding count_fetch count_issue count_complete
IsAhead-update (fetch d) us c now a = record {
  engine_count = omega (arith, a.engine_count);
  engine_total_ns = omega (arith, a.engine_total_ns);
  block_count = omega (arith, a.block_count);
  block_total_bytes = omega (arith, a.block_total_bytes);
  block_total_wait_ns = omega (arith, a.block_total_wait_ns);
}
IsAhead-update (issue b) us c now a = record {
  engine_count = omega (arith, a.engine_count);
  engine_total_ns = omega (arith, a.engine_total_ns);
  block_count = omega (arith, a.block_count);
  block_total_bytes = omega (arith, a.block_total_bytes);
  block_total_wait_ns = omega (arith, a.block_total_wait_ns);
}
IsAhead-update (complete w) us c now a = record {
  engine_count = omega (arith, a.engine_count);
  engine_total_ns = omega (arith, a.engine_total_ns);
  block_count = omega (arith, a.block_count);
  block_total_bytes = omega (arith, a.block_total_bytes);
  block_total_wait_ns = omega (arith, a.block_total_wait_ns);
}

updates-IsAhead : (us : List Update) (c : PageIoCounters) → IsWide c → IsAhead us c (updates us c)
updates-IsAhead [] c h = record {
  engine_count = omega (arith, h.engine_count);
  engine_total_ns = omega (arith, h.engine_total_ns);
  block_count = omega (arith, h.block_count);
  block_total_bytes = omega (arith, h.block_total_bytes);
  block_total_wait_ns = omega (arith, h.block_total_wait_ns);
}
updates-IsAhead (u ∷ us) c h =
    let rest : IsAhead us (update u c) (updates us (update u c)) =
      updates-IsAhead us (update u c) (update-IsWide u c h) in
    IsAhead-update u us c (updates us (update u c)) rest

delta-IsWindow :
    (us : List Update) (prev now : PageIoCounters)
    → IsWide prev
    → IsAhead us prev now
    → IsWindow us (delta_counters prev now)
unfolding delta_counters
delta-IsWindow us prev now h a = record {
  engine_count = omega (arith, h.engine_count, a.engine_count);
  engine_total_ns = omega (arith, h.engine_total_ns, a.engine_total_ns);
  block_count = omega (arith, h.block_count, a.block_count);
  block_total_bytes = omega (arith, h.block_total_bytes, a.block_total_bytes);
  block_total_wait_ns = omega (arith, h.block_total_wait_ns, a.block_total_wait_ns);
}

-- A snapshot that the updates lead to from an earlier one is ahead of it by their totals.
pub snapshots-IsWindow :
    (us : List Update) (prev : List PageIoCounters) (now : List PageIoCounters)
    → snapshot_counters now ≡ updates us (snapshot_counters prev)
    → IsWindow us (delta_counters (snapshot_counters prev) (snapshot_counters now))
snapshots-IsWindow us prev now e =
    subst (λ n. IsWindow us (delta_counters (snapshot_counters prev) n)) (sym e)
      (delta-IsWindow us (snapshot_counters prev) (updates us (snapshot_counters prev))
        (snapshot-IsWide prev) (updates-IsAhead us (snapshot_counters prev) (snapshot-IsWide prev)))

pub updates-append :
    (us vs : List Update) (c : PageIoCounters) → updates (us ++ vs) c ≡ updates vs (updates us c)
updates-append [] vs c = refl
updates-append (u ∷ us) vs c = updates-append us vs (update u c)
