-- ===== src/PageIo/Windows/Slots.antt =====
-- One update of a CPU's slot against the sum of all slots, crates/tragach-pageio/src/bpf/main.rs and
-- `snapshot_counters` of crates/tragach-pageio/src/main.rs.
use tragach.PageIo.{PageIoCounters, count_fetch, count_issue, count_complete}
use tragach.PageIo.Userspace.{add_slot, sum_slots}
use tragach.Prelude.{
  ℕ, zero, suc, ◌≡◌, ◌∙◌, sym, ap, some_injective, refl, some, List, [], ◌∷◌, get_elem?, set, arith,
}

-- One update of the counters by a probe that runs on a CPU.
pub data Update : Type 0 where
  fetch : ℕ → Update
  issue : ℕ → Update
  complete : ℕ → Update

abbrev pub update : Update → PageIoCounters → PageIoCounters
update (fetch d) = count_fetch d
update (issue b) = count_issue b
update (complete w) = count_complete w

add-update_slot :
    (u : Update) (out c : PageIoCounters) → add_slot out (update u c) ≡ update u (add_slot out c)
unfolding count_fetch count_issue count_complete add_slot
add-update_slot (fetch d) out c = ground arith
add-update_slot (issue b) out c = ground arith
add-update_slot (complete w) out c = ground arith

add-update_out :
    (u : Update) (out c : PageIoCounters) → add_slot (update u out) c ≡ update u (add_slot out c)
unfolding count_fetch count_issue count_complete add_slot
add-update_out (fetch d) out c = ground arith
add-update_out (issue b) out c = ground arith
add-update_out (complete w) out c = ground arith

sum_slots-update :
    (u : Update) (out : PageIoCounters) (xs : List PageIoCounters)
    → sum_slots (update u out) xs ≡ update u (sum_slots out xs)
unfolding sum_slots
sum_slots-update u out [] = refl
sum_slots-update u out (c ∷ xs) =
    ap (λ o. sum_slots o xs) (add-update_out u out c) ∙ sum_slots-update u (add_slot out c) xs

pub sum_slots-set :
    (u : Update) (out : PageIoCounters) (xs : List PageIoCounters) (i : ℕ) {c : PageIoCounters}
    → get_elem? xs i ≡ some c
    → sum_slots out (set xs i (update u c)) ≡ update u (sum_slots out xs)
unfolding sum_slots
sum_slots-set u out [] i h = ground arith
sum_slots-set u out (x ∷ xs) zero {c} h =
    let here : x ≡ c = some_injective h in
    ap (λ o. sum_slots o xs)
      (add-update_slot u out c ∙ ap (λ y. update u (add_slot out y)) (sym here))
    ∙ sum_slots-update u (add_slot out x) xs
sum_slots-set u out (x ∷ xs) (suc i) h = sum_slots-set u (add_slot out x) xs i h
