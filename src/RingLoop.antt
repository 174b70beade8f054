-- ===== src/RingLoop.antt =====
-- The loop over the ring buffer that `run_event_loop` of crates/tragach-slowquery/src/main.rs and
-- crates/tragach-attach/src/main.rs share: records are taken at each wake-up, until Ctrl-C or an
-- error. What is done with a record is a parameter.
use tragach.Prelude.{
  Bool, true, false, Option, none, some, List, [], ◌∷◌, ◌++◌, map, All, Text, ℕ, ◌≡◌, refl, ap, sym,
  ◌∙◌, subst,
}

-- A record of the ring, the wall-clock time that its line shows, and whether the line can be written.
pub record Item : Type 0 where
  pub bytes : List ℕ
  pub now : Text
  pub writable : Bool

-- What `select!` takes next; `ready none` is an error of the file descriptor.
pub data Event : Type 0 where
  ctrl_c : Event
  ready : Option (List Item) → Event

pub data Ending : Type 0 where
  shut_down not_registered not_ready write_failed running : Ending

-- A step that goes on or ends the loop.
abbrev pub resume : {S B : Type 0} → S × Bool → (S → B) → (S → B) → B
resume (s, true) next stop = next s
resume (s, false) next stop = stop s

resume-true :
    {S B : Type 0} (o : S × Bool) (next stop : S → B) → o.1 ≡ true → resume o next stop ≡ next o.0
resume-true (s, true) next stop h = refl
resume-true (s, false) next stop h = absurd (cc)

abbrev pub concat : {A : Type 0} → List (List A) → List A
concat [] = []
concat (xs ∷ xss) = xs ++ concat xss

-- Records in batches, one for each wake-up.
abbrev pub wake_ups : List (List Item) → List Event
wake_ups [] = []
wake_ups (items ∷ batches) = ready (some items) ∷ wake_ups batches

module _ {S : Type 0} (on_item : Item → S → S × Bool) where
  -- `while let Some(item) = ring.next()`, and whether it came to the end.
  unfoldable pub drain : List Item → S → S × Bool
  drain [] s = (s, true)
  drain (i ∷ items) s = resume (on_item i s) (drain items) (λ s'. (s', false))

  -- `running` is after the events so far.
  unfoldable pub loop : S → List Event → S × Ending
  loop s [] = (s, running)
  loop s (ctrl_c ∷ events) = (s, shut_down)
  loop s (ready none ∷ events) = (s, not_ready)
  loop s (ready (some items) ∷ events) =
      resume (drain items s) (λ s'. loop s' events) (λ s'. (s', write_failed))

  resume-drain :
      (o : S × Bool) (xs ys : List Item)
      → ((s : S) → drain (xs ++ ys) s ≡ resume (drain xs s) (drain ys) (λ s'. (s', false)))
      → resume o (drain (xs ++ ys)) (λ s'. (s', false))
        ≡ resume (resume o (drain xs) (λ s'. (s', false))) (drain ys) (λ s'. (s', false))
  resume-drain (s, true) xs ys h = h s
  resume-drain (s, false) xs ys h = refl

  drain-append :
      (xs ys : List Item) (s : S)
      → drain (xs ++ ys) s ≡ resume (drain xs s) (drain ys) (λ s'. (s', false))
  unfolding drain
  drain-append [] ys s = refl
  drain-append (i ∷ xs) ys s = resume-drain (on_item i s) xs ys (drain-append xs ys)

  batch-step :
      (o : S × Bool) (rest : S → S × Bool) (next : S → S × Ending) {s' : S}
      → resume o rest (λ s. (s, false)) ≡ (s', true)
      → ((s : S) → rest s ≡ (s', true) → next s ≡ (s', shut_down))
      → resume o next (λ s. (s, write_failed)) ≡ (s', shut_down)
  batch-step (s, true) rest next e h = h s e
  batch-step (s, false) rest next e h = absurd (cc)

  -- However the records are spread over wake-ups, the loop handles them in order and stops at
  -- Ctrl-C.
  loop-batches :
      (batches : List (List Item)) (later : List Event) (s s' : S)
      → drain (concat batches) s ≡ (s', true)
      → loop s (wake_ups batches ++ ctrl_c ∷ later) ≡ (s', shut_down)
  unfolding loop
  loop-batches [] later s s' e = unfold drain in ap (λ o. (o.0, shut_down)) e
  loop-batches (items ∷ batches) later s s' e =
      batch-step (drain items s) (drain (concat batches)) _
        (sym (drain-append items (concat batches) s) ∙ e)
        (λ s1 h. loop-batches batches later s1 s' h)

-- What a loop keeps, seen as a function of the bytes alone, as long as lines can be written.
module _ {S U : Type 0} (on_item : Item → S → S × Bool) (view : S → U)
    (handle : List (List ℕ) → U → U) (handle-nil : (u : U) → handle [] u ≡ u)
    (goes : (i : Item) (items : List (List ℕ)) (s : S)
      → i.writable ≡ true
      → ((on_item i s).1 ≡ true)
        × (handle items (view (on_item i s).0) ≡ handle (i.bytes ∷ items) (view s))) where
  abbrev bytes_of : List Item → List (List ℕ)
  bytes_of items = map (λ i. i.bytes) items

  drain-view :
      (items : List Item) (s : S)
      → All (λ i. i.writable ≡ true) items
      → ((drain on_item items s).1 ≡ true)
        × (view (drain on_item items s).0 ≡ handle (bytes_of items) (view s))
  unfolding drain
  drain-view [] s h = (refl, sym (handle-nil (view s)))
  drain-view (i ∷ items) s h =
      let o = on_item i s in
      let (on, first) = goes i (bytes_of items) s h.0 in
      let rest = drain-view items o.0 h.1 in
      subst (λ x. (x.1 ≡ true) × (view x.0 ≡ handle (i.bytes ∷ bytes_of items) (view s)))
        (sym (resume-true o (drain on_item items) (λ s'. (s', false)) on)) (rest.0, rest.1 ∙ first)

  -- However the records are spread over wake-ups, the loop handles them in order, and ends at
  -- Ctrl-C.
  pub loop-view :
      (batches : List (List Item)) (later : List Event) (s : S)
      → All (λ i. i.writable ≡ true) (concat batches)
      → let (s', ending) = loop on_item s (wake_ups batches ++ ctrl_c ∷ later) in
        (view s' ≡ handle (map (λ i. i.bytes) (concat batches)) (view s)) × (ending ≡ shut_down)
  loop-view batches later s h =
      let o = drain on_item (concat batches) s in
      let (on, same) = drain-view (concat batches) s h in
      subst
        (λ (x : S × Ending).
          (view x.0 ≡ handle (map (λ i. i.bytes) (concat batches)) (view s)) × (x.1 ≡ shut_down))
        (sym (loop-batches on_item batches later s o.0 (λ i. (o.0, on i)))) (same, refl)
