-- ===== src/Queue/Order.antt =====
-- The in-memory queue delivers what was published, once and in order.
use sih_ulpf.Common.{
  ℕ, zero, suc, ◌-◌, ◌≡◌, refl, sym, ◌∙◌, ap, List, [], ◌∷◌, ◌++◌, Option, none, some, length, take,
  drop, Bool-cases, inl, inr, ltb, ◌==◌,
}
use mathlib.Core.List.{append_assoc}
use sih_ulpf.Pipeline.Parts.{RawEnvelope}
use sih_ulpf.Queue.Memory.{Message, MemoryQueue, new_queue, publish, consume_round}

take-drop : {A : Type 0} (n : ℕ) (xs : List A) → take n xs ++ drop n xs ≡ xs
take-drop zero xs = refl
take-drop (suc n) [] = refl
take-drop (suc n) (x ∷ xs) = ap (λ (z : List _). x ∷ z) (take-drop n xs)

some_inj : {A : Type 0} {x y : A} → ◌≡◌ {A = Option A} (some x) (some y) → x ≡ y
some_inj q = cc

-- What was published and what was delivered on the way to a state.
pub data Reached : List Message → List Message → MemoryQueue → Type 0 where
  start : Reached [] [] new_queue
  published :
      {sent got : List Message} {q : MemoryQueue} (maxsize mid : ℕ) (env : RawEnvelope)
      (q' : MemoryQueue)
      → publish maxsize env q ≡ some (mid, q')
      → Reached sent got q
      → Reached (sent ++ (record { id = mid; envelope = env } ∷ [])) got q'
  consumed :
      {sent got : List Message} {q : MemoryQueue} (count : ℕ)
      → Reached sent got q
      → Reached sent (got ++ (consume_round count q).0) (consume_round count q).1

publish_items :
    (maxsize mid : ℕ) (env : RawEnvelope) (q q' : MemoryQueue)
    → publish maxsize env q ≡ some (mid, q')
    → (q'.items ≡ q.items ++ (record { id = mid; envelope = env } ∷ []))
      × (q'.seq ≡ suc q.seq)
      × (mid ≡ suc q.seq)
unfolding publish
publish_items maxsize mid env q q' h = elim (Bool-cases (maxsize == 0)) [
  | inl e ↦ taken (rw e at h)
  | inr e ↦ elim (Bool-cases (ltb (length q.items) maxsize)) [
    | inl f ↦ taken (rw (e, f) at h)
    | inr f ↦ absurd (none_some (rw (e, f) at h))
  ]
]
  where
    none_some : ◌≡◌ {A = Option (ℕ × MemoryQueue)} none (some (mid, q')) → ⊥
    none_some k = cc

    taken :
        ◌≡◌ {A = Option (ℕ × MemoryQueue)}
          (some (
            suc q.seq,
            record {
              items = q.items ++ (record { id = suc q.seq; envelope = env } ∷ []);
              seq = suc q.seq;
            },
          ))
          (some (mid, q'))
        → (q'.items ≡ q.items ++ (record { id = mid; envelope = env } ∷ []))
          × (q'.seq ≡ suc q.seq)
          × (mid ≡ suc q.seq)
    taken k =
        let p = some_inj k in
        (
          sym (ap (λ (z : ℕ × MemoryQueue). z.1.items) p)
              ∙ ap (λ (z : ℕ × MemoryQueue). q.items ++ (record { id = z.0; envelope = env } ∷ []))
                  p,
          sym (ap (λ (z : ℕ × MemoryQueue). z.1.seq) p),
          sym (ap (λ (z : ℕ × MemoryQueue). z.0) p),
        )

consume_items :
    (count : ℕ) (q : MemoryQueue)
    → (consume_round count q).0 ++ (consume_round count q).1.items ≡ q.items
unfolding consume_round
consume_items count q = go q.items q.seq
  where
    go :
        (items : List Message) (seq : ℕ)
        → (consume_round count (record { items = items; seq = seq })).0
            ++ (consume_round count (record { items = items; seq = seq })).1.items
          ≡ items
    go [] seq = refl
    go (m ∷ rest) seq = ap (λ (z : List Message). m ∷ z) (take-drop (count - 1) rest)

-- Whatever the interleaving of `publish` and of rounds of `consume`, the delivered messages followed by
-- those in the queue are the published ones, in their order: none is lost, repeated or overtaken.
pub delivered_in_order :
    {sent got : List Message} {q : MemoryQueue} → Reached sent got q → got ++ q.items ≡ sent
delivered_in_order start = refl
delivered_in_order (published {sent = sent} {got = got} {q = q} maxsize mid env q' e h) =
    ap (λ (z : List Message). got ++ z) (publish_items maxsize mid env q q' e).0
    ∙ sym (append_assoc got q.items (record { id = mid; envelope = env } ∷ []))
    ∙ ap (λ (z : List Message). z ++ (record { id = mid; envelope = env } ∷ []))
        (delivered_in_order h)
delivered_in_order (consumed {got = got} {q = q} count h) =
    append_assoc got (consume_round count q).0 (consume_round count q).1.items
    ∙ ap (λ (z : List Message). got ++ z) (consume_items count q)
    ∙ delivered_in_order h
