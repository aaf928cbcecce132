-- ===== src/Worker/Acks.antt =====
-- Which messages the worker acknowledges.
use sih_ulpf.Common.{
  ℕ, ◌-◌, ◌≡◌, refl, sym, ap, ◌∙◌, true, false, List, [], ◌∷◌, ◌++◌, ltb, map, Bool-cases, inl, inr,
  some,
}
use mathlib.Core.List.{append_assoc, append-nil}
use sih_ulpf.Common.Text.{Text}
use sih_ulpf.Pipeline.Parts.{RawEnvelope}
use sih_ulpf.Worker.{Delivery, Stack, Round, handle, work}

-- How the acknowledged ids are read off the world: an `ack` that returns adds to
-- them, and nothing but `ack` changes them.
pub record AckLaws {W : Type 0} (stack : Stack W) (acked : W → List Text) : Type 0 where
  pub acked-ack :
      (ids : List Text) (w : W)
      → (stack.ack ids w).0 ≡ some tt
      → acked (stack.ack ids w).1 ≡ acked w ++ ids
  pub acked-process :
      (envs : List RawEnvelope) (w : W) → acked (stack.process_batch envs w).1 ≡ acked w
  pub acked-tick : (w : W) → acked (stack.tick w).1 ≡ acked w
  pub acked-save : (w : W) → acked (stack.save_all w) ≡ acked w

-- the ids of the batches before the round that sees the stop flag
pub ids_before_stop : List Round → List Text
ids_before_stop [] = []
ids_before_stop (r ∷ rounds) =
    let rest = ids_before_stop rounds in
    elim r.stop as (λ _. List Text) [
      | true ↦ []
      | false ↦ map (λ (x : Delivery). x.0) r.batch ++ rest
    ]

module _ {W : Type 0} (stack : Stack W) (acked : W → List Text) (laws : AckLaws stack acked)
    (returns : (ids : List Text) (w : W) → (stack.ack ids w).0 ≡ some tt) where
  acked-handle :
      (batch : List Delivery) (w : W)
      → ((handle stack batch w).0 ≡ some tt)
        × (acked (handle stack batch w).1 ≡ acked w ++ map (λ (x : Delivery). x.0) batch)
  unfolding handle
  acked-handle [] w = (refl, sym (append-nil (acked w)))
  acked-handle (d ∷ batch) w =
      let ids = map (λ (x : Delivery). x.0) (d ∷ batch) in
      let processed = (stack.process_batch (map (λ (x : Delivery). x.1) (d ∷ batch)) w).1 in
      (
        returns ids processed,
        laws.acked-ack ids processed (returns ids processed)
            ∙ ap (λ (z : List Text). z ++ ids)
                (laws.acked-process (map (λ (x : Delivery). x.1) (d ∷ batch)) w),
      )

  -- If no `ack` raises, the loop returns, and it has acknowledged every message of the batches before
  -- the stop, in order and once, whether processing raises or not, and none of the batch that it has
  -- taken when it sees the stop flag. The acknowledged ids are taken to change by `ack` alone.
  pub acked-work :
      (interval : ℕ) (rounds : List Round) (last : ℕ) (w : W)
      → ((work stack interval rounds last w).0 ≡ some tt)
        × (acked (work stack interval rounds last w).1 ≡ acked w ++ ids_before_stop rounds)
  unfolding work ids_before_stop
  acked-work interval [] last w = (refl, laws.acked-save w ∙ sym (append-nil (acked w)))
  acked-work interval (r ∷ rounds) last w = elim (Bool-cases r.stop) [
    | inl e ↦ rw (e, ids_before_stop) (refl, laws.acked-save w ∙ sym (append-nil (acked w)))
    | inr e ↦
        let (goes_on, ids_of) = acked-handle r.batch w in
        let handled = (handle stack r.batch w).1 in
        let step : acked handled ++ ids_before_stop rounds
            ≡ acked w ++ (map (λ (x : Delivery). x.0) r.batch ++ ids_before_stop rounds) =
          ap (λ (z : List Text). z ++ ids_before_stop rounds) ids_of
          ∙ append_assoc (acked w) (map (λ (x : Delivery). x.0) r.batch) (ids_before_stop rounds) in
        elim (Bool-cases (ltb interval (r.now - last))) [
          | inl f ↦
              let (returned, rest) = acked-work interval rounds r.now (stack.tick handled).1 in
              rw (e, goes_on, f, ids_before_stop)
                (
                  returned,
                  rest
                      ∙ ap (λ (z : List Text). z ++ ids_before_stop rounds)
                          (laws.acked-tick handled)
                      ∙ step,
                )
          | inr f ↦
              let (returned, rest) = acked-work interval rounds last handled in
              rw (e, goes_on, f, ids_before_stop) (returned, rest ∙ step)
        ]
  ]
