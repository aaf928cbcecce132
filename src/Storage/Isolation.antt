-- ===== src/Storage/Isolation.antt =====
-- Whose events a query gives, and how many; and what the writes leave in the tables.
use mathlib.Core.List.{reverse_aux}
use sih_ulpf.Common.{
  ℕ, zero, suc, ◌≤◌, ◌≡◌, refl, sym, ◌∙◌, Bool, true, false, ◌&&◌, List, [], ◌∷◌, map,
  if◌then◌else◌, leb, length, take, drop, length-take-le, Bool-cases, inl, inr, arith,
}
use sih_ulpf.Common.Text.{Text}
use sih_ulpf.Common.Eq.{text_key}
use sih_ulpf.Common.Int.{ℤ, pos, negsuc}
use sih_ulpf.Storage.Tables.{filter, rows, insert_desc, order_desc}
use sih_ulpf.Storage.Events.{
  EventRow, EventTables, EventQuery, Search, matches, query_events, limited, ordered, page_size,
}

abbrev pub All : {A : Type 0} → (A → Type 0) → List A → Type 0
All P [] = Unit
All P (a ∷ xs) = P a × All P xs

module _ {A : Type 0} (P : A → Type 0) where
  All-filter : (p : A → Bool) (xs : List A) → ((a : A) → p a ≡ true → P a) → All P (filter p xs)
  unfolding filter
  All-filter p [] h = tt
  All-filter p (a ∷ xs) h = elim (Bool-cases (p a)) [
    | inl hit ↦ rw hit (h a hit, All-filter p xs h)
    | inr miss ↦ rw miss (All-filter p xs h)
  ]

  All-take : (n : ℕ) (xs : List A) → All P xs → All P (take n xs)
  All-take zero xs h = tt
  All-take (suc n) [] h = tt
  All-take (suc n) (a ∷ xs) (x, h) = (x, All-take n xs h)

  All-drop : (n : ℕ) (xs : List A) → All P xs → All P (drop n xs)
  All-drop zero xs h = h
  All-drop (suc n) [] h = tt
  All-drop (suc n) (a ∷ xs) (x, h) = All-drop n xs h

  All-reverse_aux : (xs acc : List A) → All P xs → All P acc → All P (reverse_aux xs acc)
  All-reverse_aux [] acc h k = k
  All-reverse_aux (a ∷ xs) acc (x, h) k = All-reverse_aux xs (a ∷ acc) h (x, k)

  All-insert_desc :
      (key : A → ℕ) (a : A) (xs : List A) → P a → All P xs → All P (insert_desc key a xs)
  unfolding insert_desc
  All-insert_desc key a [] x h = (x, tt)
  All-insert_desc key a (b ∷ xs) x (y, h) = elim (Bool-cases (leb (key b) (key a))) [
    | inl here ↦ rw here (x, (y, h))
    | inr later ↦ rw later (y, All-insert_desc key a xs x h)
  ]

  All-order_desc : (key : A → ℕ) (xs : List A) → All P xs → All P (order_desc key xs)
  unfolding order_desc
  All-order_desc key [] h = tt
  All-order_desc key (a ∷ xs) (x, h) =
      All-insert_desc key a (order_desc key xs) x (All-order_desc key xs h)

  All-limited : (n : ℤ) (xs : List A) → All P xs → All P (limited n xs)
  All-limited (pos n) xs h = All-take n xs h
  All-limited (negsuc n) xs h = h

All-map :
    {A B : Type 0} (P : B → Type 0) (g : A → B) (xs : List A)
    → All (λ a. P (g a)) xs
    → All P (map g xs)
All-map P g [] h = tt
All-map P g (a ∷ xs) (x, h) = (x, All-map P g xs h)

All-both :
    {A : Type 0} (P : A → Type 0) (p : A → Bool) (xs : List A)
    → All P xs
    → All (λ a. P a × (p a ≡ true)) (filter p xs)
unfolding filter
All-both P p [] h = tt
All-both P p (a ∷ xs) (x, h) = elim (Bool-cases (p a)) [
  | inl hit ↦ rw hit ((x, hit), All-both P p xs h)
  | inr miss ↦ rw miss (All-both P p xs h)
]

length-map : {A B : Type 0} (g : A → B) (xs : List A) → length (map g xs) ≡ length xs
length-map g [] = refl
length-map g (a ∷ xs) = omega (arith, length-map g xs)

-- the rows say the tenant that their events have
abbrev pub SaysTenant : {F : Type 0} → EventRow F → Type 0
SaysTenant r = r.tenant_id ≡ r.body.tenant_id

unfoldable pub Coherent : {F : Type 0} → EventTables F → Type 0
Coherent t = All SaysTenant (rows t.events)

and_left : (a b : Bool) → (a && b) ≡ true → a ≡ true
and_left a b h = ground arith

module _ {F : Type 0} (s : Search F) where
  matches-tenant :
      (tenant_id : Text) (f : EventQuery F) (t : EventTables F) (r : EventRow F)
      → matches s tenant_id f t r ≡ true
      → r.tenant_id ≡ tenant_id
  unfolding matches
  matches-tenant tenant_id f t r h = (text_key.beq_iff r.tenant_id tenant_id).0 (and_left _ _ h)

  All-ordered :
      (P : EventRow F → Type 0) (d : Bool) (rs : List (EventRow F))
      → All P rs
      → All P (ordered s d rs)
  All-ordered P true rs h = All-order_desc P (λ r. r.created_at) rs h
  All-ordered P false rs h =
      All-reverse_aux P (order_desc (λ r. r.created_at) rs) []
        (All-order_desc P (λ r. r.created_at) rs h) tt

  All-implied :
      {A : Type 0} (P Q : A → Type 0) (xs : List A) → ((a : A) → P a → Q a) → All P xs → All Q xs
  All-implied P Q [] f h = tt
  All-implied P Q (a ∷ xs) f (x, h) = (f a x, All-implied P Q xs f h)

  -- A query gives events of the tenant only, when the rows say the tenants of their events.
  pub query_events_own :
      (tenant_id : Text) (f : EventQuery F) (t : EventTables F)
      → Coherent t
      → All (λ ev. ev.tenant_id ≡ tenant_id) (query_events s tenant_id f t)
  unfolding query_events Coherent
  query_events_own tenant_id f t h =
      let Own : EventRow F → Type 0 = λ r. r.body.tenant_id ≡ tenant_id in
      let own : All Own (filter (matches s tenant_id f t) (rows t.events)) =
        All-implied _ Own _ (λ r q. sym q.0 ∙ matches-tenant tenant_id f t r q.1)
          (All-both SaysTenant (matches s tenant_id f t) (rows t.events) h) in
      All-map (λ ev. ev.tenant_id ≡ tenant_id) (λ r. r.body) _
        (All-limited Own (page_size f.limit) _
          (All-drop Own f.offset _ (All-ordered Own f.descending _ own)))

  -- A query whose limit is not negative gives 1000 events at most.
  pub query_events_bounded :
      (tenant_id : Text) (f : EventQuery F) (t : EventTables F) (n : ℕ)
      → f.limit ≡ pos n
      → (length (query_events s tenant_id f t) ≤ 1000) × (length (query_events s tenant_id f t) ≤ n)
  unfolding query_events
  query_events_bounded tenant_id f t n h =
      let found =
        drop f.offset (ordered s f.descending (filter (matches s tenant_id f t) (rows t.events))) in
      rw h (go found, go' found)
    where
      m : ℕ
      m = if leb n 1000 then n else 1000

      go : (xs : List (EventRow F)) → length (map (λ r. r.body) (take m xs)) ≤ 1000
      go xs =
          ground (arith, length-map (λ (r : EventRow F). r.body) (take m xs), length-take-le m xs)

      go' : (xs : List (EventRow F)) → length (map (λ r. r.body) (take m xs)) ≤ n
      go' xs =
          ground (arith, length-map (λ (r : EventRow F). r.body) (take m xs), length-take-le m xs)
