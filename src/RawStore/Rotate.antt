-- ===== src/RawStore/Rotate.antt =====
-- The number that `_rotate` picks is that of no compressed file.
use mathlib.Core.Path.{subst}
use sih_ulpf.Common.{
  ℕ, ◌<◌, ◌≡◌, refl, sym, ◌∙◌, not, ◌||◌, ◌⊎◌, Bool, true, false, [], ◌∷◌, Option, none, some,
  Bool-cases, Option-cases, inl, inr, arith,
}
use sih_ulpf.Common.Text.{text_eq}
use sih_ulpf.Common.Strings.{leb_text}
use sih_ulpf.Common.Dict
use sih_ulpf.Common.Eq.{nat_eq, text_key, bool_eq, pair_eq}
use sih_ulpf.Models.{Bytes, Dir}
use sih_ulpf.RawStore.{FileName, Codec, name_text, newest, later, next_no, compress_file}
use sih_ulpf.RawStore.Files.{Files}
use sih_ulpf.RawStore.Names.{name-Before, name_same}

-- the name sorts no later than the newest one
abbrev Covers : Option (ℕ × Bool) → ℕ × Bool → Type 0
Covers none p = ⊥
Covers (some q) p = (p.0 < q.0) ⊎ ((p.0 ≡ q.0) × (p.1 ≡ true → q.1 ≡ true))

abbrev SmallName : Option (ℕ × Bool) → Type 0
SmallName none = Unit
SmallName (some q) = q.0 < 1000000

-- every file has a number of at most six digits
abbrev pub Small : Files → Type 0
Small [] = Unit
Small ((name, b) ∷ files) = (name.1.0 < 1000000) × Small files

three_ways : (n m : ℕ) → (n < m) ⊎ ((n ≡ m) ⊎ (m < n))
three_ways n m = omega arith

same_number :
    (p q : ℕ × Bool)
    → q.0 < 1000000
    → p.0 ≡ q.0
    → SmallName (later p (some q))
      × Covers (later p (some q)) p
      × ((s : ℕ × Bool) → Covers (some q) s → Covers (later p (some q)) s)
unfolding later
same_number p q small same = elim (Bool-cases (not q.1 || p.1)) [
  | inl e ↦
      let first : leb_text (name_text q) (name_text p) ≡ true =
        name_same q p (sym same) (omega arith) ∙ e in
      rw first (omega arith, inr (refl, λ h. h), λ s h. ground arith)
  | inr e ↦
      let second : leb_text (name_text q) (name_text p) ≡ false =
        name_same q p (sym same) (omega arith) ∙ e in
      rw second (small, ground arith, λ s h. h)
]

later-Covers :
    (p : ℕ × Bool) (r : Option (ℕ × Bool))
    → p.0 < 1000000
    → SmallName r
    → SmallName (later p r)
      × Covers (later p r) p
      × ((q : ℕ × Bool) → Covers r q → Covers (later p r) q)
unfolding later
later-Covers p none small small_r = (small, inr (refl, λ h. h), λ q h. absurd h)
later-Covers p (some q) small small_r = elim (three_ways p.0 q.0) [
  | inl lower ↦
      let (before, behind) = name-Before p q lower small_r in
      rw behind (small_r, inl lower, λ s h. h)
  | inr (inl same) ↦ same_number p q small_r same
  | inr (inr lower) ↦
      let (before, behind) = name-Before q p lower small in
      rw before (small, inr (refl, λ h. h), λ s h. ground arith)
]

abbrev dir_eq : Dir → Dir → Bool
dir_eq = pair_eq.beq

newest-Small : (d : Dir) (files : Files) → Small files → SmallName (newest d files)
unfolding newest
newest-Small d [] small = tt
newest-Small d ((name, v) ∷ files) (this, rest) = elim (Bool-cases (dir_eq name.0 d)) [
  | inl same ↦ rw same (later-Covers name.1 (newest d files) this (newest-Small d files rest)).0
  | inr other ↦ rw other (newest-Small d files rest)
]

newest-Covers :
    (d : Dir) (p : ℕ × Bool) (files : Files) (b : Bytes)
    → Small files
    → Dict.get (d, p) files ≡ some b
    → Covers (newest d files) p
unfolding newest Dict.get
newest-Covers d p [] b small h = cc
newest-Covers d p ((name, v) ∷ files) b (this, rest) h =
    let (fine, covers, keeps) =
      later-Covers name.1 (newest d files) this (newest-Small d files rest) in
    elim (Bool-cases (dir_eq name.0 d)) [
      | inl same ↦ rw same (elim (Bool-cases (pair_eq.beq name.1 p)) [
        | inl e ↦
            subst (λ z. Covers (later name.1 (newest d files)) z)
              (((pair_eq {A = ℕ} {B = Bool}).beq_iff name.1 p).0 e) covers
        | inr e ↦ keeps p (newest-Covers d p files b rest (rw (same, e) at h))
      ])
      | inr other ↦ rw other (newest-Covers d p files b rest (rw other at h))
    ]

not_covered : (had : Bool) (r : Option (ℕ × Bool)) → Covers r (next_no had r, true) → ⊥
unfolding next_no
not_covered had none h = h
not_covered had (some q) h = ground arith

-- The number that `_rotate` opens next is never that of a compressed file, so that a plain file
-- never hides an archived one, as long as no file has a number of more than six digits.
pub next_no_fresh :
    (had : Bool) (d : Dir) (files : Files)
    → Small files
    → Dict.get (d, (next_no had (newest d files), true)) files ≡ none
next_no_fresh had d files small =
    elim (Option-cases (Dict.get (d, (next_no had (newest d files), true)) files)) [
      | inl e ↦ e
      | inr (b, e) ↦ absurd (
          not_covered had (newest d files)
            (newest-Covers d (next_no had (newest d files), true) files b small e))
    ]

pub Small-get :
    (name : FileName) (files : Files) (b : Bytes)
    → Small files
    → Dict.get name files ≡ some b
    → name.1.0 < 1000000
unfolding Dict.get
Small-get name [] b small h = cc
Small-get name ((j, v) ∷ files) b (this, rest) h = elim (Bool-cases (pair_eq.beq j name)) [
  | inl e ↦
      subst (λ (z : FileName). z.1.0 < 1000000)
        (((pair_eq {A = Dir} {B = ℕ × Bool}).beq_iff j name).0 e) this
  | inr e ↦ Small-get name files b rest (rw e at h)
]

Small-put :
    (name : FileName) (b : Bytes) (files : Files)
    → name.1.0 < 1000000
    → Small files
    → Small (Dict.put name b files)
unfolding Dict.put
Small-put name b [] this small = (this, tt)
Small-put name b ((j, v) ∷ files) this (first, rest) = elim (Bool-cases (pair_eq.beq j name)) [
  | inl e ↦ rw e (first, rest)
  | inr e ↦ rw e (first, Small-put name b files this rest)
]

Small-remove : (name : FileName) (files : Files) → Small files → Small (Dict.remove name files)
unfolding Dict.remove
Small-remove name [] small = tt
Small-remove name ((j, v) ∷ files) (first, rest) = elim (Bool-cases (pair_eq.beq j name)) [
  | inl e ↦ rw e (Small-remove name files rest)
  | inr e ↦ rw e (first, Small-remove name files rest)
]

-- what is compressed keeps its number
pub compress-Small :
    (c : Codec) (d : Dir) (n : ℕ) (files files' : Files)
    → Small files
    → compress_file c d n files ≡ some files'
    → Small files'
unfolding compress_file
compress-Small c d n files files' small h = elim (Option-cases (Dict.get (d, (n, false)) files)) [
  | inl e ↦ absurd (none_some (rw (e, compress_file) at h))
  | inr (content, e) ↦
      let written = Dict.put (d, (n, true)) (c.gzip content) files in
      let small_written : Small written =
        Small-put (d, (n, true)) (c.gzip content) files
          (Small-get (d, (n, false)) files content small e) small in
      elim (Bool-cases (text_eq (c.sha256 content) (c.sha256 (c.gunzip (c.gzip content))))) [
        | inl same ↦
            subst Small (some_inj (rw (e, compress_file, same) at h))
              (Small-remove (d, (n, false)) written small_written)
        | inr other ↦
            subst Small (some_inj (rw (e, compress_file, other) at h))
              (Small-remove (d, (n, true)) written small_written)
      ]
]
  where
    none_some : {f : Files} → ◌≡◌ {A = Option Files} none (some f) → ⊥
    none_some q = cc

    some_inj : {f g : Files} → ◌≡◌ {A = Option Files} (some f) (some g) → f ≡ g
    some_inj q = cc
