-- ===== src/RawStore/Files.antt =====
-- What the file operations of the raw store leave readable.
use mathlib.Core.Path.{subst}
use mathlib.Core.List.{append_assoc, append-nil}
use sih_ulpf.Common.{
  ℕ, ◌≡◌, ◌≢◌, refl, sym, ◌∙◌, ap, Bool, true, false, [], ◌++◌, Option, none, some, Bool-cases,
  Option-cases, inl, inr, length,
}
use sih_ulpf.Common.Text.{text_eq}
use sih_ulpf.Common.Dict
use sih_ulpf.Common.Dict.{Dict}
use sih_ulpf.Common.Eq.{nat_eq, text_key, bool_eq, pair_eq, beq_refl}
use sih_ulpf.Models.{Bytes, Dir, RawRecord}
use sih_ulpf.RawStore.{FileName, Codec, compress_file, open_append, content_of, line_of}

abbrev pub Files : Type 0
Files = Dict FileName Bytes

beq_ne : (a b : FileName) → a ≢ b → pair_eq.beq a b ≡ false
beq_ne a b h = elim (Bool-cases (pair_eq.beq a b)) [
  | inl e ↦ absurd (h ((pair_eq.beq_iff a b).0 e))
  | inr e ↦ e
]

pub get-put_ne :
    (a b : FileName) (v : Bytes) (files : Files)
    → a ≢ b
    → Dict.get b (Dict.put a v files) ≡ Dict.get b files
get-put_ne a b v files h = Dict.get-put a b v files ∙ rw (beq_ne a b h)

pub get-remove_ne :
    (a b : FileName) (files : Files) → a ≢ b → Dict.get b (Dict.remove a files) ≡ Dict.get b files
get-remove_ne a b files h = Dict.get-remove a b files ∙ rw (beq_ne a b h)

pub get-remove_self : (a : FileName) (files : Files) → Dict.get a (Dict.remove a files) ≡ none
get-remove_self a files = Dict.get-remove a a files ∙ rw (beq_refl a)

pub gz_ne : (d : Dir) (n : ℕ) (e : Dir) (m : ℕ) → ◌≢◌ {A = FileName} (d, (n, true)) (e, (m, false))
gz_ne d n e m h = cc (ap (λ (z : FileName). z.1.1) h)

module _ (c : Codec) where
  -- Every file that could be read can still be read, and at most got longer.
  unfoldable pub Extends : Files → Files → Type 0
  Extends f g =
      (d : Dir) (n : ℕ) (b : Bytes)
      → content_of c d n f ≡ some b
      → (more : Bytes) × (content_of c d n g ≡ some (b ++ more))

  pub Extends-refl : (f : Files) → Extends f f
  unfolding Extends
  Extends-refl f d n b h = ([], rw (append-nil) h)

  pub Extends-trans : (f g k : Files) → Extends f g → Extends g k → Extends f k
  unfolding Extends
  Extends-trans f g k p q d n b h =
      let (m1, e1) = p d n b h in
      let (m2, e2) = q d n (b ++ m1) e1 in (m1 ++ m2, e2 ∙ ap some (append_assoc b m1 m2))

  -- the two names of a file are untouched
  content_same :
      (d : Dir) (n : ℕ) (f g : Files)
      → Dict.get (d, (n, false)) g ≡ Dict.get (d, (n, false)) f
      → Dict.get (d, (n, true)) g ≡ Dict.get (d, (n, true)) f
      → content_of c d n g ≡ content_of c d n f
  unfolding content_of
  content_same d n f g p q = rw (p, q)

  pub content_plain :
      (d : Dir) (n : ℕ) (f : Files) (b : Bytes)
      → Dict.get (d, (n, false)) f ≡ some b
      → content_of c d n f ≡ some b
  unfolding content_of
  content_plain d n f b h = rw h

  content_none :
      (d : Dir) (n : ℕ) (f : Files)
      → Dict.get (d, (n, false)) f ≡ none
      → Dict.get (d, (n, true)) f ≡ none
      → content_of c d n f ≡ none
  unfolding content_of
  content_none d n f h k = rw (h, k)

  content_gz :
      (d : Dir) (n : ℕ) (f : Files) (z : Bytes)
      → Dict.get (d, (n, false)) f ≡ none
      → Dict.get (d, (n, true)) f ≡ some z
      → content_of c d n f ≡ some (c.gunzip z)
  unfolding content_of
  content_gz d n f z h k = rw (h, k)

  -- a change that leaves every file but one alone, and makes that one longer
  Extends-at :
      (d : Dir) (n : ℕ) (f g : Files)
      → ((e : Dir) (m : ℕ)
          → ◌≢◌ {A = Dir × ℕ} (d, n) (e, m)
          → content_of c e m g ≡ content_of c e m f)
      → ((b : Bytes)
          → content_of c d n f ≡ some b
          → (more : Bytes) × (content_of c d n g ≡ some (b ++ more)))
      → Extends f g
  unfolding Extends
  Extends-at d n f g others here e m b h =
      elim (Bool-cases ((pair_eq {A = Dir} {B = ℕ}).beq (d, n) (e, m))) [
        | inl eq ↦
            let p = ((pair_eq {A = Dir} {B = ℕ}).beq_iff (d, n) (e, m)).0 eq in
            subst
              (λ (z : Dir × ℕ).
                content_of c z.0 z.1 f ≡ some b
                → (more : Bytes) × (content_of c z.0 z.1 g ≡ some (b ++ more)))
              p (here b) h
        | inr ne ↦ (
          [],
          others e m (λ p. cc (ne, ((pair_eq {A = Dir} {B = ℕ}).beq_iff (d, n) (e, m)).1 p))
              ∙ h
              ∙ ap some (sym (append-nil b)),
        )
      ]

  private_name :
      (d : Dir) (n : ℕ) (z : Bool) (e : Dir) (m : ℕ) (y : Bool)
      → ◌≢◌ {A = Dir × ℕ} (d, n) (e, m)
      → ◌≢◌ {A = FileName} (d, (n, z)) (e, (m, y))
  private_name d n z e m y h p = h (ap (λ (q : FileName). (q.0, q.1.0)) p)

-- What is relied on of the libraries: a line that was dumped loads to its payload, and equal
-- digests of a file and of what its compressed form reads back as mean equal contents.
pub record CodecLaws (c : Codec) : Type 0 where
  pub loads-dumps : (r : RawRecord) → c.loads (line_of c r) ≡ some r.payload
  pub no_collision :
      (b : Bytes)
      → text_eq (c.sha256 b) (c.sha256 (c.gunzip (c.gzip b))) ≡ true
      → c.gunzip (c.gzip b) ≡ b

-- The files of the other directories are as they were.
unfoldable pub Untouched : Dir → Files → Files → Type 0
Untouched d f g =
    (e : Dir) (p : ℕ × Bool)
    → d ≢ e
    → ◌≡◌ {A = Option Bytes} (Dict.get (e, p) g) (Dict.get (e, p) f)

pub Untouched-refl : (d : Dir) (f : Files) → Untouched d f f
unfolding Untouched
Untouched-refl d f e p h = refl

pub Untouched-trans :
    (d : Dir) (f g k : Files) → Untouched d f g → Untouched d g k → Untouched d f k
unfolding Untouched
Untouched-trans d f g k p q e m h = q e m h ∙ p e m h

other_dir :
    (d : Dir) (p : ℕ × Bool) (e : Dir) (q : ℕ × Bool) → d ≢ e → ◌≢◌ {A = FileName} (d, p) (e, q)
other_dir d p e q h r = h (ap (λ (z : FileName). z.0) r)

Untouched-put :
    (d : Dir) (p : ℕ × Bool) (b : Bytes) (f : Files) → Untouched d f (Dict.put (d, p) b f)
unfolding Untouched
Untouched-put d p b f e q h = get-put_ne (d, p) (e, q) b f (other_dir d p e q h)

Untouched-remove : (d : Dir) (p : ℕ × Bool) (f : Files) → Untouched d f (Dict.remove (d, p) f)
unfolding Untouched
Untouched-remove d p f e q h = get-remove_ne (d, p) (e, q) f (other_dir d p e q h)

module _ (c : Codec) where
  content_put_other :
      (d : Dir) (n : ℕ) (z : Bool) (b : Bytes) (f : Files) (e : Dir) (m : ℕ)
      → ◌≢◌ {A = Dir × ℕ} (d, n) (e, m)
      → content_of c e m (Dict.put (d, (n, z)) b f) ≡ content_of c e m f
  content_put_other d n z b f e m h =
      content_same c e m f (Dict.put (d, (n, z)) b f)
        (get-put_ne (d, (n, z)) (e, (m, false)) b f (private_name c d n z e m false h))
        (get-put_ne (d, (n, z)) (e, (m, true)) b f (private_name c d n z e m true h))

  content_remove_other :
      (d : Dir) (n : ℕ) (z : Bool) (f : Files) (e : Dir) (m : ℕ)
      → ◌≢◌ {A = Dir × ℕ} (d, n) (e, m)
      → content_of c e m (Dict.remove (d, (n, z)) f) ≡ content_of c e m f
  content_remove_other d n z f e m h =
      content_same c e m f (Dict.remove (d, (n, z)) f)
        (get-remove_ne (d, (n, z)) (e, (m, false)) f (private_name c d n z e m false h))
        (get-remove_ne (d, (n, z)) (e, (m, true)) f (private_name c d n z e m true h))

  -- the content at `d`, `n` is the same, and the rest is untouched
  same_at :
      (d : Dir) (n : ℕ) (f g : Files) (b : Bytes)
      → ((e : Dir) (m : ℕ)
          → ◌≢◌ {A = Dir × ℕ} (d, n) (e, m)
          → content_of c e m g ≡ content_of c e m f)
      → content_of c d n f ≡ some b
      → (more : Bytes) → content_of c d n g ≡ some (b ++ more)
      → Extends c f g
  same_at d n f g b others was more now =
      Extends-at c d n f g others
        (λ b' h. (more, now ∙ ap (λ (z : Bytes). some (z ++ more)) (cc (was, h))))

  pub write-Extends :
      (d : Dir) (n : ℕ) (line : Bytes) (f : Files) (b : Bytes)
      → Dict.get (d, (n, false)) f ≡ some b
      → Extends c f (Dict.put (d, (n, false)) (b ++ line) f)
  write-Extends d n line f b h =
      same_at d n f (Dict.put (d, (n, false)) (b ++ line) f) b
        (content_put_other d n false (b ++ line) f) (content_plain c d n f b h) line
        (content_plain c d n (Dict.put (d, (n, false)) (b ++ line) f) (b ++ line)
          (Dict.get-put_self (d, (n, false)) (b ++ line) f))

  module _ (laws : CodecLaws c) (d : Dir) (n : ℕ) (f : Files) (b : Bytes)
      (h : Dict.get (d, (n, false)) f ≡ some b) where
    abbrev zipped : Files
    zipped = Dict.put (d, (n, true)) (c.gzip b) f

    keep_gz :
        text_eq (c.sha256 b) (c.sha256 (c.gunzip (c.gzip b))) ≡ true
        → Extends c f (Dict.remove (d, (n, false)) zipped)
    keep_gz e =
        same_at d n f (Dict.remove (d, (n, false)) zipped) b
          (λ e' m ne.
            content_remove_other d n false zipped e' m ne
            ∙ content_put_other d n true (c.gzip b) f e' m ne)
          (content_plain c d n f b h) []
          (content_gz c d n (Dict.remove (d, (n, false)) zipped) (c.gzip b)
              (get-remove_self (d, (n, false)) zipped)
              (get-remove_ne (d, (n, false)) (d, (n, true)) zipped (λ p. gz_ne d n d n (sym p))
                ∙ Dict.get-put_self (d, (n, true)) (c.gzip b) f)
            ∙ ap some (laws.no_collision b e ∙ sym (append-nil b)))

    keep_plain : Extends c f (Dict.remove (d, (n, true)) zipped)
    keep_plain =
        same_at d n f (Dict.remove (d, (n, true)) zipped) b
          (λ e' m ne.
            content_remove_other d n true zipped e' m ne
            ∙ content_put_other d n true (c.gzip b) f e' m ne)
          (content_plain c d n f b h) []
          (content_plain c d n (Dict.remove (d, (n, true)) zipped) b (
              get-remove_ne (d, (n, true)) (d, (n, false)) zipped (gz_ne d n d n)
              ∙ get-put_ne (d, (n, true)) (d, (n, false)) (c.gzip b) f (gz_ne d n d n)
              ∙ h)
            ∙ ap some (sym (append-nil b)))

    -- Compressing an existing file succeeds, leaves every readable content readable and unshortened,
    -- whichever way the digests compare, and touches no other directory.
    pub compress_done :
        (g : Files) × (compress_file c d n f ≡ some g) × Extends c f g × Untouched d f g
    unfolding compress_file
    compress_done = elim (Bool-cases (text_eq (c.sha256 b) (c.sha256 (c.gunzip (c.gzip b))))) [
      | inl e ↦ (
        Dict.remove (d, (n, false)) zipped,
        rw (h, e, compress_file),
        keep_gz e,
        Untouched-trans d f zipped (Dict.remove (d, (n, false)) zipped)
            (Untouched-put d (n, true) (c.gzip b) f) (Untouched-remove d (n, false) zipped),
      )
      | inr e ↦ (
        Dict.remove (d, (n, true)) zipped,
        rw (h, e, compress_file),
        keep_plain,
        Untouched-trans d f zipped (Dict.remove (d, (n, true)) zipped)
            (Untouched-put d (n, true) (c.gzip b) f) (Untouched-remove d (n, true) zipped),
      )
    ]

  -- Opening a file leaves it open with its true size, and the others readable if no compressed file
  -- has its number.
  pub open_done :
      (d : Dir) (n : ℕ) (f : Files)
      → (Dict.get (d, (n, true)) f ≡ none → Extends c f (open_append (d, (n, false)) f).0)
        × Untouched d f (open_append (d, (n, false)) f).0
        × ((b : Bytes) × (Dict.get (d, (n, false)) (open_append (d, (n, false)) f).0 ≡ some b)
            × (length b ≡ (open_append (d, (n, false)) f).1))
  unfolding open_append
  open_done d n f = elim (Option-cases (Dict.get (d, (n, false)) f)) [
    | inl e ↦
        rw (e, open_append)
          (
            (λ h.
                Extends-at c d n f (Dict.put (d, (n, false)) [] f)
                  (content_put_other d n false [] f)
                  (λ b k. absurd (none_ne b (sym (nothing_there e h) ∙ k)))),
            Untouched-put d (n, false) [] f,
            ([], Dict.get-put_self (d, (n, false)) [] f, refl),
          )
    | inr (b, e) ↦ rw (e, open_append) ((λ h. Extends-refl c f), Untouched-refl d f, (b, e, refl))
  ]
    where
      none_ne : (b : Bytes) → ◌≢◌ {A = Option Bytes} none (some b)
      none_ne b k = cc

      nothing_there :
          Dict.get (d, (n, false)) f ≡ none
          → Dict.get (d, (n, true)) f ≡ none
          → content_of c d n f ≡ none
      nothing_there p q = content_none c d n f p q
