-- ===== src/RawStore/Append.antt =====
-- What has been appended stays readable, across rotation and compression.
use mathlib.Core.Path.{subst}
use mathlib.Core.List.{append_assoc, append-nil}
use sih_ulpf.Common.{
  ℕ, ◌+◌, ◌≡◌, ◌≢◌, refl, sym, ◌∙◌, ap, Bool, false, [], ◌∷◌, ◌++◌, Option, none, some, Bool-cases,
  inl, inr, arith, length, take, drop, length-append,
}
use sih_ulpf.Common.Text.{Text}
use sih_ulpf.Common.Dict
use sih_ulpf.Common.Eq.{nat_eq, text_key, bool_eq, pair_eq}
use sih_ulpf.Models.{Bytes, Dir, RawLocation, file}
use sih_ulpf.RawStore.{
  RawStore, Key, Segment, FileName, Codec, slug, dir_of, path_of, newest, next_no, open_append,
  open_next, close_old, rotate, must_rotate, ready, write_line, write_to, content_of, read_line,
  is_some,
}
use sih_ulpf.RawStore.Files.{
  Files, CodecLaws, Extends, Extends-refl, Extends-trans, Untouched, write-Extends, compress_done,
  open_done, get-put_ne, content_plain,
}
use sih_ulpf.RawStore.Rotate.{Small, next_no_fresh, compress-Small}

-- Every open segment has its file, of the size that is noted.
pub record IsOpen (s : RawStore) : Type 0 where
  pub open_file :
      (k : Key) (g : Segment)
      → Dict.get k s.segments ≡ some g
      → (b : Bytes) × (Dict.get (path_of k g) s.files ≡ some b) × (length b ≡ g.size)

-- No other source with an open segment has the directory of this one.
abbrev pub Apart : RawStore → Key → Type 0
Apart s k =
    (j : Key) (g : Segment)
    → Dict.get j s.segments ≡ some g
    → j ≢ k
    → ◌≢◌ {A = Text × Text} (slug k.0, slug k.1) (slug j.0, slug j.1)

-- The location holds the line.
pub record Stored (c : Codec) (s : RawStore) (loc : RawLocation) (line : Bytes) : Type 0 where
  pub dir : Dir
  pub number : ℕ
  pub before : Bytes
  pub behind : Bytes
  pub at_segment : loc.segment ≡ file dir number
  pub content : content_of c dir number s.files ≡ some (before ++ (line ++ behind))
  pub at_offset : length before ≡ loc.offset
  pub at_length : length line ≡ loc.length

drop-append : (xs ys : Bytes) → drop (length xs) (xs ++ ys) ≡ ys
drop-append [] ys = refl
drop-append (x ∷ xs) ys = drop-append xs ys

take-append : (xs ys : Bytes) → take (length xs) (xs ++ ys) ≡ xs
take-append [] ys = refl
take-append (x ∷ xs) ys = ap (λ (z : Bytes). x ∷ z) (take-append xs ys)

-- A location that holds a line reads as that line.
pub Stored-read_line :
    (c : Codec) (s : RawStore) (loc : RawLocation) (line : Bytes)
    → Stored c s loc line
    → read_line c loc s ≡ some line
unfolding read_line
Stored-read_line c s loc line h =
    rw
      (
        h.at_segment,
        h.content,
        ← h.at_offset,
        ← h.at_length,
        drop-append h.before (line ++ h.behind),
        take-append line h.behind,
      )
      refl

-- and goes on doing so when the files only grow
pub Stored-Extends :
    (c : Codec) (s t : RawStore) (loc : RawLocation) (line : Bytes)
    → Extends c s.files t.files
    → Stored c s loc line
    → Stored c t loc line
unfolding Extends
Stored-Extends c s t loc line e h =
    let (more, now) = e h.dir h.number (h.before ++ (line ++ h.behind)) h.content in
    record {
      dir = h.dir;
      number = h.number;
      before = h.before;
      behind = h.behind ++ more;
      at_segment = h.at_segment;
      content =
          now
          ∙ ap some (
              append_assoc h.before (line ++ h.behind) more
              ∙ ap (λ (z : Bytes). h.before ++ z) (append_assoc line h.behind more));
      at_offset = h.at_offset;
      at_length = h.at_length;
    }

-- the files of other sources are as they were
abbrev Away : Key → Files → Files → Type 0
Away k f g =
    (e : Dir) (p : ℕ × Bool)
    → ◌≢◌ {A = Text × Text} (slug k.0, slug k.1) (e.0, e.1.0)
    → ◌≡◌ {A = Option Bytes} (Dict.get (e, p) g) (Dict.get (e, p) f)

Away-of_Untouched : (k : Key) (day : Text) (f g : Files) → Untouched (dir_of k day) f g → Away k f g
unfolding Untouched
Away-of_Untouched k day f g h e p ne = h e p (λ q. ne (ap (λ (z : Dir). (z.0, z.1.0)) q))

key_ne : (k j : Key) → k ≢ j → pair_eq.beq k j ≡ false
key_ne k j h = elim (Bool-cases (pair_eq.beq k j)) [
  | inl e ↦ absurd (h (((pair_eq {A = Text} {B = Text}).beq_iff k j).0 e))
  | inr e ↦ e
]

-- The open segments, when that of `k` is set to `g` and only its own files changed.
pub IsOpen-put :
    (s : RawStore) (k : Key) (g : Segment) (files : Files)
    → IsOpen s
    → Apart s k
    → Away k s.files files
    → ((b : Bytes) × (Dict.get (path_of k g) files ≡ some b) × (length b ≡ g.size))
    → IsOpen (record { files = files; segments = Dict.put k g s.segments })
IsOpen-put s k g files open' apart away own = record {
  open_file = λ j h p. elim (Bool-cases ((pair_eq {A = Text} {B = Text}).beq k j)) [
    | inl e ↦
        let same = ((pair_eq {A = Text} {B = Text}).beq_iff k j).0 e in
        let is_g : some g ≡ some h = sym (rw e at (Dict.get-put k j g s.segments)) ∙ p in
        subst (λ z. (b : Bytes) × (Dict.get (path_of z h) files ≡ some b) × (length b ≡ h.size))
          same
          (subst (λ z. (b : Bytes) × (Dict.get (path_of k z) files ≡ some b) × (length b ≡ z.size))
            (cc is_g) own)
    | inr e ↦
        let old : Dict.get j s.segments ≡ some h =
          sym (rw e at (Dict.get-put k j g s.segments)) ∙ p in
        let ne : j ≢ k = (λ q. cc (e, ((pair_eq {A = Text} {B = Text}).beq_iff k j).1 (sym q))) in
        let (b, at, size) = open'.open_file j h old in
        (b, away (dir_of j h.day) (h.number, false) (apart j h old ne) ∙ at, size)
  ];
}

pub Apart-put :
    (s : RawStore) (k : Key) (g : Segment) (files : Files)
    → Apart s k
    → Apart (record { files = files; segments = Dict.put k g s.segments }) k
Apart-put s k g files apart j h p ne =
    apart j h (sym (rw (key_ne k j (λ q. ne (sym q))) at (Dict.get-put k j g s.segments)) ∙ p) ne

module _ (c : Codec) (laws : CodecLaws c) (max_bytes : ℕ) (compress : Bool) (k : Key) (s : RawStore)
    (open' : IsOpen s) (apart : Apart s k) where
  pub record IsReady (r : RawStore × Segment) : Type 0 where
    opened : IsOpen r.0
    grows : Small s.files → Extends c s.files r.0.files
    active : Dict.get k r.0.segments ≡ some r.1
    still_apart : Apart r.0 k

  close_old_done :
      (old : Option Segment)
      → Dict.get k s.segments ≡ old
      → (files : Files) × (close_old c compress k old s.files ≡ some files)
        × Extends c s.files files
        × Away k s.files files
        × (Small s.files → Small files)
  unfolding close_old
  close_old_done none p = (s.files, refl, Extends-refl c s.files, (λ e q ne. refl), λ small. small)
  close_old_done (some g) p = elim (Bool-cases compress) [
    | inl yes' ↦
        let (b, at, size) = open'.open_file k g p in
        let (files, done, grow, rest) =
          compress_done c laws (dir_of k g.day) g.number s.files b at in
        (
          files,
          rw yes' done,
          grow,
          Away-of_Untouched k g.day s.files files rest,
          λ small. compress-Small c (dir_of k g.day) g.number s.files files small done,
        )
    | inr no' ↦ (s.files, rw no', Extends-refl c s.files, (λ e q ne. refl), λ small. small)
  ]

  rotate_done :
      (day : Text) (old : Option Segment)
      → Dict.get k s.segments ≡ old
      → (r : RawStore × Segment) × (rotate c compress k day old s ≡ some r) × IsReady r
  unfolding rotate open_next
  rotate_done day old p =
      let (files, closed, grow, away, still_small) = close_old_done old p in
      let n = next_no (is_some old) (newest (dir_of k day) files) in
      let (grow2, rest, own) = open_done c (dir_of k day) n files in
      let opened = open_append (dir_of k day, (n, false)) files in
      let g : Segment = record { day = day; number = n; size = opened.1 } in
      let away2 : Away k s.files opened.0 =
        (λ e q ne. Away-of_Untouched k day files opened.0 rest e q ne ∙ away e q ne) in
      (
        open_next k day (is_some old) s files,
        rw closed,
        record {
          opened = IsOpen-put s k g opened.0 open' apart away2 own;
          grows = λ small.
              Extends-trans c s.files files opened.0 grow
                (grow2 (next_no_fresh (is_some old) (dir_of k day) files (still_small small)));
          active = Dict.get-put_self k g s.segments;
          still_apart = Apart-put s k g opened.0 apart;
        },
      )

  pub ready_done :
      (day : Text) (len : ℕ) (old : Option Segment)
      → Dict.get k s.segments ≡ old
      → (r : RawStore × Segment) × (ready c max_bytes compress k day len old s ≡ some r) × IsReady r
  unfolding ready
  ready_done day len none p = rotate_done day none p
  ready_done day len (some g) p = elim (Bool-cases (must_rotate max_bytes (some g) day len)) [
    | inl e ↦ rw e (rotate_done day (some g) p)
    | inr e ↦ (
      (s, g),
      rw e,
      record {
        opened = open';
        grows = λ small. Extends-refl c s.files;
        active = p;
        still_apart = apart;
      },
    )
  ]

  pub write_done :
      (line : Bytes) (r : RawStore × Segment)
      → IsReady r
      → IsOpen (write_to k line r).0
        × (Small s.files → Extends c s.files (write_to k line r).0.files)
        × Stored c (write_to k line r).0 (write_to k line r).1 line
  unfolding write_to
  write_done line (t, g) h =
      let (b, at, size) = h.opened.open_file k g h.active in
      let longer = Dict.put (path_of k g) (b ++ line) t.files in
      let g' : Segment = record { day = g.day; number = g.number; size = g.size + length line } in
      let grow : Extends c t.files longer =
        write-Extends c (dir_of k g.day) g.number line t.files b at in
      let away : Away k t.files longer = (λ e q ne.
        get-put_ne (path_of k g) (e, q) (b ++ line) t.files
          (λ p. ne (ap (λ (z : FileName). (z.0.0, z.0.1.0)) p))) in
      rw (at, write_line)
        (
          IsOpen-put t k g' longer h.opened h.still_apart away (
            b ++ line,
            Dict.get-put_self (path_of k g) (b ++ line) t.files,
            omega (arith, length-append b line, size),
          ),
          (λ small. Extends-trans c s.files t.files longer (h.grows small) grow),
          record {
            dir = dir_of k g.day;
            number = g.number;
            before = b;
            behind = [];
            at_segment = refl;
            content =
                content_plain c (dir_of k g.day) g.number longer (b ++ line)
                  (Dict.get-put_self (path_of k g) (b ++ line) t.files)
                ∙ ap (λ (z : Bytes). some (b ++ z)) (sym (append-nil line));
            at_offset = size;
            at_length = refl;
          },
        )
