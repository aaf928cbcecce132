-- ===== src/RawStore.antt =====
-- uli/storage/raw_store.py: the append-only raw store over a table of files.
pub mod Files
pub mod Names
pub mod Rotate
pub mod Append
pub mod Reads
use mathlib.Core.Option
use sih_ulpf.Common.{
  ℕ, zero, suc, ◌+◌, Bool, true, false, ◌&&◌, ◌||◌, not, List, [], ◌∷◌, ◌++◌, Option, none, some,
  leb, ltb, ◌==◌, if◌then◌else◌, length, take, drop, ◌/◌, ◌%◌,
}
use sih_ulpf.Common.Text.{Text, codes, text_eq}
use sih_ulpf.Common.Strings.{leb_text}
use sih_ulpf.Common.Dict
use sih_ulpf.Common.Dict.{Dict}
use sih_ulpf.Common.Eq.{nat_eq, text_key, bool_eq, pair_eq}
use sih_ulpf.Models.{Bytes, RawRecord, RawLocation, Dir, file, unrecoverable}

-- `[A-Za-z0-9._:-]`
abbrev is_slug_char : ℕ → Bool
is_slug_char c =
    (leb b'A' c && leb c b'Z')
    || ((leb b'a' c && leb c b'z')
        || ((leb b'0' c && leb c b'9') || (c == b'.' || (c == b'_' || (c == b':' || c == b'-')))))

-- `_SLUG.sub("_", s)`; `in_run` says that the run before `s` has been replaced already
unfoldable pub slug_sub : Bool → Text → Text
slug_sub in_run [] = []
slug_sub in_run (c ∷ s) =
    let plain = c ∷ slug_sub false s in
    let first = b'_' ∷ slug_sub true s in
    let later = slug_sub true s in if is_slug_char c then plain else if in_run then later else first

-- `_SLUG.sub("_", s)[:120] or "_"`
abbrev or_underscore : Text → Text
or_underscore [] = b'_' ∷ []
or_underscore s = s

unfoldable pub slug : Text → Text
unfolding slug_sub
slug s = or_underscore (take 120 (slug_sub false s))

-- The key of `_segments`: tenant and source.
abbrev pub Key : Type 0
Key = Text × Text

-- directory, number, and whether the name ends in `.gz`
abbrev pub FileName : Type 0
FileName = Dir × (ℕ × Bool)

-- `_Segment`; its path follows from its key, day and number
pub record Segment : Type 0 where
  pub day : Text
  pub number : ℕ
  pub size : ℕ

-- Writes are taken to reach the file at once: `read_record` flushes before it reads.
pub record RawStore : Type 0 where
  pub files : Dict FileName Bytes
  pub segments : Dict Key Segment

-- What is not part of the source: orjson and base64 (`dumps`, and `loads` up to the decoded
-- payload), gzip, SHA-256, and the calendar.
pub record Codec : Type 0 where
  pub dumps : RawRecord → Bytes
  pub loads : Bytes → Option Bytes
  pub gzip : Bytes → Bytes
  pub gunzip : Bytes → Bytes
  pub sha256 : Bytes → Text
  pub day_of : ℕ → Text

abbrev pub dir_of : Key → Text → Dir
dir_of k day = (slug k.0, (slug k.1, day))

abbrev pub path_of : Key → Segment → FileName
path_of k g = (dir_of k g.day, (g.number, false))

-- the last `k` digits of a number, before `rest`
unfoldable pub padded : ℕ → ℕ → Text → Text
padded zero n rest = rest
padded (suc k) n rest = padded k (n / 10) ((48 + n % 10) ∷ rest)

-- the digits of a number that is not 0, before `rest`; the number is enough fuel for them
unfoldable pub leading : ℕ → ℕ → Text → Text
leading zero n rest = rest
leading (suc fuel) n rest =
    let all = leading fuel (n / 10) ((48 + n % 10) ∷ rest) in if n == 0 then rest else all

abbrev pub suffix : Bool → Text
suffix false = codes ".ndjson"
suffix true = codes ".ndjson.gz"

-- `f"{no:06d}.ndjson"`, with `.gz` for a compressed file
abbrev pub name_text : ℕ × Bool → Text
name_text (n, gz) = leading n (n / 1000000) (padded 6 n (suffix gz))

-- the later of two names of one directory, as texts
unfoldable pub later : ℕ × Bool → Option (ℕ × Bool) → Option (ℕ × Bool)
unfolding leb_text padded leading
later p none = some p
later p (some q) = if leb_text (name_text q) (name_text p) then some p else some q

-- `existing[-1]`
unfoldable pub newest : Dir → Dict FileName Bytes → Option (ℕ × Bool)
unfolding later
newest d [] = none
newest d ((name, b) ∷ files) =
    let rest = newest d files in if pair_eq.beq name.0 d then later name.1 rest else rest

-- The number of the file that `_rotate` opens.
unfoldable pub next_no : Bool → Option (ℕ × Bool) → ℕ
next_no had_old none = 1
next_no had_old (some (last, gz)) =
    let n = last + (if had_old || gz then 1 else 0) in if n == 0 then 1 else n

abbrev pub is_some : Option Segment → Bool
is_some none = false
is_some (some g) = true

-- `open(path, "ab")` with `path.stat().st_size`: a missing file is created empty.
unfoldable pub open_append : FileName → Dict FileName Bytes → Dict FileName Bytes × ℕ
open_append name files = elim (Dict.get name files) as (λ _. Dict FileName Bytes × ℕ) [
  | none ↦ (Dict.put name [] files, 0)
  | some b ↦ (files, length b)
]

-- what `_rotate` does behind that
unfoldable pub open_next : Key → Text → Bool → RawStore → Dict FileName Bytes → RawStore × Segment
unfolding newest next_no open_append
open_next key day had_old s files =
    let n = next_no had_old (newest (dir_of key day) files) in
    let (opened, size) = open_append (dir_of key day, (n, false)) files in
    let seg : Segment = record { day = day; number = n; size = size } in
    (record { files = opened; segments = Dict.put key seg s.segments }, seg)

-- `fh.write(line)` at the end of the file of an open segment
unfoldable pub write_line : FileName → Bytes → Dict FileName Bytes → Dict FileName Bytes
write_line name line files = elim (Dict.get name files) as (λ _. Dict FileName Bytes) [
  | none ↦ files
  | some b ↦ Dict.put name (b ++ line) files
]

unfoldable pub write_to : Key → Bytes → RawStore × Segment → RawStore × RawLocation
unfolding write_line
write_to key line (s, g) = (
  record {
    files = write_line (path_of key g) line s.files;
    segments =
        Dict.put key (record { day = g.day; number = g.number; size = g.size + length line })
          s.segments;
  },
  record { segment = file (dir_of key g.day) g.number; offset = g.size; length = length line },
)

abbrev pub plain_or : Option Bytes → Option Bytes → Option Bytes
plain_or (some b) z = some b
plain_or none z = z

-- `seg is None or seg.day != day or seg.size + len(line) > self.max_bytes`
abbrev pub must_rotate : ℕ → Option Segment → Text → ℕ → Bool
must_rotate max_bytes none day len = true
must_rotate max_bytes (some g) day len = not (text_eq g.day day) || ltb max_bytes (g.size + len)

-- `close`: no segment is open any more
abbrev pub close : RawStore → RawStore
close s = record s { segments = [] }

-- A method that may raise an `OSError` gives `none` then.
module _ (c : Codec) where
  -- `_compress`: the plain file goes only if the compressed one reads back with the same digest.
  unfoldable pub compress_file : Dir → ℕ → Dict FileName Bytes → Option (Dict FileName Bytes)
  compress_file d n files =
      elim (Dict.get (d, (n, false)) files) as (λ _. Option (Dict FileName Bytes)) [
        | none ↦ none
        | some content ↦
            let written = Dict.put (d, (n, true)) (c.gzip content) files in
            some (
              if text_eq (c.sha256 content) (c.sha256 (c.gunzip (c.gzip content)))
              then Dict.remove (d, (n, false)) written
              else Dict.remove (d, (n, true)) written)
      ]

  -- `_open(segment).read()`: the plain file, or else the compressed one
  unfoldable pub content_of : Dir → ℕ → Dict FileName Bytes → Option Bytes
  content_of d n files =
      plain_or (Dict.get (d, (n, false)) files)
        (Option.map c.gunzip (Dict.get (d, (n, true)) files))

  -- `read`, with the bytes that `read_record` decodes
  unfoldable pub read_line : RawLocation → RawStore → Option Bytes
  unfolding content_of
  read_line loc s = elim loc.segment as (λ _. Option Bytes) [
    | file d n ↦ Option.map (λ b. take loc.length (drop loc.offset b)) (content_of d n s.files)
    | unrecoverable ↦ none
  ]

  unfoldable pub read : RawLocation → RawStore → Option Bytes
  unfolding read_line
  read loc s = Option.bind (read_line loc s) c.loads

  -- `verify`, with `hashlib.sha256(..).hexdigest()`
  unfoldable pub verify : (Bytes → Text) → RawLocation → Text → RawStore → Option Bool
  unfolding read
  verify hexdigest loc expected_sha256 s =
      Option.map (λ payload. text_eq (hexdigest payload) expected_sha256) (read loc s)

  abbrev pub line_of : RawRecord → Bytes
  line_of rec = c.dumps rec ++ (10 ∷ [])

module _ (c : Codec) (compress : Bool) where
  -- what `_rotate` does with the segment before it opens the next
  unfoldable pub close_old :
      Key → Option Segment → Dict FileName Bytes → Option (Dict FileName Bytes)
  unfolding compress_file
  close_old key none files = some files
  close_old key (some old) files =
      if compress then compress_file c (dir_of key old.day) old.number files else some files

  unfoldable pub rotate : Key → Text → Option Segment → RawStore → Option (RawStore × Segment)
  unfolding close_old open_next
  rotate key day old s = Option.map (open_next key day (is_some old) s) (close_old key old s.files)

module _ (c : Codec) (max_bytes : ℕ) (compress : Bool) where
  -- the segment that `append` writes to
  unfoldable pub ready : Key → Text → ℕ → Option Segment → RawStore → Option (RawStore × Segment)
  unfolding rotate
  ready key day len none s = rotate c compress key day none s
  ready key day len (some g) s =
      if must_rotate max_bytes (some g) day len
      then rotate c compress key day (some g) s
      else some (s, g)

  unfoldable pub append : RawRecord → RawStore → Option (RawStore × RawLocation)
  unfolding ready write_to
  append rec s =
      let key : Key = (rec.tenant_id, rec.source_id) in
      let line = line_of c rec in
      Option.map (write_to key line)
        (ready key (c.day_of rec.received_at) (length line) (Dict.get key s.segments) s)
