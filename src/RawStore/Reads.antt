-- ===== src/RawStore/Reads.antt =====
-- What `append` and `read` of the raw store promise together.
use mathlib.Core.Option
use sih_ulpf.Common.{ℕ, ◌≡◌, refl, Bool, some, length}
use sih_ulpf.Common.Dict
use sih_ulpf.Common.Eq.{text_key, pair_eq}
use sih_ulpf.Models.{Bytes, RawRecord, RawLocation}
use sih_ulpf.RawStore.{RawStore, Key, Codec, write_to, append, read_line, read, line_of}
use sih_ulpf.RawStore.Files.{CodecLaws, Extends}
use sih_ulpf.RawStore.Rotate.{Small}
use sih_ulpf.RawStore.Append.{
  IsOpen, Apart, Stored, Stored-read_line, Stored-Extends, ready_done, write_done,
}

-- The key that `append` writes under.
abbrev pub key_of : RawRecord → Key
key_of rec = (rec.tenant_id, rec.source_id)

-- The result of a successful append.
pub record Appended (c : Codec) (rec : RawRecord) (s : RawStore) (r : RawStore × RawLocation)
    : Type 0 where
  pub still_open : IsOpen r.0
  pub grown : Small s.files → Extends c s.files r.0.files
  pub stored : Stored c r.0 r.1 (line_of c rec)

Stored-read :
    (c : Codec) (laws : CodecLaws c) (rec : RawRecord) (s : RawStore) (loc : RawLocation)
    → Stored c s loc (line_of c rec)
    → read c loc s ≡ some rec.payload
unfolding read Option.bind
Stored-read c laws rec s loc h =
    rw (Stored-read_line c s loc (line_of c rec) h) (laws.loads-dumps rec)

-- An append succeeds whenever the open segments have their files, and leaves them so.
pub append_done :
    (c : Codec) (laws : CodecLaws c) (max_bytes : ℕ) (compress : Bool) (rec : RawRecord)
    (s : RawStore)
    → IsOpen s
    → Apart s (key_of rec)
    → (r : RawStore × RawLocation) × (append c max_bytes compress rec s ≡ some r)
      × Appended c rec s r
unfolding append
append_done c laws max_bytes compress rec s open' apart =
    let key = key_of rec in
    let line = line_of c rec in
    let (r, e, is_ready) =
      ready_done c laws max_bytes compress key s open' apart (c.day_of rec.received_at)
        (length line) (Dict.get key s.segments) refl in
    let (now_open, grown, stored) =
      write_done c laws max_bytes compress key s open' apart line r is_ready in
    (write_to key line r, rw e, record { still_open = now_open; grown = grown; stored = stored })

-- Let every open segment have its file, of the size that is noted, and let no other source with an
-- open segment share the directory of this one. Then `append` succeeds, whether it has to rotate
-- and to compress or not, leaves the open segments with their files, and `read` at the location
-- that it gives returns the payload. gzip and SHA-256 are taken to have no collision that lets a
-- damaged copy pass, and the line to decode to its payload.
pub append_reads :
    (c : Codec) (laws : CodecLaws c) (max_bytes : ℕ) (compress : Bool) (rec : RawRecord)
    (s : RawStore)
    → IsOpen s
    → Apart s (key_of rec)
    → (r : RawStore × RawLocation) × (append c max_bytes compress rec s ≡ some r)
      × IsOpen r.0
      × (read c r.1 r.0 ≡ some rec.payload)
append_reads c laws max_bytes compress rec s open' apart =
    let (r, e, h) = append_done c laws max_bytes compress rec s open' apart in
    (r, e, h.still_open, Stored-read c laws rec r.0 r.1 h.stored)

-- Under the same conditions, and if no file has a number of more than six digits, every line that
-- was readable at a location before is read there after the append as well, also when its file has
-- been compressed and removed by the append.
pub append_keeps :
    (c : Codec) (laws : CodecLaws c) (max_bytes : ℕ) (compress : Bool) (rec : RawRecord)
    (s : RawStore) (loc : RawLocation) (line : Bytes)
    → IsOpen s
    → Apart s (key_of rec)
    → Small s.files
    → Stored c s loc line
    → (r : RawStore × RawLocation) × (append c max_bytes compress rec s ≡ some r)
      × (read_line c loc r.0 ≡ some line)
append_keeps c laws max_bytes compress rec s loc line open' apart small old =
    let (r, e, h) = append_done c laws max_bytes compress rec s open' apart in
    (r, e, Stored-read_line c r.0 loc line (Stored-Extends c s r.0 loc line (h.grown small) old))
