-- ===== src/Tests/RawStoreTests.antt =====
-- Runs of the raw store with codecs that copy.
use sih_ulpf.Common.{ℕ, ◌≡◌, ◌≢◌, arith, refl, ap, true, [], ◌∷◌, ◌++◌, Option, none, some}
use sih_ulpf.Common.Text.{Text, codes}
use sih_ulpf.Common.Dict
use sih_ulpf.Common.Dict.{Dict}
use sih_ulpf.Common.Eq.{nat_eq, text_key, bool_eq, pair_eq}
use sih_ulpf.Common.Text.{text_eq}
use sih_ulpf.Models.{Bytes, RawRecord, RawLocation, file}
use sih_ulpf.RawStore.{
  RawStore, Key, Segment, FileName, Codec, slug, slug_sub, append, read, read_line, content_of,
  dir_of, path_of,
}
use sih_ulpf.RawStore.Files.{CodecLaws}
use sih_ulpf.RawStore.Append.{IsOpen, Apart, Stored, IsOpen-put, Apart-put}
use sih_ulpf.RawStore.Rotate.{Small}
use sih_ulpf.RawStore.Reads.{append_reads, append_keeps}

abbrev drop_last : Bytes → Bytes
drop_last [] = []
drop_last (x ∷ []) = []
drop_last (x ∷ y ∷ b) = x ∷ drop_last (y ∷ b)

drop_last-append : (b : Bytes) (c : ℕ) → drop_last (b ++ (c ∷ [])) ≡ b
drop_last-append [] c = refl
drop_last-append (x ∷ []) c = refl
drop_last-append (x ∷ y ∷ b) c = ap (λ (z : Bytes). x ∷ z) (drop_last-append (y ∷ b) c)

-- A line is the payload, and a compressed file is the file.
abbrev copying : Codec
copying = record {
  dumps = λ rec. rec.payload;
  loads = λ b. some (drop_last b);
  gzip = λ b. b;
  gunzip = λ b. b;
  sha256 = λ b. b;
  day_of = λ t. t ∷ [];
}

copying_laws : CodecLaws copying
copying_laws = record {
  loads-dumps = λ rec. ap some (drop_last-append rec.payload 10);
  no_collision = λ b h. refl;
}

abbrev record_of : Text → Bytes → RawRecord
record_of source payload = record {
  raw_event_id = codes "r";
  tenant_id = codes "t";
  source_id = source;
  transport = codes "tcp";
  peer = none;
  received_at = 7;
  payload = payload;
}

abbrev nothing_open : RawStore
nothing_open = record { files = []; segments = [] }

nothing_open-IsOpen : IsOpen nothing_open
unfolding Dict.get
nothing_open-IsOpen = record { open_file = λ k g p. absurd (none_ne g p) }
  where
    none_ne : (g : Segment) → ◌≢◌ {A = Option Segment} none (some g)
    none_ne g q = cc

abbrev key : Key
key = (codes "t", codes "s")

abbrev seg : Segment
seg = record { day = 7 ∷ []; number = 1; size = 2 }

abbrev one_file : Dict FileName Bytes
one_file = (path_of key seg, 5 ∷ 10 ∷ []) ∷ []

-- One segment is open and holds the line `5`.
abbrev one_open : RawStore
one_open = record { files = one_file; segments = Dict.put key seg [] }

abbrev only_file : RawStore
only_file = record { files = one_file; segments = [] }

none-IsOpen : IsOpen only_file
unfolding Dict.get
none-IsOpen = record { open_file = λ k g p. absurd (none_ne g p) }
  where
    none_ne : (g : Segment) → ◌≢◌ {A = Option Segment} none (some g)
    none_ne g q = cc

none-Apart : Apart only_file key
unfolding Dict.get
none-Apart j g p ne = absurd (none_ne g p)
  where
    none_ne : (h : Segment) → ◌≢◌ {A = Option Segment} none (some h)
    none_ne h q = cc

one_open-IsOpen : IsOpen one_open
unfolding Dict.get text_eq slug
one_open-IsOpen =
    IsOpen-put only_file key seg one_file none-IsOpen none-Apart (λ e q ne. refl)
      (5 ∷ 10 ∷ [], refl, refl)

one_open-Apart : Apart one_open key
one_open-Apart = Apart-put only_file key seg one_file none-Apart

one_open-Small : Small one_open.files
one_open-Small = (omega arith, tt)

abbrev loc_5 : RawLocation
loc_5 = record { segment = file (dir_of key (7 ∷ [])) 1; offset = 0; length = 2 }

one_open-Stored : Stored copying one_open loc_5 (5 ∷ 10 ∷ [])
unfolding content_of Dict.get text_eq slug
one_open-Stored = record {
  dir = dir_of key (7 ∷ []);
  number = 1;
  before = [];
  behind = [];
  at_segment = refl;
  content = refl;
  at_offset = refl;
  at_length = refl;
}

-- The segment is full: the append rotates and compresses it.
append_reads_example :
    (r : RawStore × RawLocation) × (append copying 3 true (record_of (codes "s") (6 ∷ [])) one_open
      ≡ some r)
    × IsOpen r.0
    × (read copying r.1 r.0 ≡ some (6 ∷ []))
append_reads_example =
    append_reads copying copying_laws 3 true (record_of (codes "s") (6 ∷ [])) one_open
      one_open-IsOpen one_open-Apart

append_keeps_example :
    (r : RawStore × RawLocation) × (append copying 3 true (record_of (codes "s") (6 ∷ [])) one_open
      ≡ some r)
    × (read_line copying loc_5 r.0 ≡ some (5 ∷ 10 ∷ []))
append_keeps_example =
    append_keeps copying copying_laws 3 true (record_of (codes "s") (6 ∷ [])) one_open loc_5
      (5 ∷ 10 ∷ []) one_open-IsOpen one_open-Apart one_open-Small one_open-Stored

-- Two sources of one slug write to one file.
slug_collision : slug (codes "a b") ≡ slug (codes "a_b")
unfolding slug slug_sub
slug_collision = refl

slug_parent : slug (codes "..") ≡ codes ".."
unfolding slug slug_sub
slug_parent = refl
