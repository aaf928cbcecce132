-- ===== src/Timestamps.antt =====
-- uli/timestamps.py: the grammars of timestamps and what is built from their groups.
use mathlib.Core.Option
use sih_ulpf.Common.{
  ℕ, zero, suc, ◌+◌, ◌*◌, ◌-◌, Bool, true, List, [], ◌∷◌, ◌++◌, Option, none, some, ltb, ◌==◌,
  if◌then◌else◌, length, take, drop, get_elem?,
}
use sih_ulpf.Common.Text.{Text, codes}
use sih_ulpf.Common.Dict
use sih_ulpf.Common.Dict.{Dict}
use sih_ulpf.Common.Eq.{text_key}

-- `_GRAMMARS`, by their names
pub data Grammar : Type 0 where
  iso bsd apache_err clf healthapp android proxifier epoch_s epoch_ms compact : Grammar

abbrev pub grammars : List Grammar
grammars =
    iso ∷ bsd ∷ apache_err ∷ clf ∷ healthapp ∷ android ∷ proxifier ∷ epoch_s ∷ epoch_ms ∷ compact
    ∷ []

abbrev pub grammar_name : Grammar → Text
grammar_name iso = codes "iso"
grammar_name bsd = codes "bsd"
grammar_name apache_err = codes "apache_err"
grammar_name clf = codes "clf"
grammar_name healthapp = codes "healthapp"
grammar_name android = codes "android"
grammar_name proxifier = codes "proxifier"
grammar_name epoch_s = codes "epoch_s"
grammar_name epoch_ms = codes "epoch_ms"
grammar_name compact = codes "compact"

-- `_MON`
abbrev pub mon : Dict Text ℕ
mon =
    (codes "jan", 1)
    ∷ (codes "feb", 2)
    ∷ (codes "mar", 3)
    ∷ (codes "apr", 4)
    ∷ (codes "may", 5)
    ∷ (codes "jun", 6)
    ∷ (codes "jul", 7)
    ∷ (codes "aug", 8)
    ∷ (codes "sep", 9)
    ∷ (codes "oct", 10)
    ∷ (codes "nov", 11)
    ∷ (codes "dec", 12)
    ∷ []

-- A zone: whether it is east, its hours and minutes.
pub record Zone : Type 0 where
  pub east : Bool
  pub hours : ℕ
  pub minutes : ℕ

abbrev pub utc : Zone
utc = record { east = true; hours = 0; minutes = 0 }

-- The groups of a match, `none` for one that took no part.
abbrev pub Groups : Type 0
Groups = List (Option Text)

-- The `re` module on the pattern of a grammar (the text and the groups of the first match), `int` of a
-- text, the year of the start, `str.lower`, and the constructors of `datetime`, which give the
-- microseconds since the epoch, or `none` for a `ValueError` or an `OverflowError`.
pub record Dates : Type 0 where
  pub search : Grammar → Text → Option (Text × Groups)
  pub int_of : Text → Option ℕ
  pub year_now : ℕ
  pub lower : Text → Text
  pub datetime : List ℕ → ℕ → Zone → Option ℕ
  pub from_seconds : Text → Option ℕ
  pub from_millis : ℕ → Option ℕ
  pub dateutil : Text → Option ℕ

-- `g[i]`
abbrev pub group : Groups → ℕ → Option Text
group g i = Option.bind (get_elem? g i) (λ o. o)

-- `s.ljust(n, "0")`
unfoldable pub zeros : ℕ → Text
zeros zero = []
zeros (suc n) = b'0' ∷ zeros n

abbrev pub ljust : ℕ → Text → Text
ljust n s = s ++ zeros (n - length s)

-- `(x or "0")[:6].ljust(6, "0")`
abbrev pub micros : Option Text → Text
micros none = ljust 6 (codes "0")
micros (some []) = ljust 6 (codes "0")
micros (some (c ∷ s)) = ljust 6 (take 6 (c ∷ s))

module _ (d : Dates) where
  int_at : Groups → ℕ → Option ℕ
  int_at g i = Option.bind (group g i) d.int_of

  -- `int(g[i])` for some of the groups
  unfoldable pub ints : Groups → List ℕ → Option (List ℕ)
  unfolding int_at
  ints g [] = some []
  ints g (i ∷ is) = Option.bind (int_at g i) (λ n. Option.map (λ ns. n ∷ ns) (ints g is))

  -- `_tzinfo`
  abbrev pub tzinfo : Option Text → Option Zone
  tzinfo none = some utc
  tzinfo (some []) = some utc
  tzinfo (some (c ∷ [])) =
      if c == b'Z'
      then some utc
      else Option.map (λ n. record { east = c == b'+'; hours = n; minutes = n }) (d.int_of [])
  tzinfo (some (c ∷ e ∷ s)) =
      let t = c ∷ e ∷ s in
      Option.bind (d.int_of (take 2 (drop 1 t))) (λ hh.
        Option.map (λ mm. record { east = c == b'+'; hours = hh; minutes = mm })
          (d.int_of (drop (length t - 2) t)))

  -- the month of a name, unless it is not one
  abbrev pub month_of : Option Text → Option ℕ
  month_of name = Option.bind name (λ s. Dict.get (d.lower s) mon)

  -- `datetime(..)` from the numbers in the order year, month, day, hour, minute, second
  abbrev pub built : ℕ → Option Zone → Option (List ℕ) → Option ℕ
  built us zone ns = Option.bind zone (λ z. Option.bind ns (λ l. d.datetime l us z))

  abbrev pub or_year : Option Text → Option ℕ
  or_year none = some d.year_now
  or_year (some []) = some d.year_now
  or_year (some (c ∷ s)) = d.int_of (c ∷ s)

  abbrev pub prepend : Option ℕ → Option (List ℕ) → Option (List ℕ)
  prepend n ns = Option.bind n (λ k. Option.map (λ l. k ∷ l) ns)

  -- the seconds with their fraction
  abbrev pub seconds_text : Groups → Text
  seconds_text g = elim (group g 1) as (λ _. Text) [
    | none ↦ Option.get_or (group g 0) []
    | some frac ↦ elim frac as (λ _. Text) [
      | [] ↦ Option.get_or (group g 0) []
      | c ∷ s ↦ Option.get_or (group g 0) [] ++ (b'.' ∷ frac)
    ]
  ]

  -- `_build`
  unfoldable pub build : Grammar → Groups → Option ℕ
  unfolding ints int_at zeros Dict.get
  build iso g =
      Option.bind (d.int_of (micros (group g 6)))
        (λ us. built us (tzinfo (group g 7)) (ints g (0 ∷ 1 ∷ 2 ∷ 3 ∷ 4 ∷ 5 ∷ [])))
  build bsd g = Option.bind (month_of (group g 0)) (λ m.
      Option.bind (d.int_of (micros (group g 5))) (λ us.
        built us (some utc)
          (prepend (or_year (group g 6)) (prepend (some m) (ints g (1 ∷ 2 ∷ 3 ∷ 4 ∷ []))))))
  build apache_err g = Option.bind (month_of (group g 1)) (λ m.
      built 0 (some utc) (prepend (int_at g 6) (prepend (some m) (ints g (2 ∷ 3 ∷ 4 ∷ 5 ∷ [])))))
  build clf g = Option.bind (month_of (group g 1)) (λ m.
      built 0 (tzinfo (group g 6))
        (prepend (int_at g 2) (prepend (some m) (ints g (0 ∷ 3 ∷ 4 ∷ 5 ∷ [])))))
  build healthapp g =
      Option.bind (Option.bind (group g 6) (λ s. d.int_of (ljust 3 s)))
        (λ ms. built (ms * 1000) (some utc) (ints g (0 ∷ 1 ∷ 2 ∷ 3 ∷ 4 ∷ 5 ∷ [])))
  build android g = Option.bind (int_at g 5) (λ ms.
      built (ms * 1000) (some utc) (prepend (some d.year_now) (ints g (0 ∷ 1 ∷ 2 ∷ 3 ∷ 4 ∷ []))))
  build proxifier g =
      Option.bind (int_at g 0)
        (λ y. built 0 (some utc) (prepend (some (2000 + y)) (ints g (1 ∷ 2 ∷ 3 ∷ 4 ∷ 5 ∷ []))))
  build epoch_s g = d.from_seconds (seconds_text g)
  build epoch_ms g = Option.bind (int_at g 0) d.from_millis
  build compact g = built 0 (some utc) (ints g (0 ∷ 1 ∷ 2 ∷ 3 ∷ 4 ∷ 5 ∷ []))

  -- A found timestamp: its time, its grammar and the text of it.
  abbrev pub Stamp : Type 0
  Stamp = ℕ × (Grammar × Text)

  abbrev pub try_grammar : Text → Grammar → Option (ℕ × (Grammar × Text))
  try_grammar text name =
      Option.bind (d.search name text) (λ m. Option.map (λ dt. (dt, (name, m.0))) (build name m.1))

  abbrev pub or_later : {A : Type 0} → Option A → Option A → Option A
  or_later none later = later
  or_later (some a) later = some a

  unfoldable pub first_grammar : Text → List Grammar → Option (ℕ × (Grammar × Text))
  unfolding build
  first_grammar head [] = none
  first_grammar head (name ∷ names) = or_later (try_grammar head name) (first_grammar head names)

  -- `parse_timestamp`
  unfoldable pub parse_timestamp : Text → ℕ → Option (ℕ × (Grammar × Text))
  unfolding first_grammar
  parse_timestamp text max_scan =
      or_later (first_grammar (take max_scan text) grammars) (try_grammar text iso)

  -- `parse_any`
  unfoldable pub parse_any : Text → Option ℕ
  unfolding parse_timestamp
  parse_any [] = none
  parse_any (c ∷ s) =
      if ltb 64 (length (c ∷ s))
      then none
      else or_later (Option.map (λ found. found.0) (parse_timestamp (c ∷ s) 64))
          (d.dateutil (c ∷ s))
