-- ===== src/Tests/ApiTests.antt =====
-- A request with two lines, and a configuration with two keys.
use sih_ulpf.Common.{ℕ, ◌≡◌, refl, List, [], ◌∷◌, map, none, some, length, ltb, false, ◌==◌}
use sih_ulpf.Common.Text.{Text, codes, join, text_eq, starts_with, all_chars, count_char}
use sih_ulpf.Fingerprint.Unicode.{ascii}
use sih_ulpf.Api.Auth.{ok, Settings, KeyFormat, api_key_map}
use sih_ulpf.Api.Keys.{Plain, written, put_all, api_key_map-written}
use sih_ulpf.Api.Handlers.{IngestRequest, IngestResponse, ingest, total_bytes}
use sih_ulpf.Api.Complete.{Codecs, CleanLines, RoundTrips, wired, ingest_complete}
use sih_ulpf.Tests.PipelineTests.{broken, broken_laws}

abbrev settings : Settings
settings = record {
  auth = codes "static";
  default_tenant = codes "default";
  api_keys = codes "k1:acme,k2:globex";
  max_ingest_body_bytes = 100;
  mode = codes "local";
}

abbrev codecs : Codecs ℕ
codecs = record { encode_utf8 = λ s. s; b64encode = λ s. s; publish = λ env w. w }

abbrev request : IngestRequest
request = record {
  source_id = codes "s";
  transport = codes "http";
  lines = some (codes "up" ∷ codes "down" ∷ []);
  text = none;
  hints = [];
}

trips : RoundTrips ascii (λ s. s) broken codecs settings
trips bytes = refl

clean : CleanLines ascii (λ s. s) broken codecs settings (codes "up" ∷ codes "down" ∷ [])
unfolding count_char
clean = (refl, (refl, tt))

small :
    ltb settings.max_ingest_body_bytes (
      total_bytes
        (wired ascii (λ s. s) broken codecs settings)
        settings
        (codes "up" ∷ codes "down" ∷ []))
    ≡ false
unfolding total_bytes
small = refl

is_local : text_eq settings.mode (codes "distributed") ≡ false
unfolding text_eq
is_local = refl

ingest_complete_example :
    (r : IngestResponse) × ((ingest
        (wired ascii (λ s. s) broken codecs settings)
        settings
        (codes "t")
        5
        request
        0).0
      ≡ ok r)
    × (r.accepted ≡ 2)
    × (length r.event_ids ≡ r.accepted)
ingest_complete_example =
    ingest_complete ascii (λ s. s) broken codecs settings broken_laws (codes "t") 5 request
      (codes "up") (codes "down" ∷ []) 0 trips refl clean small is_local

abbrev format : KeyFormat
format = record { is_space = λ c. c == 32; loads = λ s. none }

abbrev first_pair : Text × Text
first_pair = (codes "k1", codes "acme")

abbrev other_pairs : List (Text × Text)
other_pairs = (codes "k2", codes "globex") ∷ []

plain : Plain format (first_pair ∷ other_pairs)
unfolding all_chars
plain = (refl, refl, (refl, refl, tt))

not_json :
    starts_with (join (codes ",") (map (written format) (first_pair ∷ other_pairs))) (codes "{")
    ≡ false
unfolding join starts_with
not_json = refl

api_key_map-written_example :
    api_key_map format (join (codes ",") (map (written format) (first_pair ∷ other_pairs)))
    ≡ some (put_all format (first_pair ∷ other_pairs) [])
api_key_map-written_example =
    api_key_map-written format first_pair other_pairs plain refl refl not_json
