-- ===== src/Lib.antt =====
-- The ingestion and parsing core of Universal Log Intelligence (uli/).
--
-- A log line comes in over HTTP or a queue as a raw envelope, is kept byte for byte in the raw
-- store, is reduced to a fingerprint (its sequence of token classes), parsed by the ladder of
-- parsers of the engine, enriched by the inference of fields, normalized to an OCSF event and
-- written with its fields to the event storage. Drift of a source's lines is followed by comparing
-- fingerprints, and the lines that no parser knows are gathered in clusters until a parser is
-- suggested. The alignment of a drifted template with the old one, which carries its labels over,
-- stands by itself: no other part calls it.
--
-- The files and the code that they model:
--   Common         names, lists, integers, texts and dictionaries that the other files share;
--   Regex          Python's regular expressions, as far as the model runs them: a matcher by
--                  derivatives for `fullmatch`, and ordered alternatives for `sub`;
--   Models         token classes, raw records and locations of uli/models.py;
--   Ids            `ulid` of uli/ids.py, and in Order the order of its texts;
--   Timestamps     uli/timestamps.py: `parse_timestamp`, `_build`, `_tzinfo`, `parse_any`;
--   Fingerprint    uli/fingerprint.py: Patterns (the regular expressions), Classify (`classify`),
--                  Tokenize (`tokenize`), Shape (`fingerprint`, `_family`);
--   RawStore       uli/storage/raw_store.py: `append`, `_rotate`, `_compress`, `read` and `verify` as
--                  functions on a table of files and of open segments;
--   Storage        uli/storage/sql.py, each table a dictionary by its primary key: Raw, Events,
--                  Sources, Parsers (with suggestions and fingerprints), Clusters, Drifts (with the
--                  audit trail), Stats; FirstWins, Writes and Isolation have proofs;
--   Structural     uli/parsers/structural.py: Flatten (`_flatten`), Severity (`level_to_severity`),
--                  Json, Cef (with LEEF), Syslog (both), Lines (the others), Dispatch
--                  (`STRUCTURAL_PARSERS`);
--   Declarative    uli/parsers/declarative.py: Signatures (`can_parse`, `_sig_ok`), Extracts
--                  (`_src`, `_run_extract`), Mapping (`_apply_map`), Packs (`_score`, `parse`);
--   Inference      uli/parsers/inference.py: Observe (tokens, pairs, users, hashes), Roles
--                  (`_endpoint_roles`, `_redact`, `infer`);
--   Normalization  uli/normalization/ocsf.py: Tree (JSON values), Body (`_ocsf_field`, `_unmapped`,
--                  `_endpoints`), Normalize (`normalize`), Link (`normalize` as the pipeline calls
--                  it);
--   Evolution      uli/drift/evolution.py: Align (`_cost`, `align`), Transfer (`transfer_labels`),
--                  Synthesis (`synthesize_pack_yaml`);
--   Engine         uli/engine.py: Breaker (`MLClient`), Registry (`register_pack`, `retire_pack`,
--                  `_verify_signature`), Ladder (`_route`), Fallback (`_fallback`), Run (`run`);
--   Similarity     uli/detection/similarity.py: the index of shapes that the fallback asks, with
--                  `shape_ngrams` and `jaccard` of uli/fingerprint.py;
--   Unknown        uli/detection/unknown.py: `record_unknown`, `_merge_inferred`;
--   Templates      uli/parsers/templates.py: `masked_text`, `mine` and the pool of miners; Masks has
--                  proofs;
--   Pipeline       uli/pipeline.py: Parts (what it calls), Single (`process`, `_compute`,
--                  `_emergency_event`), Batch (`process_batch`);
--   Worker         uli/workers/runner.py: the loop over the batches of a queue;
--   Queue          uli/ingestion/queue.py: Memory (the in-memory queue), Stream (the consumer of a
--                  Redis stream);
--   Drift          uli/drift: Divergence (`js_divergence`), Monitor (`observe`) of parser_drift.py,
--                  Resource and Agent (`diff`, `tick` of resource.py), Correlator (`correlate` of
--                  correlator.py);
--   Api            uli/api: Auth (auth.py, with `api_key_map` of uli/config.py), Handlers (the
--                  handlers of `create_app` of app.py), Suggest (its `suggest`);
--   Tests          runs on small inputs.
--
-- What the code takes from elsewhere is a parameter: Python's character tables (`Unicode`), SHA-1
-- (`Digest`), orjson, base64, gzip, SHA-256 and the calendar (`Codec`, `Builtins`, `Dates`,
-- `Scalars`), the regular expressions of the grammars (`Calls`, `Finders`, `SigCalls`,
-- `ExtractCalls`), the floats (`Floats`, `DriftFloats`, `Scores`), the keys (`Signing`), the Redis
-- server (`Redis`), the text search of the database (`Search`), and the template miner (`Drain`). A
-- text is the list of its code points; a `datetime` is a number. The engine sees the miner, the
-- inference and the storage through `Services`, and the pipeline sees all the others through
-- `Parts`, whose calls give `none` when they raise and the state they leave in any case. The text
-- of a caught exception is left out.
--
-- A method that may raise gives `none` then. Writes to a file are taken to reach it at once, since
-- the reader flushes before it reads. Every operation is one atomic step: locks are left out,
-- although `observe`, the in-memory `publish`, `MLClient` and `_route` hold theirs for a part of
-- the body only, or have none, so that what two threads do within one of them at the same time is
-- not modelled. The file numbers of the raw store are padded to six digits; where its statements
-- need the order of the names they say so. The loop of `align` runs on fuel: a round lowers
-- the sum of its two indices, so that the sum of the lengths is enough, which the statement on
-- `align` contains. `flatten` counts the depth down from `max_depth`, 8. The other loops are
-- structural.
--
-- Not modelled: YAML, the clustering of the template miner (drain3), the models of the machine
-- learning service (scikit-learn), the signatures of bundles (cryptography), the observation of the
-- host (psutil), SQL itself and its migrations, the publishing to Redis, the metrics and the logging,
-- which only call libraries; the settings from the environment; the Go collector, the user
-- interface, the scripts and the deployment files.
pub mod Api
pub mod Common
pub mod Declarative
pub mod Drift
pub mod Engine
pub mod Evolution
pub mod Fingerprint
pub mod Ids
pub mod Inference
pub mod Models
pub mod Normalization
pub mod Pipeline
pub mod Queue
pub mod RawStore
pub mod Regex
pub mod Similarity
pub mod Storage
pub mod Structural
pub mod Templates
pub mod Tests
pub mod Timestamps
pub mod Unknown
pub mod Worker
