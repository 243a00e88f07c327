-- ===== src/Lib.antt =====
-- The Python code of this laboratory: the scripts under scripts/, which download a model, verify a
-- llama.cpp build and probe the events of `perf`, and benchmarks/serving_common.py, the core of the
-- serving benchmark: the workload schema and its generator, the serving configuration, the validator
-- of the simulator's result records and the analysis of those records.
--
-- The scripts. scripts/download_model.py streams a model into a partial file, which a later call
-- resumes, moves it into place, checks its digest and size and writes its metadata beside it; a model
-- that is there is checked in place of a download. scripts/verify_llama_cpp_build.py starts each
-- executable of a build with `--help` and reports whether all of them end well.
-- scripts/probe_perf_events.py runs `perf` for one event at a time, classifies what it prints, and
-- writes JSON and a Markdown table. They do not call each other or the benchmark.
--
-- The serving benchmark. `generate_records` turns a generator configuration into workload records, each
-- of which it passes through `validate_workload_record`; `write_workload` and `read_workload` keep them
-- in a JSONL file. A serving configuration, checked by
-- `validate_serving_config`, names the workload and the limits of the simulated engine. The simulator
-- (C++) writes request, iteration and summary records; `validate_native_records` checks them against
-- each other and against the configuration, and `analyze_records` computes latencies, objectives and
-- queue depths of what it accepts, with `request_metrics` and `nearest_rank`.
--
-- The files:
--   * Text: what the program uses of Python's text methods, with Text/Occurs and Text/Count on `in`
--     and `count`, and Text/Lines on `splitlines`.
--   * Download: scripts/download_model.py. Download/World has the state, which is the content of each
--     path and how often the clock was read and a request made, with the exceptions and a bind that
--     keeps the state of a run that raises; Download/Outside has what the script takes from urllib,
--     hashlib, json and pathlib. Download/Url is `source_url`, Download/Digest `sha256_file`,
--     Download/Metadata `metadata_for`, `_write_metadata` and the comparisons, Download/Model
--     `download_model`. Below Download/Model, Steps, Sound and Install are about single steps and the two
--     branches, Whole about what is there when it returns or raises, Serving, Resume, Attempts, Full,
--     Complete and Stuck about calls against a server of one model, Again about a call for a model that
--     is installed. Download/Catalog is `load_model_config`, with Catalog/Sound on what it accepts;
--     Catalog/Command is `download_config` and `main`, with Command/Runs on what they leave.
--   * Build: scripts/verify_llama_cpp_build.py, with Build/Verified on its exit code.
--   * Perf: scripts/probe_perf_events.py, with Perf/Classify on `classify_probe`, Perf/Table on
--     the Markdown, Perf/Lines on its lines, Perf/Rows on the probes and their rows and Perf/Exit on the
--     exit code.
--   * Base: numbers, lists, integers and sorting over the native natural numbers, and Base/Outcome,
--     the errors that Python raises with their monad and the inversion lemmas of its do blocks.
--   * Value: JSON values as Python holds them, with a dict as an association list and the membership,
--     equality and lookup of the source; Value/Checks: `_require_int`, `_require_str`, `_field_int`,
--     `_nullable_str`, `_closed_fields`, `_exact_number`, `_number_in_unit_interval`, `_conserved`.
--   * Workload/Record: `validate_workload_record`, and in Record/Spec a declarative description of a
--     workload record. Workload/Arrivals: `_arrival_times`. Workload/Generate: `_shared_tokens` and
--     `generate_records`, with Generate/Prefixes on the shared prompts, Generate/Accepted on the
--     records being valid and Generate/Workloads on whole workloads. Workload/Reader: `read_workload`
--     and `write_workload`. Workload/Random: what is used of `random` and `math`.
--   * Config: `resolve_repo_path` and `validate_serving_config`.
--   * Metrics: `request_metrics` and `nearest_rank`.
--   * Native: `validate_native_records`. Native/Request and Native/Iteration are its two loops, over
--     the request records and over the iteration records, with `_id_array`; what a loop has read of a
--     record is kept as a record of the model, so that later passes do not read the dict again.
--     Native/Summary is the summary pass, with the totals over the requests in Summary/Totals and the
--     branches of the two modes in Summary/Continuous; Native/Envelope compares the requests with the
--     workload; Native/Stream is the whole function.
--   * Provenance: `validate_benchmark_runner`, `validate_benchmark_runner_consistency` and
--     `validate_run_record`, on the record in front of a result.
--   * Analysis: the objectives and the queue sweep of `analyze_records`.
--
-- Conventions. An exception is a value of `Result`; a message is its fixed text. A missing key raises
-- KeyError and an unhashable value in a set raises TypeError, as in Python. A float is its bit pattern
-- and the operations on floats are fields of the parameter `Floats`; the random generator, the json
-- module and the file system are parameters too. A check that leaves an integer non-negative returns
-- it as a natural number; a difference that may be negative is an integer. The percentile of
-- `nearest_rank` is a float: the test of its range and the ceiling of its product with a length are the
-- fields of `Percentiles`. A file is its text, which `read_workload` cuts where `splitlines` does.
--
-- In the scripts a disk operation on a file that is there succeeds, and directories are there. A
-- process, a response, the clock and the modules hashlib, json, yaml and pathlib are parameters; what is
-- supposed of them are the laws `HashLaws` and `SuffixLaw` of Download/Outside, `IsServer` of
-- Download/Model/Serving and `ReadsBack` of Download/Model/Again. `lower` and `upper` change ASCII letters, and `lower` the two other
-- characters that Python maps into ASCII, which decides every comparison that the scripts make with
-- ASCII patterns.
--
-- Bounds. The loop of `sha256_file` runs on fuel of one step for each byte and one more, which is enough
-- because a chunk has at least one byte. The tokens of a generated request stay in 32 bits up to index
-- 214740, since the largest base is 80000 and each index adds 10000; the decimal digits of a number n
-- are computed on n + 1 steps of fuel, which is enough because each step divides by ten.
--
-- Not modelled: of the scripts, the declarations of the options, which are argparse's, and failures of
-- the disk; of the benchmark, integers beyond the range of floats, on which `math.isfinite` and `/`
-- raise OverflowError, `validate_workload_manifest`, the drivers and the plots; the C++ engine. The
-- rates and ratios of `analyze_records` are quotients of floats of the numbers that are modelled.
pub mod Base
pub mod Text
pub mod Download
pub mod Perf
pub mod Build
pub mod Value
pub mod Workload
pub mod Config
pub mod Metrics
pub mod Native
pub mod Analysis
pub mod Provenance
