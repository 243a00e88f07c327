-- ===== src/Provenance/Examples.antt =====
-- A run record of a workload with one request.
use llm_inference_optimizati.Base.{
  ℕ, ◌≡◌, ◌==◌, refl, String, Bool, true, false, List, [], ◌∷◌, pos, pos_part, ok, err, Error,
  ◌>>=◌, for_each, check_each,
}
use llm_inference_optimizati.Value.{
  Value, null, bool, int, str, arr, obj, cons, nil, Fields, field, end, Floats, lookup, get, get_or,
  get_item, set_item, has_exactly, py_eq,
}
use llm_inference_optimizati.Value.Checks.{
  require_int, require_nat, require_str, as_arr, as_obj, closed_fields, field_int, nullable_str,
}
use llm_inference_optimizati.Workload.Random.{Rng}
use llm_inference_optimizati.Workload.Decimal.{padded}
use llm_inference_optimizati.Workload.Arrivals.{arrival_times, timed_by_mode}
use llm_inference_optimizati.Workload.Record.{validate_workload_record, check_tokens, check_token}
use llm_inference_optimizati.Workload.Generate.{
  generate_records, records_from, updates, fixed_updates, update, base_record, request_id,
  manifest_of,
}
use llm_inference_optimizati.Config.{
  validate_serving_config, check_modes, check_caches, check_costs, check_paths, closed_obj,
  int_item, choice_item, path_item, resolve_repo_path,
}
use llm_inference_optimizati.Native.Request.{nonempty_text}
use llm_inference_optimizati.Native.Summary.Totals.{check_policy}
use llm_inference_optimizati.Provenance.{
  PosixPaths, hex_digits, has_drive, has_backslash, validate_benchmark_runner, check_run,
  check_manifest, validate_run_record,
}
use llm_inference_optimizati.Base.{◌↔◌, ◌<◌, length}
use llm_inference_optimizati.Provenance.{validate_benchmark_runner_consistency}
use llm_inference_optimizati.Provenance.Runner.{
  AllRecord, validate_benchmark_runner_consistency_iff,
}
use llm_inference_optimizati.Provenance.Sound.{IsRun, validate_run_record_sound}

abbrev entries : List (String × Value) → Fields
entries [] = end
entries ((k, v) ∷ rest) = field k v (entries rest)

abbrev one : Value
one = int (pos 1)

abbrev whole : Floats
whole = record {
  div = λ a b. pos_part a;
  float_eq = λ a b. a == b;
  int_eq_float = λ a b. false;
  int_lt_float = λ a b. false;
  float_lt_int = λ a b. false;
  float_lt = λ a b. false;
  is_finite = λ a. true;
}

abbrev lowest : Rng ℕ
lowest = record {
  seeded = λ v. ok 0;
  randint = λ low high s. (low, s);
  random = λ s. (0, s);
  floor_exponential = λ mean u. mean;
}

abbrev plain_paths : PosixPaths
plain_paths = record { is_absolute = λ p. false; as_posix = λ p. p; parts = λ p. p ∷ [] }

abbrev anywhere : String → Bool
anywhere path = true

abbrev hash : String
hash = "0123456789abcdef0123456789abcdef0123456789abcdef0123456789abcdef"

abbrev digest : Fields → String
digest config = hash

abbrev config : Fields
config = entries (
    ("schema_version", str "serving-benchmark-config-v1")
    ∷ ("name", str "demo")
    ∷ ("evidence_type", str "simulated")
    ∷ ("execution_mode", str "continuous_batching")
    ∷ ("scheduling_policy", str "DecodeFirst")
    ∷ ("max_num_sequences", one)
    ∷ ("max_batched_tokens", one)
    ∷ ("kv_cache", obj (entries (("total_blocks", one) ∷ ("block_size_tokens", one) ∷ [])))
    ∷ (
      "prefix_cache",
      obj (entries (("enabled", bool true) ∷ ("namespace", str "") ∷ ("salt", str "") ∷ [])),
    )
    ∷ (
      "backend",
      obj (
          entries (
            ("prefill_base_us", one)
            ∷ ("prefill_per_token_us", one)
            ∷ ("prefill_per_active_sequence_us", one)
            ∷ ("decode_base_us", one)
            ∷ ("decode_per_active_sequence_us", one)
            ∷ ("batch_base_us", one)
            ∷ ("batch_prefill_per_token_us", one)
            ∷ ("batch_decode_per_sequence_us", one)
            ∷ ("batch_active_sequence_overhead_us", one)
            ∷ [])),
    )
    ∷ ("slos", obj end)
    ∷ ("workload", obj (entries (("path", str "w") ∷ ("manifest_path", str "m") ∷ [])))
    ∷ ("output_path", str "o")
    ∷ ("run_seed", one)
    ∷ [])

abbrev generator_config : Fields
generator_config = entries (
    ("schema_version", str "serving-workload-v1")
    ∷ ("workload_class", str "overload")
    ∷ ("request_count", one)
    ∷ ("seed", one)
    ∷ ("arrival", obj (entries (("mode", str "burst") ∷ [])))
    ∷ [])

abbrev manifest : Fields
manifest = entries (
    ("schema_version", str "serving-workload-manifest-v1")
    ∷ ("workload_schema_version", str "serving-workload-v1")
    ∷ ("workload_class", str "overload")
    ∷ ("request_count", one)
    ∷ ("seed", one)
    ∷ ("generator_config", obj generator_config)
    ∷ ("generator", str "benchmarks/generate_serving_workload.py")
    ∷ ("timestamp", null)
    ∷ ("workload_sha256", str hash)
    ∷ [])

abbrev run_record : Fields
run_record = entries (
    ("record_type", str "run")
    ∷ ("schema_version", str "serving-result-v1")
    ∷ ("evidence_type", str "simulated")
    ∷ ("label", str "SIMULATED")
    ∷ ("git_revision", null)
    ∷ ("branch", str "main")
    ∷ ("dirty_worktree", bool false)
    ∷ ("llama_cpp_submodule_revision", null)
    ∷ ("normalized_config", obj config)
    ∷ ("config_sha256", str hash)
    ∷ ("workload_manifest", obj manifest)
    ∷ ("workload_sha256", str hash)
    ∷ ("seed", one)
    ∷ ("simulator_schema_version", str "serving-simulator-v2")
    ∷ ("result_schema_version", str "serving-result-v1")
    ∷ ("python_version", str "3.12")
    ∷ ("python_executable", str "python3")
    ∷ ("cmake_build_type", null)
    ∷ ("benchmark_runner", obj (entries (("path", str "build/runner") ∷ ("sha256", str hash) ∷ [])))
    ∷ ("commands", arr (cons (arr (cons (str "runner") nil)) nil))
    ∷ ("timestamp", null)
    ∷ ("execution_mode", str "continuous_batching")
    ∷ ("scheduling_policy", str "DecodeFirst")
    ∷ [])

run_accepted : validate_run_record whole lowest plain_paths anywhere digest run_record ≡ ok tt
unfolding lookup get get_or get_item set_item has_exactly py_eq require_int require_nat require_str
    as_arr as_obj closed_fields field_int nullable_str padded arrival_times timed_by_mode
    validate_workload_record check_tokens check_token generate_records records_from updates
    fixed_updates update base_record request_id manifest_of validate_serving_config check_modes
    check_caches check_costs check_paths closed_obj int_item choice_item path_item resolve_repo_path
    nonempty_text check_policy hex_digits has_drive has_backslash validate_benchmark_runner
    check_run check_manifest validate_run_record ◌>>=◌ for_each check_each
run_accepted = refl

-- A digest of another configuration.
other_digest_rejected :
    validate_run_record whole lowest plain_paths anywhere (λ config. "") run_record
    ≡ err (Error.invalid "config_sha256 does not match normalized_config")
unfolding lookup get get_or get_item set_item has_exactly py_eq require_int require_nat require_str
    as_arr as_obj closed_fields field_int nullable_str validate_serving_config check_modes
    check_caches check_costs check_paths closed_obj int_item choice_item path_item resolve_repo_path
    hex_digits check_run validate_run_record ◌>>=◌ for_each check_each
other_digest_rejected = refl

validate_run_record_sound_example : IsRun whole lowest plain_paths anywhere digest run_record
validate_run_record_sound_example =
    validate_run_record_sound whole lowest plain_paths anywhere digest run_record run_accepted

abbrev runner : Value
runner = obj (entries (("path", str "build/runner") ∷ ("sha256", str hash) ∷ []))

validate_benchmark_runner_consistency_iff_example :
    (validate_benchmark_runner_consistency plain_paths (runner ∷ runner ∷ [])
      ≡ ok ("build/runner", hash))
    ↔ ((0 < length (runner ∷ runner ∷ []))
        × AllRecord plain_paths ("build/runner", hash) (runner ∷ runner ∷ []))
validate_benchmark_runner_consistency_iff_example =
    validate_benchmark_runner_consistency_iff plain_paths (runner ∷ runner ∷ [])
      ("build/runner", hash)
