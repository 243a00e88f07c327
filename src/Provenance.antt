-- ===== src/Provenance.antt =====
-- `validate_benchmark_runner`, its consistency check and `validate_run_record` of
-- benchmarks/serving_common.py: the run record in front of a result. The paths of
-- `pathlib` and the digest of a configuration, `sha256_bytes(canonical_json(config).encode())`, are
-- parameters.
pub mod Sound
pub mod Runner
mod Examples
use Prim.Native.Char.{Char, code}
use llm_inference_optimizati.Base.{
  err, Error, Option, none, some, ℕ, zero, suc, String, Bool, true, false, not, ◌&&◌, ◌||◌, List,
  [], ◌∷◌, Result, ok, ◌>>=◌, ◌>>◌, raise_if, check_each, only_check, all, contains, length, leb,
  ◌==◌, str_eq,
}
use llm_inference_optimizati.Value.{
  Value, str, arr, Fields, Floats, cons, get, has_exactly, is_str, is_obj, is_bool, in_set, items,
  py_eq,
}
use llm_inference_optimizati.Value.Checks.{
  closed_fields, field_int, nullable_str, require_str, as_obj,
}
use llm_inference_optimizati.Workload.{
  workload_classes, workload_schema_version, manifest_schema_version,
}
use llm_inference_optimizati.Workload.Random.{Rng}
use llm_inference_optimizati.Workload.Generate.{generate_records}
use llm_inference_optimizati.Config.{execution_modes, validate_serving_config}
use llm_inference_optimizati.Native.Request.{nonempty_text}
use llm_inference_optimizati.Native.Summary.Totals.{is_nat, check_policy}

-- `RUN_RECORD_FIELDS`
abbrev pub run_fields : List String
run_fields =
    "record_type" ∷ "schema_version" ∷ "evidence_type" ∷ "label" ∷ "git_revision" ∷ "branch"
    ∷ "dirty_worktree" ∷ "llama_cpp_submodule_revision" ∷ "normalized_config" ∷ "config_sha256"
    ∷ "workload_manifest" ∷ "workload_sha256" ∷ "seed" ∷ "simulator_schema_version"
    ∷ "result_schema_version" ∷ "python_version" ∷ "python_executable" ∷ "cmake_build_type"
    ∷ "benchmark_runner" ∷ "commands" ∷ "timestamp" ∷ "execution_mode" ∷ "scheduling_policy" ∷ []

-- `MANIFEST_RECORD_FIELDS`
abbrev pub manifest_fields : List String
manifest_fields =
    "schema_version" ∷ "workload_schema_version" ∷ "workload_class" ∷ "request_count" ∷ "seed"
    ∷ "generator_config" ∷ "generator" ∷ "timestamp" ∷ "workload_sha256" ∷ []

is_hex : Char → Bool
is_hex c = (leb 48 (code c) && leb (code c) 57) || (leb 97 (code c) && leb (code c) 102)

-- `re.fullmatch(r"[0-9a-f]{n}", text)`
unfoldable pub hex_digits : ℕ → String → Bool
unfolding is_hex
hex_digits zero String.[] = true
hex_digits (suc n) (String.◌∷◌ c s) = is_hex c && hex_digits n s
hex_digits _ _ = false

abbrev pub is_sha256 : Value → Bool
is_sha256 (str s) = hex_digits 64 s
is_sha256 _ = false

is_letter : Char → Bool
is_letter c = (leb 65 (code c) && leb (code c) 90) || (leb 97 (code c) && leb (code c) 122)

-- `re.match(r"^[A-Za-z]:[\\/]", path)`: 58 is ":", 47 is "/" and 92 is the backslash
unfoldable pub has_drive : String → Bool
unfolding is_letter
has_drive (String.◌∷◌ a (String.◌∷◌ b (String.◌∷◌ c s))) =
    is_letter a && (code b == 58 && (code c == 47 || code c == 92))
has_drive _ = false

-- `"\\" in path`
unfoldable pub has_backslash : String → Bool
has_backslash String.[] = false
has_backslash (String.◌∷◌ c s) = code c == 92 || has_backslash s

-- What is used of `PurePosixPath`.
pub record PosixPaths : Type 0 where
  pub is_absolute : String → Bool
  pub as_posix : String → String
  pub parts : String → List String

unfoldable pub validate_benchmark_runner : PosixPaths → Value → Result (String × String)
validate_benchmark_runner paths value = do
  runner ← as_obj value "benchmark_runner must be an object containing path and sha256"
  raise_if (not (has_exactly runner ("path" ∷ "sha256" ∷ [])))
      "benchmark_runner must be an object containing path and sha256"
  path ← nonempty_text (get runner "path") "benchmark_runner.path"
  raise_if
      (paths.is_absolute path
        || (has_drive path
            || (has_backslash path
                || (not (str_eq (paths.as_posix path) path) || contains (paths.parts path) ".."))))
      "benchmark_runner.path must be a normalized repository-relative path"
  raise_if (not (is_sha256 (get runner "sha256")))
      "benchmark_runner.sha256 must be a lowercase SHA-256"
  digest ← require_str true (get runner "sha256") "sha256"
  ok (path, digest)

abbrev pub same_pair : String × String → String × String → Bool
same_pair p q = str_eq p.0 q.0 && str_eq p.1 q.1

-- The loop of `validate_benchmark_runner_consistency`; the first argument is `expected`.
unfoldable pub consistent_from :
    PosixPaths → Option (String × String) → List Value → Result (String × String)
consistent_from paths none [] =
    err (Error.invalid "checked-in references do not record benchmark_runner provenance")
consistent_from paths (some expected) [] = ok expected
consistent_from paths none (v ∷ vs) = do
  actual ← validate_benchmark_runner paths v
  consistent_from paths (some actual) vs
consistent_from paths (some expected) (v ∷ vs) = do
  actual ← validate_benchmark_runner paths v
  raise_if (not (same_pair actual expected)) "benchmark_runner disagrees with checked-in references"
  consistent_from paths (some expected) vs

unfoldable pub validate_benchmark_runner_consistency :
    PosixPaths → List Value → Result (String × String)
validate_benchmark_runner_consistency paths values = consistent_from paths none values

-- An array of texts that is not empty.
abbrev is_command : Value → Bool
is_command (arr (cons v vs)) = all is_text (items (cons v vs))
  where
    is_text : Value → Bool
    is_text (str s) = true
    is_text _ = false
is_command _ = false

abbrev pub are_commands : Value → Bool
are_commands (arr (cons v vs)) = all is_command (items (cons v vs))
are_commands _ = false

module _ {S : Type 0} (fl : Floats) (rng : Rng S) (paths : PosixPaths) (inside_root : String → Bool)
    (digest : Fields → String) where
  -- The run record's own fields, up to the digest of its configuration, which is returned.
  unfoldable pub check_run : Fields → Result Fields
  check_run r = do
    closed_fields r run_fields
    raise_if
        (not (
          is_str (get r "record_type") "run"
          && is_str (get r "schema_version") "serving-result-v1"))
        "incompatible run record/schema"
    raise_if
        (not (is_str (get r "evidence_type") "simulated" && is_str (get r "label") "SIMULATED"))
        "evidence label must be simulated/SIMULATED"
    check_each (λ name. only_check (nullable_str (get r name) name))
        ("git_revision" ∷ "branch" ∷ "llama_cpp_submodule_revision" ∷ "cmake_build_type"
          ∷ "timestamp" ∷ [])
    raise_if (not (is_bool (get r "dirty_worktree"))) "dirty_worktree must be boolean"
    check_each (λ name. raise_if (not (is_sha256 (get r name))) "must be a lowercase SHA-256")
        ("config_sha256" ∷ "workload_sha256" ∷ [])
    raise_if (not (is_obj (get r "normalized_config") && is_obj (get r "workload_manifest")))
        "normalized_config/workload_manifest must be objects"
    config ← as_obj (get r "normalized_config") "normalized_config must be an object"
    _ ← validate_serving_config inside_root config
    raise_if (not (is_str (get r "config_sha256") (digest config)))
        "config_sha256 does not match normalized_config"
    ok config

  -- The workload manifest of a run record: what it generates, and its seed.
  unfoldable pub check_manifest : Fields → Value → Result ℕ
  check_manifest manifest workload_sha256 = do
    closed_fields manifest manifest_fields
    raise_if
        (not (
          is_str (get manifest "schema_version") manifest_schema_version
          && is_str (get manifest "workload_schema_version") workload_schema_version))
        "incompatible workload manifest schema"
    known ← in_set (get manifest "workload_class") workload_classes
    raise_if (not known) "invalid workload manifest class"
    count ← field_int manifest "request_count"
    seed ← field_int manifest "seed"
    generator_config ←
        as_obj (get manifest "generator_config")
          "workload manifest generator_config must be an object"
    only_check (require_str false (get manifest "generator") "workload_manifest.generator")
    only_check (nullable_str (get manifest "timestamp") "workload_manifest.timestamp")
    raise_if (not (py_eq fl (get manifest "workload_sha256") workload_sha256))
        "workload manifest hash disagrees with provenance"
    generated ← generate_records rng generator_config
    check_each
        (λ name.
          raise_if (not (py_eq fl (get manifest name) (get generated.1 name)))
            "workload manifest contradicts generator_config")
        ("workload_class" ∷ "request_count" ∷ "seed" ∷ "workload_schema_version" ∷ [])
    raise_if (not (length generated.0 == count))
        "workload manifest generated request count mismatch"
    ok seed

  unfoldable pub validate_run_record : Fields → Result (Unit {0})
  validate_run_record r = do
    config ← check_run r
    seed ← field_int r "seed"
    check_each (λ name. only_check (nonempty_text (get r name) name))
        ("simulator_schema_version" ∷ "result_schema_version" ∷ "python_version"
          ∷ "python_executable" ∷ [])
    raise_if
        (not (
          is_str (get r "simulator_schema_version") "serving-simulator-v2"
          && is_str (get r "result_schema_version") "serving-result-v1"))
        "incompatible nested schema version"
    manifest ← as_obj (get r "workload_manifest") "workload_manifest must be an object"
    manifest_seed ← check_manifest manifest (get r "workload_sha256")
    raise_if (not (seed == manifest_seed && is_nat (get config "run_seed") seed))
        "run/config/workload seed mismatch"
    only_check (validate_benchmark_runner paths (get r "benchmark_runner"))
    raise_if (not (are_commands (get r "commands")))
        "commands must be a nonempty array of string arrays"
    known ← in_set (get r "execution_mode") execution_modes
    raise_if (not known) "invalid execution_mode"
    check_policy r
