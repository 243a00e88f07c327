-- ===== src/Config.antt =====
-- `resolve_repo_path` and `validate_serving_config` of benchmarks/serving_common.py.
pub mod Spec
mod Examples
use llm_inference_optimizati.Base.{
  ℕ, String, Bool, true, false, not, ◌&&◌, List, [], ◌∷◌, Result, ok, ◌>>=◌, ◌>>◌, raise_if,
  only_check, check_each, contains, str_eq,
}
use llm_inference_optimizati.Value.{
  Value, Fields, get_item, keys, values, subset, has_exactly, is_str, in_set, is_bool,
}
use llm_inference_optimizati.Value.Checks.{require_nat, require_str, as_obj}

abbrev pub config_schema_version : String
config_schema_version = "serving-benchmark-config-v1"

abbrev pub config_fields : List String
config_fields =
    "schema_version" ∷ "name" ∷ "evidence_type" ∷ "execution_mode" ∷ "scheduling_policy"
    ∷ "max_num_sequences" ∷ "max_batched_tokens" ∷ "kv_cache" ∷ "prefix_cache" ∷ "backend" ∷ "slos"
    ∷ "workload" ∷ "output_path" ∷ "run_seed" ∷ []

abbrev pub backend_keys : List String
backend_keys =
    "prefill_base_us" ∷ "prefill_per_token_us" ∷ "prefill_per_active_sequence_us" ∷ "decode_base_us"
    ∷ "decode_per_active_sequence_us" ∷ "batch_base_us" ∷ "batch_prefill_per_token_us"
    ∷ "batch_decode_per_sequence_us" ∷ "batch_active_sequence_overhead_us" ∷ []

abbrev pub slo_keys : List String
slo_keys = "ttft_slo_us" ∷ "tpot_slo_us" ∷ "e2e_slo_us" ∷ []

abbrev pub execution_modes : List String
execution_modes = "single_active_fcfs" ∷ "continuous_batching" ∷ []

abbrev pub policies : List String
policies = "FCFS" ∷ "DecodeFirst" ∷ "FcfsMixed" ∷ []

-- `if not isinstance(v, dict) or set(v) != {…}: raise`, and the dict
unfoldable pub closed_obj : Value → List String → String → Result Fields
unfolding as_obj has_exactly
closed_obj v names text = do d ← as_obj v text; raise_if (not (has_exactly d names)) text; ok d

-- `config[key]` is an integer of at least `least`.
unfoldable pub int_item : ℕ → Fields → String → Result (Unit {0})
unfolding get_item require_nat
int_item least d name = do v ← get_item d name; only_check (require_nat least v name)

-- `if config[key] not in {…}: raise`
unfoldable pub choice_item : Fields → String → List String → String → Result String
unfolding get_item
choice_item d name choices text = do
  v ← get_item d name
  known ← in_set v choices
  raise_if (not known) text
  require_str true v name

unfoldable pub check_modes : Fields → Result (Unit {0})
unfolding choice_item
check_modes config = do
  mode ← choice_item config "execution_mode" execution_modes "unknown execution_mode"
  policy ← choice_item config "scheduling_policy" policies "unknown scheduling_policy"
  raise_if (str_eq mode "single_active_fcfs" && not (str_eq policy "FCFS"))
      "single_active_fcfs requires scheduling_policy FCFS"
  raise_if (str_eq mode "continuous_batching" && str_eq policy "FCFS")
      "continuous_batching requires DecodeFirst or FcfsMixed"

unfoldable pub check_caches : Fields → Result (Unit {0})
check_caches config = do
  int_item 1 config "max_num_sequences"
  int_item 1 config "max_batched_tokens"
  kv_value ← get_item config "kv_cache"
  kv ←
      closed_obj kv_value ("total_blocks" ∷ "block_size_tokens" ∷ [])
        "kv_cache requires only total_blocks and block_size_tokens"
  int_item 1 kv "total_blocks"
  int_item 1 kv "block_size_tokens"
  prefix_value ← get_item config "prefix_cache"
  prefix ←
      closed_obj prefix_value ("enabled" ∷ "namespace" ∷ "salt" ∷ [])
        "prefix_cache requires enabled, namespace, and salt"
  enabled ← get_item prefix "enabled"
  raise_if (not (is_bool enabled)) "prefix_cache.enabled must be boolean"
  namespace ← get_item prefix "namespace"
  only_check (require_str true namespace "prefix_cache.namespace")
  salt ← get_item prefix "salt"
  only_check (require_str true salt "prefix_cache.salt")

unfoldable pub check_costs : Fields → Result (Unit {0})
check_costs config = do
  backend_value ← get_item config "backend"
  backend ← closed_obj backend_value backend_keys "backend must contain exactly the cost fields"
  check_each (int_item 0 backend) backend_keys
  slos_value ← get_item config "slos"
  slos ← as_obj slos_value "slos contains unknown thresholds"
  raise_if (not (subset (keys slos) slo_keys)) "slos contains unknown thresholds"
  check_each (λ v. only_check (require_nat 0 v "slos")) (values slos)

-- `Path.is_absolute` on a POSIX path
is_absolute : String → Bool
is_absolute String.[] = false
is_absolute (String.◌∷◌ c s) = str_eq (String.◌∷◌ c "") "/"

-- `inside_root` stands for the file system: whether `(ROOT / path).resolve()` is ROOT or lies in it.
module _ (inside_root : String → Bool) where
  unfoldable pub resolve_repo_path : String → Result (Unit {0})
  unfolding is_absolute
  resolve_repo_path path = do
    raise_if (is_absolute path) "paths in checked-in serving configs must be relative"
    raise_if (not (inside_root path)) "path escapes repository"

  unfoldable pub path_item : Fields → String → Result (Unit {0})
  path_item d name = do v ← get_item d name; path ← require_str false v name; resolve_repo_path path

  unfoldable pub check_paths : Fields → Result (Unit {0})
  check_paths config = do
    workload_value ← get_item config "workload"
    workload ←
        closed_obj workload_value ("path" ∷ "manifest_path" ∷ [])
          "workload requires path and manifest_path"
    path_item workload "path"
    path_item workload "manifest_path"
    path_item config "output_path"
    int_item 0 config "run_seed"

  unfoldable pub validate_serving_config : Fields → Result Fields
  validate_serving_config config = do
    raise_if (not (subset config_fields (keys config))) "missing serving config fields"
    raise_if (not (subset (keys config) config_fields)) "unknown serving config fields"
    schema ← get_item config "schema_version"
    raise_if (not (is_str schema config_schema_version)) "incompatible config schema_version"
    name ← get_item config "name"
    only_check (require_str false name "name")
    evidence ← get_item config "evidence_type"
    raise_if (not (is_str evidence "simulated")) "evidence_type must be simulated"
    check_modes config
    check_caches config
    check_costs config
    check_paths config
    ok config
