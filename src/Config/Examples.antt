-- ===== src/Config/Examples.antt =====
-- A serving configuration that is accepted, and one with a policy that its mode does not allow.
use llm_inference_optimizati.Base.{
  ◌≡◌, refl, String, Bool, true, pos, ok, err, Error, ◌>>=◌, check_each,
}
use llm_inference_optimizati.Value.{
  Value, bool, int, str, obj, field, end, Fields, lookup, get_item, set_item, has_exactly,
}
use llm_inference_optimizati.Value.Checks.{require_int, require_nat, require_str, as_obj}
use llm_inference_optimizati.Config.{
  validate_serving_config, check_modes, check_caches, check_costs, check_paths, closed_obj,
  int_item, choice_item, path_item, resolve_repo_path,
}
use llm_inference_optimizati.Config.Spec.{Limits, IsLimits, validate_serving_config_sound}

abbrev one : Value
one = int (pos 1)

abbrev costs : Fields
costs = field "prefill_base_us" one (
    field "prefill_per_token_us" one (
      field "prefill_per_active_sequence_us" one (
        field "decode_base_us" one (
          field "decode_per_active_sequence_us" one (
            field "batch_base_us" one (
              field "batch_prefill_per_token_us" one (
                field "batch_decode_per_sequence_us" one
                  (field "batch_active_sequence_overhead_us" one end))))))))

abbrev config : Fields
config = field "schema_version" (str "serving-benchmark-config-v1") (
    field "name" (str "demo") (
      field "evidence_type" (str "simulated") (
        field "execution_mode" (str "continuous_batching") (
          field "scheduling_policy" (str "DecodeFirst") (
            field "max_num_sequences" one (
              field "max_batched_tokens" one (
                field "kv_cache"
                  (obj (field "total_blocks" one (field "block_size_tokens" one end)))
                  (field "prefix_cache"
                    (obj (
                      field "enabled" (bool true)
                        (field "namespace" (str "") (field "salt" (str "") end))))
                    (field "backend" (obj costs) (
                      field "slos" (obj (field "ttft_slo_us" one end)) (
                        field "workload"
                          (obj (field "path" (str "w") (field "manifest_path" (str "m") end)))
                          (field "output_path" (str "o") (field "run_seed" one end)))))))))))))

abbrev anywhere : String → Bool
anywhere path = true

config_accepted : validate_serving_config anywhere config ≡ ok config
unfolding validate_serving_config check_modes check_caches check_costs check_paths closed_obj
    int_item choice_item path_item resolve_repo_path require_str require_nat require_int as_obj
    get_item has_exactly lookup ◌>>=◌ check_each
config_accepted = refl

fcfs_rejected :
    validate_serving_config anywhere (set_item config "scheduling_policy" (str "FCFS"))
    ≡ err (Error.invalid "continuous_batching requires DecodeFirst or FcfsMixed")
unfolding validate_serving_config check_modes check_caches check_costs check_paths closed_obj
    int_item choice_item path_item resolve_repo_path require_str require_nat require_int as_obj
    get_item set_item has_exactly lookup ◌>>=◌ check_each
fcfs_rejected = refl

validate_serving_config_sound_example : (config ≡ config) × ((l : Limits) × IsLimits config l)
validate_serving_config_sound_example =
    validate_serving_config_sound anywhere config config_accepted
