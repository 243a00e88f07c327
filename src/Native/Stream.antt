-- ===== src/Native/Stream.antt =====
-- `validate_native_records` of benchmarks/serving_common.py as a whole, on the records of a result in
-- the order of its lines. Its workload argument is a list that `read_workload` returned.
pub mod Sound
mod Examples
use llm_inference_optimizati.Base.{
  String, Bool, true, false, not, Option, none, some, List, [], ◌∷◌, Error, Result, ok, err, ◌>>=◌,
  ◌>>◌, raise_if, for_each, when_present, keep, get_last?, map,
}
use llm_inference_optimizati.Value.{Value, Fields, Floats, get, get_item, is_str, in_set}
use llm_inference_optimizati.Value.Checks.{as_arr, as_obj, require_nat, require_str}
use llm_inference_optimizati.Config.{validate_serving_config}
use llm_inference_optimizati.Config.Spec.{Limits}
use llm_inference_optimizati.Native.Request.{Request, validate_requests}
use llm_inference_optimizati.Native.Iteration.{Iteration, validate_iterations}
use llm_inference_optimizati.Native.Summary.{validate_summary}
use llm_inference_optimizati.Native.Envelope.{check_envelope}

-- The head of a record: its type, its schema and its evidence type.
unfoldable pub native_record : Value → Result Fields
native_record v = do
  d ← as_obj v "record must be an object"
  known ← in_set (get d "record_type") ("request" ∷ "iteration" ∷ "summary" ∷ [])
  raise_if (not known) "unknown native record_type"
  raise_if (not (is_str (get d "schema_version") "serving-simulator-v2"))
      "incompatible simulator schema"
  raise_if (not (is_str (get d "evidence_type") "SIMULATED")) "evidence_type must be SIMULATED"
  ok d

abbrev pub of_type : String → List Fields → List Fields
of_type t records = keep (λ d. is_str (get d "record_type") t) records

-- `summary_items[0][1]`, where there is exactly one
unfoldable pub only_summary : List Fields → Result Fields
only_summary (s ∷ []) = ok s
only_summary _ = err (Error.invalid "native result must contain exactly one summary record")

abbrev pub ends_with_summary : Option Fields → Bool
ends_with_summary none = false
ends_with_summary (some d) = is_str (get d "record_type") "summary"

-- What the passes read of the configuration.
unfoldable pub limits_of : Fields → Result Limits
limits_of config = do
  mode_value ← get_item config "execution_mode"
  mode ← require_str true mode_value "execution_mode"
  policy_value ← get_item config "scheduling_policy"
  policy ← require_str true policy_value "scheduling_policy"
  kv_value ← get_item config "kv_cache"
  kv ← as_obj kv_value "kv_cache"
  total_value ← get_item kv "total_blocks"
  total_blocks ← require_nat 1 total_value "kv_cache.total_blocks"
  size_value ← get_item kv "block_size_tokens"
  block_size ← require_nat 1 size_value "kv_cache.block_size_tokens"
  ok (record { mode = mode; policy = policy; total_blocks = total_blocks; block_size = block_size })

-- `if config is not None: validate_serving_config(…)`
unfoldable pub read_limits : (String → Bool) → Option Fields → Result (Option Limits)
read_limits inside_root none = ok none
read_limits inside_root (some config) = do
  valid ← validate_serving_config inside_root config
  limits ← limits_of valid
  ok (some limits)

module _ (fl : Floats) (inside_root : String → Bool) where
  unfoldable pub validate_native_records :
      Value → Option Fields → Option (List Fields) → Result (List Request × List Iteration × Fields)
  validate_native_records result config workload = do
    values ← as_arr result "native result must be an array of records"
    limits ← read_limits inside_root config
    records ← for_each native_record values
    s ← only_summary (of_type "summary" records)
    raise_if (not (ends_with_summary (get_last? records))) "summary record must be terminal"
    requests ← validate_requests fl (of_type "request" records) [] []
    let ids = map (λ q. q.internal_id) requests
    its ← validate_iterations fl limits ids 0 0 (of_type "iteration" records)
    validate_summary fl limits s requests its
    when_present workload (check_envelope fl requests)
    ok (requests, its, s)
