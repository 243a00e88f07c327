-- ===== src/Workload/Record.antt =====
-- `validate_workload_record` and `read_workload` of benchmarks/serving_common.py.
pub mod Spec
use llm_inference_optimizati.Base.{
  ℕ, ◌^◌, ◌-◌, String, false, not, List, [], ◌∷◌, pos, negsuc, ltb_ℤ, length, contains, ◌==◌, Error,
  Result, ok, err, ◌>>=◌, ◌>>◌, raise_if, check_each, when_present, only_check,
}
use llm_inference_optimizati.Value.{Value, Fields, get, keys, subset, lookup, is_str, is_obj}
use llm_inference_optimizati.Value.Checks.{require_int, require_nat, require_str, as_obj, as_arr}
use llm_inference_optimizati.Workload.{workload_schema_version, workload_classes}

abbrev pub record_fields : List String
record_fields =
    "schema_version" ∷ "request_id" ∷ "arrival_time_us" ∷ "prompt_token_count" ∷ "prompt_tokens"
    ∷ "max_new_tokens" ∷ "workload_class" ∷ "prefix_group" ∷ "deadline_us" ∷ "metadata" ∷ []

-- The body of the loop over `tokens`: a signed 32-bit integer.
unfoldable pub check_token : Value → Result (Unit {0})
unfolding require_int
check_token token = do
  value ← require_int (negsuc (2 ^ 31 - 1)) token "prompt_tokens[]"
  raise_if (ltb_ℤ (pos (2 ^ 31 - 1)) value) "prompt_tokens[] exceeds signed 32-bit range"

unfoldable pub check_tokens : ℕ → Value → Result (Unit {0})
unfolding as_arr
check_tokens prompt_count v = do
  tokens ← as_arr v "prompt_tokens must be an array"
  check_each check_token tokens
  raise_if (not (length tokens == prompt_count)) "prompt_token_count must equal len(prompt_tokens)"

-- The `try` block of `validate_workload_record`.
unfoldable pub check_record : Value → Result Fields
check_record v = do
  record' ← as_obj v "record must be an object"
  raise_if (not (subset (keys record') record_fields)) "unknown fields"
  raise_if (not (is_str (get record' "schema_version") workload_schema_version))
      "incompatible schema_version"
  _ ← require_str false (get record' "request_id") "request_id"
  _ ← require_nat 0 (get record' "arrival_time_us") "arrival_time_us"
  prompt_count ← require_nat 0 (get record' "prompt_token_count") "prompt_token_count"
  _ ← require_nat 0 (get record' "max_new_tokens") "max_new_tokens"
  workload_class ← require_str false (get record' "workload_class") "workload_class"
  raise_if (not (contains workload_classes workload_class)) "unknown workload_class"
  when_present (lookup "prompt_tokens" record') (check_tokens prompt_count)
  when_present (lookup "prefix_group" record')
      (λ g. only_check (require_str false g "prefix_group"))
  when_present (lookup "deadline_us" record') (λ t. only_check (require_nat 0 t "deadline_us"))
  when_present (lookup "metadata" record')
      (λ m. raise_if (not (is_obj m)) "metadata must be an object")
  ok record'

-- The `except ValidationError`: other exceptions pass.
abbrev pub at_line {ℓ} : {A : Type ℓ} → ℕ → Result A → Result A
at_line n (ok a) = ok a
at_line n (err (Error.key_error k)) = err (Error.key_error k)
at_line n (err Error.type_error) = err Error.type_error
at_line n (err e) = err (Error.in_line n e)

unfoldable pub validate_workload_record : Value → ℕ → Result Fields
unfolding check_record
validate_workload_record v line_number = at_line line_number (check_record v)
