-- ===== src/Native/Summary/Totals.antt =====
-- The first part of the summary pass of `validate_native_records`: the fields of the summary record,
-- its header, and its totals over the requests. A field of `required_ints` that was checked is a
-- natural number, which `nat_at` reads.
use llm_inference_optimizati.Base.{
  ℕ, ◌+◌, ◌-◌, String, Bool, true, false, not, ◌&&◌, ◌||◌, Option, none, some, List, [], ◌∷◌, pos,
  eqb_ℤ, pos_part, ltb_ℤ, Error, Result, ok, err, ◌>>=◌, ◌>>◌, raise_if, check_each, only_check,
  when_present, length, count_if, sum_by, max, max_by, ltb, ◌==◌, if◌then◌else◌,
}
use llm_inference_optimizati.Value.{
  Value, null, int, float, Fields, Floats, get, is_str, is_null, in_set,
}
use llm_inference_optimizati.Value.Checks.{
  closed_fields, field_int, nullable_int, unit_interval, exact_number,
}
use llm_inference_optimizati.Config.{execution_modes}
use llm_inference_optimizati.Config.Spec.{Limits}
use llm_inference_optimizati.Native.Request.{Request, is_finished, is_cancelled}
use llm_inference_optimizati.Native.Iteration.{Iteration}

-- `SUMMARY_RECORD_FIELDS`
abbrev pub summary_fields : List String
summary_fields =
    "record_type" ∷ "schema_version" ∷ "evidence_type" ∷ "execution_mode" ∷ "scheduling_policy"
    ∷ "run_status" ∷ "submitted" ∷ "completed" ∷ "cancelled" ∷ "rejected" ∷ "stalled"
    ∷ "makespan_us" ∷ "scheduling_iterations" ∷ "nonempty_batches" ∷ "idle_iterations"
    ∷ "total_scheduled_sequences" ∷ "average_batch_size" ∷ "max_batch_size" ∷ "max_scheduled_tokens"
    ∷ "deferred_requests" ∷ "current_allocated_blocks" ∷ "current_free_blocks"
    ∷ "peak_allocated_blocks" ∷ "kv_current_utilization" ∷ "kv_peak_utilization"
    ∷ "represented_kv_tokens" ∷ "internal_fragmentation_tokens" ∷ "cached_blocks"
    ∷ "shared_referenced_blocks" ∷ "kv_allocation_failures" ∷ "kv_capacity_deferrals"
    ∷ "prefix_lookups" ∷ "prefix_lookup_hits" ∷ "prefix_lookup_misses" ∷ "matched_prefix_blocks"
    ∷ "cache_eligible_prompt_tokens" ∷ "collision_verifications" ∷ "matched_prefix_tokens"
    ∷ "prefix_token_hit_rate" ∷ "saved_simulated_prefill_tokens" ∷ "eviction_count"
    ∷ "submitted_prompt_tokens" ∷ "scheduled_prefill_tokens" ∷ "generated_tokens"
    ∷ "scheduled_decode_tokens" ∷ []

abbrev pub required_ints : List String
required_ints =
    "submitted" ∷ "completed" ∷ "cancelled" ∷ "rejected" ∷ "stalled" ∷ "makespan_us"
    ∷ "max_batch_size" ∷ "deferred_requests" ∷ "kv_allocation_failures" ∷ "kv_capacity_deferrals"
    ∷ "prefix_lookups" ∷ "prefix_lookup_hits" ∷ "prefix_lookup_misses" ∷ "matched_prefix_blocks"
    ∷ "cache_eligible_prompt_tokens" ∷ "collision_verifications" ∷ "matched_prefix_tokens"
    ∷ "saved_simulated_prefill_tokens" ∷ "eviction_count" ∷ "submitted_prompt_tokens"
    ∷ "scheduled_prefill_tokens" ∷ "generated_tokens" ∷ "scheduled_decode_tokens" ∷ []

abbrev pub nullable_ints : List String
nullable_ints =
    "scheduling_iterations" ∷ "nonempty_batches" ∷ "idle_iterations" ∷ "total_scheduled_sequences"
    ∷ "max_scheduled_tokens" ∷ "current_allocated_blocks" ∷ "current_free_blocks"
    ∷ "peak_allocated_blocks" ∷ "represented_kv_tokens" ∷ "internal_fragmentation_tokens"
    ∷ "cached_blocks" ∷ "shared_referenced_blocks" ∷ []

-- `summary[name]`, where it was checked to be a natural number
unfoldable pub nat_at : Fields → String → ℕ
nat_at s name = elim (get s name) [ int n ↦ pos_part n | _ ↦ 0 ]

-- `v == n`, for an integer or None
abbrev pub is_nat : Value → ℕ → Bool
is_nat (int m) n = eqb_ℤ m (pos n)
is_nat _ n = false

-- `_conserved(summary[name], expected, …)`
unfoldable pub conserved_at : Fields → String → ℕ → Result (Unit {0})
conserved_at s name expected =
    if is_nat (get s name) expected then ok tt else err (Error.about name "conservation mismatch")

abbrev pub is_fcfs : Fields → Bool
is_fcfs s = is_str (get s "execution_mode") "single_active_fcfs"

-- The scheduling policy of the summary, for its mode.
unfoldable pub check_policy : Fields → Result (Unit {0})
check_policy s =
    if is_fcfs s
    then raise_if (not (is_null (get s "scheduling_policy"))) "FCFS scheduling_policy must be null"
    else (do
      known ← in_set (get s "scheduling_policy") ("DecodeFirst" ∷ "FcfsMixed" ∷ [])
      raise_if (not known) "invalid continuous scheduling_policy")

-- Against the mode and the policy of the configuration.
unfoldable pub check_against : Fields → Limits → Result (Unit {0})
check_against s l = do
  raise_if (not (is_str (get s "execution_mode") l.mode)) "execution_mode conservation mismatch"
  raise_if
      (not (
        if is_fcfs s
        then is_null (get s "scheduling_policy")
        else is_str (get s "scheduling_policy") l.policy))
      "scheduling_policy conservation mismatch"

unfoldable pub check_header : Option Limits → Fields → Result (Unit {0})
check_header limits s = do
  closed_fields s summary_fields
  known ← in_set (get s "execution_mode") execution_modes
  raise_if (not known) "invalid execution_mode"
  check_policy s
  when_present limits (check_against s)
  status ← in_set (get s "run_status") ("completed" ∷ "stalled" ∷ [])
  raise_if (not status) "invalid run_status"

-- The number of requests that neither finished nor were cancelled. The summary's own counts, which
-- the code subtracts, were compared with these before.
abbrev pub unfinished : List Request → ℕ
unfinished requests =
    length requests
    - count_if (λ q. is_finished q.state) requests
    - count_if (λ q. is_cancelled q.state) requests

unfoldable pub check_status : Fields → List Request → Result (Unit {0})
check_status s requests = do
  conserved_at s "submitted" (length requests)
  conserved_at s "completed" (count_if (λ q. is_finished q.state) requests)
  conserved_at s "cancelled" (count_if (λ q. is_cancelled q.state) requests)
  raise_if (not (is_nat (get s "rejected") 0)) "rejected count requires explicit rejection records"
  raise_if
      (is_str (get s "run_status") "completed"
        && (ltb 0 (unfinished requests) || not (is_nat (get s "stalled") 0)))
      "completed status contradicts unfinished/stalled work"
  raise_if
      (is_str (get s "run_status") "stalled"
        && (unfinished requests == 0 || is_nat (get s "stalled") 0))
      "stalled status requires unfinished requests and stalled iterations"

abbrev pub or_zero : Option ℕ → ℕ
or_zero none = 0
or_zero (some t) = t

-- `latest_time`: the latest finish or end of an iteration, or 0
abbrev pub latest_time : List Request → List Iteration → ℕ
latest_time requests iterations =
    max (max_by (λ q. or_zero q.finish) requests) (max_by (λ it. it.end_time) iterations)

module _ (fl : Floats) where
  is_average : Value → Bool
  is_average null = true
  is_average (int n) = not (ltb_ℤ n (pos 0))
  is_average (float x) = fl.is_finite x && not (fl.float_lt_int x (pos 0))
  is_average _ = false

  -- The types and ranges of the fields.
  unfoldable pub check_fields : Fields → Result (Unit {0})
  unfolding is_average
  check_fields s = do
    check_each (λ name. only_check (field_int s name)) required_ints
    check_each (λ name. only_check (nullable_int s name)) nullable_ints
    raise_if (not (is_average (get s "average_batch_size")))
        "average_batch_size must be null or a finite non-negative number"
    unit_interval fl true (get s "kv_current_utilization") "kv_current_utilization"
    unit_interval fl true (get s "kv_peak_utilization") "kv_peak_utilization"
    unit_interval fl true (get s "prefix_token_hit_rate") "prefix_token_hit_rate"

  -- The totals over the requests, and the prefix cache counters.
  unfoldable pub check_totals : Fields → List Request → List Iteration → Result (Unit {0})
  check_totals s requests iterations = do
    conserved_at s "makespan_us" (latest_time requests iterations)
    conserved_at s "submitted_prompt_tokens" (sum_by (λ q. q.original) requests)
    conserved_at s "scheduled_prefill_tokens" (sum_by (λ q. q.scheduled) requests)
    conserved_at s "generated_tokens" (sum_by (λ q. q.generated) requests)
    conserved_at s "scheduled_decode_tokens" (sum_by (λ q. q.generated) requests)
    conserved_at s "matched_prefix_tokens" (sum_by (λ q. q.matched) requests)
    conserved_at s "prefix_lookups"
        (nat_at s "prefix_lookup_hits" + nat_at s "prefix_lookup_misses")
    exact_number fl (get s "prefix_token_hit_rate")
        (if nat_at s "cache_eligible_prompt_tokens" == 0
          then null
          else float (
              fl.div (pos (nat_at s "matched_prefix_tokens"))
                (pos (nat_at s "cache_eligible_prompt_tokens"))))
        "prefix_token_hit_rate"
    conserved_at s "saved_simulated_prefill_tokens" (nat_at s "matched_prefix_tokens")
