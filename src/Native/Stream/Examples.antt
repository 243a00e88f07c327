-- ===== src/Native/Stream/Examples.antt =====
-- A whole result: one request that is prefilled in one iteration and decodes a token in each of two.
use llm_inference_optimizati.Base.{
  ℕ, ◌≡◌, refl, String, Bool, true, false, Option, none, some, List, [], ◌∷◌, pos, ok, ◌>>=◌,
  for_each, check_each,
}
use llm_inference_optimizati.Value.{
  Value, int, float, bool, str, arr, obj, cons, nil, Fields, field, end, get, lookup, get_item,
  get_or, has_exactly, py_eq,
}
use llm_inference_optimizati.Config.Spec.{Limits}
use llm_inference_optimizati.Native.Examples.{whole, request, request_record}
use llm_inference_optimizati.Native.Request.{
  validate_requests, validate_request, check_identity, nonempty_text, prompt_tokens, read_counts,
  check_counts, check_order, read_state, check_state, timing, check_timing, differences,
  check_metrics,
}
use llm_inference_optimizati.Native.Iteration.{
  Iteration, validate_iterations, validate_iteration, id_array, read_deferrals, read_gauges,
  check_scheduled, read_bool, natural,
}
use llm_inference_optimizati.Native.Stream.{
  validate_native_records, read_limits, native_record, only_summary,
}
use llm_inference_optimizati.Native.Stream.Sound.{IsResult, validate_native_records_sound}
use llm_inference_optimizati.Base.Sort.{sorted}
use llm_inference_optimizati.Value.Checks.{
  as_arr, as_obj, closed_fields, field_int, nullable_int, nullable_str, exact_number, unit_interval,
  conserved,
}
use llm_inference_optimizati.Workload.Reader.{id_of}
use llm_inference_optimizati.Metrics.{request_metrics}
use llm_inference_optimizati.Native.Summary.{validate_summary}
use llm_inference_optimizati.Native.Summary.Totals.{
  nat_at, conserved_at, check_policy, check_header, check_status, check_fields, check_totals,
}
use llm_inference_optimizati.Native.Summary.Continuous.{
  check_sums, check_schedule, less, largest, peak_utilization, check_peaks, check_last,
  check_continuous,
}
use llm_inference_optimizati.Native.Envelope.{
  submitted_before, find_record, number_of, conserved_field, check_source, check_envelope,
}
use llm_inference_optimizati.Native.Summary.Conservation.{
  Agrees, Reports, validate_summary-Agrees, validate_summary-Reports,
}

abbrev nat : ℕ → Value
nat n = int (pos n)

abbrev entries : List (String × Value) → Fields
entries [] = end
entries ((k, v) ∷ rest) = field k v (entries rest)

abbrev anywhere : String → Bool
anywhere path = true

abbrev record_1 : Fields
record_1 = entries (
    ("record_type", str "iteration")
    ∷ ("schema_version", str "serving-simulator-v2")
    ∷ ("evidence_type", str "SIMULATED")
    ∷ ("iteration_number", nat 1)
    ∷ ("start_time_us", nat 10)
    ∷ ("end_time_us", nat 15)
    ∷ ("policy", str "DecodeFirst")
    ∷ ("prefill_ids", arr (cons (nat 1) nil))
    ∷ ("decode_ids", arr nil)
    ∷ ("deferred", arr nil)
    ∷ ("scheduled_sequences", nat 1)
    ∷ ("scheduled_prefill_tokens", nat 3)
    ∷ ("scheduled_decode_tokens", nat 0)
    ∷ ("total_scheduled_tokens", nat 3)
    ∷ ("kv_allocated", nat 1)
    ∷ ("kv_free", nat 0)
    ∷ ("kv_utilization", float 1)
    ∷ ("represented_kv_tokens", nat 4)
    ∷ ("internal_fragmentation_tokens", nat 12)
    ∷ ("cached_blocks", nat 0)
    ∷ ("shared_referenced_blocks", nat 0)
    ∷ ("prefix_hits", nat 0)
    ∷ ("prefix_misses", nat 1)
    ∷ ("matched_tokens", nat 1)
    ∷ ("evicted_ids", arr nil)
    ∷ ("stall", bool false)
    ∷ [])

abbrev iteration_1 : Iteration
iteration_1 = record {
  number = 1;
  start = 10;
  end_time = 15;
  prefill = 1 ∷ [];
  decode = [];
  deferred = [];
  gauges = record {
    scheduled_sequences = 1;
    scheduled_prefill_tokens = 3;
    scheduled_decode_tokens = 0;
    total_scheduled_tokens = 3;
    kv_allocated = 1;
    kv_free = 0;
    represented_kv_tokens = 4;
    internal_fragmentation_tokens = 12;
    cached_blocks = 0;
    shared_referenced_blocks = 0;
    prefix_hits = 0;
    prefix_misses = 1;
    matched_tokens = 1;
  };
  kv_utilization = float 1;
  stall = false;
  evicted = [];
}

abbrev record_2 : Fields
record_2 = entries (
    ("record_type", str "iteration")
    ∷ ("schema_version", str "serving-simulator-v2")
    ∷ ("evidence_type", str "SIMULATED")
    ∷ ("iteration_number", nat 2)
    ∷ ("start_time_us", nat 15)
    ∷ ("end_time_us", nat 20)
    ∷ ("policy", str "DecodeFirst")
    ∷ ("prefill_ids", arr nil)
    ∷ ("decode_ids", arr (cons (nat 1) nil))
    ∷ ("deferred", arr nil)
    ∷ ("scheduled_sequences", nat 1)
    ∷ ("scheduled_prefill_tokens", nat 0)
    ∷ ("scheduled_decode_tokens", nat 1)
    ∷ ("total_scheduled_tokens", nat 1)
    ∷ ("kv_allocated", nat 1)
    ∷ ("kv_free", nat 0)
    ∷ ("kv_utilization", float 1)
    ∷ ("represented_kv_tokens", nat 4)
    ∷ ("internal_fragmentation_tokens", nat 12)
    ∷ ("cached_blocks", nat 0)
    ∷ ("shared_referenced_blocks", nat 0)
    ∷ ("prefix_hits", nat 0)
    ∷ ("prefix_misses", nat 0)
    ∷ ("matched_tokens", nat 0)
    ∷ ("evicted_ids", arr nil)
    ∷ ("stall", bool false)
    ∷ [])

abbrev iteration_2 : Iteration
iteration_2 = record {
  number = 2;
  start = 15;
  end_time = 20;
  prefill = [];
  decode = 1 ∷ [];
  deferred = [];
  gauges = record {
    scheduled_sequences = 1;
    scheduled_prefill_tokens = 0;
    scheduled_decode_tokens = 1;
    total_scheduled_tokens = 1;
    kv_allocated = 1;
    kv_free = 0;
    represented_kv_tokens = 4;
    internal_fragmentation_tokens = 12;
    cached_blocks = 0;
    shared_referenced_blocks = 0;
    prefix_hits = 0;
    prefix_misses = 0;
    matched_tokens = 0;
  };
  kv_utilization = float 1;
  stall = false;
  evicted = [];
}

abbrev record_3 : Fields
record_3 = entries (
    ("record_type", str "iteration")
    ∷ ("schema_version", str "serving-simulator-v2")
    ∷ ("evidence_type", str "SIMULATED")
    ∷ ("iteration_number", nat 3)
    ∷ ("start_time_us", nat 20)
    ∷ ("end_time_us", nat 50)
    ∷ ("policy", str "DecodeFirst")
    ∷ ("prefill_ids", arr nil)
    ∷ ("decode_ids", arr (cons (nat 1) nil))
    ∷ ("deferred", arr nil)
    ∷ ("scheduled_sequences", nat 1)
    ∷ ("scheduled_prefill_tokens", nat 0)
    ∷ ("scheduled_decode_tokens", nat 1)
    ∷ ("total_scheduled_tokens", nat 1)
    ∷ ("kv_allocated", nat 1)
    ∷ ("kv_free", nat 0)
    ∷ ("kv_utilization", float 1)
    ∷ ("represented_kv_tokens", nat 4)
    ∷ ("internal_fragmentation_tokens", nat 12)
    ∷ ("cached_blocks", nat 0)
    ∷ ("shared_referenced_blocks", nat 0)
    ∷ ("prefix_hits", nat 0)
    ∷ ("prefix_misses", nat 0)
    ∷ ("matched_tokens", nat 0)
    ∷ ("evicted_ids", arr nil)
    ∷ ("stall", bool false)
    ∷ [])

abbrev iteration_3 : Iteration
iteration_3 = record {
  number = 3;
  start = 20;
  end_time = 50;
  prefill = [];
  decode = 1 ∷ [];
  deferred = [];
  gauges = record {
    scheduled_sequences = 1;
    scheduled_prefill_tokens = 0;
    scheduled_decode_tokens = 1;
    total_scheduled_tokens = 1;
    kv_allocated = 1;
    kv_free = 0;
    represented_kv_tokens = 4;
    internal_fragmentation_tokens = 12;
    cached_blocks = 0;
    shared_referenced_blocks = 0;
    prefix_hits = 0;
    prefix_misses = 0;
    matched_tokens = 0;
  };
  kv_utilization = float 1;
  stall = false;
  evicted = [];
}

abbrev summary_record : Fields
summary_record = entries (
    ("record_type", str "summary")
    ∷ ("schema_version", str "serving-simulator-v2")
    ∷ ("evidence_type", str "SIMULATED")
    ∷ ("execution_mode", str "continuous_batching")
    ∷ ("scheduling_policy", str "DecodeFirst")
    ∷ ("run_status", str "completed")
    ∷ ("submitted", nat 1)
    ∷ ("completed", nat 1)
    ∷ ("cancelled", nat 0)
    ∷ ("rejected", nat 0)
    ∷ ("stalled", nat 0)
    ∷ ("makespan_us", nat 50)
    ∷ ("scheduling_iterations", nat 3)
    ∷ ("nonempty_batches", nat 3)
    ∷ ("idle_iterations", nat 0)
    ∷ ("total_scheduled_sequences", nat 3)
    ∷ ("average_batch_size", float 1)
    ∷ ("max_batch_size", nat 1)
    ∷ ("max_scheduled_tokens", nat 3)
    ∷ ("deferred_requests", nat 0)
    ∷ ("current_allocated_blocks", nat 1)
    ∷ ("current_free_blocks", nat 0)
    ∷ ("peak_allocated_blocks", nat 1)
    ∷ ("kv_current_utilization", float 1)
    ∷ ("kv_peak_utilization", float 1)
    ∷ ("represented_kv_tokens", nat 4)
    ∷ ("internal_fragmentation_tokens", nat 12)
    ∷ ("cached_blocks", nat 0)
    ∷ ("shared_referenced_blocks", nat 0)
    ∷ ("kv_allocation_failures", nat 0)
    ∷ ("kv_capacity_deferrals", nat 0)
    ∷ ("prefix_lookups", nat 1)
    ∷ ("prefix_lookup_hits", nat 0)
    ∷ ("prefix_lookup_misses", nat 1)
    ∷ ("matched_prefix_blocks", nat 0)
    ∷ ("cache_eligible_prompt_tokens", nat 4)
    ∷ ("collision_verifications", nat 0)
    ∷ ("matched_prefix_tokens", nat 1)
    ∷ ("prefix_token_hit_rate", float 0)
    ∷ ("saved_simulated_prefill_tokens", nat 1)
    ∷ ("eviction_count", nat 0)
    ∷ ("submitted_prompt_tokens", nat 4)
    ∷ ("scheduled_prefill_tokens", nat 3)
    ∷ ("generated_tokens", nat 2)
    ∷ ("scheduled_decode_tokens", nat 2)
    ∷ [])

abbrev submitted : Fields
submitted = entries (
    ("schema_version", str "serving-workload-v1")
    ∷ ("request_id", str "chat-0000")
    ∷ ("arrival_time_us", nat 5)
    ∷ ("prompt_token_count", nat 4)
    ∷ ("max_new_tokens", nat 2)
    ∷ ("workload_class", str "chat")
    ∷ [])

abbrev result : Value
result = arr (
    cons (obj request_record) (
      cons (obj record_1)
        (cons (obj record_2) (cons (obj record_3) (cons (obj summary_record) nil)))))

abbrev iterations : List Iteration
iterations = iteration_1 ∷ iteration_2 ∷ iteration_3 ∷ []

result_accepted :
    validate_native_records whole anywhere result none (some (submitted ∷ []))
    ≡ ok (request ∷ [], iterations, summary_record)
unfolding ◌>>=◌ for_each check_each sorted get lookup get_item get_or has_exactly py_eq as_arr
    as_obj closed_fields field_int nullable_int nullable_str exact_number unit_interval conserved
    id_of validate_requests validate_request check_identity nonempty_text prompt_tokens read_counts
    check_counts check_order read_state check_state timing check_timing differences check_metrics
    request_metrics validate_iterations validate_iteration id_array read_deferrals read_gauges
    check_scheduled read_bool natural validate_summary nat_at conserved_at check_policy check_header
    check_status check_fields check_totals check_sums check_schedule less largest peak_utilization
    check_peaks check_last check_continuous submitted_before find_record number_of conserved_field
    check_source check_envelope native_record only_summary read_limits validate_native_records
result_accepted = refl

validate_native_records_sound_example :
    (limits : Option Limits) × (read_limits anywhere none ≡ ok limits)
    × IsResult limits (request ∷ []) iterations summary_record
validate_native_records_sound_example =
    validate_native_records_sound whole anywhere result none (some (submitted ∷ [])) result_accepted

summary_accepted : validate_summary whole none summary_record (request ∷ []) iterations ≡ ok tt
unfolding closed_fields field_int nullable_int exact_number unit_interval conserved get lookup py_eq
    validate_summary nat_at conserved_at check_policy check_header check_status check_fields
    check_totals check_sums check_schedule less largest peak_utilization check_peaks check_last
    check_continuous ◌>>=◌ check_each
summary_accepted = refl

validate_summary-Agrees_example : Agrees (request ∷ []) iterations
unfolding get
validate_summary-Agrees_example =
    validate_summary-Agrees whole none summary_record (request ∷ []) iterations summary_accepted
      refl

validate_summary-Reports_example : Reports summary_record (request ∷ []) iterations
validate_summary-Reports_example =
    validate_summary-Reports whole none summary_record (request ∷ []) iterations summary_accepted
