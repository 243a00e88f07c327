-- ===== src/Native/Examples.antt =====
-- A request record and an iteration record of a run that decodes two tokens.
use llm_inference_optimizati.Base.{
  ℕ, ◌+◌, ◌/◌, ◌≡◌, refl, true, false, none, some, [], ◌∷◌, pos, pos_part, ◌==◌, sum_by, contains,
  contains_id, arith, ok, err, Error, ◌>>=◌, check_each, for_each,
}
use llm_inference_optimizati.Value.{
  Value, null, bool, int, float, str, arr, obj, field, end, cons, nil, Fields, Floats, lookup, get,
  set_item,
}
use llm_inference_optimizati.Value.Checks.{
  closed_fields, field_int, nullable_int, nullable_str, exact_number, unit_interval, conserved,
  as_arr,
}
use llm_inference_optimizati.Config.Spec.{Limits}
use llm_inference_optimizati.Metrics.{request_metrics}
use llm_inference_optimizati.Native.Request.{
  finished, Request, validate_request, check_identity, nonempty_text, prompt_tokens, read_counts,
  check_counts, check_order, read_state, check_state, timing, check_timing, differences,
  check_metrics,
}
use llm_inference_optimizati.Native.Request.Spec.{IsRequest, validate_request_sound, gaps_span}
use llm_inference_optimizati.Native.Iteration.{
  Iteration, validate_iteration, validate_iterations, id_array, read_deferrals, read_gauges,
  check_scheduled, check_capacity, read_bool, natural,
}
use llm_inference_optimizati.Native.Iteration.Spec.{Runs, validate_iterations_sound}

abbrev nat : ℕ → Value
nat n = int (pos n)

-- Floats that hold whole numbers, for the tests.
abbrev pub whole : Floats
whole = record {
  div = λ a b. pos_part a / pos_part b;
  float_eq = λ a b. a == b;
  int_eq_float = λ a b. false;
  int_lt_float = λ a b. false;
  float_lt_int = λ a b. false;
  float_lt = λ a b. false;
  is_finite = λ a. true;
}

abbrev pub request_record : Fields
request_record = field "record_type" (str "request") (
    field "schema_version" (str "serving-simulator-v2") (
      field "evidence_type" (str "SIMULATED") (
        field "internal_id" (nat 1) (
          field "request_id" (str "chat-0000") (
            field "workload_class" (str "chat") (
              field "prefix_group" null (
                field "deadline_us" null (
                  field "metadata" (obj end) (
                    field "prompt_tokens" null (
                      field "arrival_time_us" (nat 5) (
                        field "admitted_time_us" (nat 10) (
                          field "first_token_time_us" (nat 20) (
                            field "finish_time_us" (nat 50) (
                              field "queue_delay_us" (nat 5) (
                                field "ttft_us" (nat 15) (
                                  field "end_to_end_latency_us" (nat 45)
                                    (field "tpot_us" (float 30) counters)))))))))))))))))
  where
    counters : Fields
    counters = field "prompt_tokens_original" (nat 4) (
        field "prompt_tokens_matched" (nat 1) (
          field "prompt_tokens_scheduled" (nat 3) (
            field "generated_tokens" (nat 2) (
              field "max_new_tokens" (nat 2) (
                field "final_state" (str "Finished") (
                  field "reason" null (
                    field "decode_token_times_us" (arr (cons (nat 20) (cons (nat 50) nil)))
                      (field "inter_token_latencies_us" (arr (cons (nat 30) nil)) end))))))))

abbrev pub request : Request
request = record {
  internal_id = 1;
  request_id = "chat-0000";
  counts = record {
    original = 4;
    matched = 1;
    scheduled = 3;
    max_new_tokens = 2;
    times = record {
      arrival = 5;
      admitted = some 10;
      first = some 20;
      finish = some 50;
      generated = 2;
    };
  };
  state = finished;
  reason = none;
  decode_times = 20 ∷ 50 ∷ [];
  gaps = 30 ∷ [];
  raw = request_record;
}

request_accepted : validate_request whole request_record [] [] ≡ ok request
unfolding validate_request check_identity nonempty_text prompt_tokens read_counts check_counts
    check_order read_state check_state timing check_timing differences check_metrics request_metrics
    closed_fields field_int nullable_int nullable_str exact_number conserved as_arr get lookup ◌>>=◌
    check_each for_each
request_accepted = refl

-- A finish before the last token.
early_finish_rejected :
    validate_request whole (set_item request_record "finish_time_us" (nat 40)) [] []
    ≡ err (Error.invalid "final decode timestamp disagrees with finish_time_us")
unfolding validate_request check_identity nonempty_text prompt_tokens read_counts check_counts
    check_order read_state check_state timing check_timing differences check_metrics request_metrics
    closed_fields field_int nullable_int nullable_str exact_number conserved as_arr get set_item
    lookup ◌>>=◌ check_each for_each
early_finish_rejected = refl

validate_request_sound_example :
    IsRequest request × (contains [] "chat-0000" ≡ false) × (contains_id [] 1 ≡ false)
validate_request_sound_example = validate_request_sound whole request_record [] [] request_accepted

gaps_span_example :
    (u f : ℕ) × (some 20 ≡ some u) × (some 50 ≡ some f) × (sum_by (λ g. g) (30 ∷ []) + u ≡ f)
gaps_span_example = gaps_span whole request_record [] [] request_accepted refl (omega arith)

abbrev iteration_record : Fields
iteration_record = field "record_type" (str "iteration") (
    field "schema_version" (str "serving-simulator-v2") (
      field "evidence_type" (str "SIMULATED") (
        field "iteration_number" (nat 1) (
          field "start_time_us" (nat 10) (
            field "end_time_us" (nat 20) (
              field "policy" (str "DecodeFirst") (
                field "prefill_ids" (arr (cons (nat 1) nil)) (
                  field "decode_ids" (arr nil) (
                    field "deferred" (arr nil) (
                      field "scheduled_sequences" (nat 1) (
                        field "scheduled_prefill_tokens" (nat 3)
                          (field "scheduled_decode_tokens" (nat 0) gauges))))))))))))
  where
    gauges : Fields
    gauges = field "total_scheduled_tokens" (nat 3) (
        field "kv_allocated" (nat 1) (
          field "kv_free" (nat 0) (
            field "kv_utilization" (float 1) (
              field "represented_kv_tokens" (nat 4) (
                field "internal_fragmentation_tokens" (nat 12) (
                  field "cached_blocks" (nat 0) (
                    field "shared_referenced_blocks" (nat 0) (
                      field "prefix_hits" (nat 0) (
                        field "prefix_misses" (nat 1) (
                          field "matched_tokens" (nat 1) (
                            field "evicted_ids" (arr nil)
                              (field "stall" (bool false) end))))))))))))

abbrev limits : Limits
limits = record {
  mode = "continuous_batching";
  policy = "DecodeFirst";
  total_blocks = 1;
  block_size = 16;
}

abbrev iteration : Iteration
iteration = record {
  number = 1;
  start = 10;
  end_time = 20;
  prefill = 1 ∷ [];
  decode = [];
  deferred = [];
  gauges = record {
    scheduled_sequences = 1;
    scheduled_prefill_tokens = 3;
    scheduled_decode_tokens = 0;
    total_scheduled_tokens = 3;
    kv_allocated = 1;
    kv_free = 0;
    represented_kv_tokens = 4;
    internal_fragmentation_tokens = 12;
    cached_blocks = 0;
    shared_referenced_blocks = 0;
    prefix_hits = 0;
    prefix_misses = 1;
    matched_tokens = 1;
  };
  kv_utilization = float 1;
  stall = false;
  evicted = [];
}

iteration_accepted :
    validate_iterations whole (some limits) (1 ∷ []) 0 0 (iteration_record ∷ [])
    ≡ ok (iteration ∷ [])
unfolding validate_iterations validate_iteration id_array read_deferrals read_gauges check_scheduled
    check_capacity read_bool natural closed_fields field_int unit_interval exact_number conserved
    as_arr get lookup ◌>>=◌ for_each
iteration_accepted = refl

validate_iterations_sound_example : Runs (some limits) (1 ∷ []) 0 0 (iteration ∷ [])
validate_iterations_sound_example =
    validate_iterations_sound whole (some limits) (1 ∷ []) 0 0 (iteration_record ∷ [])
      iteration_accepted
