-- ===== src/Native/Request.antt =====
-- The loop of `validate_native_records` over the request records. What the checks read of a record
-- is kept as a `Request`, so that the later passes do not read the dict again.
mod Reading
pub mod Spec
unfoldable pub use Reading.{
  read_state, nonempty_text, prompt_tokens, timing, differences, read_counts,
}
pub use Reading.*
use llm_inference_optimizati.Base.{
  ℕ, ◌+◌, ◌-◌, String, not, ◌&&◌, ◌||◌, Option, List, [], ◌∷◌, Result, ok, ◌>>=◌, ◌>>◌, raise_if,
  for_each, only_check, contains, contains_id, length, is_sorted, same_list, head?, get_last?, ltb,
  ◌==◌,
}
use llm_inference_optimizati.Value.{null, Fields, Floats, get, is_obj}
use llm_inference_optimizati.Value.Checks.{
  closed_fields, field_int, nullable_int, nullable_str, exact_number, conserved, as_arr,
}
use llm_inference_optimizati.Workload.{workload_classes}
use llm_inference_optimizati.Metrics.{Times, request_metrics}

-- The checks on the ids and on the fields that come from the workload.
unfoldable pub check_identity : Fields → List String → List ℕ → Result (String × ℕ)
check_identity r external_ids native_ids = do
  closed_fields r request_fields
  request_id ← nonempty_text (get r "request_id") "request_id"
  raise_if (contains external_ids request_id) "duplicate request_id"
  internal_id ← field_int r "internal_id"
  raise_if (contains_id native_ids internal_id) "duplicate internal_id"
  workload_class ← nonempty_text (get r "workload_class") "workload_class"
  raise_if (not (contains workload_classes workload_class)) "unknown workload_class"
  prefix_group ← nullable_str (get r "prefix_group") "prefix_group"
  raise_if (is_empty prefix_group) "prefix_group must be null or nonempty"
  only_check (nullable_int r "deadline_us")
  raise_if (not (is_obj (get r "metadata"))) "metadata must be an object"
  ok (request_id, internal_id)

unfoldable pub check_counts : Option ℕ → Counts → Result (Unit {0})
check_counts prompt_length c = do
  raise_if (differs prompt_length c.original)
      "prompt_tokens length disagrees with prompt_tokens_original"
  raise_if (ltb c.original c.matched || ltb c.original c.scheduled)
      "matched/scheduled prompt tokens exceed original"
  raise_if (is_some c.admitted && not (c.matched + c.scheduled == c.original))
      "prompt accounting contradiction"
  raise_if
      (not (is_some c.admitted) && (ltb 0 c.matched || (ltb 0 c.scheduled || ltb 0 c.generated)))
      "unadmitted request reports executed work"
  raise_if (ltb c.max_new_tokens c.generated) "generated_tokens exceeds max_new_tokens"

unfoldable pub check_order : Times → Result (Unit {0})
check_order t = do
  raise_if (before t.admitted t.arrival) "admitted_time_us precedes arrival_time_us"
  raise_if (is_some t.first && (not (is_some t.admitted) || before_both t.first t.admitted))
      "first_token_time_us precedes admission"
  raise_if
      (before t.finish t.arrival
        || (before_both t.finish t.admitted || before_both t.finish t.first))
      "finish_time_us contradicts lifecycle order"

-- The checks of the lifecycle fields against the state.
unfoldable pub check_state : State → Option String → Times → Result (Unit {0})
check_state state reason t = do
  raise_if
      (is_finished state
        && (not (is_some t.admitted) || (not (is_some t.finish) || is_some reason)))
      "Finished lifecycle/reason fields are inconsistent"
  raise_if (not (is_finished state) && is_some t.finish) "unfinished request has finish_time_us"
  raise_if (is_cancelled state && no_text reason) "Cancelled request requires a reason"
  raise_if (not (is_cancelled state) && is_some reason)
      "non-Cancelled request must have null reason"
  raise_if (is_waiting state && (is_some t.admitted || (is_some t.first || ltb 0 t.generated)))
      "Waiting request has admitted/decode state"
  raise_if
      (is_prefilling state && (not (is_some t.admitted) || (is_some t.first || ltb 0 t.generated)))
      "Prefilling lifecycle fields are inconsistent"
  raise_if (is_decoding state && not (is_some t.admitted)) "Decoding request lacks admission"
  raise_if (t.generated == 0 && is_some t.first) "zero-output request has first_token_time_us"
  raise_if (ltb 0 t.generated && not (is_some t.first))
      "generated request lacks first_token_time_us"

-- The checks of the decode times and of the gaps between them.
unfoldable pub check_timing : State → Times → List ℕ → List ℕ → Result (Unit {0})
check_timing state t times gaps = do
  conserved (length times) t.generated "decode timestamp count"
  conserved (length gaps) (t.generated - 1) "inter-token gap count"
  raise_if (not (is_sorted times)) "decode timestamps must be non-decreasing"
  raise_if (is_some (head? times) && not (same_option (head? times) t.first))
      "first decode timestamp disagrees with first_token_time_us"
  raise_if
      (is_finished state
        && (is_some (get_last? times) && not (same_option (get_last? times) t.finish)))
      "final decode timestamp disagrees with finish_time_us"
  raise_if (not (same_list gaps (differences times))) "inter-token gaps conservation mismatch"

module _ (fl : Floats) where
  -- The checks of the reported metrics against `request_metrics`.
  unfoldable pub check_metrics : Fields → Times → Result (Unit {0})
  check_metrics r t = do
    let metrics = request_metrics fl t
    exact_number fl (get r "queue_delay_us") metrics.queue_delay_us "queue_delay_us"
    exact_number fl (get r "ttft_us") metrics.ttft_us "ttft_us"
    exact_number fl (get r "end_to_end_latency_us") metrics.e2e_latency_us "end_to_end_latency_us"
    exact_number fl (get r "tpot_us") metrics.tpot_us "tpot_us"

  -- The body of the loop.
  unfoldable pub validate_request : Fields → List String → List ℕ → Result Request
  validate_request r external_ids native_ids = do
    ids ← check_identity r external_ids native_ids
    prompt_length ← prompt_tokens (get r "prompt_tokens")
    counts ← read_counts r
    check_counts prompt_length counts
    check_order counts.times
    state ← read_state (get r "final_state")
    reason ← nullable_str (get r "reason") "reason"
    check_state state reason counts.times
    time_values ← as_arr (get r "decode_token_times_us") "decode timing fields must be arrays"
    gap_values ← as_arr (get r "inter_token_latencies_us") "decode timing fields must be arrays"
    times ← for_each timing time_values
    gaps ← for_each timing gap_values
    check_timing state counts.times times gaps
    check_metrics r counts.times
    ok (record {
      internal_id = ids.1;
      request_id = ids.0;
      counts = counts;
      state = state;
      reason = reason;
      decode_times = times;
      gaps = gaps;
      raw = r;
    })

  -- The loop.
  unfoldable pub validate_requests : List Fields → List String → List ℕ → Result (List Request)
  validate_requests [] external_ids native_ids = ok []
  validate_requests (r ∷ rs) external_ids native_ids = do
    request ← validate_request r external_ids native_ids
    rest ←
        validate_requests rs (request.request_id ∷ external_ids) (request.internal_id ∷ native_ids)
    ok (request ∷ rest)
