-- ===== src/Native/Summary/Continuous.antt =====
-- The second part of the summary pass of `validate_native_records`, for each execution mode: the
-- fields that the mode leaves empty, the sums over the iterations, the gauges of the last iteration,
-- and the iterations in which each request was scheduled.
use llm_inference_optimizati.Base.{
  ltb_ℤ, ℕ, ◌+◌, ◌*◌, String, Bool, true, false, not, ◌&&◌, ◌||◌, Option, none, some, List, [], ◌∷◌,
  ◌++◌, pos, sub_ℕ, Error, Result, ok, err, ◌>>=◌, ◌>>◌, raise_if, check_each, when_present, length,
  count_if, sum_by, max_by, keep, map, get_last?, head?, same_list, str_eq, ltb, ◌==◌,
  if◌then◌else◌,
}
use llm_inference_optimizati.Value.{Value, null, int, float, Fields, Floats, get, is_null, py_eq}
use llm_inference_optimizati.Value.Checks.{exact_number, conserved}
use llm_inference_optimizati.Config.Spec.{Limits}
use llm_inference_optimizati.Native.Request.{Request, is_finished, is_some, same_option}
use llm_inference_optimizati.Native.Iteration.{Iteration, conserved_int}
use llm_inference_optimizati.Native.Summary.Totals.{nullable_ints, nat_at, is_nat, conserved_at}

abbrev pub fcfs_null_fields : List String
fcfs_null_fields =
    "scheduling_iterations" ∷ "nonempty_batches" ∷ "idle_iterations" ∷ "total_scheduled_sequences"
    ∷ "max_scheduled_tokens" ∷ "current_allocated_blocks" ∷ "current_free_blocks"
    ∷ "peak_allocated_blocks" ∷ "kv_current_utilization" ∷ "kv_peak_utilization"
    ∷ "represented_kv_tokens" ∷ "internal_fragmentation_tokens" ∷ "cached_blocks"
    ∷ "shared_referenced_blocks" ∷ []

abbrev pub is_nil {ℓ} : {A : Type ℓ} → List A → Bool
is_nil [] = true
is_nil (_ ∷ _) = false

-- `iteration_sums`
unfoldable pub check_sums : Fields → List Iteration → Result (Unit {0})
check_sums s its = do
  conserved_at s "scheduled_prefill_tokens" (sum_by (λ it. it.scheduled_prefill_tokens) its)
  conserved_at s "scheduled_decode_tokens" (sum_by (λ it. it.scheduled_decode_tokens) its)
  conserved_at s "total_scheduled_sequences" (sum_by (λ it. it.scheduled_sequences) its)
  conserved_at s "nonempty_batches" (count_if (λ it. ltb 0 it.scheduled_sequences) its)
  conserved_at s "stalled" (count_if (λ it. it.stall) its)
  conserved_at s "deferred_requests" (sum_by (λ it. length it.deferred) its)
  conserved_at s "kv_capacity_deferrals"
      (sum_by (λ it. count_if (λ d. str_eq d.reason "KV capacity") it.deferred) its)
  conserved_at s "prefix_lookup_hits" (sum_by (λ it. it.prefix_hits) its)
  conserved_at s "prefix_lookup_misses" (sum_by (λ it. it.prefix_misses) its)
  conserved_at s "matched_prefix_tokens" (sum_by (λ it. it.matched_tokens) its)
  conserved_at s "eviction_count" (sum_by (λ it. length it.evicted) its)
  conserved_at s "idle_iterations"
      (count_if (λ it. it.scheduled_sequences == 0 && not it.stall) its)
  conserved_at s "max_batch_size" (max_by (λ it. it.scheduled_sequences) its)
  conserved_at s "max_scheduled_tokens" (max_by (λ it. it.total_scheduled_tokens) its)

-- `decode_appearances[id]` and `prefill_appearances[id]`, for the ids that an iteration schedules
abbrev pub appearances : (Iteration → List ℕ) → ℕ → List Iteration → ℕ
appearances ids id its = sum_by (λ it. count_if (λ x. x == id) (ids it)) its

-- The times that the loop over the iterations has appended for a request.
abbrev pub times_of : (Iteration → List ℕ) → (Iteration → ℕ) → ℕ → List Iteration → List ℕ
times_of ids time id [] = []
times_of ids time id (it ∷ its) =
    map (λ _. time it) (keep (λ x. x == id) (ids it)) ++ times_of ids time id its

-- The body of the loop over `request_by_native`, whose ids are distinct.
unfoldable pub check_schedule : List Iteration → Request → Result (Unit {0})
check_schedule its q = do
  conserved (appearances (λ it. it.decode) q.internal_id its) q.generated "decode appearances"
  raise_if
      (not (
        same_list (times_of (λ it. it.decode) (λ it. it.end_time) q.internal_id its)
          q.decode_times))
      "decode completion timestamps conservation mismatch"
  conserved (appearances (λ it. it.prefill) q.internal_id its) (if is_some q.admitted then 1 else 0)
      "prefill appearances"
  raise_if
      (is_some q.admitted
        && not (
            same_option (head? (times_of (λ it. it.prefill) (λ it. it.start) q.internal_id its))
              q.admitted))
      "prefill admission timestamp conservation mismatch"
  raise_if
      (is_some q.admitted
        && ((is_finished q.state && q.generated == 0)
            && not (
                same_option
                  (head? (times_of (λ it. it.prefill) (λ it. it.end_time) q.internal_id its))
                  q.finish)))
      "zero-output finish timestamp conservation mismatch"

module _ (fl : Floats) where
  -- `a < b` on numbers; None raises TypeError
  unfoldable pub less : Value → Value → Result Bool
  less (int a) (int b) = ok (ltb_ℤ a b)
  less (int a) (float y) = ok (fl.int_lt_float a y)
  less (float x) (int b) = ok (fl.float_lt_int x b)
  less (float x) (float y) = ok (fl.float_lt x y)
  less v w = err Error.type_error

  -- `max(…, default=0)` over the utilizations, the first of equal ones
  unfoldable pub largest : Value → List Iteration → Result Value
  largest best [] = ok best
  largest best (it ∷ its) = do
    below ← less best it.kv_utilization
    largest (if below then it.kv_utilization else best) its

  unfoldable pub peak_utilization : List Iteration → Result Value
  peak_utilization [] = ok (int (pos 0))
  peak_utilization (it ∷ its) = largest it.kv_utilization its

  unfoldable pub check_peaks : Option Limits → Fields → List Iteration → Result (Unit {0})
  check_peaks limits s its = do
    peak ← peak_utilization its
    raise_if (ltb (nat_at s "peak_allocated_blocks") (max_by (λ it. it.kv_allocated) its))
        "peak_allocated_blocks must cover the iteration peak"
    below ← less (get s "kv_peak_utilization") peak
    raise_if below "kv_peak_utilization must cover the iteration peak"
    when_present limits (λ l. do
      raise_if (ltb l.total_blocks (nat_at s "peak_allocated_blocks"))
          "peak_allocated_blocks exceeds configured KV capacity"
      exact_number fl (get s "kv_peak_utilization")
          (float (fl.div (pos (nat_at s "peak_allocated_blocks")) (pos l.total_blocks)))
          "kv_peak_utilization")

  -- The current gauges: the last iteration's, or those of an empty cache.
  unfoldable pub check_last : Option Limits → Fields → Option Iteration → Result (Unit {0})
  check_last limits s (some it) = do
    conserved_at s "current_allocated_blocks" it.kv_allocated
    conserved_at s "current_free_blocks" it.kv_free
    raise_if (not (py_eq fl (get s "kv_current_utilization") it.kv_utilization))
        "kv_current_utilization conservation mismatch"
    conserved_at s "represented_kv_tokens" it.represented_kv_tokens
    conserved_at s "internal_fragmentation_tokens" it.internal_fragmentation_tokens
    conserved_at s "cached_blocks" it.cached_blocks
    conserved_at s "shared_referenced_blocks" it.shared_referenced_blocks
  check_last limits s none = do
    conserved_at s "current_allocated_blocks" 0
    when_present limits (λ l. conserved_at s "current_free_blocks" l.total_blocks)
    raise_if (not (py_eq fl (get s "kv_current_utilization") (int (pos 0))))
        "kv_current_utilization conservation mismatch"
    conserved_at s "represented_kv_tokens" 0
    conserved_at s "internal_fragmentation_tokens" 0
    conserved_at s "cached_blocks" 0
    conserved_at s "shared_referenced_blocks" 0

  unfoldable pub check_current : Fields → Limits → Result (Unit {0})
  check_current s l = do
    conserved (nat_at s "current_allocated_blocks" + nat_at s "current_free_blocks") l.total_blocks
        "summary configured KV block capacity"
    exact_number fl (get s "kv_current_utilization")
        (float (fl.div (pos (nat_at s "current_allocated_blocks")) (pos l.total_blocks)))
        "kv_current_utilization"
    conserved_int (nat_at s "internal_fragmentation_tokens")
        (sub_ℕ (nat_at s "current_allocated_blocks" * l.block_size)
          (nat_at s "represented_kv_tokens"))
        "summary internal_fragmentation_tokens"

  -- The branch of `single_active_fcfs`.
  unfoldable pub check_fcfs : Fields → List Request → List Iteration → Result (Unit {0})
  check_fcfs s requests its = do
    raise_if (not (is_nil its)) "single_active_fcfs must not contain iteration records"
    check_each (λ name. raise_if (not (is_null (get s name))) "FCFS field must be null")
        fcfs_null_fields
    exact_number fl (get s "average_batch_size") (if is_nil requests then null else int (pos 1))
        "average_batch_size"
    conserved_at s "max_batch_size" (if is_nil requests then 0 else 1)

  -- The branch of `continuous_batching`.
  unfoldable pub check_continuous :
      Option Limits → Fields → List Request → List Iteration → Result (Unit {0})
  check_continuous limits s requests its = do
    check_each (λ name. raise_if (is_null (get s name)) "continuous field must not be null")
        nullable_ints
    raise_if (is_null (get s "average_batch_size") && not (is_nat (get s "nonempty_batches") 0))
        "nonempty run requires average_batch_size"
    conserved_at s "scheduling_iterations" (length its)
    check_sums s its
    exact_number fl (get s "average_batch_size")
        (if nat_at s "nonempty_batches" == 0
          then null
          else float (
              fl.div (pos (nat_at s "total_scheduled_sequences"))
                (pos (nat_at s "nonempty_batches"))))
        "average_batch_size"
    check_peaks limits s its
    check_last limits s (get_last? its)
    when_present limits (check_current s)
    raise_if
        (ltb (nat_at s "current_allocated_blocks") (nat_at s "cached_blocks")
          || ltb (nat_at s "current_allocated_blocks") (nat_at s "shared_referenced_blocks"))
        "cached/shared block gauges exceed current allocated blocks"
    check_each (check_schedule its) requests
