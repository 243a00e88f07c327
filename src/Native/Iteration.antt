-- ===== src/Native/Iteration.antt =====
-- The loop of `validate_native_records` over the iteration records, and `_id_array`.
pub mod Spec
use llm_inference_optimizati.Base.{
  ℕ, ◌+◌, ◌*◌, String, Bool, true, false, not, ◌&&◌, ◌||◌, Option, List, [], ◌∷◌, ◌++◌, ℤ, pos,
  eqb_ℤ, sub_ℕ, Error, Result, ok, err, ◌>>=◌, ◌>>◌, raise_if, for_each, when_present, contains,
  contains_id, has_no_duplicates, any, all, length, map, leb, ltb, if◌then◌else◌,
}
use llm_inference_optimizati.Value.{
  Value, int, bool, str, float, Fields, Floats, get, has_exactly, in_set,
}
use llm_inference_optimizati.Value.Checks.{
  closed_fields, field_int, unit_interval, exact_number, conserved, as_arr, as_obj,
}
use llm_inference_optimizati.Config.Spec.{Limits}

-- `ITERATION_RECORD_FIELDS`
abbrev pub iteration_fields : List String
iteration_fields =
    "record_type" ∷ "schema_version" ∷ "evidence_type" ∷ "iteration_number" ∷ "start_time_us"
    ∷ "end_time_us" ∷ "policy" ∷ "prefill_ids" ∷ "decode_ids" ∷ "deferred" ∷ "scheduled_sequences"
    ∷ "scheduled_prefill_tokens" ∷ "scheduled_decode_tokens" ∷ "total_scheduled_tokens"
    ∷ "kv_allocated" ∷ "kv_free" ∷ "kv_utilization" ∷ "represented_kv_tokens"
    ∷ "internal_fragmentation_tokens" ∷ "cached_blocks" ∷ "shared_referenced_blocks" ∷ "prefix_hits"
    ∷ "prefix_misses" ∷ "matched_tokens" ∷ "evicted_ids" ∷ "stall" ∷ []

-- The counters of an iteration.
pub record Gauges : Type 0 where
  pub scheduled_sequences : ℕ
  pub scheduled_prefill_tokens : ℕ
  pub scheduled_decode_tokens : ℕ
  pub total_scheduled_tokens : ℕ
  pub kv_allocated : ℕ
  pub kv_free : ℕ
  pub represented_kv_tokens : ℕ
  pub internal_fragmentation_tokens : ℕ
  pub cached_blocks : ℕ
  pub shared_referenced_blocks : ℕ
  pub prefix_hits : ℕ
  pub prefix_misses : ℕ
  pub matched_tokens : ℕ

-- A deferred request: its id and its reason.
pub record Deferral : Type 0 where
  pub request : ℕ
  pub reason : String

pub record Iteration : Type 0 where
  pub number : ℕ
  pub start : ℕ
  pub end_time : ℕ
  pub prefill : List ℕ
  pub decode : List ℕ
  pub deferred : List Deferral
  pub gauges : Gauges
  pub open gauges use *
  pub kv_utilization : Value
  pub stall : Bool
  pub evicted : List ℕ

-- `isinstance(v, int) and v >= 0`, not a bool
unfoldable pub natural : String → Value → Result ℕ
natural text (int (pos n)) = ok n
natural text v = err (Error.invalid text)

-- `_id_array`
unfoldable pub id_array : Value → String → List ℕ → Result (List ℕ)
unfolding natural
id_array v name known_ids = do
  vs ← as_arr v "id array must be an array"
  ids ← for_each (natural "must contain non-negative integers") vs
  raise_if (not (has_no_duplicates ids)) "contains duplicate IDs"
  raise_if (not (all (contains_id known_ids) ids)) "references unknown request ID"
  ok ids

abbrev pub deferral_reasons : List String
deferral_reasons = "sequence budget" ∷ "token budget" ∷ "KV capacity" ∷ []

-- the text of a value that is one
abbrev pub text : Value → String
text (str s) = s
text _ = ""

abbrev pub nonempty : List ℕ → Bool
nonempty [] = false
nonempty (_ ∷ _) = true

-- The body of the loop over `deferred`; `seen` is `deferred_ids`.
unfoldable pub read_deferral : List ℕ → List ℕ → Value → Result Deferral
unfolding natural
read_deferral known_ids seen v = do
  item ← as_obj v "deferred[] must contain request_id and reason"
  raise_if (not (has_exactly item ("request_id" ∷ "reason" ∷ [])))
      "deferred[] must contain request_id and reason"
  id ← natural "deferred[] references an unknown request" (get item "request_id")
  raise_if (not (contains_id known_ids id)) "deferred[] references an unknown request"
  raise_if (contains_id seen id) "duplicate deferred request ID"
  allowed ← in_set (get item "reason") deferral_reasons
  raise_if (not allowed) "invalid deferred reason"
  ok (record { request = id; reason = text (get item "reason") })

unfoldable pub read_deferrals : List ℕ → List ℕ → List Value → Result (List Deferral)
read_deferrals known_ids seen [] = ok []
read_deferrals known_ids seen (v ∷ vs) = do
  d ← read_deferral known_ids seen v
  rest ← read_deferrals known_ids (d.request ∷ seen) vs
  ok (d ∷ rest)

unfoldable pub read_gauges : Fields → Result Gauges
read_gauges r = do
  scheduled_sequences ← field_int r "scheduled_sequences"
  scheduled_prefill_tokens ← field_int r "scheduled_prefill_tokens"
  scheduled_decode_tokens ← field_int r "scheduled_decode_tokens"
  total_scheduled_tokens ← field_int r "total_scheduled_tokens"
  kv_allocated ← field_int r "kv_allocated"
  kv_free ← field_int r "kv_free"
  represented_kv_tokens ← field_int r "represented_kv_tokens"
  internal_fragmentation_tokens ← field_int r "internal_fragmentation_tokens"
  cached_blocks ← field_int r "cached_blocks"
  shared_referenced_blocks ← field_int r "shared_referenced_blocks"
  prefix_hits ← field_int r "prefix_hits"
  prefix_misses ← field_int r "prefix_misses"
  matched_tokens ← field_int r "matched_tokens"
  ok (record {
    scheduled_sequences = scheduled_sequences;
    scheduled_prefill_tokens = scheduled_prefill_tokens;
    scheduled_decode_tokens = scheduled_decode_tokens;
    total_scheduled_tokens = total_scheduled_tokens;
    kv_allocated = kv_allocated;
    kv_free = kv_free;
    represented_kv_tokens = represented_kv_tokens;
    internal_fragmentation_tokens = internal_fragmentation_tokens;
    cached_blocks = cached_blocks;
    shared_referenced_blocks = shared_referenced_blocks;
    prefix_hits = prefix_hits;
    prefix_misses = prefix_misses;
    matched_tokens = matched_tokens;
  })

-- `set(xs) & set(ys)`
abbrev pub overlap : List ℕ → List ℕ → Bool
overlap xs ys = any (contains_id ys) xs

-- `_conserved` where the expected number may be negative
unfoldable pub conserved_int : ℕ → ℤ → String → Result (Unit {0})
conserved_int actual expected name =
    if eqb_ℤ (pos actual) expected then ok tt else err (Error.about name "conservation mismatch")

unfoldable pub read_bool : Value → String → Result Bool
read_bool (bool b) text = ok b
read_bool v text = err (Error.invalid text)

-- The three sums of the scheduled work.
unfoldable pub check_scheduled : List ℕ → List ℕ → Gauges → Result (Unit {0})
check_scheduled prefill decode g = do
  conserved g.scheduled_sequences (length prefill + length decode) "scheduled_sequences"
  conserved g.scheduled_decode_tokens (length decode) "scheduled_decode_tokens"
  conserved g.total_scheduled_tokens (g.scheduled_prefill_tokens + g.scheduled_decode_tokens)
      "total_scheduled_tokens"

module _ (fl : Floats) where
  -- The checks against the configured cache.
  unfoldable pub check_capacity : Limits → Gauges → Value → Result (Unit {0})
  unfolding conserved_int
  check_capacity l g utilization = do
    conserved (g.kv_allocated + g.kv_free) l.total_blocks "configured KV block capacity"
    exact_number fl utilization (float (fl.div (pos g.kv_allocated) (pos l.total_blocks)))
        "kv_utilization"
    conserved_int g.internal_fragmentation_tokens
        (sub_ℕ (g.kv_allocated * l.block_size) g.represented_kv_tokens)
        "internal_fragmentation_tokens"

  -- The body of the loop, after an iteration `previous` that ended at `previous_end`.
  unfoldable pub validate_iteration : Option Limits → List ℕ → ℕ → ℕ → Fields → Result Iteration
  validate_iteration limits native_ids previous previous_end r = do
    closed_fields r iteration_fields
    number ← field_int r "iteration_number"
    start ← field_int r "start_time_us"
    end_time ← field_int r "end_time_us"
    raise_if (leb number previous) "iteration_number must be unique and strictly increasing"
    raise_if (ltb start previous_end || ltb end_time start) "iteration timestamps are not monotonic"
    known_policy ← in_set (get r "policy") ("DecodeFirst" ∷ "FcfsMixed" ∷ [])
    raise_if (not known_policy) "invalid scheduling policy"
    prefill ← id_array (get r "prefill_ids") "prefill_ids" native_ids
    decode ← id_array (get r "decode_ids") "decode_ids" native_ids
    raise_if (overlap prefill decode) "request appears in both prefill_ids and decode_ids"
    deferred_values ← as_arr (get r "deferred") "deferred must be an array"
    deferred ← read_deferrals native_ids [] deferred_values
    raise_if (overlap (map (λ d. d.request) deferred) (prefill ++ decode))
        "deferred request also appears in scheduled work"
    gauges ← read_gauges r
    check_scheduled prefill decode gauges
    unit_interval fl false (get r "kv_utilization") "kv_utilization"
    stall ← read_bool (get r "stall") "stall must be boolean"
    evicted_values ← as_arr (get r "evicted_ids") "evicted_ids must contain non-negative integers"
    evicted ← for_each (natural "evicted_ids must contain non-negative integers") evicted_values
    raise_if (not (has_no_duplicates evicted)) "evicted_ids contains duplicate physical IDs"
    raise_if
        (stall && (nonempty prefill || (nonempty decode || ltb 0 gauges.total_scheduled_tokens)))
        "stalled iteration contains scheduled work"
    when_present limits (λ l. check_capacity l gauges (get r "kv_utilization"))
    raise_if
        (ltb gauges.kv_allocated gauges.cached_blocks
          || ltb gauges.kv_allocated gauges.shared_referenced_blocks)
        "cached/shared block gauges exceed allocated blocks"
    ok (record {
      number = number;
      start = start;
      end_time = end_time;
      prefill = prefill;
      decode = decode;
      deferred = deferred;
      gauges = gauges;
      kv_utilization = get r "kv_utilization";
      stall = stall;
      evicted = evicted;
    })

  unfoldable pub validate_iterations :
      Option Limits → List ℕ → ℕ → ℕ → List Fields → Result (List Iteration)
  validate_iterations limits native_ids previous previous_end [] = ok []
  validate_iterations limits native_ids previous previous_end (r ∷ rs) = do
    it ← validate_iteration limits native_ids previous previous_end r
    rest ← validate_iterations limits native_ids it.number it.end_time rs
    ok (it ∷ rest)
