-- ===== src/Native/Request/Reading.antt =====
-- What the loop of `validate_native_records` over the request records reads of a record: its fields,
-- its state, its counters and times, and the tests on values that may be None.
use llm_inference_optimizati.Base.{
  ℕ, ◌-◌, ◌^◌, String, Bool, true, false, not, ◌&&◌, Option, none, some, List, [], ◌∷◌, pos, negsuc,
  ltb_ℤ, Error, Result, ok, err, ◌>>=◌, ◌>>◌, raise_if, check_each, length, ltb, ◌==◌, str_eq,
  if◌then◌else◌,
}
use llm_inference_optimizati.Value.{Value, null, int, str, arr, obj, Fields, items}
use llm_inference_optimizati.Value.Checks.{field_int, nullable_int}
use llm_inference_optimizati.Metrics.{Times}

-- `REQUEST_RECORD_FIELDS`
abbrev pub request_fields : List String
request_fields =
    "record_type" ∷ "schema_version" ∷ "evidence_type" ∷ "internal_id" ∷ "request_id"
    ∷ "workload_class" ∷ "prefix_group" ∷ "deadline_us" ∷ "metadata" ∷ "prompt_tokens"
    ∷ "arrival_time_us" ∷ "admitted_time_us" ∷ "first_token_time_us" ∷ "finish_time_us"
    ∷ "queue_delay_us" ∷ "ttft_us" ∷ "end_to_end_latency_us" ∷ "tpot_us" ∷ "prompt_tokens_original"
    ∷ "prompt_tokens_matched" ∷ "prompt_tokens_scheduled" ∷ "generated_tokens" ∷ "max_new_tokens"
    ∷ "final_state" ∷ "reason" ∷ "decode_token_times_us" ∷ "inter_token_latencies_us" ∷ []

-- `valid_states`
pub data State : Type 0 where
  waiting prefilling decoding finished cancelled : State

abbrev pub is_finished : State → Bool
is_finished finished = true
is_finished _ = false

abbrev pub is_cancelled : State → Bool
is_cancelled cancelled = true
is_cancelled _ = false

abbrev pub is_waiting : State → Bool
is_waiting waiting = true
is_waiting _ = false

abbrev pub is_prefilling : State → Bool
is_prefilling prefilling = true
is_prefilling _ = false

abbrev pub is_decoding : State → Bool
is_decoding decoding = true
is_decoding _ = false

-- The counters and times of a request.
pub record Counts : Type 0 where
  pub original : ℕ
  pub matched : ℕ
  pub scheduled : ℕ
  pub max_new_tokens : ℕ
  pub times : Times
  pub open times use *

pub record Request : Type 0 where
  pub internal_id : ℕ
  pub request_id : String
  pub counts : Counts
  pub open counts use *
  pub state : State
  pub reason : Option String
  pub decode_times : List ℕ
  pub gaps : List ℕ
  pub raw : Fields

abbrev pub is_some {ℓ} : {A : Type ℓ} → Option A → Bool
is_some none = false
is_some (some a) = true

-- `t is not None and t < limit`, and so on
abbrev pub before : Option ℕ → ℕ → Bool
before none limit = false
before (some t) limit = ltb t limit

abbrev pub before_both : Option ℕ → Option ℕ → Bool
before_both none b = false
before_both (some a) none = false
before_both (some a) (some b) = ltb a b

-- `a == b` for values that may be None
abbrev pub same_option : Option ℕ → Option ℕ → Bool
same_option none none = true
same_option (some a) (some b) = a == b
same_option _ _ = false

-- `n is not None and n != expected`
abbrev pub differs : Option ℕ → ℕ → Bool
differs none expected = false
differs (some n) expected = not (n == expected)

-- `text == ""` and `not text`, for a text that may be None
abbrev pub is_empty : Option String → Bool
is_empty none = false
is_empty (some s) = str_eq s ""

abbrev pub no_text : Option String → Bool
no_text none = true
no_text (some s) = str_eq s ""

-- The state as a text, in a set: an unhashable value raises TypeError.
unfoldable pub read_state : Value → Result State
read_state (str s) =
    if str_eq s "Waiting"
    then ok waiting
    else if str_eq s "Prefilling"
    then ok prefilling
    else if str_eq s "Decoding"
    then ok decoding
    else if str_eq s "Finished"
    then ok finished
    else if str_eq s "Cancelled"
    then ok cancelled
    else err (Error.invalid "invalid final_state")
read_state (arr _) = err Error.type_error
read_state (obj _) = err Error.type_error
read_state v = err (Error.invalid "invalid final_state")

-- A text that is not empty.
unfoldable pub nonempty_text : Value → String → Result String
nonempty_text (str s) name =
    if str_eq s "" then err (Error.about name "must be a nonempty string") else ok s
nonempty_text v name = err (Error.about name "must be a nonempty string")

-- `isinstance(token, int) and -(2**31) <= token <= 2**31 - 1`
abbrev is_int32 : Value → Bool
is_int32 (int n) = not (ltb_ℤ n (negsuc (2 ^ 31 - 1))) && not (ltb_ℤ (pos (2 ^ 31 - 1)) n)
is_int32 _ = false

-- `prompt_tokens`: null, or as many signed 32-bit integers as are returned
unfoldable pub prompt_tokens : Value → Result (Option ℕ)
prompt_tokens null = ok none
prompt_tokens (arr vs) = do
  check_each (λ t. raise_if (not (is_int32 t)) "prompt_tokens[] must be a signed int32") (items vs)
  ok (some (length (items vs)))
prompt_tokens v = err (Error.invalid "prompt_tokens must be null or an array")

-- The elements of a timing array.
unfoldable pub timing : Value → Result ℕ
timing (int (pos n)) = ok n
timing v = err (Error.invalid "decode timing values must be non-negative integers")

-- `[right - left for left, right in zip(times, times[1:])]`, on times in order
unfoldable pub differences : List ℕ → List ℕ
differences [] = []
differences (t ∷ []) = []
differences (t ∷ u ∷ times) = (u - t) ∷ differences (u ∷ times)

-- The counters and times, as the fields hold them.
unfoldable pub read_counts : Fields → Result Counts
read_counts r = do
  arrival ← field_int r "arrival_time_us"
  original ← field_int r "prompt_tokens_original"
  matched ← field_int r "prompt_tokens_matched"
  scheduled ← field_int r "prompt_tokens_scheduled"
  generated ← field_int r "generated_tokens"
  max_new_tokens ← field_int r "max_new_tokens"
  admitted ← nullable_int r "admitted_time_us"
  first ← nullable_int r "first_token_time_us"
  finish ← nullable_int r "finish_time_us"
  ok (record {
    original = original;
    matched = matched;
    scheduled = scheduled;
    max_new_tokens = max_new_tokens;
    times = record {
      arrival = arrival;
      admitted = admitted;
      first = first;
      finish = finish;
      generated = generated;
    };
  })
