-- ===== src/Native/Envelope.antt =====
-- The end of `validate_native_records`: the requests of the result against the workload that was
-- submitted, as `read_workload` returned it.
use Prim.Native.Char.{code}
use llm_inference_optimizati.Base.{
  ℕ, suc, String, Bool, true, false, not, ◌&&◌, ◌||◌, List, [], ◌∷◌, pos, Error, Result, ok, err,
  ◌>>=◌, ◌>>◌, raise_if, for_each, check_each, contains, map, str_eq, ltb, ◌==◌, if◌then◌else◌,
}
use llm_inference_optimizati.Base.Sort.{sorted}
use llm_inference_optimizati.Value.{
  Value, int, obj, end, Fields, Floats, get, get_or, get_item, py_eq, subset,
}
use llm_inference_optimizati.Workload.Reader.{id_of}
use llm_inference_optimizati.Native.Request.{Request}
use llm_inference_optimizati.Native.Iteration.{text}
use llm_inference_optimizati.Native.Summary.Totals.{nat_at}

-- `s <= t` on texts, by their code points
unfoldable pub text_le : String → String → Bool
text_le String.[] t = true
text_le (String.◌∷◌ c s) String.[] = false
text_le (String.◌∷◌ c s) (String.◌∷◌ d t) =
    ltb (code c) (code d) || (code c == code d && text_le s t)

-- The order of the key `(arrival_time_us, request_id)`.
unfoldable pub submitted_before : Fields → Fields → Bool
submitted_before d e =
    ltb (nat_at d "arrival_time_us") (nat_at e "arrival_time_us")
    || (nat_at d "arrival_time_us" == nat_at e "arrival_time_us"
        && text_le (text (get d "request_id")) (text (get e "request_id")))

abbrev pub distinct_texts : List String → Bool
distinct_texts [] = true
distinct_texts (s ∷ ss) = not (contains ss s) && distinct_texts ss

-- `workload_by_id[id]`
unfoldable pub find_record : String → List Fields → Result Fields
find_record id [] = err (Error.key_error id)
find_record id (d ∷ ds) =
    let rest = find_record id ds in if str_eq (text (get d "request_id")) id then ok d else rest

-- `expected_native[id]`, for records in order of which the first has the number `n`
unfoldable pub number_of : String → ℕ → List Fields → Result ℕ
number_of id n [] = err (Error.key_error id)
number_of id n (d ∷ ds) =
    let rest = number_of id (suc n) ds in
    if str_eq (text (get d "request_id")) id then ok n else rest

module _ (fl : Floats) where
  -- `_conserved(result[name], value, name, context)`
  unfoldable pub conserved_field : Fields → String → Value → Result (Unit {0})
  conserved_field r name value =
      if py_eq fl (get r name) value then ok tt else err (Error.about name "conservation mismatch")

  -- The body of the loop over the requests.
  unfoldable pub check_source : List Fields → List Fields → Request → Result (Unit {0})
  check_source workload ordered q = do
    source ← find_record q.request_id workload
    number ← number_of q.request_id 1 ordered
    workload_class ← get_item source "workload_class"
    arrival ← get_item source "arrival_time_us"
    prompt_count ← get_item source "prompt_token_count"
    max_new_tokens ← get_item source "max_new_tokens"
    conserved_field q.raw "internal_id" (int (pos number))
    conserved_field q.raw "workload_class" workload_class
    conserved_field q.raw "prefix_group" (get source "prefix_group")
    conserved_field q.raw "deadline_us" (get source "deadline_us")
    conserved_field q.raw "metadata" (get_or source "metadata" (obj end))
    conserved_field q.raw "prompt_tokens" (get source "prompt_tokens")
    conserved_field q.raw "arrival_time_us" arrival
    conserved_field q.raw "prompt_tokens_original" prompt_count
    conserved_field q.raw "max_new_tokens" max_new_tokens

  unfoldable pub check_envelope : List Request → List Fields → Result (Unit {0})
  check_envelope requests workload = do
    ids ← for_each id_of workload
    raise_if (not (distinct_texts ids)) "workload envelope contains duplicate external request IDs"
    raise_if
        (not (
          subset ids (map (λ q. q.request_id) requests)
          && subset (map (λ q. q.request_id) requests) ids))
        "workload/result external ID set conservation mismatch"
    let ordered = sorted submitted_before workload
    check_each (check_source workload ordered) requests
