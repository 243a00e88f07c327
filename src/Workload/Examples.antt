-- ===== src/Workload/Examples.antt =====
-- Tests of the workload modules at concrete inputs, and the theorems at inputs that meet their
-- hypotheses.
use llm_inference_optimizati.Base.{
  ℕ, ◌≡◌, ◌↔◌, refl, String, Option, some, List, [], ◌∷◌, map, length, arith, ok, err, Error, ◌>>=◌,
  check_each,
}
use llm_inference_optimizati.Value.{
  Value, str, arr, obj, field, end, cons, nil, Fields, lookup, get, get_item, set_item, get_or,
}
use llm_inference_optimizati.Value.Checks.{require_nat, require_str, as_obj}
use llm_inference_optimizati.Workload.Decimal.{padded}
use llm_inference_optimizati.Workload.Random.{Rng, IsLawful}
use llm_inference_optimizati.Workload.Arrivals.{arrival_times, timed_by_mode, fixed_times}
use llm_inference_optimizati.Workload.Arrivals.Order.{IsSchedule, arrival_times-IsSchedule}
use llm_inference_optimizati.Workload.Record.{validate_workload_record, check_tokens, check_token}
use llm_inference_optimizati.Workload.Record.Spec.{IsRecord, validate_workload_record_iff}
use llm_inference_optimizati.Workload.Generate.{
  nat, request_id, shared_system_tokens, coding_agent_tokens, generate_records, manifest_of,
}
use llm_inference_optimizati.Workload.Generate.Prefixes.{
  common_prefix, shared_system_prefix, coding_agent_prefix,
}
use llm_inference_optimizati.Workload.Generate.Workloads.{Made, generate_records_total}
use llm_inference_optimizati.Text.Lines.{splitlines, has_break}
use llm_inference_optimizati.Workload.Reader.{
  read_workload, write_workload, is_blank, id_of, read_from,
}
use llm_inference_optimizati.Workload.Reader.Laws.{Distinct, ReadsBack, read_workload_sound}
use llm_inference_optimizati.Workload.Reader.RoundTrip.{
  request_id-injective, read_workload-generated,
}

abbrev sample : Fields
sample = field "schema_version" (str "serving-workload-v1") (
    field "request_id" (str "chat-0000") (
      field "arrival_time_us" (nat 10) (
        field "prompt_token_count" (nat 2) (
          field "prompt_tokens" (arr (cons (nat 7) (cons (nat 8) nil)))
            (field "max_new_tokens" (nat 16) (field "workload_class" (str "chat") end))))))

sample_accepted : validate_workload_record (obj sample) 3 ≡ ok sample
unfolding validate_workload_record require_str require_nat as_obj check_tokens check_token get
    lookup ◌>>=◌ check_each
sample_accepted = refl

-- One token fewer than the record says.
short_rejected :
    validate_workload_record (obj (set_item sample "prompt_token_count" (nat 3))) 3
    ≡ err (Error.in_line 3 (Error.invalid "prompt_token_count must equal len(prompt_tokens)"))
unfolding validate_workload_record require_str require_nat as_obj check_tokens check_token get
    lookup set_item ◌>>=◌ check_each
short_rejected = refl

validate_workload_record_iff_example :
    (validate_workload_record (obj sample) 3 ≡ ok sample)
    ↔ ((obj sample ≡ obj sample) × IsRecord sample)
validate_workload_record_iff_example = validate_workload_record_iff (obj sample) 3 sample

-- A generator that draws the lowest number.
abbrev lowest : Rng ℕ
lowest = record {
  seeded = λ v. ok 0;
  randint = λ low high s. (low, s);
  random = λ s. (0, s);
  floor_exponential = λ mean u. mean;
}

lowest-IsLawful : IsLawful lowest
lowest-IsLawful = record { from_int = λ n. (0, refl); in_range = λ low high s h. (omega arith, h) }

abbrev fixed_arrival : Fields
fixed_arrival = field "mode" (str "fixed_interval") (field "interval_us" (nat 100) end)

abbrev small : Fields
small = field "schema_version" (str "serving-workload-v1") (
    field "workload_class" (str "burst") (
      field "request_count" (nat 2)
        (field "seed" (nat 5) (field "arrival" (obj fixed_arrival) end))))

small_times : arrival_times lowest small 2 (nat 5) ≡ ok (0 ∷ 100 ∷ [])
unfolding arrival_times timed_by_mode fixed_times require_str require_nat as_obj get get_or lookup
    ◌>>=◌ check_each
small_times = refl

arrival_times-IsSchedule_example : IsSchedule 2 (0 ∷ 100 ∷ [])
arrival_times-IsSchedule_example = arrival_times-IsSchedule lowest small 2 (nat 5) small_times

generate_records_total_example :
    (rs : List Fields) × (generate_records lowest small ≡ ok (rs, manifest_of small "burst" 2 5))
    × Made "burst" 0 (0 ∷ 100 ∷ []) rs
    × (length rs ≡ 2)
unfolding get lookup
generate_records_total_example =
    generate_records_total lowest "burst" refl small 2 5 (0 ∷ 100 ∷ []) lowest-IsLawful refl refl
      refl refl refl small_times (omega arith)

shared_system_prefix_example : common_prefix (shared_system_tokens 1) (shared_system_tokens 3) ≡ 64
shared_system_prefix_example = shared_system_prefix 1 3 (omega arith)

coding_agent_prefix_example : common_prefix (coding_agent_tokens 1) (coding_agent_tokens 4) ≡ 0
coding_agent_prefix_example = coding_agent_prefix 1 4 (omega arith)

request_id-injective_example : ◌≡◌ {A = ℕ} 7 7
request_id-injective_example = request_id-injective "chat" 7 7 refl

abbrev loads : String → Option Value
loads s = some (obj sample)

abbrev dumps : Fields → String
dumps d = "{}"

sample_read : read_workload loads "{}\n" ≡ ok (sample ∷ [])
unfolding read_workload splitlines read_from id_of get_item validate_workload_record require_str
    require_nat as_obj check_tokens check_token get lookup is_blank ◌>>=◌ check_each
sample_read = refl

read_workload_sound_example :
    Distinct [] (sample ∷ []) × (length (sample ∷ []) ≡ length (splitlines "{}\n"))
read_workload_sound_example = read_workload_sound loads "{}\n" sample_read

sample-ReadsBack : ReadsBack loads dumps (λ d. d) sample
unfolding is_blank has_break
sample-ReadsBack = record {
  not_blank = refl;
  one_line = refl;
  reads = refl;
  same_lookup = λ k. refl;
  same_keys = λ names. refl;
}

-- A line separator in a record's text cuts the record in two.
separator_cuts : splitlines "{\"name\":\"a\u{2028}b\"}\n" ≡ "{\"name\":\"a" ∷ "b\"}" ∷ []
unfolding splitlines
separator_cuts = refl

sample-Made : Made "chat" 0 (10 ∷ []) (sample ∷ [])
unfolding get lookup request_id padded
sample-Made =
    (refl, refl, ((validate_workload_record_iff (obj sample) 3 sample).0 sample_accepted).1, tt)

read_workload-generated_example :
    read_workload loads (write_workload dumps (sample ∷ [])) ≡ ok (map (λ d. d) (sample ∷ []))
read_workload-generated_example =
    read_workload-generated loads dumps (λ d. d) "chat" (10 ∷ []) (sample ∷ [])
      (sample-ReadsBack, tt) sample-Made
