-- ===== src/Workload/Generate.antt =====
-- `_shared_tokens` and `generate_records` of benchmarks/serving_common.py.
pub mod Prefixes
pub mod Accepted
pub mod Workloads
use Prim.Native.Nat.{bit_xor}
use Prim.Native.String.{◌++◌ as append}
use llm_inference_optimizati.Base.{
  ℕ, zero, suc, ◌+◌, ◌*◌, ◌%◌, String, false, not, ◌==◌, List, [], ◌∷◌, ◌++◌, map, pos, Result, ok,
  ◌>>=◌, ◌>>◌, raise_if, contains, length, str_eq, if◌then◌else◌,
}
use llm_inference_optimizati.Value.{
  Value, null, int, str, arr, obj, end, field, Fields, get, keys, subset, array, is_str, set_item,
}
use llm_inference_optimizati.Value.Checks.{require_nat, require_str}
use llm_inference_optimizati.Workload.{
  workload_schema_version, manifest_schema_version, workload_classes,
}
use llm_inference_optimizati.Workload.Decimal.{padded}
use llm_inference_optimizati.Workload.Random.{Rng}
use llm_inference_optimizati.Workload.Arrivals.{arrival_times}
use llm_inference_optimizati.Workload.Record.{validate_workload_record}

-- `length` numbers from `first` on
unfoldable pub numbers_from : ℕ → ℕ → List ℕ
numbers_from first zero = []
numbers_from first (suc n) = first ∷ numbers_from (first + 1) n

unfoldable pub shared_tokens : ℕ → ℕ → ℕ → List ℕ
unfolding numbers_from
shared_tokens group n base = numbers_from (base + group * 10000) n

-- The prompt of a `shared_system_prompt` request.
unfoldable pub shared_system_tokens : ℕ → List ℕ
shared_system_tokens index = shared_tokens 0 64 10000 ++ shared_tokens index (8 + index % 5) 20000

-- The prompt of a `coding_agent` request.
unfoldable pub coding_agent_tokens : ℕ → List ℕ
coding_agent_tokens index =
    shared_tokens (index % 2) 128 30000 ++ shared_tokens index (24 + index % 17) 50000

-- The prompt of the coding requests of a `mixed` workload.
unfoldable pub mixed_coding_tokens : ℕ → List ℕ
mixed_coding_tokens index = shared_tokens 0 96 70000 ++ shared_tokens index (16 + index % 9) 80000

abbrev pub nat : ℕ → Value
nat n = int (pos n)

abbrev pub tokens_value : List ℕ → Value
tokens_value tokens = arr (array (map nat tokens))

-- What a request's `record.update(…)` sets, in order.
abbrev pub plain : ℕ → ℕ → List (String × Value)
plain prompt new_tokens =
    ("prompt_token_count", nat prompt) ∷ ("max_new_tokens", nat new_tokens) ∷ []

abbrev pub with_tokens : List ℕ → ℕ → String → List (String × Value)
with_tokens tokens new_tokens group =
    ("prompt_token_count", nat (length tokens))
    ∷ ("prompt_tokens", tokens_value tokens)
    ∷ ("max_new_tokens", nat new_tokens)
    ∷ ("prefix_group", str group)
    ∷ []

unfoldable pub mixed_updates : ℕ → List (String × Value)
mixed_updates index =
    let kind = index % 4 in
    if kind == 0
    then plain (16 + index % 48) (16 + index % 24)
    else if kind == 1
    then plain (192 + index % 65) (12 + index % 12)
    else if kind == 2
    then with_tokens (mixed_coding_tokens index) (48 + index % 49) "mixed-coding"
    else plain (24 + index % 40) (80 + index % 49)

-- `f"coding-tools-{group}"`, where the group is 0 or 1
abbrev pub coding_group : ℕ → String
coding_group zero = "coding-tools-0"
coding_group (suc _) = "coding-tools-1"

-- The branches that draw no random numbers.
unfoldable pub fixed_updates : String → ℕ → List (String × Value)
unfolding mixed_updates
fixed_updates workload_class index =
    if str_eq workload_class "shared_system_prompt"
    then with_tokens (shared_system_tokens index) (16 + index % 17) "shared-system-v1"
    else if str_eq workload_class "coding_agent"
    then with_tokens (coding_agent_tokens index) (64 + index % 65) (coding_group (index % 2))
    else if str_eq workload_class "burst"
    then plain (16 + (index % 4) * 8) (8 + index % 8)
    else if str_eq workload_class "overload"
    then plain (48 + index % 33) (48 + index % 49)
    else mixed_updates index

-- `d.update(…)`
unfoldable pub update : Fields → List (String × Value) → Fields
unfolding set_item
update d [] = d
update d ((k, v) ∷ rest) = update (set_item d k v) rest

unfoldable pub request_id : String → ℕ → String
request_id workload_class index = append workload_class (append "-" (padded index))

unfoldable pub base_record : String → ℕ → ℕ → Fields
base_record workload_class index arrival = field "schema_version" (str workload_schema_version) (
    field "request_id" (str (request_id workload_class index)) (
      field "arrival_time_us" (nat arrival) (
        field "prompt_token_count" (nat 0)
          (field "max_new_tokens" (nat 0) (field "workload_class" (str workload_class) end)))))

abbrev pub generator_fields : List String
generator_fields = "schema_version" ∷ "workload_class" ∷ "request_count" ∷ "seed" ∷ "arrival" ∷ []

unfoldable pub manifest_of : Fields → String → ℕ → ℕ → Fields
manifest_of config workload_class count seed =
    field "schema_version" (str manifest_schema_version) (
      field "workload_schema_version" (str workload_schema_version) (
        field "workload_class" (str workload_class) (
          field "request_count" (nat count) (
            field "seed" (nat seed) (
              field "generator_config" (obj config) (
                field "generator" (str "benchmarks/generate_serving_workload.py")
                  (field "timestamp" null end)))))))

module _ {S : Type 0} (rng : Rng S) where
  unfoldable pub updates : String → ℕ → S → List (String × Value) × S
  updates workload_class index s =
      if str_eq workload_class "chat"
      then (let (prompt, s') = rng.randint 12 80 s in
          let (new_tokens, s'') = rng.randint 16 64 s' in (plain prompt new_tokens, s''))
      else (fixed_updates workload_class index, s)

  -- The loop over `enumerate(arrivals)`.
  unfoldable pub records_from : String → ℕ → List ℕ → S → Result (List Fields)
  records_from workload_class index [] s = ok []
  records_from workload_class index (arrival ∷ arrivals) s =
      let (changes, s') = updates workload_class index s in
      do
        record' ←
            validate_workload_record
              (obj (update (base_record workload_class index arrival) changes)) (index + 1)
        rest ← records_from workload_class (index + 1) arrivals s'
        ok (record' ∷ rest)

  unfoldable pub generate_records : Fields → Result (List Fields × Fields)
  generate_records config = do
    raise_if (not (subset (keys config) generator_fields)) "unknown generator fields"
    raise_if (not (is_str (get config "schema_version") workload_schema_version))
        "schema_version must be the workload schema"
    workload_class ← require_str false (get config "workload_class") "workload_class"
    raise_if (not (contains workload_classes workload_class)) "unknown workload_class"
    count ← require_nat 0 (get config "request_count") "request_count"
    seed ← require_nat 0 (get config "seed") "seed"
    arrivals ← arrival_times rng config count (nat seed)
    s ← rng.seeded (nat (bit_xor seed 0x5EEDC0DE))
    records ← records_from workload_class 0 arrivals s
    ok (records, manifest_of config workload_class count seed)
