-- ===== src/Workload/Generate/Workloads.antt =====
-- What `generate_records` returns, and when it does.
use Prim.Native.Nat.{bit_xor}
use llm_inference_optimizati.Base.{
  ℕ, suc, ◌+◌, ◌≤◌, ◌≡◌, refl, ap, String, true, List, [], ◌∷◌, arith, length, contains, ok, ◌>>=◌,
  ◌∙◌,
}
use llm_inference_optimizati.Value.{str, obj, Fields, get, keys, subset}
use llm_inference_optimizati.Value.Checks.{require_nat_of, require_str_of, is_str_of}
use llm_inference_optimizati.Workload.{workload_classes, workload_schema_version}
use llm_inference_optimizati.Workload.Random.{Rng, IsLawful}
use llm_inference_optimizati.Workload.Arrivals.{arrival_times}
use llm_inference_optimizati.Workload.Arrivals.Order.{arrival_times-IsSchedule}
use llm_inference_optimizati.Workload.Record.Spec.{IsRecord, validate_workload_record_iff, class-ne}
use llm_inference_optimizati.Workload.Generate.{
  nat, update, updates, base_record, request_id, records_from, generator_fields, manifest_of,
  generate_records,
}
use llm_inference_optimizati.Workload.Generate.Accepted.{max_index, updates-IsAccepted}

-- One record for each arrival, in order: a workload record with the id of its index and its
-- arrival time.
abbrev pub Made : String → ℕ → List ℕ → List Fields → Type 0
Made c index [] [] = Unit
Made c index (t ∷ ts) (r ∷ rs) =
    (get r "request_id" ≡ str (request_id c index))
    × (get r "arrival_time_us" ≡ nat t)
    × IsRecord r
    × Made c (index + 1) ts rs
Made c index _ _ = ⊥

pub length-Made :
    (c : String) (index : ℕ) (ts : List ℕ) (rs : List Fields)
    → Made c index ts rs
    → length rs ≡ length ts
length-Made c index [] [] h = refl
length-Made c index (t ∷ ts) (r ∷ rs) h = ap suc (length-Made c (index + 1) ts rs h.3)
length-Made c index [] (r ∷ rs) h = absurd h
length-Made c index (t ∷ ts) [] h = absurd h

module _ {S : Type 0} (rng : Rng S) (c : String) (known : contains workload_classes c ≡ true) where
  records_from_total :
      (index : ℕ) (ts : List ℕ) (s : S)
      → index + length ts ≤ max_index + 1
      → (rs : List Fields) × (records_from rng c index ts s ≡ ok rs) × Made c index ts rs
  unfolding records_from ◌>>=◌
  records_from_total index [] s h = ([], refl, tt)
  records_from_total index (t ∷ ts) s h =
      let d = update (base_record c index t) (updates rng c index s).0 in
      let (valid, id, arrival) =
        updates-IsAccepted c known index t (index + 1) rng s (omega arith) in
      let (rs, made, each) =
        records_from_total (index + 1) ts (updates rng c index s).1 (omega arith) in
      (
        d ∷ rs,
        rw (valid, made),
        (id, arrival, ((validate_workload_record_iff (obj d) (index + 1) d).0 valid).1, each),
      )

  -- Where the random generator keeps its documented ranges, generation succeeds on a configuration
  -- with known keys, the workload schema, a known class, a count of at most 214741 requests, a seed
  -- and arrival times that `_arrival_times` accepts. It returns the manifest of the configuration and
  -- one valid record for each arrival time, in order, under the id of its index.
  pub generate_records_total :
      (config : Fields) (count seed : ℕ) (ts : List ℕ)
      → IsLawful rng
      → subset (keys config) generator_fields ≡ true
      → get config "schema_version" ≡ str workload_schema_version
      → get config "workload_class" ≡ str c
      → get config "request_count" ≡ nat count
      → get config "seed" ≡ nat seed
      → arrival_times rng config count (nat seed) ≡ ok ts
      → count ≤ max_index + 1
      → (rs : List Fields) × (generate_records rng config
          ≡ ok (rs, manifest_of config c count seed))
        × Made c 0 ts rs
        × (length rs ≡ count)
  unfolding generate_records ◌>>=◌
  generate_records_total config count seed ts lawful fields schema class counted seeded timed few =
      let schedule = arrival_times-IsSchedule rng config count (nat seed) timed in
      let (s, start) = lawful.from_int (bit_xor seed 0x5EEDC0DE) in
      let (rs, made, each) = records_from_total 0 ts s (omega (arith, schedule.one_each)) in
      (
        rs,
        ground (
          arith,
          is_str_of _ _ schema,
          require_str_of _ "workload_class" class (class-ne c known),
          require_nat_of 0 _ "request_count" counted (omega arith),
          require_nat_of 0 _ "seed" seeded (omega arith),
          made,
        ),
        each,
        length-Made c 0 ts rs each ∙ schedule.one_each,
      )
