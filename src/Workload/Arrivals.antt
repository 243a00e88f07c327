-- ===== src/Workload/Arrivals.antt =====
-- `_arrival_times` of benchmarks/serving_common.py.
pub mod Order
use llm_inference_optimizati.Base.{
  ℕ, zero, suc, ◌+◌, ◌*◌, String, false, not, ◌==◌, List, [], ◌∷◌, pos, Result, ok, ◌>>=◌, ◌>>◌,
  raise_if, for_each, contains, length, replicate, is_sorted, str_eq, if◌then◌else◌,
}
use llm_inference_optimizati.Value.{Value, int, obj, end, Fields, get, get_or}
use llm_inference_optimizati.Value.Checks.{require_nat, require_str, as_obj, as_arr}
use llm_inference_optimizati.Workload.{arrival_models}
use llm_inference_optimizati.Workload.Random.{Rng}

-- `[start + index * interval for index in range(count)]`, from an index on
unfoldable pub fixed_times : ℕ → ℕ → ℕ → ℕ → List ℕ
fixed_times start interval index zero = []
fixed_times start interval index (suc n) =
    (start + index * interval) ∷ fixed_times start interval (index + 1) n

-- The body of the `manual` branch.
unfoldable pub manual_times : Fields → ℕ → Result (List ℕ)
manual_times arrival count = do
  times ←
      as_arr (get arrival "timestamps_us") "arrival.timestamps_us must have request_count entries"
  raise_if (not (length times == count)) "arrival.timestamps_us must have request_count entries"
  checked_times ← for_each (λ v. require_nat 0 v "arrival.timestamps_us[]") times
  raise_if (not (is_sorted checked_times)) "manual arrival timestamps must be non-decreasing"
  ok checked_times

module _ {S : Type 0} (rng : Rng S) where
  -- The loop of the `exponential` branch: no sample is drawn before the first arrival.
  unfoldable pub later_times : ℕ → ℕ → S → ℕ → List ℕ
  later_times mean current s zero = []
  later_times mean current s (suc n) =
      let (u, s') = rng.random s in
      let next = current + rng.floor_exponential mean u in next ∷ later_times mean next s' n

  unfoldable pub exponential_times : ℕ → ℕ → S → ℕ → List ℕ
  unfolding later_times
  exponential_times mean start s zero = []
  exponential_times mean start s (suc n) = start ∷ later_times mean start s n

  unfoldable pub timed_by_mode : String → Fields → ℕ → ℕ → Value → Result (List ℕ)
  timed_by_mode mode arrival start count seed =
      if str_eq mode "burst"
      then ok (replicate count start)
      else if str_eq mode "fixed_interval"
      then (do
        interval ← require_nat 1 (get arrival "interval_us") "arrival.interval_us"
        ok (fixed_times start interval 0 count))
      else if str_eq mode "manual"
      then manual_times arrival count
      else (do
        mean ← require_nat 1 (get arrival "mean_interval_us") "arrival.mean_interval_us"
        s ← rng.seeded seed
        ok (exponential_times mean start s count))

  unfoldable pub arrival_times : Fields → ℕ → Value → Result (List ℕ)
  arrival_times config count seed = do
    arrival ← as_obj (get_or config "arrival" (obj end)) "arrival must be an object"
    mode ← require_str false (get arrival "mode") "arrival.mode"
    raise_if (not (contains arrival_models mode)) "arrival.mode must be one of the arrival models"
    start ← require_nat 0 (get_or arrival "start_time_us" (int (pos 0))) "arrival.start_time_us"
    timed_by_mode mode arrival start count seed
