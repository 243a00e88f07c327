-- ===== src/Metrics.antt =====
-- `nearest_rank` and `request_metrics` of benchmarks/serving_common.py.
pub mod Rank
use llm_inference_optimizati.Base.{
  ℕ, zero, suc, ◌-◌, Bool, Option, none, some, List, sub_ℕ, length, get_elem?, ltb, max, min,
  if◌then◌else◌, ◌==◌, not, Result, ok, err, Error,
}
use llm_inference_optimizati.Base.Sort.{sorted}
use llm_inference_optimizati.Value.{Value, null, int, float, Floats}

-- What a request record says of its times, as its validator reads them.
pub record Times : Type 0 where
  pub arrival : ℕ
  pub admitted : Option ℕ
  pub first : Option ℕ
  pub finish : Option ℕ
  pub generated : ℕ

pub record RequestMetrics : Type 0 where
  pub queue_delay_us : Value
  pub ttft_us : Value
  pub e2e_latency_us : Value
  pub tpot_us : Value

-- `None if t is None else t - arrival`
abbrev since : Option ℕ → ℕ → Value
since none arrival = null
since (some t) arrival = int (sub_ℕ t arrival)

-- `(finish - first) / (generated - 1)`, where both are known and there is a gap
abbrev tpot : Floats → ℕ → Option ℕ → Option ℕ → Value
tpot fl generated (some first) (some finish) =
    if ltb generated 2 then null else float (fl.div (sub_ℕ finish first) (sub_ℕ generated 1))
tpot fl generated _ _ = null

module _ (fl : Floats) where
  unfoldable pub request_metrics : Times → RequestMetrics
  request_metrics t = record {
    queue_delay_us = since t.admitted t.arrival;
    ttft_us = if t.generated == 0 then null else since t.first t.arrival;
    e2e_latency_us = since t.finish t.arrival;
    tpot_us = tpot fl t.generated t.first t.finish;
  }

-- What `nearest_rank` does with a percentile, which is a float: the test `0 < percentile <= 1`, and
-- `math.ceil(percentile * n)` for one that passes it.
pub record Percentiles (P : Type 0) : Type 0 where
  pub in_range : P → Bool
  pub ceil_times : P → ℕ → ℕ

-- `max(1, min(n, rank))`
abbrev pub clamped : ℕ → ℕ → ℕ
clamped n rank = max 1 (min n rank)

-- `samples[rank - 1]`: the index -1, of the rank 0, is that of the last sample.
abbrev pub at_rank {ℓ} : {A : Type ℓ} → List A → ℕ → Option A
at_rank samples zero = get_elem? samples (length samples - 1)
at_rank samples (suc i) = get_elem? samples i

module _ {A P : Type 0} (le : A → A → Bool) (floats : Percentiles P) where
  unfoldable pub nearest_rank : List A → P → Result (Option A)
  nearest_rank values percentile =
      let samples = sorted le values in
      let n = length samples in
      if not (floats.in_range percentile)
      then err (Error.invalid "percentile must be in (0, 1]")
      else if n == 0
      then ok none
      else ok (at_rank samples (clamped n (floats.ceil_times percentile n)))
