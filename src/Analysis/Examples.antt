-- ===== src/Analysis/Examples.antt =====
-- The analysis of three requests.
use mathlib.Core.List.{Mem}
use native.Mathlib.Nat.{mul-le-mul_right}
use llm_inference_optimizati.Base.{
  ℕ, ◌+◌, ◌≤◌, ◌≡◌, refl, ◌⊎◌, true, none, some, List, [], ◌∷◌, pos, leb, length, count_if, arith,
  false, ◌&&◌, ltb, ◌*◌, ◌/◌, ◌<◌, Error, ok, err,
}
use llm_inference_optimizati.Base.Sort.{sorted}
use llm_inference_optimizati.Value.{end}
use llm_inference_optimizati.Native.Request.{Request, finished}
use llm_inference_optimizati.Metrics.{Times, Percentiles, nearest_rank, request_metrics}
use llm_inference_optimizati.Metrics.Rank.{IsMonotone, nearest_rank_total, nearest_rank_mono}
use llm_inference_optimizati.Native.Examples.{whole}
use llm_inference_optimizati.Analysis.{
  weighted_depth, Objectives, goodput, score, score_all, finished_times, violates,
}
use llm_inference_optimizati.Analysis.Queue.{waited, weighted_depth-eq-waited}
use llm_inference_optimizati.Analysis.Score.{is_done, goodput_bounds}

abbrev three : List Times
three =
    record { arrival = 0; admitted = some 5; first = some 6; finish = some 20; generated = 3 }
    ∷ record { arrival = 3; admitted = some 9; first = some 9; finish = some 12; generated = 2 }
    ∷ record { arrival = 4; admitted = none; first = none; finish = none; generated = 0 }
    ∷ []

weighted_depth-eq-waited_example : weighted_depth 10 three ≡ pos 17
unfolding waited
weighted_depth-eq-waited_example =
    weighted_depth-eq-waited 10 three
      (λ a h. ground arith, (λ a h. ground arith, (λ a h. ground arith, tt)))

abbrev objectives : Objectives
objectives = record { ttft_slo_us = some 14; tpot_slo_us = some 30; e2e_slo_us = none }

abbrev finished_request : Request
finished_request = record {
  internal_id = 1;
  request_id = "chat-0000";
  counts = record {
    original = 4;
    matched = 1;
    scheduled = 3;
    max_new_tokens = 2;
    times = record {
      arrival = 5;
      admitted = some 10;
      first = some 20;
      finish = some 50;
      generated = 2;
    };
  };
  state = finished;
  reason = none;
  decode_times = 20 ∷ 50 ∷ [];
  gaps = 30 ∷ [];
  raw = end;
}

-- The first token is late.
late_first_token :
    goodput whole objectives (finished_request ∷ [])
    ≡ record { good = 0; ttft_violations = 1; tpot_violations = 0; e2e_violations = 0 }
unfolding goodput score_all score finished_times violates request_metrics
late_first_token = refl

goodput_bounds_example :
    let g = goodput whole objectives (finished_request ∷ []) in
    let n = count_if is_done (finished_request ∷ []) in
    (g.good ≡ 0)
    × (g.ttft_violations ≡ 1)
    × (g.tpot_violations ≡ 0)
    × (g.e2e_violations ≡ 0)
    × (g.good + g.ttft_violations ≤ n)
    × (g.good + g.tpot_violations ≤ n)
    × (g.good + g.e2e_violations ≤ n)
    × (n ≤ g.good + g.ttft_violations + g.tpot_violations + g.e2e_violations)
goodput_bounds_example = goodput_bounds whole objectives (finished_request ∷ [])

-- Percentiles in percent, with the ceiling of p * n / 100.
abbrev percents : Percentiles ℕ
percents = record { in_range = λ p. ltb 0 p && leb p 100; ceil_times = λ p n. (p * n + 99) / 100 }

percents-IsMonotone : IsMonotone percents leb
percents-IsMonotone p q n h k l =
    let below : p ≤ q = ground arith in
    let times : p * n ≤ q * n = mul-le-mul_right n below in omega arith

abbrev samples : List ℕ
samples = 40 ∷ 10 ∷ 30 ∷ 20 ∷ []

median : nearest_rank leb percents samples 50 ≡ ok (some 20)
unfolding nearest_rank sorted
median = refl

p95 : nearest_rank leb percents samples 95 ≡ ok (some 40)
unfolding nearest_rank sorted
p95 = refl

out_of_range :
    nearest_rank leb percents (1 ∷ []) 0 ≡ err (Error.invalid "percentile must be in (0, 1]")
unfolding nearest_rank
out_of_range = refl

nearest_rank_total_example :
    ((true ≡ false)
      × (nearest_rank leb percents samples 95 ≡ err (Error.invalid "percentile must be in (0, 1]")))
    ⊎ ((true ≡ true)
        × (((length samples ≡ 0) × (nearest_rank leb percents samples 95 ≡ ok none))
            ⊎ ((a : ℕ) × (nearest_rank leb percents samples 95 ≡ ok (some a))
                × Mem a samples
                × (4 ≤ count_if (λ x. leb x a) samples)
                × (4 < count_if (leb a) samples + 4))))
nearest_rank_total_example =
    nearest_rank_total leb (λ x y h. ground arith) (λ x y z h k. ground arith) percents samples 95

nearest_rank_mono_example : (◌≡◌ {A = ℕ} 20 40) ⊎ (leb 20 40 ≡ true)
nearest_rank_mono_example =
    nearest_rank_mono leb (λ x y h. ground arith) (λ x y z h k. ground arith) percents leb samples
      50 95 percents-IsMonotone refl median p95
