-- ===== src/Analysis.antt =====
-- `analyze_records` of benchmarks/serving_common.py, on the records that the validator returned: the
-- queue sweep, the service-level objectives and the percentiles. The rates and ratios, which are
-- floating-point quotients of the numbers modelled here, are left out.
pub mod Queue
mod Examples
pub mod Score
use llm_inference_optimizati.Base.{
  ℕ, ◌+◌, ◌-◌, Bool, true, false, not, ◌&&◌, ◌||◌, Option, none, some, List, [], ◌∷◌, ℤ, pos,
  negsuc, ◌+ℤ◌, ◌*ℤ◌, ltb_ℤ, leb, ltb, ◌==◌, min, if◌then◌else◌,
}
use llm_inference_optimizati.Base.Sort.{sorted}
use llm_inference_optimizati.Value.{Value, int, float, Floats}
use llm_inference_optimizati.Metrics.{Times, request_metrics}
use llm_inference_optimizati.Native.Request.{Request, is_finished}

-- One entry of `queue_depth_events`: +1 where a request arrives, -1 where one is admitted.
pub record Event : Type 0 where
  pub time : ℕ
  pub arrives : Bool

-- The order of the key `(time, -delta)`: at one time the arrivals come first.
unfoldable pub event_le : Event → Event → Bool
event_le e f = ltb e.time f.time || (e.time == f.time && (e.arrives || not f.arrives))

-- An event of a time that is known, if it is in the window.
abbrev pub in_window : ℕ → Option ℕ → Bool → List Event → List Event
in_window window_end none arrives rest = rest
in_window window_end (some t) arrives rest =
    if leb t window_end then record { time = t; arrives = arrives } ∷ rest else rest

unfoldable pub queue_depth_events : ℕ → List Times → List Event
queue_depth_events window_end [] = []
queue_depth_events window_end (t ∷ ts) =
    in_window window_end (some t.arrival) true
      (in_window window_end t.admitted false (queue_depth_events window_end ts))

-- The variables of the sweep.
pub record Sweep : Type 0 where
  pub depth : ℤ
  pub maximum_depth : ℤ
  pub weighted_depth : ℤ
  pub previous : ℕ

abbrev pub delta : Event → ℤ
delta e = if e.arrives then pos 1 else negsuc 0

-- The body of the loop; `-` on natural numbers is `max(0, timestamp - previous)`.
unfoldable pub sweep_event : Sweep → Event → Sweep
sweep_event s e =
    let depth = s.depth +ℤ delta e in
    record {
      depth = depth;
      maximum_depth = if ltb_ℤ s.maximum_depth depth then depth else s.maximum_depth;
      weighted_depth = s.weighted_depth +ℤ s.depth *ℤ pos (e.time - s.previous);
      previous = e.time;
    }

unfoldable pub sweep : Sweep → List Event → Sweep
unfolding sweep_event
sweep s [] = s
sweep s (e ∷ es) = sweep (sweep_event s e) es

-- `min((r["arrival_time_us"] for r in enriched), default=0)`
unfoldable pub first_arrival : List Times → ℕ
first_arrival [] = 0
first_arrival (t ∷ []) = t.arrival
first_arrival (t ∷ u ∷ ts) = min t.arrival (first_arrival (u ∷ ts))

-- The weighted depth after the last line of the sweep.
unfoldable pub weighted_depth : ℕ → List Times → ℤ
unfolding sweep first_arrival queue_depth_events event_le
weighted_depth window_end ts =
    let start : Sweep = record {
      depth = pos 0;
      maximum_depth = pos 0;
      weighted_depth = pos 0;
      previous = first_arrival ts;
    } in
    let s = sweep start (sorted event_le (queue_depth_events window_end ts)) in
    s.weighted_depth +ℤ s.depth *ℤ pos (window_end - s.previous)

-- The thresholds of `slos`; a missing key is none.
pub record Objectives : Type 0 where
  pub ttft_slo_us : Option ℕ
  pub tpot_slo_us : Option ℕ
  pub e2e_slo_us : Option ℕ

pub record Goodput : Type 0 where
  pub good : ℕ
  pub ttft_violations : ℕ
  pub tpot_violations : ℕ
  pub e2e_violations : ℕ

abbrev pub one_if : Bool → ℕ
one_if true = 1
one_if false = 0

-- `[record for record in enriched if record["final_state"] == "Finished"]`
unfoldable pub finished_times : List Request → List Times
finished_times [] = []
finished_times (q ∷ qs) =
    let rest = finished_times qs in if is_finished q.state then q.times ∷ rest else rest

module _ (fl : Floats) where
  -- `value is not None and value > threshold`, for a threshold that is configured
  unfoldable pub violates : Option ℕ → Value → Bool
  violates none value = false
  violates (some threshold) (int n) = ltb_ℤ (pos threshold) n
  violates (some threshold) (float x) = fl.int_lt_float (pos threshold) x
  violates (some threshold) value = false

  -- The body of the loop over the finished requests.
  unfoldable pub score : Objectives → Goodput → Times → Goodput
  score slos g t =
      let m = request_metrics fl t in
      let ttft = violates slos.ttft_slo_us m.ttft_us in
      let tpot = violates slos.tpot_slo_us m.tpot_us in
      let e2e = violates slos.e2e_slo_us m.e2e_latency_us in
      record {
        good = g.good + one_if (not (ttft || (tpot || e2e)));
        ttft_violations = g.ttft_violations + one_if ttft;
        tpot_violations = g.tpot_violations + one_if tpot;
        e2e_violations = g.e2e_violations + one_if e2e;
      }

  unfoldable pub score_all : Objectives → Goodput → List Times → Goodput
  score_all slos g [] = g
  score_all slos g (t ∷ ts) = score_all slos (score slos g t) ts

  -- The loop, over the requests that have finished.
  unfoldable pub goodput : Objectives → List Request → Goodput
  unfolding score_all
  goodput slos requests =
      score_all slos
        (record { good = 0; ttft_violations = 0; tpot_violations = 0; e2e_violations = 0 })
        (finished_times requests)
