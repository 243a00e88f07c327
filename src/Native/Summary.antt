-- ===== src/Native/Summary.antt =====
-- The summary pass of `validate_native_records`, on the requests and the iterations that its two
-- loops have accepted.
pub mod Totals
pub mod Continuous
pub mod Conservation
use llm_inference_optimizati.Base.{Option, List, Result, ◌>>=◌, ◌>>◌, if◌then◌else◌}
use llm_inference_optimizati.Value.{Fields, Floats}
use llm_inference_optimizati.Config.Spec.{Limits}
use llm_inference_optimizati.Native.Request.{Request}
use llm_inference_optimizati.Native.Iteration.{Iteration}
use llm_inference_optimizati.Native.Summary.Totals.{
  is_fcfs, check_header, check_fields, check_status, check_totals,
}
use llm_inference_optimizati.Native.Summary.Continuous.{check_fcfs, check_continuous}

module _ (fl : Floats) where
  unfoldable pub validate_summary :
      Option Limits → Fields → List Request → List Iteration → Result (Unit {0})
  validate_summary limits s requests its = do
    check_header limits s
    check_fields fl s
    check_status s requests
    check_totals fl s requests its
    if is_fcfs s then check_fcfs fl s requests its else check_continuous fl limits s requests its
