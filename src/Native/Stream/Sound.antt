-- ===== src/Native/Stream/Sound.antt =====
-- What a result that `validate_native_records` accepts is.
use llm_inference_optimizati.Base.{
  ℕ, ◌≡◌, subst, ◌⊎◌, inl, inr, String, Bool, true, false, Option, List, [], ◌∷◌, map, contains,
  contains_id, ok, step, checked, required, ok-injective, Bool-cases,
}
use llm_inference_optimizati.Value.{Value, Fields, Floats}
use llm_inference_optimizati.Config.Spec.{Limits}
use llm_inference_optimizati.Native.Request.{Request, validate_requests}
use llm_inference_optimizati.Native.Request.Spec.{IsRequest, validate_request_sound}
use llm_inference_optimizati.Native.Iteration.{Iteration}
use llm_inference_optimizati.Native.Iteration.Spec.{Runs, validate_iterations_sound}
use llm_inference_optimizati.Native.Summary.Totals.{is_fcfs}
use llm_inference_optimizati.Native.Summary.Conservation.{
  Agrees, Reports, validate_summary-Agrees, validate_summary-Reports, validate_summary-fcfs,
}
use llm_inference_optimizati.Native.Stream.{read_limits, validate_native_records}

-- Requests that are each valid, and whose ids are new.
abbrev pub AreRequests : List String → List ℕ → List Request → Type 0
AreRequests external_ids native_ids [] = Unit
AreRequests external_ids native_ids (q ∷ qs) =
    IsRequest q
    × (contains external_ids q.request_id ≡ false)
    × (contains_id native_ids q.internal_id ≡ false)
    × AreRequests (q.request_id ∷ external_ids) (q.internal_id ∷ native_ids) qs

-- In FCFS mode there are no iterations; in continuous mode they agree with the requests.
abbrev pub ByMode : Fields → List Request → List Iteration → Type 0
ByMode s requests its =
    ((is_fcfs s ≡ true) × (its ≡ [])) ⊎ ((is_fcfs s ≡ false) × Agrees requests its)

-- A valid result.
pub record IsResult (limits : Option Limits) (requests : List Request) (its : List Iteration)
    (s : Fields) : Type 0 where
  pub requests_valid : AreRequests [] [] requests
  pub run : Runs limits (map (λ q. q.internal_id) requests) 0 0 its
  pub reports : Reports s requests its
  pub by_mode : ByMode s requests its

module _ (fl : Floats) where
  validate_requests_sound :
      (external_ids : List String) (native_ids : List ℕ) (rs : List Fields) {qs : List Request}
      → validate_requests fl rs external_ids native_ids ≡ ok qs
      → AreRequests external_ids native_ids qs
  unfolding validate_requests
  validate_requests_sound external_ids native_ids [] h =
      subst (AreRequests external_ids native_ids) (ok-injective h) tt
  validate_requests_sound external_ids native_ids (r ∷ rs) h = step _ _ h λ q valid h.
      step _ _ h λ rest later h.
        let (is_request, new_external, new_native) =
          validate_request_sound fl r external_ids native_ids valid in
        subst (AreRequests external_ids native_ids) (ok-injective h) (
          is_request,
          new_external,
          new_native,
          validate_requests_sound (q.request_id ∷ external_ids) (q.internal_id ∷ native_ids) rs
              later,
        )

  module _ (inside_root : String → Bool) where
    -- An accepted result is the requests, the iterations and the summary of its records. Each
    -- request is valid and their ids are distinct; the iterations are a run over these ids within
    -- the limits of the configuration; the summary reports them; and in FCFS mode there are no
    -- iterations, while in continuous mode they agree with the requests.
    pub validate_native_records_sound :
        (result : Value) (config : Option Fields) (workload : Option (List Fields))
        {requests : List Request} {its : List Iteration} {s : Fields}
        → validate_native_records fl inside_root result config workload ≡ ok (requests, its, s)
        → (limits : Option Limits) × (read_limits inside_root config ≡ ok limits)
          × IsResult limits requests its s
    unfolding validate_native_records
    validate_native_records_sound result config workload h = step _ _ h λ values is_list h.
        step _ _ h λ limits limits_ok h. step _ _ h λ records heads h. step _ _ h λ summary one h.
          required _ _ _ h λ terminal h. step _ _ h λ qs qs_ok h.
            step _ _ h λ iterations iterations_ok h. checked _ _ h λ summary_ok h.
              checked _ _ h λ envelope h.
                let by_mode : ByMode summary qs iterations = elim (Bool-cases (is_fcfs summary)) [
                  | inl fcfs ↦
                      inl (
                        fcfs,
                        validate_summary-fcfs fl limits summary qs iterations summary_ok fcfs,
                      )
                  | inr continuous ↦ inr (
                    continuous,
                    validate_summary-Agrees fl limits summary qs iterations summary_ok continuous,
                  )
                ] in
                (
                  limits,
                  limits_ok,
                  subst (λ x. IsResult limits x.0 x.1 x.2) (ok-injective h)
                      (record {
                        requests_valid = validate_requests_sound [] [] _ qs_ok;
                        run =
                            validate_iterations_sound fl limits (map (λ q. q.internal_id) qs) 0 0 _
                              iterations_ok;
                        reports =
                            validate_summary-Reports fl limits summary qs iterations summary_ok;
                        by_mode = by_mode;
                      }),
                )
