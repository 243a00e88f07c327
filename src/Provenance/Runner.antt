-- ===== src/Provenance/Runner.antt =====
-- The runner provenance that several result files share.
use llm_inference_optimizati.Base.{
  ◌≡◌, refl, subst, ap, ◌∙◌, ◌<◌, ◌↔◌, String, true, some, List, [], ◌∷◌, arith, All, length,
  str_eq_iff, ok, ◌>>=◌, step, required, ok-injective,
}
use llm_inference_optimizati.Value.{Value}
use llm_inference_optimizati.Provenance.{
  PosixPaths, validate_benchmark_runner, same_pair, consistent_from,
  validate_benchmark_runner_consistency,
}

same_pair-eq : (p q : String × String) → same_pair p q ≡ true → p ≡ q
same_pair-eq (a, b) (c, d) h = ground (arith, str_eq_iff a c, str_eq_iff b d)

same_pair_self : (p : String × String) → same_pair p p ≡ true
same_pair_self (a, b) = ground (arith, str_eq_iff a a, str_eq_iff b b)

module _ (paths : PosixPaths) where
  -- The files that all record the pair `e`.
  abbrev pub AllRecord : String × String → List Value → Type 0
  AllRecord e = All (λ v. validate_benchmark_runner paths v ≡ ok e)

  rest_sound :
      (expected : String × String) (vs : List Value) {e : String × String}
      → consistent_from paths (some expected) vs ≡ ok e
      → (expected ≡ e) × AllRecord expected vs
  unfolding consistent_from
  rest_sound expected [] h = (ok-injective h, tt)
  rest_sound expected (v ∷ vs) h = step _ _ h λ actual valid h. required _ _ _ h λ same h.
      let (e, later) = rest_sound expected vs h in
      (e, (valid ∙ ap ok (same_pair-eq actual expected same), later))

  rest_complete :
      (e : String × String) (vs : List Value)
      → AllRecord e vs
      → consistent_from paths (some e) vs ≡ ok e
  unfolding consistent_from ◌>>=◌
  rest_complete e [] h = refl
  rest_complete e (v ∷ vs) h = rw (h.0, same_pair_self e) (rest_complete e vs h.1)

  -- The consistency check returns a pair exactly when there is at least one file and every file
  -- records that pair as valid runner provenance.
  pub validate_benchmark_runner_consistency_iff :
      (values : List Value) (e : String × String)
      → (validate_benchmark_runner_consistency paths values ≡ ok e)
        ↔ ((0 < length values) × AllRecord e values)
  unfolding validate_benchmark_runner_consistency consistent_from ◌>>=◌
  validate_benchmark_runner_consistency_iff [] e =
      (λ h. absurd (cc), λ h. absurd (omega (arith, h.0)))
  validate_benchmark_runner_consistency_iff (v ∷ vs) e = (
    λ h. step _ _ h λ actual valid h.
        let (same, later) = rest_sound actual vs h in
        (omega arith, (valid ∙ ap ok same, subst (λ p. AllRecord p vs) same later)),
    λ h. rw h.1.0 (rest_complete e vs h.1.1),
  )
