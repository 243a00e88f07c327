-- ===== src/Build/Verified.antt =====
-- What the exit code and the output of scripts/verify_llama_cpp_build.py say.
use Prim.Native.Char.{code}
use llm_inference_optimizati.Base.{
  ℕ, ◌≡◌, ◌↔◌, refl, ap, subst, String, true, false, none, some, List, [], ◌∷◌, pos, eqb_ℤ-eq, all,
  if◌then◌else◌, arith, Bool-cases, Option-cases, inl, inr, ◌⊎◌,
}
use llm_inference_optimizati.Build.{
  executables, VerificationResult, passed, Run, exited, expired, os_error, broken, Machine,
  run_result, verify_executable, verify_all, verify_build, finished, parse_args, main,
}

module _ {T : Type 0} (machine : Machine T) where
  -- An executable that is there and whose help ends with the code 0 in time.
  abbrev pub Starts : String → T → Type 0
  Starts path timeout =
      (machine.is_file path ≡ true)
      × (machine.is_executable path ≡ true)
      × ((stdout : String) × (stderr : String) × (machine.run path timeout
            ≡ exited stdout stderr (pos 0)))

  run_result-passed :
      (path : String) (timeout : T) (run : Run) (result : VerificationResult)
      → run_result machine path timeout run ≡ some result
      → (passed result ≡ true)
        ↔ ((stdout : String) × (stderr : String) × (run ≡ exited stdout stderr (pos 0)))
  unfolding run_result passed
  run_result-passed path timeout (exited stdout stderr code) result h =
      let same = ap (λ o. elim o [ none ↦ result | some r ↦ r ]) h in
      subst
        (λ r. (passed r ≡ true) ↔ (
          (out : String) × (err : String) × (exited stdout stderr code ≡ exited out err (pos 0))))
        same
        (
          λ e. (stdout, stderr, ap (exited stdout stderr) (eqb_ℤ-eq code (pos 0) e)),
          λ e. ground arith,
        )
  run_result-passed path timeout (expired stdout stderr) result h =
      let same = ap (λ o. elim o [ none ↦ result | some r ↦ r ]) h in
      (λ e. absurd (ground arith), λ e. absurd (ground arith))
  run_result-passed path timeout (os_error message) result h =
      (λ e. absurd (ground arith), λ e. absurd (ground arith))
  run_result-passed path timeout broken result h = absurd (cc)

  -- `verify_executable` passes just the executables that start.
  verify_executable-passed :
      (path : String) (timeout : T) (result : VerificationResult)
      → verify_executable machine path timeout ≡ some result
      → (passed result ≡ true) ↔ Starts path timeout
  unfolding verify_executable passed
  verify_executable-passed path timeout result h = elim (Bool-cases (machine.is_file path)) [
    | inr no_file ↦ (λ e. absurd (ground arith), λ e. absurd (ground arith))
    | inl file ↦ elim (Bool-cases (machine.is_executable path)) [
      | inr not_executable ↦ (λ e. absurd (ground arith), λ e. absurd (ground arith))
      | inl executable ↦
          let ran : run_result machine path timeout (machine.run path timeout) ≡ some result =
            ground arith in
          let run = run_result-passed path timeout (machine.run path timeout) result ran in
          (λ e. (file, executable, run.0 e), λ starts. run.1 starts.2)
    ]
  ]

  -- Every executable of a list starts.
  abbrev pub AllStart : String → T → List String → Type 0
  AllStart binary_dir timeout [] = Unit {0}
  AllStart binary_dir timeout (name ∷ names) =
      Starts (machine.join binary_dir name) timeout × AllStart binary_dir timeout names

  verify_all-passed :
      (binary_dir : String) (timeout : T) (names : List String) (results : List VerificationResult)
      → verify_all machine binary_dir timeout names ≡ some results
      → (all passed results ≡ true) ↔ AllStart binary_dir timeout names
  unfolding verify_all
  verify_all-passed binary_dir timeout [] [] h = (λ e. tt, λ e. refl)
  verify_all-passed binary_dir timeout [] (r ∷ rs) h = absurd (cc)
  verify_all-passed binary_dir timeout (name ∷ names) results h =
      let path = machine.join binary_dir name in
      elim (Option-cases (verify_executable machine path timeout)) [
        | inl failed ↦ absurd (ground arith)
        | inr (result, made) ↦ elim (Option-cases (verify_all machine binary_dir timeout names)) [
          | inl failed ↦ absurd (ground arith)
          | inr (later, rest) ↦
              let split : result ∷ later ≡ results = ground arith in
              let first = verify_executable-passed path timeout result made in
              let others = verify_all-passed binary_dir timeout names later rest in
              subst (λ l. (all passed l ≡ true) ↔ AllStart binary_dir timeout (name ∷ names)) split
                (
                  λ e. (first.0 (ground arith), others.0 (ground arith)),
                  λ starts.
                      let one : passed result ≡ true = first.1 starts.0 in
                      let more : all passed later ≡ true = others.1 starts.1 in ground arith,
                )
        ]
      ]

  -- Where no exception ends it, `main` exits with 0 if each of the three executables is there, may be
  -- executed and ends its help with 0 in time, and with 1 if not; and the timeout was positive.
  pub main-AllStart :
      (build_dir : String) (timeout : T) (printed : String) (code : ℕ)
      → main machine build_dir timeout ≡ finished printed code
      → ((code ≡ 0) ↔ AllStart (machine.join build_dir "bin") timeout executables)
        × ((code ≡ 0) ⊎ (code ≡ 1))
        × (machine.is_not_positive timeout ≡ false)
  unfolding main verify_build parse_args
  main-AllStart build_dir timeout printed code h =
      elim (Option-cases (verify_all machine (machine.join build_dir "bin") timeout executables)) [
        | inl failed ↦ absurd (ground arith)
        | inr (results, made) ↦
            let each =
              verify_all-passed (machine.join build_dir "bin") timeout executables results made in
            let same : code ≡ (if all passed results then 0 else 1) = ground arith in
            let positive : machine.is_not_positive timeout ≡ false = ground arith in
            (
              (λ zero. each.0 (ground arith), λ starts. let passes = each.1 starts in ground arith),
              ground arith,
              positive,
            )
      ]
