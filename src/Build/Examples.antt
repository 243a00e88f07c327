-- ===== src/Build/Examples.antt =====
-- A build of which one executable does not start.
use llm_inference_optimizati.Base.{
  ℕ, ◌≡◌, ◌↔◌, ◌⊎◌, refl, String, true, false, ◌==◌, [], pos, str_eq, if◌then◌else◌,
}
use Prim.Native.String.{◌++◌}
use llm_inference_optimizati.Build.{
  executables, exited, expired, nothing, raw, Machine, Exit, finished, main, parse_args,
  verify_build, verify_all, verify_executable, run_result, passed, text,
}
use llm_inference_optimizati.Build.Verified.{AllStart, main-AllStart}

-- Two executables print their help, and the third does not end.
abbrev machine : Machine ℕ
machine = record {
  is_file = λ path. true;
  is_executable = λ path. true;
  run = λ path timeout.
      if str_eq path "build/bin/llama-server"
      then expired nothing (raw [])
      else exited "usage" "" (pos 0);
  decode = λ bytes. "";
  join = λ path name. path ++ ("/" ++ name);
  path_name = λ path. path;
  is_not_positive = λ timeout. timeout == 0;
  seconds = λ timeout. "10";
}

abbrev printed : Exit → String
printed (finished text code) = text
printed _ = ""

-- The exit code of a build that does not pass.
abbrev failure : ℕ
failure = 1

main_finishes : main machine "build" 10 ≡ finished (printed (main machine "build" 10)) failure
unfolding main parse_args verify_build verify_all verify_executable run_result passed
main_finishes = refl

main-AllStart_example :
    ((failure ≡ 0) ↔ AllStart machine "build/bin" 10 executables)
    × ((failure ≡ 0) ⊎ (failure ≡ 1))
    × (machine.is_not_positive 10 ≡ false)
main-AllStart_example =
    main-AllStart machine "build" 10 (printed (main machine "build" 10)) failure main_finishes
