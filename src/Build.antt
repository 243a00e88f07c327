-- ===== src/Build.antt =====
-- scripts/verify_llama_cpp_build.py: whether the executables of a llama.cpp build are there and start.
pub mod Verified
pub mod Examples
use Prim.Native.String.{◌++◌}
use llm_inference_optimizati.Base.{
  ℕ, ◌==◌, String, Bool, true, false, not, ◌&&◌, ◌||◌, Option, none, some, List, [], ◌∷◌, ℤ, pos,
  eqb_ℤ, all, if◌then◌else◌,
}
use llm_inference_optimizati.Text.{empty_text, ends_at}
use llm_inference_optimizati.Perf.{shown}

abbrev pub executables : List String
executables = "llama-bench" ∷ "llama-cli" ∷ "llama-server" ∷ []

-- `return_code` is none where no process ended, `error` is none where nothing else failed.
pub record VerificationResult : Type 0 where
  pub name : String
  pub path : String
  pub stdout : String
  pub stderr : String
  pub return_code : Option ℤ
  pub timed_out : Bool
  pub error : Option String

abbrev pub is_none {ℓ} : {A : Type ℓ} → Option A → Bool
is_none none = true
is_none (some a) = false

-- `code == 0`
abbrev pub is_zero : Option ℤ → Bool
is_zero none = false
is_zero (some n) = eqb_ℤ n (pos 0)

unfoldable pub passed : VerificationResult → Bool
passed result = is_none result.error && (not result.timed_out && is_zero result.return_code)

-- What `subprocess.TimeoutExpired` holds of a stream.
pub data Captured : Type 0 where
  nothing : Captured
  decoded : String → Captured
  raw : List ℕ → Captured

-- How `subprocess.run([path, "--help"], capture_output=True, text=True, timeout=timeout)` ends: the
-- process exits, the time is over, OSError with its text, or another exception, which the script lets
-- through.
pub data Run : Type 0 where
  exited : String → String → ℤ → Run
  expired : Captured → Captured → Run
  os_error : String → Run
  broken : Run

-- What the script uses of the libraries, on numbers `T` of seconds: `path.is_file()`,
-- `os.access(path, os.X_OK)`, the process, `value.decode(errors="replace")`, `path / name`,
-- `path.name`, `timeout <= 0` and `f"{timeout:g}"`.
pub record Machine (T : Type 0) : Type 0 where
  pub is_file : String → Bool
  pub is_executable : String → Bool
  pub run : String → T → Run
  pub decode : List ℕ → String
  pub join : String → String → String
  pub path_name : String → String
  pub is_not_positive : T → Bool
  pub seconds : T → String

module _ {T : Type 0} (machine : Machine T) where
  -- `_text`
  unfoldable pub text : Captured → String
  text nothing = ""
  text (decoded s) = s
  text (raw bytes) = machine.decode bytes

  abbrev pub failed_result : String → String → VerificationResult
  failed_result path message = record {
    name = machine.path_name path;
    path = path;
    stdout = "";
    stderr = "";
    return_code = none;
    timed_out = false;
    error = some message;
  }

  -- The result of a process that was started.
  unfoldable pub run_result : String → T → Run → Option VerificationResult
  run_result path timeout (exited stdout stderr code) = some (record {
    name = machine.path_name path;
    path = path;
    stdout = stdout;
    stderr = stderr;
    return_code = some code;
    timed_out = false;
    error = none;
  })
  run_result path timeout (expired stdout stderr) = some (record {
    name = machine.path_name path;
    path = path;
    stdout = text stdout;
    stderr = text stderr;
    return_code = none;
    timed_out = true;
    error = some ("--help timed out after " ++ (machine.seconds timeout ++ " seconds"));
  })
  run_result path timeout (os_error message) = some (failed_result path message)
  run_result path timeout broken = none

  unfoldable pub verify_executable : String → T → Option VerificationResult
  verify_executable path timeout =
      if not (machine.is_file path)
      then some (failed_result path "file does not exist")
      else if not (machine.is_executable path)
      then some (failed_result path "file is not executable")
      else run_result path timeout (machine.run path timeout)

  -- `[verify_executable(binary_dir / name, timeout) for name in names]`
  unfoldable pub verify_all : String → T → List String → Option (List VerificationResult)
  verify_all binary_dir timeout [] = some []
  verify_all binary_dir timeout (name ∷ names) =
      elim (verify_executable (machine.join binary_dir name) timeout) [
        | none ↦ none
        | some result ↦ elim (verify_all binary_dir timeout names) [
          | none ↦ none
          | some results ↦ some (result ∷ results)
        ]
      ]

  unfoldable pub verify_build : String → T → Option (List VerificationResult)
  verify_build build_dir timeout = verify_all (machine.join build_dir "bin") timeout executables

-- `print(s, end="" if s.endswith("\n") or not s else "\n")`
abbrev pub stream_lines : String → String
stream_lines s = s ++ (if ends_at 10 s || empty_text s then "" else "\n")

abbrev pub code_text : Option ℤ → String
code_text none = "not available"
code_text (some n) = shown n

-- `if result.error: print(f"error: {result.error}")`
abbrev pub error_line : Option String → String
error_line none = ""
error_line (some message) = if empty_text message then "" else "error: " ++ (message ++ "\n")

-- What `print_result` prints.
unfoldable pub print_result : VerificationResult → String
print_result result =
    let status = if passed result then "PASS" else "FAIL" in
    "["
    ++ (status
        ++ ("] "
            ++ (result.name
                ++ ("\n"
                    ++ ("path: "
                        ++ (result.path
                            ++ ("\n"
                                ++ ("return code: "
                                    ++ (code_text result.return_code
                                        ++ ("\n"
                                            ++ ("timed out: "
                                                ++ ((if result.timed_out then "true" else "false")
                                                    ++ ("\n"
                                                        ++ (error_line result.error
                                                            ++ ("--- stdout ---\n"
                                                            ++ (stream_lines result.stdout
                                                            ++ ("--- stderr ---\n"
                                                            ++ stream_lines
                                                            result.stderr)))))))))))))))))

-- `print()` between two results
unfoldable pub print_results : List VerificationResult → String
print_results [] = ""
print_results (result ∷ []) = print_result result
print_results (result ∷ next ∷ results) =
    print_result result ++ ("\n" ++ print_results (next ∷ results))

-- How `main` ends: with a usage error, with an exception, or with a text that is printed and an
-- exit code.
pub data Exit : Type 0 where
  usage crashed : Exit
  finished : String → ℕ → Exit

module _ {T : Type 0} (machine : Machine T) where
  -- The test behind the parsing of `parse_args`.
  unfoldable pub parse_args : T → Option T
  parse_args timeout = if machine.is_not_positive timeout then none else some timeout

  -- `main`, on the options as they were parsed.
  unfoldable pub main : String → T → Exit
  main build_dir timeout = elim (parse_args timeout) [
    | none ↦ usage
    | some limit ↦ elim (verify_build machine build_dir limit) [
      | none ↦ crashed
      | some results ↦ finished (print_results results) (if all passed results then 0 else 1)
    ]
  ]
