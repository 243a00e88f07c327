-- ===== src/Perf/Examples.antt =====
-- A machine on which `perf` counts some events, and prints a diagnostic of two lines for another.
use Prim.Native.String.{◌++◌}
use llm_inference_optimizati.Base.{
  ◌≡◌, ◌↔◌, refl, String, none, some, [], ◌∷◌, pos, eqb_ℤ, if◌then◌else◌, any, str_eq, List, length,
  ◌⊎◌,
}
use llm_inference_optimizati.Text.{count_char, strip, lower, occurs, translated}
use llm_inference_optimizati.Perf.{
  events, classify_probe, exited, Probe, Report, Machine, text_or, render_markdown, row,
  replace_char, run_probe, probe_with, probe_all, probe_event, main, Output, shown,
}
use llm_inference_optimizati.Perf.Classify.{
  rules, first_match, output, classify_probe-first_match, classify_probe-supported_iff,
}
use llm_inference_optimizati.Perf.Lines.{terminated}
use llm_inference_optimizati.Perf.Rows.{AreRows}
use llm_inference_optimizati.Perf.Table.{IsLine, Each, render_markdown-lines}
use llm_inference_optimizati.Perf.Exit.{Fails, main-exit_code}

-- A diagnostic with a newline and a bar.
abbrev event_error : String
event_error = "event syntax error: 'cycles'\n  \\___ unknown | parser error\n"

abbrev machine : Machine
machine = record {
  run = λ argv.
      if any (λ a. str_eq a "cycles") argv
      then exited (pos 129) "" event_error
      else exited (pos 0) "" "";
  which = some "/usr/bin/perf";
  now = "2026-01-01T00:00:00+00:00";
  dumps_indented = λ report. "{\n}";
  dumps = λ report. "{}";
}

abbrev probe : Probe
probe = record {
  event = "cycles";
  classification = "unavailable in WSL2";
  perf_exit_code = some (pos 129);
  diagnostic = "event syntax error: 'cycles'\n  \\___ unknown | parser error";
  command = "perf" ∷ [];
}

abbrev report : Report
report = record {
  timestamp_utc = "2026-01-01T00:00:00+00:00";
  perf_path = some "/usr/bin/perf";
  probes = probe ∷ [];
  error = none;
}

classify_probe_test : (classify_probe (pos 129) "" event_error).0 ≡ "unavailable in WSL2"
unfolding classify_probe lower occurs translated
classify_probe_test = refl

classify_probe-first_match_example :
    classify_probe (pos 129) "" event_error ≡ (elim (first_match (output "" event_error) rules) [
      | some class ↦ (class, strip (text_or event_error ""))
      | none ↦ if eqb_ℤ (pos 129) (pos 0) then ("supported", "") else (
        "unsupported",
        text_or (strip (text_or event_error "")) ("perf exited " ++ shown (pos 129)),
      )
    ])
classify_probe-first_match_example = classify_probe-first_match (pos 129) "" event_error

classify_probe-supported_example :
    ((classify_probe (pos 0) "" "").0 ≡ "supported")
    ↔ ((pos 0 ≡ pos 0) × (first_match (output "" "") rules ≡ none))
classify_probe-supported_example = classify_probe-supported_iff (pos 0) "" ""

render_markdown-lines_example : count_char 10 (render_markdown report) ≡ 9
unfolding count_char
render_markdown-lines_example = render_markdown-lines report refl refl ((refl, refl), tt)

-- The output of `main`, for the test of its exit code.
abbrev no_output : Output
no_output = record { json_file = ""; markdown_file = ""; printed = ""; exit_code = 0 }

abbrev main_output : Output
main_output = elim (main machine none) [ none ↦ no_output | some out ↦ out ]

-- It ends, with 27 lines.
main_returns :
    (main machine none ≡ some main_output) × (count_char 10 main_output.markdown_file ≡ 27)
unfolding main run_probe probe_with probe_all probe_event count_char render_markdown row
    classify_probe occurs lower replace_char strip
main_returns = (refl, refl)

main-exit_code_example :
    ((out : Output) × (main machine none ≡ some out)
      × (out.exit_code ≡ 0)
      × ((head : List String) × (rows : List String) × (out.markdown_file
            ≡ terminated head ++ terminated rows)
          × (length head ≡ 8)
          × Each IsLine head
          × Each IsLine rows
          × AreRows machine "/usr/bin/perf" ("true" ∷ []) events rows))
    ⊎ ((main machine none ≡ none) × Fails machine (some "/usr/bin/perf"))
unfolding count_char
main-exit_code_example = main-exit_code machine none refl refl
