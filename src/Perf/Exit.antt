-- ===== src/Perf/Exit.antt =====
-- The report, the exit code and the table that scripts/probe_perf_events.py ends with.
use Prim.Native.String.{◌++◌}
use mathlib.Core.List.{Mem}
use llm_inference_optimizati.Base.{
  ℕ, ◌≡◌, refl, sym, ap, ◌∙◌, subst, String, Bool, true, false, not, Option, none, some, List, [],
  ◌∷◌, length, map, arith, if◌then◌else◌, Bool-cases, Option-cases, inl, inr, ◌⊎◌,
}
use llm_inference_optimizati.Text.{count_char, empty_text}
use llm_inference_optimizati.Perf.{
  events, broken, Report, Machine, path_or, row, heading, render_markdown, probe_all, run_probe,
  probe_with, missing_perf, perf_or_which, main, Output, report_of,
}
use llm_inference_optimizati.Perf.Lines.{terminated, render_markdown-terminated}
use llm_inference_optimizati.Perf.Table.{IsLine, Each, heading_lem}
use llm_inference_optimizati.Perf.Rows.{run_of, AreRows, probe_all-none, probe_all-AreRows}

module _ (machine : Machine) where
  -- There is a `perf` to run.
  abbrev pub is_usable : Option String → Bool
  is_usable none = false
  is_usable (some path) = not (empty_text path)

  events_lem : Each IsLine events
  unfolding count_char
  events_lem = (
    refl,
    (
      refl,
      (
        refl,
        (
          refl,
          (
            refl,
            (
              refl,
              (
                refl,
                (
                  refl,
                  (
                    refl,
                    (
                      refl,
                      (refl, (refl, (refl, (refl, (refl, (refl, (refl, (refl, (refl, tt))))))))),
                    ),
                  ),
                ),
              ),
            ),
          ),
        ),
      ),
    ),
  )

  -- The rows of the table, with and without a `perf`.
  abbrev pub Probed : Option String → List String → Type 0
  Probed none lines = lines ≡ []
  Probed (some path) lines = elim (empty_text path) [
    | true ↦ lines ≡ []
    | false ↦ AreRows machine path ("true" ∷ []) events lines
  ]

  -- The report of a run that ends.
  record IsReport (path : Option String) (report : Report) : Type 0 where
    time : report.timestamp_utc ≡ machine.now
    found : report.perf_path ≡ path
    failure : report.error ≡ (if is_usable path then none else some (missing_perf machine))
    rows : Probed path (map row report.probes)
    lines : Each IsLine (map row report.probes)

  -- A path that is run, and an event for which the run fails.
  abbrev pub Fails : Option String → Type 0
  Fails path =
      (perf : String) × (event : String) × (path ≡ some perf)
      × Mem event events
      × (run_of machine perf ("true" ∷ []) event ≡ broken)

  probe_with_lem :
      (path : Option String)
      → ((report : Report) × (probe_with machine path ("true" ∷ []) ≡ some report)
          × IsReport path report)
        ⊎ ((probe_with machine path ("true" ∷ []) ≡ none) × Fails path)
  unfolding probe_with
  probe_with_lem none = inl (
    report_of machine none [] (some (missing_perf machine)),
    refl,
    record { time = refl; found = refl; failure = refl; rows = refl; lines = tt },
  )
  probe_with_lem (some path) = elim (Bool-cases (empty_text path)) [
    | inl empty ↦ inl (
      report_of machine (some path) [] (some (missing_perf machine)),
      rw empty refl,
      record {
        time = refl;
        found = refl;
        failure = rw empty refl;
        rows = rw (Probed, empty) refl;
        lines = tt;
      },
    )
    | inr usable ↦ elim (Option-cases (probe_all machine path ("true" ∷ []) events)) [
      | inl failed ↦
          let (event, m, e) = probe_all-none machine path ("true" ∷ []) events failed in
          inr (rw (usable, failed) refl, (path, event, refl, m, e))
      | inr (items, made) ↦
          let (rows, lines) =
            probe_all-AreRows machine path ("true" ∷ []) events items made events_lem in
          inl (
            report_of machine (some path) items none,
            rw (usable, made) refl,
            record {
              time = refl;
              found = refl;
              failure = rw usable refl;
              rows = rw (Probed, usable) rows;
              lines = lines;
            },
          )
    ]
  ]

  -- What `main` makes of a report.
  abbrev output_of : Report → Output
  output_of report = record {
    json_file = machine.dumps_indented report ++ "\n";
    markdown_file = render_markdown report;
    printed = machine.dumps report ++ "\n";
    exit_code = elim report.error [ none ↦ 0 | some text ↦ if empty_text text then 0 else 127 ];
  }

  abbrev ends : Option Report → Option Output
  ends none = none
  ends (some report) = some (output_of report)

  main-ends :
      (perf : Option String) → main machine perf ≡ ends (run_probe machine perf ("true" ∷ []))
  unfolding main
  main-ends perf = ground arith

  exit_lem :
      (usable : Bool)
      → elim (if usable then none else some (missing_perf machine)) as (λ _. ℕ) [
        | none ↦ 0
        | some text ↦ if empty_text text then 0 else 127
      ]
        ≡ (if usable then 0 else 127)
  exit_lem true = refl
  exit_lem false = refl

  -- `main` ends, unless the process for one of the events cannot be run. It ends with the exit code 0
  -- if a `perf` is given or found, and else with 127. The Markdown has eight lines of heading and then,
  -- with a `perf`, one row for each of the events in their order, which names the event and the class
  -- of its own run of `perf stat`; without a `perf` it has no row. Each line ends with its newline and
  -- has no other. The time and the path have to be lines.
  pub main-exit_code :
      (perf : Option String)
      → IsLine machine.now
      → IsLine (path_or (perf_or_which machine perf))
      → let path = perf_or_which machine perf in
        ((out : Output) × (main machine perf ≡ some out)
          × (out.exit_code ≡ (if is_usable path then 0 else 127))
          × ((head : List String) × (rows : List String) × (out.markdown_file
                ≡ terminated head ++ terminated rows)
              × (length head ≡ 8)
              × Each IsLine head
              × Each IsLine rows
              × Probed path rows))
        ⊎ ((main machine perf ≡ none) × Fails path)
  unfolding run_probe
  main-exit_code perf now line = elim (probe_with_lem (perf_or_which machine perf)) [
    | inr (failed, why) ↦ inr (main-ends perf ∙ ap ends failed, why)
    | inl (report, made, is) ↦
        let exit_of : Option String → ℕ =
          λ e. elim e [ none ↦ 0 | some text ↦ if empty_text text then 0 else 127 ] in
        let code = ap exit_of is.failure ∙ exit_lem (is_usable (perf_or_which machine perf)) in
        let top =
          heading_lem report (subst IsLine (sym is.time) now)
            (subst (λ p. IsLine (path_or p)) (sym is.found) line) in
        let rows = map row report.probes in
        inl (
          output_of report,
          main-ends perf ∙ ap ends made,
          code,
          (heading report, rows, render_markdown-terminated report, refl, top, is.lines, is.rows),
        )
  ]
