-- ===== src/Perf.antt =====
-- scripts/probe_perf_events.py: which events the tool `perf` counts on a machine, as JSON and Markdown.
pub mod Classify
pub mod Table
pub mod Lines
pub mod Rows
pub mod Exit
pub mod Examples
use Prim.Native.Char.{Char, code}
use Prim.Native.String.{◌++◌}
use llm_inference_optimizati.Base.{
  ℕ, suc, ◌≡◌, String, Bool, ◌||◌, ◌==◌, Option, none, some, List, [], ◌∷◌, ℤ, pos, negsuc, eqb_ℤ,
  if◌then◌else◌, map,
}
use llm_inference_optimizati.Base.{◌++◌ as join_lists}
use llm_inference_optimizati.Text.{lower, occurs, strip, empty_text}
use llm_inference_optimizati.Workload.Decimal.{digits_before}

abbrev pub events : List String
events =
    "task-clock" ∷ "cpu-clock" ∷ "cycles" ∷ "instructions" ∷ "branches" ∷ "branch-misses"
    ∷ "cache-references" ∷ "cache-misses" ∷ "context-switches" ∷ "cpu-migrations" ∷ "page-faults"
    ∷ "minor-faults" ∷ "major-faults" ∷ "stalled-cycles-frontend" ∷ "stalled-cycles-backend"
    ∷ "L1-dcache-loads" ∷ "L1-dcache-load-misses" ∷ "LLC-loads" ∷ "LLC-load-misses" ∷ []

-- `str(n)`
unfoldable pub shown : ℤ → String
shown (pos n) = digits_before (suc n) n ""
shown (negsuc n) = "-" ++ digits_before (suc (suc n)) (suc n) ""

-- `s or t`
abbrev pub text_or : String → String → String
text_or s t = if empty_text s then t else s

unfoldable pub classify_probe : ℤ → String → String → String × String
classify_probe returncode stdout stderr =
    let text = lower (stdout ++ ("\n" ++ stderr)) in
    let diagnostic = strip (text_or stderr stdout) in
    if occurs "permission" text
      || (occurs "access to performance monitoring" text || occurs "perf_event_paranoid" text)
    then ("permission denied", diagnostic)
    else if occurs "not supported" text || occurs "unsupported" text
    then ("unsupported", diagnostic)
    else if occurs "unknown event" text
        || (occurs "event syntax error" text || occurs "cannot find pmu" text)
    then ("unavailable in WSL2", diagnostic)
    else if occurs "<not supported>" text
    then ("unsupported", diagnostic)
    else if occurs "<not counted>" text || occurs "not counted" text
    then ("noisy or unreliable", diagnostic)
    else if eqb_ℤ returncode (pos 0)
    then ("supported", "")
    else ("unsupported", text_or diagnostic ("perf exited " ++ shown returncode))

-- How `subprocess.run(argv, text=True, capture_output=True, timeout=15)` ends: the process exits, the
-- time is over (with the text of the exception), or another exception is raised, which the script lets
-- through.
pub data Run : Type 0 where
  exited : ℤ → String → String → Run
  expired : String → Run
  broken : Run

pub record Probe : Type 0 where
  pub event : String
  pub classification : String
  pub perf_exit_code : Option ℤ
  pub diagnostic : String
  pub command : List String

-- The result of `run_probe`.
pub record Report : Type 0 where
  pub timestamp_utc : String
  pub perf_path : Option String
  pub probes : List Probe
  pub error : Option String

-- What the script uses of the libraries: processes, `shutil.which("perf")`, the clock, and
-- `json.dumps` with and without an indent.
pub record Machine : Type 0 where
  pub run : List String → Run
  pub which : Option String
  pub now : String
  pub dumps_indented : Report → String
  pub dumps : Report → String

-- `lines` one after the other with `separator` between them: `separator.join(lines)`
abbrev pub joined : String → List String → String
joined separator [] = ""
joined separator (line ∷ []) = line
joined separator (line ∷ next ∷ lines) = line ++ (separator ++ joined separator (next ∷ lines))

-- `s.replace(c, t)`, for the character with this code
unfoldable pub replace_char : ℕ → String → String → String
replace_char n t String.[] = ""
replace_char n t (String.◌∷◌ c s) =
    let rest = replace_char n t s in if code c == n then t ++ rest else String.◌∷◌ c rest

-- One row of the table. The code of the newline is 10, that of "|" is 124.
unfoldable pub row : Probe → String
row item =
    let diagnostic = replace_char 124 "\\|" (replace_char 10 " " item.diagnostic) in
    "| `"
    ++ (item.event
        ++ ("` | " ++ (item.classification ++ (" | " ++ (text_or diagnostic "—" ++ " |")))))

-- `data.get('perf_path') or 'missing'`
abbrev pub path_or : Option String → String
path_or none = "missing"
path_or (some path) = text_or path "missing"

abbrev pub heading : Report → List String
heading report =
    "# perf event capability probe"
    ∷ ""
    ∷ ("Generated: `" ++ (report.timestamp_utc ++ "`"))
    ∷ ""
    ∷ ("perf: `" ++ (path_or report.perf_path ++ "`"))
    ∷ ""
    ∷ "| Event | Classification | Diagnostic |"
    ∷ "| --- | --- | --- |"
    ∷ []

unfoldable pub render_markdown : Report → String
render_markdown report = joined "\n" (join_lists (heading report) (map row report.probes)) ++ "\n"

-- What `main` writes and prints, and the exit code.
pub record Output : Type 0 where
  pub json_file : String
  pub markdown_file : String
  pub printed : String
  pub exit_code : ℕ

module _ (machine : Machine) where
  unfoldable pub probe_event : String → String → List String → Option Probe
  probe_event perf event command =
      let argv = join_lists (perf ∷ "stat" ∷ "-x" ∷ "," ∷ "-e" ∷ event ∷ "--" ∷ []) command in
      elim (machine.run argv) [
        | exited returncode stdout stderr ↦
            let found = classify_probe returncode stdout stderr in
            some (record {
              event = event;
              classification = found.0;
              perf_exit_code = some returncode;
              diagnostic = found.1;
              command = argv;
            })
        | expired text ↦ some (record {
          event = event;
          classification = "noisy or unreliable";
          perf_exit_code = none;
          diagnostic = "probe timed out: " ++ text;
          command = argv;
        })
        | broken ↦ none
      ]

  -- `[probe_event(perf_path, event, command) for event in …]`
  unfoldable pub probe_all : String → List String → List String → Option (List Probe)
  probe_all perf command [] = some []
  probe_all perf command (event ∷ rest) = elim (probe_event perf event command) [
    | none ↦ none
    | some item ↦ elim (probe_all perf command rest) [
      | none ↦ none
      | some items ↦ some (item ∷ items)
    ]
  ]

  -- `perf or shutil.which("perf")`
  abbrev pub perf_or_which : Option String → Option String
  perf_or_which none = machine.which
  perf_or_which (some perf) = if empty_text perf then machine.which else some perf

  abbrev pub report_of : Option String → List Probe → Option String → Report
  report_of path probes error = record {
    timestamp_utc = machine.now;
    perf_path = path;
    probes = probes;
    error = error;
  }

  abbrev pub missing_perf : String
  missing_perf =
      "perf binary not found; install linux-tools-common and the linux-tools package matching the current kernel"

  unfoldable pub probe_with : Option String → List String → Option Report
  probe_with none command = some (report_of none [] (some missing_perf))
  probe_with (some path) command =
      if empty_text path
      then some (report_of (some path) [] (some missing_perf))
      else (elim (probe_all path command events) [
        | none ↦ none
        | some items ↦ some (report_of (some path) items none)
      ])

  unfoldable pub run_probe : Option String → List String → Option Report
  run_probe perf command = probe_with (perf_or_which perf) command

  -- `main` from the parsed options on, which write to two different files.
  unfoldable pub main : Option String → Option Output
  main perf = elim (run_probe perf ("true" ∷ [])) [
    | none ↦ none
    | some report ↦ some (record {
      json_file = machine.dumps_indented report ++ "\n";
      markdown_file = render_markdown report;
      printed = machine.dumps report ++ "\n";
      exit_code = elim report.error [ none ↦ 0 | some text ↦ if empty_text text then 0 else 127 ];
    })
  ]
