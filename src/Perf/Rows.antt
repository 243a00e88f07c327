-- ===== src/Perf/Rows.antt =====
-- The probes of scripts/probe_perf_events.py and their rows in the table, one for each event.
use Prim.Native.String.{◌++◌}
use mathlib.Core.List.{Mem, mem-cons_self, mem-cons_of_mem}
use llm_inference_optimizati.Base.{
  ◌≡◌, sym, ap, subst, String, Option, none, some, List, [], ◌∷◌, map, arith, Option-cases, inl,
  inr,
}
use llm_inference_optimizati.Base.{◌++◌ as join_lists}
use llm_inference_optimizati.Perf.{
  classify_probe, Run, exited, expired, broken, Probe, Machine, text_or, row, replace_char,
  probe_event, probe_all,
}
use llm_inference_optimizati.Perf.Table.{IsLine, Each, classify_probe-IsLine, noisy, row_lem}

-- The class of an event whose run ends like this.
abbrev pub ClassOf : Run → String → Type 0
ClassOf (exited returncode stdout stderr) class =
    class ≡ (classify_probe returncode stdout stderr).0
ClassOf (expired text) class = class ≡ "noisy or unreliable"
ClassOf broken class = ⊥

module _ (machine : Machine) where
  -- The run of `perf stat` for one event around the command.
  abbrev pub run_of : String → List String → String → Run
  run_of perf command event =
      machine.run (perf ∷ "stat" ∷ "-x" ∷ "," ∷ "-e" ∷ event ∷ "--" ∷ command)

  -- The line is a row of the table that names the event, and the class of its run.
  abbrev pub IsRow : String → List String → String → String → Type 0
  IsRow perf command event line =
      (class : String) × (cell : String) × ClassOf (run_of perf command event) class
      × (line ≡ "| `" ++ (event ++ ("` | " ++ (class ++ (" | " ++ (cell ++ " |"))))))

  -- One row for each event, in the order of the events.
  abbrev pub AreRows : String → List String → List String → List String → Type 0
  AreRows perf command [] [] = Unit {0}
  AreRows perf command (event ∷ rest) (line ∷ lines) =
      IsRow perf command event line × AreRows perf command rest lines
  AreRows perf command names lines = ⊥

  probe_event_lem :
      (perf event : String) (command : List String) (item : Probe)
      → probe_event machine perf event command ≡ some item
      → (item.event ≡ event)
        × IsLine item.classification
        × ClassOf (run_of perf command event) item.classification
  unfolding probe_event
  probe_event_lem perf event command item h = by_run (run_of perf command event) h
    where
      by_run :
          (run : Run)
          → (elim run as (λ _. Option Probe) [
            | exited returncode stdout stderr ↦ some (record {
              event = event;
              classification = (classify_probe returncode stdout stderr).0;
              perf_exit_code = some returncode;
              diagnostic = (classify_probe returncode stdout stderr).1;
              command = join_lists (perf ∷ "stat" ∷ "-x" ∷ "," ∷ "-e" ∷ event ∷ "--" ∷ []) command;
            })
            | expired text ↦ some (record {
              event = event;
              classification = "noisy or unreliable";
              perf_exit_code = none;
              diagnostic = "probe timed out: " ++ text;
              command = join_lists (perf ∷ "stat" ∷ "-x" ∷ "," ∷ "-e" ∷ event ∷ "--" ∷ []) command;
            })
            | broken ↦ none
          ])
            ≡ some item
          → (item.event ≡ event) × IsLine item.classification × ClassOf run item.classification
      by_run (exited returncode stdout stderr) e =
          let same = ap (λ o. elim o [ none ↦ item | some x ↦ x ]) e in
          let class = ap (λ x. x.classification) same in
          (
            sym (ap (λ x. x.event) same),
            subst IsLine class (classify_probe-IsLine returncode stdout stderr),
            sym class,
          )
      by_run (expired text) e =
          let same = ap (λ o. elim o [ none ↦ item | some x ↦ x ]) e in
          let class = ap (λ x. x.classification) same in
          (sym (ap (λ x. x.event) same), subst IsLine class noisy, sym class)
      by_run broken e = absurd (cc)

  -- A probe fails only where its run does.
  probe_event-none :
      (perf event : String) (command : List String)
      → probe_event machine perf event command ≡ none
      → run_of perf command event ≡ broken
  unfolding probe_event
  probe_event-none perf event command h = ground arith

  pub probe_all-none :
      (perf : String) (command names : List String)
      → probe_all machine perf command names ≡ none
      → (event : String) × Mem event names × (run_of perf command event ≡ broken)
  unfolding probe_all
  probe_all-none perf command [] h = absurd (cc)
  probe_all-none perf command (name ∷ names) h =
      elim (Option-cases (probe_event machine perf name command)) [
        | inl failed ↦ (name, mem-cons_self, probe_event-none perf name command failed)
        | inr (item, made) ↦ elim (Option-cases (probe_all machine perf command names)) [
          | inl failed ↦
              let (event, m, e) = probe_all-none perf command names failed in
              (event, mem-cons_of_mem name m, e)
          | inr (later, rest) ↦ absurd (ground arith)
        ]
      ]

  -- The row of a probe.
  row-IsRow :
      (perf event : String) (command : List String) (item : Probe)
      → item.event ≡ event
      → ClassOf (run_of perf command event) item.classification
      → IsRow perf command event (row item)
  unfolding row
  row-IsRow perf event command item named class = (
    item.classification,
    text_or (replace_char 124 "\\|" (replace_char 10 " " item.diagnostic)) "—",
    class,
    ap
        (λ e.
          "| `"
          ++ (e
              ++ ("` | "
                  ++ (item.classification
                      ++ (" | "
                          ++ (text_or (replace_char 124 "\\|" (replace_char 10 " " item.diagnostic))
                                "—"
                              ++ " |"))))))
        named,
  )

  -- The probes are those of the events, in their order, and each row is a line.
  pub probe_all-AreRows :
      (perf : String) (command names : List String) (items : List Probe)
      → probe_all machine perf command names ≡ some items
      → Each IsLine names
      → AreRows perf command names (map row items) × Each IsLine (map row items)
  unfolding probe_all
  probe_all-AreRows perf command [] [] h lines = (tt, tt)
  probe_all-AreRows perf command [] (item ∷ items) h lines = absurd (cc)
  probe_all-AreRows perf command (name ∷ names) items h lines =
      elim (Option-cases (probe_event machine perf name command)) [
        | inl failed ↦ absurd (ground arith)
        | inr (item, made) ↦ elim (Option-cases (probe_all machine perf command names)) [
          | inl failed ↦ absurd (ground arith)
          | inr (later, rest) ↦
              let split : item ∷ later ≡ items = ground arith in
              let (named, class, run) = probe_event_lem perf name command item made in
              let others = probe_all-AreRows perf command names later rest lines.1 in
              let line = row_lem item (subst IsLine (sym named) lines.0, class) in
              subst (λ l. AreRows perf command (name ∷ names) (map row l) × Each IsLine (map row l))
                split ((row-IsRow perf name command item named run, others.0), (line, others.1))
        ]
      ]
