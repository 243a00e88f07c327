-- ===== src/Perf/Table.antt =====
-- The Markdown of scripts/probe_perf_events.py as a table with one line for each event.
use Prim.Native.String.{◌++◌}
use llm_inference_optimizati.Base.{
  suc, ◌+◌, ◌-◌, ◌≡◌, refl, ap, String, List, [], ◌∷◌, length, map, arith, ℤ,
}
use llm_inference_optimizati.Base.{◌++◌ as join_lists}
use llm_inference_optimizati.Text.{count_char}
use llm_inference_optimizati.Text.Count.{count_char-append}
use llm_inference_optimizati.Perf.{
  classify_probe, Probe, Report, joined, replace_char, text_or, row, path_or, heading,
  render_markdown,
}

-- The text is in one line.
abbrev pub IsLine : String → Type 0
IsLine s = count_char 10 s ≡ 0

-- An event and its class that are each in one line.
abbrev pub IsEntry : Probe → Type 0
IsEntry item = IsLine item.event × IsLine item.classification

abbrev pub Each {ℓ} : {A : Type ℓ} → (A → Type 0) → List A → Type 0
Each P [] = Unit {0}
Each P (x ∷ xs) = P x × Each P xs

IsLine-append : (s t : String) → IsLine s → IsLine t → IsLine (s ++ t)
IsLine-append s t h k = omega (arith, count_char-append 10 s t)

-- Replacing the newlines by spaces leaves none, and replacing another character brings none in.
spaced_lem : (s : String) → IsLine (replace_char 10 " " s)
unfolding replace_char count_char
spaced_lem String.[] = refl
spaced_lem (String.◌∷◌ c s) =
    ground (arith, spaced_lem s, IsLine-append " " (replace_char 10 " " s) refl (spaced_lem s))

piped_lem : (s : String) → IsLine s → IsLine (replace_char 124 "\\|" s)
unfolding replace_char count_char
piped_lem String.[] h = refl
piped_lem (String.◌∷◌ c s) h =
    let rest : IsLine (replace_char 124 "\\|" s) = piped_lem s (ground arith) in
    ground (arith, rest, IsLine-append "\\|" (replace_char 124 "\\|" s) refl rest)

-- The classes are lines.
denied : IsLine "permission denied"
unfolding count_char
denied = refl

unsupported : IsLine "unsupported"
unfolding count_char
unsupported = refl

unavailable : IsLine "unavailable in WSL2"
unfolding count_char
unavailable = refl

pub noisy : IsLine "noisy or unreliable"
unfolding count_char
noisy = refl

supported : IsLine "supported"
unfolding count_char
supported = refl

pub classify_probe-IsLine :
    (returncode : ℤ) (stdout stderr : String) → IsLine (classify_probe returncode stdout stderr).0
unfolding classify_probe
classify_probe-IsLine returncode stdout stderr =
    ground (arith, denied, unsupported, unavailable, noisy, supported)

-- Lines that are joined by newlines have one newline less than there are lines.
joined_lem :
    (lines : List String) → Each IsLine lines → count_char 10 (joined "\n" lines) ≡ length lines - 1
unfolding count_char
joined_lem [] h = omega arith
joined_lem (line ∷ []) h = omega (arith, h.0)
joined_lem (line ∷ next ∷ lines) h =
    let rest = joined_lem (next ∷ lines) h.1 in
    omega (
      arith,
      count_char-append 10 line ("\n" ++ joined "\n" (next ∷ lines)),
      count_char-append 10 "\n" (joined "\n" (next ∷ lines)),
      h.0,
      rest,
    )

Each-append {ℓ} :
    {A : Type ℓ} (P : A → Type 0) (xs ys : List A)
    → Each P xs
    → Each P ys
    → Each P (join_lists xs ys)
Each-append P [] ys h k = k
Each-append P (x ∷ xs) ys h k = (h.0, Each-append P xs ys h.1 k)

-- `left`, a text and `right`
wrapped_lem :
    (left s right : String) → IsLine left → IsLine s → IsLine right → IsLine (left ++ (s ++ right))
wrapped_lem left s right h k l = IsLine-append left (s ++ right) h (IsLine-append s right k l)

cell_lem : (s : String) → IsLine s → IsLine (text_or s "—")
unfolding count_char
cell_lem String.[] h = refl
cell_lem (String.◌∷◌ c s) h = h

pub row_lem : (item : Probe) → IsEntry item → IsLine (row item)
unfolding row count_char
row_lem item (event, class) = wrapped_lem "| `" item.event _ refl event (
    wrapped_lem "` | " item.classification _ refl class
      (wrapped_lem " | " _ " |" refl (cell_lem _ (piped_lem _ (spaced_lem item.diagnostic))) refl))

rows_lem : (items : List Probe) → Each IsEntry items → Each IsLine (map row items)
rows_lem [] h = tt
rows_lem (item ∷ items) (first, rest) = (row_lem item first, rows_lem items rest)

pub heading_lem :
    (report : Report)
    → IsLine report.timestamp_utc
    → IsLine (path_or report.perf_path)
    → Each IsLine (heading report)
unfolding count_char
heading_lem report time path =
    let generated = wrapped_lem "Generated: `" report.timestamp_utc "`" refl time refl in
    let perf = wrapped_lem "perf: `" (path_or report.perf_path) "`" refl path refl in
    (refl, (refl, (generated, (refl, (perf, (refl, (refl, (refl, tt))))))))

length-map {ℓ κ} :
    {A : Type ℓ} {B : Type κ} (f : A → B) (xs : List A) → length (map f xs) ≡ length xs
length-map f [] = refl
length-map f (x ∷ xs) = ap suc (length-map f xs)

-- The Markdown has eight lines and one more for each event, whatever the diagnostics contain, if the
-- time, the path, the events and their classes are each in one line.
pub render_markdown-lines :
    (report : Report)
    → IsLine report.timestamp_utc
    → IsLine (path_or report.perf_path)
    → Each IsEntry report.probes
    → count_char 10 (render_markdown report) ≡ 8 + length report.probes
unfolding render_markdown count_char
render_markdown-lines report time path entries =
    let all =
      Each-append IsLine (heading report) (map row report.probes) (heading_lem report time path)
        (rows_lem report.probes entries) in
    let rows = length-map row report.probes in
    let lines = join_lists (heading report) (map row report.probes) in
    omega (arith, count_char-append 10 (joined "\n" lines) "\n", joined_lem lines all, rows)
