-- ===== src/Perf/Lines.antt =====
-- The Markdown of scripts/probe_perf_events.py as lines that are each ended by a newline.
use Prim.Native.String.{◌++◌}
use Prim.Native.String.append
use text.Mathlib.TextLemmas.{append_assoc}
use llm_inference_optimizati.Base.{◌≡◌, refl, sym, ap, ◌∙◌, String, List, [], ◌∷◌, map}
use llm_inference_optimizati.Base.{◌++◌ as join_lists}
use llm_inference_optimizati.Perf.{Report, joined, row, heading, render_markdown}

-- The lines with a newline behind each.
abbrev pub terminated : List String → String
terminated [] = ""
terminated (line ∷ lines) = line ++ ("\n" ++ terminated lines)

joined-terminated :
    (line : String) (lines : List String)
    → joined "\n" (line ∷ lines) ++ "\n" ≡ terminated (line ∷ lines)
joined-terminated line [] = refl
joined-terminated line (next ∷ lines) =
    append_assoc line ("\n" ++ joined "\n" (next ∷ lines)) "\n"
    ∙ ap (λ s. line ++ s) (append_assoc "\n" (joined "\n" (next ∷ lines)) "\n")
    ∙ ap (λ s. line ++ ("\n" ++ s)) (joined-terminated next lines)

terminated-append :
    (xs ys : List String) → terminated (join_lists xs ys) ≡ terminated xs ++ terminated ys
terminated-append [] ys = sym (append.nil (terminated ys))
terminated-append (line ∷ lines) ys =
    ap (λ s. line ++ ("\n" ++ s)) (terminated-append lines ys)
    ∙ sym (
        append_assoc line ("\n" ++ terminated lines) (terminated ys)
        ∙ ap (λ s. line ++ s) (append_assoc "\n" (terminated lines) (terminated ys)))

-- The lines behind the first.
abbrev rest_of : List String → List String → List String
rest_of [] ys = ys
rest_of (x ∷ xs) ys = join_lists xs ys

pub render_markdown-terminated :
    (report : Report)
    → render_markdown report ≡ terminated (heading report) ++ terminated (map row report.probes)
unfolding render_markdown
render_markdown-terminated report =
    joined-terminated "# perf event capability probe"
      (rest_of (heading report) (map row report.probes))
    ∙ terminated-append (heading report) (map row report.probes)
