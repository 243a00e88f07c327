-- ===== src/Text/Count.antt =====
-- How often a character stands in a text.
use Prim.Native.String.{◌++◌}
use Prim.Native.String.append
use llm_inference_optimizati.Base.{ℕ, ◌+◌, ◌≡◌, ap, ◌∙◌, String, arith}
use llm_inference_optimizati.Text.{count_char}

pub count_char-append :
    (n : ℕ) (s t : String) → count_char n (s ++ t) ≡ count_char n s + count_char n t
unfolding count_char
count_char-append n String.[] t = ap (count_char n) (append.nil t) ∙ omega arith
count_char-append n (String.◌∷◌ c s) t =
    ap (count_char n) (append.cons c s t) ∙ omega (arith, count_char-append n s t)
