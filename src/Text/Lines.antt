-- ===== src/Text/Lines.antt =====
-- Python's `str.splitlines`.
use Prim.Native.Char.{Char, code}
use Prim.Native.String.{◌++◌}
use Prim.Native.String.append
use llm_inference_optimizati.Base.{
  ◌≡◌, ap, ◌∙◌, String, Bool, false, ◌&&◌, ◌||◌, ◌==◌, leb, any, List, [], ◌∷◌, if◌then◌else◌,
  arith,
}

-- A character that ends a line: newline, vertical tab, form feed, carriage return, the separators
-- U+001C to U+001E, U+0085, U+2028 and U+2029.
unfoldable pub is_break : Char → Bool
is_break c =
    let n = code c in
    (leb 10 n && leb n 13)
    || ((leb 28 n && leb n 30) || any (λ m. n == m) (0x85 ∷ 0x2028 ∷ 0x2029 ∷ []))

-- A character in front of the first line.
abbrev pub push : Char → List String → List String
push c [] = String.◌∷◌ c "" ∷ []
push c (line ∷ lines) = String.◌∷◌ c line ∷ lines

-- The lines of a text; a newline right behind a carriage return belongs to its line break.
unfoldable pub lines_from : Bool → String → List String
unfolding is_break
lines_from after_return String.[] = []
lines_from after_return (String.◌∷◌ c s) =
    let rest = lines_from (code c == 13) s in
    if after_return && code c == 10 then rest else if is_break c then "" ∷ rest else push c rest

-- `text.splitlines()`
unfoldable pub splitlines : String → List String
unfolding lines_from
splitlines text = lines_from false text

-- Some character ends a line.
unfoldable pub has_break : String → Bool
unfolding is_break
has_break String.[] = false
has_break (String.◌∷◌ c s) = is_break c || has_break s

-- A text without a line break, and a newline, in front of others are the first line.
pub splitlines-append :
    (line text : String)
    → has_break line ≡ false
    → splitlines (line ++ ("\n" ++ text)) ≡ line ∷ splitlines text
unfolding splitlines has_break lines_from
splitlines-append String.[] text h =
    ap splitlines (append.nil ("\n" ++ text) ∙ append.cons "\n" "" text)
    ∙ ap (λ t. "" ∷ splitlines t) (append.nil text)
splitlines-append (String.◌∷◌ c s) text h =
    let no_break : is_break c ≡ false = ground arith in
    let no_return : (code c == 13) ≡ false = ground arith in
    let later : lines_from false (s ++ ("\n" ++ text)) ≡ s ∷ lines_from false text =
      splitlines-append s text (ground arith) in
    ap splitlines (append.cons c s ("\n" ++ text)) ∙ rw (no_return, no_break, later)
