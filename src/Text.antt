-- ===== src/Text.antt =====
-- What the program uses of Python's text methods, on native texts.
pub mod Occurs
pub mod Count
pub mod Lines
use Prim.Native.Char.{Char, code}
use Prim.Native.String.{◌++◌}
use text.Mathlib.Text.{starts_with}
use llm_inference_optimizati.Base.{
  ℕ, suc, ◌+◌, String, Bool, true, false, not, ◌&&◌, ◌||◌, leb, ◌==◌, any, List, [], ◌∷◌,
  if◌then◌else◌,
}

-- `str.isspace` on one character
unfoldable pub is_space : Char → Bool
is_space c =
    let n = code c in
    (leb 9 n && leb n 13)
    || (leb 28 n && leb n 32)
    || (leb 8192 n && leb n 8202)
    || any (λ m. n == m) (0x85 ∷ 0xa0 ∷ 0x1680 ∷ 0x2028 ∷ 0x2029 ∷ 0x202f ∷ 0x205f ∷ 0x3000 ∷ [])

-- `s.lstrip()`, `s.rstrip()` and `s.strip()`
unfoldable pub lstrip : String → String
unfolding is_space
lstrip String.[] = ""
lstrip (String.◌∷◌ c s) = let rest = lstrip s in if is_space c then rest else String.◌∷◌ c s

-- `not s`
abbrev pub empty_text : String → Bool
empty_text String.[] = true
empty_text (String.◌∷◌ c s) = false

unfoldable pub rstrip : String → String
unfolding is_space
rstrip String.[] = ""
rstrip (String.◌∷◌ c s) =
    let rest = rstrip s in if is_space c && empty_text rest then "" else String.◌∷◌ c rest

unfoldable pub strip : String → String
unfolding lstrip rstrip
strip s = lstrip (rstrip s)

-- The character at the place in the second text where `c` is in the first.
unfoldable pub translated : String → String → Char → Char
translated (String.◌∷◌ x xs) (String.◌∷◌ y ys) c =
    let rest = translated xs ys c in if code x == code c then y else rest
translated _ _ c = c

-- `s.lower()`, as far as ASCII letters come of it: the capitals, and the two other characters that
-- Python maps into ASCII, the Kelvin sign and the dotted capital I. Other characters are left alone;
-- where Python changes them, the result has no ASCII letter either.
unfoldable pub lower : String → String
unfolding translated
lower String.[] = ""
lower (String.◌∷◌ c s) =
    if code c == 304
    then "i̇" ++ lower s
    else String.◌∷◌ (translated "ABCDEFGHIJKLMNOPQRSTUVWXYZK" "abcdefghijklmnopqrstuvwxyzk" c)
        (lower s)

-- `s.upper()` on ASCII letters.
unfoldable pub upper : String → String
unfolding translated
upper String.[] = ""
upper (String.◌∷◌ c s) =
    String.◌∷◌ (translated "abcdefghijklmnopqrstuvwxyz" "ABCDEFGHIJKLMNOPQRSTUVWXYZ" c) (upper s)

-- `pattern in s`
unfoldable pub occurs : String → String → Bool
occurs pattern String.[] = starts_with "" pattern
occurs pattern (String.◌∷◌ c s) = starts_with (String.◌∷◌ c s) pattern || occurs pattern s

-- `s.count(c)` and `c in s`, for the character with this code
unfoldable pub count_char : ℕ → String → ℕ
count_char n String.[] = 0
count_char n (String.◌∷◌ c s) = (if code c == n then 1 else 0) + count_char n s

unfoldable pub has_char : ℕ → String → Bool
has_char n String.[] = false
has_char n (String.◌∷◌ c s) = code c == n || has_char n s

-- `s.startswith(c)`, for the character with this code
abbrev pub starts_at : ℕ → String → Bool
starts_at n String.[] = false
starts_at n (String.◌∷◌ c s) = code c == n

-- `s.endswith(c)`
unfoldable pub ends_at : ℕ → String → Bool
ends_at n String.[] = false
ends_at n (String.◌∷◌ c s) = if empty_text s then code c == n else ends_at n s
