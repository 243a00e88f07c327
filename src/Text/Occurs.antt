-- ===== src/Text/Occurs.antt =====
-- `occurs`, Python's `in` on two texts, as the statement that the one is a part of the other.
use Prim.Native.String.{◌++◌}
use Prim.Native.String.append
use text.Mathlib.Text.{starts_with}
use text.Mathlib.TextEquality.{starts_with_iff}
use text.Mathlib.TextLemmas.{append_assoc}
use llm_inference_optimizati.Base.{
  ◌≡◌, refl, sym, ap, ◌∙◌, subst, String, true, Bool-cases, inl, inr, arith,
}
use llm_inference_optimizati.Text.{occurs}

-- The text has the pattern in it.
abbrev pub IsPart : String → String → Type 0
IsPart pattern s = (before : String) × (after : String) × (s ≡ before ++ (pattern ++ after))

pub occurs-IsPart : (pattern s : String) → occurs pattern s ≡ true → IsPart pattern s
unfolding occurs
occurs-IsPart pattern String.[] h =
    let prefix = (starts_with_iff "" pattern).0 h in
    ("", prefix.0, sym prefix.1 ∙ sym (append.nil (pattern ++ prefix.0)))
occurs-IsPart pattern (String.◌∷◌ c s) h =
    elim (Bool-cases (starts_with (String.◌∷◌ c s) pattern)) [
      | inl here ↦
          let prefix = (starts_with_iff (String.◌∷◌ c s) pattern).0 here in
          ("", prefix.0, sym prefix.1 ∙ sym (append.nil (pattern ++ prefix.0)))
      | inr later ↦
          let part = occurs-IsPart pattern s (ground arith) in
          (
            String.◌∷◌ c part.0,
            part.1,
            ap (λ t. String.◌∷◌ c t) part.2 ∙ sym (append.cons c part.0 (pattern ++ part.1)),
          )
    ]

occurs-start : (pattern s : String) → starts_with s pattern ≡ true → occurs pattern s ≡ true
unfolding occurs
occurs-start pattern String.[] h = h
occurs-start pattern (String.◌∷◌ c s) h = ground (arith, h)

pub IsPart-occurs :
    (pattern before after : String) → occurs pattern (before ++ (pattern ++ after)) ≡ true
unfolding occurs
IsPart-occurs pattern String.[] after =
    subst (λ s. occurs pattern s ≡ true) (sym (append.nil (pattern ++ after)))
      (occurs-start pattern (pattern ++ after)
        ((starts_with_iff (pattern ++ after) pattern).1 (after, refl)))
IsPart-occurs pattern (String.◌∷◌ c before) after =
    subst (λ s. occurs pattern s ≡ true) (sym (append.cons c before (pattern ++ after)))
      (ground (arith, IsPart-occurs pattern before after))

-- A text with a longer pattern in it has every part of that pattern in it.
pub occurs-part :
    (left pattern right s : String)
    → occurs (left ++ (pattern ++ right)) s ≡ true
    → occurs pattern s ≡ true
occurs-part left pattern right s h =
    let part = occurs-IsPart (left ++ (pattern ++ right)) s h in
    subst (λ t. occurs pattern t ≡ true)
      (sym (
        part.2
        ∙ (ap (λ t. part.0 ++ t)
              (append_assoc left (pattern ++ right) part.1
                ∙ ap (λ t. left ++ t) (append_assoc pattern right part.1))
            ∙ sym (append_assoc part.0 left (pattern ++ (right ++ part.1))))))
      (IsPart-occurs pattern (part.0 ++ left) (right ++ part.1))
