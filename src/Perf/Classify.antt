-- ===== src/Perf/Classify.antt =====
-- `classify_probe` of scripts/probe_perf_events.py against a table of patterns.
use Prim.Native.String.{◌++◌}
use llm_inference_optimizati.Base.{
  ◌≡◌, ◌↔◌, String, true, Option, none, some, List, [], ◌∷◌, ℤ, pos, eqb_ℤ, eqb_ℤ-eq, any,
  if◌then◌else◌, arith, Bool-cases, inl, inr,
}
use llm_inference_optimizati.Text.{lower, occurs, strip}
use llm_inference_optimizati.Text.Occurs.{occurs-part}
use llm_inference_optimizati.Perf.{classify_probe, text_or, shown}

-- The classes that the output decides, in the order of their precedence.
abbrev pub rules : List (String × List String)
rules =
    (
      "permission denied",
      "permission" ∷ "access to performance monitoring" ∷ "perf_event_paranoid" ∷ [],
    )
    ∷ ("unsupported", "not supported" ∷ "unsupported" ∷ [])
    ∷ ("unavailable in WSL2", "unknown event" ∷ "event syntax error" ∷ "cannot find pmu" ∷ [])
    ∷ ("noisy or unreliable", "not counted" ∷ [])
    ∷ []

-- The class of the first row that has a pattern which the text has.
abbrev pub first_match : String → List (String × List String) → Option String
first_match text [] = none
first_match text ((class, patterns) ∷ rest) =
    let later = first_match text rest in
    if any (λ pattern. occurs pattern text) patterns then some class else later

-- What `perf` printed, in lower case.
abbrev pub output : String → String → String
output stdout stderr = lower (stdout ++ ("\n" ++ stderr))

unsupported_part :
    (s : String) → occurs "<not supported>" s ≡ true → occurs "not supported" s ≡ true
unsupported_part s h = occurs-part "<" "not supported" ">" s h

uncounted_part : (s : String) → occurs "<not counted>" s ≡ true → occurs "not counted" s ≡ true
uncounted_part s h = occurs-part "<" "not counted" ">" s h

-- The class is that of the first row with a pattern in the output; without one, the exit code
-- decides. So the pattern "<not supported>" behind "not supported" never decides a class, and
-- "<not counted>" adds nothing to "not counted".
pub classify_probe-first_match :
    (returncode : ℤ) (stdout stderr : String)
    → let diagnostic = strip (text_or stderr stdout) in
      classify_probe returncode stdout stderr ≡ (elim (first_match (output stdout stderr) rules) [
        | some class ↦ (class, diagnostic)
        | none ↦
            if eqb_ℤ returncode (pos 0)
            then ("supported", "")
            else ("unsupported", text_or diagnostic ("perf exited " ++ shown returncode))
      ])
unfolding classify_probe
classify_probe-first_match returncode stdout stderr =
    ground (arith, unsupported_part (output stdout stderr), uncounted_part (output stdout stderr))

denied : ◌≡◌ {A = String} "permission denied" "supported" → ⊥
denied e = absurd (cc)

unsupported : ◌≡◌ {A = String} "unsupported" "supported" → ⊥
unsupported e = absurd (cc)

unavailable : ◌≡◌ {A = String} "unavailable in WSL2" "supported" → ⊥
unavailable e = absurd (cc)

noisy : ◌≡◌ {A = String} "noisy or unreliable" "supported" → ⊥
noisy e = absurd (cc)

-- An event is supported just if `perf` exits with 0 and the output has none of the patterns.
pub classify_probe-supported_iff :
    (returncode : ℤ) (stdout stderr : String)
    → ((classify_probe returncode stdout stderr).0 ≡ "supported")
      ↔ ((returncode ≡ pos 0) × (first_match (output stdout stderr) rules ≡ none))
unfolding classify_probe
classify_probe-supported_iff returncode stdout stderr = (
  λ h. elim (Bool-cases (eqb_ℤ returncode (pos 0))) [
    | inl zero ↦ (
      eqb_ℤ-eq returncode (pos 0) zero,
      ground (
        arith,
        denied,
        unsupported,
        unavailable,
        noisy,
        unsupported_part (output stdout stderr),
        uncounted_part (output stdout stderr),
      ),
    )
    | inr nonzero ↦ absurd (ground (arith, denied, unsupported, unavailable, noisy))
  ],
  λ h.
      ground
        (arith, unsupported_part (output stdout stderr), uncounted_part (output stdout stderr)),
)
