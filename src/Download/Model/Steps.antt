-- ===== src/Download/Model/Steps.antt =====
-- What each step of `download_model` does to the files.
use text.Mathlib.TextLemmas.{append_cancel_left, append-nil}
use llm_inference_optimizati.Base.{
  ℕ, ◌<◌, ◌≡◌, ◌≢◌, refl, sym, ◌∙◌, String, false, Option, some, List, length, arith, str_eq,
  str_eq_iff, Bool-cases, inl, inr, ◌⊎◌,
}
use llm_inference_optimizati.Value.{Value, null, str, Fields, Floats}
use llm_inference_optimizati.Download.World.{
  World, Fault, download_error, M, put_file, Ends, Ends-bind,
}
use llm_inference_optimizati.Download.Outside.{Outside, SuffixLaw}
use llm_inference_optimizati.Download.Metadata.{
  Options, beside, metadata_of, metadata_for, Comparison, agrees, differs, fails, compare_sha256,
  compare_byte_size, require_same,
}

not_equal : (s t : String) → s ≢ t → str_eq s t ≡ false
not_equal s t h = elim (Bool-cases (str_eq s t)) [
  | inl same ↦ absurd (h ((str_eq_iff s t).0 same))
  | inr different ↦ different
]

pub put_file_self :
    (files : String → Option (List ℕ)) (p : String) (content : Option (List ℕ))
    → put_file files p content p ≡ content
put_file_self files p content = rw ((str_eq_iff p p).1 refl)

pub put_file_other :
    (files : String → Option (List ℕ)) (p q : String) (content : Option (List ℕ))
    → str_eq p q ≡ false
    → put_file files p content q ≡ files q
put_file_other files p q content h = rw h

module _ {H : Type 0} (o : Outside H) (law : SuffixLaw o) where
  beside-ne : (p s : String) → s ≢ "" → str_eq (beside o p s) p ≡ false
  beside-ne p s h =
      not_equal _ _ λ e. h (append_cancel_left p s "" (sym (law p s) ∙ (e ∙ sym (append-nil p))))

  pub part-ne : (p : String) → str_eq (beside o p ".part") p ≡ false
  part-ne p = beside-ne p ".part" (λ e. absurd (cc))

  pub ne-part : (p : String) → str_eq p (beside o p ".part") ≡ false
  ne-part p =
      not_equal _ _ λ e. absurd (ground (arith, part-ne p, str_eq_iff (beside o p ".part") p))

  pub metadata-ne : (p : String) → str_eq (beside o p ".metadata.json") p ≡ false
  metadata-ne p = beside-ne p ".metadata.json" (λ e. absurd (cc))

  pub metadata-ne-part :
      (p : String) → str_eq (beside o p ".metadata.json") (beside o p ".part") ≡ false
  metadata-ne-part p = not_equal _ _ λ e.
      let same : ◌≡◌ {A = String} ".metadata.json" ".part" =
        append_cancel_left p ".metadata.json" ".part" (sym (law p _) ∙ (e ∙ law p _)) in
      absurd (cc)

module _ {H : Type 0} (o : Outside H) (path repository address filename : String)
    (opts : Options) where
  -- The metadata that were made of a file, which nothing changed.
  abbrev pub Made : List ℕ → World → Fields → World → Type 0
  Made content w m v =
      (m ≡ metadata_of o path repository address filename opts content (o.clock w.readings))
      × (v.files ≡ w.files)
      × (0 < length content)
      × (v.requests ≡ w.requests)

  -- `metadata_for` raises for an empty file only, and changes nothing then.
  pub metadata_for_lem :
      (w : World) (content : List ℕ) (Q : Fault → World → Type 0)
      → w.files path ≡ some content
      → (length content ≡ 0 → Q (download_error "rejecting empty model file") w)
      → Ends (Made content w) Q (metadata_for o path repository address filename opts w)
  unfolding metadata_for
  metadata_for_lem w content Q h k = ground arith

-- A comparison that raises no exception of its own.
abbrev pub Decides : Comparison → Type 0
Decides c = (c ≡ agrees) ⊎ (c ≡ differs)

pub not_fails : (c : Comparison) (e : Fault) → Decides c → c ≡ fails e → ⊥
not_fails c e h k = ground arith

-- A comparison that fails raises after the cleanup.
pub require_same_lem :
    (c : Comparison) (cleanup : M (Unit {0})) (text : String) (w : World)
    (Q : Fault → World → Type 0)
    → (c ≡ differs → Ends (λ _ w'. (e : Fault) → Q e w') Q (cleanup w))
    → ((e : Fault) → c ≡ fails e → Q e w)
    → Ends (λ _ w'. (w' ≡ w) × (c ≡ agrees)) Q (require_same c cleanup text w)
unfolding require_same
require_same_lem agrees cleanup text w Q h k = (refl, refl)
require_same_lem differs cleanup text w Q h k =
    Ends-bind (λ _ w'. (e : Fault) → Q e w') _ Q cleanup _ w (h refl) (λ _ w' q. q _)
require_same_lem (fails e) cleanup text w Q h k = k e refl

-- A digest that is expected is a text, or there is none.
abbrev pub IsTextOrNull : Value → Type 0
IsTextOrNull v = (v ≡ null) ⊎ ((s : String) × (v ≡ str s))

module _ (fl : Floats) where
  pub compare_sha256-Decides :
      (expected : Value) (metadata : Fields)
      → IsTextOrNull expected
      → Decides (compare_sha256 fl expected metadata)
  unfolding compare_sha256
  compare_sha256-Decides expected metadata h = ground arith

  pub compare_byte_size-Decides :
      (expected : Value) (metadata : Fields) → Decides (compare_byte_size fl expected metadata)
  unfolding compare_byte_size
  compare_byte_size-Decides expected metadata = ground arith
