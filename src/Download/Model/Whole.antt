-- ===== src/Download/Model/Whole.antt =====
-- The whole of `download_model`: what is installed when it returns, and what is left when it raises.
use llm_inference_optimizati.Base.{
  ℕ, ◌≡◌, refl, sym, ap, ◌∙◌, String, Option, none, some, List, arith,
}
use llm_inference_optimizati.Value.{Fields, Floats}
use llm_inference_optimizati.Download.World.{World, Outcome, raised, Fault, Ends, Ends-mono}
use llm_inference_optimizati.Download.Outside.{Outside, SuffixLaw}
use llm_inference_optimizati.Download.Url.{Url, url, bad_url, source_url}
use llm_inference_optimizati.Download.Metadata.{Options}
use llm_inference_optimizati.Download.Model.{keep_existing, fetch_new, download_model}
use llm_inference_optimizati.Download.Model.Steps.{IsTextOrNull}
use llm_inference_optimizati.Download.Model.Sound.{IsInstalled}
use llm_inference_optimizati.Download.Model.Install.{fetch_new_lem, keep_existing_lem}

module _ {H : Type 0} (o : Outside H) (fl : Floats) (opts : Options)
    (repository filename models_dir : String) where
  -- The path of the model is returned, and the model is installed there; the content is what was
  -- there before, without a request, if there was one.
  abbrev pub IsResult : World → String × Fields → World → Type 0
  IsResult w r w' =
      (r.0 ≡ o.join models_dir filename)
      × ((address : String) × (content : List ℕ) × (source_url o repository filename opts.revision
            ≡ url address)
          × IsInstalled o opts repository address filename (o.join models_dir filename) content r.1
              w'
          × ((before : List ℕ)
              → w.files (o.join models_dir filename) ≡ some before
              → (content ≡ before) × (w'.requests ≡ w.requests)))

  -- The file of the model is as it was.
  abbrev pub IsKept : World → Fault → World → Type 0
  IsKept w e w' = w'.files (o.join models_dir filename) ≡ w.files (o.join models_dir filename)

  by_file :
      (address : String) (file : Option (List ℕ)) (w : World)
      → SuffixLaw o
      → IsTextOrNull opts.expected_sha256
      → source_url o repository filename opts.revision ≡ url address
      → w.files (o.join models_dir filename) ≡ file
      → Ends (IsResult w) (IsKept w) (elim file as (λ _. Outcome (String × Fields)) [
        | none ↦ fetch_new o fl opts (o.join models_dir filename) repository address filename w
        | some content ↦
            keep_existing o fl opts (o.join models_dir filename) repository address filename w
      ])
  by_file address none w law text at absent =
      let destination = o.join models_dir filename in
      Ends-mono _ (IsResult w) _ (IsKept w)
        (fetch_new o fl opts destination repository address filename w)
        (fetch_new_lem o law fl opts repository address filename destination w text absent)
        (λ r v i. (i.0, (address, i.1.0, at, i.1.1, λ before there. absurd (cc))))
        (λ e v q. q ∙ sym absent)
  by_file address (some content) w law text at there =
      let destination = o.join models_dir filename in
      Ends-mono _ (IsResult w) _ (IsKept w)
        (keep_existing o fl opts destination repository address filename w)
        (keep_existing_lem o law fl opts repository address filename destination content w text
          there)
        (λ r v i. (i.0, (address, content, at, i.1, λ before same. (ground arith, i.3))))
        (λ e v q. ap (λ f. f destination) q)

  by_url :
      (u : Url) (w : World)
      → SuffixLaw o
      → IsTextOrNull opts.expected_sha256
      → source_url o repository filename opts.revision ≡ u
      → Ends (IsResult w) (IsKept w) (elim u as (λ _. Outcome (String × Fields)) [
        | bad_url e ↦ raised e w
        | url address ↦
            elim (w.files (o.join models_dir filename)) as (λ _. Outcome (String × Fields)) [
              | none ↦
                  fetch_new o fl opts (o.join models_dir filename) repository address filename w
              | some content ↦
                  keep_existing o fl opts (o.join models_dir filename) repository address filename w
            ]
      ])
  by_url (bad_url e) w law text at = refl
  by_url (url address) w law text at =
      by_file address (w.files (o.join models_dir filename)) w law text at refl

  -- Whatever the server sends: when `download_model` returns, the model is installed, with the digest
  -- and the size that are expected, and a model that was there is kept without a request. When it
  -- raises, the model's file is as it was. A digest that is expected has to be a text, or none, and a
  -- suffix that is replaced by a longer one has to be appended to the path.
  pub download_model_lem :
      (w : World)
      → SuffixLaw o
      → IsTextOrNull opts.expected_sha256
      → Ends (IsResult w) (IsKept w) (download_model o fl opts repository filename models_dir w)
  unfolding download_model
  download_model_lem w law text =
      by_url (source_url o repository filename opts.revision) w law text refl
