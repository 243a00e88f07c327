-- ===== src/Download/Model/Attempts.antt =====
-- A small specification of a download in several calls, and that `download_model` implements it.
use llm_inference_optimizati.Base.{
  ℕ, zero, suc, ◌<◌, ◌≤◌, ◌≡◌, refl, ap, ◌∙◌, subst, String, none, some, List, length,
  length-append, arith,
}
use llm_inference_optimizati.Value.{Fields, Floats}
use llm_inference_optimizati.Download.World.{World, Outcome, done, raised, Fault, Ends, Ends-mono}
use llm_inference_optimizati.Download.Outside.{Outside, SuffixLaw}
use llm_inference_optimizati.Download.Url.{url, source_url}
use llm_inference_optimizati.Download.Metadata.{Options, beside}
use llm_inference_optimizati.Download.Model.{
  content_or_empty, keep_existing, fetch_new, download_model,
}
use llm_inference_optimizati.Download.Model.Steps.{IsTextOrNull}
use llm_inference_optimizati.Download.Model.Install.{keep_existing_lem}
use llm_inference_optimizati.Download.Model.Serving.{IsServer, IsStart}
use llm_inference_optimizati.Download.Model.Resume.{Missing, fetch_new-model}

-- Either so many bytes of a model are held, or the model is there.
pub data Progress : Type 0 where
  held : ℕ → Progress
  whole : Progress

-- What one call does to a model of this size.
pub data Step (size : ℕ) : Progress → Progress → Type 0 where
  wait : (n m : ℕ) → m ≤ size → Step size (held n) (held m)
  finish : (n : ℕ) → 0 < size → Step size (held n) whole
  stay : Step size whole whole

pub data Steps (size : ℕ) : Progress → Progress → Type 0 where
  start : (p : Progress) → Steps size p p
  then : (p q r : Progress) → Step size p q → Steps size q r → Steps size p r

-- The world that a call leaves.
abbrev pub after {ℓ} : {A : Type ℓ} → Outcome A → World
after (done a w) = w
after (raised e w) = w

module _ {H : Type 0} (o : Outside H) (fl : Floats) (opts : Options)
    (repository filename models_dir : String) where
  -- So many calls one after the other, whichever way each of them ends.
  unfoldable pub attempts : ℕ → World → World
  attempts zero w = w
  attempts (suc n) w =
      attempts n (after (download_model o fl opts repository filename models_dir w))

  -- The model's progress in the files.
  abbrev pub Shows : List ℕ → World → Progress → Type 0
  Shows model w (held n) =
      let destination = o.join models_dir filename in
      let part = content_or_empty (w.files (beside o destination ".part")) in
      (w.files destination ≡ none) × IsStart part model × (n ≡ length part)
  Shows model w whole = w.files (o.join models_dir filename) ≡ some model

  pub absent_lem :
      (address : String) (w : World)
      → source_url o repository filename opts.revision ≡ url address
      → w.files (o.join models_dir filename) ≡ none
      → fetch_new o fl opts (o.join models_dir filename) repository address filename w
        ≡ download_model o fl opts repository filename models_dir w
  unfolding download_model
  absent_lem address w at absent = rw (download_model, at, absent)

  pub there_lem :
      (address : String) (content : List ℕ) (w : World)
      → source_url o repository filename opts.revision ≡ url address
      → w.files (o.join models_dir filename) ≡ some content
      → keep_existing o fl opts (o.join models_dir filename) repository address filename w
        ≡ download_model o fl opts repository filename models_dir w
  unfolding download_model
  there_lem address content w at there = rw (download_model, at, there)

  -- Against a server of one model, a call goes one step of the specification, whether it returns or
  -- raises, and the model is there when it returns. It is supposed that the files show a state of the
  -- specification before, that a digest that is expected is a text or none, that the address is that of
  -- the names, and that a suffix replaced by a longer one is appended to the path.
  pub download_model-refines :
      (address : String) (model : List ℕ) (p : Progress) (w : World)
      → SuffixLaw o
      → IsTextOrNull opts.expected_sha256
      → source_url o repository filename opts.revision ≡ url address
      → IsServer o address model
      → Shows model w p
      → Ends
          (λ r v. Shows model v whole × Step (length model) p whole)
          (λ e v. (q : Progress) × Shows model v q × Step (length model) p q)
          (download_model o fl opts repository filename models_dir w)
  download_model-refines address model (held n) w law text at server (absent, begun, size) =
      let destination = o.join models_dir filename in
      let P : String × Fields → World → Type 0 =
        λ r v. Shows model v whole × Step (length model) (held n) whole in
      let Q : Fault → World → Type 0 =
        λ e v. (q : Progress) × Shows model v q × Step (length model) (held n) q in
      subst (Ends P Q) (absent_lem address w at absent) (
        Ends-mono (λ r v. (v.files destination ≡ some model) × (0 < length model)) P
          (λ e v. Missing o law fl opts repository address filename destination model text server v)
          Q (fetch_new o fl opts destination repository address filename w)
          (fetch_new-model o law fl opts repository address filename destination model text server w
            (absent, begun))
          (λ r v i. (i.0, finish n i.1))
          (λ e v i.
            let part = content_or_empty (v.files (beside o destination ".part")) in
            (
              held (length part),
              (i.0, i.1, refl),
              wait n (length part) (omega (arith, ap length i.1.1, length-append part i.1.0)),
            )))
  download_model-refines address model whole w law text at server there =
      let destination = o.join models_dir filename in
      let P : String × Fields → World → Type 0 =
        λ r v. Shows model v whole × Step (length model) whole whole in
      let Q : Fault → World → Type 0 =
        λ e v. (q : Progress) × Shows model v q × Step (length model) whole q in
      subst (Ends P Q) (there_lem address model w at there) (
        Ends-mono _ P (λ e v. v.files ≡ w.files) Q
          (keep_existing o fl opts destination repository address filename w)
          (keep_existing_lem o law fl opts repository address filename destination model w text
            there)
          (λ r v i. (i.1.content_at, stay))
          (λ e v same. (whole, ap (λ f. f destination) same ∙ there, stay)))

  -- Under the same conditions, calls one after the other, some of which may raise, go steps of the
  -- specification: the model's file is never there with a part of the model, and once it is whole it
  -- stays so.
  pub attempts_lem :
      (address : String) (model : List ℕ) (n : ℕ) (p : Progress) (w : World)
      → SuffixLaw o
      → IsTextOrNull opts.expected_sha256
      → source_url o repository filename opts.revision ≡ url address
      → IsServer o address model
      → Shows model w p
      → (q : Progress) × Shows model (attempts n w) q × Steps (length model) p q
  unfolding attempts
  attempts_lem address model zero p w law text at server shows = (p, shows, start p)
  attempts_lem address model (suc n) p w law text at server shows =
      let call = download_model o fl opts repository filename models_dir w in
      let first =
        after_lem call (download_model-refines address model p w law text at server shows) in
      let rest = attempts_lem address model n first.0 (after call) law text at server first.1 in
      (rest.0, rest.1, then p first.0 rest.0 first.2 rest.2)
    where
      after_lem :
          (c : Outcome (String × Fields))
          → Ends
              (λ r v. Shows model v whole × Step (length model) p whole)
              (λ e v. (q : Progress) × Shows model v q × Step (length model) p q)
              c
          → (q : Progress) × Shows model (after c) q × Step (length model) p q
      after_lem (done r v) h = (whole, h.0, h.1)
      after_lem (raised e v) h = h
