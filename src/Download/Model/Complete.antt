-- ===== src/Download/Model/Complete.antt =====
-- When a call of `download_model` does install the model.
use llm_inference_optimizati.Base.{
  ℕ, suc, ◌<◌, ◌≡◌, sym, ◌∙◌, subst, String, none, some, List, length, arith, ◌==◌, if◌then◌else◌,
}
use llm_inference_optimizati.Value.{Fields, Floats}
use llm_inference_optimizati.Download.World.{
  World, M, pure, write, put_file, Ends, Ends-bind, Ends-mono, Ends-both, ◌>>=◌, ◌>>◌,
}
use llm_inference_optimizati.Download.Outside.{Outside, SuffixLaw, Response, opened}
use llm_inference_optimizati.Download.Url.{url, source_url}
use llm_inference_optimizati.Download.Metadata.{
  Options, beside, metadata_of, metadata_for, write_metadata,
}
use llm_inference_optimizati.Download.Model.{
  content_or_empty, ask, fetch, replace, check_expected, fetch_new, download_model,
}
use llm_inference_optimizati.Download.Model.Steps.{
  put_file_self, put_file_other, part-ne, Made, metadata_for_lem, IsTextOrNull,
}
use llm_inference_optimizati.Download.Model.Install.{verify}
use llm_inference_optimizati.Download.Model.Sound.{Fetched}
use llm_inference_optimizati.Download.Model.Attempts.{absent_lem, Shows, held}
use llm_inference_optimizati.Download.Model.Resume.{Missing, fetch_both, fetch_new-model}
use llm_inference_optimizati.Download.Model.Serving.{Whole, IsServer}
use llm_inference_optimizati.Download.Model.Full.{
  Returns, IsMet, check_expected-met, IsFull, reply_full,
}

module _ {H : Type 0} (o : Outside H) (fl : Floats) (opts : Options) (law : SuffixLaw o) where
  pub verify_full :
      (repository address filename destination time : String) (model : List ℕ) (m : Fields)
      (cleanup : M (Unit {0})) (w : World)
      → IsMet o opts model
      → m ≡ metadata_of o destination repository address filename opts model time
      → Returns (verify o law fl opts destination m cleanup w)
  unfolding verify write_metadata
  verify_full repository address filename destination time model m cleanup w met made =
      let check : Fields → M (Unit {0}) = λ n. check_expected o fl opts n cleanup in
      Ends-bind (λ _ _. Unit {0}) (λ _ _. Unit {0}) (λ _ _. ⊥) (check m)
        (λ _. write_metadata o destination m >> pure (destination, m)) w
        (subst (λ n. Returns {A = Unit {0}} (check n w)) (sym made)
          (subst (Returns {A = Unit {0}})
            (sym (
              check_expected-met o fl opts destination repository address filename time model
                cleanup w met))
            tt))
        (λ _ _ _. tt)

  installed_full :
      (repository address filename destination : String) (model : List ℕ) (v : World)
      → v.files (beside o destination ".part") ≡ some model
      → 0 < length model
      → IsMet o opts model
      → Returns (
          (replace o (beside o destination ".part") destination
              >> (metadata_for o destination repository address filename opts >>= λ m.
                  verify o law fl opts destination m (write destination none)))
            v)
  unfolding replace
  installed_full repository address filename destination model v there filled met =
      let partial = beside o destination ".part" in
      let moved = put_file v.files destination (v.files partial) in
      let v' : World = record v { files = put_file moved partial none } in
      Ends-bind (Made o destination repository address filename opts model v') (λ _ _. Unit {0})
        (λ _ _. ⊥) (metadata_for o destination repository address filename opts)
        (λ m. verify o law fl opts destination m (write destination none)) v'
        (metadata_for_lem o destination repository address filename opts v' model (λ _ _. ⊥)
          (put_file_other moved partial destination none (part-ne o law destination)
            ∙ (put_file_self v.files destination _ ∙ there))
          (λ h. absurd (omega (arith, filled))))
        λ m u made.
          verify_full repository address filename destination (o.clock v'.readings) model m
            (write destination none) u met made.0

  fetch_new-Returns :
      (repository address filename destination : String) (model : List ℕ) (w : World) (r : Response)
      (text : IsTextOrNull opts.expected_sha256) (server : IsServer o address model)
      → Missing o law fl opts repository address filename destination model text server w
      → let old = content_or_empty (w.files (beside o destination ".part")) in
        ask o address old w ≡ opened r
        → IsFull o model (if length old == 0 then none else some (length old)) r
        → 0 < length model
        → IsMet o opts model
        → Returns (fetch_new o fl opts destination repository address filename w)
  unfolding fetch_new fetch verify
  fetch_new-Returns repository address filename destination model w r text server missing reply full
        filled met =
      let partial = beside o destination ".part" in
      let finish : M (String × Fields) =
        metadata_for o destination repository address filename opts >>= λ m.
        verify o law fl opts destination m (write destination none) in
      Ends-bind (λ _ v. v.files partial ≡ some model) (λ _ _. Unit {0}) (λ _ _. ⊥)
        (fetch o partial address) (λ _. replace o partial destination >> finish) w
        (Ends-mono (λ a v. (Fetched o partial w a v × Whole o model partial v) × Unit {0})
          (λ _ v. v.files partial ≡ some model)
          (λ e v.
            Missing o law fl opts repository address filename destination model text server v × ⊥)
          (λ _ _. ⊥) (fetch o partial address w)
          (Ends-both (λ a v. Fetched o partial w a v × Whole o model partial v) (λ _ _. Unit {0})
            (λ e v.
              Missing o law fl opts repository address filename destination model text server v)
            (λ _ _. ⊥) (fetch o partial address w)
            (fetch_both o law fl opts repository address filename destination model text server w
              missing)
            (reply_full o model partial (content_or_empty (w.files partial)) _ r
              (record w { requests = suc w.requests }) filled missing.1 reply full))
          (λ _ v i. i.0.1) (λ e v i. i.1))
        λ _ v there. installed_full repository address filename destination model v there filled met

-- Where a beginning of the model is held, or nothing, and the server answers this request with all
-- the rest, a call returns and the model is there, if the model is not empty and what the caller
-- expects is true of it. The server sends this model only, the address is that of the names, and a
-- suffix that is replaced by a longer one is appended to the path.
pub download_model-completes :
    {H : Type 0} (o : Outside H) (fl : Floats) (opts : Options)
    (repository filename models_dir address : String) (model : List ℕ) (n : ℕ) (w : World)
    (r : Response)
    → SuffixLaw o
    → IsTextOrNull opts.expected_sha256
    → source_url o repository filename opts.revision ≡ url address
    → IsServer o address model
    → Shows o fl opts repository filename models_dir model w (held n)
    → ask o address (content_or_empty (w.files (beside o (o.join models_dir filename) ".part"))) w
      ≡ opened r
    → IsFull o model (if n == 0 then none else some n) r
    → 0 < length model
    → IsMet o opts model
    → Ends
        (λ _ v. v.files (o.join models_dir filename) ≡ some model)
        (λ _ _. ⊥)
        (download_model o fl opts repository filename models_dir w)
download_model-completes o fl opts repository filename models_dir address model n w r law text at
      server (absent, begun, size) reply full filled met =
    let destination = o.join models_dir filename in
    let run = fetch_new o fl opts destination repository address filename w in
    let P : String × Fields → World → Type 0 = λ _ v. v.files destination ≡ some model in
    subst (Ends P (λ _ _. ⊥))
      (absent_lem o fl opts repository filename models_dir address w at absent)
      (Ends-mono (λ _ v. ((v.files destination ≡ some model) × (0 < length model)) × Unit {0}) P
        (λ e v.
          Missing o law fl opts repository address filename destination model text server v × ⊥)
        (λ _ _. ⊥) run
        (Ends-both (λ _ v. (v.files destination ≡ some model) × (0 < length model))
          (λ _ _. Unit {0})
          (λ e v. Missing o law fl opts repository address filename destination model text server v)
          (λ _ _. ⊥) run
          (fetch_new-model o law fl opts repository address filename destination model text server w
            (absent, begun))
          (fetch_new-Returns o fl opts law repository address filename destination model w r text
            server (absent, begun) reply
            (subst (λ k. IsFull o model (if k == 0 then none else some k) r) size full) filled met))
        (λ _ v i. i.0.0) (λ e v i. i.1))
