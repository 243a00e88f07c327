-- ===== src/Download/Model/Resume.antt =====
-- Calls of `download_model` against a server of one model: what they leave, whichever way they end,
-- is a step of a small specification of a download.
use llm_inference_optimizati.Base.{
  ℕ, ◌<◌, ◌≡◌, sym, ap, ◌∙◌, String, none, some, List, ◌++◌, length, arith,
}
use llm_inference_optimizati.Value.{Fields, Floats}
use llm_inference_optimizati.Download.World.{
  World, M, write, put_file, Ends, Ends-bind, Ends-mono, Ends-both, ◌>>=◌, ◌>>◌,
}
use llm_inference_optimizati.Download.Outside.{Outside, SuffixLaw}
use llm_inference_optimizati.Download.Metadata.{Options, beside, metadata_for}
use llm_inference_optimizati.Download.Model.{content_or_empty, fetch, replace, fetch_new}
use llm_inference_optimizati.Download.Model.Steps.{
  put_file_self, put_file_other, part-ne, ne-part, Made, metadata_for_lem, IsTextOrNull,
}
use llm_inference_optimizati.Download.Model.Sound.{SameBut, Fetched, fetch_lem}
use llm_inference_optimizati.Download.Model.Install.{Installs, verify, verify-Made}
use llm_inference_optimizati.Download.Model.Serving.{IsServer, Whole, Started, fetch-Whole}

module _ {H : Type 0} (o : Outside H) (law : SuffixLaw o) (fl : Floats) (opts : Options)
    (repository address filename destination : String) (model : List ℕ)
    (text : IsTextOrNull opts.expected_sha256) (server : IsServer o address model) where
  -- The model is not there, and the partial file is a beginning of it.
  abbrev pub Missing : World → Type 0
  Missing w = (w.files destination ≡ none) × Started o model (beside o destination ".part") w

  -- The fetch, and that it left the model's file alone.
  pub fetch_both :
      (w : World)
      → Missing w
      → Ends
          (λ a v.
            Fetched o (beside o destination ".part") w a v
            × Whole o model (beside o destination ".part") v)
          (λ e v. Missing v)
          (fetch o (beside o destination ".part") address w)
  fetch_both w missing =
      let partial = beside o destination ".part" in
      Ends-mono _ (λ a v. Fetched o partial w a v × Whole o model partial v)
        (λ e v. SameBut partial w v × Started o model partial v) (λ e v. Missing v)
        (fetch o partial address w)
        (Ends-both (Fetched o partial w) (λ _ v. Whole o model partial v)
          (λ e v. SameBut partial w v) (λ e v. Started o model partial v)
          (fetch o partial address w) (fetch_lem o partial address w)
          (fetch-Whole o model partial address w server missing.1))
        (λ a v i. i) (λ e v i. (i.0 destination (part-ne o law destination) ∙ missing.0, i.1))

  -- The steps behind the fetch, on the whole model.
  installed_lem :
      (v : World)
      → v.files (beside o destination ".part") ≡ some model
      → 0 < length model
      → Ends
          (λ r u. u.files destination ≡ some model)
          (λ e u. Missing u)
          ((replace o (beside o destination ".part") destination
              >> (metadata_for o destination repository address filename opts >>= λ m.
                  verify o law fl opts destination m (write destination none)))
            v)
  unfolding replace
  installed_lem v held filled =
      let partial = beside o destination ".part" in
      let moved = put_file v.files destination (v.files partial) in
      let v' : World = record v { files = put_file moved partial none } in
      let at : v'.files destination ≡ some model =
        put_file_other moved partial destination none (part-ne o law destination)
        ∙ (put_file_self v.files destination _ ∙ held) in
      Ends-bind (Made o destination repository address filename opts model v')
        (λ r u. u.files destination ≡ some model) (λ e u. Missing u)
        (metadata_for o destination repository address filename opts)
        (λ m. verify o law fl opts destination m (write destination none)) v'
        (metadata_for_lem o destination repository address filename opts v' model _ at
          (λ h. absurd (omega (arith, filled))))
        λ m u made.
          Ends-mono (Installs o law fl opts repository address filename destination model v')
            (λ r u. u.files destination ≡ some model) (λ e u. Missing u) (λ e u. Missing u)
            (verify o law fl opts destination m (write destination none) u)
            (verify-Made o law fl opts repository address filename destination model
              (write destination none) v' u m (λ e u. Missing u) text at made
              (λ e. (
                put_file_self u.files destination none,
                (
                  model,
                  ap (λ f. content_or_empty f ++ model)
                      (sym (
                        put_file_other u.files destination partial none (ne-part o law destination)
                        ∙ (ap (λ f. f partial) made.1 ∙ put_file_self moved partial none))),
                ),
              )))
            (λ r x i. i.1.content_at) (λ e x q. q)

  -- A download from whatever is held.
  pub fetch_new-model :
      (w : World)
      → Missing w
      → Ends
          (λ r u. (u.files destination ≡ some model) × (0 < length model))
          (λ e u. Missing u)
          (fetch_new o fl opts destination repository address filename w)
  unfolding fetch_new verify
  fetch_new-model w missing =
      let partial = beside o destination ".part" in
      let P : String × Fields → World → Type 0 =
        λ r u. (u.files destination ≡ some model) × (0 < length model) in
      let finish : M (String × Fields) =
        metadata_for o destination repository address filename opts >>= λ m.
        verify o law fl opts destination m (write destination none) in
      Ends-bind (λ a v. Fetched o partial w a v × Whole o model partial v) P (λ e u. Missing u)
        (fetch o partial address) (λ _. replace o partial destination >> finish) w
        (fetch_both w missing)
        λ a v i.
          let same : some model ≡ some i.0.1.0 = sym i.1 ∙ i.0.1.1 in
          let filled : 0 < length model = ground (arith, i.0.1.2) in
          Ends-mono (λ r u. u.files destination ≡ some model) P (λ e u. Missing u)
            (λ e u. Missing u) ((replace o partial destination >> finish) v)
            (installed_lem v i.1 filled) (λ r u q. (q, filled)) (λ e u q. q)
