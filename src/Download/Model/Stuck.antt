-- ===== src/Download/Model/Stuck.antt =====
-- A partial file that is already whole: `download_model` of scripts/download_model.py asks for the
-- bytes behind it.
use llm_inference_optimizati.Base.{
  ℕ, zero, suc, ◌<◌, ◌≡◌, refl, sym, ap, ◌∙◌, String, false, none, some, List, length, ◌==◌, arith,
}
use llm_inference_optimizati.Value.{Floats}
use llm_inference_optimizati.Download.World.{World, raised, raised-bind, download_error}
use llm_inference_optimizati.Download.Outside.{Outside, refused}
use llm_inference_optimizati.Download.Url.{url, source_url}
use llm_inference_optimizati.Download.Metadata.{Options, beside}
use llm_inference_optimizati.Download.Model.{fetch, fetch_new, download_model}
use llm_inference_optimizati.Download.Model.Attempts.{after, attempts, absent_lem}

module _ {H : Type 0} (o : Outside H) (fl : Floats) (opts : Options)
    (repository filename models_dir address : String) (model : List ℕ)
    (at : source_url o repository filename opts.revision ≡ url address) (filled : 0 < length model)
    (refuses : (n : ℕ) → o.open_url n address (some (length model)) ≡ refused) where
  -- The model is not there, but all of it is in the partial file.
  abbrev pub IsLeft : World → Type 0
  IsLeft w =
      (w.files (o.join models_dir filename) ≡ none)
      × (w.files (beside o (o.join models_dir filename) ".part") ≡ some model)

  fetch_refused :
      (w : World)
      → IsLeft w
      → fetch o (beside o (o.join models_dir filename) ".part") address w
        ≡ raised (download_error "download failed") (record w { requests = suc w.requests })
  unfolding fetch
  fetch_refused w (absent, left) =
      let some_bytes : (length model == 0) ≡ false = ground arith in
      rw (fetch, left, some_bytes, refuses w.requests)

  -- A call fails, and changes no file.
  call_lem :
      (w : World)
      → IsLeft w
      → download_model o fl opts repository filename models_dir w
        ≡ raised (download_error "download failed") (record w { requests = suc w.requests })
  unfolding fetch_new
  call_lem w (absent, left) =
      sym (absent_lem o fl opts repository filename models_dir address w at absent)
      ∙ raised-bind (fetch o (beside o (o.join models_dir filename) ".part") address) _ w
          (record w { requests = suc w.requests }) (download_error "download failed")
          (fetch_refused w (absent, left))

  -- If the server refuses every request behind the end of a model that is not empty, as with the status
  -- 416, and all of the model is in the partial file, then every call raises, however many went before
  -- it, and none changes a file.
  pub attempts-stuck :
      (k : ℕ) (w : World)
      → IsLeft w
      → ((attempts o fl opts repository filename models_dir k w).files ≡ w.files)
        × ((n : ℕ) × (download_model o fl opts repository filename models_dir
                (attempts o fl opts repository filename models_dir k w)
              ≡ raised (download_error "download failed") (record w { requests = n })))
  unfolding attempts
  attempts-stuck zero w left = (refl, (suc w.requests, call_lem w left))
  attempts-stuck (suc k) w left =
      let w' : World = record w { requests = suc w.requests } in
      let same : after (download_model o fl opts repository filename models_dir w) ≡ w' =
        ap after (call_lem w left) in
      let next = attempts-stuck k w' left in
      (
        ap (λ v. (attempts o fl opts repository filename models_dir k v).files) same ∙ next.0,
        (
          next.1.0,
          ap
                (λ v.
                  download_model o fl opts repository filename models_dir
                    (attempts o fl opts repository filename models_dir k v))
                same
              ∙ next.1.1,
        ),
      )
