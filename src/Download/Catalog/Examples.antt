-- ===== src/Download/Catalog/Examples.antt =====
-- A configuration of three models, and its downloads from the server of Download/Examples.
use llm_inference_optimizati.Base.{
  ◌≡◌, refl, sym, ap, ◌∙◌, subst, String, none, some, pos, inl, ◌⊎◌, ℕ, List, [], ◌∷◌, ◌+ℤ◌, length,
}
use llm_inference_optimizati.Text.{upper, translated, count_char, has_char}
use llm_inference_optimizati.Value.{
  Value, int, str, obj, Fields, field, end, get, lookup, has_exactly, py_eq,
}
use llm_inference_optimizati.Native.Examples.{whole as floats}
use llm_inference_optimizati.Perf.{shown}
use llm_inference_optimizati.Download.World.{World, Outcome, done, raised, value_error, Ends}
use llm_inference_optimizati.Download.Examples.{lab, full, lab-SuffixLaw, empty_disk}
use llm_inference_optimizati.Download.Outside.{Outside, opened}
use llm_inference_optimizati.Download.Url.{source_url}
use llm_inference_optimizati.Download.Digest.{sha256_file, digest_chunks, take, drop}
use llm_inference_optimizati.Download.Metadata.{
  metadata_for, metadata_of, write_metadata, compare_sha256, compare_byte_size, require_same,
}
use llm_inference_optimizati.Download.Model.{
  download_model, fetch_new, fetch, receive, store_response, check_received, expected_size, replace,
  check_expected,
}
use llm_inference_optimizati.Download.Catalog.{
  Document, read, Python, Converted, integer, no_integer, Checked, accepted, rejected,
  load_model_config, check_models, check_items, check_item,
}
use llm_inference_optimizati.Download.Catalog.Sound.{IsCatalog, load_model_config_sound}
use llm_inference_optimizati.Download.Catalog.Command.{
  download_item, download_items, download_config, main,
}
use llm_inference_optimizati.Download.Catalog.Command.Runs.{
  Downloads, HasTextDigests, download_config_lem, Prints, main-IsResult,
}

abbrev text_of : Value → String
text_of (str s) = s
text_of (int n) = shown n
text_of v = ""

abbrev int_of : Value → Converted
int_of (int n) = integer n
int_of v = no_integer value_error

abbrev python : Python
python = record { text_of = text_of; int_of = int_of }

abbrev item : String → String → Fields
item id quantization = field "logical_id" (str id) (
    field "quantization" (str quantization) (
      field "source_repository" (str "owner/name") (
        field "source_filename" (str id) (
          field "local_filename" (str id) (
            field "base_model_name" (str "base") (
              field "parameter_count" (int (pos 7)) (field "source_revision" (str "main") end)))))))

abbrev models : Fields
models = field "f16" (obj (item "model-f16" "f16")) (
    field "q8_0" (obj (item "model-q8" "Q8_0"))
      (field "q4_k_m" (obj (item "model-q4" "q4_K_m")) end))

abbrev document : Document
document = read (obj (field "models" (obj models) end))

catalog_loads : load_model_config floats python document ≡ accepted models
unfolding load_model_config check_models check_items check_item has_exactly lookup get py_eq upper
    translated
catalog_loads = refl

load_model_config_example :
    (raw : Fields) × (document ≡ read (obj raw))
    × (get raw "models" ≡ obj models)
    × IsCatalog floats python models
load_model_config_example = load_model_config_sound floats python document models catalog_loads

abbrev found : Checked Fields → Fields
found (accepted d) = d
found (rejected e) = end

-- A server that sends the whole of the model for each request.
abbrev steady_lab : Outside (List ℕ)
steady_lab = record lab { open_url = λ n address offset. opened full }

-- None of the items has a digest.
without_digests :
    (out : Fields)
    → load_model_config floats python document ≡ accepted out
    → HasTextDigests steady_lab floats python "models" out
unfolding get lookup
without_digests out h =
    subst (HasTextDigests steady_lab floats python "models") (ap found (sym catalog_loads ∙ h))
      (inl refl, (inl refl, (inl refl, tt)))

abbrev results_in : Outcome (List (String × Fields)) → List (String × Fields)
results_in (done rs w) = rs
results_in (raised e w) = []

abbrev world_in : {A : Type 0} → Outcome A → World
world_in (done rs w) = w
world_in (raised e w) = w

abbrev run_config : Outcome (List (String × Fields))
run_config = download_config steady_lab floats python document "models" empty_disk

-- All three models are downloaded, the last one too.
download_config_returns :
    (run_config ≡ done (results_in run_config) (world_in run_config))
    × (length (results_in run_config) ≡ 3)
    × ((world_in run_config).files "models/model-q4" ≡ some (10 ∷ 20 ∷ 30 ∷ []))
unfolding download_config load_model_config check_models check_items check_item has_exactly lookup
    get py_eq upper translated download_items download_item download_model fetch_new fetch receive
    store_response check_received expected_size replace metadata_for metadata_of check_expected
    compare_sha256 compare_byte_size require_same write_metadata source_url count_char has_char
    sha256_file digest_chunks take drop ◌+ℤ◌
download_config_returns = (refl, refl, refl)

-- The run returns, so that what the theorem gives is the three downloads.
download_config_example :
    (out : Fields) × (load_model_config floats python document ≡ accepted out)
    × Downloads steady_lab floats python "models" out empty_disk
        (results_in run_config)
        (world_in run_config)
unfolding download_config load_model_config check_models check_items check_item has_exactly lookup
    get py_eq upper translated download_items download_item download_model fetch_new fetch receive
    store_response check_received expected_size replace metadata_for metadata_of check_expected
    compare_sha256 compare_byte_size require_same write_metadata source_url count_char has_char
    sha256_file digest_chunks take drop ◌+ℤ◌
download_config_example =
    download_config_lem steady_lab floats python "models" document empty_disk lab-SuffixLaw
      without_digests

main-IsResult_example :
    Ends
      (λ out v.
        ((out.1 ≡ 0)
          × Prints lab floats python "owner/name" "model.gguf" "models" empty_disk out.0 v)
        ⊎ ((out.1 ≡ 1) × (v.files "models/model.gguf" ≡ none)))
      (λ e v. v.files "models/model.gguf" ≡ none)
      (main lab floats python
        (record {
          repository = some "owner/name";
          filename = some "model.gguf";
          config = none;
          models_dir = "models";
        })
        empty_disk)
main-IsResult_example =
    main-IsResult lab floats python "owner/name" "model.gguf" "models" empty_disk lab-SuffixLaw
