-- ===== src/Download/Catalog.antt =====
-- `load_model_config`, `download_config` and `main` of scripts/download_model.py. A document of the
-- configuration has the values that JSON has, and texts as keys.
pub mod Sound
pub mod Command
pub mod Examples
use Prim.Native.String.{◌++◌}
use llm_inference_optimizati.Base.{
  ℕ, ◌==◌, String, Bool, true, false, not, ◌&&◌, ◌||◌, Option, none, some, List, [], ◌∷◌, ℤ, length,
  any, all, str_eq, if◌then◌else◌,
}
use llm_inference_optimizati.Text.{upper, empty_text}
use llm_inference_optimizati.Value.{
  Value, null, arr, obj, Fields, field, end, Floats, get, has, has_exactly, py_eq, values,
}
use llm_inference_optimizati.Download.World.{
  Outcome, done, raised, Fault, download_error, type_error, unicode_error, M, pure, raise, ◌>>=◌,
  ◌>>◌,
}
use llm_inference_optimizati.Download.Outside.{Outside}
use llm_inference_optimizati.Download.Metadata.{Options}
use llm_inference_optimizati.Download.Model.{download_model}

-- What `yaml.safe_load(path.read_text(encoding="utf-8"))` gives: OSError or YAMLError,
-- UnicodeDecodeError, or a value.
pub data Document : Type 0 where
  unreadable undecodable : Document
  read : Value → Document

-- `int(v)`, or what it raises.
pub data Converted : Type 0 where
  integer : ℤ → Converted
  no_integer : Fault → Converted

-- `str(v)` and `int(v)`
pub record Python : Type 0 where
  pub text_of : Value → String
  pub int_of : Value → Converted

-- The result of a check.
pub data Checked {ℓ} (A : Type ℓ) : Type ℓ where
  accepted : A → Checked A
  rejected : Fault → Checked A

abbrev pub then_check {ℓ κ} : {A : Type ℓ} {B : Type κ} → Checked A → (A → Checked B) → Checked B
then_check (accepted a) next = next a
then_check (rejected e) next = rejected e

-- The keys of the models, each with its quantization.
abbrev pub model_keys : List String
model_keys = "f16" ∷ "q8_0" ∷ "q4_k_m" ∷ []

abbrev pub required_quantization : String → String
required_quantization key =
    if str_eq key "f16" then "F16" else if str_eq key "q8_0" then "Q8_0" else "Q4_K_M"

abbrev pub required : List String
required =
    "logical_id" ∷ "quantization" ∷ "source_repository" ∷ "source_filename" ∷ "local_filename"
    ∷ "base_model_name" ∷ "parameter_count" ∷ "source_revision" ∷ []

-- A value that a set can hold: another one raises TypeError.
abbrev pub hashable : Value → Bool
hashable (arr vs) = false
hashable (obj d) = false
hashable v = true

-- The four values that all models share.
pub record Compatibility : Type 0 where
  pub source_repository : Value
  pub base_model_name : Value
  pub parameter_count : Value
  pub source_revision : Value

abbrev pub compatibility_of : Fields → Compatibility
compatibility_of item = record {
  source_repository = get item "source_repository";
  base_model_name = get item "base_model_name";
  parameter_count = get item "parameter_count";
  source_revision = get item "source_revision";
}

abbrev pub all_hashable : Compatibility → Bool
all_hashable c =
    hashable c.source_repository
    && (hashable c.base_model_name && (hashable c.parameter_count && hashable c.source_revision))

module _ (fl : Floats) (python : Python) where
  abbrev pub same_model : Compatibility → Compatibility → Bool
  same_model c d =
      py_eq fl c.source_repository d.source_repository
      && (py_eq fl c.base_model_name d.base_model_name
          && (py_eq fl c.parameter_count d.parameter_count
              && py_eq fl c.source_revision d.source_revision))

  -- `id in ids`
  abbrev pub is_used : Value → List Value → Bool
  is_used id ids = any (py_eq fl id) ids

  -- `compatibility.add(…)`
  abbrev pub add_compatibility : Compatibility → List Compatibility → List Compatibility
  add_compatibility c cs = if any (same_model c) cs then cs else c ∷ cs

  -- The checks on one item of the loop.
  unfoldable pub check_item : List Value → String → Fields → Checked (Unit {0})
  check_item ids key item =
      if not (all (has item) required)
      then rejected (download_error "missing")
      else if not (hashable (get item "logical_id"))
      then rejected type_error
      else if is_used (get item "logical_id") ids
      then rejected (download_error "duplicate model ID")
      else if not
          (str_eq (upper (python.text_of (get item "quantization"))) (required_quantization key))
      then rejected (download_error "wrong quantization")
      else if not (all_hashable (compatibility_of item))
      then rejected type_error
      else accepted tt

  -- `for key, item in models.items()`
  unfoldable pub check_items :
      List Value → List Compatibility → Fields → Checked (List Compatibility)
  check_items ids cs end = accepted cs
  check_items ids cs (field key (obj item) rest) =
      let later =
        check_items (get item "logical_id" ∷ ids) (add_compatibility (compatibility_of item) cs)
          rest in
      then_check (check_item ids key item) (λ _. later)
  check_items ids cs (field key v rest) = rejected (download_error "must be a mapping")

  unfoldable pub check_models : Fields → Checked Fields
  check_models models =
      if not (has_exactly models model_keys)
      then rejected (download_error "models must contain exactly f16, q8_0, and q4_k_m")
      else then_check (check_items [] [] models) λ cs.
        if not (length cs == 1)
        then rejected (
            download_error
              "models are not compatible: repository, base model, parameter count, or revision differs")
        else accepted models

  -- `raw.get("models") if isinstance(raw, dict) else None`
  abbrev pub models_of : Value → Value
  models_of (obj d) = get d "models"
  models_of v = null

  unfoldable pub load_model_config : Document → Checked Fields
  load_model_config unreadable = rejected (download_error "cannot read model configuration")
  load_model_config undecodable = rejected unicode_error
  load_model_config (read raw) = elim (models_of raw) [
    | obj models ↦ check_models models
    | _ ↦ rejected (download_error "model configuration requires a models mapping")
  ]
