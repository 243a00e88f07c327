-- ===== src/Download/Catalog/Command.antt =====
-- `download_config` and the command line of scripts/download_model.py.
pub mod Runs
use Prim.Native.String.{◌++◌}
use llm_inference_optimizati.Base.{
  String, Bool, false, not, ◌||◌, Option, none, some, List, [], ◌∷◌, ℕ, ℤ, if◌then◌else◌,
}
use llm_inference_optimizati.Text.{empty_text}
use llm_inference_optimizati.Value.{Value, null, obj, Fields, field, end, Floats, get}
use llm_inference_optimizati.Download.World.{
  Outcome, done, raised, Fault, download_error, type_error, M, pure, raise, ◌>>=◌, ◌>>◌,
}
use llm_inference_optimizati.Download.Outside.{Outside}
use llm_inference_optimizati.Download.Metadata.{Options}
use llm_inference_optimizati.Download.Model.{download_model}
use llm_inference_optimizati.Download.Catalog.{
  Document, Python, Converted, integer, no_integer, Checked, accepted, rejected, load_model_config,
}

-- The options as they were parsed; the configuration is the document that its file holds.
pub record Arguments : Type 0 where
  pub repository : Option String
  pub filename : Option String
  pub config : Option Document
  pub models_dir : String

-- `bool(text)`, where none is None
abbrev pub is_given : Option String → Bool
is_given none = false
is_given (some text) = not (empty_text text)

abbrev pub text_or_none : Option String → String
text_or_none none = ""
text_or_none (some text) = text

-- The keyword arguments of a call without any.
abbrev pub default_options : Options
default_options = record {
  logical_id = none;
  quantization = none;
  base_model = none;
  parameter_count = none;
  revision = "main";
  expected_sha256 = null;
  expected_byte_size = null;
}

module _ {H : Type 0} (o : Outside H) (fl : Floats) (python : Python) where
  abbrev pub item_options : Fields → ℤ → Options
  item_options item parameter_count = record {
    logical_id = some (python.text_of (get item "logical_id"));
    quantization = some (python.text_of (get item "quantization"));
    base_model = some (python.text_of (get item "base_model_name"));
    parameter_count = some parameter_count;
    revision = python.text_of (get item "source_revision");
    expected_sha256 = get item "sha256";
    expected_byte_size = get item "byte_size";
  }

  -- The call of `download_model` for one item.
  unfoldable pub download_item : String → Fields → M (String × Fields)
  download_item models_dir item = elim (python.int_of (get item "parameter_count")) [
    | no_integer e ↦ raise e
    | integer n ↦
        download_model o fl (item_options item n) (python.text_of (get item "source_repository"))
          (python.text_of (get item "source_filename")) models_dir
  ]

  unfoldable pub download_items : String → Fields → M (List (String × Fields))
  download_items models_dir end = pure []
  download_items models_dir (field key (obj item) rest) = do
    result ← download_item models_dir item
    results ← download_items models_dir rest
    pure (result ∷ results)
  download_items models_dir (field key v rest) = raise type_error

  unfoldable pub download_config : Document → String → M (List (String × Fields))
  download_config document models_dir = elim (load_model_config fl python document) [
    | rejected e ↦ raise e
    | accepted models ↦ download_items models_dir models
  ]

  -- What is printed of a result.
  abbrev pub result_text : String × Fields → String
  result_text r =
      "model: "
      ++ (r.0
          ++ ("\nbytes: "
              ++ (python.text_of (get r.1 "byte_size")
                  ++ ("\nsha256: " ++ (python.text_of (get r.1 "sha256") ++ "\n")))))

  abbrev pub result_texts : List (String × Fields) → String
  result_texts [] = ""
  result_texts (r ∷ rs) = result_text r ++ result_texts rs

  -- The body of `main`, with what it prints.
  unfoldable pub run : Arguments → M String
  run args = elim args.config [
    | some document ↦
        if is_given args.repository || is_given args.filename
        then raise (download_error "do not combine positional arguments with --config")
        else (do results ← download_config document args.models_dir; pure (result_texts results))
    | none ↦
        if not (is_given args.repository) || not (is_given args.filename)
        then raise (download_error "repository and filename are required without --config")
        else (do
          result ←
              download_model o fl default_options (text_or_none args.repository)
                (text_or_none args.filename) args.models_dir
          pure (result_text result))
  ]

  -- `except DownloadError`, and the exit code.
  abbrev pub exit : Outcome String → Outcome (String × ℕ)
  exit (done text w) = done (text, 0) w
  exit (raised (download_error text) w) = done ("", 1) w
  exit (raised e w) = raised e w

  unfoldable pub main : Arguments → M (String × ℕ)
  main args w = exit (run args w)
