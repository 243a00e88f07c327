-- ===== src/Download/Metadata.antt =====
-- `metadata_for` and `_write_metadata` of scripts/download_model.py, and the comparison of a model's
-- metadata with the file beside it.
use Prim.Native.String.{◌++◌ as append}
use llm_inference_optimizati.Base.{
  ℕ, suc, String, Bool, true, false, not, ◌&&◌, ◌||◌, Option, none, some, List, [], ◌∷◌, ℤ, pos,
  eqb_ℤ, length, str_eq, if◌then◌else◌, ◌==◌,
}
use llm_inference_optimizati.Text.{empty_text, lower, occurs}
use llm_inference_optimizati.Value.{
  Value, null, bool, int, float, str, arr, obj, Fields, field, end, Floats, get, has, py_eq, Items,
  nil, cons,
}
use llm_inference_optimizati.Download.World.{
  done, raised, Fault, download_error, type_error, attribute_error, os_error, M, pure, raise, write,
  ◌>>◌,
}
use llm_inference_optimizati.Download.Outside.{Outside}
use llm_inference_optimizati.Download.Digest.{sha256_file}

-- The keyword arguments of `download_model`. A digest or a size that is expected may be any value,
-- since it comes from a configuration unchecked.
pub record Options : Type 0 where
  pub logical_id : Option String
  pub quantization : Option String
  pub base_model : Option String
  pub parameter_count : Option ℤ
  pub revision : String
  pub expected_sha256 : Value
  pub expected_byte_size : Value

abbrev pub text_or_null : Option String → Value
text_or_null none = null
text_or_null (some s) = str s

abbrev pub int_or_null : Option ℤ → Value
int_or_null none = null
int_or_null (some n) = int n

-- `logical_id or stem`
abbrev pub id_or : Option String → String → String
id_or none stem = stem
id_or (some s) stem = if empty_text s then stem else s

-- `bool(v)`
abbrev pub truthy : Floats → Value → Bool
truthy fl null = false
truthy fl (bool b) = b
truthy fl (int n) = not (eqb_ℤ n (pos 0))
truthy fl (float x) = not (fl.int_eq_float (pos 0) x)
truthy fl (str s) = not (empty_text s)
truthy fl (arr nil) = false
truthy fl (arr (cons v vs)) = true
truthy fl (obj end) = false
truthy fl (obj (field k v d)) = true

-- The fields that identify a model.
abbrev pub identity : List String
identity =
    "logical_model_id" ∷ "quantization" ∷ "source_repository" ∷ "source_filename"
    ∷ "source_revision" ∷ "base_model_name" ∷ "parameter_count" ∷ "byte_size" ∷ "sha256" ∷ []

module _ {H : Type 0} (o : Outside H) where
  -- The record that `metadata_for` makes of a file with this content, at the given time.
  unfoldable pub metadata_of :
      String → String → String → String → Options → List ℕ → String → Fields
  metadata_of path repository url filename opts content time =
      field "logical_model_id" (str (id_or opts.logical_id (o.stem filename))) (
        field "quantization" (text_or_null opts.quantization) (
          field "source_repository" (str repository) (
            field "source_filename" (str filename) (
              field "local_filename" (str (o.path_name path)) (
                field "source_url" (str url) (
                  field "source_revision" (str opts.revision) (
                    field "base_model_name" (text_or_null opts.base_model) (
                      field "parameter_count" (int_or_null opts.parameter_count) (
                        field "download_timestamp" (str time) (
                          field "filename" (str filename) (
                            field "byte_size" (int (pos (length content)))
                              (field "sha256" (str (sha256_file o content 1048576)) end))))))))))))

  unfoldable pub metadata_for : String → String → String → String → Options → M Fields
  metadata_for path repository url filename opts w = elim (w.files path) [
    | none ↦ raised os_error w
    | some content ↦
        if length content == 0
        then raised (download_error "rejecting empty model file") w
        else done (metadata_of path repository url filename opts content (o.clock w.readings))
            (record w { readings = suc w.readings })
  ]

  -- `path.with_suffix(path.suffix + ending)`
  abbrev pub beside : String → String → String
  beside path ending = o.with_suffix path (append (o.suffix path) ending)

  unfoldable pub write_metadata : String → Fields → M (Unit {0})
  write_metadata path metadata = write (beside path ".metadata.json") (some (o.dumps metadata))

-- `any(element == key for element in previous)`, where `previous` is a list
abbrev has_element : Items → String → Bool
has_element nil key = false
has_element (cons (str s) vs) key = str_eq s key || has_element vs key
has_element (cons v vs) key = has_element vs key

-- What the comparison of two metadata comes to.
pub data Comparison : Type 0 where
  agrees differs : Comparison
  fails : Fault → Comparison

abbrev pub any_of : (String → Bool) → List String → Bool
any_of p [] = false
any_of p (k ∷ ks) = p k || any_of p ks

module _ (fl : Floats) where
  -- `any(key in previous and previous.get(key) != metadata.get(key) for key in identity)`; `in` looks
  -- into a list or a text too, of which `.get` raises AttributeError, and raises on other values.
  unfoldable pub compare_identity : Value → Fields → Comparison
  compare_identity (obj previous) metadata =
      if any_of (λ key. has previous key && not (py_eq fl (get previous key) (get metadata key)))
        identity
      then differs
      else agrees
  compare_identity (arr elements) metadata =
      if any_of (has_element elements) identity then fails attribute_error else agrees
  compare_identity (str s) metadata =
      if any_of (λ key. occurs key s) identity then fails attribute_error else agrees
  compare_identity v metadata = fails type_error

  -- `expected and metadata["sha256"] != expected.lower()`
  unfoldable pub compare_sha256 : Value → Fields → Comparison
  compare_sha256 expected metadata =
      if truthy fl expected
      then (elim expected [
        | str s ↦ if py_eq fl (get metadata "sha256") (str (lower s)) then agrees else differs
        | v ↦ fails attribute_error
      ])
      else agrees

  -- `expected and metadata["byte_size"] != expected`
  unfoldable pub compare_byte_size : Value → Fields → Comparison
  compare_byte_size expected metadata =
      if truthy fl expected && not (py_eq fl (get metadata "byte_size") expected)
      then differs
      else agrees

-- `if differs: raise DownloadError(text)`, after `cleanup`
unfoldable pub require_same : Comparison → M (Unit {0}) → String → M (Unit {0})
require_same agrees cleanup text = pure tt
require_same differs cleanup text = do cleanup; raise (download_error text)
require_same (fails e) cleanup text = raise e
