-- ===== src/Workload/Reader.antt =====
-- `read_workload` and `write_workload` of benchmarks/serving_common.py, on the text of a file. The
-- file system and the json module are outside: a file is its text, and `loads` and `dumps` are
-- parameters. That reading in text mode turns each carriage return into a newline changes no line.
pub mod Laws
pub mod RoundTrip
use Prim.Native.Char.{Char, code}
use Prim.Native.String.{◌++◌}
use llm_inference_optimizati.Base.{
  ℕ, ◌+◌, String, Bool, true, ◌&&◌, ◌||◌, leb, ◌==◌, Option, none, some, List, [], ◌∷◌, map, Error,
  Result, ok, err, ◌>>=◌, ◌>>◌, raise_if, contains, any,
}
use llm_inference_optimizati.Text.{is_space}
use llm_inference_optimizati.Text.Lines.{splitlines}
use llm_inference_optimizati.Value.{Value, str, Fields, get_item}
use llm_inference_optimizati.Workload.Record.{validate_workload_record}

-- `not line.strip()`
unfoldable pub is_blank : String → Bool
unfolding is_space
is_blank String.[] = true
is_blank (String.◌∷◌ c s) = is_space c && is_blank s

-- `record["request_id"]`, which a validated record has as a text
unfoldable pub id_of : Fields → Result String
id_of d = do v ← get_item d "request_id"; elim v [ str s ↦ ok s | _ ↦ err Error.type_error ]

-- What `json.loads` makes of a line, or `none` where it raises JSONDecodeError.
module _ (loads : String → Option Value) where
  parse_line : String → Result Value
  parse_line line = elim (loads line) [
    | none ↦ err (Error.invalid "malformed JSON")
    | some v ↦ ok v
  ]

  -- The loop over the numbered lines; `seen` is the set of the ids so far.
  unfoldable pub read_from : ℕ → List String → List String → Result (List Fields)
  unfolding parse_line
  read_from line_number seen [] = ok []
  read_from line_number seen (line ∷ lines) = do
    raise_if (is_blank line) "blank lines are not allowed"
    v ← parse_line line
    record' ← validate_workload_record v line_number
    id ← id_of record'
    raise_if (contains seen id) "duplicate request_id"
    rest ← read_from (line_number + 1) (id ∷ seen) lines
    ok (record' ∷ rest)

  unfoldable pub read_workload : String → Result (List Fields)
  read_workload text = read_from 1 [] (splitlines text)

-- The text that `write_workload` writes; `dumps` is `canonical_json`.
unfoldable pub write_workload : (Fields → String) → List Fields → String
write_workload dumps [] = ""
write_workload dumps (record' ∷ records) = dumps record' ++ ("\n" ++ write_workload dumps records)
