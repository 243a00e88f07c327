-- ===== src/Download/Outside.antt =====
-- What scripts/download_model.py uses of the libraries: urllib, hashlib, json, pathlib and the clock.
use Prim.Native.String.{◌++◌ as append}
use llm_inference_optimizati.Base.{ℕ, ◌≡◌, String, Option, List, [], ◌++◌, ℤ}
use llm_inference_optimizati.Value.{Value, Fields}

-- How reading a response ends after its chunks: cleanly, with an exception that the script catches
-- (OSError, URLError, ValueError), or with another one.
pub data Ending : Type 0 where
  complete caught uncaught : Ending

-- A response, with the attribute `status` if it has one and the header Content-Length.
pub record Response : Type 0 where
  pub status : Option ℕ
  pub content_length : Option String
  pub chunks : List (List ℕ)
  pub ending : Ending

-- What `opener` does: it raises an exception that is caught, another one, or returns.
pub data Reply : Type 0 where
  refused broken : Reply
  opened : Response → Reply

-- What `json.loads(text)` gives: a value, JSONDecodeError, or UnicodeDecodeError while reading.
pub data Parsed : Type 0 where
  parsed : Value → Parsed
  malformed undecodable : Parsed

-- `H` is the state of a digest.
pub record Outside (H : Type 0) : Type 0 where
  -- `opener(Request(url, headers))`, the n-th request, with the offset of the header Range
  pub open_url : ℕ → String → Option ℕ → Reply
  -- `datetime.now(timezone.utc).isoformat()`, the n-th time
  pub clock : ℕ → String
  -- `hashlib.sha256()`, `update` and `hexdigest`
  pub start : H
  pub update : H → List ℕ → H
  pub hexdigest : H → String
  -- `json.dumps(metadata, indent=2, sort_keys=True) + "\n"` in UTF-8, and `json.loads`
  pub dumps : Fields → List ℕ
  pub loads : List ℕ → Parsed
  -- `int(text)`, none for ValueError
  pub parse_int : String → Option ℤ
  -- `urllib.parse.quote`
  pub quote : String → String
  -- `Path(text).name`, `.stem` and `.suffix`, `path.with_suffix(text)`, and `path / name`
  pub path_name : String → String
  pub stem : String → String
  pub suffix : String → String
  pub with_suffix : String → String → String
  pub join : String → String → String

-- A digest of two pieces is the digest of both.
pub record HashLaws {H : Type 0} (o : Outside H) : Type 0 where
  pub update_nil : (h : H) → o.update h [] ≡ h
  pub update_append : (h : H) (xs ys : List ℕ) → o.update (o.update h xs) ys ≡ o.update h (xs ++ ys)

-- Replacing a path's suffix by a longer one appends to the path. This is what pathlib does wherever it
-- does not raise ValueError, as for a path without a name; `source_url` lets no such name pass.
abbrev pub SuffixLaw : {H : Type 0} → Outside H → Type 0
SuffixLaw o = (p s : String) → o.with_suffix p (append (o.suffix p) s) ≡ append p s
