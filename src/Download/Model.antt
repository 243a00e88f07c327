-- ===== src/Download/Model.antt =====
-- `download_model` of scripts/download_model.py: a model that is there is checked against its metadata,
-- one that is not is downloaded into a partial file, which a later call resumes.
pub mod Steps
pub mod Sound
pub mod Install
pub mod Whole
pub mod Serving
pub mod Resume
pub mod Attempts
pub mod Full
pub mod Complete
pub mod Stuck
pub mod Again
use llm_inference_optimizati.Base.{
  ℕ, suc, ◌+◌, String, Bool, true, false, not, ◌&&◌, ◌||◌, Option, none, some, List, [], ◌∷◌, ◌++◌,
  ℤ, pos, ◌+ℤ◌, eqb_ℤ, length, ltb, ◌==◌, if◌then◌else◌,
}
use llm_inference_optimizati.Value.{Value, Fields, Floats}
use llm_inference_optimizati.Download.World.{
  World, Outcome, done, raised, Fault, download_error, unicode_error, http_error, os_error, M, pure,
  raise, refuse, write, put_file, ◌>>=◌, ◌>>◌,
}
use llm_inference_optimizati.Download.Outside.{
  Outside, Ending, complete, caught, uncaught, Response, Reply, refused, broken, opened, Parsed,
  parsed, malformed, undecodable,
}
use llm_inference_optimizati.Download.Url.{Url, url, bad_url, source_url}
use llm_inference_optimizati.Download.Metadata.{
  Options, beside, metadata_for, write_metadata, Comparison, compare_identity, compare_sha256,
  compare_byte_size, require_same,
}

-- What the loop `while chunk := response.read(…)` has written, and how it ended: an empty chunk ends
-- it.
abbrev pub received : List (List ℕ) → Ending → List ℕ × Ending
received [] ending = ([], ending)
received ([] ∷ chunks) ending = ([], complete)
received ((x ∷ xs) ∷ chunks) ending =
    let rest = received chunks ending in ((x ∷ xs) ++ rest.0, rest.1)

abbrev pub content_or_empty : Option (List ℕ) → List ℕ
content_or_empty none = []
content_or_empty (some content) = content

-- `getattr(response, "status", 200)`
abbrev pub status_of : Option ℕ → ℕ
status_of none = 200
status_of (some n) = n

-- The number of bytes that Content-Length promises, in all: none where the header is absent.
pub data Expected : Type 0 where
  unknown : Expected
  bytes : ℤ → Expected
  not_a_number : Expected

module _ {H : Type 0} (o : Outside H) where
  unfoldable pub expected_size : Option String → ℕ → Expected
  expected_size none base = unknown
  expected_size (some text) base = elim (o.parse_int text) [
    | none ↦ not_a_number
    | some n ↦ bytes (pos base +ℤ n)
  ]

  abbrev pub is_short : Expected → ℕ → Bool
  is_short (bytes n) actual = not (eqb_ℤ (pos actual) n)
  is_short _ actual = false

  -- The rest of the download, once the partial file holds `content`.
  unfoldable pub check_received : Expected → List ℕ → Ending → M (Unit {0})
  check_received expected content caught = raise (download_error "download failed")
  check_received expected content uncaught = raise http_error
  check_received expected content complete = do
    refuse (length content == 0) "download returned an empty file"
    refuse (is_short expected (length content)) "incomplete download"

  -- The writing of a response behind `base`, the part of the file that is kept.
  unfoldable pub store_response : Expected → String → List ℕ → Response → M (Unit {0})
  store_response not_a_number partial base r = raise (download_error "download failed")
  store_response expected partial base r = do
    let got = received r.chunks r.ending
    write partial (some (base ++ got.0))
    check_received expected (base ++ got.0) got.1

  -- The body of `with opener(…) as response`, on a partial file of which `old` is the content.
  unfoldable pub receive : String → List ℕ → Response → M (Unit {0})
  receive partial old r =
      let resumed = ltb 0 (length old) && status_of r.status == 206 in
      let base = if resumed then old else [] in
      store_response (expected_size r.content_length (length base)) partial base r

  -- The request, with a Range header if there is a partial file that is not empty.
  abbrev pub ask : String → List ℕ → World → Reply
  ask address old w =
      o.open_url w.requests address (if length old == 0 then none else some (length old))

  -- From the partial file to a complete one.
  unfoldable pub fetch : String → String → M (Unit {0})
  fetch partial address w =
      let old = content_or_empty (w.files partial) in
      let w' : World = record w { requests = suc w.requests } in
      elim (ask address old w) [
        | refused ↦ raised (download_error "download failed") w'
        | broken ↦ raised http_error w'
        | opened r ↦ receive partial old r w'
      ]

  -- `partial.replace(destination)`
  unfoldable pub replace : String → String → M (Unit {0})
  replace partial destination w =
      done tt (record w {
        files = put_file (put_file w.files destination (w.files partial)) partial none;
      })

  module _ (fl : Floats) (opts : Options) where
    -- The metadata of a model that is there, against those of the file beside it.
    unfoldable pub check_previous : String → Fields → M (Unit {0})
    check_previous metadata_path metadata w = elim (w.files metadata_path) [
      | none ↦ done tt w
      | some content ↦ elim (o.loads content) [
        | malformed ↦ raised (download_error "cannot read existing metadata") w
        | undecodable ↦ raised unicode_error w
        | parsed previous ↦
            require_same (compare_identity fl previous metadata) (pure tt)
              "existing model does not match its metadata; remove it and retry" w
      ]
    ]

    -- The checks against the digest and the size that are expected.
    unfoldable pub check_expected : Fields → M (Unit {0}) → M (Unit {0})
    check_expected metadata cleanup = do
      require_same (compare_sha256 fl opts.expected_sha256 metadata) cleanup "checksum mismatch"
      require_same (compare_byte_size fl opts.expected_byte_size metadata) cleanup
          "byte-size mismatch"

    -- The branch of a model that is there.
    unfoldable pub keep_existing : String → String → String → String → M (String × Fields)
    keep_existing destination repository address filename = do
      metadata ← metadata_for o destination repository address filename opts
      check_previous (beside o destination ".metadata.json") metadata
      check_expected metadata (pure tt)
      write_metadata o destination metadata
      pure (destination, metadata)

    -- The branch of one that is downloaded.
    unfoldable pub fetch_new : String → String → String → String → M (String × Fields)
    fetch_new destination repository address filename = do
      fetch (beside o destination ".part") address
      replace (beside o destination ".part") destination
      metadata ← metadata_for o destination repository address filename opts
      check_expected metadata (write destination none)
      write_metadata o destination metadata
      pure (destination, metadata)

    unfoldable pub download_model : String → String → String → M (String × Fields)
    download_model repository filename models_dir w =
        elim (source_url o repository filename opts.revision) [
          | bad_url e ↦ raised e w
          | url address ↦
              let destination = o.join models_dir filename in
              elim (w.files destination) [
                | none ↦ fetch_new destination repository address filename w
                | some content ↦ keep_existing destination repository address filename w
              ]
        ]
