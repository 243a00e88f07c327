-- ===== src/Download/Model/Again.antt =====
-- A call of `download_model` for a model that an earlier call has installed.
use llm_inference_optimizati.Base.{
  ℕ, ◌<◌, ◌≡◌, refl, sym, ap, ◌∙◌, subst, String, Bool, true, false, not, ◌&&◌, ◌||◌, Option, none,
  some, List, [], ◌∷◌, ℤ, pos, length, str_eq_iff, arith,
}
use llm_inference_optimizati.Value.{Value, str, obj, Fields, Floats, get, lookup, has, py_eq}
use llm_inference_optimizati.Download.World.{
  World, done, pure, Ends, Ends-bind, Ends-mono, Ends-both, ◌>>◌,
}
use llm_inference_optimizati.Download.Outside.{Outside, SuffixLaw, parsed}
use llm_inference_optimizati.Download.Url.{url, source_url}
use llm_inference_optimizati.Download.Metadata.{
  Options, beside, metadata_of, metadata_for, agrees, identity, any_of, compare_identity,
  require_same, text_or_null, int_or_null,
}
use llm_inference_optimizati.Download.Model.{check_previous, keep_existing, download_model}
use llm_inference_optimizati.Download.Model.Steps.{IsTextOrNull, Made, metadata_for_lem}
use llm_inference_optimizati.Download.Model.Sound.{IsInstalled}
use llm_inference_optimizati.Download.Model.Install.{Installs, verify, keep_existing_lem}
use llm_inference_optimizati.Download.Model.Attempts.{there_lem}
use llm_inference_optimizati.Download.Model.Complete.{verify_full}
use llm_inference_optimizati.Download.Model.Full.{Returns, IsMet}

-- `json.loads` of the metadata that `json.dumps` has written gives a mapping with the same values,
-- whatever the order of its keys.
abbrev pub ReadsBack : {H : Type 0} → Outside H → Fields → Type 0
ReadsBack o m =
    (read : Fields) × (o.loads (o.dumps m) ≡ parsed (obj read))
    × ((k : String) → get read k ≡ get m k)

module _ {H : Type 0} (o : Outside H) (fl : Floats) (opts : Options) where
  str_same : (s : String) → py_eq fl (str s) (str s) ≡ true
  unfolding py_eq
  str_same s = (str_eq_iff s s).1 refl

  text_same : (s : Option String) → py_eq fl (text_or_null s) (text_or_null s) ≡ true
  unfolding py_eq
  text_same none = refl
  text_same (some s) = (str_eq_iff s s).1 refl

  int_same : (n : Option ℤ) → py_eq fl (int_or_null n) (int_or_null n) ≡ true
  unfolding py_eq
  int_same none = refl
  int_same (some n) = ground arith

  -- Each of the keys has the same value in both.
  abbrev AllSame : Fields → Fields → List String → Type 0
  AllSame read m [] = Unit {0}
  AllSame read m (k ∷ ks) = (py_eq fl (get read k) (get m k) ≡ true) × AllSame read m ks

  none_differs :
      (read m : Fields) (ks : List String)
      → AllSame read m ks
      → any_of (λ key. has read key && not (py_eq fl (get read key) (get m key))) ks ≡ false
  none_differs read m [] h = refl
  none_differs read m (k ∷ ks) (first, rest) =
      let later = none_differs read m ks rest in
      by_key (has read k) (py_eq fl (get read k) (get m k)) _ first later
    where
      by_key : (a b c : Bool) → b ≡ true → c ≡ false → ((a && not b) || c) ≡ false
      by_key a b c h k = ground arith

  -- The metadata of one content agree, whenever they were made.
  identity_lem :
      (path repository address filename time later : String) (content : List ℕ) (read : Fields)
      → let m = metadata_of o path repository address filename opts content time in
        ((k : String) → get read k ≡ get m k)
        → compare_identity fl
            (obj read)
            (metadata_of o path repository address filename opts content later)
          ≡ agrees
  unfolding compare_identity metadata_of get lookup
  identity_lem path repository address filename time later content read same =
      let equal : (k : String) (v : Value)
          → get read k ≡ v
          → py_eq fl v v ≡ true
          → py_eq fl (get read k) v ≡ true =
        λ k v e h. ap (λ x. py_eq fl x v) e ∙ h in
      let m : Fields = metadata_of o path repository address filename opts content later in
      rw (
        none_differs read m identity (
          equal "logical_model_id" _ (same "logical_model_id") (str_same _),
          (
            equal "quantization" _ (same "quantization") (text_same opts.quantization),
            (
              equal "source_repository" _ (same "source_repository") (str_same repository),
              (
                equal "source_filename" _ (same "source_filename") (str_same filename),
                (
                  equal "source_revision" _ (same "source_revision") (str_same opts.revision),
                  (
                    equal "base_model_name" _ (same "base_model_name") (text_same opts.base_model),
                    (
                      equal "parameter_count" _ (same "parameter_count")
                          (int_same opts.parameter_count),
                      (
                        equal "byte_size" _ (same "byte_size")
                            (int_same (some (pos (length content)))),
                        (equal "sha256" _ (same "sha256") (str_same _), tt),
                      ),
                    ),
                  ),
                ),
              ),
            ),
          ),
        ))

  check_previous_same :
      (path : String) (metadata : Fields) (bytes : List ℕ) (previous : Value) (w : World)
      → w.files path ≡ some bytes
      → o.loads bytes ≡ parsed previous
      → compare_identity fl previous metadata ≡ agrees
      → check_previous o fl opts path metadata w ≡ done tt w
  unfolding check_previous require_same
  check_previous_same path metadata bytes previous w at read same =
      rw (check_previous, at, read, same)

  -- The branch of a model that is there returns, where the metadata are those of the content.
  keep_existing-Returns :
      (repository address filename destination time : String) (content : List ℕ) (w : World)
      → (law : SuffixLaw o)
      → ReadsBack o (metadata_of o destination repository address filename opts content time)
      → IsMet o opts content
      → w.files destination ≡ some content
      → 0 < length content
      → w.files (beside o destination ".metadata.json")
        ≡ some (o.dumps (metadata_of o destination repository address filename opts content time))
      → Returns (keep_existing o fl opts destination repository address filename w)
  unfolding keep_existing verify
  keep_existing-Returns repository address filename destination time content w law written met at
        filled recorded =
      let path = beside o destination ".metadata.json" in
      Ends-bind (Made o destination repository address filename opts content w) (λ _ _. Unit {0})
        (λ _ _. ⊥) (metadata_for o destination repository address filename opts)
        (λ m. check_previous o fl opts path m >> verify o law fl opts destination m (pure tt)) w
        (metadata_for_lem o destination repository address filename opts w content (λ _ _. ⊥) at
          (λ h. absurd (omega (arith, filled))))
        λ m v made.
          Ends-bind (λ _ _. Unit {0}) (λ _ _. Unit {0}) (λ _ _. ⊥) (check_previous o fl opts path m)
            (λ _. verify o law fl opts destination m (pure tt)) v
            (subst (Returns {A = Unit {0}})
              (sym (
                check_previous_same path m _ (obj written.0) v (ap (λ f. f path) made.1 ∙ recorded)
                  written.1
                  (ap (compare_identity fl (obj written.0)) made.0
                    ∙ identity_lem destination repository address filename time (o.clock w.readings)
                        content written.0 written.2)))
              tt)
            λ _ u _.
              verify_full o fl opts law repository address filename destination _ content m
                (pure tt) u met made.0

  -- A call for a model that is installed, with options that are true of it, returns without a request,
  -- and the model is still installed. It is supposed that a suffix replaced by a longer one is appended
  -- to the path and that json reads back the metadata that it writes.
  pub download_model-again :
      (repository address filename models_dir : String) (content : List ℕ) (m : Fields) (w : World)
      → SuffixLaw o
      → ReadsBack o m
      → IsTextOrNull opts.expected_sha256
      → IsMet o opts content
      → source_url o repository filename opts.revision ≡ url address
      → IsInstalled o opts repository address filename (o.join models_dir filename) content m w
      → Ends
          (λ r v.
            (r.0 ≡ o.join models_dir filename)
            × IsInstalled o opts repository address filename
                (o.join models_dir filename)
                content
                r.1
                v
            × (v.requests ≡ w.requests))
          (λ _ _. ⊥)
          (download_model o fl opts repository filename models_dir w)
  download_model-again repository address filename models_dir content m w law json text met at
        there =
      let destination = o.join models_dir filename in
      let call = keep_existing o fl opts destination repository address filename w in
      let P : String × Fields → World → Type 0 = λ r v.
        (r.0 ≡ destination)
        × IsInstalled o opts repository address filename destination content r.1 v
        × (v.requests ≡ w.requests) in
      let returns =
        keep_existing-Returns repository address filename destination there.time content w law
          (subst (ReadsBack o) there.described json) met there.content_at there.filled
          (there.recorded ∙ ap (λ d. some (o.dumps d)) there.described) in
      subst (Ends P (λ _ _. ⊥))
        (there_lem o fl opts repository filename models_dir address content w at there.content_at)
        (Ends-mono
          (λ r v.
            Installs o law fl opts repository address filename destination content w r v × Unit {0})
          P (λ e v. (v.files ≡ w.files) × ⊥) (λ _ _. ⊥) call
          (Ends-both (Installs o law fl opts repository address filename destination content w)
            (λ _ _. Unit {0}) (λ e v. v.files ≡ w.files) (λ _ _. ⊥) call
            (keep_existing_lem o law fl opts repository address filename destination content w text
              there.content_at)
            returns)
          (λ r v i. (i.0.0, i.0.1, i.0.3)) (λ e v i. i.1))
