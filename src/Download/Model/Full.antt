-- ===== src/Download/Model/Full.antt =====
-- The steps of `download_model` that do not raise: the checks on a model of which the expectations are
-- true, and a response that sends all the rest.
use llm_inference_optimizati.Base.{
  ℕ, ◌<◌, ◌≡◌, refl, sym, ap, ◌∙◌, subst, String, Option, none, some, List, [], ◌++◌, length, arith,
  inl, inr, ◌⊎◌, pos, false, true, str_eq_iff, ◌==◌, if◌then◌else◌,
}
use llm_inference_optimizati.Text.{lower}
use llm_inference_optimizati.Value.{Value, null, str, int, Fields, Floats, get, lookup, py_eq}
use llm_inference_optimizati.Download.World.{
  World, Outcome, done, raised, download_error, http_error, M, Ends,
}
use llm_inference_optimizati.Download.Outside.{
  Outside, Response, Reply, refused, broken, opened, complete,
}
use llm_inference_optimizati.Download.Digest.{sha256_file}
use llm_inference_optimizati.Download.Metadata.{
  Options, metadata_of, agrees, compare_sha256, compare_byte_size, require_same,
}
use llm_inference_optimizati.Download.Model.{
  received, Expected, unknown, bytes, not_a_number, expected_size, check_received, store_response,
  receive, check_expected,
}
use llm_inference_optimizati.Download.Model.Serving.{
  Serves, IsStart, base_lem, announces_lem, append_nil,
}

-- A run that returns.
abbrev pub Returns {ℓ} : {A : Type ℓ} → Outcome A → Type 0
Returns c = Ends (λ _ _. Unit {0}) (λ _ _. ⊥) c

-- What the caller expects is true of the model, where it expects anything.
abbrev pub IsMet : {H : Type 0} → Outside H → Options → List ℕ → Type 0
IsMet o opts model =
    ((opts.expected_sha256 ≡ null)
      ⊎ ((s : String) × (opts.expected_sha256 ≡ str s) × (sha256_file o model 1048576 ≡ lower s)))
    × ((opts.expected_byte_size ≡ null) ⊎ (opts.expected_byte_size ≡ int (pos (length model))))

module _ {H : Type 0} (o : Outside H) (fl : Floats) (opts : Options) where
  sha_agrees :
      (m : Fields) (digest : String) (expected : Value)
      → get m "sha256" ≡ str digest
      → ((expected ≡ null) ⊎ ((s : String) × (expected ≡ str s) × (digest ≡ lower s)))
      → compare_sha256 fl expected m ≡ agrees
  unfolding compare_sha256 py_eq
  sha_agrees m digest expected at (inl absent) = rw absent
  sha_agrees m digest expected at (inr (s, same, met)) = ground (arith, str_eq_iff digest (lower s))

  size_agrees :
      (m : Fields) (k : ℕ) (expected : Value)
      → get m "byte_size" ≡ int (pos k)
      → ((expected ≡ null) ⊎ (expected ≡ int (pos k)))
      → compare_byte_size fl expected m ≡ agrees
  unfolding compare_byte_size py_eq
  size_agrees m k expected at h = ground arith

  pub check_expected-met :
      (path repository address filename time : String) (model : List ℕ) (cleanup : M (Unit {0}))
      (w : World)
      → IsMet o opts model
      → check_expected o fl opts
          (metadata_of o path repository address filename opts model time)
          cleanup
          w
        ≡ done tt w
  unfolding check_expected require_same metadata_of get lookup
  check_expected-met path repository address filename time model cleanup w met =
      let m : Fields = metadata_of o path repository address filename opts model time in
      rw (
        sha_agrees m (sha256_file o model 1048576) opts.expected_sha256 refl met.0,
        size_agrees m (length model) opts.expected_byte_size refl met.1,
      )

-- A response that sends the rest of the model, without an error.
abbrev pub IsFull :
    {H : Type 0} (o : Outside H) (model : List ℕ) (offset : Option ℕ) → Response → Type 0
IsFull o model offset r =
    (s : Serves o model offset r) × (s.rest ≡ []) × ((received r.chunks r.ending).1 ≡ complete)

module _ {H : Type 0} (o : Outside H) (model : List ℕ) where
  check_received-full :
      (expected : Expected) (w : World)
      → 0 < length model
      → ((expected ≡ unknown) ⊎ (expected ≡ bytes (pos (length model))))
      → check_received o expected model complete w ≡ done tt w
  unfolding check_received
  check_received-full expected w filled h =
      let some_bytes : (length model == 0) ≡ false = ground arith in
      let same : (length model == length model) ≡ true = ground arith in
      elim h [
        | inl absent ↦ rw (absent, some_bytes)
        | inr announced ↦ rw (announced, some_bytes, same)
      ]

  store_response-Returns :
      (expected : Expected) (partial : String) (base : List ℕ) (r : Response) (w : World)
      → 0 < length model
      → base ++ (received r.chunks r.ending).0 ≡ model
      → (received r.chunks r.ending).1 ≡ complete
      → (expected ≡ unknown) ⊎ (expected ≡ bytes (pos (length model)))
      → Returns (store_response o expected partial base r w)
  unfolding store_response
  store_response-Returns not_a_number partial base r w filled split whole h = absurd (ground arith)
  store_response-Returns unknown partial base r w filled split whole h =
      rw (split, whole, check_received-full unknown _ filled h) tt
  store_response-Returns (bytes n) partial base r w filled split whole h =
      rw (split, whole, check_received-full (bytes n) _ filled h) tt

  pub reply_full :
      (partial : String) (old : List ℕ) (reply : Reply) (r : Response) (w : World)
      → 0 < length model
      → IsStart old model
      → reply ≡ opened r
      → IsFull o model (if length old == 0 then none else some (length old)) r
      → Returns (elim reply as (λ _. Outcome (Unit {0})) [
        | refused ↦ raised (download_error "download failed") w
        | broken ↦ raised http_error w
        | opened r ↦ receive o partial old r w
      ])
  unfolding receive
  reply_full partial old refused r w filled begun e full = absurd (cc)
  reply_full partial old broken r w filled begun e full = absurd (cc)
  reply_full partial old (opened r') r w filled begun e (s, all, clean) =
      let same : r ≡ r' = cc in
      let split : s.before ++ (received r.chunks r.ending).0 ≡ model = sym (
        s.pieces
        ∙ (ap (λ l. s.before ++ ((received r.chunks r.ending).0 ++ l)) all
            ∙ ap (λ l. s.before ++ l) (append_nil _))) in
      let announced : (expected_size o r.content_length (length s.before) ≡ unknown)
          ⊎ (expected_size o r.content_length (length s.before) ≡ bytes (pos (length model))) =
        elim (announces_lem o model _ r s) [ inl h ↦ inl h.0 | inr h ↦ inr h ] in
      subst (λ x. Returns (receive o partial old x w)) same
        (subst
          (λ base.
            Returns
              (store_response o (expected_size o r.content_length (length base)) partial base r w))
          (sym (base_lem o model old r s begun))
          (store_response-Returns _ partial s.before r w filled split clean announced))
