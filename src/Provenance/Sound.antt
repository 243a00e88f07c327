-- ===== src/Provenance/Sound.antt =====
-- What a run record that was accepted says.
use llm_inference_optimizati.Base.{
  ℕ, ◌≡◌, sym, subst, ap, ◌∙◌, String, Bool, true, ◌&&◌, List, pos, arith, length, ◌==◌, ==_iff, ok,
  step, checked, required, ok-injective,
}
use llm_inference_optimizati.Value.{Value, int, str, obj, Fields, Floats, get}
use llm_inference_optimizati.Value.Checks.{field_int-ok, as_obj-ok, is_str-eq}
use llm_inference_optimizati.Workload.Random.{Rng}
use llm_inference_optimizati.Workload.Generate.{generate_records}
use llm_inference_optimizati.Config.{validate_serving_config}
use llm_inference_optimizati.Config.Spec.{validate_serving_config_sound}
use llm_inference_optimizati.Native.Summary.Totals.{is_nat}
use llm_inference_optimizati.Provenance.{PosixPaths, check_run, check_manifest, validate_run_record}

module _ {S : Type 0} (fl : Floats) (rng : Rng S) (paths : PosixPaths) (inside_root : String → Bool)
    (digest : Fields → String) where
  -- A manifest whose configuration generates as many records as it counts.
  pub record Generates (manifest : Fields) (seed : ℕ) : Type 0 where
    pub generator_config : Fields
    pub records : List Fields
    pub made : Fields
    pub config_at : get manifest "generator_config" ≡ obj generator_config
    pub generated : generate_records rng generator_config ≡ ok (records, made)
    pub count_at : get manifest "request_count" ≡ int (pos (length records))
    pub seed_at : get manifest "seed" ≡ int (pos seed)

  check_manifest-Generates :
      (manifest : Fields) (workload_sha256 : Value) {seed : ℕ}
      → check_manifest fl rng paths inside_root digest manifest workload_sha256 ≡ ok seed
      → Generates manifest seed
  unfolding check_manifest
  check_manifest-Generates manifest workload_sha256 h = checked _ _ h λ closed h.
      required _ _ _ h λ schemas h. step _ _ h λ known class_ok h. required _ _ _ h λ class_known h.
        step _ _ h λ count count_ok h. step _ _ h λ seed seed_ok h. step _ _ h λ g is_dict h.
          checked _ _ h λ named h. checked _ _ h λ stamped h. required _ _ _ h λ hashed h.
            step _ _ h λ generated generated_ok h. checked _ _ h λ agrees h.
              required _ _ _ h λ counted h. subst (Generates manifest) (ok-injective h) (record {
                generator_config = g;
                records = generated.0;
                made = generated.1;
                config_at = as_obj-ok _ _ is_dict;
                generated = generated_ok;
                count_at =
                    field_int-ok manifest _ count_ok
                    ∙ ap (λ n. int (pos n)) (sym ((==_iff _ _).0 counted));
                seed_at = field_int-ok manifest _ seed_ok;
              })

  -- The configuration, the manifest and the seed of a run record that agree.
  pub record IsRun (r : Fields) : Type 0 where
    pub config : Fields
    pub manifest : Fields
    pub seed : ℕ
    pub config_at : get r "normalized_config" ≡ obj config
    pub config_valid : validate_serving_config inside_root config ≡ ok config
    pub digest_at : get r "config_sha256" ≡ str (digest config)
    pub manifest_at : get r "workload_manifest" ≡ obj manifest
    pub generates : Generates manifest seed
    pub seed_at : get r "seed" ≡ int (pos seed)
    pub run_seed_at : get config "run_seed" ≡ int (pos seed)

  check_run-ok :
      (r : Fields) {config : Fields}
      → check_run fl rng paths inside_root digest r ≡ ok config
      → (get r "normalized_config" ≡ obj config)
        × (validate_serving_config inside_root config ≡ ok config)
        × (get r "config_sha256" ≡ str (digest config))
  unfolding check_run
  check_run-ok r h = checked _ _ h λ closed h. required _ _ _ h λ schema h.
      required _ _ _ h λ evidence h. checked _ _ h λ texts h. required _ _ _ h λ dirty h.
        checked _ _ h λ digests h. required _ _ _ h λ objects h. step _ _ h λ c is_dict h.
          step _ _ h λ c' valid h. required _ _ _ h λ same_digest h.
            let unchanged = (validate_serving_config_sound inside_root c valid).0 in
            subst
              (λ x.
                (get r "normalized_config" ≡ obj x)
                × (validate_serving_config inside_root x ≡ ok x)
                × (get r "config_sha256" ≡ str (digest x)))
              (ok-injective h)
              (as_obj-ok _ _ is_dict, valid ∙ ap ok unchanged, is_str-eq _ _ same_digest)

  one_seed :
      (seed manifest_seed : ℕ) (v : Value)
      → (seed == manifest_seed && is_nat v seed) ≡ true
      → (manifest_seed ≡ seed) × (v ≡ int (pos seed))
  one_seed seed manifest_seed v h = ground arith

  -- An accepted run record holds a valid configuration under its digest, and a workload manifest
  -- whose generator configuration generates as many records as the manifest counts; and the record,
  -- the configuration and the manifest have one seed.
  pub validate_run_record_sound :
      (r : Fields) → validate_run_record fl rng paths inside_root digest r ≡ ok tt → IsRun r
  unfolding validate_run_record
  validate_run_record_sound r h = step _ _ h λ config config_ok h. step _ _ h λ seed seed_ok h.
      checked _ _ h λ texts h. required _ _ _ h λ nested h. step _ _ h λ manifest is_dict h.
        step _ _ h λ manifest_seed manifest_ok h. required _ _ _ h λ seeds h.
          let (config_at, config_valid, digest_at) = check_run-ok r config_ok in
          let (same, run_seed_at) = one_seed seed manifest_seed (get config "run_seed") seeds in
          record {
            config = config;
            manifest = manifest;
            seed = seed;
            config_at = config_at;
            config_valid = config_valid;
            digest_at = digest_at;
            manifest_at = as_obj-ok _ _ is_dict;
            generates =
                subst (Generates manifest) same (check_manifest-Generates manifest _ manifest_ok);
            seed_at = field_int-ok r _ seed_ok;
            run_seed_at = run_seed_at;
          }
