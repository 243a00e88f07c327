-- ===== src/Download/Catalog/Sound.antt =====
-- What `load_model_config` of scripts/download_model.py accepts.
use llm_inference_optimizati.Base.{
  ◌≤◌, ◌≡◌, refl, sym, ap, subst, String, true, false, List, [], ◌∷◌, length, all, str_eq_iff,
  arith, Bool-cases, inl, inr, ◌⊎◌,
}
use llm_inference_optimizati.Text.{upper}
use llm_inference_optimizati.Value.{Value, obj, Fields, field, end, Floats, get, has, has_exactly}
use llm_inference_optimizati.Download.World.{download_error}
use llm_inference_optimizati.Download.Catalog.{
  Document, unreadable, undecodable, read, Python, Checked, accepted, rejected, then_check,
  model_keys, required_quantization, required, Compatibility, compatibility_of, same_model, is_used,
  add_compatibility, check_item, check_items, check_models, load_model_config,
}

passes :
    (c : Checked (Unit {0})) (next : Checked (List Compatibility)) (out : List Compatibility)
    → then_check c (λ _. next) ≡ accepted out
    → (c ≡ accepted tt) × (next ≡ accepted out)
passes (accepted tt) next out h = (refl, h)
passes (rejected e) next out h = absurd (cc)

module _ (fl : Floats) (python : Python) where
  -- An item with all fields, the quantization of its key and an id that was not used before.
  abbrev pub IsItem : List Value → String → Fields → Type 0
  IsItem ids key item =
      (all (has item) required ≡ true)
      × (upper (python.text_of (get item "quantization")) ≡ required_quantization key)
      × (is_used fl python (get item "logical_id") ids ≡ false)

  -- Such items, with ids that all differ.
  pub data Items : List Value → Fields → Type 0 where
    none : (ids : List Value) → Items ids end
    item :
        (ids : List Value) (key : String) (d rest : Fields)
        → IsItem ids key d
        → Items (get d "logical_id" ∷ ids) rest
        → Items ids (field key (obj d) rest)

  -- Items that share the four values, or have equal ones.
  pub data Share (c : Compatibility) : Fields → Type 0 where
    none : Share c end
    item :
        (key : String) (d rest : Fields)
        → (compatibility_of d ≡ c) ⊎ (same_model fl python (compatibility_of d) c ≡ true)
        → Share c rest
        → Share c (field key (obj d) rest)

  check_item-IsItem :
      (ids : List Value) (key : String) (d : Fields)
      → check_item fl python ids key d ≡ accepted tt
      → IsItem ids key d
  unfolding check_item
  check_item-IsItem ids key d h =
      let name =
        str_eq_iff (upper (python.text_of (get d "quantization"))) (required_quantization key) in
      ground (arith, name)

  grown :
      (c : Compatibility) (cs : List Compatibility)
      → length cs ≤ length (add_compatibility fl python c cs)
  grown c cs = ground arith

  check_items-Items :
      (ids : List Value) (cs out : List Compatibility) (d : Fields)
      → check_items fl python ids cs d ≡ accepted out
      → Items ids d × (length cs ≤ length out)
  unfolding check_items
  check_items-Items ids cs out end h = (none ids, ground arith)
  check_items-Items ids cs out (field key (obj d) rest) h =
      let ids' : List Value = get d "logical_id" ∷ ids in
      let cs' : List Compatibility = add_compatibility fl python (compatibility_of d) cs in
      let steps =
        passes (check_item fl python ids key d) (check_items fl python ids' cs' rest) out h in
      let later : Items ids' rest × (length cs' ≤ length out) =
        check_items-Items ids' cs' out rest steps.1 in
      (
        item ids key d rest (check_item-IsItem ids key d steps.0) later.0,
        omega (arith, grown (compatibility_of d) cs, later.1),
      )
  check_items-Items ids cs out (field key v rest) h = absurd (cc)

  -- One set of values, and what is compared with it.
  check_items-Share :
      (ids : List Value) (c : Compatibility) (out : List Compatibility) (d : Fields)
      → check_items fl python ids (c ∷ []) d ≡ accepted out
      → length out ≡ 1
      → Share c d
  unfolding check_items
  check_items-Share ids c out end h one = none
  check_items-Share ids c out (field key (obj d) rest) h one =
      let ids' : List Value = get d "logical_id" ∷ ids in
      let cs' : List Compatibility = add_compatibility fl python (compatibility_of d) (c ∷ []) in
      let steps =
        passes (check_item fl python ids key d) (check_items fl python ids' cs' rest) out h in
      elim (Bool-cases (same_model fl python (compatibility_of d) c)) [
        | inl same ↦
            let kept : cs' ≡ c ∷ [] = ground arith in
            item key d rest (inr same) (
              check_items-Share ids' c out rest
                (subst (λ l. check_items fl python ids' l rest ≡ accepted out) kept steps.1) one)
        | inr other ↦
            let longer : length cs' ≡ 2 = ground arith in
            let later : Items ids' rest × (length cs' ≤ length out) =
              check_items-Items ids' cs' out rest steps.1 in
            absurd (omega (arith, longer, later.1, one))
      ]
  check_items-Share ids c out (field key v rest) h one = absurd (cc)

  -- The first item gives the values that the others share.
  shared :
      (out : List Compatibility) (d : Fields)
      → check_items fl python [] [] d ≡ accepted out
      → length out ≡ 1
      → (c : Compatibility) × Share c d
  unfolding check_items
  shared out end h one = absurd (ground arith)
  shared out (field key (obj d) rest) h one =
      let ids' : List Value = get d "logical_id" ∷ [] in
      let c = compatibility_of d in
      let steps =
        passes (check_item fl python [] key d) (check_items fl python ids' (c ∷ []) rest) out h in
      (c, item key d rest (inl refl) (check_items-Share ids' c out rest steps.1 one))
  shared out (field key v rest) h one = absurd (cc)

  -- A configuration of the three models.
  pub record IsCatalog (models : Fields) : Type 0 where
    pub keys : has_exactly models model_keys ≡ true
    pub items : Items [] models
    pub values : Compatibility
    pub share : Share values models

  check_models-IsCatalog :
      (models out : Fields)
      → check_models fl python models ≡ accepted out
      → (out ≡ models) × IsCatalog models
  unfolding check_models
  check_models-IsCatalog models out h = by_items (check_items fl python [] [] models) refl
    where
      by_items :
          (c : Checked (List Compatibility))
          → check_items fl python [] [] models ≡ c
          → (out ≡ models) × IsCatalog models
      by_items (rejected e) at = absurd (ground arith)
      by_items (accepted cs) at =
          let one : length cs ≡ 1 = ground arith in
          let same : out ≡ models = ground arith in
          let all_keys : has_exactly models model_keys ≡ true = ground arith in
          let found = shared cs models at one in
          (
            same,
            record {
              keys = all_keys;
              items = (check_items-Items [] [] cs models at).0;
              values = found.0;
              share = found.1;
            },
          )

  models_lem :
      (v : Value) (out : Fields)
      → (elim v as (λ _. Checked Fields) [
        | obj models ↦ check_models fl python models
        | _ ↦ rejected (download_error "model configuration requires a models mapping")
      ])
        ≡ accepted out
      → (v ≡ obj out) × IsCatalog out
  models_lem (obj models) out h =
      let found = check_models-IsCatalog models out h in
      (ap obj (sym found.0), subst IsCatalog (sym found.0) found.1)
  models_lem v out h = absurd (cc)

  -- A configuration that is accepted is a mapping of which the entry "models" has just the three keys;
  -- each model has all the fields and the quantization of its key, the ids all differ, and the models
  -- agree in repository, base model, parameter count and revision.
  pub load_model_config_sound :
      (document : Document) (models : Fields)
      → load_model_config fl python document ≡ accepted models
      → (raw : Fields) × (document ≡ read (obj raw))
        × (get raw "models" ≡ obj models)
        × IsCatalog models
  unfolding load_model_config
  load_model_config_sound unreadable models h = absurd (cc)
  load_model_config_sound undecodable models h = absurd (cc)
  load_model_config_sound (read (obj raw)) models h =
      let found = models_lem (get raw "models") models h in (raw, refl, found.0, found.1)
  load_model_config_sound (read raw) models h = absurd (cc)
