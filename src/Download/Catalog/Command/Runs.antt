-- ===== src/Download/Catalog/Command/Runs.antt =====
-- What the command line of scripts/download_model.py leaves in the files.
use llm_inference_optimizati.Base.{
  ◌≡◌, refl, String, Bool, true, false, not, ◌||◌, if◌then◌else◌, none, some, List, [], ◌∷◌, ℤ, inl,
  inr, ◌⊎◌,
}
use llm_inference_optimizati.Value.{Value, obj, Fields, field, end, Floats, get}
use llm_inference_optimizati.Download.World.{
  World, Outcome, done, raised, Fault, download_error, type_error, attribute_error, value_error,
  unicode_error, os_error, http_error, M, pure, raise, Ends, Ends-bind, Ends-mono, ◌>>=◌,
}
use llm_inference_optimizati.Download.Outside.{Outside, SuffixLaw}
use llm_inference_optimizati.Download.Model.{download_model}
use llm_inference_optimizati.Download.Model.Steps.{IsTextOrNull}
use llm_inference_optimizati.Download.Model.Whole.{IsResult, IsKept, download_model_lem}
use llm_inference_optimizati.Download.Catalog.{
  Document, Python, Converted, integer, no_integer, Checked, accepted, rejected, load_model_config,
}
use llm_inference_optimizati.Download.Catalog.Command.{
  is_given, default_options, item_options, download_item, download_items, download_config,
  result_text, run, exit, main,
}

module _ {H : Type 0} (o : Outside H) (fl : Floats) (python : Python) (models_dir : String) where
  -- One download after the other, each with a result.
  pub data Downloads : Fields → World → List (String × Fields) → World → Type 0 where
    nothing : (w : World) → Downloads end w [] w
    next :
        (key : String) (item rest : Fields) (n : ℤ) (w v u : World) (r : String × Fields)
        (rs : List (String × Fields))
        → python.int_of (get item "parameter_count") ≡ integer n
        → IsResult o fl
            (item_options o fl python item n)
            (python.text_of (get item "source_repository"))
            (python.text_of (get item "source_filename"))
            models_dir
            w
            r
            v
        → Downloads rest v rs u
        → Downloads (field key (obj item) rest) w (r ∷ rs) u

  -- The downloads up to the one that raises, and what that one leaves: the file of its model as it
  -- was, or all the files where the number of its parameters is none.
  pub data Stops : Fields → World → Fault → World → Type 0 where
    no_number :
        (key : String) (item rest : Fields) (e : Fault) (w : World)
        → python.int_of (get item "parameter_count") ≡ no_integer e
        → Stops (field key (obj item) rest) w e w
    no_item :
        (key : String) (v : Value) (rest : Fields) (w : World)
        → ((item : Fields) → v ≡ obj item → ⊥)
        → Stops (field key v rest) w type_error w
    kept :
        (key : String) (item rest : Fields) (n : ℤ) (e : Fault) (w v : World)
        → python.int_of (get item "parameter_count") ≡ integer n
        → IsKept o fl
            (item_options o fl python item n)
            (python.text_of (get item "source_repository"))
            (python.text_of (get item "source_filename"))
            models_dir
            w
            e
            v
        → Stops (field key (obj item) rest) w e v
    later :
        (key : String) (item rest : Fields) (n : ℤ) (e : Fault) (w v u : World)
        (r : String × Fields)
        → python.int_of (get item "parameter_count") ≡ integer n
        → IsResult o fl
            (item_options o fl python item n)
            (python.text_of (get item "source_repository"))
            (python.text_of (get item "source_filename"))
            models_dir
            w
            r
            v
        → Stops rest v e u
        → Stops (field key (obj item) rest) w e u

  -- The digests of the items are texts, or absent.
  abbrev pub HasTextDigests : Fields → Type 0
  HasTextDigests end = Unit {0}
  HasTextDigests (field key (obj item) rest) =
      IsTextOrNull (get item "sha256") × HasTextDigests rest
  HasTextDigests (field key v rest) = Unit {0}

  -- The result of the call for one item.
  abbrev IsItemResult : Fields → World → String × Fields → World → Type 0
  IsItemResult item w r v =
      (n : ℤ) × (python.int_of (get item "parameter_count") ≡ integer n)
      × IsResult o fl (item_options o fl python item n)
          (python.text_of (get item "source_repository"))
          (python.text_of (get item "source_filename")) models_dir w r v

  converted_lem :
      (c : Converted) (key : String) (item rest : Fields) (w : World)
      → SuffixLaw o
      → IsTextOrNull (get item "sha256")
      → python.int_of (get item "parameter_count") ≡ c
      → Ends
          (IsItemResult item w)
          (λ e v. Stops (field key (obj item) rest) w e v)
          ((elim c as (λ _. M (String × Fields)) [
            | no_integer e ↦ raise e
            | integer n ↦
                download_model o fl
                  (item_options o fl python item n)
                  (python.text_of (get item "source_repository"))
                  (python.text_of (get item "source_filename"))
                  models_dir
          ])
            w)
  converted_lem (no_integer e) key item rest w law text at = no_number key item rest e w at
  converted_lem (integer n) key item rest w law text at =
      let repository = python.text_of (get item "source_repository") in
      let filename = python.text_of (get item "source_filename") in
      let opts = item_options o fl python item n in
      Ends-mono (IsResult o fl opts repository filename models_dir w) _
        (IsKept o fl opts repository filename models_dir w) _
        (download_model o fl opts repository filename models_dir w)
        (download_model_lem o fl opts repository filename models_dir w law text)
        (λ r v i. (n, at, i)) (λ e v i. kept key item rest n e w v at i)

  download_items_lem :
      (items : Fields) (w : World)
      → SuffixLaw o
      → HasTextDigests items
      → Ends
          (λ rs v. Downloads items w rs v)
          (λ e v. Stops items w e v)
          (download_items o fl python models_dir items w)
  unfolding download_items download_item
  download_items_lem end w law texts = nothing w
  download_items_lem (field key (obj item) rest) w law (text, texts) =
      let P : List (String × Fields) → World → Type 0 =
        λ rs v. Downloads (field key (obj item) rest) w rs v in
      let Q : Fault → World → Type 0 = λ e v. Stops (field key (obj item) rest) w e v in
      Ends-bind (IsItemResult item w) P Q (download_item o fl python models_dir item)
        (λ r. download_items o fl python models_dir rest >>= λ rs. pure (r ∷ rs)) w
        (converted_lem (python.int_of (get item "parameter_count")) key item rest w law text refl)
        λ r v good.
          Ends-bind (λ rs u. Downloads rest v rs u) P Q (download_items o fl python models_dir rest)
            (λ rs. pure (r ∷ rs)) v
            (Ends-mono (λ rs u. Downloads rest v rs u) _ (λ e u. Stops rest v e u) Q
              (download_items o fl python models_dir rest v) (download_items_lem rest v law texts)
              (λ rs u d. d) (λ e u d. later key item rest good.0 e w v u r good.1 good.2 d))
            λ rs u d. next key item rest good.0 w v u r rs good.1 good.2 d
  download_items_lem (field key v rest) w law texts = no_item key v rest w (λ item e. absurd (cc))

  -- When `download_config` returns, the configuration is accepted, and its models are downloaded one
  -- after the other, each with the metadata of its item and with the digest and the size of its item
  -- where it has them. When it raises, either the configuration is rejected with that exception and no
  -- file is changed, or the models before one of them are downloaded like that and the file of that
  -- one is as it was. A digest in the configuration has to be a text, and a suffix that is replaced by
  -- a longer one has to be appended to the path.
  pub download_config_lem :
      (document : Document) (w : World)
      → SuffixLaw o
      → ((models : Fields)
          → load_model_config fl python document ≡ accepted models
          → HasTextDigests models)
      → Ends
          (λ rs v.
            (models : Fields) × (load_model_config fl python document ≡ accepted models)
            × Downloads models w rs v)
          (λ e v.
            ((load_model_config fl python document ≡ rejected e) × (v ≡ w))
            ⊎ ((models : Fields) × (load_model_config fl python document ≡ accepted models)
                × Stops models w e v))
          (download_config o fl python document models_dir w)
  unfolding download_config
  download_config_lem document w law texts = by_load (load_model_config fl python document) refl
    where
      by_load :
          (c : Checked Fields)
          → load_model_config fl python document ≡ c
          → Ends
              (λ rs v.
                (models : Fields) × (load_model_config fl python document ≡ accepted models)
                × Downloads models w rs v)
              (λ e v.
                ((load_model_config fl python document ≡ rejected e) × (v ≡ w))
                ⊎ ((models : Fields) × (load_model_config fl python document ≡ accepted models)
                    × Stops models w e v))
              ((elim c as (λ _. M (List (String × Fields))) [
                | rejected e ↦ raise e
                | accepted models ↦ download_items o fl python models_dir models
              ])
                w)
      by_load (rejected e) at = inl (at, refl)
      by_load (accepted models) at =
          Ends-mono (λ rs v. Downloads models w rs v) _ (λ e v. Stops models w e v) _
            (download_items o fl python models_dir models w)
            (download_items_lem models w law (texts models at)) (λ rs v d. (models, at, d))
            (λ e v d. inr (models, at, d))

module _ {H : Type 0} (o : Outside H) (fl : Floats) (python : Python) where
  -- A handler that turns DownloadError into the exit code 1.
  exit_lem :
      (P : String → World → Type 0) (K : World → Type 0) (c : Outcome String)
      → Ends P (λ e v. K v) c
      → Ends
          (λ out v. ((out.1 ≡ 0) × P out.0 v) ⊎ ((out.1 ≡ 1) × K v))
          (λ e v. K v)
          (exit o fl python c)
  exit_lem P K (done text w) h = inl (refl, h)
  exit_lem P K (raised (download_error text) w) h = inr (refl, h)
  exit_lem P K (raised type_error w) h = h
  exit_lem P K (raised attribute_error w) h = h
  exit_lem P K (raised value_error w) h = h
  exit_lem P K (raised unicode_error w) h = h
  exit_lem P K (raised os_error w) h = h
  exit_lem P K (raised http_error w) h = h

  -- What is printed of a model that is installed.
  abbrev pub Prints : String → String → String → World → String → World → Type 0
  Prints repository filename models_dir w text v =
      (r : String × Fields) × (text ≡ result_text o fl python r)
      × IsResult o fl default_options repository filename models_dir w r v

  single_lem :
      (refused : Bool) (repository filename models_dir : String) (w : World)
      → SuffixLaw o
      → Ends
          (Prints repository filename models_dir w)
          (λ e v. v.files (o.join models_dir filename) ≡ w.files (o.join models_dir filename))
          ((if refused
              then raise (download_error "repository and filename are required without --config")
              else (download_model o fl default_options repository filename models_dir >>= λ r.
                  pure (result_text o fl python r)))
            w)
  single_lem true repository filename models_dir w law = refl
  single_lem false repository filename models_dir w law =
      Ends-bind (IsResult o fl default_options repository filename models_dir w)
        (Prints repository filename models_dir w)
        (IsKept o fl default_options repository filename models_dir w)
        (download_model o fl default_options repository filename models_dir)
        (λ r. pure (result_text o fl python r)) w
        (download_model_lem o fl default_options repository filename models_dir w law (inl refl))
        λ r v i. (r, refl, i)

  -- `main` without a configuration: after the exit code 0 the model is installed, and what is printed is
  -- its path, size and digest; after 1, and after an exception that `main` lets through, its file is as
  -- it was. A suffix that is replaced by a longer one has to be appended to the path.
  pub main-IsResult :
      (repository filename models_dir : String) (w : World)
      → SuffixLaw o
      → Ends
          (λ out v.
            ((out.1 ≡ 0) × Prints repository filename models_dir w out.0 v)
            ⊎ ((out.1 ≡ 1)
                × (v.files (o.join models_dir filename) ≡ w.files (o.join models_dir filename))))
          (λ e v. v.files (o.join models_dir filename) ≡ w.files (o.join models_dir filename))
          (main o fl python
            (record {
              repository = some repository;
              filename = some filename;
              config = none;
              models_dir = models_dir;
            })
            w)
  unfolding main run
  main-IsResult repository filename models_dir w law =
      exit_lem (Prints repository filename models_dir w)
        (λ v. v.files (o.join models_dir filename) ≡ w.files (o.join models_dir filename)) _
        (single_lem (not (is_given (some repository)) || not (is_given (some filename))) repository
          filename models_dir w law)
