-- ===== src/Download/Model/Install.antt =====
-- The two branches of `download_model`: what is installed when they return, and what is left when they
-- raise.
use llm_inference_optimizati.Base.{
  ℕ, ◌<◌, ◌≡◌, refl, sym, ap, ◌∙◌, subst, String, none, some, List, length, arith,
}
use llm_inference_optimizati.Value.{Fields, Floats}
use llm_inference_optimizati.Download.World.{
  World, Fault, M, pure, write, put_file, Ends, Ends-bind, Ends-mono, ◌>>=◌, ◌>>◌,
}
use llm_inference_optimizati.Download.Outside.{Outside, SuffixLaw}
use llm_inference_optimizati.Download.Metadata.{
  Options, beside, metadata_of, metadata_for, write_metadata, agrees, compare_sha256,
  compare_byte_size, require_same,
}
use llm_inference_optimizati.Download.Model.{
  fetch, replace, check_previous, check_expected, keep_existing, fetch_new,
}
use llm_inference_optimizati.Download.Model.Steps.{
  put_file_self, put_file_other, part-ne, Made, metadata_for_lem, IsTextOrNull,
}
use llm_inference_optimizati.Download.Model.Sound.{
  SameBut, Fetched, fetch_lem, IsInstalled, check_expected_lem, met,
}

module _ {H : Type 0} (o : Outside H) (fl : Floats) (opts : Options) where
  check_previous_lem :
      (path : String) (metadata : Fields) (w : World)
      → Ends (λ _ v. v ≡ w) (λ e v. v ≡ w) (check_previous o fl opts path metadata w)
  unfolding check_previous require_same
  check_previous_lem path metadata w = ground arith

module _ {H : Type 0} (o : Outside H) (law : SuffixLaw o) (fl : Floats) (opts : Options) where
  -- What a call of `download_model` has reached when it returns.
  abbrev pub Installs :
      String → String → String → String → List ℕ → World → String × Fields → World → Type 0
  Installs repository address filename destination content w r w' =
      (r.0 ≡ destination)
      × IsInstalled o opts repository address filename destination content r.1 w'
      × SameBut (beside o destination ".metadata.json") w w'
      × (w'.requests ≡ w.requests)

  -- The checks against what is expected, and the writing of the metadata.
  unfoldable pub verify : String → Fields → M (Unit {0}) → M (String × Fields)
  verify destination m cleanup = do
    check_expected o fl opts m cleanup
    write_metadata o destination m
    pure (destination, m)

  verify_lem :
      (repository address filename destination time : String) (content : List ℕ)
      (cleanup : M (Unit {0})) (w : World) (Q : Fault → World → Type 0)
      → IsTextOrNull opts.expected_sha256
      → w.files destination ≡ some content
      → 0 < length content
      → Ends (λ _ w'. (e : Fault) → Q e w') Q (cleanup w)
      → let m = metadata_of o destination repository address filename opts content time in
        Ends
          (Installs repository address filename destination content w)
          Q
          (verify destination m cleanup w)
  unfolding verify write_metadata
  verify_lem repository address filename destination time content cleanup w Q text at filled h =
      let m : Fields = metadata_of o destination repository address filename opts content time in
      Ends-bind
        (λ _ v.
          (v ≡ w)
          × (compare_sha256 fl opts.expected_sha256 m ≡ agrees)
          × (compare_byte_size fl opts.expected_byte_size m ≡ agrees))
        (Installs repository address filename destination content w) Q
        (check_expected o fl opts m cleanup)
        (λ _. write_metadata o destination m >> pure (destination, m)) w
        (check_expected_lem o law fl opts m cleanup w Q text h)
        λ _ v passed.
          subst
            (λ u.
              Installs repository address filename destination content w (destination, m)
                (record u {
                  files =
                      put_file u.files (beside o destination ".metadata.json") (some (o.dumps m));
                }))
            (sym passed.0)
            (
              refl,
              met o law fl opts repository address filename destination time content w at filled
                  passed.1 passed.2,
              λ q h. put_file_other w.files _ q _ h,
              refl,
            )

  -- What follows the metadata, in both branches.
  pub verify-Made :
      (repository address filename destination : String) (content : List ℕ) (cleanup : M (Unit {0}))
      (w v : World) (m : Fields) (Q : Fault → World → Type 0)
      → IsTextOrNull opts.expected_sha256
      → w.files destination ≡ some content
      → Made o destination repository address filename opts content w m v
      → Ends (λ _ w'. (e : Fault) → Q e w') Q (cleanup v)
      → Ends
          (Installs repository address filename destination content w)
          Q
          (verify destination m cleanup v)
  verify-Made repository address filename destination content cleanup w v m Q text at made h =
      Ends-mono (Installs repository address filename destination content v)
        (Installs repository address filename destination content w) Q Q
        (verify destination m cleanup v)
        (subst
          (λ n.
            Ends (Installs repository address filename destination content v) Q
              (verify destination n cleanup v))
          (sym made.0)
          (verify_lem repository address filename destination (o.clock w.readings) content cleanup v
            Q text (ap (λ f. f destination) made.1 ∙ at) made.2 h))
        (λ r u i. (i.0, i.1, λ q n. i.2 q n ∙ ap (λ f. f q) made.1, i.3 ∙ made.3)) (λ e u q. q)

  -- A model that is there.
  pub keep_existing_lem :
      (repository address filename destination : String) (content : List ℕ) (w : World)
      → IsTextOrNull opts.expected_sha256
      → w.files destination ≡ some content
      → Ends
          (Installs repository address filename destination content w)
          (λ e w'. w'.files ≡ w.files)
          (keep_existing o fl opts destination repository address filename w)
  unfolding keep_existing verify
  keep_existing_lem repository address filename destination content w text at =
      let Q : Fault → World → Type 0 = λ e v. v.files ≡ w.files in
      let P = Installs repository address filename destination content w in
      let check : Fields → M (Unit {0}) =
        check_previous o fl opts (beside o destination ".metadata.json") in
      Ends-bind (Made o destination repository address filename opts content w) P Q
        (metadata_for o destination repository address filename opts)
        (λ m. check m >> verify destination m (pure tt)) w
        (metadata_for_lem o destination repository address filename opts w content Q at (λ h. refl))
        λ m v made.
          Ends-bind (λ _ u. u ≡ v) P Q (check m) (λ _. verify destination m (pure tt)) v
            (Ends-mono (λ _ u. u ≡ v) (λ _ u. u ≡ v) (λ e u. u ≡ v) Q (check m v)
              (check_previous_lem o fl opts _ m v) (λ _ u h. h)
              (λ e u h. ap (λ u. u.files) h ∙ made.1))
            λ _ u same.
              subst (λ u. Ends P Q (verify destination m (pure tt) u)) (sym same)
                (verify-Made repository address filename destination content (pure tt) w v m Q text
                  at made (λ e. made.1))

  -- One that is downloaded: nothing is installed when it raises.
  pub fetch_new_lem :
      (repository address filename destination : String) (w : World)
      → IsTextOrNull opts.expected_sha256
      → w.files destination ≡ none
      → Ends
          (λ r w'.
            (r.0 ≡ destination)
            × ((content : List ℕ) × IsInstalled o opts repository address filename destination
                  content r.1 w'))
          (λ e w'. w'.files destination ≡ none)
          (fetch_new o fl opts destination repository address filename w)
  unfolding fetch_new verify replace
  fetch_new_lem repository address filename destination w text absent =
      let Q : Fault → World → Type 0 = λ e v. v.files destination ≡ none in
      let partial = beside o destination ".part" in
      let P : String × Fields → World → Type 0 = λ r v.
        (r.0 ≡ destination)
        × ((content : List ℕ) × IsInstalled o opts repository address filename destination content
              r.1 v) in
      let finish : M (String × Fields) =
        metadata_for o destination repository address filename opts >>= λ m.
        verify destination m (write destination none) in
      Ends-bind (Fetched o partial w) P Q (fetch o partial address)
        (λ _. replace o partial destination >> finish) w
        (Ends-mono (Fetched o partial w) (Fetched o partial w) (λ e v. SameBut partial w v) Q
          (fetch o partial address w) (fetch_lem o partial address w) (λ _ v h. h)
          (λ e v same. same destination (part-ne o law destination) ∙ absent))
        λ _ v fetched.
          let v' : World = record v {
            files = put_file (put_file v.files destination (v.files partial)) partial none;
          } in
          let at : v'.files destination ≡ some fetched.1.0 =
            put_file_other (put_file v.files destination (v.files partial)) partial destination none
              (part-ne o law destination)
            ∙ (put_file_self v.files destination _ ∙ fetched.1.1) in
          Ends-bind (Made o destination repository address filename opts fetched.1.0 v') P Q
            (metadata_for o destination repository address filename opts)
            (λ m. verify destination m (write destination none)) v'
            (metadata_for_lem o destination repository address filename opts v' fetched.1.0 Q at
              (λ h. absurd (omega (arith, fetched.1.2))))
            λ m u made.
              Ends-mono (Installs repository address filename destination fetched.1.0 v') P Q Q
                (verify destination m (write destination none) u)
                (verify-Made repository address filename destination fetched.1.0
                  (write destination none) v' u m Q text at made
                  (λ e. put_file_self u.files destination none))
                (λ r x i. (i.0, (fetched.1.0, i.1))) (λ e x q. q)
