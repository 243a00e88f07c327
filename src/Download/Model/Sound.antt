-- ===== src/Download/Model/Sound.antt =====
-- What `download_model` leaves in the files, whether it returns or raises.
use llm_inference_optimizati.Base.{
  ℕ, suc, ◌<◌, ◌≡◌, ◌≢◌, refl, sym, ◌∙◌, subst, String, false, some, List, ℤ, pos, length, arith,
  str_eq, str_eq_iff,
}
use llm_inference_optimizati.Text.{lower}
use llm_inference_optimizati.Value.{str, int, Fields, Floats, get, lookup, py_eq}
use llm_inference_optimizati.Download.World.{
  World, Outcome, raised, Fault, download_error, http_error, M, write, put_file, Ends, Ends-bind,
  Ends-mono, ◌>>◌,
}
use llm_inference_optimizati.Download.Outside.{
  Outside, SuffixLaw, Response, Ending, Reply, refused, broken, opened,
}
use llm_inference_optimizati.Base.{eqb_ℤ-eq}
use llm_inference_optimizati.Download.Url.{not_empty}
use llm_inference_optimizati.Download.Digest.{sha256_file}
use llm_inference_optimizati.Download.Metadata.{
  Options, beside, metadata_of, agrees, compare_sha256, compare_byte_size, require_same,
}
use llm_inference_optimizati.Download.Model.{
  content_or_empty, Expected, unknown, bytes, not_a_number, check_received, receive, store_response,
  ask, fetch, check_expected,
}
use llm_inference_optimizati.Download.Model.Steps.{
  put_file_self, put_file_other, metadata-ne, require_same_lem, not_fails, IsTextOrNull,
  compare_sha256-Decides, compare_byte_size-Decides,
}

-- The two files agree everywhere but at `p`.
abbrev pub SameBut : String → World → World → Type 0
SameBut p w w' = (q : String) → str_eq p q ≡ false → w'.files q ≡ w.files q

module _ {H : Type 0} (o : Outside H) where
  check_received_lem :
      (expected : Expected) (content : List ℕ) (ending : Ending) (w : World)
      → Ends
          (λ _ w'. (w' ≡ w) × (0 < length content))
          (λ e w'. w' ≡ w)
          (check_received o expected content ending w)
  unfolding check_received
  check_received_lem expected content ending w = ground arith

  -- The partial file holds something when the next step starts, and no other file changed.
  abbrev pub Fetched : String → World → Unit {0} → World → Type 0
  Fetched partial w _ w' =
      SameBut partial w w'
      × ((content : List ℕ) × (w'.files partial ≡ some content) × (0 < length content))

  written_lem :
      (expected : Expected) (partial : String) (content : List ℕ) (ending : Ending) (w : World)
      → Ends
          (Fetched partial w)
          (λ e w'. SameBut partial w w')
          ((write partial (some content) >> check_received o expected content ending) w)
  written_lem expected partial content ending w =
      let w' : World = record w { files = put_file w.files partial (some content) } in
      let same : SameBut partial w w' = λ q h. put_file_other w.files partial q (some content) h in
      Ends-mono (λ _ v. (v ≡ w') × (0 < length content)) (Fetched partial w) (λ e v. v ≡ w') _ _
        (check_received_lem expected content ending w')
        (λ _ v h.
          subst (Fetched partial w tt) (sym h.0)
            (same, (content, put_file_self w.files partial (some content), h.1)))
        (λ _ v h. subst (SameBut partial w) (sym h) same)

  store_response_lem :
      (expected : Expected) (partial : String) (base : List ℕ) (r : Response) (w : World)
      → Ends
          (Fetched partial w)
          (λ e w'. SameBut partial w w')
          (store_response o expected partial base r w)
  unfolding store_response
  store_response_lem not_a_number partial base r w = λ q h. refl
  store_response_lem unknown partial base r w = written_lem unknown partial _ _ w
  store_response_lem (bytes n) partial base r w = written_lem (bytes n) partial _ _ w

  reply_lem :
      (partial : String) (old : List ℕ) (reply : Reply) (w : World)
      → Ends
          (Fetched partial w)
          (λ e w'. SameBut partial w w')
          (elim reply as (λ _. Outcome (Unit {0})) [
            | refused ↦ raised (download_error "download failed") w
            | broken ↦ raised http_error w
            | opened r ↦ receive o partial old r w
          ])
  unfolding receive
  reply_lem partial old refused w = λ q h. refl
  reply_lem partial old broken w = λ q h. refl
  reply_lem partial old (opened r) w = store_response_lem _ partial _ r w

  -- `fetch` changes the partial file only.
  pub fetch_lem :
      (partial address : String) (w : World)
      → Ends (Fetched partial w) (λ e w'. SameBut partial w w') (fetch o partial address w)
  unfolding fetch
  fetch_lem partial address w =
      reply_lem partial (content_or_empty (w.files partial))
        (ask o address (content_or_empty (w.files partial)) w)
        (record w { requests = suc w.requests })

-- A model is there with its metadata beside it, and meets what the caller expects.
pub record IsInstalled {H : Type 0} (o : Outside H) (opts : Options)
    (repository address filename destination : String) (content : List ℕ) (m : Fields) (w : World)
    : Type 0 where
  pub content_at : w.files destination ≡ some content
  pub filled : 0 < length content
  pub time : String
  pub described : m ≡ metadata_of o destination repository address filename opts content time
  pub recorded : w.files (beside o destination ".metadata.json") ≡ some (o.dumps m)
  pub digest :
      (s : String) → opts.expected_sha256 ≡ str s → s ≢ "" → sha256_file o content 1048576 ≡ lower s
  pub size : (n : ℤ) → opts.expected_byte_size ≡ int n → n ≢ pos 0 → n ≡ pos (length content)

module _ {H : Type 0} (o : Outside H) (law : SuffixLaw o) (fl : Floats) (opts : Options) where
  -- The checks against what is expected, where the file is kept or removed on a mismatch.
  pub check_expected_lem :
      (m : Fields) (cleanup : M (Unit {0})) (w : World) (Q : Fault → World → Type 0)
      → IsTextOrNull opts.expected_sha256
      → Ends (λ _ w'. (e : Fault) → Q e w') Q (cleanup w)
      → Ends
          (λ _ w'.
            (w' ≡ w)
            × (compare_sha256 fl opts.expected_sha256 m ≡ agrees)
            × (compare_byte_size fl opts.expected_byte_size m ≡ agrees))
          Q
          (check_expected o fl opts m cleanup w)
  unfolding check_expected
  check_expected_lem m cleanup w Q text h =
      Ends-bind (λ _ w'. (w' ≡ w) × (compare_sha256 fl opts.expected_sha256 m ≡ agrees))
        (λ _ v.
          (v ≡ w)
          × (compare_sha256 fl opts.expected_sha256 m ≡ agrees)
          × (compare_byte_size fl opts.expected_byte_size m ≡ agrees))
        Q (require_same (compare_sha256 fl opts.expected_sha256 m) cleanup "checksum mismatch")
        (λ _.
          require_same (compare_byte_size fl opts.expected_byte_size m) cleanup
            "byte-size mismatch")
        w
        (require_same_lem _ cleanup _ w Q (λ _. h)
          (λ e failed.
            absurd (not_fails _ e (compare_sha256-Decides fl opts.expected_sha256 m text) failed)))
        λ _ w' first.
          Ends-mono (λ _ v. (v ≡ w) × (compare_byte_size fl opts.expected_byte_size m ≡ agrees))
            (λ _ v.
              (v ≡ w)
              × (compare_sha256 fl opts.expected_sha256 m ≡ agrees)
              × (compare_byte_size fl opts.expected_byte_size m ≡ agrees))
            Q Q _
            (subst
              (λ v.
                Ends (λ _ u. (u ≡ w) × (compare_byte_size fl opts.expected_byte_size m ≡ agrees)) Q
                  (require_same (compare_byte_size fl opts.expected_byte_size m) cleanup
                    "byte-size mismatch" v))
              (sym first.0)
              (require_same_lem _ cleanup _ w Q (λ _. h)
                (λ e failed.
                  absurd (
                    not_fails _ e (compare_byte_size-Decides fl opts.expected_byte_size m)
                      failed))))
            (λ _ v second. (second.0, first.1, second.1)) (λ e v q. q)

  sha_met :
      (m : Fields) (digest s : String)
      → get m "sha256" ≡ str digest
      → s ≢ ""
      → compare_sha256 fl (str s) m ≡ agrees
      → digest ≡ lower s
  unfolding compare_sha256 py_eq
  sha_met m digest s at ne h = ground (arith, not_empty s ne, str_eq_iff digest (lower s))

  size_met :
      (m : Fields) (k : ℕ) (n : ℤ)
      → get m "byte_size" ≡ int (pos k)
      → n ≢ pos 0
      → compare_byte_size fl (int n) m ≡ agrees
      → n ≡ pos k
  unfolding compare_byte_size py_eq
  size_met m k n at ne h = ground (arith, eqb_ℤ-eq n (pos 0), eqb_ℤ-eq (pos k) n)

  -- What the comparisons mean for the metadata of a content.
  pub met :
      (repository address filename destination time : String) (content : List ℕ) (w : World)
      → let m = metadata_of o destination repository address filename opts content time in
        w.files destination ≡ some content
        → 0 < length content
        → compare_sha256 fl opts.expected_sha256 m ≡ agrees
        → compare_byte_size fl opts.expected_byte_size m ≡ agrees
        → IsInstalled o opts repository address filename destination content m (record w {
          files = put_file w.files (beside o destination ".metadata.json") (some (o.dumps m));
        })
  unfolding metadata_of get lookup
  met repository address filename destination time content w at filled sha size =
      let m : Fields = metadata_of o destination repository address filename opts content time in
      record {
        content_at = put_file_other w.files _ destination _ (metadata-ne o law destination) ∙ at;
        filled = filled;
        time = time;
        described = refl;
        recorded = put_file_self w.files _ _;
        digest = λ s e ne.
            sha_met m (sha256_file o content 1048576) s refl ne
              (subst (λ v. compare_sha256 fl v m ≡ agrees) e sha);
        size = λ n e ne.
            size_met m (length content) n refl ne
              (subst (λ v. compare_byte_size fl v m ≡ agrees) e size);
      }
