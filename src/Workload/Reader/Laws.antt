-- ===== src/Workload/Reader/Laws.antt =====
-- What a workload file that was read holds, and that a written workload is read back.
use llm_inference_optimizati.Base.{
  ℕ, suc, ◌+◌, ◌≡◌, refl, ap, ◌∙◌, subst, String, false, Option, some, List, [], ◌∷◌, map, All,
  length, ok, ◌>>=◌, step, passed, ok-injective, contains, arith,
}
use llm_inference_optimizati.Value.{Value, str, obj, Fields, get, get_item, lookup, keys, subset}
use llm_inference_optimizati.Workload.Record.{record_fields}
use llm_inference_optimizati.Workload.Record.Spec.{IsRecord, validate_workload_record_iff}
use llm_inference_optimizati.Text.Lines.{splitlines, lines_from, has_break, splitlines-append}
use llm_inference_optimizati.Workload.Reader.{
  is_blank, id_of, parse_line, read_from, read_workload, write_workload,
}

-- Each is a workload record, and its id is neither in `seen` nor the id of an earlier one.
abbrev pub Distinct : List String → List Fields → Type 0
Distinct seen [] = Unit
Distinct seen (r ∷ rs) =
    (id : String) × (get r "request_id" ≡ str id)
    × (contains seen id ≡ false)
    × IsRecord r
    × Distinct (id ∷ seen) rs

id_of-ok : (d : Fields) {s : String} → id_of d ≡ ok s → get d "request_id" ≡ str s
unfolding id_of get_item get ◌>>=◌
id_of-ok d h = ground arith

id_of-get : (d : Fields) (s : String) → get d "request_id" ≡ str s → id_of d ≡ ok s
unfolding id_of get_item get ◌>>=◌
id_of-get d s h = ground arith

module _ (loads : String → Option Value) where
  read_from_sound :
      (n : ℕ) (seen lines : List String) {rs : List Fields}
      → read_from loads n seen lines ≡ ok rs
      → Distinct seen rs × (length rs ≡ length lines)
  unfolding read_from
  read_from_sound n seen [] h =
      subst (λ rs. Distinct seen rs × (length rs ≡ 0)) (ok-injective h) (tt, refl)
  read_from_sound n seen (line ∷ lines) h = passed _ _ _ h λ not_blank h. step _ _ h λ v parsed h.
      step _ _ h λ r valid h. step _ _ h λ id named h. passed _ _ _ h λ fresh h.
        step _ _ h λ rest later h.
          let (each, size) = read_from_sound (n + 1) (id ∷ seen) lines later in
          subst (λ rs. Distinct seen rs × (length rs ≡ suc (length lines))) (ok-injective h)
            (
              (id, id_of-ok r named, fresh, ((validate_workload_record_iff v n r).0 valid).1, each),
              ap suc size,
            )

  -- `read_workload` returns one record for each line of the text, all of them workload records, with
  -- ids that are all different.
  pub read_workload_sound :
      (text : String) {rs : List Fields}
      → read_workload loads text ≡ ok rs
      → Distinct [] rs × (length rs ≡ length (splitlines text))
  unfolding read_workload
  read_workload_sound text h = read_from_sound 1 [] (splitlines text) h

-- What the program relies on of the json module, for one dict: its text is not blank and in one line,
-- and reading it back gives a dict with the same entries, in the order of their keys. The json module
-- escapes the line breaks below U+0020, but writes U+0085, U+2028 and U+2029 as they are, so that a
-- dict with one of these in a text does not satisfy this.
pub record ReadsBack (loads : String → Option Value) (dumps : Fields → String)
    (sort_keys : Fields → Fields) (d : Fields) : Type 0 where
  pub not_blank : is_blank (dumps d) ≡ false
  pub one_line : has_break (dumps d) ≡ false
  pub reads : loads (dumps d) ≡ some (obj (sort_keys d))
  pub same_lookup : (k : String) → lookup k (sort_keys d) ≡ lookup k d
  pub same_keys : (names : List String) → subset (keys (sort_keys d)) names ≡ subset (keys d) names

module _ (loads : String → Option Value) (dumps : Fields → String)
    (sort_keys : Fields → Fields) where
  same_get :
      (d : Fields)
      → ReadsBack loads dumps sort_keys d
      → (k : String) → get (sort_keys d) k ≡ get d k
  unfolding get
  same_get d json k = rw (json.same_lookup k)

  sort_keys-IsRecord :
      (d : Fields) → ReadsBack loads dumps sort_keys d → IsRecord d → IsRecord (sort_keys d)
  sort_keys-IsRecord d json (w, r) = (
    w,
    record {
      known = json.same_keys record_fields ∙ r.known;
      schema = same_get d json _ ∙ r.schema;
      id = same_get d json _ ∙ r.id;
      id_nonempty = r.id_nonempty;
      arrival = same_get d json _ ∙ r.arrival;
      prompt = same_get d json _ ∙ r.prompt;
      new_tokens = same_get d json _ ∙ r.new_tokens;
      class = same_get d json _ ∙ r.class;
      class_known = r.class_known;
      tokens = rw (json.same_lookup "prompt_tokens") r.tokens;
      prefix_group = rw (json.same_lookup "prefix_group") r.prefix_group;
      deadline = rw (json.same_lookup "deadline_us") r.deadline;
      metadata = rw (json.same_lookup "metadata") r.metadata;
    },
  )

  read_back :
      (n : ℕ) (seen : List String) (rs : List Fields)
      → All (ReadsBack loads dumps sort_keys) rs
      → Distinct seen rs
      → read_from loads n seen (map dumps rs) ≡ ok (map sort_keys rs)
  unfolding read_from parse_line ◌>>=◌
  read_back n seen [] json h = refl
  read_back n seen (r ∷ rs) json (id, named, fresh, valid, h) = ground (
    arith,
    json.0.not_blank,
    json.0.reads,
    (validate_workload_record_iff (obj (sort_keys r)) n (sort_keys r)).1
        (refl, sort_keys-IsRecord r json.0 valid),
    id_of-get (sort_keys r) id (same_get r json.0 "request_id" ∙ named),
    read_back (n + 1) (id ∷ seen) rs json.1 h,
  )

  -- The lines of a written workload are the texts of its records.
  splitlines-write_workload :
      (rs : List Fields)
      → All (ReadsBack loads dumps sort_keys) rs
      → splitlines (write_workload dumps rs) ≡ map dumps rs
  unfolding splitlines lines_from write_workload
  splitlines-write_workload [] json = refl
  splitlines-write_workload (r ∷ rs) json =
      splitlines-append (dumps r) (write_workload dumps rs) json.0.one_line
      ∙ ap (λ lines. dumps r ∷ lines) (splitlines-write_workload rs json.1)

  -- A workload whose records are valid and have different ids is read back as it was written, up to
  -- the order of the keys in each record.
  pub read_workload-write_workload :
      (rs : List Fields)
      → All (ReadsBack loads dumps sort_keys) rs
      → Distinct [] rs
      → read_workload loads (write_workload dumps rs) ≡ ok (map sort_keys rs)
  unfolding read_workload
  read_workload-write_workload rs json h =
      ap (read_from loads 1 []) (splitlines-write_workload rs json) ∙ read_back 1 [] rs json h
