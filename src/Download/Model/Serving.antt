-- ===== src/Download/Model/Serving.antt =====
-- A server that sends one content, whole or in part, and what `fetch` makes of its responses.
use llm_inference_optimizati.Base.{
  ℕ, suc, ◌+◌, ◌<◌, ◌≡◌, ◌≢◌, refl, sym, ap, ◌∙◌, subst, String, Option, none, some, List, [], ◌∷◌,
  ◌++◌, pos, ◌+ℤ◌, int_laws, length, length-append, ltb, ◌==◌, ◌&&◌, if◌then◌else◌, eqb_ℤ-eq,
  ==_iff, Bool-cases, Option-cases, inl, inr, ◌⊎◌, arith,
}
use llm_inference_optimizati.Download.World.{
  World, Outcome, raised, download_error, http_error, write, put_file, Ends, Ends-mono, ◌>>◌,
}
use llm_inference_optimizati.Download.Outside.{
  Outside, Response, Ending, complete, Reply, refused, broken, opened,
}
use llm_inference_optimizati.Download.Model.{
  received, content_or_empty, status_of, Expected, unknown, bytes, not_a_number, expected_size,
  check_received, receive, store_response, ask, fetch,
}
use llm_inference_optimizati.Download.Model.Steps.{put_file_self}

-- A response that sends a piece of the data: what follows the offset that was asked for under the
-- status 206, and the data from their beginning under any other. A header Content-Length gives the
-- number of bytes up to the end; without one, a body that ends cleanly is whole.
pub record Serves {H : Type 0} (o : Outside H) (model : List ℕ) (offset : Option ℕ) (r : Response)
    : Type 0 where
  pub before : List ℕ
  pub rest : List ℕ
  pub pieces : model ≡ before ++ ((received r.chunks r.ending).0 ++ rest)
  pub partial_status : status_of r.status ≡ 206 → offset ≡ some (length before)
  pub other_status : status_of r.status ≢ 206 → before ≡ []
  pub announced :
      (text : String)
      → r.content_length ≡ some text
      → o.parse_int text ≡ some (pos (length (received r.chunks r.ending).0 + length rest))
  pub unannounced : r.content_length ≡ none → (received r.chunks r.ending).1 ≡ complete → rest ≡ []

-- Every request gets such a response, or none.
abbrev pub IsServer : {H : Type 0} → Outside H → String → List ℕ → Type 0
IsServer o address model =
    (n : ℕ) (offset : Option ℕ) (r : Response)
    → o.open_url n address offset ≡ opened r
    → Serves o model offset r

pub append_nil : (xs : List ℕ) → xs ++ [] ≡ xs
append_nil [] = refl
append_nil (x ∷ xs) = ap (λ ys. x ∷ ys) (append_nil xs)

pub append_assoc : (xs ys zs : List ℕ) → (xs ++ ys) ++ zs ≡ xs ++ (ys ++ zs)
append_assoc [] ys zs = refl
append_assoc (x ∷ xs) ys zs = ap (λ l. x ∷ l) (append_assoc xs ys zs)

nothing_left : (xs : List ℕ) → length xs ≡ 0 → xs ≡ []
nothing_left [] h = refl
nothing_left (x ∷ xs) h = absurd (omega arith)

-- Two beginnings of one list that are equally long are equal.
same_start : (xs ys us vs : List ℕ) → xs ++ us ≡ ys ++ vs → length xs ≡ length ys → xs ≡ ys
same_start [] [] us vs h k = refl
same_start [] (y ∷ ys) us vs h k = absurd (omega arith)
same_start (x ∷ xs) [] us vs h k = absurd (omega arith)
same_start (x ∷ xs) (y ∷ ys) us vs h k =
    let tails : xs ++ us ≡ ys ++ vs = cc in
    let rest : xs ≡ ys = same_start xs ys us vs tails (omega arith) in cc

-- The data begin with what is held.
abbrev pub IsStart : List ℕ → List ℕ → Type 0
IsStart held model = (rest : List ℕ) × (model ≡ held ++ rest)

module _ {H : Type 0} (o : Outside H) (model : List ℕ) where
  -- What the response announces is right.
  abbrev pub Announces : Expected → List ℕ → Ending → Type 0
  Announces expected rest ending =
      ((expected ≡ unknown) × (ending ≡ complete → length rest ≡ 0))
      ⊎ (expected ≡ bytes (pos (length model)))

  -- A body that passes the checks is whole.
  check_received-whole :
      (expected : Expected) (content rest : List ℕ) (ending : Ending) (w : World)
      → model ≡ content ++ rest
      → Announces expected rest ending
      → Ends
          (λ _ v. (v ≡ w) × (length rest ≡ 0))
          (λ e v. v ≡ w)
          (check_received o expected content ending w)
  unfolding check_received
  check_received-whole expected content rest ending w split h =
      let counted : length model ≡ length content + length rest =
        ap length split ∙ length-append content rest in
      ground (arith, eqb_ℤ-eq (pos (length content)) (pos (length model)))

  -- What holds of the partial file after a piece of the model was written to it.
  abbrev pub Whole : String → World → Type 0
  Whole partial w = w.files partial ≡ some model

  abbrev pub Started : String → World → Type 0
  Started partial w = IsStart (content_or_empty (w.files partial)) model

  stored_lem :
      (expected : Expected) (partial : String) (content rest : List ℕ) (ending : Ending) (w : World)
      → model ≡ content ++ rest
      → Announces expected rest ending
      → Ends
          (λ _ v. Whole partial v)
          (λ e v. Started partial v)
          ((write partial (some content) >> check_received o expected content ending) w)
  stored_lem expected partial content rest ending w split h =
      let w' : World = record w { files = put_file w.files partial (some content) } in
      let at : w'.files partial ≡ some content = put_file_self w.files partial (some content) in
      Ends-mono (λ _ v. (v ≡ w') × (length rest ≡ 0)) (λ _ v. Whole partial v) (λ e v. v ≡ w')
        (λ e v. Started partial v) (check_received o expected content ending w')
        (check_received-whole expected content rest ending w' split h)
        (λ _ v i.
          ap (λ u. u.files partial) i.0
          ∙ (at
              ∙ ap some (
                  sym (
                    split
                    ∙ (ap (λ l. content ++ l) (nothing_left rest i.1) ∙ append_nil content)))))
        (λ e v i. (
          rest,
          split ∙ ap (λ f. content_or_empty f ++ rest) (sym (ap (λ u. u.files partial) i ∙ at)),
        ))

  store_response-Whole :
      (expected : Expected) (partial : String) (base rest : List ℕ) (r : Response) (w : World)
      → model ≡ (base ++ (received r.chunks r.ending).0) ++ rest
      → Announces expected rest (received r.chunks r.ending).1
      → Ends
          (λ _ v. Whole partial v)
          (λ e v. Started partial v)
          (store_response o expected partial base r w)
  unfolding store_response
  store_response-Whole not_a_number partial base rest r w split h = absurd (ground arith)
  store_response-Whole unknown partial base rest r w split h =
      stored_lem unknown partial _ rest _ w split h
  store_response-Whole (bytes n) partial base rest r w split h =
      stored_lem (bytes n) partial _ rest _ w split h

  -- The part of the file that is kept ends where the response begins.
  pub base_lem :
      (old : List ℕ) (r : Response)
      (s : Serves o model (if length old == 0 then none else some (length old)) r)
      → IsStart old model
      → (if ltb 0 (length old) && status_of r.status == 206 then old else []) ≡ s.before
  base_lem old r s start = elim (Bool-cases (status_of r.status == 206)) [
    | inr other ↦
        let none_before : s.before ≡ [] = s.other_status (λ e. absurd (ground arith)) in
        ground arith
    | inl partial_content ↦
        let asked = s.partial_status ((==_iff _ _).0 partial_content) in
        let long : length old ≡ length s.before = ground arith in
        let nonempty : 0 < length old = ground arith in
        let same : old ≡ s.before =
          same_start old s.before start.0 _ (sym start.1 ∙ s.pieces) long in
        ground arith
  ]

  pub announces_lem :
      (offset : Option ℕ) (r : Response) (s : Serves o model offset r)
      → Announces
          (expected_size o r.content_length (length s.before))
          s.rest
          (received r.chunks r.ending).1
  unfolding expected_size
  announces_lem offset r s =
      let counted : length model
          ≡ length s.before + (length (received r.chunks r.ending).0 + length s.rest) =
        ap length s.pieces
        ∙ (length-append s.before _ ∙ ap (λ n. length s.before + n) (length-append _ s.rest)) in
      elim (Option-cases r.content_length) [
        | inl absent ↦ inl (ground arith, λ whole. ap length (s.unannounced absent whole))
        | inr there ↦
            let parsed = s.announced there.0 there.1 in
            let total : pos (length s.before)
                  +ℤ pos (length (received r.chunks r.ending).0 + length s.rest)
                ≡ pos (length model) =
              omega (int_laws, counted) in
            inr (ground (arith, total))
      ]

  -- The branches of a request's reply, where the responses are the model's.
  served_lem :
      (partial : String) (old : List ℕ) (reply : Reply) (w : World)
      → content_or_empty (w.files partial) ≡ old
      → IsStart old model
      → ((r : Response)
          → reply ≡ opened r
          → Serves o model (if length old == 0 then none else some (length old)) r)
      → Ends
          (λ _ v. Whole partial v)
          (λ e v. Started partial v)
          (elim reply as (λ _. Outcome (Unit {0})) [
            | refused ↦ raised (download_error "download failed") w
            | broken ↦ raised http_error w
            | opened r ↦ receive o partial old r w
          ])
  unfolding receive
  served_lem partial old refused w held start serves = subst (λ l. IsStart l model) (sym held) start
  served_lem partial old broken w held start serves = subst (λ l. IsStart l model) (sym held) start
  served_lem partial old (opened r) w held start serves =
      let s = serves r refl in
      subst
        (λ base.
          Ends (λ _ v. Whole partial v) (λ e v. Started partial v)
            (store_response o (expected_size o r.content_length (length base)) partial base r w))
        (sym (base_lem old r s start))
        (store_response-Whole _ partial s.before s.rest r w
          (s.pieces ∙ sym (append_assoc s.before _ s.rest)) (announces_lem _ r s))

  -- `fetch` makes the partial file whole, or leaves a part of the model in it.
  pub fetch-Whole :
      (partial address : String) (w : World)
      → IsServer o address model
      → Started partial w
      → Ends (λ _ v. Whole partial v) (λ e v. Started partial v) (fetch o partial address w)
  unfolding fetch
  fetch-Whole partial address w server start =
      served_lem partial (content_or_empty (w.files partial))
        (ask o address (content_or_empty (w.files partial)) w)
        (record w { requests = suc w.requests }) refl start (λ r e. server w.requests _ r e)
