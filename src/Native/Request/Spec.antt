-- ===== src/Native/Request/Spec.antt =====
-- What a request record that was accepted says about its lifecycle and its times.
use llm_inference_optimizati.Base.{
  ℕ, ◌+◌, ◌≤◌, ◌<◌, ◌≡◌, ◌≢◌, refl, subst, ◌⊎◌, inl, inr, String, true, false, not, Option, none,
  some, List, [], ◌∷◌, length, sum_by, is_sorted, head?, get_last?, contains, contains_id,
  same_list-eq, arith, ok, ◌>>=◌, str_eq_iff, ◌&&◌, ◌||◌, ltb, ◌==◌, step, checked, passed,
  required, raise_if-ok, ok-injective, not-eq-false,
}
use llm_inference_optimizati.Value.{Fields, Floats}
use llm_inference_optimizati.Value.Checks.{conserved-ok}
use llm_inference_optimizati.Metrics.{Times}
use llm_inference_optimizati.Native.Request.{
  State, waiting, prefilling, decoding, finished, cancelled, is_finished, same_option, before,
  before_both, Counts, Request, is_some, differences, check_counts, check_order, check_state,
  check_timing, check_identity, validate_request,
}

-- Prompt tokens: an admitted request has matched or scheduled each of them, and a request that was
-- not admitted has done nothing.
abbrev pub Work : Option ℕ → Counts → Type 0
Work none c = (c.matched ≡ 0) × (c.scheduled ≡ 0) × (c.generated ≡ 0)
Work (some _) c = c.matched + c.scheduled ≡ c.original

pub record Accounted (c : Counts) : Type 0 where
  pub matched_le : c.matched ≤ c.original
  pub scheduled_le : c.scheduled ≤ c.original
  pub generated_le : c.generated ≤ c.max_new_tokens
  pub work : Work c.admitted c

-- The order of the times that are known.
abbrev pub Follows : ℕ → Option ℕ → Type 0
Follows t none = Unit
Follows t (some u) = t ≤ u

-- A request that has generated nothing has no first token; any other has one, after its admission
-- and not after its finish.
abbrev pub FirstToken : Times → Type 0
FirstToken t =
    ((t.generated ≡ 0) × (t.first ≡ none))
    ⊎ ((0 < t.generated)
        × ((a u : ℕ) × (t.admitted ≡ some a) × (t.first ≡ some u) × (a ≤ u) × Follows u t.finish))

abbrev pub Lifecycle : State → Option String → Times → Type 0
Lifecycle waiting reason t =
    (reason ≡ none) × (t.admitted ≡ none) × (t.first ≡ none) × (t.finish ≡ none) × (t.generated ≡ 0)
Lifecycle prefilling reason t =
    (reason ≡ none)
    × ((a : ℕ) × (t.admitted ≡ some a) × (t.arrival ≤ a))
    × (t.first ≡ none)
    × (t.finish ≡ none)
    × (t.generated ≡ 0)
Lifecycle decoding reason t =
    (reason ≡ none) × ((a : ℕ) × (t.admitted ≡ some a) × (t.arrival ≤ a)) × (t.finish ≡ none)
Lifecycle finished reason t =
    (reason ≡ none)
    × ((a f : ℕ) × (t.admitted ≡ some a) × (t.finish ≡ some f) × (t.arrival ≤ a) × (a ≤ f))
Lifecycle cancelled reason t = ((s : String) × (reason ≡ some s) × (s ≢ "")) × (t.finish ≡ none)

-- The decode times: one for each token, in order, from the first token to the finish, and the gaps
-- are the differences of neighbours.
pub record Timed (state : State) (t : Times) (times gaps : List ℕ) : Type 0 where
  pub one_each : length times ≡ t.generated
  pub in_order : is_sorted times ≡ true
  pub from_first : (u : ℕ) → head? times ≡ some u → t.first ≡ some u
  pub to_finish : (u : ℕ) → state ≡ finished → get_last? times ≡ some u → t.finish ≡ some u
  pub between : gaps ≡ differences times

check_counts-Accounted : (p : Option ℕ) (c : Counts) → check_counts p c ≡ ok tt → Accounted c
unfolding check_counts ◌>>=◌
check_counts-Accounted p c h = ground arith

-- The tests that concern the first token, and those that concern one state.
first_token :
    (arrival : ℕ) (admitted first finish : Option ℕ) (generated : ℕ)
    → (is_some first && (not (is_some admitted) || before_both first admitted)) ≡ false
    → (before finish arrival || (before_both finish admitted || before_both finish first)) ≡ false
    → (generated == 0 && is_some first) ≡ false
    → (ltb 0 generated && not (is_some first)) ≡ false
    → FirstToken (record {
      arrival = arrival;
      admitted = admitted;
      first = first;
      finish = finish;
      generated = generated;
    })
first_token arrival admitted none finish generated h k l m = inl (ground arith, refl)
first_token arrival none (some u) finish generated h k l m = absurd (cc)
first_token arrival (some a) (some u) none generated h k l m =
    inr (ground arith, (a, u, refl, refl, ground arith, tt))
first_token arrival (some a) (some u) (some f) generated h k l m =
    inr (ground arith, (a, u, refl, refl, ground arith, ground arith))

check_state-FirstToken :
    (state : State) (reason : Option String) (t : Times)
    → check_order t ≡ ok tt
    → check_state state reason t ≡ ok tt
    → FirstToken t
unfolding check_order check_state
check_state-FirstToken state reason t h k = passed _ _ _ h λ h1 h. passed _ _ _ h λ h2 h.
    passed _ _ _ k λ k1 k. passed _ _ _ k λ k2 k. passed _ _ _ k λ k3 k. passed _ _ _ k λ k4 k.
      passed _ _ _ k λ k5 k. passed _ _ _ k λ k6 k. passed _ _ _ k λ k7 k. passed _ _ _ k λ k8 k.
        first_token t.arrival t.admitted t.first t.finish t.generated h2 (raise_if-ok _ _ h) k8
          (raise_if-ok _ _ k)

check_state-Lifecycle :
    (state : State) (reason : Option String) (t : Times)
    → check_order t ≡ ok tt
    → check_state state reason t ≡ ok tt
    → Lifecycle state reason t
unfolding check_order check_state ◌>>=◌
check_state-Lifecycle waiting reason t h k = ground arith
check_state-Lifecycle prefilling reason t h k = ground arith
check_state-Lifecycle decoding reason t h k = ground arith
check_state-Lifecycle finished reason t h k = ground arith
check_state-Lifecycle cancelled none t h k = ground arith
check_state-Lifecycle cancelled (some s) t h k =
    ((s, refl, λ e. ground (arith, str_eq_iff s "")), ground arith)

differences-sum :
    (u : ℕ) (times : List ℕ) {f : ℕ}
    → is_sorted (u ∷ times) ≡ true
    → get_last? (u ∷ times) ≡ some f
    → sum_by (λ g. g) (differences (u ∷ times)) + u ≡ f
unfolding differences
differences-sum u [] h e = ground arith
differences-sum u (v ∷ times) {f} h e = ground (arith, differences-sum v times {f = f})

agree :
    (o p : Option ℕ) (u : ℕ)
    → (is_some o && not (same_option o p)) ≡ false
    → o ≡ some u
    → p ≡ some u
agree o p u h e = ground arith

check_timing-Timed :
    (state : State) (t : Times) (times gaps : List ℕ)
    → check_timing state t times gaps ≡ ok tt
    → Timed state t times gaps
unfolding check_timing
check_timing-Timed state t times gaps h = checked _ _ h λ count h. checked _ _ h λ gap_count h.
    required _ _ _ h λ in_order h. passed _ _ _ h λ first_ok h. passed _ _ _ h λ last_ok h. record {
      one_each = conserved-ok _ _ _ count;
      in_order = in_order;
      from_first = λ u e. agree _ t.first u first_ok e;
      to_finish = λ u is_done e.
          agree _ t.finish u
            (subst
              (λ x.
                (is_finished x
                  && (is_some (get_last? times) && not (same_option (get_last? times) t.finish)))
                ≡ false)
              is_done last_ok)
            e;
      between = same_list-eq _ _ (not-eq-false _ (raise_if-ok _ _ h));
    }

check_identity_fresh :
    (r : Fields) (external_ids : List String) (native_ids : List ℕ) {ids : String × ℕ}
    → check_identity r external_ids native_ids ≡ ok ids
    → (contains external_ids ids.0 ≡ false) × (contains_id native_ids ids.1 ≡ false)
unfolding check_identity
check_identity_fresh r external_ids native_ids h = checked _ _ h λ closed h.
    step _ _ h λ request_id named h. passed _ _ _ h λ new_external h.
      step _ _ h λ internal_id numbered h. passed _ _ _ h λ new_native h.
        step _ _ h λ workload_class class_ok h. required _ _ _ h λ known h.
          step _ _ h λ prefix_group group_ok h. passed _ _ _ h λ group_named h.
            checked _ _ h λ deadline_ok h. required _ _ _ h λ metadata_ok h.
              subst
                (λ x. (contains external_ids x.0 ≡ false) × (contains_id native_ids x.1 ≡ false))
                (ok-injective h) (new_external, new_native)

-- An accepted request: its work, its lifecycle, its first token and its decode times.
pub record IsRequest (q : Request) : Type 0 where
  pub accounted : Accounted q.counts
  pub lifecycle : Lifecycle q.state q.reason q.times
  pub first_token : FirstToken q.times
  pub timed : Timed q.state q.times q.decode_times q.gaps

module _ (fl : Floats) where
  -- What the body of the loop accepts: a request with ids that are new.
  pub validate_request_sound :
      (r : Fields) (external_ids : List String) (native_ids : List ℕ) {q : Request}
      → validate_request fl r external_ids native_ids ≡ ok q
      → IsRequest q
        × (contains external_ids q.request_id ≡ false)
        × (contains_id native_ids q.internal_id ≡ false)
  unfolding validate_request
  validate_request_sound r external_ids native_ids h = step _ _ h λ ids identity h.
      step _ _ h λ prompt_length tokens h. step _ _ h λ counts read h. checked _ _ h λ counted h.
        checked _ _ h λ ordered h. step _ _ h λ state state_ok h. step _ _ h λ reason reason_ok h.
          checked _ _ h λ lifecycle h. step _ _ h λ time_values _ h. step _ _ h λ gap_values _ h.
            step _ _ h λ times times_ok h. step _ _ h λ gaps gaps_ok h. checked _ _ h λ timing_ok h.
              checked _ _ h λ metrics_ok h.
                let (external, native) = check_identity_fresh r external_ids native_ids identity in
                subst
                  (λ x.
                    IsRequest x
                    × (contains external_ids x.request_id ≡ false)
                    × (contains_id native_ids x.internal_id ≡ false))
                  (ok-injective h)
                  (
                    record {
                      accounted = check_counts-Accounted prompt_length counts counted;
                      lifecycle = check_state-Lifecycle state reason counts.times ordered lifecycle;
                      first_token =
                          check_state-FirstToken state reason counts.times ordered lifecycle;
                      timed = check_timing-Timed state counts.times times gaps timing_ok;
                    },
                    external,
                    native,
                  )

last_of : (u : ℕ) (times : List ℕ) → (f : ℕ) × (get_last? (u ∷ times) ≡ some f)
last_of u [] = (u, refl)
last_of u (v ∷ times) = last_of v times

span :
    (state : State) (t : Times) (times gaps : List ℕ)
    → Timed state t times gaps
    → state ≡ finished
    → 0 < t.generated
    → (u f : ℕ) × (t.first ≡ some u) × (t.finish ≡ some f) × (sum_by (λ g. g) gaps + u ≡ f)
span state t [] gaps h e some_generated = absurd (omega (arith, h.one_each))
span state t (u ∷ times) gaps h e some_generated =
    let (f, is_last) = last_of u times in
    (
      u,
      f,
      h.from_first u refl,
      h.to_finish f e is_last,
      rw h.between (differences-sum u times {f = f} h.in_order is_last),
    )

-- The inter-token gaps of a request record that `validate_request` accepts, in the state "Finished" and
-- with a token generated, add up to the time from its first token to its finish.
pub gaps_span :
    (fl : Floats) (r : Fields) (external_ids : List String) (native_ids : List ℕ) {q : Request}
    → validate_request fl r external_ids native_ids ≡ ok q
    → q.state ≡ finished
    → 0 < q.generated
    → (u f : ℕ) × (q.first ≡ some u) × (q.finish ≡ some f) × (sum_by (λ g. g) q.gaps + u ≡ f)
gaps_span fl r external_ids native_ids {q} accepted =
    let valid = (validate_request_sound fl r external_ids native_ids accepted).0 in
    span q.state q.times q.decode_times q.gaps valid.timed
