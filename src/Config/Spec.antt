-- ===== src/Config/Spec.antt =====
-- What a serving configuration that was accepted says.
use llm_inference_optimizati.Base.{
  ℕ, ◌≤◌, ◌≡◌, subst, sym, ap, ◌∙◌, ◌⊎◌, inl, inr, String, Bool, true, false, ◌&&◌, not, List, [],
  ◌∷◌, pos, arith, contains, ok, step, passed, required, checked, raise_if-ok, ok-injective,
  only_check-ok, str_eq, str_eq_iff,
}
use llm_inference_optimizati.Value.{Value, int, str, obj, Fields, get_item, in_set, has_exactly}
use llm_inference_optimizati.Value.Checks.{require_str, require_nat-ok, as_obj-ok}
use llm_inference_optimizati.Config.{
  closed_obj, int_item, choice_item, check_modes, check_caches, validate_serving_config,
}

-- Which policy goes with which execution mode.
abbrev pub Compatible : String → String → Type 0
Compatible mode policy =
    ((mode ≡ "single_active_fcfs") × (policy ≡ "FCFS"))
    ⊎ ((mode ≡ "continuous_batching") × ((policy ≡ "DecodeFirst") ⊎ (policy ≡ "FcfsMixed")))

-- An item of a dict that is an integer of at least `least`.
abbrev pub IntAt : Fields → String → ℕ → ℕ → Type 0
IntAt d name least n = (get_item d name ≡ ok (int (pos n))) × (least ≤ n)

int_item-IntAt :
    (least : ℕ) (d : Fields) (name : String)
    → int_item least d name ≡ ok tt
    → (n : ℕ) × IntAt d name least n
unfolding int_item
int_item-IntAt least d name h = step _ _ h λ v found h.
    let (n, fits) = only_check-ok _ h in
    let (is_int, enough) = require_nat-ok least v name fits in
    (n, (found ∙ ap ok is_int, omega arith))

true≢false : ◌≡◌ {A = Bool} true false → ⊥
true≢false h = cc

closed_obj-ok :
    (v : Value) (names : List String) (text : String) {d : Fields}
    → closed_obj v names text ≡ ok d
    → (v ≡ obj d) × (has_exactly d names ≡ true)
unfolding closed_obj
closed_obj-ok v names text h = step _ _ h λ r is_dict h. required _ _ _ h λ exact h.
    subst (λ x. (v ≡ obj x) × (has_exactly x names ≡ true)) (ok-injective h)
      (as_obj-ok v _ is_dict, exact)

in_set-str :
    (v : Value) (choices : List String) (name : String) {s : String}
    → in_set v choices ≡ ok true
    → require_str true v name ≡ ok s
    → (v ≡ str s) × (contains choices s ≡ true)
unfolding require_str
in_set-str (str t) choices name h k = ground arith
in_set-str _ choices name h k = absurd (cc)

choice_item-ok :
    (d : Fields) (name : String) (choices : List String) (text : String) {s : String}
    → choice_item d name choices text ≡ ok s
    → (get_item d name ≡ ok (str s)) × (contains choices s ≡ true)
unfolding choice_item
choice_item-ok d name choices text h = step _ _ h λ v found h. step _ _ h λ known in_choices h.
    required _ _ _ h λ is_known h.
      let (is_text, listed) =
        in_set-str v choices name (subst (λ b. in_set v choices ≡ ok b) is_known in_choices) h in
      (found ∙ ap ok is_text, listed)

-- one of two, one of three
one_of_two : (a b s : String) → contains (a ∷ b ∷ []) s ≡ true → (s ≡ a) ⊎ (s ≡ b)
one_of_two a b s h = ground (arith, str_eq_iff s a, str_eq_iff s b)

one_of_three :
    (a b c s : String) → contains (a ∷ b ∷ c ∷ []) s ≡ true → (s ≡ a) ⊎ ((s ≡ b) ⊎ (s ≡ c))
one_of_three a b c s h = ground (arith, str_eq_iff s a, str_eq_iff s b, str_eq_iff s c)

-- The two tests on the mode and the policy together.
compatible :
    (mode policy : String)
    → (mode ≡ "single_active_fcfs") ⊎ (mode ≡ "continuous_batching")
    → (policy ≡ "FCFS") ⊎ ((policy ≡ "DecodeFirst") ⊎ (policy ≡ "FcfsMixed"))
    → (str_eq mode "single_active_fcfs" && not (str_eq policy "FCFS")) ≡ false
    → (str_eq mode "continuous_batching" && str_eq policy "FCFS") ≡ false
    → Compatible mode policy
compatible mode policy (inl m) (inl p) h k = inl (m, p)
compatible mode policy (inr m) (inr p) h k = inr (m, p)
compatible mode policy (inl m) (inr (inl p)) h k = absurd (true≢false (rw (m, p) at h))
compatible mode policy (inl m) (inr (inr p)) h k = absurd (true≢false (rw (m, p) at h))
compatible mode policy (inr m) (inl p) h k = absurd (true≢false (rw (m, p) at k))

check_modes-Compatible :
    (config : Fields)
    → check_modes config ≡ ok tt
    → (mode policy : String) × (get_item config "execution_mode" ≡ ok (str mode))
      × (get_item config "scheduling_policy" ≡ ok (str policy))
      × Compatible mode policy
unfolding check_modes
check_modes-Compatible config h = step _ _ h λ mode mode_ok h. step _ _ h λ policy policy_ok h.
    passed _ _ _ h λ fcfs h.
      let odd = raise_if-ok _ _ h in
      let (mode_at, mode_known) = choice_item-ok config _ _ _ mode_ok in
      let (policy_at, policy_known) = choice_item-ok config _ _ _ policy_ok in
      (
        mode,
        policy,
        mode_at,
        policy_at,
        compatible mode policy (one_of_two _ _ mode mode_known)
            (one_of_three _ _ _ policy policy_known) fcfs odd,
      )

-- What the rest of the program takes from a configuration.
pub record Limits : Type 0 where
  pub mode : String
  pub policy : String
  pub total_blocks : ℕ
  pub block_size : ℕ

pub record IsLimits (config : Fields) (l : Limits) : Type 0 where
  pub mode_at : get_item config "execution_mode" ≡ ok (str l.mode)
  pub policy_at : get_item config "scheduling_policy" ≡ ok (str l.policy)
  pub compatible : Compatible l.mode l.policy
  pub cache :
      (kv : Fields) × (get_item config "kv_cache" ≡ ok (obj kv))
      × IntAt kv "total_blocks" 1 l.total_blocks
      × IntAt kv "block_size_tokens" 1 l.block_size

check_caches-ok :
    (config : Fields)
    → check_caches config ≡ ok tt
    → (kv : Fields) × (get_item config "kv_cache" ≡ ok (obj kv))
      × ((n : ℕ) × IntAt kv "total_blocks" 1 n)
      × ((n : ℕ) × IntAt kv "block_size_tokens" 1 n)
unfolding check_caches
check_caches-ok config h = checked _ _ h λ sequences h. checked _ _ h λ tokens h.
    step _ _ h λ kv_value kv_at h. step _ _ h λ kv kv_ok h. checked _ _ h λ total h.
      checked _ _ h λ size h. (
        kv,
        kv_at ∙ ap ok (closed_obj-ok _ _ _ kv_ok).0,
        int_item-IntAt 1 kv _ total,
        int_item-IntAt 1 kv _ size,
      )

module _ (inside_root : String → Bool) where
  -- An accepted configuration is returned unchanged. Its mode and policy go together, and its KV
  -- cache has at least one block of at least one token.
  pub validate_serving_config_sound :
      (config : Fields) {config' : Fields}
      → validate_serving_config inside_root config ≡ ok config'
      → (config' ≡ config) × ((l : Limits) × IsLimits config l)
  unfolding validate_serving_config
  validate_serving_config_sound config h = required _ _ _ h λ complete h.
      required _ _ _ h λ closed h. step _ _ h λ schema schema_at h. required _ _ _ h λ schema_ok h.
        step _ _ h λ name name_at h. checked _ _ h λ name_ok h. step _ _ h λ evidence evidence_at h.
          required _ _ _ h λ evidence_ok h. checked _ _ h λ modes h. checked _ _ h λ caches h.
            checked _ _ h λ costs h. checked _ _ h λ paths h.
              let (mode, policy, mode_at, policy_at, fit) = check_modes-Compatible config modes in
              let (kv, kv_at, total, size) = check_caches-ok config caches in
              (
                sym (ok-injective h),
                (
                  record {
                    mode = mode;
                    policy = policy;
                    total_blocks = total.0;
                    block_size = size.0;
                  },
                  record {
                    mode_at = mode_at;
                    policy_at = policy_at;
                    compatible = fit;
                    cache = (kv, kv_at, total.1, size.1);
                  },
                ),
              )
