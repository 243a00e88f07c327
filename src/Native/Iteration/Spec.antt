-- ===== src/Native/Iteration/Spec.antt =====
-- What the iteration records that were accepted say: a schedule in time order, each iteration with
-- its own work.
use llm_inference_optimizati.Base.{
  ℕ, ◌+◌, ◌*◌, ◌≤◌, ◌<◌, ◌≡◌, subst, String, Bool, true, false, ◌&&◌, ◌||◌, Option, none, some,
  List, [], ◌∷◌, ◌++◌, map, sub_ℕ, length, all, contains_id, has_no_duplicates, arith, ok, step,
  checked, passed, required, ok-injective, when_present, ltb,
}
use llm_inference_optimizati.Value.{Value, Fields, Floats}
use llm_inference_optimizati.Value.Checks.{conserved-ok}
use llm_inference_optimizati.Config.Spec.{Limits}
use llm_inference_optimizati.Native.Iteration.{
  Iteration, Gauges, id_array, overlap, nonempty, check_scheduled, check_capacity, conserved_int,
  validate_iteration, validate_iterations,
}

-- The ids of an array: different from one another, and all of them requests.
abbrev pub Ids : List ℕ → List ℕ → Type 0
Ids known ids = (has_no_duplicates ids ≡ true) × (all (contains_id known) ids ≡ true)

-- All blocks are accounted for, and what the allocated blocks hold beyond the tokens is the
-- fragmentation.
abbrev pub Fills : Option Limits → Gauges → Type 0
Fills none g = Unit
Fills (some l) g =
    (g.kv_allocated + g.kv_free ≡ l.total_blocks)
    × (g.internal_fragmentation_tokens + g.represented_kv_tokens ≡ g.kv_allocated * l.block_size)

pub record IsIteration (limits : Option Limits) (known : List ℕ) (it : Iteration) : Type 0 where
  pub forward : it.start ≤ it.end_time
  pub prefill_ids : Ids known it.prefill
  pub decode_ids : Ids known it.decode
  pub separate : overlap it.prefill it.decode ≡ false
  pub deferred_apart : overlap (map (λ d. d.request) it.deferred) (it.prefill ++ it.decode) ≡ false
  pub sequences : it.scheduled_sequences ≡ length it.prefill + length it.decode
  pub decode_tokens : it.scheduled_decode_tokens ≡ length it.decode
  pub total_tokens :
      it.total_scheduled_tokens ≡ it.scheduled_prefill_tokens + it.scheduled_decode_tokens
  pub idle_stall : it.stall ≡ true → it.total_scheduled_tokens ≡ 0
  pub fills : Fills limits it.gauges
  pub cached : it.cached_blocks ≤ it.kv_allocated
  pub shared : it.shared_referenced_blocks ≤ it.kv_allocated

-- Iterations after number `previous` and time `previous_end`, one behind the other.
abbrev pub Runs : Option Limits → List ℕ → ℕ → ℕ → List Iteration → Type 0
Runs limits known previous previous_end [] = Unit
Runs limits known previous previous_end (it ∷ its) =
    (previous < it.number)
    × (previous_end ≤ it.start)
    × IsIteration limits known it
    × Runs limits known it.number it.end_time its

id_array-Ids :
    (v : Value) (name : String) (known : List ℕ) {ids : List ℕ}
    → id_array v name known ≡ ok ids
    → Ids known ids
unfolding id_array
id_array-Ids v name known h = step _ _ h λ vs is_list h. step _ _ h λ ids naturals h.
    required _ _ _ h λ unique h.
      required _ _ _ h λ all_known h. subst (Ids known) (ok-injective h) (unique, all_known)

conserved_int-sub :
    (n a b : ℕ) (name : String) → conserved_int n (sub_ℕ a b) name ≡ ok tt → n + b ≡ a
unfolding conserved_int
conserved_int-sub n a b name h = ground arith

idle :
    (stall : Bool) (prefill decode : List ℕ) (g : Gauges)
    → stall ≡ true
    → (stall && (nonempty prefill || (nonempty decode || ltb 0 g.total_scheduled_tokens))) ≡ false
    → g.total_scheduled_tokens ≡ 0
idle stall prefill decode g e h = ground arith

module _ (fl : Floats) where
  check_capacity-Fills :
      (limits : Option Limits) (g : Gauges) (utilization : Value)
      → when_present limits (λ l. check_capacity fl l g utilization) ≡ ok tt
      → Fills limits g
  unfolding when_present check_capacity
  check_capacity-Fills none g utilization h = tt
  check_capacity-Fills (some l) g utilization h =
      checked _ _ h λ blocks h.
        checked _ _ h λ ratio h. (conserved-ok _ _ _ blocks, conserved_int-sub _ _ _ _ h)

  validate_iteration_sound :
      (limits : Option Limits) (known : List ℕ) (previous previous_end : ℕ) (r : Fields)
      {it : Iteration}
      → validate_iteration fl limits known previous previous_end r ≡ ok it
      → (previous < it.number) × (previous_end ≤ it.start) × IsIteration limits known it
  unfolding validate_iteration check_scheduled
  validate_iteration_sound limits known previous previous_end r h = checked _ _ h λ closed h.
      step _ _ h λ number number_ok h. step _ _ h λ start start_ok h.
        step _ _ h λ end_time end_ok h. passed _ _ _ h λ increasing h. passed _ _ _ h λ monotonic h.
          step _ _ h λ known_policy policy_ok h. required _ _ _ h λ policy_known h.
            step _ _ h λ prefill prefill_ok h. step _ _ h λ decode decode_ok h.
              passed _ _ _ h λ separate h. step _ _ h λ deferred_values _ h.
                step _ _ h λ deferred deferred_ok h. passed _ _ _ h λ apart h.
                  step _ _ h λ g gauges_ok h. checked _ _ h λ scheduled h.
                    checked _ _ h λ utilization h. step _ _ h λ stall stall_ok h.
                      step _ _ h λ evicted_values _ h. step _ _ h λ evicted evicted_ok h.
                        required _ _ _ h λ evicted_unique h. passed _ _ _ h λ stalled h.
                          checked _ _ h λ capacity h. passed _ _ _ h λ blocks h.
                            checked _ _ scheduled λ sequences scheduled.
                              checked _ _ scheduled λ decodes totals.
                                subst
                                  (λ x.
                                    (previous < x.number)
                                    × (previous_end ≤ x.start)
                                    × IsIteration limits known x)
                                  (ok-injective h)
                                  (
                                    ground arith,
                                    ground arith,
                                    record {
                                      forward = ground arith;
                                      prefill_ids = id_array-Ids _ _ known prefill_ok;
                                      decode_ids = id_array-Ids _ _ known decode_ok;
                                      separate = separate;
                                      deferred_apart = apart;
                                      sequences = conserved-ok _ _ _ sequences;
                                      decode_tokens = conserved-ok _ _ _ decodes;
                                      total_tokens = conserved-ok _ _ _ totals;
                                      idle_stall =
                                          λ is_stall. idle stall prefill decode g is_stall stalled;
                                      fills = check_capacity-Fills limits g _ capacity;
                                      cached = ground arith;
                                      shared = ground arith;
                                    },
                                  )

  -- The iteration records that are accepted are a run: their numbers increase, none starts before
  -- the one in front of it has ended, and each of them is an iteration on its own.
  pub validate_iterations_sound :
      (limits : Option Limits) (known : List ℕ) (previous previous_end : ℕ) (rs : List Fields)
      {its : List Iteration}
      → validate_iterations fl limits known previous previous_end rs ≡ ok its
      → Runs limits known previous previous_end its
  unfolding validate_iterations
  validate_iterations_sound limits known previous previous_end [] h =
      subst (Runs limits known previous previous_end) (ok-injective h) tt
  validate_iterations_sound limits known previous previous_end (r ∷ rs) h = step _ _ h λ it valid h.
      step _ _ h λ rest later h.
        let (number, start, each) =
          validate_iteration_sound limits known previous previous_end r valid in
        subst (Runs limits known previous previous_end) (ok-injective h) (
          number,
          start,
          each,
          validate_iterations_sound limits known it.number it.end_time rs later,
        )
