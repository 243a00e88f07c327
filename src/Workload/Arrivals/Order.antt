-- ===== src/Workload/Arrivals/Order.antt =====
-- Arrival times, whatever the mode: one for each request, in order.
use llm_inference_optimizati.Base.{
  ℕ, zero, suc, ◌+◌, ◌≡◌, refl, String, true, List, ◌∷◌, ok, step, required, arith, length,
  replicate, length-replicate, is_sorted, ok-injective, branch, length-for_each, ◌∙◌, subst, str_eq,
  ==_iff,
}
use llm_inference_optimizati.Value.{Value, Fields}
use llm_inference_optimizati.Workload.Random.{Rng}
use llm_inference_optimizati.Workload.Arrivals.{
  fixed_times, manual_times, later_times, exponential_times, timed_by_mode, arrival_times,
}

-- As many times as requests, none before the one in front of it.
pub record IsSchedule (count : ℕ) (times : List ℕ) : Type 0 where
  pub one_each : length times ≡ count
  pub in_order : is_sorted times ≡ true

is_sorted-replicate : (n t : ℕ) → is_sorted (replicate n t) ≡ true
is_sorted-replicate zero t = refl
is_sorted-replicate (suc zero) t = refl
is_sorted-replicate (suc (suc n)) t = ground (arith, is_sorted-replicate (suc n) t)

length-fixed_times : (start interval index n : ℕ) → length (fixed_times start interval index n) ≡ n
unfolding fixed_times
length-fixed_times start interval index zero = refl
length-fixed_times start interval index (suc n) =
    omega (arith, length-fixed_times start interval (index + 1) n)

is_sorted-fixed_times :
    (start interval index n : ℕ) → is_sorted (fixed_times start interval index n) ≡ true
unfolding fixed_times
is_sorted-fixed_times start interval index zero = refl
is_sorted-fixed_times start interval index (suc zero) = refl
is_sorted-fixed_times start interval index (suc (suc n)) =
    grind (arith, is_sorted-fixed_times start interval (index + 1) (suc n))

module _ {S : Type 0} (rng : Rng S) where
  length-later_times :
      (mean current : ℕ) (s : S) (n : ℕ) → length (later_times rng mean current s n) ≡ n
  unfolding later_times
  length-later_times mean current s zero = refl
  length-later_times mean current s (suc n) = omega (
    arith,
    length-later_times mean (current + rng.floor_exponential mean (rng.random s).0) (rng.random s).1
        n,
  )

  is_sorted-later_times :
      (mean current : ℕ) (s : S) (n : ℕ)
      → is_sorted (current ∷ later_times rng mean current s n) ≡ true
  unfolding later_times
  is_sorted-later_times mean current s zero = refl
  is_sorted-later_times mean current s (suc n) = ground (
    arith,
    is_sorted-later_times mean (current + rng.floor_exponential mean (rng.random s).0)
        (rng.random s).1 n,
  )

  exponential_times-IsSchedule :
      (mean start : ℕ) (s : S) (n : ℕ) → IsSchedule n (exponential_times rng mean start s n)
  unfolding exponential_times
  exponential_times-IsSchedule mean start s zero = record { one_each = refl; in_order = refl }
  exponential_times-IsSchedule mean start s (suc n) = record {
    one_each = omega (arith, length-later_times mean start s n);
    in_order = is_sorted-later_times mean start s n;
  }

manual_times-IsSchedule :
    (arrival : Fields) (count : ℕ) {times : List ℕ}
    → manual_times arrival count ≡ ok times
    → IsSchedule count times
unfolding manual_times
manual_times-IsSchedule arrival count h = step _ _ h λ given is_list h.
    required _ _ _ h λ as_many h. step _ _ h λ times each h. required _ _ _ h λ in_order h.
      subst (IsSchedule count) (ok-injective h) (record {
        one_each = length-for_each _ given each ∙ (==_iff _ _).0 as_many;
        in_order = in_order;
      })

module _ {S : Type 0} (rng : Rng S) where
  timed_by_mode-IsSchedule :
      (mode : String) (arrival : Fields) (start count : ℕ) (seed : Value) {times : List ℕ}
      → timed_by_mode rng mode arrival start count seed ≡ ok times
      → IsSchedule count times
  unfolding timed_by_mode
  timed_by_mode-IsSchedule mode arrival start count seed h =
      branch (str_eq mode "burst") _ _ h
        (λ _ h. subst (IsSchedule count) (ok-injective h) (record {
          one_each = length-replicate count start;
          in_order = is_sorted-replicate count start;
        }))
        λ _ h.
          branch (str_eq mode "fixed_interval") _ _ h
            (λ _ h. step _ _ h λ interval interval_ok h.
              subst (IsSchedule count) (ok-injective h) (record {
                one_each = length-fixed_times start interval 0 count;
                in_order = is_sorted-fixed_times start interval 0 count;
              }))
            λ _ h.
              branch (str_eq mode "manual") _ _ h (λ _ h. manual_times-IsSchedule arrival count h)
                λ _ h. step _ _ h λ mean mean_ok h. step _ _ h λ s seeded h.
                  subst (IsSchedule count) (ok-injective h)
                    (exponential_times-IsSchedule rng mean start s count)

  -- Whatever the mode, the times that `_arrival_times` returns are one for each request and do not
  -- decrease.
  pub arrival_times-IsSchedule :
      (config : Fields) (count : ℕ) (seed : Value) {times : List ℕ}
      → arrival_times rng config count seed ≡ ok times
      → IsSchedule count times
  unfolding arrival_times
  arrival_times-IsSchedule config count seed h = step _ _ h λ arrival is_dict h.
      step _ _ h λ mode mode_ok h. required _ _ _ h λ known h.
        step _ _ h λ start start_ok h. timed_by_mode-IsSchedule mode arrival start count seed h
