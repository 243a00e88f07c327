-- ===== src/Native/Summary/Conservation.antt =====
-- What a summary that was accepted says of the requests and the iterations.
use llm_inference_optimizati.Base.{
  ℕ, ◌+◌, ◌<◌, ◌≡◌, refl, sym, ◌∙◌, subst, String, Bool, true, false, not, ◌&&◌, ◌||◌, Option, some,
  List, [], ◌∷◌, pos, arith, length, count_if, sum_by, All, head?, same_list-eq, ltb, ◌==◌, Result,
  ok, checked, passed, required, branch, raise_if-ok, check_each, if◌then◌else◌,
}
use llm_inference_optimizati.Value.{int, Fields, Floats, get, is_str}
use llm_inference_optimizati.Value.Checks.{conserved-ok}
use llm_inference_optimizati.Config.Spec.{Limits}
use llm_inference_optimizati.Native.Request.{
  Request, is_finished, is_cancelled, is_some, same_option,
}
use llm_inference_optimizati.Native.Iteration.{Iteration}
use llm_inference_optimizati.Native.Summary.{validate_summary}
use llm_inference_optimizati.Native.Summary.Totals.{
  is_fcfs, conserved_at, unfinished, latest_time, check_status, check_totals,
}
use llm_inference_optimizati.Native.Summary.Continuous.{
  is_nil, appearances, times_of, check_schedule, check_sums, check_fcfs, check_continuous,
}

conserved_at-ok :
    (s : Fields) (name : String) {n : ℕ} → conserved_at s name n ≡ ok tt → get s name ≡ int (pos n)
unfolding conserved_at
conserved_at-ok s name h = ground arith

one_number :
    (s : Fields) (name : String) {m n : ℕ}
    → get s name ≡ int (pos m)
    → get s name ≡ int (pos n)
    → m ≡ n
one_number s name h k = cc

check_each-All {ℓ} :
    {A : Type ℓ} (f : A → Result (Unit {0})) (xs : List A)
    → check_each f xs ≡ ok tt
    → All (λ x. f x ≡ ok tt) xs
unfolding check_each
check_each-All f [] h = tt
check_each-All f (x ∷ xs) h = checked _ _ h λ first h. (first, check_each-All f xs h)

-- The iterations schedule a request as its record says: it is in `prefill_ids` once if it was
-- admitted, in an iteration that starts at its admission, and never otherwise; and it is in
-- `decode_ids` once for each token, in iterations that end at its decode times.
pub record IsScheduled (its : List Iteration) (q : Request) : Type 0 where
  pub decodes : appearances (λ it. it.decode) q.internal_id its ≡ q.generated
  pub decode_times :
      times_of (λ it. it.decode) (λ it. it.end_time) q.internal_id its ≡ q.decode_times
  pub prefills :
      appearances (λ it. it.prefill) q.internal_id its ≡ (if is_some q.admitted then 1 else 0)
  pub admission :
      (a : ℕ)
      → q.admitted ≡ some a
      → head? (times_of (λ it. it.prefill) (λ it. it.start) q.internal_id its) ≡ some a

same_head :
    (admitted head : Option ℕ) (a : ℕ)
    → (is_some admitted && not (same_option head admitted)) ≡ false
    → admitted ≡ some a
    → head ≡ some a
same_head admitted head a h e = ground arith

check_schedule-IsScheduled :
    (its : List Iteration) (q : Request) → check_schedule its q ≡ ok tt → IsScheduled its q
unfolding check_schedule
check_schedule-IsScheduled its q h = checked _ _ h λ decodes h. required _ _ _ h λ times h.
    checked _ _ h λ prefills h. passed _ _ _ h λ admitted h. record {
      decodes = conserved-ok _ _ _ decodes;
      decode_times = same_list-eq _ _ times;
      prefills = conserved-ok _ _ _ prefills;
      admission = λ a e. same_head q.admitted _ a admitted e;
    }

-- Each counter that the summary keeps of both sides, the requests and the iterations.
pub record Agrees (requests : List Request) (its : List Iteration) : Type 0 where
  pub prefill_tokens :
      sum_by (λ it. it.scheduled_prefill_tokens) its ≡ sum_by (λ q. q.scheduled) requests
  pub decode_tokens :
      sum_by (λ it. it.scheduled_decode_tokens) its ≡ sum_by (λ q. q.generated) requests
  pub matched_tokens : sum_by (λ it. it.matched_tokens) its ≡ sum_by (λ q. q.matched) requests
  pub scheduled : All (IsScheduled its) requests

All-map {ℓ κ μ} :
    {A : Type ℓ} (P : A → Type κ) (Q : A → Type μ) (xs : List A)
    → ((x : A) → P x → Q x)
    → All P xs
    → All Q xs
All-map P Q [] f h = tt
All-map P Q (x ∷ xs) f h = (f x h.0, All-map P Q xs f h.1)

-- What the request side fixes of the counters that the iterations fix too.
abbrev Sums : Fields → ℕ → ℕ → ℕ → Type 0
Sums s prefill decode matched =
    (get s "scheduled_prefill_tokens" ≡ int (pos prefill))
    × (get s "scheduled_decode_tokens" ≡ int (pos decode))
    × (get s "matched_prefix_tokens" ≡ int (pos matched))

check_sums-Sums :
    (s : Fields) (its : List Iteration)
    → check_sums s its ≡ ok tt
    → Sums s
        (sum_by (λ it. it.scheduled_prefill_tokens) its)
        (sum_by (λ it. it.scheduled_decode_tokens) its)
        (sum_by (λ it. it.matched_tokens) its)
unfolding check_sums
check_sums-Sums s its h = checked _ _ h λ prefill h. checked _ _ h λ decode h.
    checked _ _ h λ sequences h. checked _ _ h λ batches h. checked _ _ h λ stalls h.
      checked _ _ h λ deferrals h. checked _ _ h λ capacity h. checked _ _ h λ hits h.
        checked _ _ h λ misses h. checked _ _ h λ matched h.
          (conserved_at-ok s _ prefill, conserved_at-ok s _ decode, conserved_at-ok s _ matched)

module _ (fl : Floats) where
  check_totals-Sums :
      (s : Fields) (requests : List Request) (its : List Iteration)
      → check_totals fl s requests its ≡ ok tt
      → (get s "makespan_us" ≡ int (pos (latest_time requests its)))
        × Sums s
            (sum_by (λ q. q.scheduled) requests)
            (sum_by (λ q. q.generated) requests)
            (sum_by (λ q. q.matched) requests)
  unfolding check_totals
  check_totals-Sums s requests its h = checked _ _ h λ makespan h. checked _ _ h λ prompts h.
      checked _ _ h λ prefill h. checked _ _ h λ generated h. checked _ _ h λ decode h.
        checked _ _ h λ matched h. (
          conserved_at-ok s _ makespan,
          (conserved_at-ok s _ prefill, conserved_at-ok s _ decode, conserved_at-ok s _ matched),
        )

  check_continuous-ok :
      (limits : Option Limits) (s : Fields) (requests : List Request) (its : List Iteration)
      → check_continuous fl limits s requests its ≡ ok tt
      → Sums s
          (sum_by (λ it. it.scheduled_prefill_tokens) its)
          (sum_by (λ it. it.scheduled_decode_tokens) its)
          (sum_by (λ it. it.matched_tokens) its)
        × All (IsScheduled its) requests
  unfolding check_continuous
  check_continuous-ok limits s requests its h = checked _ _ h λ present h.
      passed _ _ _ h λ averaged h. checked _ _ h λ counted h. checked _ _ h λ sums h.
        checked _ _ h λ average h. checked _ _ h λ peaks h. checked _ _ h λ last h.
          checked _ _ h λ current h. passed _ _ _ h λ gauges h. (
            check_sums-Sums s its sums,
            All-map _ (IsScheduled its) requests (check_schedule-IsScheduled its)
                (check_each-All (check_schedule its) requests h),
          )

  -- In continuous mode, a summary is accepted only where the two sides agree: the prefill, decode
  -- and matched tokens of the iterations add up to those of the requests, and each request is
  -- scheduled in the iterations as its record says.
  pub validate_summary-Agrees :
      (limits : Option Limits) (s : Fields) (requests : List Request) (its : List Iteration)
      → validate_summary fl limits s requests its ≡ ok tt
      → is_fcfs s ≡ false
      → Agrees requests its
  unfolding validate_summary
  validate_summary-Agrees limits s requests its h continuous = checked _ _ h λ header h.
      checked _ _ h λ fields h. checked _ _ h λ status h. checked _ _ h λ totals h.
        let ours = check_totals-Sums s requests its totals in
        branch (is_fcfs s) _ _ h (λ fcfs h. absurd (cc))
          λ fcfs h.
            let theirs = check_continuous-ok limits s requests its h in
            record {
              prefill_tokens = one_number s _ theirs.0.0 ours.1.0;
              decode_tokens = one_number s _ theirs.0.1 ours.1.1;
              matched_tokens = one_number s _ theirs.0.2 ours.1.2;
              scheduled = theirs.1;
            }

  is_nil-eq : {A : Type 0} (xs : List A) → is_nil xs ≡ true → xs ≡ []
  is_nil-eq [] h = refl
  is_nil-eq (x ∷ xs) h = absurd (cc)

  pub validate_summary-fcfs :
      (limits : Option Limits) (s : Fields) (requests : List Request) (its : List Iteration)
      → validate_summary fl limits s requests its ≡ ok tt
      → is_fcfs s ≡ true
      → its ≡ []
  unfolding validate_summary check_fcfs
  validate_summary-fcfs limits s requests its h fcfs = checked _ _ h λ header h.
      checked _ _ h λ fields h. checked _ _ h λ status h. checked _ _ h λ totals h.
        branch (is_fcfs s) _ _ h (λ is h. required _ _ _ h λ none_left h. is_nil-eq its none_left)
          λ is h. absurd (cc)

-- A request that has neither finished nor been cancelled.
abbrev pub is_open : Request → Bool
is_open q = not (is_finished q.state) && not (is_cancelled q.state)

open_count :
    (requests : List Request)
    → count_if is_open requests
        + (count_if (λ q. is_finished q.state) requests
            + count_if (λ q. is_cancelled q.state) requests)
      ≡ length requests
open_count [] = omega arith
open_count (q ∷ qs) = ground (arith, open_count qs)

unfinished-eq : (requests : List Request) → unfinished requests ≡ count_if is_open requests
unfinished-eq requests = omega (arith, open_count requests)

-- What the summary says of the whole run.
pub record Reports (s : Fields) (requests : List Request) (its : List Iteration) : Type 0 where
  pub submitted : get s "submitted" ≡ int (pos (length requests))
  pub completed : get s "completed" ≡ int (pos (count_if (λ q. is_finished q.state) requests))
  pub cancelled : get s "cancelled" ≡ int (pos (count_if (λ q. is_cancelled q.state) requests))
  pub makespan : get s "makespan_us" ≡ int (pos (latest_time requests its))
  pub done : is_str (get s "run_status") "completed" ≡ true → count_if is_open requests ≡ 0
  pub stuck : is_str (get s "run_status") "stalled" ≡ true → 0 < count_if is_open requests

done_status : (n : ℕ) (c b : Bool) → (c && (ltb 0 n || b)) ≡ false → c ≡ true → n ≡ 0
done_status n c b h e = ground arith

stuck_status : (n : ℕ) (c b : Bool) → (c && (n == 0 || b)) ≡ false → c ≡ true → 0 < n
stuck_status n c b h e = ground arith

module _ (fl : Floats) where
  -- An accepted summary counts the requests, the finished and the cancelled ones, and its makespan
  -- is the latest finish of a request or end of an iteration. It says "completed" only if every
  -- request has finished or was cancelled, and "stalled" only if some request did neither.
  pub validate_summary-Reports :
      (limits : Option Limits) (s : Fields) (requests : List Request) (its : List Iteration)
      → validate_summary fl limits s requests its ≡ ok tt
      → Reports s requests its
  unfolding validate_summary check_status
  validate_summary-Reports limits s requests its h = checked _ _ h λ header h.
      checked _ _ h λ fields h. checked _ _ h λ status h. checked _ _ h λ totals h.
        checked _ _ status λ submitted status. checked _ _ status λ completed status.
          checked _ _ status λ cancelled status. required _ _ _ status λ rejected status.
            passed _ _ _ status λ completed_status stalled_status. record {
              submitted = conserved_at-ok s _ submitted;
              completed = conserved_at-ok s _ completed;
              cancelled = conserved_at-ok s _ cancelled;
              makespan = (check_totals-Sums fl s requests its totals).0;
              done = λ e.
                  sym (unfinished-eq requests)
                  ∙ done_status (unfinished requests) _ _ completed_status e;
              stuck = λ e.
                  subst (λ n. 0 < n) (unfinished-eq requests)
                    (stuck_status (unfinished requests) _ _ (raise_if-ok _ _ stalled_status) e);
            }
