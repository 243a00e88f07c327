-- ===== src/Analysis/Score.antt =====
-- The goodput counts of `analyze_records`, against tests on the times of a request that stand on their own.
use llm_inference_optimizati.Base.{
  ℕ, ◌+◌, ◌≤◌, ◌≡◌, refl, ap, ◌∙◌, true, false, not, ◌&&◌, ◌||◌, ltb, leb, pos, sub_ℕ, Option, none,
  some, Bool, List, [], ◌∷◌, count_if, arith, Bool-cases, inl, inr,
}
use llm_inference_optimizati.Value.{Floats}
use llm_inference_optimizati.Metrics.{Times, request_metrics}
use llm_inference_optimizati.Native.Request.{Request, finished, is_finished}
use llm_inference_optimizati.Analysis.{
  Objectives, Goodput, one_if, violates, score, score_all, finished_times, goodput,
}

-- A request that has finished.
abbrev pub is_done : Request → Bool
is_done q = elim q.state [ finished ↦ true | _ ↦ false ]

-- The end is later than the threshold after the start, where there is a threshold and an end.
abbrev pub is_late : Option ℕ → ℕ → Option ℕ → Bool
is_late (some threshold) start (some end) = ltb (start + threshold) end
is_late _ start _ = false

-- The first token is late; without a token nothing is.
abbrev pub late_first : Objectives → Times → Bool
late_first slos t = ltb 0 t.generated && is_late slos.ttft_slo_us t.arrival t.first

-- The finish is late.
abbrev pub late_finish : Objectives → Times → Bool
late_finish slos t = is_late slos.e2e_slo_us t.arrival t.finish

module _ (fl : Floats) (slos : Objectives) where
  -- The time for each token behind the first is above the threshold, where there are two tokens.
  abbrev pub slow_tokens : Times → Bool
  slow_tokens t = elim slos.tpot_slo_us [
    | none ↦ false
    | some threshold ↦ elim t.first [
      | none ↦ false
      | some first ↦ elim t.finish [
        | none ↦ false
        | some finish ↦
            leb 2 t.generated
            && fl.int_lt_float (pos threshold) (fl.div (sub_ℕ finish first) (sub_ℕ t.generated 1))
      ]
    ]
  ]

  ttft_lem :
      (t : Times) → violates fl slos.ttft_slo_us (request_metrics fl t).ttft_us ≡ late_first slos t
  unfolding violates request_metrics
  ttft_lem t = ground arith

  tpot_lem :
      (t : Times) → violates fl slos.tpot_slo_us (request_metrics fl t).tpot_us ≡ slow_tokens t
  unfolding violates request_metrics
  tpot_lem t = ground arith

  e2e_lem :
      (t : Times)
      → violates fl slos.e2e_slo_us (request_metrics fl t).e2e_latency_us ≡ late_finish slos t
  unfolding violates request_metrics
  e2e_lem t = ground arith

  -- No objective is missed.
  abbrev pub is_good : Times → Bool
  is_good t = not (late_first slos t || (slow_tokens t || late_finish slos t))

  -- The finished requests with a property of their times.
  abbrev pub done_with : (Times → Bool) → Request → Bool
  done_with p q = is_done q && p q.times

  done_lem : (q : Request) → is_finished q.state ≡ is_done q
  done_lem q = ground arith

  -- The counts of `h` are those of `g` and what `requests` add to them.
  record Adds (requests : List Request) (g h : Goodput) : Type 0 where
    good_added : h.good ≡ g.good + count_if (done_with is_good) requests
    ttft_added :
        h.ttft_violations ≡ g.ttft_violations + count_if (done_with (late_first slos)) requests
    tpot_added : h.tpot_violations ≡ g.tpot_violations + count_if (done_with slow_tokens) requests
    e2e_added :
        h.e2e_violations ≡ g.e2e_violations + count_if (done_with (late_finish slos)) requests

  -- The step of one finished request, with the tests on its times.
  score_lem :
      (g : Goodput) (t : Times)
      → score fl slos g t ≡ record {
        good = g.good + one_if (is_good t);
        ttft_violations = g.ttft_violations + one_if (late_first slos t);
        tpot_violations = g.tpot_violations + one_if (slow_tokens t);
        e2e_violations = g.e2e_violations + one_if (late_finish slos t);
      }
  unfolding score
  score_lem g t = rw (ttft_lem t, tpot_lem t, e2e_lem t) refl

  score_all-Adds :
      (requests : List Request) (g : Goodput)
      → Adds requests g (score_all fl slos g (finished_times requests))
  unfolding score_all finished_times
  score_all-Adds [] g = ground arith
  score_all-Adds (q ∷ qs) g =
      let skipped = score_all-Adds qs g in
      let counted = score_all-Adds qs (score fl slos g q.times) in
      let good = ap (λ h. h.good) (score_lem g q.times) in
      let ttft = ap (λ h. h.ttft_violations) (score_lem g q.times) in
      let tpot = ap (λ h. h.tpot_violations) (score_lem g q.times) in
      let e2e = ap (λ h. h.e2e_violations) (score_lem g q.times) in
      elim (Bool-cases (is_done q)) [
        | inl done ↦
            let kept : is_finished q.state ≡ true = done_lem q ∙ done in
            rw kept (ground (arith, done, counted, good, ttft, tpot, e2e))
        | inr running ↦
            let left : is_finished q.state ≡ false = done_lem q ∙ running in
            rw left (ground (arith, running, skipped))
      ]

  -- How the counts of the tests compare with the number of finished requests.
  record Covers (requests : List Request) : Type 0 where
    ttft_apart :
        count_if (done_with is_good) requests + count_if (done_with (late_first slos)) requests
        ≤ count_if is_done requests
    tpot_apart :
        count_if (done_with is_good) requests + count_if (done_with slow_tokens) requests
        ≤ count_if is_done requests
    e2e_apart :
        count_if (done_with is_good) requests + count_if (done_with (late_finish slos)) requests
        ≤ count_if is_done requests
    covered :
        count_if is_done requests
        ≤ count_if (done_with is_good) requests
          + count_if (done_with (late_first slos)) requests
          + count_if (done_with slow_tokens) requests
          + count_if (done_with (late_finish slos)) requests

  covers_lem : (requests : List Request) → Covers requests
  covers_lem [] = ground arith
  covers_lem (q ∷ qs) = let rest = covers_lem qs in ground (arith, rest)

  -- The good requests are the finished ones of which the first token is not later than its threshold,
  -- the time for each token behind the first not above its, and the finish not later than its, where
  -- these are configured; each count of violations is that of the finished requests for which the one
  -- test fails. With n finished requests, the good ones and those of one violation are at most n, and
  -- the good ones and all three counts of violations at least n.
  pub goodput_bounds :
      (requests : List Request)
      → let g = goodput fl slos requests in
        let n = count_if is_done requests in
        (g.good ≡ count_if (done_with is_good) requests)
        × (g.ttft_violations ≡ count_if (done_with (late_first slos)) requests)
        × (g.tpot_violations ≡ count_if (done_with slow_tokens) requests)
        × (g.e2e_violations ≡ count_if (done_with (late_finish slos)) requests)
        × (g.good + g.ttft_violations ≤ n)
        × (g.good + g.tpot_violations ≤ n)
        × (g.good + g.e2e_violations ≤ n)
        × (n ≤ g.good + g.ttft_violations + g.tpot_violations + g.e2e_violations)
  unfolding goodput
  goodput_bounds requests =
      let start : Goodput = record {
        good = 0;
        ttft_violations = 0;
        tpot_violations = 0;
        e2e_violations = 0;
      } in
      let added = score_all-Adds requests start in
      let bounds = covers_lem requests in
      (
        omega (arith, added),
        omega (arith, added),
        omega (arith, added),
        omega (arith, added),
        omega (arith, added, bounds),
        omega (arith, added, bounds),
        omega (arith, added, bounds),
        omega (arith, added, bounds),
      )
