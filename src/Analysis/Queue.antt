-- ===== src/Analysis/Queue.antt =====
-- The weighted queue depth is the time that the requests waited.
use native.Mathlib.Nat.{mul-add}
use llm_inference_optimizati.Base.{
  ℕ, ◌+◌, ◌-◌, ◌*◌, ◌≤◌, ◌≡◌, refl, ap, sym, ◌∙◌, Bool, true, false, Option, none, some, List, [],
  ◌∷◌, ℤ, pos, pos_part, neg_part, ◌+ℤ◌, ◌*ℤ◌, +ℤ_parts, eq_of_parts, sum_by, All, min, arith,
  if◌then◌else◌,
}
use llm_inference_optimizati.Base.Sort.{sorted}
use llm_inference_optimizati.Base.Sort.Laws.{Ordered, Ordered-sorted, All-sorted, sum_by-sorted}
use llm_inference_optimizati.Metrics.{Times}
use llm_inference_optimizati.Analysis.{
  Event, event_le, in_window, queue_depth_events, Sweep, delta, sweep_event, sweep, first_arrival,
  weighted_depth,
}

-- `z` is `a - b`.
abbrev Is : ℤ → ℕ → ℕ → Type 0
Is z a b = pos_part z + b ≡ neg_part z + a

Is-+ℤ : (y z : ℤ) (a b c d : ℕ) → Is y a b → Is z c d → Is (y +ℤ z) (a + c) (b + d)
Is-+ℤ y z a b c d h k = omega (arith, +ℤ_parts y z)

*ℤ_pos_parts :
    (z : ℤ) (k : ℕ)
    → pos_part (z *ℤ pos k) + neg_part z * k ≡ neg_part (z *ℤ pos k) + pos_part z * k
unfolding ◌*ℤ◌
*ℤ_pos_parts z k = ground arith

Is-*ℤ : (z : ℤ) (a b k : ℕ) → Is z a b → Is (z *ℤ pos k) (a * k) (b * k)
Is-*ℤ z a b k h = omega (arith, *ℤ_pos_parts z k, ap (λ n. n * k) h)

Is-delta : (e : Event) → Is (delta e) (if e.arrives then 1 else 0) (if e.arrives then 0 else 1)
Is-delta e = ground arith

-- How long an event lasts until the window's end, on the side of the arrivals or the admissions.
abbrev arrived : ℕ → Event → ℕ
arrived window_end e = if e.arrives then window_end - e.time else 0

abbrev served : ℕ → Event → ℕ
served window_end e = if e.arrives then 0 else window_end - e.time

split_span :
    (a lo mid hi : ℕ) → lo ≤ mid → mid ≤ hi → a * (mid - lo) + a * (hi - mid) ≡ a * (hi - lo)
split_span a lo mid hi h k = sym (mul-add a (mid - lo) (hi - mid)) ∙ ap (λ n. a * n) (omega arith)

-- No event is before `from`, and they are in order.
abbrev Follow : ℕ → List Event → Type 0
Follow from [] = Unit
Follow from (e ∷ es) = (from ≤ e.time) × Follow e.time es

one_step :
    (arrives : Bool) (z : ℤ) (a b p q r ak bk wa wb sa sb : ℕ)
    → ak + a * r ≡ wa
    → bk + b * r ≡ wb
    → Is z
        (p + ak + (a + (if arrives then 1 else 0)) * r + sa)
        (q + bk + (b + (if arrives then 0 else 1)) * r + sb)
    → Is z (p + wa + ((if arrives then r else 0) + sa)) (q + wb + ((if arrives then 0 else r) + sb))
one_step true z a b p q r ak bk wa wb sa sb h k l = omega arith
one_step false z a b p q r ak bk wa wb sa sb h k l = omega arith

-- The area from a state of the sweep on: `a - b` is its depth and `p - q` its weighted depth.
module _ (window_end : ℕ) where
  area : Sweep → ℤ
  area s = s.weighted_depth +ℤ s.depth *ℤ pos (window_end - s.previous)

  sweep-area :
      (s : Sweep) (es : List Event) (a b p q : ℕ)
      → Is s.depth a b
      → Is s.weighted_depth p q
      → s.previous ≤ window_end
      → Follow s.previous es
      → All (λ e. e.time ≤ window_end) es
      → Is
          (area (sweep s es))
          (p + a * (window_end - s.previous) + sum_by (arrived window_end) es)
          (q + b * (window_end - s.previous) + sum_by (served window_end) es)
  unfolding sweep area
  sweep-area s [] a b p q d w within follow inside =
      let area_is =
        Is-+ℤ s.weighted_depth _ p q _ _ w (Is-*ℤ s.depth a b (window_end - s.previous) d) in
      omega arith
  sweep-area s (e ∷ es) a b p q d w within follow inside =
      let k = e.time - s.previous in
      let depth_is = Is-+ℤ s.depth (delta e) a b _ _ d (Is-delta e) in
      let weighted_is = Is-+ℤ s.weighted_depth _ p q _ _ w (Is-*ℤ s.depth a b k d) in
      let later =
        sweep-area (sweep_event s e) es (a + (if e.arrives then 1 else 0))
          (b + (if e.arrives then 0 else 1)) (p + a * k) (q + b * k) depth_is weighted_is inside.0
          follow.1 inside.1 in
      let whole_a = split_span a s.previous e.time window_end follow.0 inside.0 in
      let whole_b = split_span b s.previous e.time window_end follow.0 inside.0 in
      one_step e.arrives _ a b p q (window_end - e.time) _ _ _ _ (sum_by (arrived window_end) es)
        (sum_by (served window_end) es) whole_a whole_b later

-- How long a request waits inside the window: from its arrival to its admission, or to the window's
-- end if it is not admitted by then.
abbrev pub until : ℕ → Option ℕ → ℕ
until window_end none = window_end
until window_end (some t) = min t window_end

unfoldable pub waited : ℕ → Times → ℕ
waited window_end t = until window_end t.admitted - t.arrival

-- No request is admitted before it arrives.
abbrev pub InOrder : Times → Type 0
InOrder t = (a : ℕ) → t.admitted ≡ some a → t.arrival ≤ a

module _ (window_end : ℕ) where
  events_inside :
      (ts : List Times) → All (λ e. e.time ≤ window_end) (queue_depth_events window_end ts)
  unfolding queue_depth_events
  events_inside [] = tt
  events_inside (t ∷ ts) = ground (arith, events_inside ts)

  one_request :
      (arrival : ℕ) (admitted : Option ℕ) (rest : List Event) (n : ℕ)
      → ((a : ℕ) → admitted ≡ some a → arrival ≤ a)
      → sum_by (arrived window_end) rest ≡ n + sum_by (served window_end) rest
      → let es =
          in_window window_end (some arrival) true (in_window window_end admitted false rest) in
        sum_by (arrived window_end) es
        ≡ until window_end admitted - arrival + n + sum_by (served window_end) es
  one_request arrival none rest n h k = ground arith
  one_request arrival (some a) rest n h k = ground (arith, h a refl)

  -- What the requests add to the two sums.
  events_sum :
      (ts : List Times)
      → All InOrder ts
      → sum_by (arrived window_end) (queue_depth_events window_end ts)
        ≡ sum_by (waited window_end) ts
          + sum_by (served window_end) (queue_depth_events window_end ts)
  unfolding queue_depth_events waited
  events_sum [] h = refl
  events_sum (t ∷ ts) h =
      one_request t.arrival t.admitted (queue_depth_events window_end ts)
        (sum_by (waited window_end) ts) h.0 (events_sum ts h.1)

event_le_total : (e f : Event) → event_le e f ≡ false → event_le f e ≡ true
unfolding event_le
event_le_total e f h = ground arith

event_le-le : (e f : Event) → event_le e f ≡ true → e.time ≤ f.time
unfolding event_le
event_le-le e f h = ground arith

Ordered-Follow : (e : Event) (es : List Event) → Ordered event_le (e ∷ es) → Follow e.time es
Ordered-Follow e [] h = tt
Ordered-Follow e (f ∷ es) h = (event_le-le e f h.0, Ordered-Follow f es h.1)

-- The sweep from an empty queue. Its first event may be at any time, since nothing waits before it.
module _ (window_end : ℕ) where
  from_empty :
      (from : ℕ) (es : List Event)
      → Ordered event_le es
      → All (λ e. e.time ≤ window_end) es
      → let start : Sweep = record {
        depth = pos 0;
        maximum_depth = pos 0;
        weighted_depth = pos 0;
        previous = from;
      } in
        Is
          (area window_end (sweep start es))
          (sum_by (arrived window_end) es)
          (sum_by (served window_end) es)
  unfolding sweep area
  from_empty from [] h inside =
      let zero_area =
        Is-+ℤ (pos 0) _ 0 0 _ _ (omega arith)
          (Is-*ℤ (pos 0) 0 0 (window_end - from) (omega arith)) in
      omega arith
  from_empty from (e ∷ es) h inside =
      let k = e.time - from in
      let depth_is = Is-+ℤ (pos 0) (delta e) 0 0 _ _ (omega arith) (Is-delta e) in
      let weighted_is = Is-+ℤ (pos 0) _ 0 0 _ _ (omega arith) (Is-*ℤ (pos 0) 0 0 k (omega arith)) in
      let start : Sweep = record {
        depth = pos 0;
        maximum_depth = pos 0;
        weighted_depth = pos 0;
        previous = from;
      } in
      let later =
        sweep-area window_end (sweep_event start e) es (0 + (if e.arrives then 1 else 0))
          (0 + (if e.arrives then 0 else 1)) (0 + 0 * k) (0 + 0 * k) depth_is weighted_is inside.0
          (Ordered-Follow e es h) inside.1 in
      let whole =
        one_step e.arrives _ 0 0 0 0 (window_end - e.time) (0 * k) (0 * k) 0 0
          (sum_by (arrived window_end) es) (sum_by (served window_end) es) (omega arith)
          (omega arith) later in
      omega arith

-- The weighted depth that the sweep adds up is the sum of the times that the requests waited inside
-- the window, when no request is admitted before it arrives.
pub weighted_depth-eq-waited :
    (window_end : ℕ) (ts : List Times)
    → All InOrder ts
    → weighted_depth window_end ts ≡ pos (sum_by (waited window_end) ts)
unfolding weighted_depth area
weighted_depth-eq-waited window_end ts h =
    let es = queue_depth_events window_end ts in
    let total =
      from_empty window_end (first_arrival ts) (sorted event_le es)
        (Ordered-sorted event_le event_le_total es)
        (All-sorted event_le _ es (events_inside window_end ts)) in
    let balance = events_sum window_end ts h in
    let sum_arrived = sum_by-sorted event_le (arrived window_end) es in
    let sum_served = sum_by-sorted event_le (served window_end) es in eq_of_parts _ _ (omega arith)
