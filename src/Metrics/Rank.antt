-- ===== src/Metrics/Rank.antt =====
-- The nearest-rank percentile as an order statistic, and that a larger percentile is not below a smaller
-- one.
use mathlib.Core.List.{Mem, mem-cons_self, mem-cons_of_mem}
use mathlib.Core.List.Perm
use native.Mathlib.Decide.{dec_lt}
use llm_inference_optimizati.Base.{
  ℕ, zero, suc, ◌-◌, ◌≤◌, ◌<◌, ◌≡◌, refl, sym, ◌∙◌, subst, ap, ◌⊎◌, inl, inr, Bool, true, false,
  some, List, [], ◌∷◌, length, get_elem?, count_if, arith, Bool-cases, max, min, ◌+◌, ok, err,
  Error, none, ◌==◌,
}
use llm_inference_optimizati.Base.Sort.{sorted}
use llm_inference_optimizati.Base.Sort.Laws.{
  Ordered, Ordered-sorted, length-sorted, count_if-sorted, sorted-perm,
}
use llm_inference_optimizati.Metrics.{Percentiles, at_rank, nearest_rank, clamped}

of_some {ℓ} : {A : Type ℓ} {a b : A} → some a ≡ some b → a ≡ b
of_some h = cc

get_elem?-mem {ℓ} :
    {A : Type ℓ} (xs : List A) (i : ℕ)
    → i < length xs
    → (a : A) × (get_elem? xs i ≡ some a) × Mem a xs
get_elem?-mem [] i h = absurd (omega arith)
get_elem?-mem (x ∷ xs) zero h = (x, refl, mem-cons_self)
get_elem?-mem (x ∷ xs) (suc i) h =
    let (a, e, m) = get_elem?-mem xs i (omega arith) in (a, e, mem-cons_of_mem x m)

-- A rank that is not 0 is an index and one.
at_rank_lem {ℓ} :
    {A : Type ℓ} (xs : List A) (rank : ℕ) → 0 < rank → at_rank xs rank ≡ get_elem? xs (rank - 1)
at_rank_lem xs zero h = absurd (omega arith)
at_rank_lem xs (suc i) h = ap (get_elem? xs) (omega arith)

-- `math.ceil(percentile * n)` is not smaller for a larger percentile in (0, 1].
abbrev pub IsMonotone : {P : Type 0} → Percentiles P → (P → P → Bool) → Type 0
IsMonotone {P} floats at_most =
    (p q : P) (n : ℕ)
    → floats.in_range p ≡ true
    → floats.in_range q ≡ true
    → at_most p q ≡ true
    → floats.ceil_times p n ≤ floats.ceil_times q n

module _ {A : Type 0} (le : A → A → Bool) where
  module _ (total : (x y : A) → le x y ≡ false → le y x ≡ true)
      (transitive : (x y z : A) → le x y ≡ true → le y z ≡ true → le x z ≡ true) where
    reflexive : (x : A) → le x x ≡ true
    reflexive x = elim (Bool-cases (le x x)) [ inl h ↦ h | inr h ↦ total x x h ]

    below_head :
        (x : A) (xs : List A)
        → Ordered le (x ∷ xs)
        → (j : ℕ) (b : A) → get_elem? xs j ≡ some b
        → le x b ≡ true
    below_head x [] h j b e = absurd (cc)
    below_head x (y ∷ ys) h zero b e = subst (λ c. le x c ≡ true) (of_some e) h.0
    below_head x (y ∷ ys) h (suc j) b e = transitive x y b h.0 (below_head y ys h.1 j b e)

    Ordered-get :
        (xs : List A)
        → Ordered le xs
        → (i j : ℕ) (a b : A) → i < j
        → get_elem? xs i ≡ some a
        → get_elem? xs j ≡ some b
        → le a b ≡ true
    Ordered-get [] h i j a b p e f = absurd (cc)
    Ordered-get (x ∷ xs) h i zero a b p e f = absurd (omega arith)
    Ordered-get (x ∷ xs) h zero (suc j) a b p e f =
        subst (λ c. le c b ≡ true) (of_some e) (below_head x xs h j b f)
    Ordered-get (x ∷ y ∷ ys) h (suc i) (suc j) a b p e f =
        Ordered-get (y ∷ ys) h.1 i j a b (omega arith) e f
    Ordered-get (x ∷ []) h (suc i) (suc j) a b p e f = absurd (cc)

    -- Everything in an ordered list is as large as what the first element is as large as.
    all_above :
        (z x : A) (xs : List A)
        → le z x ≡ true
        → Ordered le (x ∷ xs)
        → count_if (le z) (x ∷ xs) ≡ suc (length xs)
    all_above z x [] e h = ground arith
    all_above z x (y ∷ ys) e h =
        let rest = all_above z y ys (transitive z x y e h.0) h.1 in ground (arith, rest)

    -- The element at an index has as many on each side as the index says.
    count_at :
        (xs : List A)
        → Ordered le xs
        → (i : ℕ) (a : A) → get_elem? xs i ≡ some a
        → (i < count_if (λ x. le x a) xs) × (length xs ≤ count_if (le a) xs + i)
    count_at [] h i a e = absurd (cc)
    count_at (x ∷ xs) h zero a e =
        let below : le x a ≡ true = subst (λ b. le x b ≡ true) (of_some e) (reflexive x) in
        let above : le a x ≡ true = subst (λ b. le b x ≡ true) (of_some e) (reflexive x) in
        let all : count_if (le a) (x ∷ xs) ≡ suc (length xs) = all_above a x xs above h in
        (ground arith, omega arith)
    count_at (x ∷ []) h (suc i) a e = absurd (cc)
    count_at (x ∷ y ∷ ys) h (suc i) a e =
        let below : le x a ≡ true = below_head x (y ∷ ys) h i a e in
        let rest = count_at (y ∷ ys) h.1 i a e in (ground (arith, rest.0), ground (arith, rest.1))

    -- `nearest_rank` raises for a percentile that is not in (0, 1], whatever the samples, and gives None
    -- for no samples. Otherwise it gives one of the n samples, with c the ceiling of percentile * n: at
    -- least min(n, c) of the samples are not above it, and at most max(1, c) - 1 are not at or above
    -- it. The order of the samples has to be total and transitive.
    pub nearest_rank_total :
        {P : Type 0} (floats : Percentiles P) (values : List A) (percentile : P)
        → let n = length values in
          let c = floats.ceil_times percentile n in
          ((floats.in_range percentile ≡ false)
            × (nearest_rank le floats values percentile
                ≡ err (Error.invalid "percentile must be in (0, 1]")))
          ⊎ ((floats.in_range percentile ≡ true)
              × (((n ≡ 0) × (nearest_rank le floats values percentile ≡ ok none))
                  ⊎ ((a : A) × (nearest_rank le floats values percentile ≡ ok (some a))
                      × Mem a values
                      × (min n c ≤ count_if (λ x. le x a) values)
                      × (n < count_if (le a) values + max 1 c))))
    unfolding nearest_rank
    nearest_rank_total floats values percentile =
        let samples = sorted le values in
        let size : length samples ≡ length values = length-sorted le values in
        elim (Bool-cases (floats.in_range percentile)) [
          | inr outside ↦ inl (outside, rw outside)
          | inl inside ↦ inr (
            inside,
            elim (Bool-cases (length samples == 0)) [
              | inl empty ↦ inl (ground arith, rw (inside, empty))
              | inr some_samples ↦
                  let filled : 0 < length samples = ground arith in
                  let c = floats.ceil_times percentile (length samples) in
                  let (a, e, m) =
                    get_elem?-mem samples (clamped (length samples) c - 1)
                      (omega (arith, filled)) in
                  let sides =
                    count_at samples (Ordered-sorted le total values)
                      (clamped (length samples) c - 1) a e in
                  let same : c ≡ floats.ceil_times percentile (length values) =
                    ap (floats.ceil_times percentile) size in
                  let left = count_if-sorted le (λ x. le x a) values in
                  let right = count_if-sorted le (le a) values in
                  inr (
                    a,
                    rw (inside, some_samples)
                        (ap ok
                          (at_rank_lem samples (clamped (length samples) c) (omega arith) ∙ e)),
                    (Perm.mem_iff (sorted-perm le values)).0 m,
                    omega (arith, size, same, left, sides.0),
                    omega (arith, size, same, right, sides.1),
                  )
            ],
          )
        ]

    -- The sample that a result is, and that the percentile was in range.
    nearest_rank-get :
        {P : Type 0} (floats : Percentiles P) (values : List A) (p : P) {a : A}
        → nearest_rank le floats values p ≡ ok (some a)
        → (floats.in_range p ≡ true)
          × (get_elem?
                (sorted le values)
                (clamped (length values) (floats.ceil_times p (length values)) - 1)
              ≡ some a)
    unfolding nearest_rank
    nearest_rank-get floats values p {a} h =
        let samples = sorted le values in
        let inside : floats.in_range p ≡ true = ground arith in
        let rank = clamped (length samples) (floats.ceil_times p (length samples)) in
        let at : at_rank samples rank ≡ some a = ground arith in
        (
          inside,
          subst (λ n. get_elem? samples (clamped n (floats.ceil_times p n) - 1) ≡ some a)
              (length-sorted le values) (sym (at_rank_lem samples rank (omega arith)) ∙ at),
        )

    -- A larger percentile is not below a smaller one of the same samples, where the ceiling of
    -- percentile * n grows with the percentile, as it does for floats. The order of the samples has to be
    -- total and transitive.
    pub nearest_rank_mono :
        {P : Type 0} (floats : Percentiles P) (at_most : P → P → Bool) (values : List A) (p q : P)
        {a b : A}
        → IsMonotone floats at_most
        → at_most p q ≡ true
        → nearest_rank le floats values p ≡ ok (some a)
        → nearest_rank le floats values q ≡ ok (some b)
        → (a ≡ b) ⊎ (le a b ≡ true)
    nearest_rank_mono floats at_most values p q {a} {b} grows h e f =
        let samples = sorted le values in
        let n = length values in
        let first = nearest_rank-get floats values p {a = a} e in
        let second = nearest_rank-get floats values q {a = b} f in
        let ranks : floats.ceil_times p n ≤ floats.ceil_times q n =
          grows p q n first.0 second.0 h in
        let i = clamped n (floats.ceil_times p n) - 1 in
        let j = clamped n (floats.ceil_times q n) - 1 in
        elim (dec_lt i j) [
          | yes less ↦
              inr
                (Ordered-get samples (Ordered-sorted le total values) i j a b less first.1 second.1)
          | no same ↦
              let k : i ≡ j = omega arith in
              inl (of_some (sym first.1 ∙ ap (get_elem? samples) k ∙ second.1))
        ]
