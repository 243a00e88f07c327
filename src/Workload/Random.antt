-- ===== src/Workload/Random.antt =====
-- What the generators of benchmarks/serving_common.py use of Python's `random` and `math` modules.
-- The state `S` of a generator is abstract, and a float is its bit pattern.
use llm_inference_optimizati.Base.{ℕ, ◌≤◌, ◌≡◌, Result, ok, pos}
use llm_inference_optimizati.Value.{Value, int}

pub record Rng (S : Type 0) : Type 0 where
  -- `random.Random(seed)`, which raises TypeError on a seed of another type
  pub seeded : Value → Result S
  -- `rng.randint(low, high)`
  pub randint : ℕ → ℕ → S → ℕ × S
  -- `rng.random()`
  pub random : S → ℕ × S
  -- `math.floor(-mean * math.log1p(-u))`; it is not negative, since `u` lies in [0, 1)
  pub floor_exponential : ℕ → ℕ → ℕ

-- What the documentation of `random` says: an integer is a seed, and `randint` stays in its range.
pub record IsLawful {S : Type 0} (rng : Rng S) : Type 0 where
  pub from_int : (n : ℕ) → (s : S) × (rng.seeded (int (pos n)) ≡ ok s)
  pub in_range :
      (low high : ℕ) (s : S)
      → low ≤ high
      → (low ≤ (rng.randint low high s).0) × ((rng.randint low high s).0 ≤ high)
