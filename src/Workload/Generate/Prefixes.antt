-- ===== src/Workload/Generate/Prefixes.antt =====
-- Which prompts of a generated workload share a prefix, and how long it is: what the prefix cache
-- can match.
use llm_inference_optimizati.Base.{
  ℕ, zero, suc, ◌+◌, ◌*◌, ◌%◌, ◌<◌, ◌≡◌, ◌≢◌, refl, ◌==◌, List, [], ◌∷◌, ◌++◌, length, ap, arith,
  if◌then◌else◌, Bool-cases, ==_iff, inl, inr,
}
use llm_inference_optimizati.Workload.Generate.{
  numbers_from, shared_tokens, shared_system_tokens, coding_agent_tokens, mixed_coding_tokens,
}

-- How many tokens two prompts have in common, from the front.
pub common_prefix : List ℕ → List ℕ → ℕ
common_prefix [] ys = 0
common_prefix (x ∷ xs) [] = 0
common_prefix (x ∷ xs) (y ∷ ys) = let rest = common_prefix xs ys in if x == y then suc rest else 0

common_prefix-append :
    (shared xs ys : List ℕ)
    → common_prefix (shared ++ xs) (shared ++ ys) ≡ length shared + common_prefix xs ys
unfolding common_prefix
common_prefix-append [] xs ys = omega arith
common_prefix-append (t ∷ shared) xs ys = ground (arith, common_prefix-append shared xs ys)

length-numbers_from : (first n : ℕ) → length (numbers_from first n) ≡ n
unfolding numbers_from
length-numbers_from first zero = refl
length-numbers_from first (suc n) = ap suc (length-numbers_from (first + 1) n)

-- Runs that begin with different numbers share nothing.
common_prefix_ne :
    (a b m n : ℕ) (xs ys : List ℕ)
    → a ≢ b
    → 0 < m
    → 0 < n
    → common_prefix (numbers_from a m ++ xs) (numbers_from b n ++ ys) ≡ 0
unfolding common_prefix numbers_from
common_prefix_ne a b zero n xs ys d p q = absurd (omega arith)
common_prefix_ne a b (suc m) zero xs ys d p q = absurd (omega arith)
common_prefix_ne a b (suc m) (suc n) xs ys d p q = ground arith

-- Two runs that begin with different numbers, with nothing behind them.
common_prefix-numbers_from :
    (a b m n : ℕ) → a ≢ b → common_prefix (numbers_from a m) (numbers_from b n) ≡ 0
unfolding common_prefix numbers_from
common_prefix-numbers_from a b zero n d = refl
common_prefix-numbers_from a b (suc m) zero d = refl
common_prefix-numbers_from a b (suc m) (suc n) d = ground arith

-- A shared run, and then what belongs to each request alone.
shared_then_own :
    (first n base i j k l : ℕ)
    → i ≢ j
    → common_prefix
        (numbers_from first n ++ shared_tokens i k base)
        (numbers_from first n ++ shared_tokens j l base)
      ≡ n
unfolding shared_tokens
shared_then_own first n base i j k l d = omega (
  arith,
  common_prefix-append (numbers_from first n) (shared_tokens i k base) (shared_tokens j l base),
  length-numbers_from first n,
  common_prefix-numbers_from (base + i * 10000) (base + j * 10000) k l (λ e. d (omega arith)),
)

-- Two requests of a shared_system_prompt workload share the 64 tokens of the system prompt and no
-- more.
pub shared_system_prefix :
    (i j : ℕ) → i ≢ j → common_prefix (shared_system_tokens i) (shared_system_tokens j) ≡ 64
unfolding shared_system_tokens shared_tokens
shared_system_prefix i j d = shared_then_own 10000 64 20000 i j (8 + i % 5) (8 + j % 5) d

-- Two coding requests of a mixed workload share 96 tokens and no more.
pub mixed_coding_prefix :
    (i j : ℕ) → i ≢ j → common_prefix (mixed_coding_tokens i) (mixed_coding_tokens j) ≡ 96
unfolding mixed_coding_tokens shared_tokens
mixed_coding_prefix i j d = shared_then_own 70000 96 80000 i j (16 + i % 9) (16 + j % 9) d

-- Two requests of a coding_agent workload share exactly 128 tokens when both indices are even or
-- both are odd, and none otherwise.
pub coding_agent_prefix :
    (i j : ℕ)
    → i ≢ j
    → common_prefix (coding_agent_tokens i) (coding_agent_tokens j)
      ≡ (if i % 2 == j % 2 then 128 else 0)
unfolding coding_agent_tokens shared_tokens
coding_agent_prefix i j d = elim (Bool-cases (i % 2 == j % 2)) [
  | inl same ↦
      let e : i % 2 ≡ j % 2 = (==_iff _ _).0 same in
      rw (same, e)
        (shared_then_own (30000 + (j % 2) * 10000) 128 50000 i j (24 + i % 17) (24 + j % 17) d)
  | inr differ ↦ rw differ (
      common_prefix_ne (30000 + (i % 2) * 10000) (30000 + (j % 2) * 10000) 128 128 _ _
        (ground arith) (omega arith) (omega arith))
]
