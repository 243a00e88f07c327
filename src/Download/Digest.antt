-- ===== src/Download/Digest.antt =====
-- `sha256_file` of scripts/download_model.py, on the content of the file.
use llm_inference_optimizati.Base.{
  ℕ, zero, suc, ◌≤◌, ◌<◌, ◌≡◌, refl, sym, ap, ◌∙◌, String, List, [], ◌∷◌, ◌++◌, length, arith,
}
use llm_inference_optimizati.Download.Outside.{Outside, HashLaws}

-- What `stream.read(n)` returns, and what it leaves.
unfoldable pub take : ℕ → List ℕ → List ℕ
take zero xs = []
take (suc n) [] = []
take (suc n) (x ∷ xs) = x ∷ take n xs

unfoldable pub drop : ℕ → List ℕ → List ℕ
drop zero xs = xs
drop (suc n) [] = []
drop (suc n) (x ∷ xs) = drop n xs

module _ {H : Type 0} (o : Outside H) where
  -- `while chunk := stream.read(chunk_size): digest.update(chunk)`
  unfoldable pub digest_chunks : ℕ → ℕ → H → List ℕ → H
  unfolding take drop
  digest_chunks zero chunk_size h rest = h
  digest_chunks (suc fuel) chunk_size h rest = elim (take chunk_size rest) [
    | [] ↦ h
    | x ∷ xs ↦ digest_chunks fuel chunk_size (o.update h (x ∷ xs)) (drop chunk_size rest)
  ]

  -- The loop ends after at most one round for each byte and one more.
  unfoldable pub sha256_file : List ℕ → ℕ → String
  sha256_file content chunk_size =
      o.hexdigest (digest_chunks (suc (length content)) chunk_size o.start content)

take-drop : (n : ℕ) (xs : List ℕ) → take n xs ++ drop n xs ≡ xs
unfolding take drop
take-drop zero xs = refl
take-drop (suc n) [] = refl
take-drop (suc n) (x ∷ xs) = ap (λ ys. x ∷ ys) (take-drop n xs)

length-drop : (n : ℕ) (x : ℕ) (xs : List ℕ) → length (drop (suc n) (x ∷ xs)) ≤ length xs
unfolding drop
length-drop zero x xs = omega arith
length-drop (suc n) x [] = omega arith
length-drop (suc n) x (y ∷ xs) = omega (arith, length-drop n y xs)

module _ {H : Type 0} (o : Outside H) (laws : HashLaws o) where
  digest_chunks-eq :
      (fuel n : ℕ) (h : H) (rest : List ℕ)
      → length rest < fuel
      → digest_chunks o fuel (suc n) h rest ≡ o.update h rest
  unfolding digest_chunks
  digest_chunks-eq zero n h rest lt = absurd (omega arith)
  digest_chunks-eq (suc fuel) n h [] lt = sym (laws.update_nil h)
  digest_chunks-eq (suc fuel) n h (x ∷ xs) lt =
      digest_chunks-eq fuel n (o.update h (take (suc n) (x ∷ xs))) (drop (suc n) (x ∷ xs))
        (omega (arith, length-drop n x xs))
      ∙ (laws.update_append h (take (suc n) (x ∷ xs)) (drop (suc n) (x ∷ xs))
          ∙ ap (o.update h) (take-drop (suc n) (x ∷ xs)))

  -- Whatever the chunk size, as long as it is not 0, `sha256_file` is the digest of the whole
  -- content in one piece, if the digest of two pieces is that of both.
  pub sha256_file-whole :
      (content : List ℕ) (chunk_size : ℕ)
      → 0 < chunk_size
      → sha256_file o content chunk_size ≡ o.hexdigest (o.update o.start content)
  unfolding sha256_file
  sha256_file-whole content zero h = absurd (omega arith)
  sha256_file-whole content (suc n) h =
      ap o.hexdigest (digest_chunks-eq (suc (length content)) n o.start content (omega arith))
