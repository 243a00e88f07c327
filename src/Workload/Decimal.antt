-- ===== src/Workload/Decimal.antt =====
-- The formatted number of a request id, `f"{index:04d}"`, and that it can be read back.
use Prim.Native.Char.{Char, code}
use Prim.Native.String.{◌++◌, count}
use Prim.Native.String.append
use llm_inference_optimizati.Base.{
  ℕ, zero, suc, ◌+◌, ◌-◌, ◌*◌, ◌/◌, ◌%◌, ◌<◌, ◌≡◌, refl, String, ltb, arith, ◌∙◌, ap, if◌then◌else◌,
  Bool-cases, ltb→lt, inl, inr, sym,
}

-- The character of one digit.
unfoldable pub digit : ℕ → Char
digit zero = "0"
digit (suc zero) = "1"
digit (suc (suc zero)) = "2"
digit (suc (suc (suc zero))) = "3"
digit (suc (suc (suc (suc zero)))) = "4"
digit (suc (suc (suc (suc (suc zero))))) = "5"
digit (suc (suc (suc (suc (suc (suc zero)))))) = "6"
digit (suc (suc (suc (suc (suc (suc (suc zero))))))) = "7"
digit (suc (suc (suc (suc (suc (suc (suc (suc zero)))))))) = "8"
digit _ = "9"

-- The digits of `n` in front of `rest`. The fuel is the number itself plus one.
unfoldable pub digits_before : ℕ → ℕ → String → String
unfolding digit
digits_before zero n rest = rest
digits_before (suc fuel) n rest =
    let more = digits_before fuel (n / 10) (String.◌∷◌ (digit (n % 10)) rest) in
    if ltb n 10 then String.◌∷◌ (digit n) rest else more

unfoldable pub zeros : ℕ → String → String
zeros zero s = s
zeros (suc n) s = String.◌∷◌ "0" (zeros n s)

-- `f"{n:04d}"`
unfoldable pub padded : ℕ → String
unfolding digits_before zeros
padded n = let text = digits_before (suc n) n "" in zeros (4 - count text) text

-- The number that a text of digits spells behind `n`.
spelled : ℕ → String → ℕ
spelled n String.[] = n
spelled n (String.◌∷◌ c s) = spelled (n * 10 + (code c - 48)) s

code-digit : (d : ℕ) → d < 10 → code (digit d) - 48 ≡ d
unfolding digit
code-digit zero h = refl
code-digit (suc zero) h = refl
code-digit (suc (suc zero)) h = refl
code-digit (suc (suc (suc zero))) h = refl
code-digit (suc (suc (suc (suc zero)))) h = refl
code-digit (suc (suc (suc (suc (suc zero))))) h = refl
code-digit (suc (suc (suc (suc (suc (suc zero)))))) h = refl
code-digit (suc (suc (suc (suc (suc (suc (suc zero))))))) h = refl
code-digit (suc (suc (suc (suc (suc (suc (suc (suc zero)))))))) h = refl
code-digit (suc (suc (suc (suc (suc (suc (suc (suc (suc zero))))))))) h = refl
code-digit (suc (suc (suc (suc (suc (suc (suc (suc (suc (suc d)))))))))) h = absurd (omega arith)

spelled-digits_before :
    (fuel n : ℕ) (rest : String) → n < fuel → spelled 0 (digits_before fuel n rest) ≡ spelled n rest
unfolding digits_before spelled
spelled-digits_before zero n rest h = absurd (omega arith)
spelled-digits_before (suc fuel) n rest h = elim (Bool-cases (ltb n 10)) [
  | inl small ↦
      rw small (ap (λ k. spelled k rest) (omega (arith, code-digit n (ltb→lt n 10 small))))
  | inr large ↦ rw large (
      spelled-digits_before fuel (n / 10) (String.◌∷◌ (digit (n % 10)) rest) (ground arith)
      ∙ ap (λ k. spelled k rest) (omega (arith, code-digit (n % 10) (omega arith))))
]

spelled-zeros : (k : ℕ) (s : String) → spelled 0 (zeros k s) ≡ spelled 0 s
unfolding zeros spelled
spelled-zeros zero s = refl
spelled-zeros (suc k) s = spelled-zeros k s

spelled-padded : (n : ℕ) → spelled 0 (padded n) ≡ n
unfolding padded
spelled-padded n =
    spelled-zeros _ _
    ∙ (spelled-digits_before (suc n) n "" (omega arith) ∙ (unfold spelled in refl))

-- Two numbers with one text are one number.
pub padded-injective : (m n : ℕ) → padded m ≡ padded n → m ≡ n
padded-injective m n e = sym (spelled-padded m) ∙ ap (spelled 0) e ∙ spelled-padded n

-- What stands behind a common prefix can be compared.
pub append-cancel : (p s t : String) → p ++ s ≡ p ++ t → s ≡ t
append-cancel String.[] s t e = sym (append.nil s) ∙ (e ∙ append.nil t)
append-cancel (String.◌∷◌ c p) s t e =
    append-cancel p s t (tail_eq (sym (append.cons c p s) ∙ (e ∙ append.cons c p t)))
  where
    tail_eq : {u v : String} → String.◌∷◌ c u ≡ String.◌∷◌ c v → u ≡ v
    tail_eq h = cc

padded_seven : padded 7 ≡ "0007"
unfolding padded
padded_seven = refl

padded_long : padded 12345 ≡ "12345"
unfolding padded
padded_long = refl
