-- ===== src/Base/Outcome.antt =====
-- Code that may raise. A message is its fixed text: what an f-string puts into it is left out,
-- except for the line number that `validate_workload_record` adds.
use Prim.Native.Nat.{ℕ, suc}
use Prim.Native.String.{String}
use mathlib.Core.Path.{◌≡◌, refl, ap, subst}
use mathlib.Core.Logic.{◌⊎◌, inl, inr}
use mathlib.Core.Bool.{Bool, true, false, not}
use mathlib.Core.Option.{Option, none, some}
use mathlib.Core.List.{List, [], ◌∷◌}
use llm_inference_optimizati.Base.Lists.{length}
use llm_inference_optimizati.Base.Tests.{if◌then◌else◌}

pub data Error : Type 0 where
  -- `ValidationError`
  invalid : String → Error
  -- `ValidationError` whose message begins with the name of a field
  about : String → String → Error
  -- `ValidationError`, re-raised with "JSONL line n: " in front
  in_line : ℕ → Error → Error
  -- Python's own exceptions: a missing key, an unhashable value in a set, division by zero
  key_error : String → Error
  type_error : Error

pub data Result {ℓ} (A : Type ℓ) : Type ℓ where
  ok : A → Result A
  err : Error → Result A

-- `if b: raise ValidationError(text)`
unfoldable pub raise_if : Bool → String → Result (Unit {0})
raise_if true text = err (invalid text)
raise_if false text = ok tt

-- `if k in d: …` with the value at `k`
unfoldable pub when_present {ℓ} :
    {A : Type ℓ} → Option A → (A → Result (Unit {0})) → Result (Unit {0})
when_present none check = ok tt
when_present (some v) check = check v

-- forget what a check returns
unfoldable pub only_check {ℓ} : {A : Type ℓ} → Result A → Result (Unit {0})
only_check (ok a) = ok tt
only_check (err e) = err e

infixl 5 ◌>>=◌ ◌>>◌
-- opening this opens the checks above too
unfoldable pub ◌>>=◌ {ℓ κ} : {A : Type ℓ} {B : Type κ} → Result A → (A → Result B) → Result B
unfolding raise_if when_present only_check
err e >>= next = err e
ok a >>= next = next a

abbrev pub ◌>>◌ {ℓ} : {B : Type ℓ} → Result (Unit {0}) → Result B → Result B
check >> rest = check >>= λ _. rest

-- A loop whose body may raise, and that collects what the bodies return.
unfoldable pub for_each {ℓ κ} :
    {A : Type ℓ} {B : Type κ} → (A → Result B) → List A → Result (List B)
for_each f [] = ok []
for_each f (x ∷ xs) = do y ← f x; ys ← for_each f xs; ok (y ∷ ys)

-- A loop whose body only checks.
unfoldable pub check_each {ℓ} : {A : Type ℓ} → (A → Result (Unit {0})) → List A → Result (Unit {0})
check_each f [] = ok tt
check_each f (x ∷ xs) = do f x; check_each f xs

-- Inversion of a block that returned, one step at a time, for goals that follow from what the
-- steps returned.
module _ {ℓ κ μ} {A : Type ℓ} {B : Type κ} {P : Type μ} {b : B} where
  pub step :
      (m : Result A) (f : A → Result B)
      → (m >>= f) ≡ ok b
      → ((a : A) → m ≡ ok a → f a ≡ ok b → P)
      → P
  unfolding ◌>>=◌
  step (ok a) f h k = k a refl h
  step (err e) f h k = absurd (cc)

module _ {κ μ} {B : Type κ} {P : Type μ} {b : B} where
  -- a step that returns nothing
  pub checked :
      (m : Result (Unit {0})) (rest : Result B)
      → (m >> rest) ≡ ok b
      → (m ≡ ok tt → rest ≡ ok b → P)
      → P
  unfolding ◌>>=◌
  checked (ok tt) rest h k = k refl h
  checked (err e) rest h k = absurd (cc)

  -- a test that did not raise
  pub passed :
      (c : Bool) (text : String) (rest : Result B)
      → (raise_if c text >> rest) ≡ ok b
      → (c ≡ false → rest ≡ ok b → P)
      → P
  unfolding ◌>>=◌
  passed true text rest h k = absurd (cc)
  passed false text rest h k = k refl h

  -- a negated test that did not raise
  pub required :
      (c : Bool) (text : String) (rest : Result B)
      → (raise_if (not c) text >> rest) ≡ ok b
      → (c ≡ true → rest ≡ ok b → P)
      → P
  unfolding ◌>>=◌
  required true text rest h k = k refl h
  required false text rest h k = absurd (cc)

-- A test on its own.
pub raise_if-ok : (c : Bool) (text : String) {u : Unit {0}} → raise_if c text ≡ ok u → c ≡ false
unfolding raise_if
raise_if-ok true text h = cc
raise_if-ok false text h = refl

pub ok-injective {ℓ} : {A : Type ℓ} {a b : A} → ok a ≡ ok b → a ≡ b
ok-injective h = cc

pub Result-cases {ℓ} :
    {A : Type ℓ} (r : Result A) → ((a : A) × (r ≡ ok a)) ⊎ ((e : Error) × (r ≡ err e))
Result-cases (ok a) = inl (a, refl)
Result-cases (err e) = inr (e, refl)

-- A loop that collects makes one result for each element.
pub length-for_each {ℓ κ} :
    {A : Type ℓ} {B : Type κ} (f : A → Result B) (xs : List A) {ys : List B}
    → for_each f xs ≡ ok ys
    → length ys ≡ length xs
unfolding for_each
length-for_each f [] h = subst (λ zs. length zs ≡ 0) (ok-injective h) refl
length-for_each f (x ∷ xs) h = step _ _ h λ y e h. step _ _ h λ rest later h.
    subst (λ zs. length zs ≡ suc (length xs)) (ok-injective h) (ap suc (length-for_each f xs later))

-- A branch of a conditional that returned.
pub branch {ℓ κ} :
    {A : Type ℓ} {P : Type κ} (c : Bool) (x y : Result A) {r : A}
    → (if c then x else y) ≡ ok r
    → (c ≡ true → x ≡ ok r → P)
    → (c ≡ false → y ≡ ok r → P)
    → P
branch true x y h k l = k refl h
branch false x y h k l = l refl h

pub only_check-ok {ℓ} :
    {A : Type ℓ} (m : Result A) {u : Unit {0}} → only_check m ≡ ok u → (a : A) × (m ≡ ok a)
unfolding only_check
only_check-ok (ok a) h = (a, refl)
only_check-ok (err e) h = absurd (cc)
