-- ===== src/Workload/Generate/Accepted.antt =====
-- Every record that the generator makes is a workload record, as long as its tokens fit 32 bits.
use Prim.Native.String.{◌++◌ as text_append}
use Prim.Native.Char.{Char}
use Prim.Native.String.append
use llm_inference_optimizati.Base.{
  ℕ, zero, suc, ◌+◌, ◌-◌, ◌*◌, ◌%◌, ◌^◌, ◌≤◌, ◌≡◌, ◌≢◌, refl, sym, ◌∙◌, ap, String, true, false,
  List, [], ◌∷◌, ◌++◌, map, All, arith, length, contains, ok, ◌==◌, Bool, if◌then◌else◌, str_eq,
  Bool-cases, inl, inr,
}
use llm_inference_optimizati.Value.{Value, str, obj, array, items, lookup, get}
use llm_inference_optimizati.Workload.{workload_classes}
use llm_inference_optimizati.Workload.Record.{validate_workload_record}
use llm_inference_optimizati.Workload.Record.Spec.{IsToken, validate_workload_record_iff}
use llm_inference_optimizati.Workload.Random.{Rng}
use llm_inference_optimizati.Workload.Decimal.{padded}
use llm_inference_optimizati.Workload.Generate.{
  coding_group, mixed_updates, fixed_updates, updates, numbers_from, shared_tokens,
  shared_system_tokens, coding_agent_tokens, mixed_coding_tokens, nat, plain, with_tokens, update,
  request_id, base_record,
}

cons-ne-empty : (c : Char) (s : String) → String.◌∷◌ c s ≢ ""
cons-ne-empty c s = λ e. absurd (cc)

request_id-ne : (c : String) (i : ℕ) → request_id c i ≢ ""
unfolding request_id
request_id-ne String.[] i e =
    cons-ne-empty "-" (text_append "" (padded i))
      (sym (append.cons "-" "" (padded i)) ∙ (sym (append.nil _) ∙ e))
request_id-ne (String.◌∷◌ x c) i e = cons-ne-empty _ _ (sym (append.cons x c _) ∙ e)

-- The tokens of a record fit a signed 32-bit integer.
abbrev pub Fit : List ℕ → Type 0
Fit = All (λ t. t ≤ 2 ^ 31 - 1)

Fit-IsToken : (tokens : List ℕ) → Fit tokens → All IsToken (items (array (map nat tokens)))
Fit-IsToken [] h = tt
Fit-IsToken (t ∷ ts) h = ((omega arith, omega (arith, h.0)), Fit-IsToken ts h.1)

length-array : (tokens : List ℕ) → length (items (array (map nat tokens))) ≡ length tokens
length-array [] = refl
length-array (t ∷ ts) = ap suc (length-array ts)

Fit-numbers_from : (first n : ℕ) → first + n ≤ 2 ^ 31 → Fit (numbers_from first n)
unfolding numbers_from
Fit-numbers_from first zero h = tt
Fit-numbers_from first (suc n) h = (omega arith, Fit-numbers_from (first + 1) n (omega arith))

Fit-append : (xs ys : List ℕ) → Fit xs → Fit ys → Fit (xs ++ ys)
Fit-append [] ys h k = k
Fit-append (x ∷ xs) ys h k = (h.0, Fit-append xs ys h.1 k)

-- The largest index whose tokens fit, whatever the class.
abbrev pub max_index : ℕ
max_index = 214740

Fit-prompt :
    (g i m n first own : ℕ)
    → first + g * 10000 + m ≤ 2 ^ 31
    → own + i * 10000 + n ≤ 2 ^ 31
    → Fit (shared_tokens g m first ++ shared_tokens i n own)
unfolding shared_tokens
Fit-prompt g i m n first own h k =
    Fit-append (numbers_from (first + g * 10000) m) (numbers_from (own + i * 10000) n)
      (Fit-numbers_from (first + g * 10000) m h) (Fit-numbers_from (own + i * 10000) n k)

Fit-shared_system : (i : ℕ) → i ≤ max_index → Fit (shared_system_tokens i)
unfolding shared_system_tokens
Fit-shared_system i h = Fit-prompt 0 i 64 (8 + i % 5) 10000 20000 (omega arith) (omega arith)

Fit-coding_agent : (i : ℕ) → i ≤ max_index → Fit (coding_agent_tokens i)
unfolding coding_agent_tokens
Fit-coding_agent i h =
    Fit-prompt (i % 2) i 128 (24 + i % 17) 30000 50000 (omega arith) (omega arith)

Fit-mixed_coding : (i : ℕ) → i ≤ max_index → Fit (mixed_coding_tokens i)
unfolding mixed_coding_tokens
Fit-mixed_coding i h = Fit-prompt 0 i 96 (16 + i % 9) 70000 80000 (omega arith) (omega arith)

if_induction {ℓ κ} :
    {A : Type ℓ} (P : A → Type κ) (b : Bool) {x y : A} → P x → P y → P (if b then x else y)
if_induction P true p q = p
if_induction P false p q = q

module _ (c : String) (known : contains workload_classes c ≡ true)
    (index arrival line_number : ℕ) where
  -- The record with these changes is accepted as it is, under its id and with its arrival time.
  abbrev IsAccepted : List (String × Value) → Type 0
  IsAccepted changes =
      let d = update (base_record c index arrival) changes in
      (validate_workload_record (obj d) line_number ≡ ok d)
      × (get d "request_id" ≡ str (request_id c index))
      × (get d "arrival_time_us" ≡ nat arrival)

  plain-IsAccepted : (prompt new_tokens : ℕ) → IsAccepted (plain prompt new_tokens)
  unfolding update base_record lookup get
  plain-IsAccepted prompt new_tokens = (
    (validate_workload_record_iff _ line_number _).1 (
      refl,
      (
        record {
          request_id = request_id c index;
          arrival_time_us = arrival;
          prompt_token_count = prompt;
          max_new_tokens = new_tokens;
          workload_class = c;
        },
        record {
          known = refl;
          schema = refl;
          id = refl;
          id_nonempty = request_id-ne c index;
          arrival = refl;
          prompt = refl;
          new_tokens = refl;
          class = refl;
          class_known = known;
          tokens = tt;
          prefix_group = tt;
          deadline = tt;
          metadata = tt;
        },
      ),
    ),
    refl,
    refl,
  )

  with_tokens-IsAccepted :
      (tokens : List ℕ) (new_tokens : ℕ) (group : String)
      → Fit tokens
      → group ≢ ""
      → IsAccepted (with_tokens tokens new_tokens group)
  unfolding update base_record lookup get
  with_tokens-IsAccepted tokens new_tokens group fit named = (
    (validate_workload_record_iff _ line_number _).1 (
      refl,
      (
        record {
          request_id = request_id c index;
          arrival_time_us = arrival;
          prompt_token_count = length tokens;
          max_new_tokens = new_tokens;
          workload_class = c;
        },
        record {
          known = refl;
          schema = refl;
          id = refl;
          id_nonempty = request_id-ne c index;
          arrival = refl;
          prompt = refl;
          new_tokens = refl;
          class = refl;
          class_known = known;
          tokens = (Fit-IsToken tokens fit, length-array tokens);
          prefix_group = named;
          deadline = tt;
          metadata = tt;
        },
      ),
    ),
    refl,
    refl,
  )

  coding_group-ne : (g : ℕ) → coding_group g ≢ ""
  coding_group-ne zero = cons-ne-empty _ _
  coding_group-ne (suc g) = cons-ne-empty _ _

  mixed_updates-IsAccepted : index ≤ max_index → IsAccepted (mixed_updates index)
  unfolding mixed_updates
  mixed_updates-IsAccepted h = if_induction IsAccepted (index % 4 == 0) (plain-IsAccepted _ _) (
      if_induction IsAccepted (index % 4 == 1) (plain-IsAccepted _ _) (
        if_induction IsAccepted (index % 4 == 2)
          (with_tokens-IsAccepted _ _ _ (Fit-mixed_coding index h) (cons-ne-empty _ _))
          (plain-IsAccepted _ _)))

  fixed_updates-IsAccepted : index ≤ max_index → IsAccepted (fixed_updates c index)
  unfolding fixed_updates
  fixed_updates-IsAccepted h =
      if_induction IsAccepted (str_eq c "shared_system_prompt")
        (with_tokens-IsAccepted _ _ _ (Fit-shared_system index h) (cons-ne-empty _ _))
        (if_induction IsAccepted (str_eq c "coding_agent")
          (with_tokens-IsAccepted _ _ _ (Fit-coding_agent index h) (coding_group-ne (index % 2)))
          (if_induction IsAccepted (str_eq c "burst") (plain-IsAccepted _ _) (
            if_induction IsAccepted (str_eq c "overload") (plain-IsAccepted _ _)
              (mixed_updates-IsAccepted h))))

  -- Whatever numbers are drawn, the record of an index up to `max_index` is accepted.
  pub updates-IsAccepted :
      {S : Type 0} (rng : Rng S) (s : S) → index ≤ max_index → IsAccepted (updates rng c index s).0
  unfolding updates
  updates-IsAccepted rng s h = elim (Bool-cases (str_eq c "chat")) [
    | inl chat ↦ rw chat (plain-IsAccepted _ _)
    | inr other ↦ rw other (fixed_updates-IsAccepted h)
  ]
