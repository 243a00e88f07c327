-- ===== src/Workload/Record/Spec.antt =====
-- What a workload record is, apart from the order in which the validator looks: its required
-- fields have these values, and its optional fields, where they are there, fit.
use mathlib.Core.Bool.{false≢true}
use llm_inference_optimizati.Base.{
  ℕ, ◌^◌, ◌-◌, ◌≡◌, ◌≢◌, refl, String, true, false, Option, none, some, List, pos, negsuc, ◌≤ℤ◌,
  contains, length, All, arith, ok, err, Result, Error, check_each, [], ◌∷◌, inl, inr, ◌↔◌, step,
  Result-cases, ok-injective, subst, raise_if, checked, ==_iff, not-eq-false, required, raise_if-ok,
  when_present, only_check, not, ◌>>=◌,
}
use llm_inference_optimizati.Value.{
  Value, is_obj, int, str, arr, obj, Fields, get, keys, subset, lookup, items,
}
use llm_inference_optimizati.Value.Checks.{
  require_str-ok, require_str-ne, require_nat-ok, as_obj-ok, require_str_of, require_nat_of,
  require_nat, require_str, as_obj, as_arr, is_str-eq, is_str_of,
}
use llm_inference_optimizati.Workload.{workload_schema_version, workload_classes}
use llm_inference_optimizati.Workload.Record.{
  record_fields, at_line, validate_workload_record, check_record, check_token, check_tokens,
}

-- What the required fields say.
pub record View : Type 0 where
  pub request_id : String
  pub arrival_time_us : ℕ
  pub prompt_token_count : ℕ
  pub max_new_tokens : ℕ
  pub workload_class : String

abbrev pub IsToken : Value → Type 0
IsToken (int n) = (negsuc (2 ^ 31 - 1) ≤ℤ n) × (n ≤ℤ pos (2 ^ 31 - 1))
IsToken _ = ⊥

abbrev pub Tokens : ℕ → Option Value → Type 0
Tokens n none = Unit
Tokens n (some (arr ts)) = All IsToken (items ts) × (length (items ts) ≡ n)
Tokens n (some _) = ⊥

abbrev pub NonemptyText : Option Value → Type 0
NonemptyText none = Unit
NonemptyText (some (str s)) = s ≢ ""
NonemptyText (some _) = ⊥

abbrev pub Natural : Option Value → Type 0
Natural none = Unit
Natural (some (int (pos n))) = Unit
Natural (some _) = ⊥

abbrev pub Object : Option Value → Type 0
Object none = Unit
Object (some (obj d)) = Unit
Object (some _) = ⊥

pub record IsWorkloadRecord (d : Fields) (w : View) : Type 0 where
  pub known : subset (keys d) record_fields ≡ true
  pub schema : get d "schema_version" ≡ str workload_schema_version
  pub id : get d "request_id" ≡ str w.request_id
  pub id_nonempty : w.request_id ≢ ""
  pub arrival : get d "arrival_time_us" ≡ int (pos w.arrival_time_us)
  pub prompt : get d "prompt_token_count" ≡ int (pos w.prompt_token_count)
  pub new_tokens : get d "max_new_tokens" ≡ int (pos w.max_new_tokens)
  pub class : get d "workload_class" ≡ str w.workload_class
  pub class_known : contains workload_classes w.workload_class ≡ true
  pub tokens : Tokens w.prompt_token_count (lookup "prompt_tokens" d)
  pub prefix_group : NonemptyText (lookup "prefix_group" d)
  pub deadline : Natural (lookup "deadline_us" d)
  pub metadata : Object (lookup "metadata" d)

check_token-IsToken : (v : Value) → check_token v ≡ ok tt → IsToken v
unfolding check_token ◌>>=◌
check_token-IsToken v h = ground arith

IsToken-check_token : (v : Value) → IsToken v → check_token v ≡ ok tt
unfolding check_token ◌>>=◌
IsToken-check_token v h = ground arith

check_each-All : (ts : List Value) → check_each check_token ts ≡ ok tt → All IsToken ts
unfolding check_each
check_each-All [] h = tt
check_each-All (t ∷ ts) h =
    checked _ _ h λ here later. (check_token-IsToken t here, check_each-All ts later)

All-check_each : (ts : List Value) → All IsToken ts → check_each check_token ts ≡ ok tt
unfolding check_each ◌>>=◌
All-check_each [] h = refl
All-check_each (t ∷ ts) h = rw (IsToken-check_token t h.0) (All-check_each ts h.1)

check_tokens-Tokens :
    (n : ℕ) (o : Option Value) → when_present o (check_tokens n) ≡ ok tt → Tokens n o
unfolding check_tokens when_present as_arr
check_tokens-Tokens n none h = tt
check_tokens-Tokens n (some (arr ts)) h = step _ _ h λ vs e h. checked _ _ h λ each size.
    let same : items ts ≡ vs = cc in
    rw same (check_each-All vs each, (==_iff _ _).0 (not-eq-false _ (raise_if-ok _ _ size)))
check_tokens-Tokens n (some v) h = step _ _ h λ vs e h. absurd (cc)

Tokens-check_tokens :
    (n : ℕ) (o : Option Value) → Tokens n o → when_present o (check_tokens n) ≡ ok tt
unfolding check_tokens ◌>>=◌ as_arr
Tokens-check_tokens n none h = refl
Tokens-check_tokens n (some (arr ts)) h = rw (All-check_each (items ts) h.0) (ground arith)
Tokens-check_tokens n (some v) h = absurd h

-- Some view of the record fits.
abbrev pub IsRecord : Fields → Type 0
IsRecord d = (w : View) × IsWorkloadRecord d w

prefix_group-NonemptyText :
    (o : Option Value)
    → when_present o (λ g. only_check (require_str false g "prefix_group")) ≡ ok tt
    → NonemptyText o
unfolding when_present only_check
prefix_group-NonemptyText none h = tt
prefix_group-NonemptyText (some v) h = elim (Result-cases (require_str false v "prefix_group")) [
  | inl (s, e) ↦ rw (require_str-ok v _ e) (require_str-ne v _ e)
  | inr (x, e) ↦ absurd (ground arith)
]

deadline-Natural :
    (o : Option Value)
    → when_present o (λ t. only_check (require_nat 0 t "deadline_us")) ≡ ok tt
    → Natural o
unfolding require_nat ◌>>=◌
deadline-Natural o h = ground arith

metadata-Object :
    (o : Option Value)
    → when_present o (λ m. raise_if (not (is_obj m)) "metadata must be an object") ≡ ok tt
    → Object o
unfolding when_present raise_if
metadata-Object o h = ground arith

check_record_sound : (v : Value) {d : Fields} → check_record v ≡ ok d → (v ≡ obj d) × IsRecord d
unfolding check_record
check_record_sound v h = step _ _ h λ r is_dict h. required _ _ _ h λ known h.
    required _ _ _ h λ schema h. step _ _ h λ id id_ok h. step _ _ h λ arrival arrival_ok h.
      step _ _ h λ prompt prompt_ok h. step _ _ h λ new_tokens new_ok h.
        step _ _ h λ class class_ok h. required _ _ _ h λ class_known h.
          checked _ _ h λ tokens_ok h. checked _ _ h λ group_ok h. checked _ _ h λ deadline_ok h.
            checked _ _ h λ metadata_ok h.
              subst (λ x. (v ≡ obj x) × IsRecord x) (ok-injective h)
                (
                  as_obj-ok v _ is_dict,
                  (
                    record {
                      request_id = id;
                      arrival_time_us = arrival;
                      prompt_token_count = prompt;
                      max_new_tokens = new_tokens;
                      workload_class = class;
                    },
                    record {
                      known = known;
                      schema = is_str-eq _ _ schema;
                      id = require_str-ok _ _ id_ok;
                      id_nonempty = require_str-ne _ _ id_ok;
                      arrival = (require_nat-ok 0 _ _ arrival_ok).0;
                      prompt = (require_nat-ok 0 _ _ prompt_ok).0;
                      new_tokens = (require_nat-ok 0 _ _ new_ok).0;
                      class = require_str-ok _ _ class_ok;
                      class_known = class_known;
                      tokens = check_tokens-Tokens prompt _ tokens_ok;
                      prefix_group = prefix_group-NonemptyText _ group_ok;
                      deadline = deadline-Natural _ deadline_ok;
                      metadata = metadata-Object _ metadata_ok;
                    },
                  ),
                )

NonemptyText-prefix_group :
    (o : Option Value)
    → NonemptyText o
    → when_present o (λ g. only_check (require_str false g "prefix_group")) ≡ ok tt
unfolding when_present only_check
NonemptyText-prefix_group none h = refl
NonemptyText-prefix_group (some (str s)) h = rw (require_str_of (str s) "prefix_group" refl h)
NonemptyText-prefix_group (some v) h = absurd h

Natural-deadline :
    (o : Option Value)
    → Natural o
    → when_present o (λ t. only_check (require_nat 0 t "deadline_us")) ≡ ok tt
unfolding require_nat ◌>>=◌
Natural-deadline o h = ground arith

at_line-ok : (n : ℕ) (r : Result Fields) {d : Fields} → at_line n r ≡ ok d → r ≡ ok d
at_line-ok n (ok a) h = h
at_line-ok n (err (Error.invalid t)) h = cc
at_line-ok n (err (Error.about k t)) h = cc
at_line-ok n (err (Error.in_line k e)) h = cc
at_line-ok n (err (Error.key_error k)) h = cc
at_line-ok n (err Error.type_error) h = cc

pub class-ne : (s : String) → contains workload_classes s ≡ true → s ≢ ""
class-ne s h e = false≢true (subst (λ t. contains workload_classes t ≡ true) e h)

Object-metadata :
    (o : Option Value)
    → Object o
    → when_present o (λ m. raise_if (not (is_obj m)) "metadata must be an object") ≡ ok tt
unfolding when_present raise_if
Object-metadata o h = ground arith

check_record_complete : (d : Fields) (w : View) → IsWorkloadRecord d w → check_record (obj d) ≡ ok d
unfolding check_record as_obj ◌>>=◌
check_record_complete d w h = ground (
  arith,
  require_str_of _ "request_id" h.id h.id_nonempty,
  require_nat_of 0 _ "arrival_time_us" h.arrival (omega arith),
  require_nat_of 0 _ "prompt_token_count" h.prompt (omega arith),
  require_nat_of 0 _ "max_new_tokens" h.new_tokens (omega arith),
  require_str_of _ "workload_class" h.class (class-ne _ h.class_known),
  Tokens-check_tokens w.prompt_token_count _ h.tokens,
  NonemptyText-prefix_group _ h.prefix_group,
  Natural-deadline _ h.deadline,
  Object-metadata _ h.metadata,
  is_str_of _ _ h.schema,
)

-- `validate_workload_record` returns a record exactly when the value is a JSON object that is a
-- workload record, and then it returns that object.
pub validate_workload_record_iff :
    (v : Value) (line_number : ℕ) (d : Fields)
    → (validate_workload_record v line_number ≡ ok d) ↔ ((v ≡ obj d) × IsRecord d)
unfolding validate_workload_record
validate_workload_record_iff v line_number d = (
  (λ h. check_record_sound v (at_line-ok line_number _ h)),
  λ h. rw (h.0, check_record_complete d h.1.0 h.1.1),
)
