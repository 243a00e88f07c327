-- ===== src/Value/Checks.antt =====
-- The checks on one value that the validators of benchmarks/serving_common.py share.
use llm_inference_optimizati.Base.{
  ap, ◌≢◌, ◌≤◌, refl, str_eq_iff, ℕ, ◌≡◌, String, Bool, true, false, Option, none, some, List, ℤ,
  pos, pos_part, ltb_ℤ, ◌≤ℤ◌, arith, Error, Result, ok, err, ◌>>=◌, ◌>>◌, raise_if, not, ◌&&◌, ◌||◌,
  ◌==◌, if◌then◌else◌, str_eq,
}
use llm_inference_optimizati.Value.{
  Value, null, int, float, str, Fields, Floats, get, keys, subset, arr, obj, items, num_eq, is_null,
  Items, is_str, bool,
}

-- `_require_int`
unfoldable pub require_int : ℤ → Value → String → Result ℤ
require_int least (int n) name = if ltb_ℤ n least then err (Error.about name "must be >=") else ok n
require_int least v name = err (Error.about name "must be an integer")

-- `_require_int` with a minimum of zero or more: the result as a native number
unfoldable pub require_nat : ℕ → Value → String → Result ℕ
unfolding require_int
require_nat least v name = do n ← require_int (pos least) v name; ok (pos_part n)

-- `_require_str`
unfoldable pub require_str : Bool → Value → String → Result String
require_str allow_empty (str s) name =
    if str_eq s "" && not allow_empty then err (Error.about name "must be a string") else ok s
require_str allow_empty v name = err (Error.about name "must be a string")

-- `_field_int` on a field that may not be null: an absent field reads as null
unfoldable pub field_int : Fields → String → Result ℕ
field_int d name = elim (get d name) [
  | int n ↦
      if ltb_ℤ n (pos 0) then err (Error.about name "must be non-negative") else ok (pos_part n)
  | _ ↦ err (Error.about name "must be an integer")
]

-- `_field_int` with `nullable=True`
unfoldable pub nullable_int : Fields → String → Result (Option ℕ)
nullable_int d name = elim (get d name) [
  | null ↦ ok none
  | int n ↦
      if ltb_ℤ n (pos 0)
      then err (Error.about name "must be non-negative")
      else ok (some (pos_part n))
  | _ ↦ err (Error.about name "must be null or an integer")
]

-- `_nullable_str`
unfoldable pub nullable_str : Value → String → Result (Option String)
nullable_str null name = ok none
nullable_str (str s) name = ok (some s)
nullable_str v name = err (Error.about name "must be null or a string")

-- `_closed_fields`
unfoldable pub closed_fields : Fields → List String → Result (Unit {0})
closed_fields d names = do
  raise_if (not (subset names (keys d))) "missing field"
  raise_if (not (subset (keys d) names)) "unknown field"

module _ (fl : Floats) where
  is_number : Value → Bool
  is_number (int n) = true
  is_number (float x) = true
  is_number v = false

  -- `_exact_number`; `expected` is null or a number
  unfoldable pub exact_number : Value → Value → String → Result (Unit {0})
  unfolding is_number
  exact_number actual null name =
      if is_null actual then ok tt else err (Error.about name "must be null")
  exact_number actual expected name =
      if is_number actual && num_eq fl actual expected
      then ok tt
      else err (Error.about name "contradictory")

  -- `not math.isfinite(v) or not 0 <= v <= 1`, on a number
  in_unit_interval : Value → Bool
  in_unit_interval (int n) = not (ltb_ℤ n (pos 0)) && not (ltb_ℤ (pos 1) n)
  in_unit_interval (float x) =
      fl.is_finite x && not (fl.float_lt_int x (pos 0)) && not (fl.int_lt_float (pos 1) x)
  in_unit_interval v = false

  -- `_number_in_unit_interval`
  unfoldable pub unit_interval : Bool → Value → String → Result (Unit {0})
  unfolding in_unit_interval
  unit_interval nullable v name =
      if (nullable && is_null v) || in_unit_interval v
      then ok tt
      else err (Error.about name "must be a finite number in [0,1]")

-- `_conserved` on numbers
unfoldable pub conserved : ℕ → ℕ → String → Result (Unit {0})
conserved actual expected name =
    if actual == expected then ok tt else err (Error.about name "conservation mismatch")

-- What `_require_int` returns is the value, and at least the minimum.
pub require_int-ok :
    (least : ℤ) (v : Value) (name : String) {n : ℤ}
    → require_int least v name ≡ ok n
    → (v ≡ int n) × (least ≤ℤ n)
unfolding require_int
require_int-ok least v name h = ground arith

pub require_nat-ok :
    (least : ℕ) (v : Value) (name : String) {n : ℕ}
    → require_nat least v name ≡ ok n
    → (v ≡ int (pos n)) × (pos least ≤ℤ pos n)
unfolding require_nat ◌>>=◌
require_nat-ok least v name h = ground arith

pub require_str-ok :
    (v : Value) (name : String) {s : String} → require_str false v name ≡ ok s → v ≡ str s
unfolding require_str
require_str-ok v name h = ground arith

pub field_int-ok :
    (d : Fields) (name : String) {n : ℕ} → field_int d name ≡ ok n → get d name ≡ int (pos n)
unfolding field_int
field_int-ok d name h = ground arith

pub conserved-ok : (a b : ℕ) (name : String) → conserved a b name ≡ ok tt → a ≡ b
unfolding conserved
conserved-ok a b name h = ground arith

-- `if not isinstance(v, dict): raise ValidationError(text)`, and the dict
unfoldable pub as_obj : Value → String → Result Fields
as_obj (obj d) text = ok d
as_obj v text = err (Error.invalid text)

-- `if not isinstance(v, list): raise ValidationError(text)`, and the list
unfoldable pub as_arr : Value → String → Result (List Value)
as_arr (arr vs) text = ok (items vs)
as_arr v text = err (Error.invalid text)

pub is_str-eq : (v : Value) (t : String) → is_str v t ≡ true → v ≡ str t
is_str-eq (str s) t h = ap str ((str_eq_iff s t).0 h)
is_str-eq null t h = cc
is_str-eq (bool b) t h = cc
is_str-eq (int n) t h = cc
is_str-eq (float x) t h = cc
is_str-eq (arr vs) t h = cc
is_str-eq (obj d) t h = cc

pub is_str_of : (v : Value) (t : String) → v ≡ str t → is_str v t ≡ true
is_str_of v t e = rw e ((str_eq_iff t t).1 refl)

pub as_obj-ok : (v : Value) (text : String) {d : Fields} → as_obj v text ≡ ok d → v ≡ obj d
unfolding as_obj
as_obj-ok v text h = ground arith

pub as_arr-ok :
    (v : Value) (text : String) {ts : List Value}
    → as_arr v text ≡ ok ts
    → (vs : Items) × (v ≡ arr vs) × (ts ≡ items vs)
unfolding as_arr
as_arr-ok v text h = ground arith

pub require_str-ne :
    (v : Value) (name : String) {s : String} → require_str false v name ≡ ok s → s ≢ ""
unfolding require_str
require_str-ne v name {s} h e = ground (arith, str_eq_iff s "")

-- The checks on values that they accept.
pub require_str_of :
    (v : Value) (name : String) {s : String} → v ≡ str s → s ≢ "" → require_str false v name ≡ ok s
unfolding require_str
require_str_of v name {s} e ne = ground (arith, str_eq_iff s "")

pub require_nat_of :
    (least : ℕ) (v : Value) (name : String) {n : ℕ}
    → v ≡ int (pos n)
    → least ≤ n
    → require_nat least v name ≡ ok n
unfolding require_nat ◌>>=◌
require_nat_of least v name e h = ground arith
